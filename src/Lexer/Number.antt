-- ===== src/Lexer/Number.antt =====
-- internal/lexer/lexer.go: number literals, the digit branch of `lexLine`.
pub mod Value
use tya.Prelude.{
  ℕ, zero, suc, ◌+◌, ◌-◌, ◌*◌, ◌/◌, ◌%◌, ◌^◌, Bool, true, false, ◌&&◌, ◌||◌, List, [], ◌∷◌, ◌++◌,
  Option, none, some, ◌≡◌, refl, ltb, leb, ◌==◌, if◌then◌else◌, Bytes, codes, get_elem?, drop,
  length,
}
use tya.Text.{byte_is, byte_in}
use tya.Token.{TokenType, int, float}
use tya.Lexer.State.{
  Prefix, hex, binary, needs_digit, invalid_digit, invalid_literal, LexError, plain,
}
use tya.Lexer.Bytes.{is_digit, is_alpha, hex_digit}

-- The digits that a loop over a literal collects, and how many bytes it passes.
pub record Digits : Type 0 where
  pub digits : Bytes
  pub width : ℕ

abbrev no_digits : Digits
no_digits = record { digits = []; width = 0 }

abbrev digit : ℕ → Digits → Digits
digit c r = record { digits = c ∷ r.digits; width = r.width + 1 }

abbrev separator : Digits → Digits
separator r = record { digits = r.digits; width = r.width + 1 }

-- The value of a digit of a base, which is 16 or 2.
unfoldable pub digit_of : Prefix → ℕ → Option ℕ
unfolding hex_digit
digit_of hex c = hex_digit c
digit_of binary c = if c == b'0' || c == b'1' then some (c - b'0') else none

-- The loop after `0x` or `0b`; underscores may stand anywhere.
unfoldable pub prefixed_digits : Prefix → Bytes → Digits
unfolding digit_of
prefixed_digits p [] = no_digits
prefixed_digits p (c ∷ s) =
    let rest = prefixed_digits p s in
    if c == b'_'
    then separator rest
    else elim (digit_of p c) [ none ↦ no_digits | some _ ↦ digit c rest ]

-- The loops over decimal digits; an underscore must stand in front of a digit.
unfoldable pub decimal_digits : Bytes → Digits
decimal_digits [] = no_digits
decimal_digits (c ∷ s) =
    let rest = decimal_digits s in
    if c == b'_'
    then (if byte_in s 0 b'0' b'9' then separator rest else no_digits)
    else if is_digit c
    then digit c rest
    else no_digits

abbrev pub base_of : Prefix → ℕ
base_of hex = 16
base_of binary = 2

-- The number that digits of a prefix spell behind `n`; a byte that is no digit counts 0.
unfoldable pub value_from : Prefix → ℕ → Bytes → ℕ
unfolding digit_of
value_from p n [] = n
value_from p n (c ∷ s) =
    value_from p (n * base_of p + elim (digit_of p c) [ none ↦ 0 | some d ↦ d ]) s

-- `strconv.ParseInt(s, base, 64)` on a text of digits: it refuses what no int64 holds.
unfoldable pub parse_int : Prefix → Bytes → Option ℕ
unfolding value_from
parse_int p s = let n = value_from p 0 s in if ltb n (2 ^ 63) then some n else none

-- `strconv.FormatInt(n, 10)` of a number that is not negative, in `fuel` digits at most.
unfoldable pub format_fuel : (fuel n : ℕ) → Bytes
format_fuel zero n = []
format_fuel (suc fuel) n =
    let front = format_fuel fuel (n / 10) ++ ((b'0' + n % 10) ∷ []) in
    if ltb n 10 then (b'0' + n) ∷ [] else front

-- An int64 has 19 digits at most.
unfoldable pub format_int : ℕ → Bytes
unfolding format_fuel
format_int n = format_fuel 19 n

-- A literal is a token of so many bytes, or an error.
pub data Literal : Type 0 where
  literal : TokenType → (lexeme : Bytes) → (width : ℕ) → Literal
  bad : LexError → Literal

-- The end of that branch: the value is written in decimal.
unfoldable pub prefixed_token : Prefix → (line col : ℕ) → Digits → Literal
unfolding parse_int format_int
prefixed_token p line col r = elim (parse_int p r.digits) [
  | none ↦ bad (plain (invalid_literal p) line col)
  | some n ↦ literal int (format_int n) (2 + r.width)
]

-- `0x…` and `0b…`, on the rest from the zero on, which stands at `col`.
unfoldable pub prefixed_literal : Prefix → (line col : ℕ) → Bytes → Literal
unfolding prefixed_digits prefixed_token
prefixed_literal p line col s =
    let r = prefixed_digits p (drop 2 s) in
    let next = drop (2 + r.width) s in
    if length r.digits == 0 then bad (plain (needs_digit p) line col) else elim (get_elem? next 0) [
      | some c ↦
          if is_alpha c || is_digit c
          then bad (plain (invalid_digit c p) line (col + 2 + r.width))
          else prefixed_token p line col r
      | none ↦ prefixed_token p line col r
    ]

-- A decimal literal, with a fraction or none. Its first byte is a digit.
unfoldable pub decimal_literal : Bytes → Literal
unfolding decimal_digits
decimal_literal s =
    let whole = decimal_digits s in
    let next = drop whole.width s in
    let part = decimal_digits (drop 1 next) in
    if byte_is next 0 b'.' && byte_in next 1 b'0' b'9'
    then literal float (whole.digits ++ (b'.' ∷ part.digits)) (whole.width + 1 + part.width)
    else literal int whole.digits whole.width

-- The digit branch: which kind of literal stands at the front of `s`.
unfoldable pub number_literal : (line col : ℕ) → Bytes → Literal
unfolding prefixed_literal decimal_literal
number_literal line col s =
    if byte_is s 0 b'0' && (byte_is s 1 b'x' || byte_is s 1 b'X')
    then prefixed_literal hex line col s
    else if byte_is s 0 b'0' && (byte_is s 1 b'b' || byte_is s 1 b'B')
    then prefixed_literal binary line col s
    else decimal_literal s

number_tests :
    (number_literal 1 1 (codes "0xF_f+1") ≡ literal int (codes "255") 5)
    × (number_literal 1 1 (codes "0b12") ≡ bad (plain (invalid_digit b'2' binary) 1 4))
    × (number_literal 1 1 (codes "1_000.5_0x") ≡ literal float (codes "1000.50") 9)
    × (number_literal 1 1 (codes "7_.x") ≡ literal int (codes "7") 1)
    × (number_literal 2 3 (codes "0xffffffffffffffff") ≡ bad (plain (invalid_literal hex) 2 3))
    × (number_literal 2 3 (codes "0x7fffffffffffffff")
        ≡ literal int (codes "9223372036854775807") 18)
unfolding number_literal
number_tests = (refl, refl, refl, refl, refl, refl)

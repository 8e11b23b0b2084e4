-- ===== src/Lexer/Number/Value.antt =====
-- A literal with a prefix keeps its value when it is written in decimal.
use native.Mathlib.Nat.{pow-suc}
use mathlib.Core.List.{foldl}
use tya.Prelude.{
  ℕ, zero, suc, ◌+◌, ◌-◌, ◌*◌, ◌/◌, ◌%◌, ◌^◌, ◌≤◌, ◌<◌, [], ◌∷◌, ◌++◌, Option, none, some, ◌≡◌,
  refl, sym, ap, ◌∙◌, arith, ltb, if◌then◌else◌, Bool-cases, inl, inr, ◌⊎◌, Bytes, All, All-append,
  drop, get_elem?, subst, length, ◌==◌, ◌||◌,
}
use tya.Token.{TokenType, int}
use tya.Lexer.State.{Prefix, plain, invalid_digit}
use tya.Lexer.Bytes.{is_alpha, is_digit}
use tya.Lexer.Number.{
  Digits, prefixed_digits, value_from, parse_int, format_fuel, format_int, literal, bad,
  prefixed_token, prefixed_literal,
}

-- The number that decimal digits spell behind `n`.
abbrev pub decimal_from : ℕ → Bytes → ℕ
decimal_from = foldl (λ n c. n * 10 + (c - b'0'))

abbrev pub IsDigit : ℕ → Type 0
IsDigit c = (b'0' ≤ c) × (c ≤ b'9')

decimal_from-append :
    (n : ℕ) (s : Bytes) (c : ℕ) → decimal_from n (s ++ c ∷ []) ≡ decimal_from n s * 10 + (c - b'0')
decimal_from-append n [] c = refl
decimal_from-append n (d ∷ s) c = decimal_from-append (n * 10 + (d - b'0')) s c

-- One digit, and all digits but the last.
format_fuel_small : (fuel n : ℕ) → n < 10 → format_fuel (suc fuel) n ≡ (b'0' + n) ∷ []
unfolding format_fuel
format_fuel_small fuel n h = ground arith

format_fuel_large :
    (fuel n : ℕ)
    → 10 ≤ n
    → format_fuel (suc fuel) n ≡ format_fuel fuel (n / 10) ++ (b'0' + n % 10) ∷ []
unfolding format_fuel
format_fuel_large fuel n h = ground arith

-- The print of a number is made of digits that spell it, if there are enough.
abbrev pub Prints : ℕ → Bytes → Type 0
Prints n s = (decimal_from 0 s ≡ n) × All IsDigit s

Prints-concat : (n : ℕ) (s : Bytes) → Prints (n / 10) s → Prints n (s ++ (b'0' + n % 10) ∷ [])
Prints-concat n s (v, d) = (
  decimal_from-append 0 s (b'0' + n % 10) ∙ omega (arith, v),
  All-append IsDigit s ((b'0' + n % 10) ∷ []) d ((omega arith, omega arith), tt),
)

format_fuel-Prints : (fuel n : ℕ) → n < 10 ^ suc fuel → Prints n (format_fuel (suc fuel) n)
format_fuel-Prints zero n h =
    rw (format_fuel_small 0 n h) (omega arith, ((omega arith, omega arith), tt))
format_fuel-Prints (suc fuel) n h = elim (Bool-cases (ltb n 10)) [
  | inl e ↦
      let small : n < 10 = ground arith in
      rw (format_fuel_small (suc fuel) n small) (omega arith, ((omega arith, omega arith), tt))
  | inr e ↦ rw (format_fuel_large (suc fuel) n (ground arith)) (
      Prints-concat n (format_fuel (suc fuel) (n / 10))
        (format_fuel-Prints fuel (n / 10) (omega (arith, pow-suc 10 (suc fuel)))))
]

-- `strconv.FormatInt` gives every int64 its decimal digits.
pub format_int-Prints : (n : ℕ) → n < 2 ^ 63 → Prints n (format_int n)
unfolding format_int
format_int-Prints n h = format_fuel-Prints 18 n (omega arith)

abbrev pub KeepsValue : Prefix → Digits → (width : ℕ) → TokenType → Bytes → Type 0
KeepsValue p r width t lexeme =
    (t ≡ int)
    × (decimal_from 0 lexeme ≡ value_from p 0 r.digits)
    × All IsDigit lexeme
    × (value_from p 0 r.digits < 2 ^ 63)
    × (width ≡ 2 + r.width)

parse_int_cases :
    (p : Prefix) (s : Bytes)
    → ((parse_int p s ≡ some (value_from p 0 s)) × (value_from p 0 s < 2 ^ 63))
      ⊎ (parse_int p s ≡ none)
unfolding parse_int
parse_int_cases p s = elim (Bool-cases (ltb (value_from p 0 s) (2 ^ 63))) [
  | inl e ↦ inl (rw e refl, ground arith)
  | inr e ↦ inr (rw e refl)
]

prefixed_token-KeepsValue :
    (p : Prefix) (line col : ℕ) (r : Digits) {t : TokenType} {lexeme : Bytes} {w : ℕ}
    → prefixed_token p line col r ≡ literal t lexeme w
    → KeepsValue p r w t lexeme
unfolding prefixed_token
prefixed_token-KeepsValue p line col r {t} {lexeme} {w} h = elim (parse_int_cases p r.digits) [
  | inl (e, fits) ↦
      let v = value_from p 0 r.digits in
      let made : literal int (format_int v) (2 + r.width) ≡ literal t lexeme w =
        rw (e, prefixed_token) at h in
      let (value, digits) = format_int-Prints v fits in
      let same : format_int v ≡ lexeme = cc in
      (cc, ap (decimal_from 0) (sym same) ∙ value, subst (All IsDigit) same digits, fits, cc)
  | inr e ↦ cc (rw (e, prefixed_token) at h)
]

-- A literal `0x…` or `0b…` that the lexer accepts is an INT token. Its lexeme is made of decimal
-- digits and spells the value of the literal's digits in base 16 or 2; the value fits an int64; and
-- the literal is as wide as its prefix and what the loop over digits and underscores passes.
pub prefixed_literal-KeepsValue :
    (p : Prefix) (line col : ℕ) (s : Bytes) {t : TokenType} {lexeme : Bytes} {w : ℕ}
    → prefixed_literal p line col s ≡ literal t lexeme w
    → KeepsValue p (prefixed_digits p (drop 2 s)) w t lexeme
unfolding prefixed_literal
prefixed_literal-KeepsValue p line col s {t} {lexeme} {w} h =
    elim (Bool-cases (length r.digits == 0)) [
      | inl e ↦ cc (rw e at h)
      | inr e ↦ go (get_elem? (drop (2 + r.width) s) 0) (rw e at h)
    ]
  where
    r : Digits
    r = prefixed_digits p (drop 2 s)

    go :
        (o : Option ℕ)
        → elim o [
          | some c ↦
              if is_alpha c || is_digit c
              then bad
                  (plain (invalid_digit c p) line (col + 2 + (prefixed_digits p (drop 2 s)).width))
              else prefixed_token p line col (prefixed_digits p (drop 2 s))
          | none ↦ prefixed_token p line col (prefixed_digits p (drop 2 s))
        ]
          ≡ literal t lexeme w
        → KeepsValue p (prefixed_digits p (drop 2 s)) w t lexeme
    go none e = prefixed_token-KeepsValue p line col (prefixed_digits p (drop 2 s)) e
    go (some c) e = elim (Bool-cases (is_alpha c || is_digit c)) [
      | inl a ↦ cc (rw a at e)
      | inr a ↦ prefixed_token-KeepsValue p line col (prefixed_digits p (drop 2 s)) (rw a at e)
    ]

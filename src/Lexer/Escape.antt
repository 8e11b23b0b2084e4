-- ===== src/Lexer/Escape.antt =====
-- internal/lexer/lexer.go: the bodies of string literals, their escapes and interpolations.
-- Each loop over a body is `scan` with a function for what one round does at the rest of the text.
pub mod Hex
use tya.Prelude.{
  ℕ, zero, suc, ◌+◌, ◌-◌, ◌*◌, Bool, true, false, not, ◌&&◌, ◌||◌, List, [], ◌∷◌, ◌++◌, Option,
  none, some, ◌≡◌, refl, ltb, leb, ◌==◌, if◌then◌else◌, Bytes, codes, get_elem?, take, drop, length,
}
use tya.Text.{byte_is}
use tya.Interp.{find_expr_end, looks_like_dict_expr_start}
use tya.Lexer.State.{
  tya_e0007, tya_e0008, Reason, unterminated_escape, truncated_hex, invalid_hex, unknown_escape,
  LexError, diag, plain,
}
use tya.Lexer.Bytes.{hex_digit}

-- A round fails, meets the closing quote, or writes `out` and goes on behind `skip` further bytes.
pub data Round : Type 0 where
  fail : LexError → Round
  closed : Round
  on : (skip : ℕ) (out : Bytes) → Round

-- A loop fails, meets the closing quote at an offset, or reads all of the text.
pub data Outcome : Type 0 where
  failed : LexError → Outcome
  closed_at : (offset : ℕ) (out : Bytes) → Outcome
  ended : (out : Bytes) → Outcome

-- `for i := …; i < len(s); i++`, with `i` the offset of the rest; a round sees `i` and the rest.
unfoldable pub scan : (ℕ → Bytes → Round) → (skip i : ℕ) (out : Bytes) → Bytes → Outcome
scan round skip i out [] = ended out
scan round (suc skip) i out (c ∷ s) = scan round skip (i + 1) out s
scan round zero i out (c ∷ s) = elim (round i (c ∷ s)) [
  | fail e ↦ failed e
  | closed ↦ closed_at i out
  | on k w ↦ scan round k (i + 1) (out ++ w) s
]

-- What an escape in every kind of literal stands for.
unfoldable pub common_escape : ℕ → Option Bytes
common_escape d =
    if d == b'n'
    then some (b'\n' ∷ [])
    else if d == b't'
    then some (b'\t' ∷ [])
    else if d == b'r'
    then some (b'\r' ∷ [])
    else if d == b'"'
    then some (b'"' ∷ [])
    else if d == b'\\'
    then some (b'\\' ∷ [])
    else none

-- `\xHH`, on the rest from its backslash on.
unfoldable pub hex_escape : (line col : ℕ) → Bytes → Round
unfolding hex_digit
hex_escape line col s = elim (get_elem? s 3) [
  | none ↦ fail (plain truncated_hex line col)
  | some d ↦ elim (get_elem? s 2) [
    | none ↦ fail (plain truncated_hex line col)
    | some c ↦ elim (hex_digit c) [
      | none ↦ fail (plain invalid_hex line col)
      | some hi ↦ elim (hex_digit d) [
        | none ↦ fail (plain invalid_hex line col)
        | some lo ↦ on 3 ((hi * 16 + lo) ∷ [])
      ]
    ]
  ]
]

-- A round of `interpretBytesEscapes`, whose text starts at `col`.
unfoldable pub bytes_round : (line col i : ℕ) → Bytes → Round
unfolding hex_escape common_escape
bytes_round line col i [] = closed
bytes_round line col i (c ∷ s) = if not (c == b'\\') then on 0 (c ∷ []) else elim (get_elem? s 0) [
  | none ↦ fail (plain unterminated_escape line (col + i))
  | some d ↦ elim (common_escape d) [
    | some w ↦ on 1 w
    | none ↦
        if d == b'x'
        then hex_escape line (col + i) (c ∷ s)
        else fail (plain (unknown_escape d) line (col + i))
  ]
]

-- The interpolations in a body: `{{`, and an expression up to its closing brace, in parentheses if
-- it is a dictionary. `none` is any other text.
unfoldable pub brace_round : Bytes → Option Round
unfolding find_expr_end looks_like_dict_expr_start
brace_round s =
    let dict = looks_like_dict_expr_start s in
    if byte_is s 0 b'{' && byte_is s 1 b'{' && not dict
    then some (on 1 (codes "{{"))
    else if byte_is s 0 b'{'
    then elim (find_expr_end s) [
      | none ↦ none
      | some close ↦ some (
          on close (
            if dict
            then codes "{(" ++ (drop 1 (take close s) ++ codes ")}")
            else take (close + 1) s))
    ]
    else none

-- A backslash and what follows it in a body that is no bytes literal; `extra` gives the escapes
-- beyond the common ones.
unfoldable pub escape_round : (extra : ℕ → Option Bytes) (line col i : ℕ) → Bytes → Round
unfolding common_escape
escape_round extra line col i s = elim (get_elem? s 1) [
  | none ↦ fail (diag tya_e0007 line (col + i) 1)
  | some d ↦ elim (common_escape d) [
    | some w ↦ on 1 w
    | none ↦ elim (extra d) [ some w ↦ on 1 w | none ↦ fail (diag tya_e0008 line (col + i) 2) ]
  ]
]

unfoldable pub brace_escape : ℕ → Option Bytes
brace_escape d = if d == b'{' then some (codes "\\{") else none

-- A round of `interpretEscapes`.
unfoldable pub text_round : (line col i : ℕ) → Bytes → Round
unfolding brace_round escape_round brace_escape
text_round line col i [] = closed
text_round line col i (c ∷ s) = elim (brace_round (c ∷ s)) [
  | some r ↦ r
  | none ↦ if c == b'\\' then escape_round brace_escape line col i (c ∷ s) else on 0 (c ∷ [])
]

-- What `encodeRawString` writes for a byte, and `interpretSingleQuotedEscapes` for a brace.
unfoldable pub raw_byte : ℕ → Bytes
raw_byte c = if c == b'{' then codes "{{" else if c == b'}' then codes "}}" else c ∷ []

unfoldable pub single_escape : ℕ → Option Bytes
unfolding brace_escape
single_escape d = if d == b'\'' then some (b'\'' ∷ []) else brace_escape d

-- A round of `interpretSingleQuotedEscapes`.
unfoldable pub single_round : (line col i : ℕ) → Bytes → Round
unfolding raw_byte escape_round single_escape
single_round line col i [] = closed
single_round line col i (c ∷ s) =
    if c == b'\\' then escape_round single_escape line col i (c ∷ s) else on 0 (raw_byte c)

unfoldable pub interpret_bytes_escapes : Bytes → (line col : ℕ) → Outcome
unfolding scan bytes_round
interpret_bytes_escapes s line col = scan (bytes_round line col) 0 0 [] s

unfoldable pub interpret_escapes : Bytes → (line col : ℕ) → Outcome
unfolding scan text_round
interpret_escapes s line col = scan (text_round line col) 0 0 [] s

unfoldable pub interpret_single_quoted_escapes : Bytes → (line col : ℕ) → Outcome
unfolding scan single_round
interpret_single_quoted_escapes s line col = scan (single_round line col) 0 0 [] s

-- `encodeRawString`.
unfoldable pub encode_raw_string : Bytes → Bytes
unfolding raw_byte
encode_raw_string [] = []
encode_raw_string (c ∷ s) = raw_byte c ++ encode_raw_string s

escape_tests :
    (interpret_bytes_escapes (codes "a\\x4f\\n") 1 1 ≡ ended (codes "aO\n"))
    × (interpret_bytes_escapes (codes "a\\x4") 1 3 ≡ failed (plain truncated_hex 1 4))
    × (interpret_escapes (codes "{{a} {b\\} \\{") 1 1 ≡ ended (codes "{{a} {b\\} \\{"))
    × (interpret_escapes (codes "{{\"k\": 1}}") 1 1 ≡ ended (codes "{({\"k\": 1})}"))
    × (interpret_escapes (codes "ab\\q") 2 5 ≡ failed (diag tya_e0008 2 7 2))
    × (interpret_single_quoted_escapes (codes "{\\'") 1 1 ≡ ended (codes "{{'"))
unfolding interpret_bytes_escapes interpret_escapes interpret_single_quoted_escapes
escape_tests = (refl, refl, refl, refl, refl, refl)

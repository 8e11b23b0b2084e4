-- ===== src/Lexer/Quoted.antt =====
-- internal/lexer/lexer.go: string literals on one line, the four quote branches of `lexLine`.
use tya.Prelude.{
  ℕ, ◌+◌, [], ◌∷◌, none, some, ◌≡◌, refl, ◌==◌, if◌then◌else◌, Bytes, codes, get_elem?, drop,
}
use tya.Text.{byte_is}
use tya.Token.{string, bytes, Token, single}
use tya.Lexer.State.{
  tya_e0006, tya_e0007, unterminated_bytes, unknown_escape, LexError, diag, plain, plain_token,
  string_token,
}
use tya.Lexer.Escape.{
  Round, fail, closed, on, Outcome, failed, closed_at, ended, scan, bytes_round, brace_round,
  escape_round, raw_byte, interpret_single_quoted_escapes,
}

-- A literal is a token, whose closing quote has an offset, or an error that ends the line.
pub data Quoted : Type 0 where
  quoted : Token → (close : ℕ) → Quoted
  broken : LexError → Quoted

-- What becomes of the outcome of a loop over a body.
abbrev pub finish : Outcome → (Bytes → Token) → LexError → Quoted
finish (failed e) make open_end = broken e
finish (closed_at i out) make open_end = quoted (make out) i
finish (ended _) make open_end = broken open_end

abbrev pub until : ℕ → (ℕ → Bytes → Round) → ℕ → Bytes → Round
until quote round i s = if byte_is s 0 quote then closed else round i s

-- `r"…"`, on the rest from the `r` on, which stands at `col`.
unfoldable pub raw_round : ℕ → Bytes → Round
unfolding raw_byte
raw_round i [] = closed
raw_round i (c ∷ s) = on 0 (raw_byte c)

unfoldable pub raw_literal : (line col : ℕ) → Bytes → Quoted
unfolding scan raw_round
raw_literal line col s =
    finish (scan (until b'"' raw_round) 0 2 [] (drop 2 s)) (λ out. plain_token string out line col)
      (diag tya_e0006 line col 1)

-- `b"…"`.
unfoldable pub bytes_literal : (line col : ℕ) → Bytes → Quoted
unfolding scan bytes_round
bytes_literal line col s =
    finish (scan (until b'"' (bytes_round line col)) 0 2 [] (drop 2 s))
      (λ out. plain_token bytes out line col) (plain unterminated_bytes line col)

-- `"…"`. A brace that opens no expression and `}` are copied, and there is no escape for a brace.
double_round : (line col i : ℕ) → Bytes → Round
unfolding brace_round escape_round
double_round line col i [] = closed
double_round line col i (c ∷ s) = elim (brace_round (c ∷ s)) [
  | some r ↦ r
  | none ↦ if c == b'\\' then escape_round (λ _. none) line col i (c ∷ s) else on 0 (c ∷ [])
]

unfoldable pub double_literal : (line col : ℕ) → Bytes → Quoted
unfolding scan double_round
double_literal line col s =
    finish (scan (until b'"' (double_round line col)) 0 1 [] (drop 1 s))
      (λ out. plain_token string out line col) (diag tya_e0006 line col 1)

-- `'…'`: the body is copied with its escapes, which are interpreted afterwards.
copy_round : (line col i : ℕ) → Bytes → Round
copy_round line col i [] = closed
copy_round line col i (c ∷ s) =
    if c == b'\\'
    then elim (get_elem? s 0) [
      | none ↦ fail (diag tya_e0007 line (col + i) 1)
      | some d ↦ on 1 (c ∷ d ∷ [])
    ]
    else on 0 (c ∷ [])

unfoldable pub interpret_body : (line col close : ℕ) → Bytes → Quoted
unfolding interpret_single_quoted_escapes
interpret_body line col close body = elim (interpret_single_quoted_escapes body line (col + 1)) [
  | failed e ↦ broken e
  | closed_at _ out ↦ quoted (string_token string out line col single [] []) close
  | ended out ↦ quoted (string_token string out line col single [] []) close
]

unfoldable pub single_literal : (line col : ℕ) → Bytes → Quoted
unfolding scan copy_round interpret_body
single_literal line col s = elim (scan (until b'\'' (copy_round line col)) 0 1 [] (drop 1 s)) [
  | failed e ↦ broken e
  | ended _ ↦ broken (diag tya_e0006 line col 1)
  | closed_at i body ↦ interpret_body line col i body
]

quoted_tests :
    (raw_literal 1 5 (codes "r\"a{\\\"b") ≡ quoted (plain_token string (codes "a{{\\") 1 5) 5)
    × (bytes_literal 1 5 (codes "b\"\\q\"") ≡ broken (plain (unknown_escape b'q') 1 7))
    × (double_literal 1 1 (codes "\"{f(\"x\")}\" + y")
        ≡ quoted (plain_token string (codes "{f(\"x\")}") 1 1) 9)
    × (double_literal 1 1 (codes "\"ab") ≡ broken (diag tya_e0006 1 1 1))
    × (single_literal 1 1 (codes "'it\\'s {x}' z")
        ≡ quoted (string_token string (codes "it's {{x}}") 1 1 single [] []) 10)
unfolding raw_literal bytes_literal double_literal single_literal
quoted_tests = (refl, refl, refl, refl, refl)

-- ===== src/Eval/Interpolate/Raw.antt =====
-- A raw string literal of the lexer is displayed by the interpreter as it stands in the source.
use tya.Prelude.{
  ℕ, ◌+◌, [], ◌∷◌, ◌++◌, Option, append_assoc, append-nil, ◌≡◌, ◌≢◌, false, ◌==◌, refl, sym, ap,
  ◌∙◌, arith, Bytes, length, All,
}
use native.Mathlib.Nat.{add-zero}
use mathlib.Core.Path.{ap₂}
use tya.Token.{string}
use tya.Lexer.State.{plain_token}
use tya.Lexer.Escape.{raw_byte, encode_raw_string, scan, closed_at}
use tya.Lexer.Quoted.{raw_literal, until, raw_round}
use tya.Text.{byte_is}
use tya.Lexer.Line.{emit, of_quoted, step}
use tya.Eval.Interpolate.{text, interpolate_from, interpolate}

module _ (eval : Bytes → Option Bytes) where
  raw_byte-interpolate :
      (c : ℕ) (out s : Bytes)
      → interpolate_from eval 0 out (raw_byte c ++ s) ≡ interpolate_from eval 0 (out ++ c ∷ []) s
  unfolding interpolate_from raw_byte
  raw_byte-interpolate c out s = ground arith

  interpolate_from-raw :
      (s out : Bytes) → interpolate_from eval 0 out (encode_raw_string s) ≡ text (out ++ s)
  unfolding encode_raw_string
  interpolate_from-raw [] out = unfold interpolate_from in ap text (sym (append-nil out))
  interpolate_from-raw (c ∷ s) out =
      raw_byte-interpolate c out (encode_raw_string s)
      ∙ interpolate_from-raw s (out ++ c ∷ [])
      ∙ ap text (append_assoc out (c ∷ []) s)

  -- `encodeRawString` doubles braces so that interpolation gives the body back, whatever it holds.
  -- No expression is evaluated.
  pub interpolate-encode_raw_string : (s : Bytes) → interpolate eval (encode_raw_string s) ≡ text s
  unfolding interpolate
  interpolate-encode_raw_string s = interpolate_from-raw s []

raw_step :
    (i c : ℕ) (out s : Bytes)
    → c ≢ b'"'
    → scan (until b'"' raw_round) 0 i out (c ∷ s)
      ≡ scan (until b'"' raw_round) 0 (i + 1) (out ++ raw_byte c) s
unfolding scan raw_round
raw_step i c out s h = ground arith

scan-raw :
    (body rest out : Bytes) (i : ℕ)
    → All (λ c. c ≢ b'"') body
    → scan (until b'"' raw_round) 0 i out (body ++ b'"' ∷ rest)
      ≡ closed_at (i + length body) (out ++ encode_raw_string body)
unfolding encode_raw_string
scan-raw [] rest out i h = unfold scan in ap₂ closed_at (sym (add-zero i)) (sym (append-nil out))
scan-raw (c ∷ body) rest out i (h, hs) =
    raw_step i c out (body ++ b'"' ∷ rest) h
    ∙ scan-raw body rest (out ++ raw_byte c) (i + 1) hs
    ∙ ap₂ closed_at (omega arith) (append_assoc out (raw_byte c) (encode_raw_string body))

-- The mark that opens a raw literal of one line: two more quotes behind it would be the opening of
-- one that may span lines.
abbrev pub OpensLine : (body rest : Bytes) → Type 0
OpensLine [] rest = byte_is rest 0 b'"' ≡ false
OpensLine (c ∷ body) rest = Unit

step-raw_literal :
    (line col : ℕ) (body rest : Bytes)
    → All (λ c. c ≢ b'"') body
    → OpensLine body rest
    → step line col b'r' (b'"' ∷ (body ++ b'"' ∷ rest))
      ≡ of_quoted (raw_literal line col (b'r' ∷ b'"' ∷ (body ++ b'"' ∷ rest)))
unfolding step
step-raw_literal line col [] rest h o = rw o refl
step-raw_literal line col (c ∷ body) rest (h, hs) o =
    let no_quote : (c == b'"') ≡ false = ground arith in rw no_quote refl

-- Where `lexLine` meets a literal `r"…"` whose body holds no quote, and which is not an empty one with
-- a quote behind it, it adds a STRING token and goes on behind the closing quote, whatever else
-- follows; and the interpreter displays the token's lexeme as the body.
pub interpolate-raw_literal :
    (eval : Bytes → Option Bytes) (line col : ℕ) (body rest : Bytes)
    → All (λ c. c ≢ b'"') body
    → OpensLine body rest
    → (lexeme : Bytes) × (step line col b'r' (b'"' ∷ (body ++ b'"' ∷ rest))
        ≡ emit (2 + length body) (plain_token string lexeme line col))
      × (interpolate eval lexeme ≡ text body)
unfolding raw_literal
interpolate-raw_literal eval line col body rest h o = (
  encode_raw_string body,
  step-raw_literal line col body rest h o ∙ rw (scan-raw body rest [] 2 h) refl,
  interpolate-encode_raw_string eval body,
)

-- ===== src/Formatter/Apart/Lines.antt =====
-- internal/lexer/lexer.go: what `lexLine` reads from pieces that stand apart.
use tya.Prelude.{
  ℕ, suc, ◌+◌, List, [], ◌∷◌, ◌++◌, ◌≡◌, refl, sym, ap, subst, ◌∙◌, arith, length, map, append-nil,
  Bytes,
}
use tya.Token.{Token}
use tya.Lexer.State.{Lexer, push_token, new_lexer}
use tya.Lexer.Line.{space, emit, step, line_from, lex_line}
use tya.Formatter.Unparse.{Pieces, blank, piece, raw, text_of}
use tya.Formatter.Feed.{tokens, place_free, lexed}
use tya.Formatter.Apart.{Fits, Apart, a_word, a_number, a_sign, two_signs}
use tya.Formatter.Apart.Digits.{number-step}
use tya.Formatter.Apart.Steps.{word-step, sign-step, sign_char-step, two_signs-step}

line_from-skip :
    (line col : ℕ) (w r : Bytes) (l : Lexer)
    → line_from (length w) line col (w ++ r) l ≡ line_from 0 line (col + length w) r l
unfolding line_from
line_from-skip line col [] r l = ap (λ n. line_from 0 line n r l) (omega arith)
line_from-skip line col (c ∷ w) r l =
    line_from-skip line (col + 1) w r l ∙ ap (λ n. line_from 0 line n r l) (omega arith)

line_from-emit :
    (line col c : ℕ) (w r : Bytes) (t : Token) (l : Lexer)
    → step line col c (w ++ r) ≡ emit (length w) t
    → line_from 0 line col (c ∷ (w ++ r)) l
      ≡ line_from 0 line (col + suc (length w)) r (push_token t l)
unfolding line_from
line_from-emit line col c w r t l h =
    after
    ∙ line_from-skip line (col + 1) w r (push_token t l)
    ∙ ap (λ n. line_from 0 line n r (push_token t l)) (omega arith)
  where
    after :
        line_from 0 line col (c ∷ (w ++ r)) l
        ≡ line_from (length w) line (col + 1) (w ++ r) (push_token t l)
    after = rw (line_from, h) refl

abbrev at : (line col : ℕ) → Token → Token
at line col t = record t { line = line; col = col }

Fits-line_from :
    (line col : ℕ) {t : Token} {s r : Bytes} (l : Lexer)
    → Fits t s r
    → line_from 0 line col (s ++ r) l
      ≡ line_from 0 line (col + length s) r (push_token (at line col t) l)
Fits-line_from line col l (a_word c w r hc hw hr) =
    line_from-emit line col c w r _ l (word-step line col c w r hc hw hr)
Fits-line_from line col l (a_number c w r hc hw hr no_fraction) =
    line_from-emit line col c w r _ l (number-step line col c w r hc hw hr no_fraction)
Fits-line_from line col l (a_sign c t r hc h n) =
    line_from-emit line col c [] r _ l
      (sign_char-step line col c r hc ∙ sign-step line col c t r h n)
Fits-line_from line col l (two_signs c d t r hc minus h n) =
    line_from-emit line col c (d ∷ []) r _ l
      (sign_char-step line col c (d ∷ r) hc ∙ two_signs-step line col c d t r minus h n)

blank-step : (line col : ℕ) (s : Bytes) → step line col b' ' s ≡ space
unfolding step
blank-step line col s = refl

line_from-blank :
    (line col : ℕ) (s : Bytes) (l : Lexer)
    → line_from 0 line col (b' ' ∷ s) l ≡ line_from 0 line (col + 1) s l
unfolding line_from
line_from-blank line col s l = rw (line_from, blank-step line col s) refl

-- A lexer that has read more tokens, which are given without their places, and no error.
pub record Reads (ts : List Token) (l l' : Lexer) : Type 0 where
  pub tokens_eq : map place_free l'.tokens ≡ map place_free l.tokens ++ ts
  pub errs_eq : l'.errs ≡ l.errs

map-push :
    (l : List Token) (t : Token) (ts : List Token)
    → map place_free (l ++ t ∷ []) ++ ts ≡ map place_free l ++ (place_free t ∷ ts)
map-push [] t ts = refl
map-push (x ∷ l) t ts = ap (λ xs. place_free x ∷ xs) (map-push l t ts)

Fits-place_free : {t : Token} {s r : Bytes} → Fits t s r → place_free t ≡ t
Fits-place_free (a_word c w r hc hw hr) = refl
Fits-place_free (a_number c w r hc hw hr no_fraction) = refl
Fits-place_free (a_sign c t r hc h n) = refl
Fits-place_free (two_signs c d t r hc minus h n) = refl

Apart-line_from :
    (line col : ℕ) (ps : Pieces) (l : Lexer)
    → Apart ps
    → Reads (tokens ps) l (line_from 0 line col (text_of ps) l)
unfolding Apart tokens text_of line_from
Apart-line_from line col [] l h = record { tokens_eq = sym (append-nil _); errs_eq = refl }
Apart-line_from line col (blank ∷ ps) l h =
    subst (Reads (tokens ps) l) (sym (line_from-blank line col (text_of ps) l))
      (Apart-line_from line (col + 1) ps l h)
Apart-line_from line col (piece t s ∷ ps) l (f, h) =
    let t' = at line col t in
    let r = Apart-line_from line (col + length s) ps (push_token t' l) h in
    subst (Reads (t ∷ tokens ps) l) (sym (Fits-line_from line col l f)) (record {
      tokens_eq =
          r.tokens_eq
          ∙ map-push l.tokens t' (tokens ps)
          ∙ ap (λ x. map place_free l.tokens ++ (x ∷ tokens ps)) (Fits-place_free f);
      errs_eq = r.errs_eq;
    })
Apart-line_from line col (raw s ∷ ps) l h = elim h [ ]

-- `lexLine` reads the text of such pieces as their tokens, without an error.
pub Apart-lexed :
    (ps : Pieces)
    → Apart ps
    → (lexed (text_of ps) ≡ tokens ps) × ((lex_line (text_of ps) 1 1 new_lexer).errs ≡ [])
unfolding lexed
Apart-lexed ps h = let r = Apart-line_from 1 1 ps new_lexer h in (r.tokens_eq, r.errs_eq)

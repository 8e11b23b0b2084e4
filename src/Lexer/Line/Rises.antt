-- ===== src/Lexer/Line/Rises.antt =====
-- `lexLine` only appends: plain tokens of its line, in strictly rising columns inside it.
use tya.Prelude.{
  ℕ, zero, suc, ◌+◌, ◌≤◌, ◌<◌, true, List, [], ◌∷◌, ◌≡◌, refl, sym, subst, ◌∙◌, arith, append_assoc,
  Bytes, length,
}
use tya.Token.{Token}
use tya.Lexer.State.{Lexer, push_token, push_error}
use tya.Lexer.Adds.{is_plain, Adds, Adds-nothing, Adds-map, Ascends}
use tya.Lexer.Line.{Step, space, emit, complain, halt, step, line_from, lex_line}
use tya.Lexer.Line.Tokens.{StepFits, step-fits}

-- The tokens of a line from column `lo` up to `hi`: plain ones, in strictly rising columns.
abbrev pub Rises : (line lo hi : ℕ) → List Token → Type 0
Rises line lo hi [] = Unit
Rises line lo hi (t ∷ ts) =
    (is_plain t.type ≡ true)
    × (t.line ≡ line)
    × (lo ≤ t.col)
    × (t.col < hi)
    × Rises line (t.col + 1) hi ts

Rises-weaken :
    (line lo lo' hi : ℕ) (ts : List Token) → lo ≤ lo' → Rises line lo' hi ts → Rises line lo hi ts
Rises-weaken line lo lo' hi [] h r = tt
Rises-weaken line lo lo' hi (t ∷ ts) h (a, b, c, d, r) = (a, b, omega arith, d, r)

Adds-weaken :
    (line col hi : ℕ) (l l' : Lexer)
    → Adds (Rises line (col + 1) hi) l l'
    → Adds (Rises line col hi) l l'
Adds-weaken line col hi l l' a = record {
  ind_eq = a.ind_eq;
  comments_eq = a.comments_eq;
  new = a.new;
  tokens_eq = a.tokens_eq;
  holds = Rises-weaken line col (col + 1) hi a.new (omega arith) a.holds;
}

module _ (line col hi : ℕ) (s : Bytes) (fits : col < hi) where
  -- One round, and the rest of the loop behind it.
  after_step :
      (l : Lexer) (x : Step)
      → ((k : ℕ) (l' : Lexer) → Adds (Rises line (col + 1) hi) l' (line_from k line (col + 1) s l'))
      → StepFits line col x
      → Adds (Rises line col hi) l (elim x [
        | space ↦ line_from 0 line (col + 1) s l
        | emit k t ↦ line_from k line (col + 1) s (push_token t l)
        | complain e ↦ line_from 0 line (col + 1) s (push_error e l)
        | halt e ↦ push_error e l
      ])
  unfolding StepFits
  after_step l space rest h = Adds-weaken line col hi l _ (rest 0 l)
  after_step l (complain e) rest h =
      let a = rest 0 (push_error e l) in
      Adds-weaken line col hi l _ (record {
        ind_eq = a.ind_eq;
        comments_eq = a.comments_eq;
        new = a.new;
        tokens_eq = a.tokens_eq;
        holds = a.holds;
      })
  after_step l (halt e) rest h = Adds-nothing _ l _ refl refl refl tt
  after_step l (emit k t) rest (plain, on_line, at) =
      let a = rest k (push_token t l) in
      record {
        ind_eq = a.ind_eq;
        comments_eq = a.comments_eq;
        new = t ∷ a.new;
        tokens_eq = a.tokens_eq ∙ append_assoc l.tokens (t ∷ []) a.new;
        holds = (
          plain,
          on_line,
          omega arith,
          omega arith,
          Rises-weaken line (t.col + 1) (col + 1) hi a.new (omega arith) a.holds,
        );
      }

line_from-Rises :
    (skip line col hi : ℕ) (s : Bytes) (l : Lexer)
    → hi ≡ col + length s
    → Adds (Rises line col hi) l (line_from skip line col s l)
unfolding line_from
line_from-Rises zero line col hi [] l h = Adds-nothing _ l l refl refl refl tt
line_from-Rises (suc skip) line col hi [] l h = Adds-nothing _ l l refl refl refl tt
line_from-Rises (suc skip) line col hi (c ∷ s) l h =
    Adds-weaken line col hi l _ (line_from-Rises skip line (col + 1) hi s l (omega arith))
line_from-Rises zero line col hi (c ∷ s) l h =
    after_step line col hi s (omega arith) l (step line col c s)
      (λ k l'. line_from-Rises k line (col + 1) hi s l' (omega arith)) (step-fits line col c s)

-- `lexLine` leaves the indentation stack, the comments and the tokens before alone. The tokens that
-- it adds are no marks of the layout, have its line, and stand in strictly rising columns between
-- the line's first byte and its end.
pub lex_line-Adds :
    (s : Bytes) (line base_col : ℕ) (l : Lexer)
    → Adds (Rises line base_col (base_col + length s)) l (lex_line s line base_col l)
unfolding lex_line
lex_line-Adds s line base_col l = line_from-Rises 0 line base_col _ s l refl

Rises-Ascends : (line lo hi : ℕ) (ts : List Token) → Rises line lo hi ts → Ascends line line ts
Rises-Ascends line lo hi [] r = tt
Rises-Ascends line lo hi (t ∷ ts) (p, q, a, b, r) = (
  p,
  omega arith,
  omega arith,
  subst (λ k. Ascends k line ts) (sym q) (Rises-Ascends line (t.col + 1) hi ts r),
)

pub lex_line-Ascends :
    (s : Bytes) (line base_col : ℕ) (l : Lexer)
    → Adds (Ascends line line) l (lex_line s line base_col l)
lex_line-Ascends s line base_col l =
    Adds-map (Rises line base_col (base_col + length s)) (Ascends line line) l _
      (Rises-Ascends line base_col _) (lex_line-Adds s line base_col l)

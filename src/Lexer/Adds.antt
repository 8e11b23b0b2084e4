-- ===== src/Lexer/Adds.antt =====
-- What the passes of internal/lexer/lexer.go over one line have in common: they append to the tokens
-- and the errors, and leave the indentation stack and the comments alone.
use tya.Prelude.{
  ℕ, ◌≤◌, Bool, true, false, List, [], ◌∷◌, ◌++◌, ◌≡◌, refl, sym, ap, ◌∙◌, arith, append_assoc,
  append-nil,
}
use tya.Token.{TokenType, newline, indent, dedent, eof, Token}
use tya.Lexer.State.{Lexer, LexError, push_token, push_error}

-- A token that is no mark of the layout.
abbrev pub is_plain : TokenType → Bool
is_plain newline = false
is_plain indent = false
is_plain dedent = false
is_plain eof = false
is_plain _ = true

-- From `l` to `l'` the tokens grow by some of which `P` holds.
pub record Adds (P : List Token → Type 0) (l l' : Lexer) : Type 0 where
  pub ind_eq : l'.ind ≡ l.ind
  pub comments_eq : l'.comments ≡ l.comments
  pub new : List Token
  pub tokens_eq : l'.tokens ≡ l.tokens ++ new
  pub holds : P new

pub Adds-nothing :
    (P : List Token → Type 0) (l l' : Lexer)
    → l'.ind ≡ l.ind
    → l'.comments ≡ l.comments
    → l'.tokens ≡ l.tokens
    → P []
    → Adds P l l'
Adds-nothing P l l' a b c h = record {
  ind_eq = a;
  comments_eq = b;
  new = [];
  tokens_eq = c ∙ sym (append-nil l.tokens);
  holds = h;
}

pub Adds-map :
    (P Q : List Token → Type 0) (l l' : Lexer)
    → ((ts : List Token) → P ts → Q ts)
    → Adds P l l'
    → Adds Q l l'
Adds-map P Q l l' f a = record {
  ind_eq = a.ind_eq;
  comments_eq = a.comments_eq;
  new = a.new;
  tokens_eq = a.tokens_eq;
  holds = f a.new a.holds;
}

pub Adds-trans :
    (P Q R : List Token → Type 0) (l m n : Lexer)
    → ((xs ys : List Token) → P xs → Q ys → R (xs ++ ys))
    → Adds P l m
    → Adds Q m n
    → Adds R l n
Adds-trans P Q R l m n f a b = record {
  ind_eq = b.ind_eq ∙ a.ind_eq;
  comments_eq = b.comments_eq ∙ a.comments_eq;
  new = a.new ++ b.new;
  tokens_eq = b.tokens_eq ∙ ap (λ ts. ts ++ b.new) a.tokens_eq ∙ append_assoc l.tokens a.new b.new;
  holds = f a.new b.new a.holds b.holds;
}

-- Plain tokens of the lines `lo` to `hi`, in the order of their lines.
abbrev pub Ascends : (lo hi : ℕ) → List Token → Type 0
Ascends lo hi [] = Unit
Ascends lo hi (t ∷ ts) =
    (is_plain t.type ≡ true) × (lo ≤ t.line) × (t.line ≤ hi) × Ascends t.line hi ts

pub Ascends-weaken :
    (lo lo' hi hi' : ℕ) (ts : List Token)
    → lo ≤ lo'
    → hi' ≤ hi
    → Ascends lo' hi' ts
    → Ascends lo hi ts
Ascends-weaken lo lo' hi hi' [] g h a = tt
Ascends-weaken lo lo' hi hi' (t ∷ ts) g h (p, q, r, a) =
    (p, omega arith, omega arith, Ascends-weaken t.line t.line hi hi' ts (omega arith) h a)

pub Ascends-append :
    (lo mid hi : ℕ) (xs ys : List Token)
    → lo ≤ mid
    → mid ≤ hi
    → Ascends lo mid xs
    → Ascends mid hi ys
    → Ascends lo hi (xs ++ ys)
Ascends-append lo mid hi [] ys g h a b = Ascends-weaken lo mid hi hi ys g (omega arith) b
Ascends-append lo mid hi (x ∷ xs) ys g h (p, q, r, a) b =
    (p, q, omega arith, Ascends-append x.line mid hi xs ys r h a b)

-- Two passes, the second on lines from `mid` on.
pub Adds-then :
    (lo mid hi : ℕ) (l m n : Lexer)
    → lo ≤ mid
    → mid ≤ hi
    → Adds (Ascends lo mid) l m
    → Adds (Ascends mid hi) m n
    → Adds (Ascends lo hi) l n
Adds-then lo mid hi l m n g h =
    Adds-trans (Ascends lo mid) (Ascends mid hi) (Ascends lo hi) l m n
      (λ xs ys. Ascends-append lo mid hi xs ys g h)

pub Adds-widen :
    (lo hi hi' : ℕ) (l m : Lexer) → hi ≤ hi' → Adds (Ascends lo hi) l m → Adds (Ascends lo hi') l m
Adds-widen lo hi hi' l m h =
    Adds-map (Ascends lo hi) (Ascends lo hi') l m
      (λ ts. Ascends-weaken lo lo hi' hi ts (omega arith) h)

pub Adds-error : (lo hi : ℕ) (e : LexError) (l : Lexer) → Adds (Ascends lo hi) l (push_error e l)
Adds-error lo hi e l = Adds-nothing (Ascends lo hi) l (push_error e l) refl refl refl tt

pub Adds-token :
    (line : ℕ) (t : Token) (l : Lexer)
    → is_plain t.type ≡ true
    → t.line ≡ line
    → Adds (Ascends line line) l (push_token t l)
Adds-token line t l p q = record {
  ind_eq = refl;
  comments_eq = refl;
  new = t ∷ [];
  tokens_eq = refl;
  holds = (p, omega arith, omega arith, tt);
}

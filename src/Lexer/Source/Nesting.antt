-- ===== src/Lexer/Source/Nesting.antt =====
-- The invariant of `lex` at a line: the stack of indentations ends at 0 and rises, the INDENT and
-- DEDENT tokens so far nest and leave as many blocks open as the stack has, and the tokens are in the
-- order of their lines.
use tya.Prelude.{
  ℕ, zero, suc, ◌≤◌, ◌<◌, true, List, [], ◌∷◌, ◌++◌, Option, none, some, ◌>>=◌, ◌≡◌, refl, sym, ap,
  subst, ◌∙◌, arith, length, Option-cases, inl, inr,
}
use tya.Token.{TokenType, indent, dedent, Token}
use tya.Lexer.State.{Lexer, plain_token}
use tya.Lexer.Adds.{is_plain, Adds, Ascends}

-- The number of open blocks behind a token; a DEDENT with no open block has none.
abbrev pub level : TokenType → ℕ → Option ℕ
level indent d = some (suc d)
level dedent zero = none
level dedent (suc d) = some d
level _ d = some d

-- The number of open blocks behind a list of tokens.
unfoldable pub nest : ℕ → List Token → Option ℕ
nest d [] = some d
nest d (t ∷ ts) = level t.type d >>= λ e. nest e ts

nest-append :
    (d : ℕ) (xs ys : List Token) {e : ℕ} → nest d xs ≡ some e → nest d (xs ++ ys) ≡ nest e ys
unfolding nest
nest-append d [] ys h = cc
nest-append d (x ∷ xs) ys h = elim (Option-cases (level x.type d)) [
  | inl e ↦ cc (rw e at h)
  | inr (k, e) ↦ rw e (nest-append k xs ys (rw e at h))
]

level_plain : (t : TokenType) (d : ℕ) → is_plain t ≡ true → level t d ≡ some d
level_plain t d h = ground arith

nest-Ascends : (d lo hi : ℕ) (ts : List Token) → Ascends lo hi ts → nest d ts ≡ some d
unfolding nest
nest-Ascends d lo hi [] a = refl
nest-Ascends d lo hi (t ∷ ts) (p, _, _, a) =
    rw (level_plain t.type d p) (nest-Ascends d t.line hi ts a)

-- Tokens of the lines `lo` to `hi`, in the order of their lines.
abbrev pub Ordered : (lo hi : ℕ) → List Token → Type 0
Ordered lo hi [] = Unit
Ordered lo hi (t ∷ ts) = (lo ≤ t.line) × (t.line ≤ hi) × Ordered t.line hi ts

pub Ordered-weaken :
    (lo lo' hi hi' : ℕ) (ts : List Token)
    → lo ≤ lo'
    → hi ≤ hi'
    → Ordered lo' hi ts
    → Ordered lo hi' ts
Ordered-weaken lo lo' hi hi' [] p q o = tt
Ordered-weaken lo lo' hi hi' (t ∷ ts) p q (a, b, c) =
    (omega arith, omega arith, Ordered-weaken t.line t.line hi hi' ts (omega arith) q c)

Ordered-append :
    (lo hi mid hi' : ℕ) (xs ys : List Token)
    → lo ≤ mid
    → hi ≤ mid
    → mid ≤ hi'
    → Ordered lo hi xs
    → Ordered mid hi' ys
    → Ordered lo hi' (xs ++ ys)
Ordered-append lo hi mid hi' [] [] p q r a b = tt
Ordered-append lo hi mid hi' [] (y ∷ ys) p q r a (b, c, d) = (omega arith, c, d)
Ordered-append lo hi mid hi' (x ∷ xs) ys p q r (a, b, c) o =
    (a, omega arith, Ordered-append x.line hi mid hi' xs ys (omega arith) q r c o)

Ordered-Ascends : (lo hi : ℕ) (ts : List Token) → Ascends lo hi ts → Ordered lo hi ts
Ordered-Ascends lo hi [] a = tt
Ordered-Ascends lo hi (t ∷ ts) (_, p, q, a) = (p, q, Ordered-Ascends t.line hi ts a)

-- The stack, top first: it falls strictly, and ends with the 0 that it starts with.
abbrev pub Grounded : List ℕ → Type 0
Grounded [] = ⊥
Grounded (n ∷ []) = n ≡ 0
Grounded (n ∷ m ∷ below) = (m < n) × Grounded (m ∷ below)

pub record Inv (hi : ℕ) (ind : List ℕ) (tokens : List Token) : Type 0 where
  pub grounded : Grounded ind
  pub depth : ℕ
  pub nests : nest 0 tokens ≡ some depth
  pub height : length ind ≡ suc depth
  pub ordered : Ordered 1 hi tokens

pub Inv-new : Inv 0 (0 ∷ []) []
unfolding nest
Inv-new = record { grounded = refl; depth = 0; nests = refl; height = refl; ordered = tt }

module _ {hi : ℕ} {ind : List ℕ} {ts : List Token} (inv : Inv hi ind ts) (line : ℕ) where
  Ordered-push : (t : Token) → hi ≤ line → 1 ≤ line → t.line ≡ line → Ordered 1 line (ts ++ t ∷ [])
  Ordered-push t h g e =
      Ordered-append 1 hi line line ts (t ∷ []) g h (omega arith) inv.ordered
        (omega arith, omega arith, tt)

pub Inv-same :
    {hi : ℕ} {ind : List ℕ} {ts : List Token} (line : ℕ) (t : Token)
    → Inv hi ind ts
    → hi ≤ line
    → 1 ≤ line
    → t.line ≡ line
    → ((d : ℕ) → level t.type d ≡ some d)
    → Inv line ind (ts ++ t ∷ [])
unfolding nest
Inv-same {ts = ts} line t inv h g e same = record {
  grounded = inv.grounded;
  depth = inv.depth;
  nests = nest-append 0 ts (t ∷ []) inv.nests ∙ rw (same inv.depth);
  height = inv.height;
  ordered = Ordered-push inv line t h g e;
}

pub Inv-indent :
    {hi n cur : ℕ} {below : List ℕ} {ts : List Token} (line : ℕ)
    → Inv hi (cur ∷ below) ts
    → cur < n
    → hi ≤ line
    → 1 ≤ line
    → Inv line (n ∷ cur ∷ below) (ts ++ plain_token indent [] line 1 ∷ [])
unfolding nest
Inv-indent {ts = ts} line inv c h g = record {
  grounded = (c, inv.grounded);
  depth = suc inv.depth;
  nests = nest-append 0 ts (plain_token indent [] line 1 ∷ []) inv.nests;
  height = ap suc inv.height;
  ordered = Ordered-push inv line (plain_token indent [] line 1) h g refl;
}

pub Inv-dedent :
    {hi n cur : ℕ} {below : List ℕ} {ts : List Token} (line : ℕ)
    → Inv hi (n ∷ cur ∷ below) ts
    → hi ≤ line
    → 1 ≤ line
    → Inv line (cur ∷ below) (ts ++ plain_token dedent [] line 1 ∷ [])
unfolding nest
Inv-dedent {below = below} {ts = ts} line inv h g = record {
  grounded = inv.grounded.1;
  depth = length below;
  nests =
      nest-append 0 ts (plain_token dedent [] line 1 ∷ []) {e = suc (length below)}
        (inv.nests ∙ ap some (omega (arith, inv.height)));
  height = refl;
  ordered = Ordered-push inv line (plain_token dedent [] line 1) h g refl;
}

pub Inv-Adds :
    {hi : ℕ} (lo hi' : ℕ) (l m : Lexer)
    → Inv hi l.ind l.tokens
    → hi ≤ lo
    → 1 ≤ lo
    → lo ≤ hi'
    → Adds (Ascends lo hi') l m
    → Inv hi' m.ind m.tokens
Inv-Adds {hi} lo hi' l m inv p q r a = record {
  grounded = subst Grounded (sym a.ind_eq) inv.grounded;
  depth = inv.depth;
  nests =
      ap (nest 0) a.tokens_eq
      ∙ nest-append 0 l.tokens a.new inv.nests
      ∙ nest-Ascends inv.depth lo hi' a.new a.holds;
  height = ap length a.ind_eq ∙ inv.height;
  ordered = subst (Ordered 1 hi') (sym a.tokens_eq) (
      Ordered-append 1 hi lo hi' l.tokens a.new q p r inv.ordered
        (Ordered-Ascends lo hi' a.new a.holds));
}

-- ===== src/Lexer/Source/Steps.antt =====
-- The indentation of a line keeps the invariant of `lex`, and never finds the stack empty.
use tya.Prelude.{
  ℕ, ◌+◌, ◌≤◌, ◌<◌, false, List, [], ◌∷◌, ◌++◌, Option, none, some, ◌≡◌, refl, subst, arith, ltb,
  ◌==◌, if◌then◌else◌, if_intro, Bool-cases, inl, inr,
}
use tya.Token.{indent, dedent, Token}
use tya.Lexer.State.{Lexer, plain_token, add, tya_e0004, diag_err}
use tya.Lexer.Indent.{dedent_to, indent_to, handle_indent}
use tya.Lexer.Source.Nesting.{Grounded, Inv, Inv-indent, Inv-dedent, Ordered-weaken}

-- A function that may panic does not, and leaves a state in which the invariant holds.
abbrev pub Keeps : (hi : ℕ) → Option Lexer → Type 0
Keeps hi o = (l : Lexer) × (o ≡ some l) × Inv hi l.ind l.tokens

abbrev pub Holds : (hi : ℕ) → Lexer → Type 0
Holds hi l = Inv hi l.ind l.tokens

pub Inv-weaken :
    {hi : ℕ} {ind : List ℕ} {ts : List Token} (hi' : ℕ) → Inv hi ind ts → hi ≤ hi' → Inv hi' ind ts
Inv-weaken {hi} {ts = ts} hi' inv h = record {
  grounded = inv.grounded;
  depth = inv.depth;
  nests = inv.nests;
  height = inv.height;
  ordered = Ordered-weaken 1 1 hi hi' ts (omega arith) h inv.ordered;
}

module _ (n line hi : ℕ) (h : hi ≤ line) (g : 1 ≤ line) where
  -- The loop stops at this stack.
  stop-Keeps :
      (cur : ℕ) (below : List ℕ) (l : Lexer)
      → Inv hi (cur ∷ below) l.tokens
      → Keeps line (
          some (
            if n == cur
            then record l { ind = cur ∷ below }
            else diag_err tya_e0004 line 1 1 (record l { ind = cur ∷ below })))
  stop-Keeps cur below l inv =
      (_, refl, if_intro (Holds line) (n == cur) (Inv-weaken line inv h) (Inv-weaken line inv h))

dedent_to-Keeps :
    (n line hi : ℕ) (stack : List ℕ) (l : Lexer)
    → Inv hi stack l.tokens
    → hi ≤ line
    → 1 ≤ line
    → Keeps line (dedent_to n line stack l)
unfolding dedent_to
dedent_to-Keeps n line hi [] l inv h g = absurd inv.grounded
dedent_to-Keeps n line hi (cur ∷ []) l inv h g =
    let bottom : ltb n cur ≡ false = ground (arith, inv.grounded) in
    rw bottom (stop-Keeps n line hi h g cur [] l inv)
dedent_to-Keeps n line hi (cur ∷ m ∷ below) l inv h g =
    if_intro (Keeps line) (ltb n cur)
      (dedent_to-Keeps n line line (m ∷ below) (add dedent [] line 1 l) (Inv-dedent line inv h g)
        (omega arith) g)
      (stop-Keeps n line hi h g cur (m ∷ below) l inv)

indent_to-Holds :
    (n cur line hi : ℕ) (below : List ℕ) (l : Lexer)
    → l.ind ≡ cur ∷ below
    → Holds hi l
    → cur < n
    → hi ≤ line
    → 1 ≤ line
    → Holds line (indent_to n cur line l)
unfolding indent_to
indent_to-Holds n cur line hi below l e inv lt h g = elim (Bool-cases (n == cur + 2)) [
  | inl t ↦ rw (t, e) pushed
  | inr t ↦ rw (t, e) pushed
]
  where
    pushed : Inv line (n ∷ cur ∷ below) (l.tokens ++ plain_token indent [] line 1 ∷ [])
    pushed = Inv-indent line (subst (λ k. Inv hi k l.tokens) e inv) lt h g

-- `handleIndent` never finds its stack empty.
pub handle_indent-Keeps :
    (n line hi : ℕ) (l : Lexer)
    → Holds hi l
    → hi ≤ line
    → 1 ≤ line
    → Keeps line (handle_indent n line l)
unfolding handle_indent
handle_indent-Keeps n line hi l inv h g = go l.ind refl
  where
    go :
        (ind : List ℕ)
        → l.ind ≡ ind
        → Keeps line (elim ind [
          | [] ↦ none
          | cur ∷ below ↦
              if ltb cur n then some (indent_to n cur line l) else dedent_to n line (cur ∷ below) l
        ])
    go [] e = absurd (subst Grounded e inv.grounded)
    go (cur ∷ below) e = elim (Bool-cases (ltb cur n)) [
      | inl t ↦ rw t (_, refl, indent_to-Holds n cur line hi below l e inv (ground arith) h g)
      | inr t ↦
          rw t
            (dedent_to-Keeps n line hi (cur ∷ below) l (subst (λ k. Inv hi k l.tokens) e inv) h g)
    ]

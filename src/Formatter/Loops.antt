-- ===== src/Formatter/Loops.antt =====
-- internal/parser/parser.go: how the loops of the binary levels read.
use tya.Prelude.{
  ℕ, zero, suc, ◌<◌, ◌≤◌, true, false, ◌≡◌, ◌∙◌, ap, subst, arith, length, Bool-cases, leb, inl,
  inr, none,
}
use tya.Token.{Token}
use tya.Ast.{Expr, binary_expr}
use tya.Parser.State.{Parser, Parse, ok, bind}
use tya.Parser.Levels.{op_level, op_at, binary_rest, binary_level, level}
use tya.Formatter.Feed.{push}

-- No loop below level `k` goes on here.
abbrev pub Ends : ℕ → Parser → Type 0
Ends k p = (j : ℕ) → j < k → op_at j p.tok ≡ false

pub none-Ends : (k : ℕ) (p : Parser) → op_level p.tok ≡ none → Ends k p
unfolding op_at
none-Ends k p h j l = rw (op_at, h)

module _ {S : Type 0} (u : Parse (Expr S)) where
  -- From `p`, level `k` comes to stand in its loop, behind `e`.
  abbrev pub InLoop : ℕ → Parser → Expr S → Parser → Type 0
  InLoop k p e q =
      (n : ℕ) × (length q.rest < n) × (level u (suc k) p ≡ binary_rest n (op_at k) (level u k) e q)

  pub start-InLoop :
      (k : ℕ) (p : Parser) (e : Expr S) (q : Parser) → level u k p ≡ ok e q → InLoop k p e q
  unfolding level binary_level
  start-InLoop k p e q h = (
    suc (length q.rest),
    omega arith,
    ap (λ o. bind o (λ left r. binary_rest (suc (length r.rest)) (op_at k) (level u k) left r)) h,
  )

  pub step-InLoop :
      (k : ℕ) (p : Parser) (e : Expr S) (op : Token) (r : Parser) (b : Expr S) (q : Parser)
      → InLoop k p e (push op r)
      → op_at k op ≡ true
      → level u k r ≡ ok b q
      → length q.rest ≤ length r.rest
      → InLoop k p (binary_expr e op b) q
  unfolding binary_rest
  step-InLoop k p e op r b q (zero, short, h) o hb le = absurd (omega arith)
  step-InLoop k p e op r b q (suc n, short, h) o hb le =
      (n, omega arith, h ∙ rw (binary_rest, o, hb))

  pub end-InLoop :
      (k : ℕ) (p : Parser) (e : Expr S) (q : Parser)
      → InLoop k p e q
      → op_at k q.tok ≡ false
      → level u (suc k) p ≡ ok e q
  unfolding binary_rest
  end-InLoop k p e q (zero, short, h) o = absurd (omega arith)
  end-InLoop k p e q (suc n, short, h) o = h ∙ rw (binary_rest, o)

  -- What a level reads, the levels above it read, too.
  pub level-up :
      (k : ℕ) (p : Parser) (e : Expr S) (q : Parser)
      → level u k p ≡ ok e q
      → (m : ℕ) → k ≤ m
      → Ends m q
      → level u m p ≡ ok e q
  level-up k p e q h zero le ends = subst (λ i. level u i p ≡ ok e q) (omega arith) h
  level-up k p e q h (suc m) le ends = elim (Bool-cases (leb k m)) [
    | inl t ↦
        end-InLoop m p e q
          (start-InLoop m p e q (level-up k p e q h m (ground arith) (λ j l. ends j (omega arith))))
          (ends m (omega arith))
    | inr f ↦ subst (λ i. level u i p ≡ ok e q) (ground arith) h
  ]

-- ===== src/Interp/Balanced.antt =====
-- What internal/interp finds: the end of every expression whose braces match.
use native.Mathlib.Nat.{add-zero}
use tya.Prelude.{
  ℕ, suc, ◌+◌, ◌≢◌, [], ◌∷◌, ◌++◌, some, ◌≡◌, ◌∙◌, ap, arith, Bytes, length, length-append,
  append_assoc,
}
use tya.Interp.{expr_round, expr_end, find_expr_end}

-- Text with no string literal in which the braces match.
pub data Balanced : Bytes → Type 0 where
  empty : Balanced []
  plain : {c : ℕ} {s : Bytes} → c ≢ b'"' → c ≢ b'{' → c ≢ b'}' → Balanced s → Balanced (c ∷ s)
  nest : {a s : Bytes} → Balanced a → Balanced s → Balanced (b'{' ∷ (a ++ (b'}' ∷ s)))

-- Rounds at the three kinds of bytes.
round_plain :
    (depth i c : ℕ) (s : Bytes)
    → c ≢ b'"'
    → c ≢ b'{'
    → c ≢ b'}'
    → expr_end 0 depth i (c ∷ s) ≡ expr_end 0 depth (i + 1) s
unfolding expr_end expr_round
round_plain depth i c s p q r = ground arith

round_open :
    (depth i : ℕ) (s : Bytes) → expr_end 0 depth i (b'{' ∷ s) ≡ expr_end 0 (suc depth) (i + 1) s
unfolding expr_end expr_round
round_open depth i s = ground arith

round_close :
    (depth i : ℕ) (s : Bytes)
    → expr_end 0 (suc (suc depth)) i (b'}' ∷ s) ≡ expr_end 0 (suc depth) (i + 1) s
unfolding expr_end expr_round
round_close depth i s = ground arith

expr_end-Balanced :
    {a : Bytes} (depth i : ℕ) (s : Bytes)
    → Balanced a
    → expr_end 0 (suc depth) i (a ++ s) ≡ expr_end 0 (suc depth) (i + length a) s
expr_end-Balanced depth i s empty = rw add-zero
expr_end-Balanced depth i s (plain {c} {s = a} p q r t) =
    round_plain (suc depth) i c (a ++ s) p q r
    ∙ expr_end-Balanced depth (i + 1) s t
    ∙ ap (λ k. expr_end 0 (suc depth) k s) (omega arith)
expr_end-Balanced depth i s (nest {a} {s = b} t u) =
    round_open (suc depth) i ((a ++ b'}' ∷ b) ++ s)
    ∙ ap (expr_end 0 (suc (suc depth)) (i + 1)) (append_assoc a (b'}' ∷ b) s)
    ∙ expr_end-Balanced (suc depth) (i + 1) (b'}' ∷ (b ++ s)) t
    ∙ round_close depth (i + 1 + length a) (b ++ s)
    ∙ expr_end-Balanced depth (i + 1 + length a + 1) s u
    ∙ ap (λ k. expr_end 0 (suc depth) k s) (omega (arith, length-append a (b'}' ∷ b)))

-- `FindExprEnd` finds the closing brace of every expression without string literals whose braces
-- match, whatever stands behind it.
pub find_expr_end-Balanced :
    {a : Bytes} (s : Bytes)
    → Balanced a
    → find_expr_end (b'{' ∷ (a ++ (b'}' ∷ s))) ≡ some (length a + 1)
unfolding find_expr_end
find_expr_end-Balanced {a} s t = expr_end-Balanced 0 1 (b'}' ∷ s) t ∙ last
  where
    last : expr_end 0 1 (1 + length a) (b'}' ∷ s) ≡ some (length a + 1)
    last = unfold expr_end expr_round in ap some (omega arith)

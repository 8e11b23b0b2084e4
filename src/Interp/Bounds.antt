-- ===== src/Interp/Bounds.antt =====
-- The offsets that internal/interp returns lie in the text and on the byte that is looked for.
use Prim.Native.Nat.add
use tya.Prelude.{
  ℕ, zero, suc, ◌+◌, ◌<◌, Bool, true, false, [], ◌∷◌, Option, some, ◌≡◌, refl, arith, ◌==◌, ◌⊎◌,
  inl, inr, Bool-cases, Option-cases, Bytes, drop, get_elem?, get_elem?-drop, sym, ap, ◌∙◌,
}
use tya.Text.{has_prefix, has_prefix-get}
use tya.Interp.{
  triple_quote, triple_end, quote_end, skip_string, Round, stop, on, expr_round, expr_end,
  find_expr_end,
}

-- The byte at offset `n` of the text behind `i` bytes is `b`.
abbrev pub At : ℕ → Bytes → ℕ → ℕ → Type 0
At i s b n = (k : ℕ) × (n ≡ i + k) × (get_elem? s k ≡ some b)

At-cons : (i c : ℕ) (s : Bytes) {n b : ℕ} → At (i + 1) s b n → At i (c ∷ s) b n
At-cons i c s (k, e, h) = (suc k, omega arith, h)

At-drop : (i m : ℕ) (s : Bytes) {n b : ℕ} → At (i + m) (drop m s) b n → At i s b n
At-drop i m s (k, e, h) = (m + k, omega arith, sym (get_elem?-drop m k s) ∙ h)

triple_end-At : (i : ℕ) (s : Bytes) {n : ℕ} → triple_end i s ≡ some n → At i s b'"' n
unfolding triple_end
triple_end-At i [] h = cc
triple_end-At i (c ∷ s) h = elim (Bool-cases (has_prefix (c ∷ s) triple_quote)) [
  | inl e ↦ (2, ground arith, has_prefix-get (c ∷ s) triple_quote 2 e refl)
  | inr e ↦ At-cons i c s (triple_end-At (i + 1) s (rw e at h))
]

quote_end-At : (q : Bool) (i : ℕ) (s : Bytes) {n : ℕ} → quote_end q i s ≡ some n → At i s b'"' n
unfolding quote_end
quote_end-At true i [] h = cc
quote_end-At false i [] h = cc
quote_end-At true i (c ∷ s) h = At-cons i c s (quote_end-At false (i + 1) s h)
quote_end-At false i (c ∷ s) h = elim (Bool-cases (c == b'"')) [
  | inl e ↦ (0, ground arith, ground arith)
  | inr e ↦ At-cons i c s (quote_end-At (c == b'\\') (i + 1) s (rw (e, quote_end) at h))
]

pub skip_string-At : (s : Bytes) {n : ℕ} → skip_string s ≡ some n → At 0 s b'"' n
unfolding skip_string
skip_string-At s h = elim (Bool-cases (has_prefix s triple_quote)) [
  | inl e ↦ At-drop 0 3 s (triple_end-At 3 (drop 3 s) (rw e at h))
  | inr e ↦ At-drop 0 1 s (quote_end-At false 1 (drop 1 s) (rw e at h))
]

-- A round that stops with an offset stops at its own, on a closing brace.
expr_round-stop :
    (depth i : ℕ) (s : Bytes) {n : ℕ} → expr_round depth i s ≡ stop (some n) → At i s b'}' n
unfolding expr_round
expr_round-stop depth i [] h = cc
expr_round-stop depth i (c ∷ s) h = elim (Option-cases (skip_string (c ∷ s))) [
  | inl e ↦ (0, ground arith, ground arith)
  | inr (k, e) ↦ (0, ground arith, ground arith)
]

Round-cases : (r : Round) → ((o : Option ℕ) × (r ≡ stop o)) ⊎ ((k d : ℕ) × (r ≡ on k d))
Round-cases (stop o) = inl (o, refl)
Round-cases (on k d) = inr (k, d, refl)

expr_end-At :
    (skip depth i : ℕ) (s : Bytes) {n : ℕ} → expr_end skip depth i s ≡ some n → At i s b'}' n
unfolding expr_end
expr_end-At zero depth i [] h = cc
expr_end-At (suc skip) depth i [] h = cc
expr_end-At (suc skip) depth i (c ∷ s) h = At-cons i c s (expr_end-At skip depth (i + 1) s h)
expr_end-At zero depth i (c ∷ s) h = elim (Round-cases (expr_round depth i (c ∷ s))) [
  | inl (o, e) ↦ expr_round-stop depth i (c ∷ s) (e ∙ ap stop (rw (e, expr_end) at h))
  | inr (k, d, e) ↦ At-cons i c s (expr_end-At k d (i + 1) s (rw (e, expr_end) at h))
]

-- `FindExprEnd` returns an offset only for a text that starts with an opening brace, and then the
-- offset lies behind that brace, in the text, on a closing brace.
pub find_expr_end-get :
    (s : Bytes) {n : ℕ}
    → find_expr_end s ≡ some n
    → (get_elem? s 0 ≡ some b'{') × (0 < n) × (get_elem? s n ≡ some b'}')
unfolding find_expr_end
find_expr_end-get [] h = cc
find_expr_end-get (c ∷ s) h = elim (Bool-cases (c == b'{')) [
  | inl e ↦
      let (k, p, g) = expr_end-At 0 1 1 s (rw e at h) in
      (ground arith, omega arith, rw (p, add.suc, add.zero) g)
  | inr e ↦ cc (rw e at h)
]

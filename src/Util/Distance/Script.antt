-- ===== src/Util/Distance/Script.antt =====
-- The specification of the edit distance: scripts of edits, and the least cost of one.
use tya.Prelude.{
  ℕ, suc, ◌+◌, ◌≤◌, [], ◌∷◌, reverse, ◌≡◌, refl, subst, arith, ◌==◌, Bool-cases, if_intro, inl, inr,
  leb, ◌&&◌, Bytes, length,
}
use mathlib.Core.List.{reverse_aux}
use tya.Util.Distance.{min3, cost}

-- A script of `n` insertions, deletions and replacements turns one text into another.
pub data Script : Bytes → Bytes → ℕ → Type 0 where
  done : {n : ℕ} → n ≡ 0 → Script [] [] n
  keep : {c d n : ℕ} {a b : Bytes} → c ≡ d → Script a b n → Script (c ∷ a) (d ∷ b) n
  replace : {c d n : ℕ} {a b : Bytes} → Script a b n → Script (c ∷ a) (d ∷ b) (suc n)
  insert : {d n : ℕ} {a b : Bytes} → Script a b n → Script a (d ∷ b) (suc n)
  delete : {c n : ℕ} {a b : Bytes} → Script a b n → Script (c ∷ a) b (suc n)

-- The recursion that the table tabulates.
unfoldable pub distance : Bytes → Bytes → ℕ
distance [] b = length b
distance (x ∷ a) [] = suc (length a)
distance (x ∷ a) (y ∷ b) =
    min3 (distance (x ∷ a) b + 1) (distance a (y ∷ b) + 1) (distance a b + cost x y)

min3_le : (a b c : ℕ) → (min3 a b c ≤ a) × (min3 a b c ≤ b) × (min3 a b c ≤ c)
unfolding min3
min3_le a b c = ground arith

distance-nil : (a : Bytes) → distance a [] ≡ length a
unfolding distance
distance-nil [] = refl
distance-nil (x ∷ a) = refl

distance-insert : (y : ℕ) (a b : Bytes) → distance a (y ∷ b) ≤ distance a b + 1
unfolding distance
distance-insert y [] b = omega arith
distance-insert y (x ∷ a) b =
    omega
      (arith, min3_le (distance (x ∷ a) b + 1) (distance a (y ∷ b) + 1) (distance a b + cost x y))

distance-delete : (x : ℕ) (a b : Bytes) → distance (x ∷ a) b ≤ distance a b + 1
unfolding distance
distance-delete x a [] = omega (arith, distance-nil a)
distance-delete x a (y ∷ b) =
    omega
      (arith, min3_le (distance (x ∷ a) b + 1) (distance a (y ∷ b) + 1) (distance a b + cost x y))

distance-replace : (x y : ℕ) (a b : Bytes) → distance (x ∷ a) (y ∷ b) ≤ distance a b + cost x y
unfolding distance
distance-replace x y a b =
    omega
      (arith, min3_le (distance (x ∷ a) b + 1) (distance a (y ∷ b) + 1) (distance a b + cost x y))

-- No script is cheaper.
pub distance-le : {a b : Bytes} {n : ℕ} → Script a b n → distance a b ≤ n
distance-le (done e) = unfold distance in omega arith
distance-le (keep {c} {d} {n} {a} {b} e s) = ground (arith, distance-replace c d a b, distance-le s)
distance-le (replace {c} {d} {n} {a} {b} s) =
    ground (arith, distance-replace c d a b, distance-le s)
distance-le (insert {d} {n} {a} {b} s) = omega (arith, distance-insert d a b, distance-le s)
distance-le (delete {c} {n} {a} {b} s) = omega (arith, distance-delete c a b, distance-le s)

Script-eq : {a b : Bytes} {m n : ℕ} → m ≡ n → Script a b m → Script a b n
Script-eq {a} {b} e s = subst (Script a b) e s

pub insert_all : (b : Bytes) → Script [] b (length b)
insert_all [] = done refl
insert_all (y ∷ b) = insert (insert_all b)

pub delete_all : (a : Bytes) → Script a [] (length a)
delete_all [] = done refl
delete_all (x ∷ a) = delete (delete_all a)

by_cost : (x y : ℕ) {a b : Bytes} {n : ℕ} → Script a b n → Script (x ∷ a) (y ∷ b) (n + cost x y)
by_cost x y {n = n} s = elim (Bool-cases (x == y)) [
  | inl e ↦ rw e (Script-eq (omega arith) (keep (ground arith) s))
  | inr e ↦ rw e (Script-eq (omega arith) (replace s))
]

min3_of {ℓ} : (P : ℕ → Type ℓ) (a b c : ℕ) → P a → P b → P c → P (min3 a b c)
unfolding min3
min3_of P a b c pa pb pc = if_intro P (leb a b && leb a c) pa (if_intro P (leb b c) pb pc)

-- Some script has this cost.
pub Script-distance : (a b : Bytes) → Script a b (distance a b)
unfolding distance
Script-distance [] b = insert_all b
Script-distance (x ∷ a) [] = delete_all (x ∷ a)
Script-distance (x ∷ a) (y ∷ b) =
    min3_of (Script (x ∷ a) (y ∷ b)) _ _ _
      (Script-eq (omega arith) (insert (Script-distance (x ∷ a) b)))
      (Script-eq (omega arith) (delete (Script-distance a (y ∷ b))))
      (by_cost x y (Script-distance a b))

-- A script, read backwards, in front of another.
pub Script-reverse_aux :
    {a b c d : Bytes} {m n : ℕ}
    → Script a b m
    → Script c d n
    → Script (reverse_aux a c) (reverse_aux b d) (m + n)
Script-reverse_aux (done e) t = Script-eq (omega arith) t
Script-reverse_aux (keep e s) t = Script-reverse_aux s (keep e t)
Script-reverse_aux (replace s) t = Script-eq (omega arith) (Script-reverse_aux s (replace t))
Script-reverse_aux (insert s) t = Script-eq (omega arith) (Script-reverse_aux s (insert t))
Script-reverse_aux (delete s) t = Script-eq (omega arith) (Script-reverse_aux s (delete t))

pub Script-reverse : {a b : Bytes} {n : ℕ} → Script a b n → Script (reverse a) (reverse b) n
Script-reverse s = Script-eq (omega arith) (Script-reverse_aux s (done refl))

pub Script-refl : (a : Bytes) → Script a a 0
Script-refl [] = done refl
Script-refl (x ∷ a) = keep refl (Script-refl a)

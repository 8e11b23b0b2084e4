-- ===== src/Sorting.antt =====
-- `sort.SliceStable`, as an insertion sort: a stable sort is determined by its order.
use mathlib.Core.List.Perm
use mathlib.Core.List.{Perm}
use tya.Prelude.{Bool, true, false, List, [], ◌∷◌, ◌≡◌, inl, inr, if◌then◌else◌, Bool-cases, All}

module _ {A : Type 0} (less : A → A → Bool) where
  -- In front of all that is not less: an element keeps its place before its equals behind it.
  unfoldable pub insert_stable : A → List A → List A
  insert_stable c [] = c ∷ []
  insert_stable c (e ∷ l) =
      let later = e ∷ insert_stable c l in if less e c then later else c ∷ e ∷ l

  unfoldable pub sort_stable : List A → List A
  unfolding insert_stable
  sort_stable [] = []
  sort_stable (c ∷ l) = insert_stable c (sort_stable l)

  -- Nothing is less than what stands in front of it.
  abbrev pub Sorted : List A → Type 0
  Sorted [] = Unit {0}
  Sorted (c ∷ l) = All (λ e. less e c ≡ false) l × Sorted l

  insert_stable-All :
      (P : A → Type 0) (c : A) (l : List A) → P c → All P l → All P (insert_stable c l)
  unfolding insert_stable
  insert_stable-All P c [] p a = (p, tt)
  insert_stable-All P c (e ∷ l) p (q, a) = elim (Bool-cases (less e c)) [
    | inl h ↦ rw h (q, insert_stable-All P c l p a)
    | inr h ↦ rw h (p, (q, a))
  ]

  pub sort_stable-All : (P : A → Type 0) (l : List A) → All P l → All P (sort_stable l)
  unfolding sort_stable
  sort_stable-All P [] a = tt
  sort_stable-All P (c ∷ l) (p, a) = insert_stable-All P c (sort_stable l) p (sort_stable-All P l a)

  insert_stable-perm : (c : A) (l : List A) → Perm (insert_stable c l) (c ∷ l)
  unfolding insert_stable
  insert_stable-perm c [] = Perm.refl (c ∷ [])
  insert_stable-perm c (e ∷ l) = elim (Bool-cases (less e c)) [
    | inl h ↦ rw h (Perm.trans (Perm.cons e (insert_stable-perm c l)) (Perm.swap c e l))
    | inr h ↦ rw h (Perm.refl (c ∷ e ∷ l))
  ]

  pub sort_stable-perm : (l : List A) → Perm (sort_stable l) l
  unfolding sort_stable
  sort_stable-perm [] = Perm.refl []
  sort_stable-perm (c ∷ l) =
      Perm.trans (insert_stable-perm c (sort_stable l)) (Perm.cons c (sort_stable-perm l))

  -- An order in which two elements that are not less may be chained.
  pub record IsOrdering : Type 0 where
    pub one_way : (a b : A) → less a b ≡ true → less b a ≡ false
    pub chain : (a b c : A) → less a b ≡ false → less b c ≡ false → less a c ≡ false

  module _ (ord : IsOrdering) where
    weaken :
        (e c : A) (l : List A)
        → less e c ≡ false
        → All (λ x. less x e ≡ false) l
        → All (λ x. less x c ≡ false) l
    weaken e c [] h a = tt
    weaken e c (x ∷ l) h (p, a) = (ord.chain x e c p h, weaken e c l h a)

    insert_stable-Sorted : (c : A) (l : List A) → Sorted l → Sorted (insert_stable c l)
    unfolding insert_stable
    insert_stable-Sorted c [] s = (tt, tt)
    insert_stable-Sorted c (e ∷ l) (a, s) = elim (Bool-cases (less e c)) [
      | inl h ↦ rw h (
        insert_stable-All (λ x. less x e ≡ false) c l (ord.one_way e c h) a,
        insert_stable-Sorted c l s,
      )
      | inr h ↦ rw h ((h, weaken e c l h a), (a, s))
    ]

    pub sort_stable-Sorted : (l : List A) → Sorted (sort_stable l)
    unfolding sort_stable
    sort_stable-Sorted [] = tt
    sort_stable-Sorted (c ∷ l) = insert_stable-Sorted c (sort_stable l) (sort_stable-Sorted l)

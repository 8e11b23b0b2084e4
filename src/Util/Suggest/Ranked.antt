-- ===== src/Util/Suggest/Ranked.antt =====
-- What `Suggest` lists, and in which order.
use tya.Prelude.{
  ℕ, zero, suc, ◌+◌, ◌≤◌, true, false, ◌||◌, List, [], ◌∷◌, some, ◌≡◌, ◌≢◌, refl, subst, inl, inr,
  arith, ltb, ◌==◌, map, Bool-cases, Bytes, length, take, get_elem?, All,
}
use tya.Text.{bytes_eq, bytes_eq_refl}
use tya.Util.Distance.{levenshtein}
use tya.Util.Suggest.{Candidate, candidates, nearer, insert, sort_candidates, text_of, suggest}

module _ (P : Candidate → Type 0) where
  insert-All : (c : Candidate) (l : List Candidate) → P c → All P l → All P (insert c l)
  unfolding insert
  insert-All c [] p a = (p, tt)
  insert-All c (e ∷ l) p (q, a) = elim (Bool-cases (nearer c e)) [
    | inl h ↦ rw h (p, (q, a))
    | inr h ↦ rw h (q, insert-All c l p a)
  ]

  pub sort-All : (l : List Candidate) → All P l → All P (sort_candidates l)
  unfolding sort_candidates
  sort-All [] a = tt
  sort-All (c ∷ l) (p, a) = insert-All c (sort_candidates l) p (sort-All l a)

  take-All : (n : ℕ) (l : List Candidate) → All P l → All P (take n l)
  take-All zero l a = tt
  take-All (suc n) [] a = tt
  take-All (suc n) (c ∷ l) (p, a) = (p, take-All n l a)

-- No candidate of the list is nearer than `d`.
abbrev pub From : ℕ → List Candidate → Type 0
From d l = All (λ e. d ≤ e.distance) l

From-weaken : (d d' : ℕ) (l : List Candidate) → d ≤ d' → From d' l → From d l
From-weaken d d' [] h a = tt
From-weaken d d' (e ∷ l) h (p, a) = (omega arith, From-weaken d d' l h a)

abbrev pub Sorted : List Candidate → Type 0
Sorted [] = Unit {0}
Sorted (c ∷ l) = From c.distance l × Sorted l

nearer_le : (c e : Candidate) → nearer c e ≡ true → c.distance ≤ e.distance
unfolding nearer
nearer_le c e h = ground arith

further_le : (c e : Candidate) → nearer c e ≡ false → e.distance ≤ c.distance
unfolding nearer
further_le c e h = ground arith

insert-Sorted : (c : Candidate) (l : List Candidate) → Sorted l → Sorted (insert c l)
unfolding insert
insert-Sorted c [] s = (tt, tt)
insert-Sorted c (e ∷ l) (a, s) = elim (Bool-cases (nearer c e)) [
  | inl h ↦
      rw h ((nearer_le c e h, From-weaken c.distance e.distance l (nearer_le c e h) a), (a, s))
  | inr h ↦
      rw h (insert-All (λ x. e.distance ≤ x.distance) c l (further_le c e h) a, insert-Sorted c l s)
]

pub sort-Sorted : (l : List Candidate) → Sorted (sort_candidates l)
unfolding sort_candidates
sort-Sorted [] = tt
sort-Sorted (c ∷ l) = insert-Sorted c (sort_candidates l) (sort-Sorted l)

take-Sorted : (n : ℕ) (l : List Candidate) → Sorted l → Sorted (take n l)
take-Sorted zero l s = tt
take-Sorted (suc n) [] s = tt
take-Sorted (suc n) (c ∷ l) (a, s) =
    (take-All (λ x. c.distance ≤ x.distance) n l a, take-Sorted n l s)

-- A name of the pool within reach that is not the misspelled one.
abbrev pub Eligible : (name : Bytes) (pool : List Bytes) (max_dist : ℕ) → Bytes → Type 0
Eligible name pool max_dist s =
    ((i : ℕ) × (get_elem? pool i ≡ some s)) × (s ≢ name) × (levenshtein name s ≤ max_dist)

abbrev pub Fits : (name : Bytes) (pool : List Bytes) (max_dist : ℕ) → Candidate → Type 0
Fits name pool max_dist c =
    (c.distance ≡ levenshtein name c.text) × Eligible name pool max_dist c.text

module _ (name : Bytes) (max_dist : ℕ) where
  Fits-later :
      (p : Bytes) (pool : List Bytes) (l : List Candidate)
      → All (Fits name pool max_dist) l
      → All (Fits name (p ∷ pool) max_dist) l
  Fits-later p pool [] a = tt
  Fits-later p pool (c ∷ l) ((d, ((i, g), n, m)), a) =
      ((d, ((suc i, g), n, m)), Fits-later p pool l a)

  pub candidates-Fits :
      (i : ℕ) (pool : List Bytes) → All (Fits name pool max_dist) (candidates name max_dist i pool)
  unfolding candidates
  candidates-Fits i [] = tt
  candidates-Fits i (p ∷ pool) = elim (Bool-cases (bytes_eq p name)) [
    | inl e ↦ rw e (Fits-later p pool _ (candidates-Fits (i + 1) pool))
    | inr e ↦ elim (Bool-cases (ltb max_dist (levenshtein name p))) [
      | inl f ↦ rw (e, f) (Fits-later p pool _ (candidates-Fits (i + 1) pool))
      | inr f ↦
          rw (e, f)
            (
              (refl, ((0, refl), differs p e, ground arith)),
              Fits-later p pool _ (candidates-Fits (i + 1) pool),
            )
    ]
  ]
    where
      differs : (p : Bytes) → bytes_eq p name ≡ false → p ≢ name
      differs p e q = cc (rw q at e, bytes_eq_refl name)

-- Names in the order of their distance from `name`.
abbrev pub ClosestFirst : (name : Bytes) → List Bytes → Type 0
ClosestFirst name [] = Unit {0}
ClosestFirst name (s ∷ r) =
    All (λ t. levenshtein name s ≤ levenshtein name t) r × ClosestFirst name r

module _ (name : Bytes) (pool : List Bytes) (max_dist : ℕ) where
  texts-Eligible :
      (l : List Candidate)
      → All (Fits name pool max_dist) l
      → All (Eligible name pool max_dist) (map text_of l)
  texts-Eligible [] a = tt
  texts-Eligible (c ∷ l) ((d, f), a) = (f, texts-Eligible l a)

  texts-From :
      (n : ℕ) (l : List Candidate)
      → All (Fits name pool max_dist) l
      → From n l
      → All (λ t. n ≤ levenshtein name t) (map text_of l)
  texts-From n [] a b = tt
  texts-From n (c ∷ l) ((d, f), a) (h, b) = (omega arith, texts-From n l a b)

  texts-ClosestFirst :
      (l : List Candidate)
      → All (Fits name pool max_dist) l
      → Sorted l
      → ClosestFirst name (map text_of l)
  texts-ClosestFirst [] a s = tt
  texts-ClosestFirst (c ∷ l) ((d, f), a) (b, s) = (
    texts-From (levenshtein name c.text) l a (subst (λ n. From n l) d b),
    texts-ClosestFirst l a s,
  )

texts-length-take : (n : ℕ) (l : List Candidate) → length (map text_of (take n l)) ≤ n
texts-length-take zero l = omega arith
texts-length-take (suc n) [] = omega arith
texts-length-take (suc n) (c ∷ l) = omega (arith, texts-length-take n l)

abbrev pub Suggests : (name : Bytes) (pool : List Bytes) (max_dist max : ℕ) → List Bytes → Type 0
Suggests name pool max_dist max r =
    All (Eligible name pool max_dist) r × ClosestFirst name r × (length r ≤ max)

-- `Suggest` lists at most `max` names, the closest first, all of them from the pool, within
-- `maxDist` of the misspelled name and different from it.
pub suggest-Suggests :
    (name : Bytes) (pool : List Bytes) (max_dist max : ℕ)
    → Suggests name pool max_dist max (suggest name pool max_dist max)
unfolding suggest
suggest-Suggests name pool max_dist max =
    elim (Bool-cases (length name == 0 || ltb max_dist 1 || ltb max 1)) [
      | inl e ↦ rw e (tt, tt, omega arith)
      | inr e ↦ rw e (
        texts-Eligible name pool max_dist (take max sorted) fits,
        texts-ClosestFirst name pool max_dist (take max sorted) fits
            (take-Sorted max sorted (sort-Sorted found)),
        texts-length-take max sorted,
      )
    ]
  where
    found : List Candidate
    found = candidates name max_dist 0 pool

    sorted : List Candidate
    sorted = sort_candidates found

    fits : All (Fits name pool max_dist) (take max sorted)
    fits =
        take-All (Fits name pool max_dist) max sorted
          (sort-All (Fits name pool max_dist) found (candidates-Fits name max_dist 0 pool))

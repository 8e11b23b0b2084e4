-- ===== src/Util/Suggest/Complete.antt =====
-- What `Suggest` leaves out.
use tya.Prelude.{
  ℕ, zero, suc, ◌+◌, ◌≤◌, ◌<◌, true, false, ◌||◌, List, [], ◌∷◌, some, ◌≡◌, ◌≢◌, refl, ap, subst,
  ◌⊎◌, inl, inr, arith, ltb, ◌==◌, map, Bool-cases, Bytes, length, take, get_elem?, All,
}
use tya.Text.{bytes_eq, bytes_eq-eq}
use tya.Util.Distance.{levenshtein}
use tya.Util.Suggest.{Candidate, candidates, nearer, insert, sort_candidates, text_of, suggest}
use tya.Util.Suggest.Ranked.{From, Sorted, Fits, sort-All, sort-Sorted, candidates-Fits}

-- A list of candidates with the name `s`.
data Holds (s : Bytes) : List Candidate → Type 0 where
  here : {c : Candidate} {l : List Candidate} → c.text ≡ s → Holds s (c ∷ l)
  there : {c : Candidate} {l : List Candidate} → Holds s l → Holds s (c ∷ l)

module _ (s : Bytes) where
  insert-here : (c : Candidate) (l : List Candidate) → c.text ≡ s → Holds s (insert c l)
  unfolding insert
  insert-here c [] h = here h
  insert-here c (e ∷ l) h = elim (Bool-cases (nearer c e)) [
    | inl b ↦ rw b (here h)
    | inr b ↦ rw b (there (insert-here c l h))
  ]

  insert-there : (c : Candidate) {l : List Candidate} → Holds s l → Holds s (insert c l)
  unfolding insert
  insert-there c {l = []} h = elim h [ ]
  insert-there c {l = e ∷ l} (here h) = elim (Bool-cases (nearer c e)) [
    | inl b ↦ rw b (there (here h))
    | inr b ↦ rw b (here h)
  ]
  insert-there c {l = e ∷ l} (there h) = elim (Bool-cases (nearer c e)) [
    | inl b ↦ rw b (there (there h))
    | inr b ↦ rw b (there (insert-there c h))
  ]

  sort-Holds : {l : List Candidate} → Holds s l → Holds s (sort_candidates l)
  unfolding sort_candidates
  sort-Holds {l = []} h = elim h [ ]
  sort-Holds {l = c ∷ l} (here h) = insert-here c (sort_candidates l) h
  sort-Holds {l = c ∷ l} (there h) = insert-there c (sort-Holds h)

  map-Holds : {l : List Candidate} → Holds s l → (j : ℕ) × (get_elem? (map text_of l) j ≡ some s)
  map-Holds (here h) = (0, ap some h)
  map-Holds (there h) = let (j, g) = map-Holds h in (suc j, g)

  candidates-Holds :
      (name : Bytes) (max_dist i k : ℕ) (pool : List Bytes)
      → get_elem? pool k ≡ some s
      → s ≢ name
      → levenshtein name s ≤ max_dist
      → Holds s (candidates name max_dist i pool)
  unfolding candidates
  candidates-Holds name max_dist i k [] g n m = cc
  candidates-Holds name max_dist i zero (p ∷ pool) g n m = elim (Bool-cases (bytes_eq p name)) [
    | inl e ↦ absurd (n (cc (bytes_eq-eq p name e)))
    | inr e ↦ elim (Bool-cases (ltb max_dist (levenshtein name p))) [
      | inl f ↦ absurd (omega (arith, reach p (cc g) f))
      | inr f ↦ rw (e, f) (here (cc g))
    ]
  ]
    where
      reach :
          (p : Bytes)
          → p ≡ s
          → ltb max_dist (levenshtein name p) ≡ true
          → max_dist < levenshtein name s
      reach p q f = ground (arith, subst (λ t. ltb max_dist (levenshtein name t) ≡ true) q f)
  candidates-Holds name max_dist i (suc k) (p ∷ pool) g n m =
      let rest = candidates-Holds name max_dist (i + 1) k pool g n m in
      elim (Bool-cases (bytes_eq p name)) [
        | inl e ↦ rw e rest
        | inr e ↦ elim (Bool-cases (ltb max_dist (levenshtein name p))) [
          | inl f ↦ rw (e, f) rest
          | inr f ↦ rw (e, f) (there rest)
        ]
      ]

module _ (name : Bytes) (pool : List Bytes) (max_dist : ℕ) (s : Bytes) where
  From-Holds :
      (d : ℕ) (l : List Candidate)
      → Holds s l
      → All (Fits name pool max_dist) l
      → From d l
      → d ≤ levenshtein name s
  From-Holds d (c ∷ l) (here h) ((q, f), a) (b, r) =
      subst (λ t. d ≤ levenshtein name t) h (omega (arith, q))
  From-Holds d (c ∷ l) (there h) (q, a) (b, r) = From-Holds d l h a r
  From-Holds d [] h a b = elim h [ ]

  take-Holds :
      (n : ℕ) (l : List Candidate)
      → Holds s l
      → All (Fits name pool max_dist) l
      → Sorted l
      → Holds s (take n l)
        ⊎ ((length (map text_of (take n l)) ≡ n)
            × All (λ t. levenshtein name t ≤ levenshtein name s) (map text_of (take n l)))
  take-Holds zero l h a o = inr (refl, tt)
  take-Holds (suc n) [] h a o = elim h [ ]
  take-Holds (suc n) (c ∷ l) (here h) a o = inl (here h)
  take-Holds (suc n) (c ∷ l) (there h) ((q, f), a) (b, o) = elim (take-Holds n l h a o) [
    | inl k ↦ inl (there k)
    | inr (k, r) ↦
        inr
          (omega arith, (subst (λ d. d ≤ levenshtein name s) q (From-Holds c.distance l h a b), r))
  ]

-- Every name of the pool that is not the misspelled one and within `maxDist` of it is listed, or
-- `max` names are, none of them farther away. The misspelled name is not empty, and `maxDist` and
-- `max` are not 0.
pub suggest-Complete :
    (name : Bytes) (pool : List Bytes) (max_dist max k : ℕ) (s : Bytes)
    → 0 < length name
    → 0 < max_dist
    → 0 < max
    → get_elem? pool k ≡ some s
    → s ≢ name
    → levenshtein name s ≤ max_dist
    → ((j : ℕ) × (get_elem? (suggest name pool max_dist max) j ≡ some s))
      ⊎ ((length (suggest name pool max_dist max) ≡ max)
          × All (λ t. levenshtein name t ≤ levenshtein name s) (suggest name pool max_dist max))
unfolding suggest
suggest-Complete name pool max_dist max k s ln lm lx g n m =
    rw (guards name max_dist max ln lm lx)
      (elim (take-Holds name pool max_dist s max (sort_candidates found) held fits
        (sort-Sorted found)) [ inl h ↦ inl (map-Holds s h) | inr r ↦ inr r ])
  where
    guards :
        (name : Bytes) (max_dist max : ℕ)
        → 0 < length name
        → 0 < max_dist
        → 0 < max
        → (length name == 0 || ltb max_dist 1 || ltb max 1) ≡ false
    guards name max_dist max a b c = ground arith

    found : List Candidate
    found = candidates name max_dist 0 pool

    fits : All (Fits name pool max_dist) (sort_candidates found)
    fits = sort-All (Fits name pool max_dist) found (candidates-Fits name max_dist 0 pool)

    held : Holds s (sort_candidates found)
    held = sort-Holds s (candidates-Holds s name max_dist 0 k pool g n m)

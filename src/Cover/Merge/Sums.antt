-- ===== src/Cover/Merge/Sums.antt =====
-- What `Merge` makes of two profiles.
use tya.Prelude.{
  ℕ, ◌+◌, ◌%◌, ◌^◌, Bool, true, false, List, [], ◌∷◌, ◌++◌, Option, none, some, ◌≡◌, refl, sym, ap,
  subst, ◌∙◌, inl, inr, arith, ◌==◌, if◌then◌else◌, Bool-cases, Option-cases, map,
}
use tya.Cover.Profile.{
  File, Stmt, Hits, Profile, hits_of, add_hits, IsMap, hits_of-IsMap, hits_of-absent,
  hits_of-add_hits_same, hits_of-add_hits_other, add_hits-IsMap, find,
}
use tya.Cover.Merge.{is_known, append_new, add_all, merge}

abbrev pub first_of : {A : Type 0} → Option A → Option A → Option A
first_of (some x) o = some x
first_of none o = o

abbrev is_some : {A : Type 0} → Option A → Bool
is_some (some x) = true
is_some none = false

module _ {A : Type 0} (id : A → ℕ) where
  find-append : (i : ℕ) (a b : List A) → find id i (a ++ b) ≡ first_of (find id i a) (find id i b)
  unfolding find
  find-append i [] b = refl
  find-append i (x ∷ a) b = elim (Bool-cases (id x == i)) [
    | inl e ↦ rw e refl
    | inr e ↦ rw e (find-append i a b)
  ]

  is_known-map : (i : ℕ) (a : List A) → is_known i (map id a) ≡ is_some (find id i a)
  unfolding find is_known
  is_known-map i [] = refl
  is_known-map i (x ∷ a) = elim (Bool-cases (id x == i)) [
    | inl e ↦ rw e refl
    | inr e ↦ rw e (is_known-map i a)
  ]

  -- The known ids are those of the records.
  abbrev Knows : List ℕ → List A → Type 0
  Knows known a = (i : ℕ) → is_known i known ≡ is_some (find id i a)

  Knows-append :
      (known : List ℕ) (a : List A) (x : A) → Knows known a → Knows (id x ∷ known) (a ++ x ∷ [])
  unfolding is_known find
  Knows-append known a x k i = elim (Bool-cases (id x == i)) [
    | inl e ↦ elim (Option-cases (find id i a)) [
      | inl f ↦ rw (find-append i a (x ∷ []), f, e) refl
      | inr (y, f) ↦ rw (find-append i a (x ∷ []), f, e) refl
    ]
    | inr e ↦ elim (Option-cases (find id i a)) [
      | inl f ↦ rw (find-append i a (x ∷ []), f, e, k i, f) refl
      | inr (y, f) ↦ rw (find-append i a (x ∷ []), f, e, k i, f) refl
    ]
  ]

  -- Behind a record that is known, the next one with its id changes nothing.
  first_of-known :
      (known : List ℕ) (a : List A) (x : A) (i : ℕ) (o : Option A)
      → Knows known a
      → is_known (id x) known ≡ true
      → first_of (find id i a) (if id x == i then some x else o) ≡ first_of (find id i a) o
  first_of-known known a x i o k h = elim (Option-cases (find id i a)) [
    | inr (y, f) ↦ rw f refl
    | inl f ↦ elim (Bool-cases (id x == i)) [
      | inr e ↦ rw e refl
      | inl e ↦ clash (sym (k i ∙ ap is_some f) ∙ ap (λ j. is_known j known) (same e) ∙ h)
    ]
  ]
    where
      same : (id x == i) ≡ true → i ≡ id x
      same e = ground arith

      clash : {P : Type 0} → false ≡ true → P
      clash e = absurd cc

  first_of-if :
      (o p : Option A) (x : A) (b : Bool)
      → first_of (first_of o (if b then some x else none)) p ≡ first_of o (if b then some x else p)
  first_of-if (some y) p x b = refl
  first_of-if none p x true = refl
  first_of-if none p x false = refl

  first_of-none : (o : Option A) → o ≡ first_of o none
  first_of-none (some y) = refl
  first_of-none none = refl

  append_new-find :
      (known : List ℕ) (a b : List A)
      → Knows known a
      → (i : ℕ) → find id i (append_new id known a b) ≡ first_of (find id i a) (find id i b)
  unfolding append_new find
  append_new-find known a [] k i = first_of-none (find id i a)
  append_new-find known a (x ∷ b) k i = elim (Bool-cases (is_known (id x) known)) [
    | inl e ↦
        rw (e, append_new)
          (append_new-find known a b k i ∙ sym (first_of-known known a x i (find id i b) k e))
    | inr e ↦
        rw (e, append_new)
          (append_new-find (id x ∷ known) (a ++ x ∷ []) b (Knows-append known a x k) i
            ∙ ap (λ o. first_of o (find id i b)) (find-append i a (x ∷ []))
            ∙ first_of-if (find id i a) (find id i b) x (id x == i))
  ]

add_all-IsMap : (a b : Hits) → IsMap a → IsMap (add_all a b)
unfolding add_all
add_all-IsMap a [] m = m
add_all-IsMap a ((id, n) ∷ b) m = add_all-IsMap (add_hits id n a) b (add_hits-IsMap id n a m)

hits_of-add_all :
    (j : ℕ) (a b : Hits)
    → IsMap a
    → IsMap b
    → hits_of j (add_all a b) ≡ (hits_of j a + hits_of j b) % 2 ^ 64
unfolding add_all hits_of
hits_of-add_all j a [] m n = ground (arith, hits_of-IsMap j a m)
hits_of-add_all j a ((id, h) ∷ b) m (l, f, n) = elim (Bool-cases (id == j)) [
  | inl e ↦ rw e (
      subst (λ y. hits_of y (add_all (add_hits id h a) b) ≡ (hits_of y a + h) % 2 ^ 64) (same e)
        (hits_of-add_all id (add_hits id h a) b (add_hits-IsMap id h a m) n
          ∙ rw (hits_of-add_hits_same id h a, hits_of-absent id b f) (omega arith)))
  | inr e ↦ rw e (
      hits_of-add_all j (add_hits id h a) b (add_hits-IsMap id h a m) n
      ∙ ap (λ x. (x + hits_of j b) % 2 ^ 64) (hits_of-add_hits_other j id h a e))
]
  where
    same : (id == j) ≡ true → id ≡ j
    same e = ground arith

-- The merged profile: each count is the sum of both, and each id keeps its record of `a`, or else
-- has its first one of `b`.
pub record Merged (a b m : Profile) : Type 0 where
  pub sums : (j : ℕ) → hits_of j m.hits ≡ (hits_of j a.hits + hits_of j b.hits) % 2 ^ 64
  pub hits_map : IsMap m.hits
  pub files_found :
      (i : ℕ)
      → find (λ (f : File). f.id) i m.files
        ≡ first_of (find (λ (f : File). f.id) i a.files) (find (λ (f : File). f.id) i b.files)
  pub stmts_found :
      (i : ℕ)
      → find (λ (s : Stmt). s.id) i m.stmts
        ≡ first_of (find (λ (s : Stmt). s.id) i a.stmts) (find (λ (s : Stmt). s.id) i b.stmts)

-- For two maps of hits, in whatever order the second one is gone through, `Merge` adds the counts of
-- each statement, with the wrap-around of 64 bits, and looking up a file or a statement gives the
-- first profile's record, or else the first of the second profile.
pub merge-Merged : (a b : Profile) → IsMap a.hits → IsMap b.hits → Merged a b (merge a b)
unfolding merge
merge-Merged a b m n = record {
  sums = λ j. hits_of-add_all j a.hits b.hits m n;
  hits_map = add_all-IsMap a.hits b.hits m;
  files_found =
      append_new-find (λ f. f.id) (map (λ f. f.id) a.files) a.files b.files
        (λ i. is_known-map (λ f. f.id) i a.files);
  stmts_found =
      append_new-find (λ s. s.id) (map (λ s. s.id) a.stmts) a.stmts b.stmts
        (λ i. is_known-map (λ s. s.id) i a.stmts);
}

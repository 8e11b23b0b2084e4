-- ===== src/Cover/Profile.antt =====
-- internal/cover/cover.go: `Profile` and its records. A Go int is the number of its 64 bits, and the
-- map of hits a list of entries with different ids.
use tya.Prelude.{
  ℕ, ◌+◌, ◌%◌, ◌^◌, ◌≡◌, ◌<◌, Bool, false, ◌||◌, List, [], ◌∷◌, Option, none, some, refl, ◌∙◌, inl,
  inr, arith, ◌==◌, if◌then◌else◌, Bool-cases, Bytes,
}

pub record File : Type 0 where
  pub id : ℕ
  pub path : Bytes

pub record Stmt : Type 0 where
  pub id : ℕ
  pub file_id : ℕ
  pub line : ℕ
  pub col : ℕ

abbrev pub Hits : Type 0
Hits = List (ℕ × ℕ)

pub record Profile : Type 0 where
  pub files : List File
  pub stmts : List Stmt
  pub hits : Hits

-- `New`.
abbrev pub new_profile : Profile
new_profile = record { files = []; stmts = []; hits = [] }

-- `p.Hits[id]`.
unfoldable pub hits_of : ℕ → Hits → ℕ
hits_of id [] = 0
hits_of id ((k, h) ∷ l) = if k == id then h else hits_of id l

unfoldable pub has_id : ℕ → Hits → Bool
has_id id [] = false
has_id id ((k, h) ∷ l) = (k == id) || has_id id l

-- `p.Hits[id] += n`.
unfoldable pub add_hits : (id n : ℕ) → Hits → Hits
add_hits id n [] = (id, n % 2 ^ 64) ∷ []
add_hits id n ((k, h) ∷ l) =
    let rest = add_hits id n l in if k == id then (k, (h + n) % 2 ^ 64) ∷ l else (k, h) ∷ rest

-- A map of 64-bit counts: every id stands once.
abbrev pub IsMap : Hits → Type 0
IsMap [] = Unit {0}
IsMap ((k, h) ∷ l) = (h < 2 ^ 64) × (has_id k l ≡ false) × IsMap l

pub hits_of-IsMap : (id : ℕ) (l : Hits) → IsMap l → hits_of id l < 2 ^ 64
unfolding hits_of
hits_of-IsMap id [] m = omega arith
hits_of-IsMap id ((k, h) ∷ l) (b, f, m) = ground (arith, hits_of-IsMap id l m)

pub hits_of-absent : (id : ℕ) (l : Hits) → has_id id l ≡ false → hits_of id l ≡ 0
unfolding hits_of has_id
hits_of-absent id [] h = refl
hits_of-absent id ((k, n) ∷ l) h = ground (arith, hits_of-absent id l)

pub hits_of-add_hits_same :
    (id n : ℕ) (l : Hits) → hits_of id (add_hits id n l) ≡ (hits_of id l + n) % 2 ^ 64
unfolding hits_of add_hits
hits_of-add_hits_same id n [] = ground arith
hits_of-add_hits_same id n ((k, h) ∷ l) = elim (Bool-cases (k == id)) [
  | inl e ↦ rw (e, e) refl
  | inr e ↦ rw (e, e) (hits_of-add_hits_same id n l)
]

pub hits_of-add_hits_other :
    (j id n : ℕ) (l : Hits) → (id == j) ≡ false → hits_of j (add_hits id n l) ≡ hits_of j l
unfolding hits_of add_hits
hits_of-add_hits_other j id n [] e = rw e refl
hits_of-add_hits_other j id n ((k, h) ∷ l) e = elim (Bool-cases (k == id)) [
  | inl f ↦ ground arith
  | inr f ↦ ground (arith, hits_of-add_hits_other j id n l)
]

pub has_id-add_hits :
    (j id n : ℕ) (l : Hits) → has_id j (add_hits id n l) ≡ ((id == j) || has_id j l)
unfolding has_id add_hits
has_id-add_hits j id n [] = refl
has_id-add_hits j id n ((k, h) ∷ l) = ground (arith, has_id-add_hits j id n l)

pub add_hits-IsMap : (id n : ℕ) (l : Hits) → IsMap l → IsMap (add_hits id n l)
unfolding add_hits has_id
add_hits-IsMap id n [] m = (omega arith, refl, tt)
add_hits-IsMap id n ((k, h) ∷ l) (b, f, m) = elim (Bool-cases (k == id)) [
  | inl e ↦ rw e (omega arith, f, m)
  | inr e ↦ rw e (b, has_id-add_hits k id n l ∙ ground arith, add_hits-IsMap id n l m)
]

-- The first record with an id.
unfoldable pub find : {A : Type 0} → (id : A → ℕ) → ℕ → List A → Option A
find id i [] = none
find id i (x ∷ l) = if id x == i then some x else find id i l

-- No two records have the same id.
abbrev pub DistinctIds : {A : Type 0} → (id : A → ℕ) → List A → Type 0
DistinctIds id [] = Unit {0}
DistinctIds id (x ∷ l) = (find id (id x) l ≡ none) × DistinctIds id l

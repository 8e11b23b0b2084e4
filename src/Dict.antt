-- ===== src/Dict.antt =====
-- Go's maps with string keys, as association lists, and membership of a name in a list of names.
use tya.Prelude.{
  ℕ, Bool, true, false, ◌||◌, suc, ◌+◌, ◌≤◌, ◌<◌, length, List, [], ◌∷◌, Option, none, some, ◌≡◌,
  refl, sym, ap, ◌∙◌, ◌⊎◌, inl, inr, arith, if◌then◌else◌, Bool-cases, Bytes, subst, All,
}
use tya.Text.{bytes_eq, bytes_eq_refl, bytes_eq-eq, bytes_eq-ne}

-- `contains` of internal/pkg/toml.go, and the test of a set that is kept as a `map[string]bool`.
unfoldable pub contains : List Bytes → Bytes → Bool
unfolding bytes_eq
contains [] x = false
contains (v ∷ s) x = bytes_eq v x || contains s x

pub contains-cons :
    (v x : Bytes) (s : List Bytes) → contains (v ∷ s) x ≡ true → (v ≡ x) ⊎ (contains s x ≡ true)
unfolding contains
contains-cons v x s h = elim (Bool-cases (bytes_eq v x)) [
  | inl e ↦ inl (bytes_eq-eq v x e)
  | inr e ↦ inr (rw e at h)
]

pub contains_here : (x : Bytes) (s : List Bytes) → contains (x ∷ s) x ≡ true
unfolding contains
contains_here x s = rw (bytes_eq_refl x) refl

pub contains_there :
    (v x : Bytes) (s : List Bytes) → contains s x ≡ true → contains (v ∷ s) x ≡ true
unfolding contains
contains_there v x s h = ground arith

-- What holds of every member holds of all, and the other way round.
pub All-contains {κ} :
    (P : Bytes → Type κ) (s : List Bytes) → ((x : Bytes) → contains s x ≡ true → P x) → All P s
All-contains P [] h = tt
All-contains P (x ∷ s) h =
    (h x (contains_here x s), All-contains P s (λ y c. h y (contains_there x y s c)))

pub All-get {κ} :
    (P : Bytes → Type κ) (s : List Bytes) (x : Bytes) → All P s → contains s x ≡ true → P x
unfolding contains
All-get P [] x a h = cc
All-get P (y ∷ s) x (p, a) h = elim (contains-cons y x s h) [
  | inl e ↦ subst P e p
  | inr c ↦ All-get P s x a c
]

-- The number of entries of `s` that `v` does not name.
pub missing : (v s : List Bytes) → ℕ
missing v [] = 0
missing v (k ∷ s) = (if contains v k then 0 else 1) + missing v s

pub missing-le-length : (v s : List Bytes) → missing v s ≤ length s
unfolding missing
missing-le-length v [] = omega arith
missing-le-length v (k ∷ s) = ground (arith, missing-le-length v s)

missing-cons-le : (x : Bytes) (v s : List Bytes) → missing (x ∷ v) s ≤ missing v s
unfolding missing contains
missing-cons-le x v [] = omega arith
missing-cons-le x v (k ∷ s) = ground (arith, missing-cons-le x v s)

-- A new name leaves fewer that are missing.
pub missing-mark :
    (x : Bytes) (v s : List Bytes)
    → contains s x ≡ true
    → contains v x ≡ false
    → missing (x ∷ v) s < missing v s
unfolding missing contains
missing-mark x v [] h c = cc
missing-mark x v (k ∷ s) h c = elim (Bool-cases (bytes_eq k x)) [
  | inl e ↦
      let same : k ≡ x = bytes_eq-eq k x e in
      let known : contains v k ≡ false = subst (λ y. contains v y ≡ false) (sym same) c in
      let now : bytes_eq x k ≡ true =
        subst (λ y. bytes_eq x y ≡ true) (sym same) (bytes_eq_refl x) in
      ground (arith, missing-cons-le x v s)
  | inr e ↦ ground (arith, missing-mark x v s (rw e at h) c)
]

pub missing-keeps :
    (v w s : List Bytes)
    → ((x : Bytes) → contains v x ≡ true → contains w x ≡ true)
    → missing w s ≤ missing v s
unfolding missing
missing-keeps v w [] h = omega arith
missing-keeps v w (k ∷ s) h = elim (Bool-cases (contains v k)) [
  | inl e ↦ rw (e, h k e) (ground (arith, missing-keeps v w s h))
  | inr e ↦ rw e (ground (arith, missing-keeps v w s h))
]

-- No name stands twice.
abbrev pub Distinct : List Bytes → Type 0
Distinct [] = Unit {0}
Distinct (x ∷ v) = (contains v x ≡ false) × Distinct v

differs : (i j k : Bytes) → bytes_eq i k ≡ false → bytes_eq i j ≡ true → bytes_eq k j ≡ false
differs i j k e f = elim (Bool-cases (bytes_eq k j)) [
  | inl g ↦ absurd (bytes_eq-ne i k e (bytes_eq-eq i j f ∙ sym (bytes_eq-eq k j g)))
  | inr g ↦ g
]

module _ {ℓ} {V : Type ℓ} where
  unfoldable pub lookup : Bytes → List (Bytes × V) → Option V
  unfolding bytes_eq
  lookup k [] = none
  lookup k ((j, v) ∷ m) = if bytes_eq j k then some v else lookup k m

  unfoldable pub insert : Bytes → V → List (Bytes × V) → List (Bytes × V)
  unfolding bytes_eq
  insert k v [] = (k, v) ∷ []
  insert k v ((j, w) ∷ m) = if bytes_eq j k then (k, v) ∷ m else (j, w) ∷ insert k v m

  unfoldable pub erase : Bytes → List (Bytes × V) → List (Bytes × V)
  unfolding bytes_eq
  erase k [] = []
  erase k ((j, w) ∷ m) = let rest = erase k m in if bytes_eq j k then rest else (j, w) ∷ rest

  pub lookup-insert :
      (k j : Bytes) (v : V) (m : List (Bytes × V))
      → lookup j (insert k v m) ≡ (if bytes_eq k j then some v else lookup j m)
  unfolding lookup insert
  lookup-insert k j v [] = refl
  lookup-insert k j v ((i, w) ∷ m) = elim (Bool-cases (bytes_eq i k)) [
    | inl e ↦ elim (Bool-cases (bytes_eq k j)) [
      | inl f ↦ rw e (rw f refl)
      | inr f ↦ rw e (rw (ap (λ s. bytes_eq s j) (bytes_eq-eq i k e)) (rw f refl))
    ]
    | inr e ↦ elim (Bool-cases (bytes_eq i j)) [
      | inl f ↦ rw (e, f) (rw (differs i j k e f) refl)
      | inr f ↦ rw (e, f) (lookup-insert k j v m)
    ]
  ]

  pub lookup-erase :
      (k j : Bytes) (m : List (Bytes × V))
      → lookup j (erase k m) ≡ (if bytes_eq k j then none else lookup j m)
  unfolding lookup erase
  lookup-erase k j [] = elim (Bool-cases (bytes_eq k j)) [ inl f ↦ rw f refl | inr f ↦ rw f refl ]
  lookup-erase k j ((i, w) ∷ m) = elim (Bool-cases (bytes_eq i k)) [
    | inl e ↦ elim (Bool-cases (bytes_eq k j)) [
      | inl f ↦ rw e (rw f (lookup-erase k j m ∙ rw f refl))
      | inr f ↦
          rw e (
            rw (f, ap (λ s. bytes_eq s j) (bytes_eq-eq i k e) ∙ f) (lookup-erase k j m ∙ rw f refl))
    ]
    | inr e ↦ elim (Bool-cases (bytes_eq i j)) [
      | inl f ↦ rw (e, f) (rw (differs i j k e f) refl)
      | inr f ↦ rw (e, f) (lookup-erase k j m)
    ]
  ]

  -- The keys, in the order of the entries.
  pub keys : List (Bytes × V) → List Bytes
  keys [] = []
  keys ((k, v) ∷ m) = k ∷ keys m

  pub length-keys : (m : List (Bytes × V)) → length (keys m) ≡ length m
  unfolding keys
  length-keys [] = refl
  length-keys ((k, v) ∷ m) = ap suc (length-keys m)

  pub contains-keys :
      (k : Bytes) (m : List (Bytes × V)) {v : V} → lookup k m ≡ some v → contains (keys m) k ≡ true
  unfolding lookup keys contains
  contains-keys k [] h = cc
  contains-keys k ((j, w) ∷ m) h = elim (Bool-cases (bytes_eq j k)) [
    | inl e ↦ rw e refl
    | inr e ↦ rw e (contains-keys k m (rw e at h))
  ]

-- ===== src/Pkg/Resolve/Listed.antt =====
-- The packages of a lockfile, put in the order of their names.
use mathlib.Core.List.{reverse-append}
use tya.Prelude.{
  Bool, true, false, ◌||◌, List, [], ◌∷◌, ◌++◌, ◌≡◌, refl, sym, subst, ◌∙◌, ap, inl, inr, arith,
  Bool-cases, reverse, Bytes, All, All-append,
}
use tya.Text.{bytes_eq, bytes_eq_comm, text_less}
use tya.Dict.{contains, Distinct}
use tya.Sorting.{insert_stable, sort_stable, IsOrdering}
use tya.Pkg.Lockfile.{LockedPackage}
use tya.Pkg.Resolve.Visit.{names}

abbrev pub by_name : LockedPackage → LockedPackage → Bool
by_name p q = text_less p.name q.name

or_left : (a b : Bool) → (a || b) ≡ false → a ≡ false
or_left true b h = h
or_left false b h = refl

or_right : (a b : Bool) → (a || b) ≡ false → b ≡ false
or_right true b h = absurd cc
or_right false b h = h

contains-concat :
    (l : List Bytes) (y x : Bytes) → contains (l ++ y ∷ []) x ≡ (contains l x || bytes_eq y x)
unfolding contains
contains-concat [] y x = elim (Bool-cases (bytes_eq y x)) [ inl e ↦ rw e refl | inr e ↦ rw e refl ]
contains-concat (z ∷ l) y x = elim (Bool-cases (bytes_eq z x)) [
  | inl e ↦ rw e refl
  | inr e ↦ rw e (contains-concat l y x)
]

names-append : (a b : List LockedPackage) → names (a ++ b) ≡ names a ++ names b
names-append [] b = refl
names-append (p ∷ a) b = ap (◌∷◌ p.name) (names-append a b)

pub All-reverse :
    (P : LockedPackage → Type 0) (l : List LockedPackage) → All P l → All P (reverse l)
All-reverse P [] a = tt
All-reverse P (p ∷ l) (h, a) =
    subst (All P) (sym (reverse-append (p ∷ []) l))
      (All-append P (reverse l) (p ∷ []) (All-reverse P l a) (h, tt))

names-reverse_cons :
    (p : LockedPackage) (l : List LockedPackage)
    → names (reverse (p ∷ l)) ≡ names (reverse l) ++ p.name ∷ []
names-reverse_cons p l = ap names (reverse-append (p ∷ []) l) ∙ names-append (reverse l) (p ∷ [])

pub contains-reverse :
    (l : List LockedPackage) (x : Bytes) → contains (names (reverse l)) x ≡ contains (names l) x
unfolding contains
contains-reverse [] x = refl
contains-reverse (p ∷ l) x =
    ap (λ v. contains v x) (names-reverse_cons p l)
    ∙ contains-concat (names (reverse l)) p.name x
    ∙ ap (λ b. b || bytes_eq p.name x) (contains-reverse l x)
    ∙ swap (contains (names l) x) (bytes_eq p.name x)
  where
    swap : (a b : Bool) → (a || b) ≡ (b || a)
    swap true true = refl
    swap true false = refl
    swap false true = refl
    swap false false = refl

contains-insert :
    (c : LockedPackage) (l : List LockedPackage) (x : Bytes)
    → contains (names (insert_stable by_name c l)) x ≡ contains (names (c ∷ l)) x
unfolding contains insert_stable
contains-insert c [] x = refl
contains-insert c (e ∷ l) x = elim (Bool-cases (by_name e c)) [
  | inl h ↦ rw h (
      ap (λ b. bytes_eq e.name x || b) (contains-insert c l x)
      ∙ swap (bytes_eq e.name x) (bytes_eq c.name x) (contains (names l) x))
  | inr h ↦ rw h refl
]
  where
    swap : (a b d : Bool) → (a || (b || d)) ≡ (b || (a || d))
    swap true true d = refl
    swap true false d = refl
    swap false b d = refl

pub contains-sort :
    (l : List LockedPackage) (x : Bytes)
    → contains (names (sort_stable by_name l)) x ≡ contains (names l) x
unfolding contains sort_stable
contains-sort [] x = refl
contains-sort (c ∷ l) x =
    contains-insert c (sort_stable by_name l) x
    ∙ ap (λ b. bytes_eq c.name x || b) (contains-sort l x)

Distinct-concat :
    (l : List Bytes) (x : Bytes) → Distinct l → contains l x ≡ false → Distinct (l ++ x ∷ [])
unfolding contains
Distinct-concat [] x d h = (refl, tt)
Distinct-concat (y ∷ l) x (a, d) h =
    let new = or_left (bytes_eq y x) (contains l x) h in
    let rest = or_right (bytes_eq y x) (contains l x) h in
    (contains-concat l x y ∙ rw (a, bytes_eq_comm x y) new, Distinct-concat l x d rest)

pub Distinct-reverse : (l : List LockedPackage) → Distinct (names l) → Distinct (names (reverse l))
Distinct-reverse [] d = tt
Distinct-reverse (p ∷ l) (a, d) = subst Distinct (sym (names-reverse_cons p l)) (
    Distinct-concat (names (reverse l)) p.name (Distinct-reverse l d)
      (contains-reverse l p.name ∙ a))

Distinct-insert :
    (c : LockedPackage) (l : List LockedPackage)
    → Distinct (names (c ∷ l))
    → Distinct (names (insert_stable by_name c l))
unfolding insert_stable contains
Distinct-insert c [] d = d
Distinct-insert c (e ∷ l) (a, (b, d)) = elim (Bool-cases (by_name e c)) [
  | inl h ↦ rw h (
    contains-insert c l e.name
        ∙ rw
            (
              b,
              bytes_eq_comm c.name e.name,
              or_left (bytes_eq e.name c.name) (contains (names l) c.name) a,
            )
            refl,
    Distinct-insert c l (or_right (bytes_eq e.name c.name) (contains (names l) c.name) a, d),
  )
  | inr h ↦ rw h (a, (b, d))
]

pub Distinct-sort :
    (l : List LockedPackage) → Distinct (names l) → Distinct (names (sort_stable by_name l))
unfolding sort_stable
Distinct-sort [] d = tt
Distinct-sort (c ∷ l) (a, d) =
    Distinct-insert c (sort_stable by_name l) (contains-sort l c.name ∙ a, Distinct-sort l d)

text_less_irrefl : (a : Bytes) → text_less a a ≡ false
unfolding text_less
text_less_irrefl [] = refl
text_less_irrefl (x ∷ a) = ground (arith, text_less_irrefl a)

text_less_one_way : (a b : Bytes) → text_less a b ≡ true → text_less b a ≡ false
unfolding text_less
text_less_one_way a [] h = cc
text_less_one_way [] (y ∷ b) h = refl
text_less_one_way (x ∷ a) (y ∷ b) h = ground (arith, text_less_one_way a b)

text_less_chain :
    (a b c : Bytes) → text_less a b ≡ false → text_less b c ≡ false → text_less a c ≡ false
unfolding text_less
text_less_chain [] b [] h k = refl
text_less_chain (x ∷ a) b [] h k = refl
text_less_chain [] [] (z ∷ c) h k = absurd cc
text_less_chain [] (y ∷ b) (z ∷ c) h k = absurd cc
text_less_chain (x ∷ a) [] (z ∷ c) h k = absurd cc
text_less_chain (x ∷ a) (y ∷ b) (z ∷ c) h k = ground (arith, text_less_chain a b c)

pub by_name-IsOrdering : IsOrdering by_name
by_name-IsOrdering = record {
  one_way = λ p q h. text_less_one_way p.name q.name h;
  chain = λ p q r h k. text_less_chain p.name q.name r.name h k;
}

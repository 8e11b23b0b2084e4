-- ===== src/Pkg/Resolve/Visit.antt =====
-- What a visit of `resolve` does to the packages that are resolved.
use tya.Prelude.{
  ℕ, zero, suc, ◌≤◌, ◌<◌, true, false, not, ◌&&◌, List, [], ◌∷◌, ◌++◌, some, ◌≡◌, refl, sym, subst,
  ◌∙◌, ap, inl, inr, arith, if◌then◌else◌, Bool-cases, Option-cases, map, Bytes, length, All,
  All-append, append_assoc, ◌==◌,
}
use tya.Dict.{
  contains, contains_here, contains_there, missing, missing-mark, missing-keeps, Distinct,
  All-contains, All-get,
}
use tya.Pkg.Constraint.{satisfies}
use tya.Pkg.Lockfile.{version, git, path, other, Dependency, Manifest, dependency_of, LockedPackage}
use tya.Pkg.Resolve.{
  ResolveError, no_registry, unknown_source, Progress, Outcome, done, failed, out_of_fuel, Fetched,
  found, Outside, manifest_name, visit_order, fetch_path, git_ref, fetch_git, fetch, visit,
}

abbrev pub names : List LockedPackage → List Bytes
names = map (λ p. p.name)

-- Every dependency of the packages is in the list.
abbrev pub DepsIn : List Bytes → List LockedPackage → Type 0
DepsIn v = All (λ p. All (λ d. contains v d ≡ true) p.dependencies)

pub DepsIn-keeps :
    (v w : List Bytes) (ps : List LockedPackage)
    → ((x : Bytes) → contains v x ≡ true → contains w x ≡ true)
    → DepsIn v ps
    → DepsIn w ps
DepsIn-keeps v w [] k a = tt
DepsIn-keeps v w (p ∷ ps) k (h, a) = (
  All-contains (λ d. contains w d ≡ true) p.dependencies
      (λ x c. k x (All-get (λ d. contains v d ≡ true) p.dependencies x h c)),
  DepsIn-keeps v w ps k a,
)

pub record IsSound (s : Progress) : Type 0 where
  pub names_eq : names s.packages ≡ s.resolved
  pub distinct : Distinct s.resolved

-- What a visit that succeeds does: it adds packages whose dependencies are all resolved afterwards.
pub record Extends (s s' : Progress) : Type 0 where
  pub sound : IsSound s'
  pub keeps : (x : Bytes) → contains s.resolved x ≡ true → contains s'.resolved x ≡ true
  pub new : List LockedPackage
  pub packages_eq : s'.packages ≡ new ++ s.packages
  pub closed : DepsIn s'.resolved new

pub Extends-refl : (s : Progress) → IsSound s → Extends s s
Extends-refl s i = record { sound = i; keeps = λ x h. h; new = []; packages_eq = refl; closed = tt }

pub Extends-trans : {a b c : Progress} → Extends a b → Extends b c → Extends a c
Extends-trans {a} {b} {c} p q = record {
  sound = q.sound;
  keeps = λ x h. q.keeps x (p.keeps x h);
  new = q.new ++ p.new;
  packages_eq =
      q.packages_eq ∙ ap (◌++◌ q.new) p.packages_eq ∙ sym (append_assoc q.new p.new a.packages);
  closed =
      All-append (λ r. All (λ d. contains c.resolved d ≡ true) r.dependencies) q.new p.new q.closed
        (DepsIn-keeps b.resolved c.resolved p.new q.keeps p.closed);
}

-- An outcome that is no endless recursion.
pub data Says (s : Progress) (P : Progress → Type 0) : Outcome → Type 0 where
  fine : {s' : Progress} → Extends s s' → P s' → Says s P (done s')
  fails : {e : ResolveError} → Says s P (failed e)

pub Says-after :
    (s s' : Progress) (P Q : Progress → Type 0) {r : Outcome}
    → Extends s s'
    → ((s'' : Progress) → Extends s' s'' → P s'' → Q s'')
    → Says s' P r
    → Says s Q r
Says-after s s' P Q x f (fine {s' = s''} y p) = fine (Extends-trans x y) (f s'' y p)
Says-after s s' P Q x f fails = fails

module _ (visit_one : Bytes → Dependency → Progress → Outcome) (known : Bytes → Type 0)
    (left : List Bytes → Type 0) where
  Says-next :
      (deps : List (Bytes × Dependency)) (order : List Bytes) (name : Bytes) (s : Progress)
      {r : Outcome}
      → Says s (λ t. contains t.resolved name ≡ true) r
      → ((s' : Progress)
          → Extends s s'
          → Says s'
              (λ t. All (λ d. contains t.resolved d ≡ true) order)
              (visit_order visit_one deps order s'))
      → Says s
          (λ t. All (λ d. contains t.resolved d ≡ true) (name ∷ order))
          (elim r [
            | done s' ↦ visit_order visit_one deps order s'
            | failed e ↦ failed e
            | out_of_fuel ↦ out_of_fuel
          ])
  Says-next deps order name s (fine {s'} x c) rest =
      Says-after s s' _ _ x (λ t y a. (y.keeps name c, a)) (rest s' x)
  Says-next deps order name s fails rest = fails

  pub visit_order-Says :
      (deps : List (Bytes × Dependency)) (order : List Bytes) (s : Progress)
      → ((name : Bytes) (d : Dependency) (t : Progress)
          → known name
          → IsSound t
          → left t.resolved
          → Says t (λ u. contains u.resolved name ≡ true) (visit_one name d t))
      → ((t u : Progress) → Extends t u → left t.resolved → left u.resolved)
      → All known order
      → IsSound s
      → left s.resolved
      → Says s
          (λ t. All (λ d. contains t.resolved d ≡ true) order)
          (visit_order visit_one deps order s)
  unfolding visit_order
  visit_order-Says deps [] s v k a i l = fine (Extends-refl s i) tt
  visit_order-Says deps (name ∷ order) s v k (p, a) i l =
      Says-next deps order name s (v name (dependency_of deps name) s p i l)
        (λ s' x. visit_order-Says deps order s' v k a x.sound (k s s' x l))

-- Where a fetched entry comes from.
pub record IsEntry (o : Outside) (name : Bytes) (sub : Manifest) (p : LockedPackage) : Type 0 where
  pub name_eq : p.name ≡ name
  pub deps_eq : p.dependencies ≡ sub.dep_order
  pub place : Bytes
  pub manifest_eq : o.read_manifest place ≡ some sub

module _ (o : Outside) (root : Bytes) where
  data Explained (name : Bytes) : Fetched → Type 0 where
    entry :
        {sub : Manifest} {p : LockedPackage} → IsEntry o name sub p → Explained name (found sub p)
    nothing : {e : ResolveError} → Explained name (Fetched.missing e)

  fetch_path-Explained : (name : Bytes) (d : Dependency) → Explained name (fetch_path o root name d)
  unfolding fetch_path
  fetch_path-Explained name d =
      let dir = (if o.is_abs d.path_ref then d.path_ref else o.join root d.path_ref) in
      elim (Option-cases (o.read_manifest (o.join dir manifest_name))) [
        | inl e ↦ rw (e, fetch_path) nothing
        | inr (sub, e) ↦
            rw (e, fetch_path)
              (entry (record {
                name_eq = refl;
                deps_eq = refl;
                place = o.join dir manifest_name;
                manifest_eq = e;
              }))
      ]

  fetch_git-Explained : (name : Bytes) (d : Dependency) → Explained name (fetch_git o root name d)
  unfolding fetch_git
  fetch_git-Explained name d = elim (Option-cases (o.fetch_git name d.git (git_ref o root d))) [
    | inl e ↦ rw (e, fetch_git) nothing
    | inr ((dir, rev), e) ↦ elim (Option-cases (o.read_manifest (o.join dir manifest_name))) [
      | inl f ↦ rw (e, f, fetch_git) nothing
      | inr (sub, f) ↦
          elim (Bool-cases
            (not (length d.constraint.raw == 0) && not (satisfies d.constraint sub.version))) [
              | inl g ↦ rw (e, f, g, fetch_git) nothing
              | inr g ↦ elim (Option-cases (o.tree_checksum dir)) [
                | inl k ↦ rw (e, f, g, k, fetch_git) nothing
                | inr (c, k) ↦
                    rw (e, f, g, k, fetch_git)
                      (entry (record {
                        name_eq = refl;
                        deps_eq = refl;
                        place = o.join dir manifest_name;
                        manifest_eq = f;
                      }))
              ]
            ]
    ]
  ]

  fetch-Explained : (name : Bytes) (d : Dependency) → Explained name (fetch o root name d)
  unfolding fetch
  fetch-Explained name d =
      elim d.source
        as (λ s. Explained name (elim s [
          | path ↦ fetch_path o root name d
          | git ↦ fetch_git o root name d
          | version ↦ Fetched.missing (no_registry name)
          | other ↦ Fetched.missing (unknown_source name)
        ])) [
          | version ↦ nothing
          | git ↦ fetch_git-Explained name d
          | path ↦ fetch_path-Explained name d
          | other ↦ nothing
        ]

  -- All names that manifests mention.
  abbrev pub Universe : List Bytes → Type 0
  Universe u =
      (place : Bytes) (sub : Manifest)
      → o.read_manifest place ≡ some sub
      → All (λ x. contains u x ≡ true) sub.dep_order

  module _ (u : List Bytes) where
    abbrev entered : Bytes → LockedPackage → Progress → Progress
    entered name p s = record { resolved = name ∷ s.resolved; packages = p ∷ s.packages }

    entered-Says :
        (name : Bytes) (s : Progress) (sub : Manifest) (p : LockedPackage) {r : Outcome}
        → p.dependencies ≡ sub.dep_order
        → Says (entered name p s) (λ t. All (λ d. contains t.resolved d ≡ true) sub.dep_order) r
        → Says s (λ t. contains t.resolved name ≡ true) r
    entered-Says name s sub p e (fine {s'} x all) =
        fine
          (record {
            sound = x.sound;
            keeps = λ y h. x.keeps y (contains_there name y s.resolved h);
            new = x.new ++ p ∷ [];
            packages_eq = x.packages_eq ∙ sym (append_assoc x.new (p ∷ []) s.packages);
            closed =
                All-append (λ q. All (λ d. contains s'.resolved d ≡ true) q.dependencies) x.new
                  (p ∷ []) x.closed
                  (subst (All (λ d. contains s'.resolved d ≡ true)) (sym e) all, tt);
          })
          (x.keeps name (contains_here name s.resolved))
    entered-Says name s sub p e fails = fails

    enter-Says :
        (fuel : ℕ) (name : Bytes) (s : Progress) (f : Fetched)
        → Universe u
        → Explained name f
        → contains u name ≡ true
        → contains s.resolved name ≡ false
        → IsSound s
        → missing s.resolved u < suc fuel
        → ((n : Bytes) (d : Dependency) (t : Progress)
            → contains u n ≡ true
            → IsSound t
            → missing t.resolved u < fuel
            → Says t (λ r. contains r.resolved n ≡ true) (visit o root fuel n d t))
        → Says s
            (λ t. contains t.resolved name ≡ true)
            (elim f [
              | Fetched.missing e ↦ failed e
              | found sub p ↦
                  visit_order
                    (visit o root fuel)
                    sub.deps
                    sub.dep_order
                    (record { resolved = name ∷ s.resolved; packages = p ∷ s.packages })
            ])
    enter-Says fuel name s (Fetched.missing e) all x k new i l below = fails
    enter-Says fuel name s (found sub p) all (entry x) k new i l below =
        entered-Says name s sub p x.deps_eq (
          visit_order-Says (visit o root fuel) (λ n. contains u n ≡ true) (λ v. missing v u < fuel)
            sub.deps sub.dep_order (entered name p s) below
            (λ t r y h. lower (missing-keeps t.resolved r.resolved u y.keeps) h)
            (all x.place sub x.manifest_eq)
            (record {
              names_eq = ap (λ n. n ∷ names s.packages) x.name_eq ∙ ap (◌∷◌ name) i.names_eq;
              distinct = (new, i.distinct);
            })
            (next (missing-mark name s.resolved u k new) l))
      where
        lower : {a b c : ℕ} → a ≤ b → b < c → a < c
        lower p q = omega arith

        next : {a b c : ℕ} → a < b → b < suc c → a < c
        next p q = omega arith

    pub visit-Says :
        (fuel : ℕ) (name : Bytes) (d : Dependency) (s : Progress)
        → Universe u
        → contains u name ≡ true
        → IsSound s
        → missing s.resolved u < fuel
        → Says s (λ t. contains t.resolved name ≡ true) (visit o root fuel name d s)
    unfolding visit
    visit-Says zero name d s all k i l = absurd (omega arith)
    visit-Says (suc fuel) name d s all k i l = elim (Bool-cases (contains s.resolved name)) [
      | inl e ↦ rw (e, visit) (fine (Extends-refl s i) e)
      | inr e ↦
          rw (e, visit)
            (enter-Says fuel name s (fetch o root name d) all (fetch-Explained name d) k e i l
              (λ n c t h j m. visit-Says fuel n c t all h j m))
    ]

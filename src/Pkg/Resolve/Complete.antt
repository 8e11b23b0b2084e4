-- ===== src/Pkg/Resolve/Complete.antt =====
-- `resolve` ends, and what it locks is complete.
use tya.Prelude.{
  ℕ, ◌≤◌, ◌<◌, true, List, [], ◌≡◌, refl, sym, subst, ◌∙◌, ap, arith, reverse, Bytes, length, All,
  append-nil,
}
use tya.Text.{text_less}
use tya.Dict.{contains, missing, missing-keeps, missing-le-length, Distinct, All-contains, All-get}
use tya.Sorting.{sort_stable, sort_stable-All, Sorted, sort_stable-Sorted}
use tya.Pkg.Lockfile.{Dependency, Manifest, LockedPackage}
use tya.Pkg.Resolve.{
  ResolveError, Progress, Outcome, done, failed, out_of_fuel, Resolution, locked, error, endless,
  Outside, visit_order, visit, visit_manifest, resolve,
}
use tya.Pkg.Resolve.Visit.{
  names, DepsIn, DepsIn-keeps, IsSound, Extends, Says, fine, fails, Says-after, visit_order-Says,
  Universe, visit-Says,
}
use tya.Pkg.Resolve.Listed.{
  by_name, by_name-IsOrdering, contains-reverse, contains-sort, All-reverse, Distinct-reverse,
  Distinct-sort,
}

-- A lockfile without a gap: the manifest's dependencies and those of its packages are its packages.
pub record IsComplete (m : Manifest) (ps : List LockedPackage) : Type 0 where
  pub distinct : Distinct (names ps)
  pub direct : All (λ d. contains (names ps) d ≡ true) m.dep_order
  pub dev : All (λ d. contains (names ps) d ≡ true) m.dev_order
  pub closed : DepsIn (names ps) ps
  pub sorted : Sorted by_name ps

pub data Settled (m : Manifest) : Resolution → Type 0 where
  locks : {ps : List LockedPackage} → IsComplete m ps → Settled m (locked ps)
  refuses : {e : ResolveError} → Settled m (error e)

abbrev nothing_yet : Progress
nothing_yet = record { resolved = []; packages = [] }

abbrev Has : List Bytes → Progress → Type 0
Has order t = All (λ d. contains t.resolved d ≡ true) order

module _ (m : Manifest) (s : Progress) where
  abbrev listed : List LockedPackage
  listed = sort_stable by_name (reverse s.packages)

  contains-listed : IsSound s → (x : Bytes) → contains (names listed) x ≡ contains s.resolved x
  contains-listed i x =
      contains-sort (reverse s.packages) x
      ∙ contains-reverse s.packages x
      ∙ ap (λ v. contains v x) i.names_eq

  kept : IsSound s → (x : Bytes) → contains s.resolved x ≡ true → contains (names listed) x ≡ true
  kept i x h = contains-listed i x ∙ h

  listed-IsComplete :
      Extends nothing_yet s → Has m.dep_order s → Has m.dev_order s → IsComplete m listed
  listed-IsComplete x a b =
      let k = kept x.sound in
      record {
        distinct =
            Distinct-sort (reverse s.packages) (
              Distinct-reverse s.packages (subst Distinct (sym x.sound.names_eq) x.sound.distinct));
        direct = in_listed m.dep_order k a;
        dev = in_listed m.dev_order k b;
        closed = DepsIn-keeps s.resolved (names listed) listed k (
            sort_stable-All by_name (λ p. All (λ d. contains s.resolved d ≡ true) p.dependencies)
              (reverse s.packages)
              (All-reverse (λ p. All (λ d. contains s.resolved d ≡ true) p.dependencies) s.packages
                (subst (DepsIn s.resolved) (sym (x.packages_eq ∙ append-nil x.new)) x.closed)));
        sorted = sort_stable-Sorted by_name by_name-IsOrdering (reverse s.packages);
      }
    where
      in_listed :
          (order : List Bytes)
          → ((y : Bytes) → contains s.resolved y ≡ true → contains (names listed) y ≡ true)
          → Has order s
          → All (λ d. contains (names listed) d ≡ true) order
      in_listed order k a =
          All-contains (λ d. contains (names listed) d ≡ true) order
            (λ y h. k y (All-get (λ d. contains s.resolved d ≡ true) order y a h))

sorted-Settled :
    (m : Manifest) {r : Outcome}
    → Says nothing_yet (λ t. Has m.dep_order t × Has m.dev_order t) r
    → Settled m (elim r [
      | failed e ↦ error e
      | out_of_fuel ↦ endless
      | done s ↦ locked (sort_stable (λ p q. text_less p.name q.name) (reverse s.packages))
    ])
sorted-Settled m (fine {s'} x (a, b)) = locks (listed-IsComplete m s' x a b)
sorted-Settled m fails = refuses

module _ (o : Outside) (root : Bytes) (u : List Bytes) (fuel : ℕ) (m : Manifest) where
  abbrev Known : Bytes → Type 0
  Known x = contains u x ≡ true

  table-Says :
      (deps : List (Bytes × Dependency)) (order : List Bytes) (s : Progress)
      → Universe o root u
      → All Known order
      → IsSound s
      → length u < fuel
      → Says s (Has order) (visit_order (visit o root fuel) deps order s)
  table-Says deps order s all k i l =
      visit_order-Says (visit o root fuel) Known (λ v. missing v u < fuel) deps order s
        (λ n d t h j b. visit-Says o root u fuel n d t all h j b)
        (λ t r y h. lower (missing-keeps t.resolved r.resolved u y.keeps) h) k i
        (lower (missing-le-length s.resolved u) l)
    where
      lower : {a b c : ℕ} → a ≤ b → b < c → a < c
      lower p q = omega arith

  dev-Says :
      {r : Outcome}
      → Universe o root u
      → All Known m.dev_order
      → length u < fuel
      → Says nothing_yet (Has m.dep_order) r
      → Says nothing_yet
          (λ t. Has m.dep_order t × Has m.dev_order t)
          (elim r [
            | done s ↦ visit_order (visit o root fuel) m.dev_deps m.dev_order s
            | failed e ↦ failed e
            | out_of_fuel ↦ out_of_fuel
          ])
  dev-Says all k b fails = fails
  dev-Says all k b (fine {s'} x a) =
      Says-after nothing_yet s' (Has m.dev_order) _ x
        (λ t y e. (
          All-contains (λ d. contains t.resolved d ≡ true) m.dep_order
              (λ n h. y.keeps n (All-get (λ d. contains s'.resolved d ≡ true) m.dep_order n a h)),
          e,
        ))
        (table-Says m.dev_deps m.dev_order s' all k x.sound b)

  -- If the manifest and all manifests that can be read mention only names of a list, then `resolve`
  -- ends within more steps than that list has names: it either reports an error or gives packages
  -- of different names, in the order of these names, among them all dependencies of the manifest,
  -- its development dependencies and the dependencies of every package.
  pub resolve-Settled :
      Universe o root u
      → All Known m.dep_order
      → All Known m.dev_order
      → length u < fuel
      → Settled m (resolve o root fuel m)
  unfolding resolve visit_manifest
  resolve-Settled all k l b = sorted-Settled m (
      dev-Says all l b (
        table-Says m.deps m.dep_order nothing_yet all k (record { names_eq = refl; distinct = tt })
          b))

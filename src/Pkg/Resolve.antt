-- ===== src/Pkg/Resolve.antt =====
-- internal/pkg/manager.go: `resolve`, the packages that a manifest needs. The file system and git
-- are parameters: the manifest at a path, the checkout of a repository, the checksum of a tree.
pub mod Visit
pub mod Listed
pub mod Complete
use tya.Prelude.{
  ℕ, zero, suc, Bool, true, false, not, ◌&&◌, List, [], ◌∷◌, ◌++◌, Option, none, some, ◌≡◌, refl,
  ltb, ◌==◌, if◌then◌else◌, Bytes, codes, length, reverse,
}
use tya.Text.{text_less}
use tya.Dict.{contains}
use tya.Sorting.{sort_stable}
use tya.Pkg.Version.{Version}
use tya.Pkg.Constraint.{Constraint, satisfies}
use tya.Pkg.Lockfile.{
  Source, version, git, path, other, Dependency, Manifest, dependency_of, LockedPackage,
}

pub data ResolveError : Type 0 where
  path_unreadable git_failed git_unreadable unsatisfied no_registry unknown_source :
      Bytes → ResolveError
  checksum_failed : ResolveError

-- `resolved`, and `lf.Packages` with the latest first.
pub record Progress : Type 0 where
  pub resolved : List Bytes
  pub packages : List LockedPackage

pub data Outcome : Type 0 where
  done : Progress → Outcome
  failed : ResolveError → Outcome
  out_of_fuel : Outcome

-- The results of `resolve`; `endless` stands for a recursion that goes on.
pub data Resolution : Type 0 where
  locked : List LockedPackage → Resolution
  error : ResolveError → Resolution
  endless : Resolution

-- What a dependency is fetched as: its own manifest, and its entry.
pub data Fetched : Type 0 where
  found : (sub : Manifest) → LockedPackage → Fetched
  missing : ResolveError → Fetched

-- The outside world.
pub record Outside : Type 0 where
  pub is_abs : Bytes → Bool
  pub join : Bytes → Bytes → Bytes
  pub read_manifest : Bytes → Option Manifest
  pub fetch_git : (name url ref : Bytes) → Option (Bytes × Bytes)
  pub tree_checksum : Bytes → Option Bytes

abbrev pub manifest_name : Bytes
manifest_name = codes "tya.toml"

-- The loop over the names of a table, over the visit of one of them.
unfoldable pub visit_order :
    (Bytes → Dependency → Progress → Outcome)
    → List (Bytes × Dependency)
    → List Bytes
    → Progress
    → Outcome
unfolding dependency_of
visit_order visit deps [] s = done s
visit_order visit deps (name ∷ order) s = elim (visit name (dependency_of deps name) s) [
  | done s' ↦ visit_order visit deps order s'
  | failed e ↦ failed e
  | out_of_fuel ↦ out_of_fuel
]

module _ (o : Outside) (root : Bytes) where
  unfoldable pub fetch_path : Bytes → Dependency → Fetched
  fetch_path name d =
      let dir = (if o.is_abs d.path_ref then d.path_ref else o.join root d.path_ref) in
      elim (o.read_manifest (o.join dir manifest_name)) [
        | none ↦ missing (path_unreadable name)
        | some sub ↦ found sub (record {
          name = name;
          version = sub.version;
          source = path;
          git = [];
          rev = [];
          path_ref = d.path_ref;
          checksum = [];
          dependencies = sub.dep_order;
        })
      ]

  -- `ref`: the tag, else the branch, else the commit.
  unfoldable pub git_ref : Dependency → Bytes
  git_ref d =
      if not (length d.tag == 0)
      then d.tag
      else if not (length d.branch == 0)
      then d.branch
      else d.rev

  unfoldable pub fetch_git : Bytes → Dependency → Fetched
  unfolding git_ref satisfies
  fetch_git name d = elim (o.fetch_git name d.git (git_ref d)) [
    | none ↦ missing (git_failed name)
    | some (dir, rev) ↦ elim (o.read_manifest (o.join dir manifest_name)) [
      | none ↦ missing (git_unreadable name)
      | some sub ↦
          if not (length d.constraint.raw == 0) && not (satisfies d.constraint sub.version)
          then missing (unsatisfied name)
          else elim (o.tree_checksum dir) [
            | none ↦ missing checksum_failed
            | some checksum ↦ found sub (record {
              name = name;
              version = sub.version;
              source = git;
              git = d.git;
              rev = rev;
              path_ref = [];
              checksum = checksum;
              dependencies = sub.dep_order;
            })
          ]
    ]
  ]

  -- The `switch` on the source.
  unfoldable pub fetch : Bytes → Dependency → Fetched
  unfolding fetch_path fetch_git
  fetch name d = elim d.source [
    | path ↦ fetch_path name d
    | git ↦ fetch_git name d
    | version ↦ missing (no_registry name)
    | other ↦ missing (unknown_source name)
  ]

  -- The closure `visit`.
  unfoldable pub visit : (fuel : ℕ) → Bytes → Dependency → Progress → Outcome
  unfolding contains fetch visit_order
  visit zero name d s = out_of_fuel
  visit (suc fuel) name d s =
      let enter = λ (sub : Manifest) (p : LockedPackage).
        visit_order (visit fuel) sub.deps sub.dep_order
          (record { resolved = name ∷ s.resolved; packages = p ∷ s.packages }) in
      if contains s.resolved name
      then done s
      else elim (fetch name d) [ missing e ↦ failed e | found sub p ↦ enter sub p ]

  -- Both tables of the manifest.
  unfoldable pub visit_manifest : (fuel : ℕ) → Manifest → Outcome
  unfolding visit_order visit
  visit_manifest fuel m =
      elim (visit_order (visit fuel) m.deps m.dep_order (record { resolved = []; packages = [] })) [
        | done s ↦ visit_order (visit fuel) m.dev_deps m.dev_order s
        | failed e ↦ failed e
        | out_of_fuel ↦ out_of_fuel
      ]

  -- `resolve`: the packages in the order of their names, or an error.
  unfoldable pub resolve : (fuel : ℕ) → Manifest → Resolution
  unfolding visit_manifest text_less sort_stable
  resolve fuel m = elim (visit_manifest fuel m) [
    | failed e ↦ error e
    | out_of_fuel ↦ endless
    | done s ↦ locked (sort_stable (λ p q. text_less p.name q.name) (reverse s.packages))
  ]

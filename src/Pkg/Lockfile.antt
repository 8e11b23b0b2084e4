-- ===== src/Pkg/Lockfile.antt =====
-- internal/pkg/lockfile.go: the locked packages, and whether they satisfy a manifest; with the
-- records of internal/pkg/manifest.go that this reads.
use tya.Prelude.{Bool, true, false, ◌&&◌, List, [], ◌∷◌, Option, none, some, if◌then◌else◌, Bytes}
use tya.Text.{bytes_eq}
use tya.Dict.{lookup}
use tya.Pkg.Version.{Version}
use tya.Pkg.Constraint.{Constraint, satisfies}

-- The values of `Dependency.Source`; `other` is any other text.
pub data Source : Type 0 where
  version git path other : Source

pub record Dependency : Type 0 where
  pub name : Bytes
  pub constraint : Constraint
  pub source : Source
  pub git : Bytes
  pub tag : Bytes
  pub branch : Bytes
  pub rev : Bytes
  pub path_ref : Bytes

-- What the package manager reads of a manifest.
pub record Manifest : Type 0 where
  pub version : Version
  pub deps : List (Bytes × Dependency)
  pub dev_deps : List (Bytes × Dependency)
  pub dep_order : List Bytes
  pub dev_order : List Bytes

-- `m.Deps[name]`: a name that is missing gives the zero value.
unfoldable pub dependency_of : List (Bytes × Dependency) → Bytes → Dependency
unfolding lookup
dependency_of deps name = elim (lookup name deps) [
  | some d ↦ d
  | none ↦ record {
    name = [];
    constraint = record { terms = []; raw = [] };
    source = other;
    git = [];
    tag = [];
    branch = [];
    rev = [];
    path_ref = [];
  }
]

pub record LockedPackage : Type 0 where
  pub name : Bytes
  pub version : Version
  pub source : Source
  pub git : Bytes
  pub rev : Bytes
  pub path_ref : Bytes
  pub checksum : Bytes
  pub dependencies : List Bytes

-- `FindPackage`, on `lf.Packages`.
unfoldable pub find_package : Bytes → List LockedPackage → Option LockedPackage
unfolding bytes_eq
find_package name [] = none
find_package name (p ∷ ps) = if bytes_eq p.name name then some p else find_package name ps

abbrev pub is_git : Source → Bool
is_git git = true
is_git _ = false

abbrev pub is_path : Source → Bool
is_path path = true
is_path _ = false

-- The `switch` of `satisfiesDependency`, on the package that was found.
unfoldable pub package_satisfies : Dependency → LockedPackage → Bool
unfolding satisfies bytes_eq
package_satisfies d p = elim d.source [
  | version ↦ satisfies d.constraint p.version
  | git ↦ is_git p.source && bytes_eq p.git d.git
  | path ↦ is_path p.source && bytes_eq p.path_ref d.path_ref
  | other ↦ true
]

unfoldable pub satisfies_dependency : List LockedPackage → Bytes → Dependency → Bool
unfolding find_package package_satisfies
satisfies_dependency ps name d = elim (find_package name ps) [
  | none ↦ false
  | some p ↦ package_satisfies d p
]

-- A loop of `SatisfiesManifest`.
unfoldable pub satisfies_deps : List LockedPackage → List (Bytes × Dependency) → List Bytes → Bool
unfolding satisfies_dependency dependency_of
satisfies_deps ps deps [] = true
satisfies_deps ps deps (name ∷ order) =
    satisfies_dependency ps name (dependency_of deps name) && satisfies_deps ps deps order

unfoldable pub satisfies_manifest : List LockedPackage → Manifest → Bool
unfolding satisfies_deps
satisfies_manifest ps m =
    satisfies_deps ps m.deps m.dep_order && satisfies_deps ps m.dev_deps m.dev_order

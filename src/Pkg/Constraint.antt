-- ===== src/Pkg/Constraint.antt =====
-- internal/pkg/semver.go: constraints on versions.
pub mod Ranges
use tya.Prelude.{
  ℕ, zero, suc, ◌+◌, ◌-◌, ◌*◌, ◌%◌, ◌^◌, Bool, true, false, ◌&&◌, ◌||◌, List, [], ◌∷◌, Option, none,
  some, ◌>>=◌, ◌≡◌, refl, ltb, leb, ◌==◌, not, if◌then◌else◌, Bytes, codes, length, drop,
}
use tya.Text.{trim_space, split_at, has_prefix}
use tya.Pkg.Version.{
  Version, less, increment, parse_version, Comparison, before, same, after, compare_versions,
}

-- `Term.Op`.
pub data Op : Type 0 where
  ge gt le lt eq : Op

pub record Term : Type 0 where
  pub op : Op
  pub version : Version

pub record Constraint : Type 0 where
  pub terms : List Term
  pub raw : Bytes

abbrev pub term : Op → Version → Term
term op v = record { op = op; version = v }

abbrev pub bare : (major minor patch : ℕ) → Version
bare major minor patch = record { major = major; minor = minor; patch = patch; raw = [] }

-- The rest of a term behind its operator.
abbrev term_of : Op → Bytes → Option Term
term_of op s = parse_version s >>= λ v. some (term op v)

-- `parseTerm`.
unfoldable pub parse_term : Bytes → Option Term
unfolding has_prefix trim_space parse_version
parse_term s =
    if has_prefix s (codes ">=")
    then term_of ge (trim_space (drop 2 s))
    else if has_prefix s (codes "<=")
    then term_of le (trim_space (drop 2 s))
    else if has_prefix s (codes ">")
    then term_of gt (trim_space (drop 1 s))
    else if has_prefix s (codes "<")
    then term_of lt (trim_space (drop 1 s))
    else if has_prefix s (codes "=")
    then term_of eq (trim_space (drop 1 s))
    else term_of eq s

-- The loop over the parts between commas.
unfoldable pub parse_terms : List Bytes → Option (List Term)
unfolding parse_term trim_space
parse_terms [] = some []
parse_terms (p ∷ ps) = parse_term (trim_space p) >>= λ t. parse_terms ps >>= λ ts. some (t ∷ ts)

-- The version above all that `^v` allows.
unfoldable pub caret_upper : Version → Version
caret_upper v =
    if less 0 v.major
    then bare (increment v.major) 0 0
    else if less 0 v.minor
    then bare 0 (increment v.minor) 0
    else bare 0 0 (increment v.patch)

unfoldable pub caret : (raw : Bytes) → Version → Constraint
unfolding caret_upper
caret raw v = record { terms = term ge v ∷ term lt (caret_upper v) ∷ []; raw = raw }

unfoldable pub tilde : (raw : Bytes) → Version → Constraint
tilde raw v = record {
  terms = term ge v ∷ term lt (bare v.major (increment v.minor) 0) ∷ [];
  raw = raw;
}

-- `ParseConstraint` behind its trim; `none` is an error.
unfoldable pub constraint_of : Bytes → Option Constraint
unfolding has_prefix parse_version caret tilde split_at parse_terms
constraint_of s =
    if length s == 0
    then none
    else if has_prefix s (codes "^")
    then (parse_version (drop 1 s) >>= λ v. some (caret s v))
    else if has_prefix s (codes "~")
    then (parse_version (drop 1 s) >>= λ v. some (tilde s v))
    else (parse_terms (split_at b',' s) >>= λ ts. some (record { terms = ts; raw = s }))

unfoldable pub parse_constraint : Bytes → Option Constraint
unfolding trim_space constraint_of
parse_constraint s = constraint_of (trim_space s)

-- `switch t.Op` in `Satisfies`.
abbrev pub allows : Op → Comparison → Bool
allows eq same = true
allows ge same = true
allows ge after = true
allows gt after = true
allows le same = true
allows le before = true
allows lt before = true
allows _ _ = false

-- `Constraint.Satisfies`.
unfoldable pub satisfies_all : List Term → Version → Bool
unfolding compare_versions
satisfies_all [] v = true
satisfies_all (t ∷ ts) v =
    let rest = satisfies_all ts v in
    if allows t.op (compare_versions v t.version) then rest else false

unfoldable pub satisfies : Constraint → Version → Bool
unfolding satisfies_all
satisfies c v = satisfies_all c.terms v

constraint_tests :
    ((parse_constraint (codes "^1.2.3") >>= λ c. some (satisfies c (bare 1 9 0))) ≡ some true)
    × ((parse_constraint (codes "~1.2.3") >>= λ c. some (satisfies c (bare 1 3 0))) ≡ some false)
    × ((parse_constraint (codes " >= 1.0.0, <2.0.0 ") >>= λ c. some (satisfies c (bare 2 0 0)))
        ≡ some false)
    × (parse_constraint (codes ">=1.0") ≡ none)
unfolding parse_constraint satisfies
constraint_tests = (refl, refl, refl, refl)

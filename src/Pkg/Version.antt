-- ===== src/Pkg/Version.antt =====
-- internal/pkg/semver.go: versions. An `int` is its bit pattern, a number below 2 ^ 64.
pub mod Order
use tya.Prelude.{
  ℕ, zero, suc, ◌+◌, ◌-◌, ◌*◌, ◌%◌, ◌^◌, Bool, true, false, ◌&&◌, ◌||◌, List, [], ◌∷◌, Option, none,
  some, ◌>>=◌, ◌≡◌, refl, ltb, leb, ◌==◌, not, if◌then◌else◌, Bytes, codes, length,
}
use tya.Text.{trim_space, split_at}

pub record Version : Type 0 where
  pub major : ℕ
  pub minor : ℕ
  pub patch : ℕ
  pub raw : Bytes

-- `<` on `int`.
abbrev pub less : ℕ → ℕ → Bool
less a b = ltb ((a + 2 ^ 63) % 2 ^ 64) ((b + 2 ^ 63) % 2 ^ 64)

-- `a + 1` on `int`.
abbrev pub increment : ℕ → ℕ
increment a = (a + 1) % 2 ^ 64

-- The value of decimal digits behind `n`; `none` is a byte that is no digit.
unfoldable pub digits_from : ℕ → Bytes → Option ℕ
digits_from n [] = some n
digits_from n (c ∷ s) =
    let rest = digits_from (n * 10 + (c - b'0')) s in
    if leb b'0' c && leb c b'9' then rest else none

abbrev below : ℕ → ℕ → Option ℕ
below bound n = if ltb n bound then some n else none

-- `strconv.Atoi(p)` where it succeeds with a number that is not negative.
unfoldable pub atoi : Bytes → Option ℕ
unfolding digits_from
atoi [] = none
atoi (c ∷ s) =
    if length s == 0 && (c == b'-' || c == b'+')
    then none
    else if c == b'-'
    then digits_from 0 s >>= below 1
    else if c == b'+'
    then digits_from 0 s >>= below (2 ^ 63)
    else digits_from 0 (c ∷ s) >>= below (2 ^ 63)

-- The loop over the parts; `none` is an error.
unfoldable pub of_parts : (raw : Bytes) → List Bytes → Option Version
unfolding atoi
of_parts raw (a ∷ b ∷ c ∷ []) = do
  major ← atoi a
  minor ← atoi b
  patch ← atoi c
  some (record { major = major; minor = minor; patch = patch; raw = raw })
of_parts raw _ = none

-- `ParseVersion`.
unfoldable pub parse_version : Bytes → Option Version
unfolding trim_space split_at of_parts
parse_version s = let t = trim_space s in of_parts t (split_at b'.' t)

-- The results -1, 0 and +1.
pub data Comparison : Type 0 where
  before same after : Comparison

-- `Version.Compare`.
unfoldable pub compare_versions : Version → Version → Comparison
compare_versions v o =
    if not (v.major == o.major)
    then (if less v.major o.major then before else after)
    else if not (v.minor == o.minor)
    then (if less v.minor o.minor then before else after)
    else if not (v.patch == o.patch)
    then (if less v.patch o.patch then before else after)
    else same

version_tests :
    (parse_version (codes " 1.20.3\n")
      ≡ some (record { major = 1; minor = 20; patch = 3; raw = codes "1.20.3" }))
    × (parse_version (codes "1.2") ≡ none)
    × (parse_version (codes "1.-2.3") ≡ none)
    × (parse_version (codes "1.9223372036854775808.3") ≡ none)
unfolding parse_version
version_tests = (refl, refl, refl, refl)

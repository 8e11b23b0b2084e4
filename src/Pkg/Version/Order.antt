-- ===== src/Pkg/Version/Order.antt =====
-- `Version.Compare` orders the versions that `ParseVersion` gives lexicographically.
use tya.Prelude.{
  ℕ, ◌<◌, ◌^◌, List, [], ◌∷◌, some, ◌≡◌, subst, ◌⊎◌, inl, inr, arith, Bytes, ltb, Option-cases,
}
use tya.Text.{trim_space, split_at}
use tya.Pkg.Version.{
  Version, less, atoi, of_parts, parse_version, Comparison, before, same, after, compare_versions,
}

-- The fields are not negative.
pub record InRange (v : Version) : Type 0 where
  pub major_lt : v.major < 2 ^ 63
  pub minor_lt : v.minor < 2 ^ 63
  pub patch_lt : v.patch < 2 ^ 63

atoi-lt : (s : Bytes) {n : ℕ} → atoi s ≡ some n → n < 2 ^ 63
unfolding atoi
atoi-lt [] h = cc
atoi-lt (c ∷ s) h = ground arith

of_parts-InRange :
    (raw : Bytes) (l : List Bytes) {v : Version} → of_parts raw l ≡ some v → InRange v
unfolding of_parts
of_parts-InRange raw [] h = cc
of_parts-InRange raw (a ∷ []) h = cc
of_parts-InRange raw (a ∷ b ∷ []) h = cc
of_parts-InRange raw (a ∷ b ∷ c ∷ []) {v} h = elim (Option-cases (atoi a)) [
  | inl e ↦ cc (rw e at h)
  | inr (x, ex) ↦ elim (Option-cases (atoi b)) [
    | inl e ↦ cc (rw (ex, e) at h)
    | inr (y, ey) ↦ elim (Option-cases (atoi c)) [
      | inl e ↦ cc (rw (ex, ey, e) at h)
      | inr (z, ez) ↦
          let parsed : Version = record { major = x; minor = y; patch = z; raw = raw } in
          let made : some parsed ≡ some v = rw (ex, ey, ez) at h in
          let fits : InRange parsed = record {
            major_lt = atoi-lt a ex;
            minor_lt = atoi-lt b ey;
            patch_lt = atoi-lt c ez;
          } in
          subst InRange (let e : parsed ≡ v = cc in e) fits
    ]
  ]
]
of_parts-InRange raw (a ∷ b ∷ c ∷ d ∷ l) h = cc

-- A parsed version has no negative part.
pub parse_version-InRange : (s : Bytes) {v : Version} → parse_version s ≡ some v → InRange v
unfolding parse_version
parse_version-InRange s h = of_parts-InRange (trim_space s) (split_at b'.' (trim_space s)) h

abbrev pub Before : Version → Version → Type 0
Before v o =
    (v.major < o.major)
    ⊎ ((v.major ≡ o.major) × (v.minor < o.minor))
    ⊎ ((v.major ≡ o.major) × (v.minor ≡ o.minor) × (v.patch < o.patch))

abbrev pub Same : Version → Version → Type 0
Same v o = (v.major ≡ o.major) × (v.minor ≡ o.minor) × (v.patch ≡ o.patch)

-- What each result of the comparison says.
abbrev pub Says : Version → Version → Comparison → Type 0
Says v o before = Before v o
Says v o same = Same v o
Says v o after = Before o v

less-lt : (a b : ℕ) → a < 2 ^ 63 → b < 2 ^ 63 → less a b ≡ ltb a b
less-lt a b h g = ground arith

-- `Compare` of two versions with no negative part orders them by major, then minor, then patch, and
-- its three results say before, same and after.
pub compare_versions-Says :
    (v o : Version) → InRange v → InRange o → Says v o (compare_versions v o)
unfolding compare_versions
compare_versions-Says v o h g =
    ground (arith, less-lt v.major o.major, less-lt v.minor o.minor, less-lt v.patch o.patch)

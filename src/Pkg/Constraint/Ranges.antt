-- ===== src/Pkg/Constraint/Ranges.antt =====
-- What the constraints `^v` and `~v` allow.
use tya.Prelude.{
  ◌+◌, ◌<◌, ◌^◌, Bool, true, false, [], ◌∷◌, ◌≡◌, refl, ◌⊎◌, inl, inr, ◌↔◌, arith, Bytes,
  if◌then◌else◌,
}
use tya.Pkg.Version.{Version, increment, Comparison, before, same, after, compare_versions}
use tya.Pkg.Version.Order.{InRange, Before, Same, Says, compare_versions-Says}
use tya.Pkg.Constraint.{term, ge, lt, allows, caret_upper, caret, tilde, satisfies, bare}

-- `w` is `v` or a later version.
abbrev pub AtLeast : Version → Version → Type 0
AtLeast v w = Before v w ⊎ Same w v

-- The part of `w` up to the first part of `v` that is not 0 is that of `v`.
abbrev pub Compatible : Version → Version → Type 0
Compatible v w =
    ((0 < v.major) × (w.major ≡ v.major))
    ⊎ ((v.major ≡ 0) × (0 < v.minor) × (w.major ≡ 0) × (w.minor ≡ v.minor))
    ⊎ ((v.major ≡ 0) × (v.minor ≡ 0) × (w.major ≡ 0) × (w.minor ≡ 0) × (w.patch ≡ v.patch))

-- A version is in range with room for the next one.
abbrev pub HasNext : Version → Type 0
HasNext v = (v.major + 1 < 2 ^ 63) × (v.minor + 1 < 2 ^ 63) × (v.patch + 1 < 2 ^ 63)

allows-ge : (v w : Version) (c : Comparison) → Says w v c → (allows ge c ≡ true) ↔ AtLeast v w
allows-ge v w before h = (λ e. cc e, λ a. absurd (omega arith))
allows-ge v w same h = (λ e. inr h, λ a. refl)
allows-ge v w after h = (λ e. inl h, λ a. refl)

allows-lt : (v w : Version) (c : Comparison) → Says w v c → (allows lt c ≡ true) ↔ Before w v
allows-lt v w before h = (λ e. h, λ a. refl)
allows-lt v w same h = (λ e. cc e, λ a. absurd (omega arith))
allows-lt v w after h = (λ e. cc e, λ a. absurd (omega arith))

caret_upper-InRange : (v : Version) → HasNext v → InRange (caret_upper v)
unfolding caret_upper
caret_upper-InRange v (a, b, c) = ground arith

-- Below the upper end, and not below `v`.
module _ (v w : Version) (v_fits : InRange v) (w_fits : InRange w) (next : HasNext v) where
  caret-Before : AtLeast v w → Before w (caret_upper v) → Compatible v w
  unfolding caret_upper
  caret-Before a b = ground arith

  Compatible-Before : AtLeast v w → Compatible v w → Before w (caret_upper v)
  unfolding caret_upper
  Compatible-Before a c = ground arith

both_tests :
    (a b : Bool)
    → ((if a then (if b then true else false) else false) ≡ true) ↔ ((a ≡ true) × (b ≡ true))
both_tests true true = (λ e. (refl, refl), λ e. refl)
both_tests true false = (λ e. cc e, λ e. cc e.1)
both_tests false b = (λ e. cc e, λ e. cc e.0)

-- A range from `v` on, up to `upper`.
satisfies_range :
    (raw : Bytes) (v upper w : Version)
    → InRange v
    → InRange upper
    → InRange w
    → (satisfies (record { terms = term ge v ∷ term lt upper ∷ []; raw = raw }) w ≡ true)
      ↔ (AtLeast v w × Before w upper)
unfolding satisfies
satisfies_range raw v upper w hv hu hw =
    let low = allows-ge v w (compare_versions w v) (compare_versions-Says w v hw hv) in
    let high = allows-lt upper w (compare_versions w upper) (compare_versions-Says w upper hw hu) in
    let tests =
      both_tests (allows ge (compare_versions w v)) (allows lt (compare_versions w upper)) in
    (λ e. (low.0 (tests.0 e).0, high.0 (tests.0 e).1), λ a. tests.1 (low.1 a.0, high.1 a.1))

-- A version satisfies `^v` exactly if it is `v` or later and agrees with `v` up to the first part of
-- `v` that is not 0, for versions with no negative part, `v` with room for the next version.
pub satisfies-caret :
    (raw : Bytes) (v w : Version)
    → InRange v
    → InRange w
    → HasNext v
    → (satisfies (caret raw v) w ≡ true) ↔ (AtLeast v w × Compatible v w)
unfolding caret
satisfies-caret raw v w hv hw next =
    let range = satisfies_range raw v (caret_upper v) w hv (caret_upper-InRange v next) hw in
    (
      λ e. ((range.0 e).0, caret-Before v w hv hw next (range.0 e).0 (range.0 e).1),
      λ a. range.1 (a.0, Compatible-Before v w hv hw next a.0 a.1),
    )

-- A version satisfies `~v` exactly if it is `v` or later and agrees with `v` in its first two parts.
pub satisfies-tilde :
    (raw : Bytes) (v w : Version)
    → InRange v
    → InRange w
    → HasNext v
    → (satisfies (tilde raw v) w ≡ true) ↔ (AtLeast v w × (w.major ≡ v.major) × (w.minor ≡ v.minor))
unfolding tilde
satisfies-tilde raw v w hv hw next =
    let fits : InRange (bare v.major (increment v.minor) 0) = ground arith in
    let range = satisfies_range raw v (bare v.major (increment v.minor) 0) w hv fits hw in
    (
      λ e.
          let low : AtLeast v w = (range.0 e).0 in
          let high : Before w (bare v.major (increment v.minor) 0) = (range.0 e).1 in
          (low, ground arith, ground arith),
      λ a. range.1 (a.0, ground arith),
    )

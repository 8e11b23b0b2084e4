-- ===== src/Cover/Summary/Plus.antt =====
-- Sums of totals.
use tya.Prelude.{ℕ, ◌+◌, Bool, true, false, ◌||◌, ◌≡◌, refl, sym, arith, if◌then◌else◌}
use tya.Cover.Summary.{FileSummary, Totals}

abbrev pub plus : Totals → Totals → Totals
plus s t = record {
  statements = s.statements + t.statements;
  hits = s.hits + t.hits;
  missed = s.missed + t.missed;
}

abbrev pub totals_of : FileSummary → Totals
totals_of s = record { statements = s.statements; hits = s.hits; missed = s.missed }

pub plus-swap : (a b c : Totals) → plus a (plus b c) ≡ plus b (plus a c)
plus-swap a b c =
    rw
      (
        swap a.statements b.statements c.statements,
        swap a.hits b.hits c.hits,
        swap a.missed b.missed c.missed,
      )
      refl
  where
    swap : (x y z : ℕ) → x + (y + z) ≡ y + (x + z)
    swap x y z = omega arith

pub plus-zero : (a : Totals) → a ≡ plus (record { statements = 0; hits = 0; missed = 0 }) a
plus-zero a = sym (rw (left a.statements, left a.hits, left a.missed) refl)
  where
    left : (x : ℕ) → 0 + x ≡ x
    left x = omega arith

pub plus-move : (a b c : Totals) → plus a (plus b c) ≡ plus (plus b a) c
plus-move a b c =
    rw
      (
        move a.statements b.statements c.statements,
        move a.hits b.hits c.hits,
        move a.missed b.missed c.missed,
      )
      refl
  where
    move : (x y z : ℕ) → x + (y + z) ≡ (y + x) + z
    move x y z = omega arith

abbrev pub three : ℕ → ℕ → ℕ → Totals
three x y z = record { statements = x; hits = y; missed = z }

pub one_more :
    (b : Bool) (a h m x y z : ℕ)
    → three (a + 1 + x) ((if b then h + 1 else h) + y) ((if b then m else m + 1) + z)
      ≡ plus
          (record { statements = 1; hits = (if b then 1 else 0); missed = (if b then 0 else 1) })
          (three (a + x) (h + y) (m + z))
one_more true a h m x y z = rw (more a x, more h y, same (m + z)) refl
  where
    more : (u v : ℕ) → u + 1 + v ≡ 1 + (u + v)
    more u v = omega arith

    same : (u : ℕ) → 0 + u ≡ u
    same u = omega arith
one_more false a h m x y z = rw (more a x, same (h + y), more m z) refl
  where
    more : (u v : ℕ) → u + 1 + v ≡ 1 + (u + v)
    more u v = omega arith

    same : (u : ℕ) → 0 + u ≡ u
    same u = omega arith

pub or_assoc : (a b c : Bool) → ((a || b) || c) ≡ (a || (b || c))
or_assoc true b c = refl
or_assoc false b c = refl

pub or_false : (a : Bool) → (a || false) ≡ a
or_false true = refl
or_false false = refl

-- ===== src/Util/Distance.antt =====
-- internal/util/strdist.go: `Levenshtein`. A row of the table is the list of its cells.
pub mod Script
pub mod Table
use tya.Prelude.{
  ℕ, zero, suc, ◌+◌, Bool, true, false, ◌&&◌, List, [], ◌∷◌, Option, none, some, ◌≡◌, refl, leb,
  ◌==◌, if◌then◌else◌, Bytes, codes, length, get_elem?,
}
use tya.Text.{bytes_eq}

unfoldable pub min3 : ℕ → ℕ → ℕ → ℕ
min3 a b c = if leb a b && leb a c then a else if leb b c then b else c

-- The cost of putting one byte for another.
abbrev pub cost : ℕ → ℕ → ℕ
cost a b = if a == b then 0 else 1

-- The first row: `prev[j] = j`, from `j` on, one cell more than the bytes left.
unfoldable pub first_row : (j : ℕ) → Bytes → List ℕ
first_row j [] = j ∷ []
first_row j (c ∷ b) = j ∷ first_row (j + 1) b

-- The loop over `j`: `left` is `cur[j-1]`, and the row above starts at `prev[j-1]`.
unfoldable pub cells : (a left : ℕ) → List ℕ → Bytes → List ℕ
unfolding min3
cells a left prev [] = []
cells a left [] (c ∷ b) = []
cells a left (diag ∷ []) (c ∷ b) = []
cells a left (diag ∷ up ∷ prev) (c ∷ b) =
    let cur = min3 (left + 1) (up + 1) (diag + cost a c) in cur ∷ cells a cur (up ∷ prev) b

-- The loop over `i`, from row `i` on.
unfoldable pub rows : (i : ℕ) → List ℕ → (a b : Bytes) → List ℕ
unfolding cells
rows i prev [] b = prev
rows i prev (c ∷ a) b = rows (i + 1) (i ∷ cells c i prev b) a b

-- `prev[j]`; every row has the cell that is asked for.
abbrev pub cell : List ℕ → ℕ → ℕ
cell row j = elim (get_elem? row j) [ none ↦ 0 | some d ↦ d ]

unfoldable pub levenshtein : (a b : Bytes) → ℕ
unfolding bytes_eq first_row rows
levenshtein a b =
    if bytes_eq a b
    then 0
    else if length a == 0
    then length b
    else if length b == 0
    then length a
    else cell (rows 1 (first_row 0 b) a b) (length b)

levenshtein_tests :
    (levenshtein (codes "kitten") (codes "sitting") ≡ 3)
    × (levenshtein (codes "flaw") (codes "lawn") ≡ 2)
    × (levenshtein [] (codes "abc") ≡ 3)
unfolding levenshtein
levenshtein_tests = (refl, refl, refl)

-- ===== src/Util/Distance/Table.antt =====
-- `Levenshtein` computes the edit distance.
use mathlib.Core.List.{reverse_aux, reverse-reverse}
use mathlib.Core.Path.{ap₂}
use tya.Prelude.{
  ℕ, suc, ◌+◌, ◌≤◌, List, [], ◌∷◌, reverse, ◌≡◌, refl, sym, ap, subst, ◌∙◌, arith, ◌==◌,
  if◌then◌else◌, Bool-cases, inl, inr, Bytes, length,
}
use tya.Text.{bytes_eq, bytes_eq-eq}
use tya.Util.Distance.{first_row, cells, rows, cell, levenshtein}
use tya.Util.Distance.Script.{
  Script, distance, distance-le, Script-distance, Script-reverse, Script-refl, insert_all,
  delete_all,
}

-- The row for the text `ra` read so far, last byte first: the distances to `rb`, and to each longer
-- text that the bytes of `b` make of it.
row_tail : (ra rb b : Bytes) → List ℕ
row_tail ra rb [] = []
row_tail ra rb (y ∷ b) = distance ra (y ∷ rb) ∷ row_tail ra (y ∷ rb) b

abbrev row_of : (ra rb b : Bytes) → List ℕ
row_of ra rb b = distance ra rb ∷ row_tail ra rb b

first_row-row_of : (j : ℕ) (rb b : Bytes) → j ≡ length rb → first_row j b ≡ row_of [] rb b
unfolding first_row row_tail distance
first_row-row_of j rb [] h = ap (λ n. n ∷ []) h
first_row-row_of j rb (y ∷ b) h = ap₂ ◌∷◌ h (first_row-row_of (j + 1) (y ∷ rb) b (omega arith))

cells-row_tail :
    (x : ℕ) (ra rb b : Bytes)
    → cells x (distance (x ∷ ra) rb) (row_of ra rb b) b ≡ row_tail (x ∷ ra) rb b
unfolding cells row_tail distance
cells-row_tail x ra rb [] = refl
cells-row_tail x ra rb (y ∷ b) =
    ap (◌∷◌ (distance (x ∷ ra) (y ∷ rb))) (cells-row_tail x ra (y ∷ rb) b)

next_row :
    (i x : ℕ) (ra b : Bytes)
    → i ≡ length ra + 1
    → i ∷ cells x i (row_of ra [] b) b ≡ row_of (x ∷ ra) [] b
next_row i x ra b h =
    let left : i ≡ distance (x ∷ ra) [] = unfold distance in omega arith in
    subst (λ n. n ∷ cells x n (row_of ra [] b) b ≡ row_of (x ∷ ra) [] b) (sym left)
      (ap (◌∷◌ (distance (x ∷ ra) [])) (cells-row_tail x ra [] b))

rows-row_of :
    (i : ℕ) (ra a b : Bytes)
    → i ≡ length ra + 1
    → rows i (row_of ra [] b) a b ≡ row_of (reverse_aux a ra) [] b
unfolding rows
rows-row_of i ra [] b h = refl
rows-row_of i ra (x ∷ a) b h =
    ap (λ r. rows (i + 1) r a b) (next_row i x ra b h)
    ∙ rows-row_of (i + 1) (x ∷ ra) a b (omega arith)

-- The last cell of a row.
cell-row_of : (ra rb b : Bytes) → cell (row_of ra rb b) (length b) ≡ distance ra (reverse_aux b rb)
unfolding row_tail
cell-row_of ra rb [] = refl
cell-row_of ra rb (y ∷ b) = cell-row_of ra (y ∷ rb) b

table-distance :
    (a b : Bytes) → cell (rows 1 (first_row 0 b) a b) (length b) ≡ distance (reverse a) (reverse b)
table-distance a b =
    ap (λ r. cell (rows 1 r a b) (length b)) (first_row-row_of 0 [] b refl)
    ∙ ap (λ r. cell r (length b)) (rows-row_of 1 [] a b refl)
    ∙ cell-row_of (reverse a) [] b

-- `n` is the cost of a script from `a` to `b`, and no script is cheaper.
abbrev pub IsLeast : Bytes → Bytes → ℕ → Type 0
IsLeast a b n = Script a b n × ((m : ℕ) → Script a b m → n ≤ m)

table-IsLeast : (a b : Bytes) → IsLeast a b (distance (reverse a) (reverse b))
table-IsLeast a b = (
  subst (λ t. Script t b (distance (reverse a) (reverse b))) (reverse-reverse a)
      (subst (λ t. Script (reverse (reverse a)) t (distance (reverse a) (reverse b)))
        (reverse-reverse b) (Script-reverse (Script-distance (reverse a) (reverse b)))),
  λ m s. distance-le (Script-reverse s),
)

if_pos_length : (n : ℕ) (x y : ℕ) → (if suc n == 0 then x else y) ≡ y
if_pos_length n x y = ground arith

-- The early returns for an empty text agree with the table.
length_guards :
    (a b : Bytes) (t : ℕ)
    → IsLeast a b t
    → IsLeast a b (if length a == 0 then length b else if length b == 0 then length a else t)
unfolding distance
length_guards [] b t h = (insert_all b, λ m s. distance-le s)
length_guards (x ∷ a) [] t h =
    subst (IsLeast (x ∷ a) []) (sym (if_pos_length (length a) 0 (suc (length a))))
      (delete_all (x ∷ a), λ m s. distance-le s)
length_guards (x ∷ a) (y ∷ b) t h =
    subst (IsLeast (x ∷ a) (y ∷ b))
      (sym
        (if_pos_length (length a) (suc (length b)) _ ∙ if_pos_length (length b) (suc (length a)) t))
      h

-- `Levenshtein` is the edit distance: the least number of insertions, deletions and replacements of
-- bytes that turn one text into the other.
pub levenshtein-IsLeast : (a b : Bytes) → IsLeast a b (levenshtein a b)
unfolding levenshtein
levenshtein-IsLeast a b = elim (Bool-cases (bytes_eq a b)) [
  | inl e ↦ rw e (subst (λ t. Script a t 0) (bytes_eq-eq a b e) (Script-refl a), λ m s. omega arith)
  | inr e ↦ rw e (
      length_guards a b (cell (rows 1 (first_row 0 b) a b) (length b))
        (subst (IsLeast a b) (sym (table-distance a b)) (table-IsLeast a b)))
]

-- ===== src/Lsp/Incremental.antt =====
-- internal/lsp/incremental.go: positions, offsets, and the changes that a client sends.
pub mod RoundTrip
use tya.Prelude.{
  ℤ, pos, negsuc, ℕ, zero, suc, ◌+◌, Bool, true, false, ◌&&◌, ◌||◌, List, [], ◌∷◌, ◌++◌, Option,
  none, some, ◌≡◌, refl, ltb, ◌==◌, if◌then◌else◌, Bytes, codes, length, take, drop,
}

pub record Position : Type 0 where
  pub line : ℤ
  pub character : ℤ

pub record Range : Type 0 where
  pub start : Position
  pub end : Position

-- `TextDocumentContentChangeEvent`.
pub record Change : Type 0 where
  pub range : Option Range
  pub text : Bytes

pub data PositionError : Type 0 where
  out_of_range start_past_end : PositionError

pub data Result (A : Type 0) : Type 0 where
  ok : A → Result A
  err : PositionError → Result A

-- `n == z` and `n < z`, for a counter `n`.
abbrev pub equals : ℕ → ℤ → Bool
equals n (pos m) = n == m
equals n (negsuc m) = false

abbrev pub below : ℕ → ℤ → Bool
below n (pos m) = ltb n m
below n (negsuc m) = false

-- The loop of `positionToOffset`, and what stands behind it; `i` is the offset of the rest.
unfoldable pub offset_from : Position → (line col i : ℕ) → Bytes → Result ℕ
offset_from p line col i [] =
    if equals line p.line && equals col p.character
    then ok i
    else if below line p.line || below col p.character
    then ok i
    else err out_of_range
offset_from p line col i (c ∷ s) =
    let on_line = offset_from p line (col + 1) (i + 1) s in
    let on_next = offset_from p (line + 1) 0 (i + 1) s in
    if equals line p.line && equals col p.character
    then ok i
    else if c == b'\n'
    then (if equals line p.line then ok i else on_next)
    else on_line

unfoldable pub position_to_offset : Bytes → Position → Result ℕ
unfolding offset_from
position_to_offset text p = offset_from p 0 0 0 text

-- The loop of `offsetToPosition`: `left` is `off - i`, and the text may end before.
unfoldable pub position_from : (line col left : ℕ) → Bytes → Position
position_from line col zero s = record { line = pos line; character = pos col }
position_from line col (suc left) [] = record { line = pos line; character = pos col }
position_from line col (suc left) (c ∷ s) = elim (c == b'\n') [
  | true ↦ position_from (line + 1) 0 left s
  | false ↦ position_from line (col + 1) left s
]

unfoldable pub offset_to_position : Bytes → ℕ → Position
unfolding position_from
offset_to_position text off = position_from 0 0 off text

-- `ApplyChange` between two offsets.
unfoldable pub splice : Bytes → (start end : ℕ) → (new : Bytes) → Result Bytes
splice text start end new =
    if ltb end start then err start_past_end else ok (take start text ++ (new ++ drop end text))

unfoldable pub apply_range : Bytes → Range → (new : Bytes) → Result Bytes
unfolding position_to_offset splice
apply_range text r new = elim (position_to_offset text r.start) [
  | err e ↦ err e
  | ok start ↦ elim (position_to_offset text r.end) [
    | err e ↦ err e
    | ok end ↦ splice text start end new
  ]
]

-- `ApplyChange`.
unfoldable pub apply_change : Bytes → Change → Result Bytes
unfolding apply_range
apply_change text c = elim c.range [ none ↦ ok c.text | some r ↦ apply_range text r c.text ]

abbrev at : ℕ → ℕ → Position
at line character = record { line = pos line; character = pos character }

incremental_tests :
    (position_to_offset (codes "ab\ncd") (at 1 1) ≡ ok 4)
    × (position_to_offset (codes "ab\ncd") (at 0 9) ≡ ok 2)
    × (position_to_offset (codes "ab\ncd") (at 7 0) ≡ ok 5)
    × (apply_change
          (codes "ab\ncd")
          (record { range = some (record { start = at 0 1; end = at 1 1 }); text = codes "X" })
        ≡ ok (codes "aXd"))
    × (apply_change
          (codes "ab\ncd")
          (record { range = some (record { start = at 1 1; end = at 0 1 }); text = codes "X" })
        ≡ err start_past_end)
unfolding position_to_offset apply_change
incremental_tests = (refl, refl, refl, refl, refl)

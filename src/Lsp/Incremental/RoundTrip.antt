-- ===== src/Lsp/Incremental/RoundTrip.antt =====
-- Offsets and positions stand for one another, and a change replaces what its range covers.
use tya.Prelude.{
  ℤ, pos, ℕ, zero, suc, ◌+◌, ◌≤◌, ◌<◌, Bool, true, false, ◌&&◌, [], ◌∷◌, ◌++◌, some, ◌≡◌, refl, ap,
  ◌∙◌, ◌⊎◌, inl, inr, arith, ◌==◌, Bool-cases, Bytes, length, take, drop,
}
use tya.Lsp.Incremental.{
  Position, Range, ok, equals, offset_from, position_to_offset, position_from, offset_to_position,
  splice, apply_range, apply_change,
}

-- A position at or behind a line and column.
abbrev Behind : (line col : ℕ) → Position → Type 0
Behind line col p =
    (m : ℕ) × (n : ℕ) × (p.line ≡ pos m)
    × (p.character ≡ pos n)
    × ((line < m) ⊎ ((line ≡ m) × (col ≤ n)))

Behind-next_line : (line col : ℕ) (p : Position) → Behind (line + 1) 0 p → Behind line col p
Behind-next_line line col p (m, n, a, b, h) = (m, n, a, b, inl (omega arith))

Behind-next_col : (line col : ℕ) (p : Position) → Behind line (col + 1) p → Behind line col p
Behind-next_col line col p (m, n, a, b, h) = (m, n, a, b, ground arith)

position_from-Behind :
    (line col left : ℕ) (s : Bytes) → Behind line col (position_from line col left s)
unfolding position_from
position_from-Behind line col zero s = (line, col, refl, refl, inr (refl, omega arith))
position_from-Behind line col (suc left) [] = (line, col, refl, refl, inr (refl, omega arith))
position_from-Behind line col (suc left) (c ∷ s) = elim (Bool-cases (c == b'\n')) [
  | inl e ↦
      rw (e, position_from) (Behind-next_line line col _ (position_from-Behind (line + 1) 0 left s))
  | inr e ↦
      rw (e, position_from)
        (Behind-next_col line col _ (position_from-Behind line (col + 1) left s))
]

-- A round that is not at the position goes on.
misses_line :
    (x : ℤ) (line m : ℕ) (later : Bool) → x ≡ pos m → line < m → (equals line x && later) ≡ false
misses_line x line m later a h = rw a (ground arith)

misses_col :
    (x y : ℤ) (line col m n : ℕ)
    → x ≡ pos m
    → y ≡ pos n
    → (line < m) ⊎ ((line ≡ m) × (col + 1 ≤ n))
    → (equals line x && equals col y) ≡ false
misses_col x y line col m n a b h = rw (a, b) (ground arith)

line_differs : (x : ℤ) (line m : ℕ) → x ≡ pos m → line < m → equals line x ≡ false
line_differs x line m a h = rw a (ground arith)

reached : (line col : ℕ) → (equals line (pos line) && equals col (pos col)) ≡ true
reached line col = ground arith

before_line : (line m : ℕ) → (line + 1 < m) ⊎ ((line + 1 ≡ m) × (0 ≤ 0)) → line < m
before_line line m h = ground arith

pass_newline :
    (p : Position) (line col i c : ℕ) (s : Bytes)
    → c == b'\n' ≡ true
    → Behind (line + 1) 0 p
    → offset_from p line col i (c ∷ s) ≡ offset_from p (line + 1) 0 (i + 1) s
unfolding offset_from
pass_newline p line col i c s e (m, n, a, b, h) =
    rw
      (
        misses_line p.line line m (equals col p.character) a (omega arith),
        e,
        line_differs p.line line m a (omega arith),
      )
      refl

pass_byte :
    (p : Position) (line col i c : ℕ) (s : Bytes)
    → c == b'\n' ≡ false
    → Behind line (col + 1) p
    → offset_from p line col i (c ∷ s) ≡ offset_from p line (col + 1) (i + 1) s
unfolding offset_from
pass_byte p line col i c s e (m, n, a, b, h) =
    rw (misses_col p.line p.character line col m n a b h, e) refl

stop :
    (line col i : ℕ) (s : Bytes)
    → offset_from (record { line = pos line; character = pos col }) line col i s ≡ ok i
unfolding offset_from
stop line col i [] = rw (reached line col) refl
stop line col i (c ∷ s) = rw (reached line col) refl

offset_from-position_from :
    (line col left i : ℕ) (s : Bytes)
    → left ≤ length s
    → offset_from (position_from line col left s) line col i s ≡ ok (i + left)
unfolding position_from
offset_from-position_from line col zero i s h = stop line col i s ∙ ap ok (omega arith)
offset_from-position_from line col (suc left) i [] h = absurd (omega arith)
offset_from-position_from line col (suc left) i (c ∷ s) h = elim (Bool-cases (c == b'\n')) [
  | inl e ↦
      rw (e, position_from)
        (pass_newline _ line col i c s e (position_from-Behind (line + 1) 0 left s)
          ∙ offset_from-position_from (line + 1) 0 left (i + 1) s (omega arith)
          ∙ ap ok (omega arith))
  | inr e ↦
      rw (e, position_from)
        (pass_byte _ line col i c s e (position_from-Behind line (col + 1) left s)
          ∙ offset_from-position_from line (col + 1) left (i + 1) s (omega arith)
          ∙ ap ok (omega arith))
]

-- The position of an offset within the text stands for that offset.
pub position_to_offset-offset_to_position :
    (text : Bytes) (off : ℕ)
    → off ≤ length text
    → position_to_offset text (offset_to_position text off) ≡ ok off
unfolding position_to_offset offset_to_position
position_to_offset-offset_to_position text off h =
    offset_from-position_from 0 0 off 0 text h ∙ ap ok (omega arith)

splice-ordered :
    (text : Bytes) (a b : ℕ) (new : Bytes)
    → a ≤ b
    → splice text a b new ≡ ok (take a text ++ (new ++ drop b text))
unfolding splice
splice-ordered text a b new h = ground arith

apply_range-offsets :
    (text : Bytes) (r : Range) (a b : ℕ) (new : Bytes)
    → position_to_offset text r.start ≡ ok a
    → position_to_offset text r.end ≡ ok b
    → apply_range text r new ≡ splice text a b new
unfolding apply_range
apply_range-offsets text r a b new h k = rw (h, k, apply_range) refl

-- A change between the positions of two offsets, the first not past the second and both within
-- the text, replaces the bytes between the two offsets by the change's text.
pub apply_change-between :
    (text : Bytes) (a b : ℕ) (new : Bytes)
    → a ≤ b
    → b ≤ length text
    → apply_change text (record {
      range = some (record { start = offset_to_position text a; end = offset_to_position text b });
      text = new;
    })
      ≡ ok (take a text ++ (new ++ drop b text))
unfolding apply_change
apply_change-between text a b new h k =
    apply_range-offsets text _ a b new (position_to_offset-offset_to_position text a (omega arith))
      (position_to_offset-offset_to_position text b k)
    ∙ splice-ordered text a b new h

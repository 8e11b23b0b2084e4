-- ===== src/Lexer/Comment/Cuts.antt =====
-- `splitComment` cuts a line at the first `#` outside quotes, and `stripComment` agrees with it.
use tya.Prelude.{
  ℕ, ◌+◌, Bool, true, false, [], ◌∷◌, ◌++◌, append_assoc, append-nil, ◌≡◌, refl, sym, ◌∙◌, ◌⊎◌, inl,
  inr, arith, Bool-cases, subst, Bytes, length,
}
use tya.Text.{trim_right}
use tya.Lexer.Comment.{
  Quoting, unquoted, quoting, starts_comment, Split, is_blank_byte, split_from, split_comment,
  strip_from, strip_comment,
}
use tya.Lexer.Comment.Grammar.{Code, Parts}
use tya.Lexer.Comment.Parts.{all-Parts}

-- `r` cuts `s` at the first `#` outside quotes.
pub record CutsAt (s : Bytes) (r : Split) : Type 0 where
  pub found : r.has_comment ≡ true
  pub rest : Bytes
  pub joins : s ≡ r.stripped ++ b'#' ∷ rest
  pub text : r.comment ≡ trim_right is_blank_byte rest
  pub place : r.pos ≡ length r.stripped
  pub outside : Code true r.stripped

-- `r` is `s`, which has no `#` outside quotes.
pub record Uncut (s : Bytes) (r : Split) : Type 0 where
  pub not_found : r.has_comment ≡ false
  pub whole : r.stripped ≡ s
  pub closed : Bool
  pub inside : Code closed s

split_from-strip :
    (q : Quoting) (i : ℕ) (seen s : Bytes)
    → (split_from q i seen s).stripped ≡ seen ++ strip_from q s
unfolding split_from strip_from
split_from-strip q i seen [] = sym (append-nil seen)
split_from-strip q i seen (c ∷ s) = elim (Bool-cases (starts_comment q c)) [
  | inl e ↦ rw e (sym (append-nil seen))
  | inr e ↦
      rw e
        (split_from-strip (quoting q c) (i + 1) (seen ++ c ∷ []) s ∙ append_assoc seen (c ∷ []) _)
]

abbrev pub Cuts : Bytes → Split → Type 0
Cuts s r = CutsAt s r ⊎ Uncut s r

Parts-Cuts : (s : Bytes) (r : Split) → Parts Code 0 [] s r → Cuts s r
Parts-Cuts s r (inl (front, rest, joins, g, e)) = inl (
    subst (CutsAt s) (sym e) (record {
      found = refl;
      rest = rest;
      joins = joins;
      text = refl;
      place = omega arith;
      outside = g;
    }))
Parts-Cuts s r (inr (closed, g, e)) = inr (
    subst (Uncut s) (sym e)
      (record { not_found = refl; whole = refl; closed = closed; inside = g }))

-- `splitComment` either cuts a line at its first `#` outside quotes: what stands in front of it, a
-- text whose quotes are all closed and that has each `#` inside quotes, is the code, and what stands
-- behind it, without trailing blanks, the comment, with the place of the `#`. Or every `#` of the
-- line is inside quotes, of which the last may be open, there is no comment, and the code is the
-- line. Quotes are single or double, each ends at the next of its kind that no backslash keeps, and
-- prefixes of literals play no part. `stripComment` gives the same code.
pub split_comment-Cuts :
    (s : Bytes) → Cuts s (split_comment s) × (strip_comment s ≡ (split_comment s).stripped)
unfolding split_comment strip_comment
split_comment-Cuts s =
    let parts = all-Parts s in
    (
      Parts-Cuts s (split_from unquoted 0 [] s) (parts.0 0 []),
      sym (split_from-strip unquoted 0 [] s),
    )

-- ===== src/Cover/Path/RoundTrip.antt =====
-- A path that is written to a profile is read back.
use tya.Prelude.{
  ℕ, true, false, [], ◌∷◌, ◌≡◌, refl, ap, ◌∙◌, inl, inr, ◌==◌, Bool-cases, Bytes, arith,
}
use tya.Cover.Path.{encode_byte, encode_path, decode_path}

decode_path-cons :
    (c : ℕ) (s : Bytes) → (c == b'%') ≡ false → decode_path (c ∷ s) ≡ c ∷ decode_path s
unfolding decode_path
decode_path-cons c [] h = refl
decode_path-cons c (d ∷ []) h = refl
decode_path-cons c (d ∷ e ∷ s) h = rw h refl

space_read : (s : Bytes) → decode_path (b'%' ∷ b'2' ∷ b'0' ∷ s) ≡ b' ' ∷ decode_path s
unfolding decode_path
space_read s = refl

percent_read : (s : Bytes) → decode_path (b'%' ∷ b'2' ∷ b'5' ∷ s) ≡ b'%' ∷ decode_path s
unfolding decode_path
percent_read s = refl

-- `decodePath` gives back every path that `encodePath` is given.
pub decode_path-encode_path : (p : Bytes) → decode_path (encode_path p) ≡ p
unfolding encode_path encode_byte
decode_path-encode_path [] = unfold decode_path in refl
decode_path-encode_path (c ∷ p) = elim (Bool-cases (c == b' ')) [
  | inl e ↦ rw e (
      space_read (encode_path p)
      ∙ ap (◌∷◌ b' ') (decode_path-encode_path p)
      ∙ ap (λ x. x ∷ p) (same b' ' e))
  | inr e ↦ elim (Bool-cases (c == b'%')) [
    | inl f ↦
        rw (e, f)
          (percent_read (encode_path p)
            ∙ ap (◌∷◌ b'%') (decode_path-encode_path p)
            ∙ ap (λ x. x ∷ p) (same b'%' f))
    | inr f ↦
        rw (e, f) (decode_path-cons c (encode_path p) f ∙ ap (◌∷◌ c) (decode_path-encode_path p))
  ]
]
  where
    same : (d : ℕ) → (c == d) ≡ true → d ≡ c
    same d h = ground arith

-- ===== src/Lexer/Line/Tokens.antt =====
-- The tokens that one line gives: their kinds and places.
use tya.Prelude.{
  ℕ, ◌+◌, true, ◌∷◌, Option, none, some, ◌≡◌, refl, arith, if◌then◌else◌, if_intro, Bytes, drop,
  get_elem?, ◌||◌, ◌&&◌,
}
use tya.Token.{TokenType, Token, int, float, ident, arrow, nil_assign}
use tya.Lexer.State.{LexError, diag, plain, plain_token, tya_e0015, invalid_digit}
use tya.Text.{byte_is}
use tya.Lexer.State.{Prefix, hex, binary}
use tya.Lexer.Bytes.{is_alpha, is_digit}
use tya.Lexer.Adds.{is_plain}
use tya.Lexer.Number.{
  prefixed_digits, Digits, Literal, literal, bad, number_literal, prefixed_literal, prefixed_token,
  decimal_literal,
}
use tya.Lexer.Escape.{Outcome, failed, closed_at, ended}
use tya.Lexer.Quoted.{
  finish, Quoted, quoted, broken, raw_literal, bytes_literal, double_literal, single_literal,
  interpret_body,
}
use tya.Lexer.Line.{
  Step, space, emit, complain, of_quoted, of_literal, two_bytes, one_byte, operator_step, step,
}

abbrev pub StandsAt : ℕ → ℕ → Token → Type 0
StandsAt line col t = (is_plain t.type ≡ true) × (t.line ≡ line) × (t.col ≡ col)

module _ (line col : ℕ) where
  QuotedFits : Quoted → Type 0
  QuotedFits (quoted t _) = StandsAt line col t
  QuotedFits (broken _) = Unit

  LiteralFits : Literal → Type 0
  LiteralFits (literal t _ _) = is_plain t ≡ true
  LiteralFits (bad _) = Unit

  TypeFits : Option TokenType → Type 0
  TypeFits none = Unit
  TypeFits (some t) = is_plain t ≡ true

  unfoldable pub StepFits : Step → Type 0
  StepFits (emit _ t) = StandsAt line col t
  StepFits _ = Unit

  of_quoted-fits : (q : Quoted) → QuotedFits q → StepFits (of_quoted q)
  unfolding QuotedFits StepFits
  of_quoted-fits (quoted t k) h = h
  of_quoted-fits (broken e) h = tt

  of_literal-fits : (r : Literal) → LiteralFits r → StepFits (of_literal line col r)
  unfolding LiteralFits StepFits
  of_literal-fits (literal t k w) h = (h, refl, refl)
  of_literal-fits (bad e) h = tt

  finish-fits :
      (o : Outcome) (make : Bytes → Token) (e : LexError)
      → ((out : Bytes) → StandsAt line col (make out))
      → QuotedFits (finish o make e)
  unfolding QuotedFits
  finish-fits (failed _) make e h = tt
  finish-fits (closed_at _ out) make e h = h out
  finish-fits (ended _) make e h = tt

  raw_literal-fits : (s : Bytes) → QuotedFits (raw_literal line col s)
  unfolding raw_literal
  raw_literal-fits s = finish-fits _ _ _ (λ out. (refl, refl, refl))

  bytes_literal-fits : (s : Bytes) → QuotedFits (bytes_literal line col s)
  unfolding bytes_literal
  bytes_literal-fits s = finish-fits _ _ _ (λ out. (refl, refl, refl))

  double_literal-fits : (s : Bytes) → QuotedFits (double_literal line col s)
  unfolding double_literal
  double_literal-fits s = finish-fits _ _ _ (λ out. (refl, refl, refl))

  single_literal-fits : (s : Bytes) → QuotedFits (single_literal line col s)
  unfolding single_literal interpret_body QuotedFits
  single_literal-fits s = ground arith

  prefixed_token-fits : (p : Prefix) (r : Digits) → LiteralFits (prefixed_token p line col r)
  unfolding prefixed_token LiteralFits
  prefixed_token-fits p r = ground arith

  bad-fits : (e : LexError) → LiteralFits (bad e)
  unfolding LiteralFits
  bad-fits e = tt

  int-fits : (b : Bytes) (w : ℕ) → LiteralFits (literal int b w)
  unfolding LiteralFits
  int-fits b w = refl

  float-fits : (b : Bytes) (w : ℕ) → LiteralFits (literal float b w)
  unfolding LiteralFits
  float-fits b w = refl

  prefixed_literal-fits : (p : Prefix) (s : Bytes) → LiteralFits (prefixed_literal p line col s)
  unfolding prefixed_literal
  prefixed_literal-fits p s =
      if_intro LiteralFits _ (bad-fits _)
        (next-fits (get_elem? (drop (2 + (prefixed_digits p (drop 2 s)).width) s) 0))
    where
      next-fits :
          (o : Option ℕ)
          → LiteralFits (elim o [
            | some c ↦
                if is_alpha c || is_digit c
                then bad (
                    plain (invalid_digit c p) line (col + 2 + (prefixed_digits p (drop 2 s)).width))
                else prefixed_token p line col (prefixed_digits p (drop 2 s))
            | none ↦ prefixed_token p line col (prefixed_digits p (drop 2 s))
          ])
      next-fits none = prefixed_token-fits p (prefixed_digits p (drop 2 s))
      next-fits (some c) =
          if_intro LiteralFits (is_alpha c || is_digit c)
            (bad-fits
              (plain (invalid_digit c p) line (col + 2 + (prefixed_digits p (drop 2 s)).width)))
            (prefixed_token-fits p (prefixed_digits p (drop 2 s)))

  decimal_literal-fits : (s : Bytes) → LiteralFits (decimal_literal s)
  unfolding decimal_literal
  decimal_literal-fits s = if_intro LiteralFits _ (float-fits _ _) (int-fits _ _)

  number_literal-fits : (s : Bytes) → LiteralFits (number_literal line col s)
  unfolding number_literal
  number_literal-fits s =
      if_intro LiteralFits (byte_is s 0 b'0' && (byte_is s 1 b'x' || byte_is s 1 b'X'))
        (prefixed_literal-fits hex s)
        (if_intro LiteralFits (byte_is s 0 b'0' && (byte_is s 1 b'b' || byte_is s 1 b'B'))
          (prefixed_literal-fits binary s) (decimal_literal-fits s))

  two_bytes-fits : (s : Bytes) → TypeFits (two_bytes s)
  unfolding two_bytes TypeFits
  two_bytes-fits s = ground arith

  one_byte-fits : (c : ℕ) → TypeFits (one_byte c)
  unfolding one_byte TypeFits
  one_byte-fits c = ground arith

  emit-fits :
      (k : ℕ) (t : TokenType) (b : Bytes)
      → is_plain t ≡ true
      → StepFits (emit k (plain_token t b line col))
  unfolding StepFits
  emit-fits k t b h = (h, refl, refl)

  space-fits : StepFits space
  unfolding StepFits
  space-fits = tt

  one_byte_step-fits :
      (o : Option TokenType) (b : Bytes)
      → TypeFits o
      → StepFits (elim o [
        | some t ↦ emit 0 (plain_token t b line col)
        | none ↦ complain (diag tya_e0015 line col 1)
      ])
  unfolding TypeFits StepFits
  one_byte_step-fits none b h = tt
  one_byte_step-fits (some t) b h = (h, refl, refl)

  two_bytes_step-fits :
      (o : Option TokenType) (b : Bytes) (later : Step)
      → TypeFits o
      → StepFits later
      → StepFits (elim o [ some t ↦ emit 1 (plain_token t b line col) | none ↦ later ])
  unfolding TypeFits StepFits
  two_bytes_step-fits none b later h g = g
  two_bytes_step-fits (some t) b later h g = (h, refl, refl)

  operator_step-fits : (c : ℕ) (s : Bytes) → StepFits (operator_step line col c s)
  unfolding operator_step
  operator_step-fits c s = if_intro StepFits _ (emit-fits 1 arrow _ refl) (
      if_intro StepFits _ (emit-fits 2 nil_assign _ refl) (
        two_bytes_step-fits (two_bytes (c ∷ s)) _ _ (two_bytes-fits (c ∷ s))
          (one_byte_step-fits (one_byte c) _ (one_byte-fits c))))

  -- A token that a round adds stands at the round's byte.
  pub step-fits : (c : ℕ) (s : Bytes) → StepFits (step line col c s)
  unfolding step
  step-fits c s = if_intro StepFits _ space-fits (
      if_intro StepFits _ (of_quoted-fits _ (raw_literal-fits (c ∷ s))) (
        if_intro StepFits _ (of_quoted-fits _ (bytes_literal-fits (c ∷ s))) (
          if_intro StepFits _ (emit-fits _ ident _ refl) (
            if_intro StepFits _ (of_literal-fits _ (number_literal-fits (c ∷ s))) (
              if_intro StepFits _ (of_quoted-fits _ (double_literal-fits (c ∷ s))) (
                if_intro StepFits _ (of_quoted-fits _ (single_literal-fits (c ∷ s)))
                  (operator_step-fits c s)))))))

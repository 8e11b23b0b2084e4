-- ===== src/Formatter/Apart/Steps.antt =====
-- internal/lexer/lexer.go: a round of `lexLine` at a word or a sign that ends where the text
-- behind it cannot go on with it.
use tya.Prelude.{
  ℕ, Bool, true, false, not, ◌&&◌, ◌||◌, [], ◌∷◌, ◌++◌, some, ◌≡◌, refl, arith, length, Bytes, ◌==◌,
}
use tya.Text.{has_prefix, byte_is}
use tya.Token
use tya.Token.{TokenType, Token}
use tya.Lexer.State.{plain_token}
use tya.Lexer.Bytes.{is_alpha, is_digit, is_ident_char, all_of, take_while}
use tya.Lexer.Line.{emit, step, operator_step, two_bytes, one_byte}
use tya.Formatter.Apart.Digits.{less, off}
use tya.Formatter.Apart.{starts, goes_on_word, goes_on_sign, is_sign}

take_while-append :
    (test : ℕ → Bool) (w r : Bytes)
    → all_of test w ≡ true
    → starts test r ≡ false
    → take_while test (w ++ r) ≡ w
unfolding take_while all_of
take_while-append test [] [] h n = refl
take_while-append test [] (c ∷ r) h n = rw n refl
take_while-append test (c ∷ w) r h n =
    let t : test c ≡ true = ground (arith, h) in
    rw (t, take_while-append test w r (ground (arith, h)) n) refl

no_quote :
    (w r : Bytes)
    → all_of is_ident_char w ≡ true
    → starts goes_on_word r ≡ false
    → byte_is (w ++ r) 0 b'"' ≡ false
unfolding all_of
no_quote [] [] h n = refl
no_quote [] (c ∷ r) h n = ground (arith, n)
no_quote (c ∷ w) r h n = ground (arith, h)

ends_word : (r : Bytes) → starts goes_on_word r ≡ false → starts is_ident_char r ≡ false
ends_word [] n = refl
ends_word (c ∷ r) n = ground (arith, n)

shut : (a b : Bool) → (a && (false && b)) ≡ false
shut a b = ground arith

pub word-step :
    (line col c : ℕ) (w r : Bytes)
    → (is_alpha c || c == b'_') ≡ true
    → all_of is_ident_char w ≡ true
    → starts goes_on_word r ≡ false
    → step line col c (w ++ r) ≡ emit (length w) (plain_token Token.ident (c ∷ w) line col)
unfolding step take_while
word-step line col c w r hc hw hr =
    let no_space : (c == b' ') ≡ false = ground (arith, hc) in
    let char : is_ident_char c ≡ true = ground (arith, hc) in
    let name : take_while is_ident_char (w ++ r) ≡ w =
      take_while-append is_ident_char w r hw (ends_word r hr) in
    let late = not (byte_is (w ++ r) 1 b'"' && byte_is (w ++ r) 2 b'"') in
    rw
      (
        no_space,
        no_quote w r hw hr,
        shut (c == b'r') late,
        shut (c == b'b') late,
        hc,
        char,
        name,
        less (length w),
      )
      refl

pub sign_char-step :
    (line col c : ℕ) (s : Bytes) → is_sign c ≡ true → step line col c s ≡ operator_step line col c s
unfolding step
sign_char-step line col c s hc =
    let no_space : (c == b' ') ≡ false = ground (arith, hc) in
    let no_r : (c == b'r') ≡ false = ground (arith, hc) in
    let no_b : (c == b'b') ≡ false = ground (arith, hc) in
    let no_name : (is_alpha c || c == b'_') ≡ false = ground (arith, hc) in
    let no_digit : is_digit c ≡ false = ground (arith, hc) in
    let no_quote : (c == b'"') ≡ false = ground (arith, hc) in
    let no_tick : (c == b'\'') ≡ false = ground (arith, hc) in
    rw (no_space, no_r, no_b, no_name, no_digit, no_quote, no_tick) refl

pub sign-step :
    (line col c : ℕ) (t : TokenType) (r : Bytes)
    → one_byte c ≡ some t
    → starts goes_on_sign r ≡ false
    → operator_step line col c r ≡ emit 0 (plain_token t (c ∷ []) line col)
unfolding operator_step two_bytes has_prefix
sign-step line col c t [] h n =
    rw
      (
        off (c == b'-'),
        off (c == b'?'),
        off (c == b'='),
        off (c == b'!'),
        off (c == b'<'),
        off (c == b'>'),
        h,
      )
      refl
sign-step line col c t (d ∷ r) h n =
    let no_assign : (d == b'=') ≡ false = ground (arith, n) in
    let no_ask : (d == b'?') ≡ false = ground (arith, n) in
    let no_lt : (d == b'<') ≡ false = ground (arith, n) in
    let no_gt : (d == b'>') ≡ false = ground (arith, n) in
    rw
      (
        no_assign,
        no_ask,
        no_lt,
        no_gt,
        off (c == b'-'),
        off (c == b'?'),
        off (c == b'='),
        off (c == b'!'),
        off (c == b'<'),
        off (c == b'>'),
        h,
      )
      refl

pub two_signs-step :
    (line col c d : ℕ) (t : TokenType) (r : Bytes)
    → (c == b'-') ≡ false
    → two_bytes (c ∷ d ∷ []) ≡ some t
    → starts goes_on_sign r ≡ false
    → operator_step line col c (d ∷ r) ≡ emit 1 (plain_token t (c ∷ d ∷ []) line col)
unfolding operator_step two_bytes has_prefix
two_signs-step line col c d t [] minus h n = rw (minus, off (d == b'?'), off (c == b'?'), h) refl
two_signs-step line col c d t (e ∷ r) minus h n =
    let no_assign : (e == b'=') ≡ false = ground (arith, n) in
    rw (minus, no_assign, off (d == b'?'), off (c == b'?'), h) refl

-- ===== src/Formatter/Apart/Digits.antt =====
-- internal/lexer/lexer.go: a round of `lexLine` at a decimal number that ends where the text behind
-- it cannot go on with it.
use tya.Prelude.{
  ℕ, suc, ◌+◌, ◌-◌, Bool, true, false, ◌&&◌, ◌||◌, [], ◌∷◌, ◌++◌, ◌≡◌, refl, ap, ◌∙◌, arith, length,
  Bytes, ◌==◌, drop,
}
use tya.Text.{byte_is}
use tya.Token
use tya.Token.{TokenType, Token}
use tya.Lexer.State.{plain_token}
use tya.Lexer.Bytes.{is_alpha, is_digit, is_ident_char, all_of}
use tya.Lexer.Number.{literal, decimal_digits, decimal_literal, number_literal}
use tya.Lexer.Line.{emit, step, of_literal}
use tya.Formatter.Apart.{starts, has_fraction}

pub less : (n : ℕ) → suc n - 1 ≡ n
less n = omega arith

pub off : (a : Bool) → (a && false) ≡ false
off a = ground arith

decimal_digits-append :
    (w r : Bytes)
    → all_of is_digit w ≡ true
    → starts is_ident_char r ≡ false
    → decimal_digits (w ++ r) ≡ record { digits = w; width = length w }
unfolding decimal_digits all_of
decimal_digits-append [] [] h n = refl
decimal_digits-append [] (c ∷ r) h n =
    let no_score : (c == b'_') ≡ false = ground (arith, n) in
    let no_digit : is_digit c ≡ false = ground (arith, n) in rw (no_score, no_digit) refl
decimal_digits-append (c ∷ w) r h n =
    let no_score : (c == b'_') ≡ false = ground (arith, h) in
    let digit : is_digit c ≡ true = ground (arith, h) in
    let one : length w + 1 ≡ suc (length w) = omega arith in
    rw (no_score, digit, decimal_digits-append w r (ground (arith, h)) n, one) refl

drop-append : (w r : Bytes) → drop (length w) (w ++ r) ≡ r
drop-append [] r = refl
drop-append (c ∷ w) r = drop-append w r

decimal_literal-append :
    (w r : Bytes)
    → all_of is_digit w ≡ true
    → starts is_ident_char r ≡ false
    → has_fraction r ≡ false
    → decimal_literal (w ++ r) ≡ literal Token.int w (length w)
unfolding decimal_literal
decimal_literal-append w r h n no_fraction =
    rw (decimal_digits-append w r h n, drop-append w r, no_fraction) refl

no_letter :
    (x : ℕ) (w r : Bytes)
    → all_of is_digit w ≡ true
    → starts is_ident_char r ≡ false
    → is_alpha x ≡ true
    → byte_is (w ++ r) 0 x ≡ false
unfolding all_of
no_letter x [] [] h n a = refl
no_letter x [] (c ∷ r) h n a = ground (arith, n, a)
no_letter x (c ∷ w) r h n a = ground (arith, h, a)

number_literal-digits :
    (line col c : ℕ) (w r : Bytes)
    → all_of is_digit w ≡ true
    → starts is_ident_char r ≡ false
    → number_literal line col (c ∷ (w ++ r)) ≡ decimal_literal (c ∷ (w ++ r))
unfolding number_literal
number_literal-digits line col c w r h n =
    rw
      (
        no_letter b'x' w r h n refl,
        no_letter b'X' w r h n refl,
        no_letter b'b' w r h n refl,
        no_letter b'B' w r h n refl,
        off (c == b'0'),
      )
      refl

digit-step :
    (line col c : ℕ) (s : Bytes)
    → is_digit c ≡ true
    → step line col c s ≡ of_literal line col (number_literal line col (c ∷ s))
unfolding step
digit-step line col c s h =
    let no_space : (c == b' ') ≡ false = ground (arith, h) in
    let no_r : (c == b'r') ≡ false = ground (arith, h) in
    let no_b : (c == b'b') ≡ false = ground (arith, h) in
    let no_name : (is_alpha c || c == b'_') ≡ false = ground (arith, h) in
    rw (no_space, no_r, no_b, no_name, h) refl

more_digits :
    (c : ℕ) (w : Bytes)
    → is_digit c ≡ true
    → all_of is_digit w ≡ true
    → all_of is_digit (c ∷ w) ≡ true
unfolding all_of
more_digits c w hc hw = rw (hc, hw) refl

pub number-step :
    (line col c : ℕ) (w r : Bytes)
    → is_digit c ≡ true
    → all_of is_digit w ≡ true
    → starts is_ident_char r ≡ false
    → has_fraction r ≡ false
    → step line col c (w ++ r) ≡ emit (length w) (plain_token Token.int (c ∷ w) line col)
number-step line col c w r hc hw n no_fraction =
    digit-step line col c (w ++ r) hc
    ∙ ap (of_literal line col) (
        number_literal-digits line col c w r hw n
        ∙ decimal_literal-append (c ∷ w) r (more_digits c w hc hw) n no_fraction)
    ∙ ap (λ k. emit k (plain_token Token.int (c ∷ w) line col)) (less (length w))

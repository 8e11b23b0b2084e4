-- ===== src/Eval/Interpolate.antt =====
-- internal/eval/value.go: `interpolate`, which reads the lexeme of a string token. Evaluating an
-- expression and displaying its value (`evalInterpolationExpr`, `displayString`) is an argument; it
-- takes the text between the braces, and fails as `none`.
pub mod Raw
use tya.Prelude.{
  ℕ, zero, suc, ◌+◌, ◌-◌, Bool, true, false, List, [], ◌∷◌, ◌++◌, Option, none, some, ◌≡◌, refl,
  ◌==◌, if◌then◌else◌, Bytes, codes, take, drop,
}
use tya.Text.{byte_is, is_blank}
use tya.Interp.{find_expr_end}

pub data Failure : Type 0 where
  unclosed empty_expr unmatched eval_failed : Failure

pub data Interpolated : Type 0 where
  text : Bytes → Interpolated
  error : Failure → Interpolated

-- A round writes `out` and goes on behind `skip` further bytes, or returns an error.
pub data Round : Type 0 where
  on : (skip : ℕ) (out : Bytes) → Round
  fail : Failure → Round

module _ (eval : Bytes → Option Bytes) where
  -- `case '{'` behind its first test: an expression, on the rest from its brace on.
  unfoldable pub expr_round : Bytes → Round
  unfolding find_expr_end is_blank
  expr_round s = elim (find_expr_end s) [
    | none ↦ fail unclosed
    | some close ↦
        let expr = take (close - 1) (drop 1 s) in
        if is_blank expr
        then fail empty_expr
        else elim (eval expr) [ none ↦ fail eval_failed | some v ↦ on close v ]
  ]

  unfoldable pub round : (c : ℕ) → Bytes → Round
  unfolding expr_round
  round c s =
      if c == b'{'
      then (if byte_is s 0 b'{' then on 1 (b'{' ∷ []) else expr_round (c ∷ s))
      else if c == b'}'
      then (if byte_is s 0 b'}' then on 1 (b'}' ∷ []) else fail unmatched)
      else on 0 (c ∷ [])

  unfoldable pub interpolate_from : (skip : ℕ) (out : Bytes) → Bytes → Interpolated
  unfolding round
  interpolate_from skip out [] = text out
  interpolate_from (suc skip) out (c ∷ s) = interpolate_from skip out s
  interpolate_from zero out (c ∷ s) = elim (round c s) [
    | fail e ↦ error e
    | on k w ↦ interpolate_from k (out ++ w) s
  ]

  unfoldable pub interpolate : Bytes → Interpolated
  unfolding interpolate_from
  interpolate = interpolate_from 0 []

interpolate_tests :
    (interpolate (λ e. some (e ++ e)) (codes "a{{{x}}}b") ≡ text (codes "a{xx}b"))
    × (interpolate (λ e. some e) (codes "a } b") ≡ error unmatched)
    × (interpolate (λ e. some e) (codes "{ }") ≡ error empty_expr)
unfolding interpolate
interpolate_tests = (refl, refl, refl)

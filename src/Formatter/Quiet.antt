-- ===== src/Formatter/Quiet.antt =====
-- internal/parser/parser.go: tokens without arrows begin no function.
use tya.Prelude.{ℕ, zero, suc, ◌+◌, ◌-◌, Bool, false, List, [], ◌∷◌, ◌≡◌, refl, All, arith, drop}
use tya.Token
use tya.Token.{Token, is}
use tya.Ast.{Expr}
use tya.Parser.State.{Parser, nth, Parse, ok}
use tya.Parser.Levels.{nil_coalesce, level}
use tya.Parser.Function.{
  Statements, Scan, after_name, in_default, first_is, scan_params, scan_paren,
  starts_function_params, starts_paren_function_params, expr_with_comma_func, expr,
}
use tya.Formatter.Feed.{Inert, QuietTokens, Quiet, Quiet-Inert}

pub nth-Inert : (n : ℕ) (t : Token) (ts : List Token) → QuietTokens t ts → Inert (nth n t ts).type
unfolding QuietTokens
nth-Inert zero t [] (i, a) = i
nth-Inert zero t (u ∷ us) (i, a, h) = i
nth-Inert (suc n) t [] (i, a) = i
nth-Inert (suc n) t (u ∷ us) (i, a, h) = nth-Inert n u us h

abbrev NoArrow : Token → Type 0
NoArrow t = is t.type Token.arrow ≡ false

QuietTokens-NoArrow : (t : Token) (ts : List Token) → QuietTokens t ts → All NoArrow (t ∷ ts)
unfolding QuietTokens
QuietTokens-NoArrow t [] (i, a) = (i.no_arrow, tt)
QuietTokens-NoArrow t (u ∷ us) (i, a, h) = (i.no_arrow, QuietTokens-NoArrow u us h)

drop-All : (n : ℕ) (ts : List Token) → All NoArrow ts → All NoArrow (drop n ts)
drop-All zero ts h = h
drop-All (suc n) [] h = tt
drop-All (suc n) (t ∷ ts) (a, h) = drop-All n ts h

first_is-arrow : (ts : List Token) → All NoArrow ts → first_is Token.arrow ts ≡ false
first_is-arrow [] h = refl
first_is-arrow (t ∷ ts) (a, h) = a

scan_params-false : (s : Scan) (ts : List Token) → All NoArrow ts → scan_params s ts ≡ false
unfolding scan_params
scan_params-false s [] h = refl
scan_params-false after_name (t ∷ []) (a, h) = a
scan_params-false (in_default d) (t ∷ []) (a, h) = ground (arith, a)
scan_params-false after_name (t ∷ u ∷ ts) (a, (b, h)) = ground (
  arith,
  a,
  b,
  scan_params-false (in_default 0) (u ∷ ts) (b, h),
  scan_params-false after_name ts h,
)
scan_params-false (in_default d) (t ∷ u ∷ ts) (a, (b, h)) = ground (
  arith,
  a,
  b,
  scan_params-false (in_default (d + 1)) (u ∷ ts) (b, h),
  scan_params-false (in_default (d - 1)) (u ∷ ts) (b, h),
  scan_params-false (in_default d) (u ∷ ts) (b, h),
  scan_params-false after_name ts h,
)

scan_paren-false : (s : Scan) (ts : List Token) → All NoArrow ts → scan_paren s ts ≡ false
unfolding scan_paren
scan_paren-false s [] h = refl
scan_paren-false s (t ∷ []) h = refl
scan_paren-false after_name (t ∷ u ∷ ts) (a, (b, h)) = ground (
  arith,
  a,
  b,
  first_is-arrow ts h,
  scan_paren-false (in_default 0) (u ∷ ts) (b, h),
  scan_paren-false after_name ts h,
)
scan_paren-false (in_default d) (t ∷ u ∷ ts) (a, (b, h)) = ground (
  arith,
  a,
  b,
  first_is-arrow ts h,
  scan_paren-false (in_default (d + 1)) (u ∷ ts) (b, h),
  scan_paren-false (in_default (d - 1)) (u ∷ ts) (b, h),
  scan_paren-false (in_default d) (u ∷ ts) (b, h),
  scan_paren-false after_name ts h,
)

starts_function_params-false :
    (allow : Bool) (p : Parser) → Quiet p → starts_function_params allow p ≡ false
unfolding starts_function_params
starts_function_params-false allow p h =
    let (a, rest) = QuietTokens-NoArrow p.tok p.rest h in
    let none = scan_params-false after_name (drop 2 p.rest) (drop-All 2 p.rest rest) in
    let i = nth-Inert 1 p.tok p.rest h in ground (arith, none, i.no_arrow, i.no_assign)

starts_paren_function_params-false : (p : Parser) → Quiet p → starts_paren_function_params p ≡ false
unfolding starts_paren_function_params
starts_paren_function_params-false p h =
    let (a, rest) = QuietTokens-NoArrow p.tok p.rest h in
    let none = scan_paren-false after_name (drop 1 p.rest) (drop-All 1 p.rest rest) in
    ground (arith, none)

-- Then an expression is what `nilCoalesce` reads.
module _ {S : Type 0} (statements : Statements S) (unary : Parse (Expr S)) where
  pub expr-level :
      (allow : Bool) (p : Parser) (e : Expr S) (q : Parser)
      → Quiet p
      → Quiet q
      → level unary 10 p ≡ ok e q
      → expr statements unary allow p ≡ ok e q
  unfolding expr expr_with_comma_func nil_coalesce
  expr-level allow p e q hp hq h =
      let i = Quiet-Inert q hq in
      rw (
        expr_with_comma_func,
        starts_function_params-false allow p hp,
        starts_paren_function_params-false p hp,
        h,
        i.no_arrow,
      )

-- ===== src/Parser/Function.antt =====
-- internal/parser/parser.go: function literals, and expressions as a whole. What reads statements is
-- a parameter.
use tya.Prelude.{
  ℕ, zero, suc, ◌+◌, ◌-◌, ◌==◌, Bool, true, false, not, ◌&&◌, ◌||◌, List, [], ◌∷◌, if◌then◌else◌,
  codes, drop, length,
}
use tya.Token
use tya.Token.{TokenType, Token, is}
use tya.Ast.{Expr, ident, func_lit, control, Params, no_params, required, optional, block, result}
use tya.Parser.State.{
  Parser, Parse, ok, out_of_fuel, bind, next, at, at_n, err, must_match, expect_name, starts_expr,
}
use tya.Parser.Levels.{nil_coalesce}

-- The parsers of statements: the body of a function behind NEWLINE and INDENT, to its DEDENT, and
-- what follows the words `if`, `while`, `for` and `match`.
pub record Statements (S : Type 0) : Type 0 where
  pub func_body : Parse (List S)
  pub after_keyword : Token → Parse S

-- Where a look ahead over parameters stands: behind a name, or in a default value.
pub data Scan : Type 0 where
  after_name : Scan
  in_default : (depth : ℕ) → Scan

abbrev opens : TokenType → Bool
opens t = is t Token.lparen || is t Token.lbracket || is t Token.lbrace

abbrev closes : TokenType → Bool
closes t = is t Token.rparen || is t Token.rbracket || is t Token.rbrace

abbrev ends_line : TokenType → Bool
ends_line t = is t Token.newline || is t Token.eof

abbrev pub first_is : TokenType → List Token → Bool
first_is t [] = false
first_is t (u ∷ ts) = is u.type t

-- The loop of `startsFunctionParams`, on the tokens behind the name. An index past the last token,
-- which is an EOF, is never read.
unfoldable pub scan_params : Scan → List Token → Bool
scan_params s [] = false
scan_params after_name (t ∷ []) = is t.type Token.arrow
scan_params after_name (t ∷ u ∷ ts) =
    let default = scan_params (in_default 0) (u ∷ ts) in
    let name = scan_params after_name ts in
    if is t.type Token.arrow
    then true
    else if is t.type Token.assign
    then default
    else if is t.type Token.comma
    then (if is u.type Token.arrow then true else is u.type Token.ident && name)
    else false
scan_params (in_default d) (t ∷ []) = is t.type Token.arrow && (d == 0)
scan_params (in_default d) (t ∷ u ∷ ts) =
    let deeper = scan_params (in_default (d + 1)) (u ∷ ts) in
    let out = scan_params (in_default (d - 1)) (u ∷ ts) in
    let same = scan_params (in_default d) (u ∷ ts) in
    let name = scan_params after_name ts in
    if opens t.type
    then deeper
    else if closes t.type
    then (if d == 0 then false else out)
    else if is t.type Token.comma && (d == 0)
    then (if is u.type Token.arrow then true else is u.type Token.ident && name)
    else if is t.type Token.arrow && (d == 0)
    then true
    else if ends_line t.type
    then false
    else same

unfoldable pub starts_function_params : (allow_comma : Bool) → Parser → Bool
unfolding scan_params
starts_function_params allow_comma p =
    if not (at Token.ident p)
    then false
    else if at_n 1 Token.arrow p || at_n 1 Token.assign p
    then true
    else if not allow_comma || not (at_n 1 Token.comma p)
    then false
    else at_n 2 Token.ident p && scan_params after_name (drop 2 p.rest)

-- The loop of `startsParenFunctionParams`, likewise.
unfoldable pub scan_paren : Scan → List Token → Bool
scan_paren s [] = false
scan_paren s (t ∷ []) = false
scan_paren after_name (t ∷ u ∷ ts) =
    let default = scan_paren (in_default 0) (u ∷ ts) in
    let name = scan_paren after_name ts in
    if is t.type Token.rparen
    then is u.type Token.arrow
    else if is t.type Token.assign
    then default
    else if is t.type Token.comma
    then (if is u.type Token.rparen then first_is Token.arrow ts else is u.type Token.ident && name)
    else false
scan_paren (in_default d) (t ∷ u ∷ ts) =
    let deeper = scan_paren (in_default (d + 1)) (u ∷ ts) in
    let out = scan_paren (in_default (d - 1)) (u ∷ ts) in
    let same = scan_paren (in_default d) (u ∷ ts) in
    let name = scan_paren after_name ts in
    if opens t.type
    then deeper
    else if closes t.type
    then (if d == 0 then is t.type Token.rparen && is u.type Token.arrow else out)
    else if is t.type Token.comma && (d == 0)
    then (if is u.type Token.rparen then first_is Token.arrow ts else is u.type Token.ident && name)
    else if ends_line t.type
    then false
    else same

unfoldable pub starts_paren_function_params : Parser → Bool
unfolding scan_paren
starts_paren_function_params p =
    at Token.lparen p && (at_n 1 Token.ident p && scan_paren after_name (drop 1 p.rest))

module _ {S : Type 0} (statements : Statements S) (unary : Parse (Expr S)) where
  -- A parameter, and `more` behind it.
  unfoldable pub function_param :
      (Token → (Params S → Params S) → Parse (Params S)) → Parse (Params S)
  unfolding expect_name nil_coalesce
  function_param more p = bind (expect_name (codes "expected function parameter") p) (λ name q.
      if at Token.assign q
      then bind (nil_coalesce unary (next q)) (λ default r. more name (optional name default) r)
      else more name (required name) q)

  -- The loops of `functionParams` and `parenFunctionParams` up to the end `close`, where a comma may
  -- stand last.
  unfoldable pub params_to : (fuel : ℕ) → (close : TokenType) → Parse (Params S)
  unfolding function_param
  params_to zero close p = out_of_fuel
  params_to (suc n) close p =
      function_param
        (λ name add q.
          if at Token.comma q
          then (if at close (next q)
              then ok (add no_params) (next q)
              else bind (params_to n close (next q)) (λ ps r. ok (add ps) r))
          else ok (add no_params) q)
        p

  abbrev skip_arrow : Parser → Parser
  skip_arrow p = if at Token.arrow p then next p else p

  -- `functionParams`.
  unfoldable pub function_params : Parse (Params S)
  unfolding params_to
  function_params p =
      bind (params_to (suc (length p.rest)) Token.arrow p) (λ ps q. ok ps (skip_arrow q))

  -- `parenFunctionParams`, from its parenthesis on.
  unfoldable pub paren_function_params : Parse (Params S)
  unfolding params_to
  paren_function_params p = bind (params_to (suc (length p.rest)) Token.rparen (next p)) (λ ps q.
      bind (must_match Token.rparen (codes "expected ')'") ps q) (λ ps' r. ok ps' (skip_arrow r)))

  abbrev whole : Expr S → Bool
  whole (func_lit ps b) = true
  whole (control s) = true
  whole _ = false

  -- `exprLine`, behind `expr`.
  unfoldable pub line_end : Expr S → Parse (Expr S)
  unfolding starts_expr
  line_end ex p =
      let q = record p { continued_line = false } in
      if whole ex
      then ok ex q
      else if not p.continued_line && starts_expr q
      then err (codes "no-paren calls are not in Tya; use parentheses") q
      else ok ex q

  -- `finishFunc`, over `exprLine`.
  unfoldable pub finish_func : Parse (Expr S) → Params S → Parse (Expr S)
  finish_func expr_line ps p =
      if at Token.newline p && at_n 1 Token.indent p
      then bind (statements.func_body (next (next p))) (λ body q. ok (func_lit ps (block body)) q)
      else bind (expr_line p) (λ ex q. ok (func_lit ps (result ex)) q)

  abbrev arrow_params : Expr S → Parse (Params S)
  arrow_params (ident name tok) p = ok (required tok no_params) p
  arrow_params _ p = err (codes "function parameters must be identifiers") p

  -- `exprWithCommaFunc`. A function's result may be a function: on fuel, one for each token.
  unfoldable pub expr_with_comma_func : (fuel : ℕ) → (allow_comma : Bool) → Parse (Expr S)
  unfolding starts_function_params starts_paren_function_params function_params
      paren_function_params finish_func nil_coalesce line_end
  expr_with_comma_func zero allow p = out_of_fuel
  expr_with_comma_func (suc n) allow p =
      let expr_line = λ (q : Parser). bind (expr_with_comma_func n true q) line_end in
      elim (starts_function_params allow p) [
        | true ↦ bind (function_params p) (λ ps q. finish_func expr_line ps q)
        | false ↦ elim (starts_paren_function_params p) [
          | true ↦ bind (paren_function_params p) (λ ps q. finish_func expr_line ps q)
          | false ↦ bind (nil_coalesce unary p) (λ left q.
              if at Token.arrow q
              then bind (arrow_params left (next q)) (λ ps r. finish_func expr_line ps r)
              else ok left q)
        ]
      ]

  -- `exprNoCommaFunc` if commas are not allowed, and else `expr`.
  unfoldable pub expr : (allow_comma : Bool) → Parse (Expr S)
  unfolding expr_with_comma_func
  expr allow p = expr_with_comma_func (suc (length p.rest)) allow p

  -- `exprLine`.
  unfoldable pub expr_line : Parse (Expr S)
  unfolding expr line_end
  expr_line p = bind (expr true p) line_end

  -- `finishFunc` without parameters.
  unfoldable pub finish_plain_func : Parse (Expr S)
  unfolding finish_func expr_line
  finish_plain_func p = finish_func expr_line no_params p

-- ===== src/Parser/Call.antt =====
-- internal/parser/parser.go: `call`, what may follow a primary expression.
use tya.Prelude.{ℕ, zero, suc, Bool, true, false, not, ◌&&◌, ◌||◌, if◌then◌else◌, codes, length}
use tya.Token
use tya.Token.{TokenType, Token, is}
use tya.Ast.{
  Expr, member_expr, index_expr, call_expr, CallArgs, no_args, positional, keyword, expanded,
}
use tya.Parser.State.{
  Parser, Outcome, Parse, ok, fail, out_of_fuel, bind, next, at, at_n, err, must_match,
  expect_callable_ident,
}
use tya.Parser.Recovery.{skip_to_comma_or_close}

-- What is read is added by `add`; after an error, which is recorded, nothing is, and the parser
-- stands at a comma or the end of the list.
abbrev pub recovered :
    {A B : Type 0} → TokenType → Outcome A → (A → B → B) → ((B → B) → Parse B) → Outcome B
recovered close (ok a p) add go = go (add a) p
recovered close (fail p) add go = go (λ b. b) (skip_to_comma_or_close close p)
recovered close out_of_fuel add go = out_of_fuel

-- Behind an element of a list: a comma and more, unless the list ends behind it.
abbrev pub after_element : {B : Type 0} → TokenType → B → Parse B → (B → B) → Parse B
after_element close empty more add p =
    if at Token.comma p
    then (if at close (next p)
        then ok (add empty) (next p)
        else bind (more (next p)) (λ b q. ok (add b) q))
    else ok (add empty) p

-- `skipNewlines`.
unfoldable pub skip_newlines : (fuel : ℕ) → Parser → Parser
skip_newlines zero p = p
skip_newlines (suc n) p = if at Token.newline p then skip_newlines n (next p) else p

-- A line that goes on with a `.`.
unfoldable pub dot_ahead : Parser → Bool
dot_ahead p =
    at Token.newline p && (at_n 1 Token.dot p || (at_n 1 Token.indent p && at_n 2 Token.dot p))

-- An indented block of keyword arguments.
unfoldable pub args_ahead : Parser → Bool
args_ahead p =
    at Token.newline p && (at_n 1 Token.indent p && (at_n 2 Token.ident p && at_n 3 Token.colon p))

-- `NAME < NAME >`.
unfoldable pub angle_ahead : Parser → Bool
angle_ahead p =
    at Token.ident p && (at_n 1 Token.lt p && (at_n 2 Token.ident p && at_n 3 Token.gt p))

module _ {S : Type 0} where
  -- The loop over the arguments, over `exprNoCommaFunc`.
  unfoldable pub call_args :
      (fuel : ℕ) → Parse (Expr S) → (seen_keyword : Bool) → Parse (CallArgs S)
  unfolding skip_to_comma_or_close
  call_args zero expr seen p = out_of_fuel
  call_args (suc n) expr seen p =
      let rest = λ (s : Bool). after_element Token.rparen no_args (call_args n expr s) in
      if at Token.ident p && at_n 1 Token.colon p
      then recovered Token.rparen (expr (next (next p))) (keyword p.tok.lexeme p.tok) (rest true)
      else if at Token.star p && at_n 1 Token.star p
      then recovered Token.rparen (expr (next (next p))) expanded (rest true)
      else if seen
      then err (codes "positional argument after keyword argument") p
      else if at Token.star p
      then err (codes "splat call syntax is not part of Tya v1.0.0") p
      else recovered Token.rparen (expr p) positional (rest false)

  -- The arguments, from behind the parenthesis to the next.
  unfoldable pub arguments : Parse (Expr S) → Parse (CallArgs S)
  unfolding call_args
  arguments expr p =
      bind
        (if at Token.rparen p then ok no_args p else call_args (suc (length p.rest)) expr false p)
        (λ args q. must_match Token.rparen (codes "expected ')'") args q)

  -- The loop of `keywordArgBlock`, over `exprLine`.
  unfoldable pub block_args : (fuel : ℕ) → Parse (Expr S) → Parse (CallArgs S)
  unfolding skip_newlines
  block_args zero expr_line p = out_of_fuel
  block_args (suc n) expr_line p =
      let more = λ (q : Parser). block_args n expr_line (skip_newlines (suc (length q.rest)) q) in
      if at Token.dedent p || at Token.eof p
      then ok no_args p
      else if not (at Token.ident p && at_n 1 Token.colon p)
      then err (codes "expected keyword argument") p
      else bind (expr_line (next (next p))) (λ arg q.
        if not (at Token.newline q || (at Token.dedent q || at Token.eof q))
        then err (codes "expected newline after keyword argument") q
        else bind (more q) (λ args r. ok (keyword p.tok.lexeme p.tok arg args) r))

  unfoldable pub keyword_arg_block : Parse (Expr S) → Parse (CallArgs S)
  unfolding block_args skip_newlines
  keyword_arg_block expr_line p =
      let q = skip_newlines (suc (length p.rest)) p in
      bind (block_args (suc (length q.rest)) expr_line q)
        (λ args r. must_match Token.dedent (codes "expected dedent after keyword arguments") args r)

  -- The dedents of lines that went on.
  unfoldable pub close_continuations : (indents : ℕ) → Expr S → Parse (Expr S)
  close_continuations zero ex p = ok ex p
  close_continuations (suc n) ex p =
      if at Token.newline p && at_n 1 Token.dedent p
      then close_continuations n ex (record (next (next p)) { continued_line = true })
      else ok ex p

  module _ (expr_no_comma expr expr_line : Parse (Expr S)) where
    -- The loop of `call`; `indents` counts the continued lines.
    unfoldable pub call_rest : (fuel : ℕ) → (indents : ℕ) → Expr S → Parse (Expr S)
    unfolding dot_ahead args_ahead arguments keyword_arg_block close_continuations
        expect_callable_ident
    call_rest zero indents ex p = out_of_fuel
    call_rest (suc n) indents ex p =
        let further = dot_ahead p in
        let deeper = further && at_n 1 Token.indent p in
        let q = (if deeper then next (next p) else if further then next p else p) in
        let depth = (if deeper then suc indents else indents) in
        if at Token.dot q
        then bind (expect_callable_ident (codes "expected property name") (next q))
            (λ name r. call_rest n depth (member_expr ex name.lexeme name) r)
        else if at Token.lparen q
        then bind (arguments expr_no_comma (next q))
            (λ args r. call_rest n depth (call_expr ex args) r)
        else if args_ahead q
        then bind (keyword_arg_block expr_line (next (next q)))
            (λ args r. call_rest n depth (call_expr ex args) r)
        else if at Token.lbracket q
        then bind (expr (next q)) (λ index r.
          if at Token.colon r
          then err (codes "slice syntax is not part of Tya v1.0.0; use .slice(...)") r
          else bind (must_match Token.rbracket (codes "expected ']'") index r)
              (λ i s. call_rest n depth (index_expr ex i) s))
        else close_continuations depth ex q

    -- `call`, over `primary`.
    unfoldable pub call : (primary : Parse (Expr S)) → Parse (Expr S)
    unfolding call_rest angle_ahead
    call primary p =
        if angle_ahead p
          && (at_n 4 Token.lparen p || (at_n 4 Token.newline p || at_n 4 Token.eof p))
        then err (codes "generic type-parameter syntax is not part of Tya v1.0.0") p
        else bind (primary p) (λ ex q. call_rest (suc (length q.rest)) 0 ex q)

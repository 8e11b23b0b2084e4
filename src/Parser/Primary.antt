-- ===== src/Parser/Primary.antt =====
-- internal/parser/parser.go: `primary` and `unary`.
use tya.Prelude.{
  ℕ, zero, suc, ◌^◌, Bool, true, false, ◌&&◌, ◌||◌, List, [], ◌∷◌, if◌then◌else◌, ltb, Bytes, codes,
  length,
}
use tya.Text.{bytes_eq}
use tya.Dict.{contains}
use tya.Token
use tya.Token.{TokenType, Token, is}
use tya.Ast
use tya.Ast.{Expr, Exprs, no_exprs, more_exprs, Props, no_props, more_props}
use tya.Lexer.Number.Value.{decimal_from}
use tya.Parser.State.{
  Parser, Parse, ok, out_of_fuel, bind, next, at, at_n, err, must_match, is_word, expect_name,
  reject_reserved_name, with_mark,
}
use tya.Parser.Recovery.{skip_to_comma_or_close}
use tya.Parser.Call.{recovered, after_element, call}
use tya.Parser.Function.{Statements, expr, expr_line, finish_plain_func}

-- The value that `strconv.ParseInt` gives for a text of digits, as the parser ignores its error.
abbrev pub int_value : Bytes → ℕ
int_value s = let n = decimal_from 0 s in if ltb n (2 ^ 63) then n else 9223372036854775807

abbrev pub control_words : List Bytes
control_words = codes "if" ∷ codes "while" ∷ codes "for" ∷ codes "match" ∷ []

-- `dictLiteralKeyAhead`.
unfoldable pub dict_literal_key_ahead : Parser → Bool
dict_literal_key_ahead p = (at Token.ident p || at Token.string p) && at_n 1 Token.colon p

-- A unary operator.
abbrev pub is_prefix : Token → Bool
unfolding is_word
is_prefix t = is_word (codes "not") t || (is t.type Token.minus || is t.type Token.tilde)

module _ {S : Type 0} where
  -- The loop over the elements of an array, over `expr`.
  unfoldable pub elements : (fuel : ℕ) → Parse (Expr S) → Parse (Exprs S)
  unfolding skip_to_comma_or_close
  elements zero expr p = out_of_fuel
  elements (suc n) expr p =
      recovered Token.rbracket (expr p) more_exprs
        (after_element Token.rbracket no_exprs (elements n expr))

  unfoldable pub array_literal : Parse (Expr S) → Parse (Expr S)
  unfolding elements
  array_literal expr p =
      bind (if at Token.rbracket p then ok no_exprs p else elements (suc (length p.rest)) expr p)
        (λ es q. must_match Token.rbracket (codes "expected ']'") (Ast.array_lit es) q)

  -- The loop of `dictLiteral`.
  unfoldable pub dict_props : (fuel : ℕ) → Parse (Expr S) → Parse (Props S)
  unfolding dict_literal_key_ahead skip_to_comma_or_close
  dict_props zero expr p = out_of_fuel
  dict_props (suc n) expr p =
      if dict_literal_key_ahead p
      then recovered Token.rbrace (expr (next (next p))) (more_props p.tok.lexeme p.tok)
          (after_element Token.rbrace no_props (dict_props n expr))
      else err (codes "cannot mix dict entries and set entries in one literal") p

  -- `curlyLiteral` and `dictLiteral`.
  unfoldable pub curly_literal : Parse (Expr S) → Parse (Expr S)
  unfolding dict_props dict_literal_key_ahead
  curly_literal expr p =
      if at Token.rbrace p
      then ok (Ast.dict_lit no_props) (next p)
      else if dict_literal_key_ahead p
      then bind (dict_props (suc (length p.rest)) expr p)
          (λ ps q. must_match Token.rbrace (codes "expected '}'") (Ast.dict_lit ps) q)
      else err (codes "set literals are not in Tya v0.1") p

  -- An identifier that is no keyword of statements, behind it.
  unfoldable pub name_expr : Token → Parse (Expr S)
  unfolding bytes_eq reject_reserved_name
  name_expr tok p =
      if at Token.question p || at Token.bang p
      then ok (Ast.ident (with_mark tok p.tok).lexeme (with_mark tok p.tok)) (next p)
      else if bytes_eq tok.lexeme (codes "true")
      then ok (Ast.bool_lit true) p
      else if bytes_eq tok.lexeme (codes "false")
      then ok (Ast.bool_lit false) p
      else if bytes_eq tok.lexeme (codes "nil")
      then ok Ast.nil_lit p
      else if bytes_eq tok.lexeme (codes "super")
      then ok (Ast.super_expr tok) p
      else if bytes_eq tok.lexeme (codes "self")
      then ok (Ast.self_expr tok false) p
      else if bytes_eq tok.lexeme (codes "Self")
      then ok (Ast.self_expr tok true) p
      else reject_reserved_name tok (ok (Ast.ident tok.lexeme tok)) p

  -- `strconv.ParseFloat` is a parameter: the bits of the value that it gives for a text.
  module _ (parse_float : Bytes → ℕ) (statements : Statements S) where
    module _ (unary : Parse (Expr S)) where
      -- A parenthesis, behind it.
      unfoldable pub parenthesized : Parse (Expr S)
      unfolding expr finish_plain_func
      parenthesized p =
          if at Token.rparen p
          then (if at Token.arrow (next p)
              then finish_plain_func statements unary (next (next p))
              else err (codes "expected expression") (next p))
          else bind (expr statements unary true p)
              (λ ex q. must_match Token.rparen (codes "expected ')'") ex q)

      -- `@name` and `@@name`, behind the first `@`.
      unfoldable pub field_expr : Parse (Expr S)
      unfolding expect_name
      field_expr p =
          if at Token.at p
          then bind (expect_name (codes "expected class variable name") (next p))
              (λ name q. ok (Ast.class_var_expr name.lexeme name) q)
          else bind (expect_name (codes "expected instance field name") p)
              (λ name q. ok (Ast.instance_field_expr name.lexeme name) q)

      unfoldable pub primary : Parse (Expr S)
      unfolding contains name_expr parenthesized field_expr array_literal curly_literal
          finish_plain_func expr
      primary p =
          let tok = p.tok in
          let q = next p in
          elim tok.type [
            | Token.at ↦ field_expr q
            | Token.ident ↦
                if contains control_words tok.lexeme
                then bind (statements.after_keyword tok q) (λ s r. ok (Ast.control s) r)
                else name_expr tok q
            | Token.int ↦ ok (Ast.int_lit (int_value tok.lexeme)) q
            | Token.float ↦ ok (Ast.float_lit (parse_float tok.lexeme)) q
            | Token.string ↦ ok (Ast.string_lit tok.lexeme tok.string_form tok.lang tok.marker) q
            | Token.bytes ↦ ok (Ast.bytes_lit tok.lexeme tok.string_form tok.marker) q
            | Token.lparen ↦ parenthesized q
            | Token.lbracket ↦ array_literal (expr statements unary true) q
            | Token.lbrace ↦ curly_literal (expr statements unary true) q
            | Token.arrow ↦ finish_plain_func statements unary q
            | _ ↦ err (codes "expected expression") q
          ]

    -- `unary`: each call below it is behind another token.
    unfoldable pub unary : (fuel : ℕ) → Parse (Expr S)
    unfolding is_word call primary expr expr_line
    unary zero p = out_of_fuel
    unary (suc n) p =
        if is_word (codes "try") p.tok
        then err (codes "try expressions are not part of Tya v1.0.0; use try as a statement") p
        else if is_word (codes "spawn") p.tok
        then bind (unary n (next p)) (λ ex q. ok (Ast.spawn_expr ex p.tok) q)
        else if is_word (codes "await") p.tok
        then bind (unary n (next p)) (λ ex q. ok (Ast.await_expr ex p.tok) q)
        else if is_prefix p.tok
        then bind (unary n (next p)) (λ ex q. ok (Ast.unary_expr p.tok ex) q)
        else call (expr statements (unary n) false) (expr statements (unary n) true)
            (expr_line statements (unary n)) (primary (unary n)) p

    -- `expr`, for a parser that stands in front of so many tokens.
    unfoldable pub parse_expr : Parse (Expr S)
    unfolding expr unary
    parse_expr p = expr statements (unary (suc (suc (length p.rest)))) true p

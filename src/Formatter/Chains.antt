-- ===== src/Formatter/Chains.antt =====
-- internal/parser/parser.go: how `call` and `unary` read.
use tya.Prelude.{ℕ, zero, suc, ◌<◌, ◌≤◌, true, false, List, [], ◌∷◌, ◌≡◌, ◌∙◌, arith, length}
use tya.Token
use tya.Token.{Token, is}
use tya.Ast
use tya.Ast.{Expr, CallArgs}
use tya.Parser.State.{Parser, Parse, ok, at, expect_callable_ident}
use tya.Parser.Call.{
  dot_ahead, args_ahead, angle_ahead, arguments, call_rest, call, close_continuations,
}
use tya.Formatter.Unparse.{sign}
use tya.Formatter.Feed.{push, Quiet, QuietTokens, Quiet-Inert, angles}

-- What may stand behind an operand: nothing that `call` would take, also on the next line.
pub record Calm (p : Parser) : Type 0 where
  pub no_lparen : at Token.lparen p ≡ false
  pub no_lbracket : at Token.lbracket p ≡ false
  pub no_dot : at Token.dot p ≡ false
  pub no_dot_ahead : dot_ahead p ≡ false
  pub no_args_ahead : args_ahead p ≡ false

Quiet-angle_ahead : (p : Parser) → Quiet p → angle_ahead p ≡ false
unfolding angle_ahead angles QuietTokens
Quiet-angle_ahead p h = tokens-angles p.tok p.rest h
  where
    tokens-angles : (t : Token) (ts : List Token) → QuietTokens t ts → angles t ts ≡ false
    tokens-angles t [] (i, a) = a
    tokens-angles t (u ∷ us) (i, a, h) = a

module _ {S : Type 0} (expr_no_comma expr expr_line : Parse (Expr S)) where
  abbrev Rest : ℕ → Expr S → Parse (Expr S)
  Rest n e p = call_rest expr_no_comma expr expr_line n 0 e p

  module _ (primary : Parse (Expr S)) where
    -- From `p`, `call` comes to stand in its loop, behind `e`.
    abbrev pub InChain : Parser → Expr S → Parser → Type 0
    InChain p e q =
        (n : ℕ) × (length q.rest < n)
        × (call expr_no_comma expr expr_line primary p
            ≡ call_rest expr_no_comma expr expr_line n 0 e q)

    pub start-InChain :
        (p : Parser) (e : Expr S) (q : Parser) → Quiet p → primary p ≡ ok e q → InChain p e q
    unfolding call
    start-InChain p e q quiet h =
        (suc (length q.rest), omega arith, rw (Quiet-angle_ahead p quiet, h))

    pub end-InChain :
        (p : Parser) (e : Expr S) (q : Parser)
        → InChain p e q
        → Quiet q
        → Calm q
        → call expr_no_comma expr expr_line primary p ≡ ok e q
    unfolding call_rest
    end-InChain p e q (zero, short, h) quiet calm = absurd (omega arith)
    end-InChain p e q (suc n, short, h) quiet calm =
        h
        ∙ rw (
          call_rest, calm.no_dot_ahead, calm.no_dot, calm.no_lparen, calm.no_args_ahead,
          calm.no_lbracket, close_continuations,
        )

    pub member-InChain :
        (p : Parser) (e : Expr S) (name : Token) (q : Parser)
        → InChain p e (push (sign Token.dot) (push name q))
        → is name.type Token.ident ≡ true
        → Quiet q
        → InChain p (Ast.member_expr e name.lexeme name) q
    unfolding call_rest expect_callable_ident dot_ahead
    member-InChain p e name q (zero, short, h) i quiet = absurd (omega arith)
    member-InChain p e name q (suc n, short, h) i quiet =
        let next = Quiet-Inert q quiet in
        (n, omega arith, h ∙ rw (call_rest, i, next.no_question, next.no_bang))

    pub index-InChain :
        (p : Parser) (e : Expr S) (r : Parser) (i : Expr S) (q : Parser)
        → InChain p e (push (sign Token.lbracket) r)
        → expr r ≡ ok i (push (sign Token.rbracket) q)
        → length q.rest ≤ length r.rest
        → InChain p (Ast.index_expr e i) q
    unfolding call_rest dot_ahead args_ahead
    index-InChain p e r i q (zero, short, h) hi le = absurd (omega arith)
    index-InChain p e r i q (suc n, short, h) hi le = (n, omega arith, h ∙ rw (call_rest, hi))

    pub call-InChain :
        (p : Parser) (e : Expr S) (r : Parser) (args : CallArgs S) (q : Parser)
        → InChain p e (push (sign Token.lparen) r)
        → arguments expr_no_comma r ≡ ok args q
        → length q.rest ≤ length r.rest
        → InChain p (Ast.call_expr e args) q
    unfolding call_rest dot_ahead args_ahead
    call-InChain p e r args q (zero, short, h) ha le = absurd (omega arith)
    call-InChain p e r args q (suc n, short, h) ha le = (n, omega arith, h ∙ rw (call_rest, ha))

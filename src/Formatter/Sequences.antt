-- ===== src/Formatter/Sequences.antt =====
-- internal/parser/parser.go: how the elements of arrays and the arguments of calls are read.
use tya.Prelude.{
  ℕ, zero, suc, ◌<◌, ◌≤◌, true, false, [], ◌∷◌, ◌++◌, ◌≡◌, refl, arith, length, sym, subst, ◌&&◌,
  append-nil, Bytes,
}
use tya.Token
use tya.Token.{Token, is}
use tya.Ast
use tya.Ast.{Expr, Exprs, no_exprs, more_exprs, CallArgs, no_args, positional}
use tya.Parser.State.{Parser, ok, at, at_n}
use tya.Parser.Call.{call_args, arguments}
use tya.Parser.Function.{Statements}
use tya.Parser.Primary.{elements}
use tya.Formatter.Unparse.{Pieces, blank, mark, sign}
use tya.Formatter.Feed.{
  push, feed, count, feed-append, count-append, length-feed, Quiet, push-Quiet, feed-Quiet,
}
use tya.Formatter.Quiet.{nth-Inert}
use tya.Formatter.Reading.{no_comma, full, at_atom, ReadsAt, AtomAt, rparen, rbracket, comma}
use tya.Formatter.Primaries.{atom-array}
use tya.Formatter.Postfix.{full-closed, ArgsAt}

-- What no expression begins with.
pub record Head (p : Parser) : Type 0 where
  pub no_rparen : at Token.rparen p ≡ false
  pub no_rbracket : at Token.rbracket p ≡ false
  pub no_star : at Token.star p ≡ false

abbrev pub Heads : Pieces → Type 0
Heads ps = (q : Parser) → Head (feed ps q)

no_keyword : (p : Parser) → Quiet p → (at Token.ident p && at_n 1 Token.colon p) ≡ false
no_keyword p h = let i = nth-Inert 1 p.tok p.rest h in ground (arith, i.no_colon)

module _ {S : Type 0} (parse_float : Bytes → ℕ) (statements : Statements S) where
  -- The loop over the elements, up to the end.
  abbrev pub ElemsAt : Pieces → Exprs S → Type 0
  ElemsAt ps es =
      (n m : ℕ) (q : Parser)
      → count ps < n
      → count ps < m
      → (let p = push (sign Token.rbracket) q in
          Quiet (feed ps p) → elements m (full parse_float statements n) (feed ps p) ≡ ok es p)

  pub one-ElemsAt :
      (ps : Pieces) (e : Expr S) (b : ℕ)
      → b ≤ 10
      → ReadsAt parse_float statements ps e b
      → ElemsAt (ps ++ []) (more_exprs e no_exprs)
  unfolding elements
  one-ElemsAt ps e b le h = rw (append-nil ps) one
    where
      one : ElemsAt ps (more_exprs e no_exprs)
      one n zero q fuel short quiet = absurd (omega arith)
      one n (suc m) q fuel short quiet = rw (
          full-closed parse_float statements ps e b Token.rbracket true rbracket le h n q fuel
            quiet)

  pub more-ElemsAt :
      (ps pe : Pieces) (e : Expr S) (es : Exprs S) (b : ℕ)
      → b ≤ 10
      → ReadsAt parse_float statements ps e b
      → Heads pe
      → ElemsAt pe es
      → ElemsAt (ps ++ (mark Token.comma ∷ blank ∷ pe)) (more_exprs e es)
  unfolding elements feed count
  more-ElemsAt ps pe e es b le h heads hs n zero q fuel short quiet = absurd (omega arith)
  more-ElemsAt ps pe e es b le h heads hs n (suc m) q fuel short quiet =
      let last = push (sign Token.rbracket) q in
      let cut = feed-append ps (mark Token.comma ∷ blank ∷ pe) last in
      let counted = count-append ps (mark Token.comma ∷ blank ∷ pe) in
      let r = feed pe last in
      let quiet' : Quiet (feed ps (push (sign Token.comma) r)) = subst Quiet cut quiet in
      let quiet_r =
        push-Quiet (sign Token.comma) r (feed-Quiet ps (push (sign Token.comma) r) quiet') in
      let head = heads last in
      subst (λ p. elements (suc m) (full parse_float statements n) p ≡ ok (more_exprs e es) last)
        (sym cut)
        (rw (
          full-closed parse_float statements ps e b Token.comma true comma le h n r
              (omega (arith, fuel, counted)) quiet',
          head.no_rbracket,
          hs n m q (omega (arith, fuel, counted)) (omega (arith, short, counted)) quiet_r,
        ))

  -- The loop over the arguments, up to the end.
  abbrev pub ArgListAt : Pieces → CallArgs S → Type 0
  ArgListAt ps args =
      (n m : ℕ) (q : Parser)
      → count ps < n
      → count ps < m
      → (let p = push (sign Token.rparen) q in
          Quiet (feed ps p)
          → call_args m (no_comma parse_float statements n) false (feed ps p) ≡ ok args p)

  pub one-ArgListAt :
      (ps : Pieces) (e : Expr S) (b : ℕ)
      → b ≤ 10
      → ReadsAt parse_float statements ps e b
      → Heads ps
      → ArgListAt (ps ++ []) (positional e no_args)
  unfolding call_args
  one-ArgListAt ps e b le h heads = rw (append-nil ps) one
    where
      one : ArgListAt ps (positional e no_args)
      one n zero q fuel short quiet = absurd (omega arith)
      one n (suc m) q fuel short quiet =
          let head = heads (push (sign Token.rparen) q) in
          rw (
            no_keyword (feed ps (push (sign Token.rparen) q)) quiet,
            head.no_star,
            full-closed parse_float statements ps e b Token.rparen false rparen le h n q fuel quiet,
          )

  pub more-ArgListAt :
      (ps pa : Pieces) (e : Expr S) (args : CallArgs S) (b : ℕ)
      → b ≤ 10
      → ReadsAt parse_float statements ps e b
      → Heads ps
      → Heads pa
      → ArgListAt pa args
      → ArgListAt (ps ++ (mark Token.comma ∷ blank ∷ pa)) (positional e args)
  unfolding call_args feed count
  more-ArgListAt ps pa e args b le h heads heads_a hs n zero q fuel short quiet =
      absurd (omega arith)
  more-ArgListAt ps pa e args b le h heads heads_a hs n (suc m) q fuel short quiet =
      let last = push (sign Token.rparen) q in
      let cut = feed-append ps (mark Token.comma ∷ blank ∷ pa) last in
      let counted = count-append ps (mark Token.comma ∷ blank ∷ pa) in
      let r = feed pa last in
      let p = feed ps (push (sign Token.comma) r) in
      let quiet' : Quiet p = subst Quiet cut quiet in
      let quiet_r =
        push-Quiet (sign Token.comma) r (feed-Quiet ps (push (sign Token.comma) r) quiet') in
      let head = heads (push (sign Token.comma) r) in
      let behind = heads_a last in
      subst
        (λ p.
          call_args (suc m) (no_comma parse_float statements n) false p
          ≡ ok (positional e args) last)
        (sym cut)
        (rw (
          no_keyword p quiet',
          head.no_star,
          full-closed parse_float statements ps e b Token.comma false comma le h n r
              (omega (arith, fuel, counted)) quiet',
          behind.no_rparen,
          hs n m q (omega (arith, fuel, counted)) (omega (arith, short, counted)) quiet_r,
        ))

  pub list-ArgsAt :
      (ps : Pieces) (args : CallArgs S)
      → Heads ps
      → ArgListAt ps args
      → ArgsAt parse_float statements ps args
  unfolding arguments
  list-ArgsAt ps args heads h n q fuel quiet =
      let p = push (sign Token.rparen) q in
      let head = heads p in
      rw (
        head.no_rparen,
        h n (suc (length (feed ps p).rest)) q fuel (omega (arith, length-feed ps p)) quiet,
      )

  pub no-ArgsAt : ArgsAt parse_float statements [] no_args
  unfolding arguments feed
  no-ArgsAt n q fuel quiet = refl

  pub list-AtomAt :
      (ps : Pieces) (es : Exprs S)
      → Heads ps
      → ElemsAt ps es
      → AtomAt parse_float statements
          (mark Token.lbracket ∷ (ps ++ mark Token.rbracket ∷ []))
          (Ast.array_lit es)
  unfolding feed count
  list-AtomAt ps es heads h n q fuel quiet =
      let p = push (sign Token.rbracket) q in
      let cut = feed-append ps (mark Token.rbracket ∷ []) q in
      let counted = count-append ps (mark Token.rbracket ∷ []) in
      let quiet' : Quiet (push (sign Token.lbracket) (feed ps p)) =
        subst (λ x. Quiet (push (sign Token.lbracket) x)) cut quiet in
      let head = heads p in
      subst
        (λ x.
          at_atom parse_float statements n (push (sign Token.lbracket) x) ≡ ok (Ast.array_lit es) q)
        (sym cut)
        (atom-array parse_float statements n (feed ps p) es q head.no_rbracket (
          h n (suc (length (feed ps p).rest)) q (omega (arith, fuel, counted))
            (omega (arith, length-feed ps p))
            (push-Quiet (sign Token.lbracket) (feed ps p) quiet')))

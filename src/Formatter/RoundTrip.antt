-- ===== src/Formatter/RoundTrip.antt =====
-- internal/formatter/unparse.go, `lexLine` of internal/lexer/lexer.go and
-- internal/parser/parser.go: what the parser reads from the text that the formatter writes.
use tya.Prelude.{
  ℕ, suc, true, false, [], ◌≡◌, none, some, refl, sym, ap, ◌∙◌, arith, length, subst, Bytes,
}
use tya.Ast
use tya.Ast.{Expr, Exprs, CallArgs}
use tya.Parser.State.{Parser, ok}
use tya.Parser.Levels.{op_level}
use tya.Parser.Function.{Statements}
use tya.Parser.Primary.{parse_expr}
use tya.Formatter.Unparse.{
  Texts, pieces, elem_pieces, arg_pieces, has_text, args_have_text, elems_have_text, unparse_expr,
  text_of,
}
use tya.Formatter.Feed.{
  in_front, lexed, feed-in_front, feed, length-feed, quiet, quiet-Quiet, feed-Quiet,
}
use tya.Formatter.Apart.{Apart}
use tya.Formatter.Apart.Lines.{Apart-lexed}
use tya.Lexer.State.{new_lexer}
use tya.Lexer.Line.{lex_line}
use tya.Formatter.Quiet.{expr-level}
use tya.Formatter.Loops.{none-Ends}
use tya.Formatter.Chains.{Calm}
use tya.Formatter.Sequences
use tya.Formatter.Sequences.{Heads}
use tya.Formatter.Postfix
use tya.Formatter.Reading
use tya.Formatter.Readable
use tya.Formatter.Readable.{
  Readable, ReadableElems, ReadableArgs, ReadableArgList, rank, name, int, truth, nothing, myself,
  parent, operation, prefix, spawn, await, member, index, call, no_array, array, one_elem,
  more_elems, none_given, given, one_arg, more_args,
}
use tya.Formatter.Read.{Read, Heads-append}
use tya.Formatter.Leaves
use tya.Formatter.Composites

module _ {S : Type 0} (parse_float : Bytes → ℕ) (statements : Statements S) (u : Texts) where
  abbrev ElemsRead : Exprs S → Type 0
  ElemsRead es =
      Heads (elem_pieces u true es)
      × Sequences.ElemsAt parse_float statements (elem_pieces u true es) es

  abbrev ArgsRead : CallArgs S → Type 0
  ArgsRead args =
      Heads (arg_pieces u true args)
      × Sequences.ArgListAt parse_float statements (arg_pieces u true args) args

  one_elem-ElemsRead :
      (e : Expr S) (b : ℕ)
      → Read parse_float statements u e b
      → ElemsRead (Ast.more_exprs e Ast.no_exprs)
  unfolding pieces
  one_elem-ElemsRead e b h = (
    Heads-append (pieces u e) [] h.heads,
    Sequences.one-ElemsAt parse_float statements (pieces u e) e b h.small h.reads,
  )

  more_elems-ElemsRead :
      (e : Expr S) (b : ℕ) {es : Exprs S}
      → ReadableElems u es
      → Read parse_float statements u e b
      → ElemsRead es
      → ElemsRead (Ast.more_exprs e es)
  unfolding pieces
  more_elems-ElemsRead e b {es} r h (heads, hs) = rw (Readable.elem-pieces u r) (
    Heads-append (pieces u e) _ h.heads,
    Sequences.more-ElemsAt parse_float statements (pieces u e) (elem_pieces u true es) e es b
        h.small h.reads heads hs,
  )

  one_arg-ArgsRead :
      (e : Expr S) (b : ℕ)
      → Read parse_float statements u e b
      → ArgsRead (Ast.positional e Ast.no_args)
  unfolding pieces
  one_arg-ArgsRead e b h = (
    Heads-append (pieces u e) [] h.heads,
    Sequences.one-ArgListAt parse_float statements (pieces u e) e b h.small h.reads h.heads,
  )

  more_args-ArgsRead :
      (e : Expr S) (b : ℕ) {args : CallArgs S}
      → ReadableArgList u args
      → Read parse_float statements u e b
      → ArgsRead args
      → ArgsRead (Ast.positional e args)
  unfolding pieces
  more_args-ArgsRead e b {args} r h (heads, hs) = rw (Readable.arg-pieces u r) (
    Heads-append (pieces u e) _ h.heads,
    Sequences.more-ArgListAt parse_float statements (pieces u e) (arg_pieces u true args) e args b
        h.small h.reads h.heads heads hs,
  )

  no_args_read :
      Postfix.ArgsAt parse_float statements (arg_pieces {S = S} u true Ast.no_args) Ast.no_args
  unfolding pieces
  no_args_read = Sequences.no-ArgsAt parse_float statements

  mutual
    read : {e : Expr S} (h : Readable u e) → Read parse_float statements u e (rank u h)
    read (name x line col h) = Leaves.name-Read parse_float statements u x line col h
    read (int n h) = Leaves.int-Read parse_float statements u n h
    read (truth true) = Leaves.true-Read parse_float statements u
    read (truth false) = Leaves.false-Read parse_float statements u
    read nothing = Leaves.nil-Read parse_float statements u
    read (myself true line col) = Leaves.class-Read parse_float statements u line col
    read (myself false line col) = Leaves.self-Read parse_float statements u line col
    read (parent line col) = Leaves.super-Read parse_float statements u line col
    read (operation {l = l} {r = r} o line col steady hl hr) =
        Composites.infix-Read parse_float statements u l r o line col (rank u hl) (rank u hr)
          (read hl) (read hr) (Readable.left-rank u o r hl steady)
          (Readable.right-rank u o l hr steady)
    read (prefix {e = e} o line col h) =
        Composites.unary-Read parse_float statements u e o line col (rank u h) (read h)
          (Readable.not_infix u h)
    read (spawn {e = e} line col n h) =
        Composites.spawn-Read parse_float statements u e line col
          (subst (Read parse_float statements u e) (Readable.not_infix u h n) (read h))
    read (await {e = e} line col n h) =
        Composites.await-Read parse_float statements u e line col
          (subst (Read parse_float statements u e) (Readable.not_infix u h n) (read h))
    read (member {e = e} x line col h) =
        Composites.member-Read parse_float statements u e x line col (rank u h) (read h)
    read (index {e = e} {i = i} h hi) =
        Composites.index-Read parse_float statements u e i (rank u h) (rank u hi) (read h) (read hi)
    read (call {e = e} {args = args} n h ha) =
        Composites.call-Read parse_float statements u e args (rank u h) (read h)
          (Readable.call-pieces u args h n) (read_args ha)
    read no_array = Leaves.no_array-Read parse_float statements u
    read (array {es = es} h) =
        let (heads, hs) = read_elems h in Composites.array-Read parse_float statements u es heads hs

    read_elems : {es : Exprs S} → ReadableElems u es → ElemsRead es
    read_elems (one_elem {e = e} h) = one_elem-ElemsRead e (rank u h) (read h)
    read_elems (more_elems {e = e} h hs) =
        more_elems-ElemsRead e (rank u h) hs (read h) (read_elems hs)

    read_args :
        {args : CallArgs S}
        → ReadableArgs u args
        → Postfix.ArgsAt parse_float statements (arg_pieces u true args) args
    read_args none_given = no_args_read
    read_args (given {args = args} h) =
        let (heads, hs) = read_arg_list h in
        Sequences.list-ArgsAt parse_float statements (arg_pieces u true args) args heads hs

    read_arg_list : {args : CallArgs S} → ReadableArgList u args → ArgsRead args
    read_arg_list (one_arg {e = e} h) = one_arg-ArgsRead e (rank u h) (read h)
    read_arg_list (more_args {e = e} h hs) =
        more_args-ArgsRead e (rank u h) hs (read h) (read_arg_list hs)

  mutual
    unfolding has_text

    has_text_lem : {e : Expr S} → Readable u e → has_text u e ≡ true
    has_text_lem (operation o line col steady hl hr) = rw (has_text_lem hl, has_text_lem hr) refl
    has_text_lem (prefix o line col h) = has_text_lem h
    has_text_lem (spawn line col n h) = has_text_lem h
    has_text_lem (await line col n h) = has_text_lem h
    has_text_lem (member x line col h) = has_text_lem h
    has_text_lem (index h hi) = rw (has_text_lem h, has_text_lem hi) refl
    has_text_lem (call n h ha) = rw (has_text_lem h, args_have_text_lem ha) refl
    has_text_lem (array h) = elems_have_text_lem h
    has_text_lem _ = refl

    elems_have_text_lem : {es : Exprs S} → ReadableElems u es → elems_have_text u es ≡ true
    elems_have_text_lem (one_elem h) = rw (has_text_lem h) refl
    elems_have_text_lem (more_elems h hs) = rw (has_text_lem h, elems_have_text_lem hs) refl

    args_have_text_lem : {args : CallArgs S} → ReadableArgs u args → args_have_text u args ≡ true
    args_have_text_lem none_given = refl
    args_have_text_lem (given h) = arg_list_has_text h

    arg_list_has_text : {args : CallArgs S} → ReadableArgList u args → args_have_text u args ≡ true
    arg_list_has_text (one_arg h) = rw (has_text_lem h) refl
    arg_list_has_text (more_args h hs) = rw (has_text_lem h, arg_list_has_text hs) refl

  parse_expr-feed :
      (e : Expr S) (q : Parser)
      → Readable u e
      → Calm q
      → op_level q.tok ≡ none
      → quiet (feed (pieces u e) q) ≡ true
      → parse_expr parse_float statements (feed (pieces u e) q) ≡ ok e q
  unfolding parse_expr
  parse_expr-feed e q h calm ends still =
      let r = read h in
      let p = feed (pieces u e) q in
      let silent = quiet-Quiet p still in
      expr-level statements (Reading.read_unary parse_float statements (suc (suc (length p.rest))))
        true p e q silent (feed-Quiet (pieces u e) q silent)
        (r.reads (suc (suc (length p.rest))) q (omega (arith, length-feed (pieces u e) q)) silent
          calm 10 r.small (none-Ends 10 q ends))

  -- The formatter writes a text for a readable expression. Where its words, numbers and signs stand
  -- apart and the expression notes no places, `lexLine` reads the text without an error, and the
  -- parser reads from the tokens, without their places, just that expression, and leaves what stood
  -- behind: if nothing there belongs to an expression, and neither there nor in the tokens is one of
  -- `->`, `=`, `:`, `?`, `!`, or `NAME < NAME >`.
  pub parse_expr-unparse_expr :
      (e : Expr S) (q : Parser)
      → Readable u e
      → Apart (pieces u e)
      → Calm q
      → op_level q.tok ≡ none
      → quiet (in_front (lexed (text_of (pieces u e))) q) ≡ true
      → (unparse_expr u e ≡ some (text_of (pieces u e)))
        × ((lex_line (text_of (pieces u e)) 1 1 new_lexer).errs ≡ [])
        × (parse_expr parse_float statements (in_front (lexed (text_of (pieces u e))) q) ≡ ok e q)
  unfolding unparse_expr
  parse_expr-unparse_expr e q h apart calm ends still =
      let (reads, no_errs) = Apart-lexed (pieces u e) apart in
      let same = ap (λ ts. in_front ts q) reads ∙ sym (feed-in_front (pieces u e) q) in
      (
        rw (has_text_lem h) refl,
        no_errs,
        subst (λ p. parse_expr parse_float statements p ≡ ok e q) (sym same)
            (parse_expr-feed e q h calm ends (subst (λ p. quiet p ≡ true) same still)),
      )

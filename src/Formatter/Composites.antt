-- ===== src/Formatter/Composites.antt =====
-- internal/formatter/unparse.go and internal/parser/parser.go: what the parser makes of the pieces of
-- operations, members, indices, calls and arrays.
use tya.Prelude.{
  ℕ, suc, ◌≤◌, true, false, [], ◌∷◌, ◌++◌, ◌≡◌, refl, arith, sym, subst, Bytes, codes,
}
use tya.Token
use tya.Ast
use tya.Ast.{Expr, Exprs, CallArgs}
use tya.Parser.State.{is_word}
use tya.Parser.Function.{Statements}
use tya.Formatter.Unparse.{
  Texts, Pieces, pieces, elem_pieces, arg_pieces, wrap_if, wraps, is_compound, is_binary, mark,
  blank, piece, unary_blank,
}
use tya.Formatter.Feed.{feed}
use tya.Formatter.Operators.{
  Operator, operator_text, operator_level, operator_level-le, operator_token,
}
use tya.Formatter.Reading
use tya.Formatter.Postfix
use tya.Formatter.Postfix.{PrefixOperator, negate, complement, negation, prefix_token}
use tya.Formatter.Sequences
use tya.Formatter.Sequences.{Head, Heads}
use tya.Formatter.Primaries.{word_token}
use tya.Formatter.Read.{
  Read, Heads-append, Plain-append, wrap_if-Heads, chain-Read, prefix-Read, loops-Read,
  left-LoopsAt, right-ReadsAt, atom-Read,
}

module _ {S : Type 0} (parse_float : Bytes → ℕ) (statements : Statements S) (u : Texts) where
  abbrev R : Expr S → ℕ → Type 0
  R e b = Read parse_float statements u e b

  pub infix-Read :
      (l r : Expr S) (o : Operator) (line col a b : ℕ)
      → R l a
      → R r b
      → (wraps l (operator_text o) true ≡ false → a ≤ suc (operator_level o))
      → (wraps r (operator_text o) false ≡ false → b ≤ operator_level o)
      → R (Ast.binary_expr l (operator_token o line col) r) (suc (operator_level o))
  unfolding pieces
  infix-Read l r o line col a b hl hr left right =
      let k = operator_level o in
      let op = operator_token o line col in
      let pl = wrap_if (wraps l (operator_text o) true) (pieces u l) in
      let pr = wrap_if (wraps r (operator_text o) false) (pieces u r) in
      let ps = pl ++ (blank ∷ piece op (operator_text o) ∷ blank ∷ pr) in
      let e = Ast.binary_expr l op r in
      let heads =
        Heads-append pl (blank ∷ piece op (operator_text o) ∷ blank ∷ pr)
          (wrap_if-Heads (wraps l (operator_text o) true) (pieces u l) hl.heads) in
      let loops =
        Reading.infix-LoopsAt parse_float statements pl pr l r k o line col
          (left-LoopsAt parse_float statements u (wraps l (operator_text o) true) l a k hl left)
          (right-ReadsAt parse_float statements u (wraps r (operator_text o) false) r b k hr right)
          (omega arith) in
      let bound = operator_level-le o in
      loops-Read parse_float statements u e k refl heads (omega arith) loops

  unary-Heads :
      (o : PrefixOperator) (line col : ℕ) (ps : Pieces)
      → Heads (piece (prefix_token o line col) (prefix_token o line col).lexeme ∷ ps)
  unfolding feed
  unary-Heads negate line col ps q = record { no_rparen = refl; no_rbracket = refl; no_star = refl }
  unary-Heads complement line col ps q = record {
    no_rparen = refl;
    no_rbracket = refl;
    no_star = refl;
  }
  unary-Heads negation line col ps q = record {
    no_rparen = refl;
    no_rbracket = refl;
    no_star = refl;
  }

  pub unary-Read :
      (e : Expr S) (o : PrefixOperator) (line col b : ℕ)
      → R e b
      → (is_binary e ≡ false → b ≡ 0)
      → R (Ast.unary_expr (prefix_token o line col) e) 0
  unfolding pieces
  unary-Read e o line col b h none =
      let ps = wrap_if (is_binary e) (pieces u e) in
      let t = prefix_token o line col in
      prefix-Read parse_float statements u (Ast.unary_expr t e) refl
        (unary-Heads o line col (unary_blank t ++ ps))
        (Postfix.prefix-Reads0 parse_float statements o line col ps e (
          right-ReadsAt parse_float statements u (is_binary e) e b 0 h
            (λ n. let zero_rank = none n in omega arith)))

  pub spawn-Read :
      (e : Expr S) (line col : ℕ)
      → R e 0
      → R (Ast.spawn_expr e (word_token (codes "spawn") line col)) 0
  unfolding pieces feed
  spawn-Read e line col h =
      prefix-Read parse_float statements u (Ast.spawn_expr e (word_token (codes "spawn") line col))
        refl (λ q. record { no_rparen = refl; no_rbracket = refl; no_star = refl })
        (Postfix.spawn-Reads0 parse_float statements line col (pieces u e) e h.reads)

  pub await-Read :
      (e : Expr S) (line col : ℕ)
      → R e 0
      → R (Ast.await_expr e (word_token (codes "await") line col)) 0
  unfolding pieces feed
  await-Read e line col h =
      prefix-Read parse_float statements u (Ast.await_expr e (word_token (codes "await") line col))
        refl (λ q. record { no_rparen = refl; no_rbracket = refl; no_star = refl })
        (Postfix.await-Reads0 parse_float statements line col (pieces u e) e h.reads)

  -- What follows the target of a member, an index or a call.
  postfix-Read :
      (target made : Expr S) (b : ℕ) (tail : Pieces)
      → R target b
      → is_compound made ≡ false
      → (let ps = wrap_if (is_compound target) (pieces u target) ++ tail in
          pieces u made ≡ ps → Reading.ChainsAt parse_float statements ps made → R made 0)
  postfix-Read target made b tail h n same chains =
      let ps = wrap_if (is_compound target) (pieces u target) in
      chain-Read parse_float statements u made n
        (subst Heads (sym same)
          (Heads-append ps tail (wrap_if-Heads (is_compound target) (pieces u target) h.heads)))
        (subst (λ x. Reading.StartsPlain parse_float statements x) (sym same)
          (Plain-append ps tail h.plain))
        (subst (λ x. Reading.ChainsAt parse_float statements x made) (sym same) chains)

  pub member-Read :
      (e : Expr S) (x : Bytes) (line col b : ℕ)
      → R e b
      → R (Ast.member_expr e x (word_token x line col)) 0
  unfolding pieces
  member-Read e x line col b h =
      let t = word_token x line col in
      postfix-Read e (Ast.member_expr e x t) b (mark Token.dot ∷ piece t x ∷ []) h refl refl (
        Postfix.member-ChainsAt parse_float statements (wrap_if (is_compound e) (pieces u e)) e x
          line col h.chains)

  pub index-Read : (e i : Expr S) (a b : ℕ) → R e a → R i b → R (Ast.index_expr e i) 0
  unfolding pieces
  index-Read e i a b h hi =
      postfix-Read e (Ast.index_expr e i) a
        (mark Token.lbracket ∷ (pieces u i ++ mark Token.rbracket ∷ [])) h refl refl
        (Postfix.index-ChainsAt parse_float statements (wrap_if (is_compound e) (pieces u e))
          (pieces u i) e i b h.chains hi.small hi.reads)

  pub call-Read :
      (e : Expr S) (args : CallArgs S) (b : ℕ)
      → R e b
      → (let tail = mark Token.lparen ∷ (arg_pieces u true args ++ mark Token.rparen ∷ []) in
          pieces u (Ast.call_expr e args) ≡ wrap_if (is_compound e) (pieces u e) ++ tail)
      → Postfix.ArgsAt parse_float statements (arg_pieces u true args) args
      → R (Ast.call_expr e args) 0
  call-Read e args b h same ha =
      postfix-Read e (Ast.call_expr e args) b
        (mark Token.lparen ∷ (arg_pieces u true args ++ mark Token.rparen ∷ [])) h refl same
        (Postfix.call-ChainsAt parse_float statements (wrap_if (is_compound e) (pieces u e))
          (arg_pieces u true args) e args h.chains ha)

  pub array-Read :
      (es : Exprs S)
      → Heads (elem_pieces u true es)
      → Sequences.ElemsAt parse_float statements (elem_pieces u true es) es
      → R (Ast.array_lit es) 0
  unfolding pieces feed is_word
  array-Read es heads h =
      atom-Read parse_float statements u (Ast.array_lit es) refl
        (λ q. record { no_rparen = refl; no_rbracket = refl; no_star = refl })
        (λ q. record { not_try = refl; not_spawn = refl; not_await = refl; not_prefix = refl })
        (Sequences.list-AtomAt parse_float statements (elem_pieces u true es) es heads h)

-- ===== src/Formatter/Readable.antt =====
-- internal/formatter/unparse.go: the expressions whose text the parser can read back.
use tya.Prelude.{
  ℕ, suc, ◌<◌, ◌≤◌, ◌^◌, Bool, true, false, [], ◌∷◌, ◌++◌, ◌≡◌, ◌⊎◌, inl, inr, refl, arith, Bytes,
  codes, if◌then◌else◌,
}
use tya.Token
use tya.Token.{none_form}
use tya.Ast
use tya.Ast.{Expr, member_expr, Exprs, no_exprs, more_exprs, CallArgs, no_args, positional}
use tya.Formatter.Unparse.{
  Texts, pieces, elem_pieces, arg_pieces, wraps, wrap_if, is_binary, is_compound, calls_object,
  mark, blank,
}
use tya.Formatter.Operators.{
  Operator, operator_token, operator_text, operator_level, is_shift, left-Bare, right-Bare,
}
use tya.Formatter.Primaries.{IsName, word_token}
use tya.Formatter.Postfix.{PrefixOperator, prefix_token}

module _ {S : Type 0} (u : Texts) where
  -- Operands in parentheses where the formatter writes them as they should be: it writes none for
  -- those of a shift that bind tighter than it says.
  abbrev pub Steady : Operator → Expr S → Expr S → Type 0
  Steady o l r = (is_shift o ≡ false) ⊎ ((is_binary l ≡ false) × (is_binary r ≡ false))

  -- `x.call` of an object is written `x` where it is called.
  abbrev pub object_call : Expr S → Bool
  object_call (member_expr e name t) = calls_object u e name
  object_call _ = false

  mutual
    pub data Readable : Expr S → Type 0 where
      name : (x : Bytes) (line col : ℕ) → IsName x → Readable (Ast.ident x (word_token x line col))
      int : (n : ℕ) → n < 2 ^ 63 → Readable (Ast.int_lit n)
      truth : (b : Bool) → Readable (Ast.bool_lit b)
      nothing : Readable Ast.nil_lit
      myself :
          (class : Bool) (line col : ℕ)
          → Readable (
              Ast.self_expr
                (word_token (if class then codes "Self" else codes "self") line col)
                class)
      parent : (line col : ℕ) → Readable (Ast.super_expr (word_token (codes "super") line col))
      operation :
          {l r : Expr S} (o : Operator) (line col : ℕ)
          → Steady o l r
          → Readable l
          → Readable r
          → Readable (Ast.binary_expr l (operator_token o line col) r)
      prefix :
          {e : Expr S} (o : PrefixOperator) (line col : ℕ)
          → Readable e
          → Readable (Ast.unary_expr (prefix_token o line col) e)
      spawn :
          {e : Expr S} (line col : ℕ)
          → is_binary e ≡ false
          → Readable e
          → Readable (Ast.spawn_expr e (word_token (codes "spawn") line col))
      await :
          {e : Expr S} (line col : ℕ)
          → is_binary e ≡ false
          → Readable e
          → Readable (Ast.await_expr e (word_token (codes "await") line col))
      member :
          {e : Expr S} (x : Bytes) (line col : ℕ)
          → Readable e
          → Readable (Ast.member_expr e x (word_token x line col))
      index : {e i : Expr S} → Readable e → Readable i → Readable (Ast.index_expr e i)
      call :
          {e : Expr S} {args : CallArgs S}
          → object_call e ≡ false
          → Readable e
          → ReadableArgs args
          → Readable (Ast.call_expr e args)
      no_array : Readable (Ast.array_lit no_exprs)
      array : {es : Exprs S} → ReadableElems es → Readable (Ast.array_lit es)

    pub data ReadableElems : Exprs S → Type 0 where
      one_elem : {e : Expr S} → Readable e → ReadableElems (more_exprs e no_exprs)
      more_elems :
          {e : Expr S} {es : Exprs S}
          → Readable e
          → ReadableElems es
          → ReadableElems (more_exprs e es)

    pub data ReadableArgs : CallArgs S → Type 0 where
      none_given : ReadableArgs no_args
      given : {args : CallArgs S} → ReadableArgList args → ReadableArgs args

    pub data ReadableArgList : CallArgs S → Type 0 where
      one_arg : {e : Expr S} → Readable e → ReadableArgList (positional e no_args)
      more_args :
          {e : Expr S} {args : CallArgs S}
          → Readable e
          → ReadableArgList args
          → ReadableArgList (positional e args)

  -- The level that reads the expression without parentheses.
  abbrev pub rank : {e : Expr S} → Readable e → ℕ
  rank (operation o line col steady l r) = suc (operator_level o)
  rank _ = 0

  pub not_infix : {e : Expr S} (h : Readable e) → is_binary e ≡ false → rank h ≡ 0
  not_infix (operation o line col steady l r) n = cc
  not_infix _ n = refl

  -- An operand without parentheses is read where the parser reads the operand.
  pub left-rank :
      {l : Expr S} (o : Operator) (r : Expr S) (h : Readable l)
      → Steady o l r
      → wraps l (operator_text o) true ≡ false
      → rank h ≤ suc (operator_level o)
  unfolding wraps
  left-rank o r (operation o' line col steady a b) (inl s) w = omega (arith, left-Bare o o' s w)
  left-rank o r h (inr (a, b)) w = omega (arith, not_infix h a)
  left-rank o r _ (inl s) w = omega arith

  pub right-rank :
      {r : Expr S} (o : Operator) (l : Expr S) (h : Readable r)
      → Steady o l r
      → wraps r (operator_text o) false ≡ false
      → rank h ≤ operator_level o
  unfolding wraps
  right-rank o l (operation o' line col steady a b) (inl s) w = omega (arith, right-Bare o o' s w)
  right-rank o l h (inr (a, b)) w = omega (arith, not_infix h b)
  right-rank o l _ (inl s) w = omega arith

  pub call-pieces :
      {e : Expr S} (args : CallArgs S)
      → Readable e
      → object_call e ≡ false
      → pieces u (Ast.call_expr e args)
        ≡ wrap_if (is_compound e) (pieces u e)
          ++ (mark Token.lparen ∷ (arg_pieces u true args ++ mark Token.rparen ∷ []))
  unfolding pieces
  call-pieces args (member x line col h) n = rw n refl
  call-pieces args _ n = refl

  pub elem-pieces :
      {es : Exprs S}
      → ReadableElems es
      → elem_pieces u false es ≡ mark Token.comma ∷ blank ∷ elem_pieces u true es
  unfolding pieces
  elem-pieces (one_elem e) = refl
  elem-pieces (more_elems e es) = refl

  pub arg-pieces :
      {args : CallArgs S}
      → ReadableArgList args
      → arg_pieces u false args ≡ mark Token.comma ∷ blank ∷ arg_pieces u true args
  unfolding pieces
  arg-pieces (one_arg e) = refl
  arg-pieces (more_args e es) = refl

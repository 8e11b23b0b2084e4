-- ===== src/Ast.antt =====
-- internal/ast/ast.go: expressions. `S` stands for what statements are made of: the blocks of
-- functions, and `if`, `while`, `for` and `match`, which are expressions, too.
use tya.Prelude.{ℕ, Bool, List, Bytes}
use tya.Token.{Token, StringForm}

-- `TryExpr`, which the parser never makes, is left out. A float is the number of its 64 bits. A
-- call's `Args` are the values of its `CallArgs`.
mutual
  pub data Expr (S : Type 0) : Type 0 where
    ident : (name : Bytes) → Token → Expr S
    int_lit : ℕ → Expr S
    float_lit : (bits : ℕ) → Expr S
    string_lit : (value : Bytes) → (form : StringForm) → (lang marker : Bytes) → Expr S
    bytes_lit : (value : Bytes) → (form : StringForm) → (marker : Bytes) → Expr S
    bool_lit : Bool → Expr S
    nil_lit : Expr S
    dict_lit : Props S → Expr S
    array_lit : Exprs S → Expr S
    func_lit : Params S → FuncBody S → Expr S
    binary_expr : (left : Expr S) → (op : Token) → (right : Expr S) → Expr S
    unary_expr : (op : Token) → Expr S → Expr S
    super_expr : Token → Expr S
    self_expr : Token → (class : Bool) → Expr S
    member_expr : (target : Expr S) → (name : Bytes) → Token → Expr S
    instance_field_expr class_var_expr : (name : Bytes) → Token → Expr S
    index_expr : (target index : Expr S) → Expr S
    call_expr : (callee : Expr S) → CallArgs S → Expr S
    spawn_expr await_expr : Expr S → Token → Expr S
    control : S → Expr S

  -- `[]Expr`.
  pub data Exprs (S : Type 0) : Type 0 where
    no_exprs : Exprs S
    more_exprs : Expr S → Exprs S → Exprs S

  -- `[]DictProp`.
  pub data Props (S : Type 0) : Type 0 where
    no_props : Props S
    more_props : (name : Bytes) → Token → Expr S → Props S → Props S

  -- `[]CallArg`; an argument with no name has the zero token.
  pub data CallArgs (S : Type 0) : Type 0 where
    no_args : CallArgs S
    positional : Expr S → CallArgs S → CallArgs S
    keyword : (name : Bytes) → Token → Expr S → CallArgs S → CallArgs S
    expanded : Expr S → CallArgs S → CallArgs S

  -- `Params`, `ParamToks` and `Defaults`; a parameter's name is its token's lexeme.
  pub data Params (S : Type 0) : Type 0 where
    no_params : Params S
    required : Token → Params S → Params S
    optional : Token → (default : Expr S) → Params S → Params S

  -- `Body` or `Expr`.
  pub data FuncBody (S : Type 0) : Type 0 where
    block : List S → FuncBody S
    result : Expr S → FuncBody S

-- ===== src/Formatter/Unparse.antt =====
-- internal/formatter/unparse.go: `expr`, the text of an expression outside of class bodies, where
-- `u.currentClass` is empty. A text is put together from pieces: blanks, words and signs with the
-- token of the expression that is written, and texts with no token, as those of strings.
use tya.Prelude.{
  ℕ, Bool, true, false, not, ◌&&◌, ◌||◌, List, [], ◌∷◌, ◌++◌, Option, none, some, ◌==◌, ltb,
  if◌then◌else◌, Bytes, codes,
}
use tya.Text.{bytes_eq, index_of}
use tya.Token
use tya.Token.{TokenType, Token, StringForm, none_form, triple, is, type_text}
use tya.Lexer.State.{plain_token}
use tya.Lexer.Number.{format_int}
use tya.Ast.{
  Expr, ident, int_lit, float_lit, string_lit, bytes_lit, bool_lit, nil_lit, dict_lit, array_lit,
  func_lit, binary_expr, unary_expr, super_expr, self_expr, member_expr, instance_field_expr,
  class_var_expr, index_expr, call_expr, spawn_expr, await_expr, control, Exprs, no_exprs,
  more_exprs, Props, no_props, more_props, CallArgs, no_args, positional, keyword, expanded, Params,
  no_params, required, optional, FuncBody, block, result,
}

pub data Piece : Type 0 where
  blank : Piece
  piece : Token → (text : Bytes) → Piece
  -- A text of which nothing is said.
  raw : (text : Bytes) → Piece

abbrev pub Pieces : Type 0
Pieces = List Piece

-- The text of pieces.
unfoldable pub text_of : Pieces → Bytes
text_of [] = []
text_of (blank ∷ ps) = b' ' ∷ text_of ps
text_of (piece t s ∷ ps) = s ++ text_of ps
text_of (raw s ∷ ps) = s ++ text_of ps

abbrev pub sign : TokenType → Token
sign t = plain_token t (type_text t) 0 0

abbrev pub mark : TokenType → Piece
mark t = piece (sign t) (type_text t)

abbrev pub word : Bytes → Piece
word w = piece (plain_token Token.ident w 0 0) w

-- `opPrecedence`.
unfoldable pub op_precedence : Bytes → ℕ
unfolding bytes_eq
op_precedence op =
    if bytes_eq op (codes "??")
    then 1
    else if bytes_eq op (codes "or")
    then 2
    else if bytes_eq op (codes "and")
    then 3
    else if bytes_eq op (codes "==") || bytes_eq op (codes "!=")
    then 4
    else if bytes_eq op (codes "<")
        || bytes_eq op (codes "<=")
        || bytes_eq op (codes ">")
        || bytes_eq op (codes ">=")
    then 5
    else if bytes_eq op (codes "|")
    then 6
    else if bytes_eq op (codes "^")
    then 7
    else if bytes_eq op (codes "&")
    then 8
    else if bytes_eq op (codes "<<") || bytes_eq op (codes ">>")
    then 9
    else if bytes_eq op (codes "+") || bytes_eq op (codes "-")
    then 10
    else if bytes_eq op (codes "*") || bytes_eq op (codes "/") || bytes_eq op (codes "%")
    then 11
    else 0

abbrev pub parenthesized : Pieces → Pieces
parenthesized s = mark Token.lparen ∷ (s ++ mark Token.rparen ∷ [])

abbrev pub join : Pieces → Pieces
join rest = mark Token.comma ∷ blank ∷ rest

abbrev pub wrap_if : Bool → Pieces → Pieces
wrap_if b s = if b then parenthesized s else s

abbrev pub callee_text : Bool → Pieces → Pieces → Pieces
callee_text object target name = if object then target else target ++ name

abbrev pub unary_blank : Token → Pieces
unfolding bytes_eq
unary_blank op = if bytes_eq op.lexeme (codes "not") then blank ∷ [] else []

module _ {S : Type 0} where
  -- `binaryOperand`, with the pieces of the operand: whether it gets parentheses.
  unfoldable pub wraps : Expr S → (parent_op : Bytes) → (left : Bool) → Bool
  unfolding op_precedence
  wraps (binary_expr l op r) parent_op left =
      let pp = op_precedence parent_op in
      let cp = op_precedence op.lexeme in ltb cp pp || ((cp == pp) && not left)
  wraps _ parent_op left = false

  abbrev pub is_binary : Expr S → Bool
  is_binary (binary_expr l op r) = true
  is_binary _ = false

  -- The operands that `postfixTarget` puts in parentheses.
  abbrev pub is_compound : Expr S → Bool
  is_compound (binary_expr l op r) = true
  is_compound (unary_expr op e) = true
  is_compound (spawn_expr e t) = true
  is_compound (await_expr e t) = true
  is_compound (func_lit ps b) = true
  is_compound _ = false

-- `classNameRE`, `strconv.Quote`, the decimal form of a float, which is `FormatFloat` with the `.0`
-- that `expr` may add, and `tripleQuotedExpr` are parameters.
pub record Texts : Type 0 where
  pub is_class_name : Bytes → Bool
  pub quote : Bytes → Bytes
  pub float_text : ℕ → Bytes
  pub triple_text : Bytes → Bytes

unfoldable pub string_text : Texts → Bytes → StringForm → Bytes
unfolding index_of
string_text u value triple = elim (index_of (codes "\"\"\"") value) [
  | some i ↦ u.quote value
  | none ↦ u.triple_text value
]
string_text u value _ = u.quote value

module _ {S : Type 0} (u : Texts) where
  -- `isStaticCallTarget`.
  unfoldable pub is_static_call_target : Expr S → Bool
  unfolding bytes_eq
  is_static_call_target (ident name t) = u.is_class_name name || bytes_eq name (codes "Self")
  is_static_call_target (member_expr e name t) = u.is_class_name name
  is_static_call_target _ = false

  -- `callableObjectCallTarget`: whether `target.name` is `target.call` of an object.
  unfoldable pub calls_object : Expr S → Bytes → Bool
  unfolding is_static_call_target bytes_eq
  calls_object target name = bytes_eq name (codes "call") && not (is_static_call_target target)

  -- `expr` where it gives a text.
  unfoldable mutual
    pub pieces : Expr S → Pieces
    pieces (ident name t) = piece t name ∷ []
    pieces (int_lit n) = piece (plain_token Token.int (format_int n) 0 0) (format_int n) ∷ []
    pieces (float_lit b) = raw (u.float_text b) ∷ []
    pieces (string_lit v form lang marker) = raw (string_text u v form) ∷ []
    pieces (bool_lit b) = word (if b then codes "true" else codes "false") ∷ []
    pieces nil_lit = word (codes "nil") ∷ []
    pieces (self_expr t class) = piece t (if class then codes "Self" else codes "self") ∷ []
    pieces (super_expr t) = piece t (codes "super") ∷ []
    pieces (binary_expr l op r) =
        wrap_if (wraps l op.lexeme true) (pieces l)
        ++ (blank ∷ piece op op.lexeme ∷ blank ∷ wrap_if (wraps r op.lexeme false) (pieces r))
    pieces (spawn_expr e t) = piece t (codes "spawn") ∷ blank ∷ pieces e
    pieces (await_expr e t) = piece t (codes "await") ∷ blank ∷ pieces e
    pieces (unary_expr op e) =
        piece op op.lexeme ∷ (unary_blank op ++ wrap_if (is_binary e) (pieces e))
    -- The target of `x.call`, where `x` is an object, is that of `x`.
    pieces (call_expr (member_expr e name t) args) =
        callee_text (calls_object e name) (wrap_if (is_compound e) (pieces e))
          (mark Token.dot ∷ piece t name ∷ [])
        ++ (mark Token.lparen ∷ (arg_pieces true args ++ mark Token.rparen ∷ []))
    pieces (call_expr callee args) =
        wrap_if (is_compound callee) (pieces callee)
        ++ (mark Token.lparen ∷ (arg_pieces true args ++ mark Token.rparen ∷ []))
    pieces (member_expr e name t) =
        wrap_if (is_compound e) (pieces e) ++ (mark Token.dot ∷ piece t name ∷ [])
    pieces (index_expr e i) =
        wrap_if (is_compound e) (pieces e)
        ++ (mark Token.lbracket ∷ (pieces i ++ mark Token.rbracket ∷ []))
    pieces (array_lit es) = mark Token.lbracket ∷ (elem_pieces true es ++ mark Token.rbracket ∷ [])
    pieces (dict_lit no_props) = mark Token.lbrace ∷ mark Token.rbrace ∷ []
    pieces (dict_lit (more_props name t e ps)) =
        mark Token.lbrace
        ∷ blank
        ∷ (prop_pieces true (more_props name t e ps) ++ blank ∷ mark Token.rbrace ∷ [])
    pieces (func_lit ps b) =
        param_pieces true ps ++ (blank ∷ mark Token.arrow ∷ blank ∷ body_pieces b)
    pieces (bytes_lit v form marker) = []
    pieces (instance_field_expr name t) = []
    pieces (class_var_expr name t) = []
    pieces (control s) = []

    pub arg_pieces : (first : Bool) → CallArgs S → Pieces
    arg_pieces first no_args = []
    arg_pieces first (positional e args) =
        (if first then [] else join []) ++ (pieces e ++ arg_pieces false args)
    arg_pieces first (keyword name t e args) =
        (if first then [] else join [])
        ++ (piece t name ∷ mark Token.colon ∷ blank ∷ (pieces e ++ arg_pieces false args))
    arg_pieces first (expanded e args) =
        (if first then [] else join [])
        ++ (mark Token.star ∷ mark Token.star ∷ (pieces e ++ arg_pieces false args))

    pub elem_pieces : (first : Bool) → Exprs S → Pieces
    elem_pieces first no_exprs = []
    elem_pieces first (more_exprs e es) =
        (if first then [] else join []) ++ (pieces e ++ elem_pieces false es)

    pub prop_pieces : (first : Bool) → Props S → Pieces
    prop_pieces first no_props = []
    prop_pieces first (more_props name t e ps) =
        (if first then [] else join [])
        ++ (piece t name ∷ mark Token.colon ∷ blank ∷ (pieces e ++ prop_pieces false ps))

    -- `funcHead`.
    pub param_pieces : (first : Bool) → Params S → Pieces
    param_pieces first no_params = if first then mark Token.lparen ∷ mark Token.rparen ∷ [] else []
    param_pieces first (required t ps) =
        (if first then [] else join []) ++ (piece t t.lexeme ∷ param_pieces false ps)
    param_pieces first (optional t e ps) =
        (if first then [] else join [])
        ++ (piece t t.lexeme
            ∷ blank
            ∷ mark Token.assign
            ∷ blank
            ∷ (pieces e ++ param_pieces false ps))

    pub body_pieces : FuncBody S → Pieces
    body_pieces (result e) = pieces e
    body_pieces (block ss) = word (codes "nil") ∷ []

  -- Whether `expr` gives a text: it fails on an expression that has no canonical text, or that has
  -- such an expression in it.
  unfoldable mutual
    pub has_text : Expr S → Bool
    has_text (binary_expr l op r) = has_text l && has_text r
    has_text (spawn_expr e t) = has_text e
    has_text (await_expr e t) = has_text e
    has_text (unary_expr op e) = has_text e
    has_text (call_expr callee args) = has_text callee && args_have_text args
    has_text (member_expr e name t) = has_text e
    has_text (index_expr e i) = has_text e && has_text i
    has_text (array_lit es) = elems_have_text es
    has_text (dict_lit ps) = props_have_text ps
    has_text (func_lit ps b) = params_have_text ps && body_has_text b
    has_text (bytes_lit v form marker) = false
    has_text (instance_field_expr name t) = false
    has_text (class_var_expr name t) = false
    has_text (control s) = false
    has_text _ = true

    pub args_have_text : CallArgs S → Bool
    args_have_text no_args = true
    args_have_text (positional e args) = has_text e && args_have_text args
    args_have_text (keyword name t e args) = has_text e && args_have_text args
    args_have_text (expanded e args) = has_text e && args_have_text args

    pub elems_have_text : Exprs S → Bool
    elems_have_text no_exprs = true
    elems_have_text (more_exprs e es) = has_text e && elems_have_text es

    pub props_have_text : Props S → Bool
    props_have_text no_props = true
    props_have_text (more_props name t e ps) = has_text e && props_have_text ps

    pub params_have_text : Params S → Bool
    params_have_text no_params = true
    params_have_text (required t ps) = params_have_text ps
    params_have_text (optional t e ps) = has_text e && params_have_text ps

    pub body_has_text : FuncBody S → Bool
    body_has_text (result e) = has_text e
    body_has_text (block []) = true
    body_has_text (block (s ∷ ss)) = false

  -- `expr`; `none` is an error.
  unfoldable pub unparse_expr : Expr S → Option Bytes
  unfolding pieces has_text text_of
  unparse_expr e = if has_text e then some (text_of (pieces e)) else none

-- ===== src/Parser/Levels.antt =====
-- internal/parser/parser.go: the levels of binary operators, from `factor` up to `nilCoalesce`.
use tya.Prelude.{
  ℕ, zero, suc, Bool, true, false, ◌==◌, if◌then◌else◌, Option, none, some, Bytes, codes, length,
}
use tya.Token
use tya.Token.{TokenType, Token, is}
use tya.Text.{bytes_eq}
use tya.Ast.{Expr, binary_expr}
use tya.Parser.State.{Parse, ok, out_of_fuel, bind, next}

-- Which function takes an operator: `factor` 0, `term` 1, `bitAnd` 2, `bitXor` 3, `bitOr` 4,
-- `comparison` 5, `equality` 6, `logicAnd` 7, `logicOr` 8, `nilCoalesce` 9.
unfoldable pub type_level : TokenType → Option ℕ
type_level Token.star = some 0
type_level Token.slash = some 0
type_level Token.percent = some 0
type_level Token.shl = some 0
type_level Token.shr = some 0
type_level Token.plus = some 1
type_level Token.minus = some 1
type_level Token.amp = some 2
type_level Token.caret = some 3
type_level Token.pipe = some 4
type_level Token.lt = some 5
type_level Token.lte = some 5
type_level Token.gt = some 5
type_level Token.gte = some 5
type_level Token.eq = some 6
type_level Token.neq = some 6
type_level Token.nil_coalesce = some 9
type_level _ = none

unfoldable pub word_level : Bytes → Option ℕ
unfolding bytes_eq
word_level w =
    if bytes_eq w (codes "and") then some 7 else if bytes_eq w (codes "or") then some 8 else none

unfoldable pub op_level : Token → Option ℕ
unfolding type_level word_level
op_level t = if is t.type Token.ident then word_level t.lexeme else type_level t.type

abbrev same_level : Option ℕ → ℕ → Bool
same_level none k = false
same_level (some j) k = j == k

-- Whether the loop of a level goes on.
unfoldable pub op_at : ℕ → Token → Bool
unfolding op_level
op_at k t = same_level (op_level t) k

module _ {S : Type 0} where
  -- The loop of a level behind its first operand.
  unfoldable pub binary_rest :
      (fuel : ℕ) → (is_op : Token → Bool) → Parse (Expr S) → Expr S → Parse (Expr S)
  binary_rest zero is_op operand left p = out_of_fuel
  binary_rest (suc n) is_op operand left p = elim (is_op p.tok) [
    | true ↦
        bind (operand (next p))
          (λ right q. binary_rest n is_op operand (binary_expr left p.tok right) q)
    | false ↦ ok left p
  ]

  unfoldable pub binary_level : (is_op : Token → Bool) → Parse (Expr S) → Parse (Expr S)
  unfolding binary_rest
  binary_level is_op operand p =
      bind (operand p) (λ left q. binary_rest (suc (length q.rest)) is_op operand left q)

  -- The functions of the levels below `k`, over `unary`.
  unfoldable pub level : Parse (Expr S) → ℕ → Parse (Expr S)
  unfolding binary_level op_at
  level unary zero = unary
  level unary (suc k) = binary_level (op_at k) (level unary k)

  unfoldable pub nil_coalesce : Parse (Expr S) → Parse (Expr S)
  unfolding level
  nil_coalesce unary = level unary 10

-- ===== src/Formatter/Operators.antt =====
-- internal/formatter/unparse.go and internal/parser/parser.go: the binary operators, with what the
-- formatter and the parser make of each.
use tya.Prelude.{
  ℕ, ◌+◌, ◌<◌, ◌≤◌, Bool, true, false, ◌&&◌, ◌||◌, not, ◌==◌, ltb, ◌≡◌, refl, ◌⊎◌, inl, inr, some,
  Bytes, codes, arith, if◌then◌else◌, subst,
}
use tya.Token
use tya.Token.{TokenType, Token, is}
use tya.Text.{bytes_eq}
use tya.Parser.Levels.{type_level, word_level, op_level, op_at}
use tya.Lexer.State.{plain_token}
use tya.Formatter.Unparse.{op_precedence}

pub data Operator : Type 0 where
  times slash percent plus minus amp caret pipe lt lte gt gte eq neq and or coalesce shl shr :
      Operator

unfoldable pub operator_type : Operator → TokenType
operator_type times = Token.star
operator_type slash = Token.slash
operator_type percent = Token.percent
operator_type plus = Token.plus
operator_type minus = Token.minus
operator_type amp = Token.amp
operator_type caret = Token.caret
operator_type pipe = Token.pipe
operator_type lt = Token.lt
operator_type lte = Token.lte
operator_type gt = Token.gt
operator_type gte = Token.gte
operator_type eq = Token.eq
operator_type neq = Token.neq
operator_type and = Token.ident
operator_type or = Token.ident
operator_type coalesce = Token.nil_coalesce
operator_type shl = Token.shl
operator_type shr = Token.shr

unfoldable pub operator_text : Operator → Bytes
operator_text times = codes "*"
operator_text slash = codes "/"
operator_text percent = codes "%"
operator_text plus = codes "+"
operator_text minus = codes "-"
operator_text amp = codes "&"
operator_text caret = codes "^"
operator_text pipe = codes "|"
operator_text lt = codes "<"
operator_text lte = codes "<="
operator_text gt = codes ">"
operator_text gte = codes ">="
operator_text eq = codes "=="
operator_text neq = codes "!="
operator_text and = codes "and"
operator_text or = codes "or"
operator_text coalesce = codes "??"
operator_text shl = codes "<<"
operator_text shr = codes ">>"

unfoldable pub is_shift : Operator → Bool
is_shift shl = true
is_shift shr = true
is_shift _ = false

unfoldable pub operator_level : Operator → ℕ
operator_level times = 0
operator_level slash = 0
operator_level percent = 0
operator_level plus = 1
operator_level minus = 1
operator_level amp = 2
operator_level caret = 3
operator_level pipe = 4
operator_level lt = 5
operator_level lte = 5
operator_level gt = 5
operator_level gte = 5
operator_level eq = 6
operator_level neq = 6
operator_level and = 7
operator_level or = 8
operator_level coalesce = 9
operator_level shl = 0
operator_level shr = 0

-- The parser's level of an operator.
abbrev Level : TokenType → Bytes → ℕ → Type 0
Level t w k = (if is t Token.ident then word_level w else type_level t) ≡ some k

operator_level_lem : (o : Operator) → Level (operator_type o) (operator_text o) (operator_level o)
unfolding operator_type operator_text operator_level type_level word_level bytes_eq
operator_level_lem times = refl
operator_level_lem slash = refl
operator_level_lem percent = refl
operator_level_lem plus = refl
operator_level_lem minus = refl
operator_level_lem amp = refl
operator_level_lem caret = refl
operator_level_lem pipe = refl
operator_level_lem lt = refl
operator_level_lem lte = refl
operator_level_lem gt = refl
operator_level_lem gte = refl
operator_level_lem eq = refl
operator_level_lem neq = refl
operator_level_lem and = refl
operator_level_lem or = refl
operator_level_lem coalesce = refl
operator_level_lem shl = refl
operator_level_lem shr = refl

-- The token of an operator.
abbrev pub operator_token : Operator → (line col : ℕ) → Token
operator_token o line col = plain_token (operator_type o) (operator_text o) line col

pub operator_token-op_at :
    (k : ℕ) (o : Operator) (line col : ℕ)
    → op_at k (operator_token o line col) ≡ (operator_level o == k)
unfolding op_level op_at
operator_token-op_at k o line col = rw (op_at, operator_level_lem o)

pub operator_level-le : (o : Operator) → operator_level o ≤ 9
unfolding operator_level
operator_level-le o = grind arith

pub operator_type_lem :
    (o : Operator)
    → (is (operator_type o) Token.lparen ≡ false)
      × (is (operator_type o) Token.lbracket ≡ false)
      × (is (operator_type o) Token.dot ≡ false)
      × (is (operator_type o) Token.newline ≡ false)
unfolding operator_type
operator_type_lem times = (refl, refl, refl, refl)
operator_type_lem slash = (refl, refl, refl, refl)
operator_type_lem percent = (refl, refl, refl, refl)
operator_type_lem plus = (refl, refl, refl, refl)
operator_type_lem minus = (refl, refl, refl, refl)
operator_type_lem amp = (refl, refl, refl, refl)
operator_type_lem caret = (refl, refl, refl, refl)
operator_type_lem pipe = (refl, refl, refl, refl)
operator_type_lem lt = (refl, refl, refl, refl)
operator_type_lem lte = (refl, refl, refl, refl)
operator_type_lem gt = (refl, refl, refl, refl)
operator_type_lem gte = (refl, refl, refl, refl)
operator_type_lem eq = (refl, refl, refl, refl)
operator_type_lem neq = (refl, refl, refl, refl)
operator_type_lem and = (refl, refl, refl, refl)
operator_type_lem or = (refl, refl, refl, refl)
operator_type_lem coalesce = (refl, refl, refl, refl)
operator_type_lem shl = (refl, refl, refl, refl)
operator_type_lem shr = (refl, refl, refl, refl)

-- The formatter's precedence falls as the parser's level rises, except for shifts.
abbrev Falls : (shift : Bool) → ℕ → ℕ → Type 0
Falls true k p = (k ≡ 0) × (p ≡ 9)
Falls false k p = ((k < 2) × (p + k ≡ 11)) ⊎ ((2 ≤ k) × (p + k ≡ 10))

precedence-Falls :
    (o : Operator) → Falls (is_shift o) (operator_level o) (op_precedence (operator_text o))
unfolding is_shift operator_text operator_level op_precedence bytes_eq
precedence-Falls times = inl (omega arith, refl)
precedence-Falls slash = inl (omega arith, refl)
precedence-Falls percent = inl (omega arith, refl)
precedence-Falls plus = inl (omega arith, refl)
precedence-Falls minus = inl (omega arith, refl)
precedence-Falls amp = inr (omega arith, refl)
precedence-Falls caret = inr (omega arith, refl)
precedence-Falls pipe = inr (omega arith, refl)
precedence-Falls lt = inr (omega arith, refl)
precedence-Falls lte = inr (omega arith, refl)
precedence-Falls gt = inr (omega arith, refl)
precedence-Falls gte = inr (omega arith, refl)
precedence-Falls eq = inr (omega arith, refl)
precedence-Falls neq = inr (omega arith, refl)
precedence-Falls and = inr (omega arith, refl)
precedence-Falls or = inr (omega arith, refl)
precedence-Falls coalesce = inr (omega arith, refl)
precedence-Falls shl = (refl, refl)
precedence-Falls shr = (refl, refl)

-- Whether an operation gets no parentheses in another.
abbrev Bare : (outer inner : ℕ) → (left : Bool) → Type 0
Bare pp cp left = (ltb cp pp || ((cp == pp) && not left)) ≡ false

left-Falls : (s : Bool) (k j pp cp : ℕ) → Falls false k pp → Falls s j cp → Bare pp cp true → j ≤ k
left-Falls false k j pp cp a b h = ground arith
left-Falls true k j pp cp a b h = ground arith

right-Falls :
    (s : Bool) (k j pp cp : ℕ) → Falls false k pp → Falls s j cp → Bare pp cp false → j < k
right-Falls false k j pp cp a b h = ground arith
right-Falls true k j pp cp a b h = ground arith

module _ (o o' : Operator) (steady : is_shift o ≡ false) where
  outer-Falls : Falls false (operator_level o) (op_precedence (operator_text o))
  outer-Falls =
      subst (λ s. Falls s (operator_level o) (op_precedence (operator_text o))) steady
        (precedence-Falls o)

  -- An operand that is an operation of `o'`, in an operation of `o`: if it gets no parentheses, the
  -- parser takes `o'` where it reads that operand.
  pub left-Bare :
      Bare (op_precedence (operator_text o)) (op_precedence (operator_text o')) true
      → operator_level o' ≤ operator_level o
  left-Bare = left-Falls (is_shift o') _ _ _ _ outer-Falls (precedence-Falls o')

  pub right-Bare :
      Bare (op_precedence (operator_text o)) (op_precedence (operator_text o')) false
      → operator_level o' < operator_level o
  right-Bare = right-Falls (is_shift o') _ _ _ _ outer-Falls (precedence-Falls o')

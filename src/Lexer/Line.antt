-- ===== src/Lexer/Line.antt =====
-- internal/lexer/lexer.go: `lexLine`, the tokens of one line.
pub mod Tokens
pub mod Rises
use tya.Prelude.{
  ℕ, zero, suc, ◌+◌, ◌-◌, Bool, true, false, ◌&&◌, ◌||◌, not, List, [], ◌∷◌, ◌++◌, Option, none,
  some, ◌≡◌, refl, ltb, leb, ◌==◌, if◌then◌else◌, Bytes, codes, get_elem?, drop, length,
}
use tya.Text.{has_prefix, byte_is}
use tya.Token.{
  TokenType, ident, nil_assign, nil_coalesce, assign, eq, neq, lt, lte, gt, gte, colon, comma, dot,
  question, bang, at, plus, minus, star, slash, percent, arrow, lparen, rparen, lbracket, rbracket,
  lbrace, rbrace, amp, pipe, caret, tilde, shl, shr, Token, int,
}
use tya.Lexer.State.{
  tya_e0015, LexError, diag, Lexer, plain_token, push_token, push_error, new_lexer,
}
use tya.Lexer.Bytes.{is_alpha, is_digit, is_ident_char, take_while}
use tya.Lexer.Number.{Literal, literal, bad, number_literal}
use tya.Lexer.Quoted.{
  Quoted, quoted, broken, raw_literal, bytes_literal, double_literal, single_literal,
}

-- What a round of the loop does: it passes a space, adds a token and goes on behind `skip` further
-- bytes, reports a byte and passes it, or reports an error and leaves the line.
pub data Step : Type 0 where
  space : Step
  emit : (skip : ℕ) → Token → Step
  complain : LexError → Step
  halt : LexError → Step

-- A quoted literal that closes at offset `i` is followed by the byte at `i + 1`.
abbrev pub of_quoted : Quoted → Step
of_quoted (quoted t close) = emit close t
of_quoted (broken e) = halt e

abbrev pub of_literal : (line col : ℕ) → Literal → Step
of_literal line col (literal t lexeme width) = emit (width - 1) (plain_token t lexeme line col)
of_literal line col (bad e) = halt e

-- The operators of two bytes.
unfoldable pub two_bytes : Bytes → Option TokenType
unfolding has_prefix
two_bytes s =
    if has_prefix s (codes "==")
    then some eq
    else if has_prefix s (codes "!=")
    then some neq
    else if has_prefix s (codes "<=")
    then some lte
    else if has_prefix s (codes ">=")
    then some gte
    else if has_prefix s (codes "??")
    then some nil_coalesce
    else if has_prefix s (codes "<<")
    then some shl
    else if has_prefix s (codes ">>")
    then some shr
    else none

-- The operators and brackets of one byte.
unfoldable pub one_byte : ℕ → Option TokenType
one_byte c =
    if c == b'='
    then some assign
    else if c == b'<'
    then some lt
    else if c == b'>'
    then some gt
    else if c == b':'
    then some colon
    else if c == b','
    then some comma
    else if c == b'.'
    then some dot
    else if c == b'?'
    then some question
    else if c == b'!'
    then some bang
    else if c == b'@'
    then some at
    else if c == b'+'
    then some plus
    else if c == b'-'
    then some minus
    else if c == b'*'
    then some star
    else if c == b'/'
    then some slash
    else if c == b'%'
    then some percent
    else if c == b'('
    then some lparen
    else if c == b')'
    then some rparen
    else if c == b'['
    then some lbracket
    else if c == b']'
    then some rbracket
    else if c == b'{'
    then some lbrace
    else if c == b'}'
    then some rbrace
    else if c == b'&'
    then some amp
    else if c == b'|'
    then some pipe
    else if c == b'^'
    then some caret
    else if c == b'~'
    then some tilde
    else none

-- The operators, after all literals and names.
unfoldable pub operator_step : (line col : ℕ) → (c : ℕ) → Bytes → Step
unfolding has_prefix two_bytes one_byte
operator_step line col c s =
    if c == b'-' && byte_is s 0 b'>'
    then emit 1 (plain_token arrow (codes "->") line col)
    else if has_prefix (c ∷ s) (codes "??=")
    then emit 2 (plain_token nil_assign (codes "??=") line col)
    else elim (two_bytes (c ∷ s)) [
      | some t ↦ emit 1 (plain_token t (c ∷ elim s [ [] ↦ [] | d ∷ _ ↦ d ∷ [] ]) line col)
      | none ↦ elim (one_byte c) [
        | some t ↦ emit 0 (plain_token t (c ∷ []) line col)
        | none ↦ complain (diag tya_e0015 line col 1)
      ]
    ]

-- `ch == 'r'` or `'b'` in front of a quote that is not the first of three.
abbrev opens : ℕ → ℕ → Bytes → Bool
opens prefix c s = c == prefix && byte_is s 0 b'"' && not (byte_is s 1 b'"' && byte_is s 2 b'"')

abbrev name_step : (line col : ℕ) → Bytes → Step
name_step line col s =
    let name = take_while is_ident_char s in
    emit (length name - 1) (plain_token ident name line col)

-- One round of the loop of `lexLine` at the byte `c`, which stands at `col`, in front of `s`.
unfoldable pub step : (line col : ℕ) → (c : ℕ) → Bytes → Step
unfolding raw_literal bytes_literal double_literal single_literal number_literal operator_step
    take_while
step line col c s =
    if c == b' '
    then space
    else if opens b'r' c s
    then of_quoted (raw_literal line col (c ∷ s))
    else if opens b'b' c s
    then of_quoted (bytes_literal line col (c ∷ s))
    else if is_alpha c || c == b'_'
    then name_step line col (c ∷ s)
    else if is_digit c
    then of_literal line col (number_literal line col (c ∷ s))
    else if c == b'"'
    then of_quoted (double_literal line col (c ∷ s))
    else if c == b'\''
    then of_quoted (single_literal line col (c ∷ s))
    else operator_step line col c s

-- `lexLine`, with `skip` bytes to pass before the next round; `col` is `baseCol + i`.
unfoldable pub line_from : (skip line col : ℕ) → Bytes → Lexer → Lexer
line_from skip line col [] l = l
line_from (suc skip) line col (c ∷ s) l = line_from skip line (col + 1) s l
line_from zero line col (c ∷ s) l = elim (step line col c s) [
  | space ↦ line_from 0 line (col + 1) s l
  | emit k t ↦ line_from k line (col + 1) s (push_token t l)
  | complain e ↦ line_from 0 line (col + 1) s (push_error e l)
  | halt e ↦ push_error e l
]

unfoldable pub lex_line : Bytes → (line base_col : ℕ) → Lexer → Lexer
unfolding line_from step
lex_line s line base_col l = line_from 0 line base_col s l

lex_line_test :
    (lex_line (codes "x1 ??= 0x1f->") 3 5 new_lexer).tokens
    ≡ plain_token ident (codes "x1") 3 5
      ∷ plain_token nil_assign (codes "??=") 3 8
      ∷ plain_token int (codes "31") 3 12
      ∷ plain_token arrow (codes "->") 3 16
      ∷ []
unfolding lex_line
lex_line_test = refl

lex_line_errors : (lex_line (codes "a $ b") 1 1 new_lexer).errs ≡ diag tya_e0015 1 3 1 ∷ []
unfolding lex_line
lex_line_errors = refl

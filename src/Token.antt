-- ===== src/Token.antt =====
-- internal/token/token.go: the kinds of tokens, and tokens.
use tya.Prelude.{ℕ, Bool, true, false, ◌==◌, Bytes, codes}

-- `token.Type`, a constructor for each constant.
pub data TokenType : Type 0 where
  eof illegal : TokenType
  ident int float string bytes : TokenType
  newline indent dedent : TokenType
  assign nil_assign nil_coalesce eq neq lt lte gt gte : TokenType
  colon comma dot question bang at : TokenType
  plus minus star slash percent arrow : TokenType
  lparen rparen lbracket rbracket lbrace rbrace : TokenType
  amp pipe caret tilde shl shr : TokenType

-- The values of `Token.StringForm`; `none_form` is the empty string.
pub data StringForm : Type 0 where
  none_form single triple raw_triple bytes_triple heredoc raw_heredoc bytes_heredoc : StringForm

pub record Token : Type 0 where
  pub type : TokenType
  pub lexeme : Bytes
  pub line : ℕ
  pub col : ℕ
  pub string_form : StringForm
  pub lang : Bytes
  pub marker : Bytes

-- `t.Type == token.NEWLINE || t.Type == token.INDENT || t.Type == token.DEDENT`.
abbrev pub is_layout : TokenType → Bool
is_layout newline = true
is_layout indent = true
is_layout dedent = true
is_layout _ = false

abbrev pub is_newline : TokenType → Bool
is_newline newline = true
is_newline _ = false

abbrev pub is_indent : TokenType → Bool
is_indent indent = true
is_indent _ = false

abbrev pub is_dedent : TokenType → Bool
is_dedent dedent = true
is_dedent _ = false

-- The text of each constant.
unfoldable pub type_text : TokenType → Bytes
type_text eof = codes "EOF"
type_text illegal = codes "ILLEGAL"
type_text ident = codes "IDENT"
type_text int = codes "INT"
type_text float = codes "FLOAT"
type_text string = codes "STRING"
type_text bytes = codes "BYTES"
type_text newline = codes "NEWLINE"
type_text indent = codes "INDENT"
type_text dedent = codes "DEDENT"
type_text assign = codes "="
type_text nil_assign = codes "??="
type_text nil_coalesce = codes "??"
type_text eq = codes "=="
type_text neq = codes "!="
type_text lt = codes "<"
type_text lte = codes "<="
type_text gt = codes ">"
type_text gte = codes ">="
type_text colon = codes ":"
type_text comma = codes ","
type_text dot = codes "."
type_text question = codes "?"
type_text bang = codes "!"
type_text at = codes "@"
type_text plus = codes "+"
type_text minus = codes "-"
type_text star = codes "*"
type_text slash = codes "/"
type_text percent = codes "%"
type_text arrow = codes "->"
type_text lparen = codes "("
type_text rparen = codes ")"
type_text lbracket = codes "["
type_text rbracket = codes "]"
type_text lbrace = codes "{"
type_text rbrace = codes "}"
type_text amp = codes "&"
type_text pipe = codes "|"
type_text caret = codes "^"
type_text tilde = codes "~"
type_text shl = codes "<<"
type_text shr = codes ">>"

-- A number for each constant.
abbrev pub type_index : TokenType → ℕ
type_index eof = 0
type_index illegal = 1
type_index ident = 2
type_index int = 3
type_index float = 4
type_index string = 5
type_index bytes = 6
type_index newline = 7
type_index indent = 8
type_index dedent = 9
type_index assign = 10
type_index nil_assign = 11
type_index nil_coalesce = 12
type_index eq = 13
type_index neq = 14
type_index lt = 15
type_index lte = 16
type_index gt = 17
type_index gte = 18
type_index colon = 19
type_index comma = 20
type_index dot = 21
type_index question = 22
type_index bang = 23
type_index at = 24
type_index plus = 25
type_index minus = 26
type_index star = 27
type_index slash = 28
type_index percent = 29
type_index arrow = 30
type_index lparen = 31
type_index rparen = 32
type_index lbracket = 33
type_index rbracket = 34
type_index lbrace = 35
type_index rbrace = 36
type_index amp = 37
type_index pipe = 38
type_index caret = 39
type_index tilde = 40
type_index shl = 41
type_index shr = 42

-- `==` on types.
abbrev pub is : TokenType → TokenType → Bool
is s t = type_index s == type_index t

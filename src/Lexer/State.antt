-- ===== src/Lexer/State.antt =====
-- internal/lexer/lexer.go: the lexer's state, its errors and comments, and how it appends to them.
use tya.Prelude.{ℕ, Bool, List, [], ◌∷◌, ◌++◌, ltb, if◌then◌else◌, Bytes}
use tya.Token.{TokenType, Token, StringForm, none_form}

-- The diagnostic codes that the lexer gives.
pub data Code : Type 0 where
  tya_e0001 tya_e0002 tya_e0003 tya_e0004 tya_e0005 tya_e0006 tya_e0007 tya_e0008 : Code
  tya_e0015 tya_e0016 tya_e0017 tya_e0018 tya_e0019 tya_e0020 tya_e0021 : Code

-- `prefixName`: the two kinds of literals with a prefix.
pub data Prefix : Type 0 where
  hex binary : Prefix

-- The errors that are plain texts, made by `fmt.Errorf`; a byte is the one that the text shows.
pub data Reason : Type 0 where
  unterminated_escape truncated_hex invalid_hex unterminated_bytes : Reason
  unknown_escape : ℕ → Reason
  needs_digit : Prefix → Reason
  invalid_digit : ℕ → Prefix → Reason
  invalid_literal : Prefix → Reason

-- An error with its place. A diagnostic spans `length` columns; its texts are those of its code.
pub data LexError : Type 0 where
  diag : (code : Code) (line col length : ℕ) → LexError
  plain : (why : Reason) (line col : ℕ) → LexError

pub record Comment : Type 0 where
  pub line : ℕ
  pub col : ℕ
  pub indent : ℕ
  pub text : Bytes
  pub is_full_line : Bool

-- `ind` has the top of the stack first.
pub record Lexer : Type 0 where
  pub tokens : List Token
  pub errs : List LexError
  pub ind : List ℕ
  pub comments : List Comment

abbrev pub new_lexer : Lexer
new_lexer = record { tokens = []; errs = []; ind = 0 ∷ []; comments = [] }

abbrev pub plain_token : TokenType → Bytes → ℕ → ℕ → Token
plain_token t s line col = record {
  type = t;
  lexeme = s;
  line = line;
  col = col;
  string_form = none_form;
  lang = [];
  marker = [];
}

abbrev pub push_token : Token → Lexer → Lexer
push_token t l = record l { tokens = l.tokens ++ t ∷ [] }

-- `l.add`.
abbrev pub add : TokenType → Bytes → ℕ → ℕ → Lexer → Lexer
add t s line col = push_token (plain_token t s line col)

-- `l.addString`.
abbrev pub string_token : TokenType → Bytes → ℕ → ℕ → StringForm → Bytes → Bytes → Token
string_token t s line col form lang marker = record {
  type = t;
  lexeme = s;
  line = line;
  col = col;
  string_form = form;
  lang = lang;
  marker = marker;
}

-- `l.errs = append(l.errs, e)`.
abbrev pub push_error : LexError → Lexer → Lexer
push_error e l = record l { errs = l.errs ++ e ∷ [] }

-- `l.diagErr`: a length below 1 counts as 1.
abbrev pub diag_err : Code → ℕ → ℕ → ℕ → Lexer → Lexer
diag_err code line col length = push_error (diag code line col (if ltb length 1 then 1 else length))

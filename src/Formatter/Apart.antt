-- ===== src/Formatter/Apart.antt =====
-- internal/formatter/unparse.go and internal/lexer/lexer.go: texts of pieces that stand far enough
-- apart for `lexLine` to tell them from each other.
pub mod Digits
pub mod Steps
pub mod Lines
use tya.Prelude.{
  ℕ, zero, suc, ◌+◌, ◌-◌, Bool, true, false, not, ◌&&◌, ◌||◌, List, [], ◌∷◌, ◌++◌, Option, none,
  some, ◌≡◌, refl, sym, ap, subst, ◌∙◌, arith, length, map, append_assoc, append-nil, Bytes, codes,
  ◌==◌, drop,
}
use tya.Text.{byte_in, byte_is}
use tya.Token
use tya.Token.{TokenType, Token}
use tya.Lexer.State.{Lexer, LexError, plain_token, push_token, new_lexer}
use tya.Lexer.Bytes.{is_alpha, is_digit, is_ident_char, all_of, take_while}
use tya.Lexer.Line.{
  Step, space, emit, step, operator_step, two_bytes, one_byte, line_from, of_literal, lex_line,
}
use tya.Formatter.Unparse.{Piece, Pieces, blank, piece, raw, text_of}
use tya.Formatter.Feed.{tokens, place_free, lexed}

-- Whether a text has a first byte that passes a test.
abbrev pub starts : (ℕ → Bool) → Bytes → Bool
starts test [] = false
starts test (c ∷ s) = test c

abbrev pub goes_on_word : ℕ → Bool
goes_on_word c = is_ident_char c || c == b'"'

-- A point in front of a digit.
abbrev pub has_fraction : Bytes → Bool
has_fraction s = byte_is s 0 b'.' && byte_in s 1 b'0' b'9'

abbrev pub goes_on_sign : ℕ → Bool
goes_on_sign c = c == b'=' || c == b'?' || c == b'<' || c == b'>'

-- A byte that begins no blank, word, number or string.
abbrev pub is_sign : ℕ → Bool
is_sign c = not (c == b' ' || is_ident_char c || c == b'"' || c == b'\'')

-- A text that is a token, with no place, in front of what it cannot go on with.
pub data Fits : Token → Bytes → Bytes → Type 0 where
  a_word :
      (c : ℕ) (w r : Bytes)
      → (is_alpha c || c == b'_') ≡ true
      → all_of is_ident_char w ≡ true
      → starts goes_on_word r ≡ false
      → Fits (plain_token Token.ident (c ∷ w) 0 0) (c ∷ w) r
  a_number :
      (c : ℕ) (w r : Bytes)
      → is_digit c ≡ true
      → all_of is_digit w ≡ true
      → starts is_ident_char r ≡ false
      → has_fraction r ≡ false
      → Fits (plain_token Token.int (c ∷ w) 0 0) (c ∷ w) r
  a_sign :
      (c : ℕ) (t : TokenType) (r : Bytes)
      → is_sign c ≡ true
      → one_byte c ≡ some t
      → starts goes_on_sign r ≡ false
      → Fits (plain_token t (c ∷ []) 0 0) (c ∷ []) r
  two_signs :
      (c d : ℕ) (t : TokenType) (r : Bytes)
      → is_sign c ≡ true
      → (c == b'-') ≡ false
      → two_bytes (c ∷ d ∷ []) ≡ some t
      → starts goes_on_sign r ≡ false
      → Fits (plain_token t (c ∷ d ∷ []) 0 0) (c ∷ d ∷ []) r

-- Each piece with a token fits in front of the text of those behind it, and there is no other but
-- blanks.
unfoldable pub Apart : Pieces → Type 0
Apart [] = Unit
Apart (blank ∷ ps) = Apart ps
Apart (piece t s ∷ ps) = Fits t s (text_of ps) × Apart ps
Apart (raw s ∷ ps) = ⊥

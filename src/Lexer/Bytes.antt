-- ===== src/Lexer/Bytes.antt =====
-- internal/lexer/lexer.go: classes of bytes.
use tya.Prelude.{
  ℕ, ◌+◌, ◌-◌, Bool, true, false, ◌&&◌, ◌||◌, [], ◌∷◌, Option, none, some, leb, ◌==◌, if◌then◌else◌,
  Bytes,
}

abbrev pub within : ℕ → ℕ → ℕ → Bool
within lo hi c = leb lo c && leb c hi

-- `isDigit`.
abbrev pub is_digit : ℕ → Bool
is_digit c = within b'0' b'9' c

-- `isAlpha`: the letters below `unicode.MaxASCII`.
abbrev pub is_alpha : ℕ → Bool
is_alpha c = within b'a' b'z' c || within b'A' b'Z' c

-- `isIdentChar`.
abbrev pub is_ident_char : ℕ → Bool
is_ident_char c = within b'a' b'z' c || within b'A' b'Z' c || within b'0' b'9' c || c == b'_'

-- `hexDigit`; `none` is the result -1.
unfoldable pub hex_digit : ℕ → Option ℕ
hex_digit c =
    if within b'0' b'9' c
    then some (c - b'0')
    else if within b'a' b'f' c
    then some (c - b'a' + 10)
    else if within b'A' b'F' c
    then some (c - b'A' + 10)
    else none

unfoldable pub all_of : (ℕ → Bool) → Bytes → Bool
all_of test [] = true
all_of test (c ∷ s) = test c && all_of test s

-- `isLanguageTag`.
unfoldable pub is_language_tag : Bytes → Bool
unfolding all_of
is_language_tag [] = false
is_language_tag (c ∷ s) =
    within b'a' b'z' c && all_of (λ d. within b'a' b'z' d || within b'0' b'9' d || d == b'_') s

-- `isHeredocMarker`.
unfoldable pub is_heredoc_marker : Bytes → Bool
unfolding all_of
is_heredoc_marker [] = false
is_heredoc_marker (c ∷ s) =
    within b'A' b'Z' c && all_of (λ d. within b'A' b'Z' d || within b'0' b'9' d || d == b'_') s

-- The bytes at the front of `s` that pass a test.
unfoldable pub take_while : (ℕ → Bool) → Bytes → Bytes
take_while test [] = []
take_while test (c ∷ s) = if test c then c ∷ take_while test s else []

-- ===== src/Lexer/Comment.antt =====
-- internal/lexer/lexer.go: `splitComment` and `stripComment`.
pub mod Grammar
pub mod Parts
pub mod Cuts
use tya.Prelude.{
  ℕ, suc, ◌+◌, Bool, true, false, ◌&&◌, ◌||◌, not, List, [], ◌∷◌, ◌++◌, Option, none, some, ◌≡◌,
  refl, ◌==◌, if◌then◌else◌, Bytes, codes,
}
use tya.Text.{trim_right}

-- The local state of both loops: the open quote, 0 if there is none, and `escaped`.
pub record Quoting : Type 0 where
  pub quote : ℕ
  pub escaped : Bool

abbrev pub unquoted : Quoting
unquoted = record { quote = 0; escaped = false }

-- What a byte does to that state.
unfoldable pub quoting : Quoting → ℕ → Quoting
quoting q c =
    if q.escaped
    then record q { escaped = false }
    else if not (q.quote == 0) && c == b'\\'
    then record q { escaped = true }
    else if c == b'"' || c == b'\''
    then (if q.quote == 0
        then record q { quote = c }
        else if q.quote == c
        then record q { quote = 0 }
        else q)
    else q

-- A `#` at which the loops return: neither escaped nor inside quotes.
abbrev pub starts_comment : Quoting → ℕ → Bool
starts_comment q c = not q.escaped && c == b'#' && q.quote == 0

-- The results of `splitComment`; `has_comment` is false when there is no `#`.
pub record Split : Type 0 where
  pub stripped : Bytes
  pub comment : Bytes
  pub pos : ℕ
  pub has_comment : Bool

abbrev pub is_blank_byte : ℕ → Bool
is_blank_byte c = c == b' ' || c == b'\t'

-- The loop of `splitComment`: `i` bytes, `seen`, are behind it.
unfoldable pub split_from : Quoting → (i : ℕ) (seen : Bytes) → Bytes → Split
unfolding quoting
split_from q i seen [] = record { stripped = seen; comment = []; pos = 0; has_comment = false }
split_from q i seen (c ∷ s) =
    let later = split_from (quoting q c) (i + 1) (seen ++ c ∷ []) s in
    if starts_comment q c
    then record {
      stripped = seen;
      comment = trim_right is_blank_byte s;
      pos = i;
      has_comment = true;
    }
    else later

unfoldable pub split_comment : Bytes → Split
unfolding split_from
split_comment = split_from unquoted 0 []

-- The loop of `stripComment`.
unfoldable pub strip_from : Quoting → Bytes → Bytes
unfolding quoting
strip_from q [] = []
strip_from q (c ∷ s) = if starts_comment q c then [] else c ∷ strip_from (quoting q c) s

unfoldable pub strip_comment : Bytes → Bytes
unfolding strip_from
strip_comment = strip_from unquoted

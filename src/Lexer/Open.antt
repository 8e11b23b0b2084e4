-- ===== src/Lexer/Open.antt =====
-- internal/lexer/lexer.go: `findStringOpen`, the opening of a string that may run over lines.
use tya.Prelude.{
  ℕ, ◌+◌, ◌-◌, ◌&&◌, [], ◌∷◌, reverse, Option, none, some, ◌≡◌, refl, ltb, ◌==◌, if◌then◌else◌,
  Bytes, codes, take, drop, length,
}
use tya.Text.{has_prefix, byte_is}
use tya.Interp.{triple_quote}
use tya.Lexer.Bytes.{is_ident_char, is_language_tag, take_while}

-- `stringOpen.kind`.
pub data Kind : Type 0 where
  triple heredoc : Kind

-- `stringOpen.prefix`.
pub data OpenPrefix : Type 0 where
  no_prefix raw bytes : OpenPrefix

-- The empty `stringOpen` is `none` of an option; the last field is empty for a good tag.
pub record StringOpen : Type 0 where
  pub kind : Kind
  pub start : ℕ
  pub delim : ℕ
  pub prefix : OpenPrefix
  pub lang : Bytes
  pub marker : Bytes
  pub invalid_tag : Bytes

-- The name that ends in front of the delimiter.
unfoldable pub word_before : Bytes → ℕ → Bytes
unfolding take_while
word_before s delim = reverse (take_while is_ident_char (reverse (take delim s)))

-- `classifyStringPrefix`; `kind` and `delim` are those that the caller sets.
unfoldable pub classify : Kind → Bytes → ℕ → StringOpen
unfolding word_before is_language_tag
classify kind s delim =
    let word = word_before s delim in
    let start = delim - length word in
    let plain : StringOpen = record {
      kind = kind;
      start = delim;
      delim = delim;
      prefix = no_prefix;
      lang = [];
      marker = [];
      invalid_tag = [];
    } in
    if length word == 0
    then plain
    else if length word == 1 && byte_is word 0 b'r'
    then record plain { start = delim - 1; prefix = raw }
    else if length word == 1 && byte_is word 0 b'b'
    then record plain { start = delim - 1; prefix = bytes }
    else if is_language_tag word
    then record plain { start = start; lang = word }
    else record plain { start = start; invalid_tag = word }

-- `best = open` if there is none yet, or if this one starts earlier.
abbrev better : Option StringOpen → StringOpen → Option StringOpen
better none open' = some open'
better (some best) open' = if ltb open'.start best.start then some open' else some best

-- What a round at offset `i` of `s` makes of `best`; `rest` is `s[i:]`.
unfoldable pub open_round :
    (s : Bytes) (i : ℕ) (rest : Bytes) → Option StringOpen → Option StringOpen
unfolding has_prefix classify take_while
open_round s i rest best =
    if has_prefix rest triple_quote
    then better best (classify triple s i)
    else if has_prefix rest (codes "<<<")
    then (let found = classify heredoc s i in
        better best (record found { marker = take_while is_ident_char (drop 3 rest) }))
    else best

unfoldable pub open_from :
    (s : Bytes) (i : ℕ) (rest : Bytes) → Option StringOpen → Option StringOpen
unfolding open_round
open_from s i [] best = best
open_from s i (c ∷ rest) best = open_from s (i + 1) rest (open_round s i (c ∷ rest) best)

unfoldable pub find_string_open : Bytes → Option StringOpen
unfolding open_from
find_string_open s = open_from s 0 s none

open_tests :
    (find_string_open (codes "x = r\"\"\"a\"\"\"")
      ≡ some (record {
        kind = triple;
        start = 4;
        delim = 5;
        prefix = raw;
        lang = [];
        marker = [];
        invalid_tag = [];
      }))
    × (find_string_open (codes "q = sql<<<SQL")
        ≡ some (record {
          kind = heredoc;
          start = 4;
          delim = 7;
          prefix = no_prefix;
          lang = codes "sql";
          marker = codes "SQL";
          invalid_tag = [];
        }))
    × (find_string_open (codes "a << b") ≡ none)
unfolding find_string_open
open_tests = (refl, refl, refl)

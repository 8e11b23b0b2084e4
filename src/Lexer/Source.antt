-- ===== src/Lexer/Source.antt =====
-- internal/lexer/lexer.go: `lex`, all lines of a source.
pub mod Nesting
pub mod Steps
pub mod Total
use tya.Prelude.{
  ℕ, zero, suc, ◌+◌, ◌-◌, ◌%◌, Bool, true, false, ◌&&◌, ◌||◌, not, List, [], ◌∷◌, ◌++◌, Option,
  none, some, ◌>>=◌, ◌≡◌, refl, ltb, leb, ◌==◌, if◌then◌else◌, Bytes, codes, length,
}
use tya.Text.{
  bytes_eq, trim_left, trim_right, is_space, contains_byte, split_lines, unix_lines, is_blank,
}
use tya.Token.{newline, indent, dedent, eof, ident, string, assign, plus, triple}
use tya.Lexer.State.{
  Comment, Lexer, new_lexer, tya_e0001, tya_e0002, tya_e0003, plain_token, string_token, add,
  diag_err,
}
use tya.Lexer.Comment.{Split, split_comment}
use tya.Lexer.Indent.{handle_indent}
use tya.Lexer.Multi.{Read, lex_line_with_lines}

-- `if hasComment { l.comments = append(…) }`.
unfoldable pub keep_comment : (line : ℕ) → Bytes → Split → Lexer → Lexer
unfolding trim_left is_blank
keep_comment line text c l =
    if c.has_comment
    then record l {
      comments =
          l.comments
          ++ record {
            line = line;
            col = c.pos + 1;
            indent = length text - length (trim_left text);
            text = c.comment;
            is_full_line = is_blank c.stripped;
          }
            ∷ [];
    }
    else l

-- What a line without comment and trailing spaces holds.
pub data LineKind : Type 0 where
  empty tabs trailing odd_indent : LineKind
  code : (spaces : ℕ) → LineKind

-- The guards of the loop, in their order.
unfoldable pub line_kind : Bytes → LineKind
unfolding is_blank contains_byte trim_right trim_left bytes_eq
line_kind text =
    let spaces = length text - length (trim_left text) in
    if is_blank text
    then empty
    else if contains_byte b'\t' text
    then tabs
    else if not (bytes_eq (trim_right is_space text) text)
    then trailing
    else if not (spaces % 2 == 0)
    then odd_indent
    else code spaces

-- The newline behind a line, or behind the lines that were read with it.
unfoldable pub end_line : (line : ℕ) → Bytes → Read → Lexer
end_line line raw r =
    if ltb 0 r.consumed
    then add newline [] (line + r.consumed) 1 r.lexer
    else add newline [] line (length raw + 1) r.lexer

-- A line of code: the indentation, and then its tokens.
unfoldable pub code_line :
    (spaces line : ℕ) (raw text : Bytes) (below : List Bytes) → Lexer → Option Read
unfolding handle_indent lex_line_with_lines end_line trim_left
code_line spaces line raw text below l = handle_indent spaces line l >>= λ l'.
    let r = lex_line_with_lines (trim_left text) below line (spaces + 1) l' in
    some (record { consumed = r.consumed; lexer = end_line line raw r })

-- One round of the loop, at a line and those below it.
unfoldable pub lex_one : (line : ℕ) (raw : Bytes) (below : List Bytes) → Lexer → Option Read
unfolding split_comment keep_comment trim_right line_kind code_line
lex_one line raw below l =
    let c = split_comment raw in
    let l' = keep_comment line raw c l in
    let text = trim_right is_space c.stripped in
    elim (line_kind text) [
      | empty ↦ some (record { consumed = 0; lexer = l' })
      | tabs ↦ some (record { consumed = 0; lexer = diag_err tya_e0001 line 1 1 l' })
      | trailing ↦ some (record { consumed = 0; lexer = diag_err tya_e0002 line 1 1 l' })
      | odd_indent ↦ some (record { consumed = 0; lexer = diag_err tya_e0003 line 1 1 l' })
      | code spaces ↦ code_line spaces line raw text below l'
    ]

-- The loop; `skip` lines were read with one above.
unfoldable pub lex_lines : (skip line : ℕ) → List Bytes → Lexer → Option Lexer
unfolding lex_one
lex_lines skip line [] l = some l
lex_lines (suc skip) line (raw ∷ below) l = lex_lines skip (line + 1) below l
lex_lines zero line (raw ∷ below) l = elim (lex_one line raw below l) [
  | none ↦ none
  | some r ↦ lex_lines r.consumed (line + 1) below r.lexer
]

-- `for len(l.ind) > 1`: a DEDENT for each open block.
unfoldable pub close_blocks : (line : ℕ) → List ℕ → Lexer → Lexer
close_blocks line [] l = l
close_blocks line (n ∷ []) l = record l { ind = n ∷ [] }
close_blocks line (n ∷ m ∷ below) l = close_blocks line (m ∷ below) (add dedent [] line 1 l)

unfoldable pub close_source : (lines : ℕ) → Lexer → Lexer
unfolding close_blocks
close_source lines l = add eof [] lines 1 (close_blocks lines l.ind l)

-- `Lex` up to `suppressBracketNewlines`: all that `lex` leaves in the lexer. `none` is a panic.
unfoldable pub lex : Bytes → Option Lexer
unfolding unix_lines split_lines lex_lines close_source
lex src =
    let lines = split_lines (unix_lines src) in
    lex_lines 0 1 lines new_lexer >>= λ l. some (close_source (length lines) l)

lex_test :
    lex (codes "if a\r\n  b # c\n\nd")
    ≡ some (record {
      tokens =
          plain_token ident (codes "if") 1 1
          ∷ plain_token ident (codes "a") 1 4
          ∷ plain_token newline [] 1 5
          ∷ plain_token indent [] 2 1
          ∷ plain_token ident (codes "b") 2 3
          ∷ plain_token newline [] 2 8
          ∷ plain_token dedent [] 4 1
          ∷ plain_token ident (codes "d") 4 1
          ∷ plain_token newline [] 4 2
          ∷ plain_token eof [] 4 1
          ∷ [];
      errs = [];
      ind = 0 ∷ [];
      comments =
          record { line = 2; col = 5; indent = 2; text = codes " c"; is_full_line = false } ∷ [];
    })
unfolding lex
lex_test = refl

-- A text block takes the indentation of its closing line as its margin.
lex_block_test :
    lex (codes "x = \"\"\"\n  a\n   b\n  \"\"\" + y\n")
    ≡ some (record {
      tokens =
          plain_token ident (codes "x") 1 1
          ∷ plain_token assign (codes "=") 1 3
          ∷ string_token string (codes "a\n b\n") 1 5 triple [] []
          ∷ plain_token plus (codes "+") 4 7
          ∷ plain_token ident (codes "y") 4 9
          ∷ plain_token newline [] 4 1
          ∷ plain_token eof [] 5 1
          ∷ [];
      errs = [];
      ind = 0 ∷ [];
      comments = [];
    })
unfolding lex
lex_block_test = refl

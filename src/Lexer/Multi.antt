-- ===== src/Lexer/Multi.antt =====
-- internal/lexer/lexer.go: `lexLineWithLines` and `lexHeredoc`. Go passes all lines and the index of
-- the current one; both functions read only the lines below it, which are the argument `below`.
pub mod Pieces
pub mod Ascends
use tya.Prelude.{
  ℕ, zero, suc, ◌+◌, ◌-◌, Bool, true, false, ◌&&◌, ◌||◌, not, List, [], ◌∷◌, ◌++◌, Option, none,
  some, ◌≡◌, refl, ltb, leb, ◌==◌, if◌then◌else◌, Bytes, codes, get_elem?, take, drop, length,
}
use tya.Text.{bytes_eq, has_prefix, trim_left, contains_byte, index_of, is_blank}
use tya.Token.{
  string, bytes, Token, StringForm, triple, raw_triple, bytes_triple, heredoc, raw_heredoc,
  bytes_heredoc,
}
use tya.Interp.{triple_quote}
use tya.Lexer.State.{
  Code, tya_e0001, tya_e0016, tya_e0017, tya_e0018, tya_e0019, tya_e0020, tya_e0021, LexError, diag,
  Lexer, string_token, push_token, push_error, diag_err, new_lexer,
}
use tya.Lexer.Bytes.{is_heredoc_marker}
use tya.Lexer.Escape.{
  Outcome, failed, closed_at, ended, interpret_bytes_escapes, interpret_escapes, encode_raw_string,
}
use tya.Lexer.Line.{lex_line}
use tya.Lexer.Open.{Kind, OpenPrefix, no_prefix, raw, StringOpen, find_string_open}
use tya.Lexer.Open

-- The line that closes a literal: its place among the lines below, and its text.
pub record Closing : Type 0 where
  pub index : ℕ
  pub text : Bytes

abbrev pub deeper : Option Closing → Option Closing
deeper none = none
deeper (some c) = some (record c { index = suc c.index })

-- The loop that looks for the closing line by a test on the line without its indentation.
unfoldable pub find_closing : (Bytes → Bool) → List Bytes → Option Closing
unfolding trim_left
find_closing closes [] = none
find_closing closes (l ∷ below) =
    let later = deeper (find_closing closes below) in
    if closes (trim_left l) then some (record { index = 0; text = l }) else later

-- `len(ln) - len(trimmed)`.
abbrev pub indent_of : Bytes → ℕ
indent_of l = length l - length (trim_left l)

-- `len(bodyLine) >= n && bodyLine[:n] == strings.Repeat(" ", n)`.
unfoldable pub starts_with_spaces : ℕ → Bytes → Bool
starts_with_spaces zero l = true
starts_with_spaces (suc n) [] = false
starts_with_spaces (suc n) (c ∷ l) = c == b' ' && starts_with_spaces n l

-- A body is a text, or an error on one of its lines.
pub data Body : Type 0 where
  text : Bytes → Body
  fault : LexError → Body

abbrev prepend : Bytes → Body → Body
prepend l (text t) = text (l ++ t)
prepend l (fault e) = fault e

-- A line of the body, without the indentation of the closing line.
unfoldable pub body_line : (indent line : ℕ) → Bytes → Body
unfolding contains_byte starts_with_spaces trim_left
body_line indent line l =
    if contains_byte b'\t' l
    then fault (diag tya_e0001 line 1 1)
    else if length l == 0
    then text (b'\n' ∷ [])
    else if starts_with_spaces indent l
    then text (drop indent l ++ (b'\n' ∷ []))
    else if length (trim_left l) == 0
    then text (b'\n' ∷ [])
    else fault (diag tya_e0017 line 1 1)

-- The loop over the lines of the body; the first one has number `line`.
unfoldable pub body_lines : (indent line : ℕ) → List Bytes → Body
unfolding body_line
body_lines indent line [] = text []
body_lines indent line (l ∷ ls) =
    let rest = body_lines indent (line + 1) ls in
    elim (body_line indent line l) [ fault e ↦ fault e | text t ↦ prepend t rest ]

-- `StringForm` by the prefix and the kind of literal.
abbrev form_of : Kind → OpenPrefix → StringForm
form_of Kind.triple raw = raw_triple
form_of Kind.triple OpenPrefix.bytes = bytes_triple
form_of Kind.triple no_prefix = triple
form_of Kind.heredoc raw = raw_heredoc
form_of Kind.heredoc OpenPrefix.bytes = bytes_heredoc
form_of Kind.heredoc no_prefix = heredoc

abbrev marker_of : StringOpen → Kind → Bytes
marker_of o Kind.triple = []
marker_of o Kind.heredoc = o.marker

-- The token of a literal is added, or an error in its escapes.
pub data Added : Type 0 where
  added : Lexer → Added
  refused : Lexer → Added

abbrev pub interpreted : Outcome → (Bytes → Token) → Lexer → Added
interpreted (failed e) make l = refused (push_error e l)
interpreted (closed_at _ value) make l = added (push_token (make value) l)
interpreted (ended value) make l = added (push_token (make value) l)

-- `switch tq.prefix`, as it stands three times in the two functions.
unfoldable pub add_literal : StringOpen → OpenPrefix → Bytes → (line base_col : ℕ) → Lexer → Added
unfolding encode_raw_string interpret_bytes_escapes interpret_escapes
add_literal o raw body line base_col l = added (
    push_token
      (string_token string (encode_raw_string body) line (base_col + o.start) (form_of o.kind raw)
        [] (marker_of o o.kind))
      l)
add_literal o OpenPrefix.bytes body line base_col l =
    interpreted (interpret_bytes_escapes body line (base_col + o.delim))
      (λ v.
        string_token bytes v line (base_col + o.start) (form_of o.kind OpenPrefix.bytes) []
          (marker_of o o.kind))
      l
add_literal o no_prefix body line base_col l =
    interpreted (interpret_escapes body line (base_col + o.delim))
      (λ v.
        string_token string v line (base_col + o.start) (form_of o.kind no_prefix) o.lang
          (marker_of o o.kind))
      l

-- A line is read; `consumed` counts the lines below it that were read with it.
pub record Read : Type 0 where
  pub consumed : ℕ
  pub lexer : Lexer

abbrev pub read : ℕ → Lexer → Read
read n l = record { consumed = n; lexer = l }

-- The text on the line in front of the literal is lexed first.
unfoldable pub lex_front : Bytes → StringOpen → (line base_col : ℕ) → Lexer → Lexer
unfolding lex_line
lex_front s o line base_col l =
    if ltb 0 o.start then lex_line (take o.start s) line base_col l else l

-- A literal that closes on its own line, at offset `close` of `body`.
unfoldable pub lex_triple_inline :
    (close : ℕ) (body : Bytes) → StringOpen → (line base_col : ℕ) → Lexer → Read
unfolding add_literal lex_line
lex_triple_inline close body o line base_col l =
    let rest = drop (close + 3) body in
    elim (add_literal o o.prefix (take close body) line base_col l) [
      | refused l' ↦ read 0 l'
      | added l' ↦
          if length rest == 0
          then read 0 l'
          else read 0 (lex_line rest line (base_col + o.delim + 3 + close + 3) l')
    ]

-- A literal that closes on a line below; `body` is the rest of its first line.
unfoldable pub lex_triple_block :
    Closing
    → (body : Bytes) → (below : List Bytes) → StringOpen
    → (line base_col : ℕ) → Lexer
    → Read
unfolding body_lines add_literal lex_line
lex_triple_block c body below o line base_col l =
    let consumed = c.index + 1 in
    let indent = indent_of c.text in
    let tail = drop 3 (trim_left c.text) in
    let first = (if length body == 0 then [] else body ++ (b'\n' ∷ [])) in
    elim (body_lines indent (line + 1) (take c.index below)) [
      | fault e ↦ read consumed (push_error e l)
      | text t ↦ elim (add_literal o o.prefix (first ++ t) line base_col l) [
        | refused l' ↦ read consumed l'
        | added l' ↦
            if length tail == 0
            then read consumed l'
            else read consumed (lex_line tail (line + consumed) (indent + 4) l')
      ]
    ]

unfoldable pub lex_triple :
    Bytes → (below : List Bytes) → StringOpen → (line base_col : ℕ) → Lexer → Read
unfolding lex_front index_of lex_triple_inline find_closing has_prefix lex_triple_block
lex_triple s below o line base_col l =
    let front = lex_front s o line base_col l in
    let body = drop (o.delim + 3) s in
    elim (index_of triple_quote body) [
      | some close ↦ lex_triple_inline close body o line base_col front
      | none ↦ elim (find_closing (λ t. has_prefix t triple_quote) below) [
        | none ↦ read 0 (diag_err tya_e0016 line (base_col + o.delim) 3 front)
        | some c ↦ lex_triple_block c body below o line base_col front
      ]
    ]

-- `lexHeredoc`, behind its three tests on the opening line.
unfoldable pub lex_heredoc_block :
    (below : List Bytes) → StringOpen → (line base_col : ℕ) → Lexer → Read
unfolding find_closing bytes_eq body_lines add_literal
lex_heredoc_block below o line base_col l = elim (find_closing (λ t. bytes_eq t o.marker) below) [
  | none ↦ read 0 (diag_err tya_e0021 line (base_col + o.delim) (length o.marker + 3) l)
  | some c ↦ elim (body_lines (indent_of c.text) (line + 1) (take c.index below)) [
    | fault e ↦ read (c.index + 1) (push_error e l)
    | text t ↦ elim (add_literal o o.prefix t line base_col l) [
      | refused l' ↦ read (c.index + 1) l'
      | added l' ↦ read (c.index + 1) l'
    ]
  ]
]

abbrev pub is_raw : OpenPrefix → Bool
is_raw raw = true
is_raw _ = false

unfoldable pub lex_heredoc :
    Bytes → (below : List Bytes) → StringOpen → (line base_col : ℕ) → Lexer → Read
unfolding lex_front is_heredoc_marker is_blank lex_heredoc_block
lex_heredoc s below o line base_col l =
    let front = lex_front s o line base_col l in
    let rest = drop (o.delim + 3) s in
    let report = λ (code : Code) (col len : ℕ). read 0 (diag_err code line col len front) in
    if is_raw o.prefix && not (length o.lang == 0)
    then report tya_e0018 (base_col + o.start) (o.delim - o.start + 3)
    else if length o.marker == 0 || not (is_heredoc_marker o.marker)
    then report tya_e0019 (base_col + o.delim) (length rest + 3)
    else if not (is_blank (drop (length o.marker) rest))
    then report tya_e0020 (base_col + o.delim) (length rest + 3)
    else lex_heredoc_block below o line base_col front

abbrev pub by_kind {ℓ} : {A : Type ℓ} → Kind → A → A → A
by_kind Kind.triple a b = a
by_kind Kind.heredoc a b = b

-- `lexLineWithLines`.
unfoldable pub lex_line_with_lines :
    Bytes → (below : List Bytes) → (line base_col : ℕ) → Lexer → Read
unfolding find_string_open lex_line lex_triple lex_heredoc
lex_line_with_lines s below line base_col l = elim (find_string_open s) [
  | none ↦ read 0 (lex_line s line base_col l)
  | some o ↦
      if not (length o.invalid_tag == 0)
      then read 0 (diag_err tya_e0018 line (base_col + o.start) (length o.invalid_tag) l)
      else by_kind o.kind (lex_triple s below o line base_col l)
          (lex_heredoc s below o line base_col l)
]

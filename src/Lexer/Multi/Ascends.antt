-- ===== src/Lexer/Multi/Ascends.antt =====
-- `lexLineWithLines` reads a line and those that its string literal takes: it adds plain tokens of
-- these lines, in order, and reads no line that is not there.
use tya.Prelude.{
  ℕ, ◌+◌, ◌≤◌, ◌<◌, ◌||◌, ◌&&◌, not, List, [], ◌∷◌, ◌++◌, ◌-◌, Option, none, some, ◌==◌,
  if◌then◌else◌, if_intro, Bytes, take, drop, length,
}
use tya.Text.{bytes_eq, has_prefix, trim_left, index_of, is_blank}
use tya.Interp.{triple_quote}
use tya.Lexer.Bytes.{is_heredoc_marker}
use tya.Lexer.State.{tya_e0016, tya_e0018, tya_e0019, tya_e0020, tya_e0021, Lexer, diag_err}
use tya.Lexer.Adds.{Adds, Ascends}
use tya.Lexer.Line.{lex_line}
use tya.Lexer.Line.Rises.{lex_line-Ascends}
use tya.Lexer.Open.{Kind, StringOpen, find_string_open}
use tya.Lexer.Multi.{
  is_raw, indent_of, Closing, find_closing, body_lines, Read, read, lex_front, lex_triple_inline,
  lex_triple_block, lex_triple, lex_heredoc_block, lex_heredoc, by_kind, lex_line_with_lines,
}
use tya.Lexer.Multi.Pieces.{
  ClosingFits, Reads, find_closing-fits, lex_front-Adds, read_here, Reads-after, body-Reads,
  heredoc_body-Reads, diag-Reads, lex_triple_inline-Reads,
}

-- The test for a closing line, and what is read up to it.
closing-Reads :
    (line : ℕ) (below : List Bytes) (l : Lexer) (o : Option Closing) (missing : Read)
    (found : Closing → Read)
    → ClosingFits below o
    → Reads line below l missing
    → ((c : Closing) → c.index < length below → Reads line below l (found c))
    → Reads line below l (elim o [ none ↦ missing | some c ↦ found c ])
unfolding ClosingFits
closing-Reads line below l none missing found h m f = m
closing-Reads line below l (some c) missing found h m f = f c h

lex_triple_block-Reads :
    (c : Closing) (body : Bytes) (below : List Bytes) (o : StringOpen) (line base_col : ℕ)
    (l : Lexer)
    → c.index < length below
    → Reads line below l (lex_triple_block c body below o line base_col l)
unfolding lex_triple_block
lex_triple_block-Reads c body below o line base_col l h =
    body-Reads c.index line below l h
      (body_lines (indent_of c.text) (line + 1) (take c.index below)) o
      (if length body == 0 then [] else body ++ (b'\n' ∷ [])) (drop 3 (trim_left c.text)) base_col
      (indent_of c.text + 4)

lex_heredoc_block-Reads :
    (below : List Bytes) (o : StringOpen) (line base_col : ℕ) (l : Lexer)
    → Reads line below l (lex_heredoc_block below o line base_col l)
unfolding lex_heredoc_block
lex_heredoc_block-Reads below o line base_col l =
    closing-Reads line below l (find_closing (λ t. bytes_eq t o.marker) below) _ _
      (find_closing-fits (λ t. bytes_eq t o.marker) below)
      (diag-Reads line below l tya_e0021 (base_col + o.delim) (length o.marker + 3))
      (λ c h.
        heredoc_body-Reads c.index line below l h
          (body_lines (indent_of c.text) (line + 1) (take c.index below)) o base_col)

lex_triple-Reads :
    (s : Bytes) (below : List Bytes) (o : StringOpen) (line base_col : ℕ) (l : Lexer)
    → Reads line below l (lex_triple s below o line base_col l)
unfolding lex_triple
lex_triple-Reads s below o line base_col l =
    Reads-after line below l front _ (lex_front-Adds s o line base_col l)
      (go (index_of triple_quote body))
  where
    front : Lexer
    front = lex_front s o line base_col l

    body : Bytes
    body = drop (o.delim + 3) s

    go :
        (i : Option ℕ)
        → Reads line below (lex_front s o line base_col l) (elim i [
          | some close ↦
              lex_triple_inline close
                (drop (o.delim + 3) s)
                o
                line
                base_col
                (lex_front s o line base_col l)
          | none ↦ elim (find_closing (λ t. has_prefix t triple_quote) below) [
            | none ↦
                read 0
                  (diag_err tya_e0016 line (base_col + o.delim) 3 (lex_front s o line base_col l))
            | some c ↦
                lex_triple_block c
                  (drop (o.delim + 3) s)
                  below
                  o
                  line
                  base_col
                  (lex_front s o line base_col l)
          ]
        ])
    go (some close) =
        lex_triple_inline-Reads close (drop (o.delim + 3) s) below o line base_col
          (lex_front s o line base_col l)
    go none =
        closing-Reads line below (lex_front s o line base_col l)
          (find_closing (λ t. has_prefix t triple_quote) below)
          (read 0 (diag_err tya_e0016 line (base_col + o.delim) 3 (lex_front s o line base_col l)))
          (λ c.
            lex_triple_block c (drop (o.delim + 3) s) below o line base_col
              (lex_front s o line base_col l))
          (find_closing-fits (λ t. has_prefix t triple_quote) below)
          (diag-Reads line below (lex_front s o line base_col l) tya_e0016 (base_col + o.delim) 3)
          (λ c h.
            lex_triple_block-Reads c (drop (o.delim + 3) s) below o line base_col
              (lex_front s o line base_col l) h)

lex_heredoc-Reads :
    (s : Bytes) (below : List Bytes) (o : StringOpen) (line base_col : ℕ) (l : Lexer)
    → Reads line below l (lex_heredoc s below o line base_col l)
unfolding lex_heredoc
lex_heredoc-Reads s below o line base_col l =
    let front = lex_front s o line base_col l in
    let rest = drop (o.delim + 3) s in
    Reads-after line below l front _ (lex_front-Adds s o line base_col l) (
      if_intro (Reads line below front) (is_raw o.prefix && not (length o.lang == 0))
        (diag-Reads line below front tya_e0018 (base_col + o.start) (o.delim - o.start + 3))
        (if_intro (Reads line below front)
          (length o.marker == 0 || not (is_heredoc_marker o.marker))
          (diag-Reads line below front tya_e0019 (base_col + o.delim) (length rest + 3))
          (if_intro (Reads line below front) (not (is_blank (drop (length o.marker) rest)))
            (diag-Reads line below front tya_e0020 (base_col + o.delim) (length rest + 3))
            (lex_heredoc_block-Reads below o line base_col front))))

by_kind-Reads :
    (line : ℕ) (below : List Bytes) (l : Lexer) (k : Kind) (a b : Read)
    → Reads line below l a
    → Reads line below l b
    → Reads line below l (by_kind k a b)
by_kind-Reads line below l Kind.triple a b ha hb = ha
by_kind-Reads line below l Kind.heredoc a b ha hb = hb

pub lex_line_with_lines-Reads :
    (s : Bytes) (below : List Bytes) (line base_col : ℕ) (l : Lexer)
    → Reads line below l (lex_line_with_lines s below line base_col l)
unfolding lex_line_with_lines
lex_line_with_lines-Reads s below line base_col l = go (find_string_open s)
  where
    go :
        (o : Option StringOpen)
        → Reads line below l (elim o [
          | none ↦ read 0 (lex_line s line base_col l)
          | some o ↦
              if not (length o.invalid_tag == 0)
              then read 0 (diag_err tya_e0018 line (base_col + o.start) (length o.invalid_tag) l)
              else by_kind o.kind
                  (lex_triple s below o line base_col l)
                  (lex_heredoc s below o line base_col l)
        ])
    go none = read_here line below l _ (lex_line-Ascends s line base_col l)
    go (some o) =
        if_intro (Reads line below l) (not (length o.invalid_tag == 0))
          (diag-Reads line below l tya_e0018 (base_col + o.start) (length o.invalid_tag))
          (by_kind-Reads line below l o.kind _ _ (lex_triple-Reads s below o line base_col l)
            (lex_heredoc-Reads s below o line base_col l))

-- `lexLineWithLines` reads only lines that are there, leaves the indentation stack and the comments
-- alone, and adds plain tokens of the lines that it reads, in the order of these lines.
pub lex_line_with_lines-Adds :
    (s : Bytes) (below : List Bytes) (line base_col : ℕ) (l : Lexer)
    → ((lex_line_with_lines s below line base_col l).consumed ≤ length below)
      × Adds
          (Ascends line (line + (lex_line_with_lines s below line base_col l).consumed))
          l
          (lex_line_with_lines s below line base_col l).lexer
unfolding Reads
lex_line_with_lines-Adds = lex_line_with_lines-Reads

-- ===== src/Lexer/Multi/Pieces.antt =====
-- Steps of the proof that `lexLineWithLines` reads a line and those that its string literal takes:
-- the closing line, the token of the literal, and the text around it.
use tya.Prelude.{
  ℕ, ◌+◌, ◌≤◌, ◌<◌, Bool, true, List, [], ◌∷◌, ◌++◌, Option, none, some, ◌≡◌, refl, arith, ltb,
  ◌==◌, if◌then◌else◌, if_intro, Bytes, take, drop, length,
}
use tya.Text.{trim_left}
use tya.Token.{Token}
use tya.Lexer.State.{diag, Code, Lexer, push_error, diag_err}
use tya.Lexer.Adds.{
  is_plain, Adds, Adds-nothing, Ascends, Adds-then, Adds-widen, Adds-error, Adds-token,
}
use tya.Lexer.Escape.{Outcome, failed, closed_at, ended}
use tya.Lexer.Line.{lex_line}
use tya.Lexer.Line.Rises.{lex_line-Ascends}
use tya.Lexer.Open.{OpenPrefix, no_prefix, raw, StringOpen}
use tya.Lexer.Multi.{
  Closing, deeper, find_closing, Body, text, fault, Added, added, refused, interpreted, add_literal,
  Read, read, lex_front, lex_triple_inline,
}

-- The closing line is one of the lines below.
unfoldable pub ClosingFits : List Bytes → Option Closing → Type 0
ClosingFits below none = Unit
ClosingFits below (some c) = c.index < length below

deeper-fits :
    (l : Bytes) (below : List Bytes) (o : Option Closing)
    → ClosingFits below o
    → ClosingFits (l ∷ below) (deeper o)
unfolding ClosingFits
deeper-fits l below none h = tt
deeper-fits l below (some c) h = omega arith

first-fits :
    (l : Bytes) (below : List Bytes)
    → ClosingFits (l ∷ below) (some (record { index = 0; text = l }))
unfolding ClosingFits
first-fits l below = omega arith

pub find_closing-fits :
    (closes : Bytes → Bool) (below : List Bytes) → ClosingFits below (find_closing closes below)
unfolding find_closing
find_closing-fits closes [] = unfold ClosingFits in tt
find_closing-fits closes (l ∷ below) =
    if_intro (ClosingFits (l ∷ below)) (closes (trim_left l)) (first-fits l below)
      (deeper-fits l below (find_closing closes below) (find_closing-fits closes below))

-- What `lexLineWithLines` promises of a result.
unfoldable pub Reads : (line : ℕ) (below : List Bytes) → Lexer → Read → Type 0
Reads line below l r =
    (r.consumed ≤ length below) × Adds (Ascends line (line + r.consumed)) l r.lexer

AddedFits : (line : ℕ) → Lexer → Added → Type 0
AddedFits line l (added l') = Adds (Ascends line line) l l'
AddedFits line l (refused l') = Adds (Ascends line line) l l'

interpreted-fits :
    (line : ℕ) (o : Outcome) (make : Bytes → Token) (l : Lexer)
    → ((v : Bytes) → (is_plain (make v).type ≡ true) × ((make v).line ≡ line))
    → AddedFits line l (interpreted o make l)
unfolding AddedFits
interpreted-fits line (failed e) make l h = Adds-error line line e l
interpreted-fits line (closed_at _ v) make l h = Adds-token line (make v) l (h v).0 (h v).1
interpreted-fits line (ended v) make l h = Adds-token line (make v) l (h v).0 (h v).1

add_literal-fits :
    (o : StringOpen) (p : OpenPrefix) (body : Bytes) (line base_col : ℕ) (l : Lexer)
    → AddedFits line l (add_literal o p body line base_col l)
unfolding add_literal
add_literal-fits o raw body line base_col l = unfold AddedFits in Adds-token line _ l refl refl
add_literal-fits o OpenPrefix.bytes body line base_col l =
    interpreted-fits line _ _ l (λ v. (refl, refl))
add_literal-fits o no_prefix body line base_col l = interpreted-fits line _ _ l (λ v. (refl, refl))

pub lex_front-Adds :
    (s : Bytes) (o : StringOpen) (line base_col : ℕ) (l : Lexer)
    → Adds (Ascends line line) l (lex_front s o line base_col l)
unfolding lex_front
lex_front-Adds s o line base_col l =
    if_intro (Adds (Ascends line line) l) (ltb 0 o.start)
      (lex_line-Ascends (take o.start s) line base_col l)
      (Adds-nothing (Ascends line line) l l refl refl refl tt)

module _ (line : ℕ) (below : List Bytes) (l : Lexer) where
  pub read_here : (l' : Lexer) → Adds (Ascends line line) l l' → Reads line below l (read 0 l')
  unfolding Reads
  read_here l' a = (omega arith, Adds-widen line line (line + 0) l l' (omega arith) a)

  -- The lines up to a closing line were read.
  read_block :
      (k : ℕ) (l' : Lexer)
      → k < length below
      → Adds (Ascends line line) l l'
      → Reads line below l (read (k + 1) l')
  unfolding Reads
  read_block k l' h a = (omega arith, Adds-widen line line (line + (k + 1)) l l' (omega arith) a)

-- A result that starts from what a first pass over the line left.
pub Reads-after :
    (line : ℕ) (below : List Bytes) (l m : Lexer) (r : Read)
    → Adds (Ascends line line) l m
    → Reads line below m r
    → Reads line below l r
unfolding Reads
Reads-after line below l m r a (h, b) =
    (h, Adds-then line line (line + r.consumed) l m r.lexer (omega arith) (omega arith) a b)

pub lex_triple_inline-Reads :
    (close : ℕ) (body : Bytes) (below : List Bytes) (o : StringOpen) (line base_col : ℕ) (l : Lexer)
    → Reads line below l (lex_triple_inline close body o line base_col l)
unfolding lex_triple_inline
lex_triple_inline-Reads close body below o line base_col l =
    go (add_literal o o.prefix (take close body) line base_col l)
      (add_literal-fits o o.prefix (take close body) line base_col l)
  where
    go :
        (a : Added)
        → AddedFits line l a
        → Reads line below l (elim a [
          | refused l' ↦ read 0 l'
          | added l' ↦
              if length (drop (close + 3) body) == 0
              then read 0 l'
              else read 0
                  (lex_line (drop (close + 3) body) line (base_col + o.delim + 3 + close + 3) l')
        ])
    go (refused l') h = read_here line below l l' (unfold AddedFits in h)
    go (added l') h =
        if_intro (Reads line below l) (length (drop (close + 3) body) == 0)
          (read_here line below l l' (unfold AddedFits in h))
          (Reads-after line below l l' _ (unfold AddedFits in h) (
            read_here line below l' _ (
              lex_line-Ascends (drop (close + 3) body) line (base_col + o.delim + 3 + close + 3)
                l')))

module _ (k line : ℕ) (below : List Bytes) (l : Lexer) (fits : k < length below) where
  -- The text behind the closing quotes is lexed on the closing line.
  tail-Reads :
      (a : Added) (tail : Bytes) (col : ℕ)
      → AddedFits line l a
      → Reads line below l (elim a [
        | refused l' ↦ read (k + 1) l'
        | added l' ↦
            if length tail == 0
            then read (k + 1) l'
            else read (k + 1) (lex_line tail (line + (k + 1)) col l')
      ])
  tail-Reads (refused l') tail col h = read_block line below l k l' fits (unfold AddedFits in h)
  tail-Reads (added l') tail col h =
      if_intro (Reads line below l) (length tail == 0)
        (read_block line below l k l' fits (unfold AddedFits in h)) (unfold Reads in rest)
    where
      first : Adds (Ascends line (line + (k + 1))) l l'
      first = Adds-widen line line (line + (k + 1)) l l' (omega arith) (unfold AddedFits in h)

      rest :
          (k + 1 ≤ length below)
          × Adds (Ascends line (line + (k + 1))) l (lex_line tail (line + (k + 1)) col l')
      rest = (
        omega arith,
        Adds-then line (line + (k + 1)) (line + (k + 1)) l l' _ (omega arith) (omega arith) first
            (lex_line-Ascends tail (line + (k + 1)) col l'),
      )

  pub body-Reads :
      (b : Body) (o : StringOpen) (first tail : Bytes) (base_col col : ℕ)
      → Reads line below l (elim b [
        | fault e ↦ read (k + 1) (push_error e l)
        | text t ↦ elim (add_literal o o.prefix (first ++ t) line base_col l) [
          | refused l' ↦ read (k + 1) l'
          | added l' ↦
              if length tail == 0
              then read (k + 1) l'
              else read (k + 1) (lex_line tail (line + (k + 1)) col l')
        ]
      ])
  body-Reads (fault e) o first tail base_col col =
      read_block line below l k (push_error e l) fits (Adds-error line line e l)
  body-Reads (text t) o first tail base_col col =
      tail-Reads (add_literal o o.prefix (first ++ t) line base_col l) tail col
        (add_literal-fits o o.prefix (first ++ t) line base_col l)

  pub heredoc_body-Reads :
      (b : Body) (o : StringOpen) (base_col : ℕ)
      → Reads line below l (elim b [
        | fault e ↦ read (k + 1) (push_error e l)
        | text t ↦ elim (add_literal o o.prefix t line base_col l) [
          | refused l' ↦ read (k + 1) l'
          | added l' ↦ read (k + 1) l'
        ]
      ])
  heredoc_body-Reads (fault e) o base_col =
      read_block line below l k (push_error e l) fits (Adds-error line line e l)
  heredoc_body-Reads (text t) o base_col =
      go (add_literal o o.prefix t line base_col l) (add_literal-fits o o.prefix t line base_col l)
    where
      go :
          (a : Added)
          → AddedFits line l a
          → Reads line below l
              (elim a [ refused l' ↦ read (k + 1) l' | added l' ↦ read (k + 1) l' ])
      go (refused l') h = read_block line below l k l' fits (unfold AddedFits in h)
      go (added l') h = read_block line below l k l' fits (unfold AddedFits in h)

pub diag-Reads :
    (line : ℕ) (below : List Bytes) (l : Lexer) (code : Code) (col len : ℕ)
    → Reads line below l (read 0 (diag_err code line col len l))
diag-Reads line below l code col len =
    read_here line below l (diag_err code line col len l)
      (Adds-error line line (diag code line col (if ltb len 1 then 1 else len)) l)

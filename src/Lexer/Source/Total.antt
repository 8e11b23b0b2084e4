-- ===== src/Lexer/Source/Total.antt =====
-- `lex` reads every source to its end, and its tokens nest.
use tya.Prelude.{
  ℕ, zero, suc, ◌+◌, ◌≤◌, ◌<◌, List, [], ◌∷◌, ◌++◌, Option, some, ◌≡◌, refl, ap, subst, ◌∙◌, arith,
  length, ltb, if_intro, Bool-cases, inl, inr, Bytes,
}
use tya.Text.{split_lines, unix_lines, trim_left}
use tya.Token.{newline, dedent, eof, Token}
use tya.Lexer.State.{Lexer, new_lexer, plain_token, add, diag_err}
use tya.Lexer.Multi.{Read, lex_line_with_lines}
use tya.Lexer.Multi.Ascends.{lex_line_with_lines-Adds}
use tya.Text.{trim_right, is_space}
use tya.Lexer.State.{tya_e0001, tya_e0002, tya_e0003}
use tya.Lexer.Comment.{split_comment}
use tya.Lexer.Source.{
  keep_comment, LineKind, empty, tabs, trailing, odd_indent, code, line_kind, end_line, code_line,
  lex_one, lex_lines, close_blocks, close_source, lex,
}
use tya.Lexer.Source.Nesting.{nest, Ordered, Inv, Inv-new, Inv-same, Inv-dedent, Inv-Adds}
use tya.Lexer.Source.Steps.{Keeps, Holds, Inv-weaken, handle_indent-Keeps}

-- A round of the loop: it reads lines that are there, and keeps the invariant.
abbrev Goes : (line : ℕ) (below : List Bytes) → Option Read → Type 0
Goes line below o =
    (r : Read) × (o ≡ some r) × (r.consumed ≤ length below) × Holds (line + r.consumed) r.lexer

end_line-Holds :
    (line : ℕ) (raw : Bytes) (r : Read)
    → Holds (line + r.consumed) r.lexer
    → 1 ≤ line
    → Holds (line + r.consumed) (end_line line raw r)
unfolding end_line
end_line-Holds line raw r inv g = elim (Bool-cases (ltb 0 r.consumed)) [
  | inl t ↦ rw t (
      Inv-same (line + r.consumed) (plain_token newline [] (line + r.consumed) 1) inv (omega arith)
        (omega arith) refl (λ d. refl))
  | inr t ↦ rw t (
      Inv-weaken (line + r.consumed)
        (Inv-same line (plain_token newline [] line (length raw + 1)) inv (ground arith) g refl
          (λ d. refl))
        (omega arith))
]

module _ (line hi : ℕ) (h : hi ≤ line) (g : 1 ≤ line) (raw : Bytes) (below : List Bytes) where
  code_line-Goes :
      (spaces : ℕ) (text : Bytes) (l : Lexer)
      → Holds hi l
      → Goes line below (code_line spaces line raw text below l)
  unfolding code_line
  code_line-Goes spaces text l inv =
      let (l', e, inv') = handle_indent-Keeps spaces line hi l inv h g in
      let r : Read = lex_line_with_lines (trim_left text) below line (spaces + 1) l' in
      let (fits, a) = lex_line_with_lines-Adds (trim_left text) below line (spaces + 1) l' in
      rw e (
        record { consumed = r.consumed; lexer = end_line line raw r },
        refl,
        fits,
        end_line-Holds line raw r
            (Inv-Adds line (line + r.consumed) l' r.lexer inv' (omega arith) g (omega arith) a) g,
      )

  -- A line that adds no token.
  stays-Goes :
      (l : Lexer) → Holds hi l → Goes line below (some (record { consumed = 0; lexer = l }))
  stays-Goes l inv = (_, refl, omega arith, Inv-weaken (line + 0) inv (omega arith))

  kind-Goes :
      (k : LineKind) (text : Bytes) (l : Lexer)
      → Holds hi l
      → Goes line below (elim k [
        | empty ↦ some (record { consumed = 0; lexer = l })
        | tabs ↦ some (record { consumed = 0; lexer = diag_err tya_e0001 line 1 1 l })
        | trailing ↦ some (record { consumed = 0; lexer = diag_err tya_e0002 line 1 1 l })
        | odd_indent ↦ some (record { consumed = 0; lexer = diag_err tya_e0003 line 1 1 l })
        | code spaces ↦ code_line spaces line raw text below l
      ])
  kind-Goes empty text l inv = stays-Goes l inv
  kind-Goes tabs text l inv = stays-Goes (diag_err tya_e0001 line 1 1 l) inv
  kind-Goes trailing text l inv = stays-Goes (diag_err tya_e0002 line 1 1 l) inv
  kind-Goes odd_indent text l inv = stays-Goes (diag_err tya_e0003 line 1 1 l) inv
  kind-Goes (code spaces) text l inv = code_line-Goes spaces text l inv

  lex_one-Goes : (l : Lexer) → Holds hi l → Goes line below (lex_one line raw below l)
  unfolding lex_one
  lex_one-Goes l inv =
      let c = split_comment raw in
      let text = trim_right is_space c.stripped in
      kind-Goes (line_kind text) text (keep_comment line raw c l) kept
    where
      kept : Holds hi (keep_comment line raw (split_comment raw) l)
      kept = unfold keep_comment in if_intro (Holds hi) (split_comment raw).has_comment inv inv

lex_lines-Keeps :
    (skip line hi last : ℕ) (ls : List Bytes) (l : Lexer)
    → Holds hi l
    → hi < line + skip
    → skip ≤ length ls
    → 1 ≤ line
    → last + 1 ≡ line + length ls
    → Keeps last (lex_lines skip line ls l)
unfolding lex_lines
lex_lines-Keeps zero line hi last [] l inv h f g e = (l, refl, Inv-weaken last inv (omega arith))
lex_lines-Keeps (suc skip) line hi last [] l inv h f g e = absurd (omega arith)
lex_lines-Keeps (suc skip) line hi last (raw ∷ below) l inv h f g e =
    lex_lines-Keeps skip (line + 1) hi last below l inv (omega arith) (omega arith) (omega arith)
      (omega arith)
lex_lines-Keeps zero line hi last (raw ∷ below) l inv h f g e =
    let (r, eq, fits, inv') = lex_one-Goes line hi (omega arith) g raw below l inv in
    rw (eq, lex_lines)
      (lex_lines-Keeps r.consumed (line + 1) (line + r.consumed) last below r.lexer inv'
        (omega arith) fits (omega arith) (omega arith))

close_blocks-Holds :
    (line hi : ℕ) (ind : List ℕ) (l : Lexer)
    → Inv hi ind l.tokens
    → hi ≤ line
    → 1 ≤ line
    → ((close_blocks line ind l).ind ≡ 0 ∷ []) × Inv line (0 ∷ []) (close_blocks line ind l).tokens
unfolding close_blocks
close_blocks-Holds line hi [] l inv h g = absurd inv.grounded
close_blocks-Holds line hi (n ∷ []) l inv h g = (
  ap (λ k. k ∷ []) inv.grounded,
  Inv-weaken line (subst (λ k. Inv hi (k ∷ []) l.tokens) inv.grounded inv) h,
)
close_blocks-Holds line hi (n ∷ m ∷ below) l inv h g =
    close_blocks-Holds line line (m ∷ below) (add dedent [] line 1 l) (Inv-dedent line inv h g)
      (omega arith) g

split_lines-pos : (s : Bytes) → 0 < length (split_lines s)
unfolding split_lines
split_lines-pos [] = omega arith
split_lines-pos (c ∷ s) = ground (arith, split_lines-pos s)

-- What `lex` leaves of a source of so many lines.
pub record Finished (lines : ℕ) (l : Lexer) : Type 0 where
  pub front : List Token
  pub ends : l.tokens ≡ front ++ plain_token eof [] lines 1 ∷ []
  pub closed : nest 0 l.tokens ≡ some 0
  pub ordered : Ordered 1 lines l.tokens
  pub ind_eq : l.ind ≡ 0 ∷ []

close_source-Finished : (n : ℕ) (l : Lexer) → Holds n l → 0 < n → Finished n (close_source n l)
unfolding close_source
close_source-Finished n l inv pos =
    let m = close_blocks n l.ind l in
    let (base, inv') = close_blocks-Holds n n l.ind l inv (omega arith) pos in
    let done = Inv-same n (plain_token eof [] n 1) inv' (omega arith) pos refl (λ d. refl) in
    record {
      front = m.tokens;
      ends = refl;
      closed = done.nests ∙ ap some (omega (arith, done.height));
      ordered = done.ordered;
      ind_eq = base;
    }

-- `lex` never panics. For every source it ends with the stack as it was, its last token is the EOF
-- on the last line, its INDENT and DEDENT tokens match like brackets, none left open and none closed
-- that is not open, and its tokens are in the order of their lines, all of them lines of the source.
pub lex_total :
    (src : Bytes)
    → (l : Lexer) × (lex src ≡ some l) × Finished (length (split_lines (unix_lines src))) l
unfolding lex
lex_total src =
    let lines = split_lines (unix_lines src) in
    let n = length lines in
    let pos = split_lines-pos (unix_lines src) in
    let (l, e, inv) =
      lex_lines-Keeps 0 1 0 n lines new_lexer Inv-new (omega arith) (omega arith) (omega arith)
        (omega arith) in
    rw e (close_source n l, refl, close_source-Finished n l inv pos)

-- ===== src/Lsp/SemanticTokens/Delta.antt =====
-- What a client reads back from the encoded tokens.
use mathlib.Core.List.{Perm}
use tya.Prelude.{
  ℕ, ◌+◌, ◌-◌, ◌%◌, ◌^◌, ◌≤◌, ◌<◌, true, false, List, [], ◌∷◌, Option, some, ◌≡◌, refl, sym, subst,
  ap, ◌∙◌, ◌⊎◌, inl, inr, arith, ◌==◌, if◌then◌else◌, Bytes, All,
}
use tya.Lexer.Suppress.{Lexed, lex_with_comments}
use tya.Sorting.{
  sort_stable, Sorted, sort_stable-All, sort_stable-perm, sort_stable-Sorted, IsOrdering,
}
use tya.Lsp.SemanticTokens.{
  Symbol, SemanticEvent, stands_before, difference, delta_encode, events_of, semantic_tokens_for,
}

-- How the protocol reads the numbers, five for a token: a line counted from the line before, and a
-- column counted from the token before if that is on the same line.
unfoldable pub decode : (line col : ℕ) → List ℕ → List SemanticEvent
decode line col (dl ∷ dc ∷ len ∷ kind ∷ mods ∷ ns) =
    let place = (if dl == 0 then col + dc else dc) in
    record { line = line + dl; col = place; length = len; kind = kind; mods = mods }
    ∷ decode (line + dl) place ns
decode line col _ = []

-- Every number of the token fits 32 bits.
abbrev pub Fits : SemanticEvent → Type 0
Fits e =
    (e.line < 2 ^ 32)
    × (e.col < 2 ^ 32)
    × (e.length < 2 ^ 32)
    × (e.kind < 2 ^ 32)
    × (e.mods < 2 ^ 32)

-- Tokens in the order of their places, from a place on.
abbrev InOrder : (line col : ℕ) → List SemanticEvent → Type 0
InOrder line col [] = Unit {0}
InOrder line col (e ∷ es) =
    ((line < e.line) ⊎ ((line ≡ e.line) × (col ≤ e.col))) × InOrder e.line e.col es

difference_lem : (n m : ℕ) → m ≤ n → n < 2 ^ 32 → difference n m ≡ n - m
difference_lem n m h k = omega arith

line_back : (n m : ℕ) {P : Type 0} → (m < n) ⊎ ((m ≡ n) × P) → n < 2 ^ 32 → m + difference n m ≡ n
line_back n m (inl h) k = omega arith
line_back n m (inr (h, p)) k = omega arith

col_back :
    (line col : ℕ) (e : SemanticEvent)
    → (line < e.line) ⊎ ((line ≡ e.line) × (col ≤ e.col))
    → e.line < 2 ^ 32
    → e.col < 2 ^ 32
    → (if difference e.line line == 0
        then col + (if e.line == line then difference e.col col else e.col % 2 ^ 32)
        else (if e.line == line then difference e.col col else e.col % 2 ^ 32))
      ≡ e.col
col_back line col e (inl h) a b =
    let d : difference e.line line ≡ e.line - line = difference_lem e.line line (omega arith) a in
    ground arith
col_back line col e (inr (h, k)) a b =
    let d : difference e.line line ≡ 0 = difference_lem e.line line (omega arith) a ∙ omega arith in
    let c : difference e.col col ≡ e.col - col = difference_lem e.col col k b in ground arith

delta_encode-decode :
    (line col : ℕ) (es : List SemanticEvent)
    → InOrder line col es
    → All Fits es
    → decode line col (delta_encode line col es) ≡ es
unfolding decode delta_encode
delta_encode-decode line col [] o f = refl
delta_encode-decode line col (e ∷ es) (h, o) ((a, b, c, d, m), f) =
    rw (col_back line col e h a b, line_back e.line line h a, small e.length c, small e.kind d)
      (ap (◌∷◌ e) (delta_encode-decode e.line e.col es o f))
  where
    small : (n : ℕ) → n < 2 ^ 32 → n % 2 ^ 32 ≡ n
    small n k = omega arith

stands_before-IsOrdering : IsOrdering stands_before
stands_before-IsOrdering = record { one_way = one_way; chain = chain }
  where
    one_way : (a b : SemanticEvent) → stands_before a b ≡ true → stands_before b a ≡ false
    one_way a b h = unfold stands_before in ground arith

    chain :
        (a b c : SemanticEvent)
        → stands_before a b ≡ false
        → stands_before b c ≡ false
        → stands_before a c ≡ false
    chain a b c h k = unfold stands_before in ground arith

Sorted-InOrder :
    (e : SemanticEvent) (es : List SemanticEvent)
    → Sorted stands_before (e ∷ es)
    → InOrder e.line e.col es
unfolding stands_before
Sorted-InOrder e [] s = tt
Sorted-InOrder e (x ∷ es) ((h, a), s) = (ground arith, Sorted-InOrder x es s)

first_InOrder : (es : List SemanticEvent) → Sorted stands_before es → InOrder 0 0 es
first_InOrder [] s = tt
first_InOrder (e ∷ es) s = (ground arith, Sorted-InOrder e es s)

-- If the numbers of all tokens fit 32 bits, a client reads from the encoding exactly the tokens and
-- comments that were classified, each once, in the order of their places.
pub semantic_tokens_for-decode :
    (index : Bytes → Option Symbol) (src : Bytes) {l : Lexed}
    → lex_with_comments src ≡ some l
    → All Fits (events_of index l.tokens l.comments)
    → (ns : List ℕ) × (semantic_tokens_for index src ≡ some ns)
      × Perm (decode 0 0 ns) (events_of index l.tokens l.comments)
      × Sorted stands_before (decode 0 0 ns)
unfolding semantic_tokens_for
semantic_tokens_for-decode index src {l} e f =
    let es = sort_stable stands_before (events_of index l.tokens l.comments) in
    let sorted : Sorted stands_before es =
      sort_stable-Sorted stands_before stands_before-IsOrdering
        (events_of index l.tokens l.comments) in
    let back : decode 0 0 (delta_encode 0 0 es) ≡ es =
      delta_encode-decode 0 0 es (first_InOrder es sorted)
        (sort_stable-All stands_before Fits (events_of index l.tokens l.comments) f) in
    (
      delta_encode 0 0 es,
      rw (e, semantic_tokens_for) refl,
      subst (λ d. Perm d (events_of index l.tokens l.comments)) (sym back)
          (sort_stable-perm stands_before (events_of index l.tokens l.comments)),
      subst (Sorted stands_before) (sym back) sorted,
    )

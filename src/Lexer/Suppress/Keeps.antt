-- ===== src/Lexer/Suppress/Keeps.antt =====
-- What `suppressBracketNewlines` keeps: it drops marks of the layout only, and all inside brackets.
use tya.Prelude.{
  ℕ, zero, suc, true, false, ◌&&◌, List, [], ◌∷◌, ◌≡◌, refl, sym, ◌∙◌, arith, ◌⊎◌, inl, inr,
  Bool-cases, subst, ltb, if◌then◌else◌,
}
use tya.Token.{TokenType, Token, is_layout, is_newline, is_indent, is_dedent}
use tya.Lexer.Suppress.{
  bracket_depth, continues_indented, Round, keep, omit, round, suppress_from,
  suppress_bracket_newlines,
}

-- The tokens that are no NEWLINE, INDENT or DEDENT.
pub code_tokens : List Token → List Token
code_tokens [] = []
code_tokens (t ∷ ts) = if is_layout t.type then code_tokens ts else t ∷ code_tokens ts

code_tokens_layout :
    (t : Token) (ts : List Token) → is_layout t.type ≡ true → code_tokens (t ∷ ts) ≡ code_tokens ts
unfolding code_tokens
code_tokens_layout t ts h = rw h

-- What a round drops: a mark of the layout, and an INDENT behind it if it drops two tokens.
Drops : Token → List Token → Round → Type 0
Drops t rest keep = Unit
Drops t rest (omit zero p) = is_layout t.type ≡ true
Drops t rest (omit (suc zero) p) = (is_layout t.type ≡ true) × (continues_indented rest ≡ true)
Drops t rest (omit (suc (suc k)) p) = ⊥

is_newline-layout : (t : TokenType) → is_newline t ≡ true → is_layout t ≡ true
is_newline-layout t h = ground arith

is_indent-layout : (t : TokenType) → is_indent t ≡ true → is_layout t ≡ true
is_indent-layout t h = ground arith

is_dedent-layout : (t : TokenType) → is_dedent t ≡ true → is_layout t ≡ true
is_dedent-layout t h = ground arith

round-Drops :
    (depth pending : ℕ) (t : Token) (rest : List Token) → Drops t rest (round depth pending t rest)
unfolding round Drops
round-Drops depth pending t rest =
    ground (arith, is_newline-layout t.type, is_indent-layout t.type, is_dedent-layout t.type)

Round-cases : (r : Round) → (r ≡ keep) ⊎ ((k p : ℕ) × (r ≡ omit k p))
Round-cases keep = inl refl
Round-cases (omit k p) = inr (k, p, refl)

-- What the loop knows of a token that it is about to skip.
Skips : ℕ → List Token → Type 0
Skips zero ts = Unit
Skips (suc zero) ts = continues_indented ts ≡ true
Skips (suc (suc k)) ts = ⊥

Drops-Skips : (t : Token) (rest : List Token) (k p : ℕ) → Drops t rest (omit k p) → Skips k rest
unfolding Drops Skips
Drops-Skips t rest zero p h = tt
Drops-Skips t rest (suc zero) p h = h.1
Drops-Skips t rest (suc (suc k)) p h = h

Drops-layout :
    (t : Token) (rest : List Token) (k p : ℕ) → Drops t rest (omit k p) → is_layout t.type ≡ true
unfolding Drops
Drops-layout t rest zero p h = h
Drops-layout t rest (suc zero) p h = h.0
Drops-layout t rest (suc (suc k)) p h = absurd h

continues_indented-layout :
    (t : Token) (rest : List Token) → continues_indented (t ∷ rest) ≡ true → is_layout t.type ≡ true
unfolding continues_indented
continues_indented-layout t rest h = ground (arith, is_indent-layout t.type)

code_tokens-cons :
    (t : Token) (xs ys : List Token)
    → code_tokens xs ≡ code_tokens ys
    → code_tokens (t ∷ xs) ≡ code_tokens (t ∷ ys)
unfolding code_tokens
code_tokens-cons t xs ys h = rw h

suppress_from-code :
    (skip depth pending : ℕ) (ts : List Token)
    → Skips skip ts
    → code_tokens (suppress_from skip depth pending ts) ≡ code_tokens ts
unfolding suppress_from
suppress_from-code zero d p [] h = refl
suppress_from-code (suc k) d p [] h = refl
suppress_from-code (suc zero) d p (t ∷ ts) h =
    suppress_from-code zero d p ts (unfold Skips in tt)
    ∙ sym (code_tokens_layout t ts (continues_indented-layout t ts (unfold Skips in h)))
suppress_from-code (suc (suc k)) d p (t ∷ ts) h = absurd (unfold Skips in h)
suppress_from-code zero d p (t ∷ ts) h =
    go (round (bracket_depth d t.type) p t ts) (round-Drops (bracket_depth d t.type) p t ts)
      (λ k q. suppress_from-code k (bracket_depth d t.type) q ts)
  where
    go :
        (r : Round)
        → Drops t ts r
        → ((k q : ℕ)
            → Skips k ts
            → code_tokens (suppress_from k (bracket_depth d t.type) q ts) ≡ code_tokens ts)
        → code_tokens (elim r [
          | keep ↦ t ∷ suppress_from zero (bracket_depth d t.type) p ts
          | omit k q ↦ suppress_from k (bracket_depth d t.type) q ts
        ])
          ≡ code_tokens (t ∷ ts)
    go keep g ih = code_tokens-cons t _ ts (ih zero p (unfold Skips in tt))
    go (omit k q) g ih =
        ih k q (Drops-Skips t ts k q g) ∙ sym (code_tokens_layout t ts (Drops-layout t ts k q g))

-- Inside brackets that are open before a list of tokens, or that it opens, there is no mark of the
-- layout.
abbrev pub Clean : ℕ → List Token → Type 0
Clean depth [] = Unit
Clean depth (t ∷ ts) =
    ((ltb 0 (bracket_depth depth t.type) && is_layout t.type) ≡ false)
    × Clean (bracket_depth depth t.type) ts

bracket_depth_layout : (d : ℕ) (t : TokenType) → is_layout t ≡ true → bracket_depth d t ≡ d
bracket_depth_layout d t h = ground arith

round-keep :
    (d p : ℕ) (t : Token) (rest : List Token)
    → round d p t rest ≡ keep
    → (ltb 0 d && is_layout t.type) ≡ false
unfolding round
round-keep d p t rest h = elim (Bool-cases (ltb 0 d && is_layout t.type)) [
  | inl e ↦ cc (rw e at h)
  | inr e ↦ e
]

suppress_from-Clean :
    (skip depth pending : ℕ) (ts : List Token)
    → Skips skip ts
    → Clean depth (suppress_from skip depth pending ts)
unfolding suppress_from
suppress_from-Clean zero d p [] h = tt
suppress_from-Clean (suc k) d p [] h = tt
suppress_from-Clean (suc zero) d p (t ∷ ts) h = suppress_from-Clean zero d p ts (unfold Skips in tt)
suppress_from-Clean (suc (suc k)) d p (t ∷ ts) h = absurd (unfold Skips in h)
suppress_from-Clean zero d p (t ∷ ts) h =
    go (round (bracket_depth d t.type) p t ts) refl (round-Drops (bracket_depth d t.type) p t ts)
      (λ k q. suppress_from-Clean k (bracket_depth d t.type) q ts)
  where
    go :
        (r : Round)
        → round (bracket_depth d t.type) p t ts ≡ r
        → Drops t ts r
        → ((k q : ℕ)
            → Skips k ts
            → Clean (bracket_depth d t.type) (suppress_from k (bracket_depth d t.type) q ts))
        → Clean d (elim r [
          | keep ↦ t ∷ suppress_from zero (bracket_depth d t.type) p ts
          | omit k q ↦ suppress_from k (bracket_depth d t.type) q ts
        ])
    go keep e g ih = (round-keep (bracket_depth d t.type) p t ts e, ih zero p (unfold Skips in tt))
    go (omit k q) e g ih =
        subst (λ n. Clean n (suppress_from k (bracket_depth d t.type) q ts))
          (bracket_depth_layout d t.type (Drops-layout t ts k q g))
          (ih k q (Drops-Skips t ts k q g))

-- `suppressBracketNewlines` keeps every token that is no NEWLINE, INDENT or DEDENT, in order, and
-- leaves none of these three between an open `(` or `[` and its end.
pub suppress-keeps :
    (ts : List Token)
    → (code_tokens (suppress_bracket_newlines ts) ≡ code_tokens ts)
      × Clean 0 (suppress_bracket_newlines ts)
unfolding suppress_bracket_newlines
suppress-keeps ts = (
  suppress_from-code 0 0 0 ts (unfold Skips in tt),
  suppress_from-Clean 0 0 0 ts (unfold Skips in tt),
)

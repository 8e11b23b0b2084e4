-- ===== src/Lexer/Comment/Parts.antt =====
-- internal/lexer/lexer.go: what the loop of `splitComment` passes.
use tya.Prelude.{
  ℕ, ◌+◌, Bool, true, false, [], ◌∷◌, ◌++◌, append-nil, ◌≡◌, ◌≢◌, refl, sym, ap, ◌∙◌, inl, inr,
  arith, Bool-cases, subst, Bytes, ◌==◌,
}
use tya.Text.{trim_right}
use tya.Lexer.Comment.{Quoting, unquoted, quoting, starts_comment, is_blank_byte, split_from}
use tya.Lexer.Comment.Grammar.{
  IsQuote, Code, none, byte, opens, Quoted, unclosed, backslash_last, within, escape, closes, Parts,
  Parts-cons,
}

abbrev inside_quote : ℕ → Quoting
inside_quote q = record { quote = q; escaped = false }

abbrev behind_backslash : ℕ → Quoting
behind_backslash q = record { quote = q; escaped = true }

-- Behind a backslash inside quotes.
abbrev Escaped : ℕ → Bool → Bytes → Type 0
Escaped q closed s = Quoted q closed (b'\\' ∷ s)

-- What a byte does to the state of the loops.
module _ (c : ℕ) where
  quoting_plain : (c == b'"') ≡ false → (c == b'\'') ≡ false → quoting unquoted c ≡ unquoted
  unfolding quoting
  quoting_plain a b = rw (a, b) refl

  quoting_open : IsQuote c → quoting unquoted c ≡ inside_quote c
  unfolding quoting
  quoting_open (inl e) = ap (λ d. quoting unquoted d) e ∙ ap inside_quote (sym e)
  quoting_open (inr e) = ap (λ d. quoting unquoted d) e ∙ ap inside_quote (sym e)

quoting_within :
    (q c : ℕ)
    → IsQuote q
    → (c == q) ≡ false
    → (c == b'\\') ≡ false
    → quoting (inside_quote q) c ≡ inside_quote q
unfolding quoting
quoting_within q c (inl e) a b = ground (arith, e, a, b)
quoting_within q c (inr e) a b = ground (arith, e, a, b)

quoting_backslash : (q : ℕ) → IsQuote q → quoting (inside_quote q) b'\\' ≡ behind_backslash q
unfolding quoting
quoting_backslash q (inl e) =
    subst (λ k. quoting (inside_quote k) b'\\' ≡ behind_backslash k) (sym e) refl
quoting_backslash q (inr e) =
    subst (λ k. quoting (inside_quote k) b'\\' ≡ behind_backslash k) (sym e) refl

quoting_close : (q : ℕ) → IsQuote q → quoting (inside_quote q) q ≡ unquoted
unfolding quoting
quoting_close q (inl e) = subst (λ k. quoting (inside_quote k) k ≡ unquoted) (sym e) refl
quoting_close q (inr e) = subst (λ k. quoting (inside_quote k) k ≡ unquoted) (sym e) refl

-- A round that goes on.
split_from-on :
    (q q' : Quoting) (i : ℕ) (seen : Bytes) (c : ℕ) (s : Bytes)
    → starts_comment q c ≡ false
    → quoting q c ≡ q'
    → split_from q' (i + 1) (seen ++ c ∷ []) s ≡ split_from q i seen (c ∷ s)
unfolding split_from
split_from-on q q' i seen c s h e =
    ap (λ k. split_from k (i + 1) (seen ++ c ∷ []) s) (sym e) ∙ rw h refl

split_from-end :
    (q : Quoting) (i : ℕ) (seen : Bytes)
    → split_from q i seen []
      ≡ record { stripped = seen ++ []; comment = []; pos = 0; has_comment = false }
unfolding split_from
split_from-end q i seen =
    ap (λ p. record { stripped = p; comment = []; pos = 0; has_comment = false })
      (sym (append-nil seen))

hash-Parts :
    (i : ℕ) (seen : Bytes) (c : ℕ) (s : Bytes)
    → (c == b'#') ≡ true
    → Parts Code i seen (c ∷ s) (split_from unquoted i seen (c ∷ s))
unfolding split_from
hash-Parts i seen c s h = inl (
  [],
  s,
  ap (λ d. d ∷ s) (ground (arith, h)),
  none,
  rw h (
      ap
        (λ p. record {
          stripped = p;
          comment = trim_right is_blank_byte s;
          pos = i;
          has_comment = true;
        })
        (sym (append-nil seen))
      ∙ ap
          (λ n. record {
            stripped = seen ++ [];
            comment = trim_right is_blank_byte s;
            pos = n;
            has_comment = true;
          })
          (omega arith)),
)

-- The loop outside quotes, inside, and behind a backslash inside.
abbrev OutsideParts : Bytes → Type 0
OutsideParts s = (i : ℕ) (seen : Bytes) → Parts Code i seen s (split_from unquoted i seen s)

abbrev QuotedParts : ℕ → Bytes → Type 0
QuotedParts q s =
    (i : ℕ) (seen : Bytes) → Parts (Quoted q) i seen s (split_from (inside_quote q) i seen s)

abbrev EscapedParts : ℕ → Bytes → Type 0
EscapedParts q s =
    (i : ℕ) (seen : Bytes) → Parts (Escaped q) i seen s (split_from (behind_backslash q) i seen s)

on-Parts :
    (G H : Bool → Bytes → Type 0) (q q' : Quoting) (i : ℕ) (seen : Bytes) (c : ℕ) (s : Bytes)
    → starts_comment q c ≡ false
    → quoting q c ≡ q'
    → ((closed : Bool) (t : Bytes) → G closed t → H closed (c ∷ t))
    → Parts G (i + 1) (seen ++ c ∷ []) s (split_from q' (i + 1) (seen ++ c ∷ []) s)
    → Parts H i seen (c ∷ s) (split_from q i seen (c ∷ s))
on-Parts G H q q' i seen c s h e make parts =
    subst (Parts H i seen (c ∷ s)) (split_from-on q q' i seen c s h e)
      (Parts-cons G H i seen c s _ make parts)

test-ne : (a b : ℕ) → (a == b) ≡ false → a ≢ b
test-ne a b h e = ground (arith, h, e)

open-Parts :
    (c : ℕ) (s : Bytes) (i : ℕ) (seen : Bytes)
    → IsQuote c
    → QuotedParts c s
    → Parts Code i seen (c ∷ s) (split_from unquoted i seen (c ∷ s))
open-Parts c s i seen h go =
    on-Parts (Quoted c) Code unquoted (inside_quote c) i seen c s (not_hash h) (quoting_open c h)
      (λ closed t g. opens c t h g) (go (i + 1) (seen ++ c ∷ []))
  where
    not_hash : IsQuote c → starts_comment unquoted c ≡ false
    not_hash (inl e) = rw e refl
    not_hash (inr e) = rw e refl

outside_step :
    (c : ℕ) (s : Bytes)
    → OutsideParts s
    → ((q : ℕ) → IsQuote q → QuotedParts q s)
    → OutsideParts (c ∷ s)
outside_step c s out in_quotes i seen = elim (Bool-cases (c == b'#')) [
  | inl h ↦ hash-Parts i seen c s h
  | inr h ↦ elim (Bool-cases (c == b'"')) [
    | inl d ↦
        open-Parts c s i seen (inl (ground (arith, d))) (in_quotes c (inl (ground (arith, d))))
    | inr d ↦ elim (Bool-cases (c == b'\'')) [
      | inl k ↦
          open-Parts c s i seen (inr (ground (arith, k))) (in_quotes c (inr (ground (arith, k))))
      | inr k ↦
          on-Parts Code Code unquoted unquoted i seen c s (rw h refl) (quoting_plain c d k)
            (λ closed t g. byte c t (test-ne c b'#' h) (test-ne c b'"' d) (test-ne c b'\'' k) g)
            (out (i + 1) (seen ++ c ∷ []))
    ]
  ]
]

quoted_byte : (q c : ℕ) → IsQuote q → starts_comment (inside_quote q) c ≡ false
quoted_byte q c (inl e) = ground (arith, e)
quoted_byte q c (inr e) = ground (arith, e)

quoted_step :
    (q : ℕ)
    → IsQuote q
    → (c : ℕ) (s : Bytes) → OutsideParts s
    → QuotedParts q s
    → EscapedParts q s
    → QuotedParts q (c ∷ s)
quoted_step q h c s out on escaped i seen = elim (Bool-cases (c == q)) [
  | inl e ↦
      let same : c ≡ q = ground (arith, e) in
      on-Parts Code (Quoted q) (inside_quote q) unquoted i seen c s (quoted_byte q c h)
        (ap (quoting (inside_quote q)) same ∙ quoting_close q h)
        (λ closed t g. subst (λ d. Quoted q closed (d ∷ t)) (sym same) (closes q t g))
        (out (i + 1) (seen ++ c ∷ []))
  | inr e ↦ elim (Bool-cases (c == b'\\')) [
    | inl b ↦
        let same : c ≡ b'\\' = ground (arith, b) in
        on-Parts (Escaped q) (Quoted q) (inside_quote q) (behind_backslash q) i seen c s
          (quoted_byte q c h) (ap (quoting (inside_quote q)) same ∙ quoting_backslash q h)
          (λ closed t g. subst (λ d. Quoted q closed (d ∷ t)) (sym same) g)
          (escaped (i + 1) (seen ++ c ∷ []))
    | inr b ↦
        on-Parts (Quoted q) (Quoted q) (inside_quote q) (inside_quote q) i seen c s
          (quoted_byte q c h) (quoting_within q c h e b)
          (λ closed t g. within q c t (test-ne c q e) (test-ne c b'\\' b) g)
          (on (i + 1) (seen ++ c ∷ []))
  ]
]

escaped_step : (q c : ℕ) (s : Bytes) → QuotedParts q s → EscapedParts q (c ∷ s)
unfolding quoting
escaped_step q c s on i seen =
    on-Parts (Quoted q) (Escaped q) (behind_backslash q) (inside_quote q) i seen c s refl refl
      (λ closed t g. escape q c t g) (on (i + 1) (seen ++ c ∷ []))

pub all-Parts :
    (s : Bytes) → OutsideParts s × ((q : ℕ) → IsQuote q → QuotedParts q s × EscapedParts q s)
all-Parts [] = (
  λ i seen. inr (true, none, split_from-end unquoted i seen),
  λ q h. (
    λ i seen. inr (false, unclosed q, split_from-end (inside_quote q) i seen),
    λ i seen. inr (false, backslash_last q, split_from-end (behind_backslash q) i seen),
  ),
)
all-Parts (c ∷ s) =
    let rest = all-Parts s in
    let quotes = rest.1 in
    (
      outside_step c s rest.0 (λ q h. (quotes q h).0),
      λ q h. (
        quoted_step q h c s rest.0 (quotes q h).0 (quotes q h).1,
        escaped_step q c s (quotes q h).0,
      ),
    )

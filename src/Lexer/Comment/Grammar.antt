-- ===== src/Lexer/Comment/Grammar.antt =====
-- internal/lexer/lexer.go: a grammar of the lines that `splitComment` reads.
use tya.Prelude.{
  ℕ, ◌+◌, Bool, true, false, [], ◌∷◌, ◌++◌, append_assoc, ◌≡◌, ◌≢◌, ap, ◌∙◌, ◌⊎◌, inl, inr, arith,
  Bytes, length,
}
use tya.Text.{trim_right}
use tya.Lexer.Comment.{Split, is_blank_byte}

abbrev pub IsQuote : ℕ → Type 0
IsQuote c = (c ≡ b'"') ⊎ (c ≡ b'\'')

-- Texts in which every `#` is inside quotes. A quote ends at the next of its kind, and a backslash
-- inside quotes keeps the next byte; outside, it is a byte like others. `closed` says that the text
-- ends outside quotes.
mutual
  pub data Code : (closed : Bool) → Bytes → Type 0 where
    none : Code true []
    byte :
        {closed : Bool} (c : ℕ) (s : Bytes)
        → c ≢ b'#'
        → c ≢ b'"'
        → c ≢ b'\''
        → Code closed s
        → Code closed (c ∷ s)
    opens :
        {closed : Bool} (q : ℕ) (s : Bytes) → IsQuote q → Quoted q closed s → Code closed (q ∷ s)

  -- Behind an opening quote `q`.
  pub data Quoted : (q : ℕ) → (closed : Bool) → Bytes → Type 0 where
    unclosed : (q : ℕ) → Quoted q false []
    backslash_last : (q : ℕ) → Quoted q false (b'\\' ∷ [])
    within :
        {closed : Bool} (q c : ℕ) (s : Bytes)
        → c ≢ q
        → c ≢ b'\\'
        → Quoted q closed s
        → Quoted q closed (c ∷ s)
    escape :
        {closed : Bool} (q c : ℕ) (s : Bytes) → Quoted q closed s → Quoted q closed (b'\\' ∷ c ∷ s)
    closes : {closed : Bool} (q : ℕ) (s : Bytes) → Code closed s → Quoted q closed (q ∷ s)

-- The result of the loop behind `i` bytes, `seen`, by what `G` says of the bytes to come.
abbrev pub Parts : (Bool → Bytes → Type 0) → ℕ → Bytes → Bytes → Split → Type 0
Parts G i seen s r =
    ((front : Bytes) × (rest : Bytes) × (s ≡ front ++ b'#' ∷ rest)
      × G true front
      × (r ≡ record {
        stripped = seen ++ front;
        comment = trim_right is_blank_byte rest;
        pos = i + length front;
        has_comment = true;
      }))
    ⊎ ((closed : Bool) × G closed s
        × (r ≡ record { stripped = seen ++ s; comment = []; pos = 0; has_comment = false }))

-- One byte more in front.
pub Parts-cons :
    (G H : Bool → Bytes → Type 0) (i : ℕ) (seen : Bytes) (c : ℕ) (s : Bytes) (r : Split)
    → ((closed : Bool) (t : Bytes) → G closed t → H closed (c ∷ t))
    → Parts G (i + 1) (seen ++ c ∷ []) s r
    → Parts H i seen (c ∷ s) r
Parts-cons G H i seen c s r make (inl (front, rest, joins, g, e)) = inl (
  c ∷ front,
  rest,
  ap (◌∷◌ c) joins,
  make true front g,
  e
      ∙ ap
          (λ p. record {
            stripped = p;
            comment = trim_right is_blank_byte rest;
            pos = i + 1 + length front;
            has_comment = true;
          })
          (append_assoc seen (c ∷ []) front)
      ∙ ap
          (λ p. record {
            stripped = seen ++ c ∷ front;
            comment = trim_right is_blank_byte rest;
            pos = p;
            has_comment = true;
          })
          (omega arith),
)
Parts-cons G H i seen c s r make (inr (closed, g, e)) = inr (
  closed,
  make closed s g,
  e
      ∙ ap (λ p. record { stripped = p; comment = []; pos = 0; has_comment = false })
          (append_assoc seen (c ∷ []) s),
)

-- ===== src/Lexer/Escape/Hex.antt =====
-- Every sequence of bytes can be written in a bytes literal: as one `\xHH` for each byte.
use tya.Prelude.{
  ℕ, ◌+◌, ◌-◌, ◌*◌, ◌/◌, ◌%◌, ◌<◌, [], ◌∷◌, ◌++◌, append_assoc, append-nil, some, ◌≡◌, refl, sym,
  ap, ◌∙◌, arith, ltb, if◌then◌else◌, Bytes, All,
}
use tya.Lexer.Bytes.{hex_digit}
use tya.Lexer.Escape.{Round, on, ended, scan, hex_escape, bytes_round, interpret_bytes_escapes}

-- A digit in base 16.
abbrev pub hex_char : ℕ → ℕ
hex_char d = if ltb d 10 then b'0' + d else b'a' + (d - 10)

pub hex_text : Bytes → Bytes
hex_text [] = []
hex_text (c ∷ s) = b'\\' ∷ b'x' ∷ hex_char (c / 16) ∷ hex_char (c % 16) ∷ hex_text s

hex_digit-hex_char : (d : ℕ) → d < 16 → hex_digit (hex_char d) ≡ some d
unfolding hex_digit
hex_digit-hex_char d h = ground arith

hex_escape_round :
    (line col i a b hi lo : ℕ) (s : Bytes)
    → hex_digit a ≡ some hi
    → hex_digit b ≡ some lo
    → bytes_round line col i (b'\\' ∷ b'x' ∷ a ∷ b ∷ s) ≡ on 3 ((hi * 16 + lo) ∷ [])
unfolding bytes_round hex_escape
hex_escape_round line col i a b hi lo s h l = ground arith

scan_on :
    (round : ℕ → Bytes → Round) (i c k : ℕ) (out w s : Bytes)
    → round i (c ∷ s) ≡ on k w
    → scan round 0 i out (c ∷ s) ≡ scan round k (i + 1) (out ++ w) s
unfolding scan
scan_on round i c k out w s h = rw (h, scan) refl

scan-hex_text :
    (line col i : ℕ) (s out : Bytes)
    → All (λ c. c < 256) s
    → scan (bytes_round line col) 0 i out (hex_text s) ≡ ended (out ++ s)
unfolding hex_text scan
scan-hex_text line col i [] out h = ap ended (sym (append-nil out))
scan-hex_text line col i (c ∷ s) out (h, hs) =
    let hi = c / 16 in
    let lo = c % 16 in
    scan_on (bytes_round line col) i b'\\' 3 out ((hi * 16 + lo) ∷ [])
      (b'x' ∷ hex_char hi ∷ hex_char lo ∷ hex_text s)
      (hex_escape_round line col i (hex_char hi) (hex_char lo) hi lo (hex_text s)
        (hex_digit-hex_char hi (omega arith)) (hex_digit-hex_char lo (omega arith)))
    ∙ scan-hex_text line col (i + 1 + 1 + 1 + 1) s (out ++ (hi * 16 + lo) ∷ []) hs
    ∙ ap ended (append_assoc out ((hi * 16 + lo) ∷ []) s ∙ ap (λ d. out ++ d ∷ s) (omega arith))

-- Interpreting the escapes `\xHH` that spell a sequence of bytes gives the bytes back.
pub interpret_bytes_escapes-hex_text :
    (s : Bytes) (line col : ℕ)
    → All (λ c. c < 256) s
    → interpret_bytes_escapes (hex_text s) line col ≡ ended s
unfolding interpret_bytes_escapes
interpret_bytes_escapes-hex_text s line col h = scan-hex_text line col 0 s [] h

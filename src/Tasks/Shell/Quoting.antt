-- ===== src/Tasks/Shell/Quoting.antt =====
-- The arguments that `joinShellArgs` appends to a command, as a POSIX shell reads them.
use mathlib.Core.Option
use tya.Prelude.{
  ℕ, List, [], ◌∷◌, ◌++◌, Option, none, some, ◌≡◌, refl, sym, ap, ◌∙◌, inl, inr, arith, ◌==◌,
  if◌then◌else◌, Bool, false, leb, ◌||◌, ◌&&◌, ◌≢◌, All, codes, Bool-cases, Bytes, append_assoc,
  append-nil,
}
use tya.Tasks.Shell.{quote_byte, quote_bytes, shell_quote, join_shell_args}

-- A word that is being read, if one has begun.
abbrev begun : Option Bytes → Bytes
begun none = []
begun (some w) = w

abbrev flush : Option Bytes → List Bytes → List Bytes
flush none ws = ws
flush (some w) ws = w ∷ ws

-- The bytes that mean nothing but themselves to a POSIX shell outside quotes: letters, digits, and
-- the marks that are neither operators nor parts of an expansion, a pattern or a comment.
unfoldable pub is_ordinary : ℕ → Bool
is_ordinary c =
    (leb b'a' c && leb c b'z')
    || (leb b'A' c && leb c b'Z')
    || (leb b'0' c && leb c b'9')
    || c == b'_'
    || c == b'-'
    || c == b'.'
    || c == b'/'
    || c == b':'
    || c == b','
    || c == b'+'
    || c == b'@'

-- Where the reader stands: outside quotes, behind a backslash, or between single quotes.
pub data Place : Type 0 where
  outside escaped quoted : Place

-- The words of a command by the rules of POSIX (Shell Command Language, 2.2.1, 2.2.2 and 2.6.5), as
-- far as it is made of ordinary bytes, single quotes, backslashes and blanks. Single quotes keep every
-- byte up to the next single quote; a backslash outside quotes keeps the next byte; blanks outside
-- quotes part words. `none` is all else: a quote that is not closed, a backslash at the end or in
-- front of a line end, a NUL, and a byte outside quotes that is not ordinary.
unfoldable pub words_from : Place → Option Bytes → Bytes → Option (List Bytes)
unfolding is_ordinary
words_from outside w [] = some (flush w [])
words_from escaped w [] = none
words_from quoted w [] = none
words_from outside w (c ∷ s) =
    let word = words_from outside (some (begun w ++ c ∷ [])) s in
    let quote = words_from quoted (some (begun w)) s in
    let escape = words_from escaped w s in
    let blank = Option.map (flush w) (words_from outside none s) in
    if c == b'\''
    then quote
    else if c == b'\\'
    then escape
    else if c == b' '
    then blank
    else if is_ordinary c
    then word
    else none
words_from escaped w (c ∷ s) =
    let word = words_from outside (some (begun w ++ c ∷ [])) s in
    if c == 0 || c == b'\n' then none else word
words_from quoted w (c ∷ s) =
    let word = words_from quoted (some (begun w ++ c ∷ [])) s in
    let close = words_from outside w s in
    if c == b'\'' then close else if c == 0 then none else word

unfoldable pub shell_words : Bytes → Option (List Bytes)
unfolding words_from
shell_words = words_from outside none

-- What an argument of a process is made of.
abbrev pub NoNul : Bytes → Type 0
NoNul s = All (λ c. c ≢ 0) s

quoted-quote_byte :
    (w : Bytes) (c : ℕ) (s : Bytes)
    → c ≢ 0
    → words_from quoted (some w) (quote_byte c ++ s) ≡ words_from quoted (some (w ++ c ∷ [])) s
unfolding words_from quote_byte
quoted-quote_byte w c s h = elim (Bool-cases (c == b'\'')) [
  | inl e ↦ ground arith
  | inr e ↦ (let byte : (c == 0) ≡ false = ground arith in rw e (rw (e, byte) refl))
]

quoted-quote_bytes :
    (w s rest : Bytes)
    → NoNul s
    → words_from quoted (some w) (quote_bytes s ++ (b'\'' ∷ rest))
      ≡ words_from outside (some (w ++ s)) rest
unfolding quote_bytes
quoted-quote_bytes w [] rest h =
    unfold words_from in ap (λ v. words_from outside (some v) rest) (sym (append-nil w))
quoted-quote_bytes w (c ∷ s) rest (h, hs) =
    ap (words_from quoted (some w)) (append_assoc (quote_byte c) (quote_bytes s) (b'\'' ∷ rest))
    ∙ quoted-quote_byte w c (quote_bytes s ++ (b'\'' ∷ rest)) h
    ∙ quoted-quote_bytes (w ++ c ∷ []) s rest hs
    ∙ ap (λ v. words_from outside (some v) rest) (append_assoc w (c ∷ []) s)

outside-shell_quote :
    (s rest : Bytes)
    → NoNul s
    → words_from outside none (shell_quote s ++ rest) ≡ words_from outside (some s) rest
unfolding shell_quote words_from
outside-shell_quote s rest h =
    ap (words_from quoted (some [])) (append_assoc (quote_bytes s) (b'\'' ∷ []) rest)
    ∙ quoted-quote_bytes [] s rest h

-- A POSIX shell reads the joined arguments back as they were, whatever bytes but NUL they are made
-- of: nothing of them stands outside quotes and backslashes but blanks that part them.
pub shell_words-join_shell_args :
    (args : List Bytes) → All NoNul args → shell_words (join_shell_args args) ≡ some args
unfolding shell_words join_shell_args
shell_words-join_shell_args [] h = unfold words_from in refl
shell_words-join_shell_args (a ∷ []) (h, hs) =
    ap shell_words (sym (append-nil (shell_quote a)))
    ∙ outside-shell_quote a [] h
    ∙ (unfold words_from in refl)
shell_words-join_shell_args (a ∷ b ∷ args) (h, hs) =
    outside-shell_quote a (b' ' ∷ join_shell_args (b ∷ args)) h
    ∙ (unfold words_from in
        ap (Option.map (flush (some a))) (shell_words-join_shell_args (b ∷ args) hs))

-- What is not quoted is refused.
shell_words_tests :
    (shell_words (codes "a 'b c'\\''d'") ≡ some (codes "a" ∷ codes "b c'd" ∷ []))
    × (shell_words (codes "$HOME;rm") ≡ none)
    × (shell_words (codes "'open") ≡ none)
unfolding shell_words
shell_words_tests = (refl, refl, refl)

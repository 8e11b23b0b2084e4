-- ===== src/Text.antt =====
-- The functions of Go's `strings` package that the modelled code calls, over bytes.
use tya.Prelude.{
  ℕ, zero, suc, Bool, true, false, ◌&&◌, ◌||◌, List, [], ◌∷◌, Option, none, some, ◌≡◌, ◌≢◌, refl,
  arith, ltb, leb, ◌==◌, if◌then◌else◌, Bytes, codes, get_elem?, length, drop, ◌-◌,
}

-- `==` on strings.
unfoldable pub bytes_eq : Bytes → Bytes → Bool
bytes_eq [] [] = true
bytes_eq (x ∷ xs) (y ∷ ys) = x == y && bytes_eq xs ys
bytes_eq _ _ = false

pub bytes_eq_refl : (s : Bytes) → bytes_eq s s ≡ true
unfolding bytes_eq
bytes_eq_refl [] = refl
bytes_eq_refl (c ∷ s) = ground (arith, bytes_eq_refl s)

pub bytes_eq-eq : (a b : Bytes) → bytes_eq a b ≡ true → a ≡ b
unfolding bytes_eq
bytes_eq-eq [] [] h = refl
bytes_eq-eq [] (y ∷ b) h = cc
bytes_eq-eq (x ∷ a) [] h = cc
bytes_eq-eq (x ∷ a) (y ∷ b) h = ground (arith, bytes_eq-eq a b)

pub bytes_eq_comm : (a b : Bytes) → bytes_eq a b ≡ bytes_eq b a
unfolding bytes_eq
bytes_eq_comm [] [] = refl
bytes_eq_comm [] (y ∷ b) = refl
bytes_eq_comm (x ∷ a) [] = refl
bytes_eq_comm (x ∷ a) (y ∷ b) = ground (arith, bytes_eq_comm a b)

-- `==` on strings tells equal texts from others.
pub bytes_eq-ne : (a b : Bytes) → bytes_eq a b ≡ false → a ≢ b
bytes_eq-ne a b h e = cc (rw e at h, bytes_eq_refl b)

-- `<` on strings: the order of the first bytes that differ; a prefix comes first.
unfoldable pub text_less : Bytes → Bytes → Bool
text_less s [] = false
text_less [] (y ∷ b) = true
text_less (x ∷ a) (y ∷ b) = if x == y then text_less a b else ltb x y

-- `strings.HasPrefix(s, p)`.
unfoldable pub has_prefix : Bytes → Bytes → Bool
has_prefix s [] = true
has_prefix [] (x ∷ p) = false
has_prefix (c ∷ s) (x ∷ p) = c == x && has_prefix s p

pub has_prefix-get :
    (s p : Bytes) (k : ℕ) {b : ℕ}
    → has_prefix s p ≡ true
    → get_elem? p k ≡ some b
    → get_elem? s k ≡ some b
unfolding has_prefix
has_prefix-get s [] k h e = cc
has_prefix-get [] (x ∷ p) k h e = cc
has_prefix-get (c ∷ s) (x ∷ p) zero h e = ground arith
has_prefix-get (c ∷ s) (x ∷ p) (suc k) h e = has_prefix-get s p k (ground arith) e

-- `strings.HasSuffix`.
unfoldable pub has_suffix : (s suffix : Bytes) → Bool
unfolding bytes_eq
has_suffix s suffix =
    leb (length suffix) (length s) && bytes_eq (drop (length s - length suffix) s) suffix

-- `strings.TrimLeft(s, " ")`.
unfoldable pub trim_left : Bytes → Bytes
trim_left [] = []
trim_left (c ∷ s) = if c == b' ' then trim_left s else c ∷ s

-- `strings.TrimRight(s, cutset)`, the cutset as a test: a byte of the cutset stays if one that is
-- not of it follows.
unfoldable pub trim_right : (ℕ → Bool) → Bytes → Bytes
trim_right cut [] = []
trim_right cut (c ∷ s) = elim (trim_right cut s) [
  | [] ↦ if cut c then [] else c ∷ []
  | d ∷ t ↦ c ∷ d ∷ t
]

abbrev pub is_space : ℕ → Bool
is_space c = c == b' '

-- `strings.Contains(s, "\t")`.
unfoldable pub contains_byte : ℕ → Bytes → Bool
contains_byte b [] = false
contains_byte b (c ∷ s) = c == b || contains_byte b s

-- `strings.Index(s, p)`, for a `p` that is not empty.
unfoldable pub index_of : Bytes → Bytes → Option ℕ
unfolding has_prefix
index_of p [] = none
index_of p (c ∷ s) =
    if has_prefix (c ∷ s) p
    then some 0
    else elim (index_of p s) [ none ↦ none | some n ↦ some (suc n) ]

-- `strings.Split(s, "\n")`: always at least one part.
unfoldable pub split_lines : Bytes → List Bytes
split_lines [] = [] ∷ []
split_lines (c ∷ s) = elim (split_lines s) [
  | [] ↦ (c ∷ []) ∷ []
  | l ∷ ls ↦ if c == b'\n' then [] ∷ l ∷ ls else (c ∷ l) ∷ ls
]

-- `strings.ReplaceAll(s, "\r\n", "\n")`: a carriage return in front of a newline goes.
unfoldable pub unix_lines : Bytes → Bytes
unfolding has_prefix
unix_lines [] = []
unix_lines (c ∷ s) =
    let rest = unix_lines s in if c == b'\r' && has_prefix s (codes "\n") then rest else c ∷ rest

-- `i < len(s) && s[i] == c`.
abbrev pub byte_is : Bytes → ℕ → ℕ → Bool
byte_is s i c = elim (get_elem? s i) [ none ↦ false | some d ↦ d == c ]

-- `i < len(s) && lo <= s[i] && s[i] <= hi`.
abbrev pub byte_in : Bytes → ℕ → ℕ → ℕ → Bool
byte_in s i lo hi = elim (get_elem? s i) [ none ↦ false | some d ↦ leb lo d && leb d hi ]

-- The number of bytes of the rune at the front of `s`, in UTF-8, if `unicode.IsSpace` holds of it,
-- and 0 otherwise.
unfoldable pub space_width : Bytes → ℕ
space_width s =
    if byte_in s 0 9 13 || byte_is s 0 b' '
    then 1
    else if byte_is s 0 0xc2 && (byte_is s 1 0x85 || byte_is s 1 0xa0)
    then 2
    else if (byte_is s 0 0xe1 && byte_is s 1 0x9a && byte_is s 2 0x80)
        || (byte_is s 0 0xe2
            && byte_is s 1 0x80
            && (byte_in s 2 0x80 0x8a || byte_is s 2 0xa8 || byte_is s 2 0xa9 || byte_is s 2 0xaf))
        || (byte_is s 0 0xe2 && byte_is s 1 0x81 && byte_is s 2 0x9f)
        || (byte_is s 0 0xe3 && byte_is s 1 0x80 && byte_is s 2 0x80)
    then 3
    else 0

-- The first argument counts the bytes of the current rune that are still to be passed over.
blank_from : ℕ → Bytes → Bool
unfolding space_width
blank_from k [] = true
blank_from (suc k) (c ∷ s) = blank_from k s
blank_from zero (c ∷ s) = elim (space_width (c ∷ s)) [ zero ↦ false | suc k ↦ blank_from k s ]

-- `strings.TrimSpace(s) == ""`.
unfoldable pub is_blank : Bytes → Bool
unfolding blank_from
is_blank = blank_from 0

blank_tests :
    (is_blank (codes " \t") ≡ true)
    × (is_blank (0xe2 ∷ 0x80 ∷ 0xa8 ∷ b' ' ∷ []) ≡ true)
    × (is_blank (0xc2 ∷ []) ≡ false)
    × (is_blank (codes " x ") ≡ false)
unfolding is_blank
blank_tests = (refl, refl, refl, refl)

text_tests :
    (unix_lines (codes "a\r\r\nb\r") ≡ codes "a\r\nb\r")
    × (split_lines (codes "a\n\nb") ≡ codes "a" ∷ [] ∷ codes "b" ∷ [])
    × (trim_right is_space (codes " a b  ") ≡ codes " a b")
    × (index_of (codes "bc") (codes "abbcd") ≡ some 2)
unfolding unix_lines split_lines trim_right index_of
text_tests = (refl, refl, refl, refl)

-- `strings.TrimLeft` of all white space: the first argument counts as in `blank_from`.
left_from : ℕ → Bytes → Bytes
unfolding space_width
left_from k [] = []
left_from (suc k) (c ∷ s) = left_from k s
left_from zero (c ∷ s) = elim (space_width (c ∷ s)) [ zero ↦ c ∷ s | suc k ↦ left_from k s ]

-- The text without its longest end of white space.
right_of : Bytes → Bytes
unfolding is_blank
right_of [] = []
right_of (c ∷ s) = let rest = right_of s in if is_blank (c ∷ s) then [] else c ∷ rest

-- `strings.TrimSpace`.
unfoldable pub trim_space : Bytes → Bytes
unfolding left_from right_of
trim_space s = right_of (left_from 0 s)

-- `strings.Split(s, sep)` for a separator of one byte.
unfoldable pub split_at : ℕ → Bytes → List Bytes
split_at sep [] = [] ∷ []
split_at sep (c ∷ s) = elim (split_at sep s) [
  | [] ↦ (c ∷ []) ∷ []
  | l ∷ ls ↦ if c == sep then [] ∷ l ∷ ls else (c ∷ l) ∷ ls
]

trim_space_test : trim_space (codes " \t a b \n") ≡ codes "a b"
unfolding trim_space
trim_space_test = refl

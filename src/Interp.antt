-- ===== src/Interp.antt =====
-- internal/interp/interp.go: where an interpolated expression in a string ends.
-- Go passes a text `s` and an index `i`, and reads nothing in front of it: here the argument is the
-- rest `s[i:]`, and an offset counts from its start. `none` is the result -1. The `i = n` of a loop
-- is a count of bytes that it passes over before it looks again.
pub mod Bounds
pub mod Balanced
use tya.Prelude.{
  ℕ, zero, suc, ◌+◌, ◌-◌, Bool, true, false, ◌&&◌, ◌||◌, List, [], ◌∷◌, Option, none, some, ◌≡◌,
  refl, ltb, ◌==◌, if◌then◌else◌, Bytes, codes, drop, length,
}
use tya.Text.{has_prefix, byte_is}

abbrev pub triple_quote : Bytes
triple_quote = codes "\"\"\""

-- The loop of `skipString` for `"""`; `i` is the offset of the byte at the front.
pub triple_end : ℕ → Bytes → Option ℕ
unfolding has_prefix
triple_end i [] = none
triple_end i (c ∷ s) =
    let later = triple_end (i + 1) s in
    if has_prefix (c ∷ s) triple_quote then some (i + 2) else later

-- The loop of `skipString` for `"`, with its flag `escaped`.
pub quote_end : Bool → ℕ → Bytes → Option ℕ
quote_end escaped i [] = none
quote_end true i (c ∷ s) = quote_end false (i + 1) s
quote_end false i (c ∷ s) = elim (c == b'"') [
  | true ↦ some i
  | false ↦ quote_end (c == b'\\') (i + 1) s
]

-- `skipString(s, start)`, on `s[start:]`: the offset of the quote that closes the literal.
unfoldable pub skip_string : Bytes → Option ℕ
unfolding has_prefix triple_end quote_end
skip_string s =
    if has_prefix s triple_quote then triple_end 3 (drop 3 s) else quote_end false 1 (drop 1 s)

-- What one round of the loop of `FindExprEnd` does: it returns, or it goes on behind `skip` bytes
-- at another depth.
pub data Round : Type 0 where
  stop : Option ℕ → Round
  on : (skip depth : ℕ) → Round

unfoldable pub expr_round : (depth i : ℕ) → Bytes → Round
unfolding skip_string
expr_round depth i s =
    if byte_is s 0 b'"'
    then elim (skip_string s) [ none ↦ stop none | some n ↦ on n depth ]
    else if byte_is s 0 b'{'
    then on 0 (depth + 1)
    else if byte_is s 0 b'}'
    then (if depth - 1 == 0 then stop (some i) else on 0 (depth - 1))
    else on 0 depth

unfoldable pub expr_end : (skip depth i : ℕ) → Bytes → Option ℕ
unfolding expr_round
expr_end skip depth i [] = none
expr_end (suc skip) depth i (c ∷ s) = expr_end skip depth (i + 1) s
expr_end zero depth i (c ∷ s) = elim (expr_round depth i (c ∷ s)) [
  | stop r ↦ r
  | on k d ↦ expr_end k d (i + 1) s
]

-- `FindExprEnd(s, open)`, on `s[open:]`.
unfoldable pub find_expr_end : Bytes → Option ℕ
unfolding expr_end
find_expr_end s = if byte_is s 0 b'{' then expr_end 0 1 1 (drop 1 s) else none

-- `LooksLikeDictExprStart(s, open)`, on `s[open:]`.
unfoldable pub looks_like_dict_expr_start : Bytes → Bool
unfolding skip_string
looks_like_dict_expr_start s =
    if ltb 2 (length s) && byte_is s 0 b'{' && byte_is s 1 b'{'
    then (if byte_is s 2 b'{'
        then true
        else if byte_is s 2 b'"'
        then elim (skip_string (drop 2 s)) [ none ↦ false | some n ↦ byte_is s (2 + n + 1) b':' ]
        else false)
    else false

find_tests :
    (find_expr_end (codes "{a}b") ≡ some 2)
    × (find_expr_end (codes "{\"}\" + {x: 1}}") ≡ some 13)
    × (find_expr_end (codes "{a") ≡ none)
    × (looks_like_dict_expr_start (codes "{{\"k\": 1}}") ≡ true)
    × (looks_like_dict_expr_start (codes "{{x}}") ≡ false)
unfolding find_expr_end looks_like_dict_expr_start
find_tests = (refl, refl, refl, refl, refl)

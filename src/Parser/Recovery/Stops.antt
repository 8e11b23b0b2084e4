-- ===== src/Parser/Recovery/Stops.antt =====
-- internal/parser/recovery.go: where skipping ends.
use mathlib.Core.Bool.{true≢false}
use tya.Prelude.{
  subst, ◌⊎◌, ℕ, zero, suc, ◌<◌, ◌≤◌, ◌+◌, ◌-◌, Bool, true, false, ◌||◌, List, [], ◌∷◌, ◌≡◌, ◌∙◌,
  sym, refl, arith, length, if◌then◌else◌, ◌==◌,
}
use tya.Token
use tya.Token.{TokenType, Token, is}
use tya.Parser.State.{ParseError, Parser, next, at}
use tya.Parser.Recovery.{
  stops, skip_one, balanced_from, skip_balanced, skip_from, skip_to_comma_or_close,
}

-- The last token is an EOF.
unfoldable pub ends_in_eof : Token → List Token → Bool
ends_in_eof t [] = is t.type Token.eof
ends_in_eof t (u ∷ us) = ends_in_eof u us

abbrev pub Whole : Parser → Type 0
Whole p = ends_in_eof p.tok p.rest ≡ true

-- In front of an EOF there is more, and it ends in an EOF.
next-Whole :
    (p : Parser)
    → Whole p
    → at Token.eof p ≡ false
    → Whole (next p) × (length (next p).rest < length p.rest)
unfolding ends_in_eof
next-Whole p h n = from p.tok p.rest p.continued_line p.errs h n
  where
    from :
        (t : Token) (ts : List Token) (c : Bool) (es : List ParseError)
        → (let p : Parser = record { tok = t; rest = ts; continued_line = c; errs = es } in
            Whole p → at Token.eof p ≡ false → Whole (next p) × (length (next p).rest < length ts))
    from t [] c es h n = absurd (true≢false (sym h ∙ n))
    from t (u ∷ us) c es h n = (h, omega arith)

-- The parser stands in front of a boundary: a comma, the end of the line, a DEDENT, the end of the
-- file or the end of the list.
abbrev pub Boundary : TokenType → Parser → Type 0
Boundary close p =
    (at Token.eof p ≡ true)
    ⊎ (at Token.comma p ≡ true)
    ⊎ (at Token.newline p ≡ true)
    ⊎ (at Token.dedent p ≡ true)
    ⊎ (at close p ≡ true)

abbrev pub Inner : TokenType → Parser → Type 0
Inner close p =
    (at Token.eof p ≡ false)
    × (at Token.comma p ≡ false)
    × (at Token.newline p ≡ false)
    × (at Token.dedent p ≡ false)
    × (at close p ≡ false)

-- A parser inside as many brackets comes behind the last of them that closes, or to an EOF.
pub data Group (opening closing : TokenType) : ℕ → Parser → Parser → Type 0 where
  behind : (p : Parser) → Group opening closing 0 p p
  no_end : (d : ℕ) (p : Parser) → at Token.eof p ≡ true → Group opening closing (suc d) p p
  deeper :
      (d : ℕ) (p q : Parser)
      → at Token.eof p ≡ false
      → at opening p ≡ true
      → Group opening closing (suc (suc d)) (next p) q
      → Group opening closing (suc d) p q
  shallower :
      (d : ℕ) (p q : Parser)
      → at Token.eof p ≡ false
      → at opening p ≡ false
      → at closing p ≡ true
      → Group opening closing d (next p) q
      → Group opening closing (suc d) p q
  along :
      (d : ℕ) (p q : Parser)
      → at Token.eof p ≡ false
      → at opening p ≡ false
      → at closing p ≡ false
      → Group opening closing (suc d) (next p) q
      → Group opening closing (suc d) p q

-- The pairs of brackets.
pub data Pair : TokenType → TokenType → Type 0 where
  round_pair : Pair Token.lparen Token.rparen
  square_pair : Pair Token.lbracket Token.rbracket
  curly_pair : Pair Token.lbrace Token.rbrace

-- The way from one parser to another past tokens that are no boundary, each of them no opening
-- bracket or passed with all that it encloses, up to a boundary.
pub data Skips (close : TokenType) : Parser → Parser → Type 0 where
  arrived : (p : Parser) → Boundary close p → Skips close p p
  over_token :
      (p q : Parser)
      → Inner close p
      → at Token.lparen p ≡ false
      → at Token.lbracket p ≡ false
      → at Token.lbrace p ≡ false
      → Skips close (next p) q
      → Skips close p q
  over_group :
      {opening closing : TokenType} (p q r : Parser)
      → Inner close p
      → Pair opening closing
      → at opening p ≡ true
      → Group opening closing 1 (next p) q
      → Skips close q r
      → Skips close p r

-- A group that is passed, with what is left behind it.
abbrev Passed : TokenType → TokenType → ℕ → Parser → Parser → Type 0
Passed opening closing d p q =
    Group opening closing d p q × Whole q × (length q.rest ≤ length p.rest)

on-Passed :
    {opening closing : TokenType} (d e : ℕ) (p q : Parser)
    → length (next p).rest < length p.rest
    → (Group opening closing d (next p) q → Group opening closing e p q)
    → Passed opening closing d (next p) q
    → Passed opening closing e p q
on-Passed d e p q l make (g, w, s) = (make g, w, omega arith)

round-Passed :
    (opening closing : TokenType) (d : ℕ) (p : Parser) (past : ℕ → Parser)
    (ends opens closes : Bool)
    → at Token.eof p ≡ ends
    → at opening p ≡ opens
    → at closing p ≡ closes
    → Whole p
    → (length (next p).rest < length p.rest
        → (j : ℕ) → Whole (next p)
        → Passed opening closing j (next p) (past j))
    → Passed opening closing (suc d) p (
        if ends || (suc d == 0)
        then p
        else past (if opens then suc d + 1 else if closes then suc d - 1 else suc d))
round-Passed opening closing d p past true opens closes e o c h go = (no_end d p e, h, omega arith)
round-Passed opening closing d p past false opens closes e o c h go =
    let (w, l) = next-Whole p h e in
    let on = λ (j : ℕ). go l j w in rw (suc_is_not_zero d) (by_bracket opens closes o c l on)
  where
    suc_is_not_zero : (d : ℕ) → (suc d == 0) ≡ false
    suc_is_not_zero d = ground arith

    by_bracket :
        (opens closes : Bool)
        → at opening p ≡ opens
        → at closing p ≡ closes
        → length (next p).rest < length p.rest
        → ((j : ℕ) → Passed opening closing j (next p) (past j))
        → Passed opening closing
            (suc d)
            p
            (past (if opens then suc d + 1 else if closes then suc d - 1 else suc d))
    by_bracket true closes o c l on = on-Passed (suc (suc d)) (suc d) p _ l (deeper d p _ e o) (
        subst (λ j. Passed opening closing j (next p) (past (suc d + 1))) (omega arith)
          (on (suc d + 1)))
    by_bracket false true o c l on = on-Passed d (suc d) p _ l (shallower d p _ e o c) (
        subst (λ j. Passed opening closing j (next p) (past (suc d - 1))) (omega arith)
          (on (suc d - 1)))
    by_bracket false false o c l on =
        on-Passed (suc d) (suc d) p _ l (along d p _ e o c) (on (suc d))

balanced_from-Passed :
    (n : ℕ) (opening closing : TokenType) (d : ℕ) (p : Parser)
    → Whole p
    → length p.rest < n
    → Passed opening closing d p (balanced_from n opening closing d p)
unfolding balanced_from
balanced_from-Passed zero opening closing d p h short = absurd (omega arith)
balanced_from-Passed (suc n) opening closing zero p h short =
    subst
      (λ b. Passed opening closing zero p (
        if b
        then p
        else balanced_from n opening closing
            (if at opening p then 0 + 1 else if at closing p then 0 - 1 else 0) (next p)))
      (always (at Token.eof p)) (behind p, h, omega arith)
  where
    always : (b : Bool) → true ≡ (b || (0 == 0))
    always true = refl
    always false = refl
balanced_from-Passed (suc n) opening closing (suc d) p h short =
    round-Passed opening closing d p (λ j. balanced_from n opening closing j (next p))
      (at Token.eof p) (at opening p) (at closing p) refl refl refl h
      (λ l j w. balanced_from-Passed n opening closing j (next p) w (omega arith))

module _ (close : TokenType) (p : Parser) (inner : Inner close p) (n : ℕ) (h : Whole p)
    (few : length p.rest ≤ 2048)
    (go : (q : Parser)
      → Whole q
      → length q.rest < length p.rest
      → Skips close q (skip_from n close q)) where
  group-Skips :
      {opening closing : TokenType}
      → Pair opening closing
      → at opening p ≡ true
      → Skips close p (skip_from n close (skip_balanced opening closing (next p)))
  unfolding skip_balanced
  group-Skips {opening} {closing} pair o =
      let (eof, a1, a2, a3, a4) = inner in
      let (w, l) = next-Whole p h eof in
      let (g, w', s) = balanced_from-Passed 4097 opening closing 1 (next p) w (omega arith) in
      over_group p _ _ inner pair o g (go _ w' (omega arith))

  one-Skips :
      (round square curly : Bool)
      → at Token.lparen p ≡ round
      → at Token.lbracket p ≡ square
      → at Token.lbrace p ≡ curly
      → Skips close p (
          skip_from n close (
            if round
            then skip_balanced Token.lparen Token.rparen (next p)
            else if square
            then skip_balanced Token.lbracket Token.rbracket (next p)
            else if curly
            then skip_balanced Token.lbrace Token.rbrace (next p)
            else next p))
  one-Skips true square curly a b c = group-Skips round_pair a
  one-Skips false true curly a b c = group-Skips square_pair b
  one-Skips false false true a b c = group-Skips curly_pair c
  one-Skips false false false a b c =
      let (eof, a1, a2, a3, a4) = inner in
      let (w, l) = next-Whole p h eof in over_token p _ inner a b c (go (next p) w l)

stops-Boundary : (close : TokenType) (p : Parser) → stops close p ≡ true → Boundary close p
unfolding stops
stops-Boundary close p h = ground (arith, h)

stops-Inner : (close : TokenType) (p : Parser) → stops close p ≡ false → Inner close p
unfolding stops
stops-Inner close p h =
    (ground (arith, h), ground (arith, h), ground (arith, h), ground (arith, h), ground (arith, h))

skip_from-Skips :
    (close : TokenType) (n : ℕ) (p : Parser)
    → Whole p
    → length p.rest < n
    → length p.rest ≤ 2048
    → Skips close p (skip_from n close p)
unfolding skip_from skip_one
skip_from-Skips close zero p h short few = absurd (omega arith)
skip_from-Skips close (suc n) p h short few =
    choose (stops close p) refl (λ q w l. skip_from-Skips close n q w (omega arith) (omega arith))
  where
    choose :
        (b : Bool)
        → stops close p ≡ b
        → ((q : Parser)
            → Whole q
            → length q.rest < length p.rest
            → Skips close q (skip_from n close q))
        → Skips close p (if b then p else skip_from n close (skip_one p))
    choose true e go = arrived p (stops-Boundary close p e)
    choose false e go =
        one-Skips close p (stops-Inner close p e) n h few go (at Token.lparen p)
          (at Token.lbracket p) (at Token.lbrace p) refl refl refl

-- After an error in an element of a list, the parser stops at the first boundary that is not inside
-- brackets which open on the way: it passes only tokens that are no boundary, and a bracket with all
-- up to the one that closes it, or to the end of the file. A boundary is a comma, the end of the
-- line, a DEDENT, the end of the file or the end of the list. The tokens end in an EOF and at most
-- 2048 follow the one that it stands at.
pub skip_to_comma_or_close-Skips :
    (close : TokenType) (p : Parser)
    → ends_in_eof p.tok p.rest ≡ true
    → length p.rest ≤ 2048
    → Skips close p (skip_to_comma_or_close close p)
unfolding skip_to_comma_or_close
skip_to_comma_or_close-Skips close p h few = skip_from-Skips close 2049 p h (omega arith) few

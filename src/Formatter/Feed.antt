-- ===== src/Formatter/Feed.antt =====
-- internal/formatter/unparse.go: pieces of a text as the parser meets them.
use tya.Prelude.{
  ℕ, suc, ◌+◌, Bool, true, false, not, ◌||◌, ◌&&◌, List, [], ◌∷◌, ◌++◌, ◌≡◌, refl, ap, arith, Bytes,
  map, length,
}
use tya.Token
use tya.Token.{TokenType, Token, is}
use tya.Parser.State.{Parser, nth}
use tya.Lexer.State.{new_lexer}
use tya.Lexer.Line.{lex_line}
use tya.Formatter.Unparse.{Pieces, blank, piece, raw}

-- A parser in front of one more token.
abbrev pub push : Token → Parser → Parser
push t p = record p { tok = t; rest = p.tok ∷ p.rest }

-- A parser in front of the tokens of pieces.
unfoldable pub feed : Pieces → Parser → Parser
feed [] p = p
feed (blank ∷ ps) p = feed ps p
feed (piece t s ∷ ps) p = push t (feed ps p)
feed (raw s ∷ ps) p = feed ps p

-- The tokens of pieces.
unfoldable pub tokens : Pieces → List Token
tokens [] = []
tokens (blank ∷ ps) = tokens ps
tokens (piece t s ∷ ps) = t ∷ tokens ps
tokens (raw s ∷ ps) = tokens ps

-- A parser in front of tokens.
unfoldable pub in_front : List Token → Parser → Parser
in_front [] p = p
in_front (t ∷ ts) p = push t (in_front ts p)

abbrev pub place_free : Token → Token
place_free t = record t { line = 0; col = 0 }

-- What `lexLine` reads from a text, without its places.
unfoldable pub lexed : Bytes → List Token
unfolding lex_line
lexed s = map place_free (lex_line s 1 1 new_lexer).tokens

pub feed-in_front : (ps : Pieces) (p : Parser) → feed ps p ≡ in_front (tokens ps) p
unfolding feed tokens in_front
feed-in_front [] p = refl
feed-in_front (blank ∷ ps) p = feed-in_front ps p
feed-in_front (piece t s ∷ ps) p = ap (push t) (feed-in_front ps p)
feed-in_front (raw s ∷ ps) p = feed-in_front ps p

-- How many tokens there are.
unfoldable pub count : Pieces → ℕ
count [] = 0
count (blank ∷ ps) = count ps
count (piece t s ∷ ps) = suc (count ps)
count (raw s ∷ ps) = count ps

pub feed-append : (a b : Pieces) (p : Parser) → feed (a ++ b) p ≡ feed a (feed b p)
unfolding feed
feed-append [] b p = refl
feed-append (blank ∷ a) b p = feed-append a b p
feed-append (raw s ∷ a) b p = feed-append a b p
feed-append (piece t s ∷ a) b p = ap (push t) (feed-append a b p)

pub count-append : (a b : Pieces) → count (a ++ b) ≡ count a + count b
unfolding count
count-append [] b = omega arith
count-append (blank ∷ a) b = count-append a b
count-append (raw s ∷ a) b = count-append a b
count-append (piece t s ∷ a) b = omega (arith, count-append a b)

pub length-feed : (ps : Pieces) (p : Parser) → length (feed ps p).rest ≡ count ps + length p.rest
unfolding feed count
length-feed [] p = omega arith
length-feed (blank ∷ ps) p = length-feed ps p
length-feed (raw s ∷ ps) p = length-feed ps p
length-feed (piece t s ∷ ps) p = omega (arith, length-feed ps p)

-- A token that ends no name and begins no function, no default value and no keyword argument.
pub record Inert (t : TokenType) : Type 0 where
  pub no_arrow : is t Token.arrow ≡ false
  pub no_assign : is t Token.assign ≡ false
  pub no_colon : is t Token.colon ≡ false
  pub no_question : is t Token.question ≡ false
  pub no_bang : is t Token.bang ≡ false

-- `NAME < NAME >` in front of tokens.
unfoldable pub angles : Token → List Token → Bool
angles t ts =
    is t.type Token.ident
    && (is (nth 1 t ts).type Token.lt
        && (is (nth 2 t ts).type Token.ident && is (nth 3 t ts).type Token.gt))

-- Tokens which are inert, and `NAME < NAME >` nowhere.
unfoldable pub QuietTokens : Token → List Token → Type 0
QuietTokens t [] = Inert t.type × (angles t [] ≡ false)
QuietTokens t (u ∷ us) = Inert t.type × (angles t (u ∷ us) ≡ false) × QuietTokens u us

abbrev pub Quiet : Parser → Type 0
Quiet p = QuietTokens p.tok p.rest

pub push-Quiet : (t : Token) (p : Parser) → Quiet (push t p) → Quiet p
unfolding QuietTokens
push-Quiet t p (i, a, h) = h

pub feed-Quiet : (ps : Pieces) (p : Parser) → Quiet (feed ps p) → Quiet p
unfolding feed
feed-Quiet [] p h = h
feed-Quiet (blank ∷ ps) p h = feed-Quiet ps p h
feed-Quiet (raw s ∷ ps) p h = feed-Quiet ps p h
feed-Quiet (piece t s ∷ ps) p h = feed-Quiet ps p (push-Quiet t (feed ps p) h)

pub Quiet-Inert : (p : Parser) → Quiet p → Inert p.tok.type
unfolding QuietTokens
Quiet-Inert p h = tok-Inert p.tok p.rest h
  where
    tok-Inert : (t : Token) (ts : List Token) → QuietTokens t ts → Inert t.type
    tok-Inert t [] (i, a) = i
    tok-Inert t (u ∷ us) (i, a, h) = i

-- The same as a test.
unfoldable pub inert : TokenType → Bool
inert t = not (
    is t Token.arrow
    || is t Token.assign
    || is t Token.colon
    || is t Token.question
    || is t Token.bang)

unfoldable pub quiet_tokens : Token → List Token → Bool
unfolding inert angles
quiet_tokens t [] = inert t.type && not (angles t [])
quiet_tokens t (u ∷ us) = inert t.type && (not (angles t (u ∷ us)) && quiet_tokens u us)

unfoldable pub quiet : Parser → Bool
unfolding quiet_tokens
quiet p = quiet_tokens p.tok p.rest

inert-Inert : (t : TokenType) → inert t ≡ true → Inert t
unfolding inert
inert-Inert t h = record {
  no_arrow = ground (arith, h);
  no_assign = ground (arith, h);
  no_colon = ground (arith, h);
  no_question = ground (arith, h);
  no_bang = ground (arith, h);
}

and-parts : (a b : Bool) → (a && b) ≡ true → (a ≡ true) × (b ≡ true)
and-parts a b h = (ground (arith, h), ground (arith, h))

quiet_tokens-QuietTokens :
    (t : Token) (ts : List Token) → quiet_tokens t ts ≡ true → QuietTokens t ts
unfolding QuietTokens quiet_tokens
quiet_tokens-QuietTokens t [] h =
    let (a, b) = and-parts (inert t.type) (not (angles t [])) h in
    (inert-Inert t.type a, ground (arith, b))
quiet_tokens-QuietTokens t (u ∷ us) h =
    let (a, b) = and-parts (inert t.type) (not (angles t (u ∷ us)) && quiet_tokens u us) h in
    let (c, d) = and-parts (not (angles t (u ∷ us))) (quiet_tokens u us) b in
    (inert-Inert t.type a, ground (arith, c), quiet_tokens-QuietTokens u us d)

pub quiet-Quiet : (p : Parser) → quiet p ≡ true → Quiet p
unfolding quiet
quiet-Quiet p h = quiet_tokens-QuietTokens p.tok p.rest h

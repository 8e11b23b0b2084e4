-- ===== src/Parser/State.antt =====
-- internal/parser/parser.go: the parser's place in the tokens, its errors, and names.
use tya.Prelude.{ℕ, zero, suc, Bool, ◌&&◌, ◌||◌, List, [], ◌∷◌, ◌++◌, if◌then◌else◌, Bytes, codes}
use tya.Text.{bytes_eq}
use tya.Token
use tya.Token.{TokenType, Token, is}
use tya.Dict.{contains}
use tya.Parser.Classify.{Code, classify_parser_code}

-- A diagnostic: its code, the message of `p.err`, and the token that it stands at.
pub record ParseError : Type 0 where
  pub code : Code
  pub title : Bytes
  pub near : Token

-- The token at `p.pos` and those behind it; the depths are used by statements only.
pub record Parser : Type 0 where
  pub tok : Token
  pub rest : List Token
  pub continued_line : Bool
  pub errs : List ParseError

-- What a method returns with the parser that it leaves. The error that it fails with is in `errs`.
pub data Outcome (A : Type 0) : Type 0 where
  ok : A → Parser → Outcome A
  fail : Parser → Outcome A
  out_of_fuel : Outcome A

abbrev pub Parse : Type 0 → Type 0
Parse A = Parser → Outcome A

abbrev pub bind : {A : Type 0} {B : Type 0} → Outcome A → (A → Parse B) → Outcome B
bind (ok a p) f = f a p
bind (fail p) f = fail p
bind out_of_fuel f = out_of_fuel

-- `next` moves on, but not from the last token.
abbrev step : Parser → List Token → Parser
step p [] = p
step p (t ∷ ts) = record p { tok = t; rest = ts }

abbrev pub next : Parser → Parser
next p = step p p.rest

-- `peekN`: behind the last token it is the last one.
abbrev pub nth : ℕ → Token → List Token → Token
nth zero t ts = t
nth (suc n) t [] = t
nth (suc n) t (u ∷ ts) = nth n u ts

abbrev pub peek_n : ℕ → Parser → Token
peek_n n p = nth n p.tok p.rest

-- `at`, and the type of a token further on.
abbrev pub at : TokenType → Parser → Bool
at t p = is p.tok.type t

abbrev pub at_n : ℕ → TokenType → Parser → Bool
at_n n t p = is (peek_n n p).type t

-- `errAt` and `err`.
abbrev pub err_at : {A : Type 0} → Token → Bytes → Parse A
err_at tok msg p = fail (record p {
  errs = p.errs ++ record { code = classify_parser_code msg; title = msg; near = tok } ∷ [];
})

abbrev pub err : {A : Type 0} → Bytes → Parse A
err msg p = err_at p.tok msg p

-- `if !p.match(t) { return nil, p.err(msg) }`.
abbrev pub must_match : {A : Type 0} → TokenType → Bytes → A → Parse A
must_match t msg a p = if at t p then ok a (next p) else err msg p

-- Whether a token is the word.
unfoldable pub is_word : Bytes → Token → Bool
unfolding bytes_eq
is_word word t = is t.type Token.ident && bytes_eq t.lexeme word

abbrev pub excluded_names : List Bytes
excluded_names = codes "object" ∷ codes "set" ∷ []

abbrev pub reserved_names : List Bytes
reserved_names =
    codes "interface"
    ∷ codes "class"
    ∷ codes "self"
    ∷ codes "Self"
    ∷ codes "true"
    ∷ codes "false"
    ∷ codes "nil"
    ∷ codes "if"
    ∷ codes "elseif"
    ∷ codes "else"
    ∷ codes "while"
    ∷ codes "for"
    ∷ codes "in"
    ∷ codes "break"
    ∷ codes "continue"
    ∷ codes "return"
    ∷ codes "try"
    ∷ codes "catch"
    ∷ codes "finally"
    ∷ codes "module"
    ∷ codes "import"
    ∷ codes "embed"
    ∷ codes "and"
    ∷ codes "or"
    ∷ codes "not"
    ∷ codes "spawn"
    ∷ codes "await"
    ∷ codes "scope"
    ∷ []

-- `rejectReservedName`, in front of what goes on with a name.
unfoldable pub reject_reserved_name : {A : Type 0} → Token → Parse A → Parse A
unfolding contains
reject_reserved_name tok go p =
    if contains excluded_names tok.lexeme
    then err_at tok (tok.lexeme ++ codes " is not in Tya v0.1") p
    else if contains reserved_names tok.lexeme
    then err_at tok (tok.lexeme ++ codes " cannot be used as a name") p
    else go p

-- `expectName`.
unfoldable pub expect_name : Bytes → Parse Token
unfolding reject_reserved_name
expect_name msg p =
    if at Token.ident p then reject_reserved_name p.tok (ok p.tok) (next p) else err msg p

-- A name with the `?` or `!` behind it.
abbrev pub with_mark : Token → Token → Token
with_mark tok mark = record tok { lexeme = tok.lexeme ++ mark.lexeme }

-- `expectCallableIdent`.
unfoldable pub expect_callable_ident : Bytes → Parse Token
expect_callable_ident msg p =
    if at Token.ident p
    then (if at Token.question (next p) || at Token.bang (next p)
        then ok (with_mark p.tok (next p).tok) (next (next p))
        else ok p.tok (next p))
    else err msg p

-- `startsExpr`.
unfoldable pub starts_expr : Parser → Bool
starts_expr p =
    at Token.ident p
    || at Token.string p
    || at Token.bytes p
    || at Token.int p
    || at Token.float p
    || at Token.minus p
    || at Token.tilde p
    || at Token.lparen p
    || at Token.lbracket p
    || at Token.lbrace p
    || at Token.arrow p
    || at Token.at p

-- ===== src/Lexer/Suppress.antt =====
-- internal/lexer/lexer.go: `suppressBracketNewlines`, the filter over the finished stream, and `Lex`.
pub mod Keeps
use tya.Prelude.{
  ℕ, zero, suc, ◌+◌, ◌-◌, Bool, true, false, ◌&&◌, ◌||◌, List, [], ◌∷◌, Option, none, some, ◌>>=◌,
  ltb, if◌then◌else◌, Bytes, codes,
}
use tya.Text.{bytes_eq}
use tya.Token.{
  TokenType, ident, newline, indent, dedent, eq, neq, lt, lte, gt, gte, plus, minus, star, slash,
  percent, amp, pipe, caret, shl, shr, lparen, rparen, lbracket, rbracket, Token, is_layout,
  is_newline, is_indent, is_dedent,
}
use tya.Lexer.State.{LexError, Comment, Lexer}
use tya.Lexer.Source.{lex}

-- The types of `isContinuationOp`, but for the names `and` and `or`.
abbrev pub is_operator : TokenType → Bool
is_operator plus = true
is_operator minus = true
is_operator star = true
is_operator slash = true
is_operator percent = true
is_operator eq = true
is_operator neq = true
is_operator lt = true
is_operator lte = true
is_operator gt = true
is_operator gte = true
is_operator amp = true
is_operator pipe = true
is_operator caret = true
is_operator shl = true
is_operator shr = true
is_operator _ = false

abbrev pub is_ident : TokenType → Bool
is_ident ident = true
is_ident _ = false

unfoldable pub is_continuation_op : Token → Bool
unfolding bytes_eq
is_continuation_op t =
    is_operator t.type
    || (is_ident t.type && (bytes_eq t.lexeme (codes "and") || bytes_eq t.lexeme (codes "or")))

-- The first `switch`: the number of open brackets behind a token.
abbrev pub bracket_depth : ℕ → TokenType → ℕ
bracket_depth depth lparen = depth + 1
bracket_depth depth lbracket = depth + 1
bracket_depth depth rparen = depth - 1
bracket_depth depth rbracket = depth - 1
bracket_depth depth _ = depth

-- `toks[i]` is there and an operator that goes on with the line above.
unfoldable pub continues : List Token → Bool
unfolding is_continuation_op
continues [] = false
continues (t ∷ _) = is_continuation_op t

-- `toks[i]` is an INDENT, and the next token such an operator.
unfoldable pub continues_indented : List Token → Bool
unfolding continues
continues_indented [] = false
continues_indented (t ∷ rest) = is_indent t.type && continues rest

-- What a round does with its token: it keeps it, or drops it and `skip` more; and how many DEDENTs
-- it owes then.
pub data Round : Type 0 where
  keep : Round
  omit : (skip pending : ℕ) → Round

-- A round at `t` in front of `rest`, with `depth` already that behind `t`.
unfoldable pub round : (depth pending : ℕ) → Token → List Token → Round
unfolding continues continues_indented
round depth pending t rest =
    if ltb 0 depth && is_layout t.type
    then omit 0 pending
    else if is_newline t.type && continues_indented rest
    then omit 1 (pending + 1)
    else if is_newline t.type && continues rest
    then omit 0 pending
    else if is_indent t.type && continues rest
    then omit 0 (pending + 1)
    else if is_dedent t.type && ltb 0 pending
    then omit 0 (pending - 1)
    else keep

-- The loop of `suppressBracketNewlines`.
unfoldable pub suppress_from : (skip depth pending : ℕ) → List Token → List Token
unfolding round
suppress_from skip depth pending [] = []
suppress_from (suc skip) depth pending (t ∷ rest) = suppress_from skip depth pending rest
suppress_from zero depth pending (t ∷ rest) =
    let depth' = bracket_depth depth t.type in
    elim (round depth' pending t rest) [
      | keep ↦ t ∷ suppress_from zero depth' pending rest
      | omit k pending' ↦ suppress_from k depth' pending' rest
    ]

unfoldable pub suppress_bracket_newlines : List Token → List Token
unfolding suppress_from
suppress_bracket_newlines = suppress_from 0 0 0

-- The results of `LexWithComments`; `Lex` is the same without the comments.
pub record Lexed : Type 0 where
  pub tokens : List Token
  pub comments : List Comment
  pub errs : List LexError

unfoldable pub lex_with_comments : Bytes → Option Lexed
unfolding lex suppress_bracket_newlines
lex_with_comments src = lex src >>= λ l.
    some
      (record { tokens = suppress_bracket_newlines l.tokens; comments = l.comments; errs = l.errs })

-- ===== src/Parser/Recovery.antt =====
-- internal/parser/recovery.go: skipping to a place from which the parser goes on.
pub mod Stops
use tya.Prelude.{ℕ, zero, suc, ◌+◌, ◌-◌, Bool, ◌||◌, ◌==◌, if◌then◌else◌}
use tya.Token
use tya.Token.{TokenType, Token, is}
use tya.Parser.State.{Parser, next, at}

-- `skipBalanced` from a depth on; `steps` are those that it has left.
unfoldable pub balanced_from : (steps : ℕ) → TokenType → TokenType → (depth : ℕ) → Parser → Parser
balanced_from zero opening closing depth p = p
balanced_from (suc n) opening closing depth p =
    if at Token.eof p || (depth == 0)
    then p
    else balanced_from n opening closing
        (if at opening p then depth + 1 else if at closing p then depth - 1 else depth) (next p)

-- Its counter may reach 4096.
unfoldable pub skip_balanced : TokenType → TokenType → Parser → Parser
unfolding balanced_from
skip_balanced opening closing p = balanced_from 4097 opening closing 1 p

-- What it stops in front of.
unfoldable pub stops : (close : TokenType) → Parser → Bool
stops close p =
    at Token.eof p || at Token.comma p || at Token.newline p || at Token.dedent p || at close p

-- A bracket with what is in it, or a token.
unfoldable pub skip_one : Parser → Parser
unfolding skip_balanced
skip_one p =
    if at Token.lparen p
    then skip_balanced Token.lparen Token.rparen (next p)
    else if at Token.lbracket p
    then skip_balanced Token.lbracket Token.rbracket (next p)
    else if at Token.lbrace p
    then skip_balanced Token.lbrace Token.rbrace (next p)
    else next p

unfoldable pub skip_from : (steps : ℕ) → (close : TokenType) → Parser → Parser
unfolding stops skip_one
skip_from zero close p = p
skip_from (suc n) close p = if stops close p then p else skip_from n close (skip_one p)

-- `skipToCommaOrClose`, whose counter may reach 2048.
unfoldable pub skip_to_comma_or_close : (close : TokenType) → Parser → Parser
unfolding skip_from
skip_to_comma_or_close close p = skip_from 2049 close p

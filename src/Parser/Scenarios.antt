-- ===== src/Parser/Scenarios.antt =====
-- A list with an error in it, and where the parser goes on.
use tya.Prelude.{codes, false, [], ◌∷◌, ◌≡◌, refl, arith}
use tya.Token
use tya.Token.{Token, TokenType}
use tya.Lexer.State.{plain_token}
use tya.Parser.Classify.{expected_token, classify_parser_code}
use tya.Parser.State.{Parser}
use tya.Parser.Recovery.{skip_to_comma_or_close}
use tya.Parser.Recovery.Stops.{Skips, ends_in_eof, skip_to_comma_or_close-Skips}

abbrev sign : TokenType → Token
sign t = plain_token t [] 1 1

-- `* (a, b), c]`, where an element is expected.
abbrev broken : Parser
broken = record {
  tok = sign Token.star;
  rest =
      sign Token.lparen
      ∷ sign Token.ident
      ∷ sign Token.comma
      ∷ sign Token.ident
      ∷ sign Token.rparen
      ∷ sign Token.comma
      ∷ sign Token.ident
      ∷ sign Token.rbracket
      ∷ sign Token.newline
      ∷ sign Token.eof
      ∷ [];
  continued_line = false;
  errs = [];
}

skip_to_comma_or_close-Skips_example :
    Skips Token.rbracket broken (skip_to_comma_or_close Token.rbracket broken)
unfolding ends_in_eof
skip_to_comma_or_close-Skips_example =
    skip_to_comma_or_close-Skips Token.rbracket broken refl (omega arith)

-- The comma inside the parentheses is passed.
abbrev went_on : Parser
went_on = skip_to_comma_or_close Token.rbracket broken

went_on_rest :
    went_on.rest ≡ sign Token.ident ∷ sign Token.rbracket ∷ sign Token.newline ∷ sign Token.eof ∷ []
unfolding skip_to_comma_or_close
went_on_rest = refl

missing_expression : classify_parser_code (codes "expected expression") ≡ expected_token
unfolding classify_parser_code
missing_expression = refl

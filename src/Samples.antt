-- ===== src/Samples.antt =====
-- Concrete inputs: sources, texts and versions, and what the theorems say of them.
use tya.Prelude.{
  ℕ, ◌+◌, ◌≤◌, ◌<◌, ◌^◌, true, false, List, [], ◌∷◌, Option, some, none, ◌≡◌, ◌↔◌, ◌⊎◌, refl, arith,
  Bytes, codes, length, get_elem?, All,
}
use tya.Text.{split_lines, unix_lines}
use tya.Token.{Token, ident, newline, indent, dedent, lparen, rparen, int, string}
use tya.Lexer.State.{Lexer, new_lexer, plain_token, hex}
use tya.Lexer.Adds.{Adds, Ascends}
use tya.Lexer.Source.{lex}
use tya.Lexer.Source.Total.{lex_total, Finished}
use tya.Lexer.Source.Nesting.{nest}
use tya.Lexer.Suppress.{Lexed, lex_with_comments, suppress_bracket_newlines}
use tya.Lexer.Suppress.Keeps.{suppress-keeps, code_tokens, Clean}
use tya.Lexer.Line.{lex_line}
use tya.Lexer.Line.Rises.{lex_line-Adds, Rises}
use tya.Lexer.Multi.{lex_line_with_lines}
use tya.Lexer.Multi.Ascends.{lex_line_with_lines-Adds}
use tya.Lexer.Comment.{split_comment, strip_comment}
use tya.Lexer.Line.{step, emit}
use tya.Lexer.Comment.Cuts.{split_comment-Cuts, Cuts}
use tya.Lexer.Number.{
  prefixed_literal, prefixed_digits, prefixed_token, digit_of, parse_int, format_int, format_fuel,
  value_from, literal,
}
use tya.Lexer.Number.Value.{prefixed_literal-KeepsValue, KeepsValue}
use tya.Lexer.Escape.{interpret_bytes_escapes, ended}
use tya.Lexer.Escape.Hex.{interpret_bytes_escapes-hex_text, hex_text}
use tya.Interp.{find_expr_end, expr_end, expr_round, skip_string}
use tya.Interp.Bounds.{find_expr_end-get}
use tya.Interp.Balanced.{find_expr_end-Balanced, plain, nest as braces, empty}
use tya.Eval.Interpolate.{interpolate, text}
use tya.Eval.Interpolate.Raw.{interpolate-raw_literal}
use tya.Util.Distance.{levenshtein}
use tya.Util.Distance.Table.{levenshtein-IsLeast, IsLeast}
use tya.Util.Suggest.{suggest}
use tya.Util.Suggest.Ranked.{suggest-Suggests, Suggests}
use tya.Util.Suggest.Complete.{suggest-Complete}
use tya.Pkg.Version.{compare_versions}
use tya.Pkg.Version.Order.{InRange, compare_versions-Says, Says}
use tya.Pkg.Constraint.{satisfies, caret, tilde, bare}
use tya.Pkg.Constraint.Ranges.{satisfies-caret, satisfies-tilde, AtLeast, Compatible}
use tya.Lsp.Incremental.{position_to_offset, offset_to_position, apply_change, ok}
use tya.Lsp.Incremental.RoundTrip.{position_to_offset-offset_to_position, apply_change-between}

-- A function with a block, a nested comment and a call over two lines.
abbrev source : Bytes
source = codes "main = (x) ->\n  # a comment\n  if x\n    print(x,\n      1)\n\nmain(0x1F)\n"

lex_total_example :
    (l : Lexer) × (lex source ≡ some l) × Finished (length (split_lines (unix_lines source))) l
lex_total_example = lex_total source

-- The tokens of a call over two lines.
abbrev call : List Token
call =
    plain_token ident (codes "f") 1 1
    ∷ plain_token lparen (codes "(") 1 2
    ∷ plain_token newline [] 1 3
    ∷ plain_token indent [] 2 1
    ∷ plain_token ident (codes "x") 2 3
    ∷ plain_token rparen (codes ")") 2 4
    ∷ plain_token newline [] 2 5
    ∷ plain_token dedent [] 3 1
    ∷ []

suppress-keeps_example :
    (code_tokens (suppress_bracket_newlines call) ≡ code_tokens call)
    × Clean 0 (suppress_bracket_newlines call)
suppress-keeps_example = suppress-keeps call

lex_line-Adds_example :
    Adds
      (Rises 1 3 (3 + length (codes "x = 'a' + 0b1")))
      new_lexer
      (lex_line (codes "x = 'a' + 0b1") 1 3 new_lexer)
lex_line-Adds_example = lex_line-Adds (codes "x = 'a' + 0b1") 1 3 new_lexer

-- A call whose argument is indented, and a line behind it.
abbrev indented_call : Bytes
indented_call = codes "f(\n  x)\ny\n"

abbrev nesting : Option Lexed → Option ℕ
unfolding nest
nesting none = some 0
nesting (some r) = nest 0 r.tokens

-- The INDENT between the brackets is dropped, and the DEDENT behind them is left.
indented_call_test : nesting (lex_with_comments indented_call) ≡ none
unfolding lex_with_comments nest
indented_call_test = refl

-- A triple-quoted string with its two lines below.
abbrev opening : Bytes
opening = codes "x = \"\"\""

abbrev lines_below : List Bytes
lines_below = codes "  text" ∷ codes "  \"\"\"" ∷ codes "y" ∷ []

lex_line_with_lines-Adds_example :
    ((lex_line_with_lines opening lines_below 1 1 new_lexer).consumed ≤ length lines_below)
    × Adds
        (Ascends 1 (1 + (lex_line_with_lines opening lines_below 1 1 new_lexer).consumed))
        new_lexer
        (lex_line_with_lines opening lines_below 1 1 new_lexer).lexer
lex_line_with_lines-Adds_example = lex_line_with_lines-Adds opening lines_below 1 1 new_lexer

abbrev commented : Bytes
commented = codes "x = \"#\"  # note "

split_comment-Cuts_example :
    Cuts commented (split_comment commented)
    × (strip_comment commented ≡ (split_comment commented).stripped)
split_comment-Cuts_example = split_comment-Cuts commented

-- A backslash in a raw string keeps the quote behind it from ending the string, for `splitComment`.
raw_comment : (split_comment (codes "x = r\"\\\" # c")).has_comment ≡ false
unfolding split_comment
raw_comment = refl

spelled : prefixed_literal hex 1 1 (codes "0x1F_0 ") ≡ literal int (codes "496") 6
unfolding prefixed_literal prefixed_digits prefixed_token digit_of parse_int format_int format_fuel
    value_from
spelled = refl

prefixed_literal-KeepsValue_example :
    KeepsValue hex (prefixed_digits hex (codes "1F_0 ")) 6 int (codes "496")
prefixed_literal-KeepsValue_example = prefixed_literal-KeepsValue hex 1 1 (codes "0x1F_0 ") spelled

interpret_bytes_escapes-hex_text_example :
    interpret_bytes_escapes (hex_text (0 ∷ 10 ∷ 255 ∷ [])) 1 1 ≡ ended (0 ∷ 10 ∷ 255 ∷ [])
interpret_bytes_escapes-hex_text_example =
    interpret_bytes_escapes-hex_text (0 ∷ 10 ∷ 255 ∷ []) 1 1
      (omega arith, (omega arith, (omega arith, tt)))

-- An evaluator that gives an expression's source back.
abbrev echo : Bytes → Option Bytes
echo s = some s

interpolate-raw_literal_example :
    (lexeme : Bytes) × (step 1 5 b'r' (codes "\"{\\n\" + x")
      ≡ emit (2 + length (codes "{\\n")) (plain_token string lexeme 1 5))
    × (interpolate echo lexeme ≡ text (codes "{\\n"))
interpolate-raw_literal_example =
    interpolate-raw_literal echo 1 5 (codes "{\\n") (codes " + x")
      (ground arith, (ground arith, (ground arith, tt))) tt

find_expr_end-Balanced_example : find_expr_end (codes "{a{b}}c") ≡ some 5
find_expr_end-Balanced_example = find_expr_end-Balanced {a = codes "a{b}"} (codes "c") (
    plain (ground arith) (ground arith) (ground arith)
      (braces (plain (ground arith) (ground arith) (ground arith) empty) empty))

find_expr_end-get_example :
    (get_elem? (codes "{\"}\"}") 0 ≡ some b'{')
    × (0 < 4)
    × (get_elem? (codes "{\"}\"}") 4 ≡ some b'}')
find_expr_end-get_example =
    find_expr_end-get (codes "{\"}\"}")
      (unfold find_expr_end expr_end expr_round skip_string in refl)

levenshtein-IsLeast_example :
    IsLeast (codes "kitten") (codes "sitting") (levenshtein (codes "kitten") (codes "sitting"))
levenshtein-IsLeast_example = levenshtein-IsLeast (codes "kitten") (codes "sitting")

abbrev pool : List Bytes
pool = codes "sprint" ∷ codes "print" ∷ codes "x" ∷ []

suggest-Suggests_example : Suggests (codes "prnt") pool 2 3 (suggest (codes "prnt") pool 2 3)
suggest-Suggests_example = suggest-Suggests (codes "prnt") pool 2 3

abbrev sprint : Bytes
sprint = codes "sprint"

sprint_distance : levenshtein (codes "prnt") sprint ≤ 2
unfolding levenshtein
sprint_distance = omega arith

suggest-Complete_example :
    ((j : ℕ) × (get_elem? (suggest (codes "prnt") pool 2 1) j ≡ some sprint))
    ⊎ ((length (suggest (codes "prnt") pool 2 1) ≡ 1)
        × All
            (λ t. levenshtein (codes "prnt") t ≤ levenshtein (codes "prnt") sprint)
            (suggest (codes "prnt") pool 2 1))
suggest-Complete_example =
    suggest-Complete (codes "prnt") pool 2 1 0 sprint (omega arith) (omega arith) (omega arith) refl
      (ground arith) sprint_distance

bare-InRange :
    (major minor patch : ℕ)
    → major < 2 ^ 63
    → minor < 2 ^ 63
    → patch < 2 ^ 63
    → InRange (bare major minor patch)
bare-InRange major minor patch a b c = record { major_lt = a; minor_lt = b; patch_lt = c }

compare_versions-Says_example :
    Says (bare 1 2 0) (bare 1 10 0) (compare_versions (bare 1 2 0) (bare 1 10 0))
compare_versions-Says_example =
    compare_versions-Says (bare 1 2 0) (bare 1 10 0)
      (bare-InRange 1 2 0 (omega arith) (omega arith) (omega arith))
      (bare-InRange 1 10 0 (omega arith) (omega arith) (omega arith))

satisfies-caret_example :
    (satisfies (caret (codes "^0.3.1") (bare 0 3 1)) (bare 0 3 9) ≡ true)
    ↔ (AtLeast (bare 0 3 1) (bare 0 3 9) × Compatible (bare 0 3 1) (bare 0 3 9))
satisfies-caret_example =
    satisfies-caret (codes "^0.3.1") (bare 0 3 1) (bare 0 3 9)
      (bare-InRange 0 3 1 (omega arith) (omega arith) (omega arith))
      (bare-InRange 0 3 9 (omega arith) (omega arith) (omega arith))
      (omega arith, omega arith, omega arith)

satisfies-tilde_example : (satisfies (tilde (codes "~1.4.0") (bare 1 4 0)) (bare 1 5 0) ≡ true) ↔ (
    AtLeast (bare 1 4 0) (bare 1 5 0)
    × ((bare 1 5 0).major ≡ (bare 1 4 0).major)
    × ((bare 1 5 0).minor ≡ (bare 1 4 0).minor))
satisfies-tilde_example =
    satisfies-tilde (codes "~1.4.0") (bare 1 4 0) (bare 1 5 0)
      (bare-InRange 1 4 0 (omega arith) (omega arith) (omega arith))
      (bare-InRange 1 5 0 (omega arith) (omega arith) (omega arith))
      (omega arith, omega arith, omega arith)

abbrev document : Bytes
document = codes "ab\ncd\n"

position_to_offset-offset_to_position_example :
    position_to_offset document (offset_to_position document 4) ≡ ok 4
position_to_offset-offset_to_position_example =
    position_to_offset-offset_to_position document 4 (omega arith)

apply_change-between_example :
    apply_change document (record {
      range =
          some
            (record { start = offset_to_position document 1; end = offset_to_position document 4 });
      text = codes "X";
    })
    ≡ ok (codes "aXd\n")
apply_change-between_example =
    apply_change-between document 1 4 (codes "X") (omega arith) (omega arith)

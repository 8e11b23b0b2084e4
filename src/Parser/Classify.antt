-- ===== src/Parser/Classify.antt =====
-- internal/parser/classify.go: the codes of the parser's errors. The messages are ASCII.
use tya.Prelude.{Bool, false, ◌||◌, ◌&&◌, ◌+◌, [], ◌∷◌, map, leb, if◌then◌else◌, Bytes, codes}
use tya.Text.{has_prefix}

pub data Code : Type 0 where
  expected_token expected_block unexpected_token position_constraint : Code
  reserved_name unsupported_syntax pattern_syntax expected_expression : Code

-- `strings.ToLower`.
unfoldable pub to_lower : Bytes → Bytes
to_lower s = map (λ c. if leb b'A' c && leb c b'Z' then c + 32 else c) s

-- `strings.Contains`, for a part that is not empty.
unfoldable pub contains_text : (part : Bytes) → Bytes → Bool
unfolding has_prefix
contains_text part [] = false
contains_text part (c ∷ s) = has_prefix (c ∷ s) part || contains_text part s

-- The switch, on the message in lower case.
unfoldable pub code_of : Bytes → Code
unfolding contains_text has_prefix
code_of m =
    if contains_text (codes "expected indented block") m
    then expected_block
    else if contains_text (codes "expected") m
    then expected_token
    else if has_prefix m (codes "unexpected")
    then unexpected_token
    else if contains_text (codes "outside") m
        || contains_text (codes "must be inside") m
        || contains_text (codes "not allowed at top level") m
        || contains_text (codes "only allowed") m
    then position_constraint
    else if contains_text (codes "cannot be used as a name") m || contains_text (codes "reserved") m
    then reserved_name
    else if contains_text (codes "not in tya") m
        || contains_text (codes "no longer supported") m
        || contains_text (codes "is not supported") m
    then unsupported_syntax
    else if contains_text (codes "pattern") m
        || contains_text (codes "destructuring") m
        || contains_text (codes "multiple-assignment") m
    then pattern_syntax
    else if contains_text (codes "expression") m
    then expected_expression
    else unexpected_token

-- `classifyParserCode`.
unfoldable pub classify_parser_code : Bytes → Code
unfolding code_of to_lower
classify_parser_code msg = code_of (to_lower msg)

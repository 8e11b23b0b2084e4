-- ===== src/Formatter/Scenarios.antt =====
-- Concrete expressions, their texts, and what the theorem says of one.
use tya.Prelude.{false, [], ◌∷◌, ◌≡◌, refl, some, Bytes, codes, arith, inl}
use tya.Text.{bytes_eq}
use tya.Dict.{contains}
use tya.Token
use tya.Token.{Token, TokenType, type_text}
use tya.Lexer.State.{plain_token, new_lexer}
use tya.Lexer.Line.{lex_line, one_byte, two_bytes}
use tya.Lexer.Bytes.{all_of}
use tya.Ast
use tya.Ast.{Expr}
use tya.Parser.State.{Parser, ok}
use tya.Parser.Call.{dot_ahead, args_ahead}
use tya.Parser.Function.{Statements}
use tya.Parser.Primary.{parse_expr}
use tya.Parser.Levels.{op_level}
use tya.Lexer.Number.{format_int}
use tya.Formatter.Unparse.{wraps, Texts, pieces, text_of, calls_object, unparse_expr}
use tya.Formatter.Feed.{feed, quiet, tokens, in_front, lexed}
use tya.Formatter.Apart.{Apart, Fits}
use tya.Formatter.Operators
use tya.Formatter.Operators.{operator_token, operator_text, operator_type, is_shift}
use tya.Formatter.Postfix
use tya.Formatter.Postfix.{prefix_token}
use tya.Formatter.Primaries.{IsName, word_token}
use tya.Formatter.Readable
use tya.Formatter.Readable.{Readable}
use tya.Formatter.RoundTrip.{parse_expr-unparse_expr}

abbrev texts : Texts
texts = record {
  is_class_name = λ s. false;
  quote = λ s. s;
  float_text = λ n. [];
  triple_text = λ s. s;
}

abbrev no_statements : Statements Unit
no_statements = record { func_body = λ p. ok [] p; after_keyword = λ t p. ok tt p }

abbrev end_of_file : Parser
end_of_file = record {
  tok = plain_token Token.newline [] 1 1;
  rest = plain_token Token.eof [] 1 1 ∷ [];
  continued_line = false;
  errs = [];
}

abbrev var : Bytes → Expr Unit
var x = Ast.ident x (word_token x 0 0)

-- `(a + b) * -c.size ?? f(x, y[0])[1]`.
abbrev sum : Expr Unit
sum = Ast.binary_expr (var (codes "a")) (operator_token Operators.plus 0 0) (var (codes "b"))

abbrev opposite : Expr Unit
opposite =
    Ast.unary_expr (prefix_token Postfix.negate 0 0)
      (Ast.member_expr (var (codes "c")) (codes "size") (word_token (codes "size") 0 0))

abbrev element : Expr Unit
element = Ast.index_expr (var (codes "y")) (Ast.int_lit 0)

abbrev called : Expr Unit
called =
    Ast.call_expr (var (codes "f"))
      (Ast.positional (var (codes "x")) (Ast.positional element Ast.no_args))

abbrev example : Expr Unit
example =
    Ast.binary_expr (Ast.binary_expr sum (operator_token Operators.times 0 0) opposite)
      (operator_token Operators.coalesce 0 0) (Ast.index_expr called (Ast.int_lit 1))

abbrev var-Readable : (x : Bytes) → IsName x → Readable texts (var x)
var-Readable x h = Readable.name x 0 0 h

example-Readable : Readable texts example
unfolding is_shift calls_object contains bytes_eq
example-Readable =
    Readable.operation Operators.coalesce 0 0 (inl refl)
      (Readable.operation Operators.times 0 0 (inl refl)
        (Readable.operation Operators.plus 0 0 (inl refl) (var-Readable (codes "a") refl)
          (var-Readable (codes "b") refl))
        (Readable.prefix Postfix.negate 0 0
          (Readable.member (codes "size") 0 0 (var-Readable (codes "c") refl))))
      (Readable.index
        (Readable.call refl (var-Readable (codes "f") refl) (
          Readable.given (
            Readable.more_args (var-Readable (codes "x") refl) (
              Readable.one_arg
                (Readable.index (var-Readable (codes "y") refl) (Readable.int 0 (omega arith)))))))
        (Readable.int 1 (omega arith)))

abbrev example_code : Bytes
example_code = codes "(a + b) * -c.size ?? f(x, y[0])[1]"

example_text : text_of (pieces texts example) ≡ example_code
unfolding text_of pieces wraps operator_text type_text format_int
example_text = refl

example_tokens : lexed example_code ≡ tokens (pieces texts example)
unfolding lexed tokens pieces wraps operator_text operator_type type_text format_int
example_tokens = refl

infixr 5 ◌▸◌
-- A pair.
◌▸◌ : {A B : Type 0} → A → B → A × B
a ▸ b = (a, b)

example-Apart : Apart (pieces texts example)
unfolding Apart text_of pieces wraps operator_text operator_type type_text format_int one_byte
    two_bytes all_of
example-Apart =
    Fits.a_sign b'(' Token.lparen _ refl refl refl
    ▸ Fits.a_word b'a' [] _ refl refl refl
    ▸ Fits.a_sign b'+' Token.plus _ refl refl refl
    ▸ Fits.a_word b'b' [] _ refl refl refl
    ▸ Fits.a_sign b')' Token.rparen _ refl refl refl
    ▸ Fits.a_sign b'*' Token.star _ refl refl refl
    ▸ Fits.a_sign b'-' Token.minus _ refl refl refl
    ▸ Fits.a_word b'c' [] _ refl refl refl
    ▸ Fits.a_sign b'.' Token.dot _ refl refl refl
    ▸ Fits.a_word b's' (codes "ize") _ refl refl refl
    ▸ Fits.two_signs b'?' b'?' Token.nil_coalesce _ refl refl refl refl
    ▸ Fits.a_word b'f' [] _ refl refl refl
    ▸ Fits.a_sign b'(' Token.lparen _ refl refl refl
    ▸ Fits.a_word b'x' [] _ refl refl refl
    ▸ Fits.a_sign b',' Token.comma _ refl refl refl
    ▸ Fits.a_word b'y' [] _ refl refl refl
    ▸ Fits.a_sign b'[' Token.lbracket _ refl refl refl
    ▸ Fits.a_number b'0' [] _ refl refl refl refl
    ▸ Fits.a_sign b']' Token.rbracket _ refl refl refl
    ▸ Fits.a_sign b')' Token.rparen _ refl refl refl
    ▸ Fits.a_sign b'[' Token.lbracket _ refl refl refl
    ▸ Fits.a_number b'1' [] _ refl refl refl refl
    ▸ Fits.a_sign b']' Token.rbracket _ refl refl refl
    ▸ tt

parse_expr-unparse_expr_example :
    (unparse_expr texts example ≡ some (text_of (pieces texts example)))
    × ((lex_line (text_of (pieces texts example)) 1 1 new_lexer).errs ≡ [])
    × (parse_expr
          (λ s. 0)
          no_statements
          (in_front (lexed (text_of (pieces texts example))) end_of_file)
        ≡ ok example end_of_file)
unfolding op_level dot_ahead args_ahead quiet in_front lexed text_of pieces wraps operator_text
    operator_type type_text format_int tokens
parse_expr-unparse_expr_example =
    parse_expr-unparse_expr (λ s. 0) no_statements texts example end_of_file example-Readable
      example-Apart
      (record {
        no_lparen = refl;
        no_lbracket = refl;
        no_dot = refl;
        no_dot_ahead = refl;
        no_args_ahead = refl;
      })
      refl refl

-- A sum that is shifted is written and read as a sum with a shifted operand.
abbrev shifted_sum : Expr Unit
shifted_sum = Ast.binary_expr sum (operator_token Operators.shl 0 0) (Ast.int_lit 3)

shifted_sum_text : text_of (pieces texts shifted_sum) ≡ codes "a + b << 3"
unfolding text_of pieces wraps operator_text type_text format_int
shifted_sum_text = refl

shifted_sum_read :
    parse_expr (λ s. 0) no_statements (feed (pieces texts shifted_sum) end_of_file)
    ≡ ok
        (Ast.binary_expr
          (var (codes "a"))
          (operator_token Operators.plus 0 0)
          (Ast.binary_expr (var (codes "b")) (operator_token Operators.shl 0 0) (Ast.int_lit 3)))
        end_of_file
unfolding parse_expr feed pieces wraps operator_text format_int operator_type
shifted_sum_read = refl

-- A task of a sum is read as a sum with a task.
abbrev task_of_sum : Expr Unit
task_of_sum = Ast.spawn_expr sum (word_token (codes "spawn") 0 0)

task_of_sum_read :
    parse_expr (λ s. 0) no_statements (feed (pieces texts task_of_sum) end_of_file)
    ≡ ok
        (Ast.binary_expr
          (Ast.spawn_expr (var (codes "a")) (word_token (codes "spawn") 0 0))
          (operator_token Operators.plus 0 0)
          (var (codes "b")))
        end_of_file
unfolding parse_expr feed pieces wraps operator_text format_int operator_type
task_of_sum_read = refl

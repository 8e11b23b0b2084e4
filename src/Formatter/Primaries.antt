-- ===== src/Formatter/Primaries.antt =====
-- internal/parser/parser.go: how `primary` and `unary` read the tokens that the formatter writes.
use tya.Prelude.{
  ℕ, suc, ◌<◌, ◌^◌, Bool, true, false, List, [], ◌∷◌, ◌++◌, ◌≡◌, refl, ap, arith, length,
  if◌then◌else◌, Bytes, codes, inl, inr, Bool-cases,
}
use tya.Text.{bytes_eq, bytes_eq-eq}
use tya.Dict.{contains}
use tya.Token
use tya.Token.{Token, is, none_form}
use tya.Ast
use tya.Ast.{Expr, Exprs}
use tya.Lexer.Number.{format_int}
use tya.Lexer.Number.Value.{format_int-Prints}
use tya.Lexer.State.{plain_token}
use tya.Parser.State.{
  Parser, Parse, ok, at, is_word, reserved_names, excluded_names, reject_reserved_name,
}
use tya.Parser.Levels.{level}
use tya.Parser.Function.{Statements, expr}
use tya.Parser.Primary.{
  control_words, name_expr, parenthesized, elements, array_literal, primary, unary, is_prefix,
}
use tya.Formatter.Unparse.{sign}
use tya.Formatter.Feed.{push, Quiet, Quiet-Inert}
use tya.Formatter.Quiet.{expr-level}

-- The words that are no names of variables.
abbrev pub special_words : List Bytes
special_words = codes "super" ∷ (control_words ++ (excluded_names ++ reserved_names))

abbrev pub IsName : Bytes → Type 0
IsName w = contains special_words w ≡ false

-- The token of a word.
abbrev pub word_token : Bytes → (line col : ℕ) → Token
word_token w line col = plain_token Token.ident w line col

-- What stands first in an expression whose operators stand all in brackets.
pub record Plain (t : Token) : Type 0 where
  pub not_try : is_word (codes "try") t ≡ false
  pub not_spawn : is_word (codes "spawn") t ≡ false
  pub not_await : is_word (codes "await") t ≡ false
  pub not_prefix : is_prefix t ≡ false

-- A text that is in a set is none that is not.
free-bytes_eq :
    (ws : List Bytes) (x w : Bytes)
    → contains ws w ≡ true
    → contains ws x ≡ false
    → bytes_eq x w ≡ false
free-bytes_eq ws x w has free = elim (Bool-cases (bytes_eq x w)) [
  | inl e ↦ (let same = bytes_eq-eq x w e in cc)
  | inr f ↦ f
]

contains-append :
    (a b : List Bytes) (x : Bytes)
    → contains (a ++ b) x ≡ false
    → (contains a x ≡ false) × (contains b x ≡ false)
unfolding contains
contains-append [] b x h = (refl, h)
contains-append (v ∷ a) b x h =
    let later : contains (a ++ b) x ≡ false = ground (arith, h) in
    let (left, right) = contains-append a b x later in (ground (arith, h, left), right)

-- A name is none of the special words.
name_is_not :
    (w : Bytes) → contains special_words w ≡ true → (x : Bytes) → IsName x → bytes_eq x w ≡ false
name_is_not w has x h = free-bytes_eq special_words x w has h

pub IsName-Plain : (x : Bytes) (line col : ℕ) → IsName x → Plain (word_token x line col)
unfolding is_word contains bytes_eq
IsName-Plain x line col h = record {
  not_try = name_is_not (codes "try") refl x h;
  not_spawn = name_is_not (codes "spawn") refl x h;
  not_await = name_is_not (codes "await") refl x h;
  not_prefix = rw (is_word, name_is_not (codes "not") refl x h);
}

module _ {S : Type 0} (parse_float : Bytes → ℕ) (statements : Statements S) where
  abbrev pub reader : ℕ → Parse (Expr S)
  reader n = unary parse_float statements n

  abbrev pub atom : ℕ → Parse (Expr S)
  atom n = primary parse_float statements (reader n)

  pub atom-name :
      (n : ℕ) (x : Bytes) (line col : ℕ) (q : Parser)
      → IsName x
      → Quiet q
      → atom n (push (word_token x line col) q) ≡ ok (Ast.ident x (word_token x line col)) q
  unfolding primary name_expr contains reject_reserved_name
  atom-name n x line col q h quiet =
      let i = Quiet-Inert q quiet in
      let (super, words) =
        contains-append (codes "super" ∷ []) (control_words ++ (excluded_names ++ reserved_names)) x
          h in
      let (control, names) =
        contains-append control_words (excluded_names ++ reserved_names) x words in
      let (excluded, reserved) = contains-append excluded_names reserved_names x names in
      let is_not = λ (w : Bytes) (has : contains special_words w ≡ true). name_is_not w has x h in
      rw (
        primary,
        control,
        name_expr,
        i.no_question,
        i.no_bang,
        is_not (codes "true") refl,
        is_not (codes "false") refl,
        is_not (codes "nil") refl,
        is_not (codes "super") refl,
        is_not (codes "self") refl,
        is_not (codes "Self") refl,
        reject_reserved_name,
        excluded,
        reserved,
      )

  pub atom-int :
      (n v : ℕ) (q : Parser)
      → v < 2 ^ 63
      → atom n (push (plain_token Token.int (format_int v) 0 0) q) ≡ ok (Ast.int_lit v) q
  unfolding primary
  atom-int n v q h =
      let (value, digits) = format_int-Prints v h in
      ap (λ x. ok (Ast.int_lit x) q) (rw value (ground arith))

  pub atom-bool :
      (n : ℕ) (b : Bool) (q : Parser)
      → Quiet q
      → atom n (push (plain_token Token.ident (if b then codes "true" else codes "false") 0 0) q)
        ≡ ok (Ast.bool_lit b) q
  unfolding primary name_expr contains bytes_eq
  atom-bool n true q quiet = let i = Quiet-Inert q quiet in rw (i.no_question, i.no_bang)
  atom-bool n false q quiet = let i = Quiet-Inert q quiet in rw (i.no_question, i.no_bang)

  pub atom-nil :
      (n : ℕ) (q : Parser)
      → Quiet q
      → atom n (push (plain_token Token.ident (codes "nil") 0 0) q) ≡ ok Ast.nil_lit q
  unfolding primary name_expr contains bytes_eq
  atom-nil n q quiet = let i = Quiet-Inert q quiet in rw (i.no_question, i.no_bang)

  pub atom_self :
      (n : ℕ) (class : Bool) (line col : ℕ) (q : Parser)
      → Quiet q
      → (let t = word_token (if class then codes "Self" else codes "self") line col in
          atom n (push t q) ≡ ok (Ast.self_expr t class) q)
  unfolding primary name_expr contains bytes_eq
  atom_self n true line col q quiet = let i = Quiet-Inert q quiet in rw (i.no_question, i.no_bang)
  atom_self n false line col q quiet = let i = Quiet-Inert q quiet in rw (i.no_question, i.no_bang)

  pub atom-super :
      (n line col : ℕ) (q : Parser)
      → Quiet q
      → (let t = word_token (codes "super") line col in atom n (push t q) ≡ ok (Ast.super_expr t) q)
  unfolding primary name_expr contains bytes_eq
  atom-super n line col q quiet = let i = Quiet-Inert q quiet in rw (i.no_question, i.no_bang)

  pub atom-group :
      (n : ℕ) (p : Parser) (e : Expr S) (q : Parser)
      → at Token.rparen p ≡ false
      → Quiet p
      → Quiet (push (sign Token.rparen) q)
      → level (reader n) 10 p ≡ ok e (push (sign Token.rparen) q)
      → atom n (push (sign Token.lparen) p) ≡ ok e q
  unfolding primary parenthesized
  atom-group n p e q starts hp hq h =
      rw (starts, expr-level statements (reader n) true p e (push (sign Token.rparen) q) hp hq h)

  pub atom-array :
      (n : ℕ) (p : Parser) (es : Exprs S) (q : Parser)
      → at Token.rbracket p ≡ false
      → elements (suc (length p.rest)) (expr statements (reader n) true) p
        ≡ ok es (push (sign Token.rbracket) q)
      → atom n (push (sign Token.lbracket) p) ≡ ok (Ast.array_lit es) q
  unfolding primary array_literal
  atom-array n p es q starts h = rw (starts, h)

  pub atom_no_array :
      (n : ℕ) (q : Parser)
      → atom n (push (sign Token.lbracket) (push (sign Token.rbracket) q))
        ≡ ok (Ast.array_lit Ast.no_exprs) q
  unfolding primary array_literal
  atom_no_array n q = refl

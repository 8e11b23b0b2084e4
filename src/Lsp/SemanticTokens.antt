-- ===== src/Lsp/SemanticTokens.antt =====
-- internal/lsp/semantic_tokens.go: the tokens that an editor colours, and their encoding. The index
-- of symbols, which is built from the syntax tree, is a parameter.
pub mod Delta
use tya.Prelude.{
  ℕ, zero, suc, ◌+◌, ◌-◌, ◌%◌, ◌^◌, Bool, true, false, not, ◌&&◌, ◌||◌, List, [], ◌∷◌, ◌++◌, Option,
  none, some, ◌≡◌, refl, ltb, ◌==◌, if◌then◌else◌, map, Bytes, codes, length,
}
use tya.Text.{bytes_eq, has_prefix}
use tya.Dict.{contains}
use tya.Token
use tya.Token.{TokenType, Token, type_text}
use tya.Lexer.State.{Comment, LexError}
use tya.Lexer.Suppress.{Lexed, lex_with_comments}
use tya.Sorting.{sort_stable}

-- The values of `Symbol.Kind`, and the place of the name.
pub data SymbolKind : Type 0 where
  class struct record_kind module_kind interface function : SymbolKind

pub record Symbol : Type 0 where
  pub kind : SymbolKind
  pub line : ℕ
  pub col : ℕ

-- `keywords` of internal/lsp/stdlib.go.
unfoldable pub keywords : List Bytes
keywords =
    codes "if"
    ∷ codes "elseif"
    ∷ codes "else"
    ∷ codes "while"
    ∷ codes "for"
    ∷ codes "in"
    ∷ codes "break"
    ∷ codes "continue"
    ∷ codes "return"
    ∷ codes "raise"
    ∷ codes "try"
    ∷ codes "catch"
    ∷ codes "class"
    ∷ codes "module"
    ∷ codes "interface"
    ∷ codes "struct"
    ∷ codes "record"
    ∷ codes "implements"
    ∷ codes "extends"
    ∷ codes "abstract"
    ∷ codes "final"
    ∷ codes "override"
    ∷ codes "private"
    ∷ codes "protected"
    ∷ codes "static"
    ∷ codes "initialize"
    ∷ codes "self"
    ∷ codes "Self"
    ∷ codes "super"
    ∷ codes "import"
    ∷ codes "as"
    ∷ codes "embed"
    ∷ codes "match"
    ∷ codes "case"
    ∷ codes "when"
    ∷ codes "true"
    ∷ codes "false"
    ∷ codes "nil"
    ∷ codes "spawn"
    ∷ codes "await"
    ∷ codes "scope"
    ∷ codes "select"
    ∷ codes "receive"
    ∷ codes "send"
    ∷ codes "timeout"
    ∷ codes "default"
    ∷ []

-- The indices into the legend.
abbrev pub st_keyword : ℕ
st_keyword = 0

abbrev pub st_variable : ℕ
st_variable = 1

abbrev pub st_string : ℕ
st_string = 2

abbrev pub st_number : ℕ
st_number = 3

abbrev pub st_comment : ℕ
st_comment = 4

abbrev pub st_operator : ℕ
st_operator = 5

abbrev pub st_function : ℕ
st_function = 6

abbrev pub st_class : ℕ
st_class = 7

abbrev pub st_namespace : ℕ
st_namespace = 8

pub record SemanticEvent : Type 0 where
  pub line : ℕ
  pub col : ℕ
  pub length : ℕ
  pub kind : ℕ
  pub mods : ℕ

-- `isOperatorToken`.
unfoldable pub is_operator_token : TokenType → Bool
is_operator_token Token.assign = true
is_operator_token Token.nil_assign = true
is_operator_token Token.eq = true
is_operator_token Token.neq = true
is_operator_token Token.lt = true
is_operator_token Token.lte = true
is_operator_token Token.gt = true
is_operator_token Token.gte = true
is_operator_token Token.plus = true
is_operator_token Token.minus = true
is_operator_token Token.star = true
is_operator_token Token.slash = true
is_operator_token Token.percent = true
is_operator_token Token.arrow = true
is_operator_token Token.amp = true
is_operator_token Token.pipe = true
is_operator_token Token.caret = true
is_operator_token Token.tilde = true
is_operator_token Token.shl = true
is_operator_token Token.shr = true
is_operator_token Token.colon = true
is_operator_token Token.comma = true
is_operator_token Token.dot = true
is_operator_token Token.question = true
is_operator_token _ = false

-- Whether the next token that is no mark of the layout is a `(`.
unfoldable pub calls : List Token → Bool
calls [] = false
calls (t ∷ rest) = elim t.type [
  | Token.newline ↦ calls rest
  | Token.indent ↦ calls rest
  | Token.dedent ↦ calls rest
  | Token.lparen ↦ true
  | _ ↦ false
]

unfoldable pub symbol_class : SymbolKind → ℕ
symbol_class class = st_class
symbol_class struct = st_class
symbol_class record_kind = st_class
symbol_class module_kind = st_namespace
symbol_class interface = st_namespace
symbol_class function = st_function

-- `lexemeLength`.
unfoldable pub lexeme_length : Token → ℕ
unfolding type_text has_prefix
lexeme_length t =
    let text = type_text t.type in
    if not (length t.lexeme == 0)
    then length t.lexeme
    else if not (has_prefix text (codes "IDENT")) && ltb (length text) 4
    then length text
    else 0

module _ (index : Bytes → Option Symbol) where
  unfoldable pub classify_ident : Token → (rest : List Token) → ℕ
  unfolding contains keywords symbol_class calls
  classify_ident t rest = if contains keywords t.lexeme then st_keyword else elim (index t.lexeme) [
    | some s ↦ symbol_class s.kind
    | none ↦ if calls rest then st_function else st_variable
  ]

  -- `classifyToken` at a token in front of `rest`; `none` is `stUnassigned`.
  unfoldable pub classify_token : Token → (rest : List Token) → Option ℕ
  unfolding classify_ident is_operator_token
  classify_token t rest = elim t.type [
    | Token.string ↦ some st_string
    | Token.int ↦ some st_number
    | Token.float ↦ some st_number
    | Token.ident ↦ some (classify_ident t rest)
    | other ↦ if is_operator_token other then some st_operator else none
  ]

  -- `semanticModifiers`: the bit of a definition.
  unfoldable pub semantic_modifiers : Token → ℕ
  semantic_modifiers t = elim (index t.lexeme) [
    | none ↦ 0
    | some s ↦ if s.line == t.line && s.col == t.col then 4 else 0
  ]

  unfoldable pub token_events : List Token → List SemanticEvent
  unfolding classify_token semantic_modifiers lexeme_length
  token_events [] = []
  token_events (t ∷ rest) =
      let later = token_events rest in
      elim (classify_token t rest) [
        | none ↦ later
        | some kind ↦
            if lexeme_length t == 0
            then later
            else record {
              line = t.line - 1;
              col = t.col - 1;
              length = lexeme_length t;
              kind = kind;
              mods = semantic_modifiers t;
            }
              ∷ later
      ]

  -- `SemanticTokensFor`, on what the lexer gives; a comment includes its `#`.
  unfoldable pub events_of : List Token → List Comment → List SemanticEvent
  unfolding token_events
  events_of tokens comments =
      token_events tokens
      ++ map
          (λ c.
            let e : SemanticEvent = record {
              line = c.line - 1;
              col = c.col - 1;
              length = length c.text + 1;
              kind = st_comment;
              mods = 0;
            } in
            e)
          comments

-- The order of the sort.
unfoldable pub stands_before : SemanticEvent → SemanticEvent → Bool
stands_before a b = if a.line == b.line then ltb a.col b.col else ltb a.line b.line

-- `uint32(n - m)`.
abbrev pub difference : ℕ → ℕ → ℕ
difference n m = (n + 2 ^ 32 - m % 2 ^ 32) % 2 ^ 32

-- `deltaEncode`, behind an event that stands at `line` and `col`.
unfoldable pub delta_encode : (line col : ℕ) → List SemanticEvent → List ℕ
delta_encode line col [] = []
delta_encode line col (e ∷ es) =
    difference e.line line
    ∷ (if e.line == line then difference e.col col else e.col % 2 ^ 32)
    ∷ (e.length % 2 ^ 32)
    ∷ (e.kind % 2 ^ 32)
    ∷ e.mods
    ∷ delta_encode e.line e.col es

unfoldable pub semantic_tokens_for : (index : Bytes → Option Symbol) → Bytes → Option (List ℕ)
unfolding lex_with_comments events_of stands_before sort_stable delta_encode
semantic_tokens_for index src = elim (lex_with_comments src) [
  | none ↦ none
  | some l ↦
      some (delta_encode 0 0 (sort_stable stands_before (events_of index l.tokens l.comments)))
]

semantic_test :
    semantic_tokens_for (λ name. none) (codes "x = f(1) # a\n\ny\n")
    ≡ some (
        0 ∷ 0 ∷ 1 ∷ 1 ∷ 0 ∷ 0 ∷ 2 ∷ 1 ∷ 5 ∷ 0 ∷ 0 ∷ 2 ∷ 1 ∷ 6 ∷ 0 ∷ 0 ∷ 2 ∷ 1 ∷ 3 ∷ 0 ∷ 0 ∷ 3 ∷ 3
        ∷ 4 ∷ 0 ∷ 2 ∷ 0 ∷ 1 ∷ 1 ∷ 0 ∷ [])
unfolding semantic_tokens_for
semantic_test = refl

-- ===== src/Formatter/Reading.antt =====
-- internal/parser/parser.go: how the levels, `unary` and `call` read pieces that stand in front of a
-- parser, and how these readings combine.
use tya.Prelude.{
  ℕ, zero, suc, ◌<◌, ◌≤◌, true, false, [], ◌∷◌, ◌++◌, ◌≡◌, ◌∙◌, refl, arith, sym, subst, Bytes,
  none,
}
use tya.Token
use tya.Token.{TokenType, Token, is}
use tya.Ast.{Expr, binary_expr}
use tya.Parser.State.{Parser, Parse, ok, at}
use tya.Parser.Levels.{level, op_at, op_level, type_level}
use tya.Parser.Call.{dot_ahead, args_ahead}
use tya.Parser.Function.{Statements, expr, expr_line}
use tya.Parser.Primary.{unary}
use tya.Formatter.Unparse.{Pieces, blank, piece, mark, sign, parenthesized}
use tya.Formatter.Feed.{
  push, feed, count, feed-append, count-append, length-feed, Quiet, push-Quiet, feed-Quiet,
}
use tya.Formatter.Operators.{
  Operator, operator_token, operator_token-op_at, operator_type_lem, operator_level, operator_text,
}
use tya.Formatter.Loops.{Ends, none-Ends, InLoop, start-InLoop, step-InLoop, end-InLoop, level-up}
use tya.Formatter.Chains.{Calm, InChain, start-InChain, end-InChain}
use tya.Formatter.Primaries.{Plain, reader, atom, atom-group}

stop-Ends :
    (k : ℕ) (t : TokenType) (p : Parser)
    → is t Token.ident ≡ false
    → type_level t ≡ none
    → Ends k (push (sign t) p)
unfolding op_level
stop-Ends k t p i h = none-Ends k (push (sign t) p) (rw (i, h))

-- Behind an element of a list, or an expression in brackets.
pub data Closes : TokenType → Type 0 where
  rparen : Closes Token.rparen
  rbracket : Closes Token.rbracket
  comma : Closes Token.comma

pub Closes-Calm : (t : TokenType) (p : Parser) → Closes t → Calm (push (sign t) p)
unfolding dot_ahead args_ahead
Closes-Calm t p rparen = record {
  no_lparen = refl;
  no_lbracket = refl;
  no_dot = refl;
  no_dot_ahead = refl;
  no_args_ahead = refl;
}
Closes-Calm t p rbracket = record {
  no_lparen = refl;
  no_lbracket = refl;
  no_dot = refl;
  no_dot_ahead = refl;
  no_args_ahead = refl;
}
Closes-Calm t p comma = record {
  no_lparen = refl;
  no_lbracket = refl;
  no_dot = refl;
  no_dot_ahead = refl;
  no_args_ahead = refl;
}

pub Closes-Ends : (t : TokenType) (p : Parser) (k : ℕ) → Closes t → Ends k (push (sign t) p)
unfolding type_level
Closes-Ends t p k rparen = stop-Ends k Token.rparen p refl refl
Closes-Ends t p k rbracket = stop-Ends k Token.rbracket p refl refl
Closes-Ends t p k comma = stop-Ends k Token.comma p refl refl

operator-Calm :
    (o : Operator) (line col : ℕ) (p : Parser) → Calm (push (operator_token o line col) p)
unfolding dot_ahead args_ahead
operator-Calm o line col p =
    let (a, b, c, d) = operator_type_lem o in
    record {
      no_lparen = a;
      no_lbracket = b;
      no_dot = c;
      no_dot_ahead = rw d refl;
      no_args_ahead = rw d refl;
    }

operator-Ends :
    (o : Operator) (line col : ℕ) (p : Parser)
    → Ends (operator_level o) (push (operator_token o line col) p)
operator-Ends o line col p j l = operator_token-op_at j o line col ∙ ground (arith, l)

operator_here :
    (o : Operator) (line col : ℕ) → op_at (operator_level o) (operator_token o line col) ≡ true
operator_here o line col = operator_token-op_at (operator_level o) o line col ∙ ground arith

module _ {S : Type 0} (parse_float : Bytes → ℕ) (statements : Statements S) where
  abbrev pub read_unary : ℕ → Parse (Expr S)
  read_unary = reader parse_float statements

  abbrev pub no_comma : ℕ → Parse (Expr S)
  no_comma n = expr statements (read_unary n) false

  abbrev pub full : ℕ → Parse (Expr S)
  full n = expr statements (read_unary n) true

  abbrev pub line : ℕ → Parse (Expr S)
  line n = expr_line statements (read_unary n)

  abbrev pub at_atom : ℕ → Parse (Expr S)
  at_atom n = atom parse_float statements n

  -- `call` in `unary` on fuel `suc n`.
  abbrev pub ChainAt : ℕ → Parser → Expr S → Parser → Type 0
  ChainAt n p e q = InChain (no_comma n) (full n) (line n) (at_atom n) p e q

  -- A level from `b` on reads `e` off the pieces.
  abbrev pub ReadsAt : Pieces → Expr S → ℕ → Type 0
  ReadsAt ps e b =
      (f : ℕ) (q : Parser)
      → count ps < f
      → Quiet (feed ps q)
      → Calm q
      → (k : ℕ) → b ≤ k
      → Ends k q
      → level (read_unary f) k (feed ps q) ≡ ok e q

  -- Level `k` comes to stand in its loop.
  abbrev pub LoopsAt : Pieces → Expr S → ℕ → Type 0
  LoopsAt ps e k =
      (f : ℕ) (q : Parser)
      → count ps < f
      → Quiet (feed ps q)
      → Calm q
      → Ends k q
      → InLoop (read_unary f) k (feed ps q) e q

  -- `call` comes to stand in its loop.
  abbrev pub ChainsAt : Pieces → Expr S → Type 0
  ChainsAt ps e =
      (n : ℕ) (q : Parser) → count ps < suc n → Quiet (feed ps q) → ChainAt n (feed ps q) e q

  -- `primary` reads.
  abbrev pub AtomAt : Pieces → Expr S → Type 0
  AtomAt ps e =
      (n : ℕ) (q : Parser) → count ps < suc n → Quiet (feed ps q) → at_atom n (feed ps q) ≡ ok e q

  abbrev pub StartsPlain : Pieces → Type 0
  StartsPlain ps = (q : Parser) → Plain (feed ps q).tok

  pub atom-ChainsAt : (ps : Pieces) (e : Expr S) → AtomAt ps e → ChainsAt ps e
  atom-ChainsAt ps e h n q fuel quiet =
      start-InChain (no_comma n) (full n) (line n) (at_atom n) (feed ps q) e q quiet
        (h n q fuel quiet)

  unary-call :
      (n : ℕ) (p : Parser) (e : Expr S) (q : Parser)
      → Plain p.tok
      → ChainAt n p e q
      → Quiet q
      → Calm q
      → read_unary (suc n) p ≡ ok e q
  unfolding unary
  unary-call n p e q plain h quiet calm =
      rw (plain.not_try, plain.not_spawn, plain.not_await, plain.not_prefix)
        (end-InChain (no_comma n) (full n) (line n) (at_atom n) p e q h quiet calm)

  pub chain-ReadsAt : (ps : Pieces) (e : Expr S) → StartsPlain ps → ChainsAt ps e → ReadsAt ps e 0
  unfolding level
  chain-ReadsAt ps e plain h zero q fuel quiet calm k le ends = absurd (omega arith)
  chain-ReadsAt ps e plain h (suc n) q fuel quiet calm k le ends =
      level-up (read_unary (suc n)) 0 (feed ps q) e q
        (unary-call n (feed ps q) e q (plain q) (h n q fuel quiet) (feed-Quiet ps q quiet) calm) k
        le ends

  pub reads-LoopsAt : (ps : Pieces) (e : Expr S) (b k : ℕ) → ReadsAt ps e b → b ≤ k → LoopsAt ps e k
  reads-LoopsAt ps e b k h le f q fuel quiet calm ends =
      start-InLoop (read_unary f) k (feed ps q) e q (h f q fuel quiet calm k le ends)

  pub loops-ReadsAt : (ps : Pieces) (e : Expr S) (k : ℕ) → LoopsAt ps e k → ReadsAt ps e (suc k)
  loops-ReadsAt ps e k h f q fuel quiet calm m le ends =
      level-up (read_unary f) (suc k) (feed ps q) e q
        (end-InLoop (read_unary f) k (feed ps q) e q
          (h f q fuel quiet calm (λ j l. ends j (omega arith))) (ends k (omega arith)))
        m le ends

  pub group-AtomAt :
      (ps : Pieces) (e : Expr S) (b : ℕ)
      → ((q : Parser) → at Token.rparen (feed ps q) ≡ false)
      → b ≤ 10
      → ReadsAt ps e b
      → AtomAt (parenthesized ps) e
  unfolding feed count
  group-AtomAt ps e b starts le h n q fuel quiet =
      let cut = feed-append ps (mark Token.rparen ∷ []) q in
      let quiet' = subst (λ p. Quiet (push (sign Token.lparen) p)) cut quiet in
      let inner = push-Quiet (sign Token.lparen) (feed ps (push (sign Token.rparen) q)) quiet' in
      let counted = count-append ps (mark Token.rparen ∷ []) in
      subst (λ p. at_atom n (push (sign Token.lparen) p) ≡ ok e q) (sym cut)
        (atom-group parse_float statements n (feed ps (push (sign Token.rparen) q)) e q
          (starts (push (sign Token.rparen) q)) inner
          (feed-Quiet ps (push (sign Token.rparen) q) inner)
          (h n (push (sign Token.rparen) q) (omega (arith, fuel, counted)) inner
            (Closes-Calm Token.rparen q rparen) 10 le (Closes-Ends Token.rparen q 10 rparen)))

  -- An operation, read from its left operand on.
  pub infix-LoopsAt :
      (pl pr : Pieces) (l r : Expr S) (b : ℕ) (o : Operator) (line_ col : ℕ)
      → LoopsAt pl l (operator_level o)
      → ReadsAt pr r b
      → b ≤ operator_level o
      → LoopsAt
          (pl ++ (blank ∷ piece (operator_token o line_ col) (operator_text o) ∷ blank ∷ pr))
          (binary_expr l (operator_token o line_ col) r)
          (operator_level o)
  unfolding feed count
  infix-LoopsAt pl pr l r b o line_ col hl hr le f q fuel quiet calm ends =
      let op = operator_token o line_ col in
      let behind = push op (feed pr q) in
      let cut = feed-append pl (blank ∷ piece op (operator_text o) ∷ blank ∷ pr) q in
      let counted = count-append pl (blank ∷ piece op (operator_text o) ∷ blank ∷ pr) in
      let quiet' : Quiet (feed pl behind) = subst Quiet cut quiet in
      let quiet_r = push-Quiet op (feed pr q) (feed-Quiet pl behind quiet') in
      let k = operator_level o in
      subst (λ p. InLoop (read_unary f) k p (binary_expr l op r) q) (sym cut)
        (step-InLoop (read_unary f) k (feed pl behind) l op (feed pr q) r q
          (hl f behind (omega (arith, fuel, counted)) quiet' (operator-Calm o line_ col (feed pr q))
            (operator-Ends o line_ col (feed pr q)))
          (operator_here o line_ col) (hr f q (omega (arith, fuel, counted)) quiet_r calm k le ends)
          (omega (arith, length-feed pr q)))

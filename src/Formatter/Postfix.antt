-- ===== src/Formatter/Postfix.antt =====
-- internal/parser/parser.go: how members, indices, calls and prefix operators are read.
use tya.Prelude.{
  ℕ, zero, suc, ◌<◌, ◌≤◌, ◌+◌, Bool, true, [], ◌∷◌, ◌++◌, ◌≡◌, ◌∙◌, refl, ap, arith, sym, subst,
  Bytes, codes,
}
use tya.Token
use tya.Token.{Token, is}
use tya.Text.{bytes_eq}
use tya.Lexer.State.{plain_token}
use tya.Ast
use tya.Ast.{Expr, CallArgs}
use tya.Parser.State.{Parser, ok, is_word}
use tya.Parser.Levels.{level}
use tya.Parser.Call.{arguments}
use tya.Parser.Function.{Statements, expr}
use tya.Parser.Primary.{unary}
use tya.Formatter.Unparse.{Pieces, blank, piece, mark, sign, unary_blank}
use tya.Formatter.Feed.{
  push, feed, count, feed-append, count-append, length-feed, Quiet, push-Quiet, feed-Quiet,
}
use tya.Formatter.Quiet.{expr-level}
use tya.Formatter.Loops.{level-up}
use tya.Formatter.Chains.{member-InChain, index-InChain, call-InChain}
use tya.Formatter.Primaries.{word_token}
use tya.Formatter.Reading.{
  read_unary, no_comma, full, line, at_atom, ChainAt, ReadsAt, ChainsAt, rbracket, Closes,
  Closes-Calm, Closes-Ends,
}

module _ {S : Type 0} (parse_float : Bytes → ℕ) (statements : Statements S) where
  -- An expression in front of what closes it.
  pub full-closed :
      (ps : Pieces) (e : Expr S) (b : ℕ) (t : Token.TokenType) (allow : Bool)
      → Closes t
      → b ≤ 10
      → ReadsAt parse_float statements ps e b
      → (n : ℕ) (q : Parser) → count ps < n
      → Quiet (feed ps (push (sign t) q))
      → expr statements (read_unary parse_float statements n) allow (feed ps (push (sign t) q))
        ≡ ok e (push (sign t) q)
  full-closed ps e b t allow c le h n q fuel quiet =
      let p = push (sign t) q in
      expr-level statements (read_unary parse_float statements n) allow (feed ps p) e p quiet
        (feed-Quiet ps p quiet) (h n p fuel quiet (Closes-Calm t q c) 10 le (Closes-Ends t q 10 c))

  pub member-ChainsAt :
      (ps : Pieces) (e : Expr S) (name : Bytes) (l c : ℕ)
      → ChainsAt parse_float statements ps e
      → ChainsAt parse_float statements
          (ps ++ (mark Token.dot ∷ piece (word_token name l c) name ∷ []))
          (Ast.member_expr e name (word_token name l c))
  unfolding feed count
  member-ChainsAt ps e name l c h n q fuel quiet =
      let t = word_token name l c in
      let tail = mark Token.dot ∷ piece t name ∷ [] in
      let cut = feed-append ps tail q in
      let counted = count-append ps tail in
      let p = push (sign Token.dot) (push t q) in
      let quiet' : Quiet (feed ps p) = subst Quiet cut quiet in
      subst (λ x. ChainAt parse_float statements n x (Ast.member_expr e name t) q) (sym cut)
        (member-InChain (no_comma parse_float statements n) (full parse_float statements n)
          (line parse_float statements n) (at_atom parse_float statements n) (feed ps p) e t q
          (h n p (omega (arith, fuel, counted)) quiet') refl
          (push-Quiet t q (push-Quiet (sign Token.dot) (push t q) (feed-Quiet ps p quiet'))))

  pub index-ChainsAt :
      (ps pi : Pieces) (e i : Expr S) (b : ℕ)
      → ChainsAt parse_float statements ps e
      → b ≤ 10
      → ReadsAt parse_float statements pi i b
      → ChainsAt parse_float statements
          (ps ++ (mark Token.lbracket ∷ (pi ++ mark Token.rbracket ∷ [])))
          (Ast.index_expr e i)
  unfolding feed count
  index-ChainsAt ps pi e i b h le hi n q fuel quiet =
      let tail = mark Token.lbracket ∷ (pi ++ mark Token.rbracket ∷ []) in
      let r = feed pi (push (sign Token.rbracket) q) in
      let p = push (sign Token.lbracket) r in
      let cut : feed (ps ++ tail) q ≡ feed ps p =
        feed-append ps tail q
        ∙ ap (λ x. feed ps (push (sign Token.lbracket) x))
            (feed-append pi (mark Token.rbracket ∷ []) q) in
      let counted = count-append ps tail in
      let inner = count-append pi (mark Token.rbracket ∷ []) in
      let quiet' : Quiet (feed ps p) = subst Quiet cut quiet in
      let quiet_r = push-Quiet (sign Token.lbracket) r (feed-Quiet ps p quiet') in
      let total : count ps + (count pi + 2) < suc n = omega (arith, fuel, counted, inner) in
      subst (λ x. ChainAt parse_float statements n x (Ast.index_expr e i) q) (sym cut)
        (index-InChain (no_comma parse_float statements n) (full parse_float statements n)
          (line parse_float statements n) (at_atom parse_float statements n) (feed ps p) e r i q
          (h n p (omega (arith, total)) quiet')
          (full-closed pi i b Token.rbracket true rbracket le hi n q (omega (arith, total)) quiet_r)
          (omega (arith, length-feed pi (push (sign Token.rbracket) q))))

  -- The arguments of a call, up to its end.
  abbrev pub ArgsAt : Pieces → CallArgs S → Type 0
  ArgsAt ps args =
      (n : ℕ) (q : Parser)
      → count ps < n
      → Quiet (feed ps (push (sign Token.rparen) q))
      → arguments (no_comma parse_float statements n) (feed ps (push (sign Token.rparen) q))
        ≡ ok args q

  pub call-ChainsAt :
      (ps pa : Pieces) (e : Expr S) (args : CallArgs S)
      → ChainsAt parse_float statements ps e
      → ArgsAt pa args
      → ChainsAt parse_float statements
          (ps ++ (mark Token.lparen ∷ (pa ++ mark Token.rparen ∷ [])))
          (Ast.call_expr e args)
  unfolding feed count
  call-ChainsAt ps pa e args h ha n q fuel quiet =
      let tail = mark Token.lparen ∷ (pa ++ mark Token.rparen ∷ []) in
      let r = feed pa (push (sign Token.rparen) q) in
      let p = push (sign Token.lparen) r in
      let cut : feed (ps ++ tail) q ≡ feed ps p =
        feed-append ps tail q
        ∙ ap (λ x. feed ps (push (sign Token.lparen) x))
            (feed-append pa (mark Token.rparen ∷ []) q) in
      let counted = count-append ps tail in
      let inner = count-append pa (mark Token.rparen ∷ []) in
      let quiet' : Quiet (feed ps p) = subst Quiet cut quiet in
      let quiet_r = push-Quiet (sign Token.lparen) r (feed-Quiet ps p quiet') in
      let total : count ps + (count pa + 2) < suc n = omega (arith, fuel, counted, inner) in
      subst (λ x. ChainAt parse_float statements n x (Ast.call_expr e args) q) (sym cut)
        (call-InChain (no_comma parse_float statements n) (full parse_float statements n)
          (line parse_float statements n) (at_atom parse_float statements n) (feed ps p) e r args q
          (h n p (omega (arith, total)) quiet') (ha n q (omega (arith, total)) quiet_r)
          (omega (arith, length-feed pa (push (sign Token.rparen) q))))

-- The operators that stand in front of an operand.
pub data PrefixOperator : Type 0 where
  negate complement negation : PrefixOperator

abbrev pub prefix_token : PrefixOperator → (line col : ℕ) → Token
prefix_token negate line col = plain_token Token.minus (codes "-") line col
prefix_token complement line col = plain_token Token.tilde (codes "~") line col
prefix_token negation line col = word_token (codes "not") line col

module _ {S : Type 0} (parse_float : Bytes → ℕ) (statements : Statements S) where
  abbrev pub Reads0 : Pieces → Expr S → Type 0
  Reads0 ps e = ReadsAt parse_float statements ps e 0

  -- What `unary` reads on fuel `suc n`, if the operand is read on fuel `n`.
  under-Reads0 :
      (op : Token) (ps rest : Pieces) (e made : Expr S)
      → ((q : Parser) → feed rest q ≡ feed ps q)
      → count rest ≡ count ps
      → ((n : ℕ) (q : Parser)
          → read_unary parse_float statements n (feed ps q) ≡ ok e q
          → read_unary parse_float statements (suc n) (push op (feed ps q)) ≡ ok made q)
      → Reads0 ps e
      → Reads0 (piece op op.lexeme ∷ rest) made
  unfolding feed count level
  under-Reads0 op ps rest e made same counted step h zero q fuel quiet calm k le ends =
      absurd (omega arith)
  under-Reads0 op ps rest e made same counted step h (suc n) q fuel quiet calm k le ends =
      let quiet' : Quiet (push op (feed ps q)) = subst (λ x. Quiet (push op x)) (same q) quiet in
      let operand =
        h n q (omega (arith, fuel, counted)) (push-Quiet op (feed ps q) quiet') calm 0 (omega arith)
          (λ j l. absurd (omega arith)) in
      subst (λ x. level (read_unary parse_float statements (suc n)) k (push op x) ≡ ok made q)
        (sym (same q))
        (level-up (read_unary parse_float statements (suc n)) 0 (push op (feed ps q)) made q
          (step n q operand) k le ends)

  pub prefix-Reads0 :
      (o : PrefixOperator) (l c : ℕ) (ps : Pieces) (e : Expr S)
      → Reads0 ps e
      → (let t = prefix_token o l c in
          Reads0 (piece t t.lexeme ∷ (unary_blank t ++ ps)) (Ast.unary_expr t e))
  unfolding unary feed count is_word bytes_eq
  prefix-Reads0 negate l c ps e =
      under-Reads0 (prefix_token negate l c) ps ps e (Ast.unary_expr (prefix_token negate l c) e)
        (λ q. refl) refl (λ n q h. rw h)
  prefix-Reads0 complement l c ps e =
      under-Reads0 (prefix_token complement l c) ps ps e
        (Ast.unary_expr (prefix_token complement l c) e) (λ q. refl) refl (λ n q h. rw h)
  prefix-Reads0 negation l c ps e =
      under-Reads0 (prefix_token negation l c) ps (blank ∷ ps) e
        (Ast.unary_expr (prefix_token negation l c) e) (λ q. refl) refl (λ n q h. rw h)

  pub spawn-Reads0 :
      (l c : ℕ) (ps : Pieces) (e : Expr S)
      → Reads0 ps e
      → (let t = word_token (codes "spawn") l c in
          Reads0 (piece t t.lexeme ∷ blank ∷ ps) (Ast.spawn_expr e t))
  unfolding unary feed count is_word bytes_eq
  spawn-Reads0 l c ps e =
      under-Reads0 (word_token (codes "spawn") l c) ps (blank ∷ ps) e
        (Ast.spawn_expr e (word_token (codes "spawn") l c)) (λ q. refl) refl (λ n q h. rw h)

  pub await-Reads0 :
      (l c : ℕ) (ps : Pieces) (e : Expr S)
      → Reads0 ps e
      → (let t = word_token (codes "await") l c in
          Reads0 (piece t t.lexeme ∷ blank ∷ ps) (Ast.await_expr e t))
  unfolding unary feed count is_word bytes_eq
  await-Reads0 l c ps e =
      under-Reads0 (word_token (codes "await") l c) ps (blank ∷ ps) e
        (Ast.await_expr e (word_token (codes "await") l c)) (λ q. refl) refl (λ n q h. rw h)

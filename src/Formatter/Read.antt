-- ===== src/Formatter/Read.antt =====
-- internal/formatter/unparse.go and internal/parser/parser.go: what the parser makes of an
-- expression's pieces where it stands alone, in parentheses or as an operand.
use tya.Prelude.{
  ℕ, suc, ◌≤◌, Bool, true, false, ◌++◌, ◌≡◌, refl, arith, sym, subst, Bytes, Bool-cases, ltb, inl,
  inr,
}
use tya.Ast.{Expr}
use tya.Parser.State.{Parser, is_word}
use tya.Parser.Function.{Statements}
use tya.Formatter.Unparse.{Texts, Pieces, pieces, parenthesized, wrap_if, is_compound}
use tya.Formatter.Feed.{feed, feed-append}
use tya.Formatter.Reading.{
  ReadsAt, LoopsAt, ChainsAt, AtomAt, StartsPlain, atom-ChainsAt, chain-ReadsAt, reads-LoopsAt,
  loops-ReadsAt, group-AtomAt,
}
use tya.Formatter.Sequences.{Head, Heads}
use tya.Formatter.Primaries.{Plain}

pub Heads-append : (a b : Pieces) → Heads a → Heads (a ++ b)
Heads-append a b h q = subst Head (sym (feed-append a b q)) (h (feed b q))

pub Plain-append :
    (a b : Pieces)
    → ((q : Parser) → Plain (feed a q).tok)
    → (q : Parser) → Plain (feed (a ++ b) q).tok
Plain-append a b h q = subst (λ p. Plain p.tok) (sym (feed-append a b q)) (h (feed b q))

parenthesized-Heads : (ps : Pieces) → Heads (parenthesized ps)
unfolding feed
parenthesized-Heads ps q = record { no_rparen = refl; no_rbracket = refl; no_star = refl }

parenthesized-Plain : (ps : Pieces) (q : Parser) → Plain (feed (parenthesized ps) q).tok
unfolding feed is_word
parenthesized-Plain ps q = record {
  not_try = refl;
  not_spawn = refl;
  not_await = refl;
  not_prefix = refl;
}

pub wrap_if-Heads : (b : Bool) (ps : Pieces) → Heads ps → Heads (wrap_if b ps)
wrap_if-Heads true ps h = parenthesized-Heads ps
wrap_if-Heads false ps h = h

module _ {S : Type 0} (parse_float : Bytes → ℕ) (statements : Statements S) (u : Texts) where
  abbrev pub Target : Expr S → Pieces
  Target e = wrap_if (is_compound e) (pieces u e)

  -- What the parser makes of the pieces of an expression, which level `b` reads.
  pub record Read (e : Expr S) (b : ℕ) : Type 0 where
    pub heads : Heads (pieces u e)
    pub small : b ≤ 10
    pub reads : ReadsAt parse_float statements (pieces u e) e b
    pub loops : (k : ℕ) → b ≤ suc k → LoopsAt parse_float statements (pieces u e) e k
    pub plain : StartsPlain parse_float statements (Target e)
    pub chains : ChainsAt parse_float statements (Target e) e

  pub chain-Read :
      (e : Expr S)
      → is_compound e ≡ false
      → Heads (pieces u e)
      → StartsPlain parse_float statements (pieces u e)
      → ChainsAt parse_float statements (pieces u e) e
      → Read e 0
  chain-Read e n heads plain chains =
      let reads = chain-ReadsAt parse_float statements (pieces u e) e plain chains in
      record {
        heads = heads;
        small = omega arith;
        reads = reads;
        loops = λ k le. reads-LoopsAt parse_float statements (pieces u e) e 0 k reads (omega arith);
        plain = rw n plain;
        chains = rw n chains;
      }

  -- An operand in parentheses.
  group-ChainsAt :
      (ps : Pieces) (e : Expr S) (b : ℕ)
      → Heads ps
      → b ≤ 10
      → ReadsAt parse_float statements ps e b
      → ChainsAt parse_float statements (parenthesized ps) e
  group-ChainsAt ps e b heads le reads =
      atom-ChainsAt parse_float statements (parenthesized ps) e
        (group-AtomAt parse_float statements ps e b (λ q. let h = heads q in h.no_rparen) le reads)

  group-ReadsAt :
      (ps : Pieces) (e : Expr S) (b : ℕ)
      → Heads ps
      → b ≤ 10
      → ReadsAt parse_float statements ps e b
      → ReadsAt parse_float statements (parenthesized ps) e 0
  group-ReadsAt ps e b heads le reads =
      chain-ReadsAt parse_float statements (parenthesized ps) e (parenthesized-Plain ps)
        (group-ChainsAt ps e b heads le reads)

  pub prefix-Read :
      (e : Expr S)
      → is_compound e ≡ true
      → Heads (pieces u e)
      → ReadsAt parse_float statements (pieces u e) e 0
      → Read e 0
  prefix-Read e c heads reads = record {
    heads = heads;
    small = omega arith;
    reads = reads;
    loops = λ k le. reads-LoopsAt parse_float statements (pieces u e) e 0 k reads (omega arith);
    plain = rw c (parenthesized-Plain (pieces u e));
    chains = rw c (group-ChainsAt (pieces u e) e 0 heads (omega arith) reads);
  }

  -- An operand of a binary operator, with the parentheses that it gets.
  pub left-LoopsAt :
      (b : Bool) (e : Expr S) (r k : ℕ)
      → Read e r
      → (b ≡ false → r ≤ suc k)
      → LoopsAt parse_float statements (wrap_if b (pieces u e)) e k
  left-LoopsAt true e r k h le =
      reads-LoopsAt parse_float statements (parenthesized (pieces u e)) e 0 k
        (group-ReadsAt (pieces u e) e r h.heads h.small h.reads) (omega arith)
  left-LoopsAt false e r k h le = h.loops k (le refl)

  pub right-ReadsAt :
      (b : Bool) (e : Expr S) (r k : ℕ)
      → Read e r
      → (b ≡ false → r ≤ k)
      → ReadsAt parse_float statements (wrap_if b (pieces u e)) e k
  right-ReadsAt true e r k h le f q fuel quiet calm m l ends =
      group-ReadsAt (pieces u e) e r h.heads h.small h.reads f q fuel quiet calm m (omega arith)
        ends
  right-ReadsAt false e r k h le f q fuel quiet calm m l ends =
      let bound = le refl in h.reads f q fuel quiet calm m (omega arith) ends

  pub atom-Read :
      (e : Expr S)
      → is_compound e ≡ false
      → Heads (pieces u e)
      → StartsPlain parse_float statements (pieces u e)
      → AtomAt parse_float statements (pieces u e) e
      → Read e 0
  atom-Read e n heads plain h =
      chain-Read e n heads plain (atom-ChainsAt parse_float statements (pieces u e) e h)

  pub loops-Read :
      (e : Expr S) (k : ℕ)
      → is_compound e ≡ true
      → Heads (pieces u e)
      → suc k ≤ 10
      → LoopsAt parse_float statements (pieces u e) e k
      → Read e (suc k)
  loops-Read e k c heads le h =
      let reads = loops-ReadsAt parse_float statements (pieces u e) e k h in
      record {
        heads = heads;
        small = le;
        reads = reads;
        loops = λ m l. elim (Bool-cases (ltb k m)) [
          | inl t ↦
              reads-LoopsAt parse_float statements (pieces u e) e (suc k) m reads
                (ground (arith, t))
          | inr f ↦
              subst (λ j. LoopsAt parse_float statements (pieces u e) e j) (ground (arith, f, l)) h
        ];
        plain = rw c (parenthesized-Plain (pieces u e));
        chains = rw c (group-ChainsAt (pieces u e) e (suc k) heads le reads);
      }

-- ===== src/Formatter/Leaves.antt =====
-- internal/formatter/unparse.go and internal/parser/parser.go: what the parser makes of the
-- pieces of names and literals.
use tya.Prelude.{ℕ, ◌<◌, ◌^◌, true, false, refl, Bytes, codes}
use tya.Text.{bytes_eq}
use tya.Ast
use tya.Ast.{Expr, Exprs, CallArgs}
use tya.Parser.State.{is_word}
use tya.Parser.Function.{Statements}
use tya.Formatter.Unparse.{Texts, pieces}
use tya.Formatter.Feed
use tya.Formatter.Feed.{push, feed, feed-append, Quiet}
use tya.Formatter.Primaries
use tya.Formatter.Primaries.{Plain, IsName-Plain, word_token}
use tya.Formatter.Read.{Read, atom-Read}

module _ {S : Type 0} (parse_float : Bytes → ℕ) (statements : Statements S) (u : Texts) where
  abbrev R : Expr S → ℕ → Type 0
  R e b = Read parse_float statements u e b

  pub name-Read :
      (x : Bytes) (line col : ℕ) → Primaries.IsName x → R (Ast.ident x (word_token x line col)) 0
  unfolding pieces feed
  name-Read x line col h =
      atom-Read parse_float statements u (Ast.ident x (word_token x line col)) refl
        (λ q. record { no_rparen = refl; no_rbracket = refl; no_star = refl })
        (λ q. IsName-Plain x line col h)
        (λ n q fuel quiet.
          Primaries.atom-name parse_float statements n x line col q h
            (Feed.push-Quiet (word_token x line col) q quiet))

  pub int-Read : (v : ℕ) → v < 2 ^ 63 → R (Ast.int_lit v) 0
  unfolding pieces feed is_word
  int-Read v h =
      atom-Read parse_float statements u (Ast.int_lit v) refl
        (λ q. record { no_rparen = refl; no_rbracket = refl; no_star = refl })
        (λ q. record { not_try = refl; not_spawn = refl; not_await = refl; not_prefix = refl })
        (λ n q fuel quiet. Primaries.atom-int parse_float statements n v q h)

  pub true-Read : R (Ast.bool_lit true) 0
  unfolding pieces feed is_word bytes_eq
  true-Read =
      atom-Read parse_float statements u (Ast.bool_lit true) refl
        (λ q. record { no_rparen = refl; no_rbracket = refl; no_star = refl })
        (λ q. record { not_try = refl; not_spawn = refl; not_await = refl; not_prefix = refl })
        (λ n q fuel quiet.
          Primaries.atom-bool parse_float statements n true q
            (Feed.push-Quiet (word_token (codes "true") 0 0) q quiet))

  pub false-Read : R (Ast.bool_lit false) 0
  unfolding pieces feed is_word bytes_eq
  false-Read =
      atom-Read parse_float statements u (Ast.bool_lit false) refl
        (λ q. record { no_rparen = refl; no_rbracket = refl; no_star = refl })
        (λ q. record { not_try = refl; not_spawn = refl; not_await = refl; not_prefix = refl })
        (λ n q fuel quiet.
          Primaries.atom-bool parse_float statements n false q
            (Feed.push-Quiet (word_token (codes "false") 0 0) q quiet))

  pub nil-Read : R (Ast.nil_lit) 0
  unfolding pieces feed is_word bytes_eq
  nil-Read =
      atom-Read parse_float statements u (Ast.nil_lit) refl
        (λ q. record { no_rparen = refl; no_rbracket = refl; no_star = refl })
        (λ q. record { not_try = refl; not_spawn = refl; not_await = refl; not_prefix = refl })
        (λ n q fuel quiet.
          Primaries.atom-nil parse_float statements n q
            (Feed.push-Quiet (word_token (codes "nil") 0 0) q quiet))

  pub class-Read : (line col : ℕ) → R (Ast.self_expr (word_token (codes "Self") line col) true) 0
  unfolding pieces feed is_word bytes_eq
  class-Read line col =
      atom-Read parse_float statements u (Ast.self_expr (word_token (codes "Self") line col) true)
        refl (λ q. record { no_rparen = refl; no_rbracket = refl; no_star = refl })
        (λ q. record { not_try = refl; not_spawn = refl; not_await = refl; not_prefix = refl })
        (λ n q fuel quiet.
          Primaries.atom_self parse_float statements n true line col q
            (Feed.push-Quiet (word_token (codes "Self") line col) q quiet))

  pub self-Read : (line col : ℕ) → R (Ast.self_expr (word_token (codes "self") line col) false) 0
  unfolding pieces feed is_word bytes_eq
  self-Read line col =
      atom-Read parse_float statements u (Ast.self_expr (word_token (codes "self") line col) false)
        refl (λ q. record { no_rparen = refl; no_rbracket = refl; no_star = refl })
        (λ q. record { not_try = refl; not_spawn = refl; not_await = refl; not_prefix = refl })
        (λ n q fuel quiet.
          Primaries.atom_self parse_float statements n false line col q
            (Feed.push-Quiet (word_token (codes "self") line col) q quiet))

  pub super-Read : (line col : ℕ) → R (Ast.super_expr (word_token (codes "super") line col)) 0
  unfolding pieces feed is_word bytes_eq
  super-Read line col =
      atom-Read parse_float statements u (Ast.super_expr (word_token (codes "super") line col)) refl
        (λ q. record { no_rparen = refl; no_rbracket = refl; no_star = refl })
        (λ q. record { not_try = refl; not_spawn = refl; not_await = refl; not_prefix = refl })
        (λ n q fuel quiet.
          Primaries.atom-super parse_float statements n line col q
            (Feed.push-Quiet (word_token (codes "super") line col) q quiet))

  pub no_array-Read : R (Ast.array_lit Ast.no_exprs) 0
  unfolding pieces feed is_word bytes_eq
  no_array-Read =
      atom-Read parse_float statements u (Ast.array_lit Ast.no_exprs) refl
        (λ q. record { no_rparen = refl; no_rbracket = refl; no_star = refl })
        (λ q. record { not_try = refl; not_spawn = refl; not_await = refl; not_prefix = refl })
        (λ n q fuel quiet. Primaries.atom_no_array parse_float statements n q)

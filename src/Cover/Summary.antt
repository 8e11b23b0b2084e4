-- ===== src/Cover/Summary.antt =====
-- internal/cover/cover.go: `Summarize` and `Total`. The map of summaries is gone through in the
-- order in which its files came; its result is sorted by path.
pub mod Plus
pub mod Count
use tya.Prelude.{
  ℕ, zero, suc, ◌+◌, ◌%◌, ◌^◌, Bool, true, false, ◌&&◌, List, [], ◌∷◌, ◌≡◌, refl, ltb, ◌==◌,
  if◌then◌else◌, map, Bytes, codes,
}
use tya.Text.{text_less}
use tya.Sorting.{sort_stable}
use tya.Cover.Profile.{File, Stmt, Hits, Profile, hits_of, add_hits}

pub record LineHit : Type 0 where
  pub line : ℕ
  pub hits : ℕ
  pub coverable : Bool

pub record FileSummary : Type 0 where
  pub path : Bytes
  pub statements : ℕ
  pub hits : ℕ
  pub missed : ℕ
  pub lines : List LineHit

-- A summary that is being counted, with its part of `lineSeen`.
pub record Counted : Type 0 where
  pub path : Bytes
  pub statements : ℕ
  pub hits : ℕ
  pub missed : ℕ
  pub line_hits : Hits

-- `byFile[id] = &FileSummary{...}`.
unfoldable pub put : ℕ → Counted → List (ℕ × Counted) → List (ℕ × Counted)
put id c [] = (id, c) ∷ []
put id c ((k, d) ∷ l) = let rest = put id c l in if k == id then (k, c) ∷ l else (k, d) ∷ rest

abbrev pub fresh : Bytes → Counted
fresh path = record { path = path; statements = 0; hits = 0; missed = 0; line_hits = [] }

unfoldable pub by_file : List (ℕ × Counted) → List File → List (ℕ × Counted)
unfolding put
by_file l [] = l
by_file l (f ∷ fs) = by_file (put f.id (fresh f.path) l) fs

-- `n > 0` and `n < m`, on 64-bit ints.
abbrev pub is_positive : ℕ → Bool
is_positive n = ltb 0 n && ltb n (2 ^ 63)

abbrev pub is_below : ℕ → ℕ → Bool
is_below n m = ltb ((n + 2 ^ 63) % 2 ^ 64) ((m + 2 ^ 63) % 2 ^ 64)

unfoldable pub count_in : (line hits : ℕ) → Counted → Counted
unfolding add_hits
count_in line h c = record {
  path = c.path;
  statements = c.statements + 1;
  hits = (if is_positive h then c.hits + 1 else c.hits);
  missed = (if is_positive h then c.missed else c.missed + 1);
  line_hits = add_hits line h c.line_hits;
}

-- A statement of a file that is not there is passed over.
unfoldable pub count_stmt : Hits → Stmt → List (ℕ × Counted) → List (ℕ × Counted)
unfolding hits_of count_in
count_stmt hits s [] = []
count_stmt hits s ((k, c) ∷ l) =
    let rest = count_stmt hits s l in
    if k == s.file_id then (k, count_in s.line (hits_of s.id hits) c) ∷ l else (k, c) ∷ rest

unfoldable pub count_stmts : Hits → List Stmt → List (ℕ × Counted) → List (ℕ × Counted)
unfolding count_stmt
count_stmts hits [] l = l
count_stmts hits (s ∷ ss) l = count_stmts hits ss (count_stmt hits s l)

unfoldable pub line_hits : Hits → List LineHit
unfolding sort_stable
line_hits l =
    map (λ e. record { line = e.0; hits = e.1; coverable = true })
      (sort_stable (λ (a b : ℕ × ℕ). is_below a.0 b.0) l)

unfoldable pub summary_of : Counted → FileSummary
unfolding line_hits
summary_of c = record {
  path = c.path;
  statements = c.statements;
  hits = c.hits;
  missed = c.missed;
  lines = line_hits c.line_hits;
}

unfoldable pub summaries_of : List (ℕ × Counted) → List FileSummary
unfolding summary_of
summaries_of [] = []
summaries_of ((k, c) ∷ l) = summary_of c ∷ summaries_of l

unfoldable pub summarize : Profile → List FileSummary
unfolding summaries_of count_stmts by_file sort_stable text_less
summarize p =
    sort_stable (λ (a b : FileSummary). text_less a.path b.path)
      (summaries_of (count_stmts p.hits p.stmts (by_file [] p.files)))

-- `Totals`.
pub record Totals : Type 0 where
  pub statements : ℕ
  pub hits : ℕ
  pub missed : ℕ

-- `Total`.
unfoldable pub total : List FileSummary → Totals
total [] = record { statements = 0; hits = 0; missed = 0 }
total (s ∷ l) =
    let t = total l in
    record {
      statements = s.statements + t.statements;
      hits = s.hits + t.hits;
      missed = s.missed + t.missed;
    }

summary_test :
    total (
      summarize (record {
        files = record { id = 7; path = codes "b" } ∷ record { id = 8; path = codes "a" } ∷ [];
        stmts =
            record { id = 4; file_id = 7; line = 1; col = 1 }
            ∷ record { id = 5; file_id = 8; line = 2; col = 3 }
            ∷ record { id = 6; file_id = 9; line = 2; col = 3 }
            ∷ [];
        hits = (5, 6) ∷ [];
      }))
    ≡ record { statements = 2; hits = 1; missed = 1 }
unfolding summarize total
summary_test = refl

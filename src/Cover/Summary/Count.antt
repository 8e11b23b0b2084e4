-- ===== src/Cover/Summary/Count.antt =====
-- What the totals of a profile's summaries count.
use tya.Prelude.{
  ℕ, ◌+◌, Bool, false, ◌||◌, List, [], ◌∷◌, ◌≡◌, refl, sym, ap, ◌∙◌, inl, inr, arith, ◌==◌,
  if◌then◌else◌, Bool-cases, Bytes,
}
use tya.Text.{text_less}
use tya.Sorting.{insert_stable, sort_stable}
use tya.Cover.Profile.{File, Stmt, Hits, Profile, hits_of}
use tya.Cover.Summary.{
  FileSummary, Counted, put, fresh, by_file, is_positive, count_in, count_stmt, count_stmts,
  summary_of, summaries_of, summarize, Totals, total,
}
use tya.Cover.Summary.Plus.{
  plus, totals_of, plus-swap, plus-zero, plus-move, one_more, or_assoc, or_false,
}

module _ (less : FileSummary → FileSummary → Bool) where
  total-insert_stable :
      (s : FileSummary) (l : List FileSummary)
      → total (insert_stable less s l) ≡ plus (totals_of s) (total l)
  unfolding total insert_stable
  total-insert_stable s [] = refl
  total-insert_stable s (e ∷ l) = elim (Bool-cases (less e s)) [
    | inl h ↦ rw h (
        ap (plus (totals_of e)) (total-insert_stable s l)
        ∙ plus-swap (totals_of e) (totals_of s) (total l))
    | inr h ↦ rw h refl
  ]

  total-sort_stable : (l : List FileSummary) → total (sort_stable less l) ≡ total l
  unfolding total sort_stable
  total-sort_stable [] = refl
  total-sort_stable (s ∷ l) =
      total-insert_stable s (sort_stable less l) ∙ ap (plus (totals_of s)) (total-sort_stable l)

-- The totals of summaries that are being counted.
abbrev sum : List (ℕ × Counted) → Totals
sum l = total (summaries_of l)

unfoldable has_file : ℕ → List (ℕ × Counted) → Bool
has_file i [] = false
has_file i ((k, c) ∷ l) = (k == i) || has_file i l

-- Whether the profile has a file with the id.
unfoldable pub is_listed : ℕ → List File → Bool
is_listed i [] = false
is_listed i (f ∷ fs) = (f.id == i) || is_listed i fs

abbrev one : Bool → Totals
one b = record { statements = 1; hits = (if b then 1 else 0); missed = (if b then 0 else 1) }

-- One for each statement of a listed file, which is hit or missed.
unfoldable pub counts : List File → Hits → List Stmt → Totals
counts fs hits [] = record { statements = 0; hits = 0; missed = 0 }
counts fs hits (s ∷ ss) =
    let rest = counts fs hits ss in
    if is_listed s.file_id fs then plus (one (is_positive (hits_of s.id hits))) rest else rest

has_file-count_stmt :
    (hits : Hits) (s : Stmt) (i : ℕ) (l : List (ℕ × Counted))
    → has_file i (count_stmt hits s l) ≡ has_file i l
unfolding has_file count_stmt
has_file-count_stmt hits s i [] = refl
has_file-count_stmt hits s i ((k, c) ∷ l) = elim (Bool-cases (k == s.file_id)) [
  | inl e ↦ rw e refl
  | inr e ↦ rw e (ap (λ b. (k == i) || b) (has_file-count_stmt hits s i l))
]

sum-count_stmt :
    (hits : Hits) (s : Stmt) (l : List (ℕ × Counted))
    → sum (count_stmt hits s l) ≡ (
        if has_file s.file_id l
        then plus (one (is_positive (hits_of s.id hits))) (sum l)
        else sum l)
unfolding has_file count_stmt total summaries_of summary_of count_in
sum-count_stmt hits s [] = refl
sum-count_stmt hits s ((k, c) ∷ l) = elim (Bool-cases (k == s.file_id)) [
  | inl e ↦ rw e (
      one_more (is_positive (hits_of s.id hits)) c.statements c.hits c.missed (sum l).statements
        (sum l).hits (sum l).missed)
  | inr e ↦ rw e (elim (Bool-cases (has_file s.file_id l)) [
    | inl h ↦ rw h (
        ap (plus (totals_of (summary_of c))) (sum-count_stmt hits s l ∙ rw h refl)
        ∙ plus-swap (totals_of (summary_of c)) (one (is_positive (hits_of s.id hits))) (sum l))
    | inr h ↦ rw h (ap (plus (totals_of (summary_of c))) (sum-count_stmt hits s l ∙ rw h refl))
  ])
]

sum-count_stmts :
    (fs : List File) (hits : Hits) (ss : List Stmt) (l : List (ℕ × Counted))
    → ((i : ℕ) → has_file i l ≡ is_listed i fs)
    → sum (count_stmts hits ss l) ≡ plus (counts fs hits ss) (sum l)
unfolding count_stmts counts
sum-count_stmts fs hits [] l k = plus-zero (sum l)
sum-count_stmts fs hits (s ∷ ss) l k =
    sum-count_stmts fs hits ss (count_stmt hits s l) (λ i. has_file-count_stmt hits s i l ∙ k i)
    ∙ ap (plus (counts fs hits ss)) (sum-count_stmt hits s l)
    ∙ moved (counts fs hits ss) (one (is_positive (hits_of s.id hits))) (sum l) (k s.file_id)
  where
    moved :
        (a b c : Totals) {x y : Bool}
        → x ≡ y
        → plus a (if x then plus b c else c) ≡ plus (if y then plus b a else a) c
    moved a b c {x} {y} e = elim (Bool-cases y) [
      | inl h ↦ rw (e, h) (plus-move a b c)
      | inr h ↦ rw (e, h) refl
    ]

has_file-put :
    (i id : ℕ) (c : Counted) (l : List (ℕ × Counted))
    → has_file i (put id c l) ≡ (has_file i l || (id == i))
unfolding has_file put
has_file-put i id c [] = or_false (id == i)
has_file-put i id c ((k, d) ∷ l) = ground (arith, has_file-put i id c l)

has_file-by_file :
    (i : ℕ) (fs : List File) (l : List (ℕ × Counted))
    → has_file i (by_file l fs) ≡ (has_file i l || is_listed i fs)
unfolding by_file is_listed
has_file-by_file i [] l = sym (or_false (has_file i l))
has_file-by_file i (f ∷ fs) l =
    has_file-by_file i fs (put f.id (fresh f.path) l)
    ∙ rw (has_file-put i f.id (fresh f.path) l)
        (or_assoc (has_file i l) (f.id == i) (is_listed i fs))

-- Nothing is counted yet.
abbrev zero_totals : Totals
zero_totals = record { statements = 0; hits = 0; missed = 0 }

abbrev IsFresh : List (ℕ × Counted) → Type 0
IsFresh [] = Unit {0}
IsFresh ((k, c) ∷ l) = ((c.statements ≡ 0) × (c.hits ≡ 0) × (c.missed ≡ 0)) × IsFresh l

put-IsFresh :
    (id : ℕ) (path : Bytes) (l : List (ℕ × Counted)) → IsFresh l → IsFresh (put id (fresh path) l)
unfolding put
put-IsFresh id path [] z = ((refl, refl, refl), tt)
put-IsFresh id path ((k, d) ∷ l) (a, z) = elim (Bool-cases (k == id)) [
  | inl e ↦ rw e ((refl, refl, refl), z)
  | inr e ↦ rw e (a, put-IsFresh id path l z)
]

by_file-IsFresh : (fs : List File) (l : List (ℕ × Counted)) → IsFresh l → IsFresh (by_file l fs)
unfolding by_file
by_file-IsFresh [] l z = z
by_file-IsFresh (f ∷ fs) l z =
    by_file-IsFresh fs (put f.id (fresh f.path) l) (put-IsFresh f.id f.path l z)

sum-IsFresh : (l : List (ℕ × Counted)) → IsFresh l → sum l ≡ zero_totals
unfolding total summaries_of summary_of
sum-IsFresh [] z = refl
sum-IsFresh ((k, c) ∷ l) ((a, b, d), z) = rw (a, b, d, sum-IsFresh l z) refl

-- The totals of all summaries count each statement of the profile whose file is listed once, as a
-- hit if its count is positive and as missed otherwise, and no other statement.
pub total-summarize : (p : Profile) → total (summarize p) ≡ counts p.files p.hits p.stmts
unfolding summarize
total-summarize p =
    let l = by_file [] p.files in
    total-sort_stable (λ (a b : FileSummary). text_less a.path b.path)
      (summaries_of (count_stmts p.hits p.stmts l))
    ∙ sum-count_stmts p.files p.hits p.stmts l
        (λ i. has_file-by_file i p.files [] ∙ (unfold has_file in refl))
    ∙ ap (plus (counts p.files p.hits p.stmts)) (sum-IsFresh l (by_file-IsFresh p.files [] tt))
    ∙ plus_zero (counts p.files p.hits p.stmts)
  where
    plus_zero : (a : Totals) → plus a zero_totals ≡ a
    plus_zero a = rw (right a.statements, right a.hits, right a.missed) refl
      where
        right : (x : ℕ) → x + 0 ≡ x
        right x = omega arith

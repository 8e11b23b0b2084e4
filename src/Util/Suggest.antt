-- ===== src/Util/Suggest.antt =====
-- internal/util/strdist.go: `Suggest`, the names nearest to a misspelled one.
pub mod Ranked
pub mod Complete
use tya.Prelude.{
  ℕ, zero, suc, ◌+◌, Bool, true, false, ◌||◌, List, [], ◌∷◌, ◌≡◌, refl, ltb, ◌==◌, if◌then◌else◌,
  map, Bytes, codes, length, take,
}
use tya.Text.{bytes_eq}
use tya.Util.Distance.{levenshtein}

-- `cand`.
pub record Candidate : Type 0 where
  pub text : Bytes
  pub distance : ℕ
  pub rank : ℕ

-- The loop over the pool, from index `i` on.
unfoldable pub candidates : (name : Bytes) (max_dist i : ℕ) → List Bytes → List Candidate
unfolding bytes_eq levenshtein
candidates name max_dist i [] = []
candidates name max_dist i (p ∷ pool) =
    let rest = candidates name max_dist (i + 1) pool in
    if bytes_eq p name
    then rest
    else if ltb max_dist (levenshtein name p)
    then rest
    else record { text = p; distance = levenshtein name p; rank = i } ∷ rest

-- The order that `sort.SliceStable` is given.
unfoldable pub nearer : Candidate → Candidate → Bool
nearer c e = if c.distance == e.distance then ltb c.rank e.rank else ltb c.distance e.distance

unfoldable pub insert : Candidate → List Candidate → List Candidate
unfolding nearer
insert c [] = c ∷ []
insert c (e ∷ l) = let later = e ∷ insert c l in if nearer c e then c ∷ e ∷ l else later

unfoldable pub sort_candidates : List Candidate → List Candidate
unfolding insert
sort_candidates [] = []
sort_candidates (c ∷ l) = insert c (sort_candidates l)

abbrev pub text_of : Candidate → Bytes
text_of c = c.text

-- `Suggest`; a negative `maxDist` or `max` acts like 0.
unfoldable pub suggest : (name : Bytes) (pool : List Bytes) (max_dist max : ℕ) → List Bytes
unfolding candidates sort_candidates
suggest name pool max_dist max =
    if length name == 0 || ltb max_dist 1 || ltb max 1
    then []
    else map text_of (take max (sort_candidates (candidates name max_dist 0 pool)))

suggest_test :
    suggest (codes "prnt") (codes "sprint" ∷ codes "prnt" ∷ codes "print" ∷ codes "x" ∷ []) 2 3
    ≡ codes "print" ∷ codes "sprint" ∷ []
unfolding suggest
suggest_test = refl

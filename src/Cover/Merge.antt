-- ===== src/Cover/Merge.antt =====
-- internal/cover/cover.go: `Merge`.
pub mod Sums
use tya.Prelude.{
  ℕ, ◌+◌, Bool, true, false, ◌||◌, List, [], ◌∷◌, ◌++◌, ◌≡◌, refl, ◌==◌, if◌then◌else◌, map, Bytes,
  codes,
}
use tya.Cover.Profile.{File, Stmt, Hits, Profile, add_hits}

-- `known[id]`, for the ids that are known.
unfoldable pub is_known : ℕ → List ℕ → Bool
is_known id [] = false
is_known id (k ∷ known) = (k == id) || is_known id known

-- The loop that appends the records whose id is not known yet.
unfoldable pub append_new :
    {A : Type 0} → (id : A → ℕ) → (known : List ℕ) → List A → List A → List A
unfolding is_known
append_new id known a [] = a
append_new id known a (x ∷ b) =
    let skip = append_new id known a b in
    let take = append_new id (id x ∷ known) (a ++ x ∷ []) b in
    if is_known (id x) known then skip else take

-- The loop over the hits, in the order in which the map gives its entries.
unfoldable pub add_all : Hits → Hits → Hits
unfolding add_hits
add_all a [] = a
add_all a ((id, n) ∷ b) = add_all (add_hits id n a) b

-- `Merge`: what `a` is afterwards.
unfoldable pub merge : Profile → Profile → Profile
unfolding append_new add_all
merge a b = record {
  files = append_new (λ f. f.id) (map (λ f. f.id) a.files) a.files b.files;
  stmts = append_new (λ s. s.id) (map (λ s. s.id) a.stmts) a.stmts b.stmts;
  hits = add_all a.hits b.hits;
}

merge_test :
    merge
      (record { files = record { id = 0; path = codes "a" } ∷ []; stmts = []; hits = (1, 2) ∷ [] })
      (record {
        files = record { id = 0; path = codes "b" } ∷ record { id = 1; path = codes "c" } ∷ [];
        stmts = [];
        hits = (2, 5) ∷ (1, 3) ∷ [];
      })
    ≡ record {
      files = record { id = 0; path = codes "a" } ∷ record { id = 1; path = codes "c" } ∷ [];
      stmts = [];
      hits = (1, 5) ∷ (2, 5) ∷ [];
    }
unfolding merge
merge_test = refl

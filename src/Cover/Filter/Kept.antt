-- ===== src/Cover/Filter/Kept.antt =====
-- The counts of the statements that `Filter` keeps, and the rows of its result.
use tya.Prelude.{
  ℕ, ◌+◌, ◌≤◌, ◌<◌, ◌%◌, ◌^◌, true, false, List, [], ◌∷◌, none, some, ◌≡◌, refl, sym, ap, subst,
  ◌∙◌, ◌⊎◌, inl, inr, arith, ◌==◌, Bool-cases, Option-cases,
}
use tya.Cover.Profile.{
  File, Stmt, Hits, Profile, hits_of, add_hits, IsMap, hits_of-IsMap, hits_of-absent,
  hits_of-add_hits_same, hits_of-add_hits_other, add_hits-IsMap, DistinctIds,
}
use tya.Cover.Filter.{FilterOptions, Paths, last_of, number_files, number_stmts, keep_hits, filter}
use tya.Cover.Filter.Rows.{
  IsProfile, rows, keep_rows, number_files-Maps, number_stmts-rows, number_stmts-absent, Agree,
}

-- No other id is given to a statement's new id.
pub record Sole (l : List (ℕ × Stmt)) (old new : ℕ) : Type 0 where
  pub given : (s : Stmt) × (last_of old l ≡ some s) × (s.id ≡ new)
  pub only : (k : ℕ) (t : Stmt) → last_of k l ≡ some t → (k == old) ≡ false → (t.id == new) ≡ false

-- New ids from `n` on, each old id once.
abbrev Numbered : ℕ → List (ℕ × Stmt) → Type 0
Numbered n [] = Unit {0}
Numbered n ((id, s) ∷ l) = (s.id ≡ n) × (last_of id l ≡ none) × Numbered (n + 1) l

last_of-inv :
    (k id : ℕ) (s : Stmt) (l : List (ℕ × Stmt)) (t : Stmt)
    → last_of k ((id, s) ∷ l) ≡ some t
    → (last_of k l ≡ some t) ⊎ (((id == k) ≡ true) × (s ≡ t))
unfolding last_of
last_of-inv k id s l t e = elim (Option-cases (last_of k l)) [
  | inr (u, f) ↦ inl (f ∙ (rw f at e))
  | inl f ↦ elim (Bool-cases (id == k)) [
    | inl g ↦ inr (g, some_eq (rw (f, g) at e))
    | inr g ↦ cc (rw (f, g) at e)
  ]
]
  where
    some_eq : {a b : Stmt} → some a ≡ some b → a ≡ b
    some_eq q = cc

last_of-Numbered :
    (n k : ℕ) (t : Stmt) (l : List (ℕ × Stmt)) → Numbered n l → last_of k l ≡ some t → n ≤ t.id
unfolding last_of
last_of-Numbered n k t [] m e = cc
last_of-Numbered n k t ((id, s) ∷ l) (h, a, m) e = elim (last_of-inv k id s l t e) [
  | inl f ↦ lower (last_of-Numbered (n + 1) k t l m f)
  | inr (g, q) ↦ omega (arith, h, ap (λ (x : Stmt). x.id) q)
]
  where
    lower : {a b : ℕ} → a + 1 ≤ b → a ≤ b
    lower q = omega arith

module _ (n id : ℕ) (s : Stmt) (l : List (ℕ × Stmt)) where
  Sole-here : s.id ≡ n → last_of id l ≡ none → Numbered (n + 1) l → Sole ((id, s) ∷ l) id s.id
  Sole-here h a m = record {
    given = (s, unfold last_of in rw a (ground arith), refl);
    only = λ k t e ne. elim (last_of-inv k id s l t e) [
      | inl f ↦ above (last_of-Numbered (n + 1) k t l m f)
      | inr (g, q) ↦ absurd (clash k g ne)
    ];
  }
    where
      above : {a : ℕ} → n + 1 ≤ a → (a == s.id) ≡ false
      above q = ground (arith, h)

      clash : (k : ℕ) → (id == k) ≡ true → (k == id) ≡ false → ⊥
      clash k g ne = ground arith

  Sole-there :
      (old new : ℕ) → s.id ≡ n → Numbered (n + 1) l → Sole l old new → Sole ((id, s) ∷ l) old new
  Sole-there old new h m y =
      let (t, f, q) = y.given in
      record {
        given = (t, unfold last_of in rw f refl, q);
        only = λ k u e ne. elim (last_of-inv k id s l u e) [
          | inl g ↦ y.only k u g ne
          | inr (g, r) ↦ below (ap (λ (x : Stmt). x.id) r) q (last_of-Numbered (n + 1) old t l m f)
        ];
      }
    where
      below : {a b c : ℕ} → s.id ≡ a → b ≡ c → n + 1 ≤ b → (a == c) ≡ false
      below q r k = ground (arith, h)

-- Each statement of the list is the sole one with its new id.
abbrev AllSole : List (ℕ × Stmt) → List (ℕ × Stmt) → Type 0
AllSole l [] = Unit {0}
AllSole l ((id, s) ∷ part) = Sole l id s.id × AllSole l part

AllSole-cons :
    (n id : ℕ) (s : Stmt) (l part : List (ℕ × Stmt))
    → s.id ≡ n
    → Numbered (n + 1) l
    → AllSole l part
    → AllSole ((id, s) ∷ l) part
AllSole-cons n id s l [] h m a = tt
AllSole-cons n id s l ((k, t) ∷ part) h m (x, a) =
    (Sole-there n id s l k t.id h m x, AllSole-cons n id s l part h m a)

Numbered-AllSole : (n : ℕ) (l : List (ℕ × Stmt)) → Numbered n l → AllSole l l
Numbered-AllSole n [] m = tt
Numbered-AllSole n ((id, s) ∷ l) (h, a, m) =
    (Sole-here n id s l h a m, AllSole-cons n id s l l h m (Numbered-AllSole (n + 1) l m))

hits_of-head : (id j h : ℕ) (l : Hits) → (id == j) ≡ true → hits_of j ((id, h) ∷ l) ≡ h
unfolding hits_of
hits_of-head id j h l e = rw e refl

hits_of-tail : (id j h : ℕ) (l : Hits) → (id == j) ≡ false → hits_of j ((id, h) ∷ l) ≡ hits_of j l
unfolding hits_of
hits_of-tail id j h l e = rw e refl

module _ (o : Paths) (opt : FilterOptions) where
  number_stmts-Numbered :
      (entries : List (ℕ × File)) (n : ℕ) (ss : List Stmt)
      → DistinctIds (λ s. s.id) ss
      → Numbered n (number_stmts o entries n ss)
  unfolding number_stmts
  number_stmts-Numbered entries n [] d = tt
  number_stmts-Numbered entries n (s ∷ ss) (a, d) =
      elim (Option-cases (last_of s.file_id entries)) [
        | inl f ↦ rw (f, number_stmts) (number_stmts-Numbered entries n ss d)
        | inr (g, f) ↦
            rw (f, number_stmts)
              (
                refl,
                number_stmts-absent o opt entries (n + 1) s.id ss a,
                number_stmts-Numbered entries (n + 1) ss d,
              )
      ]

  hits_of-keep_hits :
      (stmts : List (ℕ × Stmt)) (old new : ℕ) (acc l : Hits)
      → Sole stmts old new
      → IsMap acc
      → IsMap l
      → hits_of new (keep_hits o stmts acc l) ≡ (hits_of new acc + hits_of old l) % 2 ^ 64
  unfolding keep_hits
  hits_of-keep_hits stmts old new acc [] x m n = still (hits_of-IsMap new acc m)
    where
      still :
          hits_of new acc < 2 ^ 64 → hits_of new acc ≡ (hits_of new acc + hits_of old []) % 2 ^ 64
      still q = unfold hits_of in omega arith
  hits_of-keep_hits stmts old new acc ((id, h) ∷ l) x m (b, a, n) = elim (Bool-cases (id == old)) [
    | inl e ↦
        let (s, f, q) = x.given in
        let here : last_of id stmts ≡ some s =
          subst (λ y. last_of y stmts ≡ some s) (sym (same e)) f in
        rw (here, keep_hits)
          (hits_of-keep_hits stmts old new (add_hits s.id h acc) l x (add_hits-IsMap s.id h acc m) n
            ∙ sum _ _ (hits_of new acc) _ h
                (subst (λ y. hits_of new (add_hits y h acc) ≡ (hits_of new acc + h) % 2 ^ 64)
                  (sym q) (hits_of-add_hits_same new h acc))
                (subst (λ y. hits_of y l ≡ 0) (same e) (hits_of-absent id l a))
                (hits_of-head id old h l e))
    | inr e ↦ elim (Option-cases (last_of id stmts)) [
      | inl f ↦
          rw (f, keep_hits)
            (hits_of-keep_hits stmts old new acc l x m n
              ∙ ap (λ y. (hits_of new acc + y) % 2 ^ 64) (sym (hits_of-tail id old h l e)))
      | inr (s, f) ↦
          rw (f, keep_hits)
            (hits_of-keep_hits stmts old new (add_hits s.id h acc) l x (add_hits-IsMap s.id h acc m)
                n
              ∙ rw
                  (
                    hits_of-add_hits_other new s.id h acc (x.only id s f e),
                    hits_of-tail id old h l e,
                  )
                  refl)
    ]
  ]
    where
      same : (id == old) ≡ true → id ≡ old
      same e = ground arith

      sum :
          (u v w y z : ℕ)
          → u ≡ (w + z) % 2 ^ 64
          → v ≡ 0
          → y ≡ z
          → (u + v) % 2 ^ 64 ≡ (w + y) % 2 ^ 64
      sum u v w y z p q r = omega arith

  keep_hits-Agree :
      (stmts part : List (ℕ × Stmt)) (l : Hits)
      → IsMap l
      → AllSole stmts part
      → Agree o opt l (keep_hits o stmts [] l) part
  keep_hits-Agree stmts [] l m a = tt
  keep_hits-Agree stmts ((id, s) ∷ part) l m (x, a) = (
    hits_of-keep_hits stmts id s.id [] l x tt m ∙ small (hits_of-IsMap id l m),
    keep_hits-Agree stmts part l m a,
  )
    where
      small : hits_of id l < 2 ^ 64 → (hits_of s.id [] + hits_of id l) % 2 ^ 64 ≡ hits_of id l
      small q = unfold hits_of in omega arith

  -- A reader sees in the profile that `Filter` gives exactly the statements of the files that are
  -- kept, in their order, with their places and counts, and with normalized paths: the new ids
  -- lead to the same files and counts as the old ones did, for a profile with no id twice.
  pub filter-rows : (p : Profile) → IsProfile p → rows (filter o opt p) ≡ keep_rows o opt (rows p)
  unfolding filter
  filter-rows p i =
      let entries = number_files o opt 0 p.files in
      let stmts = number_stmts o entries 0 p.stmts in
      number_stmts-rows o opt p.files entries p.hits (keep_hits o stmts [] p.hits) 0 p.stmts
        (λ j. number_files-Maps o opt 0 p.files j i.files_distinct)
        (keep_hits-Agree stmts stmts p.hits i.hits_map
          (Numbered-AllSole 0 stmts (number_stmts-Numbered entries 0 p.stmts i.stmts_distinct)))

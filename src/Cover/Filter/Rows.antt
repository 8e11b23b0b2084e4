-- ===== src/Cover/Filter/Rows.antt =====
-- What a filtered profile says: the rows of the profile whose files are kept.
use tya.Prelude.{
  ℕ, ◌+◌, ◌≤◌, true, false, List, [], ◌∷◌, Option, none, some, ◌≡◌, refl, sym, ap, subst, inl, inr,
  arith, ◌==◌, if◌then◌else◌, Bool-cases, Option-cases, Bytes,
}
use tya.Cover.Profile.{File, Stmt, Hits, Profile, hits_of, IsMap, find, DistinctIds}
use tya.Cover.Filter.{
  FilterOptions, Paths, last_of, values, normalize_path, filter_path, number_files, number_stmts,
}

-- A statement as a reader of the profile sees it.
pub record Row : Type 0 where
  pub path : Bytes
  pub line : ℕ
  pub col : ℕ
  pub count : ℕ

-- The rows of statements, in files and with hits; a statement of no file has none.
unfoldable pub rows_of : List File → Hits → List Stmt → List Row
rows_of files hits [] = []
rows_of files hits (s ∷ ss) =
    let rest = rows_of files hits ss in
    elim (find (λ (f : File). f.id) s.file_id files) [
      | none ↦ rest
      | some f ↦
          record { path = f.path; line = s.line; col = s.col; count = hits_of s.id hits } ∷ rest
    ]

abbrev pub rows : Profile → List Row
rows p = rows_of p.files p.hits p.stmts

-- A profile whose ids are ids.
pub record IsProfile (p : Profile) : Type 0 where
  pub files_distinct : DistinctIds (λ f. f.id) p.files
  pub stmts_distinct : DistinctIds (λ s. s.id) p.stmts
  pub hits_map : IsMap p.hits

module _ (o : Paths) (opt : FilterOptions) where
  -- The rows that are kept, with normalized paths.
  unfoldable pub keep_rows : List Row → List Row
  keep_rows [] = []
  keep_rows (r ∷ rs) =
      let rest = keep_rows rs in
      if filter_path o opt r.path then record r { path = normalize_path o r.path } ∷ rest else rest

  -- What the map of files gives for a file of the profile, among the files from number `n` on.
  pub data Maps (n : ℕ) (outs : List File) : Option File → Option File → Type 0 where
    absent : Maps n outs none none
    dropped : {f : File} → filter_path o opt f.path ≡ false → Maps n outs (some f) none
    kept :
        {f g : File}
        → filter_path o opt f.path ≡ true
        → g.path ≡ normalize_path o f.path
        → n ≤ g.id
        → find (λ (h : File). h.id) g.id outs ≡ some g
        → Maps n outs (some f) (some g)

  Maps-cons :
      (n : ℕ) (outs : List File) (g0 : File) {a b : Option File}
      → g0.id ≡ n
      → Maps (n + 1) outs a b
      → Maps n (g0 ∷ outs) a b
  Maps-cons n outs g0 e absent = absent
  Maps-cons n outs g0 e (dropped h) = dropped h
  Maps-cons n outs g0 e (kept {f} {g} h p l q) =
      let apart : (g0.id == g.id) ≡ false = ground arith in
      kept {g = g} h p (omega arith) (unfold find in rw apart q)

  Maps-none : (n : ℕ) (outs : List File) {a b : Option File} → a ≡ none → Maps n outs a b → b ≡ none
  Maps-none n outs e absent = refl
  Maps-none n outs e (dropped h) = cc
  Maps-none n outs e (kept h p l q) = cc

  module _ (n : ℕ) (f : File) (fs : List File) (i : ℕ) where
    same_id : (f.id == i) ≡ true → f.id ≡ i
    same_id e = ground arith

    gone :
        find (λ (g : File). g.id) f.id fs ≡ none
        → (f.id == i) ≡ true
        → find (λ (g : File). g.id) i fs ≡ none
    gone a e = subst (λ j. find (λ (g : File). g.id) j fs ≡ none) (same_id e) a

    Maps-skip :
        (outs : List File) {b : Option File}
        → filter_path o opt f.path ≡ false
        → find (λ (g : File). g.id) f.id fs ≡ none
        → Maps n outs (find (λ (g : File). g.id) i fs) b
        → Maps n outs (if f.id == i then some f else find (λ (g : File). g.id) i fs) b
    Maps-skip outs h a m = elim (Bool-cases (f.id == i)) [
      | inl e ↦
          rw e (subst (Maps n outs (some f)) (sym (Maps-none n outs (gone a e) m)) (dropped h))
      | inr e ↦ rw e m
    ]

    abbrev renumbered : File
    renumbered = record { id = n; path = normalize_path o f.path }

    Maps-take_other :
        (outs : List File) {a b : Option File}
        → (f.id == i) ≡ false
        → Maps n outs a b
        → Maps n outs a
            (elim b [ none ↦ if f.id == i then some renumbered else none | some y ↦ some y ])
    Maps-take_other outs e absent = rw e absent
    Maps-take_other outs e (dropped h) = rw e (dropped h)
    Maps-take_other outs e (kept h p l q) = kept h p l q

    Maps-take :
        (outs : List File) {b : Option File}
        → filter_path o opt f.path ≡ true
        → find (λ (g : File). g.id) f.id fs ≡ none
        → Maps (n + 1) outs (find (λ (g : File). g.id) i fs) b
        → Maps n
            (renumbered ∷ outs)
            (if f.id == i then some f else find (λ (g : File). g.id) i fs)
            (elim b [ none ↦ if f.id == i then some renumbered else none | some y ↦ some y ])
    Maps-take outs {b} h a m = elim (Bool-cases (f.id == i)) [
      | inl e ↦
          rw (Maps-none (n + 1) outs (gone a e) m, e)
            (kept {g = renumbered} h refl (omega arith) (unfold find in ground arith))
      | inr e ↦
          subst
            (λ x.
              Maps n (renumbered ∷ outs) x
                (elim b [ none ↦ if f.id == i then some renumbered else none | some y ↦ some y ]))
            (sym (rw e refl))
            (Maps-take_other (renumbered ∷ outs) e (Maps-cons n outs renumbered refl m))
    ]

  pub number_files-Maps :
      (n : ℕ) (files : List File) (i : ℕ)
      → DistinctIds (λ f. f.id) files
      → Maps n
          (values (number_files o opt n files))
          (find (λ (f : File). f.id) i files)
          (last_of i (number_files o opt n files))
  unfolding number_files find last_of
  number_files-Maps n [] i d = absent
  number_files-Maps n (f ∷ fs) i (a, d) = elim (Bool-cases (filter_path o opt f.path)) [
    | inr e ↦
        rw (e, number_files)
          (Maps-skip n f fs i (values (number_files o opt n fs)) e a (number_files-Maps n fs i d))
    | inl e ↦
        rw (e, number_files)
          (Maps-take n f fs i (values (number_files o opt (n + 1) fs)) e a
            (number_files-Maps (n + 1) fs i d))
  ]

  -- The statements that are kept, with their old ids, have the counts that they had.
  abbrev pub Agree : Hits → Hits → List (ℕ × Stmt) → Type 0
  Agree old new [] = Unit {0}
  Agree old new ((id, s) ∷ l) = (hits_of s.id new ≡ hits_of id old) × Agree old new l

  module _ (outs : List File) (old new : Hits) (s : Stmt) (n : ℕ) (skip rest : List (ℕ × Stmt))
      (tail : List Row) where
    row-step :
        {a b : Option File}
        → Maps 0 outs a b
        → Agree old new (elim b [
          | none ↦ skip
          | some f ↦ (s.id, record { id = n; file_id = f.id; line = s.line; col = s.col }) ∷ rest
        ])
        → (Agree old new skip → rows_of outs new (values skip) ≡ keep_rows tail)
        → (Agree old new rest → rows_of outs new (values rest) ≡ keep_rows tail)
        → rows_of outs new (
            values (elim b [
              | none ↦ skip
              | some f ↦
                  (s.id, record { id = n; file_id = f.id; line = s.line; col = s.col }) ∷ rest
            ]))
          ≡ keep_rows (elim a [
            | none ↦ tail
            | some f ↦
                record { path = f.path; line = s.line; col = s.col; count = hits_of s.id old }
                ∷ tail
          ])
    unfolding rows_of keep_rows
    row-step absent a f g = f a
    row-step (dropped h) a f g = rw h (f a)
    row-step (kept {f = was} h p l q) (c, a) f g =
        rw (h, q, p, c, rows_of)
          (ap
            (◌∷◌ (record {
              path = normalize_path o was.path;
              line = s.line;
              col = s.col;
              count = hits_of s.id old;
            }))
            (g a))

  pub number_stmts-rows :
      (files : List File) (entries : List (ℕ × File)) (old new : Hits) (n : ℕ) (ss : List Stmt)
      → ((i : ℕ) → Maps 0 (values entries) (find (λ (f : File). f.id) i files) (last_of i entries))
      → Agree old new (number_stmts o entries n ss)
      → rows_of (values entries) new (values (number_stmts o entries n ss))
        ≡ keep_rows (rows_of files old ss)
  unfolding number_stmts rows_of keep_rows
  number_stmts-rows files entries old new n [] m a = refl
  number_stmts-rows files entries old new n (s ∷ ss) m a =
      row-step (values entries) old new s n (number_stmts o entries n ss)
        (number_stmts o entries (n + 1) ss) (rows_of files old ss) (m s.file_id) a
        (λ b. number_stmts-rows files entries old new n ss m b)
        (λ b. number_stmts-rows files entries old new (n + 1) ss m b)

  pub number_stmts-absent :
      (entries : List (ℕ × File)) (n i : ℕ) (ss : List Stmt)
      → find (λ (s : Stmt). s.id) i ss ≡ none
      → last_of i (number_stmts o entries n ss) ≡ none
  unfolding number_stmts find last_of
  number_stmts-absent entries n i [] h = refl
  number_stmts-absent entries n i (s ∷ ss) h = elim (Bool-cases (s.id == i)) [
    | inl e ↦ cc (rw e at h)
    | inr e ↦ elim (Option-cases (last_of s.file_id entries)) [
      | inl f ↦ rw (f, number_stmts) (number_stmts-absent entries n i ss (rw e at h))
      | inr (g, f) ↦
          rw (f, number_stmts) (rw (number_stmts-absent entries (n + 1) i ss (rw e at h), e) refl)
    ]
  ]

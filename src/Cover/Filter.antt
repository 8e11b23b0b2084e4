-- ===== src/Cover/Filter.antt =====
-- internal/cover/cover.go: `Filter`, `filterPath`, `globMatch` and `normalizePath`. The functions of
-- Go's path packages are parameters.
pub mod Rows
pub mod Kept
use tya.Prelude.{
  ℕ, zero, suc, ◌+◌, ◌-◌, Bool, true, false, not, ◌&&◌, ◌||◌, List, [], ◌∷◌, ◌++◌, Option, none,
  some, ◌≡◌, refl, ◌==◌, if◌then◌else◌, map, Bytes, codes, length, take, drop,
}
use tya.Text.{has_prefix, has_suffix, index_of, bytes_eq}
use tya.Cover.Profile.{File, Stmt, Hits, Profile, new_profile, add_hits}

-- `FilterOptions`.
pub record FilterOptions : Type 0 where
  pub include : List Bytes
  pub exclude : List Bytes

-- What Go's path packages do: `filepath.ToSlash` behind `filepath.Clean`, `path.Match`, which gives
-- `false` for a bad pattern, and `path.IsAbs`.
pub record Paths : Type 0 where
  pub clean : Bytes → Bytes
  pub matches : (pattern name : Bytes) → Bool
  pub is_abs : Bytes → Bool

-- A map as its assignments, the last of which counts.
unfoldable pub last_of : {A : Type 0} → ℕ → List (ℕ × A) → Option A
last_of i [] = none
last_of i ((k, x) ∷ l) = elim (last_of i l) [
  | some y ↦ some y
  | none ↦ if k == i then some x else none
]

abbrev pub values : {A : Type 0} → List (ℕ × A) → List A
values [] = []
values ((k, x) ∷ l) = x ∷ values l

-- The two parts of `strings.Split(s, sep)` if there are two, for a separator of two bytes.
unfoldable pub halves : (sep s : Bytes) → Option (Bytes × Bytes)
unfolding index_of
halves sep s = elim (index_of sep s) [
  | none ↦ none
  | some i ↦ elim (index_of sep (drop (i + 2) s)) [
    | none ↦ some (take i s, drop (i + 2) s)
    | some j ↦ none
  ]
]

-- `strings.Contains`.
abbrev pub occurs : (s part : Bytes) → Bool
unfolding index_of
occurs s part = elim (index_of part s) [ some i ↦ true | none ↦ false ]

unfoldable pub trim_slash_behind : Bytes → Bytes
unfolding has_suffix
trim_slash_behind s = if has_suffix s (codes "/") then take (length s - 1) s else s

unfoldable pub trim_slash_before : Bytes → Bytes
unfolding has_prefix
trim_slash_before s = if has_prefix s (codes "/") then drop 1 s else s

module _ (o : Paths) where
  unfoldable pub normalize_path : Bytes → Bytes
  normalize_path p = if length p == 0 then p else o.clean p

  -- The loop over the parts of the name that begin behind a slash.
  unfoldable pub tail_matches : (at_part : Bool) → (pattern name : Bytes) → Bool
  tail_matches at_part pattern [] = false
  tail_matches at_part pattern (c ∷ name) =
      (at_part && o.matches pattern (c ∷ name)) || tail_matches (c == b'/') pattern name

  unfoldable pub star_matches : (pattern name : Bytes) → Bool
  unfolding halves trim_slash_behind trim_slash_before has_prefix has_suffix index_of
  star_matches pattern name = elim (halves (codes "**") pattern) [
    | none ↦ false
    | some (front, back) ↦
        let prefix = trim_slash_behind front in
        (has_prefix name prefix || occurs name (b'/' ∷ (prefix ++ (b'/' ∷ []))))
        && has_suffix name (trim_slash_before back)
  ]

  unfoldable pub glob_match : (pattern name : Bytes) → Bool
  unfolding normalize_path tail_matches star_matches
  glob_match pattern name =
      let p = normalize_path pattern in
      let n = normalize_path name in
      o.matches p n || ((not (o.is_abs p) && tail_matches true p n) || star_matches p n)

  unfoldable pub any_match : List Bytes → Bytes → Bool
  unfolding glob_match
  any_match [] p = false
  any_match (pattern ∷ ps) p = glob_match pattern p || any_match ps p

  unfoldable pub filter_path : FilterOptions → Bytes → Bool
  unfolding normalize_path any_match
  filter_path opt path =
      let p = normalize_path path in
      ((length opt.include == 0) || any_match opt.include p) && not (any_match opt.exclude p)

  module _ (opt : FilterOptions) where
    -- The loop over the files, with `len(out.Files)`: each that is kept, under its old id.
    unfoldable pub number_files : ℕ → List File → List (ℕ × File)
    unfolding filter_path normalize_path
    number_files n [] = []
    number_files n (f ∷ fs) =
        let rest = number_files (n + 1) fs in
        let skip = number_files n fs in
        if filter_path opt f.path
        then (f.id, record { id = n; path = normalize_path f.path }) ∷ rest
        else skip

  -- The loop over the statements, with `len(out.Stmts)`.
  unfoldable pub number_stmts : List (ℕ × File) → ℕ → List Stmt → List (ℕ × Stmt)
  unfolding last_of
  number_stmts files n [] = []
  number_stmts files n (s ∷ ss) =
      let rest = number_stmts files (n + 1) ss in
      let skip = number_stmts files n ss in
      elim (last_of s.file_id files) [
        | none ↦ skip
        | some f ↦ (s.id, record { id = n; file_id = f.id; line = s.line; col = s.col }) ∷ rest
      ]

  -- The loop over the hits.
  unfoldable pub keep_hits : List (ℕ × Stmt) → Hits → Hits → Hits
  unfolding last_of add_hits
  keep_hits stmts acc [] = acc
  keep_hits stmts acc ((id, h) ∷ l) =
      keep_hits stmts (elim (last_of id stmts) [ none ↦ acc | some s ↦ add_hits s.id h acc ]) l

  -- `Filter`, of a profile that is not nil.
  unfoldable pub filter : FilterOptions → Profile → Profile
  unfolding number_files number_stmts keep_hits
  filter opt p =
      let files = number_files opt 0 p.files in
      let stmts = number_stmts files 0 p.stmts in
      record { files = values files; stmts = values stmts; hits = keep_hits stmts [] p.hits }

-- Paths that are clean, patterns without wildcards.
abbrev pub plain_paths : Paths
plain_paths = record { clean = λ p. p; matches = bytes_eq; is_abs = λ p. has_prefix p (codes "/") }

filter_tests :
    (glob_match plain_paths (codes "src/**.tya") (codes "lib/src/a.tya") ≡ true)
    × (glob_match plain_paths (codes "b.tya") (codes "lib/b.tya") ≡ true)
    × (filter plain_paths
          (record { include = []; exclude = codes "a" ∷ [] })
          (record {
            files = record { id = 7; path = codes "a" } ∷ record { id = 8; path = codes "b" } ∷ [];
            stmts =
                record { id = 4; file_id = 7; line = 1; col = 1 }
                ∷ record { id = 5; file_id = 8; line = 2; col = 3 }
                ∷ [];
            hits = (5, 6) ∷ (4, 1) ∷ [];
          })
        ≡ record {
          files = record { id = 0; path = codes "b" } ∷ [];
          stmts = record { id = 0; file_id = 0; line = 2; col = 3 } ∷ [];
          hits = (0, 6) ∷ [];
        })
unfolding filter glob_match bytes_eq has_prefix
filter_tests = (refl, refl, refl)

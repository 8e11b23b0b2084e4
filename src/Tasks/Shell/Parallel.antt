-- ===== src/Tasks/Shell/Parallel.antt =====
-- What `runParallel` reports of its commands.
use tya.Prelude.{
  ℤ, pos, is_zero, ℕ, ◌+◌, ◌==◌, length, false, arith, Bool, true, map, false, List, [], ◌∷◌, ◌++◌,
  none, some, ◌≡◌, refl, ap, ◌∙◌, inl, inr, if◌then◌else◌, Bool-cases, Bytes, append-nil,
  append_assoc,
}
use tya.Tasks.Shell.{
  Exit, success, exited, not_started, Status, status, no_shell, parallel_failed, collect,
  results_of, full_command, run_parallel,
}

-- Every command was started.
abbrev all_started : List (Bytes × Exit) → Bool
all_started [] = true
all_started ((c, not_started) ∷ rs) = false
all_started ((c, success) ∷ rs) = all_started rs
all_started ((c, exited code) ∷ rs) = all_started rs

-- The commands that end with a code that is not 0, with their numbers, from `i + 1` on.
unfoldable failures_of : (i : ℕ) → List (Bytes × Exit) → List (ℕ × Bytes × ℤ)
failures_of i [] = []
failures_of i ((c, exited code) ∷ rs) =
    let later = failures_of (i + 1) rs in if is_zero code then later else (i + 1, c, code) ∷ later
failures_of i ((c, _) ∷ rs) = failures_of (i + 1) rs

-- The status that a list of failures stands for: the code of the first, and all of them.
abbrev pub reported : List (ℕ × Bytes × ℤ) → Status
reported [] = status (pos 0) none
reported ((i, c, code) ∷ fs) = status code (some (parallel_failed ((i, c, code) ∷ fs)))

collect-failed :
    (i j : ℕ) (d : Bytes) (z : ℤ) (fs : List (ℕ × Bytes × ℤ)) (rs : List (Bytes × Exit))
    → is_zero z ≡ false
    → all_started rs ≡ true
    → collect i z ((j, d, z) ∷ fs) rs ≡ reported ((j, d, z) ∷ (fs ++ failures_of i rs))
unfolding collect failures_of
collect-failed i j d z fs [] h a = rw (h, append-nil fs) refl
collect-failed i j d z fs ((c, success) ∷ rs) h a = collect-failed (i + 1) j d z fs rs h a
collect-failed i j d z fs ((c, exited code) ∷ rs) h a = elim (Bool-cases (is_zero code)) [
  | inl k ↦ rw (h, k) (collect-failed (i + 1) j d z fs rs h a)
  | inr k ↦
      rw (h, k)
        (collect-failed (i + 1) j d z (fs ++ (i + 1, c, code) ∷ []) rs h a
          ∙ ap (λ l. reported ((j, d, z) ∷ l))
              (append_assoc fs ((i + 1, c, code) ∷ []) (failures_of (i + 1) rs)))
]
collect-failed i j d z fs ((c, not_started) ∷ rs) h a = cc

collect-eq :
    (i : ℕ) (z : ℤ) (rs : List (Bytes × Exit))
    → is_zero z ≡ true
    → all_started rs ≡ true
    → collect i z [] rs ≡ reported (failures_of i rs)
unfolding collect failures_of
collect-eq i z [] h a = rw h refl
collect-eq i z ((c, success) ∷ rs) h a = collect-eq (i + 1) z rs h a
collect-eq i z ((c, exited code) ∷ rs) h a = elim (Bool-cases (is_zero code)) [
  | inl k ↦ rw (h, k) (collect-eq (i + 1) code rs k a)
  | inr k ↦ rw (h, k) (collect-failed (i + 1) (i + 1) c code [] rs k a)
]
collect-eq i z ((c, not_started) ∷ rs) h a = cc

collect-no_shell :
    (i : ℕ) (z : ℤ) (fs : List (ℕ × Bytes × ℤ)) (rs : List (Bytes × Exit))
    → all_started rs ≡ false
    → collect i z fs rs ≡ status (pos 1) (some no_shell)
unfolding collect
collect-no_shell i z fs [] h = cc
collect-no_shell i z fs ((d, success) ∷ rs) h = collect-no_shell (i + 1) z fs rs h
collect-no_shell i z fs ((d, exited code) ∷ rs) h = collect-no_shell (i + 1) _ _ rs h
collect-no_shell i z fs ((d, not_started) ∷ rs) h = refl

-- Whether each command, from the slot `i` on, was started.
unfoldable pub every_started : (i : ℕ) → (slots : ℕ → Exit) → (commands : List Bytes) → Bool
every_started i slots [] = true
every_started i slots (c ∷ cmds) = elim (slots i) [
  | not_started ↦ false
  | _ ↦ every_started (i + 1) slots cmds
]

-- The commands whose slots hold a code that is not 0. The numbers count from 1, the slots from 0.
unfoldable pub failed :
    (i : ℕ) → (slots : ℕ → Exit) → (commands : List Bytes) → List (ℕ × Bytes × ℤ)
failed i slots [] = []
failed i slots (c ∷ cmds) =
    let later = failed (i + 1) slots cmds in
    elim (slots i) [
      | exited code ↦ if is_zero code then later else (i + 1, c, code) ∷ later
      | _ ↦ later
    ]

every_started-results_of :
    (i : ℕ) (slots : ℕ → Exit) (cmds : List Bytes)
    → all_started (results_of i slots cmds) ≡ every_started i slots cmds
unfolding every_started results_of
every_started-results_of i slots [] = refl
every_started-results_of i slots (c ∷ cmds) =
    by_end _ (slots i) (every_started-results_of (i + 1) slots cmds)
  where
    by_end :
        (rest : List (Bytes × Exit)) {started : Bool} (e : Exit)
        → all_started rest ≡ started
        → all_started ((c, e) ∷ rest) ≡ elim e [ not_started ↦ false | _ ↦ started ]
    by_end rest success h = h
    by_end rest (exited code) h = h
    by_end rest not_started h = refl

failed-results_of :
    (i : ℕ) (slots : ℕ → Exit) (cmds : List Bytes)
    → failures_of i (results_of i slots cmds) ≡ failed i slots cmds
unfolding failed failures_of results_of
failed-results_of i slots [] = refl
failed-results_of i slots (c ∷ cmds) = by_end _ (slots i) (failed-results_of (i + 1) slots cmds)
  where
    by_end :
        (rest : List (Bytes × Exit)) {later : List (ℕ × Bytes × ℤ)} (e : Exit)
        → failures_of (i + 1) rest ≡ later
        → failures_of i ((c, e) ∷ rest) ≡ elim e [
          | exited code ↦ if is_zero code then later else (i + 1, c, code) ∷ later
          | _ ↦ later
        ]
    by_end rest success h = h
    by_end rest (exited code) h = ap (λ l. if is_zero code then l else (i + 1, c, code) ∷ l) h
    by_end rest not_started h = h

-- What `runParallel` reports of the slots.
unfoldable pub outcome : (slots : ℕ → Exit) → (commands : List Bytes) → Status
unfolding every_started failed
outcome slots cmds =
    if every_started 0 slots cmds
    then reported (failed 0 slots cmds)
    else status (pos 1) (some no_shell)

collect-outcome :
    (slots : ℕ → Exit) (cmds : List Bytes)
    → collect 0 (pos 0) [] (results_of 0 slots cmds) ≡ outcome slots cmds
unfolding outcome
collect-outcome slots cmds =
    by_start (every_started 0 slots cmds) (every_started-results_of 0 slots cmds)
  where
    by_start :
        (b : Bool)
        → all_started (results_of 0 slots cmds) ≡ b
        → collect 0 (pos 0) [] (results_of 0 slots cmds)
          ≡ (if b then reported (failed 0 slots cmds) else status (pos 1) (some no_shell))
    by_start true h =
        collect-eq 0 (pos 0) (results_of 0 slots cmds) refl h
        ∙ ap reported (failed-results_of 0 slots cmds)
    by_start false h = collect-no_shell 0 (pos 0) [] (results_of 0 slots cmds) h

-- `runParallel` starts every command at once, with the extra arguments behind it, and reports: if
-- one cannot be started, that; otherwise success when no slot holds a code other than 0, and else
-- the code of the first one that does, and all that do, with their commands and their numbers from 1.
-- Without commands it succeeds and starts nothing.
pub run_parallel-outcome :
    {W : Type 0} (shell : W → (command : Bytes) → (env : List (Bytes × Bytes)) → Exit × W)
    (spawn : W → (commands : List Bytes) → (env : List (Bytes × Bytes)) → (ℕ → Exit) × W)
    (cmds extra : List Bytes) (env : List (Bytes × Bytes)) (w : W)
    → (let started = spawn w (map (λ c. full_command c extra) cmds) env in
        (run_parallel shell spawn cmds extra env w).0 ≡ outcome started.0 cmds
        × ((run_parallel shell spawn cmds extra env w).1
            ≡ elim cmds [ [] ↦ w | c ∷ cs ↦ started.1 ]))
unfolding run_parallel
run_parallel-outcome shell spawn [] extra env w = ((unfold outcome in refl), refl)
run_parallel-outcome shell spawn (c ∷ cmds) extra env w =
    let some_command : (length (c ∷ cmds) == 0) ≡ false = ground arith in
    let started = spawn w (map (λ d. full_command d extra) (c ∷ cmds)) env in
    (rw some_command (collect-outcome started.0 (c ∷ cmds)), rw some_command refl)

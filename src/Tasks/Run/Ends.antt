-- ===== src/Tasks/Run/Ends.antt =====
-- A run of accepted tasks ends, starts each task at most once, and starts it behind all that it
-- depends on.
use tya.Prelude.{
  ℕ, zero, suc, ◌≤◌, true, false, List, [], ◌∷◌, some, ◌≡◌, refl, sym, subst, inl, inr, arith,
  Bool-cases, Bytes, length, All,
}
use tya.Dict.{contains, contains-cons, lookup, Distinct}
use tya.Tasks.Graph.{Task, TaskMap, Marks, valid, validate_task_graph}
use tya.Tasks.Graph.Paths.{Ordered}
use tya.Tasks.Graph.Verdict.{validate_task_graph-IsOrder}
use tya.Tasks.Shell.{Exit, Status, is_failure}
use tya.Tasks.Run.{task_of, State, Result, returned, run_with_deps, run_task_graph}
use tya.Tasks.Run.Once.{
  IsClean, Grows-refl, Runs, succeeded, failed, Runs-widen, run_deps-Runs, self-after,
}

module _ {W : Type 0} (shell : W → (command : Bytes) → (env : List (Bytes × Bytes)) → Exit × W)
    (spawn : W → (commands : List Bytes) → (env : List (Bytes × Bytes)) → (ℕ → Exit) × W)
    (tasks : TaskMap) (selected : Bytes) (extra : List Bytes) where
  task_of-lookup : (name : Bytes) {t : Task} → lookup name tasks ≡ some t → task_of tasks name ≡ t
  unfolding task_of
  task_of-lookup name l = rw (l, task_of) refl

  -- One more level of the recursion, over what is known of the level below.
  level :
      (fuel : ℕ) (name : Bytes) (w : List Bytes) (st : State W) {t : Task}
      → lookup name tasks ≡ some t
      → All (λ d. contains w d ≡ true) t.depends_on
      → contains w name ≡ false
      → IsClean tasks st
      → ((d : Bytes) (s : State W)
          → contains w d ≡ true
          → IsClean tasks s
          → Runs tasks w
              (λ r. contains r.ran d ≡ true)
              s
              (run_with_deps shell spawn tasks selected extra fuel d s))
      → Runs tasks
          (name ∷ w)
          (λ s. contains s.ran name ≡ true)
          st
          (run_with_deps shell spawn tasks selected extra (suc fuel) name st)
  unfolding run_with_deps
  level fuel name w st {t} l all apart c below = elim (Bool-cases (contains st.ran name)) [
    | inl e ↦ rw (e, run_with_deps) (succeeded refl (Grows-refl tasks (name ∷ w) st c) e)
    | inr e ↦
        rw (e, run_with_deps)
          (rw (task_of-lookup name l) (
            self-after tasks _ name w st l e apart (
              run_deps-Runs tasks w (run_with_deps shell spawn tasks selected extra fuel)
                t.depends_on st below all c)))
  ]

  run_with_deps-Runs :
      (v : List Bytes) (fuel : ℕ) (name : Bytes) (st : State W)
      → length v ≤ fuel
      → Ordered tasks v
      → contains v name ≡ true
      → IsClean tasks st
      → Runs tasks v
          (λ s. contains s.ran name ≡ true)
          st
          (run_with_deps shell spawn tasks selected extra fuel name st)
  unfolding contains
  run_with_deps-Runs [] fuel name st h o i c = cc
  run_with_deps-Runs (n ∷ w) zero name st h o i c = absurd (omega arith)
  run_with_deps-Runs (n ∷ w) (suc fuel) name st h ((t, l, all), o) i c =
      elim (Bool-cases (contains w name)) [
        | inl e ↦
            Runs-widen tasks n w st _ (run_with_deps-Runs w (suc fuel) name st (omega arith) o e c)
        | inr e ↦ elim (contains-cons n name w i) [
          | inr q ↦ cc
          | inl q ↦
              subst
                (λ y.
                  Runs tasks (y ∷ w) (λ s. contains s.ran name ≡ true) st
                    (run_with_deps shell spawn tasks selected extra (suc fuel) name st))
                (sym q)
                (level fuel name w st (subst (λ y. lookup y tasks ≡ some t) q l) all e c
                  (λ d s k x. run_with_deps-Runs w fuel d s (omega arith) o k x))
        ]
      ]

  -- What a run that returns has done.
  pub record Returns (w : W) (status : Status) (st : State W) : Type 0 where
    pub runs : run_task_graph shell spawn tasks selected extra w ≡ returned status st
    pub ordered : Ordered tasks st.started
    pub distinct : Distinct st.started
    pub on_success :
        is_failure status ≡ false → (st.ran ≡ st.started) × (contains st.started selected ≡ true)
    pub on_failure : is_failure status ≡ true → (x : Bytes) × (st.started ≡ x ∷ st.ran)

  Runs-Returns :
      (w : W) (v : List Bytes) {r : Result W}
      → run_task_graph shell spawn tasks selected extra w ≡ r
      → Runs tasks v
          (λ s. contains s.ran selected ≡ true)
          (record { ran = []; started = []; world = w })
          r
      → (s : Status) × (st : State W) × Returns w s st
  Runs-Returns w v e (succeeded {s} {st'} f g p) = (
    s,
    st',
    record {
      runs = e;
      ordered = subst (Ordered tasks) (sym g.clean.all_ran) g.clean.ordered;
      distinct = subst Distinct (sym g.clean.all_ran) g.clean.distinct;
      on_success = λ h.
          (sym g.clean.all_ran, subst (λ l. contains l selected ≡ true) (sym g.clean.all_ran) p);
      on_failure = λ h. cc;
    },
  )
  Runs-Returns w v e (failed {s} {st'} {x} f q o d) = (
    s,
    st',
    record { runs = e; ordered = o; distinct = d; on_success = λ h. cc; on_failure = λ h. (x, q) },
  )

  -- If `validateTaskGraph` accepts a task, then running it ends, whatever the shell does. No task is
  -- started twice, and each one stands behind all tasks that it depends on. After a success all
  -- started tasks have succeeded, the one that was asked for among them; after a failure all have
  -- but the last, so that nothing is started behind a failure.
  pub run_task_graph-Returns :
      (w : W) {m : Marks}
      → validate_task_graph tasks selected ≡ valid m
      → (s : Status) × (st : State W) × Returns w s st
  unfolding run_task_graph
  run_task_graph-Returns w {m} e =
      let order = validate_task_graph-IsOrder tasks selected e in
      Runs-Returns w m.visited refl (
        run_with_deps-Runs m.visited (length tasks) selected
          (record { ran = []; started = []; world = w }) order.bounded order.ordered order.listed
          (record { all_ran = refl; ordered = tt; distinct = tt }))

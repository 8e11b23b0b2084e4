-- ===== src/Tasks/Run.antt =====
-- cmd/tya/task.go: `runTaskGraph` and `runTaskWithDeps`, the order in which tasks run.
pub mod Once
pub mod Ends
use tya.Prelude.{
  ℤ, pos, ℕ, zero, suc, Bool, true, false, List, [], ◌∷◌, Option, none, some, ◌≡◌, refl,
  if◌then◌else◌, Bytes, codes, length,
}
use tya.Text.{bytes_eq}
use tya.Dict.{contains, lookup}
use tya.Tasks.Graph.{Kind, other, Task, TaskMap, task}
use tya.Tasks.Shell.{Exit, success, exited, RunError, Status, status, is_failure, run_task}

-- `m.Tasks[name]`: a name that is missing gives the zero value.
unfoldable pub task_of : TaskMap → Bytes → Task
unfolding lookup
task_of tasks name = elim (lookup name tasks) [
  | some t ↦ t
  | none ↦ record {
    name = [];
    kind = other;
    string = [];
    array = [];
    depends_on = [];
    env = [];
    watch = [];
    ignore = [];
  }
]

-- `ran` has the tasks that ended without a failure; `started` the calls of `runTask`. Both have the
-- latest first.
pub record State (W : Type 0) : Type 0 where
  pub ran : List Bytes
  pub started : List Bytes
  pub world : W

pub data Result (W : Type 0) : Type 0 where
  returned : Status → State W → Result W
  out_of_fuel : Result W

module _ {W : Type 0} where
  -- The loop over the dependencies, over the call for one of them; its end is a success.
  unfoldable pub run_deps : (Bytes → State W → Result W) → List Bytes → State W → Result W
  run_deps run [] st = returned (status (pos 0) none) st
  run_deps run (dep ∷ deps) st =
      let next = λ (st' : State W). run_deps run deps st' in
      elim (run dep st) [
        | out_of_fuel ↦ out_of_fuel
        | returned s st' ↦ if is_failure s then returned s st' else next st'
      ]

  -- The end of `runTaskWithDeps`: the task itself, and its mark.
  unfoldable pub run_self : (W → Status × W) → Bytes → State W → Result W
  run_self run name st =
      let r = run st.world in
      returned r.0 (record {
        ran = (if is_failure r.0 then st.ran else name ∷ st.ran);
        started = name ∷ st.started;
        world = r.1;
      })

module _ {W : Type 0} (shell : W → (command : Bytes) → (env : List (Bytes × Bytes)) → Exit × W)
    (spawn : W → (commands : List Bytes) → (env : List (Bytes × Bytes)) → (ℕ → Exit) × W)
    (tasks : TaskMap) (selected : Bytes) (extra : List Bytes) where
  unfoldable pub run_with_deps : (fuel : ℕ) → Bytes → State W → Result W
  unfolding contains task_of run_deps run_self run_task bytes_eq
  run_with_deps zero name st = out_of_fuel
  run_with_deps (suc fuel) name st =
      let t = task_of tasks name in
      let args = (if bytes_eq name selected then extra else []) in
      let deps = run_deps (run_with_deps fuel) t.depends_on st in
      if contains st.ran name then returned (status (pos 0) none) st else elim deps [
        | out_of_fuel ↦ out_of_fuel
        | returned s st' ↦
            if is_failure s then returned s st' else run_self (run_task shell spawn t args) name st'
      ]

  -- `runTaskGraph`: a path of dependencies has no task twice.
  unfoldable pub run_task_graph : W → Result W
  unfolding run_with_deps
  run_task_graph w =
      run_with_deps (length tasks) selected (record { ran = []; started = []; world = w })

-- A shell in which the command `false` fails.
abbrev pub plain_shell : ℕ → Bytes → List (Bytes × Bytes) → Exit × ℕ
plain_shell n command env =
    (if bytes_eq command (codes "false") then exited (pos 1) else success, suc n)

abbrev pub no_spawn : ℕ → List Bytes → List (Bytes × Bytes) → (ℕ → Exit) × ℕ
no_spawn n commands env = (λ i. success, n)

run_test :
    run_task_graph plain_shell no_spawn
      (task (codes "a") (codes "b" ∷ codes "c" ∷ [])
        ∷ task (codes "b") (codes "c" ∷ [])
        ∷ task (codes "c") []
        ∷ [])
      (codes "a")
      []
      0
    ≡ returned (status (pos 0) none) (record {
      ran = codes "a" ∷ codes "b" ∷ codes "c" ∷ [];
      started = codes "a" ∷ codes "b" ∷ codes "c" ∷ [];
      world = 3;
    })
unfolding run_task_graph
run_test = refl

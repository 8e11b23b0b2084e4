-- ===== src/Tasks/Command.antt =====
-- cmd/tya/task.go: `taskCommand` behind the reading of the manifest, with its arguments and its
-- watch patterns. `filepath.Match` is a parameter: whether it takes a pattern.
pub mod Ends
pub mod Args
use tya.Prelude.{
  ℕ, zero, suc, Bool, true, false, not, ◌&&◌, ◌||◌, List, [], ◌∷◌, ◌++◌, Option, none, some, ◌≡◌,
  refl, ◌==◌, if◌then◌else◌, Bytes, codes, length,
}
use tya.Text.{bytes_eq, index_of}
use tya.Dict.{contains, lookup}
use tya.Tasks.Graph.{
  Task, TaskMap, Outcome, valid, unknown_task, cycle, out_of_fuel, validate_task_graph, task,
}
use tya.Tasks.Shell.{Exit, Status}
use tya.Tasks.Run.{State, Result, returned, run_task_graph, plain_shell, no_spawn}

pub record TaskArgs : Type 0 where
  pub extra : List Bytes
  pub watch : Bool

-- `parseTaskArgs`, from the argument on where `passThrough` has the value given.
unfoldable pub parse_from :
    (pass_through : Bool) → (watch : Bool) → (extra : List Bytes) → List Bytes → TaskArgs
unfolding bytes_eq
parse_from pass_through watch extra [] = record { extra = extra; watch = watch }
parse_from true watch extra (a ∷ args) = parse_from true watch (extra ++ a ∷ []) args
parse_from false watch extra (a ∷ args) =
    let passes = bytes_eq a (codes "--") in
    let watches = not passes && bytes_eq a (codes "--watch") in
    parse_from passes (watch || watches) (if passes || watches then extra else extra ++ a ∷ []) args

unfoldable pub parse_task_args : List Bytes → TaskArgs
unfolding parse_from
parse_task_args = parse_from false false []

-- `validateWatchPatterns`: the first pattern that is not taken.
unfoldable pub bad_pattern : (takes : Bytes → Bool) → List Bytes → Option Bytes
unfolding index_of
bad_pattern takes [] = none
bad_pattern takes (p ∷ ps) = elim (index_of (codes "**") p) [
  | some _ ↦ bad_pattern takes ps
  | none ↦ if takes p then bad_pattern takes ps else some p
]

-- How the command ends; `watching` stands for the loop of `watchTask`.
pub data Ending (W : Type 0) : Type 0 where
  listing : Ending W
  no_task : Bytes → Ending W
  refused : Outcome → Ending W
  pattern_refused : Bytes → Ending W
  watching : (extra : List Bytes) → Ending W
  ran : Result W → Ending W

module _ {W : Type 0} (shell : W → (command : Bytes) → (env : List (Bytes × Bytes)) → Exit × W)
    (spawn : W → (commands : List Bytes) → (env : List (Bytes × Bytes)) → (ℕ → Exit) × W)
    (takes : Bytes → Bool) (tasks : TaskMap) where
  -- A task that is found and accepted.
  unfoldable pub start_task : (name : Bytes) → TaskArgs → Task → W → Ending W
  unfolding bad_pattern run_task_graph
  start_task name args t w = elim (bad_pattern takes (t.watch ++ t.ignore)) [
    | some p ↦ pattern_refused p
    | none ↦
        if args.watch
        then watching args.extra
        else ran (run_task_graph shell spawn tasks name args.extra w)
  ]

  unfoldable pub task_command : List Bytes → W → Ending W
  unfolding lookup parse_task_args validate_task_graph start_task
  task_command [] w = listing
  task_command (name ∷ rest) w = elim (lookup name tasks) [
    | none ↦ no_task name
    | some t ↦ elim (validate_task_graph tasks name) [
      | valid m ↦ start_task name (parse_task_args rest) t w
      | unknown_task p n ↦ refused (unknown_task p n)
      | cycle c ↦ refused (cycle c)
      | out_of_fuel ↦ refused out_of_fuel
    ]
  ]

args_test :
    parse_task_args (codes "a" ∷ codes "--watch" ∷ codes "--" ∷ codes "--watch" ∷ codes "--" ∷ [])
    ≡ record { extra = codes "a" ∷ codes "--watch" ∷ codes "--" ∷ []; watch = true }
unfolding parse_task_args
args_test = refl

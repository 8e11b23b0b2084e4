-- ===== src/Tasks/Command/Ends.antt =====
-- `taskCommand` ends, unless it watches.
use tya.Prelude.{
  ℕ, Bool, List, [], ◌∷◌, ◌++◌, none, ◌≡◌, ◌≢◌, refl, inl, inr, Bool-cases, Option-cases, Bytes,
}
use tya.Dict.{lookup}
use tya.Tasks.Graph.{
  Task, TaskMap, Marks, Outcome, valid, unknown_task, cycle, out_of_fuel, validate_task_graph,
}
use tya.Tasks.Graph.Verdict.{Verdict, validate_task_graph-Verdict}
use tya.Tasks.Shell.{Exit, Status}
use tya.Tasks.Run.{State, returned}
use tya.Tasks.Run.Ends.{run_task_graph-Returns}
use tya.Tasks.Command.{
  TaskArgs, parse_task_args, bad_pattern, Ending, listing, no_task, refused, pattern_refused,
  watching, ran, start_task, task_command,
}

module _ {W : Type 0} (shell : W → (command : Bytes) → (env : List (Bytes × Bytes)) → Exit × W)
    (spawn : W → (commands : List Bytes) → (env : List (Bytes × Bytes)) → (ℕ → Exit) × W)
    (takes : Bytes → Bool) (tasks : TaskMap) where
  -- An ending that is no endless recursion: what was run has returned.
  pub data Ended : Ending W → Type 0 where
    list : Ended listing
    unknown : {name : Bytes} → lookup name tasks ≡ none → Ended (no_task name)
    invalid :
        {o : Outcome} {name : Bytes}
        → Verdict tasks name o
        → ((m : Marks) → o ≢ valid m)
        → Ended (refused o)
    pattern_error : {p : Bytes} → Ended (pattern_refused p)
    watches : {extra : List Bytes} → Ended (watching extra)
    done : {s : Status} {st : State W} → Ended (ran (returned s st))

  start_task-Ended :
      (name : Bytes) (args : TaskArgs) (t : Task) (w : W) {m : Marks}
      → validate_task_graph tasks name ≡ valid m
      → Ended (start_task shell spawn takes tasks name args t w)
  unfolding start_task
  start_task-Ended name args t w e = elim (Option-cases (bad_pattern takes (t.watch ++ t.ignore))) [
    | inr (p, b) ↦ rw (b, start_task) pattern_error
    | inl b ↦ elim (Bool-cases args.watch) [
      | inl x ↦ rw (b, x, start_task) watches
      | inr x ↦
          let (s, st, r) = run_task_graph-Returns shell spawn tasks name args.extra w e in
          rw (b, x, start_task) (rw r.runs done)
    ]
  ]

  Verdict-Ended :
      (name : Bytes) (args : TaskArgs) (t : Task) (w : W) (o : Outcome)
      → validate_task_graph tasks name ≡ o
      → Verdict tasks name o
      → Ended (elim o [
        | valid m ↦ start_task shell spawn takes tasks name args t w
        | unknown_task p n ↦ refused (unknown_task p n)
        | cycle c ↦ refused (cycle c)
        | out_of_fuel ↦ refused out_of_fuel
      ])
  Verdict-Ended name args t w (valid m) e v = start_task-Ended name args t w e
  Verdict-Ended name args t w (unknown_task p n) e v = invalid v (λ m q. cc)
  Verdict-Ended name args t w (cycle c) e v = invalid v (λ m q. cc)
  Verdict-Ended name args t w out_of_fuel e v = invalid v (λ m q. cc)

  -- For every table of tasks, whatever the shell does, `taskCommand` lists the tasks, reports an
  -- unknown task, a graph that is not valid or a bad watch pattern, watches, or runs the tasks to an
  -- end: neither the check of the graph nor the run goes on for ever.
  pub task_command-Ended :
      (args : List Bytes) (w : W) → Ended (task_command shell spawn takes tasks args w)
  unfolding task_command
  task_command-Ended [] w = list
  task_command-Ended (name ∷ rest) w = elim (Option-cases (lookup name tasks)) [
    | inl e ↦ rw (e, task_command) (unknown e)
    | inr (t, e) ↦
        rw (e, task_command)
          (Verdict-Ended name (parse_task_args rest) t w (validate_task_graph tasks name) refl
            (validate_task_graph-Verdict tasks name))
  ]

-- ===== src/Tasks/Shell.antt =====
-- cmd/tya/task.go: `runTask`, `runShell`, `runParallel` and the quoting of arguments. The shell is a
-- parameter: what it makes of a command, and the world that it leaves.
pub mod Quoting
pub mod Parallel
use tya.Prelude.{
  ℤ, pos, is_zero, ℕ, zero, suc, ◌+◌, Bool, true, false, not, List, [], ◌∷◌, ◌++◌, Option, none,
  some, ◌≡◌, refl, ◌==◌, if◌then◌else◌, map, Bytes, codes, length,
}
use tya.Tasks.Graph.{Kind, string, array, parallel, other, Task}

-- `shellQuote`: quotes around the text, and each quote in it as `'\''`.
unfoldable pub quote_byte : ℕ → Bytes
quote_byte c = if c == b'\'' then codes "'\\''" else c ∷ []

unfoldable pub quote_bytes : Bytes → Bytes
unfolding quote_byte
quote_bytes [] = []
quote_bytes (c ∷ s) = quote_byte c ++ quote_bytes s

unfoldable pub shell_quote : Bytes → Bytes
unfolding quote_bytes
shell_quote s = b'\'' ∷ (quote_bytes s ++ (b'\'' ∷ []))

-- `joinShellArgs`.
unfoldable pub join_shell_args : List Bytes → Bytes
unfolding shell_quote
join_shell_args [] = []
join_shell_args (a ∷ []) = shell_quote a
join_shell_args (a ∷ b ∷ args) = shell_quote a ++ (b' ' ∷ join_shell_args (b ∷ args))

-- `full`.
unfoldable pub full_command : (command : Bytes) → (extra : List Bytes) → Bytes
unfolding join_shell_args
full_command command extra =
    if length extra == 0 then command else command ++ (b' ' ∷ join_shell_args extra)

-- How a command ends: `err == nil`, an `ExitError` with its code, or any other error.
pub data Exit : Type 0 where
  success : Exit
  exited : ℤ → Exit
  not_started : Exit

pub data RunError : Type 0 where
  no_shell : RunError
  command_failed : (index : ℕ) (command : Bytes) (code : ℤ) → RunError
  parallel_failed : List (ℕ × Bytes × ℤ) → RunError
  unknown_kind : RunError

-- The two results of a Go function that runs something.
pub record Status : Type 0 where
  pub code : ℤ
  pub err : Option RunError

abbrev pub status : ℤ → Option RunError → Status
status code err = record { code = code; err = err }

-- `err != nil || code != 0`.
abbrev pub is_failure : Status → Bool
is_failure s = elim s.err [ some e ↦ true | none ↦ not (is_zero s.code) ]

abbrev pub status_of : Exit → Status
status_of success = status (pos 0) none
status_of (exited code) = status code none
status_of not_started = status (pos 1) (some no_shell)

-- The array of results: command `i` has the end that stands in slot `i`.
unfoldable pub results_of : (i : ℕ) → (ℕ → Exit) → List Bytes → List (Bytes × Exit)
results_of i slots [] = []
results_of i slots (c ∷ cmds) = (c, slots i) ∷ results_of (i + 1) slots cmds

-- The loop of `runParallel` over the results: the first code that is not 0, and all failures.
unfoldable pub collect :
    (i : ℕ) → (first : ℤ) → (failures : List (ℕ × Bytes × ℤ)) → List (Bytes × Exit) → Status
collect i first failures [] =
    if is_zero first then status (pos 0) none else status first (some (parallel_failed failures))
collect i first failures ((c, success) ∷ rs) = collect (i + 1) first failures rs
collect i first failures ((c, exited code) ∷ rs) =
    collect (i + 1) (if is_zero first then code else first)
      (if is_zero code then failures else failures ++ (i + 1, c, code) ∷ []) rs
collect i first failures ((c, not_started) ∷ rs) = status (pos 1) (some no_shell)

module _ {W : Type 0} (shell : W → (command : Bytes) → (env : List (Bytes × Bytes)) → Exit × W)
    (spawn : W → (commands : List Bytes) → (env : List (Bytes × Bytes)) → (ℕ → Exit) × W) where
  unfoldable pub run_shell :
      (command : Bytes) → (extra : List Bytes) → (env : List (Bytes × Bytes)) → W → Status × W
  unfolding full_command
  run_shell command extra env w =
      let r = shell w (full_command command extra) env in (status_of r.0, r.1)

  -- The loop of `runTask` over the commands of an array.
  unfoldable pub run_commands :
      (i : ℕ) → List Bytes → (extra : List Bytes) → (env : List (Bytes × Bytes)) → W → Status × W
  unfolding run_shell
  run_commands i [] extra env w = (status (pos 0) none, w)
  run_commands i (c ∷ cmds) extra env w =
      let r = run_shell c extra env w in
      let rest = run_commands (i + 1) cmds extra env r.1 in
      elim r.0.err [
        | some e ↦ r
        | none ↦
            if is_zero r.0.code
            then rest
            else (status r.0.code (some (command_failed (i + 1) c r.0.code)), r.1)
      ]

  -- All commands run at once; `spawn` gives each its end.
  unfoldable pub run_parallel :
      List Bytes → (extra : List Bytes) → (env : List (Bytes × Bytes)) → W → Status × W
  unfolding full_command results_of collect
  run_parallel cmds extra env w =
      let r = spawn w (map (λ c. full_command c extra) cmds) env in
      if length cmds == 0
      then (status (pos 0) none, w)
      else (collect 0 (pos 0) [] (results_of 0 r.0 cmds), r.1)

  unfoldable pub run_task : Task → (extra : List Bytes) → W → Status × W
  unfolding run_shell run_commands run_parallel
  run_task t extra w = elim t.kind [
    | string ↦ run_shell t.string extra t.env w
    | array ↦ run_commands 0 t.array extra t.env w
    | parallel ↦ run_parallel t.array extra t.env w
    | other ↦ (status (pos 1) (some unknown_kind), w)
  ]

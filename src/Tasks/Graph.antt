-- ===== src/Tasks/Graph.antt =====
-- cmd/tya/task.go: `validateTaskGraph`, on the tasks of a manifest.
pub mod Paths
pub mod Judged
pub mod Verdict
use tya.Prelude.{
  ℕ, zero, suc, Bool, true, false, List, [], ◌∷◌, ◌++◌, Option, none, some, ◌≡◌, refl,
  if◌then◌else◌, Bytes, codes, length,
}
use tya.Text.{bytes_eq}
use tya.Dict.{contains, lookup}

-- The values of `Task.Kind`; `other` is any other text.
pub data Kind : Type 0 where
  string array parallel other : Kind

pub record Task : Type 0 where
  pub name : Bytes
  pub kind : Kind
  pub string : Bytes
  pub array : List Bytes
  pub depends_on : List Bytes
  pub env : List (Bytes × Bytes)
  pub watch : List Bytes
  pub ignore : List Bytes

-- `Manifest.Tasks`.
abbrev pub TaskMap : Type 0
TaskMap = List (Bytes × Task)

-- The two maps of `validateTaskGraph`: the names that each maps to `true`.
pub record Marks : Type 0 where
  pub visiting : List Bytes
  pub visited : List Bytes

-- `visiting[name] = false`.
unfoldable pub unmark : Bytes → List Bytes → List Bytes
unfolding bytes_eq
unmark x [] = []
unmark x (v ∷ s) = let rest = unmark x s in if bytes_eq v x then rest else v ∷ rest

-- What `visit` returns; `out_of_fuel` stands for a recursion that goes on.
pub data Outcome : Type 0 where
  valid : Marks → Outcome
  unknown_task : (parent name : Bytes) → Outcome
  cycle : List Bytes → Outcome
  out_of_fuel : Outcome

-- The last of the stack, or `selected`.
abbrev pub parent_of : Bytes → List Bytes → Bytes
parent_of selected [] = selected
parent_of selected (x ∷ []) = x
parent_of selected (x ∷ y ∷ stack) = parent_of selected (y ∷ stack)

-- The loop over the dependencies, over the call for one of them.
unfoldable pub visit_all : (Bytes → Marks → Outcome) → List Bytes → Marks → Outcome
visit_all visit [] m = valid m
visit_all visit (dep ∷ deps) m = elim (visit dep m) [
  | valid m' ↦ visit_all visit deps m'
  | unknown_task p n ↦ unknown_task p n
  | cycle c ↦ cycle c
  | out_of_fuel ↦ out_of_fuel
]

-- `visiting[name] = false` and `visited[name] = true`.
abbrev pub finish : Bytes → Outcome → Outcome
finish name (valid m) =
    valid (record { visiting = unmark name m.visiting; visited = name ∷ m.visited })
finish name (unknown_task p n) = unknown_task p n
finish name (cycle c) = cycle c
finish name out_of_fuel = out_of_fuel

module _ (tasks : TaskMap) (selected : Bytes) where
  -- The closure `visit`.
  unfoldable pub visit : (fuel : ℕ) → (stack : List Bytes) → Bytes → Marks → Outcome
  unfolding lookup contains visit_all unmark
  visit zero stack name m = out_of_fuel
  visit (suc fuel) stack name m =
      let enter = λ (deps : List Bytes). finish name (
        visit_all (visit fuel (stack ++ name ∷ [])) deps
          (record m { visiting = name ∷ m.visiting })) in
      elim (lookup name tasks) [
        | none ↦ unknown_task (parent_of selected stack) name
        | some task ↦
            if contains m.visiting name
            then cycle (stack ++ name ∷ [])
            else if contains m.visited name
            then valid m
            else enter task.depends_on
      ]

  -- Each call but the last marks another task.
  unfoldable pub validate_task_graph : Outcome
  unfolding visit
  validate_task_graph =
      visit (suc (length tasks)) [] selected (record { visiting = []; visited = [] })

abbrev pub task : (name : Bytes) → (deps : List Bytes) → Bytes × Task
task name deps = (
  name,
  record {
    name = name;
    kind = Kind.string;
    string = codes "true";
    array = [];
    depends_on = deps;
    env = [];
    watch = [];
    ignore = [];
  },
)

graph_tests :
    (validate_task_graph
        (task (codes "a") (codes "b" ∷ codes "c" ∷ [])
          ∷ task (codes "b") (codes "c" ∷ [])
          ∷ task (codes "c") []
          ∷ [])
        (codes "a")
      ≡ valid (record { visiting = []; visited = codes "a" ∷ codes "b" ∷ codes "c" ∷ [] }))
    × (validate_task_graph
          (task (codes "a") (codes "b" ∷ []) ∷ task (codes "b") (codes "a" ∷ []) ∷ [])
          (codes "a")
        ≡ cycle (codes "a" ∷ codes "b" ∷ codes "a" ∷ []))
    × (validate_task_graph (task (codes "a") (codes "b" ∷ []) ∷ []) (codes "a")
        ≡ unknown_task (codes "a") (codes "b"))
unfolding validate_task_graph
graph_tests = (refl, refl, refl)

-- ===== src/Tasks/Graph/Verdict.antt =====
-- `validateTaskGraph` ends, and its verdict is right.
use tya.Prelude.{
  suc, ◌≤◌, true, List, [], ◌∷◌, none, some, ◌≡◌, refl, subst, inl, inr, arith, Bytes, length,
}
use tya.Dict.{contains, contains-cons, lookup}
use tya.Tasks.Graph.{Task, TaskMap, Marks, Outcome, valid, unknown_task, cycle, validate_task_graph}
use tya.Tasks.Graph.Paths.{
  fresh-le-length, Needs, direct, onward, Reaches, Ordered, Ordered-closed, Ordered-acyclic,
}
use tya.Tasks.Graph.Judged.{Says, fine, missing, circular, visit-Says}

module _ (tasks : TaskMap) where
  Ordered-defined :
      (v : List Bytes) (x : Bytes)
      → Ordered tasks v
      → contains v x ≡ true
      → (t : Task) × (lookup x tasks ≡ some t)
  unfolding contains
  Ordered-defined [] x o c = cc
  Ordered-defined (n ∷ v) x ((t, l, all), o) c = elim (contains-cons n x v c) [
    | inl e ↦ (t, subst (λ y. lookup y tasks ≡ some t) e l)
    | inr r ↦ Ordered-defined v x o r
  ]

  Needs-closed :
      (v : List Bytes) (a b : Bytes)
      → Ordered tasks v
      → contains v a ≡ true
      → Needs tasks a b
      → contains v b ≡ true
  Needs-closed v a b o c (direct l h) = Ordered-closed tasks v a b o c l h
  Needs-closed v a b o c (onward {b = d} p l h) =
      Ordered-closed tasks v d b o (Needs-closed v a d o c p) l h

  Reaches-closed :
      (v : List Bytes) (a b : Bytes)
      → Ordered tasks v
      → contains v a ≡ true
      → Reaches tasks a b
      → contains v b ≡ true
  Reaches-closed v a b o c (inl e) = subst (λ x. contains v x ≡ true) e c
  Reaches-closed v a b o c (inr p) = Needs-closed v a b o c p

  module _ (selected : Bytes) where
    -- What a verdict says of the tasks that can be reached from the one that was asked for: all of
    -- them are defined and none depends on itself, or one is not defined, or one depends on itself.
    pub data Verdict : Outcome → Type 0 where
      fit :
          {m : Marks}
          → ((x : Bytes) → Reaches tasks selected x → (t : Task) × (lookup x tasks ≡ some t))
          → ((x : Bytes) → Reaches tasks selected x → Needs tasks x x → ⊥)
          → Verdict (valid m)
      undefined_task :
          {parent n : Bytes}
          → Reaches tasks selected n
          → lookup n tasks ≡ none
          → Verdict (unknown_task parent n)
      circular_task :
          {c : List Bytes} {x : Bytes}
          → Reaches tasks selected x
          → Needs tasks x x
          → Verdict (cycle c)

    -- What the runner uses of a task that is accepted: an order of its tasks.
    pub record IsOrder (v : List Bytes) : Type 0 where
      pub ordered : Ordered tasks v
      pub listed : contains v selected ≡ true
      pub bounded : length v ≤ length tasks

    Says-Verdict :
        {o : Outcome}
        → Says tasks selected
            (record { visiting = []; visited = [] })
            (λ m'. contains m'.visited selected ≡ true)
            o
        → Verdict o
    Says-Verdict (fine {m'} x c) =
        fit
          (λ y r.
            Ordered-defined m'.visited y x.sound.ordered
              (Reaches-closed m'.visited selected y x.sound.ordered c r))
          (λ y r.
            Ordered-acyclic tasks m'.visited y x.sound.ordered
              (Reaches-closed m'.visited selected y x.sound.ordered c r))
    Says-Verdict (missing r l) = undefined_task r l
    Says-Verdict (circular r p) = circular_task r p

    Says-IsOrder :
        {m : Marks} {o : Outcome}
        → Says tasks selected
            (record { visiting = []; visited = [] })
            (λ m'. contains m'.visited selected ≡ true)
            o
        → o ≡ valid m
        → IsOrder m.visited
    Says-IsOrder {m} (fine {m'} x c) e =
        subst (λ (k : Marks). IsOrder k.visited) (same e)
          (record {
            ordered = x.sound.ordered;
            listed = c;
            bounded = omega (arith, x.sound.counted);
          })
      where
        same : {a b : Marks} → valid a ≡ valid b → a ≡ b
        same q = cc
    Says-IsOrder (missing r l) e = cc
    Says-IsOrder (circular r p) e = cc

    first_visit :
        Says tasks selected
          (record { visiting = []; visited = [] })
          (λ m'. contains m'.visited selected ≡ true)
          (validate_task_graph tasks selected)
    unfolding validate_task_graph contains
    first_visit =
        visit-Says tasks selected (suc (length tasks)) [] selected
          (record { visiting = []; visited = [] }) (omega (arith, fresh-le-length [] tasks))
          (record {
            sound = record { ordered = tt; counted = omega (arith, fresh-le-length [] tasks) };
            reached = inl refl;
            above = λ x h. cc;
          })

    -- `validateTaskGraph` ends on every table of tasks, and its verdict is right: it accepts a task
    -- only if every task that can be reached from it is defined and none of these depends on
    -- itself; it names an unknown task only if that one can be reached and is not defined; and it
    -- reports a cycle only if a task that can be reached depends on itself.
    pub validate_task_graph-Verdict : Verdict (validate_task_graph tasks selected)
    validate_task_graph-Verdict = Says-Verdict first_visit

    pub validate_task_graph-IsOrder :
        {m : Marks} → validate_task_graph tasks selected ≡ valid m → IsOrder m.visited
    validate_task_graph-IsOrder e = Says-IsOrder first_visit e

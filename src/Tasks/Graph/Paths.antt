-- ===== src/Tasks/Graph/Paths.antt =====
-- The dependencies of tasks: paths, orders in which a task stands behind what it depends on, and
-- the number of tasks that are not marked.
use tya.Prelude.{
  ℕ, ◌≤◌, ◌<◌, true, false, List, [], ◌∷◌, some, ◌≡◌, sym, ◌∙◌, ap, ◌⊎◌, inl, inr, arith, Bytes,
  length, All,
}
use tya.Dict.{
  contains, contains-cons, contains_there, lookup, keys, length-keys, contains-keys, missing,
  missing-le-length, missing-mark, All-get,
}
use tya.Tasks.Graph.{Task, TaskMap}

-- The number of tasks that the list does not name.
abbrev pub fresh : List Bytes → TaskMap → ℕ
fresh v ts = missing v (keys ts)

pub fresh-le-length : (v : List Bytes) (ts : TaskMap) → fresh v ts ≤ length ts
fresh-le-length v ts = omega (arith, missing-le-length v (keys ts), length-keys ts)

pub fresh-mark :
    (x : Bytes) (v : List Bytes) (ts : TaskMap) {t : Task}
    → lookup x ts ≡ some t
    → contains v x ≡ false
    → fresh (x ∷ v) ts < fresh v ts
fresh-mark x v ts h c = missing-mark x v (keys ts) (contains-keys x ts h) c

module _ (tasks : TaskMap) where
  -- `a` depends on `b`, directly or through other tasks.
  pub data Needs (a : Bytes) : Bytes → Type 0 where
    direct :
        {b : Bytes} {t : Task}
        → lookup a tasks ≡ some t
        → contains t.depends_on b ≡ true
        → Needs a b
    onward :
        {b c : Bytes} {t : Task}
        → Needs a b
        → lookup b tasks ≡ some t
        → contains t.depends_on c ≡ true
        → Needs a c

  -- The task that was asked for, or one that it depends on.
  abbrev pub Reaches : Bytes → Bytes → Type 0
  Reaches a b = (a ≡ b) ⊎ Needs a b

  pub Reaches-onward :
      (a b c : Bytes) {t : Task}
      → Reaches a b
      → lookup b tasks ≡ some t
      → contains t.depends_on c ≡ true
      → Reaches a c
  Reaches-onward a b c (inl e) l h = inr (direct (ap (λ x. lookup x tasks) e ∙ l) h)
  Reaches-onward a b c (inr p) l h = inr (onward p l h)

  -- Each name is that of a task, and stands in front of all that this task depends on.
  abbrev pub Ordered : List Bytes → Type 0
  Ordered [] = Unit {0}
  Ordered (n ∷ v) =
      ((t : Task) × (lookup n tasks ≡ some t) × All (λ d. contains v d ≡ true) t.depends_on)
      × Ordered v

  -- Dependencies of a listed task are listed.
  pub Ordered-closed :
      (v : List Bytes) (a b : Bytes) {t : Task}
      → Ordered v
      → contains v a ≡ true
      → lookup a tasks ≡ some t
      → contains t.depends_on b ≡ true
      → contains v b ≡ true
  unfolding contains
  Ordered-closed [] a b o c l h = cc
  Ordered-closed (n ∷ v) a b {t} ((s, e, all), o) c l h = elim (contains-cons n a v c) [
    | inl q ↦
        let same : s.depends_on ≡ t.depends_on = cc (e, l, q) in
        contains_there n b v (All-get (λ d. contains v d ≡ true) s.depends_on b all (rw same h))
    | inr r ↦ contains_there n b v (Ordered-closed v a b o r l h)
  ]

  -- All that a task depends on is listed behind it.
  pub Needs-listed :
      (n b : Bytes) (v : List Bytes) {t : Task}
      → Needs n b
      → lookup n tasks ≡ some t
      → All (λ d. contains v d ≡ true) t.depends_on
      → Ordered v
      → contains v b ≡ true
  Needs-listed n b v {t} (direct {t = s} l h) e all o =
      let same : s.depends_on ≡ t.depends_on = cc (e, l) in
      All-get (λ d. contains v d ≡ true) t.depends_on b all (rw (← same) h)
  Needs-listed n b v (onward {b = c} p l h) e all o =
      Ordered-closed v c b o (Needs-listed n c v p e all o) l h

  -- In such an order no task depends on itself.
  pub Ordered-acyclic :
      (v : List Bytes) (a : Bytes) → Ordered v → contains v a ≡ true → Needs a a → ⊥
  unfolding contains
  Ordered-acyclic [] a o c p = cc
  Ordered-acyclic (n ∷ v) a ((t, e, all), o) c p =
      Ordered-acyclic v a o
        (elim (contains-cons n a v c) [
          | inl q ↦ Needs-listed a a v p (ap (λ x. lookup x tasks) (sym q) ∙ e) all o
          | inr r ↦ r
        ])
        p

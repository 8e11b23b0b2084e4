-- ===== src/Tasks/Run/Once.antt =====
-- What running a task and its dependencies does to the state: which tasks have started and ended.

use tya.Prelude.{
  true, false, List, [], ◌∷◌, some, ◌≡◌, refl, sym, subst, ap, ◌⊎◌, inl, inr, if◌then◌else◌,
  Bool-cases, Bytes, All,
}
use tya.Dict.{contains, contains-cons, contains_here, contains_there, lookup, Distinct}
use tya.Tasks.Graph.{Task, TaskMap}
use tya.Tasks.Graph.Paths.{Ordered}
use tya.Tasks.Shell.{Status, is_failure}
use tya.Tasks.Run.{State, Result, returned, out_of_fuel, run_deps, run_self}

module _ {W : Type 0} (tasks : TaskMap) where
  -- So far every started task has ended without a failure, behind all that it depends on.
  pub record IsClean (st : State W) : Type 0 where
    pub all_ran : st.started ≡ st.ran
    pub ordered : Ordered tasks st.ran
    pub distinct : Distinct st.ran

  -- How the tasks of `v` change the state.
  pub record Grows (v : List Bytes) (st st' : State W) : Type 0 where
    pub clean : IsClean st'
    pub keeps : (x : Bytes) → contains st.ran x ≡ true → contains st'.ran x ≡ true
    pub within :
        (x : Bytes) → contains st'.ran x ≡ true → (contains st.ran x ≡ true) ⊎ (contains v x ≡ true)

  pub Grows-refl : (v : List Bytes) (st : State W) → IsClean st → Grows v st st
  Grows-refl v st c = record { clean = c; keeps = λ x h. h; within = λ x h. inl h }

  Grows-trans : (v : List Bytes) {a b c : State W} → Grows v a b → Grows v b c → Grows v a c
  Grows-trans v g h = record {
    clean = h.clean;
    keeps = λ x p. h.keeps x (g.keeps x p);
    within = λ x p. elim (h.within x p) [ inl q ↦ g.within x q | inr q ↦ inr q ];
  }

  -- A run that returns: it succeeds, or one task failed and is the last that was started.
  pub data Runs (v : List Bytes) (P : State W → Type 0) (st : State W) : Result W → Type 0 where
    succeeded :
        {s : Status} {st' : State W}
        → is_failure s ≡ false
        → Grows v st st'
        → P st'
        → Runs v P st (returned s st')
    failed :
        {s : Status} {st' : State W} {x : Bytes}
        → is_failure s ≡ true
        → st'.started ≡ x ∷ st'.ran
        → Ordered tasks st'.started
        → Distinct st'.started
        → Runs v P st (returned s st')

  Runs-after :
      (v : List Bytes) (st st' : State W) (P Q : State W → Type 0) {r : Result W}
      → Grows v st st'
      → ((st'' : State W) → Grows v st' st'' → P st'' → Q st'')
      → Runs v P st' r
      → Runs v Q st r
  Runs-after v st st' P Q g f (succeeded {st' = st''} e h p) =
      succeeded e (Grows-trans v g h) (f st'' h p)
  Runs-after v st st' P Q g f (failed e q o d) = failed e q o d

  module _ (v : List Bytes) (run_dep : Bytes → State W → Result W) where
    Ran-next :
        (deps : List Bytes) (d : Bytes) (st : State W) {r : Result W}
        → Runs v (λ s. contains s.ran d ≡ true) st r
        → ((st' : State W)
            → Grows v st st'
            → Runs v (λ s. All (λ x. contains s.ran x ≡ true) deps) st' (run_deps run_dep deps st'))
        → Runs v
            (λ s. All (λ x. contains s.ran x ≡ true) (d ∷ deps))
            st
            (elim r [
              | out_of_fuel ↦ out_of_fuel
              | returned s st' ↦ if is_failure s then returned s st' else run_deps run_dep deps st'
            ])
    Ran-next deps d st (succeeded {st'} e g p) rest =
        rw e (Runs-after v st st' _ _ g (λ s h a. (h.keeps d p, a)) (rest st' g))
    Ran-next deps d st (failed e q o i) rest = rw e (failed e q o i)

    pub run_deps-Runs :
        (deps : List Bytes) (st : State W)
        → ((d : Bytes) (st' : State W)
            → contains v d ≡ true
            → IsClean st'
            → Runs v (λ s. contains s.ran d ≡ true) st' (run_dep d st'))
        → All (λ d. contains v d ≡ true) deps
        → IsClean st
        → Runs v (λ s. All (λ x. contains s.ran x ≡ true) deps) st (run_deps run_dep deps st)
    unfolding run_deps
    run_deps-Runs [] st f a c = succeeded refl (Grows-refl v st c) tt
    run_deps-Runs (d ∷ deps) st f (p, a) c =
        Ran-next deps d st (f d st p c) (λ st' g. run_deps-Runs deps st' f a g.clean)

  Grows-widen :
      (n : Bytes) (v : List Bytes) (st st' : State W) → Grows v st st' → Grows (n ∷ v) st st'
  Grows-widen n v st st' g = record {
    clean = g.clean;
    keeps = g.keeps;
    within = λ x p. elim (g.within x p) [ inl q ↦ inl q | inr q ↦ inr (contains_there n x v q) ];
  }

  pub Runs-widen :
      (n : Bytes) (v : List Bytes) (st : State W) (P : State W → Type 0) {r : Result W}
      → Runs v P st r
      → Runs (n ∷ v) P st r
  Runs-widen n v st P (succeeded {st'} e g p) = succeeded e (Grows-widen n v st st' g) p
  Runs-widen n v st P (failed e q o d) = failed e q o d

  run_self-Runs :
      (run : W → Status × W) (name : Bytes) (w : List Bytes) (st : State W) {t : Task}
      → lookup name tasks ≡ some t
      → IsClean st
      → contains st.ran name ≡ false
      → All (λ d. contains st.ran d ≡ true) t.depends_on
      → Runs (name ∷ w) (λ s. contains s.ran name ≡ true) st (run_self run name st)
  unfolding run_self
  run_self-Runs run name w st {t} l c new all =
      let order : Ordered tasks (name ∷ st.ran) = ((t, l, all), c.ordered) in
      elim (Bool-cases (is_failure (run st.world).0)) [
        | inl e ↦
            rw (e, run_self)
              (failed e (ap (◌∷◌ name) c.all_ran)
                (subst (λ v. Ordered tasks (name ∷ v)) (sym c.all_ran) order)
                (subst (λ v. Distinct (name ∷ v)) (sym c.all_ran) (new, c.distinct)))
        | inr e ↦
            rw (e, run_self)
              (succeeded e
                (record {
                  clean = record {
                    all_ran = ap (◌∷◌ name) c.all_ran;
                    ordered = order;
                    distinct = (new, c.distinct);
                  };
                  keeps = λ x h. contains_there name x st.ran h;
                  within = λ x h. elim (contains-cons name x st.ran h) [
                    | inl q ↦
                        inr (subst (λ y. contains (name ∷ w) y ≡ true) q (contains_here name w))
                    | inr q ↦ inl q
                  ];
                })
                (contains_here name st.ran))
      ]

  pub self-after :
      (run : W → Status × W) (name : Bytes) (w : List Bytes) (st : State W) {t : Task}
      {r : Result W}
      → lookup name tasks ≡ some t
      → contains st.ran name ≡ false
      → contains w name ≡ false
      → Runs w (λ s. All (λ d. contains s.ran d ≡ true) t.depends_on) st r
      → Runs
          (name ∷ w)
          (λ s. contains s.ran name ≡ true)
          st
          (elim r [
            | out_of_fuel ↦ out_of_fuel
            | returned s st' ↦ if is_failure s then returned s st' else run_self run name st'
          ])
  self-after run name w st l new apart (succeeded {st'} e g all) = rw e (
      Runs-after (name ∷ w) st st' _ _ (Grows-widen name w st st' g) (λ s h p. p)
        (run_self-Runs run name w st' l g.clean still all))
    where
      still : contains st'.ran name ≡ false
      still = elim (Bool-cases (contains st'.ran name)) [
        | inr f ↦ f
        | inl p ↦ elim (g.within name p) [ inl q ↦ cc | inr q ↦ cc ]
      ]
  self-after run name w st l new apart (failed e q o d) = rw e (failed e q o d)

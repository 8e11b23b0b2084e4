-- ===== src/Tasks/Graph/Judged.antt =====
-- What one visit of `validateTaskGraph` does to the marks, and what an error says.
use tya.Prelude.{
  ℕ, zero, suc, ◌+◌, ◌≤◌, ◌<◌, true, false, List, [], ◌∷◌, ◌++◌, none, some, ◌≡◌, refl, sym, subst,
  ◌∙◌, ap, inl, inr, arith, Bool-cases, Option-cases, Bytes, length, All,
}
use tya.Text.{bytes_eq, bytes_eq_refl}
use tya.Dict.{contains, contains-cons, contains_here, contains_there, lookup, All-contains}
use tya.Tasks.Graph.{
  Task, TaskMap, Marks, unmark, Outcome, valid, unknown_task, cycle, out_of_fuel, visit_all, finish,
  visit,
}
use tya.Tasks.Graph.Paths.{
  fresh, fresh-mark, Needs, direct, onward, Reaches, Reaches-onward, Ordered,
}

unmark_absent : (x : Bytes) (v : List Bytes) → contains v x ≡ false → unmark x v ≡ v
unfolding contains unmark
unmark_absent x [] h = refl
unmark_absent x (y ∷ v) h = elim (Bool-cases (bytes_eq y x)) [
  | inl e ↦ cc (rw e at h)
  | inr e ↦ rw e (ap (◌∷◌ y) (unmark_absent x v (rw e at h)))
]

unmark-mark : (x : Bytes) (v : List Bytes) → contains v x ≡ false → unmark x (x ∷ v) ≡ v
unfolding unmark
unmark-mark x v h = rw (bytes_eq_refl x) (unmark_absent x v h)

module _ (tasks : TaskMap) (selected : Bytes) where
  -- What holds of the marks between two visits.
  pub record IsSound (m : Marks) : Type 0 where
    pub ordered : Ordered tasks m.visited
    pub counted : fresh m.visited tasks + length m.visited ≤ length tasks

  -- What a visit that returns without an error does to the marks.
  pub record Extends (m m' : Marks) : Type 0 where
    pub sound : IsSound m'
    pub visiting_eq : m'.visiting ≡ m.visiting
    pub keeps : (x : Bytes) → contains m.visited x ≡ true → contains m'.visited x ≡ true
    pub apart :
        (x : Bytes)
        → contains m.visiting x ≡ true
        → contains m.visited x ≡ false
        → contains m'.visited x ≡ false

  Extends-refl : (m : Marks) → IsSound m → Extends m m
  Extends-refl m s = record { sound = s; visiting_eq = refl; keeps = λ x h. h; apart = λ x h g. g }

  Extends-trans : {a b c : Marks} → Extends a b → Extends b c → Extends a c
  Extends-trans p q = record {
    sound = q.sound;
    visiting_eq = q.visiting_eq ∙ p.visiting_eq;
    keeps = λ x h. q.keeps x (p.keeps x h);
    apart =
        λ x h g. q.apart x (subst (λ v. contains v x ≡ true) (sym p.visiting_eq) h) (p.apart x h g);
  }

  -- An outcome with what it says: marks that extend the first ones, or an error that is there.
  pub data Says (m : Marks) (P : Marks → Type 0) : Outcome → Type 0 where
    fine : {m' : Marks} → Extends m m' → P m' → Says m P (valid m')
    missing :
        {parent n : Bytes}
        → Reaches tasks selected n
        → lookup n tasks ≡ none
        → Says m P (unknown_task parent n)
    circular :
        {c : List Bytes} {x : Bytes}
        → Reaches tasks selected x
        → Needs tasks x x
        → Says m P (cycle c)

  Says-after :
      (m m' : Marks) (P Q : Marks → Type 0) {o : Outcome}
      → Extends m m'
      → ((m'' : Marks) → Extends m' m'' → P m'' → Q m'')
      → Says m' P o
      → Says m Q o
  Says-after m m' P Q x f (fine {m' = m''} y p) = fine (Extends-trans x y) (f m'' y p)
  Says-after m m' P Q x f (missing r l) = missing r l
  Says-after m m' P Q x f (circular r p) = circular r p

  module _ (visit_dep : Bytes → Marks → Outcome) (above : Bytes → Type 0) (vis : List Bytes) where
    abbrev Visits : Type 0
    Visits =
        (d : Bytes) (m : Marks)
        → above d
        → IsSound m
        → m.visiting ≡ vis
        → Says m (λ m'. contains m'.visited d ≡ true) (visit_dep d m)

    Says-next :
        (deps : List Bytes) (d : Bytes) (m : Marks) {o : Outcome}
        → Says m (λ m'. contains m'.visited d ≡ true) o
        → ((m' : Marks)
            → Extends m m'
            → Says m'
                (λ m''. All (λ x. contains m''.visited x ≡ true) deps)
                (visit_all visit_dep deps m'))
        → Says m
            (λ m''. All (λ x. contains m''.visited x ≡ true) (d ∷ deps))
            (elim o [
              | valid m' ↦ visit_all visit_dep deps m'
              | unknown_task p n ↦ unknown_task p n
              | cycle c ↦ cycle c
              | out_of_fuel ↦ out_of_fuel
            ])
    Says-next deps d m (fine {m'} x c) rest =
        Says-after m m' _ _ x (λ m'' y a. (y.keeps d c, a)) (rest m' x)
    Says-next deps d m (missing r l) rest = missing r l
    Says-next deps d m (circular r p) rest = circular r p

    visit_all-Says :
        (deps : List Bytes) (m : Marks)
        → Visits
        → All above deps
        → IsSound m
        → m.visiting ≡ vis
        → Says m (λ m'. All (λ x. contains m'.visited x ≡ true) deps) (visit_all visit_dep deps m)
    unfolding visit_all
    visit_all-Says [] m v a s e = fine (Extends-refl m s) tt
    visit_all-Says (d ∷ deps) m v (p, a) s e =
        Says-next deps d m (v d m p s e)
          (λ m' x. visit_all-Says deps m' v a x.sound (x.visiting_eq ∙ e))

  -- What is known where a task is visited.
  pub record Enters (name : Bytes) (m : Marks) : Type 0 where
    pub sound : IsSound m
    pub reached : Reaches tasks selected name
    pub above : (x : Bytes) → contains m.visiting x ≡ true → Needs tasks x name

  finish-Extends :
      (name : Bytes) (m m' : Marks) {t : Task}
      → lookup name tasks ≡ some t
      → contains m.visiting name ≡ false
      → contains m.visited name ≡ false
      → Extends (record m { visiting = name ∷ m.visiting }) m'
      → All (λ x. contains m'.visited x ≡ true) t.depends_on
      → Extends m (record { visiting = unmark name m'.visiting; visited = name ∷ m'.visited })
  finish-Extends name m m' {t} l new first x all = record {
    sound = record {
      ordered = ((t, l, all), x.sound.ordered);
      counted = omega (arith, fresh-mark name m'.visited tasks l old, x.sound.counted);
    };
    visiting_eq = ap (unmark name) x.visiting_eq ∙ unmark-mark name m.visiting new;
    keeps = λ y h. contains_there name y m'.visited (x.keeps y h);
    apart = λ y h g. unlisted y h (x.apart y (contains_there name y m.visiting h) g);
  }
    where
      old : contains m'.visited name ≡ false
      old = x.apart name (contains_here name m.visiting) first

      unlisted :
          (y : Bytes)
          → contains m.visiting y ≡ true
          → contains m'.visited y ≡ false
          → contains (name ∷ m'.visited) y ≡ false
      unlisted y h g = elim (Bool-cases (contains (name ∷ m'.visited) y)) [
        | inr n ↦ n
        | inl c ↦ elim (contains-cons name y m'.visited c) [ inl e ↦ cc (rw e at new) | inr k ↦ cc ]
      ]

  finish-Says :
      (name : Bytes) (m : Marks) {t : Task} {o : Outcome}
      → lookup name tasks ≡ some t
      → contains m.visiting name ≡ false
      → contains m.visited name ≡ false
      → Says
          (record m { visiting = name ∷ m.visiting })
          (λ m'. All (λ x. contains m'.visited x ≡ true) t.depends_on)
          o
      → Says m (λ m'. contains m'.visited name ≡ true) (finish name o)
  finish-Says name m l new first (fine {m'} x all) =
      fine (finish-Extends name m m' l new first x all) (contains_here name m'.visited)
  finish-Says name m l new first (missing r n) = missing r n
  finish-Says name m l new first (circular r p) = circular r p

  -- A task that is reached, and that all tasks being visited depend on.
  abbrev Above : List Bytes → Bytes → Type 0
  Above vis d = Reaches tasks selected d × ((x : Bytes) → contains vis x ≡ true → Needs tasks x d)

  Above-deps :
      (name : Bytes) (m : Marks) {t : Task}
      → Enters name m
      → lookup name tasks ≡ some t
      → All (Above (name ∷ m.visiting)) t.depends_on
  Above-deps name m {t} e l = All-contains (Above (name ∷ m.visiting)) t.depends_on λ d h. (
    Reaches-onward tasks selected name d e.reached l h,
    λ x c. elim (contains-cons name x m.visiting c) [
      | inl q ↦ direct (ap (λ y. lookup y tasks) (sym q) ∙ l) h
      | inr k ↦ onward (e.above x k) l h
    ],
  )

  pub visit-Says :
      (fuel : ℕ) (stack : List Bytes) (name : Bytes) (m : Marks)
      → fresh m.visiting tasks < fuel
      → Enters name m
      → Says m (λ m'. contains m'.visited name ≡ true) (visit tasks selected fuel stack name m)
  unfolding visit
  visit-Says zero stack name m f e = absurd (omega arith)
  visit-Says (suc fuel) stack name m f e = elim (Option-cases (lookup name tasks)) [
    | inl l ↦ rw (l, visit) (missing e.reached l)
    | inr (t, l) ↦ elim (Bool-cases (contains m.visiting name)) [
      | inl c ↦ rw (l, c, visit) (circular e.reached (e.above name c))
      | inr c ↦ elim (Bool-cases (contains m.visited name)) [
        | inl d ↦ rw (l, c, d, visit) (fine (Extends-refl m e.sound) d)
        | inr d ↦
            rw (l, c, d, visit)
              (finish-Says name m l c d (
                visit_all-Says (visit tasks selected fuel (stack ++ name ∷ []))
                  (Above (name ∷ m.visiting)) (name ∷ m.visiting) t.depends_on
                  (record m { visiting = name ∷ m.visiting })
                  (λ y m' a s q.
                    visit-Says fuel (stack ++ name ∷ []) y m'
                      (subst (λ v. fresh v tasks < fuel) (sym q)
                        (next (fresh-mark name m.visiting tasks l c) f))
                      (record {
                        sound = s;
                        reached = a.0;
                        above = λ x h. a.1 x (subst (λ v. contains v x ≡ true) q h);
                      }))
                  (Above-deps name m e l)
                  (record { ordered = e.sound.ordered; counted = e.sound.counted }) refl))
      ]
    ]
  ]
    where
      next : {a b c : ℕ} → a < b → b < suc c → a < c
      next p q = omega arith

-- ===== src/Tasks/Command/Args.antt =====
-- What `parseTaskArgs` makes of the arguments before and behind `--`.
use tya.Prelude.{
  Bool, true, false, ◌||◌, List, [], ◌∷◌, ◌++◌, ◌≡◌, refl, sym, ap, ◌∙◌, inl, inr, Bool-cases,
  Bytes, codes, append-nil, append_assoc,
}
use tya.Text.{bytes_eq}
use tya.Dict.{contains}
use tya.Tasks.Graph.{unmark}
use tya.Tasks.Command.{TaskArgs, parse_from, parse_task_args}

abbrev pub dashes : Bytes
dashes = codes "--"

abbrev pub watch_flag : Bytes
watch_flag = codes "--watch"

abbrev args_of : List Bytes → Bool → TaskArgs
args_of extra watch = record { extra = extra; watch = watch }

parse_from-pass :
    (watch : Bool) (extra args : List Bytes)
    → parse_from true watch extra args ≡ record { extra = extra ++ args; watch = watch }
unfolding parse_from
parse_from-pass watch extra [] = ap (λ l. args_of l watch) (sym (append-nil extra))
parse_from-pass watch extra (a ∷ args) =
    parse_from-pass watch (extra ++ a ∷ []) args
    ∙ ap (λ l. args_of l watch) (append_assoc extra (a ∷ []) args)

or_true : (w x : Bool) → ((w || true) || x) ≡ (w || true)
or_true true x = refl
or_true false x = refl

or_false : (w x : Bool) → ((w || false) || x) ≡ (w || x)
or_false true x = refl
or_false false x = refl

parse_from-split :
    (watch : Bool) (extra front back : List Bytes)
    → contains front dashes ≡ false
    → parse_from false watch extra (front ++ (dashes ∷ back))
      ≡ args_of (extra ++ (unmark watch_flag front ++ back)) (watch || contains front watch_flag)
unfolding parse_from contains unmark
parse_from-split watch extra [] back h = parse_from-pass (watch || false) extra back
parse_from-split watch extra (a ∷ front) back h = elim (Bool-cases (bytes_eq a dashes)) [
  | inl e ↦ cc (rw e at h)
  | inr e ↦ elim (Bool-cases (bytes_eq a watch_flag)) [
    | inl f ↦
        rw (e, f, parse_from, unmark, contains)
          (parse_from-split (watch || true) extra front back (rw e at h)
            ∙ ap (args_of (extra ++ (unmark watch_flag front ++ back)))
                (or_true watch (contains front watch_flag)))
    | inr f ↦
        rw (e, f, parse_from, unmark, contains)
          (parse_from-split (watch || false) (extra ++ a ∷ []) front back (rw e at h)
            ∙ ap (args_of ((extra ++ a ∷ []) ++ (unmark watch_flag front ++ back)))
                (or_false watch (contains front watch_flag))
            ∙ ap (λ l. args_of l (watch || contains front watch_flag))
                (append_assoc extra (a ∷ []) (unmark watch_flag front ++ back)))
  ]
]

-- With a first `--` between them, the arguments in front of it are the extra ones but for each
-- `--watch`, which asks for watching, and all arguments behind it are extra ones as they are.
pub parse_task_args-split :
    (front back : List Bytes)
    → contains front dashes ≡ false
    → parse_task_args (front ++ (dashes ∷ back))
      ≡ record { extra = unmark watch_flag front ++ back; watch = contains front watch_flag }
unfolding parse_task_args
parse_task_args-split front back h = parse_from-split false [] front back h

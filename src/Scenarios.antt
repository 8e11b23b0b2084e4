-- ===== src/Scenarios.antt =====
-- Concrete tasks, documents, packages and profiles, and what the theorems say of them.
use mathlib.Core.List.{Perm}
use tya.Sorting.{Sorted}
use tya.Prelude.{
  pos, ℕ, suc, ◌==◌, if◌then◌else◌, map, Bool, true, false, List, [], ◌∷◌, ◌++◌, Option, some, none,
  ◌≡◌, refl, subst, arith, Bytes, codes, All,
}
use tya.Text.{bytes_eq}
use tya.Dict.{contains}
use tya.Tasks.Graph.{TaskMap, valid, validate_task_graph, task, unmark}
use tya.Tasks.Graph.Verdict.{Verdict, validate_task_graph-Verdict}
use tya.Tasks.Shell.{Exit, success, exited, Status, join_shell_args, full_command, run_parallel}
use tya.Tasks.Shell.Quoting.{shell_words, shell_words-join_shell_args}
use tya.Tasks.Shell.Parallel.{outcome, run_parallel-outcome}
use tya.Tasks.Run.{State, plain_shell, no_spawn}
use tya.Tasks.Run.Ends.{Returns, run_task_graph-Returns}
use tya.Tasks.Command.{parse_task_args, task_command}
use tya.Tasks.Command.Ends.{Ended, task_command-Ended}
use tya.Tasks.Command.Args.{dashes, watch_flag, parse_task_args-split}
use tya.Token.{ident, assign, int, newline, eof}
use tya.Lexer.State.{plain_token}
use tya.Lexer.Suppress.{Lexed, lex_with_comments}
use tya.Lsp.SemanticTokens.{Symbol, events_of, semantic_tokens_for, stands_before}
use tya.Lsp.SemanticTokens.Delta.{decode, Fits, semantic_tokens_for-decode}
use tya.Lsp.Document.{Url, Message, did_open, did_change, did_save, get, handle_all}
use tya.Lsp.Document.Sync.{
  Edit, changes_of, Copy, Talks, silent, elsewhere, opens, edits, saves, Agrees, both_closed,
  handle_all-Agrees,
}
use tya.Cover.Path.{encode_path, decode_path}
use tya.Cover.Path.RoundTrip.{decode_path-encode_path}
use tya.Cover.Profile.{Profile, has_id, find, IsMap}
use tya.Cover.Merge.{merge}
use tya.Cover.Merge.Sums.{Merged, merge-Merged}
use tya.Cover.Summary.{summarize, total}
use tya.Cover.Summary.Count.{counts, total-summarize}
use tya.Cover.Filter.{FilterOptions, filter, plain_paths}
use tya.Cover.Filter.Rows.{IsProfile, rows, keep_rows}
use tya.Cover.Filter.Kept.{filter-rows}
use tya.Pkg.Lockfile.{path, Dependency, Manifest}
use tya.Pkg.Resolve.{Outside, resolve}
use tya.Pkg.Resolve.Visit.{Universe}
use tya.Pkg.Resolve.Complete.{Settled, resolve-Settled}

-- A task with two others below it, one of them twice.
abbrev build : TaskMap
build =
    task (codes "a") (codes "b" ∷ codes "c" ∷ [])
    ∷ task (codes "b") (codes "c" ∷ [])
    ∷ task (codes "c") []
    ∷ []

validate_task_graph-Verdict_example :
    Verdict build (codes "a") (validate_task_graph build (codes "a"))
validate_task_graph-Verdict_example = validate_task_graph-Verdict build (codes "a")

build_marks :
    validate_task_graph build (codes "a")
    ≡ valid (record { visiting = []; visited = codes "a" ∷ codes "b" ∷ codes "c" ∷ [] })
unfolding validate_task_graph
build_marks = refl

run_task_graph-Returns_example :
    (s : Status) × (st : State ℕ) × Returns plain_shell no_spawn build (codes "a") [] 0 s st
run_task_graph-Returns_example =
    run_task_graph-Returns plain_shell no_spawn build (codes "a") [] 0 build_marks

-- Every pattern is taken.
abbrev any_pattern : Bytes → Bool
any_pattern p = true

task_command-Ended_example :
    Ended plain_shell no_spawn any_pattern build
      (task_command plain_shell no_spawn any_pattern build (codes "b" ∷ []) 0)
task_command-Ended_example =
    task_command-Ended plain_shell no_spawn any_pattern build (codes "b" ∷ []) 0

shell_words-join_shell_args_example :
    shell_words (join_shell_args (codes "it's" ∷ codes "$a;b" ∷ []))
    ≡ some (codes "it's" ∷ codes "$a;b" ∷ [])
shell_words-join_shell_args_example =
    shell_words-join_shell_args (codes "it's" ∷ codes "$a;b" ∷ []) (
      (ground arith, (ground arith, (ground arith, (ground arith, tt)))),
      ((ground arith, (ground arith, (ground arith, (ground arith, tt)))), tt),
    )

-- Three commands that end with 0, 3 and 2.
abbrev spawn_ends : ℕ → List Bytes → List (Bytes × Bytes) → (ℕ → Exit) × ℕ
spawn_ends n commands env =
    (λ i. if i == 0 then success else if i == 1 then exited (pos 3) else exited (pos 2), suc n)

abbrev three : List Bytes
three = codes "a" ∷ codes "b" ∷ codes "c" ∷ []

run_parallel-outcome_example :
    (let started = spawn_ends 0 (map (λ c. full_command c (codes "x" ∷ [])) three) [] in
      (run_parallel plain_shell spawn_ends three (codes "x" ∷ []) [] 0).0 ≡ outcome started.0 three
      × ((run_parallel plain_shell spawn_ends three (codes "x" ∷ []) [] 0).1 ≡ started.1))
run_parallel-outcome_example =
    run_parallel-outcome plain_shell spawn_ends three (codes "x" ∷ []) [] 0

parse_task_args-split_example :
    parse_task_args ((watch_flag ∷ codes "x" ∷ []) ++ (dashes ∷ watch_flag ∷ [])) ≡ record {
      extra = unmark watch_flag (watch_flag ∷ codes "x" ∷ []) ++ watch_flag ∷ [];
      watch = contains (watch_flag ∷ codes "x" ∷ []) watch_flag;
    }
parse_task_args-split_example =
    parse_task_args-split (watch_flag ∷ codes "x" ∷ []) (watch_flag ∷ [])
      (unfold contains bytes_eq in refl)

abbrev no_symbols : Bytes → Option Symbol
no_symbols name = none

abbrev line : Bytes
line = codes "x = 1 # one\n"

abbrev line_lexed : Lexed
line_lexed = record {
  tokens =
      plain_token ident (codes "x") 1 1
      ∷ plain_token assign (codes "=") 1 3
      ∷ plain_token int (codes "1") 1 5
      ∷ plain_token newline [] 1 12
      ∷ plain_token eof [] 2 1
      ∷ [];
  comments =
      record { line = 1; col = 7; text = codes " one"; indent = 0; is_full_line = false } ∷ [];
  errs = [];
}

line_lex : lex_with_comments line ≡ some line_lexed
unfolding lex_with_comments
line_lex = refl

line_Fits : All Fits (events_of no_symbols line_lexed.tokens line_lexed.comments)
unfolding events_of
line_Fits = ground arith

semantic_tokens_for-decode_example :
    (ns : List ℕ) × (semantic_tokens_for no_symbols line ≡ some ns)
    × Perm (decode 0 0 ns) (events_of no_symbols line_lexed.tokens line_lexed.comments)
    × Sorted stands_before (decode 0 0 ns)
semantic_tokens_for-decode_example = semantic_tokens_for-decode no_symbols line line_lex line_Fits

abbrev uri : Bytes
uri = codes "file:///a.tya"

abbrev other_uri : Bytes
other_uri = codes "file:///b.tya"

abbrev typed : Edit
typed = record { from = 1; to = 4; new = codes "X" }

-- A document is opened and edited, with a message about another one in between.
abbrev course : List (Bytes × Message)
course =
    (uri, did_open (pos 1) (codes "ab\ncd"))
    ∷ (other_uri, did_save none)
    ∷ (uri, did_change (pos 2) (changes_of (codes "ab\ncd") (typed ∷ [])))
    ∷ (uri, did_save none)
    ∷ []

abbrev edited : Copy
edited = record { version = pos 2; text = codes "aXd" }

course-Talks : Talks uri none course (some edited)
unfolding bytes_eq
course-Talks =
    opens (elsewhere refl (edits (typed ∷ []) refl (omega arith, omega arith, tt) (saves silent)))

-- Every URI is that of a file.
abbrev plain_url : Bytes → Option Url
plain_url u = some (record { scheme = codes "file"; path = u })

abbrev same_slash : Bytes → Bytes
same_slash p = p

handle_all-Agrees_example :
    Agrees uri (get uri (handle_all plain_url false same_slash course [])) (some edited)
handle_all-Agrees_example =
    handle_all-Agrees plain_url false same_slash [] course-Talks (unfold get in both_closed)

abbrev dependency : Bytes → Dependency
dependency name = record {
  name = name;
  constraint = record { terms = []; raw = [] };
  source = path;
  git = [];
  tag = [];
  branch = [];
  rev = [];
  path_ref = name;
}

-- A manifest that needs two packages; theirs need the same two.
abbrev manifest : Manifest
manifest = record {
  version = record { major = 1; minor = 0; patch = 0; raw = [] };
  deps = (codes "b", dependency (codes "b")) ∷ (codes "a", dependency (codes "a")) ∷ [];
  dev_deps = [];
  dep_order = codes "b" ∷ codes "a" ∷ [];
  dev_order = [];
}

abbrev disk : Outside
disk = record {
  is_abs = λ p. false;
  join = λ p q. p ++ (b'/' ∷ q);
  read_manifest = λ p. some manifest;
  fetch_git = λ name url ref. none;
  tree_checksum = λ p. none;
}

abbrev mentioned : List Bytes
mentioned = codes "a" ∷ codes "b" ∷ []

manifest-known : All (λ x. contains mentioned x ≡ true) manifest.dep_order
unfolding contains bytes_eq
manifest-known = (refl, (refl, tt))

disk-Universe : Universe disk [] mentioned
disk-Universe place sub h =
    subst (λ (m : Manifest). All (λ x. contains mentioned x ≡ true) m.dep_order) (same h)
      manifest-known
  where
    same : {a b : Manifest} → some a ≡ some b → a ≡ b
    same q = cc

resolve-Settled_example : Settled manifest (resolve disk [] 3 manifest)
resolve-Settled_example =
    resolve-Settled disk [] mentioned 3 manifest disk-Universe manifest-known tt (omega arith)

decode_path-encode_path_example :
    decode_path (encode_path (codes "my src/100%.tya")) ≡ codes "my src/100%.tya"
decode_path-encode_path_example = decode_path-encode_path (codes "my src/100%.tya")

-- Two files, and a statement in each.
abbrev covered : Profile
covered = record {
  files = record { id = 7; path = codes "a" } ∷ record { id = 8; path = codes "b" } ∷ [];
  stmts =
      record { id = 4; file_id = 7; line = 1; col = 1 }
      ∷ record { id = 5; file_id = 8; line = 2; col = 3 }
      ∷ [];
  hits = (5, 6) ∷ (4, 1) ∷ [];
}

covered-IsMap : IsMap covered.hits
unfolding has_id
covered-IsMap = (omega arith, refl, (omega arith, refl, tt))

covered-IsProfile : IsProfile covered
unfolding find
covered-IsProfile = record {
  files_distinct = (refl, (refl, tt));
  stmts_distinct = (refl, (refl, tt));
  hits_map = covered-IsMap;
}

merge-Merged_example : Merged covered covered (merge covered covered)
merge-Merged_example = merge-Merged covered covered covered-IsMap covered-IsMap

abbrev without_a : FilterOptions
without_a = record { include = []; exclude = codes "a" ∷ [] }

filter-rows_example :
    rows (filter plain_paths without_a covered) ≡ keep_rows plain_paths without_a (rows covered)
filter-rows_example = filter-rows plain_paths without_a covered covered-IsProfile

total-summarize_example :
    total (summarize covered) ≡ counts covered.files covered.hits covered.stmts
total-summarize_example = total-summarize covered

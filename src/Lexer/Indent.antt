-- ===== src/Lexer/Indent.antt =====
-- internal/lexer/lexer.go: `handleIndent` and the stack of indentations.
use tya.Prelude.{ℕ, ◌+◌, List, [], ◌∷◌, Option, none, some, ltb, ◌==◌, if◌then◌else◌}
use tya.Token.{indent, dedent}
use tya.Lexer.State.{Lexer, tya_e0004, tya_e0005, add, diag_err}

-- The loop that pops the stack, and the test behind it. Reading the top of an empty stack panics:
-- `none`.
unfoldable pub dedent_to : (n line : ℕ) → List ℕ → Lexer → Option Lexer
dedent_to n line [] l = none
dedent_to n line (cur ∷ below) l =
    let popped = dedent_to n line below (add dedent [] line 1 l) in
    let kept = record l { ind = cur ∷ below } in
    if ltb n cur then popped else some (if n == cur then kept else diag_err tya_e0004 line 1 1 kept)

-- The branch that opens a block.
unfoldable pub indent_to : (n cur line : ℕ) → Lexer → Lexer
indent_to n cur line l =
    let reported = if n == cur + 2 then l else diag_err tya_e0005 line 1 1 l in
    add indent [] line 1 (record reported { ind = n ∷ reported.ind })

unfoldable pub handle_indent : (n line : ℕ) → Lexer → Option Lexer
unfolding dedent_to indent_to
handle_indent n line l = elim l.ind [
  | [] ↦ none
  | cur ∷ below ↦
      if ltb cur n then some (indent_to n cur line l) else dedent_to n line (cur ∷ below) l
]

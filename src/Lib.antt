-- ===== src/Lib.antt =====
-- A model of parts of the Tya compiler: the lexer, the parser and the formatter of expressions,
-- string interpolation, the edit distance behind its suggestions, the versions, the lockfile and
-- the resolver of its package manager, the task runner, coverage profiles, and the documents, edits
-- and semantic tokens of its language server. Bytes are natural numbers and a Go string is a list
-- of them.
--
-- The parts, and how they work together:
--   Token              internal/token/token.go
--   Interp             internal/interp/interp.go: where an interpolation `{…}` in a string ends
--   Lexer              internal/lexer/lexer.go
--     State            `Lexer`, `Comment`, `add`, `addString`, `diagErr`
--     Bytes            `isIdentChar`, `isAlpha`, `isDigit`, `hexDigit`, `isLanguageTag`,
--                      `isHeredocMarker`
--     Comment          `splitComment`, `stripComment`
--     Indent           `handleIndent`
--     Open             `findStringOpen`, `classifyStringPrefix`
--     Escape           `interpretBytesEscapes`, `interpretEscapes`,
--                      `interpretSingleQuotedEscapes`, `encodeRawString`
--     Number, Quoted   the numbers and the quoted literals of `lexLine`
--     Line             `lexLine`
--     Multi            `lexLineWithLines`, `lexHeredoc`
--     Source           `lex`
--     Suppress         `suppressBracketNewlines`, `isContinuationOp`, `LexWithComments`
--   Ast                internal/ast/ast.go: expressions
--   Parser             internal/parser: expressions
--     State            parser.go: the place in the tokens, errors, names
--     Classify         classify.go: `classifyParserCode`
--     Recovery         recovery.go: `skipToCommaOrClose`, `skipBalanced`
--     Levels           parser.go: `nilCoalesce` down to `factor`
--     Function         parser.go: `expr`, `exprLine`, `finishFunc`, `startsFunctionParams`,
--                      `startsParenFunctionParams`, `functionParams`, `parenFunctionParams`
--     Call             parser.go: `call`, `keywordArgBlock`
--     Primary          parser.go: `primary`, `unary`, `curlyLiteral`, `dictLiteral`
--   Formatter.Unparse  internal/formatter/unparse.go: `expr` and what it calls; it writes what the
--                      parser reads, by way of the lexer
--   Eval.Interpolate   internal/eval/value.go: `interpolate`, which reads the lexemes of the lexer
--   Util.Distance      internal/util/strdist.go: `Levenshtein`, `min3`
--   Util.Suggest       internal/util/strdist.go: `Suggest`
--   Pkg.Version        internal/pkg/semver.go: `ParseVersion`, `Compare`
--   Pkg.Constraint     internal/pkg/semver.go: `ParseConstraint`, `parseTerm`, `Satisfies`
--   Pkg.Lockfile       internal/pkg/lockfile.go: `FindPackage`, `SatisfiesManifest`, and the records
--                      of internal/pkg/manifest.go
--   Pkg.Resolve        internal/pkg/manager.go: `resolve`
--   Tasks              cmd/tya/task.go
--     Graph            `validateTaskGraph`
--     Shell            `runTask`, `runShell`, `runParallel`, `joinShellArgs`, `shellQuote`
--     Run              `runTaskGraph`, `runTaskWithDeps`
--     Command          `taskCommand`, `parseTaskArgs`, `validateWatchPatterns`
--   Cover              internal/cover/cover.go
--     Path             `encodePath`, `decodePath`
--     Profile          `Profile`, `File`, `Stmt`, `New`
--     Merge            `Merge`
--     Filter           `Filter`, `filterPath`, `globMatch`, `normalizePath`
--     Summary          `Summarize`, `Total`
--   Lsp.Document       internal/lsp/document.go: the store of open documents, which applies the
--                      changes of Lsp.Incremental; internal/lsp/uri.go: `URIToPath`
--   Lsp.SemanticTokens internal/lsp/semantic_tokens.go, which classifies the tokens of the lexer
--   Lsp.Incremental    internal/lsp/incremental.go: `ApplyChange`, `positionToOffset`,
--                      `offsetToPosition`
--   Dict               Go maps with text keys; internal/pkg/toml.go: `contains`
--   Sorting            `sort.SliceStable`
--   Text               the functions of Go's strings package that these files call
--   Prelude            tests, lists and library names that all modules share
--   Samples, Scenarios concrete inputs
--
-- The lexer's state is passed on explicitly: each method takes a `Lexer` and gives the next one.
-- Its stack `l.ind` has the top first; its panic on an empty stack is `none`. A loop over a text
-- that moves its index past several bytes is a recursion on the text with a count of bytes to skip,
-- so that every loop is structural, but those named here. `strconv.FormatInt` divides by ten at
-- most nineteen times, which is enough below 2 ^ 63. `validateTaskGraph` has one more step of fuel
-- than there are tasks, since each nested call marks another one; `runTaskGraph` has as many as
-- there are tasks, since a path of dependencies repeats none. `resolve` takes its fuel as an
-- argument: more than there are names is enough, since each nested call resolves another one. The
-- parser's `unary` has two more steps than there are tokens behind the first, since each nested
-- call stands behind another token, and its loops and `exprWithCommaFunc` have one for each token
-- that is left; the counters of recovery are those of the source. Errors are values: a diagnostic
-- of the lexer carries its code, place and length, without its prose, and one of the parser its
-- code, message and token.
--
-- A Go map is a list of entries of which the first with a key counts, or in Cover.Filter the last;
-- a map to `true` is the list of its keys. The code behind these parts is passed in as functions:
-- what the shell makes of a command and of commands that run at once, with the world that it
-- leaves; whether `filepath.Match` takes a pattern; `path.Match`, `path.IsAbs` and
-- `filepath.Clean`; `url.Parse` and `filepath.FromSlash`; the index of symbols; what reads the
-- statements in a function's body and behind `if`, `while`, `for` and `match`,
-- `strconv.ParseFloat`, `strconv.Quote`, the text of a float and of a triple-quoted string, and
-- whether a name is a class name; the manifest at a path, the checkout of a repository and the
-- checksum of a tree. The lock of the document store makes each of its operations one step, so that
-- a course of messages is a list. The parser's place is the token that it stands at with those
-- behind it, and what a method returns comes with the parser that it leaves, also after an error; the
-- text of the formatter is put together from pieces: blanks, words and signs, for which the tokens
-- of the expression are noted beside their text, and texts of which nothing is noted.
--
-- Numbers: a version's parts are Go's 64-bit ints, written out where they are increased and
-- compared, and so are the counts of a coverage profile, as the number of their bits. Lines,
-- columns and offsets are unbounded, since each is bounded by the length of a text in memory; a
-- position that a client sends may be negative.
--
-- Not modelled: the evaluator that `interpolate` calls on an expression is a parameter, a function
-- that may fail; the statements of the parser and of the formatter, the formatter's names inside a
-- class body, the checker, the code generator, the runner and the other packages are not part of
-- the model. Of the task runner, the printed list, the environment of the shell, the loop that
-- watches files and the prefixes of output are left out; of the package manager, the reading and
-- writing of TOML and all that copies files; of the coverage profiles, their text, the rates and
-- the reports; `findTripleQuote`, `lineCount` and `PathToURI` have no caller among the modelled
-- code, and the `String` methods of versions and constraints are left out.
mod Prelude
mod Samples
mod Scenarios
pub mod Text
pub mod Token
pub mod Interp
pub mod Lexer
pub mod Eval
pub mod Util
pub mod Pkg
pub mod Lsp
pub mod Dict
pub mod Tasks
pub mod Sorting
pub mod Cover
pub mod Ast
pub mod Parser
pub mod Formatter

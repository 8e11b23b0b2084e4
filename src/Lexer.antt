-- ===== src/Lexer.antt =====
-- internal/lexer/lexer.go, in the order of its passes: a line of source loses its comment (Comment),
-- moves the indentation stack (Indent), is searched for the opening of a string that may run over
-- several lines (Open, Multi), and is read token by token (Line, with Number, Quoted and Escape).
-- Source runs the passes over all lines, and Suppress is the filter over the finished stream.
pub mod State
pub mod Adds
pub mod Bytes
pub mod Escape
pub mod Number
pub mod Quoted
pub mod Line
pub mod Comment
pub mod Indent
pub mod Open
pub mod Multi
pub mod Source
pub mod Suppress

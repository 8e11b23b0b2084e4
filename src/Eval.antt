-- ===== src/Eval.antt =====
-- internal/eval, the interpreter: so far its string interpolation.
pub mod Interpolate

-- ===== src/Cover.antt =====
-- internal/cover: coverage profiles.
pub mod Path
pub mod Profile
pub mod Merge
pub mod Filter
pub mod Summary

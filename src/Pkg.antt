-- ===== src/Pkg.antt =====
-- internal/pkg, the package manager: versions and constraints on them.
pub mod Version
pub mod Constraint
pub mod Lockfile
pub mod Resolve

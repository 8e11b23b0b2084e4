-- ===== src/Util.antt =====
-- internal/util: helpers of the diagnostics.
pub mod Distance
pub mod Suggest

-- ===== src/Tune.antt =====
-- The tuning dashboard (crates/pid-ctl/src/tune).
pub mod Distance
pub mod Model
pub mod Suggest

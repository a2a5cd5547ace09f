-- ===== src/Adapters.antt =====
-- crates/pid-ctl/src/adapters: where outputs go and measurements come from.
pub mod Command
pub mod Process
pub mod Readers
pub mod Writers
pub mod Build
pub mod Ends

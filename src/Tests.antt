-- ===== src/Tests.antt =====
-- The model run on concrete inputs, at the numbers of Float/Fixed.
pub mod Fixtures
pub mod Control
pub mod Storage
pub mod LoopRuns
pub mod Sessions
pub mod Loops
pub mod Replays
pub mod Commands
pub mod Dashboard
pub mod CommandLine
pub mod Outside
pub mod OnceRun
pub mod PipeRun
pub mod AutotuneRun

-- ===== src/App.antt =====
-- crates/pid-ctl/src/app: the controller session, its persistence, and the shared tick.
pub mod Snapshot
pub mod StateStore
pub mod Persister
pub mod Records
pub mod Session
pub mod Events
pub mod LoopRuntime
pub mod Ticker
pub mod SocketDispatch

-- ===== src/Cmd.antt =====
-- crates/pid-ctl/src/cmd: the subcommands.
pub mod Loop
pub mod Replay
pub mod Once
pub mod Pipe
pub mod Autotune
pub mod State

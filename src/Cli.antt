-- ===== src/Cli.antt =====
-- crates/pid-ctl/src/cli: from the command line to the arguments of a command.
pub mod Outcome
pub mod Raw
pub mod Sources
pub mod Args
pub mod Parse
pub mod Commands

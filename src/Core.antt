-- ===== src/Core.antt =====
-- crates/pid-ctl-core/src/lib.rs: the control semantics, with no I/O. `Config` has the configuration
-- and its validation, `Controller` the state and `step`; the other children prove things about them.
pub mod Config
pub mod Controller
pub mod Inversion
pub mod Limits
pub mod Ramp
pub mod Derivative
pub mod Windup
pub mod Returns
pub mod Restart

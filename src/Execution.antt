-- ===== src/Execution.antt =====
-- rust/lossfunction/src/execution/mod.rs: the order lifecycle.
pub mod StateMachine
pub mod Gateway
pub mod Vwap

-- ===== src/Lifecycle.antt =====
-- agent/src/main.rs: the lifecycle of an extension. Each child models some of its functions, over
-- the `State` that the operation holds, and the properties stand in the modules below them.
pub mod Frame
pub mod Ending
pub mod Marks
pub mod Recover
pub mod Adopt
pub mod Gate
pub mod Removal
pub mod Reconcile
pub mod Activate

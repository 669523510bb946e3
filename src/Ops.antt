-- ===== src/Ops.antt =====
-- agent/src/ops.rs: fetching, staging and placing images of extensions, and staging a base image.
pub mod Revision
pub mod Space
pub mod Place
pub mod Acquire
pub mod Supply
pub mod Base
pub mod Ends
pub mod BaseEnds
pub mod Apart
pub mod Keeps
pub mod Running
pub mod Untouched
pub mod Verified

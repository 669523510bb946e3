-- ===== src/System.antt =====
-- agent/src/system.rs: image slots and the systemd interactions the agent needs. Each child models
-- one part, and `Durable`, `Prune` and `Slots` have their theorems in modules below them.
pub mod Slots
pub mod Durable
pub mod Prune
pub mod Space
pub mod Command
pub mod Release
pub mod Units
pub mod Total
pub mod Queries
pub mod Journal
pub mod Base

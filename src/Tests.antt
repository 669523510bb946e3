-- ===== src/Tests.antt =====
-- Concrete runs of the agent's operations, and a host to run them on.
mod Codec
mod Hosts
mod Runs
mod Reconciling
mod Requests
mod Staging
mod Witnesses

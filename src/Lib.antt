-- ===== src/Lib.antt =====
-- The CarbideOS node agent: what it keeps on disk, how it replaces the images of a node's extensions,
-- and how it goes back when one does not work.
--
-- The program. The agent (agent/src) runs on every node. It keeps a state file with one entry for each
-- extension (state.rs), and image files in /var/lib/extensions: the image that systemd merges, a copy of
-- the last image that was known to work, and a staged candidate (system.rs). `activate_extension` in
-- main.rs replaces the merged image by the candidate, proves it under the ruleset that comes with it
-- (config.rs), and commits or reverts with `recover`; `health_gate` and `reconcile_state` do the same at
-- boot, and `remove_extension` takes an extension away. ops.rs fetches images or takes those it is given,
-- checks them and puts them in place, and stages a base image once every extension has an image for it.
-- All of this is reached over a socket (api.rs, with the replies of protocol.rs) and from the command line
-- (`main` in main.rs); the agent's processes exclude each other by a lock file (`OperationLock` in state.rs).
--
-- The model. `Host` is everything outside of the repository: which calls fail and when, other programs
-- and what they do to the files, the clock, children, what a read sees, the printed forms of serde_json.
-- Each answer depends on the moment, a count of the calls so far, so a statement over all hosts covers
-- every failure at every point. `World` is what a run changes: the files, the `State` in memory, the
-- moment, and the files as they stood before each change, which is what a crash at that point leaves.
-- `Act` is an operation that returns, fails with an error of its own type, or halts, by a panic, at a
-- program that never returns, or because a waiting loop used up the host's fuel; what was changed before a
-- failure stays changed.
--
--   Text, Files, Host, Effects  the parts of the standard library that the agent calls
--   State, StateFile            agent/src/state.rs: entries, the history of requests, `load`, `store`
--   Config                      agent/src/config.rs: the parser and the checks of rulesets
--   Protocol                    agent/src/protocol.rs: failures, the tail of an error text; Reply, replies
--                               and the fields of requests
--   System                      agent/src/system.rs: Slots, the names of images; Durable, copies that
--                               survive a crash; Space; Prune; Command, other programs; Release, what
--                               images declare; Units, readiness, probes and the soak; Journal;
--                               Base, the base images that are running, offered and pending
--   Lifecycle                   agent/src/main.rs: Recover, Adopt (with `merged_version` of
--                               agent/src/ops.rs), Gate, Removal, Reconcile, Activate
--   Ops                         agent/src/ops.rs: Revision, `newest_for_base`; Space; Acquire; Supply;
--                               Place, `validate_and_place`; Base, `stage_base`
--   Lock                        agent/src/state.rs: `OperationLock` as an operation takes it, and `locked` of
--                               agent/src/main.rs; Machine, the processes that share the lock
--   Api                         agent/src/api.rs: the handlers, `dispatch`, and a connection from the line that
--                               was read to the reply
--   Cli                         agent/src/main.rs: the command line
--   Tests                       a host on which every call succeeds, and the theorems at concrete inputs
--
-- Proofs. Effects.Keeps has one rule for each way to build an operation, for invariants that hold
-- however the operation ends; Effects.Hoare has those for what holds when it returns. Effects.Invariant
-- fixes their shape: a property of the state in memory, one of the files as they stand, one of the
-- files as they stood before each change. Files.Keeps and Files.Hoare have the laws of the calls, and
-- Lifecycle.Frame what the operations on units and slots rely on: `Frame` for those that leave every
-- merged image alone, `Free` for those that replace images. Effects.Total and Effects.Endings have the
-- rules for operations that end, System.Total, System.Queries, Lifecycle.Ending and the modules called
-- Ends what they give for each part. Lifecycle.Reconcile.Steps, Quiet and Recovers have the rules for
-- the loops over the entries, of reconciliation and of the health gate. Lock.Machine is a step
-- relation, with one invariant by induction on what was reached.
--
-- Bounds. Numbers are natural; the parsers refuse what 64 bits, or 32 for the number of starts, do not
-- hold, and sums of sizes saturate at 64 bits as in the source. The three waiting loops run on the fuel
-- of the host; running out is an end of its own kind, and never one that counts as a success. Fuel of more
-- than 2^64 seconds in nanoseconds is enough for every loop, where the clock advances between calls.
--
-- Not modelled: the socket itself, its timeouts and the thread that serves each connection (`serve` in
-- api.rs), and how long a process waits for the lock. The installer, its user interface and its renderer,
-- scripts and unit files are left out. Messages on standard output are not kept, a path is a directory and a
-- name, and the order in which a directory is read is that of the table of files. A program that the agent
-- runs may block it for ever, `blocks` of the host; what such a program does later is not followed. That
-- a rename lasts only once its directory is flushed is not modelled: a rename that has happened stays,
-- and flushing a directory is a call that can fail and changes nothing. `Path::exists` is never wrong
-- about a file, and the creation of the lock file and its directory is no change of the files.
pub mod Prelude
pub mod Text
pub mod State
pub mod Host
pub mod Effects
pub mod Files
pub mod Config
pub mod System
pub mod StateFile
pub mod Protocol
pub mod Lifecycle
pub mod Ops
pub mod Lock
pub mod Api
pub mod Cli
pub mod Tests

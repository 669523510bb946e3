-- ===== src/Lifecycle/Activate.antt =====
-- `activate_extension` and `adopt` (agent/src/main.rs).
pub mod Keeps
pub mod Marking
pub mod Crash
pub mod Replay
pub mod Commit
pub mod Ends
use carbide_os.Prelude.{
  ℕ, Bool, true, false, not, ◌&&◌, ◌||◌, Option, none, some, List, [], ◌∷◌, ◌++◌, if◌then◌else◌,
  ltb,
}
use mathlib.Core.Option
use carbide_os.Text.{Text, txt}
use carbide_os.State.{
  State, ExtensionState, Phase, activating, starting, soaking, active, already_completed,
  record_completed,
}
use carbide_os.Host.{Host, World, FilePath, IoError, Result, ok, err}
use carbide_os.Effects.{
  Act, pure, raise, raise_with, get_host, get_world, attempt, ignore, on_error, skip, when, map_err,
  get_entry, modify_entry, set_held, ◌>>=◌, ◌>>◌,
}
use carbide_os.Files.{exists, file_len}
use carbide_os.Config.{Ruleset, ConfigError, config_message, load_named}
use carbide_os.StateFile.{load, store, stringly}
use carbide_os.Protocol.{Failure, Code, Stage, failure, at, with_log, with_unit}
use carbide_os.System.Slots.{scope, active_path, rollback_path, candidate_path}
use carbide_os.System.Durable.{durable_copy}
use carbide_os.System.Space.{activation_space}
use carbide_os.System.Command.{available_bytes}
use carbide_os.System.Prune.{prune_candidates, prune_rollbacks}
use carbide_os.System.Release.{shown}
use carbide_os.System.Units.{
  wait_until_ready, soak, stop_unit, install_active, sysext_refresh, daemon_reload,
}
use carbide_os.System.Journal.{journal}
use carbide_os.Lifecycle.Recover.{known_good_of, recover}
use carbide_os.Lifecycle.Adopt.{
  AdoptError, no_ruleset, failed, adopt_message, merged_version, adopt_active,
}

-- What an activation settled on.
pub record Activation : Type 0 where
  pub version : Text
  pub known_good : Option Text
  pub replayed : Bool

-- How the activation closure failed: the reason, the stage, and the unit if it was known by then.
pub record Setback : Type 0 where
  pub reason : Text
  pub stage : Stage
  pub unit : Option Text

abbrev pub setback : Option Text → Stage → Text → Setback
setback unit stage reason = record { reason = reason; stage = stage; unit = unit }

abbrev pub active_version_of : Option ExtensionState → Option Text
active_version_of none = none
active_version_of (some e) = e.active_version

-- A request that the entry has recorded as completed.
abbrev pub is_replay : Option Text → Option ExtensionState → Bool
is_replay none entry = false
is_replay (some id) none = false
is_replay (some id) (some e) = already_completed e id

-- An error of the system, while that stage was under way.
unfoldable pub io_failure : Stage → IoError → Failure
unfolding failure at
io_failure stage e = at stage (failure Code.failed e.message)

-- Whether the outcome of an adoption stops the activation.
abbrev pub adoption_outcome : Result AdoptError (Unit {0}) → Act Failure (Unit {0})
adoption_outcome (ok _) = skip
adoption_outcome (err (no_ruleset error)) = skip
adoption_outcome (err (failed error)) =
    raise
      (at Stage.checking (failure Code.failed (txt "could not adopt the active image: " ++ error)))

abbrev pub adopt_merged : Text → Option Text → Act Failure (Unit {0})
adopt_merged name none = skip
adopt_merged name (some version) = attempt (adopt_active name version) >>= adoption_outcome

abbrev pub adopt_unless_known : Text → Option Text → Act Failure (Unit {0})
adopt_unless_known name (some version) = skip
adopt_unless_known name none = do
  slot ← active_path name
  present ← exists slot
  if not present then skip else do current ← merged_version name; adopt_merged name current

-- Adopt an image that is merged and not recorded, so that there is one to go back to.
unfoldable pub adopt_unrecorded : Text → Act Failure (Unit {0})
adopt_unrecorded name = do entry ← get_entry name; adopt_unless_known name (known_good_of entry)

-- The bytes that retaining the outgoing image will take.
unfoldable pub missing_retained : Text → Option Text → Act Failure ℕ
unfolding io_failure
missing_retained name none = pure 0
missing_retained name (some previous) = do
  os ← get_host scope
  present ← exists (rollback_path os name previous)
  if present
      then pure 0
      else do slot ← active_path name; map_err (io_failure Stage.checking) (file_len slot)

abbrev pub insufficient : ℕ → ℕ → Host → Failure
insufficient required available h = at Stage.checking (
    failure Code.no_space (
      txt "insufficient space: transaction needs "
      ++ (h.decimal required ++ (txt " bytes, " ++ (h.decimal available ++ txt " available")))))

-- Refuse a transaction that does not demonstrably fit.
unfoldable pub require_room : ℕ → Act Failure (Unit {0})
unfolding io_failure
require_room required = do
  available ← map_err (io_failure Stage.checking) available_bytes
  if ltb available required then raise_with (insufficient required available) else skip

-- Retain the outgoing image, if there is one and its slot is empty.
unfoldable pub retain_outgoing : Text → Option Text → Act Failure (Unit {0})
retain_outgoing name none = skip
retain_outgoing name (some previous) = do
  os ← get_host scope
  slot ← active_path name
  let retained = rollback_path os name previous
  active_present ← exists slot
  retained_present ← exists retained
  when (active_present && not retained_present) (
      map_err
        (λ e.
          at Stage.staging
            (failure Code.failed (txt "could not retain the outgoing image: " ++ e.message)))
        (durable_copy slot retained))

abbrev pub begun : Text → Option Text → Option Text → ExtensionState → ExtensionState
begun version request_id previous e = record e {
  candidate_version = some version;
  request_id = request_id;
  phase = activating;
  known_good_version = elim previous [
    | none ↦ e.known_good_version
    | some previous_version ↦ some previous_version
  ];
}

abbrev pub in_phase : Phase → ExtensionState → ExtensionState
in_phase phase e = record e { phase = phase }

abbrev pub completed : Option Text → ExtensionState → ExtensionState
completed none e = e
completed (some id) e = record_completed e id

-- The entry of the committed state.
unfoldable pub committed : Text → Option Text → ExtensionState → ExtensionState
unfolding record_completed
committed version request_id e = completed request_id (record e {
  phase = active;
  terminal_os_version = none;
  active_version = some version;
  candidate_version = none;
  last_health = some (txt "healthy");
  last_failure = none;
  required = true;
})

-- The committed state is a copy: where it cannot be stored, the one before it stays.
unfoldable pub commit : Text → Text → Option Text → Option Text → Act Setback (Unit {0})
commit name version request_id unit = do
  before ← get_world (λ w. w.held)
  modify_entry name (committed version request_id)
  on_error store (λ error. do
    set_held before
    raise (setback unit Stage.activating (txt "could not commit active state: " ++ error.message)))

-- The closure from the point where the candidate's own ruleset is known.
unfoldable pub prove : Text → Text → Option Text → Ruleset → Act Setback (Unit {0})
prove name version request_id rules = do
  let unit = some rules.unit
  modify_entry name (in_phase starting)
  map_err
      (λ e. setback unit Stage.activating (txt "could not record starting phase: " ++ e.message))
      store
  map_err (setback unit Stage.activating) (wait_until_ready rules)
  modify_entry name (in_phase soaking)
  map_err (λ e. setback unit Stage.soaking (txt "could not record soaking phase: " ++ e.message))
      store
  map_err (setback unit Stage.soaking) (soak rules)
  commit name version request_id unit

abbrev pub early : Text → Setback
early reason = setback none Stage.activating reason

abbrev pub stop_current : Result ConfigError Ruleset → Act Setback (Unit {0})
stop_current (ok current) = map_err (λ e. early e.message) (stop_unit current.unit)
stop_current (err error) = skip

-- The closure of `activate_extension`.
unfoldable pub promote : Text → Text → Option Text → FilePath → Act Setback (Unit {0})
promote name version request_id candidate = do
  current ← attempt (load_named name)
  stop_current current
  map_err (λ e. early (txt "could not install the image: " ++ e.message))
      (install_active candidate name)
  map_err (λ e. early (txt "could not merge the image: " ++ e.message)) sysext_refresh
  map_err (λ e. early (txt "could not reload systemd: " ++ e.message)) daemon_reload
  rules ←
      map_err (λ e. early (txt "candidate supplied no usable ruleset: " ++ config_message e))
        (load_named name)
  prove name version request_id rules

-- The lines that explain a failure, collected before anything is restarted.
unfoldable pub failure_log : Option Text → Act Failure (List Text)
failure_log none = pure []
failure_log (some unit) = do
  answer ← attempt (journal (some unit) 40 none none)
  pure (elim answer [ err e ↦ [] | ok (lines, next) ↦ lines ])

abbrev pub with_known_unit : Option Text → Failure → Failure
with_known_unit none f = f
with_known_unit (some unit) f = with_unit unit f

abbrev pub revert_failure : Setback → List Text → Result Text (Unit {0}) → Failure
revert_failure s log reverted = with_known_unit s.unit (
    with_log log (elim reverted [
      | ok _ ↦ at Stage.reverting (failure Code.failed (s.reason ++ txt "; reverted"))
      | err error ↦ at s.stage (failure Code.failed error)
    ]))

-- Go back to the known-good image, and fail with what happened.
unfoldable pub revert : Text → Setback → Act Failure (Unit {0})
revert name s = do
  log ← failure_log s.unit
  reverted ← attempt (recover name s.reason)
  raise (revert_failure s log reverted)

-- From the candidate to the commit. It returns the version that is the known-good one from then on.
unfoldable pub transact : Text → Text → Option Text → FilePath → Act Failure (Option Text)
unfolding io_failure
transact name version request_id candidate = do
  adopt_unrecorded name
  candidate_size ← map_err (io_failure Stage.checking) (file_len candidate)
  entry ← get_entry name
  let previous = active_version_of entry
  rollback_size ← missing_retained name previous
  require_room (activation_space candidate_size rollback_size)
  retain_outgoing name previous
  modify_entry name (begun version request_id previous)
  map_err (io_failure Stage.staging) store
  on_error (promote name version request_id candidate) (revert name)
  ignore (prune_candidates name none)
  ignore (prune_rollbacks name previous)
  pure previous

-- Promote a staged candidate, reverting if it does not prove itself.
unfoldable pub activate_extension : Text → Text → Option Text → Act Failure Activation
activate_extension name version request_id = do
  map_err (λ e. failure Code.failed (txt "could not read agent state: " ++ e.message)) load
  entry ← get_entry name
  if is_replay request_id entry
      then pure (record { version = version; known_good = known_good_of entry; replayed = true })
      else do
        os ← get_host scope
        let candidate = candidate_path os name version
        present ← exists candidate
        if present
            then (do
              previous ← transact name version request_id candidate
              pure (record { version = version; known_good = previous; replayed = false }))
            else raise (
                at Stage.checking
                  (failure Code.not_found (txt "no staged candidate at " ++ shown candidate)))

-- `adopt`
unfoldable pub adopt : List Text → Act Text (Unit {0})
adopt (name ∷ version ∷ rest) = do stringly load; map_err adopt_message (adopt_active name version)
adopt arguments = raise (txt "usage: carbide-agent adopt NAME VERSION")

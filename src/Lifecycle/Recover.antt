-- ===== src/Lifecycle/Recover.antt =====
-- `fail`, `terminal`, `healthy_now` and `recover` (agent/src/main.rs).
pub mod Keeps
pub mod Others
pub mod Refusal
use carbide_os.Prelude.{
  ℕ, Bool, true, false, not, Option, none, some, List, [], ◌∷◌, ◌++◌, if◌then◌else◌,
}
use carbide_os.Text.{Text, txt}
use carbide_os.State.{ExtensionState, Phase, unrecoverable, reverting, recovered}
use carbide_os.Host.{Host, FilePath, IoError, Result, ok, err}
use carbide_os.Effects.{
  Act, pure, raise, get_host, attempt, ignore, on_error, skip, get_entry, modify_entry, ◌>>=◌, ◌>>◌,
}
use carbide_os.Files.{exists}
use carbide_os.Config.{Ruleset, ConfigError, config_message, load_named}
use carbide_os.StateFile.{store}
use carbide_os.System.Slots.{os_version, scope, rollback_path}
use carbide_os.System.Prune.{prune_candidates, prune_rollbacks}
use carbide_os.System.Units.{
  wait_until_ready, probe, stop_unit, install_active, sysext_refresh, daemon_reload,
}

abbrev pub known_good_of : Option ExtensionState → Option Text
known_good_of none = none
known_good_of (some e) = e.known_good_version

-- `fail`, with the base image that is running.
abbrev pub refused : Option Text → Text → ExtensionState → ExtensionState
refused version reason e = record e {
  phase = unrecoverable;
  last_failure = some reason;
  last_health = none;
  terminal_os_version = version;
}

unfoldable pub fail : {E : Type 0} → Text → Text → Act E (Unit {0})
fail name reason = do version ← get_host os_version; modify_entry name (refused version reason)

-- It always fails, with the reason.
unfoldable pub terminal : Text → Text → Act Text (Unit {0})
terminal name reason = do
  fail name reason
  on_error store
      λ error. raise (reason ++ (txt "; could not record terminal state: " ++ error.message))
  raise reason

unfoldable pub healthy_now : Ruleset → Act Text (Unit {0})
healthy_now rules = do wait_until_ready rules; probe rules

abbrev pub being_reverted : Text → ExtensionState → ExtensionState
being_reverted reason e = record e { phase = reverting; last_failure = some reason }

abbrev pub back_on : Text → Text → ExtensionState → ExtensionState
back_on version reason e = record e {
  phase = recovered;
  active_version = some version;
  candidate_version = none;
  last_health = some (txt "recovered");
  last_failure = some reason;
  terminal_os_version = none;
}

-- Stop what the merged image declares, if it declares anything.
abbrev pub stop_declared : Result ConfigError Ruleset → Act Text (Unit {0})
stop_declared (ok current) = ignore (stop_unit current.unit)
stop_declared (err error) = skip

-- The restored version's own ruleset says whether it works.
abbrev pub prove_restored : Text → Text → Text → Result ConfigError Ruleset → Act Text (Unit {0})
prove_restored name reason version (err error) = terminal name (
    reason
    ++ (txt "; restored " ++ (version ++ (txt " has no usable ruleset: " ++ config_message error))))
prove_restored name reason version (ok rules) = on_error (healthy_now rules) λ error.
    terminal name (reason ++ (txt "; known-good " ++ (version ++ (txt " also failed: " ++ error))))

-- From the replacement of the image to the proof that it works.
unfoldable pub restore : Text → Text → Text → FilePath → Act Text (Unit {0})
restore name reason version image = do
  on_error (install_active image name) λ error. terminal name (
      reason ++ (txt "; could not restore known-good " ++ (version ++ (txt ": " ++ error.message))))
  on_error sysext_refresh λ error. terminal name (
      reason
      ++ (txt "; restored "
          ++ (version ++ (txt " but could not refresh extensions: " ++ error.message))))
  on_error daemon_reload λ error. terminal name (
      reason
      ++ (txt "; restored "
          ++ (version ++ (txt " but could not reload systemd: " ++ error.message))))
  loaded ← attempt (load_named name)
  prove_restored name reason version loaded

unfoldable pub recover_onto : Text → Text → Text → FilePath → Act Text (Unit {0})
recover_onto name reason version image = do
  modify_entry name (being_reverted reason)
  on_error store λ error.
      raise (
        reason ++ (txt "; could not record recovery before replacing the image: " ++ error.message))
  current ← attempt (load_named name)
  stop_declared current
  restore name reason version image
  modify_entry name (back_on version reason)
  on_error store λ error.
      raise
        (txt "recovered onto " ++ (version ++ (txt ", but could not record it: " ++ error.message)))
  ignore (prune_candidates name none)
  ignore (prune_rollbacks name (some version))

-- `recover` from the point where the known-good version is known.
abbrev pub recover_from : Text → Text → Option Text → Act Text (Unit {0})
recover_from name reason none =
    terminal name (reason ++ txt "; no known-good image to fall back to")
recover_from name reason (some version) = do
  os ← get_host scope
  let image = rollback_path os name version
  present ← exists image
  if present
      then recover_onto name reason version image
      else terminal name (reason ++ (txt "; known-good image " ++ (version ++ txt " is missing")))

-- Restore the retained known-good image and confirm it works.
unfoldable pub recover : Text → Text → Act Text (Unit {0})
recover name reason = do entry ← get_entry name; recover_from name reason (known_good_of entry)

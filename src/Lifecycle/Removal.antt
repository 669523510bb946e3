-- ===== src/Lifecycle/Removal.antt =====
-- Removal, requirement and reset (agent/src/main.rs). A command takes its arguments as a list.
use carbide_os.Prelude.{Bool, false, none, List, [], ◌∷◌}
use carbide_os.Text.{Text, txt}
use carbide_os.State.{ExtensionState, idle, removing}
use carbide_os.Host.{Result, ok, err}
use carbide_os.Effects.{Act, raise, attempt, ignore, skip, modify_entry, ◌>>=◌, ◌>>◌}
use carbide_os.Config.{Ruleset, ConfigError, load_named}
use carbide_os.StateFile.{load, store, stringly}
use carbide_os.System.Prune.{prune_candidates, prune_rollbacks}
use carbide_os.System.Units.{stop_unit, sysext_refresh, daemon_reload, remove_active}
use carbide_os.Lifecycle.Recover.{recover}

abbrev pub removed : ExtensionState → ExtensionState
removed e = record e {
  phase = idle;
  active_version = none;
  known_good_version = none;
  candidate_version = none;
  last_health = none;
  last_failure = none;
}

abbrev pub stop_if_loaded : Result ConfigError Ruleset → Act Text (Unit {0})
stop_if_loaded (ok rules) = ignore (stop_unit rules.unit)
stop_if_loaded (err error) = skip

unfoldable pub complete_removal : Text → Act Text (Unit {0})
complete_removal name = do
  loaded ← attempt (load_named name)
  stop_if_loaded loaded
  stringly (remove_active name)
  stringly sysext_refresh
  stringly daemon_reload
  stringly (prune_candidates name none)
  stringly (prune_rollbacks name none)
  modify_entry name removed

abbrev pub to_remove : ExtensionState → ExtensionState
to_remove e = record e { required = false; phase = removing }

unfoldable pub remove_extension : List Text → Act Text (Unit {0})
remove_extension [] = raise (txt "usage: carbide-agent remove NAME")
remove_extension (name ∷ rest) = do
  stringly load
  modify_entry name to_remove
  stringly store
  complete_removal name
  stringly store

abbrev pub with_required : Bool → ExtensionState → ExtensionState
with_required required e = record e { required = required }

unfoldable pub set_required : List Text → Bool → Act Text (Unit {0})
set_required [] required = raise (txt "usage: carbide-agent require|unrequire NAME")
set_required (name ∷ rest) required = do
  stringly load
  modify_entry name (with_required required)
  stringly store

abbrev pub cleared : ExtensionState → ExtensionState
cleared e = record e { phase = idle; last_failure = none; last_health = none }

unfoldable pub reset : List Text → Act Text (Unit {0})
reset [] = raise (txt "usage: carbide-agent reset NAME")
reset (name ∷ rest) = do stringly load; modify_entry name cleared; stringly store

-- The state is stored again after a rollback that failed, and its error is returned after that.
unfoldable pub rollback_command : List Text → Act Text (Unit {0})
rollback_command [] = raise (txt "usage: carbide-agent rollback NAME")
rollback_command (name ∷ rest) = do
  stringly load
  result ← attempt (recover name (txt "operator requested rollback"))
  stringly store
  elim result [ ok _ ↦ skip | err error ↦ raise error ]

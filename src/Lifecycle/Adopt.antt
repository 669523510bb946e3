-- ===== src/Lifecycle/Adopt.antt =====
-- `adopt_active` (agent/src/main.rs), and `merged_version` (agent/src/ops.rs).
pub mod Keeps
use carbide_os.Prelude.{
  Bool, true, false, not, Option, none, some, List, [], ◌∷◌, ◌++◌, if◌then◌else◌,
}
use carbide_os.Text.{Text, txt, strip_prefix, trim, trim_matches, lines}
use carbide_os.State.{ExtensionState, active}
use carbide_os.Host.{Host, FilePath, IoError, Result, ok, err}
use carbide_os.Effects.{
  Act, pure, raise, lift, get_host, attempt, skip, when, moment, map_err, modify_entry, ◌>>=◌, ◌>>◌,
}
use carbide_os.Files.{path, exists}
use carbide_os.Config.{config_message, load_named}
use carbide_os.StateFile.{store}
use carbide_os.System.Slots.{scope, active_path, rollback_path, version_valid}
use carbide_os.System.Durable.{durable_copy}
use carbide_os.System.Release.{shown}
use carbide_os.Lifecycle.Recover.{healthy_now}

-- The first line that declares a usable version.
unfoldable pub declared_version : List Text → Option Text
unfolding strip_prefix trim_matches trim version_valid
declared_version [] = none
declared_version (line ∷ rest) =
    let later = declared_version rest in
    elim (strip_prefix line (txt "SYSEXT_VERSION_ID=")) [
      | none ↦ later
      | some value ↦
          let version = trim_matches (trim value) b'"' in
          if version_valid version then some version else later
    ]

abbrev release_path : Text → FilePath
release_path name = path (txt "/usr/lib/extension-release.d") (txt "extension-release." ++ name)

-- The version that is merged now, read from the merged tree.
unfoldable pub merged_version : {E : Type 0} → Text → Act E (Option Text)
unfolding declared_version
merged_version name = do
  t ← moment
  answer ← get_host (λ h. h.usr t (release_path name))
  pure (elim answer [ err e ↦ none | ok contents ↦ declared_version (lines contents) ])

pub data AdoptError : Type 0 where
  no_ruleset : Text → AdoptError
  failed : Text → AdoptError

-- `AdoptError::to_string`
abbrev pub adopt_message : AdoptError → Text
adopt_message (no_ruleset error) = txt "active image has no usable ruleset: " ++ error
adopt_message (failed error) = error

abbrev pub adopted : Text → ExtensionState → ExtensionState
adopted version e = record e {
  required = true;
  active_version = some version;
  known_good_version = some version;
  phase = active;
  terminal_os_version = none;
  last_health = some (txt "healthy");
  last_failure = none;
}

-- Copy the active image to its rollback slot, if the slot is empty.
unfoldable pub retain : FilePath → FilePath → Act IoError (Unit {0})
retain slot retained = do present ← exists retained; when (not present) (durable_copy slot retained)

unfoldable pub adopt_active : Text → Text → Act AdoptError (Unit {0})
adopt_active name version = do
  rules ← map_err (λ e. no_ruleset (config_message e)) (load_named name)
  slot ← active_path name
  present ← exists slot
  when (not present) (raise (failed (txt "no active image at " ++ shown slot)))
  map_err failed (healthy_now rules)
  os ← get_host scope
  map_err (λ e. failed e.message) (retain slot (rollback_path os name version))
  modify_entry name (adopted version)
  map_err (λ e. failed e.message) store

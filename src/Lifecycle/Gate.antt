-- ===== src/Lifecycle/Gate.antt =====
-- `health_gate` and `verify_or_recover` (agent/src/main.rs).
pub mod Works
pub mod Healthy
use carbide_os.Prelude.{
  Bool, true, false, not, ◌&&◌, ◌||◌, Option, none, some, List, [], ◌∷◌, ◌++◌, if◌then◌else◌, any,
}
use carbide_os.Text.{Text, txt, same, is_empty}
use carbide_os.State.{ExtensionState, active, is_terminal, required_names, forget_stale_terminals}
use carbide_os.Host.{ok, err}
use carbide_os.Effects.{
  Act, pure, raise, get_host, get_world, attempt, skip, when, map_err, get_entry, modify_entry,
  set_held, ◌>>=◌, ◌>>◌,
}
use carbide_os.Files.{exists}
use carbide_os.Config.{config_message, load_named}
use carbide_os.StateFile.{load, store, stringly}
use carbide_os.System.Slots.{os_version, scope, active_path, rollback_path}
use carbide_os.System.Durable.{durable_copy}
use carbide_os.System.Release.{merged_extensions}
use carbide_os.System.Units.{soak}
use carbide_os.Lifecycle.Recover.{healthy_now, recover}
use carbide_os.Lifecycle.Adopt.{merged_version}

abbrev pub holds_terminal : Option ExtensionState → Bool
holds_terminal none = false
holds_terminal (some e) = is_terminal e.phase

-- `active_version.as_deref() != Some(version)`
abbrev pub differs : Option ExtensionState → Text → Bool
differs none version = true
differs (some e) version = elim e.active_version [ none ↦ true | some v ↦ not (same v version) ]

abbrev pub proven : Text → ExtensionState → ExtensionState
proven version e = record e {
  active_version = some version;
  known_good_version = some version;
  candidate_version = none;
}

abbrev pub verified : ExtensionState → ExtensionState
verified e = record e {
  phase = active;
  terminal_os_version = none;
  last_health = some (txt "healthy");
  last_failure = none;
}

-- Keep the image that proved healthy under this base.
unfoldable pub keep_merged : Text → Text → Act Text (Unit {0}) → Act Text (Unit {0})
keep_merged name version soaked = do
  os ← get_host scope
  let rollback = rollback_path os name version
  entry ← get_entry name
  retained ← exists rollback
  when (differs entry version || not retained) do
    soaked
    slot ← active_path name
    map_err (λ e. txt "could not retain healthy " ++ (version ++ (txt ": " ++ e.message)))
        (durable_copy slot rollback)
    modify_entry name (proven version)

unfoldable pub verify_or_recover : Text → List Text → Act Text (Unit {0})
unfolding is_terminal
verify_or_recover name merged = do
  entry ← get_entry name
  if holds_terminal entry then raise (txt "in a terminal state; not retrying automatically") else do
    loaded ← attempt (load_named name)
    elim loaded [
      | err error ↦ recover name (txt "no usable ruleset: " ++ config_message error)
      | ok rules ↦
          if not (is_empty merged) && not (any (λ m. same m name) merged)
          then recover name (txt "required extension is not merged")
          else do
            health ← attempt (healthy_now rules)
            elim health [
              | err reason ↦ recover name reason
              | ok _ ↦ do
                version ← merged_version name
                elim version [ none ↦ skip | some v ↦ keep_merged name v (soak rules) ]
                modify_entry name verified
            ]
    ]

-- The loop over the required extensions; it returns the names that failed.
unfoldable pub verify_all : List Text → List Text → Act Text (List Text)
verify_all [] merged = pure []
verify_all (name ∷ names) merged = do
  outcome ← attempt (verify_or_recover name merged)
  failures ← verify_all names merged
  pure (elim outcome [ ok _ ↦ failures | err reason ↦ name ∷ failures ])

-- `join`
unfoldable pub join : Text → List Text → Text
join separator [] = []
join separator (s ∷ l) = s ++ elim l [ [] ↦ [] | t ∷ r ↦ separator ++ join separator l ]

-- Refusals recorded under an earlier image are dropped, where the running one is known.
unfoldable pub forget_stale : Act Text (Unit {0})
forget_stale = do
  version ← get_host os_version
  held ← get_world (λ w. w.held)
  elim version [ none ↦ skip | some v ↦ set_held (forget_stale_terminals v held).1 ]

unfoldable pub health_gate : Act Text (Unit {0})
health_gate = do
  stringly load
  forget_stale
  required ← get_world (λ w. required_names w.held)
  if is_empty required then skip else do
    answer ← attempt merged_extensions
    failures ← verify_all required (elim answer [ ok merged ↦ merged | err error ↦ [] ])
    stringly store
    if is_empty failures
        then skip
        else raise (txt "required extensions unhealthy: " ++ join (txt ", ") failures)

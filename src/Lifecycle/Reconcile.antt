-- ===== src/Lifecycle/Reconcile.antt =====
-- `reconcile_state` (agent/src/main.rs): transactions that a crash interrupted are resolved before
-- a new command may change anything.
pub mod Ends
pub mod Steps
pub mod Quiet
pub mod Recovers
pub mod Phases
pub mod Settled
use carbide_os.Prelude.{
  Bool, false, not, ◌&&◌, Option, none, some, List, [], ◌∷◌, ◌++◌, if◌then◌else◌, any,
}
use carbide_os.Text.{Text, txt, is_empty}
use carbide_os.State.{
  State, ExtensionState, Phase, idle, staged, activating, starting, soaking, active, reverting,
  recovered, removing, unrecoverable,
}
use carbide_os.Host.{FilePath, ok, err}
use carbide_os.Effects.{
  Act, pure, raise, get_host, get_world, attempt, skip, map_err, get_entry, modify_entry, ◌>>=◌,
  ◌>>◌,
}
use carbide_os.Files.{same_path, exists}
use carbide_os.StateFile.{load, store, stringly}
use carbide_os.System.Slots.{scope, active_path, candidate_path}
use carbide_os.System.Durable.{durable_remove}
use carbide_os.System.Prune.{
  prune_candidates, prune_rollbacks, prune_transaction_files, candidate_files,
}
use carbide_os.System.Release.{shown}
use carbide_os.Lifecycle.Recover.{recover}
use carbide_os.Lifecycle.Gate.{join, forget_stale}
use carbide_os.Lifecycle.Removal.{complete_removal}

-- The failure of a step as a message; a step that succeeds gives none.
unfoldable pub reported : {E : Type 0} → (E → Text) → Act E (Unit {0}) → Act Text (List Text)
reported message m = do
  result ← attempt m
  pure (elim result [ ok _ ↦ [] | err e ↦ message e ∷ [] ])

-- `{phase:?}`
abbrev pub phase_text : Phase → Text
phase_text idle = txt "Idle"
phase_text staged = txt "Staged"
phase_text activating = txt "Activating"
phase_text starting = txt "Starting"
phase_text soaking = txt "Soaking"
phase_text active = txt "Active"
phase_text reverting = txt "Reverting"
phase_text recovered = txt "Recovered"
phase_text removing = txt "Removing"
phase_text unrecoverable = txt "Unrecoverable"

abbrev pub is_required : Option ExtensionState → Bool
is_required none = false
is_required (some e) = e.required

-- `is_some_and(|entry| !entry.required)`
abbrev pub is_optional : Option ExtensionState → Bool
is_optional none = false
is_optional (some e) = not e.required

abbrev pub without_versions : ExtensionState → ExtensionState
without_versions e = record e {
  active_version = none;
  known_good_version = none;
  candidate_version = none;
}

-- A staged candidate that is gone.
abbrev pub unstaged : Bool → ExtensionState → ExtensionState
unstaged active_present e =
    let failure = some (txt "staged candidate disappeared before activation") in
    if active_present
    then record e { candidate_version = none; phase = active; last_failure = failure }
    else if e.required
    then record e { candidate_version = none; phase = idle; last_failure = failure }
    else record e {
      candidate_version = none;
      phase = idle;
      last_failure = failure;
      active_version = none;
      known_good_version = none;
    }

module _ (name : Text) where
  unfoldable pub prune_step : Act Text (List Text)
  prune_step =
      reported (λ e. name ++ (txt ": could not prune candidates: " ++ e.message))
        (prune_candidates name none)

  unfoldable pub recover_step : Text → Act Text (List Text)
  recover_step reason = reported (λ error. name ++ (txt ": " ++ error)) (recover name reason)

  abbrev pub candidate_present : Option Text → Act Text Bool
  candidate_present none = pure false
  candidate_present (some version) =
      get_host scope >>= λ os. exists (candidate_path os name version)

  unfoldable pub reconcile_staged : Option Text → Act Text (List Text)
  reconcile_staged candidate = do
    present ← candidate_present candidate
    if present then pure [] else do
      slot ← active_path name
      active_present ← exists slot
      modify_entry name (unstaged active_present)
      pure []

  -- An active image that is gone, by whether the extension is required.
  unfoldable pub active_gone : Option ExtensionState → Act Text (List Text)
  active_gone entry =
      if is_required entry
      then recover_step (txt "active image disappeared between operations")
      else do modify_entry name (λ e. record (without_versions e) { phase = idle }); pure []

  unfoldable pub reconcile_active : Act Text (List Text)
  reconcile_active = do
    slot ← active_path name
    active_present ← exists slot
    entry ← get_entry name
    failures ← if active_present then pure [] else active_gone entry
    more ← prune_step
    pure (failures ++ more)

  unfoldable pub reconcile_idle : Act Text (List Text)
  reconcile_idle = do
    slot ← active_path name
    active_present ← exists slot
    entry ← get_entry name
    if not active_present && is_optional entry then modify_entry name without_versions else skip
    prune_step

  -- The `match` on the phase that the entry had when the loop began.
  unfoldable pub reconcile_phase : Phase → Option Text → Act Text (List Text)
  reconcile_phase staged candidate = reconcile_staged candidate
  reconcile_phase activating candidate =
      recover_step (txt "interrupted while in phase " ++ phase_text activating)
  reconcile_phase starting candidate =
      recover_step (txt "interrupted while in phase " ++ phase_text starting)
  reconcile_phase soaking candidate =
      recover_step (txt "interrupted while in phase " ++ phase_text soaking)
  reconcile_phase reverting candidate =
      recover_step (txt "interrupted while in phase " ++ phase_text reverting)
  reconcile_phase removing candidate =
      reported (λ error. name ++ (txt ": could not finish removal: " ++ error))
        (complete_removal name)
  reconcile_phase active candidate = reconcile_active
  reconcile_phase recovered candidate = reconcile_active
  reconcile_phase idle candidate = reconcile_idle
  reconcile_phase unrecoverable candidate = prune_step

  -- One round of the loop over the entries.
  unfoldable pub reconcile_entry : Phase → Option Text → Option Text → Act Text (List Text)
  reconcile_entry phase candidate known_good = do
    failures ← reconcile_phase phase candidate
    more ←
        reported (λ e. name ++ (txt ": could not prune rollbacks: " ++ e.message))
          (prune_rollbacks name known_good)
    pure (failures ++ more)

-- The loop, over the entries as they were when it began.
unfoldable pub reconcile_entries : State → Act Text (List Text)
unfolding reconcile_entry
reconcile_entries [] = pure []
reconcile_entries ((name, e) ∷ entries) = do
  failures ← reconcile_entry name e.phase e.candidate_version e.known_good_version
  more ← reconcile_entries entries
  pure (failures ++ more)

abbrev kept_candidate : Text → Text → ExtensionState → List FilePath
kept_candidate os name e = elim e.phase [
  | staged ↦ elim e.candidate_version [
    | none ↦ []
    | some version ↦ candidate_path os name version ∷ []
  ]
  | _ ↦ []
]

unfoldable pub kept_candidates : Text → State → List FilePath
kept_candidates os [] = []
kept_candidates os ((name, e) ∷ entries) = kept_candidate os name e ++ kept_candidates os entries

-- The loop over the candidate files, which removes the orphans.
unfoldable pub remove_orphans : List FilePath → List FilePath → Act Text (List Text)
remove_orphans kept [] = pure []
remove_orphans kept (candidate ∷ candidates) = do
  failures ←
      if any (λ p. same_path p candidate) kept
      then pure []
      else reported
          (λ e.
            txt "could not remove orphan candidate "
            ++ (shown candidate ++ (txt ": " ++ e.message)))
          (durable_remove candidate)
  more ← remove_orphans kept candidates
  pure (failures ++ more)

unfoldable pub reconcile_state : Act Text (Unit {0})
reconcile_state = do
  map_err (λ e. txt "could not clean interrupted staging files: " ++ e.message)
      prune_transaction_files
  stringly load
  forget_stale
  entries ← get_world (λ w. w.held)
  os ← get_host scope
  failures ← reconcile_entries entries
  listed ← attempt candidate_files
  more ← elim listed [
    | ok candidates ↦ remove_orphans (kept_candidates os entries) candidates
    | err e ↦ pure ((txt "could not enumerate candidates: " ++ e.message) ∷ [])
  ]
  stringly store
  if is_empty (failures ++ more) then skip else raise (join (txt "; ") (failures ++ more))

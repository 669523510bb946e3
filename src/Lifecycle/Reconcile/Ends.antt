-- ===== src/Lifecycle/Reconcile/Ends.antt =====
-- Reconciliation ends (agent/src/main.rs, `reconcile_state`).
use carbide_os.Prelude.{Option, none, some, List, [], ◌∷◌}
use carbide_os.Text.{Text}
use carbide_os.State.{
  State, ExtensionState, Phase, idle, staged, activating, starting, soaking, active, reverting,
  recovered, removing, unrecoverable,
}
use carbide_os.Host.{Host, FilePath, IoError, Result, ok, err}
use carbide_os.Effects.{Act}
use carbide_os.Effects.Total.{
  Total, total_rules, Total-bind, Total-pure, Total-attempt, Total-get_host, Total-get_world,
  Total-map_err, Total-if, Total-raise, Total-set_held,
}
use carbide_os.Effects.Endings.{Total-option, Total-result}
use carbide_os.Files.Total.{Total-exists}
use carbide_os.Config.{Ruleset, ConfigError}
use carbide_os.StateFile.{stringly}
use carbide_os.System.Total.{
  Total-load, Total-store, Total-stop_unit, Total-sysext_refresh, Total-daemon_reload,
  Total-active_path, Total-prune_candidates, Total-prune_rollbacks, Total-durable_remove,
}
use carbide_os.System.Queries.{
  Total-remove_active, Total-candidate_files, Total-prune_transaction_files,
}
use carbide_os.System.Units.Waiting.{IsSteady}
use carbide_os.Lifecycle.Ending.{IsFueled, Total-load_named, Total-recover}
use carbide_os.Lifecycle.Removal.{stop_if_loaded, complete_removal}
use carbide_os.Lifecycle.Gate.{forget_stale}
use carbide_os.Lifecycle.Reconcile.{
  reported, candidate_present, prune_step, recover_step, reconcile_staged, active_gone,
  reconcile_active, reconcile_idle, reconcile_phase, reconcile_entry, reconcile_entries,
  remove_orphans, reconcile_state,
}

module _ {h : Host} where
  Total-stringly : {A : Type 0} {m : Act IoError A} → Total h m → Total h (stringly m)
  unfolding stringly
  Total-stringly km = Total-map_err _ km

  Total-reported :
      {E : Type 0} (message : E → Text) {m : Act E (Unit {0})}
      → Total h m
      → Total h (reported message m)
  unfolding reported
  Total-reported message km = Total-bind (Total-attempt km) (λ r. Total-pure _)

  Total-forget_stale : Total h forget_stale
  unfolding forget_stale
  Total-forget_stale = Total-bind (Total-get_host _) λ version.
      Total-bind (Total-get_world _)
        λ held. Total-option version (Total-pure tt) (λ v. Total-set_held _)

  Total-stop_if_loaded : (x : Result ConfigError Ruleset) → Total h (stop_if_loaded x)
  Total-stop_if_loaded (ok r) = search (total_rules, Total-stop_unit)
  Total-stop_if_loaded (err e) = search (total_rules)

  Total-complete_removal : (name : Text) → Total h (complete_removal name)
  unfolding complete_removal
  Total-complete_removal name =
      search
        (
          total_rules, Total-load_named, Total-stop_if_loaded, Total-stringly, Total-remove_active,
          Total-sysext_refresh, Total-daemon_reload, Total-prune_candidates, Total-prune_rollbacks,
        )
        depth 30

  Total-prune_step : (name : Text) → Total h (prune_step name)
  unfolding prune_step
  Total-prune_step name = Total-reported _ (Total-prune_candidates name none)

  Total-candidate_present : (name : Text) (v : Option Text) → Total h (candidate_present name v)
  Total-candidate_present name none = search (total_rules)
  Total-candidate_present name (some v) = search (total_rules, Total-exists)

  Total-reconcile_staged : (name : Text) (v : Option Text) → Total h (reconcile_staged name v)
  unfolding reconcile_staged
  Total-reconcile_staged name v =
      search (total_rules, Total-candidate_present, Total-active_path, Total-exists) depth 20

  Total-reconcile_idle : (name : Text) → Total h (reconcile_idle name)
  unfolding reconcile_idle
  Total-reconcile_idle name =
      search (total_rules, Total-active_path, Total-exists, Total-prune_step) depth 20

  Total-remove_orphans : (kept l : List FilePath) → Total h (remove_orphans kept l)
  unfolding remove_orphans
  Total-remove_orphans kept [] = Total-pure []
  Total-remove_orphans kept (p ∷ l) =
      Total-bind (Total-if _ _ _ (Total-pure []) (Total-reported _ (Total-durable_remove p)))
        λ failures. Total-bind (Total-remove_orphans kept l) (λ more. Total-pure _)

module _ {h : Host} (steady : IsSteady h) (fueled : IsFueled h) where
  Total-recover_step : (name reason : Text) → Total h (recover_step name reason)
  unfolding recover_step
  Total-recover_step name reason = Total-reported _ (Total-recover steady fueled name reason)

  Total-active_gone : (name : Text) (e : Option ExtensionState) → Total h (active_gone name e)
  unfolding active_gone
  Total-active_gone name e = search (total_rules, Total-recover_step)

  Total-reconcile_active : (name : Text) → Total h (reconcile_active name)
  unfolding reconcile_active
  Total-reconcile_active name =
      search (total_rules, Total-active_path, Total-exists, Total-active_gone, Total-prune_step)
        depth 20

  Total-reconcile_phase :
      (name : Text) (phase : Phase) (v : Option Text) → Total h (reconcile_phase name phase v)
  unfolding reconcile_phase
  Total-reconcile_phase name staged v = Total-reconcile_staged name v
  Total-reconcile_phase name activating v = Total-recover_step name _
  Total-reconcile_phase name starting v = Total-recover_step name _
  Total-reconcile_phase name soaking v = Total-recover_step name _
  Total-reconcile_phase name reverting v = Total-recover_step name _
  Total-reconcile_phase name removing v = Total-reported _ (Total-complete_removal name)
  Total-reconcile_phase name active v = Total-reconcile_active name
  Total-reconcile_phase name recovered v = Total-reconcile_active name
  Total-reconcile_phase name idle v = Total-reconcile_idle name
  Total-reconcile_phase name unrecoverable v = Total-prune_step name

  Total-reconcile_entry :
      (name : Text) (phase : Phase) (v known : Option Text)
      → Total h (reconcile_entry name phase v known)
  unfolding reconcile_entry
  Total-reconcile_entry name phase v known =
      Total-bind (Total-reconcile_phase name phase v) λ failures.
        Total-bind (Total-reported _ (Total-prune_rollbacks name known)) (λ more. Total-pure _)

  Total-reconcile_entries : (s : State) → Total h (reconcile_entries s)
  unfolding reconcile_entries
  Total-reconcile_entries [] = Total-pure []
  Total-reconcile_entries ((name, e) ∷ s) =
      Total-bind (Total-reconcile_entry name _ _ _)
        λ failures. Total-bind (Total-reconcile_entries s) (λ more. Total-pure _)

  pub Total-reconcile_state : Total h reconcile_state
  unfolding reconcile_state
  Total-reconcile_state = Total-bind (Total-map_err _ Total-prune_transaction_files) λ _.
      Total-bind (Total-stringly Total-load) λ _. Total-bind Total-forget_stale λ _.
        Total-bind (Total-get_world _) λ entries. Total-bind (Total-get_host _) λ os.
          Total-bind (Total-reconcile_entries entries) λ failures.
            Total-bind (Total-attempt Total-candidate_files) λ listed.
              Total-bind (Total-result listed (λ l. Total-remove_orphans _ l) (λ e. Total-pure _))
                λ more.
                  Total-bind (Total-stringly Total-store)
                    λ _. Total-if _ _ _ (Total-pure tt) (Total-raise _)

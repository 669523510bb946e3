-- ===== src/Lifecycle/Activate/Ends.antt =====
-- An activation ends (agent/src/main.rs, `activate_extension`).
use carbide_os.Prelude.{ℕ, Option, none, some}
use carbide_os.Text.{Text}
use carbide_os.Host.{Host, FilePath, Result, ok, err}
use carbide_os.Effects.Total.{
  Total, total_rules, Total-bind, Total-then, Total-map_err, Total-modify_entry, Yields-map_err,
  Total-attempt, Total-when, Total-raise,
}
use carbide_os.Files.Total.{file_total_rules, Total-exists, Total-file_len}
use carbide_os.Config.{Ruleset, ConfigError}
use carbide_os.Config.Bounds.{IsBounded}
use carbide_os.System.Total.{
  Total-load, Total-store, Total-stop_unit, Total-install_active, Total-sysext_refresh,
  Total-daemon_reload, Total-prune_candidates, Total-prune_rollbacks, Total-durable_copy,
  Total-active_path, Total-journal, Total-available_bytes,
}
use carbide_os.System.Units.Waiting.{IsSteady}
use carbide_os.Lifecycle.Adopt.{
  AdoptError, no_ruleset, failed, merged_version, retain, adopt_active,
}
use carbide_os.Lifecycle.Ending.{
  IsFueled, Yields-load_named, Total-load_named, Total-wait_until_ready, Total-soak,
  Total-healthy_now, Total-recover,
}
use carbide_os.Lifecycle.Activate.{
  Setback, adoption_outcome, adopt_merged, adopt_unless_known, adopt_unrecorded, missing_retained,
  require_room, retain_outgoing, commit, prove, stop_current, promote, failure_log, revert,
  transact, activate_extension,
}

module _ {h : Host} where
  Total-merged_version : {E : Type 0} (name : Text) → Total {E = E} h (merged_version name)
  unfolding merged_version
  Total-merged_version name = search (total_rules)

  Total-retain : (slot retained : FilePath) → Total h (retain slot retained)
  unfolding retain
  Total-retain slot retained = search (file_total_rules, Total-durable_copy)

  Total-outcome : (x : Result AdoptError (Unit {0})) → Total h (adoption_outcome x)
  Total-outcome (ok _) = search (total_rules)
  Total-outcome (err (no_ruleset e)) = search (total_rules)
  Total-outcome (err (failed e)) = search (total_rules)

  Total-missing_retained :
      (name : Text) (known : Option Text) → Total h (missing_retained name known)
  unfolding missing_retained
  Total-missing_retained name none = search (total_rules)
  Total-missing_retained name (some version) = search (file_total_rules, Total-active_path) depth 20

  Total-require_room : (n : ℕ) → Total h (require_room n)
  unfolding require_room
  Total-require_room n = search (total_rules, Total-available_bytes)

  Total-retain_outgoing : (name : Text) (known : Option Text) → Total h (retain_outgoing name known)
  unfolding retain_outgoing
  Total-retain_outgoing name none = search (total_rules)
  Total-retain_outgoing name (some version) =
      search (file_total_rules, Total-active_path, Total-durable_copy) depth 20

  Total-commit :
      (name version : Text) (id unit : Option Text) → Total h (commit name version id unit)
  unfolding commit
  Total-commit name version id unit = search (total_rules, Total-store) depth 20

  Total-stop_current : (x : Result ConfigError Ruleset) → Total h (stop_current x)
  Total-stop_current (ok r) = search (total_rules, Total-stop_unit)
  Total-stop_current (err e) = search (total_rules)

  Total-failure_log : (unit : Option Text) → Total h (failure_log unit)
  unfolding failure_log
  Total-failure_log none = search (total_rules)
  Total-failure_log (some unit) = search (total_rules, Total-journal)

module _ {h : Host} (steady : IsSteady h) (fueled : IsFueled h) where
  Total-adopt_active : (name version : Text) → Total h (adopt_active name version)
  unfolding adopt_active
  Total-adopt_active name version = Total-then (Yields-map_err _ (Yields-load_named name)) λ r p.
      Total-bind (Total-active_path name) λ slot. Total-bind (Total-exists slot) λ present.
        Total-bind (Total-when _ _ (Total-raise _)) λ _.
          Total-bind (Total-map_err failed (Total-healthy_now steady fueled r p))
            λ _. search (total_rules, Total-retain, Total-store)

  Total-adopt_merged : (name : Text) (version : Option Text) → Total h (adopt_merged name version)
  Total-adopt_merged name none = search (total_rules)
  Total-adopt_merged name (some version) = search (total_rules, Total-adopt_active, Total-outcome)

  Total-adopt_unless_known :
      (name : Text) (known : Option Text) → Total h (adopt_unless_known name known)
  Total-adopt_unless_known name none =
      search (file_total_rules, Total-active_path, Total-merged_version, Total-adopt_merged) depth
        20
  Total-adopt_unless_known name (some version) = search (total_rules)

  Total-adopt_unrecorded : (name : Text) → Total h (adopt_unrecorded name)
  unfolding adopt_unrecorded
  Total-adopt_unrecorded name = search (total_rules, Total-adopt_unless_known)

  Total-prove :
      (name version : Text) (id : Option Text) (r : Ruleset)
      → IsBounded r
      → Total h (prove name version id r)
  unfolding prove
  Total-prove name version id r p = Total-bind (Total-modify_entry name _) λ _.
      Total-bind (Total-map_err _ Total-store) λ _.
        Total-bind (Total-map_err _ (Total-wait_until_ready steady fueled r p)) λ _.
          Total-bind (Total-modify_entry name _) λ _. Total-bind (Total-map_err _ Total-store) λ _.
            Total-bind (Total-map_err _ (Total-soak steady fueled r p))
              λ _. Total-commit name version id _

  Total-promote :
      (name version : Text) (id : Option Text) (candidate : FilePath)
      → Total h (promote name version id candidate)
  unfolding promote
  Total-promote name version id candidate =
      Total-bind (Total-attempt (Total-load_named name)) λ current.
        Total-bind (Total-stop_current current) λ _.
          Total-bind (Total-map_err _ (Total-install_active candidate name)) λ _.
            Total-bind (Total-map_err _ Total-sysext_refresh) λ _.
              Total-bind (Total-map_err _ Total-daemon_reload) λ _.
                Total-then (Yields-map_err _ (Yields-load_named name)) (Total-prove name version id)

  Total-revert : (name : Text) (s : Setback) → Total h (revert name s)
  unfolding revert
  Total-revert name s = Total-bind (Total-failure_log s.unit) λ log.
      Total-bind (Total-attempt (Total-recover steady fueled name s.reason))
        (λ reverted. Total-raise _)

  Total-transact :
      (name version : Text) (id : Option Text) (candidate : FilePath)
      → Total h (transact name version id candidate)
  unfolding transact
  Total-transact name version id candidate =
      search
        (
          total_rules, Total-adopt_unrecorded, Total-file_len, Total-missing_retained,
          Total-require_room, Total-retain_outgoing, Total-store, Total-promote, Total-revert,
          Total-prune_candidates, Total-prune_rollbacks,
        )
        depth 40

  pub Total-activate_extension :
      (name version : Text) (id : Option Text) → Total h (activate_extension name version id)
  unfolding activate_extension
  Total-activate_extension name version id =
      search (total_rules, Total-load, Total-exists, Total-transact) depth 20

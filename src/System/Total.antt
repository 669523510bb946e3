-- ===== src/System/Total.antt =====
-- The operations that do not wait end: state, images, programs, pruning and the journal.
use carbide_os.Prelude.{ℕ, Bool, Option, none, some, List, [], ◌∷◌}
use carbide_os.Text.{Text}
use carbide_os.Host.{
  Host, FilePath, IoError, ErrorKind, not_found, invalid_data, other_kind, Result, ok, err,
}
use carbide_os.Effects.Total.{Total, total_rules, Total-pure, Total-bind, Total-when}
use carbide_os.Files.Total.{
  Total-change, file_total_rules, Total-call, Total-remove_file, Total-sync_dir,
}
use carbide_os.StateFile.{load, loaded, decoded, unread, store, publish_state}
use carbide_os.System.Slots.{active_path}
use carbide_os.System.Durable.{
  permissions, publish, settle, durable_copy_file, durable_copy, absent_is_fine, durable_remove,
}
use carbide_os.System.Command.{
  take_effect, run, run_mutating, capture, available_of, available_bytes,
}
use carbide_os.System.Prune.{remove_all, prune_matching_in, prune_candidates, prune_rollbacks}
use carbide_os.System.Journal.{journal}
use carbide_os.System.Units.{
  unit_is_active, unit_failed, start_unit, stop_unit, sysext_refresh, daemon_reload, install_active,
}

module _ {h : Host} where
  Total-decoded : (r : Result Text _) → Total h (decoded r)
  Total-decoded (ok s) = search (total_rules)
  Total-decoded (err message) = search (total_rules)

  Total-unread : (k : ErrorKind) (e : IoError) → Total h (unread k e)
  Total-unread not_found e = search (total_rules)
  Total-unread invalid_data e = search (total_rules)
  Total-unread other_kind e = search (total_rules)

  Total-loaded : (r : Result IoError (List ℕ)) → Total h (loaded r)
  Total-loaded (ok bytes) = search (total_rules, Total-decoded)
  Total-loaded (err e) = Total-unread e.kind e

  pub Total-load : Total h load
  unfolding load
  Total-load = search (file_total_rules, Total-loaded)

  pub Total-store : Total h store
  unfolding store publish_state
  Total-store = search (file_total_rules) depth 20

  Total-permissions : (p : FilePath) → Total h (permissions p)
  unfolding permissions
  Total-permissions p = search (file_total_rules)

  Total-publish : (p q : FilePath) (maximum mode : ℕ) → Total h (publish p q maximum mode)
  unfolding publish
  Total-publish p q maximum mode = search (file_total_rules) depth 20

  Total-settle : (p : FilePath) (r : Result IoError (Unit {0})) → Total h (settle p r)
  unfolding settle
  Total-settle p (ok _) = search (total_rules)
  Total-settle p (err e) = search (file_total_rules)

  pub Total-durable_copy_file :
      (p q : FilePath) (maximum : ℕ) → Total h (durable_copy_file p q maximum)
  unfolding durable_copy_file
  Total-durable_copy_file p q maximum =
      search (file_total_rules, Total-permissions, Total-publish, Total-settle) depth 20

  pub Total-durable_copy : (p q : FilePath) → Total h (durable_copy p q)
  unfolding durable_copy
  Total-durable_copy p q = search (file_total_rules, Total-durable_copy_file)

  Total-absent_kind :
      (k : ErrorKind) (e : IoError)
      → Total h (absent_is_fine (record { dir = []; name = [] }) (err (record e { kind = k })))
  Total-absent_kind not_found e = search (total_rules)
  Total-absent_kind invalid_data e = search (total_rules)
  Total-absent_kind other_kind e = search (total_rules)

  Total-absent_is_fine :
      (p : FilePath) (r : Result IoError (Unit {0})) → Total h (absent_is_fine p r)
  Total-absent_is_fine p (ok _) = Total-sync_dir p.dir
  Total-absent_is_fine p (err e) = Total-absent_kind e.kind e

  pub Total-durable_remove : (p : FilePath) → Total h (durable_remove p)
  unfolding durable_remove
  Total-durable_remove p = search (file_total_rules, Total-absent_is_fine)

  pub Total-run : (program : Text) (args : List Text) → Total h (run program args)
  unfolding run
  Total-run program args = search (total_rules) depth 20

  Total-take_effect :
      (t : ℕ) (program : Text) (args : List Text)
      → Total {E = IoError} h (take_effect t program args)
  Total-take_effect t program args = record { at = (Total-change (h.effect t program args)).at }

  pub Total-run_mutating : (program : Text) (args : List Text) → Total h (run_mutating program args)
  unfolding run_mutating
  Total-run_mutating program args = search (total_rules, Total-take_effect) depth 20

  pub Total-capture : (program : Text) (args : List Text) → Total h (capture program args)
  unfolding capture
  Total-capture program args = search (total_rules, Total-run)

  Total-available_of : (o : Option ℕ) → Total h (available_of o)
  Total-available_of none = search (total_rules)
  Total-available_of (some n) = search (total_rules)

  pub Total-available_bytes : Total h available_bytes
  unfolding available_bytes
  Total-available_bytes = search (total_rules, Total-run, Total-available_of)

  pub Total-remove_all :
      (directory : Text) (doomed : Text → Bool) (names : List Text)
      → Total h (remove_all directory doomed names)
  unfolding remove_all
  Total-remove_all directory doomed [] = search (total_rules)
  Total-remove_all directory doomed (name ∷ names) = Total-bind Total-call λ _.
      Total-bind (Total-when _ _ (Total-remove_file _))
        λ _. Total-bind (Total-remove_all directory doomed names) (λ _. Total-pure _)

  pub Total-prune_matching_in :
      (directory prefix suffix : Text) (keep : Option FilePath)
      → Total h (prune_matching_in directory prefix suffix keep)
  unfolding prune_matching_in
  Total-prune_matching_in directory prefix suffix keep = search (file_total_rules, Total-remove_all)

  pub Total-prune_candidates :
      (name : Text) (keep : Option Text) → Total h (prune_candidates name keep)
  unfolding prune_candidates
  Total-prune_candidates name keep = search (total_rules, Total-prune_matching_in)

  pub Total-prune_rollbacks :
      (name : Text) (keep : Option Text) → Total h (prune_rollbacks name keep)
  unfolding prune_rollbacks
  Total-prune_rollbacks name keep = search (total_rules, Total-prune_matching_in)

  pub Total-journal :
      (unit : Option Text) (lines : ℕ) (cursor priority : Option Text)
      → Total h (journal unit lines cursor priority)
  unfolding journal
  Total-journal unit lines cursor priority = search (total_rules, Total-capture)

  pub Total-active_path : {E : Type 0} (name : Text) → Total {E = E} h (active_path name)
  unfolding active_path
  Total-active_path name = search (file_total_rules)

  pub Total-unit_is_active : {E : Type 0} (unit : Text) → Total {E = E} h (unit_is_active unit)
  unfolding unit_is_active
  Total-unit_is_active unit = search (total_rules, Total-run)

  pub Total-unit_failed : {E : Type 0} (unit : Text) → Total {E = E} h (unit_failed unit)
  unfolding unit_failed
  Total-unit_failed unit = search (total_rules, Total-run)

  pub Total-start_unit : (unit : Text) → Total h (start_unit unit)
  unfolding start_unit
  Total-start_unit unit = search (total_rules, Total-run_mutating)

  pub Total-stop_unit : (unit : Text) → Total h (stop_unit unit)
  unfolding stop_unit
  Total-stop_unit unit = search (total_rules, Total-run_mutating)

  pub Total-sysext_refresh : Total h sysext_refresh
  unfolding sysext_refresh
  Total-sysext_refresh = search (total_rules, Total-run_mutating)

  pub Total-daemon_reload : Total h daemon_reload
  unfolding daemon_reload
  Total-daemon_reload = search (total_rules, Total-run_mutating)

  pub Total-install_active :
      (source : FilePath) (name : Text) → Total h (install_active source name)
  unfolding install_active
  Total-install_active source name =
      search (file_total_rules, Total-durable_remove, Total-durable_copy)

pub ruleset system_total_rules = (
  file_total_rules, Total-load, Total-store, Total-durable_copy, Total-durable_remove, Total-run,
  Total-available_bytes, Total-prune_candidates, Total-prune_rollbacks, Total-journal,
  Total-active_path, Total-unit_is_active, Total-unit_failed, Total-start_unit, Total-stop_unit,
  Total-sysext_refresh, Total-daemon_reload, Total-install_active,
)

-- ===== src/System/Queries.antt =====
-- Questions to other programs, the listing of images and the cleaning of what was interrupted end.
use carbide_os.Prelude.{ℕ, Option, none, some, List, [], ◌∷◌}
use carbide_os.Text.{Text}
use carbide_os.Host.{
  Host, FilePath, IoError, ErrorKind, not_found, invalid_data, other_kind, Result, ok, err,
}
use carbide_os.Effects.Total.{
  Total, total_rules, Total-bind, Total-attempt, Total-pure, Total-raise,
}
use carbide_os.Files.Total.{file_total_rules, Total-call}
use carbide_os.System.Durable.{durable_mode, durable_move}
use carbide_os.System.Command.{
  capture_mutating, acquire_component, list_component, stage_base_image, set_oneshot, sync_disks,
}
use carbide_os.System.Prune.{
  entries, candidate_files, prune_listed, prune_directory, prune_transaction_files_in,
  prune_transaction_files, clear_staged,
}
use carbide_os.System.Release.{
  validate_image, image_release, first_word, sha256, components, merged_extensions,
}
use carbide_os.System.Units.{remove_active}
use carbide_os.System.Base.{
  readable, installed_of, installed_extensions_for, or_raise, pending_of, pending_base_version,
  entry_among, boot_entry_of, pending_boot_entry, available_base_version, update_pending,
}
use carbide_os.System.Total.{
  Total-capture, Total-run, Total-run_mutating, Total-durable_copy, Total-durable_remove,
  Total-remove_all, Total-prune_matching_in,
}

module _ {h : Host} where
  pub Total-durable_mode : (p : FilePath) (mode : ℕ) → Total h (durable_mode p mode)
  unfolding durable_mode
  Total-durable_mode p mode = search (file_total_rules)

  pub Total-durable_move : (p q : FilePath) → Total h (durable_move p q)
  unfolding durable_move
  Total-durable_move p q = search (total_rules, Total-durable_copy, Total-durable_remove)

  Total-capture_mutating :
      (program : Text) (args : List Text) → Total h (capture_mutating program args)
  unfolding capture_mutating
  Total-capture_mutating program args = search (total_rules, Total-run_mutating)

  pub Total-acquire_component : (name : Text) (v : Option Text) → Total h (acquire_component name v)
  unfolding acquire_component
  Total-acquire_component name v = Total-capture_mutating _ _

  pub Total-list_component : (name : Text) → Total h (list_component name)
  unfolding list_component
  Total-list_component name = Total-capture _ _

  pub Total-stage_base_image : (v : Option Text) → Total h (stage_base_image v)
  unfolding stage_base_image
  Total-stage_base_image v = Total-capture_mutating _ _

  pub Total-set_oneshot : (entry : Text) → Total h (set_oneshot entry)
  unfolding set_oneshot
  Total-set_oneshot entry = Total-capture_mutating _ _

  pub Total-sync_disks : Total h sync_disks
  unfolding sync_disks
  Total-sync_disks = Total-capture_mutating _ _

  Total-entries : (names : List Text) → Total h (entries names)
  unfolding entries
  Total-entries [] = search (total_rules)
  Total-entries (name ∷ names) = Total-bind Total-call (λ _. Total-entries names)

  pub Total-candidate_files : Total h candidate_files
  unfolding candidate_files
  Total-candidate_files = search (file_total_rules, Total-entries)

  Total-absent_kind :
      (k : ErrorKind) (e : IoError) → Total h (prune_listed [] [] (err (record e { kind = k })))
  Total-absent_kind not_found e = search (total_rules)
  Total-absent_kind invalid_data e = search (total_rules)
  Total-absent_kind other_kind e = search (total_rules)

  Total-prune_listed :
      (staging directory : Text) (x : Result IoError (List Text))
      → Total h (prune_listed staging directory x)
  Total-prune_listed staging directory (ok names) = search (file_total_rules, Total-remove_all)
  Total-prune_listed staging directory (err e) = Total-absent_kind e.kind e

  Total-prune_directory : (staging directory : Text) → Total h (prune_directory staging directory)
  unfolding prune_directory
  Total-prune_directory staging directory = search (file_total_rules, Total-prune_listed)

  pub Total-prune_transaction_files : Total h prune_transaction_files
  unfolding prune_transaction_files prune_transaction_files_in
  Total-prune_transaction_files = search (total_rules, Total-prune_directory)

  pub Total-clear_staged : (name : Text) → Total h (clear_staged name)
  unfolding clear_staged
  Total-clear_staged name = Total-prune_matching_in _ _ _ _

  pub Total-validate_image : (p : FilePath) → Total h (validate_image p)
  unfolding validate_image
  Total-validate_image p = Total-capture _ _

  pub Total-image_release : (p : FilePath) → Total h (image_release p)
  unfolding image_release
  Total-image_release p = search (total_rules, Total-capture)

  Total-first_word : (l : List Text) → Total h (first_word l)
  Total-first_word [] = search (total_rules)
  Total-first_word (w ∷ l) = search (total_rules)

  pub Total-sha256 : (p : FilePath) → Total h (sha256 p)
  unfolding sha256
  Total-sha256 p = search (total_rules, Total-capture, Total-first_word)

  pub Total-components : {E : Type 0} → Total {E = E} h components
  unfolding components
  Total-components = search (total_rules, Total-capture)

  pub Total-merged_extensions : Total h merged_extensions
  unfolding merged_extensions
  Total-merged_extensions = search (total_rules, Total-run)

  pub Total-remove_active : (name : Text) → Total h (remove_active name)
  unfolding remove_active
  Total-remove_active name = search (total_rules, Total-durable_remove)

  Total-readable : {E : Type 0} (names : List Text) → Total {E = E} h (readable names)
  unfolding readable
  Total-readable [] = Total-pure []
  Total-readable (name ∷ names) =
      Total-bind (Total-attempt Total-call)
        λ answer. Total-bind (Total-readable names) (λ rest. Total-pure _)

  Total-installed_of :
      {E : Type 0} (suffix : Text) (x : Result IoError (List Text))
      → Total {E = E} h (installed_of suffix x)
  Total-installed_of suffix (ok l) = search (total_rules, Total-readable)
  Total-installed_of suffix (err e) = search (total_rules)

  pub Total-installed_extensions_for :
      {E : Type 0} (base : Text) → Total {E = E} h (installed_extensions_for base)
  unfolding installed_extensions_for
  Total-installed_extensions_for base = search (file_total_rules, Total-installed_of)

  pub Total-or_raise : {E A : Type 0} (x : Result E A) → Total h (or_raise x)
  Total-or_raise (ok a) = Total-pure a
  Total-or_raise (err e) = Total-raise e

  Total-pending_of : (id : Option Text) → Total h (pending_of id)
  Total-pending_of none = search (total_rules)
  Total-pending_of (some id) = search (file_total_rules, Total-readable, Total-or_raise)

  pub Total-pending_base_version : Total h pending_base_version
  unfolding pending_base_version
  Total-pending_base_version = search (total_rules, Total-pending_of)

  Total-entry_among :
      {E : Type 0} (prefix : Text) (x : Result IoError (List Text))
      → Total {E = E} h (entry_among prefix x)
  Total-entry_among prefix (ok l) = search (total_rules, Total-readable)
  Total-entry_among prefix (err e) = search (total_rules)

  Total-boot_entry_of :
      {E : Type 0} (version : Text) (id : Option Text) → Total {E = E} h (boot_entry_of version id)
  Total-boot_entry_of version none = search (total_rules)
  Total-boot_entry_of version (some id) = search (file_total_rules, Total-entry_among)

  pub Total-pending_boot_entry :
      {E : Type 0} (version : Text) → Total {E = E} h (pending_boot_entry version)
  unfolding pending_boot_entry
  Total-pending_boot_entry version = search (total_rules, Total-boot_entry_of)

  pub Total-available_base_version : Total h available_base_version
  unfolding available_base_version
  Total-available_base_version = search (total_rules, Total-run)

  pub Total-update_pending : {E : Type 0} → Total {E = E} h update_pending
  unfolding update_pending
  Total-update_pending = search (total_rules, Total-run)

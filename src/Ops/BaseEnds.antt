-- ===== src/Ops/BaseEnds.antt =====
-- Staging a base image ends (agent/src/ops.rs, `stage_base`).
use carbide_os.Prelude.{Option, none, some, List, [], ◌∷◌}
use carbide_os.Text.{Text}
use carbide_os.Host.{Host, FilePath, IoError, Result, ok, err}
use carbide_os.Effects.Total.{Total, total_rules, Total-bind, Total-pure, Total-raise}
use carbide_os.Files.Total.{Total-exists}
use carbide_os.System.Total.{Total-load}
use carbide_os.System.Queries.{
  Total-validate_image, Total-image_release, Total-installed_extensions_for,
  Total-merged_extensions, Total-pending_base_version, Total-pending_boot_entry,
  Total-available_base_version, Total-stage_base_image, Total-set_oneshot, Total-sync_disks,
}
use carbide_os.Ops.Base.{
  required_if_loaded, needed_extensions, verify_image, verify_names, verify_from,
  verify_extensions_for, base_target, entry_or_fail, select_entry, finish_base, download_base,
  base_or_nothing, stage_base,
}

module _ {h : Host} where
  Total-required_if_loaded : (x : Result IoError (Unit {0})) → Total h (required_if_loaded x)
  Total-required_if_loaded (ok _) = search (total_rules)
  Total-required_if_loaded (err e) = search (total_rules)

  Total-needed_extensions : (running : Text) → Total h (needed_extensions running)
  unfolding needed_extensions
  Total-needed_extensions running =
      search
        (
          total_rules, Total-installed_extensions_for, Total-merged_extensions, Total-load,
          Total-required_if_loaded,
        )
        depth 20

  Total-verify_image : (pending name : Text) (p : FilePath) → Total h (verify_image pending name p)
  unfolding verify_image
  Total-verify_image pending name p =
      search (total_rules, Total-exists, Total-validate_image, Total-image_release) depth 20

  Total-verify_names : (pending : Text) (names : List Text) → Total h (verify_names pending names)
  unfolding verify_names
  Total-verify_names pending [] = Total-pure tt
  Total-verify_names pending (name ∷ names) =
      Total-bind (Total-verify_image pending name _) (λ _. Total-verify_names pending names)

  Total-verify_from :
      (pending : Text) (running : Option Text) → Total h (verify_from pending running)
  Total-verify_from pending none = Total-raise _
  Total-verify_from pending (some running) =
      search (total_rules, Total-needed_extensions, Total-verify_names)

  Total-verify_extensions_for : (pending : Text) → Total h (verify_extensions_for pending)
  unfolding verify_extensions_for
  Total-verify_extensions_for pending = search (total_rules, Total-verify_from)

  Total-entry_or_fail : (pending : Text) (o : Option Text) → Total h (entry_or_fail pending o)
  Total-entry_or_fail pending none = Total-raise _
  Total-entry_or_fail pending (some entry) = Total-pure entry

  Total-select_entry : (pending : Text) → Total h (select_entry pending)
  unfolding select_entry
  Total-select_entry pending =
      search (total_rules, Total-pending_boot_entry, Total-entry_or_fail, Total-set_oneshot) depth
        20

  Total-finish_base : (target : Text) (pending : Option Text) → Total h (finish_base target pending)
  unfolding finish_base
  Total-finish_base target none = Total-pure _
  Total-finish_base target (some pending) =
      search (total_rules, Total-verify_extensions_for, Total-select_entry)

  Total-download_base : (target : Text) → Total h (download_base target)
  unfolding download_base
  Total-download_base target =
      search
        (
          total_rules, Total-verify_extensions_for, Total-stage_base_image, Total-sync_disks,
          Total-pending_base_version, Total-finish_base,
        )
        depth 30

  Total-base_target : (v : Option Text) → Total h (base_target v)
  Total-base_target none = search (total_rules, Total-available_base_version)
  Total-base_target (some v) = Total-pure _

  Total-base_or_nothing : (target : Option Text) → Total h (base_or_nothing target)
  Total-base_or_nothing none = Total-pure _
  Total-base_or_nothing (some target) = Total-download_base target

  pub Total-stage_base : (v : Option Text) → Total h (stage_base v)
  unfolding stage_base
  Total-stage_base v = search (total_rules, Total-base_target, Total-base_or_nothing)

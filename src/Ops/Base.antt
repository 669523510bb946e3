-- ===== src/Ops/Base.antt =====
-- Staging a base image (agent/src/ops.rs, `stage_base` and `verify_extensions_for`).
use carbide_os.Prelude.{
  ◌++◌, Bool, true, false, not, ◌&&◌, Option, none, some, List, [], ◌∷◌, if◌then◌else◌,
}
use carbide_os.Text.{Text, txt, same}
use carbide_os.State.{required_names}
use carbide_os.Host.{Host, FilePath, IoError, Result, ok, err}
use carbide_os.Effects.{
  Act, pure, raise, raise_with, get_host, get_world, attempt, ignore, skip, when, map_err, ◌>>=◌,
  ◌>>◌,
}
use carbide_os.Files.{exists}
use carbide_os.StateFile.{load}
use carbide_os.Protocol.{Failure, Stage, Code, failure, at}
use carbide_os.System.Slots.{os_version, version_valid, scoped_active_path}
use carbide_os.System.Prune.{sort}
use carbide_os.System.Command.{stage_base_image, set_oneshot, sync_disks}
use carbide_os.System.Release.{
  ImageRelease, validate_image, image_release, merged_extensions, shown,
}
use carbide_os.System.Base.{
  installed_extensions_for, pending_base_version, pending_boot_entry, available_base_version,
}
use carbide_os.Ops.Place.{program_failure, wrapped, is_text}

pub record StagedBase : Type 0 where
  pub version : Option Text
  pub pending : Bool
  pub boot_entry : Option Text

-- `dedup`: of equal neighbours the first one stays.
unfoldable pub dedup_after : Text → List Text → List Text
unfolding same
dedup_after last [] = []
dedup_after last (name ∷ names) =
    let rest = dedup_after name names in
    let kept = dedup_after last names in if same last name then kept else name ∷ rest

unfoldable pub dedup : List Text → List Text
unfolding dedup_after
dedup [] = []
dedup (name ∷ names) = name ∷ dedup_after name names

abbrev pub merged_or_none : Result IoError (List Text) → List Text
merged_or_none (ok merged) = merged
merged_or_none (err e) = []

abbrev pub required_if_loaded : Result IoError (Unit {0}) → Act Failure (List Text)
required_if_loaded (ok _) = get_world (λ w. required_names w.held)
required_if_loaded (err e) = pure []

-- Every extension that the incoming base must have an image of.
unfoldable pub needed_extensions : Text → Act Failure (List Text)
unfolding dedup
needed_extensions running = do
  installed ← installed_extensions_for running
  merged ← attempt merged_extensions
  loaded ← attempt load
  required ← required_if_loaded loaded
  pure (dedup (sort ((installed ++ merged_or_none merged) ++ required)))

-- What the image says of itself, against what it is to be.
unfoldable pub is_compatible : Text → Text → ImageRelease → Bool
unfolding is_text
is_compatible name pending release = is_text release.name name && is_text release.base pending

unfoldable pub verify_image : Text → Text → FilePath → Act Failure (Unit {0})
unfolding wrapped program_failure failure at is_compatible
verify_image pending name image = do
  present ← exists image
  when (not present) (
      raise (
        at Stage.checking (
          failure Code.precondition
            (name ++ (txt " is installed but has no image staged for " ++ pending)))))
  validated ←
      map_err
        (wrapped Code.failed Stage.validating
          (txt "could not validate " ++ (shown image ++ txt ": ")))
        (validate_image image)
  when (not validated.ok) (
      raise (
        program_failure Code.untrusted Stage.validating
          (name ++ (txt " has an untrusted image staged for " ++ pending)) validated))
  release ←
      map_err
        (wrapped Code.failed Stage.validating
          (txt "could not inspect " ++ (shown image ++ txt ": ")))
        (image_release image)
  when (not (is_compatible name pending release)) (
      raise (
        at Stage.validating (
          failure Code.base_mismatch
            (name ++ (txt " has an incompatible image staged for " ++ pending)))))

unfoldable pub verify_names : Text → List Text → Act Failure (Unit {0})
verify_names pending [] = skip
verify_names pending (name ∷ names) = do
  verify_image pending name (scoped_active_path name pending)
  verify_names pending names

abbrev pub verify_from : Text → Option Text → Act Failure (Unit {0})
verify_from pending none =
    raise (failure Code.failed (txt "could not read the running base version"))
verify_from pending (some running) =
    if same running pending then skip else needed_extensions running >>= verify_names pending

unfoldable pub verify_extensions_for : Text → Act Failure (Unit {0})
unfolding failure same
verify_extensions_for pending = get_host os_version >>= verify_from pending

abbrev is_unusable : Option Text → Bool
is_unusable none = false
is_unusable (some version) = not (version_valid version)

abbrev malformed_base : Option Text → Host → Failure
malformed_base none h = failure Code.malformed []
malformed_base (some version) h =
    failure Code.malformed (txt "unusable base version " ++ h.debug version)

-- An error of a query, while things were being checked.
abbrev pub checking_failure : Text → Failure
checking_failure error = at Stage.checking (failure Code.failed error)

abbrev pub base_target : Option Text → Act Failure (Option Text)
base_target (some version) = pure (some version)
base_target none = map_err checking_failure available_base_version

abbrev pub nothing_pending : Option Text → StagedBase
nothing_pending version = record { version = version; pending = false; boot_entry = none }

abbrev pub entry_or_fail : Text → Option Text → Act Failure Text
entry_or_fail pending (some entry) = pure entry
entry_or_fail pending none = raise (
    at Stage.staging
      (failure Code.failed (txt "no counted boot entry was written for " ++ pending)))

-- Select the boot entry of the base that is pending.
unfoldable pub select_entry : Text → Act Failure StagedBase
unfolding wrapped program_failure failure at
select_entry pending = do
  found ← pending_boot_entry pending
  entry ← entry_or_fail pending found
  selected ←
      map_err (wrapped Code.failed Stage.staging (txt "could not run bootctl: "))
        (set_oneshot entry)
  when (not selected.ok) (
      raise (
        program_failure Code.failed Stage.staging (txt "could not select the staged boot entry")
          selected))
  pure (record { version = some pending; pending = true; boot_entry = some entry })

abbrev another_pending : Text → Text → Failure
another_pending target pending = at Stage.checking (
    failure Code.precondition (
      txt "requested base "
      ++ (target ++ (txt ", but sysupdate left " ++ (pending ++ txt " pending")))))

-- What sysupdate left pending, if it left anything.
unfoldable pub finish_base : Text → Option Text → Act Failure StagedBase
unfolding same failure at
finish_base target none = pure (nothing_pending (some target))
finish_base target (some pending) = do
  when (not (same pending target)) (raise (another_pending target pending))
  verify_extensions_for pending
  select_entry pending

unfoldable pub download_base : Text → Act Failure StagedBase
unfolding wrapped program_failure failure at
download_base target = do
  verify_extensions_for target
  finished ←
      map_err (wrapped Code.failed Stage.staging (txt "could not run systemd-sysupdate: "))
        (stage_base_image (some target))
  when (not finished.ok) (
      raise
        (program_failure Code.failed Stage.staging (txt "could not stage the base image") finished))
  ignore sync_disks
  pending ← map_err checking_failure pending_base_version
  finish_base target pending

abbrev pub base_or_nothing : Option Text → Act Failure StagedBase
base_or_nothing none = pure (nothing_pending none)
base_or_nothing (some target) = download_base target

unfoldable pub stage_base : Option Text → Act Failure StagedBase
unfolding version_valid failure at
stage_base version = do
  when (is_unusable version) (raise_with (malformed_base version))
  target ← base_target version
  base_or_nothing target

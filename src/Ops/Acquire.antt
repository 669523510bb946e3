-- ===== src/Ops/Acquire.antt =====
-- Images that the agent fetches by itself (agent/src/ops.rs, `acquire` and `resolve_revision`).
use carbide_os.Prelude.{
  ℕ, ◌*◌, ◌++◌, Bool, true, false, not, Option, none, some, List, [], any, ltb,
}
use carbide_os.Text.{Text, txt, same}
use carbide_os.Host.{Host, FilePath}
use carbide_os.Effects.{
  Act, pure, raise, raise_with, get_host, attempt, ignore, when, map_err, ◌>>=◌, ◌>>◌,
}
use carbide_os.Files.{path, exists, file_len, create_dir_all}
use carbide_os.Protocol.{Failure, Stage, Code, failure, at, with_command, with_stderr}
use carbide_os.System.Slots.{staging_dir, version_valid}
use carbide_os.System.Space.{saturating_add}
use carbide_os.System.Prune.{clear_staged}
use carbide_os.System.Command.{Finished, acquire_component, list_component}
use carbide_os.System.Release.{components, parse_listed_versions}
use carbide_os.System.Base.{or_raise}
use carbide_os.Lifecycle.Activate.{io_failure}
use carbide_os.Ops.Revision.{newest_for_base}
use carbide_os.Ops.Space.{require_space}
use carbide_os.Ops.Place.{Placed, program_failure, wrapped, validate_and_place}

-- MAX_ACQUIRED_IMAGE
abbrev pub max_acquired_image : ℕ
max_acquired_image = 1024 * 1024 * 1024

-- What was staged, as the caller is told.
pub record Staged : Type 0 where
  pub name : Text
  -- the base version that the image is for
  pub version : Text
  pub path : Text
  pub acquired : Bool
  pub extension_version : Option Text
  pub for_running_base : Bool

abbrev pub staged_as : Text → Bool → Placed → Staged
staged_as name acquired placed = record {
  name = name;
  version = placed.base;
  path = placed.path;
  acquired = acquired;
  extension_version = placed.extension_version;
  for_running_base = placed.for_running_base;
}

abbrev listing_failure : Text → Finished → Failure
listing_failure message listed =
    with_stderr listed.stdout
      (with_command listed.command (at Stage.staging (failure Code.failed message)))

abbrev pub versions_or_fail : Text → Finished → Option (List Text) → Act Failure (List Text)
versions_or_fail name listed (some versions) = pure versions
versions_or_fail name listed none = raise (
    listing_failure
      (txt "could not read the " ++ (name ++ txt " versions systemd-sysupdate listed")) listed)

abbrev pub revision_or_fail : Text → Text → Finished → Option Text → Act Failure Text
revision_or_fail name base listed (some version) = pure version
revision_or_fail name base listed none = raise (
    with_command listed.command (
      at Stage.staging
        (failure Code.failed (txt "the feed offers no " ++ (name ++ (txt " image for " ++ base))))))

-- The newest image that the feed offers for a base.
unfoldable pub resolve_revision : Text → Text → Act Failure Text
unfolding wrapped program_failure failure at with_command with_stderr newest_for_base
resolve_revision name base = do
  listed ←
      map_err (wrapped Code.failed Stage.staging (txt "could not run systemd-sysupdate: "))
        (list_component name)
  when (not listed.ok) (
      raise (
        program_failure Code.failed Stage.staging
          (txt "could not list " ++ (name ++ txt " versions")) listed))
  parsed ← get_host (λ h. parse_listed_versions h listed.stdout)
  versions ← versions_or_fail name listed parsed
  revision_or_fail name base listed (newest_for_base base versions)

abbrev pub selected_version : Text → Text → Option Text → Act Failure Text
selected_version name base (some version) = pure version
selected_version name base none = resolve_revision name base

abbrev is_unusable : Option Text → Bool
is_unusable none = false
is_unusable (some version) = not (version_valid version)

abbrev malformed_version : Option Text → Host → Failure
malformed_version none h = failure Code.malformed []
malformed_version (some version) h =
    failure Code.malformed (txt "unusable extension version " ++ h.debug version)

abbrev too_large : ℕ → Host → Failure
too_large size h = at Stage.staging (
    failure Code.no_space (
      txt "acquired image is "
      ++ (h.decimal size ++ (txt " bytes; limit is " ++ h.decimal max_acquired_image))))

-- The closure of `acquire`.
unfoldable pub place_acquired : Text → Text → Text → Finished → FilePath → Act Failure Placed
unfolding io_failure failure at with_command with_stderr
place_acquired name base selected finished staged = do
  present ← exists staged
  when (not present) (
      raise (
        listing_failure
          (name ++ (txt " was acquired but no image for " ++ (selected ++ txt " is present")))
          finished))
  size ← map_err (io_failure Stage.staging) (file_len staged)
  when (ltb max_acquired_image size) (raise_with (too_large size))
  validate_and_place name (some base) staged

-- From the point where the version is known.
unfoldable pub fetch : Text → Text → Text → Act Failure Staged
unfolding wrapped program_failure
fetch name base selected = do
  finished ←
      map_err (wrapped Code.failed Stage.staging (txt "could not run systemd-sysupdate: "))
        (acquire_component name (some selected))
  when (not finished.ok) do
    ignore (clear_staged name)
    raise (program_failure Code.failed Stage.staging (txt "could not acquire " ++ name) finished)
  outcome ← attempt (
      place_acquired name base selected finished
        (path staging_dir (name ++ (txt "_" ++ (selected ++ txt ".raw")))))
  ignore (clear_staged name)
  placed ← or_raise outcome
  pure (staged_as name true placed)

unfoldable pub acquire : Text → Text → Option Text → Act Failure Staged
unfolding version_valid failure at same wrapped saturating_add
acquire name base version = do
  when (is_unusable version) (raise_with (malformed_version version))
  known ← components
  when (not (any (λ c. same c name) known)) (
      raise (
        at Stage.checking (
          failure Code.not_found
            (txt "no source is configured for " ++ (name ++ txt "; supply an image instead")))))
  map_err (wrapped Code.failed Stage.staging (txt "could not create extension staging directory: "))
      (create_dir_all staging_dir)
  require_space (saturating_add max_acquired_image (16 * 1024 * 1024))
  selected ← selected_version name base version
  fetch name base selected

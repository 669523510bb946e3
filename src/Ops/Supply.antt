-- ===== src/Ops/Supply.antt =====
-- Images that the caller supplies, and `stage_extension` (agent/src/ops.rs).
use carbide_os.Prelude.{
  ℕ, ◌++◌, Bool, true, false, not, Option, none, some, [], if◌then◌else◌, unwrap_or,
}
use mathlib.Core.List.{reverse}
use carbide_os.Text.{Text, txt, strip_prefix, starts_with, split_once, eq_ignore_ascii_case}
use carbide_os.Host.{Host, FilePath, IoError}
use carbide_os.Effects.{
  Act, pure, raise, raise_with, get_host, attempt, ignore, on_error, when, map_err, ◌>>=◌, ◌>>◌,
}
use carbide_os.Files.{path, call, lookup_file, exists, file_len, create_dir_all}
use carbide_os.Protocol.{Failure, Stage, Code, failure, at}
use carbide_os.System.Slots.{staging_dir, os_version, version_valid}
use carbide_os.System.Space.{staging_space}
use carbide_os.System.Durable.{durable_copy_file, durable_remove}
use carbide_os.System.Release.{sha256, shown}
use carbide_os.System.Base.{or_raise}
use carbide_os.Lifecycle.Activate.{io_failure}
use carbide_os.Ops.Space.{require_space}
use carbide_os.Ops.Place.{wrapped, is_text, rollback_room, validate_and_place}
use carbide_os.Ops.Acquire.{Staged, staged_as, acquire}

-- Where an image is coming from.
pub data Source : Type 0 where
  acquired : Option Text → Source
  supplied : Text → Text → Source

abbrev unusable_base : Text → Host → Failure
unusable_base base h = failure Code.malformed (txt "unusable base version " ++ h.debug base)

abbrev pub running_or_fail : Option Text → Act Failure Text
running_or_fail (some base) = pure base
running_or_fail none = raise (failure Code.failed (txt "could not read the running base version"))

-- The base version that an image is staged for.
unfoldable pub target_base : Option Text → Act Failure Text
unfolding version_valid failure
target_base (some base) = if version_valid base then pure base else raise_with (unusable_base base)
target_base none = get_host os_version >>= running_or_fail

-- The directory and the last component of a reversed path.
abbrev split_path : Option (Text × Text) → Text → FilePath
split_path none p = path [] p
split_path (some (name, dir)) p = path (reverse dir) (reverse name)

-- A path as the caller writes it; that `.`, `..` and repeated slashes are read away is not modelled.
unfoldable pub to_path : Text → FilePath
unfolding split_once
to_path p = split_path (split_once (reverse p) b'/') p

-- Whether the image counts as one for the running base.
abbrev pub counts_as_running : Option Text → Host → Bool
counts_as_running none h = true
counts_as_running (some requested) h = is_text (os_version h) requested

abbrev pub open_source : FilePath → Act IoError (Unit {0})
open_source source = call >>= λ t. lookup_file source >>= λ f. pure tt

abbrev digest_failure : Text → Text → Failure
digest_failure actual expected = at Stage.validating (
    failure Code.digest_mismatch
      (txt "image digest is " ++ (actual ++ (txt ", caller declared " ++ expected))))

abbrev pub expected_digest : Text → Text
expected_digest digest = unwrap_or (strip_prefix digest (txt "sha256:")) digest

-- Bind the private copy to the digest that the caller declared; a copy that does not match is removed.
unfoldable pub check_digest : FilePath → Text → Act Failure (Unit {0})
unfolding wrapped failure at strip_prefix eq_ignore_ascii_case
check_digest staging digest = do
  actual ←
      on_error
        (map_err (wrapped Code.failed Stage.validating (txt "could not digest the staged image: "))
          (sha256 staging))
        (λ failure. do ignore {F = Failure} (durable_remove staging); raise failure)
  when (not (eq_ignore_ascii_case actual (expected_digest digest)))
      do ignore (durable_remove staging); raise (digest_failure actual (expected_digest digest))

-- A private durable copy, outside of the directory that is merged.
unfoldable pub copy_in : FilePath → FilePath → ℕ → Act Failure (Unit {0})
unfolding wrapped
copy_in source staging image_size =
    map_err (wrapped Code.failed Stage.staging (txt "could not stage the image: "))
      (create_dir_all staging_dir >> durable_copy_file source staging image_size)

unfoldable pub take_supplied : Text → Option Text → FilePath → Text → Act Failure Staged
unfolding io_failure is_text
take_supplied name base source digest = do
  present ← exists source
  when (not present)
      (raise (at Stage.checking (failure Code.not_found (txt "no image at " ++ shown source))))
  map_err (io_failure Stage.checking) (open_source source)
  image_size ← map_err (io_failure Stage.checking) (file_len source)
  running ← get_host (counts_as_running base)
  rollback_size ← rollback_room name running
  require_space (staging_space image_size rollback_size)
  let staging = path staging_dir (name ++ txt ".raw")
  copy_in source staging image_size
  check_digest staging digest
  outcome ← attempt (validate_and_place name base staging)
  ignore (durable_remove staging)
  placed ← or_raise outcome
  pure (staged_as name false placed)

unfoldable pub supplied_image : Text → Option Text → Text → Text → Act Failure Staged
unfolding starts_with to_path
supplied_image name base p digest =
    if starts_with p (txt "/")
    then take_supplied name base (to_path p) digest
    else raise (failure Code.malformed (txt "an image path must be absolute"))

abbrev unusable_name : Text → Host → Failure
unusable_name name h = failure Code.malformed (txt "unusable extension name " ++ h.debug name)

abbrev pub base_or_running : Option Text → Act Failure Text
base_or_running (some base) = pure base
base_or_running none = target_base none

abbrev pub from_source : Text → Option Text → Source → Act Failure Staged
from_source name base (acquired version) =
    base_or_running base >>= λ selected. acquire name selected version
from_source name base (supplied p digest) = supplied_image name base p digest

unfoldable pub stage_extension : Text → Option Text → Source → Act Failure Staged
unfolding version_valid
stage_extension name base source =
    if version_valid name then from_source name base source else raise_with (unusable_name name)

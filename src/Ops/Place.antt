-- ===== src/Ops/Place.antt =====
-- `validate_and_place` (agent/src/ops.rs): a staged image is trusted, checked and put in its slot.
use carbide_os.Prelude.{
  ℕ, Bool, true, false, not, Option, none, some, [], ◌++◌, if◌then◌else◌, unwrap_or,
}
use carbide_os.Text.{Text, txt, same}
use carbide_os.State.{ExtensionState, staged}
use carbide_os.Host.{Host, FilePath, IoError}
use carbide_os.Effects.{
  Act, pure, raise, raise_with, get_host, ignore, on_error, skip, when, map_err, modify_entry,
  ◌>>=◌, ◌>>◌,
}
use carbide_os.Files.{file_len}
use carbide_os.StateFile.{load, store}
use carbide_os.Protocol.{
  Failure, Stage, Code, failure, at, with_command, with_exit_code, with_stderr,
}
use carbide_os.System.Slots.{os_version, scope, version_valid, candidate_path, scoped_active_path}
use carbide_os.System.Durable.{durable_mode, durable_move, durable_remove}
use carbide_os.System.Space.{activation_space}
use carbide_os.System.Prune.{prune_candidates}
use carbide_os.System.Command.{Finished}
use carbide_os.System.Release.{ImageRelease, validate_image, image_release, shown}
use carbide_os.Lifecycle.Activate.{io_failure}
use carbide_os.Ops.Space.{require_space, missing_rollback_size}

-- The failure of a program that ran and did not succeed.
unfoldable pub program_failure : Code → Stage → Text → Finished → Failure
unfolding failure at with_command with_exit_code with_stderr
program_failure code stage message finished =
    with_stderr finished.stderr (
      with_exit_code finished.code
        (with_command finished.command (at stage (failure code message))))

-- A failure with the message of an error behind a text of its own.
unfoldable pub wrapped : Code → Stage → Text → IoError → Failure
unfolding failure at
wrapped code stage message e = at stage (failure code (message ++ e.message))

-- `Some(text) == option`
unfoldable pub is_text : Option Text → Text → Bool
unfolding same
is_text none s = false
is_text (some t) s = same t s

abbrev usable : Option Text → Option Text
usable none = none
usable (some v) = if version_valid v then some v else none

-- What was put in place.
pub record Placed : Type 0 where
  pub path : Text
  -- the base that the image was placed for
  pub base : Text
  pub extension_version : Option Text
  pub for_running_base : Bool

unfoldable pub trust : Text → FilePath → Act Failure (Unit {0})
unfolding wrapped program_failure
trust name staging = do
  validated ←
      map_err (wrapped Code.failed Stage.validating (txt "could not validate the image: "))
        (validate_image staging)
  when (not validated.ok) (
      raise (
        program_failure Code.untrusted Stage.validating
          (name ++ txt " failed signed image validation") validated))

abbrev wrong_name : Text → Option Text → Host → Failure
wrong_name name declared h = at Stage.validating (
    failure Code.untrusted (
      txt "image declares extension "
      ++ (h.debug (unwrap_or declared (txt "none"))
          ++ (txt ", staging was requested for " ++ name))))

abbrev pub base_or_fail : Text → Option Text → Act Failure Text
base_or_fail name none = raise (
    at Stage.validating
      (failure Code.base_mismatch (name ++ txt " declares no usable base version")))
base_or_fail name (some base) = pure base

-- Only where the caller named a base.
abbrev pub mismatches : Option Text → Text → Bool
mismatches none declared = false
mismatches (some requested) declared = not (same declared requested)

abbrev base_mismatch_failure : Text → Text → Text → Failure
base_mismatch_failure name declared requested = at Stage.validating (
    failure Code.base_mismatch (
      name
      ++ (txt " declares base "
          ++ (declared ++ (txt ", staging was requested for " ++ requested)))))

-- The base that the image declares, checked against the name and the base that were asked for.
unfoldable pub declared_base : Text → Option Text → ImageRelease → Act Failure Text
unfolding is_text failure at version_valid
declared_base name requested release = do
  when (not (is_text release.name name)) (raise_with (wrong_name name release.name))
  base ← base_or_fail name (usable release.base)
  when (mismatches requested base)
      (raise (base_mismatch_failure name base (unwrap_or requested [])))
  pure base

abbrev pub candidate_or_fail : Text → Option Text → Act Failure FilePath
candidate_or_fail name none = raise (
    at Stage.validating (failure Code.failed (name ++ txt " declares no usable extension version")))
candidate_or_fail name (some version) =
    get_host scope >>= λ os. pure (candidate_path os name version)

-- A candidate for the running base, the slot itself for another one.
unfoldable pub target_of : Text → Text → Option Text → Bool → Act Failure FilePath
target_of name base version true = candidate_or_fail name version
target_of name base version false = pure (scoped_active_path name base)

unfoldable pub rollback_room : Text → Bool → Act Failure ℕ
unfolding io_failure
rollback_room name true = map_err (io_failure Stage.checking) (missing_rollback_size name)
rollback_room name false = pure 0

abbrev pub as_staged : Text → ExtensionState → ExtensionState
as_staged version e = record e { candidate_version = some version; phase = staged }

-- Record the candidate; one that cannot be recorded is removed.
unfoldable pub record_staged : Text → FilePath → Option Text → Act Failure (Unit {0})
unfolding wrapped failure at
record_staged name target none = skip
record_staged name target (some version) = do
  map_err (wrapped Code.failed Stage.staging (txt "could not read agent state: ")) load
  modify_entry name (as_staged version)
  on_error store λ error. do
    ignore (durable_remove target)
    raise (wrapped Code.failed Stage.staging (txt "could not record staged image: ") error)

-- From the point where the slot is known.
unfoldable pub place : Text → FilePath → Text → Option Text → Bool → FilePath → Act Failure Placed
unfolding io_failure wrapped
place name staging base version for_running_base target = do
  image_size ← map_err (io_failure Stage.staging) (file_len staging)
  rollback_size ← rollback_room name for_running_base
  require_space (activation_space image_size rollback_size)
  when for_running_base (
      map_err (wrapped Code.failed Stage.staging (txt "could not prune old candidates: "))
        (prune_candidates name none))
  map_err (wrapped Code.failed Stage.staging (txt "could not set staged image mode: "))
      (durable_mode staging 420)
  map_err (wrapped Code.failed Stage.staging (txt "could not place the image: "))
      (durable_move staging target)
  when for_running_base (record_staged name target version)
  pure (record {
    path = shown target;
    base = base;
    extension_version = version;
    for_running_base = for_running_base;
  })

unfoldable pub validate_and_place : Text → Option Text → FilePath → Act Failure Placed
unfolding wrapped is_text version_valid
validate_and_place name requested staging = do
  trust name staging
  release ←
      map_err (wrapped Code.failed Stage.validating (txt "could not read the image: "))
        (image_release staging)
  base ← declared_base name requested release
  running ← get_host os_version
  let for_running_base = is_text running base
  let version = usable release.version
  target ← target_of name base version for_running_base
  place name staging base version for_running_base target

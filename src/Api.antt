-- ===== src/Api.antt =====
-- The privileged socket (agent/src/api.rs). A handler never fails: its failure is a reply.
pub mod Answers
pub mod Refusals
use carbide_os.Prelude.{
  ℕ, Bool, true, false, not, ◌||◌, Option, none, some, List, [], ◌∷◌, ◌++◌, map, if◌then◌else◌,
  unwrap_or, length, ltb, min, max,
}
use carbide_os.Text.{Text, txt, same, trim}
use carbide_os.Host.{Host, IoError, Result, ok, err, Json, bool, num, str}
use carbide_os.Effects.{Act, pure, raise, raise_with, get_host, attempt, ◌>>=◌, ◌>>◌}
use carbide_os.Protocol.{Failure, Stage, Code, failure, at, commands, unsupported_command}
use carbide_os.Protocol.Reply.{
  Reply, ok_reply, failed_reply, with_field, maybe_field, text_value, list_value, text_field,
  number_field,
}
use carbide_os.System.Slots.{os_version, version_valid}
use carbide_os.System.Release.{components}
use carbide_os.System.Base.{available_base_version, update_pending}
use carbide_os.System.Journal.{journal}
use carbide_os.Lifecycle.Reconcile.{reconcile_state}
use carbide_os.Lifecycle.Activate.{Activation}
use carbide_os.Lifecycle.Activate
use carbide_os.Lock.{try_acquire}
use carbide_os.Ops.Acquire.{Staged}
use carbide_os.Ops.Supply.{Source, acquired, supplied}
use carbide_os.Ops.Supply
use carbide_os.Ops.Base.{StagedBase, checking_failure}
use carbide_os.Ops.Base

-- CARGO_PKG_VERSION
abbrev pub agent_version : Text
agent_version = txt "0.2.0"

abbrev pub malformed : {E : Type 0} → Text → Act E Reply
malformed message = pure (failed_reply (failure Code.malformed message))

-- `match operation { Ok(a) => ..., Err(failure) => Reply::failed(failure) }`
abbrev pub reply_of : {A : Type 0} → (A → Reply) → Result Failure A → Reply
reply_of f (ok a) = f a
reply_of f (err failure) = failed_reply failure

unfoldable pub replying : {E A : Type 0} → (A → Reply) → Act Failure A → Act E Reply
replying f operation = attempt operation >>= λ r. pure (reply_of f r)

unfoldable pub busy : Reply
unfolding failed_reply failure
busy = failed_reply (failure Code.busy (txt "another privileged operation is in flight"))

abbrev pub after_reconcile : {E : Type 0} → Act E Reply → Result Text (Unit {0}) → Act E Reply
after_reconcile operation (ok _) = operation
after_reconcile operation (err error) =
    pure
      (failed_reply (failure Code.failed (txt "could not reconcile interrupted work: " ++ error)))

abbrev pub with_lock : {E : Type 0} → Act E Reply → Result IoError Bool → Act E Reply
with_lock operation (err error) =
    pure (
      failed_reply
        (failure Code.failed (txt "could not acquire operation lock: " ++ error.message)))
with_lock operation (ok false) = pure busy
with_lock operation (ok true) = attempt reconcile_state >>= after_reconcile operation

-- An operation that has the lock, after interrupted work is put right.
unfoldable pub exclusive : {E : Type 0} → Act E Reply → Act E Reply
exclusive operation = attempt try_acquire >>= with_lock operation

unfoldable pub hello : {E : Type 0} → Act E Reply
hello = do
  names ← components
  version ← get_host os_version
  pure (
      maybe_field (txt "base_version") (text_value version) (
        with_field (txt "components") (list_value names) (
          with_field (txt "capabilities") (list_value commands)
            (with_field (txt "agent_version") (str agent_version) ok_reply))))

abbrev pub update_answer : {E : Type 0} → Result Text (Option Text) → Act E Reply
update_answer (err error) = pure (failed_reply (checking_failure error))
update_answer (ok available) = update_pending >>= λ pending. pure (
    with_field (txt "pending") (bool pending)
      (maybe_field (txt "available") (text_value available) ok_reply))

unfoldable pub update_status : {E : Type 0} → Act E Reply
update_status = attempt available_base_version >>= update_answer

unfoldable pub staged_reply : Staged → Reply
unfolding ok_reply with_field maybe_field
staged_reply s = maybe_field (txt "extension_version") (text_value s.extension_version) (
    with_field (txt "for_running_base") (bool s.for_running_base) (
      with_field (txt "acquired") (bool s.acquired) (
        with_field (txt "staged") (str s.path) (
          with_field (txt "version") (str s.version)
            (with_field (txt "name") (str s.name) ok_reply)))))

abbrev pub is_usable : Option Text → Bool
is_usable none = true
is_usable (some base) = version_valid base

abbrev unusable_base : Option Text → Host → Failure
unusable_base base h =
    failure Code.malformed (txt "unusable base version " ++ h.debug (unwrap_or base []))

abbrev pub source_of : Option Text → Option Text → Option Text → Result Text Source
source_of none digest version = ok (acquired version)
source_of (some p) none version = err (txt "a supplied image must declare a digest")
source_of (some p) (some digest) version = ok (supplied p digest)

abbrev pub stage_from : {E : Type 0} → Text → Option Text → Result Text Source → Act E Reply
stage_from name base (err message) = malformed message
stage_from name base (ok source) = replying staged_reply (Supply.stage_extension name base source)

abbrev pub stage_named : {E : Type 0} → Json → Option Text → Act E Reply
stage_named request none = malformed (txt "stage-extension needs a name")
stage_named request (some name) =
    if is_usable (text_field (txt "base") request)
    then stage_from name (text_field (txt "base") request) (
        source_of (text_field (txt "path") request) (text_field (txt "digest") request)
          (text_field (txt "version") request))
    else get_host (unusable_base (text_field (txt "base") request)) >>= λ f. pure (failed_reply f)

unfoldable pub stage_extension : {E : Type 0} → Json → Act E Reply
stage_extension request = stage_named request (text_field (txt "name") request)

unfoldable pub activation_reply : Text → Activation → Reply
unfolding ok_reply with_field maybe_field
activation_reply name a = maybe_field (txt "known_good") (text_value a.known_good) (
    with_field (txt "replayed") (bool a.replayed) (
      with_field (txt "phase") (str (txt "active"))
        (with_field (txt "version") (str a.version) (with_field (txt "name") (str name) ok_reply))))

abbrev pub activate_named : {E : Type 0} → Option Text → Option Text → Option Text → Act E Reply
activate_named request_id none version = malformed (txt "activate-extension needs a name")
activate_named request_id (some name) none = malformed (txt "activate-extension needs a version")
activate_named request_id (some name) (some version) =
    if not (version_valid name) || not (version_valid version)
    then malformed (txt "unusable name or version")
    else replying (activation_reply name) (Activate.activate_extension name version request_id)

unfoldable pub activate_extension : {E : Type 0} → Json → Act E Reply
activate_extension request =
    activate_named (text_field (txt "request_id") request) (text_field (txt "name") request)
      (text_field (txt "version") request)

unfoldable pub base_reply : StagedBase → Reply
unfolding ok_reply with_field maybe_field
base_reply s = maybe_field (txt "boot_entry") (text_value s.boot_entry) (
    with_field (txt "pending") (bool s.pending)
      (maybe_field (txt "version") (text_value s.version) ok_reply))

unfoldable pub stage_base : {E : Type 0} → Json → Act E Reply
stage_base request = replying base_reply (Base.stage_base (text_field (txt "version") request))

-- MAX_LINES
abbrev pub max_lines : ℕ
max_lines = 2000

-- How many lines of the journal a request gets.
unfoldable pub requested_lines : Option ℕ → ℕ
requested_lines lines = min (max (unwrap_or lines 200) 1) max_lines

unfoldable pub logs_reply : ℕ → List Text × Option Text → Reply
unfolding ok_reply with_field maybe_field
logs_reply lines (collected, next) = with_field (txt "eof") (bool (ltb (length collected) lines)) (
    maybe_field (txt "cursor") (text_value next)
      (with_field (txt "lines") (list_value collected) ok_reply))

abbrev pub logs_answer : ℕ → Result IoError (List Text × Option Text) → Reply
logs_answer lines (ok answer) = logs_reply lines answer
logs_answer lines (err error) =
    failed_reply (checking_failure (txt "could not read the journal: " ++ error.message))

unfoldable pub logs : {E : Type 0} → Json → Act E Reply
logs request =
    attempt (
      journal (text_field (txt "unit") request)
        (requested_lines (number_field (txt "lines") request)) (text_field (txt "cursor") request)
        (text_field (txt "priority") request))
    >>= λ answer. pure (logs_answer (requested_lines (number_field (txt "lines") request)) answer)

abbrev pub handle : {E : Type 0} → Json → Text → Act E Reply
handle request command =
    if same command (txt "hello")
    then hello
    else if same command (txt "update-status")
    then update_status
    else if same command (txt "stage-extension")
    then exclusive (stage_extension request)
    else if same command (txt "activate-extension")
    then exclusive (activate_extension request)
    else if same command (txt "stage-base")
    then exclusive (stage_base request)
    else if same command (txt "logs")
    then logs request
    else get_host (λ h. failed_reply (unsupported_command h command))

abbrev pub dispatch_to : {E : Type 0} → Json → Option Text → Act E Reply
dispatch_to request none = malformed (txt "request has no command")
dispatch_to request (some command) = handle request command

unfoldable pub dispatch : {E : Type 0} → Json → Act E Reply
dispatch request = dispatch_to request (text_field (txt "command") request)

abbrev unreadable : Text → Host → Reply
unreadable line h =
    failed_reply (failure Code.malformed (txt "unreadable request: " ++ h.json_error line))

abbrev pub answer_to : {E : Type 0} → Text → Option Json → Act E Reply
answer_to line none = get_host (unreadable line)
answer_to line (some request) = dispatch request

-- `serve_connection` from the line that was read to the reply that is written.
unfoldable pub answer_line : {E : Type 0} → Text → Act E Reply
answer_line line = get_host (λ h. h.parse_json (trim line)) >>= answer_to (trim line)

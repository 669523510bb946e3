-- ===== src/Cli.antt =====
-- The command line (agent/src/main.rs). What is printed is not kept.
pub mod Options
use mathlib.Core.Option
use carbide_os.Prelude.{
  Bool, true, false, not, ◌||◌, Option, none, some, List, [], ◌∷◌, ◌++◌, if◌then◌else◌, any,
}
use carbide_os.Text.{Text, txt, same, starts_with, trim}
use carbide_os.Host.{Host, IoError, Result, ok, err}
use carbide_os.Effects.{
  Act, pure, raise, raise_with, lift, get_host, get_world, moment, attempt, map_err, skip, ◌>>=◌,
  ◌>>◌,
}
use carbide_os.Files.{path}
use carbide_os.StateFile.{load, stringly}
use carbide_os.Protocol.{Failure}
use carbide_os.Ops.Acquire.{Staged}
use carbide_os.Ops.Supply.{Source, acquired, supplied}
use carbide_os.Ops.Supply
use carbide_os.Ops.Base.{StagedBase}
use carbide_os.Ops.Base
use carbide_os.Lifecycle.Gate.{health_gate}
use carbide_os.Lifecycle.Removal.{rollback_command, remove_extension, set_required, reset}
use carbide_os.Lifecycle.Activate.{activate_extension, adopt}
use carbide_os.Lock.{locked}

-- What follows the first argument that is `name`.
unfoldable pub option : List Text → Text → Option Text
unfolding same
option [] name = none
option (argument ∷ []) name = none
option (argument ∷ next ∷ rest) name =
    let later = option (next ∷ rest) name in if same argument name then some next else later

abbrev line_of : Text → Option Text → Text
line_of label none = []
line_of label (some s) = txt "\n  " ++ (label ++ s)

-- A structured failure as text.
unfoldable pub describe : Host → Failure → Text
unfolding trim
describe h f =
    f.message
    ++ (line_of (txt "command: ") f.command
        ++ (line_of (txt "exit: ") (Option.map h.decimal f.exit_code)
            ++ line_of (txt "stderr: ") (Option.map trim f.stderr)))

abbrev pub described_answer : {A : Type 0} → Result Failure A → Act Text A
described_answer (ok a) = pure a
described_answer (err failure) = raise_with (λ h. describe h failure)

-- `.map_err(|f| describe(&f))`
unfoldable pub described : {A : Type 0} → Act Failure A → Act Text A
described operation = attempt operation >>= described_answer

abbrev pub source_option : Option Text → Option Text → Option Text → Result Text Source
source_option none digest version = ok (acquired version)
source_option (some p) none version = err (txt "a supplied image must declare --digest")
source_option (some p) (some digest) version = ok (supplied p digest)

abbrev trimmed : Result IoError Text → Option Text
trimmed (ok id) = some (trim id)
trimmed (err e) = none

-- A random request id, if the system gives one.
unfoldable pub random_id : {E : Type 0} → Act E (Option Text)
random_id = do
  t ← moment
  answer ← get_host (λ h. h.usr t (path (txt "/proc/sys/kernel/random") (txt "uuid")))
  pure (trimmed answer)

abbrev pub activate_staged : Text → Option Text → Act Text (Unit {0})
activate_staged name none = raise (name ++ txt " declares no usable extension version")
activate_staged name (some version) =
    random_id >>= λ id. described (activate_extension name version id) >>= λ a. pure tt

-- Only an image for the running base is activated, and only if that was asked for.
abbrev pub after_staging : Text → Bool → Staged → Act Text (Unit {0})
after_staging name activate staged =
    if not activate || not staged.for_running_base
    then skip
    else activate_staged name staged.extension_version

abbrev pub stage_with : Text → List Text → Result Text Source → Act Text (Unit {0})
stage_with name arguments (err message) = raise message
stage_with name arguments (ok source) =
    described (Supply.stage_extension name (option arguments (txt "--base")) source)
    >>= after_staging name (any (λ a. same a (txt "--activate")) arguments)

unfoldable pub stage_extension : List Text → Act Text (Unit {0})
unfolding starts_with same option
stage_extension [] = raise (txt "usage: carbide-agent stage-extension NAME [options]")
stage_extension (name ∷ rest) =
    if starts_with name (txt "--")
    then raise (txt "usage: carbide-agent stage-extension NAME [options]")
    else stage_with name (name ∷ rest) (
        source_option (option (name ∷ rest) (txt "--path")) (option (name ∷ rest) (txt "--digest"))
          (option (name ∷ rest) (txt "--version")))

abbrev pub requested_base : List Text → Option Text
requested_base [] = none
requested_base (value ∷ rest) = if starts_with value (txt "--") then none else some value

unfoldable pub stage_base : List Text → Act Text (Unit {0})
unfolding starts_with
stage_base arguments = described (Base.stage_base (requested_base arguments)) >>= λ staged. pure tt

abbrev activate_usage : Text
activate_usage = txt "usage: carbide-agent activate NAME VERSION"

abbrev pub first_of : List Text → Option Text
first_of [] = none
first_of (a ∷ l) = some a

unfoldable pub activate : List Text → Act Text (Unit {0})
activate [] = raise activate_usage
activate (name ∷ []) = raise activate_usage
activate (name ∷ version ∷ rest) =
    map_err (λ failure. failure.message) (activate_extension name version (first_of rest)) >>= λ a.
    pure tt

unfoldable pub status : Act Text (Unit {0})
status = do
  stringly load
  held ← get_world (λ w. w.held)
  encoded ← get_host (λ h. h.encode held)
  lift encoded
  pure tt

-- `main` from the arguments to the result, with `api::serve` as a parameter.
unfoldable pub run_command :
    (Option Text → Act Text (Unit {0})) → Text → List Text → Act Text (Unit {0})
unfolding same
run_command serve command arguments =
    if same command (txt "health-gate")
    then locked health_gate
    else if same command (txt "activate")
    then locked (activate arguments)
    else if same command (txt "stage-extension")
    then locked (stage_extension arguments)
    else if same command (txt "stage-base")
    then locked (stage_base arguments)
    else if same command (txt "adopt")
    then locked (adopt arguments)
    else if same command (txt "rollback")
    then locked (rollback_command arguments)
    else if same command (txt "remove")
    then locked (remove_extension arguments)
    else if same command (txt "require")
    then locked (set_required arguments true)
    else if same command (txt "unrequire")
    then locked (set_required arguments false)
    else if same command (txt "reset")
    then locked (reset arguments)
    else if same command (txt "status")
    then status
    else if same command (txt "serve")
    then serve (first_of arguments)
    else if same command (txt "help") || (same command (txt "--help") || same command (txt "-h"))
    then skip
    else raise_with (λ h. txt "unknown command " ++ h.debug command)

unfoldable pub main : (Option Text → Act Text (Unit {0})) → List Text → Act Text (Unit {0})
main serve [] = run_command serve (txt "help") []
main serve (command ∷ arguments) = run_command serve command arguments

-- ===== src/System/Command.antt =====
-- Running other programs (agent/src/system.rs).
use carbide_os.Prelude.{
  ℕ, Bool, false, Option, none, some, List, [], ◌∷◌, ◌++◌, ◌==◌, if◌then◌else◌,
}
use carbide_os.Text.{Text, txt, parse_uint, lines, trim}
use carbide_os.Host.{IoError, Output}
use carbide_os.Effects.{
  Act, blocked, pure, raise, lift, halt, get_host, get_world, moment, ◌>>=◌, ◌>>◌,
}
use carbide_os.Files.{change, io_error}
use carbide_os.System.Slots.{extensions_dir}

-- `output.status.success()`
abbrev pub succeeded : Output → Bool
succeeded o = elim o.code [ none ↦ false | some n ↦ n == 0 ]

-- The answer of a program that returns.
abbrev pub answered : ℕ → Text → List Text → Act IoError Output
answered t program args = do
  fs ← get_world (λ w. w.fs)
  answer ← get_host (λ h. h.exec t program args fs)
  lift answer

-- `Command::output`, which waits for as long as the program runs.
unfoldable pub run : Text → List Text → Act IoError Output
run program args = do
  t ← moment
  stuck ← get_host (λ h. h.blocks t program args)
  if stuck then halt blocked else answered t program args

abbrev pub take_effect : ℕ → Text → List Text → Act IoError (Unit {0})
take_effect t program args h w = change (h.effect t program args) h w

-- A program that was started may change the files, also where it never returns. The lock descriptor that
-- it inherits is not modelled here.
unfoldable pub run_mutating : Text → List Text → Act IoError Output
run_mutating program args = do
  t ← moment
  stuck ← get_host (λ h. h.blocks t program args)
  if stuck
      then (do take_effect t program args; halt blocked)
      else (do output ← answered t program args; take_effect t program args; pure output)

-- A finished command, kept whole.
pub record Finished : Type 0 where
  pub command : Text
  pub code : Option ℕ
  pub stdout : Text
  pub stderr : Text
  pub ok : Bool

unfoldable pub command_line : Text → List Text → Text
command_line command [] = command
command_line command (argument ∷ args) = command_line (command ++ (txt " " ++ argument)) args

unfoldable pub finished : Text → List Text → Output → Finished
unfolding command_line
finished program args output = record {
  command = command_line program args;
  code = output.code;
  stdout = output.stdout;
  stderr = output.stderr;
  ok = succeeded output;
}

unfoldable pub capture : Text → List Text → Act IoError Finished
unfolding finished
capture program args = do output ← run program args; pure (finished program args output)

unfoldable pub capture_mutating : Text → List Text → Act IoError Finished
unfolding finished
capture_mutating program args = do
  output ← run_mutating program args
  pure (finished program args output)

-- The second line of what `df` prints.
abbrev second : List Text → Option Text
second (a ∷ b ∷ l) = some b
second l = none

unfoldable pub parse_available : Text → Option ℕ
unfolding lines trim parse_uint
parse_available stdout = elim (second (lines stdout)) [
  | none ↦ none
  | some line ↦ parse_uint 0x1_0000_0000_0000_0000 (trim line)
]

abbrev pub available_of : Option ℕ → Act IoError ℕ
available_of none = raise (io_error "could not read available space")
available_of (some n) = pure n

abbrev pub read_available : Output → Act IoError ℕ
read_available output =
    if succeeded output
    then available_of (parse_available output.stdout)
    else raise (io_error "df failed")

unfoldable pub available_bytes : Act IoError ℕ
available_bytes = do
  output ← run (txt "/usr/bin/df") (txt "--output=avail" ∷ txt "-B1" ∷ extensions_dir ∷ [])
  read_available output

abbrev pub sysupdate : Text
sysupdate = txt "/usr/lib/systemd/systemd-sysupdate"

abbrev pub dissect : Text
dissect = txt "/usr/bin/systemd-dissect"

abbrev pub systemctl : Text
systemctl = txt "/usr/bin/systemctl"

abbrev pub sysext : Text
sysext = txt "/usr/bin/systemd-sysext"

-- `--image-policy=` with IMAGE_POLICY
abbrev pub policy_flag : Text
policy_flag = txt "--image-policy=root=verity+signed+absent:usr=verity+signed+absent"

abbrev pub with_version : Option Text → List Text
with_version none = []
with_version (some v) = v ∷ []

unfoldable pub acquire_component : Text → Option Text → Act IoError Finished
acquire_component name version =
    capture_mutating sysupdate ((txt "--component=" ++ name) ∷ txt "update" ∷ with_version version)

unfoldable pub list_component : Text → Act IoError Finished
list_component name =
    capture sysupdate ((txt "--component=" ++ name) ∷ txt "--json=short" ∷ txt "list" ∷ [])

unfoldable pub stage_base_image : Option Text → Act IoError Finished
stage_base_image version = capture_mutating sysupdate (txt "update" ∷ with_version version)

unfoldable pub set_oneshot : Text → Act IoError Finished
set_oneshot entry = capture_mutating (txt "/usr/bin/bootctl") (txt "set-oneshot" ∷ entry ∷ [])

unfoldable pub sync_disks : Act IoError Finished
sync_disks = capture_mutating (txt "/usr/bin/sync") []

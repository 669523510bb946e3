-- ===== src/Protocol.antt =====
-- agent/src/protocol.rs: failures and replies.
pub mod Tail
pub mod Reply
use carbide_os.Prelude.{
  ℕ, String, ◌+◌, ◌-◌, Bool, true, false, Option, none, some, List, [], ◌∷◌, ◌++◌, map,
  if◌then◌else◌, ltb, leb,
}
use carbide_os.Text.{Text, txt, is_empty, trim}
use carbide_os.Host.{Host, IoError}

-- How far the agent got before it failed.
pub data Stage : Type 0 where
  checking validating staging activating soaking reverting : Stage

pub data Code : Type 0 where
  unsupported malformed not_found digest_mismatch untrusted base_mismatch busy no_space : Code
  precondition failed : Code

pub record Failure : Type 0 where
  pub code : Code
  pub message : Text
  pub stage : Option Stage
  pub command : Option Text
  pub exit_code : Option ℕ
  pub stderr : Option Text
  pub unit : Option Text
  pub log : List Text
  pub supported : List Text

-- `Failure::new`
unfoldable pub failure : Code → Text → Failure
failure code message = record {
  code = code;
  message = message;
  stage = none;
  command = none;
  exit_code = none;
  stderr = none;
  unit = none;
  log = [];
  supported = [];
}

-- `Failure::at`
unfoldable pub at : Stage → Failure → Failure
at stage f = record f { stage = some stage }

unfoldable pub with_command : Text → Failure → Failure
with_command command f = record f { command = some command }

unfoldable pub with_exit_code : Option ℕ → Failure → Failure
with_exit_code code f = record f { exit_code = code }

abbrev pub stderr_limit : ℕ
stderr_limit = 4096

-- `char::len_utf8`
unfoldable pub len_utf8 : ℕ → ℕ
len_utf8 c = if ltb c 128 then 1 else if ltb c 2048 then 2 else if ltb c 65536 then 3 else 4

-- `str::len`, in bytes
unfoldable pub byte_len : Text → ℕ
unfolding len_utf8
byte_len [] = 0
byte_len (c ∷ s) = len_utf8 c + byte_len s

-- The text from its first character that begins at or after the byte `start`.
unfoldable pub from_byte : Text → ℕ → Text
unfolding len_utf8
from_byte [] start = []
from_byte (c ∷ s) start =
    let later = from_byte s (start - len_utf8 c) in if leb start 0 then c ∷ s else later

-- The tail of an error text, which is where a program says why it gave up.
unfoldable pub with_stderr : Text → Failure → Failure
unfolding trim byte_len from_byte
with_stderr stderr f =
    let text = trim stderr in
    if is_empty text
    then f
    else if ltb stderr_limit (byte_len text)
    then record f { stderr = some (txt "..." ++ from_byte text (byte_len text - stderr_limit)) }
    else record f { stderr = some text }

unfoldable pub with_unit : Text → Failure → Failure
with_unit unit f = record f { unit = some unit }

unfoldable pub with_log : List Text → Failure → Failure
with_log lines f = record f { log = lines }

abbrev pub commands : List Text
commands = map txt (
    "hello" ∷ "update-status" ∷ "stage-extension" ∷ "activate-extension" ∷ "stage-base" ∷ "logs"
    ∷ [])

unfoldable pub unsupported_command : Host → Text → Failure
unfolding failure
unsupported_command h command =
    record (failure unsupported (txt "unknown command " ++ h.debug command)) {
      supported = commands;
    }

-- ===== src/Ops/Space.antt =====
-- Room for what is staged (agent/src/ops.rs).
use carbide_os.Prelude.{ℕ, Bool, false, Option, none, some, if◌then◌else◌, leb}
use carbide_os.Text.{Text}
use carbide_os.Host.{IoError, not_found, invalid_data, other_kind, ErrorKind, Result, ok, err}
use carbide_os.Effects.{
  Act, pure, raise, raise_with, get_host, attempt, skip, map_err, get_entry, ◌>>=◌, ◌>>◌,
}
use carbide_os.Files.{exists, file_len}
use carbide_os.StateFile.{load}
use carbide_os.Protocol.{Failure, Stage}
use carbide_os.System.Slots.{scope, active_path, rollback_path}
use carbide_os.System.Command.{available_bytes}
use carbide_os.Lifecycle.Recover.{known_good_of}
use carbide_os.Lifecycle.Activate.{io_failure, insufficient}

unfoldable pub require_space : ℕ → Act Failure (Unit {0})
unfolding io_failure
require_space required = do
  available ← map_err (io_failure Stage.checking) available_bytes
  if leb required available then skip else raise_with (insufficient required available)

-- The size of a file that may be missing.
abbrev pub absent_is_empty : ErrorKind → IoError → Act IoError ℕ
absent_is_empty not_found e = pure 0
absent_is_empty invalid_data e = raise e
absent_is_empty other_kind e = raise e

abbrev pub size_or_none : Result IoError ℕ → Act IoError ℕ
size_or_none (ok size) = pure size
size_or_none (err e) = absent_is_empty e.kind e

-- Whether the known-good version has its rollback copy.
unfoldable pub is_retained : {E : Type 0} → Text → Option Text → Act E Bool
is_retained name none = pure false
is_retained name (some version) = do os ← get_host scope; exists (rollback_path os name version)

-- It loads a state of its own.
unfoldable pub missing_rollback_size : Text → Act IoError ℕ
missing_rollback_size name = do
  load
  entry ← get_entry name
  retained ← is_retained name (known_good_of entry)
  if retained
      then pure 0
      else do slot ← active_path name; size ← attempt (file_len slot); size_or_none size

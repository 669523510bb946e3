-- ===== src/System/Durable.antt =====
-- Publishing and removing files so that a crash leaves the old or the new one (agent/src/system.rs).
pub mod Keeps
pub mod Atomic
use carbide_os.Prelude.{ℕ, ◌+◌, Bool, Option, none, some, List, if◌then◌else◌, ltb, length, take}
use carbide_os.Text.{txt}
use carbide_os.Host.{
  Host, World, FilePath, IoError, not_found, invalid_data, other_kind, Result, ok, err,
}
use carbide_os.Effects.{Act, pure, raise, lift, get_host, attempt, ignore, skip, when, ◌>>=◌, ◌>>◌}
use carbide_os.Files.{
  call, lookup_file, read_file, file_len, remove_file, create_dir_all, create_new, write_all,
  set_permissions, sync_all, sync_dir, rename,
}
use carbide_os.System.Slots.{temporary_path}
use carbide_os.System.Space.{saturating_add}

-- `input.metadata()?.permissions()`
unfoldable pub permissions : FilePath → Act IoError ℕ
permissions p = do call; f ← lookup_file p; pure f.mode

abbrev pub grown : IoError
grown = record { kind = invalid_data; message = txt "source grew beyond its reserved size" }

-- The closure of `durable_copy_file`.
unfoldable pub publish : FilePath → FilePath → ℕ → ℕ → Act IoError (Unit {0})
publish input target maximum mode = do
  let temporary = temporary_path target
  create_new temporary
  content ← read_file input
  let copied = take (saturating_add maximum 1) content
  write_all temporary copied
  when (ltb maximum (length copied)) (raise grown)
  set_permissions temporary mode
  sync_all temporary
  rename temporary target
  sync_dir target.dir

-- What follows the closure: a failure removes the temporary file.
unfoldable pub settle : FilePath → Result IoError (Unit {0}) → Act IoError (Unit {0})
settle temporary (ok _) = skip
settle temporary (err e) = do ignore {F = IoError} (remove_file temporary); raise e

unfoldable pub durable_copy_file : FilePath → FilePath → ℕ → Act IoError (Unit {0})
durable_copy_file input target maximum = do
  create_dir_all target.dir
  ignore (remove_file (temporary_path target))
  mode ← permissions input
  result ← attempt (publish input target maximum mode)
  settle (temporary_path target) result

unfoldable pub durable_copy : FilePath → FilePath → Act IoError (Unit {0})
durable_copy source target = do size ← file_len source; durable_copy_file source target size

abbrev pub absent_is_fine : FilePath → Result IoError (Unit {0}) → Act IoError (Unit {0})
absent_is_fine p (ok _) = sync_dir p.dir
absent_is_fine p (err e) = elim e.kind [ not_found ↦ skip | _ ↦ raise e ]

unfoldable pub durable_remove : FilePath → Act IoError (Unit {0})
durable_remove p = do result ← attempt (remove_file p); absent_is_fine p result

unfoldable pub durable_mode : FilePath → ℕ → Act IoError (Unit {0})
durable_mode p mode = do set_permissions p mode; sync_all p; sync_dir p.dir

unfoldable pub durable_move : FilePath → FilePath → Act IoError (Unit {0})
durable_move source target = do durable_copy source target; durable_remove source

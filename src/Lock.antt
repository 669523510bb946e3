-- ===== src/Lock.antt =====
-- `OperationLock` (agent/src/state.rs): one process at a time changes images and state.
pub mod Machine
use carbide_os.Prelude.{Bool, true, false, ◌++◌}
use carbide_os.Text.{Text, txt}
use carbide_os.Host.{Host, IoError, Result, ok, err}
use carbide_os.Effects.{Act, pure, raise, lift, get_host, moment, map_err, ◌>>=◌, ◌>>◌}
use carbide_os.Files.{call, create_dir_all}
use carbide_os.StateFile.{state_dir}
use carbide_os.Lifecycle.Reconcile.{reconcile_state}

-- `OperationLock::open_at`. Its two calls can fail; that they create the directory and the lock file,
-- which the agent neither reads nor replaces, is not kept in the files of the world.
unfoldable pub open_at : Text → Act IoError (Unit {0})
open_at directory = do create_dir_all directory; call; pure tt

-- `OperationLock::acquire`; the time it waits is not modelled.
unfoldable pub acquire_lock : Act IoError (Unit {0})
acquire_lock = do open_at state_dir; call; pure tt

-- `OperationLock::try_acquire_at`: false where another process holds it.
unfoldable pub try_acquire_at : Text → Act IoError Bool
try_acquire_at directory = do
  open_at directory
  t ← moment
  answer ← get_host (λ h. h.try_lock t)
  lift answer

unfoldable pub try_acquire : Act IoError Bool
try_acquire = try_acquire_at state_dir

-- `locked` (agent/src/main.rs)
unfoldable pub locked : Act Text (Unit {0}) → Act Text (Unit {0})
locked operation = do
  map_err (λ e. txt "could not acquire operation lock: " ++ e.message) acquire_lock
  reconcile_state
  operation

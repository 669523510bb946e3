-- ===== src/Lifecycle/Frame.antt =====
-- What the operations on units and slots keep: an invariant `Inv Held Now Ever` that ignores the files
-- which they write. `Frame` is what the operations rely on that leave every mergeable image alone,
-- `Free` what those rely on that replace images too.
pub mod Units
pub mod Slots
use carbide_os.Prelude.{ℕ, ◌≡◌, List}
use carbide_os.Text.{Text}
use carbide_os.State.{State}
use carbide_os.Host.{Host, Fs, File, FilePath}
use carbide_os.Files.{put, erase}
use carbide_os.Files.Keeps.{Ignores}
use carbide_os.StateFile.{staging_path, state_path}
use carbide_os.StateFile.Atomic.{IsEncoding}
use carbide_os.System.Slots.{extensions_dir, rollback_path, temporary_path}
use carbide_os.System.Command.{systemctl, sysext}

pub record Frame (h : Host) (Held : State → Type 0) (Now Ever : Fs → Type 0) : Type 0 where
  pub sub : (fs : Fs) → Now fs → Ever fs
  pub systemctl_inert :
      (t : ℕ) (args : List Text) (fs : Fs) → Now fs → Now (h.effect t systemctl args fs)
  pub sysext_inert : (t : ℕ) (args : List Text) (fs : Fs) → Now fs → Now (h.effect t sysext args fs)
  pub staging : Ignores Now staging_path
  pub swap :
      (s : State) (fs : Fs) (f : File)
      → Held s
      → Now fs
      → IsEncoding h s f
      → Now (put state_path f (erase staging_path fs))
  pub retained : (os name version : Text) → Ignores Now (rollback_path os name version)
  pub retained_new :
      (os name version : Text) → Ignores Now (temporary_path (rollback_path os name version))

pub record Free (h : Host) (Held : State → Type 0) (Now Ever : Fs → Type 0) : Type 0 where
  pub frame : Frame h Held Now Ever
  pub anywhere : (name : Text) → Ignores Now (record { dir = extensions_dir; name = name })

-- ===== src/StateFile.antt =====
-- `State::load` and `State::store` (agent/src/state.rs): the state on disk.
pub mod Atomic
pub mod Replace
use carbide_os.Prelude.{ℕ, Option, none, some, List, [], ◌∷◌, ◌++◌}
use carbide_os.Text.{Text, txt}
use carbide_os.State.{State}
use carbide_os.Host.{
  Host, World, FilePath, IoError, ErrorKind, not_found, invalid_data, other_kind, Result, ok, err,
}
use carbide_os.Effects.{
  Act, pure, raise, lift, get_host, get_world, attempt, set_held, map_err, ◌>>=◌, ◌>>◌,
}
use carbide_os.Files.{
  path, read_file, create_dir_all, create, write_all, sync_all, sync_dir, rename,
}

abbrev pub state_dir : Text
state_dir = txt "/var/lib/carbide/agent"

abbrev pub state_path : FilePath
state_path = path state_dir (txt "state.json")

abbrev pub staging_path : FilePath
staging_path = path state_dir (txt ".state.json.new")

abbrev corrupt : Text → IoError
corrupt message = record { kind = invalid_data; message = txt "corrupt agent state: " ++ message }

abbrev pub decoded : Result Text State → Act IoError (Unit {0})
decoded (ok s) = set_held s
decoded (err message) = raise (corrupt message)

-- A missing file is an empty state.
abbrev pub unread : ErrorKind → IoError → Act IoError (Unit {0})
unread not_found e = set_held []
unread invalid_data e = raise e
unread other_kind e = raise e

abbrev pub loaded : Result IoError (List ℕ) → Act IoError (Unit {0})
loaded (ok bytes) = get_host (λ h. h.decode bytes) >>= decoded
loaded (err e) = unread e.kind e

-- `State::load`, into the state that the operation holds.
unfoldable pub load : Act IoError (Unit {0})
load = do read ← attempt (read_file state_path); loaded read

abbrev pub unencodable : Text → IoError
unencodable message = record { kind = invalid_data; message = message }

-- `store` from the point where the encoding is known.
unfoldable pub publish_state : Text → Act IoError (Unit {0})
publish_state encoded = do
  create staging_path
  write_all staging_path (encoded ++ (10 ∷ []))
  sync_all staging_path
  rename staging_path state_path
  sync_dir state_dir

-- `State::store`, of the state that the operation holds.
unfoldable pub store : Act IoError (Unit {0})
store = do
  create_dir_all state_dir
  state ← get_world (λ w. w.held)
  encoding ← get_host (λ h. h.encode state)
  encoded ← map_err unencodable (lift encoding)
  publish_state encoded

-- `.map_err(|error| error.to_string())`
unfoldable pub stringly : {A : Type 0} → Act IoError A → Act Text A
stringly m = map_err (λ e. e.message) m

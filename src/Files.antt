-- ===== src/Files.antt =====
-- The calls of `std::fs` that the agent makes, over the files of the world. Each call can fail at
-- any moment, by the host's `fault`.
pub mod Table
pub mod Keeps
pub mod Hoare
pub mod Total
use carbide_os.Prelude.{
  ℕ, String, ◌+◌, Bool, true, false, ◌&&◌, Option, none, some, List, [], ◌∷◌, ◌++◌, map,
  if◌then◌else◌, is_some, length, take, keep_if,
}
use carbide_os.Text.{Text, txt, same}
use carbide_os.Host.{
  Host, World, Fs, File, FilePath, IoError, ErrorKind, not_found, invalid_data, other_kind,
}
use carbide_os.Effects.{Act, pure, raise, get_host, get_world, moment, ◌>>=◌, ◌>>◌}

abbrev pub path : Text → Text → FilePath
path dir name = record { dir = dir; name = name }

unfoldable pub same_path : FilePath → FilePath → Bool
same_path p q = same p.dir q.dir && same p.name q.name

unfoldable pub find : Fs → FilePath → Option File
unfolding same_path
find [] p = none
find ((q, f) ∷ fs) p = let rest = find fs p in if same_path q p then some f else rest

unfoldable pub put : FilePath → File → Fs → Fs
unfolding same_path
put p f [] = (p, f) ∷ []
put p f ((q, g) ∷ fs) =
    let rest = put p f fs in if same_path q p then (p, f) ∷ fs else (q, g) ∷ rest

unfoldable pub erase : FilePath → Fs → Fs
unfolding same_path
erase p [] = []
erase p ((q, g) ∷ fs) = let rest = erase p fs in if same_path q p then rest else (q, g) ∷ rest

abbrev pub io_error : String → IoError
io_error m = record { kind = other_kind; message = txt m }

abbrev missing : IoError
missing = record { kind = not_found; message = txt "No such file or directory" }

-- A change of the files, all at once.
unfoldable pub change : {E : Type 0} → (Fs → Fs) → Act E (Unit {0})
change f h w = pure tt h (record w { fs = f w.fs; history = w.fs ∷ w.history })

-- A call that the system may refuse; it returns the moment.
unfoldable pub call : Act IoError ℕ
call = do
  t ← moment
  fault ← get_host (λ h. h.fault t)
  elim fault [ none ↦ pure t | some e ↦ raise e ]

unfoldable pub lookup_file : FilePath → Act IoError File
lookup_file p = do
  found ← get_world (λ w. find w.fs p)
  elim found [ none ↦ raise missing | some f ↦ pure f ]

-- `Path::exists`. That the metadata of a present file cannot be read is not modelled.
unfoldable pub exists : {E : Type 0} → FilePath → Act E Bool
exists p = get_world (λ w. is_some (find w.fs p))

-- `fs::read`, and reading an open file to its end.
unfoldable pub read_file : FilePath → Act IoError (List ℕ)
read_file p = do t ← call; f ← lookup_file p; get_host (λ h. h.reads t p f.bytes)

-- `metadata(p)?.len()`
unfoldable pub file_len : FilePath → Act IoError ℕ
file_len p = do bytes ← read_file p; pure (length bytes)

unfoldable pub remove_file : FilePath → Act IoError (Unit {0})
remove_file p = do call; lookup_file p; change (erase p)

unfoldable pub create_dir_all : Text → Act IoError (Unit {0})
create_dir_all dir = do call; pure tt

-- `File::open(dir)?.sync_all()`
unfoldable pub sync_dir : Text → Act IoError (Unit {0})
sync_dir dir = do call; pure tt

abbrev empty_file : File
empty_file = record { bytes = []; mode = 0o644; synced = false }

-- `File::create`, which truncates
unfoldable pub create : FilePath → Act IoError (Unit {0})
create p = do call; change (put p empty_file)

-- `OpenOptions::new().create_new(true).write(true).open`
unfoldable pub create_new : FilePath → Act IoError (Unit {0})
create_new p = do
  call
  present ← exists p
  if present then raise (io_error "File exists") else change (put p empty_file)

-- A write that fails may have written a part.
abbrev write_result : FilePath → File → List ℕ → ℕ → Option IoError → Act IoError (Unit {0})
write_result p f bytes room none =
    change (put p (record f { bytes = f.bytes ++ bytes; synced = false }))
write_result p f bytes room (some e) =
    change (put p (record f { bytes = f.bytes ++ take room bytes; synced = false })) >> raise e

unfoldable pub write_all : FilePath → List ℕ → Act IoError (Unit {0})
write_all p bytes = do
  t ← moment
  f ← lookup_file p
  fault ← get_host (λ h. h.fault t)
  room ← get_host (λ h. h.written t)
  write_result p f bytes room fault

unfoldable pub set_permissions : FilePath → ℕ → Act IoError (Unit {0})
set_permissions p mode = do call; f ← lookup_file p; change (put p (record f { mode = mode }))

-- `sync_all` on a file
unfoldable pub sync_all : FilePath → Act IoError (Unit {0})
sync_all p = do call; f ← lookup_file p; change (put p (record f { synced = true }))

unfoldable pub rename : FilePath → FilePath → Act IoError (Unit {0})
rename p q = do call; f ← lookup_file p; change (λ fs. put q f (erase p fs))

-- `fs::read_dir`: the entries in the order of the world's list, which is arbitrary.
unfoldable pub read_dir : Text → Act IoError (List Text)
read_dir dir = do
  call
  get_world (λ w. map (λ (p, _). p.name) (keep_if (λ (p, _). same p.dir dir) w.fs))

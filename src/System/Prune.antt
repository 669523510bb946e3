-- ===== src/System/Prune.antt =====
-- Pruning candidates, rollbacks and interrupted transactions (agent/src/system.rs).
use carbide_os.Prelude.{
  Bool, false, not, ◌&&◌, ◌||◌, Option, none, some, List, [], ◌∷◌, ◌++◌, map, if◌then◌else◌,
  keep_if,
}
use mathlib.Core.Option
use carbide_os.Text.{Text, txt, same, before, starts_with, ends_with, contains}
use carbide_os.Host.{FilePath, IoError, not_found, Result, ok, err}
use carbide_os.Effects.{Act, pure, raise, get_host, attempt, skip, when, ◌>>=◌, ◌>>◌}
use carbide_os.Files.{path, same_path, call, remove_file, read_dir, sync_dir}
use carbide_os.System.Slots.{extensions_dir, staging_dir, scope, rollback_path, candidate_path}

-- Whether `prune_matching_in` removes the file of that name.
abbrev pub is_kept : Option FilePath → FilePath → Bool
is_kept none p = false
is_kept (some kept) p = same_path kept p

unfoldable pub prunes : Text → Text → Text → Option FilePath → Text → Bool
prunes directory prefix suffix keep name =
    starts_with name prefix && (ends_with name suffix && not (is_kept keep (path directory name)))

-- One round of a loop over `read_dir`: the entry, the test, the removal.
abbrev remove_if : Text → (Text → Bool) → Text → Act IoError (Unit {0})
remove_if directory doomed name = when (doomed name) (remove_file (path directory name))

-- The loop over the entries; it returns whether a file was removed.
unfoldable pub remove_all : Text → (Text → Bool) → List Text → Act IoError Bool
remove_all directory doomed [] = pure false
remove_all directory doomed (name ∷ names) = do
  call
  remove_if directory doomed name
  changed ← remove_all directory doomed names
  pure (doomed name || changed)

unfoldable pub prune_matching_in : Text → Text → Text → Option FilePath → Act IoError (Unit {0})
unfolding prunes
prune_matching_in directory prefix suffix keep = do
  names ← read_dir directory
  changed ← remove_all directory (prunes directory prefix suffix keep) names
  when changed (sync_dir directory)

unfoldable pub prune_rollbacks : Text → Option Text → Act IoError (Unit {0})
prune_rollbacks name keep_version = do
  os ← get_host scope
  prune_matching_in extensions_dir (name ++ (txt "_" ++ (os ++ txt ".raw."))) (txt ".rollback")
      (Option.map (rollback_path os name) keep_version)

unfoldable pub prune_candidates : Text → Option Text → Act IoError (Unit {0})
prune_candidates name keep_version = do
  os ← get_host scope
  prune_matching_in extensions_dir (name ++ (txt "_" ++ (os ++ txt ".raw."))) (txt ".candidate")
      (Option.map (candidate_path os name) keep_version)

-- `sort` of a list of texts.
unfoldable pub insert_sorted : Text → List Text → List Text
insert_sorted a [] = a ∷ []
insert_sorted a (b ∷ l) = let rest = insert_sorted a l in if before b a then b ∷ rest else a ∷ b ∷ l

unfoldable pub sort : List Text → List Text
unfolding insert_sorted
sort [] = []
sort (a ∷ l) = insert_sorted a (sort l)

-- The call that each step of a `ReadDir` makes.
unfoldable pub entries : List Text → Act IoError (Unit {0})
entries [] = skip
entries (name ∷ names) = do call; entries names

unfoldable pub candidate_files : Act IoError (List FilePath)
candidate_files = do
  os ← get_host scope
  names ← read_dir extensions_dir
  entries names
  pure (
      map (path extensions_dir) (
        sort (
          keep_if
            (λ name.
              contains name (txt "_" ++ (os ++ txt ".raw.")) && ends_with name (txt ".candidate"))
            names)))

-- Everything staged, and every temporary file of `durable_copy_file`.
unfoldable pub is_transaction_file : Text → Text → Text → Bool
is_transaction_file staging directory name =
    same directory staging || (starts_with name (txt ".") && ends_with name (txt ".new"))

abbrev pub prune_listed : Text → Text → Result IoError (List Text) → Act IoError (Unit {0})
prune_listed staging directory (ok names) =
    remove_all directory (is_transaction_file staging directory) names >>= λ changed.
    when changed (sync_dir directory)
prune_listed staging directory (err e) = elim e.kind [ not_found ↦ skip | _ ↦ raise e ]

-- A directory that is not there is skipped. Every entry modelled is a file, so `file_type` is too.
unfoldable pub prune_directory : Text → Text → Act IoError (Unit {0})
prune_directory staging directory = do
  listed ← attempt (read_dir directory)
  prune_listed staging directory listed

unfoldable pub prune_transaction_files_in : Text → Text → Act IoError (Unit {0})
prune_transaction_files_in extensions staging = do
  prune_directory staging extensions
  prune_directory staging staging

unfoldable pub prune_transaction_files : Act IoError (Unit {0})
prune_transaction_files = prune_transaction_files_in extensions_dir staging_dir

unfoldable pub clear_staged : Text → Act IoError (Unit {0})
clear_staged name = prune_matching_in staging_dir (name ++ txt "_") (txt ".raw") none

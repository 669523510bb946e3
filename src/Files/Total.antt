-- ===== src/Files/Total.antt =====
-- The calls on files end (they have no loop).
use carbide_os.Prelude.{ℕ, Option, none, some, List}
use carbide_os.Text.{Text}
use carbide_os.Host.{Host, Fs, File, FilePath, IoError}
use carbide_os.Effects.Total.{
  Total, total_rules, Total-pure, Total-raise, Total-bind, Total-get_world, Total-get_host,
  Total-moment,
}
use carbide_os.Files.{
  change, call, lookup_file, exists, read_file, file_len, remove_file, create_dir_all, sync_dir,
  create, create_new, write_result, write_all, set_permissions, sync_all, rename, read_dir,
}

module _ {h : Host} where
  pub Total-change : {E : Type 0} (f : Fs → Fs) → Total {E = E} h (change f)
  unfolding change
  Total-change f = record { at = λ w. tt }

  pub Total-call : Total h call
  unfolding call
  Total-call =
      Total-bind Total-moment
        λ t. Total-bind (Total-get_host _) (elim [ none ↦ Total-pure t | some e ↦ Total-raise e ])

  pub Total-lookup_file : (p : FilePath) → Total h (lookup_file p)
  unfolding lookup_file
  Total-lookup_file p =
      Total-bind (Total-get_world _) (elim [ none ↦ Total-raise _ | some f ↦ Total-pure f ])

  pub Total-exists : {E : Type 0} (p : FilePath) → Total {E = E} h (exists p)
  unfolding exists
  Total-exists p = search (total_rules)

  pub Total-read_file : (p : FilePath) → Total h (read_file p)
  unfolding read_file
  Total-read_file p = search (total_rules, Total-call, Total-lookup_file)

  pub Total-file_len : (p : FilePath) → Total h (file_len p)
  unfolding file_len
  Total-file_len p = search (total_rules, Total-read_file)

  pub Total-remove_file : (p : FilePath) → Total h (remove_file p)
  unfolding remove_file
  Total-remove_file p = search (total_rules, Total-call, Total-lookup_file, Total-change)

  pub Total-create_dir_all : (dir : Text) → Total h (create_dir_all dir)
  unfolding create_dir_all
  Total-create_dir_all dir = search (total_rules, Total-call)

  pub Total-sync_dir : (dir : Text) → Total h (sync_dir dir)
  unfolding sync_dir
  Total-sync_dir dir = search (total_rules, Total-call)

  pub Total-create : (p : FilePath) → Total h (create p)
  unfolding create
  Total-create p = search (total_rules, Total-call, Total-change)

  pub Total-create_new : (p : FilePath) → Total h (create_new p)
  unfolding create_new
  Total-create_new p = search (total_rules, Total-call, Total-exists, Total-change)

  Total-write_result :
      (p : FilePath) (f : File) (bytes : List ℕ) (room : ℕ) (fault : Option IoError)
      → Total h (write_result p f bytes room fault)
  Total-write_result p f bytes room none = Total-change _
  Total-write_result p f bytes room (some e) = search (total_rules, Total-change)

  pub Total-write_all : (p : FilePath) (bytes : List ℕ) → Total h (write_all p bytes)
  unfolding write_all
  Total-write_all p bytes = search (total_rules, Total-lookup_file, Total-write_result)

  pub Total-set_permissions : (p : FilePath) (mode : ℕ) → Total h (set_permissions p mode)
  unfolding set_permissions
  Total-set_permissions p mode = search (total_rules, Total-call, Total-lookup_file, Total-change)

  pub Total-sync_all : (p : FilePath) → Total h (sync_all p)
  unfolding sync_all
  Total-sync_all p = search (total_rules, Total-call, Total-lookup_file, Total-change)

  pub Total-rename : (p q : FilePath) → Total h (rename p q)
  unfolding rename
  Total-rename p q = search (total_rules, Total-call, Total-lookup_file, Total-change)

  pub Total-read_dir : (dir : Text) → Total h (read_dir dir)
  unfolding read_dir
  Total-read_dir dir = search (total_rules, Total-call)

pub ruleset file_total_rules = (
  total_rules, Total-call, Total-lookup_file, Total-exists, Total-read_file, Total-file_len,
  Total-remove_file, Total-create_dir_all, Total-sync_dir, Total-create, Total-create_new,
  Total-write_all, Total-set_permissions, Total-sync_all, Total-rename, Total-read_dir,
)

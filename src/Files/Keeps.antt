-- ===== src/Files/Keeps.antt =====
-- What each call of `std::fs` keeps: an invariant of the files that does not look at the path that
-- the call writes.
use carbide_os.Prelude.{ℕ, List, none, some}
use carbide_os.Text.{Text}
use carbide_os.State.{State}
use carbide_os.Host.{Host, Fs, File, FilePath}
use carbide_os.Effects.Keeps.{
  Keeps, keeps_rules, Keeps-bind, Keeps-pure, Keeps-raise, Keeps-get_world, Keeps-get_host,
}
use carbide_os.Effects.Invariant.{Inv, Keeps-moment}
use carbide_os.Files.{
  put, erase, change, call, lookup_file, exists, read_file, file_len, remove_file, create_dir_all,
  sync_dir, create, create_new, write_all, set_permissions, sync_all, rename, read_dir,
}

-- `Now` says nothing about the file at `p`.
pub record Ignores (Now : Fs → Type 0) (p : FilePath) : Type 0 where
  pub at_put : (fs : Fs) (f : File) → Now fs → Now (put p f fs)
  pub at_erase : (fs : Fs) → Now fs → Now (erase p fs)

module _ {Held : State → Type 0} {Now Ever : Fs → Type 0} (sub : (fs : Fs) → Now fs → Ever fs)
    (h : Host) where
  pub Keeps-change :
      {E : Type 0} (f : Fs → Fs)
      → ((fs : Fs) → Now fs → Now (f fs))
      → Keeps {E = E} h (Inv Held Now Ever) (change f)
  unfolding change
  Keeps-change f keep = record {
    at = λ w p. record { held = p.held; now = keep w.fs p.now; ever = (sub w.fs p.now, p.ever) };
  }

  pub Keeps-call : Keeps h (Inv Held Now Ever) call
  unfolding call
  Keeps-call =
      Keeps-bind Keeps-moment
        λ t. Keeps-bind (Keeps-get_host _) (elim [ none ↦ Keeps-pure t | some e ↦ Keeps-raise e ])

  pub Keeps-lookup_file : (p : FilePath) → Keeps h (Inv Held Now Ever) (lookup_file p)
  unfolding lookup_file
  Keeps-lookup_file p =
      Keeps-bind (Keeps-get_world _) (elim [ none ↦ Keeps-raise _ | some f ↦ Keeps-pure f ])

  pub Keeps-exists : {E : Type 0} (p : FilePath) → Keeps {E = E} h (Inv Held Now Ever) (exists p)
  unfolding exists
  Keeps-exists p = Keeps-get_world _

  pub Keeps-read_file : (p : FilePath) → Keeps h (Inv Held Now Ever) (read_file p)
  unfolding read_file
  Keeps-read_file p = search (keeps_rules, Keeps-call, Keeps-lookup_file)

  pub Keeps-file_len : (p : FilePath) → Keeps h (Inv Held Now Ever) (file_len p)
  unfolding file_len
  Keeps-file_len p = search (keeps_rules, Keeps-read_file)

  pub Keeps-create_dir_all : (dir : Text) → Keeps h (Inv Held Now Ever) (create_dir_all dir)
  unfolding create_dir_all
  Keeps-create_dir_all dir = search (keeps_rules, Keeps-call)

  pub Keeps-sync_dir : (dir : Text) → Keeps h (Inv Held Now Ever) (sync_dir dir)
  unfolding sync_dir
  Keeps-sync_dir dir = search (keeps_rules, Keeps-call)

  pub Keeps-read_dir : (dir : Text) → Keeps h (Inv Held Now Ever) (read_dir dir)
  unfolding read_dir
  Keeps-read_dir dir = search (keeps_rules, Keeps-call)

module _ {Held : State → Type 0} {Now Ever : Fs → Type 0} (sub : (fs : Fs) → Now fs → Ever fs)
    (h : Host) (p : FilePath) (ign : Ignores Now p) where
  put-change : {E : Type 0} (f : File) → Keeps {E = E} h (Inv Held Now Ever) (change (put p f))
  put-change f = Keeps-change sub h (put p f) (λ fs. ign.at_put fs f)

  pub Keeps-remove_file : Keeps h (Inv Held Now Ever) (remove_file p)
  unfolding remove_file
  Keeps-remove_file =
      Keeps-bind (Keeps-call sub h)
        λ _. Keeps-bind (Keeps-lookup_file sub h p) (λ _. Keeps-change sub h (erase p) ign.at_erase)

  pub Keeps-create : Keeps h (Inv Held Now Ever) (create p)
  unfolding create
  Keeps-create = Keeps-bind (Keeps-call sub h) (λ _. put-change _)

  pub Keeps-create_new : Keeps h (Inv Held Now Ever) (create_new p)
  unfolding create_new
  Keeps-create_new = search (keeps_rules, Keeps-call sub h, Keeps-exists sub h, put-change)

  pub Keeps-write_all : (bytes : List ℕ) → Keeps h (Inv Held Now Ever) (write_all p bytes)
  unfolding write_all
  Keeps-write_all bytes = Keeps-bind Keeps-moment λ t. Keeps-bind (Keeps-lookup_file sub h p) λ f.
      Keeps-bind (Keeps-get_host _) (elim [
        | none ↦ Keeps-bind (Keeps-get_host _) (λ room. put-change _)
        | some e ↦
            Keeps-bind (Keeps-get_host _) (λ room. Keeps-bind (put-change _) (λ _. Keeps-raise e))
      ])

  pub Keeps-set_permissions : (mode : ℕ) → Keeps h (Inv Held Now Ever) (set_permissions p mode)
  unfolding set_permissions
  Keeps-set_permissions mode =
      search (keeps_rules, Keeps-call sub h, Keeps-lookup_file sub h, put-change)

  pub Keeps-sync_all : Keeps h (Inv Held Now Ever) (sync_all p)
  unfolding sync_all
  Keeps-sync_all = search (keeps_rules, Keeps-call sub h, Keeps-lookup_file sub h, put-change)

module _ {Held : State → Type 0} {Now Ever : Fs → Type 0} (sub : (fs : Fs) → Now fs → Ever fs)
    (h : Host) (p q : FilePath) (ign_p : Ignores Now p) (ign_q : Ignores Now q) where
  pub Keeps-rename : Keeps h (Inv Held Now Ever) (rename p q)
  unfolding rename
  Keeps-rename = Keeps-bind (Keeps-call sub h) λ _.
      Keeps-bind (Keeps-lookup_file sub h p)
        λ f. Keeps-change sub h _ (λ fs n. ign_q.at_put (erase p fs) f (ign_p.at_erase fs n))

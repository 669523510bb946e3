-- ===== src/System/Durable/Keeps.antt =====
-- The durable operations keep an invariant of the files that does not look at the target or at its
-- temporary name.
use carbide_os.Prelude.{ℕ}
use carbide_os.State.{State}
use carbide_os.Host.{
  Host, Fs, FilePath, IoError, ErrorKind, not_found, invalid_data, other_kind, Result, ok, err,
}
use carbide_os.Effects.{skip, raise}
use carbide_os.Effects.Keeps.{
  Keeps, Keeps-bind, Keeps-pure, Keeps-raise, Keeps-attempt, Keeps-ignore, Keeps-when,
}
use carbide_os.Effects.Invariant.{Inv}
use carbide_os.Files.Keeps.{
  Ignores, Keeps-call, Keeps-lookup_file, Keeps-read_file, Keeps-file_len, Keeps-remove_file,
  Keeps-create_dir_all, Keeps-create_new, Keeps-write_all, Keeps-set_permissions, Keeps-sync_all,
  Keeps-sync_dir, Keeps-rename,
}
use carbide_os.System.Slots.{temporary_path}
use carbide_os.System.Durable.{
  permissions, publish, settle, durable_copy_file, durable_copy, absent_is_fine, durable_remove,
}

module _ {Held : State → Type 0} {Now Ever : Fs → Type 0} (sub : (fs : Fs) → Now fs → Ever fs)
    (h : Host) (target : FilePath) (ign : Ignores Now target)
    (ign_new : Ignores Now (temporary_path target)) where
  Keeps-publish :
      (input : FilePath) (maximum mode : ℕ)
      → Keeps h (Inv Held Now Ever) (publish input target maximum mode)
  unfolding publish
  Keeps-publish input maximum mode = Keeps-bind (Keeps-create_new sub h _ ign_new) λ _.
      Keeps-bind (Keeps-read_file sub h input) λ content.
        Keeps-bind (Keeps-write_all sub h _ ign_new _) λ _.
          Keeps-bind (Keeps-when _ _ (Keeps-raise _)) λ _.
            Keeps-bind (Keeps-set_permissions sub h _ ign_new mode) λ _.
              Keeps-bind (Keeps-sync_all sub h _ ign_new) λ _.
                Keeps-bind (Keeps-rename sub h _ target ign_new ign)
                  (λ _. Keeps-sync_dir sub h target.dir)

module _ {Held : State → Type 0} {Now Ever : Fs → Type 0} (sub : (fs : Fs) → Now fs → Ever fs)
    (h : Host) (target : FilePath) (ign_new : Ignores Now (temporary_path target)) where
  -- What the closure keeps, the whole copy keeps.
  pub Keeps-around_publish :
      (input : FilePath) (maximum : ℕ)
      → ((mode : ℕ) → Keeps h (Inv Held Now Ever) (publish input target maximum mode))
      → Keeps h (Inv Held Now Ever) (durable_copy_file input target maximum)
  unfolding durable_copy_file permissions settle
  Keeps-around_publish input maximum kp = Keeps-bind (Keeps-create_dir_all sub h target.dir) λ _.
      Keeps-bind (Keeps-ignore (Keeps-remove_file sub h _ ign_new)) λ _.
        Keeps-bind
          (Keeps-bind (Keeps-call sub h)
            λ _. Keeps-bind (Keeps-lookup_file sub h input) (λ f. Keeps-pure f.mode))
          λ mode. Keeps-bind (Keeps-attempt (kp mode)) (elim [
            | ok _ ↦ Keeps-pure tt
            | err e ↦
                Keeps-bind (Keeps-ignore (Keeps-remove_file sub h _ ign_new)) (λ _. Keeps-raise e)
          ])

module _ {Held : State → Type 0} {Now Ever : Fs → Type 0} (sub : (fs : Fs) → Now fs → Ever fs)
    (h : Host) (target : FilePath) (ign : Ignores Now target)
    (ign_new : Ignores Now (temporary_path target)) where
  pub Keeps-durable_copy_file :
      (input : FilePath) (maximum : ℕ)
      → Keeps h (Inv Held Now Ever) (durable_copy_file input target maximum)
  Keeps-durable_copy_file input maximum =
      Keeps-around_publish sub h target ign_new input maximum
        (Keeps-publish sub h target ign ign_new input maximum)

  pub Keeps-durable_copy :
      (source : FilePath) → Keeps h (Inv Held Now Ever) (durable_copy source target)
  unfolding durable_copy
  Keeps-durable_copy source =
      Keeps-bind (Keeps-file_len sub h source) (λ size. Keeps-durable_copy_file source size)

module _ {Held : State → Type 0} {Now Ever : Fs → Type 0} (sub : (fs : Fs) → Now fs → Ever fs)
    (h : Host) (p : FilePath) (ign : Ignores Now p) where
  Keeps-absent_is_fine :
      (r : Result IoError (Unit {0})) → Keeps h (Inv Held Now Ever) (absent_is_fine p r)
  Keeps-absent_is_fine (ok _) = Keeps-sync_dir sub h p.dir
  Keeps-absent_is_fine (err e) = go e.kind
    where
      go :
          (k : ErrorKind)
          → Keeps h (Inv Held Now Ever) (elim k [ not_found ↦ skip {E = IoError} | _ ↦ raise e ])
      go not_found = Keeps-pure tt
      go invalid_data = Keeps-raise e
      go other_kind = Keeps-raise e

  pub Keeps-durable_remove : Keeps h (Inv Held Now Ever) (durable_remove p)
  unfolding durable_remove
  Keeps-durable_remove =
      Keeps-bind (Keeps-attempt (Keeps-remove_file sub h p ign)) Keeps-absent_is_fine

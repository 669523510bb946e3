-- ===== src/Ops/Keeps.antt =====
-- What staging keeps: an image that is merged now (agent/src/ops.rs).
use carbide_os.Prelude.{
  ℕ, ◌≡◌, refl, sym, ap, ◌≢◌, arith, Bool, true, false, Option, none, some, List, [], ◌∷◌,
}
use carbide_os.Text.{Text, txt, ends_with}
use carbide_os.Text.Laws.{same_iff}
use carbide_os.State.{State}
use carbide_os.Host.{
  Host, World, Fs, FilePath, IoError, ErrorKind, not_found, invalid_data, other_kind, Result, ok,
  err,
}
use carbide_os.Effects.{when}
use carbide_os.Effects.Keeps.{
  Keeps, Keeps-bind, Keeps-pure, Keeps-raise, Keeps-get_host, Keeps-attempt, Keeps-when, Keeps-if,
}
use carbide_os.Effects.Invariant.{Inv, Keeps-set_held}
use carbide_os.Files.{path, remove_file}
use carbide_os.Files.Keeps.{
  Ignores, Keeps-call, Keeps-exists, Keeps-read_file, Keeps-remove_file, Keeps-read_dir,
  Keeps-sync_dir, Keeps-set_permissions, Keeps-sync_all,
}
use carbide_os.StateFile.{load, loaded, decoded, unread, store, state_path, staging_path}
use carbide_os.StateFile.Atomic.{Keeps-store as Keeps-store_of}
use carbide_os.System.Slots.{
  extensions_dir, staging_dir, scoped_active_path, candidate_path, temporary_path, active_path,
}
use carbide_os.System.Slots.Mergeable.{
  mergeable, mergeable_not_candidate, mergeable_not_candidate_name, mergeable_not_temporary,
}
use carbide_os.System.Durable.{durable_copy_file, durable_remove, durable_mode, durable_move}
use carbide_os.System.Durable.Keeps.{
  Keeps-durable_copy_file, Keeps-durable_copy, Keeps-durable_remove,
}
use carbide_os.System.Command.{available_bytes, available_of}
use carbide_os.System.Prune.{prunes, remove_all, prune_matching_in, prune_candidates, clear_staged}
use carbide_os.Lifecycle.Frame.Units.{Keeps-run}
use carbide_os.Lifecycle.Marks.{Agrees, Agrees-Ignores, dirs_apart}

staging_apart : extensions_dir ≢ staging_dir
unfolding txt
staging_apart e = ground (arith, (same_iff extensions_dir staging_dir).1 e)

module _ (h : Host) (fs0 : Fs) (m : Text) where
  abbrev Now : Fs → Type 0
  Now = Agrees fs0 (mergeable m)

  -- The image that is merged as `m` is the file that it is in `fs0`, now and before each change.
  abbrev pub Steady : World → Type 0
  Steady = Inv (λ _. Unit) Now Now

  sub : (fs : Fs) → Now fs → Now fs
  sub fs k = k

  -- A file that never gets merged.
  private_file : (q : FilePath) → ((n : Text) → mergeable n ≢ q) → Ignores Now q
  private_file q d = Agrees-Ignores fs0 (mergeable m) q (λ e. d m (sym e))

  pub off_candidate : (os' name version : Text) → Ignores Now (candidate_path os' name version)
  off_candidate os' name version = private_file _ (mergeable_not_candidate os' name version)

  pub off_temporary : (target : FilePath) → Ignores Now (temporary_path target)
  off_temporary target = private_file _ (λ n. mergeable_not_temporary n target)

  -- A file of another directory.
  outside : (q : FilePath) → extensions_dir ≢ q.dir → Ignores Now q
  outside q d = private_file q (λ n e. d (ap FilePath.dir e))

  pub off_staging : (name : Text) → Ignores Now (path staging_dir name)
  off_staging name = outside (path staging_dir name) staging_apart

  pub off_images :
      (name base : Text)
      → scoped_active_path name base ≢ mergeable m
      → Ignores Now (scoped_active_path name base)
  off_images name base d = Agrees-Ignores fs0 (mergeable m) (scoped_active_path name base) d

  Keeps-unread : (kind : ErrorKind) (e : IoError) → Keeps h Steady (unread kind e)
  Keeps-unread not_found e = Keeps-set_held [] tt
  Keeps-unread invalid_data e = Keeps-raise e
  Keeps-unread other_kind e = Keeps-raise e

  Keeps-decoded : (r : Result Text State) → Keeps h Steady (decoded r)
  Keeps-decoded (ok s) = Keeps-set_held s tt
  Keeps-decoded (err e) = Keeps-raise _

  Keeps-loaded : (r : Result IoError (List ℕ)) → Keeps h Steady (loaded r)
  Keeps-loaded (ok bytes) = Keeps-bind (Keeps-get_host _) Keeps-decoded
  Keeps-loaded (err e) = Keeps-unread e.kind e

  pub Keeps-load : Keeps h Steady load
  unfolding load
  Keeps-load = Keeps-bind (Keeps-attempt (Keeps-read_file sub h _)) Keeps-loaded

  pub Keeps-store : Keeps h Steady store
  Keeps-store = Keeps-store_of sub h (outside staging_path dirs_apart) λ s fs f _ k _.
      (outside state_path dirs_apart).at_put _ f ((outside staging_path dirs_apart).at_erase fs k)

  Keeps-available_of : (o : Option ℕ) → Keeps h Steady (available_of o)
  Keeps-available_of none = Keeps-raise _
  Keeps-available_of (some n) = Keeps-pure n

  pub Keeps-available_bytes : Keeps h Steady available_bytes
  unfolding available_bytes
  Keeps-available_bytes =
      Keeps-bind (Keeps-run _ _) (λ o. Keeps-if _ _ _ (Keeps-available_of _) (Keeps-raise _))

  pub Keeps-active_path : {E : Type 0} (name : Text) → Keeps {E = E} h Steady (active_path name)
  unfolding active_path
  Keeps-active_path name = Keeps-bind (Keeps-get_host _) λ os'.
      Keeps-bind (Keeps-exists sub h _) (λ a. Keeps-bind (Keeps-exists sub h _) (λ b. Keeps-pure _))

  pub Keeps-mode : (p : FilePath) (mode : ℕ) → Ignores Now p → Keeps h Steady (durable_mode p mode)
  unfolding durable_mode
  Keeps-mode p mode off =
      Keeps-bind (Keeps-set_permissions sub h p off mode)
        λ _. Keeps-bind (Keeps-sync_all sub h p off) (λ _. Keeps-sync_dir sub h _)

  pub Keeps-move :
      (p q : FilePath) → Ignores Now p → Ignores Now q → Keeps h Steady (durable_move p q)
  unfolding durable_move
  Keeps-move p q off off' =
      Keeps-bind (Keeps-durable_copy sub h q off' (off_temporary q) p)
        (λ _. Keeps-durable_remove sub h p off)

  pub Keeps-remove : (p : FilePath) → Ignores Now p → Keeps h Steady (durable_remove p)
  Keeps-remove p off = Keeps-durable_remove sub h p off

  pub Keeps-copy :
      (p q : FilePath) (n : ℕ) → Ignores Now q → Keeps h Steady (durable_copy_file p q n)
  Keeps-copy p q n off = Keeps-durable_copy_file sub h q off (off_temporary q) p n

  module _ (directory : Text) (doomed : Text → Bool)
      (off : (name : Text) → doomed name ≡ true → Ignores Now (path directory name)) where
    Keeps-doomed :
        (name : Text) (b : Bool)
        → doomed name ≡ b
        → Keeps h Steady (when b (remove_file (path directory name)))
    Keeps-doomed name true e = Keeps-remove_file sub h _ (off name e)
    Keeps-doomed name false e = Keeps-pure tt

    Keeps-remove_all : (names : List Text) → Keeps h Steady (remove_all directory doomed names)
    unfolding remove_all
    Keeps-remove_all [] = Keeps-pure false
    Keeps-remove_all (name ∷ names) = Keeps-bind (Keeps-call sub h) λ _.
        Keeps-bind (Keeps-doomed name (doomed name) refl)
          λ _. Keeps-bind (Keeps-remove_all names) (λ changed. Keeps-pure _)

  Keeps-prune_matching :
      (directory prefix suffix : Text) (keep : Option FilePath)
      → ((name : Text) → ends_with name suffix ≡ true → Ignores Now (path directory name))
      → Keeps h Steady (prune_matching_in directory prefix suffix keep)
  unfolding prune_matching_in prunes
  Keeps-prune_matching directory prefix suffix keep off =
      Keeps-bind (Keeps-read_dir sub h _) λ names.
        Keeps-bind (Keeps-remove_all directory _ (λ name e. off name (ground arith)) names)
          (λ changed. Keeps-when _ _ (Keeps-sync_dir sub h _))

  pub Keeps-prune_candidates :
      (name : Text) (keep : Option Text) → Keeps h Steady (prune_candidates name keep)
  unfolding prune_candidates
  Keeps-prune_candidates name keep = Keeps-bind (Keeps-get_host _) λ os'.
      Keeps-prune_matching _ _ _ _
        (λ file e. private_file _ (λ n. mergeable_not_candidate_name n file e))

  pub Keeps-clear_staged : (name : Text) → Keeps h Steady (clear_staged name)
  unfolding clear_staged
  Keeps-clear_staged name = Keeps-prune_matching _ _ _ _ (λ file e. off_staging file)

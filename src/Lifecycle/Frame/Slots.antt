-- ===== src/Lifecycle/Frame/Slots.antt =====
-- Slots, pruning and the replacement of images keep such an invariant.
use carbide_os.Prelude.{Bool, false, Option, List, [], ◌∷◌}
use carbide_os.Text.{Text}
use carbide_os.State.{State}
use carbide_os.Host.{Host, Fs, FilePath}
use carbide_os.Effects.Keeps.{Keeps, Keeps-bind, Keeps-pure, Keeps-get_host, Keeps-when}
use carbide_os.Effects.Invariant.{Inv}
use carbide_os.Files.Keeps.{
  Keeps-call, Keeps-exists, Keeps-read_dir, Keeps-remove_file, Keeps-sync_dir,
}
use carbide_os.System.Slots.{
  extensions_dir, active_path, scoped_active_path, legacy_active_path, rollback_path,
  temporary_path,
}
use carbide_os.System.Durable.{durable_copy}
use carbide_os.System.Durable.Keeps.{Keeps-durable_copy, Keeps-durable_remove}
use carbide_os.System.Prune.{remove_all, prune_matching_in, prune_rollbacks, prune_candidates}
use carbide_os.System.Units.{install_active, remove_active}
use carbide_os.Lifecycle.Frame.{Frame, Free}

module _ {h : Host} {Held : State → Type 0} {Now Ever : Fs → Type 0}
    (F : Frame h Held Now Ever) where
  pub Keeps-active_path :
      {E : Type 0} (name : Text) → Keeps {E = E} h (Inv Held Now Ever) (active_path name)
  unfolding active_path
  Keeps-active_path name = Keeps-bind (Keeps-get_host _) λ os.
      Keeps-bind (Keeps-exists F.sub h _)
        (λ a. Keeps-bind (Keeps-exists F.sub h _) (λ b. Keeps-pure _))

  pub Keeps-retaining :
      (source : FilePath) (os name version : Text)
      → Keeps h (Inv Held Now Ever) (durable_copy source (rollback_path os name version))
  Keeps-retaining source os name version =
      Keeps-durable_copy F.sub h (rollback_path os name version) (F.retained os name version)
        (F.retained_new os name version) source

module _ {h : Host} {Held : State → Type 0} {Now Ever : Fs → Type 0}
    (F : Free h Held Now Ever) where
  Keeps-remove_all :
      (doomed : Text → Bool) (names : List Text)
      → Keeps h (Inv Held Now Ever) (remove_all extensions_dir doomed names)
  unfolding remove_all
  Keeps-remove_all doomed [] = Keeps-pure false
  Keeps-remove_all doomed (name ∷ names) = Keeps-bind (Keeps-call F.frame.sub h) λ _.
      Keeps-bind (Keeps-when _ _ (Keeps-remove_file F.frame.sub h _ (F.anywhere name)))
        (λ _. Keeps-bind (Keeps-remove_all doomed names) (λ changed. Keeps-pure _))

  Keeps-prune_matching_in :
      (prefix suffix : Text) (keep : Option FilePath)
      → Keeps h (Inv Held Now Ever) (prune_matching_in extensions_dir prefix suffix keep)
  unfolding prune_matching_in
  Keeps-prune_matching_in prefix suffix keep = Keeps-bind (Keeps-read_dir F.frame.sub h _) λ names.
      Keeps-bind (Keeps-remove_all _ names)
        (λ changed. Keeps-when _ _ (Keeps-sync_dir F.frame.sub h _))

  pub Keeps-prune_rollbacks :
      (name : Text) (keep : Option Text) → Keeps h (Inv Held Now Ever) (prune_rollbacks name keep)
  unfolding prune_rollbacks
  Keeps-prune_rollbacks name keep =
      Keeps-bind (Keeps-get_host _) (λ os. Keeps-prune_matching_in _ _ _)

  pub Keeps-prune_candidates :
      (name : Text) (keep : Option Text) → Keeps h (Inv Held Now Ever) (prune_candidates name keep)
  unfolding prune_candidates
  Keeps-prune_candidates name keep =
      Keeps-bind (Keeps-get_host _) (λ os. Keeps-prune_matching_in _ _ _)

  pub Keeps-install_active :
      (source : FilePath) (name : Text) → Keeps h (Inv Held Now Ever) (install_active source name)
  unfolding install_active scoped_active_path legacy_active_path temporary_path
  Keeps-install_active source name = Keeps-bind (Keeps-get_host _) λ os.
      Keeps-bind (Keeps-exists F.frame.sub h _) λ present.
        Keeps-bind (Keeps-when _ _ (Keeps-durable_remove F.frame.sub h _ (F.anywhere _)))
          (λ _. Keeps-durable_copy F.frame.sub h _ (F.anywhere _) (F.anywhere _) source)

  pub Keeps-remove_active : (name : Text) → Keeps h (Inv Held Now Ever) (remove_active name)
  unfolding remove_active scoped_active_path legacy_active_path
  Keeps-remove_active name = Keeps-bind (Keeps-get_host _) λ os.
      Keeps-bind (Keeps-durable_remove F.frame.sub h _ (F.anywhere _))
        (λ _. Keeps-durable_remove F.frame.sub h _ (F.anywhere _))

-- ===== src/Lifecycle/Activate/Marking.antt =====
-- What holds of the files before the transaction of `activate_extension` (agent/src/main.rs) is
-- recorded, and after.
use carbide_os.Prelude.{
  ◌≡◌, refl, ◌⊎◌, ◌∙◌, Bool, inl, inr, true, false, Option, none, some, if◌then◌else◌, ap,
}
use carbide_os.Text.{Text}
use carbide_os.State.{State, ExtensionState, Phase, idle, staged, removing, record_completed}
use carbide_os.Host.{Host, Fs, FilePath}
use carbide_os.Files.Keeps.{Ignores}
use carbide_os.StateFile.{state_path, staging_path}
use carbide_os.StateFile.Replace.{staging_not_state}
use carbide_os.System.Slots.{extensions_dir, rollback_path, temporary_path}
use carbide_os.System.Slots.Mergeable.{mergeable, mergeable_not_rollback, mergeable_not_temporary}
use carbide_os.Lifecycle.Frame.{Frame, Free}
use carbide_os.Lifecycle.Marks.{
  IsFaithful, IsInert, ImagesKept, On, Marked, On-update_entry, ImagesKept-Ignores,
  ImagesKept-outside, Marked-Ignores, Marked-stored, Marked-moved, dirs_apart,
}
use carbide_os.Lifecycle.Recover.Keeps.{Moves}
use carbide_os.Lifecycle.Activate.{committed, completed}
use carbide_os.Lifecycle.Activate.Keeps.{Advances}

-- A phase that says that an operation is or was under way on the extension.
abbrev pub UnderWay : Phase → Type 0
UnderWay idle = ⊥
UnderWay staged = ⊥
UnderWay removing = ⊥
UnderWay _ = Unit

-- The entry names the request, with such a phase.
abbrev pub Names : Option Text → ExtensionState → Type 0
Names request_id e = (e.request_id ≡ request_id) × UnderWay e.phase

module _ (request_id : Option Text) where
  Names-if :
      (b : Bool) (e e' : ExtensionState)
      → Names request_id e
      → Names request_id e'
      → Names request_id (if b then e else e')
  Names-if true e e' n n' = n
  Names-if false e e' n n' = n'

  Names-completed :
      (done : Option Text) (e : ExtensionState)
      → Names request_id e
      → Names request_id (completed done e)
  unfolding record_completed
  Names-completed none e n = n
  Names-completed (some id) e n = Names-if _ _ _ n n

  Names-committed :
      (version : Text) (e : ExtensionState)
      → Names request_id e
      → Names request_id (committed version request_id e)
  unfolding committed
  Names-committed version e n = Names-completed request_id _ (n.0, tt)

  pub Advances-On :
      (name version : Text) → Advances (On (Names request_id) name) name version request_id
  Advances-On name version = record {
    to_starting = On-update_entry (Names request_id) name _ (λ e n. (n.0, tt));
    to_soaking = On-update_entry (Names request_id) name _ (λ e n. (n.0, tt));
    to_committed = On-update_entry (Names request_id) name _ (Names-committed version);
  }

  pub Moves-On : (name : Text) → Moves (On (Names request_id) name) name
  Moves-On name = record {
    refusing = λ version reason. On-update_entry (Names request_id) name _ (λ e n. (n.0, tt));
    reverting = λ reason. On-update_entry (Names request_id) name _ (λ e n. (n.0, tt));
    returning = λ version reason. On-update_entry (Names request_id) name _ (λ e n. (n.0, tt));
  }

-- What a crash may leave: the images as they were, or the mark.
abbrev pub Covered : Host → Text → (ExtensionState → Type 0) → Fs → Fs → Type 0
Covered h name T fs0 fs = ImagesKept fs0 fs ⊎ Marked h T name fs

module _ {h : Host} (faithful : IsFaithful h) (inert : IsInert h) (name : Text)
    (T : ExtensionState → Type 0) (fs0 : Fs) where
  pub Frame-before : {Held : State → Type 0} → Frame h Held (ImagesKept fs0) (Covered h name T fs0)
  Frame-before = record {
    sub = λ fs k. inl k;
    systemctl_inert = λ t args fs k n. inert.units t args fs (mergeable n) (inl refl) ∙ k n;
    sysext_inert = λ t args fs k n. inert.merges t args fs (mergeable n) (inl refl) ∙ k n;
    staging = ImagesKept-outside fs0 staging_path refl;
    swap = λ s fs f _ k _.
        (ImagesKept-outside fs0 state_path refl).at_put _ f
          ((ImagesKept-outside fs0 staging_path refl).at_erase fs k);
    retained = λ os n version. ImagesKept-Ignores fs0 _ (mergeable_not_rollback os n version);
    retained_new = λ os n version. ImagesKept-Ignores fs0 _ (λ m. mergeable_not_temporary m _);
  }

  in_extensions : (n : Text) → Ignores (Marked h T name) (record { dir = extensions_dir; name = n })
  in_extensions n = Marked-Ignores _ (λ e. dirs_apart (ap FilePath.dir e))

  pub Frame-after : Frame h (On T name) (Marked h T name) (Covered h name T fs0)
  unfolding rollback_path temporary_path
  Frame-after = record {
    sub = λ fs m. inr m;
    systemctl_inert = λ t args fs. Marked-moved fs _ (inert.units t args fs state_path (inr refl));
    sysext_inert = λ t args fs. Marked-moved fs _ (inert.merges t args fs state_path (inr refl));
    staging = Marked-Ignores staging_path staging_not_state;
    swap = λ s fs f t _ e. Marked-stored faithful s _ f t e;
    retained = λ os n version. in_extensions _;
    retained_new = λ os n version. in_extensions _;
  }

  pub Free-after : Free h (On T name) (Marked h T name) (Covered h name T fs0)
  Free-after = record { frame = Frame-after; anywhere = in_extensions }

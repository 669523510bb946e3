-- ===== src/Lifecycle/Recover/Others.antt =====
-- What `recover` leaves alone (agent/src/main.rs).
use carbide_os.Prelude.{◌≡◌, refl, ◌≢◌, ◌⊎◌, inl, inr, ◌∙◌, arith, [], ◌∷◌, All, ap, unwrap_or}
use carbide_os.Text.{Text}
use carbide_os.Text.Laws.{same_iff}
use carbide_os.State.{State, ExtensionState, fresh, get, update_entry}
use carbide_os.State.Map.{get-update_entry}
use carbide_os.Host.{Host, World, Fs, FilePath}
use carbide_os.Files.{find}
use carbide_os.Files.Table.{find-put_other, find-erase_other}
use carbide_os.Files.Keeps.{Ignores}
use carbide_os.StateFile.{state_path, staging_path}
use carbide_os.StateFile.Replace.{staging_not_state}
use carbide_os.System.Slots.{extensions_dir, rollback_path, temporary_path}
use carbide_os.Lifecycle.Frame.{Free}
use carbide_os.Lifecycle.Marks.{
  IsFaithful, IsInert, Agrees, On, Marked, Marked-moved, Marked-stored, dirs_apart,
}
use carbide_os.Lifecycle.Recover.{recover}
use carbide_os.Lifecycle.Recover.Keeps.{Moves, Keeps-recover}

module _ (h : Host) (T : ExtensionState → Type 0) (j : Text) (fs0 : Fs) where
  -- The state file is what it was, or one whose entry of `j` meets `T`.
  abbrev pub Filed : Fs → Type 0
  Filed fs = Agrees fs0 state_path fs ⊎ Marked h T j fs

  Filed-moved : (fs fs' : Fs) → find fs' state_path ≡ find fs state_path → Filed fs → Filed fs'
  Filed-moved fs fs' e (inl k) = inl (e ∙ k)
  Filed-moved fs fs' e (inr m) = inr (Marked-moved fs fs' e m)

  Filed-Ignores : (q : FilePath) → q ≢ state_path → Ignores Filed q
  Filed-Ignores q d = record {
    at_put = λ fs f. Filed-moved fs _ (find-put_other q state_path fs d f);
    at_erase = λ fs. Filed-moved fs _ (find-erase_other q state_path fs d);
  }

  Filed-extensions : (n : Text) → Ignores Filed (record { dir = extensions_dir; name = n })
  Filed-extensions n = Filed-Ignores _ (λ e. dirs_apart (ap FilePath.dir e))

  Free-Filed : IsFaithful h → IsInert h → Free h (On T j) Filed Filed
  unfolding rollback_path temporary_path
  Free-Filed faithful inert = record {
    frame = record {
      sub = λ fs k. k;
      systemctl_inert = λ t args fs. Filed-moved fs _ (inert.units t args fs state_path (inr refl));
      sysext_inert = λ t args fs. Filed-moved fs _ (inert.merges t args fs state_path (inr refl));
      staging = Filed-Ignores staging_path staging_not_state;
      swap = λ s fs f t _ e. inr (Marked-stored faithful s _ f t e);
      retained = λ os n version. Filed-extensions _;
      retained_new = λ os n version. Filed-extensions _;
    };
    anywhere = Filed-extensions;
  }

module _ (name j : Text) (d : name ≢ j) (e0 : ExtensionState) where
  elsewhere :
      (f : ExtensionState → ExtensionState) (s : State)
      → On (λ e. e ≡ e0) j s
      → On (λ e. e ≡ e0) j (update_entry name f s)
  elsewhere f s t = rw (get-update_entry name j f s) (ground (arith, same_iff name j, d, t))

  Moves-other : Moves (On (λ e. e ≡ e0) j) name
  Moves-other = record {
    refusing = λ version reason. elsewhere _;
    reverting = λ reason. elsewhere _;
    returning = λ version reason. elsewhere _;
  }

-- Recovering one extension leaves the entry of every other one as it was, in memory and in any state
-- file that is written on the way, whatever fails.
pub recover-other_entries :
    (h : Host)
    → IsFaithful h
    → IsInert h
    → (name j reason : Text) (w : World) → name ≢ j
    → w.history ≡ []
    → let (r, w') = recover name reason h w in
      let e0 = unwrap_or (get w.held j) fresh in
      (unwrap_or (get w'.held j) fresh ≡ e0)
      × All (Filed h (λ e. e ≡ e0) j w.fs) (w'.fs ∷ w'.history)
recover-other_entries h faithful inert name j reason w d e =
    let i =
      (Keeps-recover (Free-Filed h (λ x. x ≡ unwrap_or (get w.held j) fresh) j w.fs faithful inert)
          (Moves-other name j d (unwrap_or (get w.held j) fresh)) reason).at
        w (record { held = refl; now = inl refl; ever = rw e tt }) in
    (i.held, (i.now, i.ever))

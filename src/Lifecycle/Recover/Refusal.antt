-- ===== src/Lifecycle/Recover/Refusal.antt =====
-- `recover` where there is nothing to go back to (agent/src/main.rs).
use carbide_os.Prelude.{◌≡◌, refl, ap, ◌∙◌, inl, Option, none, some, [], ◌∷◌, All}
use carbide_os.Text.{Text}
use carbide_os.State.{State, ExtensionState, unrecoverable, get}
use carbide_os.State.Map.{get-update_entry_self}
use carbide_os.Host.{Host, World, Fs}
use carbide_os.Effects.{Act, get_entry, modify_entry, get_host, ◌>>=◌, get_world}
use carbide_os.Effects.Keeps.{Keeps-on_error, Keeps-raise}
use carbide_os.Effects.Invariant.{Inv}
use carbide_os.Effects.Hoare.{
  Hoare, Ends, Hoare-bind, Hoare-weaken, Hoare-of_Keeps, Hoare-raise, Hoare-get_host,
}
use carbide_os.StateFile.{state_path, staging_path}
use carbide_os.System.Slots.Mergeable.{mergeable, mergeable_not_rollback, mergeable_not_temporary}
use carbide_os.Lifecycle.Frame.{Frame}
use carbide_os.Lifecycle.Frame.Units.{Keeps-store}
use carbide_os.Lifecycle.Marks.{IsInert, ImagesKept, On, ImagesKept-outside, ImagesKept-Ignores}
use carbide_os.Lifecycle.Recover.{recover, terminal, fail, refused, recover_from, known_good_of}

-- The entry says that the agent gave up.
abbrev pub GaveUp : ExtensionState → Type 0
GaveUp e = e.phase ≡ unrecoverable

module _ (h : Host) (inert : IsInert h) (name : Text) (fs0 : Fs) where
  Frame-images : {Held : State → Type 0} → Frame h Held (ImagesKept fs0) (ImagesKept fs0)
  Frame-images = record {
    sub = λ fs k. k;
    systemctl_inert = λ t args fs k n. inert.units t args fs (mergeable n) (inl refl) ∙ k n;
    sysext_inert = λ t args fs k n. inert.merges t args fs (mergeable n) (inl refl) ∙ k n;
    staging = ImagesKept-outside fs0 staging_path refl;
    swap = λ s fs f _ k _.
        (ImagesKept-outside fs0 state_path refl).at_put _ f
          ((ImagesKept-outside fs0 staging_path refl).at_erase fs k);
    retained = λ os n version. ImagesKept-Ignores fs0 _ (mergeable_not_rollback os n version);
    retained_new = λ os n version. ImagesKept-Ignores fs0 _ (λ m. mergeable_not_temporary m _);
  }

  abbrev Kept : (State → Type 0) → World → Type 0
  Kept Held = Inv Held (ImagesKept fs0) (ImagesKept fs0)

  giving_up :
      {E : Type 0} (version : Option Text) (reason : Text)
      → Hoare {E = E} h
          (Kept (λ _. Unit))
          (modify_entry name (refused version reason))
          (λ _. Kept (On GaveUp name))
          (Kept (On GaveUp name))
  unfolding modify_entry
  giving_up version reason = record {
    at = λ w i. record {
      held = rw (get-update_entry_self name (refused version reason) w.held) refl;
      now = i.now;
      ever = i.ever;
    };
  }

  looked_up :
      {E A : Type 0} {X : World → Type 0} (f : Host → A)
      → Hoare {E = E} h (Kept (λ _. Unit)) (get_host f) (λ _. Kept (λ _. Unit)) X
  looked_up f = Hoare-weaken (λ a w p. p.1) (λ w x. x) (Hoare-get_host f)

  -- It never returns, and what it leaves is the mark.
  terminal_never_returns :
      (reason : Text)
      → Hoare h (Kept (λ _. Unit)) (terminal name reason) (λ _ _. ⊥) (Kept (On GaveUp name))
  unfolding terminal fail
  terminal_never_returns reason =
      Hoare-bind (Hoare-bind (looked_up _) (λ version. giving_up version reason)) λ _.
        Hoare-bind (Hoare-of_Keeps (Keeps-on_error (Keeps-store Frame-images) (λ e. Keeps-raise _)))
          (λ _. Hoare-raise reason (λ w i. i))

  entry_of :
      {E A : Type 0} {X : World → Type 0} (s : State) (Q : A → World → Type 0)
      (f : Option ExtensionState → Act E A)
      → ((o : Option ExtensionState) → o ≡ get s name → Hoare h (Kept (λ _. Unit)) (f o) Q X)
      → Hoare h (λ w. (w.held ≡ s) × Kept (λ _. Unit) w) (get_entry name >>= f) Q X
  unfolding get_entry get_world ◌>>=◌
  entry_of s Q f k = record {
    at = λ w p. (k (get w.held name) (ap (λ x. get x name) p.0)).at w p.1;
  }

  from_none :
      (reason : Text) (o : Option Text)
      → o ≡ none
      → Hoare h (Kept (λ _. Unit)) (recover_from name reason o) (λ _ _. ⊥) (Kept (On GaveUp name))
  from_none reason none e = terminal_never_returns _
  from_none reason (some version) e = cc

-- Where no known-good version is recorded, recovering never returns well: it fails, the entry says that
-- the agent gave up, and every image that gets merged stays as it was, at every point on the way.
pub recover-refusal :
    (h : Host)
    → IsInert h
    → (name reason : Text) (w : World) → known_good_of (get w.held name) ≡ none
    → w.history ≡ []
    → let (r, w') = recover name reason h w in
      Ends
        (λ _ _. ⊥)
        (λ w''. On GaveUp name w''.held × All (ImagesKept w.fs) (w''.fs ∷ w''.history))
        r
        w'
unfolding recover
recover-refusal h inert name reason w k e =
    (Hoare-weaken (λ _ _ x. x) (λ w'' i. (i.held, (i.now, i.ever)))
        (entry_of h inert name w.fs w.held (λ _ _. ⊥) _
          (λ o eo.
            from_none h inert name w.fs reason (known_good_of o) (ap known_good_of eo ∙ k)))).at
      w (refl, record { held = tt; now = λ n. refl; ever = rw e tt })

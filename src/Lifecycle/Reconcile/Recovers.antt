-- ===== src/Lifecycle/Reconcile/Recovers.antt =====
-- Where `recover` returns (agent/src/main.rs).
use carbide_os.Prelude.{Option, none, some}
use carbide_os.Text.{Text}
use carbide_os.State.{ExtensionState}
use carbide_os.State.Map.{get-update_entry_self}
use carbide_os.Host.{Host, World, FilePath}
use carbide_os.Effects.{modify_entry}
use carbide_os.Effects.Keeps.{Keeps-bind, Keeps-raise, Keeps-on_error, Keeps-ignore}
use carbide_os.Effects.Hoare.{Hoare, Hoare-bind, Hoare-after, Hoare-raise, Hoare-if}
use carbide_os.Lifecycle.Frame.Units.{Keeps-store}
use carbide_os.Lifecycle.Frame.Slots.{Keeps-prune_rollbacks, Keeps-prune_candidates}
use carbide_os.Lifecycle.Marks.{On}
use carbide_os.Lifecycle.Recover.{
  terminal, back_on, recover_onto, recover_from, recover, known_good_of,
}
use carbide_os.Lifecycle.Reconcile.Steps.{Free-any}
use carbide_os.Lifecycle.Reconcile.Quiet.{Nothing, untouched}

module _ {h : Host} (name : Text) {P : World → Type 0} where
  pub reaching_by :
      {E : Type 0} (T : ExtensionState → Type 0) (f : ExtensionState → ExtensionState)
      → ((e : ExtensionState) → T (f e))
      → Hoare {E = E} h P (modify_entry name f) (λ _ w. On T name w.held) Nothing
  unfolding modify_entry
  reaching_by T f k = record { at = λ w p. rw (get-update_entry_self name f w.held) (k _) }

  terminal-fails :
      {Q : World → Type 0} (reason : Text) → Hoare h P (terminal name reason) (λ _. Q) Nothing
  unfolding terminal
  terminal-fails reason = Hoare-after _ (λ _. Hoare-after _ (λ _. Hoare-raise _ (λ w i. tt)))

-- `T` is what an entry meets that is back on its known-good version.
module _ {h : Host} (name : Text) (T : ExtensionState → Type 0)
    (back : (version reason : Text) (e : ExtensionState) → T (back_on version reason e)) where
  recover_onto-reaches :
      {P : World → Type 0} (reason version : Text) (image : FilePath)
      → Hoare h P (recover_onto name reason version image) (λ _ w. On T name w.held) Nothing
  unfolding recover_onto
  recover_onto-reaches reason version image = Hoare-after _ λ _. Hoare-after _ λ _.
      Hoare-after _ λ _. Hoare-after _ λ _. Hoare-after _ λ _.
        Hoare-bind (reaching_by name T _ (back version reason)) λ _. untouched (
          Keeps-bind (Keeps-on_error (Keeps-store (Free-any.frame)) (λ e. Keeps-raise _)) λ _.
            Keeps-bind (Keeps-ignore (Keeps-prune_candidates Free-any name none))
              (λ _. Keeps-ignore (Keeps-prune_rollbacks Free-any name (some version))))

  recover_from-reaches :
      {P : World → Type 0} (reason : Text) (v : Option Text)
      → Hoare h P (recover_from name reason v) (λ _ w. On T name w.held) Nothing
  recover_from-reaches reason none = terminal-fails name _
  recover_from-reaches reason (some version) = Hoare-after _ λ os.
      Hoare-after _
        λ present. Hoare-if present (recover_onto-reaches reason version _) (terminal-fails name _)

  -- Where recovering returns, it has put the entry back on the known-good version.
  pub recover-reaches :
      {P : World → Type 0} (reason : Text)
      → Hoare h P (recover name reason) (λ _ w. On T name w.held) Nothing
  unfolding recover
  recover-reaches reason = Hoare-after _ (λ e. recover_from-reaches reason (known_good_of e))

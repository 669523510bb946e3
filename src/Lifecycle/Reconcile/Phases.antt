-- ===== src/Lifecycle/Reconcile/Phases.antt =====
-- Where reconciling one extension reports no failure (agent/src/main.rs, `reconcile_state`).
use carbide_os.Prelude.{◌≡◌, refl, Bool, true, false, Option, [], arith}
use carbide_os.Text.{Text}
use carbide_os.State.{
  ExtensionState, Phase, idle, staged, activating, starting, soaking, active, reverting, recovered,
  removing, unrecoverable,
}
use carbide_os.Host.{Host, World}
use carbide_os.Effects.Keeps.{Keeps-get_entry, Keeps-if, Keeps-pure}
use carbide_os.Effects.Invariant.{Keeps-modify_entry}
use carbide_os.Effects.Hoare.{Hoare, Hoare-bind, Hoare-after, Hoare-weaken, Hoare-pure, Hoare-if}
use carbide_os.Files.Keeps.{Keeps-exists}
use carbide_os.Lifecycle.Frame.Slots.{Keeps-active_path, Keeps-prune_rollbacks}
use carbide_os.Lifecycle.Marks.{On, On-update_entry}
use carbide_os.Lifecycle.Removal.{complete_removal}
use carbide_os.Lifecycle.Reconcile.{
  recover_step, reconcile_staged, active_gone, reconcile_active, reconcile_idle, reconcile_phase,
  reconcile_entry, unstaged,
}
use carbide_os.Lifecycle.Reconcile.Steps.{
  is_settled, Settled, Free-any, Keeps-reported, Keeps-prune_step, Keeps-present,
}
use carbide_os.Lifecycle.Reconcile.Quiet.{
  Nothing, Quiet, none_before, untouched, still, given, Hoare-reported,
}
use carbide_os.Lifecycle.Reconcile.Recovers.{reaching_by, recover-reaches}

-- The entry of `name` is settled.
abbrev pub Rests : Text → World → Type 0
Rests name w = On Settled name w.held

unstaged-Settled : (b : Bool) (e : ExtensionState) → Settled (unstaged b e)
unstaged-Settled true e = refl
unstaged-Settled false e = ground arith

module _ {h : Host} (name : Text) where
  complete_removal-settles :
      {P : World → Type 0} → Hoare h P (complete_removal name) (λ _. Rests name) Nothing
  unfolding complete_removal
  complete_removal-settles = Hoare-after _ λ _. Hoare-after _ λ _. Hoare-after _ λ _.
      Hoare-after _ λ _.
        Hoare-after _
          λ _. Hoare-after _ λ _. Hoare-after _ (λ _. reaching_by name Settled _ (λ e. refl))

  recover_step-settles :
      {P : World → Type 0} (reason : Text)
      → Hoare h P (recover_step name reason) (Quiet (Rests name)) Nothing
  unfolding recover_step
  recover_step-settles reason =
      Hoare-reported _ (recover-reaches name Settled (λ version why e. refl) reason)

  staged-rests :
      (v : Option Text)
      → Hoare h (Rests name) (reconcile_staged name v) (Quiet (Rests name)) Nothing
  unfolding reconcile_staged
  staged-rests v = Hoare-bind (untouched (Keeps-present name v)) λ present.
      Hoare-if present (Hoare-pure [] (λ w k e. k)) (
        Hoare-after _ λ slot. Hoare-after _ λ there.
          Hoare-bind (reaching_by name Settled _ (unstaged-Settled there))
            (λ _. Hoare-pure [] (λ w k e. k)))

  gone-rests :
      {P : World → Type 0} (e : Option ExtensionState)
      → Hoare h P (active_gone name e) (Quiet (Rests name)) Nothing
  unfolding active_gone
  gone-rests e =
      Hoare-if _ (recover_step-settles _)
        (Hoare-bind (reaching_by name Settled _ (λ e. refl)) (λ _. Hoare-pure [] (λ w k e. k)))

  active-rests : Hoare h (Rests name) (reconcile_active name) (Quiet (Rests name)) Nothing
  unfolding reconcile_active
  active-rests = Hoare-bind (untouched (Keeps-active_path (Free-any.frame) name)) λ slot.
      Hoare-bind (untouched (Keeps-exists (λ fs k. tt) h slot)) λ there.
        Hoare-bind (untouched (Keeps-get_entry name)) λ e.
          Hoare-bind (Hoare-if there (Hoare-pure [] (λ w k e. k)) (gone-rests e)) λ failures.
            Hoare-bind (still {Held = On Settled name} failures (Keeps-prune_step name))
              λ more. Hoare-pure _ (λ w k e. k (none_before failures more e))

  idle-rests : Hoare h (Rests name) (reconcile_idle name) (Quiet (Rests name)) Nothing
  unfolding reconcile_idle
  idle-rests = Hoare-bind (untouched (Keeps-active_path (Free-any.frame) name)) λ slot.
      Hoare-bind (untouched (Keeps-exists (λ fs k. tt) h slot)) λ there.
        Hoare-bind (untouched (Keeps-get_entry name)) λ e.
          Hoare-bind
            (untouched (
              Keeps-if _ _ _ (Keeps-modify_entry name _ (On-update_entry Settled name _ (λ e k. k)))
                (Keeps-pure tt)))
            λ _.
              Hoare-weaken (λ a w k e. k) (λ w x. x)
                (untouched {Held = On Settled name} (Keeps-prune_step name))

  -- What the entry held is needed where its phase was settled only.
  phase-rests :
      (phase : Phase) (v : Option Text)
      → Hoare h
          (λ w. is_settled phase ≡ true → Rests name w)
          (reconcile_phase name phase v)
          (Quiet (Rests name))
          Nothing
  unfolding reconcile_phase
  phase-rests staged v = given (λ w k. k refl) (staged-rests v)
  phase-rests activating v = recover_step-settles _
  phase-rests starting v = recover_step-settles _
  phase-rests soaking v = recover_step-settles _
  phase-rests reverting v = recover_step-settles _
  phase-rests removing v = Hoare-reported _ complete_removal-settles
  phase-rests active v = given (λ w k. k refl) active-rests
  phase-rests recovered v = given (λ w k. k refl) active-rests
  phase-rests idle v = given (λ w k. k refl) idle-rests
  phase-rests unrecoverable v =
      given (λ w k. k refl)
        (Hoare-weaken (λ a w k e. k) (λ w x. x)
          (untouched {Held = On Settled name} (Keeps-prune_step name)))

  pub entry-rests :
      (phase : Phase) (v known : Option Text)
      → Hoare h
          (λ w. is_settled phase ≡ true → Rests name w)
          (reconcile_entry name phase v known)
          (Quiet (Rests name))
          Nothing
  unfolding reconcile_entry
  entry-rests phase v known = Hoare-bind (phase-rests phase v) λ failures.
      Hoare-bind
        (still {Held = On Settled name} failures
          (Keeps-reported _ (Keeps-prune_rollbacks Free-any name known)))
        λ more. Hoare-pure _ (λ w k e. k (none_before failures more e))

-- ===== src/Lifecycle/Frame/Units.antt =====
-- Units, rulesets and the state file keep such an invariant.
use carbide_os.Prelude.{ℕ, zero, suc, Option, none, some, List}
use carbide_os.Text.{Text}
use carbide_os.State.{State}
use carbide_os.Host.{Host, Fs, IoError, ExitStatus, Result, ok, err}
use carbide_os.Effects.{Act}
use carbide_os.Effects.Keeps.{
  Keeps, keeps_rules, Keeps-bind, Keeps-pure, Keeps-raise, Keeps-raise_with, Keeps-halt, Keeps-lift,
  Keeps-get_host, Keeps-get_world, Keeps-if, Keeps-when, Keeps-map_err, Keeps-attempt, Keeps-ignore,
}
use carbide_os.Effects.Invariant.{Inv, Keeps-moment}
use carbide_os.Files.Keeps.{Keeps-change, Keeps-call}
use carbide_os.Config.{Ruleset, load_ruleset, load_named}
use carbide_os.StateFile.{store}
use carbide_os.StateFile.Atomic.{Keeps-store as Keeps-store_of}
use carbide_os.System.Command.{answered, take_effect, run, run_mutating, capture, systemctl, sysext}
use carbide_os.System.Units.{
  unit_is_active, unit_failed, start_unit, stop_unit, sysext_refresh, daemon_reload, clock,
  deadline_after, poll_ready, start_attempt, start_attempts_left, wait_until_ready, child_answer,
  await_child, run_probe, probe_with, probe, require_active, soak_loop, soak,
}
use carbide_os.System.Journal.{journal}
use carbide_os.Lifecycle.Frame.{Frame}

module _ {h : Host} {Held : State → Type 0} {Now Ever : Fs → Type 0} where
  pub Keeps-answered :
      (t : ℕ) (program : Text) (args : List Text)
      → Keeps h (Inv Held Now Ever) (answered t program args)
  Keeps-answered t program args =
      Keeps-bind (Keeps-get_world _)
        (λ fs. Keeps-bind (Keeps-get_host _) (λ answer. Keeps-lift answer))

  pub Keeps-run :
      (program : Text) (args : List Text) → Keeps h (Inv Held Now Ever) (run program args)
  unfolding run
  Keeps-run program args = Keeps-bind Keeps-moment λ t.
      Keeps-bind (Keeps-get_host _)
        (λ stuck. Keeps-if _ _ _ (Keeps-halt _) (Keeps-answered t program args))

  pub Keeps-capture :
      (program : Text) (args : List Text) → Keeps h (Inv Held Now Ever) (capture program args)
  unfolding capture
  Keeps-capture program args = search (keeps_rules, Keeps-run)

  pub Keeps-unit_is_active :
      {E : Type 0} (unit : Text) → Keeps {E = E} h (Inv Held Now Ever) (unit_is_active unit)
  unfolding unit_is_active
  Keeps-unit_is_active unit = Keeps-bind (Keeps-attempt (Keeps-run _ _)) (λ r. Keeps-pure _)

  Keeps-unit_failed :
      {E : Type 0} (unit : Text) → Keeps {E = E} h (Inv Held Now Ever) (unit_failed unit)
  unfolding unit_failed
  Keeps-unit_failed unit = Keeps-bind (Keeps-attempt (Keeps-run _ _)) (λ r. Keeps-pure _)

  Keeps-clock : {E : Type 0} → Keeps {E = E} h (Inv Held Now Ever) clock
  unfolding clock
  Keeps-clock = Keeps-bind Keeps-moment (λ t. Keeps-get_host _)

  Keeps-deadline_after :
      {E : Type 0} (timeout : ℕ) → Keeps {E = E} h (Inv Held Now Ever) (deadline_after timeout)
  unfolding deadline_after
  Keeps-deadline_after timeout =
      Keeps-bind Keeps-clock (λ now. Keeps-if _ _ _ (Keeps-pure _) (Keeps-halt _))

  Keeps-poll_ready :
      {E : Type 0} (fuel : ℕ) (unit : Text) (deadline : ℕ)
      → Keeps {E = E} h (Inv Held Now Ever) (poll_ready fuel unit deadline)
  unfolding poll_ready
  Keeps-poll_ready zero unit deadline = Keeps-halt _
  Keeps-poll_ready (suc fuel) unit deadline = Keeps-bind Keeps-clock λ now.
      Keeps-if _ _ _
        (Keeps-bind (Keeps-unit_is_active unit) λ active. Keeps-if _ _ _ (Keeps-pure _) (
          Keeps-bind (Keeps-unit_failed unit)
            (λ down. Keeps-if _ _ _ (Keeps-pure _) (Keeps-poll_ready fuel unit deadline))))
        (Keeps-pure _)

  Keeps-child_answer :
      (timeout deadline : ℕ) (again : Act Text (Unit {0})) (r : Result IoError (Option ExitStatus))
      → Keeps h (Inv Held Now Ever) again
      → Keeps h (Inv Held Now Ever) (child_answer timeout deadline again r)
  Keeps-child_answer timeout deadline again (err e) k = Keeps-raise _
  Keeps-child_answer timeout deadline again (ok none) k =
      Keeps-bind Keeps-clock (λ now. Keeps-if _ _ _ (Keeps-raise_with _) k)
  Keeps-child_answer timeout deadline again (ok (some status)) k =
      Keeps-if _ _ _ (Keeps-pure tt) (Keeps-raise _)

  Keeps-await_child :
      (fuel timeout deadline : ℕ) → Keeps h (Inv Held Now Ever) (await_child fuel timeout deadline)
  unfolding await_child
  Keeps-await_child zero timeout deadline = Keeps-halt _
  Keeps-await_child (suc fuel) timeout deadline = Keeps-bind Keeps-moment λ t.
      Keeps-bind (Keeps-get_host _)
        (λ r. Keeps-child_answer timeout deadline _ r (Keeps-await_child fuel timeout deadline))

  pub Keeps-journal :
      (unit : Option Text) (lines : ℕ) (cursor priority : Option Text)
      → Keeps h (Inv Held Now Ever) (journal unit lines cursor priority)
  unfolding journal
  Keeps-journal unit lines cursor priority =
      Keeps-bind (Keeps-get_host _) λ args.
        Keeps-bind (Keeps-capture _ args) (λ r. Keeps-if _ _ _ (Keeps-pure _) (Keeps-raise _))

  pub Keeps-load_named : (name : Text) → Keeps h (Inv Held Now Ever) (load_named name)
  unfolding load_named load_ruleset
  Keeps-load_named name = Keeps-bind Keeps-moment λ t. Keeps-bind (Keeps-get_host _) λ answer.
      Keeps-bind (Keeps-map_err _ (Keeps-lift answer)) λ contents.
        Keeps-bind (Keeps-get_host _) (elim [ ok r ↦ Keeps-pure r | err reason ↦ Keeps-raise _ ])

module _ {h : Host} {Held : State → Type 0} {Now Ever : Fs → Type 0}
    (sub : (fs : Fs) → Now fs → Ever fs) where
  pub Keeps-run_probe : (r : Ruleset) → Keeps h (Inv Held Now Ever) (run_probe r)
  unfolding run_probe
  Keeps-run_probe r = Keeps-bind (Keeps-map_err _ (Keeps-call sub h)) λ _.
      Keeps-bind (Keeps-deadline_after _)
        (λ deadline. Keeps-bind (Keeps-get_host _) (λ fuel. Keeps-await_child fuel _ deadline))

  Keeps-probe_with :
      (r : Ruleset) (command : Option (List Text))
      → Keeps h (Inv Held Now Ever) (probe_with r command)
  Keeps-probe_with r none = Keeps-pure tt
  Keeps-probe_with r (some command) = Keeps-run_probe r

  pub Keeps-probe : (r : Ruleset) → Keeps h (Inv Held Now Ever) (probe r)
  unfolding probe
  Keeps-probe r = Keeps-probe_with r r.health_command

  Keeps-require_active : (r : Ruleset) → Keeps h (Inv Held Now Ever) (require_active r)
  unfolding require_active
  Keeps-require_active r =
      Keeps-bind (Keeps-unit_is_active r.unit)
        (λ active. Keeps-if _ _ _ (Keeps-pure tt) (Keeps-raise _))

  Keeps-soak_loop :
      (fuel : ℕ) (r : Ruleset) (deadline : ℕ)
      → Keeps h (Inv Held Now Ever) (soak_loop fuel r deadline)
  unfolding soak_loop
  Keeps-soak_loop zero r deadline = Keeps-halt _
  Keeps-soak_loop (suc fuel) r deadline = Keeps-bind Keeps-clock λ now.
      Keeps-if _ _ _
        (Keeps-bind (Keeps-require_active r) λ _.
          Keeps-bind (Keeps-probe r)
            (λ _. Keeps-bind Keeps-clock (λ _. Keeps-soak_loop fuel r deadline)))
        (Keeps-pure tt)

  pub Keeps-soak : (r : Ruleset) → Keeps h (Inv Held Now Ever) (soak r)
  unfolding soak
  Keeps-soak r = Keeps-if _ _ _ (Keeps-probe r) (
      Keeps-bind (Keeps-deadline_after _) λ deadline. Keeps-bind (Keeps-get_host _) λ fuel.
        Keeps-bind (Keeps-soak_loop fuel r deadline)
          (λ _. Keeps-bind (Keeps-require_active r) (λ _. Keeps-probe r)))

module _ {h : Host} {Held : State → Type 0} {Now Ever : Fs → Type 0}
    (F : Frame h Held Now Ever) where
  pub Keeps-store : Keeps h (Inv Held Now Ever) store
  Keeps-store = Keeps-store_of F.sub h F.staging F.swap

  Keeps-run_mutating :
      (program : Text) (args : List Text)
      → ((t : ℕ) (fs : Fs) → Now fs → Now (h.effect t program args fs))
      → Keeps h (Inv Held Now Ever) (run_mutating program args)
  unfolding run_mutating
  Keeps-run_mutating program args inert =
      let affected : (t : ℕ) → Keeps h (Inv Held Now Ever) (take_effect t program args) =
        λ t. record { at = (Keeps-change F.sub h (h.effect t program args) (inert t)).at } in
      Keeps-bind Keeps-moment λ t. Keeps-bind (Keeps-get_host _) λ stuck.
        Keeps-if _ _ _ (Keeps-bind (affected t) (λ _. Keeps-halt _)) (
          Keeps-bind (Keeps-answered t program args)
            (λ output. Keeps-bind (affected t) (λ _. Keeps-pure output)))

  Keeps-systemctl : (args : List Text) → Keeps h (Inv Held Now Ever) (run_mutating systemctl args)
  Keeps-systemctl args = Keeps-run_mutating systemctl args (λ t. F.systemctl_inert t args)

  pub Keeps-stop_unit : (unit : Text) → Keeps h (Inv Held Now Ever) (stop_unit unit)
  unfolding stop_unit
  Keeps-stop_unit unit =
      Keeps-bind (Keeps-systemctl _) (λ o. Keeps-if _ _ _ (Keeps-pure tt) (Keeps-raise _))

  Keeps-start_unit : (unit : Text) → Keeps h (Inv Held Now Ever) (start_unit unit)
  unfolding start_unit
  Keeps-start_unit unit =
      Keeps-bind (Keeps-ignore (Keeps-systemctl _))
        λ _. Keeps-bind (Keeps-systemctl _) (λ o. Keeps-if _ _ _ (Keeps-pure tt) (Keeps-raise _))

  pub Keeps-daemon_reload : Keeps h (Inv Held Now Ever) daemon_reload
  unfolding daemon_reload
  Keeps-daemon_reload =
      Keeps-bind (Keeps-systemctl _) (λ o. Keeps-if _ _ _ (Keeps-pure tt) (Keeps-raise _))

  pub Keeps-sysext_refresh : Keeps h (Inv Held Now Ever) sysext_refresh
  unfolding sysext_refresh
  Keeps-sysext_refresh =
      Keeps-bind (Keeps-run_mutating sysext _ (λ t. F.sysext_inert t _))
        (λ o. Keeps-if _ _ _ (Keeps-pure tt) (Keeps-raise _))

  Keeps-start_attempt : (r : Ruleset) → Keeps h (Inv Held Now Ever) (start_attempt r)
  unfolding start_attempt
  Keeps-start_attempt r = Keeps-bind (Keeps-map_err _ (Keeps-start_unit r.unit)) λ _.
      Keeps-bind (Keeps-deadline_after _) λ deadline. Keeps-bind (Keeps-get_host _) λ fuel.
        Keeps-bind (Keeps-poll_ready fuel r.unit deadline)
          (λ up. Keeps-if _ _ _ (Keeps-pure _) (Keeps-unit_is_active r.unit))

  Keeps-start_attempts_left :
      (r : Ruleset) (left : ℕ) → Keeps h (Inv Held Now Ever) (start_attempts_left r left)
  unfolding start_attempts_left
  Keeps-start_attempts_left r zero = Keeps-pure _
  Keeps-start_attempts_left r (suc left) = Keeps-bind (Keeps-start_attempt r) λ up.
      Keeps-if _ _ _ (Keeps-pure _) (
        Keeps-bind (Keeps-when _ _ (Keeps-ignore (Keeps-stop_unit r.unit)))
          (λ _. Keeps-start_attempts_left r left))

  pub Keeps-wait_until_ready : (r : Ruleset) → Keeps h (Inv Held Now Ever) (wait_until_ready r)
  unfolding wait_until_ready
  Keeps-wait_until_ready r =
      Keeps-bind (Keeps-start_attempts_left r r.start_attempts)
        (λ up. Keeps-if _ _ _ (Keeps-pure tt) (Keeps-raise_with _))

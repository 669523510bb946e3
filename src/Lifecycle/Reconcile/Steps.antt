-- ===== src/Lifecycle/Reconcile/Steps.antt =====
-- What reconciling one extension leaves in the entries (agent/src/main.rs, `reconcile_state`).
use carbide_os.Prelude.{◌≡◌, Bool, true, false, Option, none, some, List, [], ◌∷◌, All}
use carbide_os.Text.{Text}
use carbide_os.State.{
  State, ExtensionState, Phase, update_entry, idle, staged, activating, starting, soaking, active,
  reverting, recovered, removing, unrecoverable,
}
use carbide_os.Host.{Host, World, Fs, IoError, Result, ok, err}
use carbide_os.Effects.{Act, modify_entry}
use carbide_os.Effects.Keeps.{
  Keeps, Keeps-bind, Keeps-pure, Keeps-get_host, Keeps-get_entry, Keeps-if, Keeps-map_err,
  Keeps-attempt, Keeps-ignore,
}
use carbide_os.Effects.Invariant.{Inv, Keeps-modify_entry}
use carbide_os.Files.Keeps.{Keeps-exists}
use carbide_os.Config.{Ruleset, ConfigError}
use carbide_os.StateFile.{stringly}
use carbide_os.Lifecycle.Frame.{Free}
use carbide_os.Lifecycle.Frame.Units.{
  Keeps-load_named, Keeps-stop_unit, Keeps-sysext_refresh, Keeps-daemon_reload,
}
use carbide_os.Lifecycle.Frame.Slots.{
  Keeps-active_path, Keeps-prune_rollbacks, Keeps-prune_candidates, Keeps-remove_active,
}
use carbide_os.Lifecycle.Recover.Keeps.{Moves, Keeps-recover}
use carbide_os.Lifecycle.Removal.{stop_if_loaded, complete_removal}
use carbide_os.Lifecycle.Reconcile.{
  reported, candidate_present, prune_step, recover_step, reconcile_staged, active_gone,
  reconcile_active, reconcile_idle, reconcile_phase, reconcile_entry,
}

-- A phase in which no transaction is under way.
abbrev pub is_settled : Phase → Bool
is_settled activating = false
is_settled starting = false
is_settled soaking = false
is_settled reverting = false
is_settled removing = false
is_settled idle = true
is_settled staged = true
is_settled active = true
is_settled recovered = true
is_settled unrecoverable = true

abbrev pub Settled : ExtensionState → Type 0
Settled e = is_settled e.phase ≡ true

-- An invariant of the state in memory alone.
abbrev pub Holding : (State → Type 0) → World → Type 0
Holding Held = Inv Held (λ _. Unit) (λ _. Unit)

anything : (l : List Fs) → All {0, 0} (λ _. Unit {0}) l
anything [] = tt
anything (fs ∷ l) = (tt, anything l)

pub holding : {Held : State → Type 0} (w : World) → Held w.held → Holding Held w
holding w k = record { held = k; now = tt; ever = anything w.history }

pub Moves-any :
    {Held : State → Type 0} (name : Text)
    → ((f : ExtensionState → ExtensionState) (s : State) → Held s → Held (update_entry name f s))
    → Moves Held name
Moves-any name any_change = record {
  refusing = λ version reason. any_change _;
  reverting = λ reason. any_change _;
  returning = λ version reason. any_change _;
}

module _ {h : Host} {Held : State → Type 0} where
  pub Free-any : Free h Held (λ _. Unit) (λ _. Unit)
  Free-any = record {
    frame = record {
      sub = λ fs k. tt;
      systemctl_inert = λ t args fs k. tt;
      sysext_inert = λ t args fs k. tt;
      staging = record { at_put = λ fs f k. tt; at_erase = λ fs k. tt };
      swap = λ s fs f k k' e. tt;
      retained = λ os n v. record { at_put = λ fs f k. tt; at_erase = λ fs k. tt };
      retained_new = λ os n v. record { at_put = λ fs f k. tt; at_erase = λ fs k. tt };
    };
    anywhere = λ n. record { at_put = λ fs f k. tt; at_erase = λ fs k. tt };
  }

  -- What keeps `Held` without a look at the entries.
  pub Keeps-reported :
      {E : Type 0} (message : E → Text) {m : Act E (Unit {0})}
      → Keeps h (Holding Held) m
      → Keeps h (Holding Held) (reported message m)
  unfolding reported
  Keeps-reported message km = Keeps-bind (Keeps-attempt km) (λ r. Keeps-pure _)

  pub Keeps-prune_step : (name : Text) → Keeps h (Holding Held) (prune_step name)
  unfolding prune_step
  Keeps-prune_step name = Keeps-reported _ (Keeps-prune_candidates Free-any name none)

  pub Keeps-present :
      (name : Text) (v : Option Text) → Keeps h (Holding Held) (candidate_present name v)
  Keeps-present name none = Keeps-pure false
  Keeps-present name (some v) = Keeps-bind (Keeps-get_host _) (λ os. Keeps-exists (λ fs k. tt) h _)

  Keeps-stop_if_loaded :
      (x : Result ConfigError Ruleset) → Keeps h (Holding Held) (stop_if_loaded x)
  Keeps-stop_if_loaded (ok r) = Keeps-ignore (Keeps-stop_unit (Free-any.frame) r.unit)
  Keeps-stop_if_loaded (err e) = Keeps-pure tt

  pub Keeps-stringly :
      {A : Type 0} {m : Act IoError A}
      → Keeps h (Holding Held) m
      → Keeps h (Holding Held) (stringly m)
  unfolding stringly
  Keeps-stringly km = Keeps-map_err _ km

  -- Where every change of the entry of `name` keeps `Held`, so does reconciling it.
  module _ (name : Text)
      (any_change : (f : ExtensionState → ExtensionState) (s : State)
        → Held s
        → Held (update_entry name f s)) where
    Keeps-changed :
        {E : Type 0} (f : ExtensionState → ExtensionState)
        → Keeps {E = E} h (Holding Held) (modify_entry name f)
    Keeps-changed f = Keeps-modify_entry name f (any_change f)

    Keeps-recover_step : (reason : Text) → Keeps h (Holding Held) (recover_step name reason)
    unfolding recover_step
    Keeps-recover_step reason =
        Keeps-reported _ (Keeps-recover Free-any (Moves-any name any_change) reason)

    Keeps-complete_removal : Keeps h (Holding Held) (complete_removal name)
    unfolding complete_removal
    Keeps-complete_removal = Keeps-bind (Keeps-attempt (Keeps-load_named name)) λ x.
        Keeps-bind (Keeps-stop_if_loaded x) λ _.
          Keeps-bind (Keeps-stringly (Keeps-remove_active Free-any name)) λ _.
            Keeps-bind (Keeps-stringly (Keeps-sysext_refresh (Free-any.frame))) λ _.
              Keeps-bind (Keeps-stringly (Keeps-daemon_reload (Free-any.frame))) λ _.
                Keeps-bind (Keeps-stringly (Keeps-prune_candidates Free-any name none)) λ _.
                  Keeps-bind (Keeps-stringly (Keeps-prune_rollbacks Free-any name none))
                    (λ _. Keeps-changed _)

    Keeps-reconcile_staged : (v : Option Text) → Keeps h (Holding Held) (reconcile_staged name v)
    unfolding reconcile_staged
    Keeps-reconcile_staged v = Keeps-bind (Keeps-present name v) λ present.
        Keeps-if _ _ _ (Keeps-pure []) (
          Keeps-bind (Keeps-active_path (Free-any.frame) name) λ slot.
            Keeps-bind (Keeps-exists (λ fs k. tt) h slot)
              λ p. Keeps-bind (Keeps-changed _) (λ _. Keeps-pure []))

    Keeps-active_gone : (e : Option ExtensionState) → Keeps h (Holding Held) (active_gone name e)
    unfolding active_gone
    Keeps-active_gone e =
        Keeps-if _ _ _ (Keeps-recover_step _) (Keeps-bind (Keeps-changed _) (λ _. Keeps-pure []))

    Keeps-reconcile_active : Keeps h (Holding Held) (reconcile_active name)
    unfolding reconcile_active
    Keeps-reconcile_active = Keeps-bind (Keeps-active_path (Free-any.frame) name) λ slot.
        Keeps-bind (Keeps-exists (λ fs k. tt) h slot) λ p. Keeps-bind (Keeps-get_entry name) λ e.
          Keeps-bind (Keeps-if _ _ _ (Keeps-pure []) (Keeps-active_gone e))
            λ failures. Keeps-bind (Keeps-prune_step name) (λ more. Keeps-pure _)

    Keeps-reconcile_idle : Keeps h (Holding Held) (reconcile_idle name)
    unfolding reconcile_idle
    Keeps-reconcile_idle = Keeps-bind (Keeps-active_path (Free-any.frame) name) λ slot.
        Keeps-bind (Keeps-exists (λ fs k. tt) h slot) λ p. Keeps-bind (Keeps-get_entry name) λ e.
          Keeps-bind (Keeps-if _ _ _ (Keeps-changed _) (Keeps-pure tt)) (λ _. Keeps-prune_step name)

    Keeps-reconcile_phase :
        (phase : Phase) (v : Option Text) → Keeps h (Holding Held) (reconcile_phase name phase v)
    unfolding reconcile_phase
    Keeps-reconcile_phase staged v = Keeps-reconcile_staged v
    Keeps-reconcile_phase activating v = Keeps-recover_step _
    Keeps-reconcile_phase starting v = Keeps-recover_step _
    Keeps-reconcile_phase soaking v = Keeps-recover_step _
    Keeps-reconcile_phase reverting v = Keeps-recover_step _
    Keeps-reconcile_phase removing v = Keeps-reported _ Keeps-complete_removal
    Keeps-reconcile_phase active v = Keeps-reconcile_active
    Keeps-reconcile_phase recovered v = Keeps-reconcile_active
    Keeps-reconcile_phase idle v = Keeps-reconcile_idle
    Keeps-reconcile_phase unrecoverable v = Keeps-prune_step name

    pub Keeps-reconcile_entry :
        (phase : Phase) (v known : Option Text)
        → Keeps h (Holding Held) (reconcile_entry name phase v known)
    unfolding reconcile_entry
    Keeps-reconcile_entry phase v known = Keeps-bind (Keeps-reconcile_phase phase v) λ failures.
        Keeps-bind (Keeps-reported _ (Keeps-prune_rollbacks Free-any name known))
          (λ more. Keeps-pure _)

-- ===== src/Lifecycle/Activate/Keeps.antt =====
-- The parts of an activation keep an invariant: what comes before the transaction is recorded leaves
-- mergeable images alone, what comes after it may replace them.
use carbide_os.StateFile.{store}
use carbide_os.StateFile.Atomic.{held_state}
use carbide_os.Effects.{set_held, raise, on_error, ◌>>◌}
use carbide_os.Effects.Hoare.{Hoare-bind, Hoare-fact, Hoare-of_Keeps, Keeps-of_Hoare}
use carbide_os.Prelude.{[], ℕ, Option, none, some}
use carbide_os.Text.{Text}
use carbide_os.State.{State, starting, soaking, update_entry}
use carbide_os.Host.{Host, Fs, FilePath, Result, ok, err, IoError}
use carbide_os.Effects.Keeps.{
  Keeps, Keeps-bind, Keeps-pure, Keeps-raise, Keeps-raise_with, Keeps-get_host, Keeps-get_entry,
  Keeps-if, Keeps-when, Keeps-map_err, Keeps-attempt, Keeps-on_error,
}
use carbide_os.Effects.Invariant.{Inv, Keeps-modify_entry, Keeps-set_held}
use carbide_os.Files.Keeps.{Keeps-exists, Keeps-file_len}
use carbide_os.Config.{Ruleset, ConfigError}
use carbide_os.System.Command.{available_bytes, available_of}
use carbide_os.Lifecycle.Frame.{Frame, Free}
use carbide_os.Lifecycle.Frame.Units.{
  Keeps-run, Keeps-store, Keeps-load_named, Keeps-journal, Keeps-soak, Keeps-wait_until_ready,
  Keeps-stop_unit, Keeps-sysext_refresh, Keeps-daemon_reload,
}
use carbide_os.Lifecycle.Frame.Slots.{Keeps-active_path, Keeps-retaining, Keeps-install_active}
use carbide_os.Lifecycle.Recover.{known_good_of}
use carbide_os.Lifecycle.Recover.Keeps.{Moves, Keeps-recover}
use carbide_os.Lifecycle.Adopt.{AdoptError, no_ruleset, failed, adopted}
use carbide_os.Lifecycle.Adopt.Keeps.{Keeps-merged_version, Keeps-adopt_active}
use carbide_os.Lifecycle.Activate.{
  Setback, adoption_outcome, adopt_merged, adopt_unless_known, adopt_unrecorded, missing_retained,
  require_room, retain_outgoing, in_phase, committed, commit, prove, stop_current, promote,
  failure_log, revert,
}

module _ {h : Host} {Held : State → Type 0} {Now Ever : Fs → Type 0} (F : Frame h Held Now Ever)
    (name : Text) where
  Keeps-adoption_outcome :
      (r : Result AdoptError (Unit {0})) → Keeps h (Inv Held Now Ever) (adoption_outcome r)
  Keeps-adoption_outcome (ok _) = Keeps-pure tt
  Keeps-adoption_outcome (err (no_ruleset e)) = Keeps-pure tt
  Keeps-adoption_outcome (err (failed e)) = Keeps-raise _

  module _
      (adopting : (version : Text) (s : State)
        → Held s
        → Held (update_entry name (adopted version) s)) where
    Keeps-adopt_merged :
        (current : Option Text) → Keeps h (Inv Held Now Ever) (adopt_merged name current)
    Keeps-adopt_merged none = Keeps-pure tt
    Keeps-adopt_merged (some version) =
        Keeps-bind (Keeps-attempt (Keeps-adopt_active F name adopting version))
          Keeps-adoption_outcome

    Keeps-adopt_unless_known :
        (known : Option Text) → Keeps h (Inv Held Now Ever) (adopt_unless_known name known)
    Keeps-adopt_unless_known (some version) = Keeps-pure tt
    Keeps-adopt_unless_known none = Keeps-bind (Keeps-active_path F name) λ slot.
        Keeps-bind (Keeps-exists F.sub h slot) λ present.
          Keeps-if _ _ _ (Keeps-pure tt) (Keeps-bind (Keeps-merged_version name) Keeps-adopt_merged)

    pub Keeps-adopt_unrecorded : Keeps h (Inv Held Now Ever) (adopt_unrecorded name)
    unfolding adopt_unrecorded
    Keeps-adopt_unrecorded =
        Keeps-bind (Keeps-get_entry name) (λ e. Keeps-adopt_unless_known (known_good_of e))

  pub Keeps-missing_retained :
      (previous : Option Text) → Keeps h (Inv Held Now Ever) (missing_retained name previous)
  unfolding missing_retained
  Keeps-missing_retained none = Keeps-pure _
  Keeps-missing_retained (some previous) = Keeps-bind (Keeps-get_host _) λ os.
      Keeps-bind (Keeps-exists F.sub h _) λ present. Keeps-if _ _ _ (Keeps-pure _) (
        Keeps-bind (Keeps-active_path F name)
          (λ slot. Keeps-map_err _ (Keeps-file_len F.sub h slot)))

  Keeps-available_of : (o : Option ℕ) → Keeps h (Inv Held Now Ever) (available_of o)
  Keeps-available_of none = Keeps-raise _
  Keeps-available_of (some n) = Keeps-pure n

  pub Keeps-available_bytes : Keeps h (Inv Held Now Ever) available_bytes
  unfolding available_bytes
  Keeps-available_bytes =
      Keeps-bind (Keeps-run _ _) (λ o. Keeps-if _ _ _ (Keeps-available_of _) (Keeps-raise _))

  pub Keeps-require_room : (required : ℕ) → Keeps h (Inv Held Now Ever) (require_room required)
  unfolding require_room
  Keeps-require_room required =
      Keeps-bind (Keeps-map_err _ Keeps-available_bytes)
        (λ available. Keeps-if _ _ _ (Keeps-raise_with _) (Keeps-pure tt))

  pub Keeps-retain_outgoing :
      (previous : Option Text) → Keeps h (Inv Held Now Ever) (retain_outgoing name previous)
  unfolding retain_outgoing
  Keeps-retain_outgoing none = Keeps-pure tt
  Keeps-retain_outgoing (some previous) = Keeps-bind (Keeps-get_host _) λ os.
      Keeps-bind (Keeps-active_path F name) λ slot. Keeps-bind (Keeps-exists F.sub h _) λ a.
        Keeps-bind (Keeps-exists F.sub h _)
          (λ b. Keeps-when _ _ (Keeps-map_err _ (Keeps-retaining F slot os name previous)))

-- What the transaction does to the entry of `name` once it is recorded.
pub record Advances (Held : State → Type 0) (name version : Text) (request_id : Option Text)
    : Type 0 where
  pub to_starting : (s : State) → Held s → Held (update_entry name (in_phase starting) s)
  pub to_soaking : (s : State) → Held s → Held (update_entry name (in_phase soaking) s)
  pub to_committed :
      (s : State) → Held s → Held (update_entry name (committed version request_id) s)

module _ {h : Host} {Held : State → Type 0} {Now Ever : Fs → Type 0} (F : Free h Held Now Ever)
    {name version : Text} {request_id : Option Text} where
  module _ (V : Advances Held name version request_id) where
    Keeps-failed_commit :
        (before : State) (f : IoError → Setback)
        → Held before
        → Keeps h (Inv Held Now Ever) (on_error store (λ e. set_held before >> raise (f e)))
    Keeps-failed_commit before f hb =
        Keeps-on_error (Keeps-store F.frame)
          (λ e. Keeps-bind (Keeps-set_held before hb) (λ _. Keeps-raise _))

    Keeps-commit :
        (unit : Option Text) → Keeps h (Inv Held Now Ever) (commit name version request_id unit)
    unfolding commit
    Keeps-commit unit = Keeps-of_Hoare (
        Hoare-bind held_state λ before. Hoare-fact λ hb. Hoare-of_Keeps (
          Keeps-bind (Keeps-modify_entry name _ V.to_committed)
            (λ _. Keeps-failed_commit before _ hb)))

    pub Keeps-prove :
        (rules : Ruleset) → Keeps h (Inv Held Now Ever) (prove name version request_id rules)
    unfolding prove
    Keeps-prove rules = Keeps-bind (Keeps-modify_entry name _ V.to_starting) λ _.
        Keeps-bind (Keeps-map_err _ (Keeps-store F.frame)) λ _.
          Keeps-bind (Keeps-map_err _ (Keeps-wait_until_ready F.frame rules)) λ _.
            Keeps-bind (Keeps-modify_entry name _ V.to_soaking) λ _.
              Keeps-bind (Keeps-map_err _ (Keeps-store F.frame)) λ _.
                Keeps-bind (Keeps-map_err _ (Keeps-soak F.frame.sub rules)) (λ _. Keeps-commit _)

    Keeps-stop_current :
        (r : Result ConfigError Ruleset) → Keeps h (Inv Held Now Ever) (stop_current r)
    Keeps-stop_current (ok current) = Keeps-map_err _ (Keeps-stop_unit F.frame current.unit)
    Keeps-stop_current (err error) = Keeps-pure tt

    pub Keeps-promote :
        (candidate : FilePath)
        → Keeps h (Inv Held Now Ever) (promote name version request_id candidate)
    unfolding promote
    Keeps-promote candidate = Keeps-bind (Keeps-attempt (Keeps-load_named name)) λ current.
        Keeps-bind (Keeps-stop_current current) λ _.
          Keeps-bind (Keeps-map_err _ (Keeps-install_active F candidate name)) λ _.
            Keeps-bind (Keeps-map_err _ (Keeps-sysext_refresh F.frame)) λ _.
              Keeps-bind (Keeps-map_err _ (Keeps-daemon_reload F.frame))
                λ _. Keeps-bind (Keeps-map_err _ (Keeps-load_named name)) Keeps-prove

module _ {h : Host} {Held : State → Type 0} {Now Ever : Fs → Type 0}
    (F : Free h Held Now Ever) where
  Keeps-failure_log : (unit : Option Text) → Keeps h (Inv Held Now Ever) (failure_log unit)
  unfolding failure_log
  Keeps-failure_log none = Keeps-pure []
  Keeps-failure_log (some unit) =
      Keeps-bind (Keeps-attempt (Keeps-journal _ _ _ _)) (λ answer. Keeps-pure _)

  pub Keeps-revert :
      {name : Text} → Moves Held name → (s : Setback) → Keeps h (Inv Held Now Ever) (revert name s)
  unfolding revert
  Keeps-revert {name} M s =
      Keeps-bind (Keeps-failure_log s.unit)
        λ log. Keeps-bind (Keeps-attempt (Keeps-recover F M s.reason)) (λ reverted. Keeps-raise _)

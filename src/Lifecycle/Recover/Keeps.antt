-- ===== src/Lifecycle/Recover/Keeps.antt =====
-- `recover` keeps an invariant that ignores the slots, if the three rewrites of the entry keep what
-- is known of the held state.
use carbide_os.Prelude.{Option, none, some}
use carbide_os.Text.{Text}
use carbide_os.State.{State, update_entry}
use carbide_os.Host.{Host, Fs, FilePath, Result, ok, err}
use carbide_os.Effects.Keeps.{
  Keeps, Keeps-bind, Keeps-pure, Keeps-raise, Keeps-get_host, Keeps-get_entry, Keeps-if,
  Keeps-attempt, Keeps-ignore, Keeps-on_error,
}
use carbide_os.Effects.Invariant.{Inv, Keeps-modify_entry}
use carbide_os.Files.Keeps.{Keeps-exists}
use carbide_os.Config.{Ruleset, ConfigError}
use carbide_os.Lifecycle.Frame.{Frame, Free}
use carbide_os.Lifecycle.Frame.Units.{
  Keeps-store, Keeps-load_named, Keeps-probe, Keeps-wait_until_ready, Keeps-stop_unit,
  Keeps-sysext_refresh, Keeps-daemon_reload,
}
use carbide_os.Lifecycle.Frame.Slots.{
  Keeps-install_active, Keeps-prune_rollbacks, Keeps-prune_candidates,
}
use carbide_os.Lifecycle.Recover.{
  refused, fail, terminal, healthy_now, being_reverted, back_on, stop_declared, prove_restored,
  restore, recover_onto, recover_from, known_good_of, recover,
}

-- What `recover` does to the entry of `name`.
pub record Moves (Held : State → Type 0) (name : Text) : Type 0 where
  pub refusing :
      (version : Option Text) (reason : Text) (s : State)
      → Held s
      → Held (update_entry name (refused version reason) s)
  pub reverting :
      (reason : Text) (s : State) → Held s → Held (update_entry name (being_reverted reason) s)
  pub returning :
      (version reason : Text) (s : State)
      → Held s
      → Held (update_entry name (back_on version reason) s)

module _ {h : Host} {Held : State → Type 0} {Now Ever : Fs → Type 0}
    (F : Frame h Held Now Ever) where
  pub Keeps-healthy_now : (r : Ruleset) → Keeps h (Inv Held Now Ever) (healthy_now r)
  unfolding healthy_now
  Keeps-healthy_now r = Keeps-bind (Keeps-wait_until_ready F r) (λ _. Keeps-probe F.sub r)

module _ {h : Host} {Held : State → Type 0} {Now Ever : Fs → Type 0} (F : Free h Held Now Ever)
    {name : Text} (M : Moves Held name) where
  Keeps-terminal : (reason : Text) → Keeps h (Inv Held Now Ever) (terminal name reason)
  unfolding terminal fail
  Keeps-terminal reason =
      Keeps-bind
        (Keeps-bind (Keeps-get_host _)
          (λ version. Keeps-modify_entry name _ (M.refusing version reason)))
        λ _.
          Keeps-bind (Keeps-on_error (Keeps-store F.frame) (λ e. Keeps-raise _))
            (λ _. Keeps-raise reason)

  Keeps-stop_declared :
      (r : Result ConfigError Ruleset) → Keeps h (Inv Held Now Ever) (stop_declared r)
  Keeps-stop_declared (ok current) = Keeps-ignore (Keeps-stop_unit F.frame current.unit)
  Keeps-stop_declared (err error) = Keeps-pure tt

  Keeps-prove_restored :
      (reason version : Text) (r : Result ConfigError Ruleset)
      → Keeps h (Inv Held Now Ever) (prove_restored name reason version r)
  Keeps-prove_restored reason version (ok rules) =
      Keeps-on_error (Keeps-healthy_now F.frame rules) (λ e. Keeps-terminal _)
  Keeps-prove_restored reason version (err error) = Keeps-terminal _

  Keeps-restore :
      (reason version : Text) (image : FilePath)
      → Keeps h (Inv Held Now Ever) (restore name reason version image)
  unfolding restore
  Keeps-restore reason version image =
      Keeps-bind (Keeps-on_error (Keeps-install_active F image name) (λ e. Keeps-terminal _)) λ _.
        Keeps-bind (Keeps-on_error (Keeps-sysext_refresh F.frame) (λ e. Keeps-terminal _)) λ _.
          Keeps-bind (Keeps-on_error (Keeps-daemon_reload F.frame) (λ e. Keeps-terminal _)) λ _.
            Keeps-bind (Keeps-attempt (Keeps-load_named name)) (Keeps-prove_restored reason version)

  Keeps-recover_onto :
      (reason version : Text) (image : FilePath)
      → Keeps h (Inv Held Now Ever) (recover_onto name reason version image)
  unfolding recover_onto
  Keeps-recover_onto reason version image =
      Keeps-bind (Keeps-modify_entry name _ (M.reverting reason)) λ _.
        Keeps-bind (Keeps-on_error (Keeps-store F.frame) (λ e. Keeps-raise _)) λ _.
          Keeps-bind (Keeps-attempt (Keeps-load_named name)) λ current.
            Keeps-bind (Keeps-stop_declared current) λ _.
              Keeps-bind (Keeps-restore reason version image) λ _.
                Keeps-bind (Keeps-modify_entry name _ (M.returning version reason)) λ _.
                  Keeps-bind (Keeps-on_error (Keeps-store F.frame) (λ e. Keeps-raise _)) λ _.
                    Keeps-bind (Keeps-ignore (Keeps-prune_candidates F name none))
                      (λ _. Keeps-ignore (Keeps-prune_rollbacks F name _))

  Keeps-recover_from :
      (reason : Text) (known_good : Option Text)
      → Keeps h (Inv Held Now Ever) (recover_from name reason known_good)
  Keeps-recover_from reason none = Keeps-terminal _
  Keeps-recover_from reason (some version) = Keeps-bind (Keeps-get_host _) λ os.
      Keeps-bind (Keeps-exists F.frame.sub h _)
        λ present. Keeps-if _ _ _ (Keeps-recover_onto reason version _) (Keeps-terminal _)

  pub Keeps-recover : (reason : Text) → Keeps h (Inv Held Now Ever) (recover name reason)
  unfolding recover
  Keeps-recover reason =
      Keeps-bind (Keeps-get_entry name) (λ e. Keeps-recover_from reason (known_good_of e))

-- ===== src/Lifecycle/Adopt/Keeps.antt =====
-- `adopt_active` keeps an invariant that ignores the rollback slots.
use carbide_os.Text.{Text}
use carbide_os.State.{State, update_entry}
use carbide_os.Host.{Host, Fs}
use carbide_os.Effects.Keeps.{
  Keeps, Keeps-bind, Keeps-pure, Keeps-raise, Keeps-get_host, Keeps-when, Keeps-map_err,
}
use carbide_os.Effects.Invariant.{Inv, Keeps-moment, Keeps-modify_entry}
use carbide_os.Files.Keeps.{Keeps-exists}
use carbide_os.Lifecycle.Frame.{Frame}
use carbide_os.Lifecycle.Frame.Units.{Keeps-store, Keeps-load_named}
use carbide_os.Lifecycle.Frame.Slots.{Keeps-active_path, Keeps-retaining}
use carbide_os.Lifecycle.Recover.Keeps.{Keeps-healthy_now}
use carbide_os.Lifecycle.Adopt.{merged_version, retain, adopted, adopt_active}

module _ {h : Host} {Held : State → Type 0} {Now Ever : Fs → Type 0} where
  pub Keeps-merged_version :
      {E : Type 0} (name : Text) → Keeps {E = E} h (Inv Held Now Ever) (merged_version name)
  unfolding merged_version
  Keeps-merged_version name =
      Keeps-bind Keeps-moment (λ t. Keeps-bind (Keeps-get_host _) (λ r. Keeps-pure _))

module _ {h : Host} {Held : State → Type 0} {Now Ever : Fs → Type 0} (F : Frame h Held Now Ever)
    (name : Text)
    (adopting : (version : Text) (s : State)
      → Held s
      → Held (update_entry name (adopted version) s)) where
  pub Keeps-adopt_active :
      (version : Text) → Keeps h (Inv Held Now Ever) (adopt_active name version)
  unfolding adopt_active retain
  Keeps-adopt_active version = Keeps-bind (Keeps-map_err _ (Keeps-load_named name)) λ rules.
      Keeps-bind (Keeps-active_path F name) λ slot.
        Keeps-bind (Keeps-exists F.sub h slot) λ present.
          Keeps-bind (Keeps-when _ _ (Keeps-raise _)) λ _.
            Keeps-bind (Keeps-map_err _ (Keeps-healthy_now F rules)) λ _.
              Keeps-bind (Keeps-get_host _) λ os.
                Keeps-bind
                  (Keeps-map_err _ (
                    Keeps-bind (Keeps-exists F.sub h _)
                      (λ kept. Keeps-when _ _ (Keeps-retaining F slot os name version))))
                  λ _.
                    Keeps-bind (Keeps-modify_entry name _ (adopting version))
                      (λ _. Keeps-map_err _ (Keeps-store F))

-- ===== src/Effects/Invariant.antt =====
-- Invariants of the shape that the agent's properties have: `Held` of the state in memory, `Now` of
-- the files as they stand, and `Ever` of the files as they stood before each change.
use carbide_os.Prelude.{All}
use carbide_os.State.{State, ExtensionState, update_entry}
use carbide_os.Text.{Text}
use carbide_os.Host.{Host, World, Fs}
use carbide_os.Effects.{moment, modify_entry, set_held}
use carbide_os.Effects.Keeps.{Keeps}

pub record Inv (Held : State → Type 0) (Now Ever : Fs → Type 0) (w : World) : Type 0 where
  pub held : Held w.held
  pub now : Now w.fs
  pub ever : All Ever w.history

module _ {Held : State → Type 0} {Now Ever : Fs → Type 0} {h : Host} {E : Type 0} where
  pub Keeps-moment : Keeps {E = E} h (Inv Held Now Ever) moment
  unfolding moment
  Keeps-moment = record { at = λ w p. record { held = p.held; now = p.now; ever = p.ever } }

  pub Keeps-set_held : (s : State) → Held s → Keeps {E = E} h (Inv Held Now Ever) (set_held s)
  unfolding set_held
  Keeps-set_held s hs = record { at = λ w p. record { held = hs; now = p.now; ever = p.ever } }

  pub Keeps-modify_entry :
      (name : Text) (f : ExtensionState → ExtensionState)
      → ((s : State) → Held s → Held (update_entry name f s))
      → Keeps {E = E} h (Inv Held Now Ever) (modify_entry name f)
  unfolding modify_entry
  Keeps-modify_entry name f keep = record {
    at = λ w p. record { held = keep w.held p.held; now = p.now; ever = p.ever };
  }

-- ===== src/Effects.antt =====
-- Operations that may fail: Rust's `?`, `map_err`, `let _ =` and `if let Err` over a changing world.
-- What was changed before a failure stays changed.
pub mod Keeps
pub mod Invariant
pub mod Hoare
pub mod Total
pub mod Endings
use carbide_os.Prelude.{ℕ, ◌+◌, List, [], ◌∷◌, Bool, true, false, Option, none, some}
use carbide_os.Text.{Text}
use carbide_os.State.{State, ExtensionState, get, update_entry}
use carbide_os.Host.{Host, World, Result, ok, err}

-- Why a run has no result: a Rust panic, a program that was started and never returns, or a waiting loop
-- that used up the host's fuel.
pub data Halt : Type 0 where
  panicked blocked out_of_fuel : Halt

pub data Outcome (E A : Type 0) : Type 0 where
  done : A → Outcome E A
  failed : E → Outcome E A
  halted : Halt → Outcome E A

abbrev pub Act : Type 0 → Type 0 → Type 0
Act E A = Host → World → Outcome E A × World

module _ {E A : Type 0} where
  abbrev pub pure : A → Act E A
  pure a h w = (done a, w)

  abbrev pub raise : E → Act E A
  raise e h w = (failed e, w)

  -- A failure whose message is formatted by the host.
  abbrev pub raise_with : (Host → E) → Act E A
  raise_with f h w = (failed (f h), w)

  abbrev pub halt : Halt → Act E A
  halt s h w = (halted s, w)

  abbrev pub lift : Result E A → Act E A
  lift (ok a) h w = (done a, w)
  lift (err e) h w = (failed e, w)

module _ {E A B : Type 0} where
  abbrev pub continue : Outcome E A → (A → Act E B) → Act E B
  continue (done a) f h w = f a h w
  continue (failed e) f h w = (failed e, w)
  continue (halted s) f h w = (halted s, w)

  infixl 10 ◌>>=◌ ◌>>◌
  unfoldable pub ◌>>=◌ : Act E A → (A → Act E B) → Act E B
  ◌>>=◌ m f h w = let (r, w') = m h w in continue r f h w'

  abbrev pub ◌>>◌ : Act E A → Act E B → Act E B
  m >> n = m >>= λ _. n

module _ {E F A : Type 0} where
  abbrev pub handled : Outcome E A → (E → F) → World → Outcome F A × World
  handled (done a) f w = (done a, w)
  handled (failed e) f w = (failed (f e), w)
  handled (halted s) f w = (halted s, w)

  unfoldable pub map_err : (E → F) → Act E A → Act F A
  map_err f m h w = let (r, w') = m h w in handled r f w'

  abbrev pub reified : Outcome E A → World → Outcome F (Result E A) × World
  reified (done a) w = (done (ok a), w)
  reified (failed e) w = (done (err e), w)
  reified (halted s) w = (halted s, w)

  -- The result as a value, for code that goes on after a failure.
  unfoldable pub attempt : Act E A → Act F (Result E A)
  attempt m h w = let (r, w') = m h w in reified r w'

module _ {E F A : Type 0} where
  abbrev pub caught : Outcome E A → (E → Act F A) → Act F A
  caught (done a) f h w = (done a, w)
  caught (failed e) f h w = f e h w
  caught (halted s) f h w = (halted s, w)

  -- `if let Err(e) = m { return f(e) }`
  unfoldable pub on_error : Act E A → (E → Act F A) → Act F A
  on_error m f h w = let (r, w') = m h w in caught r f h w'

-- `let _ = m`
unfoldable pub ignore : {E F A : Type 0} → Act E A → Act F (Unit {0})
ignore m = attempt m >>= λ _. pure tt

module _ {E : Type 0} where
  abbrev pub skip : Act E (Unit {0})
  skip = pure tt

  abbrev pub when : Bool → Act E (Unit {0}) → Act E (Unit {0})
  when true m = m
  when false m = skip

  unfoldable pub get_host : {A : Type 0} → (Host → A) → Act E A
  get_host f h w = (done (f h), w)

  unfoldable pub get_world : {A : Type 0} → (World → A) → Act E A
  get_world f h w = (done (f w), w)

  -- The moment of a call.
  unfoldable pub moment : Act E ℕ
  moment h w = (done w.tick, record w { tick = w.tick + 1 })

  unfoldable pub for_each : {A : Type 0} → List A → (A → Act E (Unit {0})) → Act E (Unit {0})
  for_each [] f = skip
  for_each (a ∷ as') f = f a >> for_each as' f

  unfoldable pub set_held : State → Act E (Unit {0})
  set_held s h w = (done tt, record w { held = s })

  -- The entry of one extension in the `State` that the operation holds.
  unfoldable pub get_entry : Text → Act E (Option ExtensionState)
  get_entry name = get_world (λ w. get w.held name)

  -- Assignments through `state.entry(name)`.
  unfoldable pub modify_entry : Text → (ExtensionState → ExtensionState) → Act E (Unit {0})
  modify_entry name f h w = (done tt, record w { held = update_entry name f w.held })

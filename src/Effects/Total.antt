-- ===== src/Effects/Total.antt =====
-- Operations that end but for a program that they run: they return, fail, panic, or wait for a program
-- that never returns, and never use up the fuel of a waiting loop.
use carbide_os.Prelude.{Bool, true, false, if◌then◌else◌}
use carbide_os.Text.{Text}
use carbide_os.State.{State, ExtensionState}
use carbide_os.Host.{Host, World, Result, ok, err}
use carbide_os.Effects.{
  Act, Outcome, done, failed, halted, panicked, blocked, out_of_fuel, pure, raise, raise_with, lift,
  halt, continue, map_err, attempt, ignore, on_error, handled, reified, caught, when, get_host,
  get_world, moment, get_entry, set_held, modify_entry, ◌>>=◌,
}

module _ {E A : Type 0} where
  -- The run did not use up its fuel.
  abbrev pub Fueled : Outcome E A → Type 0
  Fueled (done a) = Unit
  Fueled (failed e) = Unit
  Fueled (halted panicked) = Unit
  Fueled (halted blocked) = Unit
  Fueled (halted out_of_fuel) = ⊥

  -- The same, with `Q` of what is returned.
  abbrev pub Good : (A → Type 0) → Outcome E A → Type 0
  Good Q (done a) = Q a
  Good Q (failed e) = Unit
  Good Q (halted panicked) = Unit
  Good Q (halted blocked) = Unit
  Good Q (halted out_of_fuel) = ⊥

pub record Total {E A : Type 0} (h : Host) (m : Act E A) : Type 0 where
  pub at : (w : World) → Fueled (m h w).0

pub record Yields {E A : Type 0} (h : Host) (Q : A → Type 0) (m : Act E A) : Type 0 where
  pub at : (w : World) → Good Q (m h w).0

module _ {h : Host} {E A : Type 0} where
  pub Total-pure : (a : A) → Total {E = E} h (pure a)
  Total-pure a = record { at = λ w. tt }

  pub Total-raise : (e : E) → Total {A = A} h (raise e)
  Total-raise e = record { at = λ w. tt }

  pub Total-raise_with : (f : Host → E) → Total {A = A} h (raise_with f)
  Total-raise_with f = record { at = λ w. tt }

  pub Total-blocked : Total {E = E} {A = A} h (halt blocked)
  Total-blocked = record { at = λ w. tt }

  pub Total-panic : Total {E = E} {A = A} h (halt panicked)
  Total-panic = record { at = λ w. tt }

  pub Total-lift : (r : Result E A) → Total h (lift r)
  Total-lift (ok a) = record { at = λ w. tt }
  Total-lift (err e) = record { at = λ w. tt }

  pub Total-get_host : (f : Host → A) → Total {E = E} h (get_host f)
  unfolding get_host
  Total-get_host f = record { at = λ w. tt }

  pub Total-get_world : (f : World → A) → Total {E = E} h (get_world f)
  unfolding get_world
  Total-get_world f = record { at = λ w. tt }

  pub Total-if : (b : Bool) (m n : Act E A) → Total h m → Total h n → Total h (if b then m else n)
  Total-if true m n km kn = km
  Total-if false m n km kn = kn

module _ {h : Host} {E : Type 0} where
  pub Total-moment : Total {E = E} h moment
  unfolding moment
  Total-moment = record { at = λ w. tt }

  pub Total-get_entry : (name : Text) → Total {E = E} h (get_entry name)
  unfolding get_entry get_world
  Total-get_entry name = record { at = λ w. tt }

  pub Total-set_held : (s : State) → Total {E = E} h (set_held s)
  unfolding set_held
  Total-set_held s = record { at = λ w. tt }

  pub Total-modify_entry :
      (name : Text) (f : ExtensionState → ExtensionState) → Total {E = E} h (modify_entry name f)
  unfolding modify_entry
  Total-modify_entry name f = record { at = λ w. tt }

  pub Total-when : (b : Bool) (m : Act E (Unit {0})) → Total h m → Total h (when b m)
  Total-when true m km = km
  Total-when false m km = Total-pure tt

module _ {h : Host} {E A B : Type 0} where
  Good-continue :
      (Q : A → Type 0) (r : Outcome E A) (f : A → Act E B) (w : World)
      → Good Q r
      → ((a : A) → Q a → Total h (f a))
      → Fueled (continue r f h w).0
  Good-continue Q (done a) f w q k = (k a q).at w
  Good-continue Q (failed e) f w q k = tt
  Good-continue Q (halted panicked) f w q k = tt
  Good-continue Q (halted blocked) f w q k = tt
  Good-continue Q (halted out_of_fuel) f w q k = q

  -- What follows may rely on what is returned.
  pub Total-then :
      {Q : A → Type 0} {m : Act E A} {f : A → Act E B}
      → Yields h Q m
      → ((a : A) → Q a → Total h (f a))
      → Total h (m >>= f)
  unfolding ◌>>=◌
  Total-then {Q} {m} {f} ym kf = record {
    at = λ w. Good-continue Q (m h w).0 f (m h w).1 (ym.at w) kf;
  }

module _ {E A : Type 0} where
  Good-Fueled : (r : Outcome E A) → Fueled r → Good (λ _. Unit) r
  Good-Fueled (done a) p = tt
  Good-Fueled (failed e) p = tt
  Good-Fueled (halted panicked) p = tt
  Good-Fueled (halted blocked) p = tt
  Good-Fueled (halted out_of_fuel) p = p

  Fueled-Good : (Q : A → Type 0) (r : Outcome E A) → Good Q r → Fueled r
  Fueled-Good Q (done a) p = tt
  Fueled-Good Q (failed e) p = tt
  Fueled-Good Q (halted panicked) p = tt
  Fueled-Good Q (halted blocked) p = tt
  Fueled-Good Q (halted out_of_fuel) p = p

pub Total-of_Yields :
    {h : Host} {E A : Type 0} {Q : A → Type 0} {m : Act E A} → Yields h Q m → Total h m
Total-of_Yields {h} {Q} {m} ym = record { at = λ w. Fueled-Good Q (m h w).0 (ym.at w) }

module _ {h : Host} {E A B : Type 0} where
  pub Total-bind :
      {m : Act E A} {f : A → Act E B} → Total h m → ((a : A) → Total h (f a)) → Total h (m >>= f)
  Total-bind {m} km kf =
      Total-then {Q = λ _. Unit} (record { at = λ w. Good-Fueled (m h w).0 (km.at w) })
        (λ a _. kf a)

module _ {E F A : Type 0} (Q : A → Type 0) (w : World) where
  Good-handled : (f : E → F) (r : Outcome E A) → Good Q r → Good Q (handled r f w).0
  Good-handled f (done a) p = p
  Good-handled f (failed e) p = tt
  Good-handled f (halted panicked) p = tt
  Good-handled f (halted blocked) p = tt
  Good-handled f (halted out_of_fuel) p = p

module _ {E A : Type 0} where
  abbrev pub OnOk : (A → Type 0) → Result E A → Type 0
  OnOk Q (ok a) = Q a
  OnOk Q (err e) = Unit

module _ {E A : Type 0} (F : Type 0) (Q : A → Type 0) (w : World) where
  Good-reified : (r : Outcome E A) → Good Q r → Good (OnOk Q) (reified {F = F} r w).0
  Good-reified (done a) p = p
  Good-reified (failed e) p = tt
  Good-reified (halted panicked) p = tt
  Good-reified (halted blocked) p = tt
  Good-reified (halted out_of_fuel) p = p

module _ {h : Host} {E F A : Type 0} where
  pub Yields-map_err :
      {Q : A → Type 0} (f : E → F) {m : Act E A} → Yields h Q m → Yields h Q (map_err f m)
  unfolding map_err
  Yields-map_err {Q} f {m} ym = record { at = λ w. Good-handled Q (m h w).1 f (m h w).0 (ym.at w) }

  pub Yields-attempt :
      {Q : A → Type 0} {m : Act E A} → Yields h Q m → Yields {E = F} h (OnOk Q) (attempt m)
  unfolding attempt
  Yields-attempt {Q} {m} ym = record { at = λ w. Good-reified F Q (m h w).1 (m h w).0 (ym.at w) }

  pub Total-map_err : (f : E → F) {m : Act E A} → Total h m → Total h (map_err f m)
  Total-map_err f {m} km = record {
    at = λ w.
        Fueled-Good (λ _. Unit) _
          ((Yields-map_err f (record { at = λ w'. Good-Fueled (m h w').0 (km.at w') })).at w);
  }

  pub Total-attempt : {m : Act E A} → Total h m → Total {E = F} h (attempt m)
  Total-attempt {m} km = record {
    at = λ w.
        Fueled-Good (OnOk (λ _. Unit)) _
          ((Yields-attempt (record { at = λ w'. Good-Fueled (m h w').0 (km.at w') })).at w);
  }

  Fueled-caught :
      (r : Outcome E A) (f : E → Act F A) (w : World)
      → Fueled r
      → ((e : E) → Total h (f e))
      → Fueled (caught r f h w).0
  Fueled-caught (done a) f w p k = tt
  Fueled-caught (failed e) f w p k = (k e).at w
  Fueled-caught (halted panicked) f w p k = tt
  Fueled-caught (halted blocked) f w p k = tt
  Fueled-caught (halted out_of_fuel) f w p k = p

  pub Total-on_error :
      {m : Act E A} {f : E → Act F A}
      → Total h m
      → ((e : E) → Total h (f e))
      → Total h (on_error m f)
  unfolding on_error
  Total-on_error {m} {f} km kf = record {
    at = λ w. Fueled-caught (m h w).0 f (m h w).1 (km.at w) kf;
  }

module _ {h : Host} {E F A : Type 0} where
  pub Total-ignore : {m : Act E A} → Total h m → Total {E = F} h (ignore m)
  unfolding ignore
  Total-ignore km = Total-bind (Total-attempt km) (λ _. Total-pure tt)

module _ {h : Host} {E A B : Type 0} {Q : B → Type 0} where
  Good-after :
      (r : Outcome E A) (f : A → Act E B) (w : World)
      → Fueled r
      → ((a : A) → Yields h Q (f a))
      → Good Q (continue r f h w).0
  Good-after (done a) f w p k = (k a).at w
  Good-after (failed e) f w p k = tt
  Good-after (halted panicked) f w p k = tt
  Good-after (halted blocked) f w p k = tt
  Good-after (halted out_of_fuel) f w p k = p

  pub Yields-bind :
      {m : Act E A} {f : A → Act E B}
      → Total h m
      → ((a : A) → Yields h Q (f a))
      → Yields h Q (m >>= f)
  unfolding ◌>>=◌
  Yields-bind {m} {f} km kf = record { at = λ w. Good-after (m h w).0 f (m h w).1 (km.at w) kf }

  -- What the host says is known.
  pub Yields-get_host :
      (g : Host → A) (f : A → Act E B) → Yields h Q (f (g h)) → Yields h Q (get_host g >>= f)
  unfolding get_host ◌>>=◌
  Yields-get_host g f kf = record { at = λ w. kf.at w }

module _ {E A B : Type 0} (h : Host) where
  pub Fueled-continue :
      (r : Outcome E A) (f : A → Act E B) (w : World)
      → Fueled r
      → ((a : A) → Fueled (f a h w).0)
      → Fueled (continue r f h w).0
  Fueled-continue (done a) f w p k = k a
  Fueled-continue (failed e) f w p k = tt
  Fueled-continue (halted panicked) f w p k = tt
  Fueled-continue (halted blocked) f w p k = tt
  Fueled-continue (halted out_of_fuel) f w p k = p

pub ruleset total_rules = (
  Total-pure, Total-raise, Total-raise_with, Total-panic, Total-blocked, Total-lift, Total-get_host,
  Total-get_world, Total-get_entry, Total-moment, Total-set_held, Total-modify_entry, Total-if,
  Total-when, Total-bind, Total-map_err, Total-attempt, Total-on_error, Total-ignore,
)

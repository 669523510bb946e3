-- ===== src/Effects/Keeps.antt =====
-- Invariants of the world that an operation keeps, whether it returns, fails or halts: one rule for
-- each way to build an operation.
use carbide_os.Prelude.{Bool, true, false, if◌then◌else◌}
use carbide_os.Text.{Text}
use carbide_os.Host.{Host, World, Result, ok, err}
use carbide_os.Effects.{
  Act, Halt, Outcome, done, failed, halted, pure, raise, raise_with, halt, lift, continue, map_err,
  attempt, ignore, on_error, handled, reified, caught, when, get_host, get_world, get_entry, ◌>>=◌,
}

pub record Keeps {E A : Type 0} (h : Host) (P : World → Type 0) (m : Act E A) : Type 0 where
  pub at : (w : World) → P w → P (m h w).1

module _ {h : Host} {P : World → Type 0} {E A : Type 0} where
  pub Keeps-pure : (a : A) → Keeps {E = E} h P (pure a)
  Keeps-pure a = record { at = λ w p. p }

  pub Keeps-raise : (e : E) → Keeps {A = A} h P (raise e)
  Keeps-raise e = record { at = λ w p. p }

  pub Keeps-raise_with : (f : Host → E) → Keeps {A = A} h P (raise_with f)
  Keeps-raise_with f = record { at = λ w p. p }

  pub Keeps-halt : (s : Halt) → Keeps {E = E} {A = A} h P (halt s)
  Keeps-halt s = record { at = λ w p. p }

  pub Keeps-lift : (r : Result E A) → Keeps h P (lift r)
  Keeps-lift (ok a) = record { at = λ w p. p }
  Keeps-lift (err e) = record { at = λ w p. p }

  pub Keeps-get_host : (f : Host → A) → Keeps {E = E} h P (get_host f)
  unfolding get_host
  Keeps-get_host f = record { at = λ w p. p }

  pub Keeps-get_world : (f : World → A) → Keeps {E = E} h P (get_world f)
  unfolding get_world
  Keeps-get_world f = record { at = λ w p. p }

  pub Keeps-if :
      (b : Bool) (m n : Act E A) → Keeps h P m → Keeps h P n → Keeps h P (if b then m else n)
  Keeps-if true m n km kn = km
  Keeps-if false m n km kn = kn

module _ {h : Host} {P : World → Type 0} {E : Type 0} where
  pub Keeps-get_entry : (name : Text) → Keeps {E = E} h P (get_entry name)
  unfolding get_entry get_world
  Keeps-get_entry name = record { at = λ w p. p }

  pub Keeps-when : (b : Bool) (m : Act E (Unit {0})) → Keeps h P m → Keeps h P (when b m)
  Keeps-when true m km = km
  Keeps-when false m km = Keeps-pure tt

module _ {h : Host} {P : World → Type 0} {E A B : Type 0} where
  Keeps-continue :
      (r : Outcome E A) (f : A → Act E B) → ((a : A) → Keeps h P (f a)) → Keeps h P (continue r f)
  Keeps-continue (done a) f kf = record { at = (kf a).at }
  Keeps-continue (failed e) f kf = record { at = λ w p. p }
  Keeps-continue (halted s) f kf = record { at = λ w p. p }

  pub Keeps-bind :
      {m : Act E A} {f : A → Act E B}
      → Keeps h P m
      → ((a : A) → Keeps h P (f a))
      → Keeps h P (m >>= f)
  unfolding ◌>>=◌
  Keeps-bind {m} {f} km kf = record {
    at = λ w p. let (r, w') = m h w in (Keeps-continue r f kf).at w' (km.at w p);
  }

module _ (P : World → Type 0) {E F A : Type 0} (f : E → F) (w : World) (p : P w) where
  Keeps-handled : (r : Outcome E A) → P (handled r f w).1
  Keeps-handled (done a) = p
  Keeps-handled (failed e) = p
  Keeps-handled (halted s) = p

module _ (P : World → Type 0) {E A : Type 0} (F : Type 0) (w : World) (p : P w) where
  Keeps-reified : (r : Outcome E A) → P (reified {F = F} r w).1
  Keeps-reified (done a) = p
  Keeps-reified (failed e) = p
  Keeps-reified (halted s) = p

module _ {h : Host} {P : World → Type 0} {E F A : Type 0} where
  pub Keeps-map_err : (f : E → F) {m : Act E A} → Keeps h P m → Keeps h P (map_err f m)
  unfolding map_err
  Keeps-map_err f {m} km = record { at = λ w p. Keeps-handled P f (m h w).1 (km.at w p) (m h w).0 }

  pub Keeps-attempt : {m : Act E A} → Keeps h P m → Keeps {E = F} h P (attempt m)
  unfolding attempt
  Keeps-attempt {m} km = record { at = λ w p. Keeps-reified P F (m h w).1 (km.at w p) (m h w).0 }

  Keeps-caught :
      (r : Outcome E A) (f : E → Act F A) → ((e : E) → Keeps h P (f e)) → Keeps h P (caught r f)
  Keeps-caught (done a) f kf = record { at = λ w p. p }
  Keeps-caught (failed e) f kf = record { at = (kf e).at }
  Keeps-caught (halted s) f kf = record { at = λ w p. p }

  pub Keeps-on_error :
      {m : Act E A} {f : E → Act F A}
      → Keeps h P m
      → ((e : E) → Keeps h P (f e))
      → Keeps h P (on_error m f)
  unfolding on_error
  Keeps-on_error {m} {f} km kf = record {
    at = λ w p. (Keeps-caught (m h w).0 f kf).at (m h w).1 (km.at w p);
  }

module _ {h : Host} {P : World → Type 0} {E F A : Type 0} where
  pub Keeps-ignore : {m : Act E A} → Keeps h P m → Keeps {E = F} h P (ignore m)
  unfolding ignore
  Keeps-ignore km = Keeps-bind (Keeps-attempt km) (λ _. Keeps-pure tt)

pub ruleset keeps_rules = (
  Keeps-pure, Keeps-raise, Keeps-raise_with, Keeps-halt, Keeps-lift, Keeps-get_host,
  Keeps-get_world, Keeps-get_entry, Keeps-if, Keeps-when, Keeps-bind, Keeps-map_err, Keeps-attempt,
  Keeps-on_error, Keeps-ignore,
)

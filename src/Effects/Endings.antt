-- ===== src/Effects/Endings.antt =====
-- Operations that end where they begin in a world of some kind, and what may rely on a result.
use carbide_os.Prelude.{Bool, true, false, Option, none, some, if◌then◌else◌}
use carbide_os.Host.{Host, World, Result, ok, err}
use carbide_os.Effects.{
  Act, Outcome, done, failed, halted, panicked, blocked, out_of_fuel, continue, ◌>>=◌,
}
use carbide_os.Effects.Keeps.{Keeps}
use carbide_os.Effects.Total.{Fueled, Good, Total, Yields, Fueled-continue}

-- An operation that ends where it begins in a world of `P`.
pub record Ending {E A : Type 0} (h : Host) (P : World → Type 0) (m : Act E A) : Type 0 where
  pub at : (w : World) → P w → Fueled (m h w).0

module _ {h : Host} {P : World → Type 0} where
  pub Ending-of_Total : {E A : Type 0} {m : Act E A} → Total h m → Ending h P m
  Ending-of_Total km = record { at = λ w p. km.at w }

  pub Ending-if :
      {E A : Type 0} (b : Bool) {m n : Act E A}
      → Ending h P m
      → Ending h P n
      → Ending h P (if b then m else n)
  Ending-if true km kn = km
  Ending-if false km kn = kn

  pub Ending-bind :
      {E A B : Type 0} {m : Act E A} {f : A → Act E B}
      → Ending h P m
      → Keeps h P m
      → ((a : A) → Ending h P (f a))
      → Ending h P (m >>= f)
  unfolding ◌>>=◌
  Ending-bind {m} {f} em km ef = record {
    at = λ w p.
        Fueled-continue h (m h w).0 f (m h w).1 (em.at w p) (λ a. (ef a).at (m h w).1 (km.at w p));
  }

module _ {h : Host} {E A B : Type 0} where
  pub Total-option :
      (o : Option A) {m : Act E B} {f : A → Act E B}
      → Total h m
      → ((a : A) → Total h (f a))
      → Total h (elim o as (λ _. Act E B) [ none ↦ m | some a ↦ f a ])
  Total-option none km kf = km
  Total-option (some a) km kf = kf a

  pub Total-result :
      {F : Type 0} (x : Result F A) {f : A → Act E B} {g : F → Act E B}
      → ((a : A) → Total h (f a))
      → ((e : F) → Total h (g e))
      → Total h (elim x as (λ _. Act E B) [ ok a ↦ f a | err e ↦ g e ])
  Total-result (ok a) kf kg = kf a
  Total-result (err e) kf kg = kg e

module _ {h : Host} {E A B : Type 0} {Q : A → Type 0} {R : B → Type 0} where
  Good-then :
      (r : Outcome E A) (f : A → Act E B) (w : World)
      → Good Q r
      → ((a : A) → Q a → Yields h R (f a))
      → Good R (continue r f h w).0
  Good-then (done a) f w q k = (k a q).at w
  Good-then (failed e) f w q k = tt
  Good-then (halted panicked) f w q k = tt
  Good-then (halted blocked) f w q k = tt
  Good-then (halted out_of_fuel) f w q k = q

  pub Yields-then :
      {m : Act E A} {f : A → Act E B}
      → Yields h Q m
      → ((a : A) → Q a → Yields h R (f a))
      → Yields h R (m >>= f)
  unfolding ◌>>=◌
  Yields-then {m} {f} ym yf = record { at = λ w. Good-then (m h w).0 f (m h w).1 (ym.at w) yf }

module _ {h : Host} {P : World → Type 0} {E A B : Type 0} where
  Keeps-done :
      (Q : A → Type 0) (r : Outcome E A) (f : A → Act E B) (w : World)
      → Good Q r
      → ((a : A) → Q a → Keeps h P (f a))
      → P w
      → P (continue r f h w).1
  Keeps-done Q (done a) f w q k p = (k a q).at w p
  Keeps-done Q (failed e) f w q k p = p
  Keeps-done Q (halted s) f w q k p = p

  -- What follows has to keep the invariant only on what can be returned.
  pub Keeps-then :
      {Q : A → Type 0} {m : Act E A} {f : A → Act E B}
      → Yields h Q m
      → Keeps h P m
      → ((a : A) → Q a → Keeps h P (f a))
      → Keeps h P (m >>= f)
  unfolding ◌>>=◌
  Keeps-then {Q} {m} {f} ym km kf = record {
    at = λ w p. Keeps-done Q (m h w).0 f (m h w).1 (ym.at w) kf (km.at w p);
  }

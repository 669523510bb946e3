-- ===== src/Effects/Hoare.antt =====
-- What holds when an operation returns, and what holds when it does not.
use carbide_os.Prelude.{◌≡◌, refl, Bool, true, false, if◌then◌else◌}
use carbide_os.Host.{Host, World, Result, ok, err}
use carbide_os.Effects.{
  Act, Outcome, done, failed, halted, pure, raise, continue, map_err, handled, reified, caught,
  on_error, attempt, get_host, get_world, ◌>>=◌,
}
use carbide_os.Effects.Keeps.{Keeps}

module _ {E A : Type 0} where
  -- `R` of a result and the world that it comes with, and `X` of the world of any other end.
  abbrev pub Ends : (A → World → Type 0) → (World → Type 0) → Outcome E A → World → Type 0
  Ends R X (done a) w = R a w
  Ends R X (failed e) w = X w
  Ends R X (halted s) w = X w

  pub record Hoare (h : Host) (P : World → Type 0) (m : Act E A) (R : A → World → Type 0)
      (X : World → Type 0) : Type 0 where
    pub at : (w : World) → P w → Ends R X (m h w).0 (m h w).1

module _ (P : World → Type 0) {E A : Type 0} where
  Ends-const : (r : Outcome E A) (w : World) → P w → Ends (λ _. P) P r w
  Ends-const (done a) w p = p
  Ends-const (failed e) w p = p
  Ends-const (halted s) w p = p

  Keeps-ends : (r : Outcome E A) (w : World) → Ends (λ _. P) P r w → P w
  Keeps-ends (done a) w p = p
  Keeps-ends (failed e) w p = p
  Keeps-ends (halted s) w p = p

module _ {E A : Type 0} (R R' : A → World → Type 0) (X X' : World → Type 0) where
  pub Ends-mono :
      (r : Outcome E A) (w : World)
      → ((a : A) → R a w → R' a w)
      → (X w → X' w)
      → Ends R X r w
      → Ends R' X' r w
  Ends-mono (done a) w f g p = f a p
  Ends-mono (failed e) w f g p = g p
  Ends-mono (halted s) w f g p = g p

module _ {h : Host} {E A : Type 0} {P : World → Type 0} where
  pub Hoare-of_Keeps : {m : Act E A} → Keeps h P m → Hoare h P m (λ _. P) P
  Hoare-of_Keeps {m} km = record { at = λ w p. Ends-const P (m h w).0 (m h w).1 (km.at w p) }

  pub Keeps-of_Hoare : {m : Act E A} → Hoare h P m (λ _. P) P → Keeps h P m
  Keeps-of_Hoare {m} hm = record { at = λ w p. Keeps-ends P (m h w).0 (m h w).1 (hm.at w p) }

module _ {h : Host} {E A : Type 0} {X : World → Type 0} {R : A → World → Type 0} where
  pub Hoare-pure :
      {P : World → Type 0} (a : A) → ((w : World) → P w → R a w) → Hoare {E = E} h P (pure a) R X
  Hoare-pure a k = record { at = k }

  pub Hoare-raise :
      {P : World → Type 0} (e : E) → ((w : World) → P w → X w) → Hoare h P (raise e) R X
  Hoare-raise e k = record { at = k }

module _ {h : Host} {E A B : Type 0} {X : World → Type 0} where
  module _ {R : A → World → Type 0} {Q : B → World → Type 0} where
    Ends-continue :
        (r : Outcome E A) (f : A → Act E B) (w : World)
        → ((a : A) → Hoare h (R a) (f a) Q X)
        → Ends R X r w
        → Ends Q X (continue r f h w).0 (continue r f h w).1
    Ends-continue (done a) f w hf p = (hf a).at w p
    Ends-continue (failed e) f w hf p = p
    Ends-continue (halted s) f w hf p = p

    pub Hoare-bind :
        {P : World → Type 0} {m : Act E A} {f : A → Act E B}
        → Hoare h P m R X
        → ((a : A) → Hoare h (R a) (f a) Q X)
        → Hoare h P (m >>= f) Q X
    unfolding ◌>>=◌
    Hoare-bind {m} {f} hm hf = record {
      at = λ w p. Ends-continue (m h w).0 f (m h w).1 hf (hm.at w p);
    }

module _ {h : Host} {E A : Type 0} {P : World → Type 0} where
  pub Hoare-weaken :
      {m : Act E A} {R R' : A → World → Type 0} {X X' : World → Type 0}
      → ((a : A) (w : World) → R a w → R' a w)
      → ((w : World) → X w → X' w)
      → Hoare h P m R X
      → Hoare h P m R' X'
  Hoare-weaken {m} {R} {R'} {X} {X'} f g hm = record {
    at = λ w p. Ends-mono R R' X X' (m h w).0 (m h w).1 (λ a. f a _) (g _) (hm.at w p);
  }

  -- A fact that does not depend on the world.
  pub Hoare-fact :
      {Z : Type 0} {m : Act E A} {R : A → World → Type 0} {X : World → Type 0}
      → (Z → Hoare h P m R X)
      → Hoare h (λ w. Z × P w) m R X
  Hoare-fact k = record { at = λ w p. (k p.0).at w p.1 }

  pub Hoare-get_host :
      {X : World → Type 0} (g : Host → A)
      → Hoare {E = E} h P (get_host g) (λ a w. (a ≡ g h) × P w) X
  unfolding get_host
  Hoare-get_host g = record { at = λ w p. (refl, p) }

  pub Hoare-get_world :
      {X : World → Type 0} (g : World → A)
      → Hoare {E = E} h P (get_world g) (λ a w. (a ≡ g w) × P w) X
  unfolding get_world
  Hoare-get_world g = record { at = λ w p. (refl, p) }

module _ {E F A : Type 0} (R : A → World → Type 0) (X : World → Type 0) (f : E → F) where
  Ends-handled :
      (r : Outcome E A) (w : World) → Ends R X r w → Ends R X (handled r f w).0 (handled r f w).1
  Ends-handled (done a) w p = p
  Ends-handled (failed e) w p = p
  Ends-handled (halted s) w p = p

module _ {h : Host} {E F A : Type 0} {P : World → Type 0} {R : A → World → Type 0}
    {X : World → Type 0} where
  pub Hoare-map_err : (f : E → F) {m : Act E A} → Hoare h P m R X → Hoare h P (map_err f m) R X
  unfolding map_err
  Hoare-map_err f {m} hm = record { at = λ w p. Ends-handled R X f (m h w).0 (m h w).1 (hm.at w p) }

module _ {h : Host} {E A : Type 0} {P : World → Type 0} {R : A → World → Type 0}
    {X : World → Type 0} where
  pub Hoare-if :
      (b : Bool) {m n : Act E A}
      → Hoare h P m R X
      → Hoare h P n R X
      → Hoare h P (if b then m else n) R X
  Hoare-if true hm hn = hm
  Hoare-if false hm hn = hn

-- What holds at both kinds of end holds in the end.
pub always :
    {h : Host} {E A : Type 0} {P Q : World → Type 0} {m : Act E A}
    → Hoare h P m (λ _. Q) Q
    → (w : World) → P w
    → Q (m h w).1
always {h} {Q} {m} hm w p = Keeps-ends Q (m h w).0 (m h w).1 (hm.at w p)

module _ {E A : Type 0} where
  Ends-nothing : (r : Outcome E A) (w : World) → Ends (λ _ _. Unit) (λ _. Unit) r w
  Ends-nothing (done a) w = tt
  Ends-nothing (failed e) w = tt
  Ends-nothing (halted s) w = tt

  Hoare-nothing :
      {h : Host} (P : World → Type 0) (m : Act E A) → Hoare h P m (λ _ _. Unit) (λ _. Unit)
  Hoare-nothing {h} P m = record { at = λ w p. Ends-nothing (m h w).0 (m h w).1 }

-- What is promised after an operation of which nothing is asked.
pub Hoare-after :
    {h : Host} {E A B : Type 0} {P : World → Type 0} {R : B → World → Type 0} (m : Act E A)
    {f : A → Act E B}
    → ((a : A) → Hoare h (λ _. Unit) (f a) R (λ _. Unit))
    → Hoare h P (m >>= f) R (λ _. Unit)
Hoare-after m k = Hoare-bind (Hoare-nothing _ m) k

module _ {h : Host} {E F A : Type 0} {R : A → World → Type 0} {X Y : World → Type 0}
    {f : E → Act F A} where
  Ends-caught :
      (r : Outcome E A) (w : World)
      → ((e : E) → Hoare h X (f e) R Y)
      → ((w : World) → X w → Y w)
      → Ends R X r w
      → Ends R Y (caught r f h w).0 (caught r f h w).1
  Ends-caught (done a) w hf k p = p
  Ends-caught (failed e) w hf k p = (hf e).at w p
  Ends-caught (halted s) w hf k p = k w p

  pub Hoare-on_error :
      {P : World → Type 0} {m : Act E A}
      → Hoare h P m R X
      → ((e : E) → Hoare h X (f e) R Y)
      → ((w : World) → X w → Y w)
      → Hoare h P (on_error m f) R Y
  unfolding on_error
  Hoare-on_error {m} hm hf k = record {
    at = λ w p. Ends-caught (m h w).0 (m h w).1 hf k (hm.at w p);
  }

-- `Q` where there was a result, and `X` where there was an error.
abbrev pub Returned :
    {E A : Type 0} → (World → Type 0) → (World → Type 0) → Result E A → World → Type 0
Returned Q X (ok a) w = Q w
Returned Q X (err e) w = X w

module _ {E A : Type 0} (F : Type 0) (Q X : World → Type 0) where
  Ends-reified :
      (r : Outcome E A) (w : World)
      → Ends (λ _. Q) X r w
      → Ends {E = F} (Returned Q X) X (reified {F = F} r w).0 (reified {F = F} r w).1
  Ends-reified (done a) w p = p
  Ends-reified (failed e) w p = p
  Ends-reified (halted s) w p = p

module _ {E F A : Type 0} {Q X : World → Type 0} where
  pub Hoare-attempt :
      {h : Host} {P : World → Type 0} {m : Act E A}
      → Hoare h P m (λ _. Q) X
      → Hoare {E = F} h P (attempt m) (Returned Q X) X
  unfolding attempt
  Hoare-attempt {h} {m} hm = record {
    at = λ w p. Ends-reified F Q X (m h w).0 (m h w).1 (hm.at w p);
  }

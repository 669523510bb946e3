-- ===== src/System/Units/Soaking.antt =====
-- The loop of the soak ends (agent/src/system.rs, `soak`).
use carbide_os.Prelude.{
  ℕ, zero, suc, ◌+◌, ◌++◌, ◌==◌, ◌≤◌, ◌<◌, ◌≡◌, refl, Bool, true, false, Option, none, some, arith,
  if◌then◌else◌, ltb, List,
}
use carbide_os.Text.{Text, txt}
use carbide_os.Host.{Host, World, Result, ok, err, ExitStatus, IoError}
use carbide_os.Effects.{
  Act, Outcome, done, failed, halted, panicked, blocked, out_of_fuel, moment, get_host, get_world,
  attempt, pure, raise, halt, lift, reified, skip, ◌>>=◌, ◌>>◌,
}
use carbide_os.Effects.Keeps.{
  Keeps, Keeps-bind, Keeps-pure, Keeps-raise, Keeps-raise_with, Keeps-halt, Keeps-lift,
  Keeps-get_host, Keeps-get_world, Keeps-if, Keeps-map_err, Keeps-attempt,
}
use carbide_os.Config.{Ruleset}
use carbide_os.Files.{call}
use carbide_os.System.Command.{answered, run}
use carbide_os.System.Units.{
  seconds, clock, deadline_after, await_child, child_answer, run_probe, probe, probe_with,
  require_active, unit_is_active, soak_loop, soak,
}
use carbide_os.Effects.Total.{Fueled, Fueled-continue}
use carbide_os.System.Units.Waiting.{IsSteady, run_probe-ends}

pub fuel_left : (now deadline n : ℕ) → ltb now deadline ≡ true → deadline < now + suc n → 1 ≤ n
fuel_left now deadline n c l = ground arith

module _ (h : Host) (steady : IsSteady h) where
  -- The clock has reached `c`.
  abbrev pub Reached : ℕ → World → Type 0
  Reached c w = c ≤ h.now w.tick

  module _ (c : ℕ) where
    pub Keeps-moment : {E : Type 0} → Keeps {E = E} h (Reached c) moment
    unfolding moment
    Keeps-moment = record { at = λ w p. omega (arith, p, steady w.tick) }

    Keeps-clock : {E : Type 0} → Keeps {E = E} h (Reached c) clock
    unfolding clock
    Keeps-clock = Keeps-bind Keeps-moment (λ t. Keeps-get_host _)

    Keeps-deadline_after : {E : Type 0} (n : ℕ) → Keeps {E = E} h (Reached c) (deadline_after n)
    unfolding deadline_after
    Keeps-deadline_after n =
        Keeps-bind Keeps-clock (λ now. Keeps-if _ _ _ (Keeps-pure _) (Keeps-halt _))

    Keeps-answer :
        (timeout deadline : ℕ) (again : Act Text (Unit {0}))
        (r : Result IoError (Option ExitStatus))
        → Keeps h (Reached c) again
        → Keeps h (Reached c) (child_answer timeout deadline again r)
    Keeps-answer timeout deadline again (err e) k = Keeps-raise _
    Keeps-answer timeout deadline again (ok none) k =
        Keeps-bind Keeps-clock (λ now. Keeps-if _ _ _ (Keeps-raise_with _) k)
    Keeps-answer timeout deadline again (ok (some status)) k =
        Keeps-if _ _ _ (Keeps-pure tt) (Keeps-raise _)

    Keeps-await_child :
        (n timeout deadline : ℕ) → Keeps h (Reached c) (await_child n timeout deadline)
    unfolding await_child
    Keeps-await_child zero timeout deadline = Keeps-halt _
    Keeps-await_child (suc n) timeout deadline = Keeps-bind Keeps-moment λ t.
        Keeps-bind (Keeps-get_host _)
          (λ r. Keeps-answer timeout deadline _ r (Keeps-await_child n timeout deadline))

    Keeps-call : Keeps h (Reached c) call
    unfolding call
    Keeps-call =
        Keeps-bind Keeps-moment
          λ t. Keeps-bind (Keeps-get_host _) (elim [ none ↦ Keeps-pure t | some e ↦ Keeps-raise e ])

    Keeps-run_probe : (r : Ruleset) → Keeps h (Reached c) (run_probe r)
    unfolding run_probe
    Keeps-run_probe r = Keeps-bind (Keeps-map_err _ Keeps-call) λ _.
        Keeps-bind (Keeps-deadline_after _)
          (λ d. Keeps-bind (Keeps-get_host _) (λ n. Keeps-await_child n _ d))

    Keeps-probe_with : (r : Ruleset) (o : Option (List Text)) → Keeps h (Reached c) (probe_with r o)
    Keeps-probe_with r none = Keeps-pure tt
    Keeps-probe_with r (some command) = Keeps-run_probe r

    pub Keeps-run : (program : Text) (args : List Text) → Keeps h (Reached c) (run program args)
    unfolding run
    Keeps-run program args = Keeps-bind Keeps-moment λ t. Keeps-bind (Keeps-get_host _) λ stuck.
        Keeps-if _ _ _ (Keeps-halt _)
          (Keeps-bind (Keeps-get_world _) (λ fs. Keeps-bind (Keeps-get_host _) Keeps-lift))

    pub Keeps-unit_is_active :
        {E : Type 0} (unit : Text) → Keeps {E = E} h (Reached c) (unit_is_active unit)
    unfolding unit_is_active
    Keeps-unit_is_active unit = Keeps-bind (Keeps-attempt (Keeps-run _ _)) (λ a. Keeps-pure _)

    Keeps-require_active : (r : Ruleset) → Keeps h (Reached c) (require_active r)
    unfolding require_active
    Keeps-require_active r =
        Keeps-bind (Keeps-unit_is_active r.unit)
          (λ active. Keeps-if _ _ _ (Keeps-pure tt) (Keeps-raise _))

  Fueled-lift : {E A : Type 0} (r : Result E A) (w : World) → Fueled (lift r h w).0
  Fueled-lift (ok a) w = tt
  Fueled-lift (err e) w = tt

  Fueled-reified :
      {E A : Type 0} (F : Type 0) (r : Outcome E A) (w : World)
      → Fueled r
      → Fueled (reified {F = F} r w).0
  Fueled-reified F (done a) w p = tt
  Fueled-reified F (failed e) w p = tt
  Fueled-reified F (halted panicked) w p = tt
  Fueled-reified F (halted blocked) w p = tt
  Fueled-reified F (halted out_of_fuel) w p = p

  Fueled-bind :
      {E A B : Type 0} (m : Act E A) (f : A → Act E B) (w : World)
      → Fueled (m h w).0
      → ((a : A) → Fueled (f a h (m h w).1).0)
      → Fueled ((m >>= f) h w).0
  unfolding ◌>>=◌
  Fueled-bind m f w p k = Fueled-continue h (m h w).0 f (m h w).1 p k

  Fueled-answered :
      (b : Bool) (t : ℕ) (program : Text) (args : List Text) (w : World)
      → Fueled ((if b then halt blocked else answered t program args) h w).0
  unfolding get_world get_host ◌>>=◌
  Fueled-answered true t program args w = tt
  Fueled-answered false t program args w = Fueled-lift (h.exec t program args w.fs) w

  Fueled-run : (program : Text) (args : List Text) (w : World) → Fueled (run program args h w).0
  unfolding run moment get_world get_host ◌>>=◌
  Fueled-run program args w = Fueled-answered (h.blocks w.tick program args) w.tick program args _

  Fueled-verdict :
      (r : Ruleset) (b : Bool) (w : World)
      → Fueled ((if b then skip else raise (r.unit ++ txt " stopped during soak")) h w).0
  Fueled-verdict r true w = tt
  Fueled-verdict r false w = tt

  Fueled-attempt :
      {E A : Type 0} (F : Type 0) (m : Act E A) (w : World)
      → Fueled (m h w).0
      → Fueled (attempt {F = F} m h w).0
  unfolding attempt
  Fueled-attempt F m w p = Fueled-reified F (m h w).0 (m h w).1 p

  Fueled-require_active : (r : Ruleset) (w : World) → Fueled (require_active r h w).0
  unfolding require_active unit_is_active
  Fueled-require_active r w =
      Fueled-bind _ _ w (Fueled-bind _ _ w (Fueled-attempt _ _ w (Fueled-run _ _ w)) (λ a. tt))
        (λ b. Fueled-verdict r b _)

  module _ (r : Ruleset) (enough : seconds r.health_timeout + 1 < h.fuel) where
    Fueled-probe_with : (o : Option (List Text)) (w : World) → Fueled (probe_with r o h w).0
    Fueled-probe_with none w = tt
    Fueled-probe_with (some command) w = run_probe-ends h r w steady enough

    Fueled-probe : (w : World) → Fueled (probe r h w).0
    unfolding probe
    Fueled-probe w = Fueled-probe_with r.health_command w

    abbrev round : ℕ → ℕ → Act Text (Unit {0})
    round n deadline = require_active r >> (probe r >> (clock {E = Text} >> soak_loop n r deadline))

    Fueled-clock : (w : World) → Fueled (clock {E = Text} h w).0
    unfolding clock moment get_host ◌>>=◌
    Fueled-clock w = tt

    going :
        (b : Bool) (n deadline : ℕ) (w : World)
        → (b ≡ true → Fueled (round n deadline h w).0)
        → Fueled ((if b then round n deadline else skip) h w).0
    going true n deadline w k = k refl
    going false n deadline w k = tt

    round_lem :
        (c n deadline : ℕ) (w : World)
        → Reached c w
        → ((w' : World) → Reached c w' → Fueled (soak_loop n r deadline h w').0)
        → Fueled (round n deadline h w).0
    unfolding probe
    round_lem c n deadline w p k =
        let w1 = (require_active r h w).1 in
        let p1 = (Keeps-require_active c r).at w p in
        Fueled-bind (require_active r) _ w (Fueled-require_active r w) λ _.
          Fueled-bind (probe r) _ w1 (Fueled-probe w1) λ _.
            Fueled-bind clock _ (probe r h w1).1 (Fueled-clock _) (λ _. k _ (
              (Keeps-clock c {E = Text}).at (probe r h w1).1
                ((Keeps-probe_with c r r.health_command).at w1 p1)))

    soak_loop_lem :
        (n deadline : ℕ) (w : World)
        → 1 ≤ n
        → deadline < h.now w.tick + n
        → Fueled (soak_loop n r deadline h w).0
    unfolding soak_loop clock moment get_host ◌>>=◌
    soak_loop_lem zero deadline w e l = elim e [ ]
    soak_loop_lem (suc n) deadline w e l =
        going (ltb (h.now w.tick) deadline) n deadline (record w { tick = w.tick + 1 })
          (λ c.
            round_lem (h.now w.tick + 1) n deadline (record w { tick = w.tick + 1 }) (steady w.tick)
              (λ w' p. soak_loop_lem n deadline w' (fuel_left _ _ _ c l) (omega (arith, p, l))))

    abbrev soaked : ℕ → Act Text (Unit {0})
    soaked deadline = get_host (λ h'. h'.fuel) >>= λ fuel.
        soak_loop fuel r deadline >> (require_active r >> probe r)

    after_deadline :
        seconds r.soak + 1 < h.fuel
        → (b : Bool) (w : World)
        → Fueled
            (((if b then pure (h.now w.tick + seconds r.soak) else halt panicked) >>= soaked) h
              (record w { tick = w.tick + 1 })).0
    unfolding get_host ◌>>=◌
    after_deadline long true w =
        Fueled-bind (soak_loop h.fuel r (h.now w.tick + seconds r.soak)) _
          (record w { tick = w.tick + 1 })
          (soak_loop_lem h.fuel (h.now w.tick + seconds r.soak) (record w { tick = w.tick + 1 })
            (omega (arith, long)) (omega (arith, long, steady w.tick)))
          (λ _.
            Fueled-bind (require_active r) _ _ (Fueled-require_active r _) (λ _. Fueled-probe _))
    after_deadline long false w = tt

    until_deadline :
        seconds r.soak + 1 < h.fuel
        → (w : World) → Fueled ((deadline_after r.soak >>= soaked) h w).0
    unfolding deadline_after clock moment get_host ◌>>=◌
    until_deadline long w = after_deadline long _ w

    choice :
        (b : Bool) (m n : Act Text (Unit {0})) (w : World)
        → Fueled (m h w).0
        → Fueled (n h w).0
        → Fueled ((if b then m else n) h w).0
    choice true m n w p q = p
    choice false m n w p q = q

pub soak-ends :
    (h : Host) (r : Ruleset) (w : World)
    → IsSteady h
    → seconds r.soak + 1 < h.fuel
    → seconds r.health_timeout + 1 < h.fuel
    → Fueled (soak r h w).0
unfolding soak
soak-ends h r w steady long enough =
    choice h steady r enough (r.soak == 0) (probe r) _ w (Fueled-probe h steady r enough w)
      (until_deadline h steady r enough long w)

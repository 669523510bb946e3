-- ===== src/System/Units/Waiting.antt =====
-- The loop that waits for a health command ends (agent/src/system.rs, `probe`).
use carbide_os.Prelude.{
  ℕ, zero, suc, ◌+◌, ◌≤◌, ◌<◌, ◌≡◌, refl, Bool, true, false, Option, none, some, arith,
  if◌then◌else◌, leb,
}
use carbide_os.Text.{Text}
use carbide_os.Host.{Host, World, Result, ok, err, ExitStatus, IoError}
use carbide_os.Effects.{
  Act, Outcome, done, failed, halted, panicked, blocked, out_of_fuel, moment, get_host, map_err,
  pure, raise, halt, handled, ◌>>=◌,
}
use carbide_os.System.Units.{await_child, child_answer, clock, seconds, run_probe, deadline_after}
use carbide_os.Config.{Ruleset}
use carbide_os.Files.{call}
use carbide_os.Effects.Total.{Fueled, Fueled-continue}

-- The clock advances between any two calls.
abbrev pub IsSteady : Host → Type 0
IsSteady h = (t : ℕ) → h.now t + 1 ≤ h.now (t + 1)

-- A round that goes on has brought the deadline nearer by what it took from the fuel.
pub less_left :
    (n a b c deadline : ℕ)
    → a + 1 ≤ b
    → b + 1 ≤ c
    → b < deadline
    → deadline < a + suc n
    → (1 ≤ n) × (deadline < c + n)
less_left n a b c deadline p q r s = (omega (arith, p, r, s), omega (arith, p, q, s))

module _ (h : Host) (steady : IsSteady h) (timeout deadline : ℕ) where
  abbrev Enough : ℕ → World → Type 0
  Enough n w = (1 ≤ n) × (deadline < h.now w.tick + n)

  Fueled-if :
      (b : Bool) (m n : Act Text (Unit {0})) (w : World)
      → (b ≡ true → Fueled (m h w).0)
      → (b ≡ false → Fueled (n h w).0)
      → Fueled ((if b then m else n) h w).0
  Fueled-if true m n w f g = f refl
  Fueled-if false m n w f g = g refl

  -- One answer, where the rounds that may follow are fueled.
  answer_lem :
      (n : ℕ) (answer : Result IoError (Option ExitStatus)) (w : World)
      → (h.now w.tick < deadline
          → Fueled (await_child n timeout deadline h (record w { tick = w.tick + 1 })).0)
      → Fueled (child_answer timeout deadline (await_child n timeout deadline) answer h w).0
  unfolding moment get_host ◌>>=◌ clock
  answer_lem n (err e) w k = tt
  answer_lem n (ok (some status)) w k = Fueled-if status.success _ _ w (λ _. tt) (λ _. tt)
  answer_lem n (ok none) w k =
      Fueled-if (leb deadline (h.now w.tick)) _ _ (record w { tick = w.tick + 1 }) (λ _. tt)
        (λ f. k (ground arith))

  await_child_lem : (n : ℕ) (w : World) → Enough n w → Fueled (await_child n timeout deadline h w).0
  unfolding await_child moment get_host ◌>>=◌
  await_child_lem zero w (e, l) = elim e [ ]
  await_child_lem (suc n) w (e, l) =
      answer_lem n (h.poll w.tick) (record w { tick = w.tick + 1 })
        (λ c.
          await_child_lem n (record w { tick = w.tick + 1 + 1 })
            (less_left n (h.now w.tick) (h.now (w.tick + 1)) (h.now (w.tick + 1 + 1)) deadline
              (steady w.tick) (steady (w.tick + 1)) c l))

Fueled-handled :
    {E F A : Type 0} (r : Outcome E A) (f : E → F) (w : World) → Fueled r → Fueled (handled r f w).0
Fueled-handled (done a) f w p = tt
Fueled-handled (failed e) f w p = tt
Fueled-handled (halted panicked) f w p = tt
Fueled-handled (halted blocked) f w p = tt
Fueled-handled (halted out_of_fuel) f w p = p

module _ (h : Host) where
  Fueled-call : (w : World) → Fueled (call h w).0
  unfolding call moment get_host ◌>>=◌
  Fueled-call w =
      elim (h.fault w.tick)
        as (λ o.
          Fueled
            ((elim o as (λ _. Act IoError ℕ) [ none ↦ pure w.tick | some e ↦ raise e ]) h
              (record w { tick = w.tick + 1 })).0) [ none ↦ tt | some e ↦ tt ]

module _ (h : Host) (timeout : ℕ) (steady : IsSteady h)
    (enough : seconds timeout + 1 < h.fuel) where
  abbrev awaited : ℕ → Act Text (Unit {0})
  awaited deadline = get_host (λ h'. h'.fuel) >>= λ fuel. await_child fuel timeout deadline

  after_deadline :
      (b : Bool) (w : World)
      → Fueled
          (((if b then pure (h.now w.tick + seconds timeout) else halt panicked) >>= awaited) h
            (record w { tick = w.tick + 1 })).0
  unfolding get_host ◌>>=◌
  after_deadline true w =
      await_child_lem h steady timeout (h.now w.tick + seconds timeout) h.fuel
        (record w { tick = w.tick + 1 })
        (omega (arith, enough), omega (arith, enough, steady w.tick))
  after_deadline false w = tt

  until_deadline : (w : World) → Fueled ((deadline_after timeout >>= awaited) h w).0
  unfolding deadline_after clock moment get_host ◌>>=◌
  until_deadline w = after_deadline _ w

-- Where the clock advances between calls and the host's fuel is more than the timeout of the health
-- command in nanoseconds, a run of that command never stops for want of fuel: it ends, with the
-- command's answer or because the deadline has passed, or panics where the deadline has no `Instant`.
pub run_probe-ends :
    (h : Host) (r : Ruleset) (w : World)
    → IsSteady h
    → seconds r.health_timeout + 1 < h.fuel
    → Fueled (run_probe r h w).0
unfolding run_probe map_err ◌>>=◌
run_probe-ends h r w steady enough =
    Fueled-continue h (handled (call h w).0 _ (call h w).1).0 _ _
      (Fueled-handled (call h w).0 _ (call h w).1 (Fueled-call h w))
      (λ t. until_deadline h r.health_timeout steady enough _)

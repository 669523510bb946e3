-- ===== src/System/Units/Ready.antt =====
-- The loop that waits for a unit to come up ends (agent/src/system.rs, `wait_until_ready`).
use carbide_os.Prelude.{
  ℕ, zero, suc, ◌+◌, ◌≤◌, ◌<◌, ◌≡◌, refl, Bool, true, false, arith, if◌then◌else◌, ltb,
}
use carbide_os.Text.{Text}
use carbide_os.Host.{Host, World}
use carbide_os.Effects.{Act, get_host, moment, pure, halt, panicked, ◌>>=◌}
use carbide_os.Effects.Keeps.{Keeps, Keeps-bind, Keeps-attempt, Keeps-pure}
use carbide_os.Effects.Total.{
  Fueled, Total, Total-bind, Total-if, Total-pure, Total-when, Total-ignore, Total-map_err,
  Total-raise_with, Fueled-continue,
}
use carbide_os.Effects.Endings.{Ending, Ending-of_Total, Ending-if, Ending-bind}
use carbide_os.Config.{Ruleset}
use carbide_os.System.Total.{
  Total-start_unit, Total-stop_unit, Total-unit_is_active, Total-unit_failed,
}
use carbide_os.System.Units.{
  seconds, clock, deadline_after, unit_is_active, unit_failed, poll_ready, start_attempt,
  start_attempts_left, wait_until_ready,
}
use carbide_os.System.Units.Waiting.{IsSteady}
use carbide_os.System.Units.Soaking.{Reached, Keeps-run, Keeps-unit_is_active, fuel_left}

module _ (h : Host) (steady : IsSteady h) where
  Keeps-unit_failed :
      (c : ℕ) {E : Type 0} (unit : Text) → Keeps {E = E} h (Reached h steady c) (unit_failed unit)
  unfolding unit_failed
  Keeps-unit_failed c unit =
      Keeps-bind (Keeps-attempt (Keeps-run h steady c _ _)) (λ a. Keeps-pure _)

  -- A round on a clock that has reached `c`, where the rounds that may follow are fueled.
  abbrev round : {E : Type 0} → ℕ → Text → ℕ → Act E Bool
  round n unit deadline = do
    active ← unit_is_active unit
    if active
        then pure true
        else do down ← unit_failed unit; if down then pure false else poll_ready n unit deadline

  round_lem :
      {E : Type 0} (c n : ℕ) (unit : Text) (deadline : ℕ)
      → Ending {E = E} h (Reached h steady c) (poll_ready n unit deadline)
      → Ending {E = E} h (Reached h steady c) (round n unit deadline)
  round_lem c n unit deadline k =
      Ending-bind (Ending-of_Total (Total-unit_is_active unit))
        (Keeps-unit_is_active h steady c unit)
        λ active. Ending-if active (Ending-of_Total (Total-pure _)) (
          Ending-bind (Ending-of_Total (Total-unit_failed unit)) (Keeps-unit_failed c unit)
            (λ down. Ending-if down (Ending-of_Total (Total-pure _)) k))

  going :
      {E : Type 0} (b : Bool) (m : Act E Bool) (w : World)
      → (b ≡ true → Fueled (m h w).0)
      → Fueled ((if b then m else pure false) h w).0
  going true m w k = k refl
  going false m w k = tt

  poll_ready_lem :
      (E : Type 0) (n : ℕ) (unit : Text) (deadline : ℕ) (w : World)
      → 1 ≤ n
      → deadline < h.now w.tick + n
      → Fueled (poll_ready {E = E} n unit deadline h w).0
  unfolding poll_ready clock moment get_host ◌>>=◌
  poll_ready_lem E zero unit deadline w e l = elim e [ ]
  poll_ready_lem E (suc n) unit deadline w e l =
      going (ltb (h.now w.tick) deadline) (round n unit deadline) (record w { tick = w.tick + 1 })
        λ c.
          (round_lem (h.now w.tick + 1) n unit deadline (record {
            at = λ w' p.
                poll_ready_lem E n unit deadline w' (fuel_left _ _ _ c l) (omega (arith, p, l));
          })).at
            (record w { tick = w.tick + 1 }) (steady w.tick)

  -- What is done under a deadline may rely on how far off the deadline is.
  Fueled-deadline :
      {E B : Type 0} (timeout : ℕ) (body : ℕ → Act E B) (b : Bool) (w : World)
      → ((w' : World) (deadline : ℕ)
          → deadline < h.now w'.tick + seconds timeout
          → Fueled (body deadline h w').0)
      → Fueled
          (((if b then pure (h.now w.tick + seconds timeout) else halt panicked) >>= body) h
            (record w { tick = w.tick + 1 })).0
  unfolding ◌>>=◌
  Fueled-deadline timeout body true w k = k _ _ (omega (arith, steady w.tick))
  Fueled-deadline timeout body false w k = tt

  Total-deadline :
      {E B : Type 0} (timeout : ℕ) (body : ℕ → Act E B)
      → ((w' : World) (deadline : ℕ)
          → deadline < h.now w'.tick + seconds timeout
          → Fueled (body deadline h w').0)
      → Total h (deadline_after timeout >>= body)
  unfolding deadline_after clock moment get_host ◌>>=◌
  Total-deadline timeout body k = record { at = λ w. Fueled-deadline timeout body _ w k }

  module _ (r : Ruleset) (enough : seconds r.ready_timeout + 1 < h.fuel) where
    Fueled-polled :
        {B : Type 0} (k : Bool → Act Text B) (w : World) (deadline : ℕ)
        → ((up : Bool) → Total h (k up))
        → deadline < h.now w.tick + seconds r.ready_timeout
        → Fueled
            ((get_host (λ h'. h'.fuel) >>= λ fuel. poll_ready fuel r.unit deadline >>= k) h w).0
    unfolding get_host ◌>>=◌
    Fueled-polled k w deadline kt l =
        let polled = poll_ready {E = Text} h.fuel r.unit deadline h w in
        Fueled-continue h polled.0 k polled.1
          (poll_ready_lem Text h.fuel r.unit deadline w (omega (arith, enough))
            (omega (arith, enough, l)))
          (λ up. (kt up).at polled.1)

    Total-start_attempt : Total h (start_attempt r)
    unfolding start_attempt
    Total-start_attempt = Total-bind (Total-map_err _ (Total-start_unit r.unit)) λ _.
        Total-deadline r.ready_timeout _ λ w deadline l.
          Fueled-polled _ w deadline
            (λ up. Total-if up _ _ (Total-pure true) (Total-unit_is_active r.unit)) l

    Total-start_attempts_left : (left : ℕ) → Total h (start_attempts_left r left)
    unfolding start_attempts_left
    Total-start_attempts_left zero = Total-pure false
    Total-start_attempts_left (suc left) = Total-bind Total-start_attempt λ up.
        Total-if up _ _ (Total-pure true) (
          Total-bind (Total-when (ltb 0 left) _ (Total-ignore (Total-stop_unit r.unit)))
            (λ _. Total-start_attempts_left left))

    pub Total-wait_until_ready : Total h (wait_until_ready r)
    unfolding wait_until_ready
    Total-wait_until_ready =
        Total-bind (Total-start_attempts_left r.start_attempts)
          (λ up. Total-if up _ _ (Total-pure tt) (Total-raise_with _))

pub wait_until_ready-ends :
    (h : Host) (r : Ruleset) (w : World)
    → IsSteady h
    → seconds r.ready_timeout + 1 < h.fuel
    → Fueled (wait_until_ready r h w).0
wait_until_ready-ends h r w steady enough = (Total-wait_until_ready h steady r enough).at w

-- ===== src/System/Units.antt =====
-- Units, readiness, health probes and the soak (agent/src/system.rs).
-- A waiting loop runs for at most the host's `fuel` rounds; `Units.Waiting` says when that is enough.
pub mod Waiting
pub mod Soaking
pub mod Ready
use carbide_os.Prelude.{
  ℕ, zero, suc, ◌+◌, ◌*◌, ◌/◌, ◌^◌, Bool, true, false, Option, none, some, List, [], ◌∷◌, ◌++◌,
  if◌then◌else◌, ltb, leb, ◌==◌,
}
use carbide_os.Text.{Text, txt, trim}
use carbide_os.Host.{Host, FilePath, IoError, Output, ExitStatus, Result, ok, err}
use carbide_os.Effects.{
  Act, panicked, out_of_fuel, pure, raise, raise_with, halt, get_host, attempt, ignore, skip, when,
  moment, map_err, ◌>>=◌, ◌>>◌,
}
use carbide_os.Files.{call, exists, io_error, same_path}
use carbide_os.Config.{Ruleset}
use carbide_os.System.Slots.{scope, scoped_active_path, legacy_active_path}
use carbide_os.System.Durable.{durable_copy, durable_remove}
use carbide_os.System.Command.{succeeded, run, run_mutating, systemctl, sysext, policy_flag}

-- `.map(|output| output.status.success()).unwrap_or(false)`
abbrev answered_yes : Result IoError Output → Bool
answered_yes (ok output) = succeeded output
answered_yes (err e) = false

unfoldable pub unit_is_active : {E : Type 0} → Text → Act E Bool
unit_is_active unit = do
  answer ← attempt (run systemctl (txt "is-active" ∷ txt "--quiet" ∷ unit ∷ []))
  pure (answered_yes answer)

unfoldable pub unit_failed : {E : Type 0} → Text → Act E Bool
unit_failed unit = do
  answer ← attempt (run systemctl (txt "is-failed" ∷ txt "--quiet" ∷ unit ∷ []))
  pure (answered_yes answer)

-- The success of a program, or an error with that message.
abbrev pub require_success : Output → Text → Act IoError (Unit {0})
require_success output message =
    if succeeded output then skip else raise (record (io_error "") { message = message })

unfoldable pub start_unit : Text → Act IoError (Unit {0})
start_unit unit = do
  ignore {F = IoError} (run_mutating systemctl (txt "reset-failed" ∷ unit ∷ []))
  output ← run_mutating systemctl (txt "--no-block" ∷ txt "start" ∷ unit ∷ [])
  require_success output (txt "failed to start " ++ (unit ++ (txt ": " ++ trim output.stderr)))

unfoldable pub stop_unit : Text → Act IoError (Unit {0})
stop_unit unit = do
  output ← run_mutating systemctl (txt "stop" ∷ unit ∷ [])
  require_success output (txt "failed to stop " ++ (unit ++ (txt ": " ++ trim output.stderr)))

unfoldable pub sysext_refresh : Act IoError (Unit {0})
sysext_refresh = do
  output ← run_mutating sysext (policy_flag ∷ txt "refresh" ∷ [])
  require_success output (txt "systemd-sysext refresh failed: " ++ trim output.stderr)

unfoldable pub daemon_reload : Act IoError (Unit {0})
daemon_reload = do
  output ← run_mutating systemctl (txt "daemon-reload" ∷ [])
  require_success output (txt "daemon-reload failed")

abbrev pub seconds : ℕ → ℕ
seconds n = n * 10 ^ 9

-- The largest second that an `Instant` can hold.
abbrev pub instant_limit : ℕ
instant_limit = 2 ^ 63

unfoldable pub clock : {E : Type 0} → Act E ℕ
clock = do t ← moment; get_host (λ h. h.now t)

-- `Instant::now() + timeout`, which panics where it overflows.
unfoldable pub deadline_after : {E : Type 0} → ℕ → Act E ℕ
deadline_after timeout = do
  now ← clock
  let deadline = now + seconds timeout
  if ltb (deadline / 10 ^ 9) instant_limit then pure deadline else halt panicked

-- The inner loop of `wait_until_ready`: true if the unit was seen active, false if it was seen
-- failed or the deadline passed. The clock is read again after each `sleep`.
unfoldable pub poll_ready : {E : Type 0} → ℕ → Text → ℕ → Act E Bool
poll_ready zero unit deadline = halt out_of_fuel
poll_ready (suc fuel) unit deadline = do
  now ← clock
  if ltb now deadline
      then (do
        active ← unit_is_active unit
        if active then pure true else do
          down ← unit_failed unit
          if down then pure false else poll_ready fuel unit deadline)
      else pure false

-- One attempt: true if the unit came up.
unfoldable pub start_attempt : Ruleset → Act Text Bool
start_attempt r = do
  map_err (λ e. e.message) (start_unit r.unit)
  deadline ← deadline_after r.ready_timeout
  fuel ← get_host (λ h. h.fuel)
  up ← poll_ready fuel r.unit deadline
  if up then pure true else unit_is_active r.unit

-- The attempts left; the unit is stopped between two of them.
unfoldable pub start_attempts_left : Ruleset → ℕ → Act Text Bool
start_attempts_left r zero = pure false
start_attempts_left r (suc left) = do
  up ← start_attempt r
  if up
      then pure true
      else do when (ltb 0 left) (ignore (stop_unit r.unit)); start_attempts_left r left

abbrev not_ready : Ruleset → Host → Text
not_ready r h =
    r.unit
    ++ (txt " did not become ready within "
        ++ (h.decimal r.ready_timeout
            ++ (txt "s across " ++ (h.decimal r.start_attempts ++ txt " attempts"))))

unfoldable pub wait_until_ready : Ruleset → Act Text (Unit {0})
wait_until_ready r = do
  up ← start_attempts_left r r.start_attempts
  if up then skip else raise_with (not_ready r)

abbrev overstayed : ℕ → Host → Text
overstayed timeout h = txt "health command exceeded " ++ (h.decimal timeout ++ txt "s")

-- One answer of `try_wait`: the end of the child, or another round.
abbrev pub child_answer :
    ℕ → ℕ → Act Text (Unit {0}) → Result IoError (Option ExitStatus) → Act Text (Unit {0})
child_answer timeout deadline again (err e) = raise (txt "health command failed: " ++ e.message)
child_answer timeout deadline again (ok none) =
    clock >>= λ now. if leb deadline now then raise_with (overstayed timeout) else again
child_answer timeout deadline again (ok (some status)) =
    if status.success then skip else raise (txt "health command exited with " ++ status.shown)

-- The loop of `probe` on a running child. `kill` and `wait` on a child that overstays change nothing
-- that is modelled.
unfoldable pub await_child : ℕ → ℕ → ℕ → Act Text (Unit {0})
await_child zero timeout deadline = halt out_of_fuel
await_child (suc fuel) timeout deadline = do
  t ← moment
  answer ← get_host (λ h. h.poll t)
  child_answer timeout deadline (await_child fuel timeout deadline) answer

unfoldable pub run_probe : Ruleset → Act Text (Unit {0})
run_probe r = do
  map_err (λ e. txt "health command failed to start: " ++ e.message) call
  deadline ← deadline_after r.health_timeout
  fuel ← get_host (λ h. h.fuel)
  await_child fuel r.health_timeout deadline

abbrev pub probe_with : Ruleset → Option (List Text) → Act Text (Unit {0})
probe_with r none = skip
probe_with r (some command) = run_probe r

unfoldable pub probe : Ruleset → Act Text (Unit {0})
probe r = probe_with r r.health_command

unfoldable pub require_active : Ruleset → Act Text (Unit {0})
require_active r = do
  active ← unit_is_active r.unit
  if active then skip else raise (r.unit ++ txt " stopped during soak")

-- The loop of `soak`. `sleep` changes nothing but the clock, which is read for `remaining` and again
-- for the test.
unfoldable pub soak_loop : ℕ → Ruleset → ℕ → Act Text (Unit {0})
soak_loop zero r deadline = halt out_of_fuel
soak_loop (suc fuel) r deadline = do
  now ← clock
  if ltb now deadline
      then (do require_active r; probe r; clock {E = Text} >> soak_loop fuel r deadline)
      else skip

unfoldable pub soak : Ruleset → Act Text (Unit {0})
soak r = if r.soak == 0 then probe r else do
  deadline ← deadline_after r.soak
  fuel ← get_host (λ h. h.fuel)
  soak_loop fuel r deadline
  require_active r
  probe r

-- Always the scoped name; a legacy image is hidden first.
unfoldable pub install_active : FilePath → Text → Act IoError (Unit {0})
install_active source name = do
  os ← get_host scope
  let target = scoped_active_path name os
  let legacy = legacy_active_path name
  present ← exists legacy
  when (if same_path legacy target then false else present) (durable_remove legacy)
  durable_copy source target

unfoldable pub remove_active : Text → Act IoError (Unit {0})
remove_active name = do
  os ← get_host scope
  durable_remove (scoped_active_path name os)
  durable_remove (legacy_active_path name)

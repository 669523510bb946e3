-- ===== src/Tests/Witnesses.antt =====
-- The theorems at concrete inputs.
use mathlib.Core.Option
use carbide_os.Prelude.{
  ◌<◌, List, ℕ, ◌+◌, min, ◌≡◌, ◌≢◌, ◌≤◌, refl, ap, true, false, none, some, [], ◌∷◌, All, arith,
  unwrap_or, length,
}
use carbide_os.Text.{Text, txt, same}
use carbide_os.State.{
  State, get, fresh, record_completed, already_completed, completed_request_history,
}
use carbide_os.Text.{contains_char, strip_suffix, is_ascii_alphanumeric}
use carbide_os.Text.Laws.{same_iff}
use carbide_os.State.{unrecoverable, forget_stale_terminals}
use carbide_os.State.History.{record_completed-bounded, already_completed-record_completed}
use carbide_os.State.Terminals.{
  Treated, forget_stale_terminals-Treated, forget_stale_terminals_idem,
}
use carbide_os.Config.{Ruleset, defaults, parse_ruleset}
use carbide_os.Ops.Revision.{newest_for_base}
use carbide_os.Ops.Revision.Newest.{IsNewest, newest_for_base-IsNewest}
use carbide_os.System.Units.{seconds, run_probe}
use carbide_os.Effects.Total.{Fueled}
use carbide_os.System.Units.Waiting.{run_probe-ends}
use carbide_os.Config.Laws.{IsSound, parse_ruleset-IsSound}
use carbide_os.Protocol.{Code, failure, with_stderr, stderr_limit}
use carbide_os.Protocol.Tail.{kept_length, with_stderr-bounded}
use carbide_os.Host.{FilePath, ok}
use carbide_os.System.Slots.Mergeable.{mergeable, mergeable-private}
use carbide_os.System.Slots.Versions.{version_valid-plain}
use carbide_os.System.Slots.{version_valid, rollback_path, temporary_path, legacy_active_path}
use carbide_os.System.Release.{extension_name}
use carbide_os.System.Release.Names.{extension_name-active}
use carbide_os.System.Space.{activation_space, staging_space, space_margin, u64_max}
use carbide_os.System.Space.Bounds.{activation_space-exact}
use carbide_os.Effects.Hoare.{Ends}
use carbide_os.Files.Hoare.{Has}
use carbide_os.StateFile.{store, state_path}
use carbide_os.StateFile.Atomic.{IsEncoding}
use carbide_os.StateFile.Replace.{Swapped, store-atomic}
use carbide_os.System.Slots.{scoped_active_path, candidate_path}
use carbide_os.System.Durable.{durable_copy_file}
use carbide_os.System.Durable.Atomic.{Replaced, IsCopy, durable_copy_file-atomic}
use carbide_os.Lifecycle.Marks.{Marked, ImagesKept, On}
use carbide_os.Lifecycle.Recover.{recover, known_good_of}
use carbide_os.Lifecycle.Recover.Others.{Filed, recover-other_entries}
use carbide_os.Lifecycle.Recover.Refusal.{GaveUp, recover-refusal}
use carbide_os.Lifecycle.Activate.{activate_extension}
use carbide_os.Lifecycle.Activate.Marking.{Covered, Names}
use carbide_os.Lifecycle.Activate.Crash.{activate_extension-crash}
use carbide_os.Lifecycle.Activate.Commit.{Serves, activate_extension-committed}
use carbide_os.Tests.Hosts.{
  calm_host, calm_host-IsFaithful, calm_host-IsInert, calm_host-IsSteady, gpu, staged_world,
}

activate_extension-crash_example :
    let (r, w') = activate_extension gpu (txt "2") (some (txt "r1")) calm_host staged_world in
    All (Covered calm_host gpu (Names (some (txt "r1"))) staged_world.fs) (w'.fs ∷ w'.history)
activate_extension-crash_example =
    activate_extension-crash calm_host calm_host-IsFaithful calm_host-IsInert gpu (txt "2")
      (some (txt "r1")) staged_world refl

activate_extension-committed_example :
    let (r, w') = activate_extension gpu (txt "2") (some (txt "r1")) calm_host staged_world in
    Ends
      (λ a w''. a.replayed ≡ false → Marked calm_host (Serves (txt "2")) gpu w''.fs)
      (λ _. Unit)
      r
      w'
activate_extension-committed_example =
    activate_extension-committed calm_host calm_host-IsFaithful calm_host-IsInert gpu (txt "2")
      (some (txt "r1")) staged_world

gpu_not_net : gpu ≢ txt "net"
unfolding txt same
gpu_not_net e = ground (arith, (same_iff gpu (txt "net")).1 e)

recover-other_entries_example :
    let (r, w') = recover gpu (txt "unhealthy") calm_host staged_world in
    let e0 = unwrap_or (get staged_world.held (txt "net")) fresh in
    (unwrap_or (get w'.held (txt "net")) fresh ≡ e0)
    × All (Filed calm_host (λ e. e ≡ e0) (txt "net") staged_world.fs) (w'.fs ∷ w'.history)
recover-other_entries_example =
    recover-other_entries calm_host calm_host-IsFaithful calm_host-IsInert gpu (txt "net")
      (txt "unhealthy") staged_world gpu_not_net refl

no_known_good : known_good_of (get staged_world.held gpu) ≡ none
unfolding txt get same
no_known_good = refl

recover-refusal_example :
    let (r, w') = recover gpu (txt "unhealthy") calm_host staged_world in
    Ends
      (λ _ _. ⊥)
      (λ w''. On GaveUp gpu w''.held × All (ImagesKept staged_world.fs) (w''.fs ∷ w''.history))
      r
      w'
recover-refusal_example =
    recover-refusal calm_host calm_host-IsInert gpu (txt "unhealthy") staged_world no_known_good
      refl

store-atomic_example :
    let (r, w') = store calm_host staged_world in
    All (Swapped calm_host staged_world.held staged_world.fs) (w'.fs ∷ w'.history)
    × Ends
        (λ _ w''. Has state_path (IsEncoding calm_host staged_world.held) w''.fs)
        (λ _. Unit)
        r
        w'
store-atomic_example = store-atomic calm_host staged_world refl

abbrev copied_from : FilePath
copied_from = candidate_path (txt "7") gpu (txt "2")

abbrev copied_to : FilePath
copied_to = scoped_active_path gpu (txt "7")

candidate_apart : temporary_path copied_to ≢ copied_from
unfolding temporary_path candidate_path scoped_active_path txt
candidate_apart e = ground (arith, (same_iff _ _).1 (ap FilePath.name e))

durable_copy_file-atomic_example :
    let (r, w') = durable_copy_file copied_from copied_to 2 calm_host staged_world in
    All (Replaced calm_host copied_from copied_to 2 staged_world.fs) (w'.fs ∷ w'.history)
    × Ends
        (λ _ w''. Has copied_to (IsCopy calm_host copied_from 2 staged_world.fs) w''.fs)
        (λ _. Unit)
        r
        w'
durable_copy_file-atomic_example =
    durable_copy_file-atomic calm_host copied_from copied_to 2 staged_world candidate_apart
      (omega arith) refl

abbrev ruleset_text : Text
ruleset_text = txt "# gpu\n[Extension]\nUnit=gpu.service\nHealthCommand=/usr/bin/gpu check\n"

abbrev gpu_ruleset : Ruleset
gpu_ruleset = record defaults {
  unit = txt "gpu.service";
  health_command = some (txt "/usr/bin/gpu" ∷ txt "check" ∷ []);
}

gpu_ruleset_accepted : parse_ruleset calm_host ruleset_text ≡ ok gpu_ruleset
unfolding txt parse_ruleset
gpu_ruleset_accepted = refl

parse_ruleset-IsSound_example : IsSound gpu_ruleset
parse_ruleset-IsSound_example =
    parse_ruleset-IsSound calm_host ruleset_text gpu_ruleset gpu_ruleset_accepted

mergeable-private_example :
    (mergeable gpu ≢ rollback_path (txt "7") gpu (txt "1"))
    × (mergeable gpu ≢ candidate_path (txt "7") gpu (txt "1"))
    × (mergeable gpu ≢ temporary_path (scoped_active_path gpu (txt "7")))
mergeable-private_example =
    mergeable-private gpu (txt "7") gpu (txt "1") (scoped_active_path gpu (txt "7"))

plain_version : version_valid (txt "7.2-rev3") ≡ true
unfolding txt version_valid
plain_version = refl

version_valid-plain_example :
    (contains_char (txt "7.2-rev3") b'/' ≡ false)
    × (txt "7.2-rev3" ≢ [])
    × ((c : ℕ) (rest : Text) → txt "7.2-rev3" ≡ c ∷ rest → is_ascii_alphanumeric c ≡ true)
version_valid-plain_example = version_valid-plain (txt "7.2-rev3") plain_version

gpu_plain : contains_char gpu b'_' ≡ false
unfolding txt contains_char
gpu_plain = refl

extension_name-active_example :
    (Option.map extension_name (strip_suffix (scoped_active_path gpu (txt "7")).name (txt ".raw"))
      ≡ some gpu)
    × (Option.map extension_name (strip_suffix (legacy_active_path gpu).name (txt ".raw"))
        ≡ some gpu)
extension_name-active_example = extension_name-active gpu (txt "7") gpu_plain

abbrev refused_state : State
refused_state =
    (gpu, record fresh { phase = unrecoverable; terminal_os_version = some (txt "6") }) ∷ []

forget_stale_terminals-Treated_example :
    Treated
      (txt "7")
      (get refused_state gpu)
      (get (forget_stale_terminals (txt "7") refused_state).1 gpu)
forget_stale_terminals-Treated_example = forget_stale_terminals-Treated (txt "7") refused_state gpu

forget_stale_terminals_idem_example :
    (forget_stale_terminals (txt "7") (forget_stale_terminals (txt "7") refused_state).1).0 ≡ []
forget_stale_terminals_idem_example = forget_stale_terminals_idem (txt "7") refused_state

already_completed-record_completed_example :
    already_completed (record_completed fresh (txt "r1")) (txt "r1") ≡ true
already_completed-record_completed_example = already_completed-record_completed fresh (txt "r1")

record_completed-bounded_example :
    length (record_completed fresh (txt "r1")).completed_requests ≤ completed_request_history
record_completed-bounded_example = record_completed-bounded fresh (txt "r1") (omega arith)

with_stderr-bounded_example :
    kept_length (with_stderr (txt "no space left") (failure Code.failed (txt "failed"))).stderr
    ≤ stderr_limit + 3
unfolding failure
with_stderr-bounded_example =
    with_stderr-bounded (txt "no space left") (failure Code.failed (txt "failed")) refl

activation_space-exact_example :
    (activation_space 1000 200 ≡ min (1000 + 200 + space_margin) u64_max)
    × (activation_space 1000 200 ≤ staging_space 1000 200)
activation_space-exact_example = activation_space-exact 1000 200

abbrev feed : List Text
feed = txt "7-2" ∷ txt "70-9" ∷ txt "7" ∷ txt "7-10" ∷ txt "7-rc1" ∷ []

newest_for_base-IsNewest_example : IsNewest (txt "7") feed (newest_for_base (txt "7") feed)
newest_for_base-IsNewest_example = newest_for_base-IsNewest (txt "7") feed

newest_of_feed : newest_for_base (txt "7") feed ≡ some (txt "7-10")
unfolding txt newest_for_base
newest_of_feed = refl

enough_fuel : seconds gpu_ruleset.health_timeout + 1 < calm_host.fuel
unfolding calm_host
enough_fuel = omega arith

run_probe-ends_example : Fueled (run_probe gpu_ruleset calm_host staged_world).0
run_probe-ends_example =
    run_probe-ends calm_host gpu_ruleset staged_world calm_host-IsSteady enough_fuel

-- ===== src/Tests/Staging.antt =====
-- Staging an image for another base, and the lock, at concrete inputs.
use carbide_os.Prelude.{
  ℕ, ◌≡◌, refl, sym, ◌++◌, ◌≢◌, true, false, none, some, [], ◌∷◌, All, arith, if◌then◌else◌,
}
use carbide_os.Text.{Text, txt, same, lines, trim_matches, trim}
use carbide_os.Host.{Host, World, Json, str, arr, cons, nil, obj, end, member, ok, Output}
use mathlib.Core.List.{append_cancel_left}
use carbide_os.Files.{path}
use carbide_os.System.Slots.Mergeable.{mergeable}
use carbide_os.System.Slots.{os_version, scoped_active_path}
use carbide_os.Lifecycle.Marks.{Agrees}
use carbide_os.Ops.Supply.{supplied, stage_extension}
use carbide_os.Ops.Untouched.{FetchesAside, stage_extension-running}
use carbide_os.Lock.Machine.{
  System, without_lock, try_acquire, set, Step, drop, tries, booted, Reach, here, later, release,
}
use carbide_os.Lock.Machine.Exclusion.{IsExclusive, Reach-IsExclusive}
use carbide_os.Lock.Machine.Succession.{
  gets, orphaned, child-keeps_lock, child-without_lock, drop-frees_lock,
}
use carbide_os.System.Prune.{sort}
use carbide_os.Ops.Base.{dedup, verify_names}
use carbide_os.Ops.Verified.{IsVerified, verify_names-IsVerified}
use carbide_os.Effects.Hoare.{Ends}
use carbide_os.Cli.{option}
use carbide_os.Cli.Options.{is_given, option-append}
use carbide_os.Tests.Hosts.{calm_host, gpu, staged_world}

-- What `systemd-dissect` says of the image: it is for base 8.
abbrev dissected : Json
dissected = obj (
    member (txt "sysextRelease")
      (arr (
        cons (str (txt "VERSION_ID=8"))
          (cons (str (txt "SYSEXT_ID=gpu")) (cons (str (txt "SYSEXT_VERSION_ID=3")) nil))))
      end)

abbrev replies : Text → Output
replies program = record {
  code = some 0;
  stdout =
      if same program (txt "/usr/bin/df")
      then txt "Avail\n99999999999\n"
      else if same program (txt "/usr/bin/sha256sum")
      then txt "abc  gpu.raw"
      else [];
  stderr = [];
}

-- A host that trusts the image.
abbrev trusting_host : Host
trusting_host = record calm_host {
  exec = λ t program args fs. ok (replies program);
  parse_json = λ s. some dissected;
}

trusting_host-FetchesAside : FetchesAside trusting_host
unfolding calm_host
trusting_host-FetchesAside t args fs p d = refl

abbrev supplied_world : World
supplied_world = record staged_world {
  fs =
      (path (txt "/tmp") (txt "gpu.raw"), record { bytes = 3 ∷ []; mode = 420; synced = true })
      ∷ staged_world.fs;
}

base_seven : os_version trusting_host ≡ some (txt "7")
unfolding calm_host os_version txt lines trim_matches trim
base_seven = refl

-- The scoped image of `gpu` for the running base.
abbrev merged_gpu : Text
merged_gpu = gpu ++ txt "_7"

own_base : (other : Text) → merged_gpu ≡ gpu ++ (txt "_" ++ other) → other ≡ txt "7"
unfolding txt
own_base other e =
    sym (append_cancel_left (txt "_") _ _ (append_cancel_left gpu (txt "_7") (txt "_" ++ other) e))

stage_extension-running_example :
    let (r, w') =
      stage_extension gpu none
        (supplied (txt "/tmp/gpu.raw") (txt "sha256:abc"))
        trusting_host
        supplied_world in
    All (Agrees supplied_world.fs (mergeable merged_gpu)) (w'.fs ∷ w'.history)
stage_extension-running_example =
    stage_extension-running trusting_host trusting_host-FetchesAside gpu none
      (supplied (txt "/tmp/gpu.raw") (txt "sha256:abc")) merged_gpu (txt "7") supplied_world
      base_seven own_base refl

-- Process 0 has taken the lock.
abbrev taken : System
taken = (try_acquire 0 booted).0

taken-Reach : Reach booted taken
taken-Reach = later here (tries booted 0)

Reach-IsExclusive_example : IsExclusive taken
Reach-IsExclusive_example = Reach-IsExclusive taken taken-Reach

zero_took : (taken.at 0).slot ≡ some 0
unfolding try_acquire set
zero_took = refl

one_idle : taken.at 1 ≡ without_lock
unfolding try_acquire set
one_idle = refl

one_not_zero : ◌≢◌ {A = ℕ} 1 0
one_not_zero e = omega (arith, e)

child-keeps_lock_example :
    (((orphaned true 0 1 taken).at 1).file ≡ some 0)
    × ((t : System) (q : ℕ)
        → Reach (orphaned true 0 1 taken) t
        → (t.at 1).file ≡ some 0
        → gets q t ≡ false)
child-keeps_lock_example = child-keeps_lock taken 0 1 0 taken-Reach zero_took one_idle one_not_zero

others_closed : (r : ℕ) → r ≢ 0 → (taken.at r).file ≡ none
unfolding try_acquire set
others_closed r d = ground arith

child-without_lock_example :
    Step (orphaned false 0 1 taken) (release (orphaned false 0 1 taken))
    × (gets 1 (release (orphaned false 0 1 taken)) ≡ true)
child-without_lock_example = child-without_lock taken 0 1 0 1 taken-Reach zero_took others_closed

drop-frees_lock_example :
    ((drop 0 taken).at 0 ≡ without_lock)
    × Step (drop 0 taken) (release (drop 0 taken))
    × (gets 1 (release (drop 0 taken)) ≡ true)
drop-frees_lock_example = drop-frees_lock taken 0 0 1 taken-Reach zero_took others_closed

-- The image of the extension for base 8 is in place.
abbrev placed_world : World
placed_world = record staged_world {
  fs =
      (scoped_active_path gpu (txt "8"), record { bytes = 3 ∷ []; mode = 420; synced = true })
      ∷ staged_world.fs;
}

base_not_first : is_given (gpu ∷ []) (txt "--base") ≡ false
unfolding txt same
base_not_first = refl

verify_names-IsVerified_example :
    let (r, w') =
      verify_names (txt "8") (dedup (sort (gpu ∷ gpu ∷ []))) trusting_host placed_world in
    Ends
      (λ _ w''.
        All (IsVerified trusting_host placed_world.fs (txt "8")) (gpu ∷ gpu ∷ [])
        × (w''.fs ≡ placed_world.fs))
      (λ _. Unit)
      r
      w'
verify_names-IsVerified_example =
    verify_names-IsVerified trusting_host (txt "8") (gpu ∷ gpu ∷ []) placed_world

option-append_example :
    (option (gpu ∷ txt "--base" ∷ txt "8" ∷ []) (txt "--base") ≡ some (txt "8"))
    × (option (gpu ∷ []) (txt "--base") ≡ none)
option-append_example = option-append (txt "--base") (txt "8") (gpu ∷ []) [] base_not_first

-- ===== src/Tests/Hosts.antt =====
-- A host on which every call succeeds, and worlds to start from.
use carbide_os.Prelude.{
  arith, ℕ, ◌*◌, ◌≡◌, refl, ap, ◌∙◌, sym, true, false, none, some, List, [], ◌∷◌, ◌++◌,
  if◌then◌else◌,
}
use carbide_os.Text.{Text, txt, same}
use carbide_os.State.{State, fresh, active}
use carbide_os.Host.{Host, World, File, FilePath, IoError, other_kind, Output, Result, ok, err}
use carbide_os.Files.{path, same_path}
use carbide_os.StateFile.{state_path}
use carbide_os.System.Slots.{scoped_active_path, candidate_path, rollback_path}
use carbide_os.Lifecycle.Marks.{IsFaithful, IsInert}
use carbide_os.System.Units.Waiting.{IsSteady}
use carbide_os.Tests.Codec.{print, read, read-print}

abbrev pub gpu : Text
gpu = txt "gpu"

abbrev ruleset_path : FilePath
ruleset_path = path (txt "/usr/lib/carbide/health.d") (txt "gpu.conf")

abbrev absent : IoError
absent = record { kind = other_kind; message = txt "absent" }

abbrev answers : Text → Output
answers program = record {
  code = some 0;
  stdout = if same program (txt "/usr/bin/df") then txt "Avail\n99999999999\n" else [];
  stderr = [];
}

unfoldable pub calm_host : Host
unfolding txt same same_path
calm_host = record {
  os_release = some (txt "VERSION_ID=7\n");
  fault = λ t. none;
  usr = λ t p.
      if same_path p ruleset_path
      then ok (txt "[Extension]\nUnit=gpu.service\nSoakSec=20\n")
      else err absent;
  exec = λ t program args fs. ok (answers program);
  effect = λ t program args fs. fs;
  blocks = λ t program args. false;
  try_lock = λ t. ok true;
  poll = λ t. ok (some (record { success = true; shown = txt "exit status: 0" }));
  now = λ t. t * 1000000000;
  reads = λ t p bytes. bytes;
  written = λ t. 0;
  fuel = 100000000000000000000000000000;
  debug = λ s. s;
  decimal = λ n. [];
  encode = λ s. ok (print s);
  decode = λ l. ok (read l);
  parse_json = λ s. none;
  json_error = λ s. [];
}

ok_inj : {a b : Text} → ◌≡◌ {A = Result Text Text} (ok a) (ok b) → a ≡ b
ok_inj e = cc

pub calm_host-IsFaithful : IsFaithful calm_host
unfolding calm_host
calm_host-IsFaithful s text e =
    ap {B = Result Text State} (λ (l : Text). ok (read (l ++ (10 ∷ [])))) (sym (ok_inj e))
    ∙ ap {B = Result Text State} (λ (x : State). ok x) (read-print s)

pub calm_host-IsInert : IsInert calm_host
unfolding calm_host
calm_host-IsInert = record { units = λ t args fs p d. refl; merges = λ t args fs p d. refl }

pub calm_host-IsSteady : IsSteady calm_host
unfolding calm_host
calm_host-IsSteady t = omega arith

abbrev image : List ℕ → File
image bytes = record { bytes = bytes; mode = 420; synced = true }

abbrev recorded_state : State
recorded_state =
    (gpu, record fresh { required = true; active_version = some (txt "1"); phase = active })
    ∷ (txt "net", record fresh { required = true; phase = active })
    ∷ []

-- Version 1 is merged and retained, version 2 is staged.
abbrev pub staged_world : World
staged_world = record {
  fs =
      (scoped_active_path gpu (txt "7"), image (1 ∷ 1 ∷ []))
      ∷ (rollback_path (txt "7") gpu (txt "1"), image (1 ∷ 1 ∷ []))
      ∷ (candidate_path (txt "7") gpu (txt "2"), image (2 ∷ 2 ∷ []))
      ∷ (state_path, image (print recorded_state ++ (10 ∷ [])))
      ∷ [];
  held = recorded_state;
  tick = 0;
  history = [];
}

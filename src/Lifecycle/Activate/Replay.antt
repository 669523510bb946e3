-- ===== src/Lifecycle/Activate/Replay.antt =====
-- A request that comes again after it was completed (agent/src/main.rs, `activate_extension`).
use carbide_os.Prelude.{ℕ, ◌+◌, ◌≡◌, refl, true, false, Option, none, some, List, unwrap_or}
use carbide_os.Text.{Text}
use carbide_os.State.{ExtensionState, already_completed, fresh, get}
use carbide_os.State.History.{already_completed-record_completed}
use carbide_os.Host.{Host, World}
use carbide_os.Effects.{
  Outcome, done, ◌>>=◌, map_err, attempt, moment, set_held, get_entry, get_world, get_host,
}
use carbide_os.Effects.Hoare.{Ends}
use carbide_os.Files.{call, lookup_file, read_file}
use carbide_os.StateFile.{load, state_path}
use carbide_os.Lifecycle.Marks.{IsFaithful, IsInert, Marked}
use carbide_os.Lifecycle.Activate.{Activation, is_replay, committed, activate_extension}
use carbide_os.Lifecycle.Activate.Commit.{activating_settles}

-- The entry says that the request is completed.
abbrev Answered : Text → ExtensionState → Type 0
Answered id e = already_completed e id ≡ true

committed-Answered :
    (version id : Text) (e : ExtensionState) → Answered id (committed version (some id) e)
unfolding committed
committed-Answered version id e = search already_completed-record_completed

nothing_recorded : (id : Text) → already_completed fresh id ≡ false
unfolding already_completed
nothing_recorded id = refl

replayed_entry :
    (id : Text) (o : Option ExtensionState)
    → Answered id (unwrap_or o fresh)
    → is_replay (some id) o ≡ true
replayed_entry id none a = let n = nothing_recorded id in cc
replayed_entry id (some e) a = a

-- The state file that is marked is the one that gets loaded, where it can be read.
module _ {h : Host} {T : ExtensionState → Type 0} {name : Text} (v : World)
    (m : Marked h T name v.fs) (readable : h.fault v.tick ≡ none)
    (read : h.reads v.tick state_path m.file.bytes ≡ m.file.bytes) where
  abbrev reloaded : World
  reloaded = record v { held = m.state; tick = v.tick + 1 }

  loads : load h v ≡ (done tt, reloaded)
  unfolding load read_file call lookup_file attempt moment set_held get_host get_world ◌>>=◌
  loads = rw (readable, m.found, read, m.read) refl

-- An answer that is a replay, and files that stayed as they were in `v`.
abbrev pub AnswersAgain : World → Activation → World → Type 0
AnswersAgain v a w = (a.replayed ≡ true) × (w.fs ≡ v.fs) × (w.history ≡ v.history)

module _ (h : Host) (name version id : Text) (v : World) where
  answers_again :
      (v' : World)
      → load h v ≡ (done tt, v')
      → is_replay (some id) (get v'.held name) ≡ true
      → v'.fs ≡ v.fs
      → v'.history ≡ v.history
      → let (r, w) = activate_extension name version (some id) h v in
        Ends (AnswersAgain v) (λ _. ⊥) r w
  unfolding activate_extension ◌>>=◌ map_err get_entry get_world
  answers_again v' l r same past = rw (l, r) (refl, same, past)

  answers_from_file :
      (m : Marked h (Answered id) name v.fs)
      → h.fault v.tick ≡ none
      → h.reads v.tick state_path m.file.bytes ≡ m.file.bytes
      → let (r, w) = activate_extension name version (some id) h v in
        Ends (AnswersAgain v) (λ _. ⊥) r w
  answers_from_file m readable read =
      answers_again (reloaded v m readable read) (loads v m readable read)
        (replayed_entry id (get m.state name) m.meets) refl refl

returned_value :
    {E A : Type 0} (R : A → World → Type 0) (x : Outcome E A × World) (a : A) (w : World)
    → x ≡ (done a, w)
    → Ends R (λ _. Unit) x.0 x.1
    → R a w
returned_value R x a w e q = rw e at q

-- Where an activation for a request returned, and was no replay itself, the same request, for whatever
-- version and on any world with the files that the activation left, a restarted agent's included, is
-- answered as a replay, and changes no file. It is assumed that the printed state reads back, that units
-- and merges leave the agent's directories alone, and that the state file can be read the second time.
pub activate_extension-replay :
    (h : Host)
    → IsFaithful h
    → IsInert h
    → (name version again id : Text) (w w' v : World) (a : Activation)
    → activate_extension name version (some id) h w ≡ (done a, w')
    → a.replayed ≡ false
    → v.fs ≡ w'.fs
    → h.fault v.tick ≡ none
    → ((bytes : List ℕ) → h.reads v.tick state_path bytes ≡ bytes)
    → let (r, w'') = activate_extension name again (some id) h v in
      Ends (AnswersAgain v) (λ _. ⊥) r w''
activate_extension-replay h faithful inert name version again id w w' v a returned first left
      readable read =
    let settled = returned_value _ (activate_extension name version (some id) h w) a w' returned (
      (activating_settles (Answered id) faithful inert name version (some id)
          (committed-Answered version id)).at
        w tt) in
    let m : Marked h (Answered id) name v.fs = rw left (settled first) in
    answers_from_file h name again id v m readable (read m.file.bytes)

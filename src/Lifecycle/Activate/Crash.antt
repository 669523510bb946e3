-- ===== src/Lifecycle/Activate/Crash.antt =====
-- An activation that is cut short at any point (agent/src/main.rs, `activate_extension`).
use carbide_os.Prelude.{ℕ, ◌≡◌, refl, inl, inr, Option, none, List, [], ◌∷◌, All}
use carbide_os.Text.{Text}
use carbide_os.State.{State, ExtensionState}
use carbide_os.State.Map.{get-update_entry_self}
use carbide_os.Host.{
  Host, World, Fs, FilePath, Result, ok, err, IoError, ErrorKind, not_found, invalid_data,
  other_kind,
}
use carbide_os.Effects.{Act, modify_entry, on_error, ignore, pure, ◌>>=◌}
use carbide_os.Effects.Keeps.{
  Keeps, Keeps-bind, Keeps-pure, Keeps-raise, Keeps-get_host, Keeps-get_entry, Keeps-map_err,
  Keeps-attempt, Keeps-ignore, Keeps-on_error,
}
use carbide_os.Effects.Invariant.{Inv, Keeps-set_held}
use carbide_os.Effects.Hoare.{
  Hoare, Hoare-bind, Hoare-weaken, Hoare-of_Keeps, Hoare-map_err, Hoare-if, Hoare-pure, Hoare-raise,
  always,
}
use carbide_os.Files.Keeps.{Keeps-exists, Keeps-file_len, Keeps-read_file}
use carbide_os.StateFile.{load, loaded, unread, decoded, store}
use carbide_os.StateFile.Atomic.{store_lem}
use carbide_os.System.Prune.{prune_candidates, prune_rollbacks}
use carbide_os.Lifecycle.Frame.{Frame}
use carbide_os.Lifecycle.Frame.Slots.{Keeps-prune_candidates, Keeps-prune_rollbacks}
use carbide_os.Lifecycle.Marks.{IsFaithful, IsInert, ImagesKept, On, Marked, Marked-stored}
use carbide_os.Lifecycle.Activate.{begun, transact, activate_extension, promote, revert}
use carbide_os.Lifecycle.Activate.Keeps.{
  Keeps-adopt_unrecorded, Keeps-missing_retained, Keeps-require_room, Keeps-retain_outgoing,
  Keeps-promote, Keeps-revert,
}
use carbide_os.Lifecycle.Activate.Marking.{
  Names, Covered, Frame-before, Free-after, Advances-On, Moves-On,
}

module _ {h : Host} (faithful : IsFaithful h) (inert : IsInert h) (name : Text)
    (request_id : Option Text) (fs0 : Fs) where
  abbrev T : ExtensionState → Type 0
  T = Names request_id

  abbrev Left : Fs → Type 0
  Left = Covered h name T fs0

  -- The files are covered, now and at every change so far.
  abbrev Safe : World → Type 0
  Safe w = Left w.fs × All Left w.history

  abbrev Before : World → Type 0
  Before = Inv (λ _. Unit) (ImagesKept fs0) Left

  abbrev Recorded : World → Type 0
  Recorded = Inv (On T name) (ImagesKept fs0) Left

  abbrev After : World → Type 0
  After = Inv (On T name) (Marked h T name) Left

  F0 : Frame h (λ _. Unit) (ImagesKept fs0) Left
  F0 = Frame-before faithful inert name T fs0

  first : {E A : Type 0} {m : Act E A} → Keeps h Before m → Hoare h Before m (λ _. Before) Safe
  first k = Hoare-weaken (λ _ w i. i) (λ w i. (inl i.now, i.ever)) (Hoare-of_Keeps k)

  last : {E A : Type 0} {m : Act E A} → Keeps h After m → Hoare h After m (λ _. Safe) Safe
  last k =
      Hoare-weaken (λ _ w i. (inr i.now, i.ever)) (λ w i. (inr i.now, i.ever)) (Hoare-of_Keeps k)

  recording :
      {E : Type 0} (version : Text) (previous : Option Text)
      → Hoare {E = E} h Before
          (modify_entry name (begun version request_id previous))
          (λ _. Recorded)
          Safe
  unfolding modify_entry
  recording version previous = record {
    at = λ w i. record {
      held = rw (get-update_entry_self name (begun version request_id previous) w.held) (refl, tt);
      now = i.now;
      ever = i.ever;
    };
  }

  stored : Hoare h Recorded store (λ _. After) Safe
  stored =
      Hoare-weaken (λ _ w i. record { held = i.held; now = i.now.1; ever = i.ever })
        (λ w i. (inl i.now, i.ever))
        (store_lem {Now' = λ fs. ImagesKept fs0 fs × Marked h T name fs} (λ fs k. inl k)
          (λ fs n. n.0) h (Frame-before faithful inert name T fs0 {Held = On T name}).staging
          (λ s fs f hs k e. (
            (Frame-before faithful inert name T fs0 {Held = On T name}).swap s fs f hs k e,
            Marked-stored faithful s _ f hs e,
          )))

  finished_activation :
      (version : Text) (previous : Option Text) (candidate : FilePath)
      → Keeps h After (
          on_error (promote name version request_id candidate) (revert name) >>= λ _.
          ignore (prune_candidates name none) >>= λ _.
          ignore (prune_rollbacks name previous) >>= λ _. pure previous)
  finished_activation version previous candidate =
      let F = Free-after faithful inert name T fs0 in
      Keeps-bind
        (Keeps-on_error (Keeps-promote F (Advances-On request_id name version) candidate)
          (Keeps-revert F (Moves-On request_id name)))
        λ _. Keeps-bind (Keeps-ignore (Keeps-prune_candidates F name none)) (λ _.
          Keeps-bind (Keeps-ignore (Keeps-prune_rollbacks F name previous))
            (λ _. Keeps-pure previous))

  transacted :
      (version : Text) (candidate : FilePath)
      → Hoare h Before (transact name version request_id candidate) (λ _. Safe) Safe
  unfolding transact
  transacted version candidate =
      Hoare-bind (first (Keeps-adopt_unrecorded F0 name (λ _ _ _. tt))) λ _.
        Hoare-bind (first (Keeps-map_err _ (Keeps-file_len F0.sub h candidate))) λ size.
          Hoare-bind (first (Keeps-get_entry name)) λ entry.
            Hoare-bind (first (Keeps-missing_retained F0 name _)) λ rollback_size.
              Hoare-bind (first (Keeps-require_room F0 name _)) λ _.
                Hoare-bind (first (Keeps-retain_outgoing F0 name _)) λ _.
                  Hoare-bind (recording version _) λ _.
                    Hoare-bind (Hoare-map_err _ stored)
                      (λ _. last (finished_activation version _ candidate))

  Keeps-unread : (kind : ErrorKind) (e : IoError) → Keeps h Before (unread kind e)
  Keeps-unread not_found e = Keeps-set_held [] tt
  Keeps-unread invalid_data e = Keeps-raise e
  Keeps-unread other_kind e = Keeps-raise e

  Keeps-decoded : (r : Result Text State) → Keeps h Before (decoded r)
  Keeps-decoded (ok s) = Keeps-set_held s tt
  Keeps-decoded (err e) = Keeps-raise _

  Keeps-loaded : (r : Result IoError (List ℕ)) → Keeps h Before (loaded r)
  Keeps-loaded (ok bytes) = Keeps-bind (Keeps-get_host _) Keeps-decoded
  Keeps-loaded (err e) = Keeps-unread e.kind e

  Keeps-load : Keeps h Before load
  unfolding load
  Keeps-load = Keeps-bind (Keeps-attempt (Keeps-read_file F0.sub h _)) Keeps-loaded

  activated :
      (version : Text)
      → Hoare h Before (activate_extension name version request_id) (λ _. Safe) Safe
  unfolding activate_extension
  activated version = Hoare-bind (first (Keeps-map_err _ Keeps-load)) λ _.
      Hoare-bind (first (Keeps-get_entry name)) λ entry.
        Hoare-if _ (Hoare-pure _ (λ w i. (inl i.now, i.ever))) (
          Hoare-bind (first (Keeps-get_host _)) λ os.
            Hoare-bind (first (Keeps-exists F0.sub h _)) λ present.
              Hoare-if _
                (Hoare-bind {R = λ _. Safe} (transacted version _)
                  (λ previous. Hoare-pure _ (λ w p. p)))
                (Hoare-raise _ (λ w i. (inl i.now, i.ever))))

-- An activation that is cut short at any point leaves every image that gets merged as it was, or a
-- whole and flushed state file whose entry of the extension names the request, in a phase that says
-- an activation is under way or over. This holds for every host, so for every failure of every call,
-- as long as the encoding reads back and units and merges leave the agent's directories alone.
pub activate_extension-crash :
    (h : Host)
    → IsFaithful h
    → IsInert h
    → (name version : Text) (request_id : Option Text) (w : World) → w.history ≡ []
    → let (r, w') = activate_extension name version request_id h w in
      All (Covered h name (Names request_id) w.fs) (w'.fs ∷ w'.history)
activate_extension-crash h faithful inert name version request_id w e =
    always (activated faithful inert name request_id w.fs version) w
      (record { held = tt; now = λ n. refl; ever = rw e tt })

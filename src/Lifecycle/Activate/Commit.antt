-- ===== src/Lifecycle/Activate/Commit.antt =====
-- What an activation that returns has recorded (agent/src/main.rs, `activate_extension`).
use carbide_os.Prelude.{
  ◌≡◌, refl, Bool, true, false, Option, none, some, List, [], ◌∷◌, All, if◌then◌else◌, unwrap_or,
}
use carbide_os.Text.{Text}
use carbide_os.State.{ExtensionState, active, record_completed, fresh, get}
use carbide_os.State.Map.{get-update_entry_self}
use carbide_os.Host.{Host, World, Fs, FilePath}
use carbide_os.Effects.{modify_entry, ignore, pure, ◌>>=◌}
use carbide_os.Effects.Keeps.{Keeps, Keeps-bind, Keeps-pure, Keeps-ignore}
use carbide_os.Effects.Invariant.{Inv}
use carbide_os.Effects.Hoare.{
  Hoare, Ends, Hoare-bind, Hoare-weaken, Hoare-of_Keeps, Hoare-if, Hoare-pure, Hoare-raise,
  Hoare-after, Hoare-on_error,
}
use carbide_os.Config.{Ruleset}
use carbide_os.StateFile.{store}
use carbide_os.StateFile.Atomic.{store_lem}
use carbide_os.Protocol.{Failure}
use carbide_os.System.Prune.{prune_candidates, prune_rollbacks}
use carbide_os.Lifecycle.Frame.{Free}
use carbide_os.Lifecycle.Frame.Slots.{Keeps-prune_candidates, Keeps-prune_rollbacks}
use carbide_os.Lifecycle.Marks.{IsFaithful, IsInert, On, Marked, Marked-stored}
use carbide_os.Lifecycle.Activate.{
  Activation, Setback, committed, completed, commit, prove, promote, revert, transact,
  activate_extension,
}
use carbide_os.Lifecycle.Activate.Marking.{Free-after}

-- The entry says that the version is active and proved, with nothing left under way.
pub record Serves (version : Text) (e : ExtensionState) : Type 0 where
  pub phase : e.phase ≡ active
  pub served : e.active_version ≡ some version
  pub settled : e.candidate_version ≡ none
  pub unrefused : e.terminal_os_version ≡ none
  pub required : e.required ≡ true

module _ (version : Text) where
  Serves-if :
      (b : Bool) (e e' : ExtensionState)
      → Serves version e
      → Serves version e'
      → Serves version (if b then e else e')
  Serves-if true e e' n n' = n
  Serves-if false e e' n n' = n'

  Serves-completed :
      (done : Option Text) (e : ExtensionState)
      → Serves version e
      → Serves version (completed done e)
  unfolding record_completed
  Serves-completed none e n = n
  Serves-completed (some id) e n = Serves-if _ _ _ n (record {
    phase = n.phase;
    served = n.served;
    settled = n.settled;
    unrefused = n.unrefused;
    required = n.required;
  })

  Serves-committed :
      (request_id : Option Text) (e : ExtensionState)
      → Serves version (committed version request_id e)
  unfolding committed
  Serves-committed request_id e =
      Serves-completed request_id _
        (record { phase = refl; served = refl; settled = refl; unrefused = refl; required = refl })

anything : (l : List Fs) → All (λ _. Unit {0}) l
anything [] = tt
anything (x ∷ l) = (tt, anything l)

-- `T` is what a committed entry meets.
module _ {h : Host} (T : ExtensionState → Type 0) (faithful : IsFaithful h) (inert : IsInert h)
    (name version : Text) (request_id : Option Text)
    (met : (e : ExtensionState) → T (committed version request_id e)) where
  -- The state in memory and the one on disk both say so.
  abbrev Recorded : World → Type 0
  Recorded = Inv (On T name) (Marked h T name) (λ _. Unit)

  abbrev Nothing : World → Type 0
  Nothing w = Unit

  promising :
      {E : Type 0}
      → Hoare {E = E} h Nothing
          (modify_entry name (committed version request_id))
          (λ _. Inv (On T name) (λ _. Unit) (λ _. Unit))
          Nothing
  unfolding modify_entry
  promising = record {
    at = λ w _. record {
      held =
          rw (get-update_entry_self name (committed version request_id) w.held)
            (met (unwrap_or (get w.held name) fresh));
      now = tt;
      ever = anything w.history;
    };
  }

  storing : Hoare h (Inv (On T name) (λ _. Unit) (λ _. Unit)) store (λ _. Recorded) Nothing
  storing =
      Hoare-weaken (λ _ w i. i) (λ w i. tt)
        (store_lem (λ fs k. tt) (λ fs k. tt) h
          (record { at_put = λ _ _ _. tt; at_erase = λ _ _. tt })
          (λ s fs f hs _ e. Marked-stored faithful s _ f hs e))

  committing :
      (unit : Option Text)
      → Hoare h Nothing (commit name version request_id unit) (λ _. Recorded) Nothing
  unfolding commit
  committing unit = Hoare-after _ λ before. Hoare-bind promising (λ _.
      Hoare-on_error storing (λ e. Hoare-after _ (λ _. Hoare-raise _ (λ w i. tt))) (λ w i. tt))

  proving :
      (rules : Ruleset)
      → Hoare h Nothing (prove name version request_id rules) (λ _. Recorded) Nothing
  unfolding prove
  proving rules = Hoare-after _ λ _. Hoare-after _ λ _.
      Hoare-after _ λ _. Hoare-after _ λ _. Hoare-after _ (λ _. Hoare-after _ (λ _. committing _))

  promoting :
      (candidate : FilePath)
      → Hoare h Nothing (promote name version request_id candidate) (λ _. Recorded) Nothing
  unfolding promote
  promoting candidate = Hoare-after _ λ _.
      Hoare-after _
        λ _. Hoare-after _ λ _. Hoare-after _ (λ _. Hoare-after _ (λ _. Hoare-after _ proving))

  reverting_fails : (s : Setback) → Hoare h Nothing (revert name s) (λ _. Recorded) Nothing
  unfolding revert
  reverting_fails s = Hoare-after _ (λ _. Hoare-after _ (λ _. Hoare-raise _ (λ w i. tt)))

  Free-recorded : Free h (On T name) (Marked h T name) (λ _. Unit)
  Free-recorded =
      let F = Free-after faithful inert name T [] in
      record {
        frame = record {
          sub = λ fs k. tt;
          systemctl_inert = F.frame.systemctl_inert;
          sysext_inert = F.frame.sysext_inert;
          staging = F.frame.staging;
          swap = F.frame.swap;
          retained = F.frame.retained;
          retained_new = F.frame.retained_new;
        };
        anywhere = F.anywhere;
      }

  pruned :
      (previous : Option Text)
      → Keeps h Recorded (
          ignore {F = Failure} (prune_candidates name none) >>= λ _.
          ignore (prune_rollbacks name previous) >>= λ _. pure previous)
  pruned previous = Keeps-bind (Keeps-ignore (Keeps-prune_candidates Free-recorded name none)) (λ _.
      Keeps-bind (Keeps-ignore (Keeps-prune_rollbacks Free-recorded name previous))
        (λ _. Keeps-pure previous))

  transacting :
      (candidate : FilePath)
      → Hoare h Nothing (transact name version request_id candidate) (λ _. Recorded) Nothing
  unfolding transact
  transacting candidate = Hoare-after _ λ _. Hoare-after _ λ _. Hoare-after _ λ _.
      Hoare-after _ λ _. Hoare-after _ λ _. Hoare-after _ λ _. Hoare-after _ λ _. Hoare-after _ λ _.
        Hoare-bind (Hoare-on_error (promoting candidate) reverting_fails (λ w i. tt))
          (λ _. Hoare-weaken (λ _ w i. i) (λ w i. tt) (Hoare-of_Keeps (pruned _)))

  -- A replay leaves the record as it is; any other success has recorded the version.
  abbrev pub Settled : Activation → World → Type 0
  Settled a w = a.replayed ≡ false → Marked h T name w.fs

  pub activating_settles :
      Hoare h Nothing (activate_extension name version request_id) Settled Nothing
  unfolding activate_extension
  activating_settles = Hoare-after _ λ _. Hoare-after _ λ entry.
      Hoare-if _ (Hoare-pure _ (λ w i e. cc)) (
        Hoare-after _ λ os. Hoare-after _ λ present.
          Hoare-if _ (Hoare-bind (transacting _) (λ previous. Hoare-pure _ (λ w i _. i.now)))
            (Hoare-raise _ (λ w i. tt)))

-- An activation that returns, and that was no replay, leaves a whole and flushed state file that says
-- the version is active and required, with no candidate and no refusal left.
pub activate_extension-committed :
    (h : Host)
    → IsFaithful h
    → IsInert h
    → (name version : Text) (request_id : Option Text) (w : World)
    → let (r, w') = activate_extension name version request_id h w in
      Ends (λ a w''. a.replayed ≡ false → Marked h (Serves version) name w''.fs) (λ _. Unit) r w'
activate_extension-committed h faithful inert name version request_id w =
    (activating_settles (Serves version) faithful inert name version request_id
        (Serves-committed version request_id)).at
      w tt

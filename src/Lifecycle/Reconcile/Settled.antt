-- ===== src/Lifecycle/Reconcile/Settled.antt =====
-- Where `reconcile_state` returns (agent/src/main.rs).
use carbide_os.Prelude.{
  ◌≡◌, refl, sym, ◌⊎◌, inl, inr, Bool, true, false, List, [], ◌∷◌, ◌++◌, unwrap_or, if◌then◌else◌,
  Bool-cases,
}
use carbide_os.Text.{Text, txt, same, is_empty}
use carbide_os.Text.Laws.{same_iff}
use carbide_os.State.{State, ExtensionState, fresh, get, update_entry}
use carbide_os.State.Map.{get-update_entry}
use carbide_os.Host.{Host, World, FilePath, IoError, Result, ok, err}
use carbide_os.Effects.{Act, done, pure, raise, skip, ◌>>=◌}
use carbide_os.Effects.Keeps.{
  Keeps, Keeps-bind, Keeps-pure, Keeps-if, Keeps-attempt, Keeps-get_host,
}
use carbide_os.Effects.Hoare.{
  Hoare, Hoare-bind, Hoare-after, Hoare-weaken, Hoare-raise, Hoare-pure, Hoare-get_world,
}
use carbide_os.Files.Keeps.{Keeps-call, Keeps-read_dir}
use carbide_os.System.Prune.{candidate_files, entries}
use carbide_os.System.Durable.Keeps.{Keeps-durable_remove}
use carbide_os.Files.Hoare.{Has}
use carbide_os.StateFile.{state_path}
use carbide_os.StateFile.Atomic.{IsEncoding}
use carbide_os.Lifecycle.Marks.{On}
use carbide_os.Lifecycle.Reconcile.{
  reconcile_entry, reconcile_entries, remove_orphans, reconcile_state,
}
use carbide_os.Lifecycle.Reconcile.Steps.{
  is_settled, Settled, Holding, Keeps-reported, Keeps-reconcile_entry,
}
use carbide_os.Lifecycle.Reconcile.Quiet.{
  Nothing, Quiet, Stored, storing, returned, untouched, still, given,
}
use carbide_os.Lifecycle.Reconcile.Phases.{Rests, entry-rests}

-- The entry of `j` is settled, or the loop still has to come to it.
abbrev Pending : Text → State → State → Type 0
Pending j l s = On Settled j s ⊎ (is_settled (unwrap_or (get l j) fresh).phase ≡ false)

elsewhere :
    (name j : Text)
    → same name j ≡ false
    → (l : State) (f : ExtensionState → ExtensionState) (s : State) → Pending j l s
    → Pending j l (update_entry name f s)
elsewhere name j d l f s (inl k) = inl (rw (get-update_entry name j f s, d) k)
elsewhere name j d l f s (inr k) = inr k

module _ (name j : Text) (e : ExtensionState) (l : State) where
  passing : same name j ≡ false → (s : State) → Pending j ((name, e) ∷ l) s → Pending j l s
  unfolding get
  passing d s (inl k) = inl k
  passing d s (inr k) = inr (rw d at k)

  reaching :
      same name j ≡ true
      → (s : State) → Pending j ((name, e) ∷ l) s
      → is_settled e.phase ≡ true
      → On Settled name s
  unfolding get
  reaching d s (inl k) t = rw ((same_iff name j).0 d) k
  reaching d s (inr k) t = let k' = rw d at k in cc

ended : (j : Text) (s : State) → Pending j [] s → On Settled j s
unfolding get
ended j s (inl k) = k
ended j s (inr k) = cc

begun : (j : Text) (s : State) → Pending j s s
begun j s = elim (Bool-cases (is_settled (unwrap_or (get s j) fresh).phase)) [
  | inl k ↦ inl k
  | inr k ↦ inr k
]

module _ {h : Host} (j : Text) where
  round :
      (name : Text) (e : ExtensionState) (l : State) (b : Bool)
      → same name j ≡ b
      → Hoare h
          (λ w. Pending j ((name, e) ∷ l) w.held)
          (reconcile_entry name e.phase e.candidate_version e.known_good_version)
          (λ failures. Quiet (λ w. Pending j l w.held) failures)
          Nothing
  round name e l false d =
      given (λ w. passing name j e l d w.held)
        (Hoare-weaken (λ a w k q. k) (λ w x. x)
          (untouched (
            Keeps-reconcile_entry {Held = Pending j l} name (elsewhere name j d l) e.phase
              e.candidate_version e.known_good_version)))
  round name e l true d =
      given (λ w. reaching name j e l d w.held)
        (Hoare-weaken (λ a w k q. inl (rw (sym ((same_iff name j).0 d)) (k q))) (λ w x. x)
          (entry-rests name e.phase e.candidate_version e.known_good_version))

  rest :
      (l : State) (failures : List Text)
      → Hoare h (λ w. Pending j l w.held) (reconcile_entries l) (Quiet (Rests j)) Nothing
      → Hoare h
          (Quiet (λ w. Pending j l w.held) failures)
          (reconcile_entries l >>= λ more. pure (failures ++ more))
          (Quiet (Rests j))
          Nothing
  rest l [] hl = Hoare-bind (given (λ w k. k refl) hl) (λ more. Hoare-pure _ (λ w k. k))
  rest l (f ∷ failures) hl = Hoare-after _ (λ more. Hoare-pure _ (λ w k q. cc))

  rounds :
      (l : State)
      → Hoare h (λ w. Pending j l w.held) (reconcile_entries l) (Quiet (Rests j)) Nothing
  unfolding reconcile_entries
  rounds [] = Hoare-pure [] (λ w p q. ended j w.held p)
  rounds ((name, e) ∷ l) =
      Hoare-bind (round name e l (same name j) refl) (λ failures. rest l failures (rounds l))

module _ {h : Host} {Held : State → Type 0} where
  Keeps-orphans : (kept l : List FilePath) → Keeps h (Holding Held) (remove_orphans kept l)
  unfolding remove_orphans
  Keeps-orphans kept [] = Keeps-pure []
  Keeps-orphans kept (p ∷ l) =
      Keeps-bind
        (Keeps-if _ _ _ (Keeps-pure []) (
          Keeps-reported _ (
            Keeps-durable_remove (λ fs k. tt) h p
              (record { at_put = λ fs f k. tt; at_erase = λ fs k. tt }))))
        λ failures. Keeps-bind (Keeps-orphans kept l) (λ more. Keeps-pure _)

  Keeps-entries : (names : List Text) → Keeps h (Holding Held) (entries names)
  unfolding entries
  Keeps-entries [] = Keeps-pure tt
  Keeps-entries (name ∷ names) = Keeps-bind (Keeps-call (λ fs k. tt) h) (λ _. Keeps-entries names)

  Keeps-candidate_files : Keeps h (Holding Held) candidate_files
  unfolding candidate_files
  Keeps-candidate_files = Keeps-bind (Keeps-get_host _) λ os.
      Keeps-bind (Keeps-read_dir (λ fs k. tt) h _)
        λ names. Keeps-bind (Keeps-entries names) (λ _. Keeps-pure _)

  Keeps-cleaning :
      (kept : List FilePath) (listed : Result IoError (List FilePath))
      → Keeps h (Holding Held) (elim listed as (λ _. Act Text (List Text)) [
        | ok candidates ↦ remove_orphans kept candidates
        | err e ↦ pure ((txt "could not enumerate candidates: " ++ e.message) ∷ [])
      ])
  Keeps-cleaning kept (ok candidates) = Keeps-orphans kept candidates
  Keeps-cleaning kept (err e) = Keeps-pure _

empty_before : (a b : List Text) → is_empty (a ++ b) ≡ true → a ≡ []
empty_before [] b e = refl
empty_before (x ∷ a) b e = cc

-- Settled, and in the state file.
abbrev Kept : Host → Text → World → Type 0
Kept h j w = Rests j w × Stored h w

module _ {h : Host} (j : Text) where
  concluded :
      (failures more : List Text) (b : Bool) (message : Text)
      → is_empty (failures ++ more) ≡ b
      → Hoare h
          (λ w. Quiet (Rests j) failures w × Stored h w)
          (if b then skip else raise message)
          (λ _. Kept h j)
          Nothing
  concluded failures more true message e =
      Hoare-pure tt (λ w k. (k.0 (empty_before failures more e), k.1))
  concluded failures more false message e = Hoare-raise _ (λ w k. tt)

  reconciling : Hoare h Nothing reconcile_state (λ _. Kept h j) Nothing
  unfolding reconcile_state
  reconciling = Hoare-after _ λ _. Hoare-after _ λ _. Hoare-after _ λ _.
      Hoare-bind (Hoare-get_world _) λ entries.
        Hoare-bind
          (given (λ w p. rw p.0 (begun j w.held))
            (untouched {Held = Pending j entries} (Keeps-get_host _)))
          λ os. Hoare-bind (rounds j entries) λ failures.
            Hoare-bind (still {Held = On Settled j} failures (Keeps-attempt Keeps-candidate_files))
              λ listed.
                Hoare-bind (still {Held = On Settled j} failures (Keeps-cleaning _ listed)) λ more.
                  Hoare-bind (storing (λ s. failures ≡ [] → On Settled j s))
                    λ _. concluded failures more _ _ refl

-- Where `reconcile_state` returns, the entry of every extension, whatever the loaded state said of it,
-- is in none of the phases of an unfinished transaction, which are activating, starting, soaking,
-- reverting and removing; and the state file is a whole and flushed encoding of the state that says so.
pub reconcile_state-Settled :
    (h : Host) (w w' : World)
    → reconcile_state h w ≡ (done tt, w')
    → (j : Text)
    → Settled (unwrap_or (get w'.held j) fresh) × Has state_path (IsEncoding h w'.held) w'.fs
reconcile_state-Settled h w w' e j =
    returned (Kept h j) (reconcile_state h w) w' e ((reconciling j).at w tt)

-- ===== src/Lifecycle/Gate/Healthy.antt =====
-- Where `health_gate` returns (agent/src/main.rs).
use carbide_os.Prelude.{
  ◌≡◌, ◌≢◌, refl, inl, inr, arith, Bool, true, false, List, [], ◌∷◌, unwrap_or, if◌then◌else◌,
  Bool-cases, any,
}
use carbide_os.Text.{Text, same, is_empty}
use carbide_os.State.{State, fresh, get, required_names}
use carbide_os.Host.{Host, World, Result, ok, err}
use carbide_os.Effects.{Act, done, pure, raise, skip, ◌>>=◌}
use carbide_os.Effects.Keeps.{Keeps, Keeps-bind, Keeps-attempt, Keeps-get_host}
use carbide_os.Effects.Hoare.{
  Hoare, Hoare-bind, Hoare-after, Hoare-raise, Hoare-pure, Hoare-get_world,
}
use carbide_os.Lifecycle.Frame.Units.{Keeps-run}
use carbide_os.System.Release.{merged_extensions}
use carbide_os.Files.Hoare.{Has}
use carbide_os.StateFile.{state_path}
use carbide_os.StateFile.Atomic.{IsEncoding}
use carbide_os.Lifecycle.Marks.{On}
use carbide_os.Lifecycle.Reconcile.Steps.{Holding}
use carbide_os.Lifecycle.Reconcile.Quiet.{
  Nothing, Quiet, untouched, given, returned, Stored, storing, Answered,
}
use carbide_os.Lifecycle.Gate.{verify_all, health_gate}
use carbide_os.Lifecycle.Gate.Works.{is_working, Works, Pending, ended, round}

-- A required extension is among the names that the gate goes through.
required_names-any :
    (j : Text) (s : State)
    → (unwrap_or (get s j) fresh).required ≡ true
    → any (λ m. same m j) (required_names s) ≡ true
unfolding get required_names
required_names-any j [] r = cc
required_names-any j ((name, e) ∷ s) r = ground (arith, required_names-any j s)

begun : (j : Text) (s : State) → Pending j (required_names s) s
begun j s = elim (Bool-cases (unwrap_or (get s j) fresh).required) [
  | inl r ↦ inr (required_names-any j s r)
  | inr n ↦ inl (λ r. cc)
]

module _ {h : Host} {Held : State → Type 0} where
  Keeps-merged_extensions : Keeps h (Holding Held) merged_extensions
  unfolding merged_extensions
  Keeps-merged_extensions = Keeps-bind (Keeps-run _ _) (λ output. Keeps-get_host _)

-- Where the extension is required, it works, and the state file says so.
abbrev Kept : Host → Text → World → Type 0
Kept h j w =
    (unwrap_or (get w.held j) fresh).required ≡ true
    → (is_working (unwrap_or (get w.held j) fresh).phase ≡ true) × Stored h w

none_named : (j : Text) (l : List Text) → is_empty l ≡ true → any (λ m. same m j) l ≢ true
none_named j [] e k = cc
none_named j (n ∷ l) e k = cc

module _ {h : Host} (j : Text) where
  counted :
      (name : Text) (names merged : List Text) (outcome : Result Text (Unit {0}))
      → Hoare h
          (λ w. Pending j names w.held)
          (verify_all names merged)
          (λ failures w. Quiet (λ w. On Works j w.held) failures w)
          Nothing
      → Hoare h
          (Answered (λ w. Pending j names w.held) outcome)
          (verify_all names merged >>= λ failures.
            pure
              (elim outcome as (λ _. List Text) [ ok _ ↦ failures | err reason ↦ name ∷ failures ]))
          (Quiet (λ w. On Works j w.held))
          Nothing
  counted name names merged (ok x) hn = Hoare-bind hn (λ failures. Hoare-pure _ (λ w k. k))
  counted name names merged (err e) hn = Hoare-after _ (λ failures. Hoare-pure _ (λ w k q. cc))

  rounds :
      (names merged : List Text)
      → Hoare h
          (λ w. Pending j names w.held)
          (verify_all names merged)
          (Quiet (λ w. On Works j w.held))
          Nothing
  unfolding verify_all
  rounds [] merged = Hoare-pure [] (λ w p q. ended j w.held p)
  rounds (name ∷ names) merged =
      Hoare-bind (round name j names merged (same name j) refl)
        (λ outcome. counted name names merged outcome (rounds names merged))

  concluded :
      (failures : List Text) (b : Bool) (message : Text)
      → is_empty failures ≡ b
      → Hoare h
          (λ w. Quiet (λ w. On Works j w.held) failures w × Stored h w)
          (if b then skip else raise message)
          (λ _. Kept h j)
          Nothing
  concluded [] true message e = Hoare-pure tt (λ w k r. (k.0 refl r, k.1))
  concluded [] false message e = Hoare-raise _ (λ w k. tt)
  concluded (f ∷ failures) true message e = cc
  concluded (f ∷ failures) false message e = Hoare-raise _ (λ w k. tt)

  -- The gate does nothing where nothing is required.
  gating :
      (required : List Text) (b : Bool) {m : Act Text (Unit {0})}
      → is_empty required ≡ b
      → Hoare h (λ w. Pending j required w.held) m (λ _. Kept h j) Nothing
      → Hoare h
          (λ w. (required ≡ required_names w.held) × Unit)
          (if b then skip else m)
          (λ _. Kept h j)
          Nothing
  gating required true e hm =
      Hoare-pure tt
        (λ w p r. elim (none_named j required e (rw p.0 (required_names-any j w.held r))) [ ])
  gating required false e hm = given (λ w p. rw p.0 (begun j w.held)) hm

  gate-works : Hoare h Nothing health_gate (λ _. Kept h j) Nothing
  unfolding health_gate
  gate-works = Hoare-after _ λ _. Hoare-after _ λ _. Hoare-bind (Hoare-get_world _) λ required.
      gating required _ refl (
        Hoare-bind (untouched {Held = Pending j required} (Keeps-attempt Keeps-merged_extensions))
          λ answer. Hoare-bind (rounds required _) λ failures.
            Hoare-bind (storing (λ s. failures ≡ [] → On Works j s))
              λ _. concluded failures _ _ refl)

-- Where `health_gate` returns, every extension whose entry is required then is in the phase active or
-- recovered, and the state file is a whole and flushed encoding of the state that says so.
pub health_gate-Works :
    (h : Host) (w w' : World)
    → health_gate h w ≡ (done tt, w')
    → (j : Text) → (unwrap_or (get w'.held j) fresh).required ≡ true
    → (is_working (unwrap_or (get w'.held j) fresh).phase ≡ true)
      × Has state_path (IsEncoding h w'.held) w'.fs
health_gate-Works h w w' e j = returned (Kept h j) (health_gate h w) w' e ((gate-works j).at w tt)

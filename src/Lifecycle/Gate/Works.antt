-- ===== src/Lifecycle/Gate/Works.antt =====
-- Where the check of one required extension returns (agent/src/main.rs, `verify_or_recover`).
use carbide_os.Prelude.{
  ◌≡◌, refl, sym, ◌⊎◌, inl, inr, Bool, true, false, Option, none, some, List, [], ◌∷◌, any,
}
use carbide_os.Text.{Text, same}
use carbide_os.Text.Laws.{same_iff}
use carbide_os.State.{
  State, ExtensionState, Phase, update_entry, idle, staged, activating, starting, soaking, active,
  reverting, recovered, removing, unrecoverable,
}
use carbide_os.State.Map.{get-update_entry}
use carbide_os.Host.{Host, World, Result, ok, err}
use carbide_os.Effects.{Act, attempt, skip}
use carbide_os.Effects.Keeps.{
  Keeps, Keeps-bind, Keeps-pure, Keeps-raise, Keeps-if, Keeps-when, Keeps-map_err, Keeps-attempt,
  Keeps-get_host, Keeps-get_entry,
}
use carbide_os.Effects.Invariant.{Keeps-modify_entry}
use carbide_os.Effects.Hoare.{
  Hoare, Hoare-attempt, Hoare-after, Hoare-weaken, Hoare-raise, Hoare-if,
}
use carbide_os.Files.Keeps.{Keeps-exists}
use carbide_os.Config.{Ruleset}
use carbide_os.Lifecycle.Frame.Units.{Keeps-load_named, Keeps-soak}
use carbide_os.System.Units.{soak}
use carbide_os.Lifecycle.Frame.Slots.{Keeps-active_path, Keeps-retaining}
use carbide_os.Lifecycle.Marks.{On}
use carbide_os.Lifecycle.Adopt.Keeps.{Keeps-merged_version}
use carbide_os.Lifecycle.Recover.Keeps.{Keeps-recover, Keeps-healthy_now}
use carbide_os.Lifecycle.Reconcile.Steps.{Holding, Free-any, Moves-any}
use carbide_os.Lifecycle.Reconcile.Quiet.{Nothing, untouched, given, Answered}
use carbide_os.Lifecycle.Reconcile.Recovers.{reaching_by, recover-reaches}
use carbide_os.Lifecycle.Gate.{keep_merged, verify_or_recover}

abbrev pub is_working : Phase → Bool
is_working active = true
is_working recovered = true
is_working idle = false
is_working staged = false
is_working activating = false
is_working starting = false
is_working soaking = false
is_working reverting = false
is_working removing = false
is_working unrecoverable = false

-- An extension that is required is on an image that was found healthy.
abbrev pub Works : ExtensionState → Type 0
Works e = e.required ≡ true → is_working e.phase ≡ true

-- The entry of `j` is in order, or the loop still has to come to it.
abbrev pub Pending : Text → List Text → State → Type 0
Pending j names s = On Works j s ⊎ (any (λ m. same m j) names ≡ true)

elsewhere :
    (name j : Text)
    → same name j ≡ false
    → (names : List Text) (f : ExtensionState → ExtensionState) (s : State) → Pending j names s
    → Pending j names (update_entry name f s)
elsewhere name j d names f s (inl k) = inl (rw (get-update_entry name j f s, d) k)
elsewhere name j d names f s (inr k) = inr k

passing :
    (name j : Text) (names : List Text)
    → same name j ≡ false
    → (s : State) → Pending j (name ∷ names) s
    → Pending j names s
passing name j names d s (inl k) = inl k
passing name j names d s (inr k) = inr (rw d at k)

pub ended : (j : Text) (s : State) → Pending j [] s → On Works j s
ended j s (inl k) = k
ended j s (inr k) = cc

module _ {h : Host} {E F A B : Type 0} (x : Result E A) {m : A → Act F B} {n : E → Act F B} where
  Keeps-result :
      {P : World → Type 0}
      → ((a : A) → Keeps h P (m a))
      → ((e : E) → Keeps h P (n e))
      → Keeps h P (elim x as (λ _. Act F B) [ ok a ↦ m a | err e ↦ n e ])
  Keeps-result km kn =
      elim x as (λ x. Keeps h _ (elim x as (λ _. Act F B) [ ok a ↦ m a | err e ↦ n e ])) [
        | ok a ↦ km a
        | err e ↦ kn e
      ]

  Hoare-result :
      {P X : World → Type 0} {R : B → World → Type 0}
      → ((a : A) → Hoare h P (m a) R X)
      → ((e : E) → Hoare h P (n e) R X)
      → Hoare h P (elim x as (λ _. Act F B) [ ok a ↦ m a | err e ↦ n e ]) R X
  Hoare-result hm hn =
      elim x as (λ x. Hoare h _ (elim x as (λ _. Act F B) [ ok a ↦ m a | err e ↦ n e ]) _ _) [
        | ok a ↦ hm a
        | err e ↦ hn e
      ]

module _ {h : Host} (name : Text) where
  module _ {Held : State → Type 0}
      (any_change : (f : ExtensionState → ExtensionState) (s : State)
        → Held s
        → Held (update_entry name f s)) where
    Keeps-keep_merged :
        (version : Text) (rules : Ruleset)
        → Keeps h (Holding Held) (keep_merged name version (soak rules))
    unfolding keep_merged
    Keeps-keep_merged version rules = Keeps-bind (Keeps-get_host _) λ os.
        Keeps-bind (Keeps-get_entry name) λ e. Keeps-bind (Keeps-exists (λ fs k. tt) h _) λ kept.
          Keeps-when _ _ (
            Keeps-bind (Keeps-soak (λ fs k. tt) rules) λ _.
              Keeps-bind (Keeps-active_path (Free-any.frame) name) λ slot.
                Keeps-bind (Keeps-map_err _ (Keeps-retaining (Free-any.frame) slot os name version))
                  λ _. Keeps-modify_entry name _ (any_change _))

    Keeps-merged :
        (rules : Ruleset) (version : Option Text)
        → Keeps h (Holding Held) (elim version as (λ _. Act Text (Unit {0})) [
          | none ↦ skip
          | some v ↦ keep_merged name v (soak rules)
        ])
    Keeps-merged rules none = Keeps-pure tt
    Keeps-merged rules (some v) = Keeps-keep_merged v rules

    Keeps-verify_or_recover :
        (merged : List Text) → Keeps h (Holding Held) (verify_or_recover name merged)
    unfolding verify_or_recover
    Keeps-verify_or_recover merged =
        let moves = Moves-any name any_change in
        Keeps-bind (Keeps-get_entry name) λ e. Keeps-if _ _ _ (Keeps-raise _) (
          Keeps-bind (Keeps-attempt (Keeps-load_named name)) λ loaded.
            Keeps-result loaded
              (λ rules. Keeps-if _ _ _ (Keeps-recover Free-any moves _) (
                Keeps-bind (Keeps-attempt (Keeps-healthy_now (Free-any.frame) rules)) λ health.
                  Keeps-result health
                    (λ _. Keeps-bind (Keeps-merged_version name) λ version.
                      Keeps-bind (Keeps-merged rules version)
                        λ _. Keeps-modify_entry name _ (any_change _))
                    (λ reason. Keeps-recover Free-any moves _)))
              (λ error. Keeps-recover Free-any moves _))

  -- An extension whose check returns is in order.
  verify_or_recover-works :
      {P : World → Type 0} (merged : List Text)
      → Hoare h P (verify_or_recover name merged) (λ _ w. On Works name w.held) Nothing
  unfolding verify_or_recover
  verify_or_recover-works merged = Hoare-after _ λ e. Hoare-if _ (Hoare-raise _ (λ w i. tt)) (
      Hoare-after _ λ loaded.
        Hoare-result loaded
          (λ rules. Hoare-if _ (recover-reaches name Works (λ version why e k. refl) _) (
            Hoare-after _ λ health.
              Hoare-result health
                (λ _.
                  Hoare-after _
                    λ version. Hoare-after _ (λ _. reaching_by name Works _ (λ e k. refl)))
                (λ reason. recover-reaches name Works (λ version why e k. refl) _)))
          (λ error. recover-reaches name Works (λ version why e k. refl) _))

  pub round :
      (j : Text) (names merged : List Text) (b : Bool)
      → same name j ≡ b
      → Hoare {E = Text} h
          (λ w. Pending j (name ∷ names) w.held)
          (attempt (verify_or_recover name merged))
          (Answered (λ w. Pending j names w.held))
          Nothing
  round j names merged false d =
      given (λ w. passing name j names d w.held)
        (Hoare-attempt (
          untouched {Held = Pending j names}
            (Keeps-verify_or_recover (elsewhere name j d names) merged)))
  round j names merged true d = Hoare-attempt (
      Hoare-weaken (λ a w k. inl (rw (sym ((same_iff name j).0 d)) k)) (λ w x. x)
        (verify_or_recover-works merged))

-- ===== src/Lifecycle/Reconcile/Quiet.antt =====
-- What holds where the steps of `reconcile_state` (agent/src/main.rs) report no failure.
use carbide_os.Prelude.{◌≡◌, refl, sym, List, [], ◌∷◌, ◌++◌}
use carbide_os.Text.{Text}
use carbide_os.State.{State}
use carbide_os.Host.{Host, World, Fs, File, Result, ok, err}
use carbide_os.Effects.{Act, Outcome, done, pure}
use carbide_os.Effects.Keeps.{Keeps}
use carbide_os.Effects.Hoare.{
  Hoare, Ends, Hoare-bind, Hoare-of_Keeps, Hoare-weaken, Hoare-pure, Hoare-map_err, Hoare-attempt,
  Returned,
}
use carbide_os.Files.{put, erase}
use carbide_os.Files.Table.{find-put, same_path_iff}
use carbide_os.Files.Hoare.{Has}
use carbide_os.StateFile.{store, stringly, state_path, staging_path}
use carbide_os.StateFile.Atomic.{IsEncoding, store_lem}
use carbide_os.Lifecycle.Reconcile.{reported}
use carbide_os.Lifecycle.Reconcile.Steps.{Holding, holding}

abbrev pub Nothing : World → Type 0
Nothing w = Unit

-- `Q` holds where the failures are none.
abbrev pub Quiet : {A : Type 0} → (World → Type 0) → List A → World → Type 0
Quiet Q failures w = failures ≡ [] → Q w

pub none_before : {A : Type 0} (a b : List A) → a ++ b ≡ [] → a ≡ []
none_before [] b e = refl
none_before (x ∷ a) b e = cc

module _ {h : Host} {E A : Type 0} {m : Act E A} where
  -- What does not look at the entries leaves a fact about them.
  pub untouched :
      {Held : State → Type 0}
      → Keeps h (Holding Held) m
      → Hoare h (λ w. Held w.held) m (λ _ w. Held w.held) Nothing
  untouched km = record {
    at = λ w p.
        (Hoare-weaken (λ a w' i. i.held) (λ w' i. tt) (Hoare-of_Keeps km)).at w (holding w p);
  }

  -- So does a fact that holds where no failure came before.
  pub still :
      {A' : Type 0} {Held : State → Type 0} (failures : List A')
      → Keeps h (Holding (λ s. failures ≡ [] → Held s)) m
      → Hoare h
          (Quiet (λ w. Held w.held) failures)
          m
          (λ _. Quiet (λ w. Held w.held) failures)
          Nothing
  still failures km = untouched km

  pub given :
      {P P' : World → Type 0} {R : A → World → Type 0} {X : World → Type 0}
      → ((w : World) → P w → P' w)
      → Hoare h P' m R X
      → Hoare h P m R X
  given g hm = record { at = λ w p. hm.at w (g w p) }

abbrev pub Answered : {E A : Type 0} → (World → Type 0) → Result E A → World → Type 0
Answered Q = Returned Q Nothing

module _ {h : Host} {P : World → Type 0} where
  pub Hoare-reported :
      {E : Type 0} {Q : World → Type 0} (message : E → Text) {m : Act E (Unit {0})}
      → Hoare h P m (λ _. Q) Nothing
      → Hoare h P (reported message m) (Quiet Q) Nothing
  unfolding reported
  Hoare-reported {E} {Q} message hm = Hoare-bind (Hoare-attempt hm) answer
    where
      answer :
          (r : Result E (Unit {0}))
          → Hoare {E = Text} h
              (Answered Q r)
              (pure (elim r [ ok _ ↦ [] | err e ↦ message e ∷ [] ]))
              (Quiet Q)
              Nothing
      answer (ok a) = Hoare-pure _ (λ w q e. q)
      answer (err e) = Hoare-pure _ (λ w q e'. cc)

-- What is promised of a run that is known to return.
pub returned :
    {E : Type 0} (Q : World → Type 0) (x : Outcome E (Unit {0}) × World) (w' : World)
    → x ≡ (done tt, w')
    → Ends (λ _. Q) Nothing x.0 x.1
    → Q w'
returned Q x w' e q = rw e at q

-- The state file is a whole and flushed encoding of the state in memory.
abbrev pub Stored : Host → World → Type 0
Stored h w = Has state_path (IsEncoding h w.held) w.fs

module _ {h : Host} where
  in_place :
      (s0 s : State) (fs : Fs) (f : File)
      → s ≡ s0
      → IsEncoding h s f
      → Has state_path (IsEncoding h s0) (put state_path f (erase staging_path fs))
  in_place s0 s fs f e q = (
    f,
    rw (
      find-put state_path state_path f (erase staging_path fs),
      (same_path_iff state_path state_path).1 refl,
    ),
    rw (sym e) q,
  )

  -- A store leaves what is known of the state in memory, and that state in the file.
  pub storing :
      (Held : State → Type 0)
      → Hoare h (λ w. Held w.held) (stringly store) (λ _ w. Held w.held × Stored h w) Nothing
  unfolding stringly
  storing Held = record {
    at = λ w p.
        (Hoare-map_err (λ e. e.message)
            (Hoare-weaken {X = Holding (λ s. s ≡ w.held)} (λ _ w' i. (rw i.held p, rw i.held i.now))
              (λ w' i. tt)
              (store_lem {Held = λ s. s ≡ w.held} {Now' = Has state_path (IsEncoding h w.held)}
                (λ fs k. tt) (λ fs k. tt) h (record { at_put = λ _ _ _. tt; at_erase = λ _ _. tt })
                (λ s fs f e _ q. in_place w.held s fs f e q)))).at
          w (holding w refl);
  }

-- ===== src/StateFile/Replace.antt =====
-- `State::store` as its callers see it (agent/src/state.rs).
use carbide_os.Prelude.{◌≡◌, refl, sym, ◌≢◌, ◌⊎◌, inl, inr, ◌∙◌, arith, [], ◌∷◌, All, ap}
use carbide_os.Text.{txt}
use carbide_os.Text.Laws.{same_iff}
use carbide_os.State.{State}
use carbide_os.Host.{Host, World, Fs, File, FilePath}
use carbide_os.Effects.Invariant.{Inv}
use carbide_os.Effects.Hoare.{Hoare, Ends, Hoare-weaken, always}
use carbide_os.Files.{find, put, erase}
use carbide_os.Files.Table.{find-put, find-put_other, find-erase_other, same_path_iff}
use carbide_os.Files.Keeps.{Ignores}
use carbide_os.Files.Hoare.{Has}
use carbide_os.StateFile.{store, state_path, staging_path}
use carbide_os.StateFile.Atomic.{IsEncoding, store_lem}

pub staging_not_state : staging_path ≢ state_path
unfolding txt
staging_not_state e =
    ground (arith, (same_iff staging_path.name state_path.name).1 (ap FilePath.name e))

-- The state file is what it was in `fs0`, or a whole and flushed encoding of `s`.
abbrev pub Swapped : Host → State → Fs → Fs → Type 0
Swapped h s fs0 fs = (find fs state_path ≡ find fs0 state_path) ⊎ Has state_path (IsEncoding h s) fs

module _ (h : Host) (s0 : State) (fs0 : Fs) where
  moved :
      (fs fs' : Fs)
      → find fs' state_path ≡ find fs state_path
      → Swapped h s0 fs0 fs
      → Swapped h s0 fs0 fs'
  moved fs fs' e (inl k) = inl (e ∙ k)
  moved fs fs' e (inr (f, k, q)) = inr (f, e ∙ k, q)

  Swapped-Ignores : Ignores (Swapped h s0 fs0) staging_path
  Swapped-Ignores = record {
    at_put = λ fs f. moved fs _ (find-put_other staging_path state_path fs staging_not_state f);
    at_erase = λ fs. moved fs _ (find-erase_other staging_path state_path fs staging_not_state);
  }

  in_place :
      (s : State) (fs : Fs) (f : File)
      → s ≡ s0
      → Swapped h s0 fs0 fs
      → IsEncoding h s f
      → Has state_path (IsEncoding h s0) (put state_path f (erase staging_path fs))
  in_place s fs f e k q = (
    f,
    rw (
      find-put state_path state_path f (erase staging_path fs),
      (same_path_iff state_path state_path).1 refl,
    ),
    rw (sym e) q,
  )

  swapping :
      Hoare h
        (Inv (λ s. s ≡ s0) (Swapped h s0 fs0) (Swapped h s0 fs0))
        store
        (λ _. Inv (λ s. s ≡ s0) (Has state_path (IsEncoding h s0)) (Swapped h s0 fs0))
        (Inv (λ s. s ≡ s0) (Swapped h s0 fs0) (Swapped h s0 fs0))
  swapping = store_lem (λ fs k. k) (λ fs k. inr k) h Swapped-Ignores in_place

unchanged :
    (h : Host) (w : World)
    → w.history ≡ []
    → Inv (λ s. s ≡ w.held) (Swapped h w.held w.fs) (Swapped h w.held w.fs) w
unchanged h w e = record { held = refl; now = inl refl; ever = rw e tt }

-- At every point of a store, and after any failure, the state file is the one from before or a whole
-- and flushed encoding of the state being stored, and never anything between; when it returns, it is
-- the latter.
pub store-atomic :
    (h : Host) (w : World)
    → w.history ≡ []
    → let (r, w') = store h w in
      All (Swapped h w.held w.fs) (w'.fs ∷ w'.history)
      × Ends (λ _ w''. Has state_path (IsEncoding h w.held) w''.fs) (λ _. Unit) r w'
store-atomic h w e = (
  always {Q = λ w'. All (Swapped h w.held w.fs) (w'.fs ∷ w'.history)}
      (Hoare-weaken (λ _ w' i. (inr i.now, i.ever)) (λ w' i. (i.now, i.ever))
        (swapping h w.held w.fs))
      w (unchanged h w e),
  (Hoare-weaken (λ _ w' i. i.now) (λ w' i. tt) (swapping h w.held w.fs)).at w (unchanged h w e),
)

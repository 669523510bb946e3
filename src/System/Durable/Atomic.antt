-- ===== src/System/Durable/Atomic.antt =====
-- A durable copy puts the whole file in place at once (agent/src/system.rs, `durable_copy_file`).
use carbide_os.Prelude.{
  ℕ, zero, suc, ◌+◌, ◌<◌, ◌≤◌, ◌≡◌, refl, ◌≢◌, ◌⊎◌, inl, inr, ◌∙◌, arith, Bool, true, false, none,
  some, List, [], ◌∷◌, All, length, take, length-append, ap, ltb,
}
use carbide_os.Text.{txt}
use carbide_os.Host.{Host, World, Fs, File, FilePath, IoError, Result, ok, err}
use carbide_os.Effects.{when, raise}
use carbide_os.Effects.Keeps.{Keeps-bind, Keeps-pure, Keeps-ignore}
use carbide_os.Effects.Invariant.{Inv}
use carbide_os.Effects.Hoare.{
  Hoare, Ends, Hoare-bind, Hoare-weaken, Hoare-of_Keeps, Hoare-pure, Hoare-raise, Hoare-fact,
  Hoare-get_world, Hoare-get_host, Hoare-attempt, Returned, always,
}
use carbide_os.Files.{find, put, erase, lookup_file, read_file}
use carbide_os.Files.Table.{find-put, find-put_other, find-erase_other, same_path_iff}
use carbide_os.Files.Keeps.{
  Ignores, Keeps-call, Keeps-lookup_file, Keeps-create_dir_all, Keeps-remove_file, Keeps-sync_dir,
}
use carbide_os.Files.Hoare.{
  Has, With, forget, create_new_lem, write_all_lem, set_permissions_lem, sync_all_lem, rename_lem,
}
use carbide_os.System.Slots.{temporary_path}
use carbide_os.System.Space.{saturating_add}
use carbide_os.System.Durable.{publish, settle, permissions, durable_copy_file, grown}

-- What a read of `input`, as it is in `fs0`, gives at some moment.
abbrev pub IsRead : Host → FilePath → Fs → List ℕ → Type 0
IsRead h input fs0 bytes =
    (source : File) × (t : ℕ) × (find fs0 input ≡ some source)
    × (bytes ≡ h.reads t input source.bytes)

-- A flushed copy of `input`, to its last byte, within the reserved size.
abbrev pub IsCopy : Host → FilePath → ℕ → Fs → File → Type 0
IsCopy h input maximum fs0 f =
    (f.synced ≡ true) × (length f.bytes ≤ maximum) × IsRead h input fs0 f.bytes

-- The target is what it was in `fs0`, or such a copy.
abbrev pub Replaced : Host → FilePath → FilePath → ℕ → Fs → Fs → Type 0
Replaced h input target maximum fs0 fs =
    (find fs target ≡ find fs0 target) ⊎ Has target (IsCopy h input maximum fs0) fs

own_name : (target : FilePath) → temporary_path target ≢ target
unfolding temporary_path txt
own_name target e =
    omega
      (arith, ap (λ (p : FilePath). length p.name) e, length-append {0} target.name (txt ".new"))

-- A prefix that is shorter than what was asked for is all there is.
take-all : (n : ℕ) (l : List ℕ) → length (take n l) < n → take n l ≡ l
take-all zero l e = let never : ⊥ = omega (arith, e) in elim never [ ]
take-all (suc n) [] e = refl
take-all (suc n) (x ∷ l) e = ap (λ r. x ∷ r) (take-all n l (omega (arith, e)))

nothing_cut :
    (maximum : ℕ) (l : List ℕ)
    → maximum + 1 < 0x1_0000_0000_0000_0000
    → length (take (saturating_add maximum 1) l) ≤ maximum
    → take (saturating_add maximum 1) l ≡ l
unfolding saturating_add
nothing_cut maximum l small e = take-all (saturating_add maximum 1) l (ground (arith, small, e))

module _ (h : Host) (input target : FilePath) (maximum : ℕ) (fs0 : Fs)
    (apart : temporary_path target ≢ input) (small : maximum + 1 < 0x1_0000_0000_0000_0000) where
  abbrev Now : Fs → Type 0
  Now = Replaced h input target maximum fs0

  -- Before the copy is renamed, both files are what they were.
  abbrev Before : Fs → Type 0
  Before fs = (find fs input ≡ find fs0 input) × (find fs target ≡ find fs0 target)

  abbrev Copy : Fs → Type 0
  Copy = Has target (IsCopy h input maximum fs0)

  sub : (fs : Fs) → Before fs → Now fs
  sub fs b = inl b.1

  moved : (fs fs' : Fs) → find fs' target ≡ find fs target → Now fs → Now fs'
  moved fs fs' e (inl k) = inl (e ∙ k)
  moved fs fs' e (inr (f, k, q)) = inr (f, e ∙ k, q)

  unseen : Ignores Now (temporary_path target)
  unseen = record {
    at_put = λ fs f. moved fs _ (find-put_other _ target fs (own_name target) f);
    at_erase = λ fs. moved fs _ (find-erase_other _ target fs (own_name target));
  }

  private_copy : Ignores Before (temporary_path target)
  private_copy = record {
    at_put = λ fs f b. (
      find-put_other _ input fs apart f ∙ b.0,
      find-put_other _ target fs (own_name target) f ∙ b.1,
    );
    at_erase = λ fs b. (
      find-erase_other _ input fs apart ∙ b.0,
      find-erase_other _ target fs (own_name target) ∙ b.1,
    );
  }

  abbrev Begun : World → Type 0
  Begun = Inv (λ _. Unit) Before Now

  abbrev Safe : World → Type 0
  Safe = Inv (λ _. Unit) Now Now

  abbrev Finished : World → Type 0
  Finished = Inv (λ _. Unit) Copy Now

  begun_safe : (w : World) → Begun w → Safe w
  begun_safe w i = record { held = tt; now = sub w.fs i.now; ever = i.ever }

  finished_safe : (w : World) → Finished w → Safe w
  finished_safe w i = record { held = tt; now = inr i.now; ever = i.ever }

  -- Whatever is promised of an error before the rename holds of any error.
  up :
      {A : Type 0} {P : World → Type 0} {R : A → World → Type 0} {m : _}
      → Hoare {E = IoError} h P m R Begun
      → Hoare h P m R Safe
  up hm = Hoare-weaken (λ a w x. x) begun_safe hm

  abbrev Copied : List ℕ → World → Type 0
  Copied bytes = With (λ _. Unit) Before Now (Has (temporary_path target) (λ f. f.bytes ≡ bytes))

  looked_up :
      (P : World → Type 0)
      → ((w : World) → P w → find w.fs input ≡ find fs0 input)
      → Hoare h P (lookup_file input) (λ f w. (find fs0 input ≡ some f) × P w) P
  unfolding lookup_file
  looked_up P same = Hoare-bind (Hoare-get_world _) (elim [
    | none ↦ Hoare-raise _ (λ w p. p.1)
    | some f ↦ Hoare-pure f (λ w p. (cc (same w p.1, p.0), p.1))
  ])

  -- What is read of the input, while the private copy is begun.
  reading :
      Hoare h
        (Copied [])
        (read_file input)
        (λ bytes w. IsRead h input fs0 bytes × Copied [] w)
        (Copied [])
  unfolding read_file
  reading = Hoare-bind (Hoare-of_Keeps (Keeps-call (λ fs b. sub fs b.0) h)) λ t.
      Hoare-bind (looked_up _ (λ w i. i.now.0.0)) λ f.
        Hoare-fact λ there.
          Hoare-weaken (λ bytes w p. ((f, t, there, p.0), p.1)) (λ w x. x) (Hoare-get_host _)

  within :
      (b : Bool) (bytes : List ℕ)
      → ltb maximum (length bytes) ≡ b
      → Hoare h
          (Copied bytes)
          (when b (raise grown))
          (λ _ w. (length bytes ≤ maximum) × Copied bytes w)
          Begun
  within true bytes e = Hoare-raise _ (forget sub h _)
  within false bytes e = Hoare-pure tt (λ w i. (ground arith, i))

  put_in_place :
      (content : List ℕ)
      → IsRead h input fs0 content
      → length (take (saturating_add maximum 1) content) ≤ maximum
      → (fs : Fs) (f : File) → Before fs
      → (f.bytes ≡ take (saturating_add maximum 1) content) × (f.synced ≡ true)
      → Copy (put target f (erase (temporary_path target) fs))
  put_in_place content (source, t, there, read) l fs f b q = (
    f,
    rw
        (
          find-put target target f (erase (temporary_path target) fs),
          (same_path_iff target target).1 refl,
        )
        refl,
    (q.1, rw q.0 l, (source, t, there, q.0 ∙ (nothing_cut maximum content small l ∙ read))),
  )

  publishing : (mode : ℕ) → Hoare h Begun (publish input target maximum mode) (λ _. Finished) Safe
  unfolding publish
  publishing mode = Hoare-bind (up (create_new_lem sub h _ private_copy)) λ _.
      Hoare-bind (Hoare-weaken (λ bytes w x. x) (λ w x. begun_safe w (forget sub h _ w x)) reading)
        λ content. Hoare-fact λ read. Hoare-bind (up (write_all_lem sub h _ private_copy _)) λ _.
          Hoare-bind (up (within _ _ refl)) λ _. Hoare-fact λ l.
            Hoare-bind (up (set_permissions_lem sub h _ private_copy _ mode)) λ _.
              Hoare-bind (up (sync_all_lem sub h _ private_copy _)) λ _.
                Hoare-bind (up (rename_lem sub h _ target _ Copy (put_in_place content read l)))
                  λ _.
                    Hoare-weaken (λ _ w x. x) finished_safe
                      (Hoare-of_Keeps (Keeps-sync_dir (λ fs c. inr c) h target.dir))

  settling :
      (r : Result IoError (Unit {0}))
      → Hoare h (Returned Finished Safe r) (settle (temporary_path target) r) (λ _. Finished) Safe
  unfolding settle
  settling (ok x) = Hoare-pure tt (λ w i. i)
  settling (err e) =
      Hoare-bind (Hoare-of_Keeps (Keeps-ignore (Keeps-remove_file (λ fs k. k) h _ unseen)))
        (λ _. Hoare-raise e (λ w i. i))

  copying : Hoare h Begun (durable_copy_file input target maximum) (λ _. Finished) Safe
  unfolding durable_copy_file permissions
  copying = Hoare-bind (up (Hoare-of_Keeps (Keeps-create_dir_all sub h target.dir))) λ _.
      Hoare-bind (up (Hoare-of_Keeps (Keeps-ignore (Keeps-remove_file sub h _ private_copy)))) λ _.
        Hoare-bind
          (up (
            Hoare-of_Keeps (
              Keeps-bind (Keeps-call sub h)
                λ _. Keeps-bind (Keeps-lookup_file sub h input) (λ f. Keeps-pure f.mode))))
          λ mode. Hoare-bind (Hoare-attempt (publishing mode)) settling

-- At every point of a durable copy, and after any failure, the target is what it was before, or a
-- flushed copy of everything that a read of the input gives, within the reserved size: never a part of
-- it, and never one that is not on disk yet. When the copy returns, it is the latter. The input is not the
-- temporary name of the target, and the reserved size is below the largest 64-bit number.
pub durable_copy_file-atomic :
    (h : Host) (input target : FilePath) (maximum : ℕ) (w : World)
    → temporary_path target ≢ input
    → maximum + 1 < 0x1_0000_0000_0000_0000
    → w.history ≡ []
    → let (r, w') = durable_copy_file input target maximum h w in
      All (Replaced h input target maximum w.fs) (w'.fs ∷ w'.history)
      × Ends (λ _ w''. Has target (IsCopy h input maximum w.fs) w''.fs) (λ _. Unit) r w'
durable_copy_file-atomic h input target maximum w apart small e =
    let hoare = copying h input target maximum w.fs apart small in
    let start : Begun h input target maximum w.fs apart small w = record {
      held = tt;
      now = (refl, refl);
      ever = rw e tt;
    } in
    let i =
      always
        (Hoare-weaken (λ _. finished_safe h input target maximum w.fs apart small) (λ w x. x) hoare)
        w start in
    ((i.now, i.ever), (Hoare-weaken (λ _ w'' f. f.now) (λ w'' x. tt) hoare).at w start)

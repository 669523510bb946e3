-- ===== src/Files/Hoare.antt =====
-- What the calls that build a file leave at its path when they return. Any other end leaves the
-- invariant that held before the file was begun.
use carbide_os.Prelude.{ℕ, ◌≡◌, refl, ap, ◌++◌, true, none, some, List, []}
use carbide_os.State.{State}
use carbide_os.Host.{Host, World, Fs, File, FilePath, IoError}
use carbide_os.Effects.{Act, get_world, ◌>>=◌}
use carbide_os.Effects.Hoare.{
  Hoare, Hoare-of_Keeps, Hoare-bind, Hoare-raise, Hoare-weaken, Hoare-fact, Hoare-if,
}
use carbide_os.Effects.Keeps.{Keeps-get_host, Keeps-get_world}
use carbide_os.Effects.Invariant.{Inv, Keeps-moment}
use carbide_os.Files.{
  find, put, erase, change, call, lookup_file, create, write_all, sync_all, create_new,
  set_permissions, exists, rename,
}
use carbide_os.Files.Table.{same_path_iff, find-put}
use carbide_os.Files.Keeps.{Ignores, Keeps-call, Keeps-change}

-- The file at `p` is there and meets `Q`.
abbrev pub Has : FilePath → (File → Type 0) → Fs → Type 0
Has p Q fs = (f : File) × (find fs p ≡ some f) × Q f

Has-put : (p : FilePath) (Q : File → Type 0) (f : File) (fs : Fs) → Q f → Has p Q (put p f fs)
Has-put p Q f fs q = (f, rw (find-put p p f fs, (same_path_iff p p).1 refl), q)

some_inj : {A : Type 0} {a b : A} → some a ≡ some b → a ≡ b
some_inj e = cc

module _ (Held : State → Type 0) (Now Ever : Fs → Type 0) where
  -- The invariant with one more fact on the files.
  abbrev pub With : (Fs → Type 0) → World → Type 0
  With Q = Inv Held (λ fs. Now fs × Q fs) Ever

module _ {Held : State → Type 0} {Now Ever : Fs → Type 0} (sub : (fs : Fs) → Now fs → Ever fs)
    (h : Host) where
  pub forget : (Q : Fs → Type 0) (w : World) → With Held Now Ever Q w → Inv Held Now Ever w
  forget Q w i = record { held = i.held; now = i.now.0; ever = i.ever }

  -- A call, then what it is made for.
  after_call :
      {A : Type 0} {R : A → World → Type 0} (Q : Fs → Type 0) (f : ℕ → Act IoError A)
      → ((t : ℕ) → Hoare h (With Held Now Ever Q) (f t) R (Inv Held Now Ever))
      → Hoare h (With Held Now Ever Q) (call >>= f) R (Inv Held Now Ever)
  after_call Q f hf =
      Hoare-bind
        (Hoare-weaken (λ t w i. i) (forget Q) (Hoare-of_Keeps (Keeps-call (λ fs n. sub fs n.0) h)))
        hf

  found_file :
      (p : FilePath) (Z : File → Type 0)
      → Hoare h
          (With Held Now Ever (Has p Z))
          (lookup_file p)
          (λ f w. Z f × Inv Held Now Ever w)
          (Inv Held Now Ever)
  unfolding lookup_file ◌>>=◌ get_world
  found_file p Z = record { at = λ w i. let (f, e, z) = i.now.1 in rw e (z, forget (Has p Z) w i) }

  after_lookup :
      {A : Type 0} {R : A → World → Type 0} (p : FilePath) (Z : File → Type 0)
      (k : File → Act IoError A)
      → ((f : File) → Z f → Hoare h (Inv Held Now Ever) (k f) R (Inv Held Now Ever))
      → Hoare h (With Held Now Ever (Has p Z)) (lookup_file p >>= k) R (Inv Held Now Ever)
  after_lookup p Z k hk = Hoare-bind (found_file p Z) (λ f. Hoare-fact (hk f))

  at_change :
      {E : Type 0} (Now' : Fs → Type 0) (g : Fs → Fs)
      → ((fs : Fs) → Now fs → Now' (g fs))
      → Hoare {E = E} h (Inv Held Now Ever) (change g) (λ _. Inv Held Now' Ever) (Inv Held Now Ever)
  unfolding change
  at_change Now' g k = record {
    at = λ w i. record { held = i.held; now = k w.fs i.now; ever = (sub w.fs i.now, i.ever) };
  }

module _ {Held : State → Type 0} {Now Ever : Fs → Type 0} (sub : (fs : Fs) → Now fs → Ever fs)
    (h : Host) (p : FilePath) where
  -- A change that writes `f` at `p`, where the invariant does not look at `p`.
  at_put :
      (ign : Ignores Now p) (Z : File → Type 0) (f : File)
      → Z f
      → Hoare {E = IoError} h
          (Inv Held Now Ever)
          (change (put p f))
          (λ _. With Held Now Ever (Has p Z))
          (Inv Held Now Ever)
  at_put ign Z f z = at_change sub h _ (put p f) (λ fs n. (ign.at_put fs f n, Has-put p Z f fs z))

  pub create_lem :
      Ignores Now p
      → Hoare h
          (Inv Held Now Ever)
          (create p)
          (λ _. With Held Now Ever (Has p (λ f. f.bytes ≡ [])))
          (Inv Held Now Ever)
  unfolding create
  create_lem ign =
      Hoare-bind (Hoare-of_Keeps (Keeps-call sub h)) (λ _. at_put ign (λ f. f.bytes ≡ []) _ refl)

  pub write_all_lem :
      Ignores Now p
      → (bytes : List ℕ)
      → Hoare h
          (With Held Now Ever (Has p (λ f. f.bytes ≡ [])))
          (write_all p bytes)
          (λ _. With Held Now Ever (Has p (λ f. f.bytes ≡ bytes)))
          (Inv Held Now Ever)
  unfolding write_all
  write_all_lem ign bytes =
      Hoare-bind (Hoare-weaken (λ t w i. i) (forget sub h _) (Hoare-of_Keeps Keeps-moment)) λ t.
        after_lookup sub h p _ _ λ f e. Hoare-bind (Hoare-of_Keeps (Keeps-get_host _)) (elim [
          | none ↦
              Hoare-bind (Hoare-of_Keeps (Keeps-get_host _))
                (λ room. at_put ign _ _ (ap (λ (b : List ℕ). b ++ bytes) e))
          | some x ↦ Hoare-bind (Hoare-of_Keeps (Keeps-get_host _)) (λ room.
              Hoare-bind (Hoare-of_Keeps (Keeps-change sub h _ (λ fs. ign.at_put fs _)))
                (λ _. Hoare-raise x (λ w i. i)))
        ])

  pub sync_all_lem :
      Ignores Now p
      → (bytes : List ℕ)
      → Hoare h
          (With Held Now Ever (Has p (λ f. f.bytes ≡ bytes)))
          (sync_all p)
          (λ _. With Held Now Ever (Has p (λ f. (f.bytes ≡ bytes) × (f.synced ≡ true))))
          (Inv Held Now Ever)
  unfolding sync_all
  sync_all_lem ign bytes =
      after_call sub h _ _ λ t. after_lookup sub h p _ _ (λ f e. at_put ign _ _ (e, refl))

  pub rename_lem :
      (q : FilePath) (Z : File → Type 0) (Now' : Fs → Type 0)
      → ((fs : Fs) (f : File) → Now fs → Z f → Now' (put q f (erase p fs)))
      → Hoare h
          (With Held Now Ever (Has p Z))
          (rename p q)
          (λ _. Inv Held Now' Ever)
          (Inv Held Now Ever)
  unfolding rename
  rename_lem q Z Now' k =
      after_call sub h _ _
        λ t. after_lookup sub h p Z _ (λ f z. at_change sub h Now' _ (λ fs n. k fs f n z))

  pub create_new_lem :
      Ignores Now p
      → Hoare h
          (Inv Held Now Ever)
          (create_new p)
          (λ _. With Held Now Ever (Has p (λ f. f.bytes ≡ [])))
          (Inv Held Now Ever)
  unfolding create_new exists
  create_new_lem ign = Hoare-bind (Hoare-of_Keeps (Keeps-call sub h)) λ _.
      Hoare-bind (Hoare-of_Keeps (Keeps-get_world _)) (λ present.
        Hoare-if present (Hoare-raise _ (λ w i. i)) (at_put ign (λ f. f.bytes ≡ []) _ refl))

  pub set_permissions_lem :
      Ignores Now p
      → (bytes : List ℕ) (mode : ℕ)
      → Hoare h
          (With Held Now Ever (Has p (λ f. f.bytes ≡ bytes)))
          (set_permissions p mode)
          (λ _. With Held Now Ever (Has p (λ f. f.bytes ≡ bytes)))
          (Inv Held Now Ever)
  unfolding set_permissions
  set_permissions_lem ign bytes mode =
      after_call sub h _ _ λ t. after_lookup sub h p _ _ (λ f e. at_put ign _ _ e)

-- ===== src/Ops/Verified.antt =====
-- The check of every extension before a base image is selected (agent/src/ops.rs, `verify_extensions_for`).
use carbide_os.Prelude.{
  ℕ, ◌+◌, ◌≡◌, refl, sym, ap, ◌∙◌, Bool, true, false, not, is_some, List, [], ◌∷◌, All,
  if◌then◌else◌,
}
use carbide_os.Text.{Text, txt, same, before}
use carbide_os.Text.Laws.{same_sound}
use carbide_os.Host.{Host, World, Fs, FilePath, Output, IoError, Result, ok, err}
use carbide_os.Effects.{get_host, get_world, halt, blocked, lift, moment, raise, when, ◌>>=◌}
use carbide_os.Effects.Hoare.{
  Hoare, Ends, Hoare-bind, Hoare-pure, Hoare-fact, Hoare-map_err, Hoare-weaken,
}
use carbide_os.Files.{find, exists}
use carbide_os.System.Slots.{scoped_active_path}
use carbide_os.System.Prune.{insert_sorted, sort}
use carbide_os.System.Command.{
  Finished, finished, answered, run, capture, succeeded, dissect, policy_flag,
}
use carbide_os.System.Release.{
  ImageRelease, no_release, parse_sysext_release, shown, validate_image, image_release,
}
use carbide_os.Ops.Base.{dedup_after, dedup, is_compatible, verify_image, verify_names}

-- What an answer of `systemd-dissect` about the release says.
abbrev pub declared : Host → Output → ImageRelease
declared h output = if succeeded output then parse_sysext_release h output.stdout else no_release

-- The image of `name` for that base is there, its signature was found good, and it says that it is the
-- image of that extension for that base.
pub record IsVerified (h : Host) (fs : Fs) (pending name : Text) : Type 0 where
  pub present : is_some (find fs (scoped_active_path name pending)) ≡ true
  pub checked_at : ℕ
  pub check : Output
  pub checked :
      h.exec checked_at dissect
        (txt "--validate" ∷ policy_flag ∷ shown (scoped_active_path name pending) ∷ [])
        fs
      ≡ ok check
  pub trusted : succeeded check ≡ true
  pub read_at : ℕ
  pub answer : Output
  pub read :
      h.exec read_at dissect (txt "--json=short" ∷ shown (scoped_active_path name pending) ∷ []) fs
      ≡ ok answer
  pub fits : is_compatible name pending (declared h answer) ≡ true

module _ (h : Host) (fs0 : Fs) where
  -- The files are those of `fs0`.
  abbrev Same : World → Type 0
  Same w = w.fs ≡ fs0

  abbrev Any : World → Type 0
  Any _ = Unit

  -- What a program answered, at some moment.
  record Answered (program : Text) (args : List Text) (output : Output) : Type 0 where
    moment_of : ℕ
    said : h.exec moment_of program args fs0 ≡ ok output

  lift_lem :
      (program : Text) (args : List Text) (t : ℕ) (r : Result IoError Output) (w : World)
      → h.exec t program args fs0 ≡ r
      → Same w
      → Ends (λ o w'. Answered program args o × Same w') Any (lift r h w).0 (lift r h w).1
  lift_lem program args t (ok o) w e k = (record { moment_of = t; said = e }, k)
  lift_lem program args t (err f) w e k = tt

  answered_lem :
      (b : Bool) (t : ℕ) (program : Text) (args : List Text)
      → Hoare h Same
          (if b then halt blocked else answered t program args)
          (λ o w. Answered program args o × Same w)
          Any
  unfolding get_world get_host ◌>>=◌
  answered_lem true t program args = record { at = λ w e. tt }
  answered_lem false t program args = record {
    at = λ w e.
        lift_lem program args t (h.exec t program args w.fs) w (ap (h.exec t program args) (sym e))
          e;
  }

  run_lem :
      (program : Text) (args : List Text)
      → Hoare h Same (run program args) (λ o w. Answered program args o × Same w) Any
  unfolding run moment get_world get_host ◌>>=◌
  run_lem program args = record {
    at = λ w e.
        (answered_lem (h.blocks w.tick program args) w.tick program args).at
          (record w { tick = w.tick + 1 }) e;
  }

  capture_lem :
      (program : Text) (args : List Text)
      → Hoare h Same
          (capture program args)
          (λ v w.
            ((o : Output) × (Answered program args o × (v ≡ finished program args o))) × Same w)
          Any
  unfolding capture
  capture_lem program args =
      Hoare-bind (run_lem program args) λ o. Hoare-pure _ (λ w k. ((o, (k.0, refl)), k.1))

  exists_lem :
      {E : Type 0} (p : FilePath)
      → Hoare {E = E} h Same (exists p) (λ b w. (b ≡ is_some (find fs0 p)) × Same w) Any
  unfolding exists get_world
  exists_lem p = record { at = λ w e. (ap (λ fs. is_some (find fs p)) e, e) }

  unless_lem :
      {E : Type 0} (b : Bool) (e : E)
      → Hoare h Same (when (not b) (raise e)) (λ _ w. (b ≡ true) × Same w) Any
  unless_lem true e = record { at = λ w k. (refl, k) }
  unless_lem false e = record { at = λ w k. tt }

  release_lem :
      (p : FilePath)
      → Hoare h Same
          (image_release p)
          (λ v w.
            ((o : Output) × (Answered dissect (txt "--json=short" ∷ shown p ∷ []) o
                × (v ≡ declared h o)))
            × Same w)
          Any
  unfolding image_release get_host finished
  release_lem p = Hoare-bind (capture_lem dissect _) λ v. record {
    at = λ w k.
        let (o, (a, e)) = k.0 in
        (
          (
            o,
            (
              a,
              ap (λ (f : Finished). if f.ok then parse_sysext_release h f.stdout else no_release) e,
            ),
          ),
          k.1,
        );
  }

  -- What a check that returned has found.
  verify_image_lem :
      (pending name : Text)
      → Hoare h Same
          (verify_image pending name (scoped_active_path name pending))
          (λ _ w. IsVerified h fs0 pending name × Same w)
          Any
  unfolding verify_image validate_image finished
  verify_image_lem pending name = Hoare-bind (exists_lem _) λ present. Hoare-fact λ is_present.
      Hoare-bind (unless_lem present _) λ _. Hoare-fact λ was_present.
        Hoare-bind (Hoare-map_err _ (capture_lem dissect _)) λ v. Hoare-fact λ (o, (a, e)).
          Hoare-bind (unless_lem v.ok _) λ _. Hoare-fact λ was_ok.
            Hoare-bind (Hoare-map_err _ (release_lem _)) λ r. Hoare-fact λ (o', (a', e')).
              Hoare-weaken
                (λ _ w k. (
                  record {
                    present = sym is_present ∙ was_present;
                    checked_at = a.moment_of;
                    check = o;
                    checked = a.said;
                    trusted = sym (ap Finished.ok e) ∙ was_ok;
                    read_at = a'.moment_of;
                    answer = o';
                    read = a'.said;
                    fits = ap (is_compatible name pending) (sym e') ∙ k.0;
                  },
                  k.1,
                ))
                (λ w k. k) (unless_lem (is_compatible name pending r) _)

  verify_names_lem :
      (pending : Text) (names : List Text)
      → Hoare h Same
          (verify_names pending names)
          (λ _ w. All (IsVerified h fs0 pending) names × Same w)
          Any
  unfolding verify_names
  verify_names_lem pending [] = Hoare-pure tt (λ w k. (tt, k))
  verify_names_lem pending (name ∷ names) = Hoare-bind (verify_image_lem pending name) λ _.
      Hoare-fact
        λ v. Hoare-weaken (λ _ w k. ((v, k.0), k.1)) (λ w k. k) (verify_names_lem pending names)

-- Neither sorting nor leaving out what stands twice loses a name.
module _ (P : Text → Type 0) where
  All-if_insert :
      (b : Bool) (a c : Text) (l l' : List Text)
      → (All P l → P a × All P l')
      → All P (if b then c ∷ l else a ∷ c ∷ l')
      → P a × (P c × All P l')
  All-if_insert true a c l l' k p = ((k p.1).0, (p.0, (k p.1).1))
  All-if_insert false a c l l' k p = p

  All-insert_sorted : (a : Text) (l : List Text) → All P (insert_sorted a l) → P a × All P l
  unfolding insert_sorted
  All-insert_sorted a [] p = p
  All-insert_sorted a (c ∷ l) p = All-if_insert (before c a) a c _ l (All-insert_sorted a l) p

  All-sort : (l : List Text) → All P (sort l) → All P l
  unfolding sort
  All-sort [] p = tt
  All-sort (a ∷ l) p = let q = All-insert_sorted a (sort l) p in (q.0, All-sort l q.1)

  All-if_dedup :
      (b : Bool) (last name : Text) (l l' m : List Text)
      → (b ≡ true → last ≡ name)
      → P last
      → (All P l → All P m)
      → (P name → All P l' → All P m)
      → All P (if b then l else name ∷ l')
      → P name × All P m
  All-if_dedup true last name l l' m e q k k' p = (rw (sym (e refl)) q, k p)
  All-if_dedup false last name l l' m e q k k' p = (p.0, k' p.0 p.1)

  All-dedup_after : (last : Text) (l : List Text) → P last → All P (dedup_after last l) → All P l
  unfolding dedup_after
  All-dedup_after last [] q p = tt
  All-dedup_after last (name ∷ l) q p =
      All-if_dedup (same last name) last name (dedup_after last l) (dedup_after name l) l
        (same_sound last name) q (All-dedup_after last l q) (All-dedup_after name l) p

  All-dedup : (l : List Text) → All P (dedup l) → All P l
  unfolding dedup
  All-dedup [] p = tt
  All-dedup (name ∷ l) p = (p.0, All-dedup_after name l p.0 p.1)

-- Where the check of the extensions returns, every name that was collected, whichever list it came from
-- and however often it stood there, has an image for the pending base that is there, that systemd-dissect
-- found signed, and that declares that extension and that base; and the check has changed no file.
pub verify_names-IsVerified :
    (h : Host) (pending : Text) (names : List Text) (w : World)
    → let (r, w') = verify_names pending (dedup (sort names)) h w in
      Ends (λ _ w''. All (IsVerified h w.fs pending) names × (w''.fs ≡ w.fs)) (λ _. Unit) r w'
verify_names-IsVerified h pending names w =
    (Hoare-weaken
        (λ _ w' k. (
          All-sort (IsVerified h w.fs pending) names
              (All-dedup (IsVerified h w.fs pending) (sort names) k.0),
          k.1,
        ))
        (λ w' k. tt) (verify_names_lem h w.fs pending (dedup (sort names)))).at
      w refl

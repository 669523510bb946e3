-- ===== src/Ops/Untouched.antt =====
-- Staging leaves what runs alone (agent/src/ops.rs, `stage_extension`).
use carbide_os.Prelude.{◌≡◌, refl, ◌∙◌, ℕ, Option, none, some, List, [], ◌∷◌, All, ◌++◌}
use carbide_os.Text.{Text, txt}
use carbide_os.Host.{Host, World, Fs, FilePath, Result, ok, err}
use carbide_os.Effects.Keeps.{
  Keeps-bind, Keeps-pure, Keeps-halt, Keeps-raise, Keeps-raise_with, Keeps-get_host, Keeps-attempt,
  Keeps-when, Keeps-if, Keeps-map_err, Keeps-ignore, Keeps-on_error,
}
use carbide_os.Effects.Invariant.{Keeps-moment}
use carbide_os.Files.{path, find}
use carbide_os.Files.Keeps.{Keeps-call, Keeps-create_dir_all, Keeps-lookup_file, Keeps-change}
use carbide_os.System.Slots.{extensions_dir, staging_dir, os_version}
use carbide_os.System.Slots.Mergeable.{mergeable}
use carbide_os.System.Command.{
  Finished, take_effect, run_mutating, capture_mutating, acquire_component, list_component,
  sysupdate,
}
use carbide_os.System.Release.{sha256, first_word, components}
use carbide_os.System.Base.{or_raise}
use carbide_os.Lifecycle.Marks.{Agrees}
use carbide_os.Lifecycle.Frame.Units.{Keeps-answered, Keeps-capture}
use carbide_os.Ops.Keeps.{off_staging, Keeps-remove, Keeps-copy, Keeps-clear_staged}
use carbide_os.Ops.Running.{
  K, K-require_space, K-exists, K-file_len, K-rollback_room, K-validate_and_place,
}
use carbide_os.Ops.Place.{validate_and_place}
use carbide_os.Ops.Acquire.{
  versions_or_fail, revision_or_fail, resolve_revision, selected_version, place_acquired, fetch,
  acquire,
}
use carbide_os.Ops.Supply.{
  Source, acquired, supplied, running_or_fail, target_base, check_digest, copy_in, take_supplied,
  supplied_image, base_or_running, from_source, stage_extension,
}

-- systemd-sysupdate writes into the staging directory, as its configuration says: it leaves the files
-- of the directory that is merged alone.
abbrev pub FetchesAside : Host → Type 0
FetchesAside h =
    (t : ℕ) (args : List Text) (fs : Fs) (p : FilePath)
    → p.dir ≡ extensions_dir
    → find (h.effect t sysupdate args fs) p ≡ find fs p

module _ (h : Host) (aside : FetchesAside h) (fs0 : Fs) (m : Text) where
  K-fetching : (args : List Text) → K h fs0 m (capture_mutating sysupdate args)
  unfolding capture_mutating run_mutating
  K-fetching args =
      let affected : (t : ℕ) → K h fs0 m (take_effect t sysupdate args) = λ t. record {
        at =
            (Keeps-change (λ fs k. k) h (h.effect t sysupdate args)
              (λ fs' k. aside t args fs' (mergeable m) refl ∙ k)).at;
      } in
      Keeps-bind
        (Keeps-bind Keeps-moment λ t. Keeps-bind (Keeps-get_host _) λ stuck.
          Keeps-if _ _ _ (Keeps-bind (affected t) (λ _. Keeps-halt _)) (
            Keeps-bind (Keeps-answered t sysupdate args)
              λ output. Keeps-bind (affected t) (λ _. Keeps-pure output)))
        (λ output. Keeps-pure _)

  K-or_raise : {E A : Type 0} (x : Result E A) → K h fs0 m (or_raise x)
  K-or_raise (ok a) = Keeps-pure a
  K-or_raise (err e) = Keeps-raise e

  K-versions_or_fail :
      (name : Text) (f : Finished) (o : Option (List Text)) → K h fs0 m (versions_or_fail name f o)
  K-versions_or_fail name f none = Keeps-raise _
  K-versions_or_fail name f (some l) = Keeps-pure l

  K-revision_or_fail :
      (name base : Text) (f : Finished) (o : Option Text)
      → K h fs0 m (revision_or_fail name base f o)
  K-revision_or_fail name base f none = Keeps-raise _
  K-revision_or_fail name base f (some v) = Keeps-pure v

  K-selected_version :
      (name base : Text) (v : Option Text) → K h fs0 m (selected_version name base v)
  unfolding resolve_revision list_component
  K-selected_version name base (some v) = Keeps-pure v
  K-selected_version name base none = Keeps-bind (Keeps-map_err _ (Keeps-capture _ _)) λ listed.
      Keeps-bind (Keeps-when _ _ (Keeps-raise _)) λ _. Keeps-bind (Keeps-get_host _) λ parsed.
        Keeps-bind (K-versions_or_fail name listed parsed)
          (λ l. K-revision_or_fail name base listed _)

  K-components : {E : Type 0} → K h fs0 m {E = E} components
  unfolding components
  K-components = Keeps-bind (Keeps-attempt (Keeps-capture _ _)) (λ x. Keeps-pure _)

  K-first_word : (l : List Text) → K h fs0 m (first_word l)
  K-first_word [] = Keeps-raise _
  K-first_word (w ∷ l) = Keeps-pure w

  K-sha256 : (p : FilePath) → K h fs0 m (sha256 p)
  unfolding sha256
  K-sha256 p = Keeps-bind (Keeps-capture _ _) (λ f. Keeps-if _ _ _ (K-first_word _) (Keeps-raise _))

  K-check_digest : (file digest : Text) → K h fs0 m (check_digest (path staging_dir file) digest)
  unfolding check_digest
  K-check_digest file digest =
      let gone = Keeps-ignore (Keeps-remove h fs0 m _ (off_staging h fs0 m file)) in
      Keeps-bind
        (Keeps-on_error (Keeps-map_err _ (K-sha256 _)) (λ e. Keeps-bind gone (λ _. Keeps-raise e)))
        (λ actual. Keeps-when _ _ (Keeps-bind gone (λ _. Keeps-raise _)))

  module _ (name os : Text) (runs : os_version h ≡ some os)
      (own : (base : Text) → m ≡ name ++ (txt "_" ++ base) → base ≡ os) where
    K-placing :
        (requested : Option Text) (file : Text)
        → K h fs0 m (validate_and_place name requested (path staging_dir file))
    K-placing = K-validate_and_place h fs0 m name os runs own

    K-place_acquired :
        (base v file : Text) (f : Finished)
        → K h fs0 m (place_acquired name base v f (path staging_dir file))
    unfolding place_acquired
    K-place_acquired base v file f = Keeps-bind (K-exists h fs0 m _) λ present.
        Keeps-bind (Keeps-when _ _ (Keeps-raise _)) λ _.
          Keeps-bind (Keeps-map_err _ (K-file_len h fs0 m _))
            λ n. Keeps-bind (Keeps-when _ _ (Keeps-raise_with _)) (λ _. K-placing (some base) file)

    K-fetch : (base v : Text) → K h fs0 m (fetch name base v)
    unfolding fetch acquire_component
    K-fetch base v =
        let cleared = Keeps-ignore (Keeps-clear_staged h fs0 m name) in
        Keeps-bind (Keeps-map_err _ (K-fetching _)) λ f.
          Keeps-bind (Keeps-when _ _ (Keeps-bind cleared (λ _. Keeps-raise _))) λ _.
            Keeps-bind (Keeps-attempt (K-place_acquired base v _ f)) λ outcome.
              Keeps-bind cleared λ _. Keeps-bind (K-or_raise outcome) (λ placed. Keeps-pure _)

    K-acquire : (base : Text) (v : Option Text) → K h fs0 m (acquire name base v)
    unfolding acquire
    K-acquire base v = Keeps-bind (Keeps-when _ _ (Keeps-raise_with _)) λ _.
        Keeps-bind K-components λ known. Keeps-bind (Keeps-when _ _ (Keeps-raise _)) λ _.
          Keeps-bind (Keeps-map_err _ (Keeps-create_dir_all (λ fs k. k) h _)) λ _.
            Keeps-bind (K-require_space h fs0 m _)
              λ _. Keeps-bind (K-selected_version name base v) (λ selected. K-fetch base selected)

    K-take_supplied :
        (base : Option Text) (source : FilePath) (digest : Text)
        → K h fs0 m (take_supplied name base source digest)
    unfolding take_supplied copy_in
    K-take_supplied base source digest =
        let off = off_staging h fs0 m (name ++ txt ".raw") in
        Keeps-bind (K-exists h fs0 m source) λ present.
          Keeps-bind (Keeps-when _ _ (Keeps-raise _)) λ _.
            Keeps-bind
              (Keeps-map_err _ (
                Keeps-bind (Keeps-call (λ fs k. k) h)
                  (λ t. Keeps-bind (Keeps-lookup_file (λ fs k. k) h source) (λ f. Keeps-pure tt))))
              λ _. Keeps-bind (Keeps-map_err _ (K-file_len h fs0 m source)) λ n.
                Keeps-bind (Keeps-get_host _) λ running.
                  Keeps-bind (K-rollback_room h fs0 m name running) λ n'.
                    Keeps-bind (K-require_space h fs0 m _) λ _.
                      Keeps-bind
                        (Keeps-map_err _ (
                          Keeps-bind (Keeps-create_dir_all (λ fs k. k) h _)
                            (λ _. Keeps-copy h fs0 m source _ n off)))
                        λ _. Keeps-bind (K-check_digest _ digest) λ _.
                          Keeps-bind (Keeps-attempt (K-placing base _)) λ outcome.
                            Keeps-bind (Keeps-ignore (Keeps-remove h fs0 m _ off))
                              λ _. Keeps-bind (K-or_raise outcome) (λ placed. Keeps-pure _)

    K-running_or_fail : (b : Option Text) → K h fs0 m (running_or_fail b)
    K-running_or_fail none = Keeps-raise _
    K-running_or_fail (some b) = Keeps-pure b

    K-base_or_running : (b : Option Text) → K h fs0 m (base_or_running b)
    unfolding target_base
    K-base_or_running none = Keeps-bind (Keeps-get_host _) K-running_or_fail
    K-base_or_running (some b) = Keeps-pure b

    K-from_source : (base : Option Text) (s : Source) → K h fs0 m (from_source name base s)
    unfolding supplied_image
    K-from_source base (acquired v) = Keeps-bind (K-base_or_running base) (λ b. K-acquire b v)
    K-from_source base (supplied p digest) =
        Keeps-if _ _ _ (K-take_supplied base _ digest) (Keeps-raise _)

    K-stage_extension : (base : Option Text) (s : Source) → K h fs0 m (stage_extension name base s)
    unfolding stage_extension
    K-stage_extension base s = Keeps-if _ _ _ (K-from_source base s) (Keeps-raise_with _)

-- Where systemd-sysupdate writes into the staging directory only, and the running base is known, staging
-- an extension, from the feed or from a file, for the running base or another one, leaves every image
-- that gets merged, under the scoped name of its extension or the unscoped one, as it was, at every point
-- on the way and however it ends. The one exception is an image whose name is that of the extension
-- being staged, an underscore and a base that does not run.
pub stage_extension-running :
    (h : Host)
    → FetchesAside h
    → (name : Text) (base : Option Text) (s : Source) (m os : Text) (w : World)
    → os_version h ≡ some os
    → ((other : Text) → m ≡ name ++ (txt "_" ++ other) → other ≡ os)
    → w.history ≡ []
    → let (r, w') = stage_extension name base s h w in
      All (Agrees w.fs (mergeable m)) (w'.fs ∷ w'.history)
stage_extension-running h aside name base s m os w runs own e =
    let i =
      (K-stage_extension h aside w.fs m name os runs own base s).at w
        (record { held = tt; now = refl; ever = rw e tt }) in
    (i.now, i.ever)

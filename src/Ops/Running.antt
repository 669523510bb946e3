-- ===== src/Ops/Running.antt =====
-- Placing an image leaves what runs alone (agent/src/ops.rs, `validate_and_place`).
use carbide_os.Prelude.{
  ℕ, ◌≡◌, refl, sym, ap, ◌≢◌, ◌++◌, arith, Bool, true, false, Option, none, some,
}
use carbide_os.Text.{Text, txt}
use carbide_os.Text.Laws.{same_refl}
use carbide_os.Host.{
  Host, Fs, FilePath, IoError, ErrorKind, not_found, invalid_data, other_kind, Result, ok, err,
}
use carbide_os.Effects.{Act, get_host, ◌>>=◌}
use carbide_os.Effects.Keeps.{
  Keeps, Keeps-bind, Keeps-pure, Keeps-raise, Keeps-raise_with, Keeps-get_host, Keeps-attempt,
  Keeps-when, Keeps-if, Keeps-map_err, Keeps-ignore, Keeps-on_error, Keeps-get_entry,
}
use carbide_os.Effects.Total.{Yields}
use carbide_os.Effects.Endings.{Keeps-then}
use carbide_os.Effects.Invariant.{Keeps-modify_entry}
use carbide_os.Files.{path, exists, file_len}
use carbide_os.Files.Keeps.{Ignores, Keeps-exists, Keeps-file_len}
use carbide_os.System.Slots.{staging_dir, os_version}
use carbide_os.System.Slots.Mergeable.{mergeable}
use carbide_os.System.Release.{ImageRelease, validate_image, image_release}
use carbide_os.Lifecycle.Marks.{Agrees}
use carbide_os.Lifecycle.Frame.Units.{Keeps-capture}
use carbide_os.Ops.Apart.{slot_name}
use carbide_os.Ops.Keeps.{
  Steady, off_candidate, off_staging, off_images, Keeps-load, Keeps-store, Keeps-available_bytes,
  Keeps-active_path, Keeps-mode, Keeps-move, Keeps-remove, Keeps-prune_candidates,
}
use carbide_os.Ops.Space.{
  require_space, absent_is_empty, size_or_none, is_retained, missing_rollback_size,
}
use carbide_os.Ops.Place.{
  trust, base_or_fail, declared_base, target_of, rollback_room, record_staged, place,
  validate_and_place, is_text,
}

os_known : {h : Host} {E A : Type 0} (f : Host → A) → Yields {E = E} h (λ a. a ≡ f h) (get_host f)
unfolding get_host
os_known f = record { at = λ w. refl }

module _ (h : Host) (fs0 : Fs) (m : Text) where
  abbrev pub K : {E A : Type 0} → Act E A → Type 0
  K a = Keeps h (Steady h fs0 m) a

  pub K-require_space : (n : ℕ) → K (require_space n)
  unfolding require_space
  K-require_space n =
      Keeps-bind (Keeps-map_err _ (Keeps-available_bytes h fs0 m))
        (λ a. Keeps-if _ _ _ (Keeps-pure tt) (Keeps-raise_with _))

  K-absent_is_empty : (k : ErrorKind) (e : IoError) → K (absent_is_empty k e)
  K-absent_is_empty not_found e = Keeps-pure 0
  K-absent_is_empty invalid_data e = Keeps-raise e
  K-absent_is_empty other_kind e = Keeps-raise e

  K-size_or_none : (x : Result IoError ℕ) → K (size_or_none x)
  K-size_or_none (ok n) = Keeps-pure n
  K-size_or_none (err e) = K-absent_is_empty e.kind e

  pub K-exists : {E : Type 0} (p : FilePath) → K {E = E} (exists p)
  K-exists p = Keeps-exists (λ fs k. k) h p

  pub K-file_len : (p : FilePath) → K (file_len p)
  K-file_len p = Keeps-file_len (λ fs k. k) h p

  K-is_retained : {E : Type 0} (name : Text) (v : Option Text) → K {E = E} (is_retained name v)
  unfolding is_retained
  K-is_retained name none = Keeps-pure false
  K-is_retained name (some v) = Keeps-bind (Keeps-get_host _) (λ os'. K-exists _)

  K-missing_rollback_size : (name : Text) → K (missing_rollback_size name)
  unfolding missing_rollback_size
  K-missing_rollback_size name = Keeps-bind (Keeps-load h fs0 m) λ _.
      Keeps-bind (Keeps-get_entry name) λ e. Keeps-bind (K-is_retained name _) λ retained.
        Keeps-if _ _ _ (Keeps-pure 0) (
          Keeps-bind (Keeps-active_path h fs0 m name)
            λ slot. Keeps-bind (Keeps-attempt (K-file_len slot)) K-size_or_none)

  pub K-rollback_room : (name : Text) (b : Bool) → K (rollback_room name b)
  unfolding rollback_room
  K-rollback_room name true = Keeps-map_err _ (K-missing_rollback_size name)
  K-rollback_room name false = Keeps-pure 0

  K-trust : (name : Text) (p : FilePath) → K (trust name p)
  unfolding trust validate_image
  K-trust name p =
      Keeps-bind (Keeps-map_err _ (Keeps-capture _ _)) (λ v. Keeps-when _ _ (Keeps-raise _))

  K-image_release : (p : FilePath) → K (image_release p)
  unfolding image_release
  K-image_release p = Keeps-bind (Keeps-capture _ _) (λ f. Keeps-get_host _)

  K-base_or_fail : (name : Text) (b : Option Text) → K (base_or_fail name b)
  K-base_or_fail name none = Keeps-raise _
  K-base_or_fail name (some b) = Keeps-pure b

  K-declared_base : (name : Text) (b : Option Text) (r : ImageRelease) → K (declared_base name b r)
  unfolding declared_base
  K-declared_base name b r = Keeps-bind (Keeps-when _ _ (Keeps-raise_with _)) λ _.
      Keeps-bind (K-base_or_fail name _)
        λ base. Keeps-bind (Keeps-when _ _ (Keeps-raise _)) (λ _. Keeps-pure base)

  module _ (q : FilePath) (off : Ignores (Agrees fs0 (mergeable m)) q) where
    K-record_staged : (name : Text) (v : Option Text) → K (record_staged name q v)
    unfolding record_staged
    K-record_staged name none = Keeps-pure tt
    K-record_staged name (some v) = Keeps-bind (Keeps-map_err _ (Keeps-load h fs0 m)) λ _.
        Keeps-bind (Keeps-modify_entry name _ (λ s k. tt)) λ _.
          Keeps-on_error (Keeps-store h fs0 m)
            (λ e. Keeps-bind (Keeps-ignore (Keeps-remove h fs0 m q off)) (λ _. Keeps-raise _))

    K-place :
        (name file base : Text) (v : Option Text) (b : Bool)
        → K (place name (path staging_dir file) base v b q)
    unfolding place
    K-place name file base v b = Keeps-bind (Keeps-map_err _ (K-file_len _)) λ n.
        Keeps-bind (K-rollback_room name b) λ n'. Keeps-bind (K-require_space _) λ _.
          Keeps-bind (Keeps-when _ _ (Keeps-map_err _ (Keeps-prune_candidates h fs0 m name none)))
            λ _.
              Keeps-bind (Keeps-map_err _ (Keeps-mode h fs0 m _ _ (off_staging h fs0 m file))) λ _.
                Keeps-bind (Keeps-map_err _ (Keeps-move h fs0 m _ q (off_staging h fs0 m file) off))
                  λ _. Keeps-bind (Keeps-when _ _ (K-record_staged name v)) (λ _. Keeps-pure _)

  K-target_of : (name base : Text) (v : Option Text) (b : Bool) → K (target_of name base v b)
  unfolding target_of
  K-target_of name base none true = Keeps-raise _
  K-target_of name base (some v) true = Keeps-bind (Keeps-get_host _) (λ os'. Keeps-pure _)
  K-target_of name base v false = Keeps-pure _

  module _ (name os : Text) (runs : os_version h ≡ some os)
      (own : (base : Text) → m ≡ name ++ (txt "_" ++ base) → base ≡ os) where
    another_base : (base : Text) → false ≡ is_text (os_version h) base → os ≢ base
    unfolding is_text
    another_base base e k = ground (arith, runs, same_refl base)

    Yields-target :
        (base : Text) (v : Option Text) (b : Bool)
        → b ≡ is_text (os_version h) base
        → Yields h (Ignores (Agrees fs0 (mergeable m))) (target_of name base v b)
    unfolding target_of get_host ◌>>=◌
    Yields-target base none true e = record { at = λ w. tt }
    Yields-target base (some v) true e = record { at = λ w. off_candidate h fs0 m _ name v }
    Yields-target base v false e = record {
      at = λ w.
          off_images h fs0 m name base
            (λ k. another_base base e (sym (own base (slot_name name m base k))));
    }

    placed_for :
        (file base : Text) (v running : Option Text)
        → running ≡ os_version h
        → K (
            target_of name base v (is_text running base)
            >>= place name (path staging_dir file) base v (is_text running base))
    placed_for file base v running e =
        Keeps-then (Yields-target base v _ (ap (λ o. is_text o base) e)) (K-target_of name base v _)
          (λ q off. K-place q off name file base v _)

    pub K-validate_and_place :
        (requested : Option Text) (file : Text)
        → K (validate_and_place name requested (path staging_dir file))
    unfolding validate_and_place
    K-validate_and_place requested file = Keeps-bind (K-trust name _) λ _.
        Keeps-bind (Keeps-map_err _ (K-image_release _)) λ r.
          Keeps-bind (K-declared_base name requested r)
            λ base. Keeps-then (os_known os_version) (Keeps-get_host _) (placed_for file base _)

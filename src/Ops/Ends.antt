-- ===== src/Ops/Ends.antt =====
-- Staging ends (agent/src/ops.rs).
use carbide_os.Prelude.{ℕ, Bool, true, false, Option, none, some, List}
use carbide_os.Text.{Text}
use carbide_os.Host.{
  Host, FilePath, IoError, ErrorKind, not_found, invalid_data, other_kind, Result, ok, err,
}
use carbide_os.Effects.Total.{Total, total_rules, Total-pure, Total-raise, Total-map_err}
use carbide_os.Files.Total.{file_total_rules, Total-exists, Total-file_len, Total-create_dir_all}
use carbide_os.System.Total.{
  Total-load, Total-store, Total-available_bytes, Total-active_path, Total-prune_candidates,
  Total-durable_remove, Total-durable_copy_file,
}
use carbide_os.System.Queries.{
  Total-validate_image, Total-image_release, Total-durable_mode, Total-durable_move,
  Total-list_component, Total-acquire_component, Total-components, Total-clear_staged, Total-sha256,
  Total-or_raise,
}
use carbide_os.Ops.Space.{
  require_space, absent_is_empty, size_or_none, is_retained, missing_rollback_size,
}
use carbide_os.Ops.Place.{
  trust, base_or_fail, declared_base, candidate_or_fail, target_of, rollback_room, record_staged,
  place, validate_and_place,
}
use carbide_os.System.Release.{ImageRelease}
use carbide_os.System.Command.{Finished}
use carbide_os.Ops.Acquire.{
  versions_or_fail, revision_or_fail, resolve_revision, selected_version, place_acquired, fetch,
  acquire,
}
use carbide_os.Ops.Supply.{
  Source, acquired, supplied, running_or_fail, target_base, open_source, check_digest, copy_in,
  take_supplied, supplied_image, base_or_running, from_source, stage_extension,
}

module _ {h : Host} where
  Total-require_space : (n : ℕ) → Total h (require_space n)
  unfolding require_space
  Total-require_space n = search (total_rules, Total-available_bytes)

  Total-absent_is_empty : (k : ErrorKind) (e : IoError) → Total h (absent_is_empty k e)
  Total-absent_is_empty not_found e = search (total_rules)
  Total-absent_is_empty invalid_data e = search (total_rules)
  Total-absent_is_empty other_kind e = search (total_rules)

  Total-size_or_none : (x : Result IoError ℕ) → Total h (size_or_none x)
  Total-size_or_none (ok n) = search (total_rules)
  Total-size_or_none (err e) = Total-absent_is_empty e.kind e

  Total-is_retained :
      {E : Type 0} (name : Text) (v : Option Text) → Total {E = E} h (is_retained name v)
  unfolding is_retained
  Total-is_retained name none = search (total_rules)
  Total-is_retained name (some v) = search (file_total_rules)

  Total-missing_rollback_size : (name : Text) → Total h (missing_rollback_size name)
  unfolding missing_rollback_size
  Total-missing_rollback_size name =
      search
        (file_total_rules, Total-load, Total-is_retained, Total-active_path, Total-size_or_none)
        depth 20

  Total-trust : (name : Text) (p : FilePath) → Total h (trust name p)
  unfolding trust
  Total-trust name p = search (total_rules, Total-validate_image)

  Total-base_or_fail : (name : Text) (b : Option Text) → Total h (base_or_fail name b)
  Total-base_or_fail name none = Total-raise _
  Total-base_or_fail name (some b) = Total-pure b

  Total-declared_base :
      (name : Text) (b : Option Text) (r : ImageRelease) → Total h (declared_base name b r)
  unfolding declared_base
  Total-declared_base name b r = search (total_rules, Total-base_or_fail)

  Total-candidate_or_fail : (name : Text) (v : Option Text) → Total h (candidate_or_fail name v)
  Total-candidate_or_fail name none = search (total_rules)
  Total-candidate_or_fail name (some v) = search (total_rules)

  Total-target_of :
      (name base : Text) (v : Option Text) (b : Bool) → Total h (target_of name base v b)
  unfolding target_of
  Total-target_of name base v true = Total-candidate_or_fail name v
  Total-target_of name base v false = Total-pure _

  Total-rollback_room : (name : Text) (b : Bool) → Total h (rollback_room name b)
  unfolding rollback_room
  Total-rollback_room name true = Total-map_err _ (Total-missing_rollback_size name)
  Total-rollback_room name false = Total-pure 0

  Total-record_staged :
      (name : Text) (p : FilePath) (v : Option Text) → Total h (record_staged name p v)
  unfolding record_staged
  Total-record_staged name p none = search (total_rules)
  Total-record_staged name p (some v) =
      search (total_rules, Total-load, Total-store, Total-durable_remove) depth 20

  Total-place :
      (name : Text) (p : FilePath) (base : Text) (v : Option Text) (b : Bool) (q : FilePath)
      → Total h (place name p base v b q)
  unfolding place
  Total-place name p base v b q =
      search
        (
          total_rules, Total-file_len, Total-rollback_room, Total-require_space,
          Total-prune_candidates, Total-durable_mode, Total-durable_move, Total-record_staged,
        )
        depth 40

  pub Total-validate_and_place :
      (name : Text) (b : Option Text) (p : FilePath) → Total h (validate_and_place name b p)
  unfolding validate_and_place
  Total-validate_and_place name b p =
      search
        (
          total_rules, Total-trust, Total-image_release, Total-declared_base, Total-target_of,
          Total-place,
        )
        depth 30

  Total-versions_or_fail :
      (name : Text) (f : Finished) (o : Option (List Text)) → Total h (versions_or_fail name f o)
  Total-versions_or_fail name f none = Total-raise _
  Total-versions_or_fail name f (some l) = Total-pure l

  Total-revision_or_fail :
      (name base : Text) (f : Finished) (o : Option Text) → Total h (revision_or_fail name base f o)
  Total-revision_or_fail name base f none = Total-raise _
  Total-revision_or_fail name base f (some v) = Total-pure v

  Total-selected_version :
      (name base : Text) (v : Option Text) → Total h (selected_version name base v)
  unfolding resolve_revision
  Total-selected_version name base none =
      search (total_rules, Total-list_component, Total-versions_or_fail, Total-revision_or_fail)
        depth 20
  Total-selected_version name base (some v) = Total-pure v

  Total-place_acquired :
      (name base v : Text) (f : Finished) (p : FilePath) → Total h (place_acquired name base v f p)
  unfolding place_acquired
  Total-place_acquired name base v f p =
      search (total_rules, Total-exists, Total-file_len, Total-validate_and_place) depth 20

  Total-fetch : (name base v : Text) → Total h (fetch name base v)
  unfolding fetch
  Total-fetch name base v =
      search
        (
          total_rules, Total-acquire_component, Total-clear_staged, Total-place_acquired,
          Total-or_raise,
        )
        depth 30

  Total-acquire : (name base : Text) (v : Option Text) → Total h (acquire name base v)
  unfolding acquire
  Total-acquire name base v =
      search
        (
          total_rules, Total-components, Total-create_dir_all, Total-require_space,
          Total-selected_version, Total-fetch,
        )
        depth 30

  Total-running_or_fail : (b : Option Text) → Total h (running_or_fail b)
  Total-running_or_fail none = Total-raise _
  Total-running_or_fail (some b) = Total-pure b

  Total-base_or_running : (b : Option Text) → Total h (base_or_running b)
  unfolding target_base
  Total-base_or_running none = search (total_rules, Total-running_or_fail)
  Total-base_or_running (some b) = Total-pure b

  Total-open_source : (p : FilePath) → Total h (open_source p)
  Total-open_source p = search (file_total_rules)

  Total-check_digest : (p : FilePath) (digest : Text) → Total h (check_digest p digest)
  unfolding check_digest
  Total-check_digest p digest = search (total_rules, Total-sha256, Total-durable_remove) depth 20

  Total-copy_in : (p q : FilePath) (n : ℕ) → Total h (copy_in p q n)
  unfolding copy_in
  Total-copy_in p q n = search (total_rules, Total-create_dir_all, Total-durable_copy_file)

  Total-take_supplied :
      (name : Text) (b : Option Text) (p : FilePath) (digest : Text)
      → Total h (take_supplied name b p digest)
  unfolding take_supplied
  Total-take_supplied name b p digest =
      search
        (
          total_rules, Total-exists, Total-open_source, Total-file_len, Total-rollback_room,
          Total-require_space, Total-copy_in, Total-check_digest, Total-validate_and_place,
          Total-durable_remove, Total-or_raise,
        )
        depth 40

  Total-from_source : (name : Text) (b : Option Text) (s : Source) → Total h (from_source name b s)
  unfolding supplied_image
  Total-from_source name b (acquired v) = search (total_rules, Total-base_or_running, Total-acquire)
  Total-from_source name b (supplied p digest) = search (total_rules, Total-take_supplied)

  pub Total-stage_extension :
      (name : Text) (b : Option Text) (s : Source) → Total h (stage_extension name b s)
  unfolding stage_extension
  Total-stage_extension name b s = search (total_rules, Total-from_source)

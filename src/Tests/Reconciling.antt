-- ===== src/Tests/Reconciling.antt =====
-- A reconciliation after a crash, and the health gate, run on a host on which every call succeeds.
use carbide_os.Prelude.{◌≡◌, refl, true, some, [], ◌∷◌, ◌++◌, unwrap_or}
use carbide_os.Host.{World}
use carbide_os.State.{fresh, soaking, removing}
use carbide_os.StateFile.{state_path}
use carbide_os.StateFile.Atomic.{IsEncoding}
use carbide_os.Files.Hoare.{Has}
use carbide_os.Effects.{done}
use carbide_os.Lifecycle.Gate.{
  join, forget_stale, health_gate, verify_all, verify_or_recover, keep_merged,
}
use carbide_os.Lifecycle.Gate.Works.{is_working}
use carbide_os.Lifecycle.Gate.Healthy.{health_gate-Works}
use carbide_os.Lifecycle.Removal.{complete_removal}
use carbide_os.Lifecycle.Reconcile.{
  reported, prune_step, recover_step, reconcile_staged, active_gone, reconcile_active,
  reconcile_idle, reconcile_phase, reconcile_entry, reconcile_entries, kept_candidates,
  remove_orphans, reconcile_state,
}
use carbide_os.Lifecycle.Reconcile.Steps.{Settled}
use carbide_os.Lifecycle.Reconcile.Settled.{reconcile_state-Settled}
use carbide_os.Tests.Hosts.{calm_host, gpu, staged_world}
use carbide_os.Tests.Codec.{print}
use carbide_os.Text.{
  txt, same, strip_prefix, strip_suffix, starts_with, ends_with, contains, contains_char,
  split_once, is_ascii_digit, is_ascii_alphanumeric, to_ascii_lowercase_char, to_ascii_lowercase,
  eq_ignore_ascii_case, before,
}
use carbide_os.Text.{
  is_whitespace, trim_start_by, trim_by, trim, trim_matches, lines_from, lines, words_from,
  split_whitespace, digits_value, parse_uint,
}
use carbide_os.State.{
  is_terminal, already_completed, record_completed, get, update_entry, required_names,
  forget_stale_terminals,
}
use carbide_os.StateFile.{load, publish_state, store, stringly}
use carbide_os.Effects.{
  ◌>>=◌, map_err, attempt, on_error, ignore, get_host, get_world, moment, for_each, set_held,
  get_entry, modify_entry,
}
use carbide_os.Files.{
  same_path, find, put, erase, change, call, lookup_file, exists, read_file, file_len, remove_file,
  create_dir_all, sync_dir, create, create_new, write_all, set_permissions, sync_all, rename,
  read_dir,
}
use carbide_os.Config.{
  parse_seconds, apply_key, parse_line, parse_lines, is_verity_backed, validate_command, validate,
  parse_ruleset, load_ruleset, load_named,
}
use carbide_os.Protocol.{
  failure, at, with_command, with_exit_code, len_utf8, byte_len, from_byte, with_stderr, with_unit,
  with_log, unsupported_command,
}
use carbide_os.System.Slots.{
  first_with_prefix, os_version, scope, legacy_active_path, scoped_active_path, rollback_path,
  candidate_path, temporary_path, active_path, is_version_char, version_valid,
}
use carbide_os.System.Durable.{
  permissions, publish, settle, durable_copy_file, durable_copy, durable_remove, durable_mode,
  durable_move,
}
use carbide_os.System.Space.{saturating_add, saturating_mul, activation_space, staging_space}
use carbide_os.System.Prune.{
  prunes, remove_all, prune_matching_in, prune_rollbacks, prune_candidates, insert_sorted, sort,
  entries, candidate_files, is_transaction_file, prune_directory, prune_transaction_files_in,
  prune_transaction_files, clear_staged,
}
use carbide_os.System.Command.{
  run, run_mutating, command_line, finished, capture, capture_mutating, parse_available,
  available_bytes, acquire_component, list_component, stage_base_image, set_oneshot, sync_disks,
}
use carbide_os.System.Release.{
  find_member, texts, read_entry, read_entries, parse_sysext_release, validate_image, image_release,
  sha256, components, first_versions, parse_listed_versions, extension_name, add_names,
  collect_names, parse_merged, merged_extensions,
}
use carbide_os.System.Units.{
  unit_is_active, unit_failed, start_unit, stop_unit, sysext_refresh, daemon_reload, clock,
  deadline_after, poll_ready, start_attempt, start_attempts_left, wait_until_ready, await_child,
  run_probe, probe, require_active, soak_loop, soak, install_active, remove_active,
}
use carbide_os.System.Journal.{journal_arguments, read_journal, journal}
use carbide_os.Lifecycle.Recover.{fail, terminal, healthy_now, restore, recover_onto, recover}
use carbide_os.Lifecycle.Adopt.{declared_version, merged_version, retain, adopt_active}

-- The agent crashed while version 2 soaked; another extension was being removed.
abbrev crashed_world : World
crashed_world = record staged_world {
  fs =
      (
        rollback_path (txt "7") gpu (txt "1"),
        record { bytes = 1 ∷ 1 ∷ []; mode = 420; synced = true },
      )
      ∷ (scoped_active_path gpu (txt "7"), record { bytes = 2 ∷ 2 ∷ []; mode = 420; synced = true })
      ∷ (
        state_path,
        record {
          bytes =
              print (
                (
                  gpu,
                  record fresh {
                    required = true;
                    phase = soaking;
                    known_good_version = some (txt "1");
                    candidate_version = some (txt "2");
                  },
                )
                ∷ (txt "net", record fresh { phase = removing })
                ∷ [])
              ++ (10 ∷ []);
          mode = 384;
          synced = true;
        },
      )
      ∷ [];
  held = [];
}

reconciling_returns :
    reconcile_state calm_host crashed_world ≡ (done tt, (reconcile_state calm_host crashed_world).1)
unfolding calm_host txt same strip_prefix strip_suffix starts_with ends_with contains contains_char
    split_once is_ascii_digit is_ascii_alphanumeric to_ascii_lowercase_char to_ascii_lowercase
    eq_ignore_ascii_case before is_whitespace trim_start_by trim_by trim trim_matches lines_from
    lines words_from split_whitespace digits_value parse_uint is_terminal already_completed
    record_completed get update_entry required_names forget_stale_terminals load publish_state store
    stringly ◌>>=◌ map_err attempt on_error ignore get_host get_world moment for_each set_held
    get_entry modify_entry same_path find put erase change call lookup_file exists read_file
    file_len remove_file create_dir_all sync_dir create create_new write_all set_permissions
    sync_all rename read_dir parse_seconds apply_key parse_line parse_lines is_verity_backed
    validate_command validate parse_ruleset load_ruleset load_named failure at with_command
    with_exit_code len_utf8 byte_len from_byte with_stderr with_unit with_log unsupported_command
    first_with_prefix os_version scope legacy_active_path scoped_active_path rollback_path
    candidate_path temporary_path active_path is_version_char version_valid permissions publish
    settle durable_copy_file durable_copy durable_remove durable_mode durable_move saturating_add
    saturating_mul activation_space staging_space prunes remove_all prune_matching_in
    prune_rollbacks prune_candidates insert_sorted sort entries candidate_files is_transaction_file
    prune_directory prune_transaction_files_in prune_transaction_files clear_staged run run_mutating
    command_line finished capture capture_mutating parse_available available_bytes acquire_component
    list_component stage_base_image set_oneshot sync_disks find_member texts read_entry read_entries
    parse_sysext_release validate_image image_release sha256 components first_versions
    parse_listed_versions extension_name add_names collect_names parse_merged merged_extensions
    unit_is_active unit_failed start_unit stop_unit sysext_refresh daemon_reload clock
    deadline_after poll_ready start_attempt start_attempts_left wait_until_ready await_child
    run_probe probe require_active soak_loop soak install_active remove_active journal_arguments
    read_journal journal fail terminal healthy_now restore recover_onto recover declared_version
    merged_version retain adopt_active join forget_stale reported prune_step recover_step
    reconcile_staged active_gone reconcile_active reconcile_idle reconcile_phase reconcile_entry
    reconcile_entries kept_candidates remove_orphans reconcile_state complete_removal
reconciling_returns = refl

reconcile_state-Settled_example :
    Settled (unwrap_or (get (reconcile_state calm_host crashed_world).1.held gpu) fresh)
    × Has state_path
        (IsEncoding calm_host (reconcile_state calm_host crashed_world).1.held)
        (reconcile_state calm_host crashed_world).1.fs
reconcile_state-Settled_example =
    reconcile_state-Settled calm_host crashed_world (reconcile_state calm_host crashed_world).1
      reconciling_returns gpu

-- A required extension is merged, and nothing is known of its version.
abbrev booted_world : World
booted_world = record crashed_world {
  fs =
      (scoped_active_path gpu (txt "7"), record { bytes = 2 ∷ 2 ∷ []; mode = 420; synced = true })
      ∷ (
        state_path,
        record {
          bytes =
              print ((gpu, record fresh { required = true; phase = soaking }) ∷ []) ++ (10 ∷ []);
          mode = 384;
          synced = true;
        },
      )
      ∷ [];
}

gate_returns :
    health_gate calm_host booted_world ≡ (done tt, (health_gate calm_host booted_world).1)
unfolding calm_host txt same strip_prefix strip_suffix starts_with ends_with contains contains_char
    split_once is_ascii_digit is_ascii_alphanumeric to_ascii_lowercase_char to_ascii_lowercase
    eq_ignore_ascii_case before is_whitespace trim_start_by trim_by trim trim_matches lines_from
    lines words_from split_whitespace digits_value parse_uint is_terminal already_completed
    record_completed get update_entry required_names forget_stale_terminals load publish_state store
    stringly ◌>>=◌ map_err attempt on_error ignore get_host get_world moment for_each set_held
    get_entry modify_entry same_path find put erase change call lookup_file exists read_file
    file_len remove_file create_dir_all sync_dir create create_new write_all set_permissions
    sync_all rename read_dir parse_seconds apply_key parse_line parse_lines is_verity_backed
    validate_command validate parse_ruleset load_ruleset load_named failure at with_command
    with_exit_code len_utf8 byte_len from_byte with_stderr with_unit with_log unsupported_command
    first_with_prefix os_version scope legacy_active_path scoped_active_path rollback_path
    candidate_path temporary_path active_path is_version_char version_valid permissions publish
    settle durable_copy_file durable_copy durable_remove durable_mode durable_move saturating_add
    saturating_mul activation_space staging_space prunes remove_all prune_matching_in
    prune_rollbacks prune_candidates insert_sorted sort entries candidate_files is_transaction_file
    prune_directory prune_transaction_files_in prune_transaction_files clear_staged run run_mutating
    command_line finished capture capture_mutating parse_available available_bytes acquire_component
    list_component stage_base_image set_oneshot sync_disks find_member texts read_entry read_entries
    parse_sysext_release validate_image image_release sha256 components first_versions
    parse_listed_versions extension_name add_names collect_names parse_merged merged_extensions
    unit_is_active unit_failed start_unit stop_unit sysext_refresh daemon_reload clock
    deadline_after poll_ready start_attempt start_attempts_left wait_until_ready await_child
    run_probe probe require_active soak_loop soak install_active remove_active journal_arguments
    read_journal journal fail terminal healthy_now restore recover_onto recover declared_version
    merged_version retain adopt_active join forget_stale reported prune_step recover_step
    reconcile_staged active_gone reconcile_active reconcile_idle reconcile_phase reconcile_entry
    reconcile_entries kept_candidates remove_orphans reconcile_state complete_removal health_gate
    verify_all verify_or_recover keep_merged
gate_returns = refl

gate_requires :
    (unwrap_or (get (health_gate calm_host booted_world).1.held gpu) fresh).required ≡ true
unfolding calm_host txt same strip_prefix strip_suffix starts_with ends_with contains contains_char
    split_once is_ascii_digit is_ascii_alphanumeric to_ascii_lowercase_char to_ascii_lowercase
    eq_ignore_ascii_case before is_whitespace trim_start_by trim_by trim trim_matches lines_from
    lines words_from split_whitespace digits_value parse_uint is_terminal already_completed
    record_completed get update_entry required_names forget_stale_terminals load publish_state store
    stringly ◌>>=◌ map_err attempt on_error ignore get_host get_world moment for_each set_held
    get_entry modify_entry same_path find put erase change call lookup_file exists read_file
    file_len remove_file create_dir_all sync_dir create create_new write_all set_permissions
    sync_all rename read_dir parse_seconds apply_key parse_line parse_lines is_verity_backed
    validate_command validate parse_ruleset load_ruleset load_named failure at with_command
    with_exit_code len_utf8 byte_len from_byte with_stderr with_unit with_log unsupported_command
    first_with_prefix os_version scope legacy_active_path scoped_active_path rollback_path
    candidate_path temporary_path active_path is_version_char version_valid permissions publish
    settle durable_copy_file durable_copy durable_remove durable_mode durable_move saturating_add
    saturating_mul activation_space staging_space prunes remove_all prune_matching_in
    prune_rollbacks prune_candidates insert_sorted sort entries candidate_files is_transaction_file
    prune_directory prune_transaction_files_in prune_transaction_files clear_staged run run_mutating
    command_line finished capture capture_mutating parse_available available_bytes acquire_component
    list_component stage_base_image set_oneshot sync_disks find_member texts read_entry read_entries
    parse_sysext_release validate_image image_release sha256 components first_versions
    parse_listed_versions extension_name add_names collect_names parse_merged merged_extensions
    unit_is_active unit_failed start_unit stop_unit sysext_refresh daemon_reload clock
    deadline_after poll_ready start_attempt start_attempts_left wait_until_ready await_child
    run_probe probe require_active soak_loop soak install_active remove_active journal_arguments
    read_journal journal fail terminal healthy_now restore recover_onto recover declared_version
    merged_version retain adopt_active join forget_stale reported prune_step recover_step
    reconcile_staged active_gone reconcile_active reconcile_idle reconcile_phase reconcile_entry
    reconcile_entries kept_candidates remove_orphans reconcile_state complete_removal health_gate
    verify_all verify_or_recover keep_merged
gate_requires = refl

health_gate-Works_example :
    (is_working (unwrap_or (get (health_gate calm_host booted_world).1.held gpu) fresh).phase
      ≡ true)
    × Has state_path
        (IsEncoding calm_host (health_gate calm_host booted_world).1.held)
        (health_gate calm_host booted_world).1.fs
health_gate-Works_example =
    health_gate-Works calm_host booted_world (health_gate calm_host booted_world).1 gate_returns gpu
      gate_requires

-- ===== src/Tests/Runs.antt =====
-- Whole operations, run on a host on which every call succeeds.
use carbide_os.Prelude.{ℕ, ◌≡◌, refl, false, none, some, List, []}
use carbide_os.Effects.{done}
use carbide_os.Host.{World}
use carbide_os.Effects.Hoare.{Ends}
use carbide_os.StateFile.{state_path}
use carbide_os.Lifecycle.Activate.{Activation}
use carbide_os.Lifecycle.Activate.Replay.{AnswersAgain, activate_extension-replay}
use carbide_os.Tests.Hosts.{calm_host, calm_host-IsFaithful, calm_host-IsInert, gpu, staged_world}
use carbide_os.Text.{
  txt, same, strip_prefix, strip_suffix, starts_with, ends_with, contains, contains_char,
  split_once, is_ascii_digit, is_ascii_alphanumeric, to_ascii_lowercase_char, to_ascii_lowercase,
  eq_ignore_ascii_case, before,
}
use carbide_os.Text.{
  is_whitespace, trim_start_by, trim_by, trim, trim_matches, lines_from, lines, words_from,
  split_whitespace, digits_value, parse_uint,
}
use carbide_os.State.{
  is_terminal, already_completed, record_completed, get, update_entry, required_names,
  forget_stale_terminals,
}
use carbide_os.StateFile.{load, publish_state, store, stringly}
use carbide_os.Effects.{
  ◌>>=◌, map_err, attempt, on_error, ignore, get_host, get_world, moment, for_each, set_held,
  get_entry, modify_entry,
}
use carbide_os.Files.{
  same_path, find, put, erase, change, call, lookup_file, exists, read_file, file_len, remove_file,
  create_dir_all, sync_dir, create, create_new, write_all, set_permissions, sync_all, rename,
  read_dir,
}
use carbide_os.Config.{
  parse_seconds, apply_key, parse_line, parse_lines, is_verity_backed, validate_command, validate,
  parse_ruleset, load_ruleset, load_named,
}
use carbide_os.Protocol.{
  failure, at, with_command, with_exit_code, len_utf8, byte_len, from_byte, with_stderr, with_unit,
  with_log, unsupported_command,
}
use carbide_os.System.Slots.{
  first_with_prefix, os_version, scope, legacy_active_path, scoped_active_path, rollback_path,
  candidate_path, temporary_path, active_path, is_version_char, version_valid,
}
use carbide_os.System.Durable.{
  permissions, publish, settle, durable_copy_file, durable_copy, durable_remove, durable_mode,
  durable_move,
}
use carbide_os.System.Space.{saturating_add, saturating_mul, activation_space, staging_space}
use carbide_os.System.Prune.{
  prunes, remove_all, prune_matching_in, prune_rollbacks, prune_candidates, insert_sorted, sort,
  entries, candidate_files, is_transaction_file, prune_directory, prune_transaction_files_in,
  prune_transaction_files, clear_staged,
}
use carbide_os.System.Command.{
  run, run_mutating, command_line, finished, capture, capture_mutating, parse_available,
  available_bytes, acquire_component, list_component, stage_base_image, set_oneshot, sync_disks,
}
use carbide_os.System.Release.{
  find_member, texts, read_entry, read_entries, parse_sysext_release, validate_image, image_release,
  sha256, components, first_versions, parse_listed_versions, extension_name, add_names,
  collect_names, parse_merged, merged_extensions,
}
use carbide_os.System.Units.{
  unit_is_active, unit_failed, start_unit, stop_unit, sysext_refresh, daemon_reload, clock,
  deadline_after, poll_ready, start_attempt, start_attempts_left, wait_until_ready, await_child,
  run_probe, probe, require_active, soak_loop, soak, install_active, remove_active,
}
use carbide_os.System.Journal.{journal_arguments, read_journal, journal}
use carbide_os.Lifecycle.Recover.{fail, terminal, healthy_now, restore, recover_onto, recover}
use carbide_os.Lifecycle.Adopt.{declared_version, merged_version, retain, adopt_active}
use carbide_os.Lifecycle.Activate.{
  io_failure, adopt_unrecorded, missing_retained, require_room, retain_outgoing, committed, commit,
  prove, promote, failure_log, revert, transact, activate_extension, adopt,
}

-- A staged candidate gets activated.
activation_returns :
    (activate_extension gpu (txt "2") (some (txt "r1")) calm_host staged_world).0
    ≡ done (record { version = txt "2"; known_good = some (txt "1"); replayed = false })
unfolding calm_host txt same strip_prefix strip_suffix starts_with ends_with contains contains_char
    split_once is_ascii_digit is_ascii_alphanumeric to_ascii_lowercase_char to_ascii_lowercase
    eq_ignore_ascii_case before is_whitespace trim_start_by trim_by trim trim_matches lines_from
    lines words_from split_whitespace digits_value parse_uint is_terminal already_completed
    record_completed get update_entry required_names forget_stale_terminals load publish_state store
    stringly ◌>>=◌ map_err attempt on_error ignore get_host get_world moment for_each set_held
    get_entry modify_entry same_path find put erase change call lookup_file exists read_file
    file_len remove_file create_dir_all sync_dir create create_new write_all set_permissions
    sync_all rename read_dir parse_seconds apply_key parse_line parse_lines is_verity_backed
    validate_command validate parse_ruleset load_ruleset load_named failure at with_command
    with_exit_code len_utf8 byte_len from_byte with_stderr with_unit with_log unsupported_command
    first_with_prefix os_version scope legacy_active_path scoped_active_path rollback_path
    candidate_path temporary_path active_path is_version_char version_valid permissions publish
    settle durable_copy_file durable_copy durable_remove durable_mode durable_move saturating_add
    saturating_mul activation_space staging_space prunes remove_all prune_matching_in
    prune_rollbacks prune_candidates insert_sorted sort entries candidate_files is_transaction_file
    prune_directory prune_transaction_files_in prune_transaction_files clear_staged run run_mutating
    command_line finished capture capture_mutating parse_available available_bytes acquire_component
    list_component stage_base_image set_oneshot sync_disks find_member texts read_entry read_entries
    parse_sysext_release validate_image image_release sha256 components first_versions
    parse_listed_versions extension_name add_names collect_names parse_merged merged_extensions
    unit_is_active unit_failed start_unit stop_unit sysext_refresh daemon_reload clock
    deadline_after poll_ready start_attempt start_attempts_left wait_until_ready await_child
    run_probe probe require_active soak_loop soak install_active remove_active journal_arguments
    read_journal journal fail terminal healthy_now restore recover_onto recover declared_version
    merged_version retain adopt_active io_failure adopt_unrecorded missing_retained require_room
    retain_outgoing committed commit prove promote failure_log revert transact activate_extension
    adopt
activation_returns = refl

-- The first answer, and the world that it leaves.
abbrev first_answer : Activation
first_answer = record { version = txt "2"; known_good = some (txt "1"); replayed = false }

abbrev activated_world : World
activated_world = (activate_extension gpu (txt "2") (some (txt "r1")) calm_host staged_world).1

activation_answers :
    activate_extension gpu (txt "2") (some (txt "r1")) calm_host staged_world
    ≡ (done first_answer, activated_world)
unfolding calm_host txt same strip_prefix strip_suffix starts_with ends_with contains contains_char
    split_once is_ascii_digit is_ascii_alphanumeric to_ascii_lowercase_char to_ascii_lowercase
    eq_ignore_ascii_case before is_whitespace trim_start_by trim_by trim trim_matches lines_from
    lines words_from split_whitespace digits_value parse_uint is_terminal already_completed
    record_completed get update_entry required_names forget_stale_terminals load publish_state store
    stringly ◌>>=◌ map_err attempt on_error ignore get_host get_world moment for_each set_held
    get_entry modify_entry same_path find put erase change call lookup_file exists read_file
    file_len remove_file create_dir_all sync_dir create create_new write_all set_permissions
    sync_all rename read_dir parse_seconds apply_key parse_line parse_lines is_verity_backed
    validate_command validate parse_ruleset load_ruleset load_named failure at with_command
    with_exit_code len_utf8 byte_len from_byte with_stderr with_unit with_log unsupported_command
    first_with_prefix os_version scope legacy_active_path scoped_active_path rollback_path
    candidate_path temporary_path active_path is_version_char version_valid permissions publish
    settle durable_copy_file durable_copy durable_remove durable_mode durable_move saturating_add
    saturating_mul activation_space staging_space prunes remove_all prune_matching_in
    prune_rollbacks prune_candidates insert_sorted sort entries candidate_files is_transaction_file
    prune_directory prune_transaction_files_in prune_transaction_files clear_staged run run_mutating
    command_line finished capture capture_mutating parse_available available_bytes acquire_component
    list_component stage_base_image set_oneshot sync_disks find_member texts read_entry read_entries
    parse_sysext_release validate_image image_release sha256 components first_versions
    parse_listed_versions extension_name add_names collect_names parse_merged merged_extensions
    unit_is_active unit_failed start_unit stop_unit sysext_refresh daemon_reload clock
    deadline_after poll_ready start_attempt start_attempts_left wait_until_ready await_child
    run_probe probe require_active soak_loop soak install_active remove_active journal_arguments
    read_journal journal fail terminal healthy_now restore recover_onto recover declared_version
    merged_version retain adopt_active io_failure adopt_unrecorded missing_retained require_room
    retain_outgoing committed commit prove promote failure_log revert transact activate_extension
    adopt
activation_answers = refl

-- The agent was restarted.
abbrev restarted_world : World
restarted_world = record staged_world { fs = activated_world.fs; held = [] }

calm_readable : calm_host.fault restarted_world.tick ≡ none
unfolding calm_host
calm_readable = refl

calm_reads : (bytes : List ℕ) → calm_host.reads restarted_world.tick state_path bytes ≡ bytes
unfolding calm_host
calm_reads bytes = refl

activate_extension-replay_example :
    let (r, w) = activate_extension gpu (txt "2") (some (txt "r1")) calm_host restarted_world in
    Ends (AnswersAgain restarted_world) (λ _. ⊥) r w
activate_extension-replay_example =
    activate_extension-replay calm_host calm_host-IsFaithful calm_host-IsInert gpu (txt "2")
      (txt "2") (txt "r1") staged_world activated_world restarted_world first_answer
      activation_answers refl refl calm_readable calm_reads

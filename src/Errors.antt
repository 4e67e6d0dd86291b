-- ===== src/Errors.antt =====
-- The exception classes of redline_core that the modelled code raises, one constructor for each:
-- db/database.py, backup/exceptions.py, config/loader.py, episode/exceptions.py, render/exceptions.py,
-- resolve/exceptions.py, restore/capture_exceptions.py and
-- restore/exceptions.py, and the errors of Python, of SQLite and of the operating system. Messages
-- are left out. Where a handler reads the message of an IntegrityError, the error that it looks for is
-- a constructor of its own: a failed UNIQUE index on render_jobs.output_path, or on
-- archives.archive_id.
use redline_os.Prelude.{Eq}

-- The `STAGE_*` constants of episode/manager.py.
pub data Stage : Type 0 where
  validation episode_lookup media_import media_result_validation timeline_build : Stage
  clip_placement result_validation payload_observation status_update : Stage

pub data Error : Type 0 where
  operational_error integrity_error : Error
  output_path_unique_error archive_id_unique_error : Error
  runtime_error attribute_error assembly_claim_release_error archive_commit_error : Error
  episode_not_found : Error
  render_preset_not_found render_configuration_error render_job_not_found : Error
  render_output_collision render_persistence_error render_reconciliation_required : Error
  render_timeline_not_renderable render_job_missing_resolve_id render_job_not_startable : Error
  render_start_persistence_reconciliation_required : Error
  format_error project_already_exists project_not_found render_job_error : Error
  timeline_operation_error os_error recovery_disposition_failed : Error
  file_exists_error value_error restore_path_collision_error restore_journal_error : Error
  episode_already_exists unsafe_asset_path_error : Error
  restore_error backup_error backup_configuration_error capture_error config_error sqlite_error :
      Error
  restore_confirmation_error restore_attestation_missing_error restore_target_unavailable_error :
      Error
  restore_schema_incompatible_error restore_pre_restore_snapshot_failed : Error
  restore_quiescence_failed restore_sidecar_present restore_staging_failed : Error
  restore_database_replacement_failed restore_config_replacement_failed : Error
  restore_verification_failed recovery_confirmation_error recovery_attestation_missing : Error
  recovery_blocked_error recovery_capture_failed recovery_changed_during_capture : Error
  recovery_stability_mismatch safe_file_error index_error key_error reconciliation_invariant_error :
      Error
  episode_build_error : Stage → Error
  -- The model's own: a loop has run longer than its fuel allows.
  out_of_fuel : Error

Error-discrete : Discrete Error
Error-discrete = hlevel

instance unfoldable pub error_eq : Eq Error
unfolding Error-discrete
error_eq = record { dec = Error-discrete }

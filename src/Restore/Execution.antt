-- ===== src/Restore/Execution.antt =====
-- restore/recovery_execution.py: one attempt at a recovery, in the order of `execute_recovery`. Of what
-- the journal records the details are left out. The backup's path, the database's and the
-- configuration's, the restore id and the time of the end are fields of the request.
pub mod Baseline
pub mod Order
pub mod Refines
pub mod Safe
use redline_os.Prelude.{
  ℕ, String, ◌<>◌, Bool, true, false, not, ◌||◌, Option, none, some, List, [], ◌∷◌, ◌++◌, ◌==◌,
  string_eq, if◌then◌else◌, length,
}
use redline_os.Prelude.Dict.{get}
use redline_os.Prelude.Text.{sort_names}
use redline_os.Errors.{
  Error, error_eq, restore_error, capture_error, recovery_blocked_error, recovery_capture_failed,
  recovery_changed_during_capture, recovery_stability_mismatch, recovery_disposition_failed,
  restore_quiescence_failed,
}
use redline_os.Exec.{Exec, ok, err, pure, raise, require}
use redline_os.Render.World.{Platform}
use redline_os.Restore.Disposition.{DispositionResult}
use redline_os.Restore.Classification.{
  SourceCondition, healthy, degraded, missing, SourceSideAssessment,
}
use redline_os.Restore.Planning.{
  SidecarCondition, absent, safe_regular, wrong_type, unsafe, RecoveryPlanResult,
  build_recovery_plan, would_proceed,
}
use redline_os.Restore.Capture.{CaptureItemRecord, CaptureResult}
use redline_os.Restore.System.{System, Manifest}
use redline_os.Restore.Stability.{
  ExpectedTargetState, expected_missing, expected_state_from_capture_record, check_target_stability,
}
use redline_os.Restore.Staging.{
  sidecar_suffixes, require_no_sidecars, Staged, stage_both, superseded_config_path,
  replace_database, rename_config_aside, install_staged_config,
}
use redline_os.Restore.Authorization.{
  is_restore_error, RecoveryAuthorization, require_recovery_authorization, validate_backup_id,
  probe_quiescence,
}
use redline_os.Restore.Verification.{verify_restore}
use redline_os.Restore.Journal.States
use redline_os.Restore.Journal.States.{RestoreState}
use redline_os.Restore.Protocol.{disposal, database_swap, config_aside, config_install}
use redline_os.Restore.Attempt.{Attempt, ◌>>=◌, ◌>>◌, call, touch, note, fail, or_fail, or_record}
use redline_os.Restore.Execution.Baseline.{
  Disposed, is_disposed, is_unreadable, has_changed, database_expected, sidecar_expected,
  check_database_stability, check_config_stability, has_no_mismatch,
}

pub record Request : Type 0 where
  pub db_path : String
  pub config_dir : String
  pub backup_id : String
  pub authorization : RecoveryAuthorization
  pub has_backup_path : Bool
  pub restore_id : String
  pub journal_dir : String
  pub completed_at : String

pub record RecoveryResult : Type 0 where
  pub restore_id : String
  pub backup_id : String
  pub capture_id : String
  pub capture_path : String
  pub journal_dir : String
  pub disposed_targets : List String
  pub database_sha256 : String
  pub database_size_bytes : ℕ
  pub config_file_count : ℕ
  pub superseded_config_path : String
  pub completed_at : String

abbrev pub is_degraded : SourceCondition → Bool
is_degraded degraded = true
is_degraded _ = false

abbrev pub is_missing : SourceCondition → Bool
is_missing missing = true
is_missing _ = false

abbrev pub is_safe_regular : SidecarCondition → Bool
is_safe_regular safe_regular = true
is_safe_regular _ = false

abbrev pub same : Error → Error
same e = e

abbrev pub is : Error → Error → Bool
is caught e = e == caught

abbrev targets_of : Disposed → List String
targets_of [] = []
targets_of ((target, d) ∷ ds) = target ∷ targets_of ds

module _ (P : Platform) (K : System) (q : Request) where
  -- The plan's validation, and the reclassification after the capture.
  unfoldable pub plan_or_fail : RestoreState → RestoreState → Exec (Attempt K) RecoveryPlanResult
  unfolding would_proceed build_recovery_plan
  plan_or_fail blocked validated = do
    observed ← call (K.observe q.backup_id)
    or_fail (would_proceed (build_recovery_plan observed)) blocked recovery_blocked_error
    note validated
    pure (build_recovery_plan observed)

  -- The capture, its reverification, and the hard stop on an item that changed.
  unfoldable pub capture_sources : RecoveryPlanResult → Exec (Attempt K) CaptureResult
  unfolding error_eq has_changed
  capture_sources plan = do
    note States.capture_intent
    capture ←
        or_record (is capture_error) States.capture_failed (λ _. recovery_capture_failed)
          (call (K.build_degraded_source_capture plan.database plan.config))
    note States.capture_complete
    note States.capture_reverification_intent
    or_record (is capture_error) States.capture_reverification_failed (λ _. recovery_capture_failed)
        (call (K.verify_degraded_source_capture capture))
    note States.capture_reverified
    or_fail (not (has_changed capture)) States.capture_changed_during_capture
        recovery_changed_during_capture
    pure capture

  -- PRE_MUTATION_STABILITY, and FINAL_STABILITY.
  unfoldable pub confirm_stability :
      RestoreState
      → RestoreState
      → RestoreState
      → CaptureResult
      → Disposed
      → Exec (Attempt K) (Unit {0})
  unfolding has_no_mismatch
  confirm_stability intent mismatch confirmed capture disposed = do
    note intent
    stable ← call (has_no_mismatch P K q.db_path q.config_dir capture disposed)
    or_fail stable mismatch recovery_stability_mismatch
    note confirmed

  unfoldable pub probe_and_note : Exec (Attempt K) (Unit {0})
  unfolding error_eq probe_quiescence
  probe_and_note =
      or_record (is restore_quiescence_failed) States.quiescence_failed same
        (call (probe_quiescence K q.db_path))
      >> note States.quiescence_confirmed

  unfoldable pub confirm_quiescence : RecoveryPlanResult → Exec (Attempt K) (Unit {0})
  unfolding probe_and_note
  confirm_quiescence reclass =
      if is_degraded reclass.database.condition
      then note States.quiescence_not_applicable
      else probe_and_note

  -- `_dispose_one`
  unfoldable pub dispose_one :
      String → String → Bool → ExpectedTargetState → Exec (Attempt K) DispositionResult
  unfolding error_eq check_target_stability
  dispose_one target_kind path expected_regular expected_state = do
    note States.disposition_intent
    stable ← call (check_target_stability K path expected_state)
    or_fail stable States.disposition_failed recovery_stability_mismatch
    result ←
        or_record (is recovery_disposition_failed) States.disposition_failed same
          (touch disposal (K.dispose_target path target_kind expected_regular q.restore_id))
    note States.disposition_complete
    pure result

  -- The expected state is computed, then the target is disposed.
  unfoldable pub dispose_as :
      String → String → Bool → Exec K.State ExpectedTargetState → Exec (Attempt K) Disposed
  unfolding dispose_one
  dispose_as target_kind path expected_regular expected = do
    expected_state ← call expected
    result ← dispose_one target_kind path expected_regular expected_state
    pure ((target_kind, result) ∷ [])

  unfoldable pub dispose_database : RecoveryPlanResult → CaptureResult → Exec (Attempt K) Disposed
  unfolding dispose_as database_expected
  dispose_database reclass capture =
      let unreadable_database = is_unreadable capture.database.outcome in
      if reclass.database.disposition_required || unreadable_database
      then dispose_as "database" q.db_path unreadable_database (database_expected capture false)
      else pure []

  abbrev pub dispose_container : Option CaptureItemRecord → Exec (Attempt K) Disposed
  dispose_container none = raise recovery_stability_mismatch
  dispose_container (some directory) =
      dispose_as "config" q.config_dir true (expected_state_from_capture_record directory true)

  unfoldable pub dispose_config : RecoveryPlanResult → CaptureResult → Exec (Attempt K) Disposed
  unfolding dispose_as expected_state_from_capture_record
  dispose_config reclass capture =
      if reclass.config.disposition_required
      then dispose_container capture.config_directory
      else pure []

  -- The loop over the suffixes, each with its condition.
  unfoldable pub dispose_sidecars :
      CaptureResult → List String → List SidecarCondition → Exec (Attempt K) Disposed
  unfolding dispose_as sidecar_expected
  dispose_sidecars capture [] conditions = pure []
  dispose_sidecars capture (suffix ∷ suffixes) [] = pure []
  dispose_sidecars capture (suffix ∷ suffixes) (condition ∷ conditions) = do
    first ←
        if is_safe_regular condition
        then dispose_as suffix (q.db_path <> suffix) true (sidecar_expected capture suffix false)
        else pure []
    others ← dispose_sidecars capture suffixes conditions
    pure (first ++ others)

  -- The fixed order: the database, the configuration, the sidecars.
  unfoldable pub dispose_targets : RecoveryPlanResult → CaptureResult → Exec (Attempt K) Disposed
  unfolding dispose_database dispose_config dispose_sidecars
  dispose_targets reclass capture = do
    database ← dispose_database reclass capture
    config ← dispose_config reclass capture
    sidecars ← dispose_sidecars capture sidecar_suffixes reclass.sidecar_assessments
    pure (database ++ (config ++ sidecars))

  unfoldable pub check_no_sidecars : Exec (Attempt K) (Unit {0})
  unfolding require_no_sidecars is_restore_error
  check_no_sidecars =
      or_record is_restore_error States.sidecar_present_pre same
        (call (require_no_sidecars K q.db_path))
      >> note States.sidecar_check_passed_pre

  unfoldable pub stage_package : String → Manifest → Exec (Attempt K) Staged
  unfolding stage_both is_restore_error
  stage_package package_dir manifest = do
    note States.staging_intent
    staged ←
        or_record is_restore_error States.staging_failed same
          (call (stage_both P K package_dir manifest q.db_path q.config_dir q.restore_id))
    note States.staging_complete
    pure staged

  unfoldable pub stage : Exec (Attempt K) Staged
  unfolding stage_package
  stage = do
    package_dir ← call (K.verify_backup q.backup_id)
    manifest ← call (K.load_manifest package_dir)
    stage_package package_dir manifest

  -- The replacement of the database, after a last look at it.
  unfoldable pub replace_live_database :
      Staged → CaptureResult → Disposed → Exec (Attempt K) (Unit {0})
  unfolding check_database_stability replace_database is_restore_error is_disposed
  replace_live_database staged capture disposed = do
    note States.db_replace_intent
    stable ← call (check_database_stability P K q.db_path capture (is_disposed "database" disposed))
    or_fail stable States.db_replace_failed recovery_stability_mismatch
    or_record is_restore_error States.db_replace_failed same
        (touch database_swap (replace_database K staged.staged_db_path q.db_path))
    note States.db_replaced

  unfoldable pub rename_aside : CaptureResult → String → Exec (Attempt K) (Unit {0})
  unfolding check_config_stability rename_config_aside is_restore_error
  rename_aside capture superseded_path = do
    note States.config_rename_aside_intent
    stable ← call (check_config_stability P K q.config_dir capture false)
    or_fail stable States.config_replace_failed recovery_stability_mismatch
    or_record is_restore_error States.config_replace_failed same
        (touch config_aside (rename_config_aside K q.config_dir superseded_path))
    note States.config_renamed_aside

  unfoldable pub vacate_path : RecoveryPlanResult → CaptureResult → Exec (Attempt K) String
  unfolding superseded_config_path rename_aside
  vacate_path reclass capture = do
    superseded_path ← call (superseded_config_path P K q.config_dir q.restore_id)
    if is_missing reclass.config.condition then pure tt else rename_aside capture superseded_path
    pure superseded_path

  -- The configuration's path is vacated, unless its object was disposed.
  abbrev pub vacate_config :
      RecoveryPlanResult → CaptureResult → Option DispositionResult → Exec (Attempt K) String
  vacate_config reclass capture (some d) = pure d.superseded_path
  vacate_config reclass capture none = vacate_path reclass capture

  unfoldable pub install_config : Staged → Exec (Attempt K) (Unit {0})
  unfolding check_target_stability install_staged_config is_restore_error
  install_config staged = do
    note States.config_install_intent
    vacant ← call (check_target_stability K q.config_dir expected_missing)
    or_fail vacant States.config_replace_failed recovery_stability_mismatch
    or_record is_restore_error States.config_replace_failed same
        (touch config_install (install_staged_config K staged.staged_config_dir q.config_dir))
    note States.config_replaced

  unfoldable pub verify_live : Manifest → Exec (Attempt K) (Unit {0})
  unfolding verify_restore is_restore_error
  verify_live manifest = do
    note States.verification_intent
    or_record is_restore_error States.verification_failed same
        (call (verify_restore P K q.db_path q.config_dir manifest q.backup_id))
    note States.verified_success

  -- What is asked before the journal of the attempt is created.
  unfoldable pub open_attempt : Exec (Attempt K) (Unit {0})
  unfolding validate_backup_id require_recovery_authorization
  open_attempt = do
    call (validate_backup_id K q.backup_id)
    call (require_recovery_authorization K q.authorization q.backup_id)
    require q.has_backup_path restore_error
    call K.validate_backup_root
    call K.create_journal

  -- Up to the first change of the live installation.
  unfoldable pub prepare_recovery : Exec (Attempt K) (RecoveryPlanResult × CaptureResult)
  unfolding open_attempt plan_or_fail capture_sources confirm_stability confirm_quiescence
  prepare_recovery = do
    open_attempt
    note States.recovery_initiated
    plan ← plan_or_fail States.recovery_plan_blocked States.recovery_plan_validated
    capture ← capture_sources plan
    note States.source_reclassification_intent
    reclass ← plan_or_fail States.source_reclassification_blocked States.source_reclassified
    confirm_stability States.pre_mutation_stability_intent States.pre_mutation_stability_mismatch
        States.pre_mutation_stability_confirmed capture []
    confirm_quiescence reclass
    pure (reclass, capture)

  unfoldable pub dispose_and_stage :
      RecoveryPlanResult → CaptureResult → Exec (Attempt K) (Disposed × Staged)
  unfolding dispose_targets confirm_stability check_no_sidecars stage
  dispose_and_stage reclass capture = do
    disposed ← dispose_targets reclass capture
    confirm_stability States.final_stability_intent States.final_stability_mismatch
        States.final_stability_confirmed capture disposed
    check_no_sidecars
    staged ← stage
    pure (disposed, staged)

  unfoldable pub replace_and_verify :
      RecoveryPlanResult → CaptureResult → Disposed → Staged → Exec (Attempt K) String
  unfolding replace_live_database vacate_path install_config verify_live get string_eq
  replace_and_verify reclass capture disposed staged = do
    replace_live_database staged capture disposed
    superseded_path ← vacate_config reclass capture (get "config" disposed)
    install_config staged
    verify_live staged.manifest
    pure superseded_path

  abbrev result_of : CaptureResult → Disposed → Manifest → String → RecoveryResult
  result_of capture disposed manifest superseded_path = record {
    restore_id = q.restore_id;
    backup_id = q.backup_id;
    capture_id = capture.capture_id;
    capture_path = capture.capture_path;
    journal_dir = q.journal_dir;
    disposed_targets = sort_names (targets_of disposed);
    database_sha256 = manifest.database.sha256;
    database_size_bytes = manifest.database.size_bytes;
    config_file_count = length manifest.config_files;
    superseded_config_path = superseded_path;
    completed_at = q.completed_at;
  }

  unfoldable pub execute_recovery : Exec (Attempt K) RecoveryResult
  unfolding prepare_recovery dispose_and_stage replace_and_verify sort_names
  execute_recovery = do
    (reclass, capture) ← prepare_recovery
    (disposed, staged) ← dispose_and_stage reclass capture
    superseded_path ← replace_and_verify reclass capture disposed staged
    pure (result_of capture disposed staged.manifest superseded_path)

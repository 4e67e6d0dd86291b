-- ===== src/Restore/Journal/States.antt =====
-- restore/journal.py: the states that a restore or a recovery records.
use redline_os.Prelude.{String}

pub data RestoreState : Type 0 where
  restore_initiated target_verified target_verification_failed : RestoreState
  schema_compatible schema_incompatible pre_restore_snapshot_complete : RestoreState
  pre_restore_snapshot_failed quiescence_confirmed quiescence_failed : RestoreState
  sidecar_check_passed_pre sidecar_present_pre staging_intent : RestoreState
  staging_complete staging_failed db_replace_intent : RestoreState
  db_replaced db_replace_failed config_rename_aside_intent : RestoreState
  config_renamed_aside config_install_intent config_replaced : RestoreState
  config_replace_failed sidecar_check_passed_post sidecar_present_post : RestoreState
  verification_intent verified_success verification_failed : RestoreState
  recovery_initiated recovery_plan_validated recovery_plan_blocked : RestoreState
  capture_intent capture_complete capture_failed : RestoreState
  capture_reverification_intent capture_reverified capture_reverification_failed : RestoreState
  capture_changed_during_capture source_reclassification_intent source_reclassified : RestoreState
  source_reclassification_blocked pre_mutation_stability_intent pre_mutation_stability_confirmed :
      RestoreState
  pre_mutation_stability_mismatch quiescence_not_applicable disposition_intent : RestoreState
  disposition_complete disposition_failed final_stability_intent : RestoreState
  final_stability_confirmed final_stability_mismatch : RestoreState

-- `state.value`
unfoldable pub value : RestoreState → String
value restore_initiated = "RESTORE_INITIATED"
value target_verified = "TARGET_VERIFIED"
value target_verification_failed = "TARGET_VERIFICATION_FAILED"
value schema_compatible = "SCHEMA_COMPATIBLE"
value schema_incompatible = "SCHEMA_INCOMPATIBLE"
value pre_restore_snapshot_complete = "PRE_RESTORE_SNAPSHOT_COMPLETE"
value pre_restore_snapshot_failed = "PRE_RESTORE_SNAPSHOT_FAILED"
value quiescence_confirmed = "QUIESCENCE_CONFIRMED"
value quiescence_failed = "QUIESCENCE_FAILED"
value sidecar_check_passed_pre = "SIDECAR_CHECK_PASSED_PRE"
value sidecar_present_pre = "SIDECAR_PRESENT_PRE"
value staging_intent = "STAGING_INTENT"
value staging_complete = "STAGING_COMPLETE"
value staging_failed = "STAGING_FAILED"
value db_replace_intent = "DB_REPLACE_INTENT"
value db_replaced = "DB_REPLACED"
value db_replace_failed = "DB_REPLACE_FAILED"
value config_rename_aside_intent = "CONFIG_RENAME_ASIDE_INTENT"
value config_renamed_aside = "CONFIG_RENAMED_ASIDE"
value config_install_intent = "CONFIG_INSTALL_INTENT"
value config_replaced = "CONFIG_REPLACED"
value config_replace_failed = "CONFIG_REPLACE_FAILED"
value sidecar_check_passed_post = "SIDECAR_CHECK_PASSED_POST"
value sidecar_present_post = "SIDECAR_PRESENT_POST"
value verification_intent = "VERIFICATION_INTENT"
value verified_success = "VERIFIED_SUCCESS"
value verification_failed = "VERIFICATION_FAILED"
value recovery_initiated = "RECOVERY_INITIATED"
value recovery_plan_validated = "RECOVERY_PLAN_VALIDATED"
value recovery_plan_blocked = "RECOVERY_PLAN_BLOCKED"
value capture_intent = "CAPTURE_INTENT"
value capture_complete = "CAPTURE_COMPLETE"
value capture_failed = "CAPTURE_FAILED"
value capture_reverification_intent = "CAPTURE_REVERIFICATION_INTENT"
value capture_reverified = "CAPTURE_REVERIFIED"
value capture_reverification_failed = "CAPTURE_REVERIFICATION_FAILED"
value capture_changed_during_capture = "CAPTURE_CHANGED_DURING_CAPTURE"
value source_reclassification_intent = "SOURCE_RECLASSIFICATION_INTENT"
value source_reclassified = "SOURCE_RECLASSIFIED"
value source_reclassification_blocked = "SOURCE_RECLASSIFICATION_BLOCKED"
value pre_mutation_stability_intent = "PRE_MUTATION_STABILITY_INTENT"
value pre_mutation_stability_confirmed = "PRE_MUTATION_STABILITY_CONFIRMED"
value pre_mutation_stability_mismatch = "PRE_MUTATION_STABILITY_MISMATCH"
value quiescence_not_applicable = "QUIESCENCE_NOT_APPLICABLE"
value disposition_intent = "DISPOSITION_INTENT"
value disposition_complete = "DISPOSITION_COMPLETE"
value disposition_failed = "DISPOSITION_FAILED"
value final_stability_intent = "FINAL_STABILITY_INTENT"
value final_stability_confirmed = "FINAL_STABILITY_CONFIRMED"
value final_stability_mismatch = "FINAL_STABILITY_MISMATCH"

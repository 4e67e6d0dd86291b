-- ===== src/Restore/Execution/Refines.antt =====
-- restore/recovery_execution.py: a whole recovery follows the protocol.
use redline_os.Prelude.{String, Option, none, some, [], refl, nat_eq, string_eq}
use redline_os.Prelude.Dict.{get}
use redline_os.Render.World.{Platform}
use redline_os.Restore.Disposition.{DispositionResult}
use redline_os.Restore.Planning.{RecoveryPlanResult}
use redline_os.Restore.Capture.{CaptureResult}
use redline_os.Restore.System.{System, Manifest}
use redline_os.Restore.Staging.{Staged}
use redline_os.Restore.Journal.States
use redline_os.Restore.Protocol.{
  at, calm, intended, touching, database_swap, config_aside, config_install, recovery_kind,
  recovery, phase_of,
}
use redline_os.Restore.Attempt.Follows.{
  Ends, Follows-bind, Follows-then, Follows-pure, Follows-call, Follows-note, Follows-or_fail,
  Follows-or_record-call, Follows-or_record-touch, Follows-step, Follows-if,
}
use redline_os.Restore.Execution.{
  Request, execute_recovery, dispose_and_stage, replace_and_verify, check_no_sidecars, stage,
  stage_package, replace_live_database, rename_aside, vacate_path, vacate_config, install_config,
  verify_live, is_missing,
}
use redline_os.Restore.Execution.Baseline.{Disposed}
use redline_os.Restore.Execution.Order.{
  In, confirm_stability-In, dispose_targets-In, prepare_recovery-In,
}

module _ (P : Platform) (K : System) (q : Request) where
  check_no_sidecars-In : In P K q 8 (check_no_sidecars P K q) 9
  unfolding check_no_sidecars recovery_kind nat_eq
  check_no_sidecars-In =
      Follows-then (at 8 calm)
        (Follows-or_record-call _ _ States.sidecar_present_pre _ _ (refl, refl))
        (Follows-note _ States.sidecar_check_passed_pre _ refl refl)

  stage-In : In P K q 9 (stage P K q) 10
  unfolding stage stage_package recovery_kind nat_eq
  stage-In = Follows-bind (at 9 calm) (Follows-call _ _ refl) λ package_dir.
      Follows-bind (at 9 calm) (Follows-call _ _ refl) λ manifest.
        Follows-step States.staging_intent (at 9 calm) refl refl (
          Follows-bind (at 9 calm)
            (Follows-or_record-call _ _ States.staging_failed _ _ (refl, refl))
            λ staged.
              Follows-step States.staging_complete (at 10 calm) refl refl (Follows-pure _ _))

  replace_live_database-In :
      (staged : Staged) (c : CaptureResult) (d : Disposed)
      → In P K q 10 (replace_live_database P K q staged c d) 11
  unfolding replace_live_database recovery_kind nat_eq
  replace_live_database-In staged c d =
      Follows-step States.db_replace_intent (at 10 (intended database_swap)) refl refl (
        Follows-bind (at 10 (intended database_swap)) (Follows-call _ _ refl) λ stable.
          Follows-then (at 10 (intended database_swap))
            (Follows-or_fail _ stable States.db_replace_failed _ (refl, refl))
            (Follows-then (at 10 (touching database_swap))
              (Follows-or_record-touch 10 database_swap _ States.db_replace_failed _ _ refl
                (refl, refl))
              (Follows-note _ States.db_replaced _ refl refl)))

  rename_aside-In : (c : CaptureResult) (path : String) → In P K q 11 (rename_aside P K q c path) 11
  unfolding rename_aside recovery_kind nat_eq
  rename_aside-In c path =
      Follows-step States.config_rename_aside_intent (at 11 (intended config_aside)) refl refl (
        Follows-bind (at 11 (intended config_aside)) (Follows-call _ _ refl) λ stable.
          Follows-then (at 11 (intended config_aside))
            (Follows-or_fail _ stable States.config_replace_failed _ (refl, refl))
            (Follows-then (at 11 (touching config_aside))
              (Follows-or_record-touch 11 config_aside _ States.config_replace_failed _ _ refl
                (refl, refl))
              (Follows-note _ States.config_renamed_aside _ refl refl)))

  vacate_config-In :
      (reclass : RecoveryPlanResult) (c : CaptureResult) (d : Option DispositionResult)
      → In P K q 11 (vacate_config P K q reclass c d) 11
  unfolding vacate_path
  vacate_config-In reclass c (some d) = Follows-pure _ _
  vacate_config-In reclass c none = Follows-bind (at 11 calm) (Follows-call _ _ refl) λ path.
      Follows-then (at 11 calm)
        (Follows-if _ _ (is_missing reclass.config.condition) (Follows-pure _ _)
          (rename_aside-In c path))
        (Follows-pure _ _)

  install_config-In : (staged : Staged) → In P K q 11 (install_config P K q staged) 12
  unfolding install_config recovery_kind nat_eq
  install_config-In staged =
      Follows-step States.config_install_intent (at 11 (intended config_install)) refl refl (
        Follows-bind (at 11 (intended config_install)) (Follows-call _ _ refl) λ vacant.
          Follows-then (at 11 (intended config_install))
            (Follows-or_fail _ vacant States.config_replace_failed _ (refl, refl))
            (Follows-then (at 11 (touching config_install))
              (Follows-or_record-touch 11 config_install _ States.config_replace_failed _ _ refl
                (refl, refl))
              (Follows-note _ States.config_replaced _ refl refl)))

  verify_live-In : (manifest : Manifest) → In P K q 12 (verify_live P K q manifest) 13
  unfolding verify_live recovery_kind nat_eq
  verify_live-In manifest = Follows-step States.verification_intent (at 12 calm) refl refl (
      Follows-then (at 12 calm)
        (Follows-or_record-call _ _ States.verification_failed _ _ (refl, refl))
        (Follows-note _ States.verified_success _ refl refl))

  dispose_and_stage-In :
      (reclass : RecoveryPlanResult) (c : CaptureResult)
      → In P K q 7 (dispose_and_stage P K q reclass c) 10
  unfolding dispose_and_stage recovery_kind nat_eq
  dispose_and_stage-In reclass c =
      Follows-bind (at 7 calm) (dispose_targets-In P K q reclass c) λ disposed.
        Follows-then (at 8 calm)
          (confirm_stability-In P K q _ _ _ 7 8 c disposed refl (refl, refl) refl)
          (Follows-then (at 9 calm) check_no_sidecars-In
            (Follows-bind (at 10 calm) stage-In λ staged. Follows-pure _ _))

  replace_and_verify-In :
      (reclass : RecoveryPlanResult) (c : CaptureResult) (d : Disposed) (staged : Staged)
      → In P K q 10 (replace_and_verify P K q reclass c d staged) 13
  unfolding replace_and_verify
  replace_and_verify-In reclass c d staged =
      Follows-then (at 11 calm) (replace_live_database-In staged c d) (
        Follows-bind (at 11 calm) (vacate_config-In reclass c (get "config" d)) λ path.
          Follows-then (at 12 calm) (install_config-In staged)
            (Follows-then (at 13 calm) (verify_live-In staged.manifest) (Follows-pure _ _)))

  execute_recovery-In : In P K q 0 (execute_recovery P K q) 13
  unfolding execute_recovery
  execute_recovery-In = Follows-bind (at 7 calm) (prepare_recovery-In P K q) λ prepared.
      Follows-bind (at 10 calm) (dispose_and_stage-In prepared.0 prepared.1) λ both.
        Follows-bind (at 13 calm) (replace_and_verify-In prepared.0 prepared.1 both.0 both.1)
          λ path. Follows-pure _ _

  -- Whatever the system answers, the states that execute_recovery records and the changes that it
  -- tries are a run of the recovery's protocol: to the last milestone if it returns, and not that far
  -- if it raises.
  pub execute_recovery-Ends :
      (s : K.State)
      → Ends recovery K (at 13 calm) (execute_recovery P K q (record { state = s; log = [] }))
  unfolding phase_of
  execute_recovery-Ends s = execute_recovery-In.run (record { state = s; log = [] }) refl

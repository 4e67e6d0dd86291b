-- ===== src/Restore/Execution/Order.antt =====
-- restore/recovery_execution.py: each part of a recovery follows the protocol.
use redline_os.Prelude.{
  ℕ, String, Bool, ◌||◌, Option, none, some, List, [], ◌∷◌, ◌≡◌, refl, nat_eq, string_eq,
}
use redline_os.Errors.{error_eq}
use redline_os.Exec.{Exec}
use redline_os.Render.World.{Platform}
use redline_os.Restore.Planning.{SidecarCondition, RecoveryPlanResult}
use redline_os.Restore.Capture.{CaptureItemRecord, CaptureResult}
use redline_os.Restore.System.{System}
use redline_os.Restore.Stability.{ExpectedTargetState}
use redline_os.Restore.Staging.{sidecar_suffixes}
use redline_os.Restore.Journal.States
use redline_os.Restore.Protocol.{
  at, calm, intended, touching, disposal, recovery, recovery_kind, recorded, advance,
}
use redline_os.Restore.Attempt.{Attempt}
use redline_os.Restore.Attempt.Follows.{
  Follows, Follows-bind, Follows-then, Follows-pure, Follows-raise, Follows-require, Follows-call,
  Follows-note, Follows-or_fail, Follows-or_record-call, Follows-or_record-touch, CanFail,
  Follows-step, Follows-if,
}
use redline_os.Restore.Execution.{
  Request, plan_or_fail, capture_sources, confirm_stability, confirm_quiescence, probe_and_note,
  dispose_one, dispose_as, dispose_container, dispose_sidecars, dispose_targets, dispose_database,
  dispose_config, open_attempt, prepare_recovery, is_degraded, is_safe_regular,
}
use redline_os.Restore.Execution.Baseline.{Disposed, is_unreadable}

module _ (P : Platform) (K : System) (q : Request) where
  abbrev pub In : {A : Type 0} → ℕ → Exec (Attempt K) A → ℕ → Type 0
  In n m k = Follows recovery K (at n calm) m (at k calm)

  plan-In :
      (blocked validated : States.RestoreState) (n k : ℕ)
      → CanFail recovery K blocked (at n calm)
      → advance recovery (recorded validated) (at n calm) ≡ some (at k calm)
      → In n (plan_or_fail P K q blocked validated) k
  unfolding plan_or_fail
  plan-In blocked validated n k b v = Follows-bind (at n calm) (Follows-call (at n calm) _ b.1) λ o.
      Follows-then (at n calm) (Follows-or_fail _ _ blocked _ b)
        (Follows-then (at k calm) (Follows-note _ validated _ v b.1) (Follows-pure _ _))

  capture_sources-In : (plan : RecoveryPlanResult) → In 2 (capture_sources P K q plan) 4
  unfolding capture_sources recovery_kind nat_eq
  capture_sources-In plan = Follows-step States.capture_intent (at 2 calm) refl refl (
      Follows-bind (at 2 calm) (Follows-or_record-call _ _ States.capture_failed _ _ (refl, refl))
        λ c. Follows-step States.capture_complete (at 3 calm) refl refl (
          Follows-step States.capture_reverification_intent (at 3 calm) refl refl (
            Follows-then (at 3 calm)
              (Follows-or_record-call _ _ States.capture_reverification_failed _ _ (refl, refl))
              (Follows-step States.capture_reverified (at 4 calm) refl refl (
                Follows-then (at 4 calm)
                  (Follows-or_fail _ _ States.capture_changed_during_capture _ (refl, refl))
                  (Follows-pure _ _))))))

  pub confirm_stability-In :
      (intent mismatch confirmed : States.RestoreState) (n k : ℕ) (c : CaptureResult) (d : Disposed)
      → advance recovery (recorded intent) (at n calm) ≡ some (at n calm)
      → CanFail recovery K mismatch (at n calm)
      → advance recovery (recorded confirmed) (at n calm) ≡ some (at k calm)
      → In n (confirm_stability P K q intent mismatch confirmed c d) k
  unfolding confirm_stability
  confirm_stability-In intent mismatch confirmed n k c d i m e =
      Follows-step intent (at n calm) i m.1 (
        Follows-bind (at n calm) (Follows-call _ _ m.1) λ stable.
          Follows-then (at n calm) (Follows-or_fail _ stable mismatch _ m)
            (Follows-note _ confirmed _ e m.1))

  confirm_quiescence-In : (reclass : RecoveryPlanResult) → In 6 (confirm_quiescence P K q reclass) 7
  unfolding confirm_quiescence probe_and_note recovery_kind nat_eq
  confirm_quiescence-In reclass =
      Follows-if _ _ (is_degraded reclass.database.condition)
        (Follows-note _ States.quiescence_not_applicable _ refl refl)
        (Follows-then (at 6 calm)
          (Follows-or_record-call _ _ States.quiescence_failed _ _ (refl, refl))
          (Follows-note _ States.quiescence_confirmed _ refl refl))

  open_attempt-In : In 0 (open_attempt P K q) 0
  unfolding open_attempt
  open_attempt-In = Follows-then (at 0 calm) (Follows-call _ _ refl) (
      Follows-then (at 0 calm) (Follows-call _ _ refl) (
        Follows-then (at 0 calm) (Follows-require _ q.has_backup_path _ refl)
          (Follows-then (at 0 calm) (Follows-call _ _ refl) (Follows-call _ _ refl))))

  pub prepare_recovery-In : In 0 (prepare_recovery P K q) 7
  unfolding prepare_recovery recovery_kind nat_eq
  prepare_recovery-In = Follows-then (at 0 calm) open_attempt-In (
      Follows-step States.recovery_initiated (at 1 calm) refl refl (
        Follows-bind (at 2 calm) (plan-In _ _ 1 2 (refl, refl) refl) λ plan.
          Follows-bind (at 4 calm) (capture_sources-In plan) λ c.
            Follows-step States.source_reclassification_intent (at 4 calm) refl refl (
              Follows-bind (at 5 calm) (plan-In _ _ 4 5 (refl, refl) refl) λ reclass.
                Follows-then (at 6 calm)
                  (confirm_stability-In _ _ _ 5 6 c [] refl (refl, refl) refl)
                  (Follows-then (at 7 calm) (confirm_quiescence-In reclass) (Follows-pure _ _)))))

  dispose_one-In :
      (target_kind path : String) (expected_regular : Bool) (e : ExpectedTargetState)
      → In 7 (dispose_one P K q target_kind path expected_regular e) 7
  unfolding dispose_one recovery_kind nat_eq
  dispose_one-In target_kind path expected_regular e =
      Follows-step States.disposition_intent (at 7 (intended disposal)) refl refl (
        Follows-bind (at 7 (intended disposal)) (Follows-call _ _ refl) λ stable.
          Follows-then (at 7 (intended disposal))
            (Follows-or_fail _ stable States.disposition_failed _ (refl, refl))
            (Follows-bind (at 7 (touching disposal))
              (Follows-or_record-touch 7 disposal _ States.disposition_failed _ _ refl (refl, refl))
              λ r.
                Follows-step States.disposition_complete (at 7 calm) refl refl (Follows-pure _ _)))

  dispose_as-In :
      (target_kind path : String) (expected_regular : Bool) (m : Exec K.State ExpectedTargetState)
      → In 7 (dispose_as P K q target_kind path expected_regular m) 7
  unfolding dispose_as
  dispose_as-In target_kind path expected_regular m =
      Follows-bind (at 7 calm) (Follows-call _ _ refl) λ e.
        Follows-bind (at 7 calm) (dispose_one-In target_kind path expected_regular e)
          λ r. Follows-pure _ _

  dispose_container-In : (c : Option CaptureItemRecord) → In 7 (dispose_container P K q c) 7
  dispose_container-In none = Follows-raise _ _ _ refl
  dispose_container-In (some directory) = dispose_as-In _ _ _ _

  dispose_sidecars-In :
      (c : CaptureResult) (suffixes : List String) (conditions : List SidecarCondition)
      → In 7 (dispose_sidecars P K q c suffixes conditions) 7
  unfolding dispose_sidecars
  dispose_sidecars-In c [] conditions = Follows-pure _ _
  dispose_sidecars-In c (suffix ∷ suffixes) [] = Follows-pure _ _
  dispose_sidecars-In c (suffix ∷ suffixes) (condition ∷ conditions) =
      Follows-bind (at 7 calm)
        (Follows-if _ _ (is_safe_regular condition) (dispose_as-In _ _ _ _) (Follows-pure _ _))
        λ first.
          Follows-bind (at 7 calm) (dispose_sidecars-In c suffixes conditions)
            λ others. Follows-pure _ _

  pub dispose_targets-In :
      (reclass : RecoveryPlanResult) (c : CaptureResult) → In 7 (dispose_targets P K q reclass c) 7
  unfolding dispose_targets dispose_database dispose_config
  dispose_targets-In reclass c =
      Follows-bind (at 7 calm)
        (Follows-if _ _ (reclass.database.disposition_required || is_unreadable c.database.outcome)
          (dispose_as-In _ _ _ _) (Follows-pure _ _))
        λ database.
          Follows-bind (at 7 calm)
            (Follows-if _ _ reclass.config.disposition_required
              (dispose_container-In c.config_directory) (Follows-pure _ _))
            λ config.
              Follows-bind (at 7 calm)
                (dispose_sidecars-In c sidecar_suffixes reclass.sidecar_assessments)
                λ sidecars. Follows-pure _ _

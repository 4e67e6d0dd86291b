-- ===== src/Restore/Manager/Order.antt =====
-- restore/manager.py: a whole restore follows the protocol.
use redline_os.Prelude.{ℕ, String, [], refl, nat_eq}
use redline_os.Exec.{Exec}
use redline_os.Render.World.{Platform}
use redline_os.Restore.System.{System, Manifest}
use redline_os.Restore.Staging.{Staged}
use redline_os.Restore.Journal.States
use redline_os.Restore.Protocol.{
  at, calm, intended, touching, database_swap, config_aside, config_install, restore_kind, phase_of,
}
use redline_os.Restore.Protocol
use redline_os.Restore.Attempt.{Attempt}
use redline_os.Restore.Attempt.Follows.{
  Follows, Ends, Follows-bind, Follows-then, Follows-pure, Follows-call, Follows-note,
  Follows-require, Follows-or_record-call, Follows-or_record-touch, Follows-step,
}
use redline_os.Restore.Manager.{
  Request, restore, open_restore, verify_target, stage_target, replace_live, verify_live,
}

module _ (P : Platform) (K : System) (q : Request) where
  abbrev In : {A : Type 0} → ℕ → Exec (Attempt K) A → ℕ → Type 0
  In n m k = Follows Protocol.restore K (at n calm) m (at k calm)

  open_restore-In : In 0 (open_restore P K q) 0
  unfolding open_restore
  open_restore-In = Follows-then (at 0 calm) (Follows-call _ _ refl) (
      Follows-then (at 0 calm) (Follows-require _ _ _ refl) (
        Follows-then (at 0 calm) (Follows-call _ _ refl) (
          Follows-then (at 0 calm) (Follows-require _ q.has_backup_path _ refl)
            (Follows-then (at 0 calm) (Follows-call _ _ refl) (Follows-call _ _ refl)))))

  verify_target-In : In 1 (verify_target P K q) 4
  unfolding verify_target restore_kind nat_eq
  verify_target-In =
      Follows-bind (at 1 calm)
        (Follows-or_record-call _ _ States.target_verification_failed _ _ (refl, refl))
        λ package_dir. Follows-step States.target_verified (at 2 calm) refl refl (
          Follows-bind (at 2 calm) (Follows-call _ _ refl) λ manifest.
            Follows-then (at 2 calm)
              (Follows-or_record-call _ _ States.schema_incompatible _ _ (refl, refl))
              (Follows-step States.schema_compatible (at 3 calm) refl refl (
                Follows-bind (at 3 calm)
                  (Follows-or_record-call _ _ States.pre_restore_snapshot_failed _ _ (refl, refl))
                  λ id.
                    Follows-step States.pre_restore_snapshot_complete (at 4 calm) refl refl
                      (Follows-pure _ _))))

  stage_target-In :
      (package_dir : String) (manifest : Manifest)
      → In 4 (stage_target P K q package_dir manifest) 7
  unfolding stage_target restore_kind nat_eq
  stage_target-In package_dir manifest =
      Follows-then (at 4 calm)
        (Follows-or_record-call _ _ States.quiescence_failed _ _ (refl, refl))
        (Follows-step States.quiescence_confirmed (at 5 calm) refl refl (
          Follows-then (at 5 calm)
            (Follows-or_record-call _ _ States.sidecar_present_pre _ _ (refl, refl))
            (Follows-step States.sidecar_check_passed_pre (at 6 calm) refl refl (
              Follows-step States.staging_intent (at 6 calm) refl refl (
                Follows-bind (at 6 calm)
                  (Follows-or_record-call _ _ States.staging_failed _ _ (refl, refl))
                  λ staged.
                    Follows-step States.staging_complete (at 7 calm) refl refl
                      (Follows-pure _ _))))))

  replace_live-In : (staged : Staged) → In 7 (replace_live P K q staged) 10
  unfolding replace_live restore_kind nat_eq
  replace_live-In staged =
      Follows-step States.db_replace_intent (at 7 (intended database_swap)) refl refl (
        Follows-then (at 7 (touching database_swap))
          (Follows-or_record-touch 7 database_swap _ States.db_replace_failed _ _ refl (refl, refl))
          (Follows-step States.db_replaced (at 8 calm) refl refl (
            Follows-bind (at 8 calm) (Follows-call _ _ refl) λ path.
              Follows-step States.config_rename_aside_intent (at 8 (intended config_aside)) refl
                refl
                (Follows-then (at 8 (touching config_aside))
                  (Follows-or_record-touch 8 config_aside _ States.config_replace_failed _ _ refl
                    (refl, refl))
                  (Follows-step States.config_renamed_aside (at 9 calm) refl refl (
                    Follows-step States.config_install_intent (at 9 (intended config_install)) refl
                      refl
                      (Follows-then (at 9 (touching config_install))
                        (Follows-or_record-touch 9 config_install _ States.config_replace_failed _ _
                          refl (refl, refl))
                        (Follows-step States.config_replaced (at 10 calm) refl refl
                          (Follows-pure _ _)))))))))

  verify_live-In : (manifest : Manifest) → In 10 (verify_live P K q manifest) 11
  unfolding verify_live restore_kind nat_eq
  verify_live-In manifest = Follows-step States.verification_intent (at 10 calm) refl refl (
      Follows-then (at 10 calm)
        (Follows-or_record-call _ _ States.verification_failed _ _ (refl, refl))
        (Follows-note _ States.verified_success _ refl refl))

  restore-In : In 0 (restore P K q) 11
  unfolding restore restore_kind nat_eq
  restore-In = Follows-then (at 0 calm) open_restore-In (
      Follows-step States.restore_initiated (at 1 calm) refl refl (
        Follows-bind (at 4 calm) verify_target-In λ target.
          Follows-bind (at 7 calm) (stage_target-In target.0 target.1) λ staged.
            Follows-bind (at 10 calm) (replace_live-In staged)
              λ path. Follows-then (at 11 calm) (verify_live-In target.1) (Follows-pure _ _)))

  -- Whatever the system answers, the states that RestoreManager.restore records and the changes that it
  -- tries are a run of the restore's protocol: to the last milestone if it returns, and not that far if
  -- it raises.
  pub restore-Ends :
      (s : K.State)
      → Ends Protocol.restore K (at 11 calm) (restore P K q (record { state = s; log = [] }))
  unfolding phase_of
  restore-Ends s = restore-In.run (record { state = s; log = [] }) refl

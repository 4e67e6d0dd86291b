-- ===== src/Restore/Manager.antt =====
-- restore/manager.py: RestoreManager.restore, and its preview restore_plan. Of what the journal records
-- the details are left out, and of the issues the texts.
pub mod Order
pub mod Safe
pub mod Plan
use redline_os.Prelude.{
  ℕ, String, Bool, true, false, not, List, [], ◌∷◌, ◌++◌, ◌==◌, string_eq, if◌then◌else◌, length,
}
use redline_os.Errors.{
  Error, error_eq, backup_error, backup_configuration_error, restore_confirmation_error,
  restore_target_unavailable_error, restore_pre_restore_snapshot_failed,
}
use redline_os.Exec
use redline_os.Exec.{Exec, ok, err, pure, raise, require}
use redline_os.Render.World.{Platform}
use redline_os.Restore.System.{System, Manifest}
use redline_os.Restore.Staging.{
  require_no_sidecars, find_present_sidecars, no_paths, Staged, stage_both, superseded_config_path,
  replace_database, rename_config_aside, install_staged_config,
}
use redline_os.Restore.Authorization.{
  is_restore_error, QuiescenceAttestations, require_attestations, validate_backup_id,
  probe_quiescence,
}
use redline_os.Restore.Verification.{verify_restore}
use redline_os.Restore.Journal.States
use redline_os.Restore.Protocol.{database_swap, config_aside, config_install}
use redline_os.Restore.Attempt.{Attempt, ◌>>=◌, ◌>>◌, call, touch, note, or_record}

-- RestoreManager's fields and the arguments of `restore`.
pub record Request : Type 0 where
  pub db_path : String
  pub config_dir : String
  pub backup_id : String
  pub confirm_backup_id : String
  pub attestations : QuiescenceAttestations
  pub has_backup_path : Bool
  pub restore_id : String
  pub journal_dir : String
  pub completed_at : String

pub record RestoreResult : Type 0 where
  pub restore_id : String
  pub backup_id : String
  pub pre_restore_backup_id : String
  pub journal_dir : String
  pub database_sha256 : String
  pub database_size_bytes : ℕ
  pub config_file_count : ℕ
  pub superseded_config_path : String
  pub completed_at : String

abbrev pub same : Error → Error
same e = e

-- `except BackupError`
unfoldable pub is_backup_error : Error → Bool
is_backup_error backup_error = true
is_backup_error backup_configuration_error = true
is_backup_error _ = false

module _ (P : Platform) (K : System) (q : Request) where
  unfoldable pub open_restore : Exec (Attempt K) (Unit {0})
  unfolding validate_backup_id require_attestations
  open_restore = do
    call (validate_backup_id K q.backup_id)
    require (q.confirm_backup_id == q.backup_id) restore_confirmation_error
    call (require_attestations K q.attestations)
    require q.has_backup_path backup_configuration_error
    call K.validate_backup_root
    call K.create_journal

  -- The target backup, its schema, and the backup of the live installation.
  unfoldable pub verify_target : Exec (Attempt K) (String × Manifest × String)
  unfolding is_backup_error is_restore_error
  verify_target = do
    package_dir ←
        or_record is_backup_error States.target_verification_failed
          (λ _. restore_target_unavailable_error) (call (K.verify_backup q.backup_id))
    note States.target_verified
    manifest ← call (K.load_manifest package_dir)
    or_record is_restore_error States.schema_incompatible same
        (call (K.check_schema_compatible (P.join package_dir manifest.database.relative_path)))
    note States.schema_compatible
    pre_restore_backup_id ←
        or_record is_backup_error States.pre_restore_snapshot_failed
          (λ _. restore_pre_restore_snapshot_failed) (call K.create_backup)
    note States.pre_restore_snapshot_complete
    pure (package_dir, manifest, pre_restore_backup_id)

  -- The quiescence, the sidecars and the staging.
  unfoldable pub stage_target : String → Manifest → Exec (Attempt K) Staged
  unfolding probe_quiescence require_no_sidecars stage_both is_restore_error
  stage_target package_dir manifest = do
    or_record is_restore_error States.quiescence_failed same (call (probe_quiescence K q.db_path))
    note States.quiescence_confirmed
    or_record is_restore_error States.sidecar_present_pre same
        (call (require_no_sidecars K q.db_path))
    note States.sidecar_check_passed_pre
    note States.staging_intent
    staged ←
        or_record is_restore_error States.staging_failed same
          (call (stage_both P K package_dir manifest q.db_path q.config_dir q.restore_id))
    note States.staging_complete
    pure staged

  unfoldable pub replace_live : Staged → Exec (Attempt K) String
  unfolding replace_database superseded_config_path rename_config_aside install_staged_config
      is_restore_error
  replace_live staged = do
    note States.db_replace_intent
    or_record is_restore_error States.db_replace_failed same
        (touch database_swap (replace_database K staged.staged_db_path q.db_path))
    note States.db_replaced
    superseded_path ← call (superseded_config_path P K q.config_dir q.restore_id)
    note States.config_rename_aside_intent
    or_record is_restore_error States.config_replace_failed same
        (touch config_aside (rename_config_aside K q.config_dir superseded_path))
    note States.config_renamed_aside
    note States.config_install_intent
    or_record is_restore_error States.config_replace_failed same
        (touch config_install (install_staged_config K staged.staged_config_dir q.config_dir))
    note States.config_replaced
    pure superseded_path

  unfoldable pub verify_live : Manifest → Exec (Attempt K) (Unit {0})
  unfolding verify_restore is_restore_error
  verify_live manifest = do
    note States.verification_intent
    or_record is_restore_error States.verification_failed same
        (call (verify_restore P K q.db_path q.config_dir manifest q.backup_id))
    note States.verified_success

  unfoldable pub restore : Exec (Attempt K) RestoreResult
  unfolding open_restore verify_target stage_target replace_live verify_live
  restore = do
    open_restore
    note States.restore_initiated
    (package_dir, manifest, pre_restore_backup_id) ← verify_target
    staged ← stage_target package_dir manifest
    superseded_path ← replace_live staged
    verify_live manifest
    pure (record {
      restore_id = q.restore_id;
      backup_id = q.backup_id;
      pre_restore_backup_id = pre_restore_backup_id;
      journal_dir = q.journal_dir;
      database_sha256 = manifest.database.sha256;
      database_size_bytes = manifest.database.size_bytes;
      config_file_count = length manifest.config_files;
      superseded_config_path = superseded_path;
      completed_at = q.completed_at;
    })

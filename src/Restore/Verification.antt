-- ===== src/Restore/Verification.antt =====
-- restore/verification.py: the steps 0 to 6 after a restore. `read_tables` counts the rows of the three
-- tables.
use redline_os.Prelude.{String, some, List, [], ◌∷◌}
use redline_os.Errors.{
  error_eq, config_error, backup_error, safe_file_error, restore_verification_failed,
}
use redline_os.Exec.{Exec, pure, require, attempt, ◌>>=◌, ◌>>◌}
use redline_os.Render.World.{Platform}
use redline_os.Restore.Classification.{is_intact}
use redline_os.Restore.System.{System, ManifestEntry, Manifest}
use redline_os.Restore.Staging.{require_no_sidecars, same_file, in_place_of, in_place_of_any}
use redline_os.Restore.Authorization.{is_restore_error, is_sqlite_error}

module _ (P : Platform) (K : System) where
  -- STEP 0
  verify_no_sidecars : String → Exec K.State (Unit {0})
  unfolding require_no_sidecars is_restore_error
  verify_no_sidecars db_path =
      attempt (require_no_sidecars K db_path)
        (in_place_of_any is_restore_error restore_verification_failed)

  -- STEP 1, for one file
  unfoldable pub verify_bytes : String → ManifestEntry → Exec K.State (Unit {0})
  unfolding error_eq
  verify_bytes path entry = do
    actual ←
        attempt (K.hash_stable_file path) (in_place_of safe_file_error restore_verification_failed)
    require (same_file actual (entry.sha256, entry.size_bytes)) restore_verification_failed

  unfoldable pub verify_config_bytes : String → List ManifestEntry → Exec K.State (Unit {0})
  unfolding verify_bytes
  verify_config_bytes config_dir [] = pure tt
  verify_config_bytes config_dir (entry ∷ entries) = do
    verify_bytes (P.join config_dir (P.name entry.relative_path)) entry
    verify_config_bytes config_dir entries

  -- STEP 2 and STEP 3
  verify_database : String → Exec K.State (Unit {0})
  unfolding is_intact is_restore_error is_sqlite_error
  verify_database db_path = do
    rows ←
        attempt (K.integrity_check db_path)
          (in_place_of_any is_sqlite_error restore_verification_failed)
    require (is_intact (some rows)) restore_verification_failed
    attempt (K.check_schema_compatible db_path)
        (in_place_of_any is_restore_error restore_verification_failed)

  -- STEP 4 to STEP 6
  verify_reads : String → String → String → Exec K.State (Unit {0})
  unfolding error_eq is_sqlite_error
  verify_reads db_path config_dir backup_id = do
    attempt (K.load_config config_dir) (in_place_of config_error restore_verification_failed)
    attempt (K.require_safe_files config_dir) (in_place_of backup_error restore_verification_failed)
    attempt (K.read_tables db_path) (in_place_of_any is_sqlite_error restore_verification_failed)
    attempt (K.verify_backup backup_id) (in_place_of backup_error restore_verification_failed)
    pure tt

  unfoldable pub verify_restore : String → String → Manifest → String → Exec K.State (Unit {0})
  unfolding verify_no_sidecars verify_config_bytes verify_database verify_reads
  verify_restore db_path config_dir manifest backup_id = do
    verify_no_sidecars db_path
    verify_bytes db_path manifest.database
    verify_config_bytes config_dir manifest.config_files
    verify_database db_path
    verify_reads db_path config_dir backup_id

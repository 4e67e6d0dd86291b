-- ===== src/Restore/Staging.antt =====
-- restore/staging.py, restore/sidecar.py: the backup's files are copied beside the live ones, checked,
-- and put in their place.
use redline_os.Prelude.{
  ℕ, String, ◌<>◌, Bool, true, false, not, ◌&&◌, List, [], ◌∷◌, ◌==◌, nat_eq, string_eq,
  if◌then◌else◌,
}
use redline_os.Errors.{
  Error, error_eq, os_error, safe_file_error, restore_path_collision_error, restore_staging_failed,
  restore_database_replacement_failed, restore_config_replacement_failed, restore_sidecar_present,
}
use redline_os.Exec.{Exec, pure, raise, require, attempt, ◌>>=◌, ◌>>◌}
use redline_os.Render.World.{Platform}
use redline_os.Restore.System.{System, ManifestEntry, Manifest}

abbrev pub same_file : String × ℕ → String × ℕ → Bool
same_file (sha256, size) (other_sha256, other_size) = sha256 == other_sha256 && size == other_size

-- A handler that raises another error in place of one.
abbrev pub in_place_of {ℓ κ} : {A : Type ℓ} → {S : Type κ} → Error → Error → Error → Exec S A
in_place_of caught raised e = raise (if e == caught then raised else e)

-- The same for a class of errors.
abbrev pub in_place_of_any {ℓ κ} :
    {A : Type ℓ} → {S : Type κ} → (Error → Bool) → Error → Error → Exec S A
in_place_of_any is_caught raised e = raise (if is_caught e then raised else e)

abbrev pub sidecar_suffixes : List String
sidecar_suffixes = "-journal" ∷ "-wal" ∷ "-shm" ∷ []

abbrev pub no_paths : List String → Bool
no_paths [] = true
no_paths (path ∷ paths) = false

-- What staging leaves: the manifest, and the paths of the staged database and configuration.
pub record Staged : Type 0 where
  pub manifest : Manifest
  pub staged_db_path : String
  pub staged_config_dir : String

module _ (K : System) where
  present_of : String → List String → Exec K.State (List String)
  present_of db_path [] = pure []
  present_of db_path (suffix ∷ suffixes) = do
    there ← K.exists (db_path <> suffix)
    others ← present_of db_path suffixes
    pure (if there then (db_path <> suffix) ∷ others else others)

  unfoldable pub find_present_sidecars : String → Exec K.State (List String)
  unfolding present_of
  find_present_sidecars db_path = present_of db_path sidecar_suffixes

  unfoldable pub require_no_sidecars : String → Exec K.State (Unit {0})
  unfolding find_present_sidecars
  require_no_sidecars db_path = do
    present ← find_present_sidecars db_path
    require (no_paths present) restore_sidecar_present

  -- `_copy_and_verify`; `K.copy` makes the folder of the destination and flushes it.
  unfoldable pub copy_and_verify : String → String → ManifestEntry → Exec K.State (Unit {0})
  unfolding error_eq
  copy_and_verify source_path destination_path entry = do
    streamed ←
        attempt (K.copy source_path destination_path)
          (in_place_of safe_file_error restore_staging_failed)
    actual ←
        attempt (K.hash_stable_file destination_path)
          (in_place_of safe_file_error restore_staging_failed)
    require (same_file actual streamed) restore_staging_failed
    require (same_file actual (entry.sha256, entry.size_bytes)) restore_staging_failed

  unfoldable pub replace_database : String → String → Exec K.State (Unit {0})
  unfolding error_eq
  replace_database staged_db_path live_db_path =
      attempt (K.replace staged_db_path live_db_path)
        (in_place_of os_error restore_database_replacement_failed)

  unfoldable pub rename_config_aside : String → String → Exec K.State (Unit {0})
  unfolding error_eq
  rename_config_aside live_config_dir superseded_path =
      attempt (K.rename live_config_dir superseded_path)
        (in_place_of os_error restore_config_replacement_failed)

  unfoldable pub install_staged_config : String → String → Exec K.State (Unit {0})
  unfolding error_eq
  install_staged_config staged_config_dir live_config_dir =
      attempt (K.rename staged_config_dir live_config_dir)
        (in_place_of os_error restore_config_replacement_failed)

  require_same_volume : String → String → Exec K.State (Unit {0})
  require_same_volume a b = do
    device_a ← K.device a
    device_b ← K.device b
    require (device_a == device_b) restore_staging_failed

  require_vacant : String → Exec K.State (Unit {0})
  require_vacant path = do there ← K.exists path; require (not there) restore_path_collision_error

module _ (P : Platform) (K : System) where
  -- The folder of this attempt beside a live path.
  abbrev pub staging_dir : String → String → String → String
  staging_dir live_path restore_id part =
      P.join (P.join (P.join (P.parent live_path) ".redline_restore_staging") restore_id) part

  unfoldable pub stage_database : String → ManifestEntry → String → String → Exec K.State String
  unfolding copy_and_verify require_same_volume require_vacant
  stage_database target_db_path db_manifest_entry live_db_path restore_id = do
    require_vacant K (staging_dir live_db_path restore_id "db")
    K.mkdir (staging_dir live_db_path restore_id "db")
    copy_and_verify K target_db_path
        (P.join (staging_dir live_db_path restore_id "db") (P.name live_db_path)) db_manifest_entry
    require_same_volume K (P.join (staging_dir live_db_path restore_id "db") (P.name live_db_path))
        (P.parent live_db_path)
    pure (P.join (staging_dir live_db_path restore_id "db") (P.name live_db_path))

  -- The loop of `stage_config`.
  unfoldable pub stage_files : String → String → List ManifestEntry → Exec K.State (Unit {0})
  unfolding copy_and_verify
  stage_files target_config_dir staging [] = pure tt
  stage_files target_config_dir staging (entry ∷ entries) = do
    copy_and_verify K (P.join target_config_dir (P.name entry.relative_path))
        (P.join staging (P.name entry.relative_path)) entry
    stage_files target_config_dir staging entries

  unfoldable pub stage_config : String → List ManifestEntry → String → String → Exec K.State String
  unfolding stage_files require_same_volume require_vacant
  stage_config target_config_dir config_manifest_entries live_config_dir restore_id = do
    require_vacant K (staging_dir live_config_dir restore_id "config")
    K.mkdir (staging_dir live_config_dir restore_id "config")
    stage_files target_config_dir (staging_dir live_config_dir restore_id "config")
        config_manifest_entries
    require_same_volume K (staging_dir live_config_dir restore_id "config")
        (P.parent live_config_dir)
    pure (staging_dir live_config_dir restore_id "config")

  abbrev superseded_config : String → String → String
  superseded_config live_config_dir restore_id =
      P.join (P.parent live_config_dir) (P.name live_config_dir <> ("__superseded-" <> restore_id))

  unfoldable pub superseded_config_path : String → String → Exec K.State String
  unfolding require_vacant
  superseded_config_path live_config_dir restore_id =
      require_vacant K (superseded_config live_config_dir restore_id)
      >> pure (superseded_config live_config_dir restore_id)

  -- `target_db_path` and `target_config_dir` in the package, and both staged.
  unfoldable pub stage_both : String → Manifest → String → String → String → Exec K.State Staged
  unfolding stage_database stage_config
  stage_both package_dir manifest db_path config_dir restore_id = do
    staged_db_path ←
        stage_database (P.join package_dir manifest.database.relative_path) manifest.database
          db_path restore_id
    staged_config_dir ←
        stage_config (P.join (P.join package_dir "payload") "config") manifest.config_files
          config_dir restore_id
    pure (record {
      manifest = manifest;
      staged_db_path = staged_db_path;
      staged_config_dir = staged_config_dir;
    })

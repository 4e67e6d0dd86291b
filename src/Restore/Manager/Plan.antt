-- ===== src/Restore/Manager/Plan.antt =====
-- restore/manager.py: RestoreManager.restore_plan, which changes nothing. The texts of the issues are
-- left out.
use redline_os.Prelude.{
  String, Bool, true, false, ◌||◌, Option, none, some, List, [], ◌∷◌, ◌++◌, if◌then◌else◌, ◌==◌,
}
use redline_os.Errors.{Error, error_eq, os_error, value_error, key_error}
use redline_os.Exec.{Exec, pure, raise, attempt, ◌>>=◌, ◌>>◌}
use redline_os.Render.World.{Platform}
use redline_os.Restore.System.{System}
use redline_os.Restore.Staging.{find_present_sidecars, no_paths}
use redline_os.Restore.Authorization.{is_restore_error, validate_backup_id, probe_quiescence}
use redline_os.Restore.Manager.{is_backup_error}

pub data RestoreIssue : Type 0 where
  target_unverified schema_incompatible schema_unchecked not_quiescent sidecars_present :
      RestoreIssue

pub record RestorePlanResult : Type 0 where
  pub backup_id : String
  pub target_verified : Bool
  pub schema_compatible : Bool
  pub quiescence_probe_passed : Bool
  pub sidecar_check_passed : Bool
  pub sidecars : List String
  pub blocking_issues : List RestoreIssue

abbrev pub unless : Bool → RestoreIssue → List RestoreIssue
unless true issue = []
unless false issue = issue ∷ []

-- The issue of the schema, which is checked only if the target was verified.
abbrev pub schema_issues : Bool → Bool → List RestoreIssue
schema_issues false compatible = schema_unchecked ∷ []
schema_issues true compatible = unless compatible schema_incompatible

abbrev pub plan_of : String → Bool → Bool → Bool → List String → RestorePlanResult
plan_of backup_id verified compatible quiescent sidecars = record {
  backup_id = backup_id;
  target_verified = verified;
  schema_compatible = compatible;
  quiescence_probe_passed = quiescent;
  sidecar_check_passed = no_paths sidecars;
  sidecars = sidecars;
  blocking_issues =
      unless verified target_unverified
      ++ (schema_issues verified compatible
          ++ (unless quiescent not_quiescent ++ unless (no_paths sidecars) sidecars_present));
}

-- `RestorePlanResult.would_proceed`
unfoldable pub would_proceed : RestorePlanResult → Bool
would_proceed plan = elim plan.blocking_issues [ [] ↦ true | issue ∷ issues ↦ false ]

abbrev is_schema_error : Error → Bool
is_schema_error e = is_restore_error e || (e == os_error || (e == value_error || e == key_error))

abbrev unless_caught {ℓ} : {S : Type ℓ} → {A : Type 0} → (Error → Bool) → A → Error → Exec S A
unless_caught is_caught default e = if is_caught e then pure default else raise e

module _ (P : Platform) (K : System) where
  schema_agrees : String → Exec K.State Bool
  schema_agrees package_dir = do
    manifest ← K.load_manifest package_dir
    K.check_schema_compatible (P.join package_dir manifest.database.relative_path)
    pure true

  abbrev check_schema : Option String → Exec K.State Bool
  check_schema none = pure false
  check_schema (some package_dir) =
      attempt (schema_agrees package_dir) (unless_caught is_schema_error false)

  abbrev is_some : Option String → Bool
  is_some none = false
  is_some (some package_dir) = true

  unfoldable pub restore_plan : String → String → Exec K.State RestorePlanResult
  unfolding validate_backup_id is_backup_error schema_agrees is_restore_error error_eq
      probe_quiescence find_present_sidecars
  restore_plan db_path backup_id = do
    validate_backup_id K backup_id
    package_dir ←
        attempt (K.verify_backup backup_id >>= λ found. pure (some found))
          (unless_caught is_backup_error none)
    compatible ← check_schema package_dir
    quiescent ←
        attempt (probe_quiescence K db_path >> pure true) (unless_caught is_restore_error false)
    sidecars ← find_present_sidecars K db_path
    pure (plan_of backup_id (is_some package_dir) compatible quiescent sidecars)

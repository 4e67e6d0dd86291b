-- ===== src/Restore/Planning.antt =====
-- restore/recovery_planning.py, restore/sidecar_classification.py: whether a recovery would proceed.
-- What the backup says (`verify_backup`, and the comparison of the schemas that follows it) is an
-- argument, as is what the disk and SQLite say. The texts of the issues are left out.
pub mod Exact
use redline_os.Prelude.{String, Bool, true, false, not, Option, List, [], ◌∷◌, ◌++◌, if◌then◌else◌}
use redline_os.Restore.Disk.{Lstat, not_found, unreadable, found, Stat, is_unsafe_link}
use redline_os.Restore.Classification.{
  RecoveryFeasibility, recovery_blocked, recoverable, not_applicable, SourceSideAssessment,
  ConfigFile, classify_database_source, classify_config_source,
}

pub data SidecarCondition : Type 0 where
  absent safe_regular wrong_type unsafe : SidecarCondition

unfoldable pub classify_sidecar : Lstat → SidecarCondition
classify_sidecar not_found = absent
classify_sidecar unreadable = unsafe
classify_sidecar (found st) =
    if is_unsafe_link st then unsafe else if not st.is_regular then wrong_type else safe_regular

-- `classify_sidecars`, from what os.lstat says of the path with each suffix.
unfoldable pub classify_sidecars : (String → Lstat) → List SidecarCondition
unfolding classify_sidecar
classify_sidecars seen =
    classify_sidecar (seen "-journal")
    ∷ classify_sidecar (seen "-wal")
    ∷ classify_sidecar (seen "-shm")
    ∷ []

pub data BlockingIssue : Type 0 where
  backup_unverified schema_incompatible schema_unchecked : BlockingIssue
  database_blocked config_blocked sidecar_blocked : BlockingIssue

-- What a plan is built from.
pub record Observed : Type 0 where
  pub backup_verifies : Bool
  pub schemas_agree : Bool
  pub database_seen : Lstat
  pub database_parent : Bool
  pub integrity_check : Option (List String)
  pub config_seen : Lstat
  pub config_parent : Bool
  pub config_files : List ConfigFile
  pub sidecars_seen : String → Lstat

pub record RecoveryPlanResult : Type 0 where
  pub target_verified : Bool
  pub schema_compatible : Bool
  pub database : SourceSideAssessment
  pub config : SourceSideAssessment
  pub sidecar_assessments : List SidecarCondition
  pub blocking_issues : List BlockingIssue

abbrev pub backup_issues : Bool → Bool → List BlockingIssue
backup_issues false agree = backup_unverified ∷ schema_unchecked ∷ []
backup_issues true false = schema_incompatible ∷ []
backup_issues true true = []

abbrev pub side_issues : BlockingIssue → RecoveryFeasibility → List BlockingIssue
side_issues issue recovery_blocked = issue ∷ []
side_issues issue recoverable = []
side_issues issue not_applicable = []

unfoldable pub sidecar_issues : List SidecarCondition → List BlockingIssue
sidecar_issues [] = []
sidecar_issues (absent ∷ conditions) = sidecar_issues conditions
sidecar_issues (safe_regular ∷ conditions) = sidecar_issues conditions
sidecar_issues (wrong_type ∷ conditions) = sidecar_blocked ∷ sidecar_issues conditions
sidecar_issues (unsafe ∷ conditions) = sidecar_blocked ∷ sidecar_issues conditions

unfoldable pub build_recovery_plan : Observed → RecoveryPlanResult
unfolding classify_sidecars sidecar_issues
build_recovery_plan o =
    let database = classify_database_source o.database_seen o.database_parent o.integrity_check in
    let config = classify_config_source o.config_seen o.config_parent o.config_files in
    let sidecars = classify_sidecars o.sidecars_seen in
    record {
      target_verified = o.backup_verifies;
      schema_compatible = if o.backup_verifies then o.schemas_agree else false;
      database = database;
      config = config;
      sidecar_assessments = sidecars;
      blocking_issues =
          backup_issues o.backup_verifies o.schemas_agree
          ++ (side_issues database_blocked database.feasibility
              ++ (side_issues config_blocked config.feasibility ++ sidecar_issues sidecars));
    }

abbrev pub is_empty : List BlockingIssue → Bool
is_empty [] = true
is_empty (issue ∷ issues) = false

-- `would_proceed`
unfoldable pub would_proceed : RecoveryPlanResult → Bool
would_proceed plan = is_empty plan.blocking_issues

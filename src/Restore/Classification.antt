-- ===== src/Restore/Classification.antt =====
-- restore/recovery_classification.py, restore/recovery_models.py: the live database and the live
-- configuration. The texts of reasons and details are left out. What the disk and SQLite say is an
-- argument: `Lstat` for os.lstat, whether the parent exists, and the rows of the integrity check.
use redline_os.Prelude.{
  String, Bool, true, false, not, ◌||◌, Option, none, some, List, [], ◌∷◌, ◌==◌, string_eq,
  if◌then◌else◌,
}
use redline_os.Restore.Disk.{Lstat, not_found, unreadable, found, is_unsafe_link}

pub data SourceCondition : Type 0 where
  healthy degraded missing : SourceCondition

pub data RecoveryFeasibility : Type 0 where
  not_applicable recoverable recovery_blocked : RecoveryFeasibility

pub record SourceSideAssessment : Type 0 where
  pub condition : SourceCondition
  pub feasibility : RecoveryFeasibility
  pub capture_required : Bool
  pub disposition_required : Bool

abbrev pub assessment : SourceCondition → RecoveryFeasibility → Bool → Bool → SourceSideAssessment
assessment condition feasibility capture_required disposition_required = record {
  condition = condition;
  feasibility = feasibility;
  capture_required = capture_required;
  disposition_required = disposition_required;
}

unfoldable pub missing_side_assessment : Bool → SourceSideAssessment
missing_side_assessment parent_exists =
    if not parent_exists
    then assessment missing recovery_blocked false false
    else assessment missing recoverable true false

-- `_unsafe_link_assessment`, and `_cannot_inspect_assessment`.
abbrev pub blocked_assessment : SourceSideAssessment
blocked_assessment = assessment degraded recovery_blocked true false

-- `len(rows) == 1 and rows[0][0] == "ok"`, where a None stands for a sqlite3.Error.
unfoldable pub is_intact : Option (List String) → Bool
is_intact none = false
is_intact (some []) = false
is_intact (some (row ∷ [])) = row == "ok"
is_intact (some (row ∷ other ∷ rows)) = false

unfoldable pub classify_database_source : Lstat → Bool → Option (List String) → SourceSideAssessment
unfolding missing_side_assessment is_intact
classify_database_source not_found parent_exists rows = missing_side_assessment parent_exists
classify_database_source unreadable parent_exists rows = blocked_assessment
classify_database_source (found st) parent_exists rows =
    if is_unsafe_link st
    then blocked_assessment
    else if not st.is_regular
    then assessment degraded recoverable true true
    else if not (is_intact rows)
    then assessment degraded recoverable true false
    else assessment healthy not_applicable false false

-- A required file: what os.lstat says of it, and whether `hash_stable_file` reads it.
pub record ConfigFile : Type 0 where
  pub seen : Lstat
  pub is_readable : Bool

-- `any_unsafe_link` and `any_problem` after one more file.
abbrev pub note : ConfigFile → Bool × Bool → Bool × Bool
note file (any_unsafe_link, any_problem) = elim file.seen [
  | not_found ↦ (any_unsafe_link, true)
  | unreadable ↦ (any_unsafe_link, true)
  | found st ↦
      if is_unsafe_link st
      then (true, true)
      else if not st.is_regular
      then (any_unsafe_link, true)
      else (any_unsafe_link, any_problem || not file.is_readable)
]

unfoldable pub inspect_files : List ConfigFile → Bool × Bool → Bool × Bool
inspect_files [] flags = flags
inspect_files (file ∷ files) flags = inspect_files files (note file flags)

unfoldable pub classify_config_source : Lstat → Bool → List ConfigFile → SourceSideAssessment
unfolding missing_side_assessment inspect_files
classify_config_source not_found parent_exists files = missing_side_assessment parent_exists
classify_config_source unreadable parent_exists files = blocked_assessment
classify_config_source (found st) parent_exists files =
    let (any_unsafe_link, any_problem) = inspect_files files (false, false) in
    if is_unsafe_link st
    then blocked_assessment
    else if not st.is_directory
    then assessment degraded recoverable true true
    else if any_unsafe_link
    then blocked_assessment
    else if any_problem
    then assessment degraded recoverable true false
    else assessment healthy not_applicable false false

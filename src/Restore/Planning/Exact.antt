-- ===== src/Restore/Planning/Exact.antt =====
-- When a plan has no blocking issue.
use redline_os.Prelude.{
  String, Bool, true, false, not, ◌&&◌, ◌||◌, ◌≡◌, refl, Option, List, [], ◌∷◌, ◌++◌, any, arith,
}
use redline_os.Restore.Disk.{Lstat, not_found, unreadable, found, is_unsafe_link}
use redline_os.Restore.Classification.{
  recovery_blocked, recoverable, not_applicable, SourceSideAssessment, ConfigFile, inspect_files,
  note, classify_database_source, classify_config_source,
}
use redline_os.Restore.Planning.{
  SidecarCondition, BlockingIssue, database_blocked, config_blocked, is_empty, backup_issues,
  side_issues, classify_sidecar, classify_sidecars, sidecar_issues, Observed, build_recovery_plan,
  would_proceed,
}

-- The path can be dealt with: it is free below a folder, or holds an object that is no link.
abbrev pub is_reachable : Lstat → Bool → Bool
is_reachable not_found parent_exists = parent_exists
is_reachable unreadable parent_exists = false
is_reachable (found st) parent_exists = not (is_unsafe_link st)

abbrev pub is_link : Lstat → Bool
is_link not_found = false
is_link unreadable = false
is_link (found st) = is_unsafe_link st

abbrev pub is_link_file : ConfigFile → Bool
is_link_file file = is_link file.seen

-- No required file of an existing directory is a link.
abbrev pub has_safe_files : Lstat → List ConfigFile → Bool
has_safe_files not_found files = true
has_safe_files unreadable files = true
has_safe_files (found st) files = not (st.is_directory && any is_link_file files)

-- A sidecar is absent, or a regular file that is no link.
abbrev pub is_sound_sidecar : Lstat → Bool
is_sound_sidecar not_found = true
is_sound_sidecar unreadable = false
is_sound_sidecar (found st) = not (is_unsafe_link st) && st.is_regular

abbrev is_blocked : SourceSideAssessment → Bool
is_blocked side = elim side.feasibility [
  | recovery_blocked ↦ true
  | recoverable ↦ false
  | not_applicable ↦ false
]

link_flag :
    (files : List ConfigFile) (flags : Bool × Bool)
    → (inspect_files files flags).0 ≡ (flags.0 || any is_link_file files)
unfolding inspect_files any
link_flag [] flags = ground arith
link_flag (file ∷ files) (link, problem) =
    elim file.seen
      as (λ seen.
        (inspect_files files (note (record file { seen = seen }) (link, problem))).0
        ≡ (link || (is_link seen || any is_link_file files))) [
          | not_found ↦ ground (arith, link_flag files (link, true))
          | unreadable ↦ ground (arith, link_flag files (link, true))
          | found st ↦ ground (
            arith,
            link_flag files (true, true),
            link_flag files (link, true),
            link_flag files (link, problem || not file.is_readable),
          )
        ]

database_free :
    (seen : Lstat) (parent : Bool) (rows : Option (List String))
    → is_blocked (classify_database_source seen parent rows) ≡ not (is_reachable seen parent)
unfolding classify_database_source
database_free seen parent rows = ground arith

config_free :
    (seen : Lstat) (parent : Bool) (files : List ConfigFile)
    → is_blocked (classify_config_source seen parent files)
      ≡ not (is_reachable seen parent && has_safe_files seen files)
unfolding classify_config_source
config_free seen parent files = ground (arith, link_flag files (false, false))

is_empty-append : (xs ys : List BlockingIssue) → is_empty (xs ++ ys) ≡ (is_empty xs && is_empty ys)
is_empty-append [] ys = refl
is_empty-append (x ∷ xs) ys = refl

backup_empty :
    (verifies agree : Bool) → is_empty (backup_issues verifies agree) ≡ (verifies && agree)
backup_empty false agree = refl
backup_empty true false = refl
backup_empty true true = refl

side_empty :
    (issue : BlockingIssue) (side : SourceSideAssessment)
    → is_empty (side_issues issue side.feasibility) ≡ not (is_blocked side)
side_empty issue side = ground arith

sidecar_empty :
    (seen : Lstat) (conditions : List SidecarCondition)
    → is_empty (sidecar_issues (classify_sidecar seen ∷ conditions))
      ≡ (is_sound_sidecar seen && is_empty (sidecar_issues conditions))
unfolding sidecar_issues classify_sidecar
sidecar_empty not_found conditions = refl
sidecar_empty unreadable conditions = refl
sidecar_empty (found st) conditions = ground arith

sidecars_empty :
    (seen : String → Lstat)
    → is_empty (sidecar_issues (classify_sidecars seen)) ≡ (
        is_sound_sidecar (seen "-journal")
        && (is_sound_sidecar (seen "-wal") && is_sound_sidecar (seen "-shm")))
unfolding classify_sidecars sidecar_issues
sidecars_empty seen =
    let shm = classify_sidecar (seen "-shm") ∷ [] in
    let wal = classify_sidecar (seen "-wal") ∷ shm in
    ground (
      arith,
      sidecar_empty (seen "-journal") wal,
      sidecar_empty (seen "-wal") shm,
      sidecar_empty (seen "-shm") [],
    )

-- A recovery would proceed exactly if the backup verifies and its schema agrees, the paths of the
-- database and of the configuration are reachable, no required file of the configuration is a link,
-- and each sidecar is absent or a regular file that is no link.
pub would_proceed_exact :
    (o : Observed)
    → would_proceed (build_recovery_plan o) ≡ (
        o.backup_verifies
        && (o.schemas_agree
            && (is_reachable o.database_seen o.database_parent
                && (is_reachable o.config_seen o.config_parent
                    && (has_safe_files o.config_seen o.config_files
                        && (is_sound_sidecar (o.sidecars_seen "-journal")
                            && (is_sound_sidecar (o.sidecars_seen "-wal")
                                && is_sound_sidecar (o.sidecars_seen "-shm"))))))))
unfolding would_proceed build_recovery_plan
would_proceed_exact o =
    let database = classify_database_source o.database_seen o.database_parent o.integrity_check in
    let config = classify_config_source o.config_seen o.config_parent o.config_files in
    let sidecars = classify_sidecars o.sidecars_seen in
    let rest = side_issues config_blocked config.feasibility ++ sidecar_issues sidecars in
    ground (
      arith,
      is_empty-append (backup_issues o.backup_verifies o.schemas_agree)
          (side_issues database_blocked database.feasibility ++ rest),
      is_empty-append (side_issues database_blocked database.feasibility) rest,
      is_empty-append (side_issues config_blocked config.feasibility) (sidecar_issues sidecars),
      backup_empty o.backup_verifies o.schemas_agree,
      side_empty database_blocked database,
      side_empty config_blocked config,
      database_free o.database_seen o.database_parent o.integrity_check,
      config_free o.config_seen o.config_parent o.config_files,
      sidecars_empty o.sidecars_seen,
    )

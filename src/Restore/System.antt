-- ===== src/Restore/System.antt =====
-- What an attempt at a restore or a recovery calls outside of the modelled code: the operating system,
-- SQLite, and the modules of redline_core that write a backup, a capture or the journal. They work on
-- a state of their own, and each may raise. What the capture and the backup packages do inside is not
-- modelled.
use Prim.Native.Char.{Char}
use redline_os.Prelude.{ℕ, String, Bool, List}
use redline_os.Exec.{Exec}
use redline_os.Restore.Disk.{Stat}
use redline_os.Restore.Disposition.{DispositionResult}
use redline_os.Restore.Classification.{SourceSideAssessment}
use redline_os.Restore.Planning.{Observed}
use redline_os.Restore.Capture.{CaptureResult}
use redline_os.Restore.Journal.States.{RestoreState}

-- `os.lstat` with the fields that identify an object; `st_dev` is the device of the `Stat`.
pub record LiveStat : Type 0 where
  pub mode : Stat
  pub st_size : ℕ
  pub st_mtime_ns : ℕ
  pub st_ino : ℕ

pub data Live : Type 0 where
  gone inspection_failed : Live
  present : LiveStat → Live

-- An entry of a backup's manifest: what Python reads by its keys.
pub record ManifestEntry : Type 0 where
  pub relative_path : String
  pub sha256 : String
  pub size_bytes : ℕ

pub record Manifest : Type 0 where
  pub database : ManifestEntry
  pub config_files : List ManifestEntry

pub record System : Type 1 where
  pub State : Type 0
  -- `\d` of re
  pub is_digit : Char → Bool
  -- os and pathlib; `copy` streams a file and gives the digest and the size of what it read.
  pub lstat : String → Exec State Live
  pub exists : String → Exec State Bool
  pub iterdir : String → Exec State (List String)
  pub device : String → Exec State ℕ
  pub mkdir : String → Exec State (Unit {0})
  pub replace : String → String → Exec State (Unit {0})
  pub rename : String → String → Exec State (Unit {0})
  -- fsutil.open_stable_source with the copy, and fsutil.hash_stable_file
  pub copy : String → String → Exec State (String × ℕ)
  pub hash_stable_file : String → Exec State (String × ℕ)
  -- SQLite: the connection, `BEGIN IMMEDIATE` and its rollback, `PRAGMA integrity_check`, and the counts of the tables
  pub connect : String → Exec State (Unit {0})
  pub begin_immediate : String → Exec State (Unit {0})
  pub integrity_check : String → Exec State (List String)
  pub read_tables : String → Exec State (Unit {0})
  -- schema_fingerprint.py, config/loader.py and `require_safe_regular_file` of the required files
  pub check_schema_compatible : String → Exec State (Unit {0})
  pub load_config : String → Exec State (Unit {0})
  pub require_safe_files : String → Exec State (Unit {0})
  -- backup/: the containment of the root, the verification (it gives the package), a new backup
  pub validate_backup_root : Exec State (Unit {0})
  pub verify_backup : String → Exec State String
  pub load_manifest : String → Exec State Manifest
  pub create_backup : Exec State String
  -- what `build_recovery_plan` reads, and the capture
  pub observe : String → Exec State Observed
  pub build_degraded_source_capture :
      SourceSideAssessment → SourceSideAssessment → Exec State CaptureResult
  pub verify_degraded_source_capture : CaptureResult → Exec State (Unit {0})
  -- the journal of the attempt, and `dispose_target`
  pub create_journal : Exec State (Unit {0})
  pub record_state : RestoreState → Exec State (Unit {0})
  pub dispose_target : (path target_kind : String) → Bool → String → Exec State DispositionResult

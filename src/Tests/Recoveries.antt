-- ===== src/Tests/Recoveries.antt =====
-- The theorems on recoveries and restores, at concrete inputs.
use redline_os.Prelude.{
  String, Bool, true, false, none, some, [], ◌∷◌, ◌≡◌, refl, string_eq, nat_eq, option_eq, any,
  ◌==◌, if◌then◌else◌,
}
use redline_os.Errors.{recovery_confirmation_error}
use redline_os.Exec.{ok, err, pure}
use redline_os.Restore.Disk.{found}
use redline_os.Restore.Capture.{
  CaptureItemRecord, CaptureResult, StatFingerprint, wrong_type_recorded,
}
use redline_os.Restore.System.{System, LiveStat, gone, present, Manifest, ManifestEntry}
use redline_os.Restore.Stability.{check_target_stability, expected_fingerprint}
use redline_os.Restore.Stability.Exact.{IsStable, check_target_stability-IsStable}
use redline_os.Restore.Authorization.{QuiescenceAttestations, is_backup_id}
use redline_os.Restore.Protocol
use redline_os.Restore.Protocol.{recovery, at, calm}
use redline_os.Restore.Protocol.Guards.{IsGuarded}
use redline_os.Restore.Classification.{classify_database_source, classify_config_source}
use redline_os.Restore.Attempt.{◌>>=◌, ◌>>◌, call, note, or_fail, or_record, touch}
use redline_os.Restore.Attempt.Follows.{Ends}
use redline_os.Restore.Execution
use redline_os.Restore.Execution.{execute_recovery}
use redline_os.Restore.Execution.Refines.{execute_recovery-Ends}
use redline_os.Restore.Execution.Safe.{execute_recovery-IsGuarded, execute_recovery_refuses}
use redline_os.Restore.Manager
use redline_os.Restore.Manager.Order.{restore-Ends}
use redline_os.Restore.Manager.Safe.{restore-IsGuarded}
use redline_os.Tests.Data.{platform}
use redline_os.Tests.Restores.{folder, observed}

abbrev db : String
db = "/e/7/redline.db"

-- A folder stands where the database should be; the state says whether it was moved aside.
abbrev wrong : LiveStat
wrong = record { mode = folder; st_size = 0; st_mtime_ns = 9; st_ino = 3 }

abbrev entry : ManifestEntry
entry = record { relative_path = "payload/db/redline.db"; sha256 = "h"; size_bytes = 5 }

abbrev manifest : Manifest
manifest = record { database = entry; config_files = [] }

abbrev item : CaptureItemRecord
item = record {
  item_key = "database";
  outcome = wrong_type_recorded;
  size_bytes = none;
  sha256 = none;
  stat_fingerprint = some (record { size = 0; mtime_ns = 9; ino = some 3; dev = some 1 });
}

abbrev capture : CaptureResult
capture = record {
  capture_id = "dsc1-1";
  capture_path = "/b/captures/dsc1-1";
  database = item;
  config_directory = none;
  config_files = [];
  config_directory_inventory = [];
  sidecars = [];
}

abbrev system : System
system = record {
  State = Bool;
  is_digit = λ c. true;
  lstat = λ path moved.
      (ok (if path == db then if moved then gone else present wrong else gone), moved);
  exists = λ path. pure (path == db);
  iterdir = λ path. pure [];
  device = λ path. pure 1;
  mkdir = λ path. pure tt;
  replace = λ a b. pure tt;
  rename = λ a b. pure tt;
  copy = λ a b. pure ("h", 5);
  hash_stable_file = λ path. pure ("h", 5);
  connect = λ path. pure tt;
  begin_immediate = λ path. pure tt;
  integrity_check = λ path. pure ("ok" ∷ []);
  read_tables = λ path. pure tt;
  check_schema_compatible = λ path. pure tt;
  load_config = λ path. pure tt;
  require_safe_files = λ path. pure tt;
  validate_backup_root = pure tt;
  verify_backup = λ id. pure "/b/b1";
  load_manifest = λ folder_path. pure manifest;
  create_backup = pure "b1-new";
  observe = λ id. pure (record observed { database_seen = found folder });
  build_degraded_source_capture = λ database config. pure capture;
  verify_degraded_source_capture = λ c. pure tt;
  create_journal = pure tt;
  record_state = λ state. pure tt;
  dispose_target = λ path kind regular id moved.
      (ok (record { target_kind = kind; source_path = path; superseded_path = path }), true);
}

abbrev attestations : QuiescenceAttestations
attestations = record {
  mcp_stopped = true;
  control_room_stopped = true;
  no_other_cli_operation = true;
}

abbrev request : Execution.Request
request = record {
  db_path = db;
  config_dir = "/c";
  backup_id = "b1-20260101T000000Z-0123456789ab";
  authorization = record {
    confirm_backup_id = "b1-20260101T000000Z-0123456789ab";
    quiescence = attestations;
    disposition_understood = true;
    no_automatic_rollback_understood = true;
  };
  has_backup_path = true;
  restore_id = "r-1";
  journal_dir = "/b/.redline_restore_journal/r-1";
  completed_at = "t";
}

execute_recovery-Ends_example :
    Ends recovery system
      (at 13 calm)
      (execute_recovery platform system request (record { state = false; log = [] }))
execute_recovery-Ends_example = execute_recovery-Ends platform system request false

execute_recovery-IsGuarded_example :
    IsGuarded recovery
      (execute_recovery platform system request (record { state = false; log = [] })).1.log
execute_recovery-IsGuarded_example = execute_recovery-IsGuarded platform system request false

abbrev unconfirmed : Execution.Request
unconfirmed = record request {
  authorization = record request.authorization { confirm_backup_id = "b1" };
}

execute_recovery_refuses_example :
    execute_recovery platform system unconfirmed (record { state = false; log = [] })
    ≡ (err recovery_confirmation_error, record { state = false; log = [] })
unfolding is_backup_id string_eq nat_eq
execute_recovery_refuses_example =
    execute_recovery_refuses platform system unconfirmed (record { state = false; log = [] })
      recovery_confirmation_error refl

abbrev seen : StatFingerprint
seen = record { size = 0; mtime_ns = 9; ino = some 3; dev = some 1 }

check_target_stability-IsStable_example :
    IsStable system db (expected_fingerprint seen false false) false
unfolding check_target_stability string_eq nat_eq option_eq
check_target_stability-IsStable_example =
    check_target_stability-IsStable system db (expected_fingerprint seen false false) false refl

abbrev restore_request : Manager.Request
restore_request = record {
  db_path = db;
  config_dir = "/c";
  backup_id = "b1-20260101T000000Z-0123456789ab";
  confirm_backup_id = "b1-20260101T000000Z-0123456789ab";
  attestations = attestations;
  has_backup_path = true;
  restore_id = "r-1";
  journal_dir = "/b/.redline_restore_journal/r-1";
  completed_at = "t";
}

restore-Ends_example :
    Ends Protocol.restore system
      (at 11 calm)
      (Manager.restore platform system restore_request (record { state = false; log = [] }))
restore-Ends_example = restore-Ends platform system restore_request false

restore-IsGuarded_example :
    IsGuarded Protocol.restore
      (Manager.restore platform system restore_request (record { state = false; log = [] })).1.log
restore-IsGuarded_example = restore-IsGuarded platform system restore_request false

-- The recovery of this system disposes the folder and returns.
recovered :
    (execute_recovery platform system request (record { state = false; log = [] })).1.state ≡ true
unfolding execute_recovery ◌>>=◌ ◌>>◌ call nat_eq note or_fail classify_database_source
    classify_config_source or_record any option_eq touch
recovered = refl

-- ===== src/Restore/Capture.antt =====
-- restore/capture_models.py: what a degraded-source capture recorded of each item.
use redline_os.Prelude.{ℕ, String, Option, List}

pub data CaptureItemOutcome : Type 0 where
  captured_verified captured_unverified unreadable unsafe_object_recorded : CaptureItemOutcome
  missing wrong_type_recorded changed_during_capture : CaptureItemOutcome

pub record StatFingerprint : Type 0 where
  pub size : ℕ
  pub mtime_ns : ℕ
  pub ino : Option ℕ
  pub dev : Option ℕ

pub record CaptureItemRecord : Type 0 where
  pub item_key : String
  pub outcome : CaptureItemOutcome
  pub size_bytes : Option ℕ
  pub sha256 : Option String
  pub stat_fingerprint : Option StatFingerprint

pub record CaptureResult : Type 0 where
  pub capture_id : String
  pub capture_path : String
  pub database : CaptureItemRecord
  pub config_directory : Option CaptureItemRecord
  pub config_files : List CaptureItemRecord
  pub config_directory_inventory : List String
  pub sidecars : List CaptureItemRecord

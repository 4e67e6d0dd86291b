-- ===== src/Restore/Authorization.antt =====
-- restore/models.py, restore/recovery_models.py, restore/quiescence.py, backup/paths.py: what the
-- operator has to state before anything is done, and which errors are RestoreErrors.
use Prim.Native.Char.{Char, code}
use Prim.Native.Nat.{zero, suc}
use redline_os.Prelude.{
  ℕ, String, Bool, true, false, ◌&&◌, List, [], ◌∷◌, ◌++◌, ◌==◌, nat_eq, string_eq, if◌then◌else◌,
}
use redline_os.Prelude.Text.{is_lower_hex}
use redline_os.Errors.{
  Error, value_error, recovery_confirmation_error, restore_attestation_missing_error,
  recovery_attestation_missing, restore_quiescence_failed, sqlite_error, operational_error,
  integrity_error, error_eq, recovery_disposition_failed, restore_path_collision_error,
  restore_journal_error, restore_error, restore_confirmation_error,
  restore_target_unavailable_error, restore_schema_incompatible_error,
  restore_pre_restore_snapshot_failed, restore_sidecar_present, restore_staging_failed,
  restore_database_replacement_failed, restore_config_replacement_failed,
  restore_verification_failed, recovery_blocked_error, recovery_capture_failed,
  recovery_changed_during_capture, recovery_stability_mismatch,
}
use redline_os.Exec.{Exec, pure, require, attempt, ◌>>=◌, ◌>>◌}
use redline_os.Restore.System.{System}
use redline_os.Restore.Staging.{in_place_of, in_place_of_any}

-- `isinstance(e, RestoreError)`
unfoldable pub is_restore_error : Error → Bool
is_restore_error recovery_disposition_failed = true
is_restore_error restore_path_collision_error = true
is_restore_error restore_journal_error = true
is_restore_error restore_error = true
is_restore_error restore_confirmation_error = true
is_restore_error restore_attestation_missing_error = true
is_restore_error restore_target_unavailable_error = true
is_restore_error restore_schema_incompatible_error = true
is_restore_error restore_pre_restore_snapshot_failed = true
is_restore_error restore_quiescence_failed = true
is_restore_error restore_sidecar_present = true
is_restore_error restore_staging_failed = true
is_restore_error restore_database_replacement_failed = true
is_restore_error restore_config_replacement_failed = true
is_restore_error restore_verification_failed = true
is_restore_error recovery_confirmation_error = true
is_restore_error recovery_attestation_missing = true
is_restore_error recovery_blocked_error = true
is_restore_error recovery_capture_failed = true
is_restore_error recovery_changed_during_capture = true
is_restore_error recovery_stability_mismatch = true
is_restore_error _ = false

-- `isinstance(e, sqlite3.Error)`
unfoldable pub is_sqlite_error : Error → Bool
is_sqlite_error sqlite_error = true
is_sqlite_error operational_error = true
is_sqlite_error integrity_error = true
is_sqlite_error _ = false

pub record QuiescenceAttestations : Type 0 where
  pub mcp_stopped : Bool
  pub control_room_stopped : Bool
  pub no_other_cli_operation : Bool

pub record RecoveryAuthorization : Type 0 where
  pub confirm_backup_id : String
  pub quiescence : QuiescenceAttestations
  pub disposition_understood : Bool
  pub no_automatic_rollback_understood : Bool

abbrev unless : Bool → String → List String
unless true name = []
unless false name = name ∷ []

-- `QuiescenceAttestations.missing`
unfoldable pub missing : QuiescenceAttestations → List String
missing a =
    unless a.mcp_stopped "mcp_stopped"
    ++ (unless a.control_room_stopped "control_room_stopped"
        ++ unless a.no_other_cli_operation "no_other_cli_operation")

unfoldable pub missing_recovery_attestations : RecoveryAuthorization → List String
missing_recovery_attestations a =
    unless a.disposition_understood "disposition_understood"
    ++ unless a.no_automatic_rollback_understood "no_automatic_rollback_understood"

abbrev none_missing : List String → Bool
none_missing [] = true
none_missing (name ∷ names) = false

-- The text starts with so many characters of a class, and the rest passes.
starts : ℕ → (Char → Bool) → (String → Bool) → String → Bool
starts zero p rest s = rest s
starts (suc n) p rest String.[] = false
starts (suc n) p rest (String.◌∷◌ c s) = p c && starts n p rest s

abbrev is_char : ℕ → Char → Bool
is_char n c = code c == n

abbrev at_end : String → Bool
at_end String.[] = true
at_end (String.◌∷◌ c s) = false

-- `_BACKUP_ID_RE.fullmatch`: b1-, eight digits, T, six digits, Z-, and twelve hexadecimal digits.
unfoldable pub is_backup_id : (Char → Bool) → String → Bool
unfolding starts is_lower_hex
is_backup_id is_digit = starts 1 (is_char b'b') (
    starts 1 (is_char b'1') (
      starts 1 (is_char b'-') (
        starts 8 is_digit (
          starts 1 (is_char b'T') (
            starts 6 is_digit (
              starts 1 (is_char b'Z')
                (starts 1 (is_char b'-') (starts 12 is_lower_hex at_end))))))))

module _ (K : System) where
  unfoldable pub validate_backup_id : String → Exec K.State (Unit {0})
  unfolding is_backup_id
  validate_backup_id backup_id = require (is_backup_id K.is_digit backup_id) value_error

  unfoldable pub require_attestations : QuiescenceAttestations → Exec K.State (Unit {0})
  unfolding missing
  require_attestations attestations =
      require (none_missing (missing attestations)) restore_attestation_missing_error

  unfoldable pub require_recovery_authorization :
      RecoveryAuthorization → String → Exec K.State (Unit {0})
  unfolding validate_backup_id require_attestations missing_recovery_attestations
  require_recovery_authorization authorization backup_id = do
    validate_backup_id backup_id
    require (authorization.confirm_backup_id == backup_id) recovery_confirmation_error
    require_attestations authorization.quiescence
    require (none_missing (missing_recovery_attestations authorization))
        recovery_attestation_missing

  probe_lock : String → Exec K.State (Unit {0})
  unfolding is_sqlite_error error_eq
  probe_lock db_path = do
    attempt (K.connect db_path) (in_place_of_any is_sqlite_error restore_quiescence_failed)
    attempt (K.begin_immediate db_path) (in_place_of operational_error restore_quiescence_failed)

  -- `probe_quiescence`: a database that is not there is not opened.
  unfoldable pub probe_quiescence : String → Exec K.State (Unit {0})
  unfolding probe_lock
  probe_quiescence db_path = do
    there ← K.exists db_path
    if there then probe_lock db_path else pure tt

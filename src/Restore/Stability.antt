-- ===== src/Restore/Stability.antt =====
-- restore/recovery_stability.py: whether a live object still is what the capture recorded. Details are
-- left out.
pub mod Exact
use redline_os.Prelude.{
  ℕ, String, Bool, true, false, not, ◌&&◌, ◌||◌, Option, none, some, List, [], ◌∷◌, ◌==◌, nat_eq,
  string_eq, option_eq, if◌then◌else◌, Eq, ◌≡◌,
}
use redline_os.Prelude.Text.{sort_names}
use redline_os.Errors.{Error, error_eq, value_error, os_error, safe_file_error}
use redline_os.Exec.{Exec, Result, ok, err, pure, raise, attempt, after_ok, after_error, ◌>>=◌}
use redline_os.Restore.Disk.{Stat, is_unsafe_link}
use redline_os.Restore.Capture.{
  CaptureItemOutcome, captured_verified, captured_unverified, unreadable, unsafe_object_recorded,
  missing, wrong_type_recorded, changed_during_capture, StatFingerprint, CaptureItemRecord,
}
use redline_os.Restore.System.{System, Live, gone, inspection_failed, present, LiveStat}

-- `ExpectedTargetState`, with the fields that each `kind` uses.
pub data ExpectedTargetState : Type 0 where
  expected_missing insufficient_evidence : ExpectedTargetState
  expected_hash : (expected_sha256 : String) (expected_size : Option ℕ) → ExpectedTargetState
  expected_fingerprint :
      StatFingerprint → (expected_unsafe expected_regular : Bool) → ExpectedTargetState

abbrev hash_state : CaptureItemRecord → Option String → ExpectedTargetState
hash_state r none = insufficient_evidence
hash_state r (some sha256) = expected_hash sha256 r.size_bytes

abbrev fingerprint_state : Option StatFingerprint → Bool → Bool → ExpectedTargetState
fingerprint_state none is_unsafe is_regular = insufficient_evidence
fingerprint_state (some fp) is_unsafe is_regular = expected_fingerprint fp is_unsafe is_regular

-- By the outcome. The flag says whether a wrong type is a regular file.
abbrev pub expected_of : CaptureItemOutcome → CaptureItemRecord → Bool → Option ExpectedTargetState
expected_of changed_during_capture r expected_regular = none
expected_of captured_verified r expected_regular = some (hash_state r r.sha256)
expected_of captured_unverified r expected_regular = some (hash_state r r.sha256)
expected_of missing r expected_regular = some expected_missing
expected_of unreadable r expected_regular = some (fingerprint_state r.stat_fingerprint false true)
expected_of unsafe_object_recorded r expected_regular =
    some (fingerprint_state r.stat_fingerprint true expected_regular)
expected_of wrong_type_recorded r expected_regular =
    some (fingerprint_state r.stat_fingerprint false expected_regular)

abbrev or_value_error {ℓ} : {S : Type ℓ} → Option ExpectedTargetState → Exec S ExpectedTargetState
or_value_error none = raise value_error
or_value_error (some expected) = pure expected

unfoldable pub expected_state_from_capture_record {ℓ} :
    {S : Type ℓ} → CaptureItemRecord → Bool → Exec S ExpectedTargetState
expected_state_from_capture_record r expected_regular =
    or_value_error (expected_of r.outcome r expected_regular)

unfoldable pub same_names : List String → List String → Bool
same_names [] [] = true
same_names [] (y ∷ ys) = false
same_names (x ∷ xs) [] = false
same_names (x ∷ xs) (y ∷ ys) = x == y && same_names xs ys

-- `value or None`
abbrev or_none : ℕ → Option ℕ
or_none n = if n == 0 then none else some n

-- `_fingerprint`
unfoldable pub fingerprint : LiveStat → StatFingerprint
fingerprint st = record {
  size = st.st_size;
  mtime_ns = st.st_mtime_ns;
  ino = or_none st.st_ino;
  dev = or_none st.mode.device;
}

abbrev same_fingerprint : StatFingerprint → StatFingerprint → Bool
same_fingerprint a b =
    a.size == b.size && (a.mtime_ns == b.mtime_ns && (a.ino == b.ino && a.dev == b.dev))

abbrev same_bool : Bool → Bool → Bool
same_bool true b = b
same_bool false b = not b

abbrev fingerprint_matches : LiveStat → StatFingerprint → Bool → Bool → Bool
fingerprint_matches st fp expected_unsafe expected_regular =
    same_bool (is_unsafe_link st.mode) expected_unsafe
    && (same_bool st.mode.is_regular expected_regular && same_fingerprint (fingerprint st) fp)

-- `except fsutil.SafeFileError`
abbrev pub unless_unsafe {ℓ} : {S : Type ℓ} → Error → Exec S Bool
unless_unsafe e = if e == safe_file_error then pure false else raise e

abbrev pub hash_matches : String → Option ℕ → String × ℕ → Bool
hash_matches sha256 size (live_sha256, live_size) = live_sha256 == sha256 && some live_size == size

module _ (K : System) where
  -- What is done once os.lstat has returned.
  abbrev pub compare_live : String → ExpectedTargetState → Live → Exec K.State Bool
  compare_live path insufficient_evidence live = pure false
  compare_live path expected inspection_failed = pure false
  compare_live path expected_missing gone = pure true
  compare_live path expected_missing (present st) = pure false
  compare_live path (expected_hash sha256 size) gone = pure false
  compare_live path (expected_hash sha256 size) (present st) =
      if is_unsafe_link st.mode || not st.mode.is_regular
      then pure false
      else attempt (K.hash_stable_file path >>= λ found. pure (hash_matches sha256 size found))
          unless_unsafe
  compare_live path (expected_fingerprint fp expected_unsafe expected_regular) gone = pure false
  compare_live path (expected_fingerprint fp expected_unsafe expected_regular) (present st) =
      pure (fingerprint_matches st fp expected_unsafe expected_regular)

  -- `.confirmed` of the result of `check_target_stability`
  unfoldable pub check_target_stability : String → ExpectedTargetState → Exec K.State Bool
  unfolding fingerprint
  check_target_stability path insufficient_evidence = pure false
  check_target_stability path expected = K.lstat path >>= compare_live path expected

  -- `except OSError`
  abbrev or_false : Error → Exec K.State Bool
  or_false e = if e == os_error then pure false else raise e

  -- `check_config_inventory_stability`
  unfoldable pub check_config_inventory_stability : String → List String → Exec K.State Bool
  unfolding sort_names same_names
  check_config_inventory_stability config_dir expected_inventory =
      attempt
        (K.iterdir config_dir >>= λ names. pure (same_names (sort_names names) expected_inventory))
        or_false

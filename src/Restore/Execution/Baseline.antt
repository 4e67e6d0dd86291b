-- ===== src/Restore/Execution/Baseline.antt =====
-- restore/recovery_execution.py: `_Baseline`, and whether the live targets still are what the fresh
-- capture recorded. Details are left out.
use Prim.Native.Char.{code}
use redline_os.Prelude.{
  String, ◌<>◌, Bool, true, false, Option, none, some, List, [], ◌∷◌, ◌++◌, ◌==◌, string_eq, nat_eq,
  if◌then◌else◌, any,
}
use redline_os.Errors.{index_error}
use redline_os.Exec.{Exec, pure, or_raise, ◌>>=◌}
use redline_os.Render.World.{Platform}
use redline_os.Restore.Capture.{
  CaptureItemOutcome, unreadable, changed_during_capture, CaptureItemRecord, CaptureResult,
}
use redline_os.Restore.Disposition.{DispositionResult}
use redline_os.Restore.System.{System}
use redline_os.Restore.Stability.{
  ExpectedTargetState, expected_missing, expected_state_from_capture_record, check_target_stability,
  check_config_inventory_stability,
}
use redline_os.Restore.Staging.{sidecar_suffixes}

-- `disposed`, in the order in which the targets were disposed.
abbrev pub Disposed : Type 0
Disposed = List (String × DispositionResult)

-- `target in disposed`
unfoldable pub is_disposed : String → Disposed → Bool
is_disposed target disposed = any (λ d. d.0 == target) disposed

abbrev pub is_unreadable : CaptureItemOutcome → Bool
is_unreadable unreadable = true
is_unreadable _ = false

abbrev pub is_changed : CaptureItemOutcome → Bool
is_changed changed_during_capture = true
is_changed _ = false

abbrev optional : Option CaptureItemRecord → List CaptureItemRecord
optional none = []
optional (some r) = r ∷ []

-- `all_records`
abbrev pub all_records : CaptureResult → List CaptureItemRecord
all_records c = (c.database ∷ []) ++ (optional c.config_directory ++ (c.config_files ++ c.sidecars))

-- Whether an item of a capture changed while it was captured.
unfoldable pub has_changed : CaptureResult → Bool
has_changed c = any (λ r. is_changed r.outcome) (all_records c)

-- `_sidecars.get(suffix)`: of two records with one key the later one counts.
unfoldable pub sidecar_record : String → List CaptureItemRecord → Option CaptureItemRecord
sidecar_record suffix [] = none
sidecar_record suffix (r ∷ rs) =
    let later = sidecar_record suffix rs in
    elim later [
      | none ↦ if r.item_key == "sidecar:" <> suffix then some r else none
      | some x ↦ some x
    ]

-- `item_key.split(":", 1)[1]`
unfoldable pub after_colon : String → Option String
after_colon String.[] = none
after_colon (String.◌∷◌ c s) = let rest = after_colon s in if code c == b':' then some s else rest

abbrev expected_of_sidecar {ℓ} :
    {S : Type ℓ} → Option CaptureItemRecord → Exec S ExpectedTargetState
expected_of_sidecar none = pure expected_missing
expected_of_sidecar (some r) = expected_state_from_capture_record r false

module _ {ℓ} {S : Type ℓ} where
  -- `_Baseline.database_expected`
  unfoldable pub database_expected : CaptureResult → Bool → Exec S ExpectedTargetState
  unfolding expected_state_from_capture_record
  database_expected c true = pure expected_missing
  database_expected c false = expected_state_from_capture_record c.database false

  -- `_Baseline.sidecar_expected`
  unfoldable pub sidecar_expected : CaptureResult → String → Bool → Exec S ExpectedTargetState
  unfolding sidecar_record expected_state_from_capture_record
  sidecar_expected c suffix true = pure expected_missing
  sidecar_expected c suffix false = expected_of_sidecar (sidecar_record suffix c.sidecars)

module _ (P : Platform) (K : System) where
  -- `_check_database_stability`
  unfoldable pub check_database_stability : String → CaptureResult → Bool → Exec K.State Bool
  unfolding database_expected check_target_stability
  check_database_stability db_path c disposed =
      database_expected c disposed >>= check_target_stability K db_path

  -- `_check_sidecar_stability`
  unfoldable pub check_sidecar_stability :
      String → String → CaptureResult → Bool → Exec K.State Bool
  unfolding sidecar_expected check_target_stability
  check_sidecar_stability db_path suffix c disposed =
      sidecar_expected c suffix disposed >>= check_target_stability K (db_path <> suffix)

  -- The loop over the required files of `_check_config_stability`.
  unfoldable pub check_files : String → List CaptureItemRecord → Exec K.State Bool
  unfolding expected_state_from_capture_record check_target_stability after_colon
  check_files config_dir [] = pure true
  check_files config_dir (r ∷ rs) = do
    filename ← or_raise index_error (after_colon r.item_key)
    expected ← expected_state_from_capture_record r false
    confirmed ← check_target_stability K (P.join config_dir filename) expected
    if confirmed then check_files config_dir rs else pure false

  abbrev check_container : String → CaptureResult → Option CaptureItemRecord → Exec K.State Bool
  check_container config_dir c (some directory) = do
    expected ← expected_state_from_capture_record directory true
    check_target_stability K config_dir expected
  check_container config_dir c none = do
    confirmed ← check_config_inventory_stability K config_dir c.config_directory_inventory
    if confirmed then check_files config_dir c.config_files else pure false

  -- `_check_config_stability`
  unfoldable pub check_config_stability : String → CaptureResult → Bool → Exec K.State Bool
  unfolding check_files check_target_stability check_config_inventory_stability
      expected_state_from_capture_record
  check_config_stability config_dir c true = check_target_stability K config_dir expected_missing
  check_config_stability config_dir c false = check_container config_dir c c.config_directory

  -- The loop over the sidecars of `_first_mismatch`.
  check_sidecars : String → CaptureResult → Disposed → List String → Exec K.State Bool
  unfolding check_sidecar_stability is_disposed
  check_sidecars db_path c disposed [] = pure true
  check_sidecars db_path c disposed (suffix ∷ suffixes) = do
    confirmed ← check_sidecar_stability db_path suffix c (is_disposed suffix disposed)
    if confirmed then check_sidecars db_path c disposed suffixes else pure false

  -- `_first_mismatch(...) is None`
  unfoldable pub has_no_mismatch : String → String → CaptureResult → Disposed → Exec K.State Bool
  unfolding check_database_stability check_config_stability check_sidecars is_disposed
  has_no_mismatch db_path config_dir c disposed = do
    database ← check_database_stability db_path c (is_disposed "database" disposed)
    config ←
        if database
        then check_config_stability config_dir c (is_disposed "config" disposed)
        else pure false
    if config then check_sidecars db_path c disposed sidecar_suffixes else pure false

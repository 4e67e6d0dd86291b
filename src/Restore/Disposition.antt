-- ===== src/Restore/Disposition.antt =====
-- restore/recovery_disposition.py: a live object is moved aside.
pub mod Safe
use redline_os.Prelude.{
  ℕ, String, ◌<>◌, Bool, true, false, not, Option, none, some, ◌==◌, nat_eq, if◌then◌else◌,
}
use redline_os.Errors.{recovery_disposition_failed, os_error}
use redline_os.Exec.{Exec, Result, ok, err, pure, raise, require, attempt, ◌>>=◌, ◌>>◌}
use redline_os.Render.World.{Platform}
use redline_os.Restore.Disk.{
  Disk, Lstat, not_found, unreadable, found, Stat, is_unsafe_link, lstat, stat_device, rename,
}

pub record DispositionResult : Type 0 where
  pub target_kind : String
  pub source_path : String
  pub superseded_path : String

-- `staging.same_volume`
unfoldable pub same_volume : String → String → Exec Disk Bool
same_volume a b = do device_a ← stat_device a; device_b ← stat_device b; pure (device_a == device_b)

-- The object has to be there.
abbrev require_found : Lstat → Exec Disk Stat
require_found (found st) = pure st
require_found not_found = raise recovery_disposition_failed
require_found unreadable = raise recovery_disposition_failed

-- Nothing may be there.
abbrev require_free : Lstat → Exec Disk (Unit {0})
require_free not_found = pure tt
require_free unreadable = raise recovery_disposition_failed
require_free (found st) = raise recovery_disposition_failed

-- After the move only FileNotFoundError is caught.
abbrev require_gone : Lstat → Exec Disk (Unit {0})
require_gone not_found = pure tt
require_gone unreadable = raise os_error
require_gone (found st) = raise recovery_disposition_failed

abbrev same_kind : Bool → Bool → Bool
same_kind true b = b
same_kind false b = not b

module _ (P : Platform) where
  abbrev pub superseded : String → String → String
  superseded source_path restore_id =
      P.join (P.parent source_path) (P.name source_path <> "__superseded-" <> restore_id)

  unfoldable pub superseded_disposition_path : String → String → Exec Disk String
  superseded_disposition_path source_path restore_id = do
    seen ← lstat (superseded source_path restore_id)
    require_free seen
    pure (superseded source_path restore_id)

  -- `dispose_target` up to its rename.
  unfoldable pub check_disposable : String → Bool → String → Exec Disk (Unit {0})
  unfolding superseded_disposition_path same_volume
  check_disposable source_path expected_regular restore_id = do
    seen ← lstat source_path
    st ← require_found seen
    require (not (is_unsafe_link st)) recovery_disposition_failed
    require (same_kind st.is_regular expected_regular) recovery_disposition_failed
    destination ← superseded_disposition_path source_path restore_id
    same ← same_volume source_path (P.parent source_path)
    require same recovery_disposition_failed
    again ← lstat destination
    require_free again

-- The rename, and the look at both paths after it.
unfoldable pub move_aside : String → String → String → Exec Disk DispositionResult
move_aside source_path target_kind destination = do
  attempt (rename source_path destination) (λ _. raise recovery_disposition_failed)
  gone ← lstat source_path
  require_gone gone
  there ← lstat destination
  require_found there
  pure (record {
    target_kind = target_kind;
    source_path = source_path;
    superseded_path = destination;
  })

module _ (P : Platform) where
  unfoldable pub dispose_target : String → String → Bool → String → Exec Disk DispositionResult
  unfolding check_disposable move_aside
  dispose_target source_path target_kind expected_regular restore_id = do
    check_disposable P source_path expected_regular restore_id
    move_aside source_path target_kind (superseded P source_path restore_id)

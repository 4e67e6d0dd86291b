-- ===== src/Restore/Manager/Safe.antt =====
-- restore/manager.py: what a restore has done before it changes anything.
use redline_os.Prelude.{[]}
use redline_os.Render.World.{Platform}
use redline_os.Restore.System.{System}
use redline_os.Restore.Protocol
use redline_os.Restore.Protocol.Guards.{IsGuarded}
use redline_os.Restore.Execution.Safe.{Ends-IsGuarded}
use redline_os.Restore.Manager.{Request, restore}
use redline_os.Restore.Manager.Order.{restore-Ends}

module _ (P : Platform) (K : System) (q : Request) where
  -- In whatever way a restore ends, each change that it tried came right after the record of its
  -- intent, and after the target, its schema, the backup of the live installation, the quiescence, the
  -- absence of sidecars and the staging were recorded as passed; nothing but its end follows a change,
  -- and nothing follows a failure.
  pub restore-IsGuarded :
      (s : K.State)
      → IsGuarded Protocol.restore (restore P K q (record { state = s; log = [] })).1.log
  restore-IsGuarded s = Ends-IsGuarded Protocol.restore K _ _ (restore-Ends P K q s)

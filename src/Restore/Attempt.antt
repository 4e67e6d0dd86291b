-- ===== src/Restore/Attempt.antt =====
-- restore/recovery_execution.py, restore/manager.py: what their methods have in common. The log, which
-- the program does not keep, lists the states that `RestoreJournal.record` has published and the
-- changes of the live installation that were tried, the last first.
pub mod Follows
use redline_os.Prelude.{Bool, true, false, List, ◌∷◌, if◌then◌else◌}
use redline_os.Errors.{Error}
use redline_os.Exec
use redline_os.Exec.{Exec, Result, ok, err, raise, after_ok, attempt}
use redline_os.Restore.Journal.States.{RestoreState}
use redline_os.Restore.Protocol.{Mutation, Action, recorded, touched}
use redline_os.Restore.System.{System}

pub record Attempt (K : System) : Type 0 where
  pub state : K.State
  pub log : List Action

module _ {K : System} {A B : Type 0} where
  infixl 10 ◌>>=◌ ◌>>◌
  unfoldable pub ◌>>=◌ : Exec (Attempt K) A → (A → Exec (Attempt K) B) → Exec (Attempt K) B
  ◌>>=◌ m f a = after_ok (m a) f

  unfoldable pub ◌>>◌ : Exec (Attempt K) A → Exec (Attempt K) B → Exec (Attempt K) B
  ◌>>◌ m n a = after_ok (m a) (λ _. n)

module _ {K : System} {A : Type 0} where
  abbrev pub back : List Action → Result A × K.State → Result A × Attempt K
  back log (r, s) = (r, record { state = s; log = log })

  -- A call that does not change the live installation.
  unfoldable pub call : Exec K.State A → Exec (Attempt K) A
  call m a = back a.log (m a.state)

  -- A call that may, whether it returns or raises.
  unfoldable pub touch : Mutation → Exec K.State A → Exec (Attempt K) A
  touch m body a = back (touched m ∷ a.log) (body a.state)

abbrev pub published : RestoreState → List Action → Result (Unit {0}) → List Action
published state log (ok done) = recorded state ∷ log
published state log (err e) = log

module _ {K : System} where
  -- `journal.record(state, ...)`
  unfoldable pub note : RestoreState → Exec (Attempt K) (Unit {0})
  note state a =
      let (r, s) = K.record_state state a.state in
      (r, record { state = s; log = published state a.log r })

  -- A failure is recorded, then raised.
  unfoldable pub fail {ℓ} : {A : Type ℓ} → RestoreState → Error → Exec (Attempt K) A
  unfolding note
  fail state e a = after_ok (note state a) (λ _. raise e)

  -- `if not confirmed: journal.record(state, ...); raise e`
  unfoldable pub or_fail : Bool → RestoreState → Error → Exec (Attempt K) (Unit {0})
  unfolding fail
  or_fail true state e a = (ok tt, a)
  or_fail false state e a = fail state e a

  abbrev pub handle :
      {A : Type 0} → (Error → Bool) → RestoreState → (Error → Error) → Error → Exec (Attempt K) A
  handle is_caught state reraised e =
      let recorded_failure = fail state (reraised e) in
      if is_caught e then recorded_failure else raise e

  -- `try: body` with `except ... as exc: journal.record(state, ...); raise ...`
  unfoldable pub or_record :
      {A : Type 0}
      → (Error → Bool)
      → RestoreState
      → (Error → Error)
      → Exec (Attempt K) A
      → Exec (Attempt K) A
  unfolding fail
  or_record is_caught state reraised body = attempt body (handle is_caught state reraised)

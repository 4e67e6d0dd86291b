-- ===== src/Restore/Execution/Safe.antt =====
-- restore/recovery_execution.py: what a recovery has done before it changes anything, and what it
-- refuses.
use redline_os.Prelude.{
  Bool, true, false, not, ◌&&◌, Option, none, some, [], ◌≡◌, refl, arith, ◌==◌, string_eq,
  Bool-cases, inl, inr, if◌then◌else◌,
}
use redline_os.Errors.{
  Error, value_error, recovery_confirmation_error, restore_attestation_missing_error,
  recovery_attestation_missing,
}
use redline_os.Exec.{Exec, Result, ok, err}
use redline_os.Render.World.{Platform}
use redline_os.Restore.System.{System}
use redline_os.Restore.Authorization.{
  is_backup_id, missing, missing_recovery_attestations, QuiescenceAttestations, validate_backup_id,
  require_attestations, require_recovery_authorization,
}
use redline_os.Restore.Protocol.{Protocol, Phase, recovery}
use redline_os.Restore.Protocol.Guards.{IsGuarded, phase-IsGuarded}
use redline_os.Restore.Attempt.{Attempt, ◌>>=◌, ◌>>◌, call}
use redline_os.Restore.Attempt.Follows.{Ends}
use redline_os.Restore.Execution.{Request, execute_recovery, prepare_recovery, open_attempt}
use redline_os.Restore.Execution.Refines.{execute_recovery-Ends}

module _ (protocol : Protocol) (K : System) where
  pub Ends-IsGuarded :
      {A : Type 0} (q : Phase) (x : Result A × Attempt K)
      → Ends protocol K q x
      → IsGuarded protocol x.1.log
  Ends-IsGuarded q (ok a, t) h = phase-IsGuarded protocol t.log q h
  Ends-IsGuarded q (err e, t) h = phase-IsGuarded protocol t.log h.0 h.1

abbrev is_given : QuiescenceAttestations → Bool
is_given a = a.mcp_stopped && (a.control_room_stopped && a.no_other_cli_operation)

-- The error with which an attempt is refused before anything is done.
abbrev pub refusal : (K : System) → Request → Option Error
refusal K q =
    if not (is_backup_id K.is_digit q.backup_id)
    then some value_error
    else if not (q.authorization.confirm_backup_id == q.backup_id)
    then some recovery_confirmation_error
    else if not (is_given q.authorization.quiescence)
    then some restore_attestation_missing_error
    else if not
        (q.authorization.disposition_understood && q.authorization.no_automatic_rollback_understood)
    then some recovery_attestation_missing
    else none

module _ {K : System} {A B : Type 0} where
  then_raises :
      (m : Exec (Attempt K) A) (n : Exec (Attempt K) B) (t : Attempt K) (e : Error)
      → m t ≡ (err e, t)
      → (m >> n) t ≡ (err e, t)
  unfolding ◌>>◌
  then_raises m n t e h = rw h refl

  bind_raises :
      (m : Exec (Attempt K) A) (f : A → Exec (Attempt K) B) (t : Attempt K) (e : Error)
      → m t ≡ (err e, t)
      → (m >>= f) t ≡ (err e, t)
  unfolding ◌>>=◌
  bind_raises m f t e h = rw h refl

module _ {K : System} {B : Type 0} where
  then_continues :
      (m : Exec (Attempt K) (Unit {0})) (n : Exec (Attempt K) B) (t : Attempt K)
      {x : Result B × Attempt K}
      → m t ≡ (ok tt, t)
      → n t ≡ x
      → (m >> n) t ≡ x
  unfolding ◌>>◌
  then_continues m n t h g = rw h g

module _ (P : Platform) (K : System) (q : Request) where
  authorization_refuses :
      (s : K.State) (e : Error)
      → is_backup_id K.is_digit q.backup_id ≡ true
      → refusal K q ≡ some e
      → require_recovery_authorization K q.authorization q.backup_id s ≡ (err e, s)
  unfolding require_recovery_authorization validate_backup_id require_attestations missing
      missing_recovery_attestations string_eq
  authorization_refuses s e valid h = ground arith

  id_refuses :
      (s : K.State) (e : Error)
      → is_backup_id K.is_digit q.backup_id ≡ false
      → refusal K q ≡ some e
      → validate_backup_id K q.backup_id s ≡ (err e, s)
  unfolding validate_backup_id
  id_refuses s e invalid h = ground arith

  id_passes :
      (s : K.State)
      → is_backup_id K.is_digit q.backup_id ≡ true
      → validate_backup_id K q.backup_id s ≡ (ok tt, s)
  unfolding validate_backup_id
  id_passes s valid = rw valid refl

  open_attempt_refuses :
      (t : Attempt K) (e : Error) → refusal K q ≡ some e → open_attempt P K q t ≡ (err e, t)
  unfolding open_attempt call
  open_attempt_refuses t e h = elim (Bool-cases (is_backup_id K.is_digit q.backup_id)) [
    | inl valid ↦
        then_continues _ _ t (rw (id_passes t.state valid) refl)
          (then_raises _ _ t e (rw (authorization_refuses t.state e valid h) refl))
    | inr invalid ↦ then_raises _ _ t e (rw (id_refuses t.state e invalid h) refl)
  ]

  pub execute_recovery-IsGuarded :
      (s : K.State)
      → IsGuarded recovery (execute_recovery P K q (record { state = s; log = [] })).1.log
  execute_recovery-IsGuarded s = Ends-IsGuarded recovery K _ _ (execute_recovery-Ends P K q s)

  -- Without a backup id of the right form, the same id as confirmation, the three attestations of
  -- quiescence and the two of the recovery, execute_recovery raises the error of the first that is
  -- missing, and has neither called the system nor recorded or changed anything.
  pub execute_recovery_refuses :
      (t : Attempt K) (e : Error) → refusal K q ≡ some e → execute_recovery P K q t ≡ (err e, t)
  unfolding execute_recovery prepare_recovery
  execute_recovery_refuses t e h =
      bind_raises _ _ t e (then_raises (open_attempt P K q) _ t e (open_attempt_refuses t e h))

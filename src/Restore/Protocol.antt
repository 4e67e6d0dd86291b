-- ===== src/Restore/Protocol.antt =====
-- docs/BACKUP_RECOVERY_ARCHITECTURE.md, restore/journal.py: the order of the states that an attempt
-- records and of the changes that it makes to the live installation. An attempt passes milestones one
-- after the other. A change is made only after its intent was recorded at its own milestone, and then
-- only its end is recorded; after a failure nothing is.
pub mod Steps
pub mod Guards
use redline_os.Prelude.{
  ℕ, ◌+◌, Bool, true, false, ◌&&◌, ◌||◌, Option, none, some, List, [], ◌∷◌, ◌==◌, nat_eq, leb,
  if◌then◌else◌,
}
use redline_os.Restore.Journal.States

-- A live object is moved aside, the database is replaced, the live configuration is moved aside, or
-- the staged one is put in its place.
pub data Mutation : Type 0 where
  disposal database_swap config_aside config_install : Mutation

pub data Action : Type 0 where
  recorded : States.RestoreState → Action
  touched : Mutation → Action

-- What a state says: a step has begun that changes nothing, the attempt has failed, the milestone is
-- passed, a change is about to be made at a milestone, or it was made, with the milestone after it.
pub data Kind : Type 0 where
  notice failure unexpected : Kind
  passes : ℕ → Kind
  intends : Mutation → ℕ → Kind
  completes : Mutation → ℕ → Kind

pub data Mode : Type 0 where
  calm stopped : Mode
  intended touching : Mutation → Mode

pub record Phase : Type 0 where
  pub milestone : ℕ
  pub mode : Mode

abbrev pub at : ℕ → Mode → Phase
at milestone mode = record { milestone = milestone; mode = mode }

abbrev pub same_mutation : Mutation → Mutation → Bool
same_mutation disposal disposal = true
same_mutation database_swap database_swap = true
same_mutation config_aside config_aside = true
same_mutation config_install config_install = true
same_mutation _ _ = false

-- The states of a recovery, with its thirteen milestones.
unfoldable pub recovery_kind : States.RestoreState → Kind
recovery_kind States.recovery_initiated = passes 1
recovery_kind States.recovery_plan_validated = passes 2
recovery_kind States.capture_complete = passes 3
recovery_kind States.capture_reverified = passes 4
recovery_kind States.source_reclassified = passes 5
recovery_kind States.pre_mutation_stability_confirmed = passes 6
recovery_kind States.quiescence_confirmed = passes 7
recovery_kind States.quiescence_not_applicable = passes 7
recovery_kind States.disposition_intent = intends disposal 7
recovery_kind States.disposition_complete = completes disposal 7
recovery_kind States.final_stability_confirmed = passes 8
recovery_kind States.sidecar_check_passed_pre = passes 9
recovery_kind States.staging_complete = passes 10
recovery_kind States.db_replace_intent = intends database_swap 10
recovery_kind States.db_replaced = completes database_swap 11
recovery_kind States.config_rename_aside_intent = intends config_aside 11
recovery_kind States.config_renamed_aside = completes config_aside 11
recovery_kind States.config_install_intent = intends config_install 11
recovery_kind States.config_replaced = completes config_install 12
recovery_kind States.verified_success = passes 13
recovery_kind States.capture_intent = notice
recovery_kind States.capture_reverification_intent = notice
recovery_kind States.source_reclassification_intent = notice
recovery_kind States.pre_mutation_stability_intent = notice
recovery_kind States.final_stability_intent = notice
recovery_kind States.staging_intent = notice
recovery_kind States.verification_intent = notice
recovery_kind States.recovery_plan_blocked = failure
recovery_kind States.capture_failed = failure
recovery_kind States.capture_reverification_failed = failure
recovery_kind States.capture_changed_during_capture = failure
recovery_kind States.source_reclassification_blocked = failure
recovery_kind States.pre_mutation_stability_mismatch = failure
recovery_kind States.quiescence_failed = failure
recovery_kind States.disposition_failed = failure
recovery_kind States.final_stability_mismatch = failure
recovery_kind States.sidecar_present_pre = failure
recovery_kind States.staging_failed = failure
recovery_kind States.db_replace_failed = failure
recovery_kind States.config_replace_failed = failure
recovery_kind States.verification_failed = failure
recovery_kind _ = unexpected

-- The states of a restore. The configuration is moved aside before the installation can be intended,
-- so that is a milestone here.
unfoldable pub restore_kind : States.RestoreState → Kind
restore_kind States.restore_initiated = passes 1
restore_kind States.target_verified = passes 2
restore_kind States.schema_compatible = passes 3
restore_kind States.pre_restore_snapshot_complete = passes 4
restore_kind States.quiescence_confirmed = passes 5
restore_kind States.sidecar_check_passed_pre = passes 6
restore_kind States.staging_complete = passes 7
restore_kind States.db_replace_intent = intends database_swap 7
restore_kind States.db_replaced = completes database_swap 8
restore_kind States.config_rename_aside_intent = intends config_aside 8
restore_kind States.config_renamed_aside = completes config_aside 9
restore_kind States.config_install_intent = intends config_install 9
restore_kind States.config_replaced = completes config_install 10
restore_kind States.verified_success = passes 11
restore_kind States.staging_intent = notice
restore_kind States.verification_intent = notice
restore_kind States.target_verification_failed = failure
restore_kind States.schema_incompatible = failure
restore_kind States.pre_restore_snapshot_failed = failure
restore_kind States.quiescence_failed = failure
restore_kind States.sidecar_present_pre = failure
restore_kind States.staging_failed = failure
restore_kind States.db_replace_failed = failure
restore_kind States.config_replace_failed = failure
restore_kind States.verification_failed = failure
restore_kind _ = unexpected

abbrev pub when : Bool → Phase → Option Phase
when true p = some p
when false p = none

-- One action in a phase, or none where the protocol does not allow it.
abbrev pub obey : Kind → ℕ → Mode → Option Phase
obey failure n stopped = none
obey failure n mode = some (at n stopped)
obey notice n calm = some (at n calm)
obey (passes k) n calm = when (k == n + 1) (at k calm)
obey (intends m k) n calm = when (k == n) (at n (intended m))
obey (completes m k) n (touching m') =
    when (same_mutation m m' && (k == n || k == n + 1)) (at k calm)
obey _ _ _ = none

-- Of an attempt: what its states say, the milestone before which nothing may be changed, and the last.
pub record Protocol : Type 0 where
  pub kind : States.RestoreState → Kind
  pub first : ℕ
  pub last : ℕ

abbrev pub recovery : Protocol
recovery = record { kind = recovery_kind; first = 7; last = 13 }

abbrev pub restore : Protocol
restore = record { kind = restore_kind; first = 7; last = 11 }

module _ (protocol : Protocol) where
  abbrev pub touch_in : Mutation → ℕ → Mode → Option Phase
  touch_in m n (intended m') =
      when (same_mutation m m' && leb protocol.first n) (at n (touching m'))
  touch_in m n _ = none

  abbrev pub advance : Action → Phase → Option Phase
  advance (recorded state) p = obey (protocol.kind state) p.milestone p.mode
  advance (touched m) p = touch_in m p.milestone p.mode

  abbrev pub advance_from : Action → Option Phase → Option Phase
  advance_from action none = none
  advance_from action (some p) = advance action p

  -- The phase after the actions, of which the last stands first.
  unfoldable pub phase_of : List Action → Option Phase
  phase_of [] = some (at 0 calm)
  phase_of (action ∷ actions) = advance_from action (phase_of actions)

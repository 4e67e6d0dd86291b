-- ===== src/Asset/Reconciliation/Models.antt =====
-- asset/models.py, and enums.py, subjects.py, models.py, indexes.py, matching.py of
-- asset/reconciliation/: the data that the classification reads. Dicts are association lists, times are
-- numbers.
use redline_os.Prelude.{ℕ, String, Bool, Option, List}

pub data AssetLifecycle : Type 0 where
  declared active deprecated : AssetLifecycle

pub data AssetAvailability : Type 0 where
  unknown available missing non_file : AssetAvailability

pub data AssetVerificationState : Type 0 where
  unverified verified failed : AssetVerificationState

pub data ConflictKind : Type 0 where
  authoritative_identity content duplicate_path registry_identity_evidence : ConflictKind
  registry_identity_collision observation_identity_collision : ConflictKind
  mixed_identity_collision lifecycle scope : ConflictKind

pub data PrimaryClassification : Type 0 where
  invalid_observation registry_snapshot_invalid registry_identity_evidence_conflict :
      PrimaryClassification
  registry_identity_collided authoritative_identity_conflict content_conflict :
      PrimaryClassification
  duplicate_path_conflict ambiguous_match unknown_authoritative_asset_id : PrimaryClassification
  path_changed metadata_drift lifecycle_conflict availability_changed : PrimaryClassification
  record_not_observed new_unregistered_observation unchanged : PrimaryClassification
  insufficient_scope unsupported_observation diagnostic_only : PrimaryClassification

pub data PlanSubject : Type 0 where
  registry_record observed : String → PlanSubject
  registry_record_group observation_group : List String → PlanSubject
  mixed_conflict : (asset_ids observation_ids : List String) → ConflictKind → PlanSubject

-- `RegistryIdentityEvidence`, with the text of its kind.
pub record Evidence : Type 0 where
  pub evidence_kind : String
  pub algorithm : Option String
  pub normalized_value : String

pub record AssetRegistryRecord : Type 0 where
  pub asset_id : String
  pub normalized_resolved_path : Option String
  pub asset_lifecycle : AssetLifecycle
  pub availability : AssetAvailability
  pub verification : AssetVerificationState
  pub file_size_bytes : Option ℕ
  pub file_modified_at : Option ℕ

pub record AssetObservation : Type 0 where
  pub observation_id : String
  pub availability : AssetAvailability
  pub verification : AssetVerificationState
  pub normalized_resolved_path : Option String
  pub file_size_bytes : Option ℕ
  pub file_modified_at : Option ℕ
  pub claimed_asset_id : Option String
  pub content_hashes : List (String × String)

pub record DefinitiveAssociation : Type 0 where
  pub asset_id : String
  pub observation_id : String
  pub association_kind : String

pub record BlockedObservation : Type 0 where
  pub observation_id : String
  pub blocking_code : String

pub record ConflictGroup : Type 0 where
  pub subject : PlanSubject
  pub conflict_kind : ConflictKind
  pub asset_ids : List String
  pub observation_ids : List String
  pub evidence_facts : List String
  pub proposal_blocked : Bool

pub record MatchingState : Type 0 where
  pub definitive_associations : List DefinitiveAssociation
  pub blocked_observations : List BlockedObservation
  pub conflict_groups : List ConflictGroup

-- The parts of `ReconciliationIndexes` that are read.
pub record Indexes : Type 0 where
  pub asset_id_to_record : List (String × AssetRegistryRecord)
  pub record_evidence_by_asset_id : List (String × List Evidence)
  pub registry_path_collisions : List (List String)
  pub observation_id_to_observation : List (String × AssetObservation)
  pub observation_path_collisions : List (List String)

pub record ClassificationDecision : Type 0 where
  pub subject : PlanSubject
  pub primary_classification : PrimaryClassification
  pub evidence_facts : List String
  pub requires_review : Bool
  pub is_blocked : Bool

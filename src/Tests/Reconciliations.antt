-- ===== src/Tests/Reconciliations.antt =====
-- The theorems on the reconciliation of assets, at concrete inputs.
use redline_os.Prelude.{
  ◌≤◌, String, true, false, none, some, List, [], ◌∷◌, ◌≡◌, refl, count, any, string_eq, nat_eq,
  option_eq,
}
use redline_os.Asset.Reconciliation.Models.{
  active, available, unverified, verified, Evidence, AssetRegistryRecord, AssetObservation,
  DefinitiveAssociation, MatchingState, Indexes, ClassificationDecision, registry_record, observed,
  mixed_conflict, content, ConflictGroup, unchanged, content_conflict, new_unregistered_observation,
}
use redline_os.Asset.Reconciliation.Pairs.{
  decision, registry_hash, sort_pairs, classify_matched_pair,
}
use redline_os.Asset.Reconciliation.Pairs.Unchanged.{is_unchanged, classify_matched_pair_unchanged}
use redline_os.Asset.Reconciliation.Classification.{classify_reconciliation}
use redline_os.Asset.Reconciliation.Classification.Once.{is_record, is_observed}
use redline_os.Asset.Reconciliation.Classification.Single.{classify_once}

abbrev same_text : String → String
same_text s = s

abbrev record_a : AssetRegistryRecord
record_a = record {
  asset_id = "a";
  normalized_resolved_path = some "/m/a.mov";
  asset_lifecycle = active;
  availability = available;
  verification = unverified;
  file_size_bytes = some 7;
  file_modified_at = some 3;
}

abbrev observation_o : AssetObservation
observation_o = record {
  observation_id = "o";
  availability = available;
  verification = unverified;
  normalized_resolved_path = some "/m/a.mov";
  file_size_bytes = some 7;
  file_modified_at = some 3;
  claimed_asset_id = none;
  content_hashes = [];
}

abbrev pair : DefinitiveAssociation
pair = record { asset_id = "a"; observation_id = "o"; association_kind = "exact_path" }

-- The two sides are verified, and have different digests.
abbrev checked_record : AssetRegistryRecord
checked_record = record record_a { verification = verified }

abbrev changed_file : AssetObservation
changed_file = record observation_o {
  verification = verified;
  content_hashes = ("sha256", "ff") ∷ [];
}

abbrev digest_known : Evidence
digest_known = record {
  evidence_kind = "full_content_hash";
  algorithm = some "sha256";
  normalized_value = "00";
}

classify_matched_pair_unchanged_example :
    is_unchanged
      (classify_matched_pair same_text pair checked_record changed_file
        (digest_known ∷ [])).primary_classification
    ≡ false
unfolding sort_pairs registry_hash string_eq nat_eq option_eq
classify_matched_pair_unchanged_example =
    classify_matched_pair_unchanged same_text pair checked_record changed_file (digest_known ∷ [])

abbrev indexes : Indexes
indexes = record {
  asset_id_to_record = ("a", record_a) ∷ [];
  record_evidence_by_asset_id = [];
  registry_path_collisions = [];
  observation_id_to_observation =
      ("o", observation_o) ∷ ("p", observation_o) ∷ ("x", observation_o) ∷ [];
  observation_path_collisions = [];
}

abbrev conflict : ConflictGroup
conflict = record {
  subject = mixed_conflict ("b" ∷ []) ("x" ∷ []) content;
  conflict_kind = content;
  asset_ids = "b" ∷ [];
  observation_ids = "x" ∷ [];
  evidence_facts = [];
  proposal_blocked = true;
}

abbrev matching : MatchingState
matching = record {
  definitive_associations = pair ∷ [];
  blocked_observations = [];
  conflict_groups = conflict ∷ [];
}

-- A conflict, an observation that is new, and a pair that agrees.
abbrev decisions : List ClassificationDecision
decisions =
    decision (mixed_conflict ("b" ∷ []) ("x" ∷ []) content) content_conflict [] none true
    ∷ decision (observed "p") new_unregistered_observation ("new_unregistered_observation" ∷ [])
        none false
    ∷ decision (registry_record "a") unchanged ("unchanged" ∷ []) (some false) false
    ∷ []

classify_once_example :
    (count (is_record "a") decisions ≤ 1) × (count (is_observed "a") decisions ≤ 1)
unfolding classify_reconciliation string_eq nat_eq option_eq any
classify_once_example = classify_once same_text indexes matching [] decisions "a" (refl, tt) refl

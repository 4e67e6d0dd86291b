-- ===== src/Asset/Reconciliation/Pairs.antt =====
-- asset/reconciliation/classification.py: the ranks 8 to 10, 13 and 14, which compare a registry record
-- with the observation that matches it. `str.lower` is a parameter.
pub mod Unchanged
use Prim.Native.String.{compare}
use text.Mathlib.Text.{is_le}
use redline_os.Prelude.{
  ℕ, String, Bool, true, false, not, ◌&&◌, ◌||◌, Option, none, some, List, [], ◌∷◌, ◌++◌, ◌==◌,
  nat_eq, string_eq, option_eq, if◌then◌else◌, is_none, any,
}
use redline_os.Prelude.Text.{sort_names}
use redline_os.Asset.Reconciliation.Models.{
  AssetLifecycle, declared, active, deprecated, AssetAvailability, unknown, available, missing,
  non_file, AssetVerificationState, unverified, verified, failed, PrimaryClassification,
  invalid_observation, registry_snapshot_invalid, registry_identity_evidence_conflict,
  registry_identity_collided, authoritative_identity_conflict, content_conflict,
  duplicate_path_conflict, ambiguous_match, unknown_authoritative_asset_id, path_changed,
  metadata_drift, lifecycle_conflict, availability_changed, record_not_observed,
  new_unregistered_observation, unchanged, insufficient_scope, unsupported_observation,
  diagnostic_only, PlanSubject, registry_record, Evidence, AssetRegistryRecord, AssetObservation,
  DefinitiveAssociation, ClassificationDecision,
}

-- `_REQUIRES_REVIEW_BY_DEFAULT`
unfoldable pub requires_review_by_default : PrimaryClassification → Bool
requires_review_by_default registry_identity_evidence_conflict = true
requires_review_by_default registry_identity_collided = true
requires_review_by_default authoritative_identity_conflict = true
requires_review_by_default content_conflict = true
requires_review_by_default duplicate_path_conflict = true
requires_review_by_default ambiguous_match = true
requires_review_by_default unknown_authoritative_asset_id = true
requires_review_by_default path_changed = true
requires_review_by_default lifecycle_conflict = true
requires_review_by_default availability_changed = true
requires_review_by_default new_unregistered_observation = true
requires_review_by_default _ = false

abbrev pub member : String → List String → Bool
member x xs = any (λ y. y == x) xs

-- `set(facts)`
unfoldable pub distinct : List String → List String
distinct [] = []
distinct (x ∷ xs) = let rest = distinct xs in if member x rest then rest else x ∷ rest

abbrev or_default : Bool → Option Bool → Bool
or_default default none = default
or_default default (some b) = b

-- `_decision`
unfoldable pub decision :
    PlanSubject → PrimaryClassification → List String → Option Bool → Bool → ClassificationDecision
unfolding sort_names distinct requires_review_by_default
decision subject classification facts review proposal_blocked = record {
  subject = subject;
  primary_classification = classification;
  evidence_facts = sort_names (distinct facts);
  requires_review = or_default (requires_review_by_default classification) review;
  is_blocked = proposal_blocked;
}

-- `a is not None and b is not None and a != b`
abbrev pub differ : Option String → Option String → Bool
differ (some a) (some b) = not (a == b)
differ _ _ = false

abbrev pub is_strong : DefinitiveAssociation → Bool
is_strong a = a.association_kind == "unique_strong_identity"

-- `_path_changed`
unfoldable pub has_path_changed :
    DefinitiveAssociation → AssetRegistryRecord → AssetObservation → Bool
has_path_changed a r o = is_strong a && differ r.normalized_resolved_path o.normalized_resolved_path

abbrev pub is_deprecated : AssetLifecycle → Bool
is_deprecated deprecated = true
is_deprecated _ = false

abbrev pub is_verified : AssetVerificationState → Bool
is_verified verified = true
is_verified _ = false

-- `sorted` on pairs of an algorithm and a digest.
abbrev is_before : String × String → String × String → Bool
is_before (a, d) (b, e) = if a == b then is_le (compare d e) else is_le (compare a b)

insert_pair : String × String → List (String × String) → List (String × String)
insert_pair p [] = p ∷ []
insert_pair p (q ∷ qs) =
    let rest = insert_pair p qs in if is_before p q then p ∷ q ∷ qs else q ∷ rest

unfoldable pub sort_pairs : List (String × String) → List (String × String)
unfolding insert_pair
sort_pairs [] = []
sort_pairs (p ∷ ps) = insert_pair p (sort_pairs ps)

abbrev paired : String → Option String → Option (String × String) → Option (String × String)
paired digest none rest = rest
paired digest (some value) rest = some (value, digest)

module _ (lower : String → String) where
  -- `_normalize_algorithm`
  abbrev pub normalize_algorithm : Option String → Option String
  normalize_algorithm none = none
  normalize_algorithm (some a) = some (lower a)

  -- `registry_hashes.get(key)`: of two rows with one algorithm the later one counts.
  unfoldable pub registry_hash : Option String → List Evidence → Option String
  registry_hash key [] = none
  registry_hash key (e ∷ es) =
      let later = registry_hash key es in
      if is_none later
        && (e.evidence_kind == "full_content_hash" && normalize_algorithm e.algorithm == key)
      then some e.normalized_value
      else later

  unfoldable pub first_comparable :
      List Evidence → List (String × String) → Option (String × String)
  unfolding registry_hash
  first_comparable evidence [] = none
  first_comparable evidence ((algorithm, digest) ∷ hashes) =
      let rest = first_comparable evidence hashes in
      paired digest (registry_hash (some (lower algorithm)) evidence) rest

  -- `_comparable_verified_hash_pair`
  unfoldable pub comparable_verified_hash_pair :
      List Evidence → AssetRegistryRecord → AssetObservation → Option (String × String)
  unfolding first_comparable sort_pairs
  comparable_verified_hash_pair evidence r o =
      if is_verified r.verification && is_verified o.verification
      then first_comparable evidence (sort_pairs o.content_hashes)
      else none

-- `_availability_rule`
unfoldable pub availability_rule :
    AssetAvailability → AssetAvailability → Option PrimaryClassification
availability_rule available available = none
availability_rule missing available = some metadata_drift
availability_rule unknown available = some metadata_drift
availability_rule _ _ = some availability_changed

abbrev pub mismatch : Option (String × String) → Bool
mismatch none = false
mismatch (some (a, b)) = not (a == b)

abbrev pub fact_if : Bool → String → List String
fact_if true fact = fact ∷ []
fact_if false fact = []

abbrev pub remaining_facts :
    DefinitiveAssociation → AssetRegistryRecord → AssetObservation → List String
remaining_facts a r o =
    fact_if (not (is_strong a) && differ r.normalized_resolved_path o.normalized_resolved_path)
      "path_differs_non_strong_identity"
    ++ (fact_if (not (r.file_modified_at == o.file_modified_at)) "modified_time_differs"
        ++ fact_if (not (r.file_size_bytes == o.file_size_bytes)) "size_differs_no_comparable_hash")

abbrev pub drift_or_unchanged : PlanSubject → List String → Bool → ClassificationDecision
drift_or_unchanged subject [] review =
    decision subject unchanged ("unchanged" ∷ []) (some false) false
drift_or_unchanged subject (fact ∷ facts) review =
    decision subject metadata_drift (fact ∷ facts) (some review) false

-- `_classify_remaining_fields`
unfoldable pub classify_remaining_fields :
    DefinitiveAssociation
    → PlanSubject
    → AssetRegistryRecord
    → AssetObservation
    → ClassificationDecision
unfolding decision
classify_remaining_fields a subject r o =
    drift_or_unchanged subject (remaining_facts a r o)
      (not (r.file_size_bytes == o.file_size_bytes))

abbrev pub by_availability :
    PlanSubject → Option PrimaryClassification → ClassificationDecision → ClassificationDecision
by_availability subject none rest = rest
by_availability subject (some metadata_drift) rest =
    decision subject metadata_drift ("availability_recovered" ∷ []) none false
by_availability subject (some c) rest =
    decision subject availability_changed ("availability_state_changed" ∷ []) none false

module _ (lower : String → String) where
  -- `_classify_matched_pair`: the rules of `_MATCHED_PAIR_RULES` in their order; the last always decides.
  unfoldable pub classify_matched_pair :
      DefinitiveAssociation
      → AssetRegistryRecord
      → AssetObservation
      → List Evidence
      → ClassificationDecision
  unfolding decision has_path_changed comparable_verified_hash_pair availability_rule
      classify_remaining_fields
  classify_matched_pair a r o evidence =
      let subject = registry_record a.asset_id in
      if has_path_changed a r o
      then decision subject path_changed ("path_moved" ∷ []) none false
      else if is_deprecated r.asset_lifecycle
      then decision subject lifecycle_conflict ("lifecycle_deprecated_reactivation_blocked" ∷ [])
          none true
      else if mismatch (comparable_verified_hash_pair lower evidence r o)
      then decision subject content_conflict ("content_hash_mismatch" ∷ []) none false
      else by_availability subject (availability_rule r.availability o.availability)
          (classify_remaining_fields a subject r o)

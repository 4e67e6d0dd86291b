-- ===== src/Asset/Reconciliation/Classification.antt =====
-- asset/reconciliation/classification.py: `classify_reconciliation`, rank by rank. A state is the
-- decisions so far and the ids that they claim. `str.lower` is a parameter.
pub mod Once
pub mod Ranks
pub mod Single
use Prim.Native.String.{compare}
use text.Mathlib.Text.{is_le}
use redline_os.Prelude.{
  ℕ, String, Bool, true, false, not, ◌&&◌, ◌||◌, Option, none, some, List, [], ◌∷◌, ◌++◌, ◌==◌,
  string_eq, option_eq, if◌then◌else◌, any,
}
use redline_os.Prelude.Dict.{get, put}
use redline_os.Prelude.Text.{sort_names}
use redline_os.Errors.{Error, key_error, reconciliation_invariant_error}
use redline_os.Exec.{Exec, Result, ok, err, pure, raise, or_raise, ◌>>=◌, ◌>>◌}
use redline_os.Asset.Reconciliation.Models.{
  ConflictKind, authoritative_identity, content, duplicate_path, registry_identity_evidence,
  registry_identity_collision, observation_identity_collision, mixed_identity_collision, lifecycle,
  scope, PrimaryClassification, registry_identity_evidence_conflict, registry_identity_collided,
  authoritative_identity_conflict, content_conflict, duplicate_path_conflict, ambiguous_match,
  unknown_authoritative_asset_id, record_not_observed, new_unregistered_observation,
  insufficient_scope, PlanSubject, registry_record, observed, registry_record_group,
  observation_group, mixed_conflict, Evidence, AssetRegistryRecord, AssetObservation,
  DefinitiveAssociation, BlockedObservation, ConflictGroup, MatchingState, Indexes,
  ClassificationDecision,
}
use redline_os.Asset.Reconciliation.Pairs.{
  decision, member, normalize_algorithm, classify_matched_pair,
}

pub record Claims : Type 0 where
  pub decisions : List ClassificationDecision
  pub asset_ids : List String
  pub observation_ids : List String

abbrev pub keys {ℓ} : {A : Type ℓ} → List (String × A) → List String
keys [] = []
keys ((key, a) ∷ entries) = key ∷ keys entries

abbrev pub meets : List String → List String → Bool
meets xs ys = any (λ x. member x ys) xs

-- A decision is made, and the ids are claimed.
abbrev pub decided : ClassificationDecision → List String → List String → Claims → Claims
decided d assets observations s = record {
  decisions = s.decisions ++ (d ∷ []);
  asset_ids = assets ++ s.asset_ids;
  observation_ids = observations ++ s.observation_ids;
}

unfoldable pub decide : ClassificationDecision → List String → List String → Exec Claims (Unit {0})
decide d assets observations s = (ok tt, decided d assets observations s)

-- A decision, unless one of the ids is claimed.
unfoldable pub decide_unclaimed :
    ClassificationDecision → List String → List String → Exec Claims (Unit {0})
unfolding decide
decide_unclaimed d assets observations s =
    if meets assets s.asset_ids || meets observations s.observation_ids
    then (ok tt, s)
    else decide d assets observations s

unfoldable pub for_each {ℓ} :
    {A : Type ℓ} → (A → Exec Claims (Unit {0})) → List A → Exec Claims (Unit {0})
for_each body [] = pure tt
for_each body (x ∷ xs) = do body x; for_each body xs

-- `_CONFLICT_KIND_TO_CLASSIFICATION.get(kind)`
unfoldable pub classification_of : ConflictKind → Option PrimaryClassification
classification_of registry_identity_collision = some registry_identity_collided
classification_of observation_identity_collision = some ambiguous_match
classification_of mixed_identity_collision = some ambiguous_match
classification_of authoritative_identity = some authoritative_identity_conflict
classification_of content = some content_conflict
classification_of _ = none

abbrev pub rows_of : Option (List Evidence) → List Evidence
rows_of none = []
rows_of (some rows) = rows

module _ (lower : String → String) where
  abbrev disagrees : Evidence → Evidence → Bool
  disagrees a b =
      a.evidence_kind == b.evidence_kind
      && (normalize_algorithm lower a.algorithm == normalize_algorithm lower b.algorithm
          && not (a.normalized_value == b.normalized_value))

  -- `_has_registry_identity_evidence_conflict`: two rows with one key and different values.
  unfoldable pub has_evidence_conflict : List Evidence → Bool
  has_evidence_conflict [] = false
  has_evidence_conflict (e ∷ es) = any (disagrees e) es || has_evidence_conflict es

  module _ (indexes : Indexes) where
    -- Rank 1
    unfoldable pub rank_evidence : String → Exec Claims (Unit {0})
    unfolding has_evidence_conflict decide_unclaimed decision get string_eq
    rank_evidence asset_id =
        if has_evidence_conflict (rows_of (get asset_id indexes.record_evidence_by_asset_id))
        then decide_unclaimed
            (decision (registry_record asset_id) registry_identity_evidence_conflict
              ("registry_identity_evidence_conflict" ∷ []) none true)
            (asset_id ∷ []) []
        else pure tt

    abbrev pub as_conflict : ConflictGroup → Option PrimaryClassification → Exec Claims (Unit {0})
    as_conflict c none = pure tt
    as_conflict c (some classification) =
        decide_unclaimed
          (decision c.subject classification c.evidence_facts none c.proposal_blocked) c.asset_ids
          c.observation_ids

    -- Ranks 2, 3, 4a, 6b
    unfoldable pub rank_conflict : ConflictGroup → Exec Claims (Unit {0})
    unfolding classification_of decide_unclaimed decision
    rank_conflict c = as_conflict c (classification_of c.conflict_kind)

    -- Rank 5
    unfoldable pub rank_observation_paths : List String → Exec Claims (Unit {0})
    unfolding decide_unclaimed decision
    rank_observation_paths ids =
        decide_unclaimed
          (decision (observation_group ids) duplicate_path_conflict
            ("duplicate_observation_path" ∷ []) none true)
          [] ids

    unfoldable pub rank_registry_paths : List String → Exec Claims (Unit {0})
    unfolding decide_unclaimed decision
    rank_registry_paths ids =
        decide_unclaimed
          (decision (registry_record_group ids) duplicate_path_conflict
            ("registry_path_collision" ∷ []) none true)
          ids []

    abbrev pub ids_of : Option (List String) → List String
    ids_of none = []
    ids_of (some ids) = ids

    unfoldable pub add_claimed :
        BlockedObservation → List (String × List String) → Exec Claims (List (String × List String))
    unfolding get put string_eq
    add_claimed b grouped = do
      o ← or_raise key_error (get b.observation_id indexes.observation_id_to_observation)
      claimed ← or_raise key_error o.claimed_asset_id
      pure (put claimed (ids_of (get claimed grouped) ++ (b.observation_id ∷ [])) grouped)

    -- The loop of `_group_trusted_id_ambiguity`. Matching blocks with this code only an observation
    -- that claims an id.
    unfoldable pub group_claims :
        List BlockedObservation
        → List (String × List String)
        → Exec Claims (List (String × List String))
    unfolding add_claimed string_eq
    group_claims [] grouped = pure grouped
    group_claims (b ∷ bs) grouped =
        (if b.blocking_code == "trusted_asset_id_claimed_by_multiple_observations"
          then add_claimed b grouped
          else pure grouped)
        >>= group_claims bs

    -- Rank 6a, for one claimed id
    unfoldable pub rank_claimed : List (String × List String) → String → Exec Claims (Unit {0})
    unfolding decide_unclaimed decision get string_eq sort_names
    rank_claimed grouped claimed =
        decide_unclaimed
          (decision (observation_group (sort_names (ids_of (get claimed grouped)))) ambiguous_match
            ("trusted_asset_id_claimed_by_multiple_observations" ∷ []) none true)
          [] (sort_names (ids_of (get claimed grouped)))

    -- Rank 7
    unfoldable pub rank_unknown : BlockedObservation → Exec Claims (Unit {0})
    unfolding decide_unclaimed decision string_eq
    rank_unknown b =
        if b.blocking_code == "unknown_trusted_asset_id"
        then decide_unclaimed
            (decision (observed b.observation_id) unknown_authoritative_asset_id
              ("unknown_trusted_asset_id" ∷ []) none true)
            [] (b.observation_id ∷ [])
        else pure tt

    unfoldable pub claim : String → String → Exec Claims (Unit {0})
    claim asset_id observation_id s = (
      ok tt,
      record s {
        asset_ids = asset_id ∷ s.asset_ids;
        observation_ids = observation_id ∷ s.observation_ids;
      },
    )

    -- Ranks 8 to 10, 13, 14 with `_resolve_association`
    unfoldable pub compare_pair : DefinitiveAssociation → Exec Claims (Unit {0})
    unfolding decide classify_matched_pair get string_eq
    compare_pair a = do
      r ← or_raise reconciliation_invariant_error (get a.asset_id indexes.asset_id_to_record)
      o ←
          or_raise reconciliation_invariant_error
            (get a.observation_id indexes.observation_id_to_observation)
      decide
          (classify_matched_pair lower a r o
            (rows_of (get a.asset_id indexes.record_evidence_by_asset_id)))
          (a.asset_id ∷ []) (a.observation_id ∷ [])

    unfoldable pub rank_association : DefinitiveAssociation → Exec Claims (Unit {0})
    unfolding claim compare_pair
    rank_association a s =
        if member a.asset_id s.asset_ids || member a.observation_id s.observation_ids
        then claim a.asset_id a.observation_id s
        else compare_pair a s

    abbrev record_classification : Bool → PrimaryClassification
    record_classification true = record_not_observed
    record_classification false = insufficient_scope

    abbrev record_fact : Bool → String
    record_fact true = "record_not_observed_complete_scope"
    record_fact false = "insufficient_scope"

    abbrev pub unmatched_record : List (String × Bool) → String → Exec Claims (Unit {0})
    unmatched_record observability asset_id = do
      expected ← or_raise reconciliation_invariant_error (get asset_id observability)
      decide
          (decision (registry_record asset_id) (record_classification expected)
            (record_fact expected ∷ []) (some false) false)
          (asset_id ∷ []) []

    -- Ranks 11 and 15; `observability` has the `expected_observable` of each id.
    unfoldable pub rank_record : List (String × Bool) → String → Exec Claims (Unit {0})
    unfolding decide decision get string_eq
    rank_record observability asset_id s =
        if member asset_id s.asset_ids
        then (ok tt, s)
        else unmatched_record observability asset_id s

    -- Rank 12
    unfoldable pub rank_observation : String → Exec Claims (Unit {0})
    unfolding decide_unclaimed decision
    rank_observation observation_id =
        decide_unclaimed
          (decision (observed observation_id) new_unregistered_observation
            ("new_unregistered_observation" ∷ []) none false)
          [] (observation_id ∷ [])

-- `conflict_kind.value`
conflict_value : ConflictKind → String
conflict_value authoritative_identity = "authoritative_identity"
conflict_value content = "content"
conflict_value duplicate_path = "duplicate_path"
conflict_value registry_identity_evidence = "registry_identity_evidence"
conflict_value registry_identity_collision = "registry_identity_collision"
conflict_value observation_identity_collision = "observation_identity_collision"
conflict_value mixed_identity_collision = "mixed_identity_collision"
conflict_value lifecycle = "lifecycle"
conflict_value scope = "scope"

-- `canonical_key`, in which a text is a list of one.
unfoldable pub canonical_key : PlanSubject → List (List String)
unfolding conflict_value
canonical_key (registry_record asset_id) = ("registry_record" ∷ []) ∷ (asset_id ∷ []) ∷ []
canonical_key (observed observation_id) = ("observation" ∷ []) ∷ (observation_id ∷ []) ∷ []
canonical_key (registry_record_group ids) = ("registry_record_group" ∷ []) ∷ ids ∷ []
canonical_key (observation_group ids) = ("observation_group" ∷ []) ∷ ids ∷ []
canonical_key (mixed_conflict asset_ids observation_ids kind) =
    ("mixed_conflict" ∷ []) ∷ (conflict_value kind ∷ []) ∷ asset_ids ∷ observation_ids ∷ []

same_texts : List String → List String → Bool
same_texts [] [] = true
same_texts (x ∷ xs) (y ∷ ys) = x == y && same_texts xs ys
same_texts _ _ = false

texts_le : List String → List String → Bool
texts_le [] ys = true
texts_le (x ∷ xs) [] = false
texts_le (x ∷ xs) (y ∷ ys) =
    let rest = texts_le xs ys in if x == y then rest else is_le (compare x y)

unfoldable pub key_le : List (List String) → List (List String) → Bool
unfolding same_texts texts_le
key_le [] ys = true
key_le (x ∷ xs) [] = false
key_le (x ∷ xs) (y ∷ ys) = let rest = key_le xs ys in if same_texts x y then rest else texts_le x y

unfoldable pub insert_decision :
    ClassificationDecision → List ClassificationDecision → List ClassificationDecision
unfolding canonical_key key_le
insert_decision d [] = d ∷ []
insert_decision d (e ∷ es) =
    let rest = insert_decision d es in
    if key_le (canonical_key d.subject) (canonical_key e.subject) then d ∷ e ∷ es else e ∷ rest

-- `sorted(decisions, key=...)`, which keeps the order of equal keys.
unfoldable pub sort_decisions : List ClassificationDecision → List ClassificationDecision
unfolding insert_decision
sort_decisions [] = []
sort_decisions (d ∷ ds) = insert_decision d (sort_decisions ds)

abbrev pub unclaimed : Claims
unclaimed = record { decisions = []; asset_ids = []; observation_ids = [] }

abbrev pub sorted_decisions : Result (Unit {0}) × Claims → Result (List ClassificationDecision)
sorted_decisions (ok done, s) = ok (sort_decisions s.decisions)
sorted_decisions (err e, s) = err e

module _ (lower : String → String) (indexes : Indexes) (matching : MatchingState) where
  -- The ranks 1 to 7, which pass conflicts on.
  unfoldable pub classify_conflicts : Exec Claims (Unit {0})
  unfolding for_each rank_evidence rank_conflict rank_observation_paths rank_registry_paths
      group_claims rank_claimed rank_unknown sort_names
  classify_conflicts = do
    for_each (rank_evidence lower indexes) (sort_names (keys indexes.record_evidence_by_asset_id))
    for_each (rank_conflict lower indexes) matching.conflict_groups
    for_each (rank_observation_paths lower indexes) indexes.observation_path_collisions
    for_each (rank_registry_paths lower indexes) indexes.registry_path_collisions
    grouped ← group_claims lower indexes matching.blocked_observations []
    for_each (rank_claimed lower indexes grouped) (sort_names (keys grouped))
    for_each (rank_unknown lower indexes) matching.blocked_observations

  unfoldable pub classify_all : List (String × Bool) → Exec Claims (Unit {0})
  unfolding classify_conflicts for_each rank_association rank_record rank_observation sort_names
  classify_all observability = do
    classify_conflicts
    for_each (rank_association lower indexes) matching.definitive_associations
    for_each (rank_record lower indexes observability)
        (sort_names (keys indexes.asset_id_to_record))
    for_each (rank_observation lower indexes)
        (sort_names (keys indexes.observation_id_to_observation))

  -- `classify_reconciliation`
  unfoldable pub classify_reconciliation :
      List (String × Bool) → Result (List ClassificationDecision)
  unfolding classify_all sort_decisions
  classify_reconciliation observability = sorted_decisions (classify_all observability unclaimed)

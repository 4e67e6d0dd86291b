-- ===== src/Asset/Reconciliation/Pairs/Unchanged.antt =====
-- asset/reconciliation/classification.py: when a pair of a record and an observation is UNCHANGED.
use redline_os.Prelude.{
  String, Bool, true, false, not, ◌&&◌, none, some, List, [], ◌∷◌, ◌++◌, ◌≡◌, refl, ap, ◌∙◌, ◌==◌,
  nat_eq, string_eq, option_eq, if◌then◌else◌, arith,
}
use redline_os.Asset.Reconciliation.Models.{
  AssetVerificationState, verified, AssetAvailability, unknown, available, missing, non_file,
  PrimaryClassification, unchanged, PlanSubject, registry_record, Evidence, AssetRegistryRecord,
  AssetObservation, DefinitiveAssociation, ClassificationDecision,
}
use redline_os.Asset.Reconciliation.Pairs.{
  registry_hash, first_comparable, sort_pairs, decision, differ, is_strong, has_path_changed,
  is_deprecated, comparable_verified_hash_pair, mismatch, availability_rule, drift_or_unchanged,
  classify_remaining_fields, by_availability, classify_matched_pair, fact_if,
}

abbrev pub is_unchanged : PrimaryClassification → Bool
is_unchanged unchanged = true
is_unchanged _ = false

abbrev pub is_available : AssetAvailability → Bool
is_available available = true
is_available _ = false

abbrev pub both_verified : AssetVerificationState → AssetVerificationState → Bool
both_verified verified verified = true
both_verified _ _ = false

module _ (lower : String → String) where
  -- The first of the observation's digests whose algorithm the registry has too is another one there.
  abbrev pub clashes : List Evidence → List (String × String) → Bool
  clashes evidence [] = false
  clashes evidence ((algorithm, digest) ∷ hashes) =
      let rest = clashes evidence hashes in
      elim (registry_hash lower (some (lower algorithm)) evidence) [
        | none ↦ rest
        | some known ↦ not (known == digest)
      ]

  first_comparable-clashes :
      (evidence : List Evidence) (hashes : List (String × String))
      → mismatch (first_comparable lower evidence hashes) ≡ clashes evidence hashes
  unfolding first_comparable
  first_comparable-clashes evidence [] = refl
  first_comparable-clashes evidence ((algorithm, digest) ∷ hashes) =
      ground (arith, first_comparable-clashes evidence hashes)

  mismatch-clashes :
      (r : AssetRegistryRecord) (o : AssetObservation) (evidence : List Evidence)
      → mismatch (comparable_verified_hash_pair lower evidence r o) ≡ (
          both_verified r.verification o.verification
          && clashes evidence (sort_pairs o.content_hashes))
  unfolding comparable_verified_hash_pair
  mismatch-clashes r o evidence =
      ground (arith, first_comparable-clashes evidence (sort_pairs o.content_hashes))

  -- Nothing of the pair differs: paths that both are known, lifecycle, the digests of a pair that is
  -- verified on both sides, availability, time and size.
  abbrev pub agrees : AssetRegistryRecord → AssetObservation → List Evidence → Bool
  agrees r o evidence =
      not (differ r.normalized_resolved_path o.normalized_resolved_path)
      && (not (is_deprecated r.asset_lifecycle)
          && (not (
                both_verified r.verification o.verification
                && clashes evidence (sort_pairs o.content_hashes))
              && ((is_available r.availability && is_available o.availability)
                  && (r.file_modified_at == o.file_modified_at
                      && r.file_size_bytes == o.file_size_bytes))))

-- The classification of the remaining fields, by the three facts.
remaining-unchanged :
    (subject : PlanSubject) (path time size review : Bool)
    → is_unchanged
        (drift_or_unchanged subject
          (fact_if path "path_differs_non_strong_identity"
            ++ (fact_if time "modified_time_differs"
                ++ fact_if size "size_differs_no_comparable_hash"))
          review).primary_classification
      ≡ (not path && (not time && not size))
unfolding decision
remaining-unchanged subject true time size review = refl
remaining-unchanged subject false true size review = refl
remaining-unchanged subject false false true review = refl
remaining-unchanged subject false false false review = refl

-- After an availability that the rule does not pass on, nothing is unchanged.
availability-unchanged :
    (subject : PlanSubject) (a b : AssetAvailability) (rest : ClassificationDecision)
    → is_unchanged (by_availability subject (availability_rule a b) rest).primary_classification
      ≡ ((is_available a && is_available b) && is_unchanged rest.primary_classification)
unfolding availability_rule decision
availability-unchanged subject available available rest = refl
availability-unchanged subject available unknown rest = refl
availability-unchanged subject available missing rest = refl
availability-unchanged subject available non_file rest = refl
availability-unchanged subject unknown available rest = refl
availability-unchanged subject unknown unknown rest = refl
availability-unchanged subject unknown missing rest = refl
availability-unchanged subject unknown non_file rest = refl
availability-unchanged subject missing available rest = refl
availability-unchanged subject missing unknown rest = refl
availability-unchanged subject missing missing rest = refl
availability-unchanged subject missing non_file rest = refl
availability-unchanged subject non_file available rest = refl
availability-unchanged subject non_file unknown rest = refl
availability-unchanged subject non_file missing rest = refl
availability-unchanged subject non_file non_file rest = refl

-- The tests of the first three rules, in their order, before the rest.
pair-unchanged :
    (strong path deprecated content : Bool) (d e f rest : ClassificationDecision)
    → is_unchanged d.primary_classification ≡ false
    → is_unchanged e.primary_classification ≡ false
    → is_unchanged f.primary_classification ≡ false
    → is_unchanged
        (if strong && path
          then d
          else if deprecated
          then e
          else if content
          then f
          else rest).primary_classification
      ≡ (not (strong && path)
          && (not deprecated && (not content && is_unchanged rest.primary_classification)))
pair-unchanged true true deprecated content d e f rest hd he hf = hd
pair-unchanged true false true content d e f rest hd he hf = he
pair-unchanged true false false true d e f rest hd he hf = hf
pair-unchanged true false false false d e f rest hd he hf = refl
pair-unchanged false path true content d e f rest hd he hf = he
pair-unchanged false path false true d e f rest hd he hf = hf
pair-unchanged false path false false d e f rest hd he hf = refl

-- The kind of the association decides which rule looks at the paths, not whether one does.
either_rule :
    (strong path lifecycle content known time size : Bool)
    → (not (strong && path)
        && (lifecycle
            && (content
                && (known && (not (not strong && path) && (not (not time) && not (not size)))))))
      ≡ (not path && (lifecycle && (content && (known && (time && size)))))
either_rule true true lifecycle content known time size = refl
either_rule true false lifecycle content known true true = refl
either_rule true false lifecycle content known true false = refl
either_rule true false lifecycle content known false size = refl
either_rule false true lifecycle content known time size = ground arith
either_rule false false lifecycle content known true true = refl
either_rule false false lifecycle content known true false = refl
either_rule false false lifecycle content known false size = refl

module _ (lower : String → String) where
  -- A matched pair is classified as UNCHANGED exactly if nothing of it differs: the known paths, the
  -- lifecycle (not deprecated), where both sides are verified the first digest in order that the
  -- registry has too, both available, the time and the size.
  pub classify_matched_pair_unchanged :
      (a : DefinitiveAssociation) (r : AssetRegistryRecord) (o : AssetObservation)
      (evidence : List Evidence)
      → is_unchanged (classify_matched_pair lower a r o evidence).primary_classification
        ≡ agrees lower r o evidence
  unfolding classify_matched_pair has_path_changed classify_remaining_fields decision
  classify_matched_pair_unchanged a r o evidence =
      let path = differ r.normalized_resolved_path o.normalized_resolved_path in
      let content = mismatch (comparable_verified_hash_pair lower evidence r o) in
      let rest = classify_remaining_fields a (registry_record a.asset_id) r o in
      pair-unchanged (is_strong a) path (is_deprecated r.asset_lifecycle) content _ _ _
        (by_availability (registry_record a.asset_id)
          (availability_rule r.availability o.availability) rest)
        refl refl refl
      ∙ ap
          (λ b.
            not (is_strong a && path)
            && (not (is_deprecated r.asset_lifecycle) && (not content && b)))
          (availability-unchanged (registry_record a.asset_id) r.availability o.availability rest
            ∙ ap (λ b. (is_available r.availability && is_available o.availability) && b)
                (remaining-unchanged (registry_record a.asset_id) (not (is_strong a) && path)
                  (not (r.file_modified_at == o.file_modified_at))
                  (not (r.file_size_bytes == o.file_size_bytes))
                  (not (r.file_size_bytes == o.file_size_bytes))))
      ∙ either_rule (is_strong a) path (not (is_deprecated r.asset_lifecycle)) (not content)
          (is_available r.availability && is_available o.availability)
          (r.file_modified_at == o.file_modified_at) (r.file_size_bytes == o.file_size_bytes)
      ∙ ap
          (λ b.
            not path
            && (not (is_deprecated r.asset_lifecycle)
                && (not b
                    && ((is_available r.availability && is_available o.availability)
                        && (r.file_modified_at == o.file_modified_at
                            && r.file_size_bytes == o.file_size_bytes)))))
          (mismatch-clashes lower r o evidence)

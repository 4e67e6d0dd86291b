-- ===== src/Asset/Reconciliation/Classification/Ranks.antt =====
-- asset/reconciliation/classification.py: every rank keeps the decisions single.
use redline_os.Prelude.{
  String, Bool, true, false, ◌||◌, Option, none, some, List, [], ◌∷◌, ◌≡◌, refl, sym, inl, inr,
  ◌==◌, string_eq, Bool-cases, any, All, arith, if◌then◌else◌, eq_of_==,
}
use redline_os.Prelude.Dict.{get}
use redline_os.Prelude.Text.{sort_names}
use redline_os.Errors.{Error, key_error}
use redline_os.Exec.{Exec, pure, or_raise, after_ok, ◌>>◌}
use redline_os.Exec.Preserves.{Preserves, Preserves-bind}
use redline_os.Asset.Reconciliation.Models.{
  PlanSubject, registry_record, observed, registry_record_group, observation_group,
  PrimaryClassification, ClassificationDecision, ConflictGroup, BlockedObservation, Indexes,
  DefinitiveAssociation, AssetRegistryRecord, AssetObservation, Evidence,
}
use redline_os.Asset.Reconciliation.Pairs.{
  decision, member, classify_matched_pair, classify_remaining_fields, has_path_changed,
  is_deprecated, mismatch, comparable_verified_hash_pair, availability_rule, remaining_facts,
  drift_or_unchanged, by_availability,
}
use redline_os.Asset.Reconciliation.Classification.{
  Claims, decided, decide, for_each, rank_evidence, has_evidence_conflict, rows_of, ids_of,
  rank_conflict, as_conflict, classification_of, rank_observation_paths, rank_registry_paths,
  group_claims, add_claimed, rank_claimed, rank_unknown, claim, compare_pair, rank_association,
  unmatched_record, rank_record, rank_observation,
}
use redline_os.Asset.Reconciliation.Classification.Once.{
  IsOnce, IsOwn, decided-IsOnce, decide_unclaimed-keeps,
}

registry_record-IsOwn : (a : String) (os : List String) → IsOwn (registry_record a) (a ∷ []) os
unfolding any
registry_record-IsOwn a os b = ground arith

observed-IsOwn : (o : String) → IsOwn (observed o) [] (o ∷ [])
unfolding any
observed-IsOwn o b = ground arith

-- A subject that is neither one record nor one observation.
abbrev pub is_wide : PlanSubject → Bool
is_wide (registry_record a) = false
is_wide (observed o) = false
is_wide _ = true

wide-IsOwn :
    (subject : PlanSubject) (assets observations : List String)
    → is_wide subject ≡ true
    → IsOwn subject assets observations
wide-IsOwn subject assets observations h a = ground arith

pure-keeps : Preserves {S = Claims} {A = Unit {0}} IsOnce (pure tt)
pure-keeps = record { at = λ s h. h }

if-subject :
    (b : Bool) (d e : ClassificationDecision) {subject : PlanSubject}
    → d.subject ≡ subject
    → e.subject ≡ subject
    → (if b then d else e).subject ≡ subject
if-subject true d e h g = h
if-subject false d e h g = g

drift-subject :
    (facts : List String) {subject : PlanSubject} (review : Bool)
    → (drift_or_unchanged subject facts review).subject ≡ subject
unfolding decision
drift-subject [] review = refl
drift-subject (fact ∷ facts) review = refl

by_availability-subject :
    (c : Option PrimaryClassification) {subject : PlanSubject} (rest : ClassificationDecision)
    → rest.subject ≡ subject
    → (by_availability subject c rest).subject ≡ subject
unfolding decision
by_availability-subject none rest h = h
by_availability-subject (some c) rest h = ground arith

or_false : (a b : Bool) → (a || b) ≡ false → (a ≡ false) × (b ≡ false)
or_false a b h = ground arith

-- Ids that are claimed without a decision.
claim-IsOnce :
    (a o : String) (s : Claims)
    → IsOnce s
    → IsOnce (record s { asset_ids = a ∷ s.asset_ids; observation_ids = o ∷ s.observation_ids })
unfolding any
claim-IsOnce a o s h b = ground (arith, h b)

record_fresh :
    (a b : String) (claimed : List String)
    → member a claimed ≡ false
    → (a == b) ≡ true
    → member b claimed ≡ false
record_fresh a b claimed fresh e = rw (sym (eq_of_== a b e)) fresh

not_observed {ℓ} : {A : Type ℓ} → false ≡ true → A
not_observed h = absurd (ground (arith, h))

-- A decision on a record that was not claimed.
decided_record :
    (d : ClassificationDecision) (a : String) (observations : List String) (s : Claims)
    → d.subject ≡ registry_record a
    → member a s.asset_ids ≡ false
    → IsOnce s
    → IsOnce (decided d (a ∷ []) observations s)
decided_record d a observations s subject fresh h =
    decided-IsOnce d (a ∷ []) observations s (rw subject (registry_record-IsOwn a observations))
      (λ b p. record_fresh a b s.asset_ids fresh (rw subject at p))
      (λ b p. not_observed (rw subject at p)) h

-- A missing entry raises before anything is decided.
raised_or :
    {A : Type 0} (e : Error) (o : Option A) (f : A → Exec Claims (Unit {0})) (s : Claims)
    → IsOnce s
    → ((a : A) → IsOnce (f a s).1)
    → IsOnce (after_ok (or_raise e o s) f).1
raised_or e none f s h g = h
raised_or e (some a) f s h g = g a

module _ {A : Type 0} where
  if-keeps :
      (b : Bool) (m n : Exec Claims A)
      → Preserves IsOnce m
      → Preserves IsOnce n
      → Preserves IsOnce (if b then m else n)
  if-keeps true m n h g = h
  if-keeps false m n h g = g

  pub then-keeps :
      {B : Type 0} (m : Exec Claims A) (n : Exec Claims B)
      → Preserves IsOnce m
      → Preserves IsOnce n
      → Preserves IsOnce (m >> n)
  then-keeps m n h g = Preserves-bind m (λ _. n) h (λ _. g)

  or_raise-keeps : (e : Error) (o : Option A) → Preserves {S = Claims} IsOnce (or_raise e o)
  or_raise-keeps e none = record { at = λ s h. h }
  or_raise-keeps e (some a) = record { at = λ s h. h }

module _ (lower : String → String) (indexes : Indexes) where
  pub rank_evidence-keeps : (a : String) → Preserves IsOnce (rank_evidence lower indexes a)
  unfolding rank_evidence decision
  rank_evidence-keeps a =
      if-keeps (has_evidence_conflict lower (rows_of (get a indexes.record_evidence_by_asset_id))) _
        _ (decide_unclaimed-keeps _ _ _ (registry_record-IsOwn a [])) pure-keeps

  as_conflict-keeps :
      (c : ConflictGroup) (o : Option PrimaryClassification)
      → is_wide c.subject ≡ true
      → Preserves IsOnce (as_conflict lower indexes c o)
  unfolding decision
  as_conflict-keeps c none h = pure-keeps
  as_conflict-keeps c (some classification) h =
      decide_unclaimed-keeps _ _ _ (wide-IsOwn c.subject c.asset_ids c.observation_ids h)

  pub conflicts-keeps :
      (cs : List ConflictGroup)
      → All (λ c. is_wide c.subject ≡ true) cs
      → Preserves IsOnce (for_each (rank_conflict lower indexes) cs)
  unfolding for_each rank_conflict
  conflicts-keeps [] h = pure-keeps
  conflicts-keeps (c ∷ cs) h =
      Preserves-bind (rank_conflict lower indexes c)
        (λ _. for_each (rank_conflict lower indexes) cs)
        (as_conflict-keeps c (classification_of c.conflict_kind) h.0) (λ _. conflicts-keeps cs h.1)

  add_claimed-keeps :
      (b : BlockedObservation) (grouped : List (String × List String))
      → Preserves IsOnce (add_claimed lower indexes b grouped)
  unfolding add_claimed
  add_claimed-keeps b grouped =
      Preserves-bind
        (or_raise key_error (get b.observation_id indexes.observation_id_to_observation)) _
        (or_raise-keeps _ _)
        λ o.
          Preserves-bind (or_raise key_error o.claimed_asset_id) _ (or_raise-keeps _ _)
            λ claimed. record { at = λ s h. h }

  pub group_claims-keeps :
      (bs : List BlockedObservation) (grouped : List (String × List String))
      → Preserves IsOnce (group_claims lower indexes bs grouped)
  unfolding group_claims
  group_claims-keeps [] grouped = record { at = λ s h. h }
  group_claims-keeps (b ∷ bs) grouped =
      Preserves-bind
        (if b.blocking_code == "trusted_asset_id_claimed_by_multiple_observations"
          then add_claimed lower indexes b grouped
          else pure grouped)
        (group_claims lower indexes bs)
        (if-keeps (b.blocking_code == "trusted_asset_id_claimed_by_multiple_observations") _ _
          (add_claimed-keeps b grouped) (record { at = λ s h. h }))
        (group_claims-keeps bs)

  classify_matched_pair-subject :
      (a : DefinitiveAssociation) (r : AssetRegistryRecord) (o : AssetObservation)
      (evidence : List Evidence)
      → (classify_matched_pair lower a r o evidence).subject ≡ registry_record a.asset_id
  unfolding classify_matched_pair decision classify_remaining_fields
  classify_matched_pair-subject a r o evidence = if-subject (has_path_changed a r o) _ _ refl (
      if-subject (is_deprecated r.asset_lifecycle) _ _ refl (
        if-subject (mismatch (comparable_verified_hash_pair lower evidence r o)) _ _ refl (
          by_availability-subject (availability_rule r.availability o.availability) _
            (drift-subject (remaining_facts a r o) _))))

  compare_pair-keeps :
      (a : DefinitiveAssociation) (s : Claims)
      → member a.asset_id s.asset_ids ≡ false
      → member a.observation_id s.observation_ids ≡ false
      → IsOnce s
      → IsOnce (compare_pair lower indexes a s).1
  unfolding compare_pair decide
  compare_pair-keeps a s fresh unseen h =
      raised_or _ (get a.asset_id indexes.asset_id_to_record) _ s h λ r.
        raised_or _ (get a.observation_id indexes.observation_id_to_observation) _ s h λ o.
          decided_record
            (classify_matched_pair lower a r o
              (rows_of (get a.asset_id indexes.record_evidence_by_asset_id)))
            a.asset_id (a.observation_id ∷ []) s
            (classify_matched_pair-subject a r o
              (rows_of (get a.asset_id indexes.record_evidence_by_asset_id)))
            fresh h

  pub rank_association-keeps :
      (a : DefinitiveAssociation) → Preserves IsOnce (rank_association lower indexes a)
  unfolding rank_association claim
  rank_association-keeps a = record {
    at = λ s h.
        elim (Bool-cases
          (member a.asset_id s.asset_ids || member a.observation_id s.observation_ids)) [
            | inl e ↦ rw e (claim-IsOnce a.asset_id a.observation_id s h)
            | inr e ↦ rw e (compare_pair-keeps a s (or_false _ _ e).0 (or_false _ _ e).1 h)
          ];
  }

  unmatched_record-keeps :
      (observability : List (String × Bool)) (a : String) (s : Claims)
      → member a s.asset_ids ≡ false
      → IsOnce s
      → IsOnce (unmatched_record lower indexes observability a s).1
  unfolding decide decision
  unmatched_record-keeps observability a s fresh h =
      raised_or _ (get a observability) _ s h λ expected. decided_record _ a [] s refl fresh h

  pub rank_record-keeps :
      (observability : List (String × Bool)) (a : String)
      → Preserves IsOnce (rank_record lower indexes observability a)
  unfolding rank_record
  rank_record-keeps observability a = record {
    at = λ s h. elim (Bool-cases (member a s.asset_ids)) [
      | inl e ↦ rw e h
      | inr e ↦ rw e (unmatched_record-keeps observability a s e h)
    ];
  }

  pub rank_unknown-keeps :
      (b : BlockedObservation) → Preserves IsOnce (rank_unknown lower indexes b)
  unfolding rank_unknown decision
  rank_unknown-keeps b =
      if-keeps (b.blocking_code == "unknown_trusted_asset_id") _ _
        (decide_unclaimed-keeps _ _ _ (observed-IsOwn b.observation_id)) pure-keeps

  pub rank_observation-keeps : (o : String) → Preserves IsOnce (rank_observation lower indexes o)
  unfolding rank_observation decision
  rank_observation-keeps o = decide_unclaimed-keeps _ _ _ (observed-IsOwn o)

  pub rank_claimed-keeps :
      (grouped : List (String × List String)) (c : String)
      → Preserves IsOnce (rank_claimed lower indexes grouped c)
  unfolding rank_claimed decision
  rank_claimed-keeps grouped c =
      decide_unclaimed-keeps _ _ _ (
        wide-IsOwn (observation_group (sort_names (ids_of lower indexes (get c grouped)))) [] _
          refl)

  pub rank_observation_paths-keeps :
      (ids : List String) → Preserves IsOnce (rank_observation_paths lower indexes ids)
  unfolding rank_observation_paths decision
  rank_observation_paths-keeps ids =
      decide_unclaimed-keeps _ _ _ (wide-IsOwn (observation_group ids) _ _ refl)

  pub rank_registry_paths-keeps :
      (ids : List String) → Preserves IsOnce (rank_registry_paths lower indexes ids)
  unfolding rank_registry_paths decision
  rank_registry_paths-keeps ids =
      decide_unclaimed-keeps _ _ _ (wide-IsOwn (registry_record_group ids) _ _ refl)

-- ===== src/Asset/Reconciliation/Classification/Single.antt =====
-- asset/reconciliation/classification.py: a whole classification decides at most once on each id.
use redline_os.Prelude.{
  ℕ, ◌+◌, ◌≤◌, String, Bool, true, List, [], ◌∷◌, ◌≡◌, refl, sym, string_eq, any, count, All, arith,
}
use redline_os.Prelude.Text.{sort_names}
use redline_os.Exec.{Result, ok, err}
use redline_os.Exec.Preserves.{Preserves, Preserves-bind}
use redline_os.Asset.Reconciliation.Models.{ClassificationDecision, Indexes, MatchingState}
use redline_os.Asset.Reconciliation.Classification.{
  Claims, keys, rank_evidence, rank_observation_paths, rank_registry_paths, group_claims,
  rank_claimed, rank_unknown, rank_association, rank_record, rank_observation, insert_decision,
  sort_decisions, unclaimed, sorted_decisions, classify_conflicts, classify_all,
  classify_reconciliation,
}
use redline_os.Asset.Reconciliation.Classification.Once.{
  is_record, is_observed, IsOnce, for_each-keeps, one_if,
}
use redline_os.Asset.Reconciliation.Classification.Ranks.{
  is_wide, then-keeps, rank_evidence-keeps, conflicts-keeps, group_claims-keeps,
  rank_association-keeps, rank_record-keeps, rank_unknown-keeps, rank_observation-keeps,
  rank_claimed-keeps, rank_observation_paths-keeps, rank_registry_paths-keeps,
}

module _ (p : ClassificationDecision → Bool) where
  count-insert_decision :
      (d : ClassificationDecision) (ds : List ClassificationDecision)
      → count p (insert_decision d ds) ≡ one_if (p d) + count p ds
  unfolding insert_decision count
  count-insert_decision d [] = ground arith
  count-insert_decision d (e ∷ es) = ground (arith, count-insert_decision d es)

  count-sort_decisions :
      (ds : List ClassificationDecision) → count p (sort_decisions ds) ≡ count p ds
  unfolding sort_decisions count
  count-sort_decisions [] = refl
  count-sort_decisions (d ∷ ds) =
      ground (arith, count-insert_decision d (sort_decisions ds), count-sort_decisions ds)

le_one : (n : ℕ) (b : Bool) → n ≤ one_if b → n ≤ 1
le_one n b h = ground arith

unclaimed-IsOnce : IsOnce unclaimed
unfolding count any
unclaimed-IsOnce a = ground arith

module _ (lower : String → String) (indexes : Indexes) (matching : MatchingState) where
  classify_conflicts-IsOnce :
      All (λ c. is_wide c.subject ≡ true) matching.conflict_groups
      → Preserves IsOnce (classify_conflicts lower indexes matching)
  unfolding classify_conflicts
  classify_conflicts-IsOnce wide =
      then-keeps _ _
        (for_each-keeps (rank_evidence lower indexes)
          (sort_names (keys indexes.record_evidence_by_asset_id))
          (rank_evidence-keeps lower indexes))
        (then-keeps _ _ (conflicts-keeps lower indexes matching.conflict_groups wide) (
          then-keeps _ _
            (for_each-keeps (rank_observation_paths lower indexes)
              indexes.observation_path_collisions (rank_observation_paths-keeps lower indexes))
            (then-keeps _ _
              (for_each-keeps (rank_registry_paths lower indexes) indexes.registry_path_collisions
                (rank_registry_paths-keeps lower indexes))
              (Preserves-bind (group_claims lower indexes matching.blocked_observations []) _
                (group_claims-keeps lower indexes matching.blocked_observations [])
                λ grouped.
                  then-keeps _ _
                    (for_each-keeps (rank_claimed lower indexes grouped) (sort_names (keys grouped))
                      (rank_claimed-keeps lower indexes grouped))
                    (for_each-keeps (rank_unknown lower indexes) matching.blocked_observations
                      (rank_unknown-keeps lower indexes))))))

  pub classify_all-IsOnce :
      (observability : List (String × Bool))
      → All (λ c. is_wide c.subject ≡ true) matching.conflict_groups
      → Preserves IsOnce (classify_all lower indexes matching observability)
  unfolding classify_all
  classify_all-IsOnce observability wide = then-keeps _ _ (classify_conflicts-IsOnce wide) (
      then-keeps _ _
        (for_each-keeps (rank_association lower indexes) matching.definitive_associations
          (rank_association-keeps lower indexes))
        (then-keeps _ _
          (for_each-keeps (rank_record lower indexes observability)
            (sort_names (keys indexes.asset_id_to_record))
            (rank_record-keeps lower indexes observability))
          (for_each-keeps (rank_observation lower indexes)
            (sort_names (keys indexes.observation_id_to_observation))
            (rank_observation-keeps lower indexes))))

  sorted_of :
      (x : Result (Unit {0}) × Claims) (ds : List ClassificationDecision)
      → sorted_decisions x ≡ ok ds
      → sort_decisions x.1.decisions ≡ ds
  sorted_of (ok done, s) ds h = ground arith
  sorted_of (err e, s) ds h = ground arith

  -- If the conflicts that matching found are on no single record and no single observation,
  -- classify_reconciliation makes at most one decision on each record and on each observation.
  pub classify_once :
      (observability : List (String × Bool)) (ds : List ClassificationDecision) (id : String)
      → All (λ c. is_wide c.subject ≡ true) matching.conflict_groups
      → classify_reconciliation lower indexes matching observability ≡ ok ds
      → (count (is_record id) ds ≤ 1) × (count (is_observed id) ds ≤ 1)
  unfolding classify_reconciliation
  classify_once observability ds id wide h =
      let s = (classify_all lower indexes matching observability unclaimed).1 in
      let once : IsOnce s =
        (classify_all-IsOnce observability wide).at unclaimed unclaimed-IsOnce in
      rw
        (
          sym (sorted_of (classify_all lower indexes matching observability unclaimed) ds h),
          count-sort_decisions (is_record id) s.decisions,
          count-sort_decisions (is_observed id) s.decisions,
        )
        (le_one _ _ (once id).0, le_one _ _ (once id).1)

-- ===== src/Episode/Manager/Refused.antt =====
-- A build that does not get the claim.
use redline_os.Prelude.{String, Bool, true, false, ◌≡◌, ◌≢◌, refl, arith, inl, inr, Bool-cases}
use redline_os.Errors.{format_error}
use redline_os.Exec.{Result, ok, err, Result-cases, after_ok-err, or_raise, ◌>>◌}
use redline_os.Store.Rows.{Episode}
use redline_os.Store.Episodes.{claim_episode_for_assembly, get_episode_by_episode_id}
use redline_os.Episode.World.{Outside, Texts, Config, World, on_db}
use redline_os.Episode.Definition.{EpisodeBuildDefinition, is_valid_definition}
use redline_os.Episode.Manager.{
  claim_episode_for_build, assemble, timeline_name_for_episode, build_episode,
}

abbrev pub is_ok {ℓ} : {A : Type ℓ} → Result A → Bool
is_ok (ok a) = true
is_ok (err e) = false

-- Raised, and Resolve and the file system are as they were.
abbrev pub IsRefused : {O : Outside} {A : Type 0} → World O → Result A × World O → Type 0
IsRefused w p = (is_ok p.0 ≡ false) × (p.1.outside ≡ w.outside)

module _ (O : Outside) (T : Texts) (config : Config) (token : String) (id : String) (force : Bool)
    (w : World O) where
  claim-IsRefused :
      (claim_episode_for_assembly id token force w.db).0 ≢ ok true
      → IsRefused w (claim_episode_for_build O T config token id force w)
  unfolding claim_episode_for_build on_db
  claim-IsRefused lost =
      let claim = claim_episode_for_assembly id token force w.db in
      elim (Result-cases claim.0) [
        | inl (e, raises) ↦ (ground arith, ground arith)
        | inr (true, won) ↦ absurd (lost won)
        | inr (false, other) ↦ elim (Result-cases (get_episode_by_episode_id id claim.1).0) [
          | inl (e, raises) ↦ (ground arith, ground arith)
          | inr (row, reads) ↦ (ground arith, ground arith)
        ]
      ]

module _ (O : Outside) (T : Texts) (config : Config) (token : String) where
  -- Unless the claim of the episode is acquired, `build_episode` raises and neither Resolve nor the
  -- file system has been touched, forced or not, and whatever statement of SQLite fails.
  pub build-IsRefused :
      (definition : EpisodeBuildDefinition) (force : Bool) (w : World O)
      → (claim_episode_for_assembly definition.episode_id token force w.db).0 ≢ ok true
      → IsRefused w (build_episode O T config token definition force w)
  unfolding build_episode
  build-IsRefused definition force w lost =
      elim (Bool-cases (is_valid_definition T.normalized definition)) [
        | inl valid ↦
            let claim = claim_episode_for_build O T config token definition.episode_id force w in
            let refused = claim-IsRefused O T config token definition.episode_id force w lost in
            elim (Result-cases claim.0) [
              | inl (e, raises) ↦
                  let next = λ (episode : Episode).
                    or_raise {S = World O} format_error
                      (timeline_name_for_episode O T config episode.episode_id)
                    >> assemble O T config token definition episode in
                  rw (valid, after_ok-err next claim e raises) (refl, refused.1)
              | inr (episode, returns) ↦ absurd (ground arith)
            ]
        | inr wrong ↦ rw wrong (refl, refl)
      ]

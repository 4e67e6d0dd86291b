-- ===== src/Episode/Manager.antt =====
-- episode/manager.py, with what it delegates to timeline/builder.py and media/manager.py. A `uuid4`
-- token is an argument. Of an EpisodeBuildError its stage is kept.
pub mod Settles
pub mod Ends
pub mod Builds
pub mod Refused
use redline_os.Prelude.{
  ℕ, String, Bool, true, false, not, Option, none, some, List, [], ◌∷◌, length, any, is_none,
  if◌then◌else◌,
}
use redline_os.Prelude.Text.{is_blank, decimal}
use redline_os.Errors.{
  Error, Stage, validation, episode_lookup, media_import, media_result_validation, timeline_build,
  clip_placement, result_validation, payload_observation, status_update, episode_build_error,
  episode_already_exists, episode_not_found, attribute_error, value_error, format_error,
}
use redline_os.Exec.{Result, ok, err, Exec, pure, raise, require, or_raise, attempt, ◌>>=◌, ◌>>◌}
use redline_os.Store.Rows.{EpisodeStatus, assembled, failed, Episode}
use redline_os.Store.Episodes.{
  get_episode_by_number, get_episode_by_episode_id, update_episode_paths,
  claim_episode_for_assembly, release_assembly_claim,
}
use redline_os.Store.Episodes as Rows
use redline_os.Episode.World.{MarkerDefinition, Outside, Texts, Config, World, on_db, outside_of}
use redline_os.Episode.Definition.{
  EpisodeBuildDefinition, EpisodeBuildResult, is_empty, is_valid_definition, are_ordered_ids,
}

abbrev pub is_build_error : Error → Bool
is_build_error (episode_build_error stage) = true
is_build_error _ = false

-- `TimelineBuildResult`
pub record TimelineBuildResult : Type 0 where
  pub timeline_id : String
  pub timeline_name : String
  pub markers_applied : ℕ

module _ (O : Outside) (T : Texts) (config : Config) where
  abbrev pub Method : Type 0 → Type 0
  Method A = Exec (World O) A

  -- Each folder in turn, below the root.
  unfoldable pub make_subfolders : String → List String → Method (Unit {0})
  unfolding outside_of
  make_subfolders root [] = pure tt
  make_subfolders root (subfolder ∷ subfolders) =
      outside_of (O.mkdir (T.join root subfolder)) >> make_subfolders root subfolders

  -- `_create_episode_folder`
  unfoldable pub create_episode_folder : String → Method String
  unfolding make_subfolders outside_of
  create_episode_folder episode_id = do
    outside_of (O.mkdir (T.join config.root_path episode_id))
    make_subfolders (T.join config.root_path episode_id) config.subfolders
    pure (T.join config.root_path episode_id)

  -- `EpisodeManager.create_episode`
  unfoldable pub create_episode : ℕ → Method (Option Episode)
  unfolding create_episode_folder on_db outside_of get_episode_by_number update_episode_paths
      Rows.create_episode decimal
  create_episode episode_number = do
    existing ← on_db (get_episode_by_number episode_number)
    require (is_none existing) episode_already_exists
    episode_id ←
        or_raise format_error
          (T.format config.episode_id_pattern (("episode_number", decimal episode_number) ∷ []))
    project_name ← or_raise format_error (
        T.format config.project_name_pattern
          (("episode_id", episode_id) ∷ ("episode_number", decimal episode_number) ∷ []))
    on_db (Rows.create_episode episode_number episode_id project_name)
    folder_path ← create_episode_folder episode_id
    on_db (update_episode_paths episode_id none (some folder_path))
    project_path ← outside_of (O.duplicate_project project_name config.master_project_template)
    on_db (update_episode_paths episode_id (some project_path) none)
    on_db (get_episode_by_number episode_number)

  -- `_build_error`, which raises or is raised by its caller: a stage that comes after the claim and
  -- before the status update releases the claim as failed, whose own error is passed over.
  unfoldable pub build_error : {A : Type 0} → Stage → String → String → Method A
  unfolding on_db release_assembly_claim
  build_error stage episode_id claim_token = do
    attempt (on_db (release_assembly_claim episode_id claim_token failed)) (λ e. pure tt)
    raise (episode_build_error stage)

  -- `timeline_name_for_episode`
  abbrev pub timeline_name_for_episode : String → Option String
  timeline_name_for_episode episode_id =
      T.format config.timeline_name_pattern (("episode_id", episode_id) ∷ [])

  -- `TimelineBuilder.apply_markers`
  unfoldable pub apply_markers : String → String → List MarkerDefinition → Method ℕ
  unfolding outside_of
  apply_markers project_name timeline_name [] = pure 0
  apply_markers project_name timeline_name (marker ∷ markers) = do
    outside_of (O.add_markers project_name timeline_name (marker ∷ markers))
    pure (length (marker ∷ markers))

  -- `build_timeline_for_episode`
  unfoldable pub build_timeline_for_episode :
      String → String → List MarkerDefinition → Method TimelineBuildResult
  unfolding apply_markers outside_of
  build_timeline_for_episode project_name episode_id markers = do
    timeline_name ← or_raise format_error (timeline_name_for_episode episode_id)
    timeline_id ← outside_of (O.build_timeline project_name timeline_name)
    markers_applied ← apply_markers project_name timeline_name markers
    pure (record {
      timeline_id = timeline_id;
      timeline_name = timeline_name;
      markers_applied = markers_applied;
    })

  -- `MediaManager.import_media`
  unfoldable pub import_media : String → List String → String → Method (List String)
  unfolding outside_of any is_blank
  import_media project_name media_paths bin_name = do
    require (not (is_blank bin_name)) value_error
    require (not (any is_blank media_paths)) value_error
    outside_of (O.import_media project_name media_paths bin_name)

  -- The token is that of the caller's claim.
  module _ (claim_token : String) where
    -- `_claim_episode_for_build`: each way to refuse the claim is an error of the same stage.
    unfoldable pub claim_episode_for_build : String → Bool → Method Episode
    unfolding on_db claim_episode_for_assembly get_episode_by_episode_id
    claim_episode_for_build episode_id allow_unsafe_retry = do
      claimed ← on_db (claim_episode_for_assembly episode_id claim_token allow_unsafe_retry)
      episode ← on_db (get_episode_by_episode_id episode_id)
      require claimed (episode_build_error episode_lookup)
      or_raise attribute_error episode

    -- `_validate_media_ids`, `_validate_timeline_item_ids`
    unfoldable pub validate_ids : Stage → String → List String → ℕ → Method (Unit {0})
    unfolding build_error are_ordered_ids
    validate_ids stage episode_id ids expected_count =
        if are_ordered_ids ids expected_count
        then pure tt
        else build_error stage episode_id claim_token

    -- What `except EpisodeBuildError: raise` and `except Exception` make of an error of the import.
    abbrev pub import_error : String → Error → Method (List String)
    import_error episode_id e =
        if is_build_error e then raise e else build_error media_import episode_id claim_token

    -- The last stage: a failed release keeps the claim.
    unfoldable pub update_status : String → Method (Unit {0})
    unfolding on_db release_assembly_claim
    update_status episode_id =
        attempt (on_db (release_assembly_claim episode_id claim_token assembled))
          (λ e. raise (episode_build_error status_update))

    -- `build_episode` from its first call that touches Resolve, the last stage first.
    module _ (definition : EpisodeBuildDefinition) (episode : Episode) where
      abbrev pub result : List String → TimelineBuildResult → List String → ℕ → EpisodeBuildResult
      result media_ids timeline timeline_item_ids video_item_count = record {
        episode_id = episode.episode_id;
        project_name = episode.project_name;
        timeline_id = timeline.timeline_id;
        timeline_name = timeline.timeline_name;
        media_paths = definition.media_paths;
        media_ids = media_ids;
        markers_applied = timeline.markers_applied;
        timeline_item_ids = timeline_item_ids;
        video_item_count = video_item_count;
      }

      abbrev pub observe : TimelineBuildResult → Method ℕ
      observe timeline =
          attempt
            (outside_of
              (O.get_video_timeline_item_count episode.project_name timeline.timeline_name))
            (λ e. build_error payload_observation episode.episode_id claim_token)

      abbrev pub after_observation :
          List String → TimelineBuildResult → List String → ℕ → Method EpisodeBuildResult
      after_observation media_ids timeline timeline_item_ids video_item_count =
          update_status episode.episode_id
          >> pure (result media_ids timeline timeline_item_ids video_item_count)

      abbrev pub place : List String → TimelineBuildResult → Method (List String)
      place media_ids timeline =
          attempt (outside_of (O.place_clips episode.project_name timeline.timeline_name media_ids))
            (λ e. build_error clip_placement episode.episode_id claim_token)

      abbrev pub after_placement :
          List String → TimelineBuildResult → List String → Method EpisodeBuildResult
      after_placement media_ids timeline timeline_item_ids =
          validate_ids result_validation episode.episode_id timeline_item_ids (length media_ids)
          >> (observe timeline >>= after_observation media_ids timeline timeline_item_ids)

      abbrev pub build : Method TimelineBuildResult
      build =
          attempt
            (build_timeline_for_episode episode.project_name episode.episode_id definition.markers)
            (λ e. build_error timeline_build episode.episode_id claim_token)

      abbrev pub after_timeline : List String → TimelineBuildResult → Method EpisodeBuildResult
      after_timeline media_ids timeline =
          place media_ids timeline >>= after_placement media_ids timeline

      abbrev pub imported : Method (List String)
      imported =
          attempt (import_media episode.project_name definition.media_paths definition.bin_name)
            (import_error episode.episode_id)

      abbrev pub after_import : List String → Method EpisodeBuildResult
      after_import media_ids =
          validate_ids media_result_validation episode.episode_id media_ids
            (length definition.media_paths)
          >> (build >>= after_timeline media_ids)

      unfoldable pub assemble : Method EpisodeBuildResult
      unfolding import_media build_timeline_for_episode validate_ids build_error update_status
          outside_of
      assemble = imported >>= after_import

    -- `EpisodeManager.build_episode`. The name of the timeline is formatted after the claim, and
    -- outside of every handler.
    unfoldable pub build_episode : EpisodeBuildDefinition → Bool → Method EpisodeBuildResult
    unfolding claim_episode_for_build assemble is_valid_definition
    build_episode definition allow_unsafe_retry = do
      require (is_valid_definition T.normalized definition) (episode_build_error validation)
      episode ← claim_episode_for_build definition.episode_id allow_unsafe_retry
      or_raise format_error (timeline_name_for_episode episode.episode_id)
      assemble definition episode

  -- `get_episode_status`
  unfoldable pub get_episode_status : ℕ → Method Episode
  unfolding on_db get_episode_by_number
  get_episode_status episode_number = do
    episode ← on_db (get_episode_by_number episode_number)
    or_raise episode_not_found episode

-- ===== src/Episode/Manager/Ends.antt =====
-- How a build ends that holds the claim of its episode.
use redline_os.Prelude.{ℕ, String, false, ◌≡◌, ap, ◌∙◌, List, length, arith}
use redline_os.Errors.{
  Error, media_import, timeline_build, clip_placement, media_result_validation, result_validation,
  payload_observation, status_update, episode_build_error,
}
use redline_os.Exec.{ok, err, pure, raise, ◌>>=◌, after_error, after_ok}
use redline_os.Store.Rows.{assembled, Episode}
use redline_os.Store.Sql.{Db}
use redline_os.Store.Episodes.{release_assembly_claim}
use redline_os.Episode.World.{Outside, Texts, Config, World, on_db, outside_of}
use redline_os.Episode.Definition.{EpisodeBuildDefinition}
use redline_os.Episode.Manager.{
  TimelineBuildResult, is_build_error, import_media, validate_ids, import_error, update_status,
  after_import, after_timeline, after_placement, after_observation, imported, build, place, observe,
  result, assemble,
}
use redline_os.Episode.Manager.Settles.{
  Outer-outside_of, Outer-import, Outer-timeline, done, Settles, Settles-bind, Settles-attempt,
  Settles-stage, Settles-validate, Settles-build_error,
}

-- `import_media` of Resolve raises errors of its own, none of the episode manager.
abbrev pub ImportsPlainly : Outside → Type 0
ImportsPlainly O =
    (project_name : String) (paths : List String) (bin_name : String) (s : O.State) (e : Error)
    → (O.import_media project_name paths bin_name s).0 ≡ err e
    → is_build_error e ≡ false

module _ (O : Outside) (T : Texts) (config : Config) (token : String)
    (definition : EpisodeBuildDefinition) (episode : Episode) (db : Db)
    (plain : ImportsPlainly O) where
  abbrev id : String
  id = episode.episode_id

  abbrev assembled_db : Db
  assembled_db = (release_assembly_claim id token assembled db).1

  import-plain :
      (w : World O) (e : Error)
      → (import_media O T config episode.project_name definition.media_paths definition.bin_name
          w).0
        ≡ err e
      → is_build_error e ≡ false
  unfolding import_media outside_of
  import-plain w e raises =
      ground
        (arith, plain episode.project_name definition.media_paths definition.bin_name w.outside e)

  Settles-import_error :
      (e : Error)
      → is_build_error e ≡ false
      → Settles O T config id token db db (import_error O T config token id e)
  Settles-import_error e other =
      rw other (Settles-build_error O T config id token db db media_import)

  Settles-imported :
      Settles O T config id token db db (imported O T config token definition episode)
  Settles-imported =
      Settles-attempt O T config id token db
        (import_media O T config episode.project_name definition.media_paths definition.bin_name)
        (import_error O T config token id)
        (Outer-import O T config id token db episode.project_name definition.media_paths
          definition.bin_name)
        λ w e raises. Settles-import_error e (import-plain w e raises)

  module _ (releases : (release_assembly_claim id token assembled db).0 ≡ ok tt) where
    Settles-observed :
        (media_ids : List String) (timeline : TimelineBuildResult) (items : List String) (n : ℕ)
        → Settles O T config id token db assembled_db
            (after_observation O T config token definition episode media_ids timeline items n)
    unfolding update_status on_db
    Settles-observed media_ids timeline items n = record {
      at = λ w same.
          let release = release_assembly_claim id token assembled in
          let value = result O T config token definition episode media_ids timeline items n in
          let there : on_db {O = O} release w ≡ ((release db).0, record w { db = assembled_db }) =
            ap (λ d. ((release d).0, record w { db = (release d).1 })) same in
          let released : on_db {O = O} release w ≡ (ok tt, record w { db = assembled_db }) =
            there ∙ λ i. (releases i, record w { db = assembled_db }) in
          let ends =
            ap
              (λ p.
                after_ok (after_error p (λ e. raise (episode_build_error status_update)))
                  (λ u. pure value))
              released in
          done value (ap (λ p. p.0) ends) (ap (λ p. p.1.db) ends);
    }

    Settles-placed :
        (media_ids : List String) (timeline : TimelineBuildResult) (items : List String)
        → Settles O T config id token db assembled_db
            (after_placement O T config token definition episode media_ids timeline items)
    Settles-placed media_ids timeline items =
        let seen = observe O T config token definition episode timeline in
        let rest = after_observation O T config token definition episode media_ids timeline items in
        Settles-bind O T config id token db assembled_db
          (validate_ids O T config token result_validation id items (length media_ids))
          (λ _. seen >>= rest)
          (Settles-validate O T config id token db result_validation items (length media_ids))
          λ _.
            Settles-bind O T config id token db assembled_db seen rest
              (Settles-stage O T config id token db payload_observation _ (
                Outer-outside_of
                  (O.get_video_timeline_item_count episode.project_name timeline.timeline_name)))
              (Settles-observed media_ids timeline items)

    Settles-built :
        (media_ids : List String) (timeline : TimelineBuildResult)
        → Settles O T config id token db assembled_db
            (after_timeline O T config token definition episode media_ids timeline)
    Settles-built media_ids timeline =
        Settles-bind O T config id token db assembled_db
          (place O T config token definition episode media_ids timeline)
          (after_placement O T config token definition episode media_ids timeline)
          (Settles-stage O T config id token db clip_placement _ (
            Outer-outside_of (O.place_clips episode.project_name timeline.timeline_name media_ids)))
          (Settles-placed media_ids timeline)

    Settles-after_import :
        (media_ids : List String)
        → Settles O T config id token db assembled_db
            (after_import O T config token definition episode media_ids)
    Settles-after_import media_ids =
        let made = build O T config token definition episode in
        let rest = after_timeline O T config token definition episode media_ids in
        Settles-bind O T config id token db assembled_db
          (validate_ids O T config token media_result_validation id media_ids
            (length definition.media_paths))
          (λ _. made >>= rest)
          (Settles-validate O T config id token db media_result_validation media_ids
            (length definition.media_paths))
          λ _.
            Settles-bind O T config id token db assembled_db made rest
              (Settles-stage O T config id token db timeline_build _
                (Outer-timeline O T config id token db episode.project_name definition.markers))
              (Settles-built media_ids)

    pub Settles-assemble :
        Settles O T config id token db assembled_db (assemble O T config token definition episode)
    unfolding assemble
    Settles-assemble =
        Settles-bind O T config id token db assembled_db
          (imported O T config token definition episode)
          (after_import O T config token definition episode) Settles-imported Settles-after_import

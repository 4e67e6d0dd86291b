-- ===== src/Tests/Episodes.antt =====
-- The theorems on the episode manager, at concrete inputs.
use redline_os.Prelude.{
  ℕ, true, ◌≡◌, refl, none, some, [], ◌∷◌, find, count, string_eq, option_eq, any, nat_eq, arith,
}
use redline_os.Prelude.Text.{is_blank, is_space}
use redline_os.Errors.{timeline_operation_error}
use redline_os.Exec.{pure, raise}
use redline_os.Store.Rows.{timeline_built, assembled, episode_status_eq}
use redline_os.Store.Sql.{query}
use redline_os.Store.Episodes.{
  has_episode_id, claim_episode_for_assembly, claim_episode_for_assembly_cas,
  get_episode_by_episode_id,
}
use redline_os.Episode.World.{Outside, Texts, Config, World}
use redline_os.Episode.Definition.{EpisodeBuildDefinition, is_valid_definition, valid_paths}
use redline_os.Episode.Manager.{build_episode}
use redline_os.Episode.Manager.Builds.{closed, final, is_plain, built, build_ends}
use redline_os.Episode.Manager.Ends.{ImportsPlainly}
use redline_os.Episode.Manager.Refused.{IsRefused, build-IsRefused}
use redline_os.Tests.Data.{episode_in, tables_of, db_of}

-- A Resolve that imports one clip and refuses to place it.
abbrev outside : Outside
outside = record {
  State = ℕ;
  duplicate_project = λ project_name template. pure "/p";
  import_media = λ project_name paths bin_name. pure ("m-1" ∷ []);
  build_timeline = λ project_name timeline_name. pure "t-1";
  add_markers = λ project_name timeline_name markers. pure tt;
  place_clips = λ project_name timeline_name ids. raise timeline_operation_error;
  get_video_timeline_item_count = λ project_name timeline_name. pure 1;
  mkdir = λ path. pure tt;
}

abbrev texts : Texts
texts = record {
  format = λ pattern values. some "RLC-E7_MAIN";
  join = λ folder name. name;
  normalized = λ path. path;
}

abbrev config : Config
config = record {
  episode_id_pattern = "RLC-E{episode_number}";
  project_name_pattern = "{episode_id}";
  timeline_name_pattern = "{episode_id}_MAIN";
  master_project_template = "master";
  root_path = "/e";
  subfolders = "audio" ∷ [];
}

abbrev definition : EpisodeBuildDefinition
definition = record {
  episode_id = "RLC-E7";
  media_paths = "/in/RLC-E7.mov" ∷ [];
  markers = record { frame = 0; color = "Blue"; name = "start"; note = "" } ∷ [];
  bin_name = "footage";
}

plain : ImportsPlainly outside
plain project_name paths bin_name s e raises = absurd (ground arith)

build_ends_example :
    let t = tables_of (episode_in timeline_built none ∷ []) [] in
    let (r, w) =
      built outside texts config "a" "t1" definition t 0 (episode_in timeline_built none) in
    (is_plain r ≡ true)
    × (find (has_episode_id "RLC-E7") w.db.tables.episodes
        ≡ some (closed (final r) "t1" (episode_in timeline_built none)))
unfolding count find string_eq option_eq is_valid_definition valid_paths is_blank is_space any
    nat_eq
build_ends_example =
    build_ends outside texts config "a" "t1" definition
      (tables_of (episode_in timeline_built none ∷ []) []) 0 (episode_in timeline_built none)
      (omega arith) refl refl plain refl "RLC-E7_MAIN" refl

-- The episode is assembled already.
build-IsRefused_example :
    let w : World outside = record {
      db = db_of (tables_of (episode_in assembled none ∷ []) []);
      outside = 0;
    } in
    IsRefused w (build_episode outside texts config "a" definition true w)
unfolding claim_episode_for_assembly get_episode_by_episode_id claim_episode_for_assembly_cas find
    string_eq query
build-IsRefused_example =
    build-IsRefused outside texts config "a" definition true
      (record { db = db_of (tables_of (episode_in assembled none ∷ []) []); outside = 0 })
      (λ won. cc)

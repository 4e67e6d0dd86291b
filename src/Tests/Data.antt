-- ===== src/Tests/Data.antt =====
-- An episode, its jobs, a platform and a configuration for the tests.
use redline_os.Prelude.{
  String, ◌<>◌, Bool, true, false, Option, none, some, List, [], ◌∷◌, ◌≤◌, count, arith,
}
use redline_os.Store.Rows.{EpisodeStatus, Episode, RenderJobStatus, RenderJob, Tables}
use redline_os.Store.Sql.{Db}
use redline_os.Store.Archives.{ArchiveCommit}
use redline_os.Render.World.{Platform}
use redline_os.Render.Plan.{RenderPreset}
use redline_os.Render.Manager.{RenderConfig}
use redline_os.Adapter.Mock.{MockResolveAdapter}

abbrev pub episode_in : EpisodeStatus → Option String → Episode
episode_in status token = record {
  id = 1;
  episode_number = 7;
  episode_id = "RLC-E7";
  project_name = "RLC-E7";
  project_path = none;
  folder_path = some "/e/7";
  status = status;
  assembly_claim_token = token;
  assembly_claimed_at = token;
  created_at = "t0";
  updated_at = "t0";
}

abbrev pub output : String
output = "/e/7/master/RLC-E7.mov"

abbrev pub job_in : RenderJobStatus → Option String → RenderJob
job_in status resolve_job_id = record {
  id = 1;
  episode_id = "RLC-E7";
  preset_name = "master";
  resolve_job_id = resolve_job_id;
  project_name = some "RLC-E7";
  timeline_name = some "RLC-E7_MAIN";
  status = status;
  output_path = some output;
  created_at = "t0";
  updated_at = "t0";
}

abbrev pub tables_of : List Episode → List RenderJob → Tables
tables_of episodes jobs = record {
  episodes = episodes;
  render_jobs = jobs;
  archives = [];
  last_episode = 1;
  last_render_job = 1;
  last_archive = 0;
}

abbrev pub db_of : Tables → Db
db_of t = record { tables = t; now = "t1"; faults = [] }

abbrev pub upper_digest : String
upper_digest = "ABCDEF0123456789ABCDEF0123456789abcdef0123456789abcdef0123456789"

abbrev pub lower_digest : String
lower_digest = "abcdef0123456789abcdef0123456789abcdef0123456789abcdef0123456789"

abbrev pub commit : ArchiveCommit
commit = record {
  episode_id = "RLC-E7";
  render_job_id = 1;
  archive_id = "a-1";
  archive_path = "/a/1";
  manifest_path = "/a/1/manifest.json";
  manifest_sha256 = upper_digest;
  verified_at = "t1";
}

-- Paths without links, where only the folders of the episode's output are told apart.
abbrev pub platform : Platform
platform = record {
  resolve = λ path. path;
  exists = λ path. false;
  is_dir = λ path. true;
  is_relative_to = λ path root. true;
  is_absolute = λ path. false;
  join = λ folder name. folder <> "/" <> name;
  name = λ path. path;
  stem = λ path. "RLC-E7";
  parent = λ path. "/e/7/master";
  parts = λ path. path ∷ [];
  format = λ template values. some template;
}

abbrev pub preset : RenderPreset
preset = record {
  name = "master";
  resolve_preset_name = "ProRes Master";
  output_subfolder = "master";
  filename_template = some "RLC-E7";
  file_extension = some ".mov";
  requires_video_payload = false;
}

abbrev pub config : RenderConfig
config = record { presets = λ name. some preset; timeline_name_pattern = "RLC-E7_MAIN" }

-- The mock with the episode's project, the timelines given and one job of the status given.
abbrev pub mock : List String → String → MockResolveAdapter
mock timelines status = record {
  connected = true;
  projects = ("RLC-E7", "/mock/projects/RLC-E7.drp") ∷ [];
  timelines = ("RLC-E7", timelines) ∷ [];
  render_jobs = ("mock-job-1", status) ∷ [];
  render_job_metadata =
      (
        "mock-job-1",
        ("JobId", "mock-job-1")
            ∷ ("ProjectName", "RLC-E7")
            ∷ ("TimelineName", "RLC-E7_MAIN")
            ∷ ("TargetDir", "/e/7/master")
            ∷ ("CustomName", "RLC-E7")
            ∷ [],
      )
      ∷ [];
  video_timeline_item_counts = [];
  next_job = 2;
}

pub one_row {ℓ} : {A : Type ℓ} (p : A → Bool) (x : A) → count p (x ∷ []) ≤ 1
unfolding count
one_row p x = ground arith

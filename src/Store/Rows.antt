-- ===== src/Store/Rows.antt =====
-- db/models.py and db/schema.sql: the enumerations, the rows of the three tables, and the tables.
-- A row that was read from its table always has an `id`, so that field is no option here.
use redline_os.Prelude.{ℕ, String, Option, List, Eq}

pub data EpisodeStatus : Type 0 where
  created assets_verified media_organized timeline_built assembled : EpisodeStatus
  render_queued rendered archived failed : EpisodeStatus

pub data RenderJobStatus : Type 0 where
  claiming queued rendering complete failed cancelled : RenderJobStatus

pub data ArchiveState : Type 0 where
  legacy complete : ArchiveState

EpisodeStatus-discrete : Discrete EpisodeStatus
EpisodeStatus-discrete = hlevel

RenderJobStatus-discrete : Discrete RenderJobStatus
RenderJobStatus-discrete = hlevel

instance unfoldable pub episode_status_eq : Eq EpisodeStatus
unfolding EpisodeStatus-discrete
episode_status_eq = record { dec = EpisodeStatus-discrete }

instance unfoldable pub render_job_status_eq : Eq RenderJobStatus
unfolding RenderJobStatus-discrete
render_job_status_eq = record { dec = RenderJobStatus-discrete }

pub record Episode : Type 0 where
  pub id : ℕ
  pub episode_number : ℕ
  pub episode_id : String
  pub project_name : String
  pub project_path : Option String
  pub folder_path : Option String
  pub status : EpisodeStatus
  pub assembly_claim_token : Option String
  pub assembly_claimed_at : Option String
  pub created_at : String
  pub updated_at : String

pub record RenderJob : Type 0 where
  pub id : ℕ
  pub episode_id : String
  pub preset_name : String
  pub resolve_job_id : Option String
  pub project_name : Option String
  pub timeline_name : Option String
  pub status : RenderJobStatus
  pub output_path : Option String
  pub created_at : String
  pub updated_at : String

pub record ArchiveRecord : Type 0 where
  pub id : ℕ
  pub episode_id : String
  pub archive_path : String
  pub archive_id : Option String
  pub archive_schema_version : ℕ
  pub archive_state : ArchiveState
  pub manifest_path : Option String
  pub manifest_sha256 : Option String
  pub render_job_id : Option ℕ
  pub verified_at : Option String
  pub archived_at : String

-- The three tables. The `last_…` fields are the AUTOINCREMENT counters of sqlite_sequence.
pub record Tables : Type 0 where
  pub episodes : List Episode
  pub render_jobs : List RenderJob
  pub archives : List ArchiveRecord
  pub last_episode : ℕ
  pub last_render_job : ℕ
  pub last_archive : ℕ

-- ===== src/Store/Consistency.antt =====
-- What the schema of db/schema.sql, its indexes and the methods of `Database` keep of the tables.
pub mod Statements
pub mod Rows
pub mod Methods
use redline_os.Prelude.{
  ℕ, suc, String, Bool, true, false, ◌≤◌, ◌<◌, ◌≡◌, List, Option, none, some, ◌==◌, string_eq,
  nat_eq, option_eq, count, any, All,
}
use redline_os.Store.Rows.{Tables, Episode, RenderJob, ArchiveRecord, ArchiveState}
use redline_os.Store.Episodes.{has_episode_id}
use redline_os.Store.RenderJobs.{occupies, has_job_id}
use redline_os.Store.Archives.{is_archive_of, is_sha256}

abbrev pub has_episode_row_id : ℕ → Episode → Bool
has_episode_row_id id e = e.id == id

abbrev pub has_number : ℕ → Episode → Bool
has_number number e = e.episode_number == number

abbrev pub is_job_of : String → RenderJob → Bool
is_job_of episode_id j = j.episode_id == episode_id

abbrev pub has_archive_id : String → ArchiveRecord → Bool
has_archive_id archive_id a = a.archive_id == some archive_id

-- The episodes table: AUTOINCREMENT ids, and the two UNIQUE columns.
pub record EpisodesConsistent (t : Tables) : Type 0 where
  pub fresh : (i : ℕ) → t.last_episode < i → count (has_episode_row_id i) t.episodes ≡ 0
  pub row_ids : (i : ℕ) → count (has_episode_row_id i) t.episodes ≤ 1
  pub numbers : (n : ℕ) → count (has_number n) t.episodes ≤ 1
  pub episode_ids : (k : String) → count (has_episode_id k) t.episodes ≤ 1

-- The render_jobs table: AUTOINCREMENT ids, one active job at most for an output path, and the
-- foreign key.
pub record JobsConsistent (t : Tables) : Type 0 where
  pub fresh : (i : ℕ) → t.last_render_job < i → count (has_job_id i) t.render_jobs ≡ 0
  pub job_ids : (i : ℕ) → count (has_job_id i) t.render_jobs ≤ 1
  pub outputs : (path : String) → count (occupies path) t.render_jobs ≤ 1
  pub owned :
      (k : String)
      → any (is_job_of k) t.render_jobs ≡ true
      → any (has_episode_id k) t.episodes ≡ true

-- The archives table: one archive at most for an episode, and for an archive id.
pub record ArchivesConsistent (t : Tables) : Type 0 where
  pub episodes : (k : String) → count (is_archive_of k) t.archives ≤ 1
  pub archive_ids : (k : String) → count (has_archive_id k) t.archives ≤ 1

pub record IsConsistent (t : Tables) : Type 0 where
  pub episodes : EpisodesConsistent t
  pub jobs : JobsConsistent t
  pub archives : ArchivesConsistent t

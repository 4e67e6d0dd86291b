-- ===== src/Store/History.antt =====
-- Any history of calls of the methods of `Database` that write: by one process or by several, one
-- after another or between each other's calls, at any times and with any faults of SQLite.
use redline_os.Prelude.{ℕ, String, Bool, ◌≡◌, refl, Option, [], arith, count, any}
use redline_os.Exec.{Exec}
use redline_os.Store.Rows.{Tables, EpisodeStatus, RenderJobStatus}
use redline_os.Store.Sql.{Db}
use redline_os.Store.Sql.Keeps.{Keeps}
use redline_os.Store.Episodes.{
  create_episode, update_episode_status, update_episode_paths, claim_episode_for_assembly,
  release_assembly_claim,
}
use redline_os.Store.RenderJobs.{
  create_render_job, create_accepted_render_job, claim_render_output, finalize_render_output_claim,
  release_render_output_claim, transition_render_job_to_rendering, update_render_job,
}
use redline_os.Store.Archives.{ArchiveCommit, create_archive_record, commit_verified_archive}
use redline_os.Store.Consistency.{IsConsistent}
use redline_os.Store.Consistency.Methods

pub data Call : Type 0 where
  create_episode_call : ℕ → String → String → Call
  update_episode_status_call : String → EpisodeStatus → Call
  update_episode_paths_call : String → Option String → Option String → Call
  claim_episode_call : String → String → Bool → Call
  release_claim_call : String → String → EpisodeStatus → Call
  create_render_job_call :
      String
      → String
      → Option String
      → Option String
      → Option String
      → Option String
      → RenderJobStatus
      → Call
  create_accepted_call : String → String → String → String → String → String → Call
  claim_output_call : String → String → String → String → String → Call
  finalize_output_call : ℕ → String → Call
  release_output_call : ℕ → Call
  start_rendering_call : ℕ → Call
  update_render_job_call : ℕ → Option String → Option RenderJobStatus → Option String → Call
  create_archive_call : String → String → Call
  commit_archive_call : ArchiveCommit → Call

abbrev after {ℓ} : {A : Type ℓ} → Exec Db A → Db → Tables
after m db = (m db).1.tables

-- The tables that a call leaves.
pub perform : Call → Db → Tables
perform (create_episode_call n k p) = after (create_episode n k p)
perform (update_episode_status_call k s) = after (update_episode_status k s)
perform (update_episode_paths_call k p f) = after (update_episode_paths k p f)
perform (claim_episode_call k t force) = after (claim_episode_for_assembly k t force)
perform (release_claim_call k t s) = after (release_assembly_claim k t s)
perform (create_render_job_call k p r pr tl o s) = after (create_render_job k p r pr tl o s)
perform (create_accepted_call k p r pr tl o) = after (create_accepted_render_job k p r pr tl o)
perform (claim_output_call k p pr tl o) = after (claim_render_output k p pr tl o)
perform (finalize_output_call i r) = after (finalize_render_output_claim i r)
perform (release_output_call i) = after (release_render_output_claim i)
perform (start_rendering_call i) = after (transition_render_job_to_rendering i)
perform (update_render_job_call i r s o) = after (update_render_job i r s o)
perform (create_archive_call k p) = after (create_archive_record k p)
perform (commit_archive_call c) = after (commit_verified_archive c)

-- The tables of a new database.
abbrev pub no_rows : Tables
no_rows = record {
  episodes = [];
  render_jobs = [];
  archives = [];
  last_episode = 0;
  last_render_job = 0;
  last_archive = 0;
}

-- The tables that some history of calls leads to.
pub data Reachable : Tables → Type 0 where
  start : Reachable no_rows
  call : (c : Call) (db : Db) {t : Tables} → Reachable db.tables → t ≡ perform c db → Reachable t

perform-IsConsistent : (c : Call) (db : Db) → IsConsistent db.tables → IsConsistent (perform c db)
unfolding perform
perform-IsConsistent (create_episode_call n k p) = Keeps.at (Methods.create_episode-Keeps n k p)
perform-IsConsistent (update_episode_status_call k s) =
    Keeps.at (Methods.update_episode_status-Keeps k s)
perform-IsConsistent (update_episode_paths_call k p f) =
    Keeps.at (Methods.update_episode_paths-Keeps k p f)
perform-IsConsistent (claim_episode_call k t force) =
    Keeps.at (Methods.claim_episode_for_assembly-Keeps k t force)
perform-IsConsistent (release_claim_call k t s) =
    Keeps.at (Methods.release_assembly_claim-Keeps k t s)
perform-IsConsistent (create_render_job_call k p r pr tl o s) =
    Keeps.at (Methods.create_render_job-Keeps k p r pr tl o s)
perform-IsConsistent (create_accepted_call k p r pr tl o) =
    Keeps.at (Methods.create_accepted_render_job-Keeps k p r pr tl o)
perform-IsConsistent (claim_output_call k p pr tl o) =
    Keeps.at (Methods.claim_render_output-Keeps k p pr tl o)
perform-IsConsistent (finalize_output_call i r) =
    Keeps.at (Methods.finalize_render_output_claim-Keeps i r)
perform-IsConsistent (release_output_call i) =
    Keeps.at (Methods.release_render_output_claim-Keeps i)
perform-IsConsistent (start_rendering_call i) =
    Keeps.at (Methods.transition_render_job_to_rendering-Keeps i)
perform-IsConsistent (update_render_job_call i r s o) =
    Keeps.at (Methods.update_render_job-Keeps i r s o)
perform-IsConsistent (create_archive_call k p) = Keeps.at (Methods.create_archive_record-Keeps k p)
perform-IsConsistent (commit_archive_call c) = Keeps.at (Methods.commit_verified_archive-Keeps c)

no_rows-IsConsistent : IsConsistent no_rows
unfolding count any
no_rows-IsConsistent = record {
  episodes = record {
    fresh = λ i lt. refl;
    row_ids = λ i. omega arith;
    numbers = λ n. omega arith;
    episode_ids = λ k. omega arith;
  };
  jobs = record {
    fresh = λ i lt. refl;
    job_ids = λ i. omega arith;
    outputs = λ path. omega arith;
    owned = λ k owns. owns;
  };
  archives = record { episodes = λ k. omega arith; archive_ids = λ k. omega arith };
}

-- The tables that any history of calls of the methods of `Database` leads to are consistent: no
-- two rows of a table share an id (shown for episodes and render jobs), an episode number, an
-- episode id or an archive id; an episode has one archive at most; no two render jobs that are
-- claiming, queued or rendering share an output path; a render job's episode is there; and no row
-- has an id above its table's counter.
pub Reachable-IsConsistent : {t : Tables} → Reachable t → IsConsistent t
Reachable-IsConsistent start = no_rows-IsConsistent
Reachable-IsConsistent (call c db r e) = rw e (perform-IsConsistent c db (Reachable-IsConsistent r))

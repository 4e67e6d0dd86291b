-- ===== src/Render/Manager/Claiming.antt =====
-- What the claim of an output and its release do to the tables, fault by fault.
use redline_os.Prelude.{
  ◌∙◌, ℕ, suc, ◌<◌, String, ◌≡◌, ◌≢◌, Option, none, some, List, [], ◌∷◌, ◌++◌, not, string_eq,
  nat_eq, option_eq, count, select, arith, ==_refl,
}
use redline_os.Prelude.Counting.{find-append}
use redline_os.Errors.{Error, operational_error}
use redline_os.Exec.{Result, ok, err}
use redline_os.Store.Rows.{RenderJob, claiming, render_job_status_eq}
use redline_os.Store.Sql.{Db, query, execute, with_now}
use redline_os.Store.RenderJobs.{
  has_job_id, new_job, is_claim, claim_render_output, release_render_output_claim,
}

module _ (episode_id preset project timeline path : String) (db : Db)
    (fresh : (i : ℕ)
      → db.tables.last_render_job < i
      → count (has_job_id i) db.tables.render_jobs ≡ 0) where
  abbrev pub claimed_job : RenderJob
  claimed_job =
      new_job (suc db.tables.last_render_job) episode_id preset none (some project) (some timeline)
        claiming (some path) db.now

  abbrev claim : Result (Option RenderJob) × Db
  claim = claim_render_output episode_id preset project timeline path db

  pub claim_raises :
      (e : Error) → claim.0 ≡ err e → e ≢ operational_error → claim.1.tables ≡ db.tables
  unfolding claim_render_output with_now execute query
  claim_raises e h other = ground arith

  pub claim_refused : claim.0 ≡ ok none → claim.1.tables ≡ db.tables
  unfolding claim_render_output with_now execute query
  claim_refused h =
      let back =
        find-append (has_job_id (suc db.tables.last_render_job)) db.tables.render_jobs claimed_job
          (fresh (suc db.tables.last_render_job) (omega arith))
          (==_refl (suc db.tables.last_render_job)) in
      ground (arith, back)

  -- A claim that is returned is the new row, behind the others.
  pub record IsClaimed (job : RenderJob) (db' : Db) : Type 0 where
    pub row : job ≡ claimed_job
    pub render_jobs : db'.tables.render_jobs ≡ db.tables.render_jobs ++ claimed_job ∷ []
    pub episodes : db'.tables.episodes ≡ db.tables.episodes
    pub archives : db'.tables.archives ≡ db.tables.archives

  pub claim_granted : (job : RenderJob) → claim.0 ≡ ok (some job) → IsClaimed job claim.1
  unfolding claim_render_output with_now execute query
  claim_granted job h =
      let back =
        find-append (has_job_id (suc db.tables.last_render_job)) db.tables.render_jobs claimed_job
          (fresh (suc db.tables.last_render_job) (omega arith))
          (==_refl (suc db.tables.last_render_job)) in
      record {
        row = ground (arith, back);
        render_jobs = ground (arith, back);
        episodes = ground (arith, back);
        archives = ground (arith, back);
      }

-- Deleting the claim with a fresh id gives the rows before it.
select-claim :
    (jobs : List RenderJob) (job : RenderJob)
    → count (has_job_id job.id) jobs ≡ 0
    → job.status ≡ claiming
    → select (λ j. not (is_claim job.id j)) (jobs ++ job ∷ []) ≡ jobs
unfolding select count
select-claim [] job h s = ground arith
select-claim (j ∷ jobs) job h s = ground (arith, select-claim jobs job)

pub release_ok :
    (claim_id : ℕ) (db : Db)
    → (release_render_output_claim claim_id db).0 ≡ ok tt
    → ((release_render_output_claim claim_id db).1.tables.render_jobs
        ≡ select (λ j. not (is_claim claim_id j)) db.tables.render_jobs)
      × ((release_render_output_claim claim_id db).1.tables.episodes ≡ db.tables.episodes)
unfolding release_render_output_claim execute
release_ok claim_id db h = (ground arith, ground arith)

pub release_restores :
    (jobs : List RenderJob) (job : RenderJob) (db : Db)
    → count (has_job_id job.id) jobs ≡ 0
    → job.status ≡ claiming
    → db.tables.render_jobs ≡ jobs ++ job ∷ []
    → (release_render_output_claim job.id db).0 ≡ ok tt
    → (release_render_output_claim job.id db).1.tables.render_jobs ≡ jobs
release_restores jobs job db fresh waits rows done =
    (release_ok job.id db done).0 ∙ rw rows (select-claim jobs job fresh waits)

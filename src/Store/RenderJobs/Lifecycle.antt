-- ===== src/Store/RenderJobs/Lifecycle.antt =====
-- The life of a render job's row: an output is claimed, the claim is finalized or released, and a
-- queued job starts to render.
use redline_os.Prelude.{
  ℕ, suc, ◌≤◌, ◌<◌, String, Bool, true, ◌≡◌, refl, Option, none, some, [], ◌∷◌, ◌++◌, ◌==◌, ◌&&◌,
  not, string_eq, nat_eq, option_eq, find, count, any, update, if◌then◌else◌, arith, ==_refl,
}
use redline_os.Prelude.Counting.{
  find-append, find-update, count_of_unique, update_one, changed_if, holds_of, count-update,
}
use redline_os.Errors.{integrity_error}
use redline_os.Exec.{ok, err}
use redline_os.Store.Rows.{claiming, queued, rendering, RenderJob, render_job_status_eq}
use redline_os.Store.Sql.{Db, query, execute, with_now, transaction}
use redline_os.Store.Episodes.{has_episode_id}
use redline_os.Store.RenderJobs.{
  occupies, has_job_id, new_job, has_unique_outputs, claim_render_output,
  transition_render_job_to_rendering,
}
use redline_os.Store.RenderJobs.Outputs.{has_unique_outputs_of_count}

module _ (episode_id preset project timeline path : String) (db : Db) where
  abbrev pub claimed_job : RenderJob
  claimed_job =
      new_job (suc db.tables.last_render_job) episode_id preset none (some project) (some timeline)
        claiming (some path) db.now

  -- Without faults of SQLite, on tables whose job ids stay below their counter, an output path is
  -- claimed exactly if no job that is claiming, queued or rendering has it: then the new row, in
  -- status claiming, is returned and stands behind the others. Where it is taken the call returns
  -- None and the rows stay as they are; where only the episode is missing it raises IntegrityError.
  pub claim_output_exact :
      ((i : ℕ) → db.tables.last_render_job < i → count (has_job_id i) db.tables.render_jobs ≡ 0)
      → db.faults ≡ []
      → let (r, db') = claim_render_output episode_id preset project timeline path db in
        let taken = any (occupies path) db.tables.render_jobs in
        let known = any (has_episode_id episode_id) db.tables.episodes in
        (r ≡ (
          if taken then ok none else if known then ok (some claimed_job) else err integrity_error))
        × (db'.tables.render_jobs ≡ (
            if not taken && known
            then db.tables.render_jobs ++ claimed_job ∷ []
            else db.tables.render_jobs))
  unfolding claim_render_output with_now execute query
  claim_output_exact fresh quiet =
      let back =
        find-append (has_job_id (suc db.tables.last_render_job)) db.tables.render_jobs claimed_job
          (fresh (suc db.tables.last_render_job) (omega arith))
          (==_refl (suc db.tables.last_render_job)) in
      (ground (arith, back), ground (arith, back))

module _ (job_id : ℕ) (db : Db) where
  abbrev job_in : Db → Option RenderJob
  job_in d = find (has_job_id job_id) d.tables.render_jobs

  abbrev is_queued : RenderJob → Bool
  is_queued j = j.status == queued

  abbrev pub started : RenderJob → RenderJob
  started j = record j { status = rendering; updated_at = db.now }

  start_keeps_outputs :
      ((path : String) → count (occupies path) db.tables.render_jobs ≤ 1)
      → has_unique_outputs
          (update (λ j. has_job_id job_id j && is_queued j) started db.tables.render_jobs)
        ≡ true
  start_keeps_outputs outputs = has_unique_outputs_of_count _ (λ path.
      rw
        (count-update (λ j. has_job_id job_id j && is_queued j) (occupies path) started
          (λ j h. ground arith) db.tables.render_jobs)
        (outputs path))

  -- Without faults of SQLite, on tables with unique job ids and active output paths, the guarded
  -- transition returns True exactly if the job is there and queued, which makes it rendering; any
  -- other job keeps its row. The UNIQUE index never refuses it.
  pub transition_exact :
      count (has_job_id job_id) db.tables.render_jobs ≤ 1
      → ((path : String) → count (occupies path) db.tables.render_jobs ≤ 1)
      → db.faults ≡ []
      → let (r, db') = transition_render_job_to_rendering job_id db in
        (r ≡ ok (holds_of is_queued (job_in db)))
        × (job_in db' ≡ changed_if is_queued started (job_in db))
        × (db'.tables.render_jobs ≡ (
            if holds_of is_queued (job_in db)
            then update (has_job_id job_id) started db.tables.render_jobs
            else db.tables.render_jobs))
  unfolding transition_render_job_to_rendering transaction with_now execute
  transition_exact unique outputs quiet =
      let p = has_job_id job_id in
      let jobs = db.tables.render_jobs in
      let rows = count_of_unique p is_queued jobs unique in
      let found = find-update p is_queued started (λ j. refl) jobs in
      let kept = update_one p is_queued started jobs unique in
      let index = start_keeps_outputs outputs in
      (ground (arith, rows, index), ground (arith, found, index), ground (arith, kept, index))

-- ===== src/Render/Manager/Checks.antt =====
-- The two halves of `start_render`: the checks before Resolve is asked, and what is persisted after.
use redline_os.Prelude.{
  ℕ, ◌≤◌, String, Bool, true, false, not, ◌&&◌, ◌≡◌, refl, Option, none, some, count, find, is_none,
  arith, string_eq, nat_eq, option_eq, ◌==◌, if◌then◌else◌,
}
use redline_os.Prelude.Text.{is_trimmed}
use redline_os.Prelude.Counting.{find-update, count_of_unique, changed_if}
use redline_os.Errors.{
  Error, render_start_persistence_reconciliation_required, render_job_missing_resolve_id,
  render_job_not_startable, render_output_collision,
}
use redline_os.Exec.{Exec, ok, err}
use redline_os.Store.Rows.{RenderJob, rendering, queued, render_job_status_eq}
use redline_os.Store.Sql.{Db, query, execute, with_now, transaction}
use redline_os.Store.RenderJobs.{
  has_job_id, get_render_job_by_id, transition_render_job_to_rendering,
}
use redline_os.Render.World.{Resolve, Platform, World, on_db, on_resolve}
use redline_os.Render.Manager.{RenderConfig, start_on_resolve, persist_start}

-- The text is there, and has no blank ends.
abbrev is_usable : Option String → Bool
is_usable none = false
is_usable (some text) = is_trimmed text

-- A job that renders since `now`.
abbrev pub started_at : String → RenderJob → RenderJob
started_at now j = record j { status = rendering; updated_at = now }

module _ (R : Resolve) (P : Platform) (config : RenderConfig) where
  -- No file stands at the path.
  abbrev is_free : Option String → Bool
  is_free none = true
  is_free (some path) = not (P.exists path)

  -- What a job needs before Resolve may be asked to render it.
  abbrev pub is_startable : RenderJob → Bool
  is_startable job =
      (job.status == queued)
      && (is_usable job.resolve_job_id
          && (is_usable job.project_name
              && (is_usable job.timeline_name
                  && (is_usable job.output_path && is_free job.output_path))))

  -- The errors of a refused job.
  abbrev pub refusal : RenderJob → Error
  refusal job =
      if is_none job.resolve_job_id
      then render_job_missing_resolve_id
      else if (job.status == queued)
          && (is_usable job.resolve_job_id
              && (is_usable job.project_name
                  && (is_usable job.timeline_name && is_usable job.output_path)))
      then render_output_collision
      else render_job_not_startable

  pub refuses :
      (job : RenderJob) (w : World R)
      → is_startable job ≡ false
      → start_on_resolve R P config job w ≡ (err (refusal job), w)
  unfolding start_on_resolve
  refuses job w h = ground arith

  pub persist_raises :
      (id : ℕ) (w : World R) (e : Error)
      → (persist_start R P config id w).0 ≡ err e
      → e ≡ render_start_persistence_reconciliation_required
  unfolding persist_start on_db
  persist_raises id w e h = ground arith

  pub persist_keeps_resolve :
      (id : ℕ) (w : World R) → (persist_start R P config id w).1.resolve ≡ w.resolve
  unfolding persist_start on_db
  persist_keeps_resolve id w = ground arith

  abbrev text_of : Option String → String
  text_of none = ""
  text_of (some text) = text

  -- The adapter's call for a job.
  abbrev pub rendering_of : RenderJob → Exec R.State (Unit {0})
  rendering_of job =
      R.start_render (text_of job.project_name) (text_of job.timeline_name)
        (text_of job.resolve_job_id) (text_of job.output_path)

  pub hands_over :
      (job : RenderJob) (w : World R)
      → is_startable job ≡ true
      → start_on_resolve R P config job w ≡ on_resolve (rendering_of job) w
  unfolding start_on_resolve on_resolve
  hands_over job w h = ground arith

  module _ (id : ℕ) where
    abbrev pub job_in : Db → Option RenderJob
    job_in db = find (has_job_id id) db.tables.render_jobs

    abbrev is_queued : RenderJob → Bool
    is_queued j = j.status == queued

    pub persist_returns :
        (w : World R) (j : RenderJob)
        → count (has_job_id id) w.db.tables.render_jobs ≤ 1
        → (persist_start R P config id w).0 ≡ ok j
        → (some j ≡ changed_if is_queued (started_at w.db.now) (job_in w.db))
          × (job_in (persist_start R P config id w).1.db ≡ some j)
    unfolding persist_start on_db transition_render_job_to_rendering transaction with_now execute
        query get_render_job_by_id
    persist_returns w j unique h =
        let p = has_job_id id in
        let jobs = w.db.tables.render_jobs in
        let rows = count_of_unique p is_queued jobs unique in
        let found = find-update p is_queued (started_at w.db.now) (λ j. refl) jobs in
        (ground (arith, rows, found), ground (arith, rows, found))

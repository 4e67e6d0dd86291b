-- ===== src/Render/Manager/Sync.antt =====
-- `get_render_status` and `cancel_render`: what the row says after Resolve has been asked.
use redline_os.Prelude.{
  ℕ, ◌≤◌, String, Bool, true, false, not, ◌≡◌, refl, Option, none, some, List, [], ◌∷◌, count, find,
  update, arith, string_eq, nat_eq, option_eq, ◌==◌, if◌then◌else◌,
}
use redline_os.Prelude.Counting.{changed_if}
use redline_os.Errors.{output_path_unique_error}
use redline_os.Exec.{Result, ok, err}
use redline_os.Store.Rows.{
  Episode, rendered, RenderJob, RenderJobStatus, complete, cancelled, render_job_status_eq,
}
use redline_os.Store.Sql.{query, execute, with_now}
use redline_os.Store.Episodes.{has_episode_id, update_episode_status}
use redline_os.Store.RenderJobs.{
  has_job_id, occupies, has_unique_outputs, get_render_job_by_id, update_render_job,
}
use redline_os.Store.RenderJobs.Outputs.{has_unique_outputs_of_count}
use redline_os.Render.World.{Resolve, Platform, World, on_db, on_resolve}
use redline_os.Render.Status.{value, status_of}
use redline_os.Render.Status.Texts.{status_of-value, value_of_status_of}
use redline_os.Render.Manager.{RenderConfig, cancel_on_resolve, get_render_status, cancel_render}

-- An update of one row, found by its id: what is found afterwards.
found-update :
    (id : ℕ) (f : RenderJob → RenderJob) (jobs : List RenderJob)
    → ((j : RenderJob) → (f j).id ≡ j.id)
    → find (has_job_id id) (update (has_job_id id) f jobs)
      ≡ changed_if (λ j. true) f (find (has_job_id id) jobs)
unfolding find update
found-update id f [] h = refl
found-update id f (j ∷ jobs) h = ground (arith, h j, found-update id f jobs h)

-- An update that lets no row become active keeps the UNIQUE index.
count-update_le :
    (path : String) (p : RenderJob → Bool) (f : RenderJob → RenderJob) (jobs : List RenderJob)
    → ((j : RenderJob) → occupies path (f j) ≡ false)
    → count (occupies path) (update p f jobs) ≤ count (occupies path) jobs
unfolding count update
count-update_le path p f [] h = omega arith
count-update_le path p f (j ∷ jobs) h = ground (arith, h j, count-update_le path p f jobs h)

module _ (R : Resolve) (P : Platform) (config : RenderConfig) (w : World R) (job : RenderJob)
    (here : find (has_job_id job.id) w.db.tables.render_jobs ≡ some job) where
  abbrev with_status : RenderJobStatus → RenderJob → RenderJob
  with_status s j = record j { status = s; updated_at = w.db.now }

  abbrev rows_with : RenderJobStatus → List RenderJob
  rows_with s = update (has_job_id job.id) (with_status s) w.db.tables.render_jobs

  abbrev cancel : Result (Option RenderJob) × World R
  cancel = cancel_render R P config job.id w

  cancelled_index :
      ((path : String) → count (occupies path) w.db.tables.render_jobs ≤ 1)
      → has_unique_outputs (rows_with cancelled) ≡ true
  cancelled_index outputs = has_unique_outputs_of_count _ (λ path.
      let fewer =
        count-update_le path (has_job_id job.id) (with_status cancelled) w.db.tables.render_jobs
          (λ j. ground arith) in
      let one = outputs path in omega arith)

  -- What Resolve answers to a cancellation of the job's render, and its state then: it is asked once
  -- if the job has a Resolve id, and else not at all.
  abbrev answer : Option String → Result (Unit {0}) × R.State
  answer none = (ok tt, w.resolve)
  answer (some id) = R.cancel_render id w.resolve

  -- Without faults of SQLite, and on tables with unique active output paths, cancelling a job asks
  -- Resolve to cancel the render if the job has a Resolve id. Where that raises, the error is passed on
  -- and the tables stay as they are; otherwise the job's row, in whatever status it was, is returned
  -- as cancelled. Resolve is left in the state of its answer.
  pub cancel_exact :
      ((path : String) → count (occupies path) w.db.tables.render_jobs ≤ 1)
      → w.db.faults ≡ []
      → let (answered, state) = answer job.resolve_job_id in
        (cancel.0
          ≡ (elim answered [ ok done ↦ ok (some (with_status cancelled job)) | err e ↦ err e ]))
        × (cancel.1.resolve ≡ state)
        × (cancel.1.db.tables.render_jobs
            ≡ (elim answered [ ok done ↦ rows_with cancelled | err e ↦ w.db.tables.render_jobs ]))
  unfolding cancel_render on_db get_render_job_by_id update_render_job query execute with_now
      cancel_on_resolve on_resolve
  cancel_exact outputs quiet =
      let found = found-update job.id (with_status cancelled) w.db.tables.render_jobs (λ j. refl) in
      let index = cancelled_index outputs in
      (ground (arith, found, index), ground (arith, found, index), ground (arith, found, index))

  -- The status that a report of Resolve brings: one of `_KNOWN_STATUSES` that the job has not.
  abbrev pub news : String → Option RenderJobStatus
  news live = elim (status_of live) [
    | none ↦ none
    | some s ↦ if s == job.status then none else some s
  ]

  -- What the report makes of the call's result, of the jobs and of the episodes.
  abbrev pub synced :
      Option RenderJobStatus → Result (Option RenderJob) × List RenderJob × List Episode
  synced none = (ok (some job), w.db.tables.render_jobs, w.db.tables.episodes)
  synced (some s) =
      if not (has_unique_outputs (rows_with s))
      then (err output_path_unique_error, w.db.tables.render_jobs, w.db.tables.episodes)
      else (
        ok (some (with_status s job)),
        rows_with s,
        if s == complete
            then update (has_episode_id job.episode_id)
                (λ e. record e { status = rendered; updated_at = w.db.now }) w.db.tables.episodes
            else w.db.tables.episodes,
      )

  same_text :
      (live : String) (s : RenderJobStatus)
      → status_of live ≡ some s
      → (value job.status == live) ≡ (s == job.status)
  same_text live s known =
      let back = status_of-value job.status in
      let forth = value_of_status_of live s known in ground (arith, back, forth)

  abbrev status : Result (Option RenderJob) × World R
  status = get_render_status R P config job.id w

  -- Without faults of SQLite, for a job with a Resolve id whose report Resolve gives: a report that is
  -- no status of a render job, or the status that the job has, changes nothing and returns the job.
  -- Any other one becomes the row's status, and of the returned job; if it is complete, the episode
  -- becomes rendered. Only where the UNIQUE index on active outputs refuses the row, the call raises
  -- its IntegrityError and the tables stay.
  pub status_exact :
      (id live : String) (state : R.State)
      → job.resolve_job_id ≡ some id
      → w.db.faults ≡ []
      → R.get_render_status id w.resolve ≡ (ok live, state)
      → (status.0, status.1.db.tables.render_jobs, status.1.db.tables.episodes) ≡ synced (news live)
  unfolding get_render_status on_db get_render_job_by_id update_render_job update_episode_status
      query execute with_now on_resolve
  status_exact id live state asks quiet reports = reported (status_of live) refl
    where
      reported :
          (o : Option RenderJobStatus)
          → status_of live ≡ o
          → (status.0, status.1.db.tables.render_jobs, status.1.db.tables.episodes)
            ≡ synced (news live)
      reported none unknown = ground arith
      reported (some s) known =
          let found = found-update job.id (with_status s) w.db.tables.render_jobs (λ j. refl) in
          let text = same_text live s known in ground (arith, found, text)

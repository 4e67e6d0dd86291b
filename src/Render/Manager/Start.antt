-- ===== src/Render/Manager/Start.antt =====
-- `start_render`: which jobs it hands to Resolve, and what Resolve and the rows say afterwards.
use redline_os.Prelude.{
  ◌∙◌, ap, ℕ, ◌≤◌, true, false, ◌≡◌, ◌≢◌, refl, sym, eq_of_==, ◌⊎◌, inl, inr, Option, none, some,
  count, find, arith, string_eq, nat_eq, option_eq, Bool-cases,
}
use redline_os.Prelude.Counting.{find_passes}
use redline_os.Errors.{
  Error, operational_error, render_start_persistence_reconciliation_required, render_job_not_found,
}
use redline_os.Exec.{
  Result, ok, err, Result-cases, after_ok, after_ok-ok, after_ok-err, or_raise, ◌>>=◌, ◌>>◌,
}
use redline_os.Store.Rows.{RenderJob, render_job_status_eq}
use redline_os.Store.Sql.{query}
use redline_os.Store.RenderJobs.{has_job_id, get_render_job_by_id}
use redline_os.Render.World.{Resolve, Platform, World, on_db, on_resolve}
use redline_os.Render.Manager.{RenderConfig, start_on_resolve, persist_start, start_render}
use redline_os.Render.Manager.Reads.{start_on_resolve-Stays}
use redline_os.Render.Manager.Checks.{
  is_startable, refusal, refuses, persist_raises, persist_keeps_resolve, rendering_of, hands_over,
  started_at, persist_returns, job_in,
}

module _ (R : Resolve) (P : Platform) (config : RenderConfig) where
  module _ (id : ℕ) where
    module _ (w : World R) where
      abbrev start : Result RenderJob × World R
      start = start_render R P config id w

      abbrev read : Result (Option RenderJob) × World R
      read = on_db (get_render_job_by_id id) w

      abbrev after_check : RenderJob → World R → Result RenderJob × World R
      after_check job = start_on_resolve R P config job >> persist_start R P config job.id

      abbrev after_read : Option RenderJob → World R → Result RenderJob × World R
      after_read row = or_raise render_job_not_found row >>= after_check

      read_finds : (row : Option RenderJob) → read.0 ≡ ok row → row ≡ job_in R P config id w.db
      unfolding on_db get_render_job_by_id query
      read_finds row h = ground arith

      read_fails : (e : Error) → read.0 ≡ err e → e ≡ operational_error
      unfolding on_db get_render_job_by_id query
      read_fails e h = ground arith

      read_keeps :
          (read.1.db.tables ≡ w.db.tables)
          × (read.1.resolve ≡ w.resolve)
          × (read.1.db.now ≡ w.db.now)
      unfolding on_db get_render_job_by_id query
      read_keeps = (ground arith, ground arith, ground arith)

      -- A job that is not queued, that has no usable Resolve id, project, timeline or output path, or
      -- whose output file is there is refused: the call raises the error of the check that fails, or
      -- SQLite's error from reading the job, and neither the rows nor Resolve are changed.
      pub start_refuses :
          (job : RenderJob)
          → find (has_job_id id) w.db.tables.render_jobs ≡ some job
          → is_startable R P config job ≡ false
          → ((start.0 ≡ err (refusal R P config job)) ⊎ (start.0 ≡ err operational_error))
            × (start.1.db.tables ≡ w.db.tables)
            × (start.1.resolve ≡ w.resolve)
      unfolding start_render
      start_refuses job here unfit = elim (Result-cases read.0) [
        | inl (e, raises) ↦
            rw (after_ok-err after_read read e raises)
              (inr (ap err (read_fails e raises)), read_keeps.0, read_keeps.1)
        | inr (row, passes) ↦ rw (after_ok-ok after_read read row passes) (
            rw (read_finds row passes ∙ here)
              (rw (refuses R P config job read.1 unfit) (inl refl, read_keeps.0, read_keeps.1)))
      ]

      module _ (job : RenderJob) where
        abbrev checked : Result (Unit {0}) × World R
        checked = start_on_resolve R P config job read.1

        abbrev persist : Unit {0} → World R → Result RenderJob × World R
        persist done = persist_start R P config job.id

        check_failure_keeps :
            (e : Error)
            → e ≢ render_start_persistence_reconciliation_required
            → (after_check job read.1).0 ≡ err e
            → (after_check job read.1).1.db.tables ≡ w.db.tables
        check_failure_keeps e other h = elim (Result-cases checked.0) [
          | inl (x, raises) ↦
              rw (after_ok-err persist checked x raises)
                ((start_on_resolve-Stays R P config job).at read.1 ∙ read_keeps.0)
          | inr (done, passes) ↦ absurd (
              other (
                persist_raises R P config job.id checked.1 e
                  (rw (after_ok-ok persist checked done passes) at h)))
        ]

      -- If `start_render` raises anything but the error that says Resolve renders and the row does
      -- not say so, the rows of all tables are what they were.
      pub start_failure_keeps :
          (e : Error)
          → e ≢ render_start_persistence_reconciliation_required
          → start.0 ≡ err e
          → start.1.db.tables ≡ w.db.tables
      unfolding start_render
      start_failure_keeps e other h = elim (Result-cases read.0) [
        | inl (x, raises) ↦ rw (after_ok-err after_read read x raises) read_keeps.0
        | inr (none, passes) ↦ rw (after_ok-ok after_read read none passes) read_keeps.0
        | inr (some job, passes) ↦
            let goes = after_ok-ok after_read read (some job) passes in
            rw goes (check_failure_keeps job e other (rw goes at h))
      ]

      -- What `start_render` has done when it returns: for a startable job, Resolve has accepted the
      -- adapter's call, and the job's row is the returned one, rendering.
      pub record IsStarted (j : RenderJob) (w' : World R) : Type 0 where
        pub job : RenderJob
        pub here : find (has_job_id id) w.db.tables.render_jobs ≡ some job
        pub startable : is_startable R P config job ≡ true
        pub accepted : rendering_of R P config job w.resolve ≡ (ok tt, w'.resolve)
        pub returned : j ≡ started_at w.db.now job
        pub row : find (has_job_id id) w'.db.tables.render_jobs ≡ some j

      module _ (job : RenderJob) (here : job_in R P config id w.db ≡ some job)
          (unique : count (has_job_id id) w.db.tables.render_jobs ≤ 1) (j : RenderJob) where
        own_id : job.id ≡ id
        own_id = eq_of_== job.id id (find_passes (has_job_id id) w.db.tables.render_jobs job here)

        abbrev accepted_by : Result (Unit {0}) × World R
        accepted_by = on_resolve (rendering_of R P config job) read.1

        check_persists :
            is_startable R P config job ≡ true
            → (after_check job read.1).0 ≡ ok j
            → (accepted_by.0 ≡ ok tt)
              × (after_check job read.1 ≡ persist_start R P config id accepted_by.1)
        check_persists fit h =
            let same = hands_over R P config job read.1 fit in
            let continue = persist job in
            elim (Result-cases accepted_by.0) [
              | inl (x, raises) ↦ absurd (
                  ground (
                    arith,
                    ap (λ (p : Result (Unit {0}) × World R). after_ok p continue) same,
                    after_ok-err continue accepted_by x raises,
                  ))
              | inr (done, passes) ↦ (
                passes,
                ap (λ (p : Result (Unit {0}) × World R). after_ok p continue) same
                    ∙ after_ok-ok continue accepted_by done passes
                    ∙ ap (λ (i : ℕ). persist_start R P config i accepted_by.1) own_id,
              )
            ]

        persisted :
            is_startable R P config job ≡ true
            → (persist_start R P config id accepted_by.1).0 ≡ ok j
            → (j ≡ started_at w.db.now job)
              × (find
                    (has_job_id id)
                    (persist_start R P config id accepted_by.1).1.db.tables.render_jobs
                  ≡ some j)
        unfolding on_resolve
        persisted fit h =
            let (returned, row) =
              persist_returns R P config id accepted_by.1 j (rw read_keeps.0 unique) h in
            (ground (arith, returned, read_keeps.0, read_keeps.2, here), row)

        check_success : (after_check job read.1).0 ≡ ok j → IsStarted j (after_check job read.1).1
        unfolding on_resolve
        check_success h = elim (Bool-cases (is_startable R P config job)) [
          | inr unfit ↦ absurd (ground (arith, refuses R P config job read.1 unfit))
          | inl fit ↦
              let (accepted, goes) = check_persists fit h in
              let (returned, row) = persisted fit (rw goes at h) in
              rw goes (record {
                job = job;
                here = here;
                startable = fit;
                accepted =
                    rw (persist_keeps_resolve R P config id accepted_by.1)
                      (ground (arith, accepted, read_keeps.1));
                returned = returned;
                row = row;
              })
        ]

      -- On tables with unique job ids, if `start_render` returns a job, then the job with that id was
      -- startable: queued, with usable texts, and no file at its output path; Resolve has accepted the
      -- call for it; and the returned job is that job, rendering, as its row now is.
      pub start_success :
          (j : RenderJob)
          → count (has_job_id id) w.db.tables.render_jobs ≤ 1
          → start.0 ≡ ok j
          → IsStarted j start.1
      unfolding start_render
      start_success j unique h = elim (Result-cases read.0) [
        | inl (x, raises) ↦ absurd (ground (arith, after_ok-err after_read read x raises))
        | inr (none, passes) ↦ absurd (ground (arith, after_ok-ok after_read read none passes))
        | inr (some job, passes) ↦
            let goes = after_ok-ok after_read read (some job) passes in
            rw goes (check_success job (sym (read_finds (some job) passes)) unique j (rw goes at h))
      ]

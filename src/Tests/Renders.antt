-- ===== src/Tests/Renders.antt =====
-- The theorems on rendering, at concrete inputs.
use redline_os.Prelude.{
  ◌≡◌, refl, ◌⊎◌, Option, none, some, List, [], ◌∷◌, ◌≤◌, count, find, update, any, select,
  string_eq, nat_eq, option_eq,
}
use redline_os.Prelude.Text.{is_trimmed, is_blank, decimal}
use redline_os.Prelude.Dict.{get, put}
use redline_os.Errors.{operational_error, render_job_error, render_job_not_startable}
use redline_os.Exec.{Result, ok, err}
use redline_os.Store.Rows.{
  timeline_built, rendered, Episode, queued, rendering, complete, cancelled, RenderJob,
  episode_status_eq, render_job_status_eq,
}
use redline_os.Store.Sql.{with_now, execute, query, transaction}
use redline_os.Store.RenderJobs.{
  has_job_id, occupies, get_render_job_by_id, transition_render_job_to_rendering,
  has_unique_outputs, get_active_render_job_by_output_path, claim_render_output,
  release_render_output_claim, finalize_render_output_claim,
}
use redline_os.Store.Episodes.{get_episode_by_episode_id}
use redline_os.Render.World.{Resolve, World, on_db, on_resolve}
use redline_os.Render.Plan.{build_render_output_plan}
use redline_os.Render.Status.{status_of}
use redline_os.Render.Manager.{queue_render, start_render, get_render_status, cancel_render}
use redline_os.Render.Manager.Queue.{queue_render_leaves_no_claim}
use redline_os.Render.Manager.Accepted.{IsQueued, queue_render-IsQueued}
use redline_os.Render.Manager.Start.{IsStarted, start_refuses, start_failure_keeps, start_success}
use redline_os.Render.Manager.Sync.{cancel_exact, status_exact}
use redline_os.Adapter.Mock
use redline_os.Adapter.Mock.{MockResolveAdapter, mock_resolve}
use redline_os.Adapter.Mock.OneRender.{
  is_rendering, Call, connect_call, duplicate_project_call, build_timeline_call, queue_call,
  start_call, perform, fresh, Reachable, start, call, one_rendering,
}
use redline_os.Tests.Data.{
  episode_in, job_in, tables_of, db_of, output, platform, config, mock, one_row,
}

abbrev adapter : Resolve
adapter = mock_resolve platform

abbrev world : List RenderJob → MockResolveAdapter → World adapter
world jobs resolve = record {
  db = db_of (tables_of (episode_in timeline_built none ∷ []) jobs);
  resolve = resolve;
}

-- Resolve has no timeline, so it refuses the job after its output was claimed.
abbrev refusing : World adapter
refusing = world [] (mock [] "complete")

queue_render_leaves_no_claim_example :
    ((queue_render adapter platform config "RLC-E7" "master" refusing).1.db.tables.render_jobs ≡ [])
    × ((queue_render adapter platform config "RLC-E7" "master" refusing).1.db.tables.episodes
        ≡ episode_in timeline_built none ∷ [])
unfolding queue_render query execute with_now find any select count string_eq nat_eq option_eq
    is_blank on_db on_resolve get render_job_status_eq build_render_output_plan
    get_episode_by_episode_id get_active_render_job_by_output_path Mock.list_render_jobs
    claim_render_output Mock.queue_render_job release_render_output_claim
queue_render_leaves_no_claim_example =
    queue_render_leaves_no_claim adapter platform config "RLC-E7" "master" refusing render_job_error
      (λ i lt. refl) (record { not_sqlite = cc; not_persistence = cc; not_reconciliation = cc })
      refl

-- Resolve has the timeline, so it accepts the job.
abbrev accepting : World adapter
accepting = world [] (mock ("RLC-E7_MAIN" ∷ []) "complete")

abbrev accepted_row : RenderJob
accepted_row = record (job_in queued (some "mock-job-2")) {
  id = 2;
  created_at = "t1";
  updated_at = "t1";
}

queue_render-IsQueued_example :
    IsQueued adapter platform config "RLC-E7" "master" accepting accepted_row
      (queue_render adapter platform config "RLC-E7" "master" accepting).1
unfolding queue_render query execute with_now find any select count string_eq nat_eq option_eq
    is_blank on_db on_resolve get render_job_status_eq build_render_output_plan
    get_episode_by_episode_id get_active_render_job_by_output_path Mock.list_render_jobs
    claim_render_output Mock.queue_render_job put update has_unique_outputs
    finalize_render_output_claim transaction
queue_render-IsQueued_example =
    queue_render-IsQueued adapter platform config "RLC-E7" "master" accepting accepted_row
      (λ i lt. refl) refl

abbrev done : World adapter
done = world (job_in complete (some "mock-job-1") ∷ []) (mock ("RLC-E7_MAIN" ∷ []) "complete")

start_refuses_example :
    let (r, w') = start_render adapter platform config 1 done in
    ((r ≡ err render_job_not_startable) ⊎ (r ≡ err operational_error))
    × (w'.db.tables ≡ done.db.tables)
    × (w'.resolve ≡ done.resolve)
unfolding find nat_eq string_eq render_job_status_eq is_trimmed
start_refuses_example =
    start_refuses adapter platform config 1 done (job_in complete (some "mock-job-1")) refl refl

-- Resolve already renders the job.
abbrev busy : World adapter
busy = world (job_in queued (some "mock-job-1") ∷ []) (mock ("RLC-E7_MAIN" ∷ []) "rendering")

start_failure_keeps_example :
    (start_render adapter platform config 1 busy).1.db.tables ≡ busy.db.tables
unfolding start_render query find any string_eq nat_eq option_eq render_job_status_eq is_trimmed
    on_db on_resolve get get_render_job_by_id Mock.start_render
start_failure_keeps_example =
    start_failure_keeps adapter platform config 1 busy render_job_error (cc) refl

abbrev ready : World adapter
ready = world (job_in queued (some "mock-job-1") ∷ []) (mock ("RLC-E7_MAIN" ∷ []) "queued")

abbrev started_row : RenderJob
started_row = record (job_in queued (some "mock-job-1")) { status = rendering; updated_at = "t1" }

start_success_example :
    IsStarted adapter platform config 1 ready started_row
      (start_render adapter platform config 1 ready).1
unfolding start_render query find any update count string_eq nat_eq option_eq render_job_status_eq
    is_trimmed on_db on_resolve get put execute with_now transaction get_render_job_by_id
    Mock.start_render transition_render_job_to_rendering has_unique_outputs
start_success_example =
    start_success adapter platform config 1 ready started_row
      (one_row (has_job_id 1) (job_in queued (some "mock-job-1"))) refl

cancel_exact_example :
    let (r, w') = cancel_render adapter platform config 1 ready in
    let row = record (job_in queued (some "mock-job-1")) {
      status = cancelled;
      updated_at = "t1";
    } in
    (r ≡ ok (some row))
    × (w'.resolve ≡ mock ("RLC-E7_MAIN" ∷ []) "cancelled")
    × (w'.db.tables.render_jobs ≡ row ∷ [])
unfolding find update nat_eq string_eq on_resolve get put cancel_render Mock.cancel_render
cancel_exact_example =
    cancel_exact adapter platform config ready (job_in queued (some "mock-job-1")) refl
      (λ path. one_row (occupies path) (job_in queued (some "mock-job-1"))) refl

-- Resolve has rendered a job that the row has as queued.
abbrev finished : World adapter
finished = world (job_in queued (some "mock-job-1") ∷ []) (mock ("RLC-E7_MAIN" ∷ []) "complete")

status_exact_example :
    let (r, w') = get_render_status adapter platform config 1 finished in
    let row = record (job_in queued (some "mock-job-1")) { status = complete; updated_at = "t1" } in
    let episode = record (episode_in timeline_built none) {
      status = rendered;
      updated_at = "t1";
    } in
    ◌≡◌ {A = Result (Option RenderJob) × List RenderJob × List Episode}
      (r, w'.db.tables.render_jobs, w'.db.tables.episodes)
      (ok (some row), row ∷ [], episode ∷ [])
unfolding find update any nat_eq string_eq option_eq render_job_status_eq status_of get
    Mock.get_render_status has_unique_outputs
status_exact_example =
    status_exact adapter platform config finished (job_in queued (some "mock-job-1")) refl
      "mock-job-1" "complete" finished.resolve refl refl refl

-- Two jobs are queued, and both are started.
abbrev queued_twice : List Call
queued_twice =
    connect_call
    ∷ duplicate_project_call "RLC-E7" "Template"
    ∷ build_timeline_call "RLC-E7" "RLC-E7_MAIN"
    ∷ queue_call "RLC-E7" "RLC-E7_MAIN" "ProRes Master" "/e/7/master" "RLC-E7"
    ∷ queue_call "RLC-E7" "RLC-E7_MAIN" "ProRes Master" "/e/7/master" "RLC-E7"
    ∷ start_call "RLC-E7" "RLC-E7_MAIN" "mock-job-1" output
    ∷ start_call "RLC-E7" "RLC-E7_MAIN" "mock-job-2" output
    ∷ []

abbrev performed : List Call → MockResolveAdapter → MockResolveAdapter
performed [] s = s
performed (c ∷ cs) s = performed cs (perform platform c s)

performed-Reachable :
    (cs : List Call) {s : MockResolveAdapter}
    → Reachable platform s
    → Reachable platform (performed cs s)
performed-Reachable [] r = r
performed-Reachable (c ∷ cs) r = performed-Reachable cs (call c r)

-- The second start is refused.
jobs_performed :
    (performed queued_twice (fresh platform)).render_jobs
    ≡ ("mock-job-1", "rendering") ∷ ("mock-job-2", "queued") ∷ []
unfolding perform Mock.connect Mock.duplicate_project Mock.build_timeline Mock.queue_render_job
    Mock.start_render decimal get put any string_eq nat_eq
jobs_performed = refl

one_rendering_example : count is_rendering (performed queued_twice (fresh platform)).render_jobs ≤ 1
one_rendering_example = one_rendering platform (performed-Reachable queued_twice start)

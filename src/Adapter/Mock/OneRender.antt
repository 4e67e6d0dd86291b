-- ===== src/Adapter/Mock/OneRender.antt =====
-- The jobs of the mock that render, over any sequence of its methods.
use redline_os.Prelude.{
  ℕ, suc, ◌≤◌, String, Bool, false, ◌≡◌, refl, List, [], ◌∷◌, ◌<>◌, ◌==◌, string_eq, nat_eq, count,
  arith,
}
use redline_os.Prelude.Counting.{count_of_not_any}
use redline_os.Prelude.Dict.{put, pop}
use redline_os.Exec.{Exec}
use redline_os.Render.World.{Platform}
use redline_os.Prelude.Text.{decimal}
use redline_os.Adapter.Mock.{
  MockResolveAdapter, connect, duplicate_project, build_timeline, queue_render_job,
  list_render_jobs, delete_render_job, get_render_status, cancel_render, start_render,
  simulate_render_complete, set_video_timeline_item_count, get_video_timeline_item_count,
}

abbrev pub is_rendering : String × String → Bool
is_rendering entry = entry.1 == "rendering"

count-put :
    (k v : String) (jobs : List (String × String))
    → (v == "rendering") ≡ false
    → count is_rendering (put k v jobs) ≤ count is_rendering jobs
unfolding put count
count-put k v [] h = ground arith
count-put k v ((k', v') ∷ jobs) h = ground (arith, count-put k v jobs h)

count-put_rendering :
    (k : String) (jobs : List (String × String))
    → count is_rendering (put k "rendering" jobs) ≤ suc (count is_rendering jobs)
unfolding put count
count-put_rendering k [] = ground arith
count-put_rendering k ((k', v') ∷ jobs) = ground (arith, count-put_rendering k jobs)

count-pop :
    (k : String) (jobs : List (String × String))
    → count is_rendering (pop k jobs) ≤ count is_rendering jobs
unfolding pop count
count-pop k [] = omega arith
count-pop k ((k', v') ∷ jobs) = ground (arith, count-pop k jobs)

-- One call of a method.
pub data Call : Type 0 where
  connect_call : Call
  duplicate_project_call : String → String → Call
  build_timeline_call : String → String → Call
  queue_call : String → String → String → String → String → Call
  list_call : String → Call
  delete_call : String → String → Call
  status_call : String → Call
  cancel_call : String → Call
  start_call : String → String → String → String → Call
  complete_call : String → Call
  count_call : String → String → Call
  set_count_call : String → String → ℕ → Call

module _ (P : Platform) where
  abbrev after : {A : Type 0} → Exec MockResolveAdapter A → MockResolveAdapter → MockResolveAdapter
  after m s = (m s).1

  unfoldable pub perform : Call → MockResolveAdapter → MockResolveAdapter
  perform connect_call = after connect
  perform (duplicate_project_call p t) = after (duplicate_project p t)
  perform (build_timeline_call p t) = after (build_timeline p t)
  perform (queue_call p t r d c) = after (queue_render_job p t r d c)
  perform (list_call p) = after (list_render_jobs p)
  perform (delete_call p i) = after (delete_render_job p i)
  perform (status_call i) = after (get_render_status i)
  perform (cancel_call i) = after (cancel_render i)
  perform (start_call p t i o) = after (start_render P p t i o)
  perform (complete_call i) = after (simulate_render_complete i)
  perform (count_call p t) = after (get_video_timeline_item_count p t)
  perform (set_count_call p t n) = after (set_video_timeline_item_count p t n)

  -- The adapter that `__init__` makes, and what calls make of it.
  abbrev pub fresh : MockResolveAdapter
  fresh = record {
    connected = false;
    projects = [];
    timelines = [];
    render_jobs = [];
    render_job_metadata = [];
    video_timeline_item_counts = [];
    next_job = 1;
  }

  pub data Reachable : MockResolveAdapter → Type 0 where
    start : Reachable fresh
    call : (c : Call) {s : MockResolveAdapter} → Reachable s → Reachable (perform c s)

  abbrev IsSingle : MockResolveAdapter → Type 0
  IsSingle s = count is_rendering s.render_jobs ≤ 1

  queue-IsSingle :
      (p t r d c : String) (s : MockResolveAdapter)
      → IsSingle s
      → IsSingle (after (queue_render_job p t r d c) s)
  unfolding queue_render_job string_eq
  queue-IsSingle p t r d c s h =
      ground (arith, count-put ("mock-job-" <> decimal s.next_job) "queued" s.render_jobs refl)

  start-IsSingle :
      (p t i o : String) (s : MockResolveAdapter)
      → IsSingle s
      → IsSingle (after (start_render P p t i o) s)
  unfolding start_render
  start-IsSingle p t i o s h =
      ground
        (arith, count-put_rendering i s.render_jobs, count_of_not_any is_rendering s.render_jobs)

  perform-IsSingle : (c : Call) (s : MockResolveAdapter) → IsSingle s → IsSingle (perform c s)
  unfolding perform connect duplicate_project build_timeline list_render_jobs delete_render_job
      get_render_status cancel_render simulate_render_complete get_video_timeline_item_count
      set_video_timeline_item_count string_eq
  perform-IsSingle connect_call s h = h
  perform-IsSingle (duplicate_project_call p t) s h = ground arith
  perform-IsSingle (build_timeline_call p t) s h = ground arith
  perform-IsSingle (queue_call p t r d c) s h = queue-IsSingle p t r d c s h
  perform-IsSingle (list_call p) s h = ground arith
  perform-IsSingle (delete_call p i) s h = ground (arith, count-pop i s.render_jobs)
  perform-IsSingle (status_call i) s h = ground arith
  perform-IsSingle (cancel_call i) s h = ground (arith, count-put i "cancelled" s.render_jobs refl)
  perform-IsSingle (start_call p t i o) s h = start-IsSingle p t i o s h
  perform-IsSingle (complete_call i) s h = ground (arith, count-put i "complete" s.render_jobs refl)
  perform-IsSingle (count_call p t) s h = ground arith
  perform-IsSingle (set_count_call p t n) s h = h

  -- After any sequence of calls on a new mock adapter, at most one of its jobs is rendering.
  pub one_rendering : {s : MockResolveAdapter} → Reachable s → count is_rendering s.render_jobs ≤ 1
  unfolding count
  one_rendering start = omega arith
  one_rendering (call c {s} r) = perform-IsSingle c s (one_rendering r)

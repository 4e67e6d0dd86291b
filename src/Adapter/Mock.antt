-- ===== src/Adapter/Mock.antt =====
-- resolve/mock.py: the rendering methods of `MockResolveAdapter`, and the methods that its projects
-- and timelines come from.
pub mod OneRender
use redline_os.Prelude.{
  ℕ, zero, suc, ◌/◌, ◌%◌, String, ◌<>◌, Bool, true, false, not, ◌&&◌, ◌||◌, Option, none, some,
  List, [], ◌∷◌, ◌++◌, ◌==◌, string_eq, nat_eq, any, is_none, select, ltb, if◌then◌else◌,
}
use redline_os.Prelude.Text.{decimal}
use redline_os.Prelude.Dict.{get, put, pop}
use redline_os.Errors.{
  Error, runtime_error, project_already_exists, project_not_found, timeline_operation_error,
  render_job_error,
}
use redline_os.Exec.{Exec, Result, ok, err, pure, raise, require, or_raise, after_ok, ◌>>=◌, ◌>>◌}
use redline_os.Render.World.{QueueJob, Resolve, Platform}

-- The dicts of the adapter; `next_job` is what `_job_ids` counts to next. Of the project handles
-- only the paths are kept.
pub record MockResolveAdapter : Type 0 where
  pub connected : Bool
  pub projects : List (String × String)
  pub timelines : List (String × List String)
  pub render_jobs : List (String × String)
  pub render_job_metadata : List (String × List (String × String))
  pub video_timeline_item_counts : List (String × ℕ)
  pub next_job : ℕ

abbrev Method : Type 0 → Type 0
Method A = Exec MockResolveAdapter A

abbrev reading {ℓ} : {A : Type ℓ} → (MockResolveAdapter → A) → Exec MockResolveAdapter A
reading f s = (ok (f s), s)

abbrev changing : (MockResolveAdapter → MockResolveAdapter) → Exec MockResolveAdapter (Unit {0})
changing f s = (ok tt, f s)

abbrev get_or {ℓ} : {A : Type ℓ} → A → Option A → A
get_or default none = default
get_or default (some a) = a

unfoldable pub connect : Method (Unit {0})
connect = changing λ s. record s { connected = true }

unfoldable pub require_connected : Method (Unit {0})
require_connected = do connected ← reading λ s. s.connected; require connected runtime_error

abbrev pub require_project : String → Method (Unit {0})
require_project project_name = do
  known ← reading λ s. get project_name s.projects
  require (not (is_none known)) project_not_found

-- `timeline_name in self.timelines.get(project_name, [])`
abbrev pub has_timeline : String → String → MockResolveAdapter → Bool
has_timeline project_name timeline_name s =
    any (λ name. name == timeline_name) (get_or [] (get project_name s.timelines))

unfoldable pub duplicate_project : String → String → Method (Unit {0})
unfolding require_connected
duplicate_project project_name template_name = do
  require_connected
  known ← reading λ s. get project_name s.projects
  require (is_none known) project_already_exists
  changing λ s. record s {
    projects = put project_name ("/mock/projects/" <> project_name <> ".drp") s.projects;
    timelines = put project_name [] s.timelines;
  }

unfoldable pub build_timeline : String → String → Method String
unfolding require_connected
build_timeline project_name timeline_name = do
  require_connected
  require_project project_name
  known ← reading (has_timeline project_name timeline_name)
  changing λ s. if known then s else record s {
    timelines =
        put project_name (get_or [] (get project_name s.timelines) ++ timeline_name ∷ [])
          s.timelines;
  }
  pure timeline_name

abbrev metadata_of : String → String → String → String → String → String → List (String × String)
metadata_of job_id project_name timeline_name target_directory custom_name resolve_preset_name =
    ("JobId", job_id)
    ∷ ("ProjectName", project_name)
    ∷ ("TimelineName", timeline_name)
    ∷ ("TargetDir", target_directory)
    ∷ ("CustomName", custom_name)
    ∷ ("RenderPreset", resolve_preset_name)
    ∷ []

unfoldable pub queue_render_job : String → String → String → String → String → Method String
unfolding require_connected decimal
queue_render_job project_name timeline_name resolve_preset_name target_directory custom_name = do
  require_connected
  require_project project_name
  known ← reading (has_timeline project_name timeline_name)
  require known render_job_error
  job_id ← reading λ s. "mock-job-" <> decimal s.next_job
  changing λ s. record s {
    next_job = suc s.next_job;
    render_jobs = put job_id "queued" s.render_jobs;
    render_job_metadata =
        put job_id
          (metadata_of job_id project_name timeline_name target_directory custom_name
            resolve_preset_name)
          s.render_job_metadata;
  }
  pure job_id

-- `status in {"queued", "rendering"}`, where None is not.
abbrev is_pending : Option String → Bool
is_pending none = false
is_pending (some status) = status == "queued" || status == "rendering"

-- `metadata.get(key) == value`
abbrev has_value : String → String → List (String × String) → Bool
has_value key value metadata = elim (get key metadata) [ none ↦ false | some v ↦ v == value ]

-- `dict(metadata)` of each entry.
as_jobs : List (String × List (String × String)) → List QueueJob
as_jobs [] = []
as_jobs ((job_id, metadata) ∷ entries) = (λ key. get key metadata) ∷ as_jobs entries

unfoldable pub list_render_jobs : String → Method (List QueueJob)
unfolding require_connected as_jobs
list_render_jobs project_name = do
  require_connected
  require_project project_name
  reading λ s. as_jobs (
      select
        (λ (entry : String × List (String × String)).
          has_value "ProjectName" project_name entry.1 && is_pending (get entry.0 s.render_jobs))
        s.render_job_metadata)

unfoldable pub delete_render_job : String → String → Method (Unit {0})
unfolding require_connected
delete_render_job project_name resolve_job_id = do
  require_connected
  found ← reading λ s. get resolve_job_id s.render_job_metadata
  metadata ← or_raise render_job_error found
  require (has_value "ProjectName" project_name metadata) render_job_error
  changing λ s. record s {
    render_jobs = pop resolve_job_id s.render_jobs;
    render_job_metadata = pop resolve_job_id s.render_job_metadata;
  }

unfoldable pub get_render_status : String → Method String
unfolding require_connected
get_render_status resolve_job_id = do
  require_connected
  reading λ s. get_or "unknown" (get resolve_job_id s.render_jobs)

abbrev is_finished : String → Bool
is_finished status = status == "complete" || (status == "failed" || status == "cancelled")

unfoldable pub cancel_render : String → Method (Unit {0})
unfolding require_connected
cancel_render resolve_job_id = do
  require_connected
  found ← reading λ s. get resolve_job_id s.render_jobs
  current ← or_raise render_job_error found
  require (not (is_finished current)) render_job_error
  changing λ s. record s { render_jobs = put resolve_job_id "cancelled" s.render_jobs }

module _ (P : Platform) where
  -- The queued job's target is the requested path.
  abbrev targets : String → List (String × String) → Bool
  targets output_path metadata = elim (get "TargetDir" metadata) [
    | none ↦ false
    | some directory ↦
        (P.resolve directory == P.resolve (P.parent output_path))
        && has_value "CustomName" (P.stem output_path) metadata
  ]

  unfoldable pub start_render : String → String → String → String → Method (Unit {0})
  unfolding require_connected
  start_render project_name timeline_name resolve_job_id output_path = do
    require_connected
    status ← reading λ s. get resolve_job_id s.render_jobs
    current ← or_raise render_job_error status
    found ← reading λ s. get resolve_job_id s.render_job_metadata
    metadata ← or_raise render_job_error found
    require (has_value "ProjectName" project_name metadata) render_job_error
    require (has_value "TimelineName" timeline_name metadata) render_job_error
    require (targets output_path metadata) render_job_error
    require (current == "queued") render_job_error
    busy ← reading λ s. any (λ (entry : String × String). entry.1 == "rendering") s.render_jobs
    require (not busy) render_job_error
    changing λ s. record s { render_jobs = put resolve_job_id "rendering" s.render_jobs }

-- `simulate_render_complete`
unfoldable pub simulate_render_complete : String → Method (Unit {0})
simulate_render_complete resolve_job_id =
    changing λ s. record s { render_jobs = put resolve_job_id "complete" s.render_jobs }

unfoldable pub get_video_timeline_item_count : String → String → Method ℕ
unfolding require_connected
get_video_timeline_item_count project_name timeline_name = do
  require_connected
  require_project project_name
  known ← reading (has_timeline project_name timeline_name)
  require known timeline_operation_error
  reading λ s. get_or 0 (get (project_name <> ":" <> timeline_name) s.video_timeline_item_counts)

unfoldable pub set_video_timeline_item_count : String → String → ℕ → Method (Unit {0})
set_video_timeline_item_count project_name timeline_name count = changing λ s. record s {
  video_timeline_item_counts =
      put (project_name <> ":" <> timeline_name) count s.video_timeline_item_counts;
}

-- The adapter as the manager sees it.
abbrev pub mock_resolve : Platform → Resolve
mock_resolve P = record {
  State = MockResolveAdapter;
  queue_render_job = queue_render_job;
  delete_render_job = delete_render_job;
  list_render_jobs = list_render_jobs;
  get_video_timeline_item_count = get_video_timeline_item_count;
  get_render_status = get_render_status;
  cancel_render = cancel_render;
  start_render = start_render P;
}

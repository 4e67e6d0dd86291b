-- ===== src/Render/Manager.antt =====
-- render/manager.py: `RenderManager` over the store, Resolve and the platform.
pub mod Queue
pub mod Checks
pub mod Accepted
pub mod Start
pub mod Sync
pub mod Claiming
pub mod Reads
use redline_os.Prelude.{
  ℕ, String, Bool, true, false, ◌&&◌, ◌||◌, not, Option, none, some, List, [], ◌∷◌, ◌==◌, string_eq,
  nat_eq, any, is_none, if◌then◌else◌,
}
use redline_os.Prelude.Text.{is_trimmed}
use redline_os.Errors.{
  Error, attribute_error, episode_not_found, render_preset_not_found, render_job_not_found,
  render_output_collision, render_persistence_error, render_reconciliation_required,
  render_timeline_not_renderable, render_job_missing_resolve_id, render_job_not_startable,
  render_start_persistence_reconciliation_required, format_error,
}
use redline_os.Exec.{Result, ok, err, Exec, pure, raise, require, or_raise, attempt, ◌>>=◌, ◌>>◌}
use redline_os.Store.Rows.{
  EpisodeStatus, rendered, RenderJobStatus, queued, complete, cancelled, Episode, RenderJob,
  render_job_status_eq,
}
use redline_os.Store.Episodes.{get_episode_by_episode_id, update_episode_status}
use redline_os.Store.RenderJobs.{
  claim_render_output, finalize_render_output_claim, release_render_output_claim,
  get_render_job_by_id, get_active_render_job_by_output_path, transition_render_job_to_rendering,
  update_render_job, list_render_jobs_for_episode,
}
use redline_os.Render.World.{QueueJob, Resolve, Platform, World, on_db, on_resolve, lift}
use redline_os.Render.Plan.{RenderPreset, RenderOutputPlan, build_render_output_plan}
use redline_os.Render.Status.{status_of, value}

-- The parts of `RedlineConfig` that rendering reads.
pub record RenderConfig : Type 0 where
  pub presets : String → Option RenderPreset
  pub timeline_name_pattern : String

-- `_job_value`: the value of the first key that has one.
unfoldable pub job_value : QueueJob → List String → Option String
job_value job [] = none
job_value job (key ∷ keys) =
    let rest = job_value job keys in elim (job key) [ some v ↦ some v | none ↦ rest ]

-- A value that is there has to be the expected one.
abbrev matches : Option String → String → Bool
matches none expected = true
matches (some v) expected = v == expected

module _ (R : Resolve) (P : Platform) (config : RenderConfig) where
  -- `_resolve_job_targets_plan`
  unfoldable pub resolve_job_targets_plan : QueueJob → RenderOutputPlan → Bool
  unfolding job_value
  resolve_job_targets_plan job plan =
      elim (job_value job ("TargetDir" ∷ "targetDir" ∷ "target_dir" ∷ [])) [
        | none ↦ false
        | some target_dir ↦
            elim (job_value job ("CustomName" ∷ "customName" ∷ "custom_name" ∷ [])) [
              | none ↦ false
              | some custom_name ↦
                  (P.resolve target_dir == plan.output_directory)
                  && ((custom_name == plan.output_stem)
                      && (matches
                            (job_value job
                              ("ProjectName" ∷ "Project" ∷ "project_name" ∷ "projectName" ∷ []))
                            plan.project_name
                          && matches
                              (job_value job (
                                "TimelineName" ∷ "Timeline" ∷ "timeline_name" ∷ "timelineName"
                                ∷ []))
                              plan.timeline_name))
            ]
      ]

  unfoldable pub reject_collisions : RenderOutputPlan → Exec (World R) (Unit {0})
  unfolding resolve_job_targets_plan
  reject_collisions plan = do
    require (not (P.exists plan.output_path)) render_output_collision
    existing ← on_db (get_active_render_job_by_output_path plan.output_path)
    require (is_none existing) render_output_collision
    jobs ← on_resolve (R.list_render_jobs plan.project_name)
    require (not (any (λ job. resolve_job_targets_plan job plan) jobs)) render_output_collision

  unfoldable pub enforce_renderability : RenderPreset → RenderOutputPlan → Exec (World R) (Unit {0})
  enforce_renderability preset plan = if not preset.requires_video_payload then pure tt else do
    count ← on_resolve (R.get_video_timeline_item_count plan.project_name plan.timeline_name)
    require (not (count == 0)) render_timeline_not_renderable

  -- `except Exception as queue_exc` around the submission.
  pub withdraw_claim : ℕ → Error → Exec (World R) String
  withdraw_claim claim_id queue_exc = do
    attempt (on_db (release_render_output_claim claim_id)) (λ _. raise render_persistence_error)
    raise queue_exc

  -- `except Exception as exc` around the finalization: Resolve has the job, the store has not.
  pub compensate : RenderOutputPlan → ℕ → String → Error → Exec (World R) RenderJob
  compensate plan claim_id resolve_job_id exc = do
    attempt (on_resolve (R.delete_render_job plan.project_name resolve_job_id))
        (λ _. raise render_reconciliation_required)
    attempt (on_db (release_render_output_claim claim_id)) (λ _. raise render_persistence_error)
    raise render_persistence_error

  -- The rest of `queue_render`, once the output is claimed.
  unfoldable pub submit_claim : RenderOutputPlan → ℕ → Exec (World R) RenderJob
  unfolding withdraw_claim compensate
  submit_claim plan claim_id = do
    resolve_job_id ←
        attempt
          (on_resolve (
            R.queue_render_job plan.project_name plan.timeline_name plan.resolve_preset_name
              plan.output_directory plan.output_stem))
          (withdraw_claim claim_id)
    attempt (on_db (finalize_render_output_claim claim_id resolve_job_id))
        (compensate plan claim_id resolve_job_id)

  -- The part of `queue_render` that writes nothing.
  unfoldable pub prepare_render : String → String → Exec (World R) RenderOutputPlan
  unfolding reject_collisions enforce_renderability
  prepare_render episode_id preset_name = do
    row ← on_db (get_episode_by_episode_id episode_id)
    episode ← or_raise episode_not_found row
    preset ← or_raise render_preset_not_found (config.presets preset_name)
    timeline_name ←
        or_raise format_error
          (P.format config.timeline_name_pattern (("episode_id", episode.episode_id) ∷ []))
    plan ← lift (build_render_output_plan P episode preset timeline_name)
    reject_collisions plan
    enforce_renderability preset plan
    pure plan

  unfoldable pub queue_render : String → String → Exec (World R) RenderJob
  unfolding prepare_render submit_claim
  queue_render episode_id preset_name = do
    plan ← prepare_render episode_id preset_name
    row ← on_db (
        claim_render_output episode_id preset_name plan.project_name plan.timeline_name
          plan.output_path)
    claim ← or_raise render_output_collision row
    submit_claim plan claim.id

  -- `job.resolve_job_id is not None`, and the poll of Resolve that it guards.
  pub sync_status : RenderJob → String → Exec (World R) (Option RenderJob)
  sync_status job live_status = elim (status_of live_status) [
    | none ↦ pure (some job)
    | some status ↦ if value job.status == live_status then pure (some job) else do
      on_db (update_render_job job.id none (some status) none)
      reloaded ← on_db (get_render_job_by_id job.id)
      if not (status == complete) then pure reloaded else do
        synced ← or_raise attribute_error reloaded
        on_db (update_episode_status synced.episode_id rendered)
        pure (some synced)
  ]

  poll : RenderJob → Option String → Exec (World R) (Option RenderJob)
  unfolding sync_status
  poll job none = pure (some job)
  poll job (some resolve_job_id) = do
    live_status ← on_resolve (R.get_render_status resolve_job_id)
    sync_status job live_status

  unfoldable pub get_render_status : ℕ → Exec (World R) (Option RenderJob)
  unfolding poll
  get_render_status job_id = do
    row ← on_db (get_render_job_by_id job_id)
    job ← or_raise render_job_not_found row
    poll job job.resolve_job_id

  pub cancel_on_resolve : Option String → Exec (World R) (Unit {0})
  cancel_on_resolve none = pure tt
  cancel_on_resolve (some resolve_job_id) = on_resolve (R.cancel_render resolve_job_id)

  unfoldable pub cancel_render : ℕ → Exec (World R) (Option RenderJob)
  unfolding cancel_on_resolve
  cancel_render job_id = do
    row ← on_db (get_render_job_by_id job_id)
    job ← or_raise render_job_not_found row
    cancel_on_resolve job.resolve_job_id
    on_db (update_render_job job.id none (some cancelled) none)
    on_db (get_render_job_by_id job.id)

  -- `_require_usable_persisted_string`: None is no string.
  unfoldable pub require_usable : Option String → Exec (World R) String
  require_usable none = raise render_job_not_startable
  require_usable (some text) = do require (is_trimmed text) render_job_not_startable; pure text

  -- The checks of `start_render`, and the adapter's call that they guard.
  unfoldable pub start_on_resolve : RenderJob → Exec (World R) (Unit {0})
  unfolding require_usable
  start_on_resolve job = do
    require (not (is_none job.resolve_job_id)) render_job_missing_resolve_id
    require (job.status == queued) render_job_not_startable
    resolve_job_id ← require_usable job.resolve_job_id
    project_name ← require_usable job.project_name
    timeline_name ← require_usable job.timeline_name
    output_path ← require_usable job.output_path
    require (not (P.exists output_path)) render_output_collision
    on_resolve (R.start_render project_name timeline_name resolve_job_id output_path)

  -- `except Exception` after Resolve has confirmed that it renders.
  abbrev split_brain {ℓ} : {A : Type ℓ} → Error → Exec (World R) A
  split_brain _ = raise render_start_persistence_reconciliation_required

  -- What is persisted once Resolve renders.
  unfoldable pub persist_start : ℕ → Exec (World R) RenderJob
  persist_start job_id = do
    transitioned ← attempt (on_db (transition_render_job_to_rendering job_id)) split_brain
    require transitioned render_start_persistence_reconciliation_required
    reloaded ← attempt (on_db (get_render_job_by_id job_id)) split_brain
    or_raise render_start_persistence_reconciliation_required reloaded

  unfoldable pub start_render : ℕ → Exec (World R) RenderJob
  unfolding start_on_resolve persist_start
  start_render job_id = do
    row ← on_db (get_render_job_by_id job_id)
    job ← or_raise render_job_not_found row
    start_on_resolve job
    persist_start job.id

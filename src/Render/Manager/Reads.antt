-- ===== src/Render/Manager/Reads.antt =====
-- What the manager does before it writes: the checks of `queue_render` and of `start_render`.
use redline_os.Prelude.{◌≡◌, String, ℕ, Option, none, some}
use redline_os.Store.Rows.{Tables, RenderJob}
use redline_os.Store.Sql.Keeps.{Keeps, keeps_rules}
use redline_os.Store.Episodes.{get_episode_by_episode_id}
use redline_os.Store.RenderJobs.{get_render_job_by_id, get_active_render_job_by_output_path}
use redline_os.Render.World.{Resolve, Platform}
use redline_os.Render.World.Stays.{Stays, stays_rules}
use redline_os.Render.Plan.{RenderPreset, RenderOutputPlan}
use redline_os.Render.Manager.{
  RenderConfig, reject_collisions, enforce_renderability, prepare_render, require_usable,
  start_on_resolve,
}

episode_read : (k : String) (t : Tables) → Keeps (λ t'. t' ≡ t) (get_episode_by_episode_id k)
unfolding get_episode_by_episode_id
episode_read k t = search keeps_rules

pub job_read : (i : ℕ) (t : Tables) → Keeps (λ t'. t' ≡ t) (get_render_job_by_id i)
unfolding get_render_job_by_id
job_read i t = search keeps_rules

active_read :
    (path : String) (t : Tables) → Keeps (λ t'. t' ≡ t) (get_active_render_job_by_output_path path)
unfolding get_active_render_job_by_output_path
active_read path t = search keeps_rules

ruleset read_rules = (stays_rules, episode_read, job_read, active_read)

module _ (R : Resolve) (P : Platform) (config : RenderConfig) where
  reject_collisions-Stays : (plan : RenderOutputPlan) → Stays (reject_collisions R P config plan)
  unfolding reject_collisions
  reject_collisions-Stays plan = search read_rules depth 10

  enforce_renderability-Stays :
      (preset : RenderPreset) (plan : RenderOutputPlan)
      → Stays (enforce_renderability R P config preset plan)
  unfolding enforce_renderability
  enforce_renderability-Stays preset plan = search read_rules depth 8

  pub prepare_render-Stays :
      (episode_id preset_name : String) → Stays (prepare_render R P config episode_id preset_name)
  unfolding prepare_render
  prepare_render-Stays episode_id preset_name =
      search (read_rules, reject_collisions-Stays, enforce_renderability-Stays) depth 12

  require_usable-Stays : (o : Option String) → Stays (require_usable R P config o)
  unfolding require_usable
  require_usable-Stays none = search stays_rules
  require_usable-Stays (some text) = search stays_rules

  pub start_on_resolve-Stays : (job : RenderJob) → Stays (start_on_resolve R P config job)
  unfolding start_on_resolve
  start_on_resolve-Stays job = search (stays_rules, require_usable-Stays) depth 14

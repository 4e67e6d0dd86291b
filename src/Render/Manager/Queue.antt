-- ===== src/Render/Manager/Queue.antt =====
-- `queue_render`: what a failed request leaves behind, and what a successful one has done.
use redline_os.Prelude.{
  ◌∙◌, ap, ℕ, suc, ◌<◌, String, ◌≡◌, ◌≢◌, refl, inl, inr, Option, none, some, List, [], ◌∷◌, ◌++◌,
  count, arith, string_eq, nat_eq, option_eq,
}
use redline_os.Errors.{
  Error, operational_error, render_persistence_error, render_reconciliation_required,
  render_output_collision,
}
use redline_os.Exec.{
  Result, ok, err, Result-cases, after_ok, after_ok-ok, after_ok-err, after_error-ok,
  after_error-err, or_raise, attempt, ◌>>=◌,
}
use redline_os.Store.Rows.{RenderJob, claiming, Tables, render_job_status_eq}
use redline_os.Store.RenderJobs.{has_job_id, claim_render_output, finalize_render_output_claim}
use redline_os.Render.World.{Resolve, Platform, World, on_db, on_resolve}
use redline_os.Render.Plan.{RenderOutputPlan}
use redline_os.Render.Manager.{
  RenderConfig, withdraw_claim, compensate, submit_claim, prepare_render, queue_render,
}
use redline_os.Render.Manager.Reads.{prepare_render-Stays}
use redline_os.Render.Manager.Claiming.{
  claim_raises, claim_refused, claim_granted, release_ok, release_restores,
}

-- The errors after which the rows may differ: SQLite failed by itself, or a compensation did.
pub record IsReported (e : Error) : Type 0 where
  pub not_sqlite : e ≢ operational_error
  pub not_persistence : e ≢ render_persistence_error
  pub not_reconciliation : e ≢ render_reconciliation_required

module _ (R : Resolve) (P : Platform) (config : RenderConfig) where
  compensate_raises :
      (plan : RenderOutputPlan) (claim_id : ℕ) (resolve_job_id : String) (exc : Error) (w : World R)
      (e : Error)
      → IsReported e
      → (compensate R P config plan claim_id resolve_job_id exc w).0 ≢ err e
  unfolding compensate
  compensate_raises plan claim_id resolve_job_id exc w e reported h = ground arith

  withdraw_restores :
      (jobs : List RenderJob) (job : RenderJob) (exc : Error) (w : World R) (e : Error)
      → count (has_job_id job.id) jobs ≡ 0
      → job.status ≡ claiming
      → w.db.tables.render_jobs ≡ jobs ++ job ∷ []
      → IsReported e
      → (withdraw_claim R P config job.id exc w).0 ≡ err e
      → ((withdraw_claim R P config job.id exc w).1.db.tables.render_jobs ≡ jobs)
        × ((withdraw_claim R P config job.id exc w).1.db.tables.episodes ≡ w.db.tables.episodes)
  unfolding withdraw_claim on_db
  withdraw_restores jobs job exc w e fresh waits rows reported h =
      let back = release_restores jobs job w.db fresh waits rows in
      let same = release_ok job.id w.db in (ground (arith, back), ground (arith, same))

  pub withdraw_never_returns :
      (claim_id : ℕ) (exc : Error) (w : World R) (id : String)
      → (withdraw_claim R P config claim_id exc w).0 ≢ ok id
  unfolding withdraw_claim
  withdraw_never_returns claim_id exc w id h = ground arith

  module _ (plan : RenderOutputPlan) (jobs : List RenderJob) (job : RenderJob) (w : World R) where
    abbrev pub submission : Result String × World R
    submission =
        on_resolve
          (R.queue_render_job plan.project_name plan.timeline_name plan.resolve_preset_name
            plan.output_directory plan.output_stem)
          w

    abbrev pub finish : String → World R → Result RenderJob × World R
    finish id =
        attempt (on_db (finalize_render_output_claim job.id id))
          (compensate R P config plan job.id id)

    finish_raises :
        (id : String) (w' : World R) (e : Error) → IsReported e → (finish id w').0 ≢ err e
    finish_raises id w' e reported h =
        let done = on_db (finalize_render_output_claim job.id id) w' in
        let handler = compensate R P config plan job.id id in
        elim (Result-cases done.0) [
          | inr (j, returns) ↦ cc (returns, rw (after_error-ok handler done j returns) at h)
          | inl (x, raises) ↦
              compensate_raises plan job.id id x done.1 e reported
                (rw (after_error-err handler done x raises) at h)
        ]

    pub submit_accepted :
        (id : String)
        → submission.0 ≡ ok id
        → submit_claim R P config plan job.id w ≡ finish id submission.1
    unfolding submit_claim
    submit_accepted id accepted =
        rw (after_error-ok (withdraw_claim R P config job.id) submission id accepted)
          (after_ok-ok finish submission id accepted)

    pub submit_refused :
        (exc : Error)
        → submission.0 ≡ err exc
        → submit_claim R P config plan job.id w
          ≡ after_ok (withdraw_claim R P config job.id exc submission.1) finish
    unfolding submit_claim
    submit_refused exc refused =
        rw (after_error-err (withdraw_claim R P config job.id) submission exc refused)

    submit_restores :
        (e : Error)
        → count (has_job_id job.id) jobs ≡ 0
        → job.status ≡ claiming
        → w.db.tables.render_jobs ≡ jobs ++ job ∷ []
        → IsReported e
        → (submit_claim R P config plan job.id w).0 ≡ err e
        → ((submit_claim R P config plan job.id w).1.db.tables.render_jobs ≡ jobs)
          × ((submit_claim R P config plan job.id w).1.db.tables.episodes ≡ w.db.tables.episodes)
    unfolding on_resolve
    submit_restores e fresh waits rows reported h = elim (Result-cases submission.0) [
      | inr (id, accepted) ↦
          absurd (finish_raises id submission.1 e reported (rw (submit_accepted id accepted) at h))
      | inl (exc, refused) ↦
          let tried = withdraw_claim R P config job.id exc submission.1 in
          elim (Result-cases tried.0) [
            | inr (id, returns) ↦ absurd (withdraw_never_returns job.id exc submission.1 id returns)
            | inl (x, raises) ↦
                let same = submit_refused exc refused ∙ after_ok-err finish tried x raises in
                let same_error : x ≡ e = cc (rw same at h) in
                rw same (
                  withdraw_restores jobs job exc submission.1 e fresh waits rows reported
                    (raises ∙ ap err same_error))
          ]
    ]

  module _ (episode_id preset_name : String) (w : World R) where
    abbrev queue : Result RenderJob × World R
    queue = queue_render R P config episode_id preset_name w

    abbrev prepared : Result RenderOutputPlan × World R
    prepared = prepare_render R P config episode_id preset_name w

    abbrev claiming_of : RenderOutputPlan → World R → Result (Option RenderJob) × World R
    claiming_of plan = on_db (
        claim_render_output episode_id preset_name plan.project_name plan.timeline_name
          plan.output_path)

    -- `queue_render` after its claim.
    abbrev after_claim : RenderOutputPlan → Option RenderJob → World R → Result RenderJob × World R
    after_claim plan row =
        or_raise render_output_collision row >>= λ claim. submit_claim R P config plan claim.id

    abbrev after_prepare : RenderOutputPlan → World R → Result RenderJob × World R
    after_prepare plan = claiming_of plan >>= after_claim plan

    abbrev Untouched : World R → Type 0
    Untouched w' =
        (w'.db.tables.render_jobs ≡ w.db.tables.render_jobs)
        × (w'.db.tables.episodes ≡ w.db.tables.episodes)

    module _ (plan : RenderOutputPlan) (w' : World R) (same : w'.db.tables ≡ w.db.tables)
        (fresh : (i : ℕ)
          → w.db.tables.last_render_job < i
          → count (has_job_id i) w.db.tables.render_jobs ≡ 0)
        (e : Error) (reported : IsReported e) where
      abbrev fresh_now :
          (i : ℕ)
          → w'.db.tables.last_render_job < i
          → count (has_job_id i) w'.db.tables.render_jobs ≡ 0
      fresh_now = rw same fresh

      after_claim-Untouched :
          (row : Option RenderJob)
          → (claiming_of plan w').0 ≡ ok row
          → (after_claim plan row (claiming_of plan w').1).0 ≡ err e
          → Untouched (after_claim plan row (claiming_of plan w').1).1
      unfolding on_db
      after_claim-Untouched none refused h =
          let kept =
            claim_refused episode_id preset_name plan.project_name plan.timeline_name
              plan.output_path w'.db fresh_now refused
            ∙ same in
          (ap (λ (t : Tables). t.render_jobs) kept, ap (λ (t : Tables). t.episodes) kept)
      after_claim-Untouched (some job) granted h =
          let claim =
            claim_granted episode_id preset_name plan.project_name plan.timeline_name
              plan.output_path w'.db fresh_now job granted in
          let restored =
            submit_restores plan w'.db.tables.render_jobs job (claiming_of plan w').1 e
              (rw claim.row (fresh_now (suc w'.db.tables.last_render_job) (omega arith)))
              (ap (λ (j : RenderJob). j.status) claim.row) (claim.render_jobs ∙ rw claim.row refl)
              reported h in
          (
            restored.0 ∙ ap (λ (t : Tables). t.render_jobs) same,
            restored.1 ∙ claim.episodes ∙ ap (λ (t : Tables). t.episodes) same,
          )

      after_prepare-Untouched :
          (after_prepare plan w').0 ≡ err e → Untouched (after_prepare plan w').1
      unfolding on_db
      after_prepare-Untouched h = elim (Result-cases (claiming_of plan w').0) [
        | inl (x, raises) ↦
            let stops = after_ok-err (after_claim plan) (claiming_of plan w') x raises in
            let same_error : x ≡ e = cc (rw stops at h) in
            let kept =
              claim_raises episode_id preset_name plan.project_name plan.timeline_name
                plan.output_path w'.db fresh_now x raises (rw same_error reported.not_sqlite)
              ∙ same in
            rw stops (ap (λ (t : Tables). t.render_jobs) kept, ap (λ (t : Tables). t.episodes) kept)
        | inr (row, passes) ↦
            let goes = after_ok-ok (after_claim plan) (claiming_of plan w') row passes in
            rw goes (after_claim-Untouched row passes (rw goes at h))
      ]

    -- From tables whose job ids stay below their counter: if `queue_render` raises, and neither with
    -- an error of SQLite nor with one that reports a failed persistence or a needed
    -- reconciliation, then the render jobs and the episodes are what they were. No claim is left.
    pub queue_render_leaves_no_claim :
        (e : Error)
        → ((i : ℕ)
            → w.db.tables.last_render_job < i
            → count (has_job_id i) w.db.tables.render_jobs ≡ 0)
        → IsReported e
        → queue.0 ≡ err e
        → Untouched queue.1
    unfolding queue_render
    queue_render_leaves_no_claim e fresh reported h = elim (Result-cases prepared.0) [
      | inl (x, raises) ↦
          let kept = (prepare_render-Stays R P config episode_id preset_name).at w in
          rw (after_ok-err after_prepare prepared x raises)
            (ap (λ (t : Tables). t.render_jobs) kept, ap (λ (t : Tables). t.episodes) kept)
      | inr (plan, passes) ↦ rw (after_ok-ok after_prepare prepared plan passes) (
          after_prepare-Untouched plan prepared.1
            ((prepare_render-Stays R P config episode_id preset_name).at w) fresh e reported
            (rw (after_ok-ok after_prepare prepared plan passes) at h))
    ]

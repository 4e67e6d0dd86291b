-- ===== src/Render/Manager/Accepted.antt =====
-- `queue_render`: what a request that returns has done.
use redline_os.Prelude.{
  ◌∙◌, ap, ℕ, suc, ◌<◌, ◌≤◌, String, ◌≡◌, ◌≢◌, refl, sym, inl, inr, Option, none, some, List, [],
  ◌∷◌, ◌++◌, count, find, update, arith, nat_eq, ==_refl,
}
use redline_os.Prelude.Counting.{count-append, find-append}
use redline_os.Errors.{Error, render_output_collision}
use redline_os.Exec.{
  Result, ok, Result-cases, after_ok-ok, after_ok-err, after_error-ok, after_error-err, or_raise,
  ◌>>=◌,
}
use redline_os.Store.Rows.{RenderJob, queued, Episode, render_queued, Tables}
use redline_os.Store.Sql.{Db}
use redline_os.Store.Episodes.{has_episode_id}
use redline_os.Store.RenderJobs.{has_job_id, claim_render_output, finalize_render_output_claim}
use redline_os.Store.RenderJobs.Finalize.{finalize_atomic, IsFinalized}
use redline_os.Render.World.{Resolve, Platform, World, on_db, on_resolve}
use redline_os.Render.Plan.{RenderOutputPlan}
use redline_os.Render.Manager.{
  RenderConfig, withdraw_claim, compensate, submit_claim, prepare_render, queue_render,
}
use redline_os.Render.Manager.Reads.{prepare_render-Stays}
use redline_os.Render.Manager.Claiming.{claim_granted}
use redline_os.Render.Manager.Queue.{
  submission, finish, withdraw_never_returns, submit_accepted, submit_refused,
}

module _ (R : Resolve) (P : Platform) (config : RenderConfig) where
  compensate_never_returns :
      (plan : RenderOutputPlan) (claim_id : ℕ) (id : String) (exc : Error) (w : World R)
      (j : RenderJob)
      → (compensate R P config plan claim_id id exc w).0 ≢ ok j
  unfolding compensate
  compensate_never_returns plan claim_id id exc w j h = ground arith

  module _ (plan : RenderOutputPlan) (jobs : List RenderJob) (job : RenderJob) (w : World R) where
    -- The claim has become a queued job under Resolve's id, and its episode is queued.
    pub record IsAccepted (j : RenderJob) (w' : World R) : Type 0 where
      pub resolve_job_id : String
      pub returned : j ≡ record job {
        resolve_job_id = some resolve_job_id;
        status = queued;
        updated_at = w.db.now;
      }
      pub row : find (has_job_id job.id) w'.db.tables.render_jobs ≡ some j
      pub episodes :
          w'.db.tables.episodes
          ≡ update
              (has_episode_id job.episode_id)
              (λ e. record e { status = render_queued; updated_at = w.db.now })
              w.db.tables.episodes

    module _ (fresh : count (has_job_id job.id) jobs ≡ 0)
        (rows : w.db.tables.render_jobs ≡ jobs ++ job ∷ []) (j : RenderJob) where
      unique : count (has_job_id job.id) w.db.tables.render_jobs ≤ 1
      unfolding count
      unique = rw rows (ground (arith, count-append (has_job_id job.id) jobs job))

      found_claim : find (has_job_id job.id) w.db.tables.render_jobs ≡ some job
      found_claim = rw rows (find-append (has_job_id job.id) jobs job fresh (==_refl job.id))

      finalized_claim :
          (id : String) (j' : RenderJob) (db' : Db)
          → (j' ≡ job)
          → j ≡ record j' { resolve_job_id = some id; status = queued; updated_at = w.db.now }
          → IsFinalized job.id id w.db j' db'
          → (state : R.State) → IsAccepted j (record { db = db'; resolve = state })
      finalized_claim id j' db' same returned done state = record {
        resolve_job_id = id;
        returned = rw (← same) returned;
        row = done.row ∙ ap some (sym returned);
        episodes = rw (← same) done.episodes;
      }

      finish_accepts :
          (id : String) (state : R.State)
          → (finish R P config plan jobs job w id (record w { resolve = state })).0 ≡ ok j
          → IsAccepted j (finish R P config plan jobs job w id (record w { resolve = state })).1
      unfolding on_db
      finish_accepts id state h =
          let handler = compensate R P config plan job.id id in
          let done =
            on_db (finalize_render_output_claim job.id id) (record w { resolve = state }) in
          elim (Result-cases done.0) [
            | inl (x, raises) ↦ absurd (
                compensate_never_returns plan job.id id x done.1 j
                  (rw (after_error-err handler done x raises) at h))
            | inr (a, returns) ↦
                let same = after_error-ok handler done a returns in
                let mine : done.0 ≡ ok j = rw same at h in
                rw same (elim (finalize_atomic job.id id w.db unique) [
                  | inl (e, raises, kept) ↦ absurd (cc (raises, mine))
                  | inr (j', here, result, finalized) ↦
                      let is_job : j' ≡ job = cc (here, found_claim) in
                      let is_result : j ≡ record j' {
                        resolve_job_id = some id;
                        status = queued;
                        updated_at = w.db.now;
                      } =
                        cc (result, mine) in
                      finalized_claim id j' (finalize_render_output_claim job.id id w.db).1 is_job
                        is_result finalized state
                ])
          ]

      submit_accepts :
          (submit_claim R P config plan job.id w).0 ≡ ok j
          → IsAccepted j (submit_claim R P config plan job.id w).1
      unfolding on_resolve
      submit_accepts h =
          let sent = submission R P config plan jobs job w in
          elim (Result-cases sent.0) [
            | inr (id, accepted) ↦
                let same = submit_accepted R P config plan jobs job w id accepted in
                rw same (finish_accepts id sent.1.resolve (rw same at h))
            | inl (exc, refused) ↦
                let tried = withdraw_claim R P config job.id exc sent.1 in
                let same = submit_refused R P config plan jobs job w exc refused in
                elim (Result-cases tried.0) [
                  | inr (id, returns) ↦
                      absurd (withdraw_never_returns R P config job.id exc sent.1 id returns)
                  | inl (x, raises) ↦ absurd (
                      ground (
                        arith,
                        same ∙ after_ok-err (finish R P config plan jobs job w) tried x raises,
                      ))
                ]
          ]

  module _ (episode_id preset_name : String) (w : World R) where
    abbrev queue : Result RenderJob × World R
    queue = queue_render R P config episode_id preset_name w

    abbrev prepared : Result RenderOutputPlan × World R
    prepared = prepare_render R P config episode_id preset_name w

    -- A new row for the plan's output is there, queued, and its episode is queued too.
    pub record IsQueued (j : RenderJob) (w' : World R) : Type 0 where
      pub plan : RenderOutputPlan
      pub planned : (prepare_render R P config episode_id preset_name w).0 ≡ ok plan
      pub new_id : j.id ≡ suc w.db.tables.last_render_job
      pub status : j.status ≡ queued
      pub episode : j.episode_id ≡ episode_id
      pub output : j.output_path ≡ some plan.output_path
      pub row : find (has_job_id j.id) w'.db.tables.render_jobs ≡ some j
      pub time : String
      pub episodes :
          w'.db.tables.episodes
          ≡ update
              (has_episode_id episode_id)
              (λ e. record e { status = render_queued; updated_at = time })
              w.db.tables.episodes

    abbrev claiming_of : RenderOutputPlan → World R → Result (Option RenderJob) × World R
    claiming_of plan = on_db (
        claim_render_output episode_id preset_name plan.project_name plan.timeline_name
          plan.output_path)

    abbrev after_claim : RenderOutputPlan → Option RenderJob → World R → Result RenderJob × World R
    after_claim plan row =
        or_raise render_output_collision row >>= λ claim. submit_claim R P config plan claim.id

    abbrev after_prepare : RenderOutputPlan → World R → Result RenderJob × World R
    after_prepare plan = claiming_of plan >>= after_claim plan

    module _ (plan : RenderOutputPlan) (planned : prepared.0 ≡ ok plan) (w' : World R)
        (same : w'.db.tables ≡ w.db.tables)
        (fresh : (i : ℕ)
          → w.db.tables.last_render_job < i
          → count (has_job_id i) w.db.tables.render_jobs ≡ 0)
        (j : RenderJob) where
      abbrev fresh_now :
          (i : ℕ)
          → w'.db.tables.last_render_job < i
          → count (has_job_id i) w'.db.tables.render_jobs ≡ 0
      fresh_now = rw same fresh

      after_claim-IsQueued :
          (job : RenderJob)
          → (claiming_of plan w').0 ≡ ok (some job)
          → (after_claim plan (some job) (claiming_of plan w').1).0 ≡ ok j
          → IsQueued j (after_claim plan (some job) (claiming_of plan w').1).1
      unfolding on_db
      after_claim-IsQueued job granted h =
          let claim =
            claim_granted episode_id preset_name plan.project_name plan.timeline_name
              plan.output_path w'.db fresh_now job granted in
          let accepted =
            submit_accepts plan w'.db.tables.render_jobs job (claiming_of plan w').1
              (rw claim.row (fresh_now (suc w'.db.tables.last_render_job) (omega arith)))
              (claim.render_jobs ∙ rw claim.row refl) j h in
          let queue_now : Episode → Episode =
            λ e. record e { status = render_queued; updated_at = (claiming_of plan w').1.db.now } in
          record {
            plan = plan;
            planned = planned;
            new_id =
                ap (λ (k : RenderJob). k.id) accepted.returned
                ∙ ap (λ (k : RenderJob). k.id) claim.row
                ∙ ap (λ (t : Tables). suc t.last_render_job) same;
            status = ap (λ (k : RenderJob). k.status) accepted.returned;
            episode =
                ap (λ (k : RenderJob). k.episode_id) accepted.returned
                ∙ ap (λ (k : RenderJob). k.episode_id) claim.row;
            output =
                ap (λ (k : RenderJob). k.output_path) accepted.returned
                ∙ ap (λ (k : RenderJob). k.output_path) claim.row;
            row =
                ap
                  (λ (i : ℕ).
                    find (has_job_id i)
                      (after_claim plan (some job) (claiming_of plan w').1).1.db.tables.render_jobs)
                  (ap (λ (k : RenderJob). k.id) accepted.returned)
                ∙ accepted.row;
            time = (claiming_of plan w').1.db.now;
            episodes =
                accepted.episodes
                ∙ ap (update (has_episode_id job.episode_id) queue_now)
                    (claim.episodes ∙ ap (λ (t : Tables). t.episodes) same)
                ∙ ap (λ (k : String). update (has_episode_id k) queue_now w.db.tables.episodes)
                    (ap (λ (k : RenderJob). k.episode_id) claim.row);
          }

      after_prepare-IsQueued :
          (after_prepare plan w').0 ≡ ok j → IsQueued j (after_prepare plan w').1
      unfolding on_db
      after_prepare-IsQueued h = elim (Result-cases (claiming_of plan w').0) [
        | inl (x, raises) ↦
            absurd (ground (arith, after_ok-err (after_claim plan) (claiming_of plan w') x raises))
        | inr (none, passes) ↦
            absurd
              (ground (arith, after_ok-ok (after_claim plan) (claiming_of plan w') none passes))
        | inr (some job, passes) ↦
            let goes = after_ok-ok (after_claim plan) (claiming_of plan w') (some job) passes in
            rw goes (after_claim-IsQueued job passes (rw goes at h))
      ]

    -- From tables whose job ids stay below their counter: if `queue_render` returns a job, then it
    -- is a new row, queued for the episode and for the output path of the plan that was made, and
    -- the episode has become render_queued; no other episode has changed.
    pub queue_render-IsQueued :
        (j : RenderJob)
        → ((i : ℕ)
            → w.db.tables.last_render_job < i
            → count (has_job_id i) w.db.tables.render_jobs ≡ 0)
        → queue.0 ≡ ok j
        → IsQueued j queue.1
    unfolding queue_render
    queue_render-IsQueued j fresh h = elim (Result-cases prepared.0) [
      | inl (x, raises) ↦ absurd (ground (arith, after_ok-err after_prepare prepared x raises))
      | inr (plan, passes) ↦
          let goes = after_ok-ok after_prepare prepared plan passes in
          rw goes (
            after_prepare-IsQueued plan passes prepared.1
              ((prepare_render-Stays R P config episode_id preset_name).at w) fresh j
              (rw goes at h))
    ]

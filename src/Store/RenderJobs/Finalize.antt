-- ===== src/Store/RenderJobs/Finalize.antt =====
-- A claim becomes a queued job in one transaction with its episode's status.
use redline_os.Prelude.{
  ap, ◌∙◌, ◌≢◌, ℕ, ◌≤◌, String, Bool, true, ◌≡◌, refl, ◌⊎◌, inl, inr, Option, none, some, [], ◌==◌,
  string_eq, nat_eq, option_eq, find, count, update, arith,
}
use redline_os.Prelude.Counting.{find-update, count_of_unique, count-update}
use redline_os.Errors.{Error}
use redline_os.Exec.{Result, ok, err, Result-cases}
use redline_os.Store.Rows.{
  claiming, queued, RenderJob, Episode, render_queued, render_job_status_eq,
}
use redline_os.Store.Sql.{Db, query, execute, with_now, transaction}
use redline_os.Store.Sql.Laws.{transaction_rollback}
use redline_os.Store.Episodes.{has_episode_id}
use redline_os.Store.RenderJobs.{
  occupies, has_job_id, is_claim, has_unique_outputs, finalize_render_output_claim, finalize_body,
}
use redline_os.Store.RenderJobs.Outputs.{has_unique_outputs_of_count}

module _ (claim_id : ℕ) (resolve_job_id : String) (db : Db) where
  abbrev pub finalized : RenderJob → RenderJob
  finalized j = record j {
    resolve_job_id = some resolve_job_id;
    status = queued;
    updated_at = db.now;
  }

  abbrev is_claiming : RenderJob → Bool
  is_claiming j = j.status == claiming

  abbrev pub job_in : Db → Option RenderJob
  job_in d = find (has_job_id claim_id) d.tables.render_jobs

  abbrev pub queued_episode : Episode → Episode
  queued_episode e = record e { status = render_queued; updated_at = db.now }

  index_accepts :
      ((path : String) → count (occupies path) db.tables.render_jobs ≤ 1)
      → has_unique_outputs (update (is_claim claim_id) finalized db.tables.render_jobs) ≡ true
  index_accepts outputs = has_unique_outputs_of_count _ (λ path.
      rw
        (count-update (is_claim claim_id) (occupies path) finalized (λ j h. ground arith)
          db.tables.render_jobs)
        (outputs path))

  -- What a finalized claim has become: its row, and the status of its episode.
  pub record IsFinalized (j : RenderJob) (db' : Db) : Type 0 where
    pub was_claiming : j.status ≡ claiming
    pub row : job_in db' ≡ some (finalized j)
    pub episodes :
        db'.tables.episodes ≡ update (has_episode_id j.episode_id) queued_episode db.tables.episodes

  abbrev finalize : Result RenderJob × Db
  finalize = finalize_render_output_claim claim_id resolve_job_id db

  module _ (unique : count (has_job_id claim_id) db.tables.render_jobs ≤ 1) (a : RenderJob)
      (returns : finalize.0 ≡ ok a) where
    returned_job : (j : RenderJob) → job_in db ≡ some j → (j.status ≡ claiming) × (a ≡ finalized j)
    unfolding finalize_render_output_claim transaction with_now execute query
    returned_job j here =
        let p = has_job_id claim_id in
        let jobs = db.tables.render_jobs in
        let rows = count_of_unique p is_claiming jobs unique in
        let found = find-update p is_claiming finalized (λ j. refl) jobs in
        (ground (arith, rows, found), ground (arith, rows, found))

    returned_tables : (j : RenderJob) → job_in db ≡ some j → IsFinalized j finalize.1
    unfolding finalize_render_output_claim transaction with_now execute query
    returned_tables j here =
        let p = has_job_id claim_id in
        let jobs = db.tables.render_jobs in
        let rows = count_of_unique p is_claiming jobs unique in
        let found = find-update p is_claiming finalized (λ j. refl) jobs in
        record {
          was_claiming = ground (arith, rows, found);
          row = ground (arith, rows, found);
          episodes = ground (arith, rows, found);
        }

    not_absent : job_in db ≢ none
    unfolding finalize_render_output_claim transaction with_now execute query
    not_absent absent =
        ground
          (arith, count_of_unique (has_job_id claim_id) is_claiming db.tables.render_jobs unique)

    returned :
        (o : Option RenderJob)
        → job_in db ≡ o
        → (j : RenderJob) × (job_in db ≡ some j)
          × (finalize.0 ≡ ok (finalized j))
          × IsFinalized j finalize.1
    returned none absent = absurd (not_absent absent)
    returned (some j) here =
        (j, here, returns ∙ ap ok (returned_job j here).1, returned_tables j here)

  -- On tables with unique job ids, and whatever statement of SQLite fails, finalizing a claim
  -- either raises and leaves all tables as they were; or it returns the job with this id, which
  -- was claiming, as a queued job with its Resolve id, and the job's row and the status of its
  -- episode, render_queued, are written too.
  pub finalize_atomic :
      count (has_job_id claim_id) db.tables.render_jobs ≤ 1
      → ((e : Error) × (finalize.0 ≡ err e) × (finalize.1.tables ≡ db.tables))
        ⊎ ((j : RenderJob) × (job_in db ≡ some j)
            × (finalize.0 ≡ ok (finalized j))
            × IsFinalized j finalize.1)
  unfolding finalize_render_output_claim
  finalize_atomic unique = elim (Result-cases finalize.0) [
    | inl (e, raises) ↦
        inl (e, raises, transaction_rollback (finalize_body claim_id resolve_job_id) db e raises)
    | inr (a, returns) ↦ inr (returned unique a returns (job_in db) refl)
  ]

  -- Without faults of SQLite, on tables with unique ids and active output paths, a claim whose
  -- episode is there is finalized.
  pub finalize_succeeds :
      (j : RenderJob)
      → count (has_job_id claim_id) db.tables.render_jobs ≤ 1
      → ((path : String) → count (occupies path) db.tables.render_jobs ≤ 1)
      → count (has_episode_id j.episode_id) db.tables.episodes ≡ 1
      → db.faults ≡ []
      → job_in db ≡ some j
      → j.status ≡ claiming
      → (finalize_render_output_claim claim_id resolve_job_id db).0 ≡ ok (finalized j)
  unfolding finalize_render_output_claim transaction with_now execute query
  finalize_succeeds j unique outputs known quiet here waits =
      let p = has_job_id claim_id in
      let jobs = db.tables.render_jobs in
      let rows = count_of_unique p is_claiming jobs unique in
      let found = find-update p is_claiming finalized (λ j. refl) jobs in
      let index = index_accepts outputs in ground (arith, rows, found, index)

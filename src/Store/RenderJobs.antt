-- ===== src/Store/RenderJobs.antt =====
-- The render job methods of `Database` in db/database.py.
pub mod Outputs
pub mod Finalize
pub mod Lifecycle
use redline_os.Prelude.{
  ℕ, suc, String, Bool, true, false, ◌&&◌, ◌||◌, not, Option, none, some, List, [], ◌∷◌, ◌++◌, ◌==◌,
  string_eq, nat_eq, option_eq, find, select, any, count, update, if◌then◌else◌,
}
use redline_os.Errors.{Error, integrity_error, output_path_unique_error, runtime_error}
use redline_os.Exec.{Result, ok, err, Exec, pure, require, or_raise, attempt, after_ok, ◌>>=◌, ◌>>◌}
use redline_os.Store.Rows.{
  RenderJobStatus, claiming, queued, rendering, complete, failed, cancelled, EpisodeStatus,
  render_queued, RenderJob, Tables, render_job_status_eq,
}
use redline_os.Store.Sql.{Db, query, execute, with_now, transaction}
use redline_os.Store.Episodes.{has_episode_id, update_episodes}

-- `_ACTIVE_RENDER_OUTPUT_STATUSES`
abbrev pub is_active : RenderJobStatus → Bool
is_active claiming = true
is_active queued = true
is_active rendering = true
is_active _ = false

-- The row is in the partial index idx_render_jobs_active_output_path, under this key.
abbrev pub occupies : String → RenderJob → Bool
occupies path j = j.output_path == some path && is_active j.status

-- The index holds a row under the key of `j`.
abbrev pub is_taken : RenderJob → List RenderJob → Bool
is_taken j jobs = elim j.output_path [
  | none ↦ false
  | some path ↦ is_active j.status && any (occupies path) jobs
]

-- The UNIQUE index accepts the rows.
unfoldable pub has_unique_outputs : List RenderJob → Bool
has_unique_outputs [] = true
has_unique_outputs (j ∷ jobs) = not (is_taken j jobs) && has_unique_outputs jobs

abbrev pub new_job :
    ℕ
    → String
    → String
    → Option String
    → Option String
    → Option String
    → RenderJobStatus
    → Option String
    → String
    → RenderJob
new_job id episode_id preset resolve_job_id project timeline status output_path now = record {
  id = id;
  episode_id = episode_id;
  preset_name = preset;
  resolve_job_id = resolve_job_id;
  project_name = project;
  timeline_name = timeline;
  status = status;
  output_path = output_path;
  created_at = now;
  updated_at = now;
}

-- INSERT INTO render_jobs. A failed UNIQUE index is raised before the foreign key is looked at.
unfoldable pub insert_render_job :
    String
    → String
    → Option String
    → Option String
    → Option String
    → RenderJobStatus
    → Option String
    → String
    → Tables
    → Result (ℕ × Tables)
insert_render_job episode_id preset resolve_job_id project timeline status output_path now t =
    let id = suc t.last_render_job in
    let job = new_job id episode_id preset resolve_job_id project timeline status output_path now in
    if is_taken job t.render_jobs
    then err output_path_unique_error
    else if any (has_episode_id episode_id) t.episodes
    then ok (id, record t { render_jobs = t.render_jobs ++ job ∷ []; last_render_job = id })
    else err integrity_error

-- UPDATE render_jobs, under the UNIQUE index.
unfoldable pub update_render_jobs :
    (RenderJob → Bool) → (RenderJob → RenderJob) → Tables → Result (ℕ × Tables)
update_render_jobs p f t =
    let jobs = update p f t.render_jobs in
    if has_unique_outputs jobs
    then ok (count p t.render_jobs, record t { render_jobs = jobs })
    else err output_path_unique_error

abbrev pub has_job_id : ℕ → RenderJob → Bool
has_job_id id j = j.id == id

unfoldable pub get_render_job_by_id : ℕ → Exec Db (Option RenderJob)
get_render_job_by_id job_id = query (λ t. find (has_job_id job_id) t.render_jobs)

-- Rows are stored in the order of their ids, so ORDER BY id keeps their order.
unfoldable pub list_render_jobs_for_episode : String → Exec Db (List RenderJob)
list_render_jobs_for_episode episode_id =
    query (λ t. select (λ j. j.episode_id == episode_id) t.render_jobs)

unfoldable pub get_active_render_job_by_output_path : String → Exec Db (Option RenderJob)
get_active_render_job_by_output_path path = query (λ t. find (occupies path) t.render_jobs)

unfoldable pub create_render_job :
    String
    → String
    → Option String
    → Option String
    → Option String
    → Option String
    → RenderJobStatus
    → Exec Db (Option RenderJob)
unfolding insert_render_job get_render_job_by_id
create_render_job episode_id preset resolve_job_id project timeline output_path status =
    with_now λ now. do
      id ← execute (
          insert_render_job episode_id preset resolve_job_id project timeline status output_path
            now)
      get_render_job_by_id id

unfoldable pub mark_episode_render_queued : String → Exec Db (Unit {0})
unfolding update_episodes
mark_episode_render_queued episode_id = with_now λ now. do
  rows ← execute (
      update_episodes (has_episode_id episode_id)
        (λ e. record e { status = render_queued; updated_at = now }))
  require (rows == 1) runtime_error

create_accepted_body : String → String → String → String → String → String → Exec Db RenderJob
unfolding insert_render_job get_render_job_by_id mark_episode_render_queued
create_accepted_body episode_id preset resolve_job_id project timeline output_path = with_now λ now.
    do
      id ← execute (
          insert_render_job episode_id preset (some resolve_job_id) (some project) (some timeline)
            queued (some output_path) now)
      mark_episode_render_queued episode_id
      row ← get_render_job_by_id id
      or_raise runtime_error row

unfoldable pub create_accepted_render_job :
    String → String → String → String → String → String → Exec Db RenderJob
unfolding create_accepted_body transaction
create_accepted_render_job episode_id preset resolve_job_id project timeline output_path =
    transaction (create_accepted_body episode_id preset resolve_job_id project timeline output_path)

-- `except sqlite3.IntegrityError`, and its test of the message.
abbrev pub none_if_taken : Error → Exec Db (Option ℕ)
none_if_taken output_path_unique_error db = (ok none, db)
none_if_taken e db = (err e, db)

insert_claim : String → String → String → String → String → Exec Db (Option ℕ)
unfolding insert_render_job
insert_claim episode_id preset project timeline output_path = with_now λ now. do
  id ← execute (
      insert_render_job episode_id preset none (some project) (some timeline) claiming
        (some output_path) now)
  pure (some id)

unfoldable pub claimed_row : Option ℕ → Exec Db (Option RenderJob)
unfolding get_render_job_by_id
claimed_row none = pure none
claimed_row (some id) = get_render_job_by_id id

unfoldable pub claim_render_output :
    String → String → String → String → String → Exec Db (Option RenderJob)
unfolding insert_claim claimed_row
claim_render_output episode_id preset project timeline output_path = with_now λ now. do
  id ← attempt (insert_claim episode_id preset project timeline output_path) none_if_taken
  claimed_row id

abbrev pub is_claim : ℕ → RenderJob → Bool
is_claim claim_id j = has_job_id claim_id j && (j.status == claiming)

finalize_body : ℕ → String → Exec Db RenderJob
unfolding update_render_jobs get_render_job_by_id mark_episode_render_queued
finalize_body claim_id resolve_job_id = with_now λ now. do
  rows ← execute (
      update_render_jobs (is_claim claim_id)
        (λ j. record j { resolve_job_id = some resolve_job_id; status = queued; updated_at = now }))
  require (rows == 1) runtime_error
  row ← get_render_job_by_id claim_id
  job ← or_raise runtime_error row
  mark_episode_render_queued job.episode_id
  pure job

unfoldable pub finalize_render_output_claim : ℕ → String → Exec Db RenderJob
unfolding finalize_body transaction
finalize_render_output_claim claim_id resolve_job_id =
    transaction (finalize_body claim_id resolve_job_id)

-- DELETE FROM render_jobs.
unfoldable pub delete_render_jobs : (RenderJob → Bool) → Tables → Result (ℕ × Tables)
delete_render_jobs p t =
    ok (count p t.render_jobs, record t { render_jobs = select (λ j. not (p j)) t.render_jobs })

unfoldable pub release_render_output_claim : ℕ → Exec Db (Unit {0})
unfolding delete_render_jobs
release_render_output_claim claim_id = do
  rows ← execute (delete_render_jobs (is_claim claim_id))
  require (rows == 1) runtime_error

transition_body : ℕ → Exec Db ℕ
unfolding update_render_jobs
transition_body job_id = with_now λ now. execute (
    update_render_jobs (λ j. has_job_id job_id j && (j.status == queued))
      (λ j. record j { status = rendering; updated_at = now }))

unfoldable pub transition_render_job_to_rendering : ℕ → Exec Db Bool
unfolding transition_body transaction
transition_render_job_to_rendering job_id = do
  rows ← transaction (transition_body job_id)
  pure (rows == 1)

abbrev given {ℓ} : {A : Type ℓ} → Option A → A → A
given none old = old
given (some new) old = new

abbrev given_text : Option String → Option String → Option String
given_text none old = old
given_text (some new) old = some new

unfoldable pub update_render_job :
    ℕ → Option String → Option RenderJobStatus → Option String → Exec Db (Unit {0})
unfolding update_render_jobs
update_render_job job_id none none none = pure tt
update_render_job job_id resolve_job_id status output_path = with_now λ now. do
  execute (
      update_render_jobs (has_job_id job_id) (λ j. record j {
        resolve_job_id = given_text resolve_job_id j.resolve_job_id;
        status = given status j.status;
        output_path = given_text output_path j.output_path;
        updated_at = now;
      }))
  pure tt

-- ===== src/Tests/Stores.antt =====
-- The theorems on the store, at concrete inputs.
use redline_os.Prelude.{
  true, false, ◌≡◌, ◌≢◌, refl, ◌⊎◌, none, some, [], ◌∷◌, count, find, update, any, string_eq,
  nat_eq, option_eq,
}
use redline_os.Prelude.Text.{is_blank, count_chars, all_chars, is_lower_hex}
use redline_os.Errors.{Error}
use redline_os.Exec.{ok, err}
use redline_os.Store.Rows.{
  timeline_built, rendered, assembled, claiming, queued, complete, RenderJob, Tables,
  episode_status_eq, render_job_status_eq,
}
use redline_os.Store.Sql.{Db, with_now, execute, query}
use redline_os.Store.Episodes.{
  has_episode_id, set_claim, claim_episode_for_assembly, claim_episode_for_assembly_cas,
  release_assembly_claim,
}
use redline_os.Store.Episodes.Claims.{
  cas_single_claimant, unforced_claim_exact, release_exact, released,
}
use redline_os.Store.RenderJobs.{
  has_job_id, occupies, claim_render_output, finalize_render_output_claim,
  transition_render_job_to_rendering,
}
use redline_os.Store.RenderJobs.Lifecycle.{
  claim_output_exact, transition_exact, claimed_job, started,
}
use redline_os.Store.RenderJobs.Finalize.{
  finalize_atomic, finalize_succeeds, finalized, IsFinalized,
}
use redline_os.Store.Archives.{verified_record, normalize_manifest_sha256, commit_verified_archive}
use redline_os.Store.Archives.Commit.{commit_all_or_nothing, Outcome}
use redline_os.Store.Archives.Digest.{normalize_canonical}
use redline_os.Store.Consistency.{IsConsistent}
use redline_os.Store.History.{
  Call, create_episode_call, claim_output_call, perform, no_rows, start, call,
  Reachable-IsConsistent,
}
use redline_os.Tests.Data.{
  episode_in, job_in, tables_of, db_of, output, commit, upper_digest, lower_digest, one_row,
}

abbrev episode_call : Call
episode_call = create_episode_call 7 "RLC-E7" "RLC-E7"

abbrev claim_call : Call
claim_call = claim_output_call "RLC-E7" "master" "RLC-E7" "RLC-E7_MAIN" output

abbrev with_episode : Tables
with_episode = perform episode_call (db_of no_rows)

Reachable-IsConsistent_example : IsConsistent (perform claim_call (db_of with_episode))
Reachable-IsConsistent_example =
    Reachable-IsConsistent
      (call claim_call (db_of with_episode) (call episode_call (db_of no_rows) start refl) refl)

abbrev built : Db
built = db_of (tables_of (episode_in timeline_built none ∷ []) [])

cas_single_claimant_example :
    (claim_episode_for_assembly_cas "RLC-E7" "b" timeline_built none
      (claim_episode_for_assembly_cas "RLC-E7" "a" timeline_built none built).1).0
    ≢ ok true
unfolding claim_episode_for_assembly_cas string_eq option_eq nat_eq episode_status_eq update count
    with_now execute
cas_single_claimant_example =
    cas_single_claimant "RLC-E7" timeline_built none "a" "b" built
      (claim_episode_for_assembly_cas "RLC-E7" "a" timeline_built none built).1 (cc) refl refl

unforced_claim_exact_example :
    let (r, db') = claim_episode_for_assembly "RLC-E7" "a" false built in
    (r ≡ ok true)
    × (find (has_episode_id "RLC-E7") db'.tables.episodes
        ≡ some (set_claim "a" "t1" (episode_in timeline_built none)))
    × (db'.tables.episodes ≡ set_claim "a" "t1" (episode_in timeline_built none) ∷ [])
unfolding find update string_eq option_eq
unforced_claim_exact_example =
    unforced_claim_exact "RLC-E7" "a" built (one_row _ (episode_in timeline_built none)) refl

abbrev held : Db
held = db_of (tables_of (episode_in timeline_built (some "a") ∷ []) [])

release_exact_example :
    let (r, db') = release_assembly_claim "RLC-E7" "a" assembled held in
    (r ≡ ok tt)
    × (find (has_episode_id "RLC-E7") db'.tables.episodes
        ≡ some (released "RLC-E7" "a" held assembled (episode_in timeline_built (some "a"))))
    × (db'.tables.episodes
        ≡ released "RLC-E7" "a" held assembled (episode_in timeline_built (some "a")) ∷ [])
unfolding find update string_eq option_eq
release_exact_example =
    release_exact "RLC-E7" "a" held assembled (one_row _ (episode_in timeline_built (some "a")))
      refl

claim_output_exact_example :
    let (r, db') = claim_render_output "RLC-E7" "master" "RLC-E7" "RLC-E7_MAIN" output built in
    let row = claimed_job "RLC-E7" "master" "RLC-E7" "RLC-E7_MAIN" output built in
    (r ≡ ok (some row)) × (db'.tables.render_jobs ≡ row ∷ [])
unfolding any string_eq count
claim_output_exact_example =
    claim_output_exact "RLC-E7" "master" "RLC-E7" "RLC-E7_MAIN" output built (λ i lt. refl) refl

abbrev waiting : Db
waiting = db_of (tables_of (episode_in timeline_built none ∷ []) (job_in claiming none ∷ []))

finalize_atomic_example :
    let (r, db') = finalize_render_output_claim 1 "mock-job-1" waiting in
    ((e : Error) × (r ≡ err e) × (db'.tables ≡ waiting.tables))
    ⊎ ((j : RenderJob) × (find (has_job_id 1) waiting.tables.render_jobs ≡ some j)
        × (r ≡ ok (finalized 1 "mock-job-1" waiting j))
        × IsFinalized 1 "mock-job-1" waiting j db')
finalize_atomic_example = finalize_atomic 1 "mock-job-1" waiting (one_row _ (job_in claiming none))

finalize_succeeds_example :
    (finalize_render_output_claim 1 "mock-job-1" waiting).0
    ≡ ok (finalized 1 "mock-job-1" waiting (job_in claiming none))
unfolding find nat_eq count string_eq
finalize_succeeds_example =
    finalize_succeeds 1 "mock-job-1" waiting (job_in claiming none)
      (one_row (has_job_id 1) (job_in claiming none))
      (λ path. one_row (occupies path) (job_in claiming none)) refl refl refl refl

abbrev accepted : Db
accepted =
    db_of (tables_of (episode_in timeline_built none ∷ []) (job_in queued (some "mock-job-1") ∷ []))

transition_exact_example :
    let (r, db') = transition_render_job_to_rendering 1 accepted in
    let row = started 1 accepted (job_in queued (some "mock-job-1")) in
    (r ≡ ok true)
    × (find (has_job_id 1) db'.tables.render_jobs ≡ some row)
    × (db'.tables.render_jobs ≡ row ∷ [])
unfolding find update nat_eq render_job_status_eq
transition_exact_example =
    transition_exact 1 accepted (one_row _ (job_in queued (some "mock-job-1")))
      (λ path. one_row _ (job_in queued (some "mock-job-1"))) refl

abbrev delivered : Db
delivered =
    db_of (tables_of (episode_in rendered none ∷ []) (job_in complete (some "mock-job-1") ∷ []))

commit_all_or_nothing_example :
    Outcome commit delivered.tables "t1" (commit_verified_archive commit delivered)
commit_all_or_nothing_example = commit_all_or_nothing commit delivered

normalize_canonical_example :
    (count_chars lower_digest ≡ 64)
    × (all_chars is_lower_hex lower_digest ≡ true)
    × (normalize_manifest_sha256 lower_digest ≡ ok lower_digest)
unfolding normalize_manifest_sha256 nat_eq
normalize_canonical_example = normalize_canonical upper_digest lower_digest refl

-- The commit that the tests run goes through.
commit_runs :
    (commit_verified_archive commit delivered).1.tables.archives
    ≡ verified_record 1 commit lower_digest "t1" ∷ []
unfolding commit_verified_archive query execute with_now find any update count string_eq nat_eq
    option_eq episode_status_eq render_job_status_eq is_blank
commit_runs = refl

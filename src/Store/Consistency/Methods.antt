-- ===== src/Store/Consistency/Methods.antt =====
-- Every method of `Database` that writes, and the tables that any calls of them can lead to.
use redline_os.Prelude.{ℕ, String, Bool, true, false, refl, Option, none, some}
use redline_os.Errors.{Error, output_path_unique_error, archive_id_unique_error}
use redline_os.Exec.{Result}
use redline_os.Store.Rows.{EpisodeStatus, RenderJobStatus, Episode}
use redline_os.Store.Sql.Keeps.{Keeps, keeps_rules}
use redline_os.Store.Episodes.{
  create_episode, update_episode_status, update_episode_paths, claim_episode_for_assembly,
  claim_episode_for_assembly_cas, release_assembly_claim, claim_observed,
}
use redline_os.Store.RenderJobs.{
  create_render_job, create_accepted_render_job, claim_render_output, finalize_render_output_claim,
  release_render_output_claim, transition_render_job_to_rendering, update_render_job,
  mark_episode_render_queued, none_if_taken, claimed_row,
}
use redline_os.Store.Archives.{
  ArchiveCommit, create_archive_record, check_commit, translate_duplicate, commit_body, lift,
  commit_verified_archive,
}
use redline_os.Store.Consistency.{IsConsistent}
use redline_os.Store.Consistency.Statements.{
  update_episodes-Writes, insert_episode-Writes, SameEpisode-of,
}
use redline_os.Store.Consistency.Rows.{
  update_render_jobs-Writes, insert_render_job-Writes, delete_render_jobs-Writes,
  insert_legacy_archive-Writes, insert_verified_archive-Writes,
}

pub create_episode-Keeps :
    (number : ℕ) (episode_id project_name : String)
    → Keeps IsConsistent (create_episode number episode_id project_name)
unfolding create_episode
create_episode-Keeps number episode_id project_name = search (keeps_rules, insert_episode-Writes)

ruleset episode_rules = (keeps_rules, update_episodes-Writes, SameEpisode-of, refl)

ruleset job_rules =
    (episode_rules, insert_render_job-Writes, update_render_jobs-Writes, delete_render_jobs-Writes)

pub update_episode_status-Keeps :
    (episode_id : String) (status : EpisodeStatus)
    → Keeps IsConsistent (update_episode_status episode_id status)
unfolding update_episode_status
update_episode_status-Keeps episode_id status = search episode_rules

pub update_episode_paths-Keeps :
    (episode_id : String) (project_path folder_path : Option String)
    → Keeps IsConsistent (update_episode_paths episode_id project_path folder_path)
unfolding update_episode_paths
update_episode_paths-Keeps episode_id none none = search episode_rules
update_episode_paths-Keeps episode_id none (some f) = search episode_rules
update_episode_paths-Keeps episode_id (some p) f = search episode_rules

claim_cas-Keeps :
    (episode_id token : String) (status : EpisodeStatus) (observed : Option String)
    → Keeps IsConsistent (claim_episode_for_assembly_cas episode_id token status observed)
unfolding claim_episode_for_assembly_cas
claim_cas-Keeps episode_id token status observed = search episode_rules depth 9

claim_observed-Keeps :
    (episode_id token : String) (row : Option Episode)
    → Keeps IsConsistent (claim_observed episode_id token row)
unfolding claim_observed
claim_observed-Keeps episode_id token none = search episode_rules
claim_observed-Keeps episode_id token (some e) =
    claim_cas-Keeps episode_id token e.status e.assembly_claim_token

pub claim_episode_for_assembly-Keeps :
    (episode_id token : String) (allow_unsafe_retry : Bool)
    → Keeps IsConsistent (claim_episode_for_assembly episode_id token allow_unsafe_retry)
unfolding claim_episode_for_assembly
claim_episode_for_assembly-Keeps episode_id token false = search episode_rules
claim_episode_for_assembly-Keeps episode_id token true = search (keeps_rules, claim_observed-Keeps)

pub release_assembly_claim-Keeps :
    (episode_id token : String) (status : EpisodeStatus)
    → Keeps IsConsistent (release_assembly_claim episode_id token status)
unfolding release_assembly_claim
release_assembly_claim-Keeps episode_id token status = search episode_rules

pub create_render_job-Keeps :
    (episode_id preset : String) (resolve_job_id project timeline output_path : Option String)
    (status : RenderJobStatus)
    → Keeps IsConsistent
        (create_render_job episode_id preset resolve_job_id project timeline output_path status)
unfolding create_render_job
create_render_job-Keeps episode_id preset resolve_job_id project timeline output_path status =
    search job_rules

mark_episode_render_queued-Keeps :
    (episode_id : String) → Keeps IsConsistent (mark_episode_render_queued episode_id)
unfolding mark_episode_render_queued
mark_episode_render_queued-Keeps episode_id = search episode_rules

pub create_accepted_render_job-Keeps :
    (episode_id preset resolve_job_id project timeline output_path : String)
    → Keeps IsConsistent
        (create_accepted_render_job episode_id preset resolve_job_id project timeline output_path)
unfolding create_accepted_render_job
create_accepted_render_job-Keeps episode_id preset resolve_job_id project timeline output_path =
    search (job_rules, mark_episode_render_queued-Keeps) depth 10

none_if_taken-Keeps : (e : Error) → Keeps IsConsistent (none_if_taken e)
none_if_taken-Keeps output_path_unique_error = record { at = λ db h. h }
none_if_taken-Keeps _ = record { at = λ db h. h }

claimed_row-Keeps : (id : Option ℕ) → Keeps IsConsistent (claimed_row id)
unfolding claimed_row
claimed_row-Keeps none = search keeps_rules
claimed_row-Keeps (some id) = search keeps_rules

pub claim_render_output-Keeps :
    (episode_id preset project timeline output_path : String)
    → Keeps IsConsistent (claim_render_output episode_id preset project timeline output_path)
unfolding claim_render_output
claim_render_output-Keeps episode_id preset project timeline output_path =
    search (job_rules, none_if_taken-Keeps, claimed_row-Keeps) depth 10

pub finalize_render_output_claim-Keeps :
    (claim_id : ℕ) (resolve_job_id : String)
    → Keeps IsConsistent (finalize_render_output_claim claim_id resolve_job_id)
unfolding finalize_render_output_claim
finalize_render_output_claim-Keeps claim_id resolve_job_id =
    search (job_rules, mark_episode_render_queued-Keeps) depth 12

pub release_render_output_claim-Keeps :
    (claim_id : ℕ) → Keeps IsConsistent (release_render_output_claim claim_id)
unfolding release_render_output_claim
release_render_output_claim-Keeps claim_id = search job_rules

pub transition_render_job_to_rendering-Keeps :
    (job_id : ℕ) → Keeps IsConsistent (transition_render_job_to_rendering job_id)
unfolding transition_render_job_to_rendering
transition_render_job_to_rendering-Keeps job_id = search job_rules

pub update_render_job-Keeps :
    (job_id : ℕ) (resolve_job_id : Option String) (status : Option RenderJobStatus)
    (output_path : Option String)
    → Keeps IsConsistent (update_render_job job_id resolve_job_id status output_path)
unfolding update_render_job
update_render_job-Keeps job_id none none none = search job_rules
update_render_job-Keeps job_id none none (some path) = search job_rules
update_render_job-Keeps job_id none (some status) path = search job_rules
update_render_job-Keeps job_id (some r) status path = search job_rules

pub create_archive_record-Keeps :
    (episode_id archive_path : String)
    → Keeps IsConsistent (create_archive_record episode_id archive_path)
unfolding create_archive_record
create_archive_record-Keeps episode_id archive_path =
    search (keeps_rules, insert_legacy_archive-Writes)

check_commit-Keeps : (c : ArchiveCommit) → Keeps IsConsistent (check_commit c)
unfolding check_commit
check_commit-Keeps c = search keeps_rules depth 14

translate_duplicate-Keeps : (e : Error) → Keeps IsConsistent (translate_duplicate {A = Option ℕ} e)
translate_duplicate-Keeps archive_id_unique_error = record { at = λ db h. h }
translate_duplicate-Keeps _ = record { at = λ db h. h }

commit_body-Keeps :
    (c : ArchiveCommit) (digest : String) → Keeps IsConsistent (commit_body c digest)
unfolding commit_body
commit_body-Keeps c digest =
    search (episode_rules, insert_verified_archive-Writes, translate_duplicate-Keeps) depth 12

lift-Keeps : (r : Result String) → Keeps IsConsistent (lift r)
lift-Keeps r = record { at = λ db h. h }

pub commit_verified_archive-Keeps :
    (c : ArchiveCommit) → Keeps IsConsistent (commit_verified_archive c)
unfolding commit_verified_archive
commit_verified_archive-Keeps c =
    search (keeps_rules, check_commit-Keeps, commit_body-Keeps, lift-Keeps) depth 8

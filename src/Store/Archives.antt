-- ===== src/Store/Archives.antt =====
-- The archive methods of `Database` in db/database.py.
pub mod Commit
pub mod Digest
use Prim.Native.String.{compare}
use text.Mathlib.Text.{is_le}
use redline_os.Prelude.{
  ℕ, suc, String, Bool, true, false, ◌&&◌, ◌||◌, not, Option, none, some, List, [], ◌∷◌, ◌++◌, ◌==◌,
  string_eq, nat_eq, option_eq, find, is_none, any, count, update, if◌then◌else◌,
}
use redline_os.Prelude.Text.{is_blank, count_chars, is_hex, all_chars, lower_hex, map_chars}
use redline_os.Errors.{Error, integrity_error, archive_id_unique_error, archive_commit_error}
use redline_os.Exec.{
  Result, ok, err, Exec, pure, raise, require, or_raise, attempt, after_ok, ◌>>=◌, ◌>>◌,
}
use redline_os.Store.Rows.{
  EpisodeStatus, rendered, archived, RenderJobStatus, Episode, RenderJob, ArchiveState,
  ArchiveRecord, Tables, episode_status_eq, render_job_status_eq,
}
use redline_os.Store.Sql.{Db, query, execute, with_now, transaction}
use redline_os.Store.Episodes.{has_episode_id, update_episodes, get_episode_by_episode_id}
use redline_os.Store.RenderJobs.{has_job_id, get_render_job_by_id}

abbrev pub is_archive_of : String → ArchiveRecord → Bool
is_archive_of episode_id a = a.episode_id == episode_id

-- `_MANIFEST_SHA256_RE.fullmatch(value)`
unfoldable pub is_sha256 : String → Bool
unfolding count_chars all_chars is_hex
is_sha256 value = count_chars value == 64 && all_chars is_hex value

-- `_normalize_manifest_sha256`
unfoldable pub normalize_manifest_sha256 : String → Result String
unfolding is_sha256 map_chars lower_hex
normalize_manifest_sha256 value =
    if is_sha256 value then ok (map_chars lower_hex value) else err archive_commit_error

unfoldable pub get_archive_by_episode_id : String → Exec Db (Option ArchiveRecord)
get_archive_by_episode_id episode_id = query (λ t. find (is_archive_of episode_id) t.archives)

get_archive_by_id : ℕ → Exec Db (Option ArchiveRecord)
get_archive_by_id id = query (λ t. find (λ a. a.id == id) t.archives)

insert_by_time : ArchiveRecord → List ArchiveRecord → List ArchiveRecord
insert_by_time a [] = a ∷ []
insert_by_time a (x ∷ xs) =
    let rest = insert_by_time a xs in
    if is_le (compare a.archived_at x.archived_at) then a ∷ x ∷ xs else x ∷ rest

order_by_time : List ArchiveRecord → List ArchiveRecord
unfolding insert_by_time
order_by_time [] = []
order_by_time (a ∷ archives) = insert_by_time a (order_by_time archives)

unfoldable pub list_archives : Exec Db (List ArchiveRecord)
unfolding order_by_time
list_archives = query (λ t. order_by_time t.archives)

unfoldable pub legacy_record : ℕ → String → String → String → ArchiveRecord
legacy_record id episode_id archive_path now = record {
  id = id;
  episode_id = episode_id;
  archive_path = archive_path;
  archive_id = none;
  archive_schema_version = 0;
  archive_state = ArchiveState.legacy;
  manifest_path = none;
  manifest_sha256 = none;
  render_job_id = none;
  verified_at = none;
  archived_at = now;
}

unfoldable pub insert_legacy_archive : String → String → String → Tables → Result (ℕ × Tables)
unfolding legacy_record
insert_legacy_archive episode_id archive_path now t =
    let id = suc t.last_archive in
    if not (any (is_archive_of episode_id) t.archives) && any (has_episode_id episode_id) t.episodes
    then ok (
      id,
      record t {
        archives = t.archives ++ legacy_record id episode_id archive_path now ∷ [];
        last_archive = id;
      },
    )
    else err integrity_error

unfoldable pub create_archive_record : String → String → Exec Db (Option ArchiveRecord)
unfolding insert_legacy_archive get_archive_by_id
create_archive_record episode_id archive_path =
    with_now λ now. do
      id ← execute (insert_legacy_archive episode_id archive_path now)
      get_archive_by_id id

-- The keyword arguments of `commit_verified_archive`.
pub record ArchiveCommit : Type 0 where
  pub episode_id : String
  pub render_job_id : ℕ
  pub archive_id : String
  pub archive_path : String
  pub manifest_path : String
  pub manifest_sha256 : String
  pub verified_at : String

abbrev pub verified_record : ℕ → ArchiveCommit → String → String → ArchiveRecord
verified_record id c digest now = record {
  id = id;
  episode_id = c.episode_id;
  archive_path = c.archive_path;
  archive_id = some c.archive_id;
  archive_schema_version = 1;
  archive_state = ArchiveState.complete;
  manifest_path = some c.manifest_path;
  manifest_sha256 = some digest;
  render_job_id = some c.render_job_id;
  verified_at = some c.verified_at;
  archived_at = now;
}

abbrev pub is_rendered : String → Episode → Bool
is_rendered episode_id e = has_episode_id episode_id e && (e.status == rendered)

abbrev pub is_complete_job_of : String → ℕ → RenderJob → Bool
is_complete_job_of episode_id id j =
    has_job_id id j && ((j.episode_id == episode_id) && (j.status == RenderJobStatus.complete))

-- The WHERE clause of the INSERT ... SELECT. The joined rows are one at most, since
-- `episodes.episode_id` and `render_jobs.id` are unique.
unfoldable pub can_commit : ArchiveCommit → Tables → Bool
can_commit c t =
    any (is_rendered c.episode_id) t.episodes
    && (any (is_complete_job_of c.episode_id c.render_job_id) t.render_jobs
        && not (any (is_archive_of c.episode_id) t.archives))

-- The id of the row that was inserted, or none where no row matched.
unfoldable pub insert_verified_archive :
    ArchiveCommit → String → String → Tables → Result (Option ℕ × Tables)
unfolding can_commit
insert_verified_archive c digest now t =
    let id = suc t.last_archive in
    if can_commit c t
    then (if any (λ a. a.archive_id == some c.archive_id) t.archives
        then err archive_id_unique_error
        else ok (
          some id,
          record t {
            archives = t.archives ++ verified_record id c digest now ∷ [];
            last_archive = id;
          },
        ))
    else ok (none, t)

-- The SELECTs that come before the transaction, in their order.
unfoldable pub check_commit : ArchiveCommit → Exec Db (Unit {0})
unfolding get_episode_by_episode_id get_archive_by_episode_id get_render_job_by_id
check_commit c = do
  episode ← get_episode_by_episode_id c.episode_id
  e ← or_raise archive_commit_error episode
  require (e.status == rendered) archive_commit_error
  existing ← get_archive_by_episode_id c.episode_id
  require (is_none existing) archive_commit_error
  render_job ← get_render_job_by_id c.render_job_id
  j ← or_raise archive_commit_error render_job
  require (j.episode_id == c.episode_id) archive_commit_error
  require (j.status == RenderJobStatus.complete) archive_commit_error

abbrev has_blank_field : ArchiveCommit → Bool
has_blank_field c =
    is_blank c.archive_id
    || (is_blank c.archive_path || (is_blank c.manifest_path || is_blank c.verified_at))

-- `except sqlite3.IntegrityError`, and its test of the message.
abbrev pub translate_duplicate {ℓ} : {A : Type ℓ} → Error → Exec Db A
translate_duplicate archive_id_unique_error db = (err archive_commit_error, db)
translate_duplicate e db = (err e, db)

unfoldable pub commit_body : ArchiveCommit → String → Exec Db ArchiveRecord
unfolding insert_verified_archive update_episodes get_archive_by_id
commit_body c digest = with_now λ now. do
  inserted ← attempt (execute (insert_verified_archive c digest now)) translate_duplicate
  id ← or_raise archive_commit_error inserted
  updated ← execute (
      update_episodes (is_rendered c.episode_id)
        (λ e. record e { status = archived; updated_at = now }))
  require (updated == 1) archive_commit_error
  row ← get_archive_by_id id
  or_raise archive_commit_error row

abbrev pub lift {ℓ} : {A : Type ℓ} → Result A → Exec Db A
lift r db = (r, db)

unfoldable pub commit_verified_archive : ArchiveCommit → Exec Db ArchiveRecord
unfolding check_commit normalize_manifest_sha256 commit_body transaction
commit_verified_archive c = do
  check_commit c
  require (not (has_blank_field c)) archive_commit_error
  digest ← lift (normalize_manifest_sha256 c.manifest_sha256)
  transaction (commit_body c digest)

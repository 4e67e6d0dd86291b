-- ===== src/Store/Episodes.antt =====
-- The episode methods of `Database` in db/database.py, the assembly claim of ADR-0001 among them.
pub mod Claims
use redline_os.Prelude.{
  ℕ, suc, String, Bool, true, false, ◌&&◌, ◌||◌, Option, none, some, List, [], ◌∷◌, not, ◌++◌, ◌==◌,
  string_eq, nat_eq, option_eq, leb, find, any, count, update, if◌then◌else◌,
}
use redline_os.Errors.{integrity_error, assembly_claim_release_error}
use redline_os.Exec.{Result, ok, err, Exec, pure, require, after_ok, ◌>>=◌, ◌>>◌}
use redline_os.Store.Rows.{
  EpisodeStatus, created, assets_verified, media_organized, timeline_built, assembled,
  render_queued, rendered, archived, failed, Episode, Tables, episode_status_eq,
}
use redline_os.Store.Sql.{Db, query, execute, with_now}

abbrev pub has_episode_id : String → Episode → Bool
has_episode_id episode_id e = e.episode_id == episode_id

unfoldable pub new_episode : ℕ → ℕ → String → String → String → Episode
new_episode id number episode_id project_name now = record {
  id = id;
  episode_number = number;
  episode_id = episode_id;
  project_name = project_name;
  project_path = none;
  folder_path = none;
  status = created;
  assembly_claim_token = none;
  assembly_claimed_at = none;
  created_at = now;
  updated_at = now;
}

-- INSERT INTO episodes, under the two UNIQUE columns.
unfoldable pub insert_episode : ℕ → String → String → String → Tables → Result (ℕ × Tables)
unfolding new_episode
insert_episode number episode_id project_name now t =
    let id = suc t.last_episode in
    if any (λ e. e.episode_number == number || has_episode_id episode_id e) t.episodes
    then err integrity_error
    else ok (
      id,
      record t {
        episodes = t.episodes ++ new_episode id number episode_id project_name now ∷ [];
        last_episode = id;
      },
    )

-- UPDATE episodes: the number of the rows that matched.
unfoldable pub update_episodes :
    (Episode → Bool) → (Episode → Episode) → Tables → Result (ℕ × Tables)
update_episodes p f t = ok (count p t.episodes, record t { episodes = update p f t.episodes })

unfoldable pub get_episode_by_id : ℕ → Exec Db (Option Episode)
get_episode_by_id row_id = query (λ t. find (λ e. e.id == row_id) t.episodes)

unfoldable pub get_episode_by_number : ℕ → Exec Db (Option Episode)
get_episode_by_number number = query (λ t. find (λ e. e.episode_number == number) t.episodes)

unfoldable pub get_episode_by_episode_id : String → Exec Db (Option Episode)
get_episode_by_episode_id episode_id = query (λ t. find (has_episode_id episode_id) t.episodes)

insert_by_number : Episode → List Episode → List Episode
insert_by_number e [] = e ∷ []
insert_by_number e (x ∷ xs) =
    let rest = insert_by_number e xs in
    if leb e.episode_number x.episode_number then e ∷ x ∷ xs else x ∷ rest

order_by_number : List Episode → List Episode
unfolding insert_by_number
order_by_number [] = []
order_by_number (e ∷ es) = insert_by_number e (order_by_number es)

unfoldable pub list_episodes : Exec Db (List Episode)
unfolding order_by_number
list_episodes = query (λ t. order_by_number t.episodes)

unfoldable pub create_episode : ℕ → String → String → Exec Db (Option Episode)
unfolding insert_episode get_episode_by_id
create_episode number episode_id project_name =
    with_now λ now. do
      id ← execute (insert_episode number episode_id project_name now)
      get_episode_by_id id

unfoldable pub update_episode_status : String → EpisodeStatus → Exec Db (Unit {0})
unfolding update_episodes
update_episode_status episode_id status = with_now λ now. do
  execute (
      update_episodes (has_episode_id episode_id)
        (λ e. record e { status = status; updated_at = now }))
  pure tt

abbrev given : Option String → Option String → Option String
given none old = old
given (some new) old = some new

-- `update_episode_paths`: what is None keeps its column, and with nothing given nothing is run.
unfoldable pub update_episode_paths : String → Option String → Option String → Exec Db (Unit {0})
unfolding update_episodes
update_episode_paths episode_id none none = pure tt
update_episode_paths episode_id project_path folder_path = with_now λ now. do
  execute (
      update_episodes (has_episode_id episode_id) (λ e. record e {
        project_path = given project_path e.project_path;
        folder_path = given folder_path e.folder_path;
        updated_at = now;
      }))
  pure tt

-- The statuses that an unforced claim accepts.
abbrev pub is_claimable : EpisodeStatus → Bool
is_claimable created = true
is_claimable assets_verified = true
is_claimable media_organized = true
is_claimable timeline_built = true
is_claimable _ = false

-- `_TERMINAL_ASSEMBLY_STATUSES`
abbrev pub is_terminal : EpisodeStatus → Bool
is_terminal assembled = true
is_terminal render_queued = true
is_terminal rendered = true
is_terminal archived = true
is_terminal _ = false

-- `assembly_claim_token IS NULL`, or `assembly_claim_token = ?`.
abbrev pub has_token : Option String → Episode → Bool
has_token none e = e.assembly_claim_token == none
has_token (some token) e = e.assembly_claim_token == some token

abbrev pub set_claim : String → String → Episode → Episode
set_claim token now e = record e {
  assembly_claim_token = some token;
  assembly_claimed_at = some now;
}

unfoldable pub claim_episode_for_assembly_cas :
    String → String → EpisodeStatus → Option String → Exec Db Bool
unfolding update_episodes
claim_episode_for_assembly_cas episode_id claim_token observed_status observed_token =
    if is_terminal observed_status
    then pure false
    else with_now λ now. do
      rows ← execute (
          update_episodes
            (λ e.
              has_episode_id episode_id e
              && (e.status == observed_status && has_token observed_token e))
            (set_claim claim_token now))
      pure (rows == 1)

claim_unforced : String → String → Exec Db Bool
unfolding update_episodes
claim_unforced episode_id claim_token = with_now λ now. do
  rows ← execute (
      update_episodes
        (λ e. has_episode_id episode_id e && (has_token none e && is_claimable e.status))
        (set_claim claim_token now))
  pure (rows == 1)

unfoldable pub claim_observed : String → String → Option Episode → Exec Db Bool
unfolding claim_episode_for_assembly_cas
claim_observed episode_id claim_token none = pure false
claim_observed episode_id claim_token (some e) =
    claim_episode_for_assembly_cas episode_id claim_token e.status e.assembly_claim_token

unfoldable pub claim_episode_for_assembly : String → String → Bool → Exec Db Bool
unfolding claim_unforced claim_observed get_episode_by_episode_id
claim_episode_for_assembly episode_id claim_token false = claim_unforced episode_id claim_token
claim_episode_for_assembly episode_id claim_token true = do
  row ← get_episode_by_episode_id episode_id
  claim_observed episode_id claim_token row

unfoldable pub release_assembly_claim : String → String → EpisodeStatus → Exec Db (Unit {0})
unfolding update_episodes
release_assembly_claim episode_id claim_token status = with_now λ now. do
  rows ← execute (
      update_episodes (λ e. has_episode_id episode_id e && has_token (some claim_token) e)
        (λ e. record e {
          status = status;
          assembly_claim_token = none;
          assembly_claimed_at = none;
          updated_at = now;
        }))
  require (not (rows == 0)) assembly_claim_release_error

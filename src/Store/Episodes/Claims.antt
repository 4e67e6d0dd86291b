-- ===== src/Store/Episodes/Claims.antt =====
-- ADR-0001: who holds the assembly claim of an episode.
use redline_os.Prelude.{
  String, Bool, true, false, ◌≡◌, refl, ◌≢◌, Option, none, some, List, ◌==◌, ◌&&◌, string_eq,
  nat_eq, option_eq, ap, find, count, update, if◌then◌else◌, arith, ◌≤◌,
}
use redline_os.Prelude.Counting.{
  count-update_zero, find-update, count_of_unique, update_one, changed_if, holds_of,
}
use redline_os.Errors.{assembly_claim_release_error}
use redline_os.Exec.{ok, err}
use redline_os.Store.Rows.{EpisodeStatus, Episode, episode_status_eq}
use redline_os.Store.Sql.{Db, next_fault, execute, with_now}
use redline_os.Store.Episodes.{
  has_episode_id, has_token, is_claimable, set_claim, claim_episode_for_assembly,
  claim_episode_for_assembly_cas, release_assembly_claim,
}

has_token-set_claim :
    (observed : Option String) (token now : String) (e : Episode)
    → observed ≢ some token
    → has_token observed (set_claim token now e) ≡ false
has_token-set_claim none token now e new = ground arith
has_token-set_claim (some old) token now e new =
    ground (arith, λ (p : old ≡ token). new (ap some p))

module _ (episode_id : String) (status : EpisodeStatus) (observed : Option String) where
  abbrev observed_row : Episode → Bool
  observed_row e = has_episode_id episode_id e && (e.status == status && has_token observed e)

  -- Once a claim has replaced the token that was observed, no row matches it any more.
  replaced :
      (token now : String) (episodes : List Episode)
      → observed ≢ some token
      → count observed_row (update observed_row (set_claim token now) episodes) ≡ 0
  replaced token now episodes new =
      count-update_zero observed_row observed_row (set_claim token now)
        (λ e h. ground (arith, has_token-set_claim observed token now e new)) (λ e h. h) episodes

  -- Two forced callers that observed the same status and token of an episode race for its claim.
  -- If the first one acquired it, with a token that is not the observed one, then the second one
  -- does not, whatever time it is and whatever statements of SQLite fail.
  pub cas_single_claimant :
      (first second : String) (db db' : Db)
      → observed ≢ some first
      → (claim_episode_for_assembly_cas episode_id first status observed db).0 ≡ ok true
      → db'.tables ≡ (claim_episode_for_assembly_cas episode_id first status observed db).1.tables
      → (claim_episode_for_assembly_cas episode_id second status observed db').0 ≢ ok true
  unfolding claim_episode_for_assembly_cas with_now execute
  cas_single_claimant first second db db' new won same lost =
      ground (arith, replaced first db.now db.tables.episodes new)

module _ (episode_id token : String) (db : Db) where
  abbrev episode_in : Db → Option Episode
  episode_in d = find (has_episode_id episode_id) d.tables.episodes

  abbrev is_open : Episode → Bool
  is_open e = has_token none e && is_claimable e.status

  -- With episode ids unique and no fault of SQLite, an unforced claim of an episode is acquired
  -- exactly when the episode is there, has no claim and stands before its assembly. The episode
  -- then has the new token and keeps its status; no other episode's row changes.
  pub unforced_claim_exact :
      count (has_episode_id episode_id) db.tables.episodes ≤ 1
      → next_fault db.faults ≡ false
      → let (r, db') = claim_episode_for_assembly episode_id token false db in
        (r ≡ ok (holds_of is_open (episode_in db)))
        × (episode_in db' ≡ changed_if is_open (set_claim token db.now) (episode_in db))
        × (db'.tables.episodes ≡ (
            if holds_of is_open (episode_in db)
            then update (has_episode_id episode_id) (set_claim token db.now) db.tables.episodes
            else db.tables.episodes))
  unfolding claim_episode_for_assembly with_now execute
  unforced_claim_exact unique runs =
      let p = has_episode_id episode_id in
      let es = db.tables.episodes in
      let rows = count_of_unique p is_open es unique in
      let found = find-update p is_open (set_claim token db.now) (λ e. refl) es in
      let kept = update_one p is_open (set_claim token db.now) es unique in
      (ground (arith, rows), ground (arith, found), ground (arith, kept))

  abbrev is_mine : Episode → Bool
  is_mine e = has_token (some token) e

  abbrev pub released : EpisodeStatus → Episode → Episode
  released status e = record e {
    status = status;
    assembly_claim_token = none;
    assembly_claimed_at = none;
    updated_at = db.now;
  }

  -- With episode ids unique and no fault of SQLite, a release gives the episode its final status
  -- and clears the claim if the episode still has the caller's token; otherwise it raises
  -- AssemblyClaimReleaseError and changes no episode. No other episode's row changes.
  pub release_exact :
      (status : EpisodeStatus)
      → count (has_episode_id episode_id) db.tables.episodes ≤ 1
      → next_fault db.faults ≡ false
      → let (r, db') = release_assembly_claim episode_id token status db in
        (r ≡ (if holds_of is_mine (episode_in db) then ok tt else err assembly_claim_release_error))
        × (episode_in db' ≡ changed_if is_mine (released status) (episode_in db))
        × (db'.tables.episodes ≡ (
            if holds_of is_mine (episode_in db)
            then update (has_episode_id episode_id) (released status) db.tables.episodes
            else db.tables.episodes))
  unfolding release_assembly_claim with_now execute
  release_exact status unique runs =
      let p = has_episode_id episode_id in
      let es = db.tables.episodes in
      let rows = count_of_unique p is_mine es unique in
      let found = find-update p is_mine (released status) (λ e. refl) es in
      let kept = update_one p is_mine (released status) es unique in
      (ground (arith, rows), ground (arith, found), ground (arith, kept))

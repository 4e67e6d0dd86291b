-- ===== src/Episode/Manager/Builds.antt =====
-- A build from its start to its end, where SQLite refuses nothing.
use redline_os.Prelude.{
  String, Bool, true, false, ◌&&◌, ◌≡◌, refl, ap, sym, ◌∙◌, none, some, [], if◌then◌else◌, ◌≤◌,
  count, find, ==_refl, string_eq, option_eq, eq_of_==,
}
use redline_os.Prelude.Counting.{find_passes, count-update, holds_of, changed_if}
use redline_os.Errors.{assembly_claim_release_error}
use redline_os.Exec.{Result, ok, err}
use redline_os.Store.Rows.{EpisodeStatus, assembled, failed, Episode, Tables}
use redline_os.Store.Sql.{Db, next_fault, execute, with_now, query}
use redline_os.Store.Episodes.{
  has_episode_id, has_token, is_claimable, set_claim, claim_episode_for_assembly,
  get_episode_by_episode_id, release_assembly_claim,
}
use redline_os.Store.Episodes.Claims.{released, unforced_claim_exact, release_exact}
use redline_os.Episode.World.{Outside, Texts, Config, World, on_db}
use redline_os.Episode.Definition.{EpisodeBuildDefinition, EpisodeBuildResult, is_valid_definition}
use redline_os.Episode.Manager.{
  is_build_error, timeline_name_for_episode, claim_episode_for_build, assemble, build_episode,
}
use redline_os.Episode.Manager.Settles.{Settled, done, gave_up}
use redline_os.Episode.Manager.Ends.{ImportsPlainly, Settles-assemble}

-- The store where no statement fails.
abbrev pub sound : Tables → String → Db
sound t now = record { tables = t; now = now; faults = [] }

-- The row of an episode whose claim was released.
abbrev pub closed : EpisodeStatus → String → Episode → Episode
closed status now e = record e {
  status = status;
  assembly_claim_token = none;
  assembly_claimed_at = none;
  updated_at = now;
}

-- The status that a build leaves.
abbrev pub final : {A : Type 0} → Result A → EpisodeStatus
final (ok a) = assembled
final (err error) = failed

abbrev pub is_plain : {A : Type 0} → Result A → Bool
is_plain (ok a) = true
is_plain (err error) = is_build_error error

module _ (id token now : String) (t : Tables) (e : Episode)
    (unique : count (has_episode_id id) t.episodes ≤ 1)
    (here : find (has_episode_id id) t.episodes ≡ some e)
    (open_row : (has_token none e && is_claimable e.status) ≡ true) where
  abbrev claim : Result Bool × Db
  claim = claim_episode_for_assembly id token false (sound t now)

  abbrev mine : Episode
  mine = set_claim token now e

  claim_ok : claim.0 ≡ ok true
  claim_ok =
      let exact = unforced_claim_exact id token (sound t now) unique refl in
      exact.0
      ∙ ap (λ o. ok (holds_of (λ x. has_token none x && is_claimable x.status) o)) here
      ∙ ap ok open_row

  claim_here : find (has_episode_id id) claim.1.tables.episodes ≡ some mine
  claim_here =
      let exact = unforced_claim_exact id token (sound t now) unique refl in
      exact.1
      ∙ ap (changed_if (λ x. has_token none x && is_claimable x.status) (set_claim token now)) here
      ∙ ap (λ b. some (if b then mine else e)) open_row

  claim_sound : claim.1 ≡ sound claim.1.tables now
  unfolding claim_episode_for_assembly with_now execute
  claim_sound = refl

  claim_unique : count (has_episode_id id) claim.1.tables.episodes ≤ 1
  unfolding claim_episode_for_assembly with_now execute
  claim_unique =
      let p = λ (x : Episode). has_episode_id id x && (has_token none x && is_claimable x.status) in
      rw (count-update p (has_episode_id id) (set_claim token now) (λ x h. refl) t.episodes) unique

  release_mine :
      (status : EpisodeStatus)
      → let (r, d) = release_assembly_claim id token status claim.1 in
        (r ≡ ok tt) × (find (has_episode_id id) d.tables.episodes ≡ some (closed status now mine))
  release_mine status =
      let exact =
        release_exact id token claim.1 status claim_unique
          (ap (λ d. next_fault d.faults) claim_sound) in
      let is_mine = λ (x : Episode). has_token (some token) x in
      let mine_held : is_mine mine ≡ true = ==_refl (some token) in
      (
        exact.0
            ∙ ap (λ o. if holds_of is_mine o then ok tt else err assembly_claim_release_error)
                claim_here
            ∙ ap (λ b. if b then ok tt else err assembly_claim_release_error) mine_held,
        exact.1
            ∙ ap (changed_if is_mine (released id token claim.1 status)) claim_here
            ∙ ap (λ b. some (if b then released id token claim.1 status mine else mine)) mine_held
            ∙ ap (λ d. some (closed status d.now mine)) claim_sound,
      )

get_sound :
    (id now : String) (d : Db)
    → d ≡ sound d.tables now
    → get_episode_by_episode_id id d ≡ (ok (find (has_episode_id id) d.tables.episodes), d)
unfolding get_episode_by_episode_id query
get_sound id now d h =
    ap (get_episode_by_episode_id id) h
    ∙ ap (λ x. (ok (find (has_episode_id id) d.tables.episodes), x)) (sym h)

module _ (O : Outside) (T : Texts) (config : Config) (token now : String)
    (definition : EpisodeBuildDefinition) (t : Tables) (s : O.State) (e : Episode) where
  abbrev id : String
  id = definition.episode_id

  abbrev start : World O
  start = record { db = sound t now; outside = s }

  abbrev pub built : Result EpisodeBuildResult × World O
  built = build_episode O T config token definition false start

  module _ (unique : count (has_episode_id id) t.episodes ≤ 1)
      (here : find (has_episode_id id) t.episodes ≡ some e)
      (open_row : (has_token none e && is_claimable e.status) ≡ true) where
    abbrev claimed_db : Db
    claimed_db = (claim_episode_for_assembly id token false (sound t now)).1

    abbrev claimed : World O
    claimed = record { db = claimed_db; outside = s }

    claim-works :
        claim_episode_for_build O T config token id false start
        ≡ (ok (set_claim token now e), claimed)
    unfolding claim_episode_for_build on_db
    claim-works =
        let won = claim_ok id token now t e unique here open_row in
        let got = get_sound id now claimed_db (claim_sound id token now t e unique here open_row) in
        let there = claim_here id token now t e unique here open_row in rw (won, got, there) refl

    same_id : e.episode_id ≡ id
    same_id = eq_of_== e.episode_id id (find_passes (has_episode_id id) t.episodes e here)

    left_by : (status : EpisodeStatus) (i : String) → Result (Unit {0}) × Db
    left_by status i = release_assembly_claim i token status claimed_db

    left_works :
        (status : EpisodeStatus)
        → ((left_by status e.episode_id).0 ≡ ok tt)
          × (find (has_episode_id id) (left_by status e.episode_id).1.tables.episodes
              ≡ some (closed status now e))
    unfolding left_by
    left_works status =
        let works = release_mine id token now t e unique here open_row status in
        (
          ap (λ i. (left_by status i).0) same_id ∙ works.0,
          ap (λ i. find (has_episode_id id) (left_by status i).1.tables.episodes) same_id ∙ works.1,
        )

    settled_ends :
        (p : Result EpisodeBuildResult × World O)
        → Settled O T config e.episode_id token claimed_db EpisodeBuildResult
            (left_by assembled e.episode_id).1
            p
        → (is_plain p.0 ≡ true)
          × (find (has_episode_id id) p.1.db.tables.episodes ≡ some (closed (final p.0) now e))
    unfolding left_by
    settled_ends p (done a returns same) = (
      ap is_plain returns,
      ap (λ d. find (has_episode_id id) d.tables.episodes) same
          ∙ (left_works assembled).1
          ∙ ap (λ r. some (closed (final r) now e)) (sym returns),
    )
    settled_ends p (gave_up stage raises same) = (
      ap is_plain raises,
      ap (λ d. find (has_episode_id id) d.tables.episodes) same
          ∙ (left_works failed).1
          ∙ ap (λ r. some (closed (final r) now e)) (sym raises),
    )

    -- Take an episode that has no claim and stands before its assembly, a valid definition, a store
    -- whose episode ids are unique and where SQLite refuses nothing, a pattern that gives the timeline a
    -- name, and a Resolve whose import raises no EpisodeBuildError. Then, whatever else Resolve returns
    -- or raises, `build_episode` returns or raises an EpisodeBuildError; and it leaves the episode
    -- without a claim, assembled if it returns and failed if it raises, its other columns as they were
    -- but for the time of the update.
    pub build_ends :
        ImportsPlainly O
        → is_valid_definition T.normalized definition ≡ true
        → (timeline_name : String) → timeline_name_for_episode O T config id ≡ some timeline_name
        → (is_plain built.0 ≡ true)
          × (find (has_episode_id id) built.1.db.tables.episodes
              ≡ some (closed (final built.0) now e))
    unfolding build_episode left_by
    build_ends plain valid timeline_name named =
        let mine = set_claim token now e in
        let named' = ap (timeline_name_for_episode O T config) same_id ∙ named in
        let goes : built ≡ assemble O T config token definition mine claimed =
          rw (valid, claim-works, named') refl in
        let settles =
          Settles-assemble O T config token definition mine claimed_db plain
            (left_works assembled).0 in
        rw goes (
          settled_ends (assemble O T config token definition mine claimed)
            (settles.at claimed refl))

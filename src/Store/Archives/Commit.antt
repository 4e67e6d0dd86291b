-- ===== src/Store/Archives/Commit.antt =====
-- `commit_verified_archive`: all or nothing, and only for what may be archived.
use redline_os.Prelude.{
  suc, String, true, false, any, ◌≡◌, refl, ◌⊎◌, inl, inr, [], ◌∷◌, ◌++◌, not, string_eq, nat_eq,
  option_eq, update, arith, Bool-cases,
}
use mathlib.Core.Path.{subst}
use redline_os.Errors.{Error, archive_commit_error}
use redline_os.Exec.{
  Exec, Result, ok, err, require, Result-cases, after_ok-ok, after_ok-err, ◌>>=◌, ◌>>◌,
}
use redline_os.Store.Rows.{Tables, archived, ArchiveRecord, render_job_status_eq, episode_status_eq}
use redline_os.Store.Sql.{Db, query, execute, with_now, transaction}
use redline_os.Store.Sql.Keeps.{Keeps, keeps_rules}
use redline_os.Store.Sql.Laws.{transaction_rollback, transaction_ok}
use redline_os.Store.Archives.{
  ArchiveCommit, verified_record, is_rendered, is_archive_of, is_complete_job_of, check_commit,
  has_blank_field, lift, normalize_manifest_sha256, commit_body, commit_verified_archive,
}

-- What a commit that starts from the tables `t` at the time `now` leaves: the new row behind the
-- others, the episode archived, the jobs as they were.
pub record IsCommitted (c : ArchiveCommit) (t : Tables) (now : String) (digest : String) (db' : Db)
    : Type 0 where
  pub rendered_before : any (is_rendered c.episode_id) t.episodes ≡ true
  pub job_complete : any (is_complete_job_of c.episode_id c.render_job_id) t.render_jobs ≡ true
  pub not_archived : any (is_archive_of c.episode_id) t.archives ≡ false
  pub digest_normal : normalize_manifest_sha256 c.manifest_sha256 ≡ ok digest
  pub archives :
      db'.tables.archives ≡ t.archives ++ verified_record (suc t.last_archive) c digest now ∷ []
  pub episodes :
      db'.tables.episodes
      ≡ update
          (is_rendered c.episode_id)
          (λ e. record e { status = archived; updated_at = now })
          t.episodes
  pub render_jobs : db'.tables.render_jobs ≡ t.render_jobs

check_commit_reads : (t : Tables) (c : ArchiveCommit) → Keeps (λ t'. t' ≡ t) (check_commit c)
unfolding check_commit
check_commit_reads t c = search keeps_rules depth 14

module _ (c : ArchiveCommit) (digest : String) (db : Db) where
  body_ok :
      (a : ArchiveRecord)
      → (commit_body c digest db).0 ≡ ok a
      → (any (is_rendered c.episode_id) db.tables.episodes ≡ true)
        × (any (is_complete_job_of c.episode_id c.render_job_id) db.tables.render_jobs ≡ true)
        × (any (is_archive_of c.episode_id) db.tables.archives ≡ false)
        × ((commit_body c digest db).1.tables.archives
            ≡ db.tables.archives
              ++ verified_record (suc db.tables.last_archive) c digest db.now ∷ [])
        × ((commit_body c digest db).1.tables.episodes
            ≡ update
                (is_rendered c.episode_id)
                (λ e. record e { status = archived; updated_at = db.now })
                db.tables.episodes)
        × ((commit_body c digest db).1.tables.render_jobs ≡ db.tables.render_jobs)
  unfolding commit_body with_now execute query
  body_ok a h = (ground arith, ground arith, ground arith, ground arith, ground arith, ground arith)

module _ (c : ArchiveCommit) where
  -- What comes after the SELECTs.
  abbrev commit_rest : Exec Db ArchiveRecord
  commit_rest = do
    require (not (has_blank_field c)) archive_commit_error
    digest ← lift (normalize_manifest_sha256 c.manifest_sha256)
    transaction (commit_body c digest)

  -- It raises and leaves the tables, or returns the row and leaves what is committed.
  abbrev pub Outcome : Tables → String → Result ArchiveRecord × Db → Type 0
  Outcome t now r =
      ((e : Error) × (r.0 ≡ err e) × (r.1.tables ≡ t))
      ⊎ ((digest : String) × (a : ArchiveRecord) × (r.0 ≡ ok a) × IsCommitted c t now digest r.1)

  transacted :
      (db : Db) (digest : String)
      → normalize_manifest_sha256 c.manifest_sha256 ≡ ok digest
      → Outcome db.tables db.now (transaction (commit_body c digest) db)
  transacted db digest normal = elim (Result-cases (transaction (commit_body c digest) db).0) [
    | inl (e, raises) ↦ inl (e, raises, transaction_rollback (commit_body c digest) db e raises)
    | inr (a, returns) ↦
        let same = transaction_ok (commit_body c digest) db a returns in
        let done = body_ok c digest db a (rw same at returns) in
        inr (
          digest,
          a,
          returns,
          rw same (record {
            rendered_before = done.0;
            job_complete = done.1;
            not_archived = done.2;
            digest_normal = normal;
            archives = done.3;
            episodes = done.4;
            render_jobs = done.5;
          }),
        )
  ]

  rest-Outcome : (db : Db) → Outcome db.tables db.now (commit_rest db)
  rest-Outcome db = elim (Bool-cases (has_blank_field c)) [
    | inl blank ↦ rw blank (inl (archive_commit_error, refl, refl))
    | inr filled ↦ rw filled (elim (Result-cases (normalize_manifest_sha256 c.manifest_sha256)) [
      | inl (e, bad) ↦ rw bad (inl (e, refl, refl))
      | inr (digest, normal) ↦ rw normal (transacted db digest normal)
    ])
  ]

module _ (c : ArchiveCommit) (db : Db) where
  checked_tables : (check_commit c db).1.tables ≡ db.tables
  checked_tables = (check_commit_reads db.tables c).at db refl

  checked_now : (check_commit c db).1.now ≡ db.now
  unfolding check_commit query
  checked_now = ground arith

  -- Where the SELECTs pass, the state is the old one but for the faults that are used up.
  moved :
      (r : Result ArchiveRecord × Db)
      → Outcome c (check_commit c db).1.tables (check_commit c db).1.now r
      → Outcome c db.tables db.now r
  moved r o =
      subst (λ t. Outcome c t db.now r) checked_tables
        (subst (λ now. Outcome c (check_commit c db).1.tables now r) checked_now o)

  -- Whatever statement of SQLite fails, `commit_verified_archive` either raises and leaves all
  -- tables as they were; or the episode was rendered, the render job complete and the episode's
  -- own, and no archive of the episode there, and then one complete Rev1 row with the normalized
  -- digest is added, the episode is archived, and no render job changes.
  pub commit_all_or_nothing : Outcome c db.tables db.now (commit_verified_archive c db)
  unfolding commit_verified_archive
  commit_all_or_nothing = elim (Result-cases (check_commit c db).0) [
    | inl (e, raises) ↦
        rw (after_ok-err (λ _. commit_rest c) (check_commit c db) e raises)
          (inl (e, refl, checked_tables))
    | inr (u, passes) ↦
        rw (after_ok-ok (λ _. commit_rest c) (check_commit c db) u passes)
          (moved _ (rest-Outcome c (check_commit c db).1))
  ]

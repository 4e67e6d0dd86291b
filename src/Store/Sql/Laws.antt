-- ===== src/Store/Sql/Laws.antt =====
-- What holds of statements and transactions, whatever they do.
use redline_os.Prelude.{◌≡◌, refl}
use redline_os.Errors.{Error}
use redline_os.Exec.{Result, ok, err, Exec, after_error}
use redline_os.Store.Sql.{Db, with_tables, transaction}

module _ {ℓ} {A : Type ℓ} where
  -- A transaction that raises leaves the tables as they were.
  pub transaction_rollback :
      (body : Exec Db A) (db : Db) (e : Error)
      → (transaction body db).0 ≡ err e
      → (transaction body db).1.tables ≡ db.tables
  unfolding transaction
  transaction_rollback body db e = rolled_back (body db)
    where
      rolled_back :
          (r : Result A × Db)
          → (after_error r (λ e db'. (err e, with_tables db' db.tables))).0 ≡ err e
          → (after_error r (λ e db'. (err e, with_tables db' db.tables))).1.tables ≡ db.tables
      rolled_back (ok a, db') h = cc
      rolled_back (err x, db') h = refl

  pub transaction_ok :
      (body : Exec Db A) (db : Db) (a : A)
      → (transaction body db).0 ≡ ok a
      → transaction body db ≡ body db
  unfolding transaction
  transaction_ok body db a = committed (body db)
    where
      committed :
          (r : Result A × Db)
          → (after_error r (λ e db'. (err e, with_tables db' db.tables))).0 ≡ ok a
          → after_error r (λ e db'. (err e, with_tables db' db.tables)) ≡ r
      committed (ok b, db') h = refl
      committed (err x, db') h = cc

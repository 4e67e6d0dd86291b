-- ===== src/Store/Sql.antt =====
-- What db/database.py uses of sqlite3. SQLite is not the program's, so it is a part of the state:
-- `now` is what datetime('now') reads, and `faults` says of each statement to come whether SQLite
-- raises an OperationalError instead of running it (no entry: it runs). The theorems hold for every
-- list of faults.
pub mod Keeps
pub mod Laws
use redline_os.Prelude.{String, Bool, false, List, [], ◌∷◌, string_eq, nat_eq, if◌then◌else◌}
use redline_os.Errors.{operational_error}
use redline_os.Exec.{Result, ok, err, after_error}
use redline_os.Store.Rows.{Tables}

pub record Db : Type 0 where
  pub tables : Tables
  pub now : String
  pub faults : List Bool

abbrev pub next_fault : List Bool → Bool
next_fault [] = false
next_fault (b ∷ bs) = b

abbrev pub later_faults : List Bool → List Bool
later_faults [] = []
later_faults (b ∷ bs) = bs

abbrev pub with_tables : Db → Tables → Db
with_tables db t = record db { tables = t }

-- One statement that reads.
unfoldable pub query {ℓ} : {A : Type ℓ} → (Tables → A) → Db → Result A × Db
query read db =
    let db' = record db { faults = later_faults db.faults } in
    if next_fault db.faults then (err operational_error, db') else (ok (read db.tables), db')

abbrev pub written {ℓ} : {A : Type ℓ} → Db → Result (A × Tables) → Result A × Db
written db (ok (a, t)) = (ok a, with_tables db t)
written db (err e) = (err e, db)

-- One statement that writes: SQLite runs it whole or, where a constraint refuses it, not at all.
unfoldable pub execute {ℓ} : {A : Type ℓ} → (Tables → Result (A × Tables)) → Db → Result A × Db
execute write db =
    let db' = record db { faults = later_faults db.faults } in
    if next_fault db.faults then (err operational_error, db') else written db' (write db.tables)

-- datetime('now')
unfoldable pub with_now {ℓ} : {A : Type ℓ} → (String → Db → Result A × Db) → Db → Result A × Db
with_now m db = m db.now db

-- `with self.conn:` gives the tables back as they were where its body raises.
unfoldable pub transaction {ℓ} : {A : Type ℓ} → (Db → Result A × Db) → Db → Result A × Db
transaction body db = after_error (body db) (λ e db'. (err e, with_tables db' db.tables))

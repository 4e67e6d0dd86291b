-- ===== src/Store/Sql/Keeps.antt =====
-- Rules for what a method keeps of the tables, one for each way to build a method.
use redline_os.Prelude.{
  String, Bool, true, false, Option, none, some, arith, Bool-cases, inl, inr, if◌then◌else◌,
}
use redline_os.Errors.{Error}
use redline_os.Exec.{
  Result, ok, err, Exec, pure, raise, require, or_raise, attempt, after_error, after_ok, ◌>>=◌,
}
use redline_os.Store.Rows.{Tables}
use redline_os.Store.Sql.{
  Db, next_fault, with_tables, written, query, execute, with_now, transaction,
}

-- The method keeps `P`, whether it returns or raises, and whatever statement fails.
pub record Keeps {ℓ} {A : Type ℓ} (P : Tables → Type 0) (m : Exec Db A) : Type ℓ where
  pub at : (db : Db) → P db.tables → P (m db).1.tables

-- What a write leaves satisfies `P`. A write that SQLite refuses leaves nothing.
abbrev pub Leaves {ℓ} : {A : Type ℓ} → (Tables → Type 0) → Result (A × Tables) → Type 0
Leaves P (ok (a, t)) = P t
Leaves P (err e) = Unit

-- A writing statement that keeps `P`.
pub record Writes {ℓ} {A : Type ℓ} (P : Tables → Type 0) (write : Tables → Result (A × Tables))
    : Type ℓ where
  pub leaves : (t : Tables) → P t → Leaves P (write t)

Keeps-written {ℓ} :
    {A : Type ℓ} (P : Tables → Type 0) (db : Db) (r : Result (A × Tables))
    → P db.tables
    → Leaves P r
    → P (written db r).1.tables
Keeps-written P db (ok (a, t)) h l = l
Keeps-written P db (err e) h l = h

module _ {ℓ} {A : Type ℓ} {P : Tables → Type 0} where
  pub Keeps-pure : (a : A) → Keeps P (pure a)
  Keeps-pure a = record { at = λ db h. h }

  pub Keeps-raise : (e : Error) → Keeps P (raise {A = A} e)
  Keeps-raise e = record { at = λ db h. h }

  pub Keeps-or_raise : (e : Error) (o : Option A) → Keeps P (or_raise e o)
  Keeps-or_raise e none = record { at = λ db h. h }
  Keeps-or_raise e (some a) = record { at = λ db h. h }

  pub Keeps-query : (read : Tables → A) → Keeps P (query read)
  unfolding query
  Keeps-query read = record { at = λ db h. ground arith }

  pub Keeps-execute :
      (write : Tables → Result (A × Tables)) → Writes P write → Keeps P (execute write)
  unfolding execute
  Keeps-execute write w = record {
    at = λ db h. elim (Bool-cases (next_fault db.faults)) [
      | inl fails ↦ rw fails h
      | inr runs ↦ rw runs (Keeps-written P _ (write db.tables) h (w.leaves db.tables h))
    ];
  }

  pub Keeps-transaction : (body : Exec Db A) → Keeps P body → Keeps P (transaction body)
  unfolding transaction
  Keeps-transaction body k = record { at = λ db h. transacted db (body db) h (k.at db h) }
    where
      transacted :
          (db : Db) (r : Result A × Db)
          → P db.tables
          → P r.1.tables
          → P (after_error r (λ e db'. (err e, with_tables db' db.tables))).1.tables
      transacted db (ok a, db') h k = k
      transacted db (err e, db') h k = h

  pub Keeps-with_now :
      (m : String → Exec Db A) → ((now : String) → Keeps P (m now)) → Keeps P (with_now m)
  unfolding with_now
  Keeps-with_now m k = record { at = λ db h. (k db.now).at db h }

  pub Keeps-if : (b : Bool) (m n : Exec Db A) → Keeps P m → Keeps P n → Keeps P (if b then m else n)
  Keeps-if true m n km kn = km
  Keeps-if false m n km kn = kn

  pub Keeps-attempt :
      (body : Exec Db A) (handler : Error → Exec Db A)
      → Keeps P body
      → ((e : Error) → Keeps P (handler e))
      → Keeps P (attempt body handler)
  Keeps-attempt body handler k kh = record { at = λ db h. attempted (body db) (k.at db h) }
    where
      attempted : (r : Result A × Db) → P r.1.tables → P (after_error r handler).1.tables
      attempted (ok a, db') k = k
      attempted (err e, db') k = (kh e).at db' k

module _ {P : Tables → Type 0} where
  pub Keeps-require : (b : Bool) (e : Error) → Keeps P (require b e)
  Keeps-require true e = record { at = λ db h. h }
  Keeps-require false e = record { at = λ db h. h }

module _ {ℓ κ} {A : Type ℓ} {B : Type κ} {P : Tables → Type 0} where
  pub Keeps-bind :
      (m : Exec Db A) (f : A → Exec Db B)
      → Keeps P m
      → ((a : A) → Keeps P (f a))
      → Keeps P (m >>= f)
  Keeps-bind m f km kf = record { at = λ db h. continued (m db) (km.at db h) }
    where
      continued : (r : Result A × Db) → P r.1.tables → P (after_ok r f).1.tables
      continued (ok a, db') k = (kf a).at db' k
      continued (err e, db') k = k

pub ruleset keeps_rules = (
  Keeps-pure, Keeps-raise, Keeps-or_raise, Keeps-query, Keeps-execute, Keeps-transaction,
  Keeps-attempt, Keeps-with_now, Keeps-if, Keeps-require, Keeps-bind,
)

-- ===== src/Render/World/Stays.antt =====
-- Rules for what leaves the store's tables as they are.
use redline_os.Prelude.{◌≡◌, refl, ◌∙◌, Bool, true, false, Option, none, some, if◌then◌else◌}
use redline_os.Errors.{Error}
use redline_os.Exec.{Result, ok, err, Exec, pure, raise, require, or_raise, after_ok, ◌>>=◌}
use redline_os.Store.Rows.{Tables}
use redline_os.Store.Sql.{Db}
use redline_os.Store.Sql.Keeps.{Keeps}
use redline_os.Render.World.{Resolve, World, on_db, on_resolve, lift}

module _ {R : Resolve} {A : Type 0} where
  -- Whether it returns or raises, the tables are the ones that it started from.
  pub record Stays (m : Exec (World R) A) : Type 0 where
    pub at : (w : World R) → (m w).1.db.tables ≡ w.db.tables

  pub Stays-pure : (a : A) → Stays (pure a)
  Stays-pure a = record { at = λ w. refl }

  pub Stays-raise : (e : Error) → Stays (raise e)
  Stays-raise e = record { at = λ w. refl }

  pub Stays-or_raise : (e : Error) (o : Option A) → Stays (or_raise e o)
  Stays-or_raise e none = record { at = λ w. refl }
  Stays-or_raise e (some a) = record { at = λ w. refl }

  pub Stays-lift : (r : Result A) → Stays (lift r)
  Stays-lift r = record { at = λ w. refl }

  pub Stays-on_resolve : (m : Exec R.State A) → Stays (on_resolve m)
  unfolding on_resolve
  Stays-on_resolve m = record { at = λ w. refl }

  pub Stays-on_db : (m : Exec Db A) → ((t : Tables) → Keeps (λ t'. t' ≡ t) m) → Stays (on_db m)
  unfolding on_db
  Stays-on_db m k = record { at = λ w. (k w.db.tables).at w.db refl }

  pub Stays-if :
      (b : Bool) (m n : Exec (World R) A) → Stays m → Stays n → Stays (if b then m else n)
  Stays-if true m n km kn = km
  Stays-if false m n km kn = kn

module _ {R : Resolve} where
  pub Stays-require : (b : Bool) (e : Error) → Stays {R = R} (require b e)
  Stays-require true e = record { at = λ w. refl }
  Stays-require false e = record { at = λ w. refl }

module _ {R : Resolve} {A B : Type 0} where
  pub Stays-bind :
      (m : Exec (World R) A) (f : A → Exec (World R) B)
      → Stays m
      → ((a : A) → Stays (f a))
      → Stays (m >>= f)
  Stays-bind m f km kf = record { at = λ w. continued w (m w) (km.at w) }
    where
      continued :
          (w : World R) (r : Result A × World R)
          → r.1.db.tables ≡ w.db.tables
          → (after_ok r f).1.db.tables ≡ w.db.tables
      continued w (ok a, w') same = (kf a).at w' ∙ same
      continued w (err e, w') same = same

pub ruleset stays_rules = (
  Stays-pure, Stays-raise, Stays-or_raise, Stays-lift, Stays-on_resolve, Stays-on_db, Stays-if,
  Stays-require, Stays-bind,
)

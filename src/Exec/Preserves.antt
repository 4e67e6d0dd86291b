-- ===== src/Exec/Preserves.antt =====
-- A predicate on the state that a method keeps, whether it returns or raises.
use redline_os.Exec.{Exec, ok, err, Result, after_ok, after_error, attempt, ◌>>=◌}
use redline_os.Errors.{Error}

pub record Preserves {ℓ κ ι} {S : Type κ} {A : Type ℓ} (P : S → Type ι) (m : Exec S A)
    : Type (κ ⊔ ι) where
  pub at : (s : S) → P s → P (m s).1

module _ {ℓ ν κ ι} {S : Type κ} {P : S → Type ι} {A : Type ℓ} {B : Type ν} where
  after_ok-keeps :
      (f : A → Exec S B) (p : Result A × S)
      → ((a : A) → Preserves P (f a))
      → P p.1
      → P (after_ok p f).1
  after_ok-keeps f (ok a, s) h holds = (h a).at s holds
  after_ok-keeps f (err e, s) h holds = holds

  pub Preserves-bind :
      (m : Exec S A) (f : A → Exec S B)
      → Preserves P m
      → ((a : A) → Preserves P (f a))
      → Preserves P (m >>= f)
  Preserves-bind m f first rest = record {
    at = λ s holds. after_ok-keeps f (m s) rest (first.at s holds);
  }

module _ {ℓ κ ι} {S : Type κ} {P : S → Type ι} {A : Type ℓ} where
  after_error-keeps :
      (handler : Error → Exec S A) (p : Result A × S)
      → ((e : Error) → Preserves P (handler e))
      → P p.1
      → P (after_error p handler).1
  after_error-keeps handler (ok a, s) h holds = holds
  after_error-keeps handler (err e, s) h holds = (h e).at s holds

  pub Preserves-attempt :
      (m : Exec S A) (handler : Error → Exec S A)
      → Preserves P m
      → ((e : Error) → Preserves P (handler e))
      → Preserves P (attempt m handler)
  Preserves-attempt m handler first rest = record {
    at = λ s holds. after_error-keeps handler (m s) rest (first.at s holds);
  }

-- ===== src/Exec.antt =====
-- Methods that change a state and may raise. What was written before a raise stays written, so the
-- state comes back beside the error too.
pub mod Preserves
use redline_os.Prelude.{Bool, true, false, Option, none, some, ◌≡◌, refl, ◌⊎◌, inl, inr, arith}
use redline_os.Errors.{Error}

pub data Result {ℓ} (A : Type ℓ) : Type ℓ where
  ok : A → Result A
  err : Error → Result A

abbrev pub Exec {ℓ κ} : Type κ → Type ℓ → Type (ℓ ⊔ κ)
Exec S A = S → Result A × S

module _ {ℓ κ} {S : Type κ} {A : Type ℓ} where
  abbrev pub pure : A → Exec S A
  pure a s = (ok a, s)

  abbrev pub raise : Error → Exec S A
  raise e s = (err e, s)

  abbrev pub after_error : Result A × S → (Error → Exec S A) → Result A × S
  after_error (ok a, s) handler = (ok a, s)
  after_error (err e, s) handler = handler e s

  -- `try: body` with `except Exception as e: handler`.
  abbrev pub attempt : Exec S A → (Error → Exec S A) → Exec S A
  attempt body handler s = after_error (body s) handler

module _ {κ} {S : Type κ} where
  abbrev pub require : Bool → Error → Exec S (Unit {0})
  require true e s = (ok tt, s)
  require false e s = (err e, s)

  abbrev pub or_raise {ℓ} : {A : Type ℓ} → Error → Option A → Exec S A
  or_raise e none s = (err e, s)
  or_raise e (some a) s = (ok a, s)

module _ {ℓ ι κ} {S : Type κ} {A : Type ℓ} {B : Type ι} where
  abbrev pub after_ok : Result A × S → (A → Exec S B) → Result B × S
  after_ok (ok a, s) f = f a s
  after_ok (err e, s) f = (err e, s)

  infixl 10 ◌>>=◌ ◌>>◌
  abbrev pub ◌>>=◌ : Exec S A → (A → Exec S B) → Exec S B
  ◌>>=◌ m f s = after_ok (m s) f

  abbrev pub ◌>>◌ : Exec S A → Exec S B → Exec S B
  m >> n = m >>= λ _. n

pub Result-cases {ℓ} :
    {A : Type ℓ} (r : Result A) → ((e : Error) × (r ≡ err e)) ⊎ ((a : A) × (r ≡ ok a))
Result-cases (ok a) = inr (a, refl)
Result-cases (err e) = inl (e, refl)

module _ {ℓ ι κ} {S : Type κ} {A : Type ℓ} {B : Type ι} (f : A → Exec S B) where
  pub after_ok-ok : (p : Result A × S) (a : A) → p.0 ≡ ok a → after_ok p f ≡ f a p.1
  after_ok-ok (ok b, s) a h = ground arith
  after_ok-ok (err e, s) a h = cc

  pub after_ok-err : (p : Result A × S) (e : Error) → p.0 ≡ err e → after_ok p f ≡ (err e, p.1)
  after_ok-err (ok b, s) e h = cc
  after_ok-err (err x, s) e h = ground arith

module _ {ℓ κ} {S : Type κ} {A : Type ℓ} (handler : Error → Exec S A) where
  pub after_error-ok : (p : Result A × S) (a : A) → p.0 ≡ ok a → after_error p handler ≡ p
  after_error-ok (ok b, s) a h = refl
  after_error-ok (err e, s) a h = cc

  pub after_error-err :
      (p : Result A × S) (e : Error) → p.0 ≡ err e → after_error p handler ≡ handler e p.1
  after_error-err (ok b, s) e h = cc
  after_error-err (err x, s) e h = ground arith

-- ===== src/Prelude/Counting.antt =====
-- Laws of `find`, `count`, `update`, `select` and `any`.
use Prim.Native.Nat.{◌+◌, ◌≤◌, ◌<◌}
use mathlib.Core.Path.{◌≡◌, refl}
use mathlib.Core.Bool.{Bool, true, false, ◌&&◌, ◌||◌}
use mathlib.Core.Option.{Option, none, some}
use mathlib.Core.List.{List, [], ◌∷◌, ◌++◌}
use native.Mathlib.Omega.{arith}
use redline_os.Prelude.Equality.{if◌then◌else◌}
use redline_os.Prelude.Lists.{find, select, count, update, any}

module _ {ℓ} {A : Type ℓ} (p q : A → Bool) (f : A → A) where
  -- A change that leaves what `q` reads of the rows that it touches.
  pub count-update :
      ((x : A) → p x ≡ true → q (f x) ≡ q x) → (xs : List A) → count q (update p f xs) ≡ count q xs
  unfolding count update
  count-update h [] = refl
  count-update h (x ∷ xs) = ground (arith, h x, count-update h xs)

  pub any-update :
      ((x : A) → p x ≡ true → q (f x) ≡ q x) → (xs : List A) → any q (update p f xs) ≡ any q xs
  unfolding any update
  any-update h [] = refl
  any-update h (x ∷ xs) = ground (arith, h x, any-update h xs)

  -- After the change no row passes `q`.
  pub count-update_zero :
      ((x : A) → p x ≡ true → q (f x) ≡ false)
      → ((x : A) → p x ≡ false → q x ≡ false)
      → (xs : List A) → count q (update p f xs) ≡ 0
  unfolding count update
  count-update_zero h k [] = refl
  count-update_zero h k (x ∷ xs) = ground (arith, h x, k x, count-update_zero h k xs)

module _ {ℓ} {A : Type ℓ} (q : A → Bool) where
  pub count-append :
      (xs : List A) (y : A) → count q (xs ++ y ∷ []) ≡ count q xs + (if q y then 1 else 0)
  unfolding count
  count-append [] y = ground arith
  count-append (x ∷ xs) y = ground (arith, count-append xs y)

  pub count_of_not_any : (xs : List A) → any q xs ≡ false → count q xs ≡ 0
  unfolding any count
  count_of_not_any [] h = refl
  count_of_not_any (x ∷ xs) h = ground (arith, count_of_not_any xs)

  pub any_of_count : (xs : List A) → any q xs ≡ true → 0 < count q xs
  unfolding any count
  any_of_count [] h = ground arith
  any_of_count (x ∷ xs) h = ground (arith, any_of_count xs)

  pub count-select-le : (p : A → Bool) (xs : List A) → count q (select p xs) ≤ count q xs
  unfolding count select
  count-select-le p [] = omega arith
  count-select-le p (x ∷ xs) = ground (arith, count-select-le p xs)

  pub any-append : (xs : List A) (y : A) → any q xs ≡ true → any q (xs ++ y ∷ []) ≡ true
  unfolding any
  any-append [] y h = ground arith
  any-append (x ∷ xs) y h = ground (arith, any-append xs y)

  -- A row is added where the others leave room for it.
  pub count-append_le_one :
      (xs : List A) (y : A)
      → count q xs ≤ 1
      → (q y ≡ true → count q xs ≡ 0)
      → count q (xs ++ y ∷ []) ≤ 1
  count-append_le_one xs y h free = ground (arith, count-append xs y)

  pub any-or :
      (p : A → Bool) (xs : List A)
      → any (λ x. q x || p x) xs ≡ false
      → (any q xs ≡ false) × (any p xs ≡ false)
  unfolding any
  any-or p [] h = (refl, refl)
  any-or p (x ∷ xs) h = ground (arith, any-or p xs)

  pub any-append_one : (xs : List A) (y : A) → any q (xs ++ y ∷ []) ≡ (any q xs || q y)
  unfolding any
  any-append_one [] y = ground arith
  any-append_one (x ∷ xs) y = ground (arith, any-append_one xs y)

  pub any-select : (p : A → Bool) (xs : List A) → any q (select p xs) ≡ true → any q xs ≡ true
  unfolding any select
  any-select p [] h = h
  any-select p (x ∷ xs) h = ground (arith, any-select p xs)

-- What an update of the rows that pass `p` and `q` does to the one row that passes `p`.
abbrev pub changed_if {ℓ} : {A : Type ℓ} → (A → Bool) → (A → A) → Option A → Option A
changed_if q f none = none
changed_if q f (some x) = some (if q x then f x else x)

abbrev pub holds_of {ℓ} : {A : Type ℓ} → (A → Bool) → Option A → Bool
holds_of q none = false
holds_of q (some x) = q x

module _ {ℓ} {A : Type ℓ} (p q : A → Bool) where
  pub find-update :
      (f : A → A)
      → ((x : A) → p (f x) ≡ p x)
      → (xs : List A) → find p (update (λ x. p x && q x) f xs) ≡ changed_if q f (find p xs)
  unfolding find update
  find-update f h [] = refl
  find-update f h (x ∷ xs) = ground (arith, h x, find-update f h xs)

  count-and-le : (xs : List A) → count (λ x. p x && q x) xs ≤ count p xs
  unfolding count
  count-and-le [] = omega arith
  count-and-le (x ∷ xs) = ground (arith, count-and-le xs)

  pub count_of_unique :
      (xs : List A)
      → count p xs ≤ 1
      → count (λ x. p x && q x) xs ≡ (if holds_of q (find p xs) then 1 else 0)
  unfolding count find
  count_of_unique [] h = refl
  count_of_unique (x ∷ xs) h = ground (arith, count-and-le xs, count_of_unique xs)

  pub any_of_find : (xs : List A) (x : A) → find p xs ≡ some x → any p xs ≡ true
  unfolding any find
  any_of_find [] x h = cc
  any_of_find (y ∷ xs) x h = ground (arith, any_of_find xs x)

module _ {ℓ} {A : Type ℓ} (p : A → Bool) where
  -- An update that matches no row changes nothing.
  pub update_none : (f : A → A) (xs : List A) → count p xs ≡ 0 → update p f xs ≡ xs
  unfolding update count
  update_none f [] h = refl
  update_none f (x ∷ xs) h = ground (arith, update_none f xs)

  -- The row that is found passes.
  pub find_passes : (xs : List A) (x : A) → find p xs ≡ some x → p x ≡ true
  unfolding find
  find_passes [] x h = cc
  find_passes (y ∷ xs) x h = ground (arith, find_passes xs x)

  -- A new row is found behind rows that do not pass.
  pub find-append :
      (xs : List A) (y : A) → count p xs ≡ 0 → p y ≡ true → find p (xs ++ y ∷ []) ≡ some y
  unfolding find count
  find-append [] y h passes = ground arith
  find-append (x ∷ xs) y h passes = ground (arith, find-append xs y)

-- Where one row at most has the key, an update under a further condition is one by the key alone.
module _ {ℓ} {A : Type ℓ} (p q : A → Bool) where
  pub update_one :
      (f : A → A) (xs : List A)
      → count p xs ≤ 1
      → update (λ x. p x && q x) f xs ≡ (if holds_of q (find p xs) then update p f xs else xs)
  unfolding update count find
  update_one f [] h = refl
  update_one f (x ∷ xs) h = ground (
    arith,
    count-and-le p q xs,
    update_none p f xs,
    update_none (λ x. p x && q x) f xs,
    update_one f xs,
  )

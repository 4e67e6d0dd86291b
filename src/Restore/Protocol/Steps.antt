-- ===== src/Restore/Protocol/Steps.antt =====
-- docs/BACKUP_RECOVERY_ARCHITECTURE.md: what one action of the protocol says of the phase after it.
use mathlib.Core.Option.{none-ne-some}
use redline_os.Prelude.{
  ℕ, ◌+◌, ◌≤◌, Bool, true, false, ◌&&◌, ◌||◌, none, some, ◌≡◌, refl, ◌⊎◌, inl, inr, ◌==◌, nat_eq,
  leb, arith, Bool-cases, eq_of_==,
}
use redline_os.Restore.Protocol.{
  Mutation, disposal, database_swap, config_aside, config_install, Kind, notice, failure,
  unexpected, passes, intends, completes, Mode, calm, stopped, intended, touching, Phase, at,
  same_mutation, when, obey,
}

abbrev pub reaches : ℕ → Kind → Bool
reaches k (passes n) = n == k
reaches k (completes m n) = n == k
reaches k _ = false

abbrev pub is_intent : Mutation → Kind → Bool
is_intent m (intends m' n) = same_mutation m' m
is_intent m _ = false

abbrev pub is_end : Mutation → Kind → Bool
is_end m (completes m' n) = same_mutation m' m
is_end m failure = true
is_end m _ = false

abbrev pub is_failure : Kind → Bool
is_failure failure = true
is_failure _ = false

pub when-some : (b : Bool) (p q : Phase) → when b p ≡ some q → (b ≡ true) × (q ≡ p)
when-some b p q h = ground arith

pub completed :
    (b : Bool) (k n : ℕ) (q : Phase)
    → ((b && (k == n || k == n + 1)) ≡ true) × (q ≡ at k calm)
    → (q.milestone ≡ n) ⊎ ((q.milestone ≡ n + 1) × ((k == n + 1) ≡ true))
completed b k n q h = elim (Bool-cases (k == n)) [
  | inl e ↦ inl (ground (arith, h.1, eq_of_== k n e))
  | inr e ↦
      let reached : (k == n + 1) ≡ true = ground (arith, h.0, e) in
      inr (ground (arith, h.1, eq_of_== k (n + 1) reached), reached)
]

-- One state takes an attempt one milestone further at most, and then it reaches that one.
pub obey-milestone :
    (kind : Kind) (n : ℕ) (mode : Mode) (q : Phase)
    → obey kind n mode ≡ some q
    → (q.milestone ≡ n) ⊎ ((q.milestone ≡ n + 1) × (reaches (n + 1) kind ≡ true))
obey-milestone failure n calm q h = inl (ground arith)
obey-milestone failure n stopped q h = ground arith
obey-milestone failure n (intended m) q h = inl (ground arith)
obey-milestone failure n (touching m) q h = inl (ground arith)
obey-milestone notice n calm q h = inl (ground arith)
obey-milestone notice n stopped q h = ground arith
obey-milestone notice n (intended m) q h = ground arith
obey-milestone notice n (touching m) q h = ground arith
obey-milestone unexpected n calm q h = ground arith
obey-milestone unexpected n stopped q h = ground arith
obey-milestone unexpected n (intended m) q h = ground arith
obey-milestone unexpected n (touching m) q h = ground arith
obey-milestone (passes k) n calm q h =
    let both = when-some (k == n + 1) (at k calm) q h in
    inr (ground (arith, both.1, eq_of_== k (n + 1) both.0), both.0)
obey-milestone (passes k) n stopped q h = ground arith
obey-milestone (passes k) n (intended m) q h = ground arith
obey-milestone (passes k) n (touching m) q h = ground arith
obey-milestone (intends m k) n calm q h =
    inl (ground (arith, when-some (k == n) (at n (intended m)) q h))
obey-milestone (intends m k) n stopped q h = ground arith
obey-milestone (intends m k) n (intended m') q h = ground arith
obey-milestone (intends m k) n (touching m') q h = ground arith
obey-milestone (completes m k) n calm q h = ground arith
obey-milestone (completes m k) n stopped q h = ground arith
obey-milestone (completes m k) n (intended m') q h = ground arith
obey-milestone (completes m k) n (touching m') q h =
    completed (same_mutation m m') k n q
      (when-some (same_mutation m m' && (k == n || k == n + 1)) (at k calm) q h)

pub and_left : (a b : Bool) → (a && b) ≡ true → a ≡ true
and_left a b h = ground arith

pub and_right : (a b : Bool) → (a && b) ≡ true → b ≡ true
and_right a b h = ground arith

pub or_left : (a b : Bool) → a ≡ true → (a || b) ≡ true
or_left a b h = ground arith

pub or_right : (a : Bool) {b : Bool} → b ≡ true → (a || b) ≡ true
or_right a h = ground arith

pub leb_le : (a b : ℕ) → leb a b ≡ true → a ≤ b
leb_le a b h = ground arith

pub le_trans : (a b c : ℕ) → a ≤ b → b ≤ c → a ≤ c
le_trans a b c h g = omega arith

pub is_next : (k n : ℕ) → leb k n ≡ false → k ≤ n + 1 → k ≡ n + 1
is_next k n h g = ground arith

-- After a change only its end is obeyed.
pub obey-touching :
    (kind : Kind) (n : ℕ) (m : Mutation) (q : Phase)
    → obey kind n (touching m) ≡ some q
    → is_end m kind ≡ true
obey-touching failure n m q h = refl
obey-touching notice n m q h = ground arith
obey-touching unexpected n m q h = ground arith
obey-touching (passes k) n m q h = ground arith
obey-touching (intends m' k) n m q h = ground arith
obey-touching (completes m' k) n m q h =
    and_left (same_mutation m' m) (k == n || k == n + 1) (when-some _ (at k calm) q h).0

pub obey-stopped :
    (kind : Kind) (n : ℕ) (q : Phase) (b : Bool) → obey kind n stopped ≡ some q → b ≡ true
obey-stopped failure n q b h = ground arith
obey-stopped notice n q b h = ground arith
obey-stopped unexpected n q b h = ground arith
obey-stopped (passes k) n q b h = ground arith
obey-stopped (intends m' k) n q b h = ground arith
obey-stopped (completes m' k) n q b h = ground arith

-- A failure stops, and a change is intended by its intent alone.
pub obey-failure :
    (kind : Kind) (n : ℕ) (mode : Mode) (q : Phase)
    → obey kind n mode ≡ some q
    → is_failure kind ≡ true
    → q.mode ≡ stopped
obey-failure failure n calm q h e = ground arith
obey-failure failure n stopped q h e = ground arith
obey-failure failure n (intended m) q h e = ground arith
obey-failure failure n (touching m) q h e = ground arith
obey-failure notice n mode q h e = ground arith
obey-failure unexpected n mode q h e = ground arith
obey-failure (passes k) n mode q h e = ground arith
obey-failure (intends m k) n mode q h e = ground arith
obey-failure (completes m k) n mode q h e = ground arith

pub same_mutation_refl : (m : Mutation) → same_mutation m m ≡ true
same_mutation_refl disposal = refl
same_mutation_refl database_swap = refl
same_mutation_refl config_aside = refl
same_mutation_refl config_install = refl

pub some-at : (p q : Phase) → some p ≡ some q → q ≡ p
some-at p q h = ground arith

pub none-some {ℓ} : {A : Type ℓ} (q : Phase) → none ≡ some q → A
none-some q h = absurd (none-ne-some q h)

pub same_mutation-eq : (m m' : Mutation) → same_mutation m m' ≡ true → m ≡ m'
same_mutation-eq m m' h = ground arith

pub calm-intended {ℓ} : {A : Type ℓ} (m : Mutation) → calm ≡ intended m → A
calm-intended m h = absurd (ground arith)

pub touching-intended {ℓ} : {A : Type ℓ} (m m' : Mutation) → touching m ≡ intended m' → A
touching-intended m m' h = absurd (ground arith)

-- What the mode after a state says of the state.
abbrev pub IsModeOf : Kind → Mode → Type 0
IsModeOf kind (intended m) = is_intent m kind ≡ true
IsModeOf kind (touching m) = true ≡ false
IsModeOf kind _ = Unit

pub obey-IsModeOf :
    (kind : Kind) (n : ℕ) (mode : Mode) (q : Phase)
    → obey kind n mode ≡ some q
    → IsModeOf kind q.mode
obey-IsModeOf failure n calm q h = rw (some-at (at n stopped) q h) tt
obey-IsModeOf failure n stopped q h = none-some q h
obey-IsModeOf failure n (intended m) q h = rw (some-at (at n stopped) q h) tt
obey-IsModeOf failure n (touching m) q h = rw (some-at (at n stopped) q h) tt
obey-IsModeOf notice n calm q h = rw (some-at (at n calm) q h) tt
obey-IsModeOf notice n stopped q h = none-some q h
obey-IsModeOf notice n (intended m) q h = none-some q h
obey-IsModeOf notice n (touching m) q h = none-some q h
obey-IsModeOf unexpected n calm q h = none-some q h
obey-IsModeOf unexpected n stopped q h = none-some q h
obey-IsModeOf unexpected n (intended m) q h = none-some q h
obey-IsModeOf unexpected n (touching m) q h = none-some q h
obey-IsModeOf (passes k) n calm q h = rw (when-some (k == n + 1) (at k calm) q h).1 tt
obey-IsModeOf (passes k) n stopped q h = none-some q h
obey-IsModeOf (passes k) n (intended m) q h = none-some q h
obey-IsModeOf (passes k) n (touching m) q h = none-some q h
obey-IsModeOf (intends m k) n calm q h =
    rw (when-some (k == n) (at n (intended m)) q h).1 (same_mutation_refl m)
obey-IsModeOf (intends m k) n stopped q h = none-some q h
obey-IsModeOf (intends m k) n (intended m') q h = none-some q h
obey-IsModeOf (intends m k) n (touching m') q h = none-some q h
obey-IsModeOf (completes m k) n calm q h = none-some q h
obey-IsModeOf (completes m k) n stopped q h = none-some q h
obey-IsModeOf (completes m k) n (intended m') q h = none-some q h
obey-IsModeOf (completes m k) n (touching m') q h = rw (when-some _ (at k calm) q h).1 tt

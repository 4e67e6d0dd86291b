-- ===== src/Restore/Protocol/Guards.antt =====
-- docs/BACKUP_RECOVERY_ARCHITECTURE.md: what the protocol promises of any log that it allows.
use redline_os.Prelude.{
  ℕ, ◌≤◌, Bool, true, false, not, ◌&&◌, Option, none, some, List, [], ◌∷◌, ◌≡◌, refl, ap, sym, ◌∙◌,
  inl, inr, nat_eq, leb, arith, any, Bool-cases,
}
use redline_os.Restore.Protocol.{
  Mutation, Action, recorded, touched, Kind, Mode, calm, stopped, intended, touching, Phase, at,
  same_mutation, obey, Protocol, touch_in, advance, advance_from, phase_of,
}
use redline_os.Restore.Protocol.Steps.{
  IsModeOf, and_left, and_right, calm-intended, is_end, is_failure, is_intent, is_next, le_trans,
  leb_le, none-some, obey-IsModeOf, obey-failure, obey-milestone, obey-stopped, obey-touching,
  or_left, or_right, reaches, same_mutation-eq, some-at, touching-intended, when-some,
}

module _ (protocol : Protocol) where
  abbrev passed_by : ℕ → Action → Bool
  passed_by k (recorded state) = reaches k (protocol.kind state)
  passed_by k (touched m) = false

  -- The milestone was passed before.
  abbrev pub has_passed : ℕ → List Action → Bool
  has_passed k log = any (passed_by k) log

  -- The last action was the intent of the change.
  abbrev pub has_intent : Mutation → List Action → Bool
  has_intent m [] = false
  has_intent m (recorded state ∷ log) = is_intent m (protocol.kind state)
  has_intent m (touched m' ∷ log) = false

  -- The state may follow: not after a failure, and after a change only its end.
  abbrev pub may_follow : Kind → List Action → Bool
  may_follow kind [] = true
  may_follow kind (recorded state ∷ log) = not (is_failure (protocol.kind state))
  may_follow kind (touched m ∷ log) = is_end m kind

  -- Every change came right after its intent, after all milestones before the first one that allows
  -- changes; after a change only its end was recorded, and after a failure nothing.
  abbrev pub IsGuarded : List Action → Type 0
  IsGuarded [] = Unit
  IsGuarded (touched m ∷ log) =
      (has_intent m log ≡ true)
      × ((k : ℕ) → 1 ≤ k → k ≤ protocol.first → has_passed k log ≡ true)
      × IsGuarded log
  IsGuarded (recorded state ∷ log) = (may_follow (protocol.kind state) log ≡ true) × IsGuarded log

  phase_before :
      (action : Action) (o : Option Phase) (q : Phase)
      → advance_from protocol action o ≡ some q
      → (p : Phase) × (o ≡ some p) × (advance protocol action p ≡ some q)
  phase_before action none q h = ground arith
  phase_before action (some p) q h = (p, refl, h)

module _ (protocol : Protocol) where
  touch_in-eq :
      (m : Mutation) (n : ℕ) (mode : Mode) (q : Phase)
      → touch_in protocol m n mode ≡ some q
      → (m' : Mutation) × (mode ≡ intended m')
        × ((same_mutation m m' && leb protocol.first n) ≡ true)
        × (q ≡ at n (touching m'))
  touch_in-eq m n calm q h = none-some q h
  touch_in-eq m n stopped q h = none-some q h
  touch_in-eq m n (touching m') q h = none-some q h
  touch_in-eq m n (intended m') q h =
      let both = when-some (same_mutation m m' && leb protocol.first n) (at n (touching m')) q h in
      (m', refl, both.0, both.1)

  -- The log's last action says what the mode is.
  abbrev IsModeAfter : List Action → Mode → Type 0
  IsModeAfter [] mode = mode ≡ calm
  IsModeAfter (recorded state ∷ log) mode =
      IsModeOf (protocol.kind state) mode
      × (is_failure (protocol.kind state) ≡ true → mode ≡ stopped)
  IsModeAfter (touched m ∷ log) mode =
      (m' : Mutation) × (mode ≡ touching m') × (same_mutation m m' ≡ true)

  phase-IsModeAfter :
      (log : List Action) (q : Phase) → phase_of protocol log ≡ some q → IsModeAfter log q.mode
  unfolding phase_of
  phase-IsModeAfter [] q h = rw (some-at (at 0 calm) q h) refl
  phase-IsModeAfter (recorded state ∷ log) q h =
      let (p, e, f) = phase_before protocol (recorded state) (phase_of protocol log) q h in
      (
        obey-IsModeOf (protocol.kind state) p.milestone p.mode q f,
        obey-failure (protocol.kind state) p.milestone p.mode q f,
      )
  phase-IsModeAfter (touched m ∷ log) q h =
      let (p, e, f) = phase_before protocol (touched m) (phase_of protocol log) q h in
      let (m', mode, both, eq) = touch_in-eq m p.milestone p.mode q f in
      (m', ap (λ r. r.mode) eq, and_left _ _ both)

  -- Every milestone up to the one of the phase was passed.
  phase-has_passed :
      (log : List Action) (q : Phase) (k : ℕ)
      → phase_of protocol log ≡ some q
      → 1 ≤ k
      → k ≤ q.milestone
      → has_passed protocol k log ≡ true
  unfolding phase_of any
  phase-has_passed [] q k h one le = ground (arith, some-at (at 0 calm) q h)
  phase-has_passed (recorded state ∷ log) q k h one le =
      let (p, e, f) = phase_before protocol (recorded state) (phase_of protocol log) q h in
      elim (obey-milestone (protocol.kind state) p.milestone p.mode q f) [
        | inl eq ↦
            or_right (reaches k (protocol.kind state))
              (phase-has_passed log p k e one (omega arith))
        | inr (eq, reached) ↦ elim (Bool-cases (leb k p.milestone)) [
          | inl before ↦
              or_right (reaches k (protocol.kind state))
                (phase-has_passed log p k e one (leb_le k p.milestone before))
          | inr after ↦
              or_left (reaches k (protocol.kind state)) (has_passed protocol k log)
                (rw (is_next k p.milestone after (omega arith)) reached)
        ]
      ]
  phase-has_passed (touched m ∷ log) q k h one le =
      let (p, e, f) = phase_before protocol (touched m) (phase_of protocol log) q h in
      let (m', mode, both, eq) = touch_in-eq m p.milestone p.mode q f in
      phase-has_passed log p k e one (omega (arith, ap (λ r. r.milestone) eq))

  intended-has_intent :
      (m m' : Mutation) (log : List Action) (mode : Mode)
      → IsModeAfter log mode
      → mode ≡ intended m'
      → same_mutation m m' ≡ true
      → has_intent protocol m log ≡ true
  intended-has_intent m m' [] mode after e s = calm-intended m' (sym after ∙ e)
  intended-has_intent m m' (recorded state ∷ log) mode after e s =
      let intent : is_intent m' (protocol.kind state) ≡ true = rw e at after.0 in
      rw (same_mutation-eq m m' s) intent
  intended-has_intent m m' (touched m1 ∷ log) mode after e s =
      touching-intended after.0 m' (sym after.1 ∙ e)

  phase-may_follow :
      (kind : Kind) (log : List Action) (p q : Phase)
      → IsModeAfter log p.mode
      → obey kind p.milestone p.mode ≡ some q
      → may_follow protocol kind log ≡ true
  phase-may_follow kind [] p q after h = refl
  phase-may_follow kind (recorded state ∷ log) p q after h =
      elim (Bool-cases (is_failure (protocol.kind state))) [
        | inl e ↦ obey-stopped kind p.milestone q _ (rw (after.1 e) at h)
        | inr e ↦ rw e refl
      ]
  phase-may_follow kind (touched m ∷ log) p q after h =
      rw (same_mutation-eq m after.0 after.2)
        (obey-touching kind p.milestone after.0 q (rw after.1 at h))

  -- Every log that the protocol allows is guarded.
  pub phase-IsGuarded :
      (log : List Action) (q : Phase) → phase_of protocol log ≡ some q → IsGuarded protocol log
  unfolding phase_of
  phase-IsGuarded [] q h = tt
  phase-IsGuarded (recorded state ∷ log) q h =
      let (p, e, f) = phase_before protocol (recorded state) (phase_of protocol log) q h in
      (
        phase-may_follow (protocol.kind state) log p q (phase-IsModeAfter log p e) f,
        phase-IsGuarded log p e,
      )
  phase-IsGuarded (touched m ∷ log) q h =
      let (p, e, f) = phase_before protocol (touched m) (phase_of protocol log) q h in
      let (m', mode, both, eq) = touch_in-eq m p.milestone p.mode q f in
      (
        intended-has_intent m m' log p.mode (phase-IsModeAfter log p e) mode (and_left _ _ both),
        λ k one le.
            phase-has_passed log p k e one
              (le_trans k _ _ le (leb_le protocol.first p.milestone (and_right _ _ both))),
        phase-IsGuarded log p e,
      )

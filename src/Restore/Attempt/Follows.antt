-- ===== src/Restore/Attempt/Follows.antt =====
-- When a part of an attempt follows the protocol: from one phase it leads to another if it returns,
-- and if it raises, the log still is one that the protocol allows, and not yet at the last milestone.
use redline_os.Prelude.{ℕ, ltb, Bool, true, false, some, List, ◌∷◌, ◌≡◌, if◌then◌else◌}
use redline_os.Errors.{Error}
use redline_os.Exec.{Exec, Result, ok, err, pure, raise, require, after_ok, after_error}
use redline_os.Restore.Journal.States.{RestoreState}
use redline_os.Restore.Protocol.{
  Protocol, stopped, touching, intended, Mutation, Phase, at, Action, recorded, touched, advance,
  phase_of,
}
use redline_os.Restore.System.{System}
use redline_os.Restore.Attempt.{
  Attempt, ◌>>=◌, ◌>>◌, call, touch, note, fail, or_fail, or_record, handle, back, published,
}

module _ (protocol : Protocol) (K : System) where
  -- Not at the last milestone.
  abbrev pub IsUnfinished : List Action → Type 0
  IsUnfinished log =
      (p : Phase) × (phase_of protocol log ≡ some p) × (ltb p.milestone protocol.last ≡ true)

  abbrev pub Ends : {A : Type 0} → Phase → Result A × Attempt K → Type 0
  Ends q (ok a, t) = phase_of protocol t.log ≡ some q
  Ends q (err e, t) = IsUnfinished t.log

  pub record Follows {A : Type 0} (p : Phase) (m : Exec (Attempt K) A) (q : Phase) : Type 0 where
    pub run : (t : Attempt K) → phase_of protocol t.log ≡ some p → Ends q (m t)

  -- A failure may be recorded in the phase.
  abbrev pub CanFail : RestoreState → Phase → Type 0
  CanFail state p =
      (advance protocol (recorded state) p ≡ some (at p.milestone stopped))
      × (ltb p.milestone protocol.last ≡ true)

  back-Ends :
      {A : Type 0} (p : Phase) (log : List Action) (x : Result A × K.State)
      → ltb p.milestone protocol.last ≡ true
      → phase_of protocol log ≡ some p
      → Ends p (back log x)
  back-Ends p log (ok a, s) h e = e
  back-Ends p log (err x, s) h e = (p, e, h)

  phase-cons :
      (action : Action) (log : List Action) (p q : Phase)
      → phase_of protocol log ≡ some p
      → advance protocol action p ≡ some q
      → phase_of protocol (action ∷ log) ≡ some q
  unfolding phase_of
  phase-cons action log p q h e = rw h e

  note-Ends :
      (p q : Phase) (state : RestoreState) (log : List Action) (r : Result (Unit {0})) (s : K.State)
      → advance protocol (recorded state) p ≡ some q
      → ltb p.milestone protocol.last ≡ true
      → phase_of protocol log ≡ some p
      → Ends q (r, record { state = s; log = published state log r })
  note-Ends p q state log (ok done) s h lt e = phase-cons (recorded state) log p q e h
  note-Ends p q state log (err x) s h lt e = (p, e, lt)

module _ {protocol : Protocol} {K : System} where
  after_ok-Ends :
      {A B : Type 0} (q r : Phase) (f : A → Exec (Attempt K) B) (x : Result A × Attempt K)
      → Ends protocol K q x
      → ((a : A) → Follows protocol K q (f a) r)
      → Ends protocol K r (after_ok x f)
  after_ok-Ends q r f (ok a, t) h rest = (rest a).run t h
  after_ok-Ends q r f (err e, t) h rest = h

  pub Follows-bind :
      {A B : Type 0} {p r : Phase} (q : Phase) {m : Exec (Attempt K) A} {f : A → Exec (Attempt K) B}
      → Follows protocol K p m q
      → ((a : A) → Follows protocol K q (f a) r)
      → Follows protocol K p (m >>= f) r
  unfolding ◌>>=◌
  Follows-bind q h rest = record { run = λ t e. after_ok-Ends _ _ _ _ (h.run t e) rest }

  pub Follows-then :
      {A B : Type 0} {p r : Phase} (q : Phase) {m : Exec (Attempt K) A} {n : Exec (Attempt K) B}
      → Follows protocol K p m q
      → Follows protocol K q n r
      → Follows protocol K p (m >> n) r
  unfolding ◌>>◌
  Follows-then q h rest = record { run = λ t e. after_ok-Ends _ _ _ _ (h.run t e) (λ _. rest) }

  pub Follows-pure : {A : Type 0} (p : Phase) (a : A) → Follows protocol K p (pure a) p
  Follows-pure p a = record { run = λ t e. e }

  pub Follows-raise :
      {A : Type 0} (p q : Phase) (e : Error)
      → ltb p.milestone protocol.last ≡ true
      → Follows protocol K p (raise {A = A} e) q
  Follows-raise p q e h = record { run = λ t eq. (p, eq, h) }

  pub Follows-require :
      (p : Phase) (b : Bool) (e : Error)
      → ltb p.milestone protocol.last ≡ true
      → Follows protocol K p (require b e) p
  Follows-require p true e h = record { run = λ t eq. eq }
  Follows-require p false e h = record { run = λ t eq. (p, eq, h) }

  pub Follows-call :
      {A : Type 0} (p : Phase) (m : Exec K.State A)
      → ltb p.milestone protocol.last ≡ true
      → Follows protocol K p (call m) p
  unfolding call
  Follows-call p m h = record { run = λ t e. back-Ends protocol K p t.log (m t.state) h e }

  pub Follows-note :
      (p : Phase) (state : RestoreState) (q : Phase)
      → advance protocol (recorded state) p ≡ some q
      → ltb p.milestone protocol.last ≡ true
      → Follows protocol K p (note state) q
  unfolding note
  Follows-note p state q h lt = record {
    run = λ t e. note-Ends protocol K p q state t.log (K.record_state state t.state).0 _ h lt e;
  }

  -- A state is recorded first.
  pub Follows-step :
      {A : Type 0} {p r : Phase} (state : RestoreState) (q : Phase) {n : Exec (Attempt K) A}
      → advance protocol (recorded state) p ≡ some q
      → ltb p.milestone protocol.last ≡ true
      → Follows protocol K q n r
      → Follows protocol K p (note state >> n) r
  Follows-step state q h lt rest = Follows-then q (Follows-note _ state q h lt) rest

  pub Follows-fail :
      {A : Type 0} (p q : Phase) (state : RestoreState) (e : Error)
      → CanFail protocol K state p
      → Follows protocol K p (fail {A = A} state e) q
  unfolding fail
  Follows-fail p q state e can = record {
    run = λ t eq.
        after_ok-Ends (at p.milestone stopped) q (λ _. raise e) (note state t)
          ((Follows-note p state (at p.milestone stopped) can.0 can.1).run t eq)
          (λ _. Follows-raise (at p.milestone stopped) q e can.1);
  }

  pub Follows-or_fail :
      (p : Phase) (b : Bool) (state : RestoreState) (e : Error)
      → CanFail protocol K state p
      → Follows protocol K p (or_fail b state e) p
  unfolding or_fail
  Follows-or_fail p true state e can = record { run = λ t eq. eq }
  Follows-or_fail p false state e can = record { run = (Follows-fail p p state e can).run }

  handle-Follows :
      {A : Type 0} (p : Phase) (is_caught : Error → Bool) (state : RestoreState)
      (reraised : Error → Error) (e : Error)
      → CanFail protocol K state p
      → Follows protocol K p (handle {A = A} is_caught state reraised e) p
  handle-Follows {A = A} p is_caught state reraised e can =
      elim (is_caught e)
        as (λ b. Follows protocol K {A = A} p (if b then fail state (reraised e) else raise e) p) [
          | true ↦ Follows-fail p p state (reraised e) can
          | false ↦ Follows-raise p p e can.1
        ]

module _ (protocol : Protocol) (K : System) where
  handled-Ends :
      {A : Type 0} (p : Phase) (is_caught : Error → Bool) (state : RestoreState)
      (reraised : Error → Error) (x : Result A × Attempt K)
      → CanFail protocol K state p
      → phase_of protocol x.1.log ≡ some p
      → Ends protocol K p (after_error x (handle is_caught state reraised))
  handled-Ends p is_caught state reraised (ok a, t) can h = h
  handled-Ends p is_caught state reraised (err e, t) can h =
      (handle-Follows p is_caught state reraised e can).run t h

module _ {protocol : Protocol} {K : System} where
  pub Follows-or_record-call :
      {A : Type 0} (p : Phase) (is_caught : Error → Bool) (state : RestoreState)
      (reraised : Error → Error) (m : Exec K.State A)
      → CanFail protocol K state p
      → Follows protocol K p (or_record is_caught state reraised (call m)) p
  unfolding or_record call
  Follows-or_record-call p is_caught state reraised m can = record {
    run = λ t h. handled-Ends protocol K p is_caught state reraised (back t.log (m t.state)) can h;
  }

  -- The failure of a change is recorded after it was tried.
  pub Follows-or_record-touch :
      {A : Type 0} (n : ℕ) (mutation : Mutation) (is_caught : Error → Bool) (state : RestoreState)
      (reraised : Error → Error) (body : Exec K.State A)
      → advance protocol (touched mutation) (at n (intended mutation))
        ≡ some (at n (touching mutation))
      → CanFail protocol K state (at n (touching mutation))
      → Follows protocol K
          (at n (intended mutation))
          (or_record is_caught state reraised (touch mutation body))
          (at n (touching mutation))
  unfolding or_record touch
  Follows-or_record-touch n mutation is_caught state reraised body step can = record {
    run = λ t h.
        handled-Ends protocol K (at n (touching mutation)) is_caught state reraised
          (back (touched mutation ∷ t.log) (body t.state)) can
          (phase-cons protocol K (touched mutation) t.log _ _ h step);
  }

  pub Follows-if :
      {A : Type 0} (p q : Phase) (b : Bool) {m n : Exec (Attempt K) A}
      → Follows protocol K p m q
      → Follows protocol K p n q
      → Follows protocol K p (if b then m else n) q
  Follows-if p q true h g = h
  Follows-if p q false h g = g

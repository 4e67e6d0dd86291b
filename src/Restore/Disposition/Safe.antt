-- ===== src/Restore/Disposition/Safe.antt =====
-- A disposition moves one object to a free path, or nothing.
use redline_os.Prelude.{
  String, Bool, true, false, ◌≡◌, ◌≢◌, refl, ◌⊎◌, inl, inr, Option, none, some, nat_eq, string_eq,
  arith, Bool-cases,
}
use redline_os.Prelude.Dict.{get, put, pop}
use redline_os.Exec.{Result, ok, Result-cases, after_ok-ok, after_ok-err}
use redline_os.Render.World.{Platform}
use redline_os.Restore.Disk.{refused, Disk, Stat, is_unsafe_link, lstat, stat_device, rename}
use redline_os.Restore.Disposition.{
  DispositionResult, superseded, same_kind, dispose_target, check_disposable, move_aside,
}

module _ (P : Platform) (source_path target_kind : String) (expected_regular : Bool)
    (restore_id : String) (d : Disk) where
  abbrev destination : String
  destination = superseded P source_path restore_id

  abbrev pub disposed : Result DispositionResult × Disk
  disposed = dispose_target P source_path target_kind expected_regular restore_id d

  -- The object that was at the source, no link and of the expected kind, is at the destination,
  -- where nothing was.
  pub record IsMoved (d' : Disk) : Type 0 where
    pub object : Stat
    pub here : get source_path d.objects ≡ some object
    pub safe : is_unsafe_link object ≡ false
    pub kind : same_kind object.is_regular expected_regular ≡ true
    pub free : get destination d.objects ≡ none
    pub objects : d'.objects ≡ put destination object (pop source_path d.objects)

  abbrev checked : Result (Unit {0}) × Disk
  checked = check_disposable P source_path expected_regular restore_id d

  checked_objects : checked.1.objects ≡ d.objects
  unfolding check_disposable lstat stat_device
  checked_objects = ground arith

  -- What the checks have seen where they pass.
  record IsDisposable : Type 0 where
    object : Stat
    here : get source_path d.objects ≡ some object
    safe : is_unsafe_link object ≡ false
    kind : same_kind object.is_regular expected_regular ≡ true
    free : get destination d.objects ≡ none

  not_absent : get source_path d.objects ≡ none → checked.0 ≢ ok tt
  unfolding check_disposable lstat stat_device
  not_absent absent passes = ground arith

  seen_safe :
      (st : Stat)
      → get source_path d.objects ≡ some st
      → checked.0 ≡ ok tt
      → (is_unsafe_link st ≡ false)
        × (same_kind st.is_regular expected_regular ≡ true)
        × (get destination d.objects ≡ none)
  unfolding check_disposable lstat stat_device
  seen_safe st here passes = (ground arith, ground arith, ground arith)

  disposable : (o : Option Stat) → get source_path d.objects ≡ o → checked.0 ≡ ok tt → IsDisposable
  disposable none absent passes = absurd (not_absent absent passes)
  disposable (some st) here passes =
      let seen = seen_safe st here passes in
      record { object = st; here = here; safe = seen.0; kind = seen.1; free = seen.2 }

  abbrev after_check : Unit {0} → Disk → Result DispositionResult × Disk
  after_check done = move_aside source_path target_kind destination

  move_objects :
      (c : IsDisposable)
      → ((after_check tt checked.1).1.objects ≡ d.objects)
        ⊎ ((after_check tt checked.1).1.objects
            ≡ put destination c.object (pop source_path d.objects))
  unfolding move_aside lstat rename
  move_objects c = elim (Bool-cases (refused checked.1.refusals)) [
    | inl fails ↦ inl (ground (arith, checked_objects))
    | inr runs ↦ inr (ground (arith, checked_objects, c.here, c.free))
  ]

  -- Whatever call of the operating system fails, and whether `dispose_target` returns or raises,
  -- either every object is where it was; or the one at the source, which is no link and of the
  -- expected kind, has moved to the superseded path, at which nothing was.
  pub dispose_keeps_or_moves : (disposed.1.objects ≡ d.objects) ⊎ IsMoved disposed.1
  unfolding dispose_target
  dispose_keeps_or_moves = elim (Result-cases checked.0) [
    | inl (e, raises) ↦ rw (after_ok-err after_check checked e raises) (inl checked_objects)
    | inr (done, passes) ↦
        let c = disposable (get source_path d.objects) refl passes in
        rw (after_ok-ok after_check checked done passes) (elim (move_objects c) [
          | inl same ↦ inl same
          | inr moved ↦ inr (record {
            object = c.object;
            here = c.here;
            safe = c.safe;
            kind = c.kind;
            free = c.free;
            objects = moved;
          })
        ])
  ]

  abbrev pub named : DispositionResult
  named = record {
    target_kind = target_kind;
    source_path = source_path;
    superseded_path = destination;
  }

  moved_for :
      (c : IsDisposable) (result : DispositionResult)
      → (after_check tt checked.1).0 ≡ ok result
      → ((after_check tt checked.1).1.objects
          ≡ put destination c.object (pop source_path d.objects))
        × (result ≡ named)
        × (get source_path (after_check tt checked.1).1.objects ≡ none)
  unfolding move_aside lstat rename
  moved_for c result returns =
      let same = checked_objects in
      (ground (arith, same, c.here, c.free), ground arith, ground (arith, same, c.here, c.free))

  -- If `dispose_target` returns, the object has moved, the result names both paths, and at the
  -- source there is nothing any more.
  pub dispose-IsMoved :
      (result : DispositionResult)
      → disposed.0 ≡ ok result
      → IsMoved disposed.1 × (result ≡ named) × (get source_path disposed.1.objects ≡ none)
  unfolding dispose_target
  dispose-IsMoved result returns = elim (Result-cases checked.0) [
    | inl (e, raises) ↦ absurd (ground (arith, after_ok-err after_check checked e raises))
    | inr (done, passes) ↦
        let c = disposable (get source_path d.objects) refl passes in
        let goes = after_ok-ok after_check checked done passes in
        let done = moved_for c result (rw goes at returns) in
        rw goes (
          record {
            object = c.object;
            here = c.here;
            safe = c.safe;
            kind = c.kind;
            free = c.free;
            objects = done.0;
          },
          done.1,
          done.2,
        )
  ]

-- ===== src/Restore/Journal/RoundTrip.antt =====
-- What was recorded is discovered.
use redline_os.Prelude.{
  ℕ, zero, suc, ◌+◌, ◌<◌, ◌≤◌, String, true, false, ◌≡◌, refl, ap, sym, ◌∙◌, Option, none, some,
  List, [], ◌∷◌, ◌++◌, string_eq, nat_eq, arith, length, ltb,
}
use mathlib.Core.List.{append-nil, append_assoc}
use redline_os.Prelude.Dict.{get, put}
use redline_os.Prelude.Dict.Laws.{get-put, get-append, get-cons, get-cons_other}
use redline_os.Errors.{error_eq}
use redline_os.Exec.{ok}
use redline_os.Restore.Journal.States.{value}
use redline_os.Restore.Journal.Directory.{Node, file, Place, Folder, make_directory, list_nodes}
use redline_os.Restore.Journal.Assumed.{IsRuntime}
use redline_os.Restore.Journal.Payload.{Runtime}
use redline_os.Restore.Journal.Fresh.{
  Below, absent, is_below-name, is_below-sidecar, sidecar_differs,
}
use redline_os.Restore.Journal.Published.{holding, entries, append_works}
use redline_os.Restore.Journal.Collected.{
  advance, log, Unused, with_name, collect-entries, Unused-with_name, get-collect, length-collect,
}
use redline_os.Restore.Journal.Discovery.{JournalTransition, collect, walk, discover_journal_chain}
use redline_os.Restore.Journal.{
  RestoreJournal, Event, Open, name_of, body_of, sidecar_name, append_all, create,
}
use redline_os.Restore.Journal.Accepts.{transition, try_read_works}

-- A path where nothing is, and where every call works.
abbrev pub nothing : Folder
nothing = record { place = Place.absent; nodes = []; calls = [] }

nothing_named : (k : ℕ) → get {V = String} k [] ≡ none
unfolding get
nothing_named k = refl

nothing_collected : (R : Runtime) (names : List (ℕ × String)) → collect R names [] ≡ names
unfolding collect
nothing_collected R names = refl

module _ (R : Runtime) (h : IsRuntime R) where
  -- The transitions of one call after another.
  unfoldable pub transitions : RestoreJournal → List Event → List JournalTransition
  transitions journal [] = []
  transitions journal (event ∷ events) =
      transition R h journal event ∷ transitions (advance journal) events

  -- The position of a journal in a directory: what is there came before its next sequence.
  record IsAt (journal : RestoreJournal) (events : List Event) (before : List (String × Node))
      (names : List (ℕ × String)) : Type 0 where
    bound : journal.next_sequence + length events ≤ 10000
    below : Below R.digit_value journal.next_sequence before
    unused : Unused R h journal.next_sequence names

  Below-grows :
      (n : ℕ) (nodes : List (String × Node))
      → Below R.digit_value n nodes
      → Below R.digit_value (suc n) nodes
  Below-grows n [] below = tt
  Below-grows n ((k, node) ∷ nodes) below = (ground arith, Below-grows n nodes below.1)

  Below-append :
      (n : ℕ) (xs ys : List (String × Node))
      → Below R.digit_value n xs
      → Below R.digit_value n ys
      → Below R.digit_value n (xs ++ ys)
  Below-append n [] ys first second = second
  Below-append n (x ∷ xs) ys first second = (first.0, Below-append n xs ys first.1 second)

  Below-entries :
      (journal : RestoreJournal) (event : Event)
      → journal.next_sequence < 10000
      → Below R.digit_value (suc journal.next_sequence) (entries R h journal event)
  Below-entries journal event small =
      let n = journal.next_sequence in
      let state = value event.state in
      let bound : ltb n (suc n) ≡ true = ground arith in
      (
        is_below-name R.digit_value h.digits (suc n) n state small ∙ bound,
        (is_below-sidecar R.digit_value h.digits (suc n) n state small ∙ bound, tt),
      )

  step :
      (journal : RestoreJournal) (event : Event) (events : List Event)
      (before : List (String × Node)) (names : List (ℕ × String))
      → (a : IsAt journal (event ∷ events) before names)
      → IsAt
          (advance journal)
          events
          (before ++ entries R h journal event)
          (put journal.next_sequence (name_of R journal event) names)
  step journal event events before names a =
      let n = journal.next_sequence in
      let bound = a.bound in
      record {
        bound = omega arith;
        below =
            Below-append (suc n) before (entries R h journal event) (Below-grows n before a.below)
              (Below-entries journal event (omega arith));
        unused = Unused-with_name R h journal event names (omega arith) a.unused;
      }

  abbrev pub opened : RestoreJournal → List (String × Node) → Open
  opened journal nodes = record { journal = journal; folder = holding nodes }

  advance_all : RestoreJournal → List Event → RestoreJournal
  advance_all journal [] = journal
  advance_all journal (event ∷ events) = advance_all (advance journal) events

  append_all_works :
      (journal : RestoreJournal) (events : List Event) (before : List (String × Node))
      → journal.next_sequence + length events ≤ 10000
      → Below R.digit_value journal.next_sequence before
      → append_all R events (opened journal before)
        ≡ (ok tt, opened (advance_all journal events) (before ++ log R h journal events))
  unfolding append_all log advance_all
  append_all_works journal [] before bound below =
      ap (λ all. (ok tt, opened journal all)) (sym (append-nil before))
  append_all_works journal (event ∷ events) before bound below =
      let n = journal.next_sequence in
      let grown =
        Below-append (suc n) before (entries R h journal event) (Below-grows n before below)
          (Below-entries journal event (omega arith)) in
      let rest =
        append_all_works (advance journal) events (before ++ entries R h journal event)
          (omega arith) grown in
      rw (append_works R h journal event before (omega arith) below) (
        rest
        ∙ ap (λ all. (ok tt, opened (advance_all (advance journal) events) all))
            (append_assoc before (entries R h journal event) (log R h (advance journal) events)))

  module _ (journal : RestoreJournal) (event : Event) (later before : List (String × Node))
      (small : journal.next_sequence < 10000)
      (below : Below R.digit_value journal.next_sequence before) where
    here_of :
        get (name_of R journal event) (before ++ (entries R h journal event ++ later))
        ≡ some (file (body_of R journal event))
    here_of =
        let n = journal.next_sequence in
        let name = name_of R journal event in
        let outside : ltb n n ≡ false = ground arith in
        let first = is_below-name R.digit_value h.digits n n (value event.state) small ∙ outside in
        get-append name before (entries R h journal event ++ later)
          (absent R.digit_value n name before first below)
        ∙ get-cons name (file (body_of R journal event)) _

    there_of :
        get
          (sidecar_name (name_of R journal event))
          (before ++ (entries R h journal event ++ later))
        ≡ some (file (R.sha256_hex (body_of R journal event)))
    there_of =
        let n = journal.next_sequence in
        let name = name_of R journal event in
        let outside : ltb n n ≡ false = ground arith in
        let first =
          is_below-sidecar R.digit_value h.digits n n (value event.state) small ∙ outside in
        get-append (sidecar_name name) before (entries R h journal event ++ later)
          (absent R.digit_value n (sidecar_name name) before first below)
        ∙ get-cons_other (sidecar_name name) name (file (body_of R journal event)) _
            (λ same. sidecar_differs name (sym same))
        ∙ get-cons (sidecar_name name) (file (R.sha256_hex (body_of R journal event))) later

  walk_works :
      (fuel : ℕ) (journal : RestoreJournal) (events : List Event) (before : List (String × Node))
      (names : List (ℕ × String))
      → IsAt journal events before names
      → length events < fuel
      → walk R fuel journal.next_sequence
          (collect R names (log R h journal events))
          (holding (before ++ log R h journal events))
        ≡ (ok (transitions journal events), holding (before ++ log R h journal events))
  unfolding walk log transitions
  walk_works zero journal events before names a enough = absurd (omega arith)
  walk_works (suc fuel) journal [] before names a enough =
      rw (nothing_collected R names, a.unused journal.next_sequence (omega arith)) refl
  walk_works (suc fuel) journal (event ∷ events) before names a enough =
      let n = journal.next_sequence in
      let name = name_of R journal event in
      let bound = a.bound in
      let small : n < 10000 = omega arith in
      let new = with_name R h journal event names small in
      let later = log R h (advance journal) events in
      let all = collect-entries R h journal event names small later in
      let seen =
        get-collect R h (advance journal) events new n (omega arith) (omega arith)
        ∙ get-put n name names in
      let tried =
        try_read_works R h journal event (before ++ (entries R h journal event ++ later))
          (here_of journal event later before small a.below)
          (there_of journal event later before small a.below) in
      let rest =
        walk_works fuel (advance journal) events (before ++ entries R h journal event) new
          (step journal event events before names a) (omega arith) in
      rw (all, seen, tried, rw (append_assoc before (entries R h journal event) later) at rest) refl

  abbrev pub fresh : String → String → Option String → RestoreJournal
  fresh restore_id backup_id attempt_kind = record {
    restore_id = restore_id;
    backup_id = backup_id;
    next_sequence = 1;
    attempt_kind = attempt_kind;
  }

  module _ (restore_id backup_id : String) (attempt_kind : Option String) (events : List Event)
      (few : length events ≤ 9999) where
    abbrev journal : RestoreJournal
    journal = fresh restore_id backup_id attempt_kind

    discover-log :
        discover_journal_chain R (holding (log R h journal events))
        ≡ (ok (transitions journal events), holding (log R h journal events))
    unfolding discover_journal_chain list_nodes
    discover-log =
        let at : IsAt journal events [] [] = record {
          bound = omega arith;
          below = tt;
          unused = λ k _. nothing_named k;
        } in
        let long = length-collect R h journal events [] (omega arith) (λ k _. nothing_named k) in
        walk_works (suc (length (collect R [] (log R h journal events)))) journal events [] [] at
          (omega arith)

  -- On a path where nothing is, and where every call of the operating system works, `create` opens a
  -- journal, `record` takes up to 9999 events, and `discover_journal_chain` then returns exactly these,
  -- numbered from 1 in their order, and changes nothing.
  pub discover-append_all :
      (restore_id backup_id : String) (attempt_kind : Option String) (events : List Event)
      → length events ≤ 9999
      → let journal = fresh restore_id backup_id attempt_kind in
        let (r, o) = append_all R events (opened journal []) in
        (create restore_id backup_id attempt_kind nothing ≡ (ok journal, holding []))
        × (r ≡ ok tt)
        × (discover_journal_chain R o.folder ≡ (ok (transitions journal events), o.folder))
  unfolding create make_directory
  discover-append_all restore_id backup_id attempt_kind events few =
      let journal = fresh restore_id backup_id attempt_kind in
      let recorded = append_all_works journal events [] (omega arith) tt in
      rw recorded (refl, refl, discover-log restore_id backup_id attempt_kind events few)

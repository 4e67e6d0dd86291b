-- ===== src/Restore/Journal/Collected.antt =====
-- The names that discovery collects of a journal where every call of `record` has worked.
use redline_os.Prelude.{
  ℕ, suc, ◌+◌, ◌<◌, ◌≤◌, String, ◌≡◌, refl, ap, ◌∙◌, none, List, [], ◌∷◌, ◌++◌, nat_eq, arith,
  length,
}
use redline_os.Prelude.Dict.{get, put}
use redline_os.Prelude.Dict.Laws.{get-put_other, put-append}
use redline_os.Restore.Journal.Directory.{Node}
use redline_os.Restore.Journal.Names.{sequence_of}
use redline_os.Restore.Journal.Names.Reads.{sequence_of-transition_name, sequence_of-sidecar}
use redline_os.Restore.Journal.Assumed.{IsRuntime}
use redline_os.Restore.Journal.Payload.{Runtime}
use redline_os.Restore.Journal.Published.{entries}
use redline_os.Restore.Journal.Discovery.{noted, collect}
use redline_os.Restore.Journal.{RestoreJournal, Event, name_of, sidecar_name}

abbrev pub advance : RestoreJournal → RestoreJournal
advance journal = record journal { next_sequence = suc journal.next_sequence }

length-append_one {ℓ} : {A : Type ℓ} (xs : List A) (x : A) → length (xs ++ x ∷ []) ≡ suc (length xs)
length-append_one [] x = refl
length-append_one (y ∷ xs) x = ap suc (length-append_one xs x)

module _ (R : Runtime) (h : IsRuntime R) where
  -- The entries of one call after another.
  unfoldable pub log : RestoreJournal → List Event → List (String × Node)
  log journal [] = []
  log journal (event ∷ events) = entries R h journal event ++ log (advance journal) events

  -- No name has been collected for a sequence from `n` on.
  abbrev pub Unused : ℕ → List (ℕ × String) → Type 0
  Unused n names = (k : ℕ) → n ≤ k → get k names ≡ none

  module _ (journal : RestoreJournal) (event : Event) (names : List (ℕ × String))
      (small : journal.next_sequence < 10000) where
    abbrev pub with_name : List (ℕ × String)
    with_name = put journal.next_sequence (name_of R journal event) names

    pub collect-entries :
        (rest : List (String × Node))
        → collect R names (entries R h journal event ++ rest) ≡ collect R with_name rest
    unfolding collect
    collect-entries rest =
        let n = journal.next_sequence in
        let name = name_of R journal event in
        let named = sequence_of-transition_name R.digit_value h.digits n event.state small in
        let digest = sequence_of-sidecar R.digit_value h.digits n event.state small in
        ap
          (λ o.
            collect R
              (noted (sequence_of R.digit_value (sidecar_name name)) (sidecar_name name)
                (noted o name names))
              rest)
          named
        ∙ ap (λ o. collect R (noted o (sidecar_name name) with_name) rest) digest

    pub Unused-with_name :
        Unused journal.next_sequence names → Unused (suc journal.next_sequence) with_name
    Unused-with_name unused k later =
        get-put_other k journal.next_sequence (name_of R journal event) names
          (λ same. absurd (omega (arith, same)))
        ∙ unused k (omega arith)

  -- What was collected before the entries of later calls stays.
  pub get-collect :
      (journal : RestoreJournal) (events : List Event) (names : List (ℕ × String)) (k : ℕ)
      → journal.next_sequence + length events ≤ 10000
      → k < journal.next_sequence
      → get k (collect R names (log journal events)) ≡ get k names
  unfolding log collect
  get-collect journal [] names k small below = refl
  get-collect journal (event ∷ events) names k small below =
      let all = collect-entries journal event names (omega arith) (log (advance journal) events) in
      let later =
        get-collect (advance journal) events (with_name journal event names (omega arith)) k
          (omega arith) (omega arith) in
      ap (get k) all
      ∙ later
      ∙ get-put_other k journal.next_sequence (name_of R journal event) names
          (λ same. absurd (omega (arith, same)))

  pub length-collect :
      (journal : RestoreJournal) (events : List Event) (names : List (ℕ × String))
      → journal.next_sequence + length events ≤ 10000
      → Unused journal.next_sequence names
      → length (collect R names (log journal events)) ≡ length names + length events
  unfolding log collect
  length-collect journal [] names small unused = omega arith
  length-collect journal (event ∷ events) names small unused =
      let n = journal.next_sequence in
      let name = name_of R journal event in
      let all = collect-entries journal event names (omega arith) (log (advance journal) events) in
      let later =
        length-collect (advance journal) events (with_name journal event names (omega arith))
          (omega arith) (Unused-with_name journal event names (omega arith) unused) in
      let added = put-append n name names (unused n (omega arith)) in
      omega (arith, ap length all, later, ap length added, length-append_one names (n, name))

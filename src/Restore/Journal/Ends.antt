-- ===== src/Restore/Journal/Ends.antt =====
-- The loop of discovery ends.
use redline_os.Prelude.{
  ℕ, zero, suc, ◌<◌, ◌≤◌, String, ◌≡◌, ◌≢◌, refl, Option, none, some, List, [], ◌∷◌, nat_eq, arith,
  length, count, leb, inl, inr,
}
use redline_os.Prelude.Dict.{get}
use redline_os.Errors.{error_eq, out_of_fuel}
use redline_os.Exec.{Exec, err, Result-cases, after_ok-ok, after_ok-err}
use redline_os.Restore.Journal.Directory.{Place, Node, Folder, list_nodes}
use redline_os.Restore.Journal.Payload.{Runtime}
use redline_os.Restore.Journal.Discovery.{
  JournalTransition, read_both, try_read_transition, collect, walk, round, chained,
  discover_journal_chain,
}
use redline_os.Restore.Journal.Verified.{read_both-errors}

-- How many names are left from the sequence `n` on.
abbrev left : ℕ → List (ℕ × String) → ℕ
left n names = count (λ entry. leb n entry.0) names

left-le : (n : ℕ) (names : List (ℕ × String)) → left (suc n) names ≤ left n names
unfolding count
left-le n [] = omega arith
left-le n ((k, name) ∷ names) = ground (arith, left-le n names)

left-lt :
    (n : ℕ) (path : String) (names : List (ℕ × String))
    → get n names ≡ some path
    → left (suc n) names < left n names
unfolding count get
left-lt n path [] h = absurd (ground arith)
left-lt n path ((k, name) ∷ names) h = ground (arith, left-lt n path names, left-le n names)

left-le-length : (n : ℕ) (names : List (ℕ × String)) → left n names ≤ length names
unfolding count
left-le-length n [] = omega arith
left-le-length n ((k, name) ∷ names) = ground (arith, left-le-length n names)

module _ (R : Runtime) where
  try_read-errors :
      (n : ℕ) (path : String) (d : Folder) → (try_read_transition R n path d).0 ≢ err out_of_fuel
  unfolding try_read_transition
  try_read-errors n path d h = elim (Result-cases (read_both path d).0) [
    | inl (e, raises) ↦ ground (arith, read_both-errors path d)
    | inr (both, returns) ↦ ground arith
  ]

  chained-ends :
      (rest : Exec Folder (List JournalTransition))
      → ((d : Folder) → (rest d).0 ≢ err out_of_fuel)
      → (o : Option JournalTransition) (d : Folder) → (chained R rest o d).0 ≢ err out_of_fuel
  chained-ends rest ends none d h = ground arith
  chained-ends rest ends (some t) d h = elim (Result-cases (rest d).0) [
    | inl (e, raises) ↦ ground (arith, ends d)
    | inr (ts, returns) ↦ ground arith
  ]

  round-ends :
      (n : ℕ) (rest : Exec Folder (List JournalTransition)) (path : String)
      → ((d : Folder) → (rest d).0 ≢ err out_of_fuel)
      → (d : Folder) → (round R n rest (some path) d).0 ≢ err out_of_fuel
  round-ends n rest path ends d h =
      let tried = try_read_transition R n path d in
      elim (Result-cases tried.0) [
        | inl (e, raises) ↦
            ground (arith, after_ok-err (chained R rest) tried e raises, try_read-errors n path d)
        | inr (o, returns) ↦
            chained-ends rest ends o tried.1
              (rw (after_ok-ok (chained R rest) tried o returns) at h)
      ]

  each_round-ends :
      (n : ℕ) (rest : Exec Folder (List JournalTransition)) (o : Option String) (d : Folder)
      → ((path : String) → o ≡ some path → (d' : Folder) → (rest d').0 ≢ err out_of_fuel)
      → (round R n rest o d).0 ≢ err out_of_fuel
  each_round-ends n rest none d ends h = ground arith
  each_round-ends n rest (some path) d ends h = round-ends n rest path (ends path refl) d h

  walk-ends :
      (fuel n : ℕ) (names : List (ℕ × String)) (d : Folder)
      → left n names < fuel
      → (walk R fuel n names d).0 ≢ err out_of_fuel
  unfolding walk
  walk-ends zero n names d enough h = absurd (omega arith)
  walk-ends (suc fuel) n names d enough h =
      each_round-ends n (walk R fuel (suc n) names) (get n names) d
        (λ path e d'. walk-ends fuel (suc n) names d' (omega (arith, left-lt n path names e))) h

  walk_all-ends :
      (nodes : List (String × Node)) (d : Folder)
      → (let names = collect R [] nodes in walk R (suc (length names)) 1 names d).0
        ≢ err out_of_fuel
  walk_all-ends nodes d =
      let names = collect R [] nodes in
      walk-ends (suc (length names)) 1 names d (omega (arith, left-le-length 1 names))

  list_nodes-errors : (d : Folder) → (list_nodes d).0 ≢ err out_of_fuel
  unfolding list_nodes
  list_nodes-errors d h = ground arith

  -- Of any directory, and whatever call of the operating system fails, the loop of
  -- `discover_journal_chain` ends within its fuel: one round for each sequence that was found in the
  -- directory, and one for the end.
  pub discover-ends : (d : Folder) → (discover_journal_chain R d).0 ≢ err out_of_fuel
  unfolding discover_journal_chain
  discover-ends d =
      elim d.place
        as (λ place. (discover_journal_chain R (record d { place = place })).0 ≢ err out_of_fuel) [
          | Place.absent ↦ λ h. ground arith
          | Place.occupied ↦ λ h. ground arith
          | Place.directory ↦ λ h.
              let d' = record d { place = Place.directory } in
              let next : List (String × Node) → Exec Folder (List JournalTransition) =
                λ nodes. let names = collect R [] nodes in walk R (suc (length names)) 1 names in
              elim (Result-cases (list_nodes d').0) [
                | inl (e, raises) ↦
                    ground (arith, after_ok-err next (list_nodes d') e raises, list_nodes-errors d')
                | inr (nodes, returns) ↦
                    walk_all-ends nodes (list_nodes d').1
                      (rw (after_ok-ok next (list_nodes d') nodes returns) at h)
              ]
        ]

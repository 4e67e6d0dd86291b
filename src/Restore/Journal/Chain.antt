-- ===== src/Restore/Journal/Chain.antt =====
-- What discovery returns of any directory, whatever call of the operating system fails.
use redline_os.Prelude.{
  ℕ, zero, suc, String, ◌≡◌, refl, ap, sym, ◌∙◌, Option, none, some, List, [], ◌∷◌, string_eq,
  nat_eq, arith, length, inl, inr,
}
use mathlib.Core.Path.{subst}
use redline_os.Prelude.Dict.{get}
use redline_os.Errors.{error_eq}
use redline_os.Exec.{Exec, ok, Result, Result-cases, after_ok, after_ok-ok, after_ok-err}
use redline_os.Restore.Journal.Directory.{Place, Node, Folder, list_nodes}
use redline_os.Restore.Journal.Payload.{Runtime}
use redline_os.Restore.Journal.Discovery.{
  JournalTransition, read_both, try_read_transition, collect, walk, round, chained,
  discover_journal_chain,
}
use redline_os.Restore.Journal.Verified.{
  read_both_nodes, read_both-ok, IsVerified, verified-IsVerified,
}

module _ (R : Runtime) where
  try_read_nodes :
      (n : ℕ) (path : String) (d : Folder) → (try_read_transition R n path d).1.nodes ≡ d.nodes
  unfolding try_read_transition
  try_read_nodes n path d = ground (arith, read_both_nodes path d)

  try_read-IsVerified :
      (n : ℕ) (path : String) (d : Folder) (t : JournalTransition)
      → (try_read_transition R n path d).0 ≡ ok (some t)
      → IsVerified R d.nodes n t
  unfolding try_read_transition
  try_read-IsVerified n path d t h = elim (Result-cases (read_both path d).0) [
    | inl (e, raises) ↦ absurd (ground arith)
    | inr (both, returns) ↦ go both returns
  ]
    where
      go :
          (both : Option (String × String))
          → (read_both path d).0 ≡ ok both
          → IsVerified R d.nodes n t
      go none returns = absurd (ground arith)
      go (some (body, digest)) returns =
          let files = read_both-ok path body digest d returns in
          verified-IsVerified R n path body digest t d.nodes files.0 files.1 (ground arith)

  -- The transitions are verified, and numbered without a gap.
  abbrev pub IsChain : List (String × Node) → ℕ → List JournalTransition → Type 0
  IsChain nodes n [] = Unit
  IsChain nodes n (t ∷ ts) = IsVerified R nodes n t × IsChain nodes (suc n) ts

  -- One round, and those that follow it.
  module _ (n : ℕ) (rest : Exec Folder (List JournalTransition))
      (rest-IsChain : (d : Folder) (ts : List JournalTransition)
        → (rest d).0 ≡ ok ts
        → IsChain d.nodes (suc n) ts) where
    chained-IsChain :
        (d : Folder) (ts : List JournalTransition) (u : JournalTransition)
        → IsVerified R d.nodes n u
        → (chained R rest (some u) d).0 ≡ ok ts
        → IsChain d.nodes n ts
    chained-IsChain d ts u first h = elim (Result-cases (rest d).0) [
      | inl (e, raises) ↦ absurd (ground arith)
      | inr (us, returns) ↦
          let parts : u ∷ us ≡ ts = ground arith in
          subst (λ all. IsChain d.nodes n all) parts (first, rest-IsChain d us returns)
    ]

    round-IsChain :
        (o : Option String) (d : Folder) (ts : List JournalTransition)
        → (round R n rest o d).0 ≡ ok ts
        → IsChain d.nodes n ts
    round-IsChain none d ts h =
        let stops : [] ≡ ts = ground arith in subst (λ all. IsChain d.nodes n all) stops tt
    round-IsChain (some path) d ts h =
        let tried = try_read_transition R n path d in
        elim (Result-cases tried.0) [
          | inl (e, raises) ↦ absurd (ground (arith, after_ok-err (chained R rest) tried e raises))
          | inr (none, returns) ↦
              let stops : [] ≡ ts =
                ground (arith, after_ok-ok (chained R rest) tried none returns) in
              subst (λ all. IsChain d.nodes n all) stops tt
          | inr (some u, returns) ↦
              let same = try_read_nodes n path d in
              rw same at (
                chained-IsChain tried.1 ts u
                  (subst (λ nodes. IsVerified R nodes n u) (sym same)
                    (try_read-IsVerified n path d u returns))
                  (rw (after_ok-ok (chained R rest) tried (some u) returns) at h))
        ]

  walk-IsChain :
      (fuel n : ℕ) (names : List (ℕ × String)) (d : Folder) (ts : List JournalTransition)
      → (walk R fuel n names d).0 ≡ ok ts
      → IsChain d.nodes n ts
  unfolding walk
  walk-IsChain zero n names d ts h = absurd (ground arith)
  walk-IsChain (suc fuel) n names d ts h =
      round-IsChain n (walk R fuel (suc n) names) (walk-IsChain fuel (suc n) names) (get n names) d
        ts h

  chained_nodes :
      (rest : Exec Folder (List JournalTransition))
      → ((d : Folder) → (rest d).1.nodes ≡ d.nodes)
      → (o : Option JournalTransition) (d : Folder) → (chained R rest o d).1.nodes ≡ d.nodes
  chained_nodes rest same none d = refl
  chained_nodes rest same (some t) d = ground (arith, same d)

  round_nodes :
      (n : ℕ) (rest : Exec Folder (List JournalTransition))
      → ((d : Folder) → (rest d).1.nodes ≡ d.nodes)
      → (o : Option String) (d : Folder) → (round R n rest o d).1.nodes ≡ d.nodes
  round_nodes n rest same none d = refl
  round_nodes n rest same (some path) d =
      let tried = try_read_transition R n path d in
      elim (Result-cases tried.0) [
        | inl (e, raises) ↦
            ap (λ p. p.1.nodes) (after_ok-err (chained R rest) tried e raises)
            ∙ try_read_nodes n path d
        | inr (o, returns) ↦
            ap (λ p. p.1.nodes) (after_ok-ok (chained R rest) tried o returns)
            ∙ chained_nodes rest same o tried.1
            ∙ try_read_nodes n path d
      ]

  walk_nodes :
      (fuel n : ℕ) (names : List (ℕ × String)) (d : Folder)
      → (walk R fuel n names d).1.nodes ≡ d.nodes
  unfolding walk
  walk_nodes zero n names d = refl
  walk_nodes (suc fuel) n names d =
      round_nodes n (walk R fuel (suc n) names) (walk_nodes fuel (suc n) names) (get n names) d

  list_nodes_nodes : (d : Folder) → (list_nodes d).1.nodes ≡ d.nodes
  unfolding list_nodes
  list_nodes_nodes d = ground arith

  walk_all : List (String × Node) → Exec Folder (List JournalTransition)
  walk_all nodes = let names = collect R [] nodes in walk R (suc (length names)) 1 names

  -- The walk over what is listed, from a directory.
  abbrev listed : Folder → Result (List JournalTransition) × Folder
  listed d = after_ok (list_nodes d) walk_all

  walk_all_nodes :
      (nodes : List (String × Node)) (d : Folder) → (walk_all nodes d).1.nodes ≡ d.nodes
  unfolding walk_all
  walk_all_nodes nodes d = walk_nodes (suc (length (collect R [] nodes))) 1 (collect R [] nodes) d

  listed_nodes : (d : Folder) → (listed d).1.nodes ≡ d.nodes
  listed_nodes d = elim (Result-cases (list_nodes d).0) [
    | inl (e, raises) ↦
        ap (λ p. p.1.nodes) (after_ok-err walk_all (list_nodes d) e raises) ∙ list_nodes_nodes d
    | inr (nodes, returns) ↦
        ap (λ p. p.1.nodes) (after_ok-ok walk_all (list_nodes d) nodes returns)
        ∙ walk_all_nodes nodes (list_nodes d).1
        ∙ list_nodes_nodes d
  ]

  listed-IsChain :
      (d : Folder) (ts : List JournalTransition) → (listed d).0 ≡ ok ts → IsChain d.nodes 1 ts
  unfolding walk_all
  listed-IsChain d ts h = elim (Result-cases (list_nodes d).0) [
    | inl (e, raises) ↦ absurd (ground (arith, after_ok-err walk_all (list_nodes d) e raises))
    | inr (nodes, returns) ↦
        let names = collect R [] nodes in
        subst (λ all. IsChain all 1 ts) (list_nodes_nodes d)
          (walk-IsChain (suc (length names)) 1 names (list_nodes d).1 ts
            (rw (after_ok-ok walk_all (list_nodes d) nodes returns) at h))
  ]

  -- Of any directory, and whatever call of the operating system fails, `discover_journal_chain` leaves
  -- each entry as it is, whether it returns or raises.
  pub discover_nodes : (d : Folder) → (discover_journal_chain R d).1.nodes ≡ d.nodes
  unfolding discover_journal_chain walk_all
  discover_nodes d =
      elim d.place
        as (λ place. (discover_journal_chain R (record d { place = place })).1.nodes ≡ d.nodes) [
          | Place.absent ↦ refl
          | Place.occupied ↦ refl
          | Place.directory ↦ listed_nodes (record d { place = Place.directory })
        ]

  -- Of any directory, and whatever call of the operating system fails: if `discover_journal_chain`
  -- returns, each transition is what two files of the directory say: one under its own name that holds
  -- an object with its sequence and state, and one with the digest of the first; and the sequences are
  -- 1, 2, and so on.
  pub discover-IsChain :
      (d : Folder) (ts : List JournalTransition)
      → (discover_journal_chain R d).0 ≡ ok ts
      → IsChain d.nodes 1 ts
  unfolding discover_journal_chain walk_all
  discover-IsChain d ts =
      elim d.place
        as (λ place.
          (discover_journal_chain R (record d { place = place })).0 ≡ ok ts
          → IsChain d.nodes 1 ts) [
            | Place.absent ↦ λ h.
                let stops : [] ≡ ts = ground arith in subst (λ all. IsChain d.nodes 1 all) stops tt
            | Place.occupied ↦ λ h.
                let stops : [] ≡ ts = ground arith in subst (λ all. IsChain d.nodes 1 all) stops tt
            | Place.directory ↦ listed-IsChain (record d { place = Place.directory }) ts
          ]

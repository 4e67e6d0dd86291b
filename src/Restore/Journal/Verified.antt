-- ===== src/Restore/Journal/Verified.antt =====
-- What is read of the two files of a transition, and when they are accepted.
use redline_os.Prelude.{
  ℕ, String, true, ◌≡◌, ◌≢◌, refl, ap, sym, ◌∙◌, Option, none, some, List, string_eq, nat_eq, arith,
  ◌==◌, eq_of_==, Bool-cases, inl, inr,
}
use mathlib.Core.Option.{some-injective}
use redline_os.Prelude.Dict.{get}
use redline_os.Errors.{Error, error_eq, os_error, out_of_fuel}
use redline_os.Exec.{ok, err, Result-cases}
use redline_os.Restore.Journal.Directory.{Node, file, Folder, read}
use redline_os.Restore.Journal.Names.{transition_name}
use redline_os.Restore.Journal.Payload.{
  Json, Runtime, Fields, object, text, value_of, as_text, is_number,
}
use redline_os.Restore.Journal.Discovery.{
  JournalTransition, strip, verified, read_both, read_ascii, checked, as_object, named,
}
use redline_os.Restore.Journal.{sidecar_name}

read_nodes : (name : String) (d : Folder) → (read name d).1.nodes ≡ d.nodes
unfolding read
read_nodes name d = ground arith

read-ok :
    (name bytes : String) (d : Folder)
    → (read name d).0 ≡ ok bytes
    → get name d.nodes ≡ some (file bytes)
unfolding read
read-ok name bytes d h = ground arith

read_ascii_nodes : (name : String) (d : Folder) → (read_ascii name d).1.nodes ≡ d.nodes
unfolding read_ascii
read_ascii_nodes name d = ground (arith, read_nodes name d)

read_ascii-ok :
    (name bytes : String) (d : Folder)
    → (read_ascii name d).0 ≡ ok bytes
    → get name d.nodes ≡ some (file bytes)
unfolding read_ascii
read_ascii-ok name bytes d h = elim (Result-cases (read name d).0) [
  | inl (e, raises) ↦ absurd (ground arith)
  | inr (found, returns) ↦ ground (arith, read-ok name found d returns)
]

pub read_both_nodes : (name : String) (d : Folder) → (read_both name d).1.nodes ≡ d.nodes
unfolding read_both
read_both_nodes name d =
    ground (arith, read_nodes name d, read_ascii_nodes (sidecar_name name) (read name d).1)

pub read_both-ok :
    (name body digest : String) (d : Folder)
    → (read_both name d).0 ≡ ok (some (body, digest))
    → (get name d.nodes ≡ some (file body)) × (get (sidecar_name name) d.nodes ≡ some (file digest))
unfolding read_both
read_both-ok name body digest d h =
    let second = read_ascii (sidecar_name name) (read name d).1 in
    elim (Result-cases (read name d).0) [
      | inl (e, raises) ↦ absurd (ground arith)
      | inr (b, returns) ↦ elim (Result-cases second.0) [
        | inl (e, raises) ↦ absurd (ground arith)
        | inr (g, reads) ↦
            let first = read-ok name b d returns in
            let other = read_ascii-ok (sidecar_name name) g (read name d).1 reads in
            (ground (arith, read_nodes name d), ground (arith, read_nodes name d))
      ]
    ]

read-errors : (name : String) (e : Error) (d : Folder) → (read name d).0 ≡ err e → e ≡ os_error
unfolding read
read-errors name e d h = ground arith

read_ascii-errors : (name : String) (d : Folder) → (read_ascii name d).0 ≢ err out_of_fuel
unfolding read_ascii
read_ascii-errors name d h = elim (Result-cases (read name d).0) [
  | inl (e, raises) ↦ ground (arith, read-errors name e d raises)
  | inr (bytes, returns) ↦ ground arith
]

pub read_both-errors : (name : String) (d : Folder) → (read_both name d).0 ≢ err out_of_fuel
unfolding read_both
read_both-errors name d h =
    let second = read_ascii (sidecar_name name) (read name d).1 in
    elim (Result-cases (read name d).0) [
      | inl (e, raises) ↦ ground (arith, read-errors name e d raises)
      | inr (b, returns) ↦ elim (Result-cases second.0) [
        | inl (e, raises) ↦ ground (arith, read_ascii-errors (sidecar_name name) (read name d).1)
        | inr (g, reads) ↦ ground arith
      ]
    ]

as_object-some :
    (o : Option Json) (found : Fields) → as_object o ≡ some found → o ≡ some (object found)
as_object-some o found h = ground arith

as_text-some : (o : Option Json) (t : String) → as_text o ≡ some t → o ≡ some (text t)
as_text-some o t h = ground arith

module _ (R : Runtime) where
  -- The transition is the one that two files of the directory say: the one has its name, and an object
  -- with its sequence and state, the other the digest of the first.
  pub record IsVerified (nodes : List (String × Node)) (n : ℕ) (t : JournalTransition)
      : Type 0 where
    pub body : String
    pub digest : String
    pub here : get t.path nodes ≡ some (file body)
    pub there : get (sidecar_name t.path) nodes ≡ some (file digest)
    pub digest_matches : R.sha256_hex body ≡ strip digest
    pub loads : R.loads body ≡ some (object t.payload)
    pub sequence : t.sequence ≡ n
    pub sequence_matches : is_number n (value_of "sequence" t.payload) ≡ true
    pub state_matches : value_of "state" t.payload ≡ some (text t.state)
    pub name_matches : t.path ≡ transition_name n t.state

  -- What an accepted entry has passed.
  record IsAccepted (n : ℕ) (path : String) (found : Fields) (t : JournalTransition) : Type 0 where
    sequence : t.sequence ≡ n
    same_path : t.path ≡ path
    same_payload : t.payload ≡ found
    state : as_text (value_of "state" found) ≡ some t.state
    name : path ≡ transition_name n t.state
    number : is_number n (value_of "sequence" found) ≡ true

  named-IsAccepted :
      (n : ℕ) (path : String) (found : Fields) (o : Option String) (t : JournalTransition)
      → is_number n (value_of "sequence" found) ≡ true
      → as_text (value_of "state" found) ≡ o
      → named n path found o ≡ some t
      → IsAccepted n path found t
  named-IsAccepted n path found none t number said h = absurd (ground arith)
  named-IsAccepted n path found (some state) t number said h =
      elim (Bool-cases (path == transition_name n state)) [
        | inl same ↦
            let made : JournalTransition = record {
              sequence = n;
              state = state;
              path = path;
              payload = found;
            } in
            let t_made : made ≡ t = some-injective made t (rw same at h) in
            let state_same = ap (λ u. u.state) t_made in
            record {
              sequence = ap (λ u. u.sequence) (sym t_made);
              same_path = ap (λ u. u.path) (sym t_made);
              same_payload = ap (λ u. u.payload) (sym t_made);
              state = said ∙ ap some state_same;
              name =
                  eq_of_== path (transition_name n state) same ∙ ap (transition_name n) state_same;
              number = number;
            }
        | inr other ↦ absurd (ground arith)
      ]

  checked-IsAccepted :
      (n : ℕ) (path : String) (found : Fields) (t : JournalTransition)
      → checked n path (some found) ≡ some t
      → IsAccepted n path found t
  checked-IsAccepted n path found t h =
      elim (Bool-cases (is_number n (value_of "sequence" found))) [
        | inl number ↦
            named-IsAccepted n path found (as_text (value_of "state" found)) t number refl
              (rw number at h)
        | inr other ↦ absurd (ground arith)
      ]

  -- The files of an accepted entry.
  pub verified-IsVerified :
      (n : ℕ) (path body digest : String) (t : JournalTransition) (nodes : List (String × Node))
      → get path nodes ≡ some (file body)
      → get (sidecar_name path) nodes ≡ some (file digest)
      → verified R n path body digest ≡ some t
      → IsVerified nodes n t
  unfolding verified
  verified-IsVerified n path body digest t nodes here there h =
      elim (Bool-cases (R.sha256_hex body == strip digest)) [
        | inl matches ↦
            go (eq_of_== (R.sha256_hex body) (strip digest) matches) (as_object (R.loads body)) refl
              (rw matches at h)
        | inr other ↦ absurd (ground arith)
      ]
    where
      go :
          R.sha256_hex body ≡ strip digest
          → (o : Option Fields) → as_object (R.loads body) ≡ o
          → checked n path o ≡ some t
          → IsVerified nodes n t
      go matches none e accepts = absurd (ground arith)
      go matches (some found) e accepts =
          let a = checked-IsAccepted n path found t accepts in
          record {
            body = body;
            digest = digest;
            here = ap (λ p. get p nodes) a.same_path ∙ here;
            there = ap (λ p. get (sidecar_name p) nodes) a.same_path ∙ there;
            digest_matches = matches;
            loads =
                as_object-some (R.loads body) found e
                ∙ ap (λ p. some (object p)) (sym a.same_payload);
            sequence = a.sequence;
            sequence_matches =
                ap (λ p. is_number n (value_of "sequence" p)) a.same_payload ∙ a.number;
            state_matches =
                ap (value_of "state") a.same_payload
                ∙ as_text-some (value_of "state" found) t.state a.state;
            name_matches = a.same_path ∙ a.name;
          }

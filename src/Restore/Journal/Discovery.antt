-- ===== src/Restore/Journal/Discovery.antt =====
-- restore/journal.py: `discover_journal_chain`, which reads a journal's directory. Its loop runs on
-- fuel, one step for each name that was found and one for the end.
use Prim.Native.Char.{Char, code}
use redline_os.Prelude.{
  ℕ, zero, suc, String, Bool, true, false, ◌&&◌, Option, none, some, List, [], ◌∷◌, length,
  if◌then◌else◌, ◌==◌, nat_eq, string_eq, ltb,
}
use redline_os.Prelude.Text.{all_chars, is_space}
use redline_os.Prelude.Dict.{get, put}
use redline_os.Errors.{error_eq, os_error, value_error, out_of_fuel}
use redline_os.Exec.{Exec, ok, pure, raise, require, attempt, ◌>>=◌, ◌>>◌}
use redline_os.Restore.Journal.Directory.{
  Node, file, folder, directory, absent, occupied, Folder, is_file, read, list_nodes,
}
use redline_os.Restore.Journal.Names.{sequence_of, transition_name}
use redline_os.Restore.Journal.Payload.{
  Json, object, null, boolean, whole, other_number, text, array, Fields, value_of, is_number,
  as_text, Runtime,
}
use redline_os.Restore.Journal.{sidecar_name}

pub record JournalTransition : Type 0 where
  pub sequence : ℕ
  pub state : String
  pub path : String
  pub payload : Fields

abbrev pub is_empty : String → Bool
is_empty String.[] = true
is_empty (String.◌∷◌ c s) = false

abbrev pub lstrip : String → String
lstrip String.[] = String.[]
lstrip (String.◌∷◌ c s) = let rest = lstrip s in if is_space (code c) then rest else String.◌∷◌ c s

unfoldable pub rstrip : String → String
rstrip String.[] = String.[]
rstrip (String.◌∷◌ c s) =
    let rest = rstrip s in
    if is_space (code c) && is_empty rest then String.[] else String.◌∷◌ c rest

-- `str.strip`
unfoldable pub strip : String → String
unfolding rstrip is_space
strip s = lstrip (rstrip s)

abbrev pub is_ascii : Char → Bool
is_ascii c = ltb (code c) 128

-- `read_text(encoding="ascii")`: a byte that is not ASCII raises a UnicodeDecodeError, which is a
-- ValueError and no OSError.
unfoldable pub read_ascii : String → Exec Folder String
unfolding read all_chars
read_ascii name = do bytes ← read name; require (all_chars is_ascii bytes) value_error; pure bytes

abbrev pub as_object : Option Json → Option Fields
as_object none = none
as_object (some j) = elim j [
  | object found ↦ some found
  | null ↦ none
  | boolean _ ↦ none
  | whole _ ↦ none
  | other_number _ ↦ none
  | text _ ↦ none
  | array _ ↦ none
]

abbrev pub named : ℕ → String → Fields → Option String → Option JournalTransition
named expected path found none = none
named expected path found (some state) =
    if path == transition_name expected state
    then some (record { sequence = expected; state = state; path = path; payload = found })
    else none

abbrev pub checked : ℕ → String → Option Fields → Option JournalTransition
checked expected path none = none
checked expected path (some found) =
    if is_number expected (value_of "sequence" found)
    then named expected path found (as_text (value_of "state" found))
    else none

abbrev pub noted : Option ℕ → String → List (ℕ × String) → List (ℕ × String)
noted none name entries = entries
noted (some n) name entries = put n name entries

-- The two files as they are read: `except OSError: return None`.
unfoldable pub read_both : String → Exec Folder (Option (String × String))
unfolding read read_ascii error_eq
read_both path =
    attempt
      (do body ← read path; digest ← read_ascii (sidecar_name path); pure (some (body, digest)))
      (λ e. if e == os_error then pure none else raise e)

module _ (R : Runtime) where
  -- What the content of both files is good for.
  unfoldable pub verified : ℕ → String → String → String → Option JournalTransition
  unfolding strip transition_name value_of string_eq nat_eq
  verified expected path body digest =
      if R.sha256_hex body == strip digest
      then checked expected path (as_object (R.loads body))
      else none

  abbrev pub verified_texts : ℕ → String → Option (String × String) → Option JournalTransition
  verified_texts expected path none = none
  verified_texts expected path (some (body, digest)) = verified expected path body digest

  -- `_try_read_transition`
  unfoldable pub try_read_transition : ℕ → String → Exec Folder (Option JournalTransition)
  unfolding verified read_both
  try_read_transition expected path d =
      if is_file (sidecar_name path) d
      then (read_both path >>= λ both. pure (verified_texts expected path both)) d
      else (ok none, d)

  abbrev pub entry : Node → String → List (ℕ × String) → List (ℕ × String)
  entry folder name entries = entries
  entry (file content) name entries = noted (sequence_of R.digit_value name) name entries

  -- `entries_by_sequence`: a later entry of the directory takes the place of an earlier one.
  unfoldable pub collect : List (ℕ × String) → List (String × Node) → List (ℕ × String)
  unfolding sequence_of put nat_eq
  collect entries [] = entries
  collect entries ((name, node) ∷ nodes) = collect (entry node name entries) nodes

  -- What the loop does with an entry that was read, `rest` being its further rounds.
  abbrev pub chained :
      Exec Folder (List JournalTransition)
      → Option JournalTransition
      → Exec Folder (List JournalTransition)
  chained rest none = pure []
  chained rest (some t) = rest >>= λ later. pure (t ∷ later)

  abbrev pub round :
      ℕ
      → Exec Folder (List JournalTransition)
      → Option String
      → Exec Folder (List JournalTransition)
  round sequence rest none = pure []
  round sequence rest (some path) = try_read_transition sequence path >>= chained rest

  unfoldable pub walk : ℕ → ℕ → List (ℕ × String) → Exec Folder (List JournalTransition)
  unfolding try_read_transition get nat_eq
  walk zero sequence entries = raise out_of_fuel
  walk (suc fuel) sequence entries =
      round sequence (walk fuel (suc sequence) entries) (get sequence entries)

  unfoldable pub discover_journal_chain : Exec Folder (List JournalTransition)
  unfolding walk collect list_nodes
  discover_journal_chain d = elim d.place [
    | absent ↦ (ok [], d)
    | occupied ↦ (ok [], d)
    | directory ↦
        (list_nodes >>= λ nodes.
        let entries = collect [] nodes in walk (suc (length entries)) 1 entries)
          d
  ]

-- ===== src/Tests/Journals.antt =====
-- The theorems on the journal of a restore, at concrete inputs.
use Prim.Native.Char.{code}
use redline_os.Prelude.{
  ℕ, zero, suc, ◌<◌, ◌-◌, String, ◌≡◌, ◌≢◌, refl, ap, Option, none, some, List, [], ◌∷◌, nat_eq,
  string_eq, option_eq, arith, ◌==◌, if◌then◌else◌,
}
use redline_os.Prelude.Text.{all_chars, is_lower_hex, between, count_chars, is_space}
use redline_os.Prelude.Dict.{get, put}
use redline_os.Errors.{error_eq, out_of_fuel, value_error}
use redline_os.Exec.{ok, err}
use redline_os.Restore.Journal.States.{RestoreState, value}
use redline_os.Restore.Journal.Directory.{Node, file, list_nodes, read, works, fails}
use redline_os.Restore.Journal.Names.{
  digit_char, four_digits, transition_name, is_state_char, is_state_part, leading, sequence_of,
}
use redline_os.Restore.Journal.Names.Limits.{transition_name-read_back}
use redline_os.Restore.Journal.Payload.{
  Fields, no_fields, field, whole, text, object, Json, Runtime, value_of, as_text,
}
use redline_os.Restore.Journal.{
  Event, RestoreJournal, Open, create, payload, append, append_all, json_tmp, sidecar_tmp,
}
use redline_os.Restore.Journal.Assumed.{IsRuntime}
use redline_os.Restore.Journal.Published.{holding}
use redline_os.Restore.Journal.RoundTrip.{opened, fresh, nothing, transitions, discover-append_all}
use redline_os.Restore.Journal.Appends.{append_keeps}
use redline_os.Restore.Journal.Chain.{IsChain, discover-IsChain, discover_nodes}
use redline_os.Restore.Journal.Ends.{discover-ends}
use redline_os.Restore.Journal.Discovery.{
  JournalTransition, rstrip, strip, read_ascii, verified, read_both, try_read_transition, collect,
  walk, discover_journal_chain,
}

-- A serialization that keeps what a journal reads: the sequence in unary, a bar, the state.
encode : ℕ → String → String
encode zero state = String.◌∷◌ "|" state
encode (suc n) state = String.◌∷◌ "x" (encode n state)

abbrev one_more : Option (ℕ × String) → Option (ℕ × String)
one_more none = none
one_more (some (n, state)) = some (suc n, state)

decode : String → Option (ℕ × String)
decode String.[] = none
decode (String.◌∷◌ c s) =
    let rest = decode s in if code c == b'|' then some (0, s) else one_more rest

decode-encode : (n : ℕ) (state : String) → decode (encode n state) ≡ some (n, state)
unfolding decode encode nat_eq
decode-encode zero state = refl
decode-encode (suc n) state = ap one_more (decode-encode n state)

abbrev as_number : Option Json → ℕ
as_number none = 0
as_number (some j) = elim j [ whole n ↦ n | _ ↦ 0 ]

abbrev or_empty : Option String → String
or_empty none = ""
or_empty (some t) = t

abbrev as_fields : ℕ → String → Fields
as_fields n state = field "sequence" (whole n) (field "state" (text state) no_fields)

abbrev as_json : Option (ℕ × String) → Option Json
as_json none = none
as_json (some (n, state)) = some (object (as_fields n state))

runtime : Runtime
unfolding encode decode value_of string_eq
runtime = record {
  sha256_hex = λ bytes. "00ab";
  dumps = λ fields.
      encode (as_number (value_of "sequence" fields))
        (or_empty (as_text (value_of "state" fields)));
  loads = λ s. as_json (decode s);
  digit_value = λ c. if between b'0' b'9' (code c) then some (code c - b'0') else none;
}

digits : (n : ℕ) → n < 10 → runtime.digit_value (digit_char n) ≡ some n
unfolding runtime digit_char nat_eq
digits zero h = refl
digits (suc zero) h = refl
digits (suc (suc zero)) h = refl
digits (suc (suc (suc zero))) h = refl
digits (suc (suc (suc (suc zero)))) h = refl
digits (suc (suc (suc (suc (suc zero))))) h = refl
digits (suc (suc (suc (suc (suc (suc zero)))))) h = refl
digits (suc (suc (suc (suc (suc (suc (suc zero))))))) h = refl
digits (suc (suc (suc (suc (suc (suc (suc (suc zero)))))))) h = refl
digits (suc (suc (suc (suc (suc (suc (suc (suc (suc zero))))))))) h = refl
digits (suc (suc (suc (suc (suc (suc (suc (suc (suc (suc n)))))))))) h = absurd (omega arith)

runtime-IsRuntime : IsRuntime runtime
unfolding runtime payload value_of string_eq all_chars is_lower_hex
runtime-IsRuntime = record {
  hexadecimal = λ bytes. refl;
  loaded = λ journal event. as_fields journal.next_sequence (value event.state);
  loads-dumps =
      λ journal event. ap as_json (decode-encode journal.next_sequence (value event.state));
  same_sequence = λ journal event. refl;
  same_state = λ journal event. refl;
  digits = digits;
  dot = refl;
}

abbrev start : Event
start = record {
  state = RestoreState.restore_initiated;
  detail = no_fields;
  timestamp = "2026-01-02T03:04:05Z";
  json_hex = "0a";
  sidecar_hex = "0b";
}

abbrev target : Event
target = record start { state = RestoreState.target_verified }

abbrev journal : RestoreJournal
journal = fresh runtime runtime-IsRuntime "r1-1" "b1" none

discover-append_all_example :
    let (r, o) =
      append_all runtime (start ∷ target ∷ []) (opened runtime runtime-IsRuntime journal []) in
    (create "r1-1" "b1" none nothing ≡ (ok journal, holding []))
    × (r ≡ ok tt)
    × (discover_journal_chain runtime o.folder
        ≡ (ok (transitions runtime runtime-IsRuntime journal (start ∷ target ∷ [])), o.folder))
discover-append_all_example =
    discover-append_all runtime runtime-IsRuntime "r1-1" "b1" none (start ∷ target ∷ [])
      (omega arith)

abbrev first_name : String
first_name = "0001_RESTORE_INITIATED.json"

abbrev both_files : List (String × Node)
both_files =
    (first_name, file "x|RESTORE_INITIATED")
    ∷ ("0001_RESTORE_INITIATED.json.sha256", file "00ab")
    ∷ []

not_json_tmp : json_tmp target ≢ first_name
unfolding count_chars
not_json_tmp same = let l : Path ℕ 12 27 = ap count_chars same in absurd (omega arith)

not_sidecar_tmp : sidecar_tmp target ≢ first_name
unfolding count_chars
not_sidecar_tmp same = let l : Path ℕ 14 27 = ap count_chars same in absurd (omega arith)

-- The second write fails.
abbrev broken : Open
broken = record {
  journal = record journal { next_sequence = 2 };
  folder = record (holding both_files) { calls = works ∷ fails ∷ [] };
}

append_keeps_example :
    get first_name (append runtime target broken).1.folder.nodes ≡ some (file "x|RESTORE_INITIATED")
unfolding get string_eq
append_keeps_example =
    append_keeps runtime target broken first_name (file "x|RESTORE_INITIATED") not_json_tmp
      not_sidecar_tmp refl

discover_nodes_example : (discover_journal_chain runtime (holding both_files)).1.nodes ≡ both_files
discover_nodes_example = discover_nodes runtime (holding both_files)

discover-ends_example : (discover_journal_chain runtime (holding both_files)).0 ≢ err out_of_fuel
discover-ends_example = discover-ends runtime (holding both_files)

abbrev found : List JournalTransition
found =
    record {
      sequence = 1;
      state = "RESTORE_INITIATED";
      path = first_name;
      payload = as_fields 1 "RESTORE_INITIATED";
    }
    ∷ []

discover-IsChain_example : IsChain runtime both_files 1 found
unfolding discover_journal_chain walk collect list_nodes try_read_transition verified read_both read
    read_ascii get put string_eq nat_eq sequence_of leading transition_name four_digits
    is_state_part is_state_char digit_char strip rstrip is_space all_chars value_of runtime decode
discover-IsChain_example = discover-IsChain runtime (holding both_files) found refl

-- A byte of the digest that is not ASCII raises, where a digest that does not match ends the chain.
not_ascii :
    (discover_journal_chain runtime (
      holding ((first_name, file "x|A") ∷ ("0001_RESTORE_INITIATED.json.sha256", file "é") ∷ []))).0
    ≡ err value_error
unfolding discover_journal_chain walk collect list_nodes try_read_transition verified read_both read
    read_ascii get put string_eq nat_eq sequence_of leading transition_name four_digits
    is_state_part is_state_char digit_char strip rstrip is_space all_chars value_of runtime decode
    error_eq
not_ascii = refl

-- The ten thousandth transition is named "10000_RESTORE_INITIATED.json".
transition_name-read_back_example :
    sequence_of runtime.digit_value (transition_name 10000 (value RestoreState.restore_initiated))
    ≡ none
transition_name-read_back_example =
    transition_name-read_back runtime.digit_value 10000 RestoreState.restore_initiated digits

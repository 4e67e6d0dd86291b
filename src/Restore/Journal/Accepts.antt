-- ===== src/Restore/Journal/Accepts.antt =====
-- The two files of a recorded transition are accepted.
use redline_os.Prelude.{String, true, ◌≡◌, refl, some, List, string_eq, nat_eq, ==_refl}
use redline_os.Prelude.Text.{all_chars}
use redline_os.Prelude.Dict.{get}
use redline_os.Errors.{error_eq}
use redline_os.Exec.{ok}
use redline_os.Restore.Journal.States.{value}
use redline_os.Restore.Journal.Directory.{Node, file, read}
use redline_os.Restore.Journal.Assumed.{IsRuntime}
use redline_os.Restore.Journal.Payload.{Runtime, text, whole, value_of}
use redline_os.Restore.Journal.Published.{holding}
use redline_os.Restore.Journal.Digests.{all_hex-is_ascii, strip-hex}
use redline_os.Restore.Journal.Discovery.{
  JournalTransition, is_ascii, verified, read_both, read_ascii, try_read_transition,
}
use redline_os.Restore.Journal.{RestoreJournal, Event, payload, name_of, body_of, sidecar_name}

module _ (name bytes : String) (all : List (String × Node))
    (here : get name all ≡ some (file bytes)) where
  read_works : read name (holding all) ≡ (ok bytes, holding all)
  unfolding read
  read_works = rw here refl

  read_ascii_works :
      all_chars is_ascii bytes ≡ true → read_ascii name (holding all) ≡ (ok bytes, holding all)
  unfolding read_ascii
  read_ascii_works ascii = rw (read_works, ascii) refl

read_both_works :
    (name body digest : String) (all : List (String × Node))
    → get name all ≡ some (file body)
    → get (sidecar_name name) all ≡ some (file digest)
    → all_chars is_ascii digest ≡ true
    → read_both name (holding all) ≡ (ok (some (body, digest)), holding all)
unfolding read_both
read_both_works name body digest all here there ascii =
    rw (read_works name body all here, read_ascii_works (sidecar_name name) digest all there ascii)
      refl

module _ (R : Runtime) (h : IsRuntime R) where
  abbrev pub transition : RestoreJournal → Event → JournalTransition
  transition journal event = record {
    sequence = journal.next_sequence;
    state = value event.state;
    path = name_of R journal event;
    payload = h.loaded journal event;
  }

  module _ (journal : RestoreJournal) (event : Event) where
    payload_sequence :
        value_of "sequence" (h.loaded journal event) ≡ some (whole journal.next_sequence)
    unfolding value_of payload string_eq
    payload_sequence = h.same_sequence journal event

    payload_state : value_of "state" (h.loaded journal event) ≡ some (text (value event.state))
    unfolding value_of payload string_eq
    payload_state = h.same_state journal event

    verified_works :
        verified R journal.next_sequence
          (name_of R journal event)
          (body_of R journal event)
          (R.sha256_hex (body_of R journal event))
        ≡ some (transition journal event)
    unfolding verified
    verified_works =
        let digest = R.sha256_hex (body_of R journal event) in
        rw
          (
            strip-hex digest (h.hexadecimal (body_of R journal event)),
            ==_refl digest,
            h.loads-dumps journal event,
            payload_sequence,
            ==_refl journal.next_sequence,
            payload_state,
            ==_refl (name_of R journal event),
          )
          refl

    pub try_read_works :
        (all : List (String × Node))
        → get (name_of R journal event) all ≡ some (file (body_of R journal event))
        → get (sidecar_name (name_of R journal event)) all
          ≡ some (file (R.sha256_hex (body_of R journal event)))
        → try_read_transition R journal.next_sequence (name_of R journal event) (holding all)
          ≡ (ok (some (transition journal event)), holding all)
    unfolding try_read_transition
    try_read_works all here there =
        let ascii = all_hex-is_ascii _ (h.hexadecimal (body_of R journal event)) in
        rw
          (
            there,
            read_both_works (name_of R journal event) _ _ all here there ascii,
            verified_works,
          )
          refl

-- ===== src/Restore/Journal/Assumed.antt =====
-- What a journal relies on of Python's libraries.
use Prim.Native.Char.{Char}
use redline_os.Prelude.{ℕ, ◌<◌, String, true, ◌≡◌, Option, none, some}
use redline_os.Prelude.Text.{all_chars, is_lower_hex}
use redline_os.Restore.Journal.Names.{digit_char}
use redline_os.Restore.Journal.Payload.{object, Fields, value_of, Runtime}
use redline_os.Restore.Journal.{RestoreJournal, Event, payload}

-- The ten characters of the decimal digits have their values.
abbrev pub HasDigits : (Char → Option ℕ) → Type 0
HasDigits digit_value = (n : ℕ) → n < 10 → digit_value (digit_char n) ≡ some n

-- A digest is written in hexadecimal digits; the payload of a transition, dumped and loaded, is an
-- object with the same sequence and the same state; "." is no digit.
pub record IsRuntime (R : Runtime) : Type 0 where
  pub hexadecimal : (bytes : String) → all_chars is_lower_hex (R.sha256_hex bytes) ≡ true
  pub loaded : RestoreJournal → Event → Fields
  pub loads-dumps :
      (journal : RestoreJournal) (event : Event)
      → R.loads (R.dumps (payload journal event)) ≡ some (object (loaded journal event))
  pub same_sequence :
      (journal : RestoreJournal) (event : Event)
      → value_of "sequence" (loaded journal event) ≡ value_of "sequence" (payload journal event)
  pub same_state :
      (journal : RestoreJournal) (event : Event)
      → value_of "state" (loaded journal event) ≡ value_of "state" (payload journal event)
  pub digits : HasDigits R.digit_value
  pub dot : R.digit_value "." ≡ none

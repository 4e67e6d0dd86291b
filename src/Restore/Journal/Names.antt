-- ===== src/Restore/Journal/Names.antt =====
-- restore/journal.py: the names of transitions, `f"{sequence:04d}_{state}.json"`, printed and read.
pub mod Reads
pub mod Limits
use Prim.Native.Char.{Char, code}
use redline_os.Prelude.{
  ℕ, ◌+◌, ◌*◌, ◌/◌, ◌%◌, String, ◌<>◌, Bool, true, false, ◌&&◌, ◌||◌, Option, none, some,
  if◌then◌else◌, ◌==◌, nat_eq, string_eq, ltb,
}
use redline_os.Prelude.Text.{between, decimal}

unfoldable pub digit_char : ℕ → Char
digit_char n =
    if n == 0
    then "0"
    else if n == 1
    then "1"
    else if n == 2
    then "2"
    else if n == 3
    then "3"
    else if n == 4
    then "4"
    else if n == 5
    then "5"
    else if n == 6
    then "6"
    else if n == 7
    then "7"
    else if n == 8
    then "8"
    else "9"

-- `f"{n:04d}"`, and a text after it.
unfoldable pub four_digits : ℕ → String → String
unfolding digit_char
four_digits n rest =
    if ltb n 10000
    then String.◌∷◌ (digit_char (n / 1000)) (
        String.◌∷◌ (digit_char (n / 100 % 10))
          (String.◌∷◌ (digit_char (n / 10 % 10)) (String.◌∷◌ (digit_char (n % 10)) rest)))
    else decimal n <> rest

unfoldable pub transition_name : ℕ → String → String
unfolding four_digits
transition_name sequence state = four_digits sequence (String.◌∷◌ "_" (state <> ".json"))

-- [A-Z0-9_]
unfoldable pub is_state_char : Char → Bool
is_state_char c = between b'A' b'Z' (code c) || (between b'0' b'9' (code c) || code c == b'_')

-- `[A-Z0-9_]+\.json`, where `seen` says that a character of the state was read before.
unfoldable pub is_state_part : Bool → String → Bool
unfolding is_state_char
is_state_part seen String.[] = false
is_state_part seen (String.◌∷◌ c s) =
    let rest = is_state_part true s in
    if is_state_char c then rest else seen && String.◌∷◌ c s == ".json"

abbrev pub added : ℕ → String → Option ℕ → Option (ℕ × String)
added n s none = none
added n s (some d) = some (n * 10 + d, s)

-- `\d`, with the value that `int` gives the digit.
abbrev pub take_digit : (Char → Option ℕ) → ℕ → String → Option (ℕ × String)
take_digit digit_value n String.[] = none
take_digit digit_value n (String.◌∷◌ c s) = added n s (digit_value c)

abbrev pub then_digit : (Char → Option ℕ) → Option (ℕ × String) → Option (ℕ × String)
then_digit digit_value none = none
then_digit digit_value (some (n, s)) = take_digit digit_value n s

-- `\d{4}`
unfoldable pub leading : (Char → Option ℕ) → String → Option (ℕ × String)
leading digit_value s =
    let digit = then_digit digit_value in digit (digit (digit (digit (some (0, s)))))

abbrev pub after_digits : Option (ℕ × String) → Option ℕ
after_digits none = none
after_digits (some (n, String.[])) = none
after_digits (some (n, String.◌∷◌ c s)) =
    if code c == b'_' && is_state_part false s then some n else none

-- `_TRANSITION_NAME_RE.fullmatch(name)`, and the integer of its first group.
unfoldable pub sequence_of : (Char → Option ℕ) → String → Option ℕ
unfolding leading is_state_part
sequence_of digit_value name = after_digits (leading digit_value name)

-- ===== src/Restore/Journal/Names/Limits.antt =====
-- The names that are printed with more than four digits, and what discovery makes of them.
use Prim.Native.Char.{Char}
use redline_os.Prelude.{
  ℕ, zero, suc, ◌<◌, ◌⊎◌, inl, inr, ◌≤◌, String, ◌<>◌, Bool, true, false, ◌≡◌, refl, Option, none,
  some, arith, nat_eq, ltb, ◌&&◌, if◌then◌else◌,
}
use redline_os.Prelude.Text.{all_chars, count_chars, decimal, cons-append}
use redline_os.Prelude.Text.Decimals.{is_digit, decimal-is_digit, count_chars-decimal}
use redline_os.Restore.Journal.States.{RestoreState, value}
use redline_os.Restore.Journal.Names.{
  added, then_digit, four_digits, transition_name, leading, after_digits, sequence_of,
}
use redline_os.Restore.Journal.Names.Reads.{sequence_of-transition_name}
use redline_os.Restore.Journal.Assumed.{HasDigits}

-- The text begins with so many digits.
abbrev digits_ahead : ℕ → String → Bool
digits_ahead zero s = true
digits_ahead (suc k) String.[] = false
digits_ahead (suc k) (String.◌∷◌ c s) = is_digit c && digits_ahead k s

digits_ahead-append :
    (k : ℕ) (s t : String)
    → all_chars is_digit s ≡ true
    → k ≤ count_chars s
    → digits_ahead k (s <> t) ≡ true
unfolding all_chars count_chars
digits_ahead-append zero s t digits long = refl
digits_ahead-append (suc k) String.[] t digits long = absurd (omega arith)
digits_ahead-append (suc k) (String.◌∷◌ c s) t digits long =
    rw (cons-append c s t) (ground (arith, digits_ahead-append k s t))

abbrev IsAhead : ℕ → Option (ℕ × String) → Type 0
IsAhead k none = Unit
IsAhead k (some (n, s)) = digits_ahead k s ≡ true

added-IsAhead :
    (k n : ℕ) (s : String) (o : Option ℕ) → digits_ahead k s ≡ true → IsAhead k (added n s o)
added-IsAhead k n s none ahead = tt
added-IsAhead k n s (some d) ahead = ahead

then_digit-IsAhead :
    (digit_value : Char → Option ℕ) (k : ℕ) (o : Option (ℕ × String))
    → IsAhead (suc k) o
    → IsAhead k (then_digit digit_value o)
then_digit-IsAhead digit_value k none ahead = tt
then_digit-IsAhead digit_value k (some (n, String.[])) ahead = tt
then_digit-IsAhead digit_value k (some (n, String.◌∷◌ c s)) ahead =
    added-IsAhead k n s (digit_value c) (ground (arith, ahead))

leading-IsAhead :
    (digit_value : Char → Option ℕ) (s : String)
    → digits_ahead 5 s ≡ true
    → IsAhead 1 (leading digit_value s)
unfolding leading
leading-IsAhead digit_value s ahead =
    let digit = then_digit-IsAhead digit_value in
    digit 1 _ (digit 2 _ (digit 3 _ (digit 4 (some (0, s)) ahead)))

-- A digit where "_" should stand is no name of a transition.
after_digits-IsAhead : (o : Option (ℕ × String)) → IsAhead 1 o → after_digits o ≡ none
after_digits-IsAhead none ahead = refl
after_digits-IsAhead (some (n, String.[])) ahead = refl
after_digits-IsAhead (some (n, String.◌∷◌ c s)) ahead = ground (arith, ahead)

transition_name-digits :
    (n : ℕ) (state : String) → 10000 ≤ n → digits_ahead 5 (transition_name n state) ≡ true
unfolding transition_name four_digits
transition_name-digits n state low =
    let printed : ltb n 10000 ≡ false = ground arith in
    let rest = String.◌∷◌ "_" (state <> ".json") in
    rw printed
      (digits_ahead-append 5 (decimal n) rest (decimal-is_digit n) (count_chars-decimal n low))

-- Where the ten digits have their values, discovery reads the sequence of a transition's name back if
-- it is below 10000, and takes no name from 10000 on for a transition.
pub transition_name-read_back :
    (digit_value : Char → Option ℕ) (n : ℕ) (s : RestoreState)
    → HasDigits digit_value
    → sequence_of digit_value (transition_name n (value s)) ≡ (if ltb n 10000 then some n else none)
unfolding sequence_of
transition_name-read_back digit_value n s digits =
    let name = transition_name n (value s) in
    elim (split_at n) [
      | inl below ↦
          let printed : ltb n 10000 ≡ true = ground arith in
          rw printed (sequence_of-transition_name digit_value digits n s below)
      | inr above ↦
          let printed : ltb n 10000 ≡ false = ground arith in
          rw printed (
            after_digits-IsAhead _
              (leading-IsAhead digit_value name (transition_name-digits n (value s) above)))
    ]
  where
    split_at : (n : ℕ) → (n < 10000) ⊎ (10000 ≤ n)
    split_at n = ground arith

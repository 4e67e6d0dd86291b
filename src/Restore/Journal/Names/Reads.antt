-- ===== src/Restore/Journal/Names/Reads.antt =====
-- A name that was printed is read back.
use Prim.Native.Char.{Char}
use redline_os.Prelude.{
  ℕ, ◌<◌, ◌/◌, ◌%◌, ◌*◌, ◌+◌, String, ◌<>◌, Bool, true, false, ◌≡◌, refl, ap, ◌∙◌, Option, none,
  some, nat_eq, string_eq, arith, ltb, ◌&&◌, if◌then◌else◌,
}
use redline_os.Prelude.Text.{all_chars, cons-append}
use redline_os.Restore.Journal.States.{RestoreState, value}
use redline_os.Restore.Journal.Names.{
  digit_char, added, then_digit, four_digits, transition_name, is_state_char, is_state_part,
  leading, after_digits, sequence_of,
}
use redline_os.Restore.Journal.{sidecar_name}
use redline_os.Restore.Journal.Assumed.{HasDigits}

suffix_ends : is_state_part true ".json" ≡ true
unfolding is_state_part is_state_char nat_eq string_eq
suffix_ends = refl

chosen :
    (b holds x y : Bool)
    → (b && holds) ≡ true
    → (holds ≡ true → x ≡ true)
    → (if b then x else y) ≡ true
chosen true holds x y h step = step h
chosen false holds x y h step = absurd (ground arith)

rejected :
    (b holds x y : Bool)
    → (b && holds) ≡ true
    → (holds ≡ true → x ≡ false)
    → (if b then x else y) ≡ false
rejected true holds x y h step = step h
rejected false holds x y h step = absurd (ground arith)

state_part :
    (s : String) → all_chars is_state_char s ≡ true → is_state_part true (s <> ".json") ≡ true
unfolding is_state_part all_chars
state_part String.[] h = suffix_ends
state_part (String.◌∷◌ c s) h =
    rw (cons-append c s ".json")
      (chosen (is_state_char c) (all_chars is_state_char s) _ _ h (state_part s))

-- A state that is not empty, of such characters.
abbrev is_state : String → Bool
is_state String.[] = false
is_state (String.◌∷◌ c s) = is_state_char c && all_chars is_state_char s

named_part : (s : String) → is_state s ≡ true → is_state_part false (s <> ".json") ≡ true
unfolding is_state_part
named_part String.[] h = absurd (ground arith)
named_part (String.◌∷◌ c s) h =
    rw (cons-append c s ".json")
      (chosen (is_state_char c) (all_chars is_state_char s) _ _ h (state_part s))

digest_ends : (seen : Bool) → is_state_part seen ".json.sha256" ≡ false
unfolding is_state_part is_state_char nat_eq string_eq
digest_ends true = refl
digest_ends false = refl

digest_part :
    (seen : Bool) (s : String)
    → all_chars is_state_char s ≡ true
    → is_state_part seen ((s <> ".json") <> ".sha256") ≡ false
unfolding is_state_part all_chars
digest_part seen String.[] h = digest_ends seen
digest_part seen (String.◌∷◌ c s) h =
    rw (cons-append c s ".json", cons-append c (s <> ".json") ".sha256")
      (rejected (is_state_char c) (all_chars is_state_char s) _ _ h (digest_part true s))

digest_named :
    (s : String) → is_state s ≡ true → is_state_part false ((s <> ".json") <> ".sha256") ≡ false
unfolding is_state_part
digest_named String.[] h = absurd (ground arith)
digest_named (String.◌∷◌ c s) h =
    rw (cons-append c s ".json", cons-append c (s <> ".json") ".sha256")
      (rejected (is_state_char c) (all_chars is_state_char s) _ _ h (digest_part true s))

value-is_state : (s : RestoreState) → is_state (value s) ≡ true
unfolding value all_chars is_state_char nat_eq
value-is_state s = elim s as (λ s. is_state (value s) ≡ true) [
  | RestoreState.restore_initiated ↦ refl
  | _ ↦ refl
]

pub four_digits-append :
    (n : ℕ) (s t : String) → n < 10000 → four_digits n s <> t ≡ four_digits n (s <> t)
unfolding four_digits
four_digits-append n s t below =
    let printed : ltb n 10000 ≡ true = ground arith in
    rw (printed, cons-append _ _ t, cons-append _ _ t, cons-append _ _ t, cons-append _ s t) refl

four_digits_read :
    (n : ℕ) → (((0 * 10 + n / 1000) * 10 + n / 100 % 10) * 10 + n / 10 % 10) * 10 + n % 10 ≡ n
four_digits_read n = omega arith

module _ (digit_value : Char → Option ℕ) (h : HasDigits digit_value) where
  take-digit_char :
      (n d : ℕ) (rest : String)
      → d < 10
      → then_digit digit_value (some (n, String.◌∷◌ (digit_char d) rest)) ≡ some (n * 10 + d, rest)
  take-digit_char n d rest below = ap (added n rest) (h d below)

  pub leading_digits :
      (n : ℕ) (rest : String)
      → n < 10000
      → leading digit_value (four_digits n rest) ≡ some (n, rest)
  unfolding leading four_digits
  leading_digits n rest below =
      let units = String.◌∷◌ (digit_char (n % 10)) rest in
      let tens = String.◌∷◌ (digit_char (n / 10 % 10)) units in
      let hundreds = String.◌∷◌ (digit_char (n / 100 % 10)) tens in
      let printed : ltb n 10000 ≡ true = ground arith in
      let one = take-digit_char 0 (n / 1000) hundreds (omega arith) in
      let two = take-digit_char (0 * 10 + n / 1000) (n / 100 % 10) tens (omega arith) in
      let three =
        take-digit_char ((0 * 10 + n / 1000) * 10 + n / 100 % 10) (n / 10 % 10) units
          (omega arith) in
      let four =
        take-digit_char (((0 * 10 + n / 1000) * 10 + n / 100 % 10) * 10 + n / 10 % 10) (n % 10) rest
          (omega arith) in
      rw printed (
        ap (λ o. then_digit digit_value (then_digit digit_value (then_digit digit_value o))) one
        ∙ ap (λ o. then_digit digit_value (then_digit digit_value o)) two
        ∙ ap (then_digit digit_value) three
        ∙ four
        ∙ ap (λ k. some (k, rest)) (four_digits_read n))

  pub sequence_of-transition_name :
      (n : ℕ) (s : RestoreState)
      → n < 10000
      → sequence_of digit_value (transition_name n (value s)) ≡ some n
  unfolding sequence_of transition_name nat_eq
  sequence_of-transition_name n s below =
      let rest = String.◌∷◌ "_" (value s <> ".json") in
      ap after_digits (leading_digits n rest below)
      ∙ ap (λ ends. if ends then some n else none) (named_part (value s) (value-is_state s))

  pub sequence_of-sidecar :
      (n : ℕ) (s : RestoreState)
      → n < 10000
      → sequence_of digit_value (sidecar_name (transition_name n (value s))) ≡ none
  unfolding sequence_of transition_name nat_eq
  sequence_of-sidecar n s below =
      let rest = String.◌∷◌ "_" (value s <> ".json") in
      rw (four_digits-append n rest ".sha256" below, cons-append "_" (value s <> ".json") ".sha256")
        (ap after_digits
            (leading_digits n (String.◌∷◌ "_" ((value s <> ".json") <> ".sha256")) below)
          ∙ ap (λ ends. if ends then some n else none) (digest_named (value s) (value-is_state s)))

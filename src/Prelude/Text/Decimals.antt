-- ===== src/Prelude/Text/Decimals.antt =====
-- The text of a number: its characters and how many they are.
use Prim.Native.Nat.{ℕ, zero, suc, ◌+◌, ◌*◌, ◌/◌, ◌%◌, ◌<◌, ◌≤◌}
use Prim.Native.Char.{Char, code}
use Prim.Native.String.{String, ◌++◌ as ◌<>◌}
use mathlib.Core.Path.{◌≡◌, refl}
use mathlib.Core.Bool.{Bool, true, false}
use redline_os.Prelude.Equality.{if◌then◌else◌, nat_eq}
use native.Mathlib.Omega.{arith}
use redline_os.Prelude.Text.{
  between, count_chars, all_chars, digit, decimal_on, decimal, cons-append, nil-append,
}

abbrev pub is_digit : Char → Bool
is_digit c = between b'0' b'9' (code c)

all_chars-append :
    (p : Char → Bool) (s t : String)
    → all_chars p s ≡ true
    → all_chars p t ≡ true
    → all_chars p (s <> t) ≡ true
unfolding all_chars
all_chars-append p String.[] t hs ht = rw (nil-append t) ht
all_chars-append p (String.◌∷◌ c s) t hs ht =
    rw (cons-append c s t) (ground (arith, all_chars-append p s t))

count_chars-append : (s t : String) → count_chars (s <> t) ≡ count_chars s + count_chars t
unfolding count_chars
count_chars-append String.[] t = rw (nil-append t) (omega arith)
count_chars-append (String.◌∷◌ c s) t =
    rw (cons-append c s t) (omega (arith, count_chars-append s t))

record IsOneDigit (s : String) : Type 0 where
  digits : all_chars is_digit s ≡ true
  one : count_chars s ≡ 1

one_digit : (c : Char) → is_digit c ≡ true → IsOneDigit (String.◌∷◌ c "")
unfolding all_chars count_chars
one_digit c h = record { digits = ground (arith, h); one = refl }

either : (b : Bool) {s t : String} → IsOneDigit s → IsOneDigit t → IsOneDigit (if b then s else t)
either true hs ht = hs
either false hs ht = ht

digit-IsOneDigit : (n : ℕ) → IsOneDigit (digit n)
unfolding digit
digit-IsOneDigit n = either _ (one_digit "0" refl) (
    either _ (one_digit "1" refl) (
      either _ (one_digit "2" refl) (
        either _ (one_digit "3" refl) (
          either _ (one_digit "4" refl) (
            either _ (one_digit "5" refl) (
              either _ (one_digit "6" refl) (
                either _ (one_digit "7" refl)
                  (either _ (one_digit "8" refl) (one_digit "9" refl)))))))))

decimal_on-is_digit : (fuel n : ℕ) → all_chars is_digit (decimal_on fuel n) ≡ true
unfolding decimal_on all_chars
decimal_on-is_digit zero n = refl
decimal_on-is_digit (suc fuel) n =
    let one = (digit-IsOneDigit n).digits in
    let last = (digit-IsOneDigit (n % 10)).digits in
    let more =
      all_chars-append is_digit (decimal_on fuel (n / 10)) (digit (n % 10))
        (decimal_on-is_digit fuel (n / 10)) last in
    ground (arith, one, more)

-- 10 ^ k
abbrev tens : ℕ → ℕ
tens zero = 1
tens (suc k) = tens k * 10

tens_pos : (k : ℕ) → 1 ≤ tens k
tens_pos zero = omega arith
tens_pos (suc k) = omega (arith, tens_pos k)

count_chars-decimal_on :
    (k fuel n : ℕ) → tens k ≤ n → n < fuel → k < count_chars (decimal_on fuel n)
unfolding decimal_on
count_chars-decimal_on k zero n low high = absurd (omega arith)
count_chars-decimal_on zero (suc fuel) n low high =
    let one = (digit-IsOneDigit n).one in
    let last = (digit-IsOneDigit (n % 10)).one in
    let more = count_chars-append (decimal_on fuel (n / 10)) (digit (n % 10)) in
    ground (arith, one, last, more)
count_chars-decimal_on (suc k) (suc fuel) n low high =
    let some_tens = tens_pos k in
    let shorter = count_chars-decimal_on k fuel (n / 10) (omega arith) (omega arith) in
    let last = (digit-IsOneDigit (n % 10)).one in
    let more = count_chars-append (decimal_on fuel (n / 10)) (digit (n % 10)) in
    ground (arith, shorter, last, more)

pub decimal-is_digit : (n : ℕ) → all_chars is_digit (decimal n) ≡ true
unfolding decimal
decimal-is_digit n = decimal_on-is_digit (suc n) n

-- A number from 10000 on has at least five digits.
pub count_chars-decimal : (n : ℕ) → 10000 ≤ n → 4 < count_chars (decimal n)
unfolding decimal
count_chars-decimal n low = count_chars-decimal_on 4 (suc n) n low (omega arith)

-- ===== src/Prelude/Text.antt =====
-- Texts by their characters: white space, `str.strip`, hexadecimal digits, and a sort key.
pub mod Decimals
use Prim.Native.Nat.{ℕ, zero, suc, ◌/◌, ◌%◌}
use Prim.Native.Char.{Char, code}
use Prim.Native.String.{String, ◌++◌ as ◌<>◌}
use Prim.Native.String.{compare}
use Prim.Native.String.append
use text.Mathlib.Text.{is_le}
use mathlib.Core.List.{List, [], ◌∷◌}
use mathlib.Core.Path.{◌≡◌}
use mathlib.Core.Bool.{Bool, true, false, ◌&&◌, ◌||◌, not}
use redline_os.Prelude.Equality.{if◌then◌else◌, ◌==◌, nat_eq}
use redline_os.Prelude.Numbers.{leb, ltb}

abbrev pub between : ℕ → ℕ → ℕ → Bool
between lo hi n = leb lo n && leb n hi

-- `str.isspace` of one code point.
unfoldable pub is_space : ℕ → Bool
is_space n =
    between 9 13 n
    || (between 28 32 n
        || (n == 133
            || (n == 160
                || (n == 5760
                    || (between 8192 8202 n
                        || (between 8232 8233 n || (n == 8239 || (n == 8287 || n == 12288))))))))

-- `not value.strip()`
unfoldable pub is_blank : String → Bool
unfolding is_space
is_blank String.[] = true
is_blank (String.◌∷◌ c s) = is_space (code c) && is_blank s

ends_in_space : ℕ → String → Bool
unfolding is_space
ends_in_space last String.[] = is_space last
ends_in_space last (String.◌∷◌ c s) = ends_in_space (code c) s

-- `value != "" and value == value.strip()`
unfoldable pub is_trimmed : String → Bool
unfolding ends_in_space
is_trimmed String.[] = false
is_trimmed (String.◌∷◌ c s) = not (is_space (code c)) && not (ends_in_space (code c) s)

unfoldable pub count_chars : String → ℕ
count_chars String.[] = 0
count_chars (String.◌∷◌ c s) = suc (count_chars s)

-- [0-9a-fA-F], and its lower case part.
unfoldable pub is_lower_hex : Char → Bool
is_lower_hex c = between b'0' b'9' (code c) || between b'a' b'f' (code c)

unfoldable pub is_hex : Char → Bool
unfolding is_lower_hex
is_hex c = is_lower_hex c || between b'A' b'F' (code c)

unfoldable pub all_chars : (Char → Bool) → String → Bool
all_chars p String.[] = true
all_chars p (String.◌∷◌ c s) = p c && all_chars p s

-- `str.lower` of a hexadecimal digit.
unfoldable pub lower_hex : Char → Char
lower_hex c =
    if code c == b'A'
    then "a"
    else if code c == b'B'
    then "b"
    else if code c == b'C'
    then "c"
    else if code c == b'D'
    then "d"
    else if code c == b'E'
    then "e"
    else if code c == b'F'
    then "f"
    else c

unfoldable pub map_chars : (Char → Char) → String → String
map_chars f String.[] = String.[]
map_chars f (String.◌∷◌ c s) = String.◌∷◌ (f c) (map_chars f s)

-- Where a text stands in a sorted list.
insert_name : String → List String → List String
insert_name name [] = name ∷ []
insert_name name (x ∷ xs) =
    let rest = insert_name name xs in if is_le (compare name x) then name ∷ x ∷ xs else x ∷ rest

-- `sorted(names)`
unfoldable pub sort_names : List String → List String
unfolding insert_name
sort_names [] = []
sort_names (name ∷ names) = insert_name name (sort_names names)

digit : ℕ → String
digit n =
    if n == 0
    then "0"
    else if n == 1
    then "1"
    else if n == 2
    then "2"
    else if n == 3
    then "3"
    else if n == 4
    then "4"
    else if n == 5
    then "5"
    else if n == 6
    then "6"
    else if n == 7
    then "7"
    else if n == 8
    then "8"
    else "9"

decimal_on : ℕ → ℕ → String
unfolding digit
decimal_on zero n = ""
decimal_on (suc fuel) n =
    let rest = decimal_on fuel (n / 10) in if ltb n 10 then digit n else rest <> digit (n % 10)

-- The text of a number: each step divides it by ten, so as many steps as the number are enough.
unfoldable pub decimal : ℕ → String
unfolding decimal_on
decimal n = decimal_on (suc n) n

pub cons-append : (c : Char) (s t : String) → String.◌∷◌ c s <> t ≡ String.◌∷◌ c (s <> t)
cons-append c s t = append.cons c s t

pub nil-append : (t : String) → "" <> t ≡ t
nil-append t = append.nil t

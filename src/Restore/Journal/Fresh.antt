-- ===== src/Restore/Journal/Fresh.antt =====
-- The names that a call of `record` uses differ, from each other and from those of earlier calls.
use Prim.Native.Char.{Char, code}
use redline_os.Prelude.{
  ℕ, ◌+◌, ◌<◌, String, ◌<>◌, Bool, true, false, ◌≡◌, ◌≢◌, refl, ap, sym, ◌∙◌, Option, none, some,
  List, [], ◌∷◌, All, string_eq, nat_eq, arith, ltb,
}
use redline_os.Prelude.Text.{count_chars, cons-append, nil-append}
use redline_os.Prelude.Dict.{get}
use redline_os.Restore.Journal.Directory.{Node}
use redline_os.Restore.Journal.Names.{added, then_digit, transition_name, leading}
use redline_os.Restore.Journal.Names.Reads.{four_digits-append, leading_digits}
use redline_os.Restore.Journal.Assumed.{HasDigits}
use redline_os.Restore.Journal.{Event, json_tmp, sidecar_tmp, sidecar_name}

-- The last five characters.
abbrev Last : Type 0
Last = Char × (Char × (Char × (Char × Char)))

abbrev shift : Last → Char → Last
shift (a, (b, (c, (d, e)))) x = (b, (c, (d, (e, x))))

last_five : Last → String → Last
last_five l String.[] = l
last_five l (String.◌∷◌ c s) = last_five (shift l c) s

last_five-append : (l : Last) (s t : String) → last_five l (s <> t) ≡ last_five (last_five l s) t
unfolding last_five
last_five-append l String.[] t = rw (nil-append t) refl
last_five-append l (String.◌∷◌ c s) t = rw (cons-append c s t) (last_five-append (shift l c) s t)

abbrev dots : Last
dots = (".", (".", (".", (".", "."))))

pub tmps_differ : (event : Event) → json_tmp event ≢ sidecar_tmp event
unfolding last_five
tmps_differ event same =
    let json = last_five-append dots event.json_hex ".json.tmp" in
    let sidecar = last_five-append dots event.sidecar_hex ".sha256.tmp" in
    let both : code (last_five dots (event.json_hex <> ".json.tmp")).0
        ≡ code (last_five dots (event.sidecar_hex <> ".sha256.tmp")).0 =
      ap (λ name. code (last_five dots name).0) same in
    let apart : Path ℕ 110 54 = ap (λ l. code l.0) (sym json) ∙ both ∙ ap (λ l. code l.0) sidecar in
    absurd (omega arith)

abbrev pub is_below : ℕ → Option (ℕ × String) → Bool
is_below n none = false
is_below n (some (k, rest)) = ltb k n

module _ (digit_value : Char → Option ℕ) (n : ℕ) where
  -- Each name in the directory begins with a number below `n`.
  abbrev pub Below : List (String × Node) → Type 0
  Below nodes = All (λ entry. is_below n (leading digit_value entry.0) ≡ true) nodes

  pub absent :
      (name : String) (nodes : List (String × Node))
      → is_below n (leading digit_value name) ≡ false
      → Below nodes
      → get name nodes ≡ none
  unfolding get
  absent name [] other below = refl
  absent name ((k, node) ∷ nodes) other below = elim (string_eq.dec k name) [
    | yes same ↦ absurd (ground arith)
    | no apart ↦ ground (arith, absent name nodes other below.1)
  ]

module _ (digit_value : Char → Option ℕ) (h : HasDigits digit_value) (n : ℕ) where
  pub is_below-name :
      (k : ℕ) (state : String)
      → k < 10000
      → is_below n (leading digit_value (transition_name k state)) ≡ ltb k n
  unfolding transition_name
  is_below-name k state small =
      ap (is_below n) (leading_digits digit_value h k (String.◌∷◌ "_" (state <> ".json")) small)

  pub is_below-sidecar :
      (k : ℕ) (state : String)
      → k < 10000
      → is_below n (leading digit_value (sidecar_name (transition_name k state))) ≡ ltb k n
  unfolding transition_name
  is_below-sidecar k state small =
      let rest = String.◌∷◌ "_" (state <> ".json") in
      rw (four_digits-append k rest ".sha256" small)
        (ap (is_below n) (leading_digits digit_value h k (rest <> ".sha256") small))

  pub is_below-dot :
      (s : String)
      → digit_value "." ≡ none
      → is_below n (leading digit_value (String.◌∷◌ "." s)) ≡ false
  unfolding leading
  is_below-dot s dot =
      ap
        (λ o.
          is_below n (
            then_digit digit_value (then_digit digit_value (then_digit digit_value (added 0 s o)))))
        dot

count_chars-suffix : (s : String) → count_chars (s <> ".sha256") ≡ count_chars s + 7
unfolding count_chars
count_chars-suffix String.[] = refl
count_chars-suffix (String.◌∷◌ c s) =
    rw (cons-append c s ".sha256") (omega (arith, count_chars-suffix s))

pub sidecar_differs : (name : String) → sidecar_name name ≢ name
sidecar_differs name same =
    let longer : count_chars name + 7 ≡ count_chars name =
      sym (count_chars-suffix name) ∙ ap count_chars same in
    absurd (omega arith)

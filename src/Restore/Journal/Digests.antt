-- ===== src/Restore/Journal/Digests.antt =====
-- A text of hexadecimal digits is read as it was written.
use Prim.Native.Char.{Char, code}
use redline_os.Prelude.{String, Bool, true, false, ◌&&◌, ◌≡◌, refl, ap, ◌∙◌, arith, nat_eq}
use redline_os.Prelude.Text.{all_chars, is_lower_hex, is_space}
use redline_os.Restore.Journal.Discovery.{is_ascii, rstrip, strip, lstrip}

hex_no_space : (c : Char) → is_lower_hex c ≡ true → is_space (code c) ≡ false
unfolding is_lower_hex is_space
hex_no_space c h = ground arith

hex-is_ascii : (c : Char) → is_lower_hex c ≡ true → is_ascii c ≡ true
unfolding is_lower_hex
hex-is_ascii c h = ground arith

both : (b c : Bool) → (b && c) ≡ true → (b ≡ true) × (c ≡ true)
both true c h = (refl, h)
both false c h = (h, absurd (ground arith))

pub all_hex-is_ascii : (s : String) → all_chars is_lower_hex s ≡ true → all_chars is_ascii s ≡ true
unfolding all_chars
all_hex-is_ascii String.[] h = refl
all_hex-is_ascii (String.◌∷◌ c s) h =
    let parts = both (is_lower_hex c) (all_chars is_lower_hex s) h in
    rw (hex-is_ascii c parts.0) (all_hex-is_ascii s parts.1)

rstrip-hex : (s : String) → all_chars is_lower_hex s ≡ true → rstrip s ≡ s
unfolding rstrip all_chars
rstrip-hex String.[] h = refl
rstrip-hex (String.◌∷◌ c s) h =
    let parts = both (is_lower_hex c) (all_chars is_lower_hex s) h in
    rw (hex_no_space c parts.0) (ap (String.◌∷◌ c) (rstrip-hex s parts.1))

lstrip-hex : (s : String) → all_chars is_lower_hex s ≡ true → lstrip s ≡ s
unfolding all_chars
lstrip-hex String.[] h = refl
lstrip-hex (String.◌∷◌ c s) h =
    rw (hex_no_space c (both (is_lower_hex c) (all_chars is_lower_hex s) h).0) refl

pub strip-hex : (s : String) → all_chars is_lower_hex s ≡ true → strip s ≡ s
unfolding strip
strip-hex s h = ap lstrip (rstrip-hex s h) ∙ lstrip-hex s h

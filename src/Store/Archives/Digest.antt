-- ===== src/Store/Archives/Digest.antt =====
-- `_normalize_manifest_sha256`.
use Prim.Native.Char.{Char, code}
use redline_os.Prelude.{
  suc, String, Bool, true, false, ◌≡◌, refl, ap, ◌∙◌, ◌==◌, nat_eq, if◌then◌else◌, arith,
  Bool-cases, inl, inr,
}
use redline_os.Prelude.Text.{is_hex, is_lower_hex, lower_hex, map_chars, all_chars, count_chars}
use redline_os.Exec.{ok}
use redline_os.Store.Archives.{is_sha256, normalize_manifest_sha256}

choose :
    (b : Bool) (x y : Char)
    → is_lower_hex x ≡ true
    → (b ≡ false → is_lower_hex y ≡ true)
    → is_lower_hex (if b then x else y) ≡ true
choose true x y h k = h
choose false x y h k = k refl

lower_hex-is_lower_hex : (c : Char) → is_hex c ≡ true → is_lower_hex (lower_hex c) ≡ true
unfolding is_hex is_lower_hex lower_hex
lower_hex-is_lower_hex c h = choose (code c == b'A') "a" _ refl λ na.
    choose (code c == b'B') "b" _ refl λ nb. choose (code c == b'C') "c" _ refl λ nc.
      choose (code c == b'D') "d" _ refl λ nd.
        choose (code c == b'E') "e" _ refl
          λ ne. choose (code c == b'F') "f" c refl λ nf. ground arith

lower_hex_fixed : (c : Char) → is_lower_hex c ≡ true → lower_hex c ≡ c
unfolding is_lower_hex lower_hex
lower_hex_fixed c h = ground arith

lower-is_lower :
    (s : String) → all_chars is_hex s ≡ true → all_chars is_lower_hex (map_chars lower_hex s) ≡ true
unfolding all_chars map_chars
lower-is_lower String.[] h = refl
lower-is_lower (String.◌∷◌ c s) h = ground (arith, lower_hex-is_lower_hex c, lower-is_lower s)

lower_fixed : (s : String) → all_chars is_lower_hex s ≡ true → map_chars lower_hex s ≡ s
unfolding all_chars map_chars
lower_fixed String.[] h = refl
lower_fixed (String.◌∷◌ c s) h = rw (lower_hex_fixed c (ground arith), lower_fixed s (ground arith))

count_chars-map : (f : Char → Char) (s : String) → count_chars (map_chars f s) ≡ count_chars s
unfolding count_chars map_chars
count_chars-map f String.[] = refl
count_chars-map f (String.◌∷◌ c s) = ap suc (count_chars-map f s)

all_lower-hex : (s : String) → all_chars is_lower_hex s ≡ true → all_chars is_hex s ≡ true
unfolding all_chars is_hex
all_lower-hex String.[] h = refl
all_lower-hex (String.◌∷◌ c s) h = ground (arith, all_lower-hex s)

-- A digest that is accepted is 64 lower-case hexadecimal digits, and normalizing it again gives the
-- same.
pub normalize_canonical :
    (value digest : String)
    → normalize_manifest_sha256 value ≡ ok digest
    → (count_chars digest ≡ 64)
      × (all_chars is_lower_hex digest ≡ true)
      × (normalize_manifest_sha256 digest ≡ ok digest)
unfolding normalize_manifest_sha256
normalize_canonical value digest h = elim (Bool-cases (is_sha256 value)) [
  | inl good ↦
      let same : map_chars lower_hex value ≡ digest = ground arith in
      let small = lower-is_lower value (unfold is_sha256 in ground arith) in
      let long : count_chars (map_chars lower_hex value) ≡ 64 =
        count_chars-map lower_hex value ∙ unfold is_sha256 in ground arith in
      rw (← same) (
        long,
        small,
        ground (
          arith,
          long,
          lower_fixed (map_chars lower_hex value) small,
          all_lower-hex (map_chars lower_hex value) small,
        ),
      )
  | inr bad ↦ absurd (ground arith)
]

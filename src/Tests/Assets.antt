-- ===== src/Tests/Assets.antt =====
-- The theorem on the path policy, at a concrete input.
use redline_os.Prelude.{String, false, ◌≡◌, refl, List, [], ◌∷◌, any, string_eq, nat_eq}
use redline_os.Prelude.Text.{is_trimmed, is_space, map_chars}
use redline_os.Asset.PathPolicy.{split, validate_declared_asset_path}
use redline_os.Asset.PathPolicy.Contained.{walk, below, join, slash, accepted_below}

abbrev parts : List String
parts = "music" ∷ "intro.wav" ∷ []

accepted_below_example :
    (join parts ≡ map_chars slash "music\\intro.wav")
    × (walk ("assets" ∷ []) parts ≡ below ("assets" ∷ []) parts)
unfolding validate_declared_asset_path split any is_trimmed is_space string_eq nat_eq
accepted_below_example =
    accepted_below (λ path. false) "music\\intro.wav" parts refl ("assets" ∷ [])

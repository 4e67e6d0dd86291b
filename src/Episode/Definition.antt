-- ===== src/Episode/Definition.antt =====
-- episode/models.py, and the checks of episode/manager.py on what it is given. The `isinstance` checks
-- are the types of the model.
use redline_os.Prelude.{
  ℕ, String, Bool, true, false, not, List, [], ◌∷◌, ◌==◌, string_eq, nat_eq, any, length,
  if◌then◌else◌,
}
use redline_os.Prelude.Text.{is_blank}
use redline_os.Episode.World.{MarkerDefinition}

pub record EpisodeBuildDefinition : Type 0 where
  pub episode_id : String
  pub media_paths : List String
  pub markers : List MarkerDefinition
  pub bin_name : String

pub record EpisodeBuildResult : Type 0 where
  pub episode_id : String
  pub project_name : String
  pub timeline_id : String
  pub timeline_name : String
  pub media_paths : List String
  pub media_ids : List String
  pub markers_applied : ℕ
  pub timeline_item_ids : List String
  pub video_item_count : ℕ

abbrev pub is_empty {ℓ} : {A : Type ℓ} → List A → Bool
is_empty [] = true
is_empty (x ∷ xs) = false

-- The loop over the media paths: none is blank, and none normalizes to one seen before.
unfoldable pub valid_paths : (String → String) → List String → List String → Bool
unfolding any
valid_paths normalized seen [] = true
valid_paths normalized seen (path ∷ paths) =
    let rest = valid_paths normalized (normalized path ∷ seen) paths in
    if is_blank path
    then false
    else if any (λ name. name == normalized path) seen
    then false
    else rest

-- `_validate_build_definition`
unfoldable pub is_valid_definition : (String → String) → EpisodeBuildDefinition → Bool
unfolding valid_paths is_blank
is_valid_definition normalized definition =
    if is_blank definition.episode_id
    then false
    else if is_empty definition.media_paths
    then false
    else if valid_paths normalized [] definition.media_paths
    then not (is_blank definition.bin_name)
    else false

-- The loop of `_validate_ordered_ids`: no identifier is blank or repeated.
unfoldable pub distinct_ids : List String → List String → Bool
unfolding any is_blank
distinct_ids seen [] = true
distinct_ids seen (id ∷ ids) =
    let rest = distinct_ids (id ∷ seen) ids in
    if is_blank id then false else if any (λ other. other == id) seen then false else rest

-- `_validate_ordered_ids`
unfoldable pub are_ordered_ids : List String → ℕ → Bool
unfolding distinct_ids nat_eq
are_ordered_ids ids expected_count =
    if length ids == expected_count then distinct_ids [] ids else false

-- ===== src/Render/Plan.antt =====
-- render/plan.py
pub mod Contained
use redline_os.Prelude.{
  String, ◌<>◌, Bool, true, false, ◌&&◌, ◌||◌, not, Option, none, some, List, [], ◌∷◌, ◌==◌,
  string_eq, any, if◌then◌else◌,
}
use redline_os.Prelude.Text.{is_blank}
use redline_os.Errors.{render_configuration_error}
use redline_os.Exec.{Result, ok, err}
use redline_os.Store.Rows.{Episode}
use redline_os.Render.World.{Platform}

-- `RenderPreset` of config/schema.py
pub record RenderPreset : Type 0 where
  pub name : String
  pub resolve_preset_name : String
  pub output_subfolder : String
  pub filename_template : Option String
  pub file_extension : Option String
  pub requires_video_payload : Bool

pub record RenderOutputPlan : Type 0 where
  pub episode_id : String
  pub preset_name : String
  pub resolve_preset_name : String
  pub project_name : String
  pub timeline_name : String
  pub output_directory : String
  pub output_stem : String
  pub file_extension : String
  pub output_path : String

infixl 10 ◌>>=◌
abbrev ◌>>=◌ {ℓ κ} : {A : Type ℓ} {B : Type κ} → Result A → (A → Result B) → Result B
ok a >>= f = f a
err e >>= f = err e

abbrev given {ℓ} : {A : Type ℓ} → Option A → Result A
given none = err render_configuration_error
given (some a) = ok a

-- A check that raises RenderConfigurationError where it fails.
abbrev ensured {ℓ} : {A : Type ℓ} → Bool → A → Result A
ensured true a = ok a
ensured false a = err render_configuration_error

module _ (P : Platform) where
  -- `_validate_render_output_stem` does not raise.
  unfoldable pub is_plain_stem : String → Bool
  is_plain_stem stem =
      not (is_blank stem)
      && (not (P.is_absolute stem)
          && ((P.name stem == stem) && not (any (λ part. part == "..") (P.parts stem))))

  abbrev stem_values : Episode → RenderPreset → String → List (String × String)
  stem_values episode preset timeline_name =
      ("episode_id", episode.episode_id)
      ∷ ("preset_name", preset.name)
      ∷ ("project_name", episode.project_name)
      ∷ ("timeline_name", timeline_name)
      ∷ []

  unfoldable pub build_render_output_plan :
      Episode → RenderPreset → String → Result RenderOutputPlan
  unfolding is_plain_stem
  build_render_output_plan episode preset timeline_name = do
    template ← given preset.filename_template
    extension ← given preset.file_extension
    configured ← given episode.folder_path
    folder ← ensured (not (is_blank configured)) configured
    episode_directory ← ensured (P.is_dir (P.resolve folder)) (P.resolve folder)
    let directory = P.resolve (P.join episode_directory preset.output_subfolder)
    output_directory ← ensured (P.is_relative_to directory episode_directory) directory
    formatted ← given (P.format template (stem_values episode preset timeline_name))
    stem ← ensured (is_plain_stem formatted) formatted
    ok (record {
      episode_id = episode.episode_id;
      preset_name = preset.name;
      resolve_preset_name = preset.resolve_preset_name;
      project_name = episode.project_name;
      timeline_name = timeline_name;
      output_directory = output_directory;
      output_stem = stem;
      file_extension = extension;
      output_path = P.join output_directory (stem <> extension);
    })

-- ===== src/Render/Plan/Contained.antt =====
-- Where the outputs of render/plan.py lie.
use redline_os.Prelude.{
  String, ◌<>◌, Bool, true, false, ◌≡◌, refl, ap, ◌∙◌, Option, none, some, List, [], ◌∷◌, ◌++◌, any,
  ◌==◌, string_eq, arith,
}
use redline_os.Prelude.Text.{is_blank}
use redline_os.Errors.{Error, render_configuration_error}
use redline_os.Exec.{Result, ok, err}
use redline_os.Store.Rows.{Episode}
use redline_os.Render.World.{Platform}
use redline_os.Render.Plan.{
  RenderPreset, RenderOutputPlan, is_plain_stem, stem_values, build_render_output_plan,
}

-- The part of a path that leads out of a folder.
abbrev pub is_parent : String → Bool
is_parent part = part == ".."

-- A text that pathlib takes for one part of a path: not empty, not absolute, and its own last part.
pub record IsOnePart (P : Platform) (text : String) : Type 0 where
  pub filled : is_blank text ≡ false
  pub relative : P.is_absolute text ≡ false
  pub last : P.name text ≡ text

-- What is relied on of pathlib: `parts` of a text of one part and of a folder joined with it, what
-- `is_relative_to` says of the parts (for POSIX paths, whose parts are compared as they are), and that
-- `resolve` leaves no "..".
pub record IsPathlib (P : Platform) : Type 0 where
  pub alone : (text : String) → IsOnePart P text → P.parts text ≡ text ∷ []
  pub child :
      (folder text : String)
      → IsOnePart P text
      → P.parts (P.join folder text) ≡ P.parts folder ++ (text ∷ [])
  pub rest : String → String → List String
  pub below :
      (path root : String)
      → P.is_relative_to path root ≡ true
      → P.parts path ≡ P.parts root ++ rest path root
  pub resolved : (path : String) → any is_parent (P.parts (P.resolve path)) ≡ false

-- An extension as config/schema.py admits it: a text of one part stays one when it is added.
abbrev pub IsExtension : Platform → String → Type 0
IsExtension P extension = (text : String) → IsOnePart P text → IsOnePart P (text <> extension)

any-append {ℓ} :
    {A : Type ℓ} (p : A → Bool) (xs ys : List A) → any p (xs ++ ys) ≡ false → any p ys ≡ false
unfolding any
any-append p [] ys h = h
any-append p (x ∷ xs) ys h = any-append p xs ys (ground (arith, h))

any-snoc {ℓ} :
    {A : Type ℓ} (p : A → Bool) (xs : List A) (x : A)
    → any p xs ≡ false
    → p x ≡ false
    → any p (xs ++ (x ∷ [])) ≡ false
unfolding any
any-snoc p [] x hs h = ground (arith, h)
any-snoc p (y ∷ ys) x hs h = ground (arith, hs, any-snoc p ys x)

module _ (P : Platform) (episode : Episode) (preset : RenderPreset) (timeline_name : String) where
  abbrev built : Result RenderOutputPlan
  built = build_render_output_plan P episode preset timeline_name

  -- What the checks before a plan have seen.
  record IsBuilt (plan : RenderOutputPlan) : Type 0 where
    folder : String
    template : String
    path : String
    workspace : episode.folder_path ≡ some folder
    existing : P.is_dir (P.resolve folder) ≡ true
    inside : P.is_relative_to plan.output_directory (P.resolve folder) ≡ true
    directory : plan.output_directory ≡ P.resolve path
    approved : preset.file_extension ≡ some plan.file_extension
    template_is : preset.filename_template ≡ some template
    named : P.format template (stem_values P episode preset timeline_name) ≡ some plan.output_stem
    plain : is_plain_stem P plan.output_stem ≡ true
    target :
        plan.output_path ≡ P.join plan.output_directory (plan.output_stem <> plan.file_extension)

  abbrev text_of : Option String → String
  text_of none = ""
  text_of (some text) = text

  built-IsBuilt : (plan : RenderOutputPlan) → built ≡ ok plan → IsBuilt plan
  unfolding build_render_output_plan
  built-IsBuilt plan h = record {
    folder = text_of episode.folder_path;
    template = text_of preset.filename_template;
    path = P.join (P.resolve (text_of episode.folder_path)) preset.output_subfolder;
    workspace = ground arith;
    existing = ground arith;
    inside = ground arith;
    directory = ground arith;
    approved = ground arith;
    template_is = ground arith;
    named = ground arith;
    plain = ground arith;
    target = ground arith;
  }

  built-err : (e : Error) → built ≡ err e → e ≡ render_configuration_error
  unfolding build_render_output_plan
  built-err e h = ground arith

  -- A plan's file, and the folder and the stem that Resolve is given, by the parts of their paths: all
  -- of them come after those of the episode's folder, and none is "..".
  pub record IsInside (plan : RenderOutputPlan) : Type 0 where
    pub folder : String
    pub template : String
    pub subfolders : List String
    pub workspace : episode.folder_path ≡ some folder
    pub existing : P.is_dir (P.resolve folder) ≡ true
    pub named :
        (preset.filename_template ≡ some template)
        × (P.format template (stem_values P episode preset timeline_name) ≡ some plan.output_stem)
    pub directory : P.parts plan.output_directory ≡ P.parts (P.resolve folder) ++ subfolders
    pub stem :
        P.parts (P.join plan.output_directory plan.output_stem)
        ≡ P.parts plan.output_directory ++ (plan.output_stem ∷ [])
    pub file :
        P.parts plan.output_path
        ≡ P.parts plan.output_directory ++ ((plan.output_stem <> plan.file_extension) ∷ [])
    pub down : any is_parent (subfolders ++ (plan.output_stem ∷ [])) ≡ false

  -- How a plan ends.
  abbrev pub Ends : Result RenderOutputPlan → Type 0
  Ends (ok plan) = IsInside plan
  Ends (err e) = e ≡ render_configuration_error

  module _ (pathlib : IsPathlib P) where
    plain-IsOnePart : (stem : String) → is_plain_stem P stem ≡ true → IsOnePart P stem
    unfolding is_plain_stem
    plain-IsOnePart stem plain = record {
      filled = ground arith;
      relative = ground arith;
      last = ground arith;
    }

    plain-is_parent : (stem : String) → is_plain_stem P stem ≡ true → is_parent stem ≡ false
    unfolding is_plain_stem any
    plain-is_parent stem plain =
        let parts = pathlib.alone stem (plain-IsOnePart stem plain) in
        let none_up : any is_parent (P.parts stem) ≡ false = ground arith in
        let up = rw parts at none_up in ground (arith, up)

    IsInside-built :
        ((extension : String) → preset.file_extension ≡ some extension → IsExtension P extension)
        → (plan : RenderOutputPlan) → IsBuilt plan
        → IsInside plan
    IsInside-built extends plan b =
        let root = P.resolve b.folder in
        let subfolders = pathlib.rest plan.output_directory root in
        let directory = pathlib.below plan.output_directory root b.inside in
        let one = plain-IsOnePart plan.output_stem b.plain in
        let longer = extends plan.file_extension b.approved plan.output_stem one in
        let whole =
          ap (λ path. any is_parent (P.parts path)) b.directory ∙ pathlib.resolved b.path in
        let no_way_up = any-append is_parent (P.parts root) subfolders (rw directory at whole) in
        record {
          folder = b.folder;
          template = b.template;
          subfolders = subfolders;
          workspace = b.workspace;
          existing = b.existing;
          named = (b.template_is, b.named);
          directory = directory;
          stem = pathlib.child plan.output_directory plan.output_stem one;
          file = ap P.parts b.target ∙ pathlib.child plan.output_directory _ longer;
          down =
              any-snoc is_parent subfolders plan.output_stem no_way_up
                (plain-is_parent plan.output_stem b.plain);
        }

    pub build_render_output_plan-Ends :
        ((extension : String) → preset.file_extension ≡ some extension → IsExtension P extension)
        → Ends built
    build_render_output_plan-Ends extends = ends built refl
      where
        ends : (r : Result RenderOutputPlan) → built ≡ r → Ends r
        ends (ok plan) h = IsInside-built extends plan (built-IsBuilt plan h)
        ends (err e) h = built-err e h

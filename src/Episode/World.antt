-- ===== src/Episode/World.antt =====
-- What the episode manager works on: the store, what lies outside of the program, and the platform.
use redline_os.Prelude.{ℕ, String, List, Option}
use redline_os.Exec.{Result, Exec}
use redline_os.Store.Sql.{Db}

-- `MarkerDefinition` of config/schema.py, with the frames and the texts of its fields.
pub record MarkerDefinition : Type 0 where
  pub frame : ℕ
  pub color : String
  pub name : String
  pub note : String

-- The methods of `ResolveAdapter` that the assembly calls, and the creation of folders, over the
-- state of Resolve and of the file system.
pub record Outside : Type 1 where
  pub State : Type 0
  pub duplicate_project : (project_name template : String) → Exec State String
  pub import_media :
      (project_name : String) (media_paths : List String) (bin_name : String)
      → Exec State (List String)
  pub build_timeline : (project_name timeline_name : String) → Exec State String
  pub add_markers :
      (project_name timeline_name : String) (markers : List MarkerDefinition)
      → Exec State (Unit {0})
  pub place_clips :
      (project_name timeline_name : String) (clip_ids : List String) → Exec State (List String)
  pub get_video_timeline_item_count : (project_name timeline_name : String) → Exec State ℕ
  pub mkdir : (path : String) → Exec State (Unit {0})

-- `str.format` (none: it raises), `Path(a) / b`, and what `_validate_build_definition` makes of a
-- path to compare it: `str(Path(p).expanduser().resolve(strict=False)).casefold()`.
pub record Texts : Type 0 where
  pub format : String → List (String × String) → Option String
  pub join : String → String → String
  pub normalized : String → String

-- What `RedlineConfig` says.
pub record Config : Type 0 where
  pub episode_id_pattern : String
  pub project_name_pattern : String
  pub timeline_name_pattern : String
  pub master_project_template : String
  pub root_path : String
  pub subfolders : List String

pub record World (O : Outside) : Type 0 where
  pub db : Db
  pub outside : O.State

module _ {O : Outside} {A : Type 0} where
  abbrev pub from_db : World O → Result A × Db → Result A × World O
  from_db w (r, db') = (r, record w { db = db' })

  abbrev pub from_outside : World O → Result A × O.State → Result A × World O
  from_outside w (r, s) = (r, record w { outside = s })

  unfoldable pub on_db : Exec Db A → Exec (World O) A
  on_db m w = from_db w (m w.db)

  unfoldable pub outside_of : Exec O.State A → Exec (World O) A
  outside_of m w = from_outside w (m w.outside)

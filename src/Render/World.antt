-- ===== src/Render/World.antt =====
-- What the manager works on: the store, Resolve behind the interface of resolve/adapter.py, and the
-- platform (pathlib, the file system and str.format), which are not the program's.
pub mod Stays
use redline_os.Prelude.{ℕ, String, Bool, Option, List}
use redline_os.Errors.{Error}
use redline_os.Exec.{Result, Exec}
use redline_os.Store.Sql.{Db}

-- A job of Resolve's queue as `dict.get` reads it: None for a missing key, and values as texts.
abbrev pub QueueJob : Type 0
QueueJob = String → Option String

-- The methods of `ResolveAdapter` that rendering calls, over Resolve's own state.
pub record Resolve : Type 1 where
  pub State : Type 0
  pub queue_render_job :
      (project_name timeline_name resolve_preset_name target_directory custom_name : String)
      → Exec State String
  pub delete_render_job : (project_name resolve_job_id : String) → Exec State (Unit {0})
  pub list_render_jobs : (project_name : String) → Exec State (List QueueJob)
  pub get_video_timeline_item_count : (project_name timeline_name : String) → Exec State ℕ
  pub get_render_status : (resolve_job_id : String) → Exec State String
  pub cancel_render : (resolve_job_id : String) → Exec State (Unit {0})
  pub start_render :
      (project_name timeline_name resolve_job_id output_path : String) → Exec State (Unit {0})

-- `resolve` is `expanduser().resolve()`; `format` is `str.format`, or none where it raises.
pub record Platform : Type 0 where
  pub resolve : String → String
  pub exists : String → Bool
  pub is_dir : String → Bool
  pub is_relative_to : String → String → Bool
  pub is_absolute : String → Bool
  pub join : String → String → String
  pub name : String → String
  pub stem : String → String
  pub parent : String → String
  pub parts : String → List String
  pub format : String → List (String × String) → Option String

pub record World (R : Resolve) : Type 0 where
  pub db : Db
  pub resolve : R.State

module _ {R : Resolve} {A : Type 0} where
  abbrev pub from_db : World R → Result A × Db → Result A × World R
  from_db w (r, db') = (r, record w { db = db' })

  abbrev pub from_resolve : World R → Result A × R.State → Result A × World R
  from_resolve w (r, s) = (r, record w { resolve = s })

  unfoldable pub on_db : Exec Db A → Exec (World R) A
  on_db m w = from_db w (m w.db)

  unfoldable pub on_resolve : Exec R.State A → Exec (World R) A
  on_resolve m w = from_resolve w (m w.resolve)

  abbrev pub lift : Result A → Exec (World R) A
  lift r w = (r, w)

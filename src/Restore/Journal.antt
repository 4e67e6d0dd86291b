-- ===== src/Restore/Journal.antt =====
-- restore/journal.py: a journal of one restore, kept as a directory of transitions and digests. What
-- a method gets from outside is an argument: the time as `_format_utc_iso` prints it, and the two
-- names that `uuid4` makes.
pub mod States
pub mod Directory
pub mod Names
pub mod Payload
pub mod Discovery
pub mod Fresh
pub mod Published
pub mod Collected
pub mod Digests
pub mod Accepts
pub mod RoundTrip
pub mod Verified
pub mod Chain
pub mod Ends
pub mod Appends
pub mod Assumed
use redline_os.Prelude.{
  ℕ, ◌+◌, suc, String, ◌<>◌, Bool, true, false, ◌||◌, Option, none, some, List, [], ◌∷◌,
  if◌then◌else◌, ◌==◌,
}
use redline_os.Prelude.Dict.{get}
use redline_os.Errors.{
  Error, error_eq, file_exists_error, restore_path_collision_error, restore_journal_error,
}
use redline_os.Exec.{Exec, Result, ok, err, pure, raise, require, attempt, after_error, ◌>>=◌, ◌>>◌}
use redline_os.Restore.Journal.States.{RestoreState, value}
use redline_os.Restore.Journal.Directory.{Folder, exists, write, rename, unlink, make_directory}
use redline_os.Restore.Journal.Names.{transition_name}
use redline_os.Restore.Journal.Payload.{
  Json, text, whole, object, Fields, no_fields, field, Runtime,
}

pub record RestoreJournal : Type 0 where
  pub restore_id : String
  pub backup_id : String
  pub next_sequence : ℕ
  pub attempt_kind : Option String

-- What one call of `record` gets: the state, the detail, the time, and the hexadecimal digits of the
-- names of its two temporary files.
pub record Event : Type 0 where
  pub state : RestoreState
  pub detail : Fields
  pub timestamp : String
  pub json_hex : String
  pub sidecar_hex : String

-- `RestoreJournal.create`
unfoldable pub create : String → String → Option String → Exec Folder RestoreJournal
unfolding make_directory error_eq
create restore_id backup_id attempt_kind =
    attempt make_directory (λ e.
      raise
        (if e == file_exists_error then restore_path_collision_error else restore_journal_error))
    >> pure (record {
      restore_id = restore_id;
      backup_id = backup_id;
      next_sequence = 1;
      attempt_kind = attempt_kind;
    })

abbrev kind_field : Option String → Fields
kind_field none = no_fields
kind_field (some kind) = field "attempt_kind" (text kind) no_fields

unfoldable pub payload : RestoreJournal → Event → Fields
unfolding value
payload journal event = field "restore_id" (text journal.restore_id) (
    field "backup_id" (text journal.backup_id) (
      field "sequence" (whole journal.next_sequence) (
        field "state" (text (value event.state)) (
          field "timestamp" (text event.timestamp)
            (field "detail" (object event.detail) (kind_field journal.attempt_kind))))))

abbrev pub json_tmp : Event → String
json_tmp event = String.◌∷◌ "." (event.json_hex <> ".json.tmp")

abbrev pub sidecar_tmp : Event → String
sidecar_tmp event = String.◌∷◌ "." (event.sidecar_hex <> ".sha256.tmp")

abbrev pub sidecar_name : String → String
sidecar_name name = name <> ".sha256"

-- A rename, and what `except FileExistsError` makes of its error.
unfoldable pub publish_file : String → String → Exec Folder (Unit {0})
unfolding rename error_eq
publish_file tmp name =
    attempt (rename tmp name)
      (λ e. raise (if e == file_exists_error then restore_path_collision_error else e))

-- What `except OSError` makes of an error.
abbrev pub as_journal_error : Error → Exec Folder (Unit {0})
as_journal_error e = raise (if e == restore_path_collision_error then e else restore_journal_error)

-- The `try` of `record`: both files are written, then both renamed.
unfoldable pub publish : String → String → String → String → String → Exec Folder (Unit {0})
unfolding write publish_file error_eq
publish tmp_json tmp_sidecar name body digest =
    attempt
      (do
        write tmp_json body
        write tmp_sidecar digest
        publish_file tmp_json name
        publish_file tmp_sidecar (sidecar_name name))
      as_journal_error

-- The `finally` of `record`.
unfoldable pub clean_up : String → Folder → Folder
unfolding unlink
clean_up tmp d = if exists tmp d then unlink tmp d else d

-- A journal that is open, beside its directory.
pub record Open : Type 0 where
  pub journal : RestoreJournal
  pub folder : Folder

module _ (R : Runtime) where
  abbrev pub body_of : RestoreJournal → Event → String
  body_of journal event = R.dumps (payload journal event)

  abbrev pub name_of : RestoreJournal → Event → String
  name_of journal event = transition_name journal.next_sequence (value event.state)

  abbrev pub cleaned : Event → Folder → Folder
  cleaned event d = clean_up (sidecar_tmp event) (clean_up (json_tmp event) d)

  abbrev recorded : Event → Result (Unit {0}) × Folder → Exec RestoreJournal String
  recorded event (ok done, d) journal =
      (ok (name_of journal event), record journal { next_sequence = suc journal.next_sequence })
  recorded event (err e, d) journal = (err e, journal)

  unfoldable pub append : Event → Exec Open String
  unfolding payload transition_name publish clean_up
  append event o =
      let name = name_of o.journal event in
      let body = body_of o.journal event in
      let digest = R.sha256_hex body in
      if exists name o.folder || exists (sidecar_name name) o.folder
      then (err restore_path_collision_error, o)
      else let published = publish (json_tmp event) (sidecar_tmp event) name body digest o.folder in
        let (r, journal) = recorded event published o.journal in
        (r, record { journal = journal; folder = cleaned event published.1 })

  -- `record` for each event in turn, up to the first that raises.
  unfoldable pub append_all : List Event → Exec Open (Unit {0})
  unfolding append
  append_all [] = pure tt
  append_all (event ∷ events) = append event >>= λ name. append_all events

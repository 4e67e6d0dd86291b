-- ===== src/Restore/Journal/Appends.antt =====
-- What a call of `record` does to the directory, whatever call of the operating system fails.
use redline_os.Prelude.{String, ◌≡◌, ◌≢◌, ◌∙◌, Option, none, some, string_eq, arith}
use redline_os.Prelude.Dict.{get, pop}
use redline_os.Prelude.Dict.Laws.{get-put_other, get-pop_other}
use redline_os.Errors.{error_eq}
use redline_os.Exec.{◌>>◌}
use redline_os.Exec.Preserves.{Preserves, Preserves-bind, Preserves-attempt}
use redline_os.Restore.Journal.Directory.{
  Node, file, Outcome, works, fails, tears, outcome, Folder, next, write, written, rename, moved,
  unlink,
}
use redline_os.Restore.Journal.Payload.{Runtime}
use redline_os.Restore.Journal.{
  Event, Open, sidecar_name, publish_file, name_of, body_of, as_journal_error, json_tmp,
  sidecar_tmp, publish, clean_up, append,
}

-- An entry that is there and is not the named temporary file.
module _ (path : String) (n : Node) where
  written_keeps :
      (o : Outcome) (name content : String) (d : Folder)
      → name ≢ path
      → get path d.nodes ≡ some n
      → get path (written o name content d).1.nodes ≡ some n
  written_keeps works name content d differ here =
      get-put_other path name (file content) d.nodes differ ∙ here
  written_keeps fails name content d differ here = here
  written_keeps (tears part) name content d differ here =
      get-put_other path name (file part) d.nodes differ ∙ here

  write_keeps :
      (name content : String) (d : Folder)
      → name ≢ path
      → get path d.nodes ≡ some n
      → get path (write name content d).1.nodes ≡ some n
  unfolding write
  write_keeps name content d differ here =
      ground (arith, written_keeps (outcome d.calls) name content (next d) differ here)

  moved_keeps :
      (o : Option Node) (source destination : String) (d : Folder)
      → source ≢ path
      → get path d.nodes ≡ some n
      → get path (moved o source destination d).1.nodes ≡ some n
  moved_keeps none source destination d differ here = here
  moved_keeps (some x) source destination d differ here = elim (string_eq.dec destination path) [
    | yes same ↦ ground arith
    | no apart ↦ ground (
      arith,
      get-put_other path destination x (pop source d.nodes) apart,
      get-pop_other path source d.nodes differ,
    )
  ]

  rename_keeps :
      (source destination : String) (d : Folder)
      → source ≢ path
      → get path d.nodes ≡ some n
      → get path (rename source destination d).1.nodes ≡ some n
  unfolding rename
  rename_keeps source destination d differ here =
      ground (arith, moved_keeps (get source d.nodes) source destination (next d) differ here)

  clean_up_keeps :
      (tmp : String) (d : Folder)
      → tmp ≢ path
      → get path d.nodes ≡ some n
      → get path (clean_up tmp d).nodes ≡ some n
  unfolding clean_up unlink
  clean_up_keeps tmp d differ here = ground (arith, get-pop_other path tmp d.nodes differ)

  abbrev Here : Folder → Type 0
  Here d = get path d.nodes ≡ some n

  publish_file_keeps : (tmp name : String) → tmp ≢ path → Preserves Here (publish_file tmp name)
  unfolding publish_file
  publish_file_keeps tmp name differ =
      Preserves-attempt (rename tmp name) _ (record { at = λ d. rename_keeps tmp name d differ })
        λ e. record { at = λ d h. h }

  publish_keeps :
      (tmp_json tmp_sidecar name body digest : String)
      → tmp_json ≢ path
      → tmp_sidecar ≢ path
      → Preserves Here (publish tmp_json tmp_sidecar name body digest)
  unfolding publish
  publish_keeps tmp_json tmp_sidecar name body digest j s =
      let first = write tmp_json body in
      let second = write tmp_sidecar digest in
      let third = publish_file tmp_json name in
      let fourth = publish_file tmp_sidecar (sidecar_name name) in
      let last =
        Preserves-bind third (λ _. fourth) (publish_file_keeps tmp_json name j)
          λ _. publish_file_keeps tmp_sidecar (sidecar_name name) s in
      let rest =
        Preserves-bind second (λ _. third >> fourth)
          (record { at = λ d. write_keeps tmp_sidecar digest d s }) λ _. last in
      Preserves-attempt (first >> (second >> (third >> fourth))) as_journal_error
        (Preserves-bind first (λ _. second >> (third >> fourth))
          (record { at = λ d. write_keeps tmp_json body d j }) λ _. rest)
        λ e. record { at = λ d h. h }

module _ (R : Runtime) (event : Event) (o : Open) where
  -- Whether `record` returns or raises, and whatever call of the operating system fails, each entry of
  -- the directory stays as it was, but for the two temporary files of the call.
  pub append_keeps :
      (path : String) (n : Node)
      → json_tmp event ≢ path
      → sidecar_tmp event ≢ path
      → get path o.folder.nodes ≡ some n
      → get path (append R event o).1.folder.nodes ≡ some n
  unfolding append
  append_keeps path n j s here =
      let name = name_of R o.journal event in
      let body = body_of R o.journal event in
      let tried =
        publish (json_tmp event) (sidecar_tmp event) name body (R.sha256_hex body) o.folder in
      let kept =
        (publish_keeps path n (json_tmp event) (sidecar_tmp event) name body (R.sha256_hex body) j
            s).at
          o.folder here in
      let first = clean_up_keeps path n (json_tmp event) tried.1 j kept in
      ground (
        arith,
        clean_up_keeps path n (sidecar_tmp event) (clean_up (json_tmp event) tried.1) s first,
      )

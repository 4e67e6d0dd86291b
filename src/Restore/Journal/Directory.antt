-- ===== src/Restore/Journal/Directory.antt =====
-- What restore/journal.py uses of one directory. It is not the program's: the state is what the path
-- of the directory holds, its entries in the order in which `iterdir` lists them, and how each call
-- to come ends (no entry: it works). The content of a file is a text, one character for each byte. A
-- rename refuses a destination that is there, as on Windows.
use redline_os.Prelude.{
  String, Bool, true, false, not, Option, none, some, List, [], ◌∷◌, string_eq, is_none,
  if◌then◌else◌,
}
use redline_os.Prelude.Dict.{get, put, pop}
use redline_os.Errors.{os_error, file_exists_error}
use redline_os.Exec.{Exec, Result, ok, err}

pub data Node : Type 0 where
  file : String → Node
  folder : Node

pub data Place : Type 0 where
  absent occupied directory : Place

-- A call works, fails with an OSError, or, where it writes, fails after it has written that much.
pub data Outcome : Type 0 where
  works fails : Outcome
  tears : String → Outcome

pub record Folder : Type 0 where
  pub place : Place
  pub nodes : List (String × Node)
  pub calls : List Outcome

abbrev pub outcome : List Outcome → Outcome
outcome [] = works
outcome (o ∷ os) = o

abbrev pub later : List Outcome → List Outcome
later [] = []
later (o ∷ os) = os

abbrev pub next : Folder → Folder
next d = record d { calls = later d.calls }

abbrev pub with_nodes : List (String × Node) → Folder → Folder
with_nodes nodes d = record d { nodes = nodes }

-- `path.exists()`
abbrev pub exists : String → Folder → Bool
exists name d = not (is_none (get name d.nodes))

abbrev pub is_regular : Option Node → Bool
is_regular none = false
is_regular (some (file content)) = true
is_regular (some folder) = false

-- `path.is_file()`
abbrev pub is_file : String → Folder → Bool
is_file name d = is_regular (get name d.nodes)

abbrev pub is_folder : Option Node → Bool
is_folder none = false
is_folder (some (file content)) = false
is_folder (some folder) = true

abbrev pub written : Outcome → String → String → Folder → Result (Unit {0}) × Folder
written works name content d = (ok tt, with_nodes (put name (file content) d.nodes) d)
written fails name content d = (err os_error, d)
written (tears part) name content d = (err os_error, with_nodes (put name (file part) d.nodes) d)

-- `open("wb")`, `write`, `flush`, `os.fsync`
unfoldable pub write : String → String → Exec Folder (Unit {0})
write name content d =
    if is_folder (get name d.nodes)
    then (err os_error, next d)
    else written (outcome d.calls) name content (next d)

abbrev pub moved : Option Node → String → String → Folder → Result (Unit {0}) × Folder
moved none source destination d = (err os_error, d)
moved (some n) source destination d =
    if is_none (get destination d.nodes)
    then (ok tt, with_nodes (put destination n (pop source d.nodes)) d)
    else (err file_exists_error, d)

-- `os.rename`
unfoldable pub rename : String → String → Exec Folder (Unit {0})
rename source destination d = elim (outcome d.calls) [
  | works ↦ moved (get source d.nodes) source destination (next d)
  | fails ↦ (err os_error, next d)
  | tears part ↦ (err os_error, next d)
]

abbrev pub removed : Option Node → String → Folder → Folder
removed none name d = d
removed (some (file content)) name d = with_nodes (pop name d.nodes) d
removed (some folder) name d = d

-- `unlink`, its OSError passed over.
unfoldable pub unlink : String → Folder → Folder
unlink name d = elim (outcome d.calls) [
  | works ↦ removed (get name d.nodes) name (next d)
  | fails ↦ next d
  | tears part ↦ next d
]

abbrev content : Option Node → Folder → Result String × Folder
content none d = (err os_error, d)
content (some (file bytes)) d = (ok bytes, d)
content (some folder) d = (err os_error, d)

-- `read_bytes`
unfoldable pub read : String → Exec Folder String
read name d = elim (outcome d.calls) [
  | works ↦ content (get name d.nodes) (next d)
  | fails ↦ (err os_error, next d)
  | tears part ↦ (err os_error, next d)
]

-- `list(iterdir())`
unfoldable pub list_nodes : Exec Folder (List (String × Node))
list_nodes d = elim (outcome d.calls) [
  | works ↦ (ok d.nodes, next d)
  | fails ↦ (err os_error, next d)
  | tears part ↦ (err os_error, next d)
]

-- `mkdir(parents=True, exist_ok=False)`
unfoldable pub make_directory : Exec Folder (Unit {0})
make_directory d = elim (outcome d.calls) [
  | works ↦ elim d.place [
    | absent ↦ (ok tt, record (next d) { place = directory; nodes = [] })
    | occupied ↦ (err file_exists_error, next d)
    | directory ↦ (err file_exists_error, next d)
  ]
  | fails ↦ (err os_error, next d)
  | tears part ↦ (err os_error, next d)
]

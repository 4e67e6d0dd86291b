-- ===== src/Restore/Disk.antt =====
-- What restore/ uses of the operating system. It is not the program's, so the disk is the state: the
-- objects by their paths, and a list that says of each call to come whether it raises an OSError
-- (no entry: it does not). A rename refuses a destination that is there, as on Windows.
use redline_os.Prelude.{
  ℕ, String, Bool, false, ◌||◌, Option, none, some, List, [], ◌∷◌, string_eq, nat_eq, is_none,
  if◌then◌else◌,
}
use redline_os.Prelude.Dict.{get, put, pop}
use redline_os.Errors.{os_error}
use redline_os.Exec.{Exec, Result, ok, err}

-- `os.lstat`: the mode bits, the reparse attribute of Windows and the device.
pub record Stat : Type 0 where
  pub is_symlink : Bool
  pub is_reparse_point : Bool
  pub is_regular : Bool
  pub is_directory : Bool
  pub device : ℕ

pub record Disk : Type 0 where
  pub objects : List (String × Stat)
  pub refusals : List Bool

-- How `os.lstat` ends: with FileNotFoundError, with another OSError, or with a result.
pub data Lstat : Type 0 where
  not_found unreadable : Lstat
  found : Stat → Lstat

-- `fsutil.is_unsafe_link`
abbrev pub is_unsafe_link : Stat → Bool
is_unsafe_link st = st.is_symlink || st.is_reparse_point

abbrev pub refused : List Bool → Bool
refused [] = false
refused (b ∷ bs) = b

abbrev later : List Bool → List Bool
later [] = []
later (b ∷ bs) = bs

abbrev next : Disk → Disk
next d = record d { refusals = later d.refusals }

abbrev seen_as : Option Stat → Lstat
seen_as none = not_found
seen_as (some st) = found st

unfoldable pub lstat : String → Exec Disk Lstat
lstat path d =
    if refused d.refusals
    then (ok unreadable, next d)
    else (ok (seen_as (get path d.objects)), next d)

abbrev device_of : Option Stat → Disk → Result ℕ × Disk
device_of none d = (err os_error, d)
device_of (some st) d = (ok st.device, d)

-- `os.stat(path).st_dev`
unfoldable pub stat_device : String → Exec Disk ℕ
stat_device path d =
    if refused d.refusals then (err os_error, next d) else device_of (get path d.objects) (next d)

abbrev moved : Option Stat → String → String → Disk → Result (Unit {0}) × Disk
moved none source destination d = (err os_error, d)
moved (some st) source destination d =
    if is_none (get destination d.objects)
    then (ok tt, record d { objects = put destination st (pop source d.objects) })
    else (err os_error, d)

-- `os.rename`
unfoldable pub rename : String → String → Exec Disk (Unit {0})
rename source destination d =
    if refused d.refusals
    then (err os_error, next d)
    else moved (get source d.objects) source destination (next d)

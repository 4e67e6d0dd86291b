-- ===== src/Asset/PathPolicy.antt =====
-- asset/path_policy.py: `validate_declared_asset_path`. Whether pathlib sees a drive or an absolute path
-- is a parameter.
pub mod Contained
use Prim.Native.Char.{Char, code}
use redline_os.Prelude.{
  String, Bool, true, false, not, ◌||◌, List, [], ◌∷◌, any, ◌==◌, string_eq, nat_eq, if◌then◌else◌,
}
use redline_os.Prelude.Text.{is_trimmed}
use redline_os.Errors.{unsafe_asset_path_error}
use redline_os.Exec.{Result, ok, err}

-- `PureWindowsPath(p).drive or PureWindowsPath(p).is_absolute() or PurePosixPath(p).is_absolute()`
abbrev pub IsRooted : Type 0
IsRooted = String → Bool

-- `startswith(("\\\\", "//"))`: two characters that are both backslashes or both slashes.
abbrev starts_with_two : Char → String → Bool
starts_with_two c String.[] = false
starts_with_two c (String.◌∷◌ d s) =
    if code c == code d then code c == 92 || code c == b'/' else false

abbrev pub is_network : String → Bool
is_network String.[] = false
is_network (String.◌∷◌ c s) = starts_with_two c s

-- `replace("\\", "/")`, and whether a character then separates two parts.
abbrev pub separates : Char → Bool
separates c = code c == 92 || code c == b'/'

abbrev pub add_char : Char → List String → List String
add_char c [] = String.◌∷◌ c "" ∷ []
add_char c (part ∷ parts) = String.◌∷◌ c part ∷ parts

-- `normalized.split("/")`
unfoldable pub split : String → List String
unfolding nat_eq
split String.[] = "" ∷ []
split (String.◌∷◌ c s) = let rest = split s in if separates c then "" ∷ rest else add_char c rest

abbrev pub is_empty : String → Bool
is_empty String.[] = true
is_empty (String.◌∷◌ c s) = false

-- `part in {".", ".."}`
abbrev pub is_dots : String → Bool
is_dots part = part == "." || part == ".."

-- `validate_declared_asset_path`: the parts of the path. That no part is left after the empty ones are
-- dropped, and that fewer parts than before are left, both mean that a part was empty.
unfoldable pub validate_declared_asset_path : IsRooted → String → Result (List String)
unfolding split any is_trimmed string_eq nat_eq
validate_declared_asset_path is_rooted declared_path =
    if not (is_trimmed declared_path)
    then err unsafe_asset_path_error
    else if is_network declared_path
    then err unsafe_asset_path_error
    else if is_rooted declared_path
    then err unsafe_asset_path_error
    else if any is_empty (split declared_path)
    then err unsafe_asset_path_error
    else if any is_dots (split declared_path)
    then err unsafe_asset_path_error
    else ok (split declared_path)

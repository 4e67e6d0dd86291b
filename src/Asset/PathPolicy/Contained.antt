-- ===== src/Asset/PathPolicy/Contained.antt =====
-- An accepted path stays below the root to which it is appended.
use Prim.Native.Char.{Char}
use redline_os.Prelude.{
  String, ◌<>◌, Bool, true, false, ◌≡◌, refl, ap, sym, ◌∙◌, List, [], ◌∷◌, any, ◌==◌, string_eq,
  nat_eq, if◌then◌else◌, arith,
}
use redline_os.Exec.{ok}
use redline_os.Prelude.Text.{map_chars, cons-append, nil-append}
use redline_os.Asset.PathPolicy.{
  IsRooted, separates, split, is_empty, is_dots, add_char, validate_declared_asset_path,
}

abbrev pub up : List String → List String
up [] = []
up (folder ∷ folders) = folders

-- The way that an operating system goes from a folder, given by its parts from the last to the first:
-- "" and "." stay, and ".." goes up.
unfoldable pub walk : List String → List String → List String
walk here [] = here
walk here (part ∷ parts) =
    let down = walk (part ∷ here) parts in
    let same = walk here parts in
    let above = walk (up here) parts in
    if is_empty part
    then same
    else if part == "."
    then same
    else if part == ".."
    then above
    else down

-- Each part is one folder further down.
abbrev pub below : List String → List String → List String
below here [] = here
below here (part ∷ parts) = below (part ∷ here) parts

-- `"/".join(parts)`
abbrev pub join : List String → String
join [] = ""
join (part ∷ []) = part
join (part ∷ other ∷ parts) = part <> String.◌∷◌ "/" (join (other ∷ parts))

-- `replace("\\", "/")`, of one character.
abbrev pub slash : Char → Char
slash c = if separates c then "/" else c

walk-below :
    (here parts : List String)
    → any is_empty parts ≡ false
    → any is_dots parts ≡ false
    → walk here parts ≡ below here parts
unfolding walk any
walk-below here [] full plain = refl
walk-below here (part ∷ parts) full plain = ground (arith, walk-below (part ∷ here) parts)

abbrev has_part : List String → Bool
has_part [] = false
has_part (part ∷ parts) = true

split-has_part : (s : String) → has_part (split s) ≡ true
unfolding split
split-has_part String.[] = refl
split-has_part (String.◌∷◌ c s) =
    elim (separates c)
      as (λ b. has_part (if b then "" ∷ split s else add_char c (split s)) ≡ true) [
        | true ↦ refl
        | false ↦ added (split s)
      ]
  where
    added : (parts : List String) → has_part (add_char c parts) ≡ true
    added [] = refl
    added (part ∷ parts) = refl

join-add_char :
    (c : Char) (parts : List String)
    → has_part parts ≡ true
    → join (add_char c parts) ≡ String.◌∷◌ c (join parts)
join-add_char c [] h = absurd (ground arith)
join-add_char c (part ∷ []) h = refl
join-add_char c (part ∷ other ∷ parts) h =
    cons-append c part (String.◌∷◌ "/" (join (other ∷ parts)))

join-empty :
    (parts : List String) → has_part parts ≡ true → join ("" ∷ parts) ≡ String.◌∷◌ "/" (join parts)
join-empty [] h = absurd (ground arith)
join-empty (part ∷ parts) h = nil-append (String.◌∷◌ "/" (join (part ∷ parts)))

join-split : (s : String) → join (split s) ≡ map_chars slash s
unfolding split map_chars
join-split String.[] = refl
join-split (String.◌∷◌ c s) =
    elim (separates c)
      as (λ b.
        join (if b then "" ∷ split s else add_char c (split s))
        ≡ String.◌∷◌ (if b then "/" else c) (map_chars slash s)) [
          | true ↦ join-empty (split s) (split-has_part s) ∙ ap (String.◌∷◌ "/") (join-split s)
          | false ↦ join-add_char c (split s) (split-has_part s) ∙ ap (String.◌∷◌ c) (join-split s)
        ]

module _ (is_rooted : IsRooted) (declared_path : String) (parts : List String)
    (accepted : validate_declared_asset_path is_rooted declared_path ≡ ok parts) where
  parts_split : split declared_path ≡ parts
  unfolding validate_declared_asset_path
  parts_split = ground arith

  no_empty : any is_empty (split declared_path) ≡ false
  unfolding validate_declared_asset_path
  no_empty = ground arith

  no_dots : any is_dots (split declared_path) ≡ false
  unfolding validate_declared_asset_path
  no_dots = ground arith

  pub accepted_below :
      (here : List String)
      → (join parts ≡ map_chars slash declared_path) × (walk here parts ≡ below here parts)
  accepted_below here = (
    ap join (sym parts_split) ∙ join-split declared_path,
    ap (walk here) (sym parts_split)
        ∙ walk-below here (split declared_path) no_empty no_dots
        ∙ ap (below here) parts_split,
  )

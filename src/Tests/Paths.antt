-- ===== src/Tests/Paths.antt =====
-- The theorem on render plans, with paths whose parts lie between slashes.
use Prim.Native.Char.{Char, code}
use redline_os.Prelude.{
  ◌≤◌, String, ◌<>◌, Bool, true, false, ◌||◌, ◌≡◌, refl, ap, ◌∙◌, Option, none, some, List, [], ◌∷◌,
  ◌++◌, any, ◌==◌, string_eq, nat_eq, arith, if◌then◌else◌,
}
use redline_os.Prelude.Text.{is_blank, count_chars, cons-append, nil-append}
use redline_os.Store.Rows.{timeline_built}
use redline_os.Render.World.{Platform}
use redline_os.Render.Plan.{RenderOutputPlan, build_render_output_plan}
use redline_os.Render.Plan.Contained.{
  is_parent, IsPathlib, IsExtension, IsInside, build_render_output_plan-Ends,
}
use redline_os.Tests.Data.{episode_in, preset, output}

abbrev is_slash : Char → Bool
is_slash c = code c == b'/'

abbrev has_slash : String → Bool
has_slash String.[] = false
has_slash (String.◌∷◌ c s) = is_slash c || has_slash s

abbrev add : Char → List String → List String
add c [] = String.◌∷◌ c "" ∷ []
add c (part ∷ parts) = String.◌∷◌ c part ∷ parts

-- `split("/")`
pieces : String → List String
pieces String.[] = "" ∷ []
pieces (String.◌∷◌ c s) = let rest = pieces s in if is_slash c then "" ∷ rest else add c rest

-- What stands after the last slash.
last_piece : String → String
last_piece String.[] = ""
last_piece (String.◌∷◌ c s) =
    let rest = last_piece s in
    if has_slash s then rest else if is_slash c then s else String.◌∷◌ c s

abbrev starts_with_slash : String → Bool
starts_with_slash String.[] = false
starts_with_slash (String.◌∷◌ c s) = is_slash c

-- The parts after those of the root.
after_root : List String → List String → Option (List String)
after_root parts [] = some parts
after_root [] (root ∷ roots) = none
after_root (part ∷ parts) (root ∷ roots) =
    let rest = after_root parts roots in if part == root then rest else none

abbrev is_some : Option (List String) → Bool
is_some none = false
is_some (some parts) = true

abbrev or_none : Option (List String) → List String
or_none none = []
or_none (some parts) = parts

count_chars-last_piece : (s : String) → count_chars (last_piece s) ≤ count_chars s
unfolding last_piece count_chars
count_chars-last_piece String.[] = omega arith
count_chars-last_piece (String.◌∷◌ c s) = ground (arith, count_chars-last_piece s)

-- A text that is its own last piece has no slash.
last_piece-has_slash :
    (s : String) → starts_with_slash s ≡ false → last_piece s ≡ s → has_slash s ≡ false
unfolding last_piece count_chars
last_piece-has_slash String.[] k h = refl
last_piece-has_slash (String.◌∷◌ c s) k h =
    let short = count_chars-last_piece s in
    let long = ap count_chars h in ground (arith, k, short, long)

pieces_one : (s : String) → has_slash s ≡ false → pieces s ≡ s ∷ []
unfolding pieces
pieces_one String.[] h = refl
pieces_one (String.◌∷◌ c s) h =
    let rest = pieces_one s (ground (arith, h)) in
    let here : is_slash c ≡ false = ground (arith, h) in rw (here, rest) refl

last_piece_one : (s : String) → has_slash s ≡ false → last_piece s ≡ s
unfolding last_piece
last_piece_one String.[] h = refl
last_piece_one (String.◌∷◌ c s) h = ground (arith, h)

has_slash-append :
    (s t : String) → has_slash s ≡ false → has_slash t ≡ false → has_slash (s <> t) ≡ false
has_slash-append String.[] t hs ht = rw (nil-append t) ht
has_slash-append (String.◌∷◌ c s) t hs ht =
    rw (cons-append c s t) (ground (arith, has_slash-append s t))

abbrev has_part : List String → Bool
has_part [] = false
has_part (part ∷ parts) = true

add-has_part : (c : Char) (parts : List String) → has_part (add c parts) ≡ true
add-has_part c [] = refl
add-has_part c (part ∷ parts) = refl

pieces-has_part : (s : String) → has_part (pieces s) ≡ true
unfolding pieces
pieces-has_part String.[] = refl
pieces-has_part (String.◌∷◌ c s) = ground (arith, add-has_part c (pieces s))

add-append :
    (c : Char) (parts more : List String)
    → has_part parts ≡ true
    → add c (parts ++ more) ≡ add c parts ++ more
add-append c [] more h = absurd (ground (arith, h))
add-append c (part ∷ parts) more h = refl

pieces_joined : (s t : String) → pieces (s <> ("/" <> t)) ≡ pieces s ++ pieces t
unfolding pieces nat_eq
pieces_joined String.[] t = rw (nil-append ("/" <> t), cons-append "/" "" t, nil-append t) refl
pieces_joined (String.◌∷◌ c s) t =
    let more = add-append c (pieces s) (pieces t) (pieces-has_part s) in
    rw (cons-append c s ("/" <> t), pieces_joined s t) (ground (arith, more))

after_root_parts :
    (parts roots : List String)
    → is_some (after_root parts roots) ≡ true
    → parts ≡ roots ++ or_none (after_root parts roots)
unfolding after_root
after_root_parts parts [] h = refl
after_root_parts [] (root ∷ roots) h = absurd (ground arith)
after_root_parts (part ∷ parts) (root ∷ roots) h = ground (arith, h, after_root_parts parts roots)

abbrev posix : Platform
posix = record {
  resolve = λ path. if any is_parent (pieces path) then "/" else path;
  exists = λ path. false;
  is_dir = λ path. true;
  is_relative_to = λ path root. is_some (after_root (pieces path) (pieces root));
  is_absolute = starts_with_slash;
  join = λ folder name. folder <> ("/" <> name);
  name = last_piece;
  stem = λ path. path;
  parent = λ path. path;
  parts = pieces;
  format = λ template values. some template;
}

resolved :
    (path : String) (b : Bool)
    → any is_parent (pieces path) ≡ b
    → any is_parent (pieces (if b then "/" else path)) ≡ false
unfolding pieces any nat_eq string_eq
resolved path true h = refl
resolved path false h = h

posix-IsPathlib : IsPathlib posix
posix-IsPathlib = record {
  alone = λ text one. pieces_one text (last_piece-has_slash text one.relative one.last);
  child = λ folder text one.
      pieces_joined folder text
      ∙ ap (λ parts. pieces folder ++ parts)
          (pieces_one text (last_piece-has_slash text one.relative one.last));
  rest = λ path root. or_none (after_root (pieces path) (pieces root));
  below = λ path root inside. after_root_parts (pieces path) (pieces root) inside;
  resolved = λ path. resolved path (any is_parent (pieces path)) refl;
}

has_slash-starts : (s : String) → has_slash s ≡ false → starts_with_slash s ≡ false
has_slash-starts String.[] h = refl
has_slash-starts (String.◌∷◌ c s) h = ground (arith, h)

is_blank-append : (s t : String) → is_blank s ≡ false → is_blank (s <> t) ≡ false
unfolding is_blank
is_blank-append String.[] t h = absurd (ground (arith, h))
is_blank-append (String.◌∷◌ c s) t h =
    rw (cons-append c s t) (ground (arith, h, is_blank-append s t))

posix-IsExtension : IsExtension posix ".mov"
unfolding nat_eq
posix-IsExtension text one =
    let plain = last_piece-has_slash text one.relative one.last in
    let longer = has_slash-append text ".mov" plain refl in
    record {
      filled = is_blank-append text ".mov" one.filled;
      relative = has_slash-starts (text <> ".mov") longer;
      last = last_piece_one (text <> ".mov") longer;
    }

same-IsExtension :
    (extension : String) → preset.file_extension ≡ some extension → IsExtension posix extension
same-IsExtension extension h text one =
    let same : ".mov" ≡ extension = ground (arith, h) in rw same at (posix-IsExtension text one)

abbrev plan : RenderOutputPlan
plan = record {
  episode_id = "RLC-E7";
  preset_name = "master";
  resolve_preset_name = "ProRes Master";
  project_name = "RLC-E7";
  timeline_name = "RLC-E7_MAIN";
  output_directory = "/e/7/master";
  output_stem = "RLC-E7";
  file_extension = ".mov";
  output_path = output;
}

build_render_output_plan-Ends_example :
    IsInside posix (episode_in timeline_built none) preset "RLC-E7_MAIN" plan
unfolding build_render_output_plan is_blank pieces last_piece after_root any nat_eq string_eq
build_render_output_plan-Ends_example =
    build_render_output_plan-Ends posix (episode_in timeline_built none) preset "RLC-E7_MAIN"
      posix-IsPathlib same-IsExtension

-- ===== src/Builds/Archive.antt =====
-- apps/server/internal/service/build.go: the paths of an archive's entries and its file name.
use Prim.Native.String as Text
use Prim.Native.String.{◌++◌ as text_append}
use Prim.Native.Char.{code}
use m_pack_station.Base.{
  ℕ, String, Bool, true, false, List, [], ◌∷◌, ◌++◌, Option, none, some, str_eq, ◌==◌, ltb, leb,
  if◌then◌else◌, ◌&&◌, ◌||◌, not,
}
use m_pack_station.Content.Paths.{segments}

-- strings.IndexByte(s, n) < 0, for the code of an ASCII character.
unfoldable pub lacks : ℕ → String → Bool
lacks n Text.[] = true
lacks n (Text.◌∷◌ c s) = not (code c == n) && lacks n s

-- strings.ReplaceAll(raw, `\`, "/")
unfoldable pub to_slashes : String → String
to_slashes Text.[] = ""
to_slashes (Text.◌∷◌ c s) =
    let rest = to_slashes s in if code c == 92 then text_append "/" rest else Text.◌∷◌ c rest

-- strings.HasPrefix(v, "/")
abbrev pub is_rooted : String → Bool
is_rooted Text.[] = false
is_rooted (Text.◌∷◌ c s) = code c == 47

-- len(v) >= 2 && v[1] == ':', where a first character beyond ASCII has more bytes than one.
abbrev pub has_drive : String → Bool
has_drive (Text.◌∷◌ c (Text.◌∷◌ d s)) = ltb (code c) 128 && code d == 58
has_drive _ = false

-- out[:len(out)-1]
abbrev pub drop_last : List String → List String
drop_last [] = []
drop_last (x ∷ []) = []
drop_last (x ∷ y ∷ ys) = x ∷ drop_last (y ∷ ys)

abbrev pub is_none : List String → Bool
is_none [] = true
is_none (x ∷ xs) = false

-- A part ".." takes the part before it away, and stays where there is none.
abbrev pub popped : List String → List String
popped out = if is_none out then ".." ∷ [] else drop_last out

-- One turn of the loop of `pathCleanSlash`.
unfoldable pub clean_part : String → List String → List String
clean_part part out =
    if str_eq part "" || str_eq part "."
    then out
    else if str_eq part ".."
    then popped out
    else out ++ (part ∷ [])

unfoldable pub clean_parts : List String → List String → List String
clean_parts [] out = out
clean_parts (part ∷ parts) out = clean_parts parts (clean_part part out)

-- strings.Join(out, "/")
unfoldable pub join_slash : List String → String
join_slash [] = ""
join_slash (x ∷ []) = x
join_slash (x ∷ y ∷ ys) = text_append x (text_append "/" (join_slash (y ∷ ys)))

unfoldable pub path_clean_slash : String → String
path_clean_slash v = join_slash (clean_parts (segments v) [])

-- strings.HasPrefix(v, "../")
abbrev pub climbs : String → Bool
climbs (Text.◌∷◌ c (Text.◌∷◌ d (Text.◌∷◌ e s))) = code c == 46 && code d == 46 && code e == 47
climbs _ = false

unfoldable pub is_refused : String → Bool
is_refused v = str_eq v "." || str_eq v "" || str_eq v ".." || climbs v

unfoldable pub safe_archive_path : String → Option String
unfolding lacks to_slashes path_clean_slash is_refused
safe_archive_path raw =
    let v = to_slashes raw in
    let clean = path_clean_slash v in
    if str_eq raw "" || not (lacks 0 raw)
    then none
    else if is_rooted v || has_drive v
    then none
    else if is_refused clean
    then none
    else some clean

abbrev pub is_name_code : ℕ → Bool
is_name_code n =
    leb 97 n && leb n 122
    || leb 65 n && leb n 90
    || leb 48 n && leb n 57
    || n == 46
    || n == 45
    || n == 95

-- The loop of `safeVersionName`.
unfoldable pub name_chars : String → String
name_chars Text.[] = ""
name_chars (Text.◌∷◌ c s) =
    let rest = name_chars s in
    if is_name_code (code c) then Text.◌∷◌ c rest else text_append "_" rest

unfoldable pub safe_version_name : String → String
unfolding name_chars
safe_version_name version =
    let name = name_chars version in if str_eq name "" then "version" else name

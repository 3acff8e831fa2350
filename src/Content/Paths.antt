-- ===== src/Content/Paths.antt =====
-- Paths in an archive, cut at their slashes, for apps/server/internal/service/mod_content_kind.go.
use Prim.Native.String.{String}
use Prim.Native.String as Text
use Prim.Native.Char.{Char, code}
use m_pack_station.Base.{if◌then◌else◌, ◌==◌, List, [], ◌∷◌, Bool, false, str_eq, ◌||◌, ◌&&◌}

-- A character in front of the first segment.
abbrev pub in_front : Char → List String → List String
in_front c [] = (Text.◌∷◌ c "") ∷ []
in_front c (s ∷ ss) = (Text.◌∷◌ c s) ∷ ss

-- The segments of a path, which are never none.
unfoldable pub segments : String → List String
segments Text.[] = "" ∷ []
segments (Text.◌∷◌ c s) =
    let rest = segments s in if code c == 47 then "" ∷ rest else in_front c rest

unfoldable pub has_dot : String → Bool
has_dot Text.[] = false
has_dot (Text.◌∷◌ c s) = code c == 46 || has_dot s

-- The end of a segment from its last dot on.
unfoldable pub dot_end : String → String
unfolding has_dot
dot_end Text.[] = ""
dot_end (Text.◌∷◌ c s) =
    let rest = dot_end s in if has_dot s then rest else if code c == 46 then Text.◌∷◌ c s else ""

abbrev pub last_segment : List String → String
last_segment [] = ""
last_segment (s ∷ []) = s
last_segment (s ∷ t ∷ ss) = last_segment (t ∷ ss)

-- path.Ext
unfoldable pub ext_of : List String → String
unfolding dot_end
ext_of ss = dot_end (last_segment ss)

-- strings.HasPrefix(path, root + "/")
abbrev pub is_below : String → List String → Bool
is_below root (r ∷ s ∷ ss) = str_eq r root
is_below root _ = false

-- The two segments stand in front, and something follows them.
abbrev pub starts_pair : String → String → List String → Bool
starts_pair a b (x ∷ y ∷ z ∷ ss) = str_eq x a && str_eq y b
starts_pair a b _ = false

-- strings.Contains(path, "/" + a + "/" + b + "/")
unfoldable pub contains_pair : String → String → List String → Bool
contains_pair a b [] = false
contains_pair a b (s ∷ ss) = starts_pair a b ss || contains_pair a b ss

abbrev pub starts_with : String → List String → Bool
starts_with a (x ∷ y ∷ ss) = str_eq x a
starts_with a _ = false

-- strings.Contains(path, "/" + a + "/")
unfoldable pub contains_segment : String → List String → Bool
contains_segment a [] = false
contains_segment a (s ∷ ss) = starts_with a ss || contains_segment a ss

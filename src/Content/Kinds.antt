-- ===== src/Content/Kinds.antt =====
-- apps/server/internal/service/mod_content_kind.go: the category of a data pack entry, and the kind
-- of a file. A path is taken with its segments; it is in lower case already.
use m_pack_station.Base.{
  String, List, Option, some, Bool, if◌then◌else◌, any, ◌∷◌, str_eq, ◌&&◌, [], ◌||◌, not, none,
}
use m_pack_station.Content.Paths.{contains_pair, ext_of, segments, contains_segment, is_below}

pub data ContentKind : Type 0 where
  metadata item_model lang texture recipe advancement loot_table structure worldgen tag :
      ContentKind

-- ^root/[^/]+/([^/]+)/
abbrev pub category_below : String → List String → Option String
category_below root (r ∷ namespace ∷ category ∷ x ∷ ss) =
    if str_eq r root && not (str_eq namespace "") && not (str_eq category "")
    then some category
    else none
category_below root _ = none

unfoldable pub datapack_category : List String → String
datapack_category ss = elim (category_below "data" ss) [
  | some category ↦ category
  | none ↦ elim (category_below "assets" ss) [ some category ↦ category | none ↦ "" ]
]

unfoldable pub is_under_category : List String → List String → Bool
unfolding datapack_category
is_under_category ss categories =
    any (λ category. str_eq (datapack_category ss) category) categories

unfoldable pub is_item_or_block_model : List String → Bool
unfolding contains_pair contains_segment
is_item_or_block_model ss =
    is_below "assets" ss
    && (contains_pair "models" "item" ss
        || contains_pair "models" "block" ss
        || contains_segment "blockstates" ss)

abbrev pub Classified : Type 0
Classified = Option (ContentKind × String)

-- A file under assets/.
unfoldable pub classify_asset : List String → String → Classified
unfolding is_item_or_block_model is_under_category
classify_asset ss ext =
    if is_item_or_block_model ss
    then some (item_model, ext)
    else if is_under_category ss ("lang" ∷ [])
    then some (lang, ext)
    else if is_under_category ss ("textures" ∷ []) && str_eq ext ".png"
    then some (texture, ext)
    else none

abbrev pub one_of : String → String → String → Bool
one_of s a b = str_eq s a || str_eq s b

-- A file under data/, by its category.
unfoldable pub classify_data : List String → String → String → Classified
unfolding contains_pair
classify_data ss category ext =
    if one_of category "recipe" "recipes"
    then some (recipe, ext)
    else if one_of category "advancement" "advancements"
    then some (advancement, ext)
    else if one_of category "loot_table" "loot_tables"
    then some (loot_table, ext)
    else if str_eq category "structures"
    then some (structure, ext)
    else if str_eq category "worldgen"
    then (if contains_pair "worldgen" "structure" ss
        then some (structure, ext)
        else some (worldgen, ext))
    else if str_eq category "tags"
    then some (tag, ext)
    else none

abbrev pub is_known_ext : String → Bool
is_known_ext ext = str_eq ext ".json" || str_eq ext ".nbt" || str_eq ext ".png"

abbrev pub is_mod_descriptor : String → Bool
is_mod_descriptor lower =
    str_eq lower "fabric.mod.json"
    || str_eq lower "meta-inf/neoforge.mods.toml"
    || str_eq lower "meta-inf/mods.toml"
    || str_eq lower "quilt.mod.json"

-- A file that is no mod's descriptor.
unfoldable pub classify_entry : List String → Classified
unfolding ext_of classify_asset classify_data datapack_category
classify_entry ss =
    if not (is_below "data" ss) && not (is_below "assets" ss)
    then none
    else if not (is_known_ext (ext_of ss))
    then none
    else if is_below "assets" ss
    then classify_asset ss (ext_of ss)
    else classify_data ss (datapack_category ss) (ext_of ss)

-- kindFromPathClassify
unfoldable pub kind_from_path_classify : String → Classified
unfolding segments ext_of classify_entry
kind_from_path_classify lower =
    if is_mod_descriptor lower
    then some (metadata, ext_of (segments lower))
    else classify_entry (segments lower)

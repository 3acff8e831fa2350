-- ===== src/Content/Unlocks.antt =====
-- What apps/server/internal/service/mod_content_kind.go promises of its classification.
use m_pack_station.Base.{
  ◌⊎◌, ◌∙◌, ◌↔◌, refl, str_eq→eq, sym, subst, String, List, ◌≡◌, Bool, some, true, false, arith,
  ◌∷◌, [], Bool-cases, ◌||◌, str_eq, inr, inl,
}
use m_pack_station.Content.Kinds.{
  classify_asset, classify_data, category_below, ContentKind, item_model, metadata, is_known_ext,
  lang, texture, classify_entry, datapack_category, advancement, recipe, is_mod_descriptor,
  kind_from_path_classify,
}
use m_pack_station.Content.Paths.{is_below, ext_of, segments}

category_below-root :
    (root : String) (ss : List String) {category : String}
    → category_below root ss ≡ some category
    → is_below root ss ≡ true
category_below-root root [] h = absurd (cc)
category_below-root root (a ∷ []) h = absurd (cc)
category_below-root root (a ∷ b ∷ []) h = absurd (cc)
category_below-root root (a ∷ b ∷ d ∷ []) h = absurd (cc)
category_below-root root (a ∷ b ∷ d ∷ e ∷ ss) h = ground arith

-- The kinds of files under assets/.
abbrev pub is_asset_kind : ContentKind → Bool
is_asset_kind item_model = true
is_asset_kind lang = true
is_asset_kind texture = true
is_asset_kind _ = false

abbrev pub is_metadata : ContentKind → Bool
is_metadata metadata = true
is_metadata _ = false

-- A classified entry has a known extension, and its kind is one of assets exactly if it lies under
-- assets/.
abbrev pub Fits : List String → ContentKind → String → Type 0
Fits ss kind ext =
    (is_asset_kind kind ≡ is_below "assets" ss)
    × (is_known_ext ext ≡ true)
    × (is_metadata kind ≡ false)

classify_asset-asset :
    (ss : List String) (ext : String) {kind : ContentKind} {e : String}
    → classify_asset ss ext ≡ some (kind, e)
    → (is_asset_kind kind ≡ true) × (is_metadata kind ≡ false) × (e ≡ ext)
unfolding classify_asset
classify_asset-asset ss ext h = ground arith

classify_data-data :
    (ss : List String) (category ext : String) {kind : ContentKind} {e : String}
    → classify_data ss category ext ≡ some (kind, e)
    → (is_asset_kind kind ≡ false) × (is_metadata kind ≡ false) × (e ≡ ext)
unfolding classify_data
classify_data-data ss category ext h = ground arith

-- An entry that is classified has a known extension, which is reported; its kind is one of assets
-- exactly if it lies under assets/, and it is no mod's descriptor.
pub classify_entry-Fits :
    (ss : List String) {kind : ContentKind} {ext : String}
    → classify_entry ss ≡ some (kind, ext)
    → Fits ss kind ext
unfolding classify_entry
classify_entry-Fits ss {kind = kind} {ext = ext} h =
    elim (Bool-cases (is_below "data" ss || is_below "assets" ss)) [
      | inr e ↦ absurd (ground arith)
      | inl e ↦ elim (Bool-cases (is_known_ext (ext_of ss))) [
        | inr b ↦ absurd (ground arith)
        | inl b ↦ elim (Bool-cases (is_below "assets" ss)) [
          | inl d ↦
              let asset : classify_asset ss (ext_of ss) ≡ some (kind, ext) = ground arith in
              let m = classify_asset-asset ss (ext_of ss) asset in (rw d m.0, rw m.2 b, m.1)
          | inr d ↦
              let entry : classify_data ss (datapack_category ss) (ext_of ss) ≡ some (kind, ext) =
                ground arith in
              let m = classify_data-data ss (datapack_category ss) (ext_of ss) entry in
              (rw d m.0, rw m.2 b, m.1)
        ]
      ]
    ]

-- data/<namespace>/<directory>/…, where the directory has one of two names, with a known extension.
abbrev pub LiesIn : String → String → String → String → Type 0
LiesIn a b lower ext =
    (namespace d next : String) × (rest : List String) × (segments lower
      ≡ ("data" ∷ namespace ∷ d ∷ next ∷ rest))
    × (str_eq namespace "" ≡ false)
    × ((d ≡ a) ⊎ (d ≡ b))
    × (ext_of (segments lower) ≡ ext)
    × (is_known_ext ext ≡ true)

-- The category of a path below data/: none, or the directory below the namespace.
DataCategory : List String → Type 0
DataCategory ss =
    (datapack_category ss ≡ "")
    ⊎ ((namespace next : String) × (rest : List String) × (ss
          ≡ ("data" ∷ namespace ∷ datapack_category ss ∷ next ∷ rest))
        × (str_eq namespace "" ≡ false))

category_in_data :
    (n d next : String) (rest : List String) → DataCategory ("data" ∷ n ∷ d ∷ next ∷ rest)
unfolding datapack_category DataCategory
category_in_data n d next rest = elim (Bool-cases (str_eq n "")) [
  | inl e ↦ inl (rw (e, datapack_category) refl)
  | inr e ↦ elim (Bool-cases (str_eq d "")) [
    | inl k ↦ inl (rw (e, k, datapack_category) refl)
    | inr k ↦ inr (n, next, rest, rw (e, k, datapack_category) refl, e)
  ]
]

data_category : (ss : List String) → is_below "data" ss ≡ true → DataCategory ss
unfolding datapack_category DataCategory
data_category [] h = absurd (cc)
data_category (a ∷ []) h = absurd (cc)
data_category (a ∷ b ∷ []) h = inl refl
data_category (a ∷ b ∷ c ∷ []) h = inl refl
data_category (a ∷ b ∷ c ∷ x ∷ ss) h =
    subst (λ r. DataCategory (r ∷ b ∷ c ∷ x ∷ ss)) (sym (str_eq→eq a "data" h))
      (category_in_data b c x ss)

category_of :
    (namespace d next : String) (rest : List String)
    → str_eq namespace "" ≡ false
    → str_eq d "" ≡ false
    → datapack_category ("data" ∷ namespace ∷ d ∷ next ∷ rest) ≡ d
unfolding datapack_category
category_of namespace d next rest named k = rw (named, k, datapack_category) refl

-- A descriptor of a mod lies outside data/.
descriptor-outside :
    (lower : String) → is_mod_descriptor lower ≡ true → is_below "data" (segments lower) ≡ false
unfolding segments
descriptor-outside lower h = elim (Bool-cases (str_eq lower "fabric.mod.json")) [
  | inl e ↦ rw (str_eq→eq lower "fabric.mod.json" e) refl
  | inr e ↦ elim (Bool-cases (str_eq lower "meta-inf/neoforge.mods.toml")) [
    | inl k ↦ rw (str_eq→eq lower "meta-inf/neoforge.mods.toml" k) refl
    | inr k ↦ elim (Bool-cases (str_eq lower "meta-inf/mods.toml")) [
      | inl l ↦ rw (str_eq→eq lower "meta-inf/mods.toml" l) refl
      | inr l ↦ rw (str_eq→eq lower "quilt.mod.json" (rw (e, k, l) at h)) refl
    ]
  ]
]

-- A file that is classified by its category in a data pack.
classified_data :
    (lower : String) {kind : ContentKind} {ext : String}
    → is_asset_kind kind ≡ false
    → is_metadata kind ≡ false
    → kind_from_path_classify lower ≡ some (kind, ext)
    → (is_below "data" (segments lower) ≡ true)
      × (is_known_ext (ext_of (segments lower)) ≡ true)
      × (classify_data
            (segments lower)
            (datapack_category (segments lower))
            (ext_of (segments lower))
          ≡ some (kind, ext))
unfolding kind_from_path_classify classify_entry
classified_data lower {kind = kind} {ext = ext} data_kind no_metadata h =
    let ss = segments lower in
    elim (Bool-cases (is_mod_descriptor lower)) [
      | inl e ↦ absurd (ground arith)
      | inr e ↦ elim (Bool-cases (is_below "assets" ss)) [
        | inl d ↦
            let asset : classify_asset ss (ext_of ss) ≡ some (kind, ext) = ground arith in
            absurd (cc ((classify_asset-asset ss (ext_of ss) asset).0))
        | inr d ↦ (ground arith, ground arith, ground arith)
      ]
    ]

lies_classified :
    (lower : String) {namespace d next : String} {rest : List String}
    → segments lower ≡ ("data" ∷ namespace ∷ d ∷ next ∷ rest)
    → str_eq namespace "" ≡ false
    → str_eq d "" ≡ false
    → is_known_ext (ext_of (segments lower)) ≡ true
    → kind_from_path_classify lower ≡ classify_data (segments lower) d (ext_of (segments lower))
unfolding kind_from_path_classify classify_entry
lies_classified lower {namespace = n} {d = d} {next = x} {rest = rest} path named k known =
    let ss = segments lower in
    let cat : datapack_category ss ≡ d = rw path (category_of n d x rest named k) in
    let below : is_below "data" ss ≡ true = rw path refl in
    let asset : is_below "assets" ss ≡ false = rw path refl in
    elim (Bool-cases (is_mod_descriptor lower)) [
      | inl e ↦ absurd (cc (descriptor-outside lower e))
      | inr e ↦ rw (e, below, asset, known, cat) refl
    ]

from_category :
    (a b lower : String) {ext : String}
    → str_eq a "" ≡ false
    → str_eq b "" ≡ false
    → is_below "data" (segments lower) ≡ true
    → is_known_ext (ext_of (segments lower)) ≡ true
    → ((datapack_category (segments lower) ≡ a) ⊎ (datapack_category (segments lower) ≡ b))
    → ext_of (segments lower) ≡ ext
    → LiesIn a b lower ext
unfolding DataCategory
from_category a b lower ka kb below known cat same = elim (data_category (segments lower) below) [
  | inl e ↦ absurd (elim cat [ inl c ↦ absurd (cc) | inr c ↦ absurd (cc) ])
  | inr (n, x, rest, path, named) ↦
      (n, datapack_category (segments lower), x, rest, path, named, cat, same, rw same at known)
]

module _ (ss : List String) (category ext0 : String) {ext : String} where
  classify_data-advancement :
      classify_data ss category ext0 ≡ some (advancement, ext)
      → ((category ≡ "advancement") ⊎ (category ≡ "advancements")) × (ext0 ≡ ext)
  unfolding classify_data
  classify_data-advancement h = elim (Bool-cases (str_eq category "advancement")) [
    | inl e ↦ (inl (str_eq→eq category "advancement" e), ground arith)
    | inr e ↦ elim (Bool-cases (str_eq category "advancements")) [
      | inl k ↦ (inr (str_eq→eq category "advancements" k), ground arith)
      | inr k ↦ absurd (ground arith)
    ]
  ]

  classify_data-recipe :
      classify_data ss category ext0 ≡ some (recipe, ext)
      → ((category ≡ "recipe") ⊎ (category ≡ "recipes")) × (ext0 ≡ ext)
  unfolding classify_data
  classify_data-recipe h = elim (Bool-cases (str_eq category "recipe")) [
    | inl e ↦ (inl (str_eq→eq category "recipe" e), ground arith)
    | inr e ↦ elim (Bool-cases (str_eq category "recipes")) [
      | inl k ↦ (inr (str_eq→eq category "recipes" k), ground arith)
      | inr k ↦ absurd (ground arith)
    ]
  ]

-- What is classified of a path that lies in a directory.
LiesIn-classified :
    (a b lower : String) (kind : ContentKind) {ext : String}
    → str_eq a "" ≡ false
    → str_eq b "" ≡ false
    → classify_data (segments lower) a ext ≡ some (kind, ext)
    → classify_data (segments lower) b ext ≡ some (kind, ext)
    → LiesIn a b lower ext
    → kind_from_path_classify lower ≡ some (kind, ext)
LiesIn-classified a b lower kind ka kb ca cb (n, d, x, rest, path, named, dir, same, known) =
    let k : is_known_ext (ext_of (segments lower)) ≡ true = rw same known in
    elim dir [
      | inl e ↦ lies_classified lower path named (rw e ka) k ∙ rw (e, same) ca
      | inr e ↦ lies_classified lower path named (rw e kb) k ∙ rw (e, same) cb
    ]

-- A path is classified as an advancement just if it lies below advancement/ or advancements/ of a
-- namespace in data/ and its extension is a known one, which is reported; and as a recipe just if it
-- lies so below recipe/ or recipes/. So no file below the advancements is a recipe, the unlocks in
-- advancement/recipes/ among them, whatever other directories their paths name.
pub kind_from_path_classify-LiesIn :
    (lower ext : String)
    → ((kind_from_path_classify lower ≡ some (advancement, ext))
        ↔ LiesIn "advancement" "advancements" lower ext)
      × ((kind_from_path_classify lower ≡ some (recipe, ext)) ↔ LiesIn "recipe" "recipes" lower ext)
unfolding classify_data
kind_from_path_classify-LiesIn lower ext =
    let ss = segments lower in
    (
      (
        λ h.
            let (below, known, entry) = classified_data lower refl refl h in
            let (cat, same) =
              classify_data-advancement ss (datapack_category ss) (ext_of ss) entry in
            from_category "advancement" "advancements" lower refl refl below known cat same,
        LiesIn-classified "advancement" "advancements" lower advancement refl refl refl refl,
      ),
      (
        λ h.
            let (below, known, entry) = classified_data lower refl refl h in
            let (cat, same) = classify_data-recipe ss (datapack_category ss) (ext_of ss) entry in
            from_category "recipe" "recipes" lower refl refl below known cat same,
        LiesIn-classified "recipe" "recipes" lower recipe refl refl refl refl,
      ),
    )

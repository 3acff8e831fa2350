-- ===== src/Content/Examples.antt =====
-- Paths of files in a mod's archive, as apps/server/internal/service/mod_content_kind.go classifies them.
use m_pack_station.Base.{◌↔◌, List, String, ◌∷◌, [], ◌≡◌, some, refl}
use m_pack_station.Content.Unlocks.{LiesIn, kind_from_path_classify-LiesIn}
use m_pack_station.Content.Kinds.{
  recipe, kind_from_path_classify, classify_entry, item_model, advancement,
}
use m_pack_station.Content.Paths.{segments}

abbrev unlock : List String
unlock = "data" ∷ "create" ∷ "advancement" ∷ "recipes" ∷ "crafting.json" ∷ []

unlock_cut : segments "data/create/advancement/recipes/crafting.json" ≡ unlock
unfolding segments
unlock_cut = refl

kind_from_path_classify-LiesIn_example :
    ((kind_from_path_classify "data/create/advancement/recipes/crafting.json"
        ≡ some (advancement, ".json"))
      ↔ LiesIn "advancement" "advancements" "data/create/advancement/recipes/crafting.json" ".json")
    × ((kind_from_path_classify "data/create/advancement/recipes/crafting.json"
          ≡ some (recipe, ".json"))
        ↔ LiesIn "recipe" "recipes" "data/create/advancement/recipes/crafting.json" ".json")
kind_from_path_classify-LiesIn_example =
    kind_from_path_classify-LiesIn "data/create/advancement/recipes/crafting.json" ".json"

older_unlock :
    kind_from_path_classify "data/ae2/advancements/recipes/misc/quartz.json"
    ≡ some (advancement, ".json")
unfolding kind_from_path_classify
older_unlock = refl

abbrev model : List String
model = "assets" ∷ "create" ∷ "models" ∷ "item" ∷ "wrench.json" ∷ []

model_classified : classify_entry model ≡ some (item_model, ".json")
unfolding classify_entry
model_classified = refl

-- ===== src/Quests/Checks.antt =====
-- apps/server/internal/service/content.go: the checks of `validateQuest` on chapters, nodes and
-- references, and apps/server/internal/store/content_repo.go, `PackIDForModReference`.
use Prim.Native.String.{len, ◌++◌ as text_append}
use m_pack_station.Base.{
  ℕ, String, Bool, true, false, not, ◌&&◌, ◌||◌, str_eq, ◌==◌, leb, if◌then◌else◌, List, [], ◌∷◌,
  ◌++◌, Option, none, some, filter, holds_text, map, head?,
}
use m_pack_station.Base.Int.{ℤ, pos, negsuc, is_negative}
use m_pack_station.Drafts.Json.{
  Json, Number, number, string, object, Items, no_items, item, Members,
}
use m_pack_station.Drafts.Payload.{error, get_member, number_gt}
use m_pack_station.Quests.Model.{
  QuestChapter, QuestNode, QuestCode, QuestIssue, PackMod, duplicate_id, duplicate_position,
  invalid_position, missing_chapter, invalid_reward, invalid_dependency_requirement,
  invalid_min_required_dependencies, cross_pack_reference, missing_mod_reference,
}
use m_pack_station.Quests.Pigeons.{mem}

abbrev pub quest_error : QuestCode → String → QuestIssue
quest_error code path = record { code = code; severity = error; path = path }

abbrev pub issue_when : Bool → QuestIssue → List QuestIssue
issue_when true i = i ∷ []
issue_when false i = []

abbrev pub int_eq : ℤ → ℤ → Bool
int_eq (pos m) (pos n) = m == n
int_eq (negsuc m) (negsuc n) = m == n
int_eq _ _ = false

abbrev pub has_position : ℤ → List ℤ → Bool
has_position p [] = false
has_position p (q ∷ qs) = int_eq q p || has_position p qs

-- The loop over the chapters, from the ids and the positions seen before.
unfoldable pub chapter_issues : List QuestChapter → List String → List ℤ → List QuestIssue
chapter_issues [] ids positions = []
chapter_issues (c ∷ cs) ids positions =
    issue_when (str_eq c.id "" || mem c.id ids) (quest_error duplicate_id "chapters")
    ++ issue_when (has_position c.position positions) (quest_error duplicate_position "chapters")
    ++ issue_when (is_negative c.position) (quest_error invalid_position "chapters")
    ++ chapter_issues cs (c.id ∷ ids) (c.position ∷ positions)

abbrev pub text_member : String → Members → String
text_member k ms = elim (get_member k ms) [ some (string s) ↦ s | _ ↦ "" ]

abbrev pub zero_number : Number
zero_number = record { negative = false; numerator = 0; scale = 0 }

-- rewardNumber of a decoded member
abbrev pub reward_number : String → Members → Number
reward_number k ms = elim (get_member k ms) [ some (number n) ↦ n | _ ↦ zero_number ]

-- x > 0 && x <= limit
abbrev pub in_reward_range : Number → ℕ → Bool
in_reward_range n limit =
    number_gt n zero_number
    && not (number_gt n (record { negative = false; numerator = limit; scale = 0 }))

-- validReward
unfoldable pub valid_reward : Json → Bool
unfolding get_member number_gt
valid_reward (object ms) =
    let kind = text_member "kind" ms in
    if str_eq kind "item"
    then not (str_eq (text_member "item" ms) "")
      && in_reward_range (reward_number "amount" ms) 100000
    else if str_eq kind "experience"
    then in_reward_range (reward_number "experience" ms) 1000000
    else if str_eq kind "command"
    then not (str_eq (text_member "command" ms) "") && leb (len (text_member "command" ms)) 2048
    else if str_eq kind "unlock"
    then not (str_eq (text_member "unlockId" ms) "") && leb (len (text_member "unlockId" ms)) 256
    else false
valid_reward _ = false

unfoldable pub reward_issues : String → Items → List QuestIssue
unfolding valid_reward
reward_issues path no_items = []
reward_issues path (item r rs) =
    issue_when (not (valid_reward r)) (quest_error invalid_reward path) ++ reward_issues path rs

abbrev pub is_present : (PackMod → Bool) → PackMod → Bool
is_present p m = not m.removed && p m

abbrev pub pack_of : PackMod → String
pack_of m = m.pack_id

-- PackIDForModReference: a row with the id, or else one with the project; the rows stand in the
-- order in which SQLite meets them, which the statement leaves open.
unfoldable pub pack_id_for_mod_reference : String → List PackMod → Option String
pack_id_for_mod_reference ref mods = head? (
    map pack_of (filter (is_present (λ (m : PackMod). str_eq m.id ref)) mods)
    ++ map pack_of (filter (is_present (λ (m : PackMod). holds_text m.project_id ref)) mods))

unfoldable pub reference_issue : List PackMod → String → String → String → List QuestIssue
unfolding pack_id_for_mod_reference
reference_issue mods pack path ref =
    if str_eq ref "" then [] else elim (pack_id_for_mod_reference ref mods) [
      | none ↦ quest_error missing_mod_reference path ∷ []
      | some owner ↦ issue_when (not (str_eq owner pack)) (quest_error cross_pack_reference path)
    ]

-- The references that are texts.
unfoldable pub reference_issues : List PackMod → String → String → Items → List QuestIssue
unfolding reference_issue
reference_issues mods pack path no_items = []
reference_issues mods pack path (item (string s) rs) =
    reference_issue mods pack path s ++ reference_issues mods pack path rs
reference_issues mods pack path (item _ rs) = reference_issues mods pack path rs

-- validDependencyRequirements
abbrev pub valid_dependency_requirement : String → Bool
valid_dependency_requirement s =
    mem s ("" ∷ "all_completed" ∷ "one_completed" ∷ "all_started" ∷ "one_started" ∷ [])

-- A position that is taken in a chapter.
pub record Place : Type 0 where
  pub chapter : String
  pub position : ℤ

abbrev pub place_taken : String → ℤ → List Place → Bool
place_taken chapter p [] = false
place_taken chapter p (q ∷ qs) =
    str_eq q.chapter chapter && int_eq q.position p || place_taken chapter p qs

-- The checks of one node, from the ids and the places seen before.
unfoldable pub node_issues :
    List PackMod → String → List String → QuestNode → List String → List Place → List QuestIssue
unfolding reward_issues reference_issues
node_issues mods pack chapters n ids places =
    let path = text_append "nodes." n.id in
    issue_when (str_eq n.id "" || mem n.id ids) (quest_error duplicate_id "nodes")
    ++ issue_when (not (mem n.chapter_id chapters)) (quest_error missing_chapter path)
    ++ issue_when (place_taken n.chapter_id n.position places) (quest_error duplicate_position path)
    ++ issue_when (not (valid_dependency_requirement n.meta.dependency_requirement))
        (quest_error invalid_dependency_requirement (text_append path ".dependencyRequirement"))
    ++ issue_when (is_negative n.meta.min_required_dependencies) (
        quest_error invalid_min_required_dependencies (text_append path ".minRequiredDependencies"))
    ++ reward_issues (text_append path ".rewards") n.rewards
    ++ reference_issues mods pack (text_append path ".modRefs") n.mod_refs

-- The loop over the nodes.
unfoldable pub all_node_issues :
    List PackMod
    → String
    → List String
    → List QuestNode
    → List String
    → List Place
    → List QuestIssue
unfolding node_issues
all_node_issues mods pack chapters [] ids places = []
all_node_issues mods pack chapters (n ∷ ns) ids places =
    node_issues mods pack chapters n ids places
    ++ all_node_issues mods pack chapters ns (n.id ∷ ids)
        (record { chapter = n.chapter_id; position = n.position } ∷ places)

-- ===== src/Quests/Validate.antt =====
-- apps/server/internal/service/content.go: the edges of a quest draft, and `validateQuest` as a whole.
use Prim.Native.String.{◌++◌ as text_append}
use m_pack_station.Base.{
  String, Bool, true, false, not, ◌&&◌, str_eq, ltb, if◌then◌else◌, List, [], ◌∷◌, ◌++◌, Option,
  none, some, filter, map, length,
}
use m_pack_station.Drafts.Payload.{warning}
use m_pack_station.Quests.Model.{
  QuestDraft, QuestChapter, QuestNode, QuestEdge, QuestIssue, PackMod, missing_node, self_edge,
  duplicate_edge, cycle, orphan_node,
}
use m_pack_station.Quests.Checks.{quest_error, issue_when, chapter_issues, all_node_issues}
use m_pack_station.Quests.Queue.{Arrow, has_cycle, targets, in_degrees, no_degrees, is_zero}
use m_pack_station.Quests.Pigeons.{mem}

-- The keys of a Go map in which each of the texts was set.
unfoldable pub distinct_keys : List String → List String
distinct_keys [] = []
distinct_keys (x ∷ xs) = let rest = distinct_keys xs in if mem x rest then rest else x ∷ rest

abbrev pub node_ids : QuestDraft → List String
node_ids d = distinct_keys (map (λ (n : QuestNode). n.id) d.nodes)

abbrev pub endpoints_exist : List String → QuestEdge → Bool
endpoints_exist ids e = mem e.from_node_id ids && mem e.to_node_id ids

-- The edges that the loop does not skip: those between two different nodes of the draft.
abbrev pub is_sound : List String → QuestEdge → Bool
is_sound ids e = endpoints_exist ids e && not (str_eq e.from_node_id e.to_node_id)

abbrev pub arrow_of : QuestEdge → Arrow
arrow_of e = record { from = e.from_node_id; to = e.to_node_id }

unfoldable pub sound_arrows : List String → List QuestEdge → List Arrow
sound_arrows ids es = map arrow_of (filter (is_sound ids) es)

-- The key of an edge, with the character 0 between the ids.
abbrev pub edge_key : QuestEdge → String
edge_key e = text_append e.from_node_id (text_append "\0" e.to_node_id)

-- The loop over the edges, from the keys seen before.
unfoldable pub edge_issues : List String → List QuestEdge → List String → List QuestIssue
edge_issues ids [] keys = []
edge_issues ids (e ∷ es) keys =
    let path = text_append "edges." e.id in
    let rest = edge_issues ids es (if is_sound ids e then edge_key e ∷ keys else keys) in
    if not (endpoints_exist ids e)
    then quest_error missing_node path ∷ rest
    else if str_eq e.from_node_id e.to_node_id
    then quest_error self_edge path ∷ rest
    else issue_when (mem (edge_key e) keys) (quest_error duplicate_edge path) ++ rest

abbrev pub cycle_issue : Option Bool → List QuestIssue
cycle_issue none = []
cycle_issue (some found) = issue_when found (quest_error cycle "edges")

abbrev pub is_empty_list : List String → Bool
is_empty_list [] = true
is_empty_list _ = false

-- A node without an edge.
abbrev pub is_orphan : List Arrow → String → Bool
is_orphan es id = is_empty_list (targets id es) && is_zero (in_degrees es no_degrees id)

abbrev pub orphan_issue : String → QuestIssue
orphan_issue id = record { code = orphan_node; severity = warning; path = text_append "nodes." id }

-- The warnings, in the order of the draft; the map is walked in any order.
unfoldable pub orphan_issues : List String → List Arrow → List QuestIssue
unfolding targets in_degrees
orphan_issues ids es =
    if ltb 1 (length ids) then map orphan_issue (filter (is_orphan es) ids) else []

-- validateQuest
unfoldable pub validate_quest : List PackMod → String → QuestDraft → List QuestIssue
unfolding chapter_issues all_node_issues distinct_keys edge_issues has_cycle sound_arrows
    orphan_issues
validate_quest mods pack d =
    let ids = node_ids d in
    let es = sound_arrows ids d.edges in
    chapter_issues d.chapters [] []
    ++ all_node_issues mods pack (map (λ (c : QuestChapter). c.id) d.chapters) d.nodes [] []
    ++ edge_issues ids d.edges []
    ++ cycle_issue (has_cycle ids es)
    ++ orphan_issues ids es

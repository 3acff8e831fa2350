-- ===== src/Quests/Graphs.antt =====
-- `validateQuest` of apps/server/internal/service/content.go reports a cycle just if there is one.
use m_pack_station.Base.{
  String, Bool, true, false, List, [], ◌∷◌, ◌++◌, map, ◌≡◌, refl, arith, ◌∙◌, Bool-cases, inl, inr,
  ◌&&◌, some, ◌↔◌, ap, sym,
}
use m_pack_station.Quests.Model.{QuestChapter, QuestEdge, QuestIssue, PackMod, QuestDraft}
use m_pack_station.Quests.Checks.{chapter_issues, all_node_issues}
use m_pack_station.Quests.Queue.{has_cycle}
use m_pack_station.Quests.Validate.{
  edge_issues, orphan_issues, distinct_keys, sound_arrows, cycle_issue, validate_quest, node_ids,
  is_sound,
}
use m_pack_station.Quests.Pigeons.{AllDistinct, mem}
use m_pack_station.Quests.Ranks.{Acyclic, StartsIn, has_cycle-Acyclic}
use m_pack_station.Quests.Draining.{EndsIn}
use m_pack_station.Quests.Reports.{
  reports_cycle, reports_append, reports_before, Silent, both, chapters-Silent, nodes-Silent,
  edges-Silent, orphans-Silent,
}

distinct_keys-AllDistinct : (xs : List String) → AllDistinct (distinct_keys xs)
unfolding distinct_keys
distinct_keys-AllDistinct [] = tt
distinct_keys-AllDistinct (x ∷ xs) = elim (Bool-cases (mem x (distinct_keys xs))) [
  | inl e ↦ rw e (distinct_keys-AllDistinct xs)
  | inr e ↦ rw e (e, distinct_keys-AllDistinct xs)
]

first_of : (a b c : Bool) → (a && b && c) ≡ true → a ≡ true
first_of a b c h = ground arith

second_of : (a b c : Bool) → (a && b && c) ≡ true → b ≡ true
second_of a b c h = ground arith

sound_arrows-StartsIn :
    (ids : List String) (es : List QuestEdge) → StartsIn ids (sound_arrows ids es)
unfolding sound_arrows
sound_arrows-StartsIn ids [] = tt
sound_arrows-StartsIn ids (e ∷ es) = elim (Bool-cases (is_sound ids e)) [
  | inl b ↦ rw b (first_of _ _ _ b, sound_arrows-StartsIn ids es)
  | inr b ↦ rw b (sound_arrows-StartsIn ids es)
]

sound_arrows-EndsIn : (ids : List String) (es : List QuestEdge) → EndsIn ids (sound_arrows ids es)
unfolding sound_arrows
sound_arrows-EndsIn ids [] = tt
sound_arrows-EndsIn ids (e ∷ es) = elim (Bool-cases (is_sound ids e)) [
  | inl b ↦ rw b (second_of _ _ _ b, sound_arrows-EndsIn ids es)
  | inr b ↦ rw b (sound_arrows-EndsIn ids es)
]

when-reports : (b : Bool) → reports_cycle (cycle_issue (some b)) ≡ b
when-reports true = refl
when-reports false = refl

-- What is reported of a cycle is what the loop over the queue found.
validate_quest-reports :
    (mods : List PackMod) (pack : String) (d : QuestDraft)
    → reports_cycle (validate_quest mods pack d)
      ≡ reports_cycle (cycle_issue (has_cycle (node_ids d) (sound_arrows (node_ids d) d.edges)))
unfolding validate_quest
validate_quest-reports mods pack d =
    let ids = node_ids d in
    let es = sound_arrows ids d.edges in
    let chapters = map (λ (c : QuestChapter). c.id) d.chapters in
    let before : List QuestIssue =
      chapter_issues d.chapters [] []
      ++ all_node_issues mods pack chapters d.nodes [] []
      ++ edge_issues ids d.edges [] in
    let silent : Silent before =
      both (both (chapters-Silent d.chapters [] []) (nodes-Silent mods pack chapters d.nodes [] []))
        (edges-Silent ids d.edges []) in
    reports_before (before ++ cycle_issue (has_cycle ids es)) (orphan_issues ids es)
      (orphans-Silent ids es).no_cycle
    ∙ reports_append before (cycle_issue (has_cycle ids es)) silent.no_cycle

-- The validation of a draft reports no cycle just if its nodes can be ranked so that every edge
-- between two different nodes of the draft leads upwards. The other edges are reported apart.
pub validate_quest-Acyclic :
    (mods : List PackMod) (pack : String) (d : QuestDraft)
    → (reports_cycle (validate_quest mods pack d) ≡ false)
      ↔ Acyclic (sound_arrows (node_ids d) d.edges)
validate_quest-Acyclic mods pack d =
    let ids = node_ids d in
    let (b, e, found) =
      has_cycle-Acyclic ids (sound_arrows ids d.edges) (distinct_keys-AllDistinct _)
        (sound_arrows-StartsIn ids d.edges) (sound_arrows-EndsIn ids d.edges) in
    let same : reports_cycle (validate_quest mods pack d) ≡ b =
      validate_quest-reports mods pack d
      ∙ ap (λ o. reports_cycle (cycle_issue o)) e
      ∙ when-reports b in
    (λ h. found.0 (sym same ∙ h), λ a. same ∙ found.1 a)

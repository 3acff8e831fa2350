-- ===== src/Quests/Reports.antt =====
-- The loops of `validateQuest` in apps/server/internal/service/content.go that report no cycle.
use m_pack_station.Base.{
  String, Bool, true, false, str_eq, List, [], ◌∷◌, ◌++◌, filter, map, any, ◌≡◌, refl, arith, ◌∙◌,
  Bool-cases, inl, inr, Option-cases, ltb, length,
}
use m_pack_station.Base.Int.{ℤ}
use m_pack_station.Drafts.Json.{Items, no_items, item, string, null, boolean, number, array, object}
use m_pack_station.Quests.Model.{
  QuestChapter, QuestNode, QuestEdge, QuestCode, QuestIssue, PackMod, cycle,
}
use m_pack_station.Quests.Checks.{
  issue_when, chapter_issues, all_node_issues, node_issues, reward_issues, reference_issues,
  reference_issue, pack_id_for_mod_reference, Place,
}
use m_pack_station.Quests.Queue.{Arrow}
use m_pack_station.Quests.Validate.{
  edge_issues, orphan_issues, orphan_issue, is_orphan, endpoints_exist,
}

abbrev pub is_cycle : QuestCode → Bool
is_cycle cycle = true
is_cycle _ = false

abbrev pub reports_cycle : List QuestIssue → Bool
reports_cycle is = any (λ (i : QuestIssue). is_cycle i.code) is

pub reports_append :
    (xs ys : List QuestIssue)
    → reports_cycle xs ≡ false
    → reports_cycle (xs ++ ys) ≡ reports_cycle ys
reports_append [] ys h = refl
reports_append (x ∷ xs) ys h = ground (arith, reports_append xs ys)

pub reports_before :
    (xs ys : List QuestIssue)
    → reports_cycle ys ≡ false
    → reports_cycle (xs ++ ys) ≡ reports_cycle xs
reports_before [] ys h = h
reports_before (x ∷ xs) ys h = ground (arith, reports_before xs ys)

pub record Silent (is : List QuestIssue) : Type 0 where
  pub no_cycle : reports_cycle is ≡ false

pub both : {xs ys : List QuestIssue} → Silent xs → Silent ys → Silent (xs ++ ys)
both {xs = xs} {ys = ys} a b = record { no_cycle = reports_append xs ys a.no_cycle ∙ b.no_cycle }

nothing : Silent []
nothing = record { no_cycle = refl }

one : (b : Bool) (i : QuestIssue) → is_cycle i.code ≡ false → Silent (issue_when b i)
one true i h = record { no_cycle = rw h refl }
one false i h = nothing

led :
    {i : QuestIssue} {is : List QuestIssue} → is_cycle i.code ≡ false → Silent is → Silent (i ∷ is)
led h s = record { no_cycle = rw h s.no_cycle }

-- None of the other loops reports a cycle.
pub chapters-Silent :
    (cs : List QuestChapter) (ids : List String) (positions : List ℤ)
    → Silent (chapter_issues cs ids positions)
unfolding chapter_issues
chapters-Silent [] ids positions = nothing
chapters-Silent (c ∷ cs) ids positions =
    both (both (both (one _ _ refl) (one _ _ refl)) (one _ _ refl))
      (chapters-Silent cs (c.id ∷ ids) (c.position ∷ positions))

rewards-Silent : (path : String) (rs : Items) → Silent (reward_issues path rs)
unfolding reward_issues
rewards-Silent path no_items = nothing
rewards-Silent path (item r rs) = both (one _ _ refl) (rewards-Silent path rs)

reference-Silent :
    (mods : List PackMod) (pack path ref : String) → Silent (reference_issue mods pack path ref)
unfolding reference_issue
reference-Silent mods pack path ref = elim (Bool-cases (str_eq ref "")) [
  | inl e ↦ rw e nothing
  | inr e ↦ elim (Option-cases (pack_id_for_mod_reference ref mods)) [
    | inl b ↦ rw (e, b) (led refl nothing)
    | inr (owner, b) ↦ rw (e, b) (one _ _ refl)
  ]
]

references-Silent :
    (mods : List PackMod) (pack path : String) (rs : Items)
    → Silent (reference_issues mods pack path rs)
unfolding reference_issues
references-Silent mods pack path no_items = nothing
references-Silent mods pack path (item (string s) rs) =
    both (reference-Silent mods pack path s) (references-Silent mods pack path rs)
references-Silent mods pack path (item null rs) = references-Silent mods pack path rs
references-Silent mods pack path (item (boolean b) rs) = references-Silent mods pack path rs
references-Silent mods pack path (item (number n) rs) = references-Silent mods pack path rs
references-Silent mods pack path (item (array xs) rs) = references-Silent mods pack path rs
references-Silent mods pack path (item (object ms) rs) = references-Silent mods pack path rs

node-Silent :
    (mods : List PackMod) (pack : String) (chapters : List String) (n : QuestNode)
    (ids : List String) (places : List Place)
    → Silent (node_issues mods pack chapters n ids places)
unfolding node_issues
node-Silent mods pack chapters n ids places =
    both
      (both
        (both (both (both (both (one _ _ refl) (one _ _ refl)) (one _ _ refl)) (one _ _ refl))
          (one _ _ refl))
        (rewards-Silent _ n.rewards))
      (references-Silent mods pack _ n.mod_refs)

pub nodes-Silent :
    (mods : List PackMod) (pack : String) (chapters : List String) (ns : List QuestNode)
    (ids : List String) (places : List Place)
    → Silent (all_node_issues mods pack chapters ns ids places)
unfolding all_node_issues
nodes-Silent mods pack chapters [] ids places = nothing
nodes-Silent mods pack chapters (n ∷ ns) ids places =
    both (node-Silent mods pack chapters n ids places) (nodes-Silent mods pack chapters ns _ _)

pub edges-Silent :
    (ids : List String) (es : List QuestEdge) (keys : List String)
    → Silent (edge_issues ids es keys)
unfolding edge_issues
edges-Silent ids [] keys = nothing
edges-Silent ids (e ∷ es) keys = elim (Bool-cases (endpoints_exist ids e)) [
  | inr a ↦ rw a (led refl (edges-Silent ids es _))
  | inl a ↦ elim (Bool-cases (str_eq e.from_node_id e.to_node_id)) [
    | inl b ↦ rw (a, b) (led refl (edges-Silent ids es _))
    | inr b ↦ rw (a, b) (both (one _ _ refl) (edges-Silent ids es _))
  ]
]

pub orphans-Silent : (ids : List String) (es : List Arrow) → Silent (orphan_issues ids es)
unfolding orphan_issues
orphans-Silent ids es = elim (Bool-cases (ltb 1 (length ids))) [
  | inr e ↦ rw e nothing
  | inl e ↦ rw e (warnings (filter (is_orphan es) ids))
]
  where
    warnings : (xs : List String) → Silent (map orphan_issue xs)
    warnings [] = nothing
    warnings (x ∷ xs) = led refl (warnings xs)

-- ===== src/Quests/Examples.antt =====
-- Concrete quests of apps/server/internal/service/content.go.
use Prim.Native.String.{◌++◌ as text_append}
use m_pack_station.Base.{
  ℕ, String, ◌≡◌, zero, suc, some, none, true, false, ◌∷◌, [], refl, ◌↔◌, List, insert_by,
}
use m_pack_station.Base.Int.{pos}
use m_pack_station.Drafts.Json.{no_items}
use m_pack_station.Drafts.Model.{Surroundings}
use m_pack_station.Quests.Model.{
  QuestChapter, QuestNode, QuestEdge, QuestDraft, NodeMeta, PackMod, cross_pack_reference,
}
use m_pack_station.Quests.References.{Judges, reference_issue-Judges}
use m_pack_station.Quests.Checks.{zero_number, reference_issue, quest_error}
use m_pack_station.Quests.Validate.{validate_quest, sound_arrows, node_ids, distinct_keys}
use m_pack_station.Quests.Queue.{has_cycle}
use m_pack_station.Quests.Ranks.{Acyclic}
use m_pack_station.Quests.Reports.{reports_cycle}
use m_pack_station.Quests.Graphs.{validate_quest-Acyclic}
use m_pack_station.Quests.Store.{QuestTables, get_quest_revision_by_id, listed, revision_of}
use m_pack_station.Quests.Service.{
  save_quest_draft, answers, quest_draft, rollback_quest, empty_book,
}
use m_pack_station.Quests.Rows.{QuestBook, QuestRevision, chapters_fit, nodes_fit, edges_fit}
use m_pack_station.Quests.Saves.{QuestReads}
use m_pack_station.Quests.Restores.{save_quest_draft-QuestReads}

abbrev digits : ℕ → String
digits zero = "i"
digits (suc n) = text_append "i" (digits n)

abbrev world : Surroundings
world = record { has_pack = λ p. true; random = digits }

abbrev plain_meta : NodeMeta
plain_meta = record {
  subtitle = "";
  shape = "";
  size = zero_number;
  is_optional = false;
  invisible = false;
  dependency_requirement = "";
  min_required_dependencies = pos 0;
  tasks = no_items;
}

abbrev node : String → ℕ → QuestNode
node id n = record {
  id = id;
  chapter_id = "start";
  title = id;
  description = "";
  icon = "";
  x = zero_number;
  y = zero_number;
  prerequisites = no_items;
  rewards = no_items;
  mod_refs = no_items;
  position = pos n;
  meta = plain_meta;
}

abbrev edge : String → String → String → QuestEdge
edge id from to = record { id = id; from_node_id = from; to_node_id = to }

abbrev start : QuestChapter
start = record {
  id = "start";
  title = "Start";
  description = "";
  cover_color = "";
  position = pos 0;
  icon = "";
}

abbrev line : QuestDraft
line = record {
  book = none;
  chapters = start ∷ [];
  nodes = node "stone" 1 ∷ node "wood" 0 ∷ node "iron" 2 ∷ [];
  edges = edge "b" "wood" "stone" ∷ edge "a" "stone" "iron" ∷ [];
}

abbrev circle : QuestDraft
circle = record line { edges = edge "c" "iron" "wood" ∷ line.edges }

line_rises : has_cycle (node_ids line) (sound_arrows (node_ids line) line.edges) ≡ some false
unfolding has_cycle distinct_keys sound_arrows
line_rises = refl

circle_found : has_cycle (node_ids circle) (sound_arrows (node_ids circle) circle.edges) ≡ some true
unfolding has_cycle distinct_keys sound_arrows
circle_found = refl

validate_quest-Acyclic_example :
    (reports_cycle (validate_quest [] "p" circle) ≡ false)
    ↔ Acyclic (sound_arrows (node_ids circle) circle.edges)
validate_quest-Acyclic_example = validate_quest-Acyclic [] "p" circle

abbrev no_quests : QuestTables
no_quests = record { books = []; checks = []; evidence_rows = []; generated = 0 }

abbrev after_line : QuestTables
after_line = (save_quest_draft world [] 1 "p" line (pos 0) no_quests).0

abbrev first_line : QuestRevision
first_line = revision_of "quest-revision-ii" 1 1 empty_book line

saves_line :
    save_quest_draft world [] 1 "p" line (pos 0) no_quests ≡ (after_line, answers first_line)
unfolding save_quest_draft chapters_fit nodes_fit edges_fit
saves_line = refl

save_quest_draft-QuestReads_example : QuestReads "p" line after_line first_line
save_quest_draft-QuestReads_example =
    save_quest_draft-QuestReads world [] 1 "p" line (pos 0) no_quests saves_line

-- A circle may be saved, and is gone back from.
abbrev after_circle : QuestTables
after_circle = (save_quest_draft world [] 2 "p" circle (pos 1) after_line).0

abbrev line_again : QuestDraft
line_again = quest_draft (listed first_line)

abbrev third : QuestRevision
third = revision_of "quest-revision-iiiiii" 3 3 empty_book line_again

abbrev book_now : QuestBook
book_now = record {
  id = "quest-book-i";
  pack_id = "p";
  active = none;
  created_at = 1;
  updated_at = 2;
  revisions = revision_of "quest-revision-iiii" 2 2 empty_book circle ∷ first_line ∷ [];
}

reads_line :
    get_quest_revision_by_id "p" "quest-revision-ii" after_circle
    ≡ some (book_now, listed first_line)
unfolding get_quest_revision_by_id save_quest_draft chapters_fit nodes_fit edges_fit
reads_line = refl

rolls_line :
    rollback_quest world [] 3 "p" "quest-revision-ii" after_circle
    ≡ ((rollback_quest world [] 3 "p" "quest-revision-ii" after_circle).0, answers third)
unfolding rollback_quest chapters_fit nodes_fit edges_fit insert_by
rolls_line = refl

abbrev selected : String → String → PackMod
selected id pack = record { id = id; pack_id = pack; project_id = some "sodium"; removed = false }

-- The pack "p" selects the project too.
abbrev both_packs : List PackMod
both_packs = selected "1" "other" ∷ selected "2" "p" ∷ []

-- The other pack's row is met first.
shared_project :
    reference_issue both_packs "p" "nodes.stone.modRefs" "sodium"
    ≡ quest_error cross_pack_reference "nodes.stone.modRefs" ∷ []
unfolding reference_issue
shared_project = refl

reference_issue-Judges_example :
    Judges both_packs "p" "nodes.stone.modRefs" "sodium"
      (reference_issue both_packs "p" "nodes.stone.modRefs" "sodium")
reference_issue-Judges_example =
    reference_issue-Judges both_packs "p" "nodes.stone.modRefs" "sodium" refl

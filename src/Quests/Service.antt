-- ===== src/Quests/Service.antt =====
-- apps/server/internal/service/content.go: the operations on quests. `ready` is taken to hold, and a
-- database that fails otherwise is not modelled.
use m_pack_station.Base.{
  ℕ, String, Bool, true, false, ◌&&◌, str_eq, if◌then◌else◌, List, [], ◌∷◌, Option, none, some, map,
  any, suc,
}
use m_pack_station.Base.Int.{ℤ, pos, negsuc}
use m_pack_station.Drafts.Payload.{is_error}
use m_pack_station.Drafts.Model.{ContentError, Surroundings, conflict}
use m_pack_station.Drafts.Model as Rows
use m_pack_station.Drafts.Service.{new_id}
use m_pack_station.Quests.Model.{
  QuestBookMeta, QuestChapter, QuestNode, QuestEdge, QuestDraft, QuestCode, QuestIssue, PackMod,
  duplicate_id, duplicate_position, missing_chapter, missing_node, self_edge, invalid_reward,
  invalid_dependency_requirement, cross_pack_reference,
}
use m_pack_station.Quests.Rows.{QuestRevision, logical_quest_id}
use m_pack_station.Quests.Validate.{validate_quest}
use m_pack_station.Quests.Store.{
  QuestTables, save_quest_draft_tx, get_quest_revision, get_quest_revision_by_id, apply_quest_tx,
}

-- `quest_not_valid` is the error with the issues, `bad_quest` the one that returns them beside it,
-- and `passes` an error of the store that is passed on.
pub data QuestError : Type 0 where
  bad_argument quest_revision_conflict quest_apply_conflict quest_not_found : QuestError
  quest_not_valid : List QuestIssue → QuestError
  bad_quest : List QuestIssue → QuestError
  passes : ContentError → QuestError

pub data QuestReply (A : Type 0) : Type 0 where
  answers : A → QuestReply A
  errs : QuestError → QuestReply A

abbrev pub empty_book : QuestBookMeta
empty_book = record { title = ""; icon = ""; progression_mode = "" }

-- packBookMeta
abbrev pub pack_book_meta : Option QuestBookMeta → QuestBookMeta
pack_book_meta none = empty_book
pack_book_meta (some b) = b

-- unpackBookMeta
abbrev pub unpack_book_meta : QuestBookMeta → Option QuestBookMeta
unpack_book_meta m =
    if str_eq m.title "" && str_eq m.icon "" && str_eq m.progression_mode "" then none else some m

abbrev pub chapter_dto : String → QuestChapter → QuestChapter
chapter_dto rev c = record c { id = logical_quest_id c.id rev "c" }

abbrev pub node_dto : String → QuestNode → QuestNode
node_dto rev n = record n {
  id = logical_quest_id n.id rev "n";
  chapter_id = logical_quest_id n.chapter_id rev "c";
}

abbrev pub edge_dto : String → QuestEdge → QuestEdge
edge_dto rev e = record {
  id = logical_quest_id e.id rev "e";
  from_node_id = logical_quest_id e.from_node_id rev "n";
  to_node_id = logical_quest_id e.to_node_id rev "n";
}

-- questDTO, its draft
unfoldable pub quest_draft : QuestRevision → QuestDraft
unfolding logical_quest_id
quest_draft r = record {
  book = unpack_book_meta r.book;
  chapters = map (chapter_dto r.id) r.chapters;
  nodes = map (node_dto r.id) r.nodes;
  edges = map (edge_dto r.id) r.edges;
}

-- GetQuest: the latest revision of the book, and its draft.
unfoldable pub get_quest : String → QuestTables → QuestReply (QuestRevision × QuestDraft)
unfolding get_quest_revision quest_draft
get_quest pack s = elim (get_quest_revision pack s) [
  | none ↦ errs quest_not_found
  | some (b, r) ↦ answers (r, quest_draft r)
]

abbrev pub is_cross_pack : QuestCode → Bool
is_cross_pack cross_pack_reference = true
is_cross_pack _ = false

-- The codes that keep a draft from being saved.
abbrev pub blocks_save : QuestCode → Bool
blocks_save duplicate_id = true
blocks_save duplicate_position = true
blocks_save missing_chapter = true
blocks_save missing_node = true
blocks_save self_edge = true
blocks_save invalid_reward = true
blocks_save invalid_dependency_requirement = true
blocks_save cross_pack_reference = true
blocks_save _ = false

-- The first issue that keeps a draft from being saved decides on the error.
unfoldable pub save_error : List QuestIssue → List QuestIssue → Option QuestError
save_error whole [] = none
save_error whole (i ∷ is) =
    let rest = save_error whole is in
    if is_cross_pack i.code
    then some (quest_not_valid whole)
    else if is_error i.severity && blocks_save i.code
    then some (bad_quest whole)
    else rest

abbrev pub quest_saved :
    QuestTables × Rows.Reply QuestRevision → QuestTables × QuestReply QuestRevision
quest_saved (s, Rows.gives r) = (s, answers r)
quest_saved (s, Rows.refuses conflict) = (s, errs quest_revision_conflict)
quest_saved (s, Rows.refuses e) = (s, errs (passes e))

abbrev pub two_more : QuestTables → QuestTables
two_more s = record s { generated = suc (suc s.generated) }

-- SaveQuestDraft
unfoldable pub save_quest_draft :
    Surroundings
    → List PackMod
    → ℕ
    → String
    → QuestDraft
    → ℤ
    → QuestTables
    → QuestTables × QuestReply QuestRevision
unfolding validate_quest save_error save_quest_draft_tx
save_quest_draft w mods now pack d (negsuc n) s = (s, errs bad_argument)
save_quest_draft w mods now pack d (pos n) s =
    let issues = validate_quest mods pack d in
    elim (save_error issues issues) [
      | some e ↦ (s, errs e)
      | none ↦ quest_saved (
          save_quest_draft_tx pack (new_id "quest-book" w s.generated) n
            (new_id "quest-revision" w (suc s.generated)) now (pack_book_meta d.book) d
            (two_more s))
    ]

abbrev pub has_blocking : List QuestIssue → Bool
has_blocking is = any (λ (i : QuestIssue). is_error i.severity) is

abbrev pub quest_applied :
    String
    → List QuestIssue
    → QuestTables × Option ContentError
    → QuestTables × QuestReply (String × List QuestIssue)
quest_applied id is (s, none) = (s, answers (id, is))
quest_applied id is (s, some conflict) = (s, errs quest_apply_conflict)
quest_applied id is (s, some e) = (s, errs (passes e))

-- ApplyQuest: the id of the applied revision, and the issues, which are warnings.
unfoldable pub apply_quest :
    List PackMod → ℕ → String → QuestTables → QuestTables × QuestReply (String × List QuestIssue)
unfolding get_quest validate_quest apply_quest_tx
apply_quest mods now pack s = elim (get_quest pack s) [
  | errs e ↦ (s, errs e)
  | answers (r, d) ↦
      let issues = validate_quest mods pack d in
      if has_blocking issues
      then (s, errs (quest_not_valid issues))
      else quest_applied r.id issues (apply_quest_tx pack r.id now s)
]

-- RollbackQuest: the target's draft, saved at the number of the latest revision.
unfoldable pub rollback_quest :
    Surroundings
    → List PackMod
    → ℕ
    → String
    → String
    → QuestTables
    → QuestTables × QuestReply QuestRevision
unfolding get_quest_revision_by_id get_quest_revision quest_draft save_quest_draft
rollback_quest w mods now pack target s = elim (get_quest_revision_by_id pack target s) [
  | none ↦ (s, errs quest_not_found)
  | some (b, r) ↦ elim (get_quest_revision pack s) [
    | none ↦ (s, errs quest_not_found)
    | some (c, current) ↦ save_quest_draft w mods now pack (quest_draft r) (pos current.number) s
  ]
]

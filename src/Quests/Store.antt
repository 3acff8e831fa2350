-- ===== src/Quests/Store.antt =====
-- apps/server/internal/store/content_repo.go: the statements and transactions on quests. A refused
-- transaction leaves the tables as they were.
use m_pack_station.Base.{
  ℕ, String, Bool, not, ◌||◌, str_eq, ◌==◌, ltb, if◌then◌else◌, List, [], ◌∷◌, Option, none, some,
  map, sort_by, any, suc, head?,
}
use m_pack_station.Drafts.Model.{
  ContentCheck, Evidence, ContentError, Reply, gives, refuses, conflict, constraint, draft, applied,
  archived, store_not_found,
}
use m_pack_station.Drafts.Store.{evidence}
use m_pack_station.Drafts.Changes.{is_draft, is_applied, upsert_check}
use m_pack_station.Quests.Model.{QuestBookMeta, QuestChapter, QuestNode, QuestDraft}
use m_pack_station.Quests.Rows.{
  QuestRevision, QuestBook, chapter_row, node_row, edge_row, rows_fit, chapter_before, node_before,
  edge_before,
}

-- The tables, and how many ids were taken.
pub record QuestTables : Type 0 where
  pub books : List QuestBook
  pub checks : List ContentCheck
  pub evidence_rows : List Evidence
  pub generated : ℕ

-- WHERE pack_id=?
unfoldable pub find_book : String → List QuestBook → Option QuestBook
find_book pack [] = none
find_book pack (b ∷ bs) =
    let rest = find_book pack bs in if str_eq b.pack_id pack then some b else rest

unfoldable pub change_book : String → (QuestBook → QuestBook) → List QuestBook → List QuestBook
change_book pack f [] = []
change_book pack f (b ∷ bs) =
    let rest = change_book pack f bs in if str_eq b.pack_id pack then f b ∷ bs else b ∷ rest

abbrev pub quest_newer : QuestRevision → QuestRevision → Bool
quest_newer a b = ltb b.number a.number

-- ORDER BY revision DESC LIMIT 1
unfoldable pub latest_quest : List QuestRevision → Option QuestRevision
unfolding sort_by
latest_quest rs = head? (sort_by quest_newer rs)

-- COALESCE(MAX(revision),0)
unfoldable pub max_quest_revision : List QuestRevision → ℕ
max_quest_revision [] = 0
max_quest_revision (r ∷ rs) =
    let rest = max_quest_revision rs in if ltb rest r.number then r.number else rest

unfoldable pub find_quest_revision : String → List QuestRevision → Option QuestRevision
find_quest_revision id [] = none
find_quest_revision id (r ∷ rs) =
    let rest = find_quest_revision id rs in if str_eq r.id id then some r else rest

-- The primary keys of quest_revisions and quest_books.
abbrev pub quest_revision_taken : String → List QuestBook → Bool
quest_revision_taken id bs =
    any (λ (b : QuestBook). any (λ (r : QuestRevision). str_eq r.id id) b.revisions) bs

abbrev pub book_id_taken : String → List QuestBook → Bool
book_id_taken id bs = any (λ (b : QuestBook). str_eq b.id id) bs

-- The rows of a draft, under their physical ids.
unfoldable pub revision_of : String → ℕ → ℕ → QuestBookMeta → QuestDraft → QuestRevision
revision_of id number at meta d = record {
  id = id;
  number = number;
  state = draft;
  created_at = at;
  book = meta;
  chapters = map (chapter_row id) d.chapters;
  nodes = map (node_row id (map (λ (c : QuestChapter). c.id) d.chapters)) d.nodes;
  edges = map (edge_row id (map (λ (n : QuestNode). n.id) d.nodes)) d.edges;
}

abbrev pub append_quest : QuestRevision → QuestBook → QuestBook
append_quest r b = record b { revisions = r ∷ b.revisions; updated_at = r.created_at }

abbrev pub with_book : List QuestBook → QuestRevision → String → QuestTables → QuestTables
with_book books r pack s = record s {
  books = change_book pack (append_quest r) books;
  evidence_rows = evidence pack "quest.draft" r.id r.created_at ∷ s.evidence_rows;
}

-- SaveQuestDraft, from the book on: the books with a new one, if there was none.
unfoldable pub save_in_book :
    String
    → List QuestBook
    → QuestBook
    → ℕ
    → String
    → ℕ
    → QuestBookMeta
    → QuestDraft
    → QuestTables
    → QuestTables × Reply QuestRevision
unfolding max_quest_revision revision_of change_book
save_in_book pack books b expected id at meta d s =
    let latest = max_quest_revision b.revisions in
    let r = revision_of id (suc latest) at meta d in
    if not (latest == expected)
    then (s, refuses conflict)
    else if quest_revision_taken id books || not (rows_fit r)
    then (s, refuses constraint)
    else (with_book books r pack s, gives r)

abbrev pub new_book : String → String → ℕ → QuestBook
new_book id pack now = record {
  id = id;
  pack_id = pack;
  active = none;
  created_at = now;
  updated_at = now;
  revisions = [];
}

-- SaveQuestDraft
unfoldable pub save_quest_draft_tx :
    String
    → String
    → ℕ
    → String
    → ℕ
    → QuestBookMeta
    → QuestDraft
    → QuestTables
    → QuestTables × Reply QuestRevision
unfolding find_book save_in_book
save_quest_draft_tx pack book_id expected id at meta d s = elim (find_book pack s.books) [
  | some b ↦ save_in_book pack s.books b expected id at meta d s
  | none ↦
      if book_id_taken book_id s.books
      then (s, refuses constraint)
      else let b = new_book book_id pack at in
        save_in_book pack (b ∷ s.books) b expected id at meta d s
]

-- A revision with its parts as the lists read them.
unfoldable pub listed : QuestRevision → QuestRevision
unfolding sort_by
listed r = record r {
  chapters = sort_by chapter_before r.chapters;
  nodes = sort_by node_before r.nodes;
  edges = sort_by edge_before r.edges;
}

-- GetQuestRevision
unfoldable pub get_quest_revision : String → QuestTables → Option (QuestBook × QuestRevision)
unfolding find_book latest_quest listed
get_quest_revision pack s = elim (find_book pack s.books) [
  | none ↦ none
  | some b ↦ elim (latest_quest b.revisions) [ none ↦ none | some r ↦ some (b, listed r) ]
]

-- GetQuestRevisionByID
unfoldable pub get_quest_revision_by_id :
    String → String → QuestTables → Option (QuestBook × QuestRevision)
unfolding find_book find_quest_revision listed
get_quest_revision_by_id pack id s = elim (find_book pack s.books) [
  | none ↦ none
  | some b ↦ elim (find_quest_revision id b.revisions) [ none ↦ none | some r ↦ some (b, listed r) ]
]

unfoldable pub archive_quests : List QuestRevision → List QuestRevision
archive_quests [] = []
archive_quests (r ∷ rs) =
    (if is_applied r.state then record r { state = archived } else r) ∷ archive_quests rs

unfoldable pub promote_quest : String → List QuestRevision → List QuestRevision
promote_quest id [] = []
promote_quest id (r ∷ rs) =
    (if str_eq r.id id then record r { state = applied } else r) ∷ promote_quest id rs

unfoldable pub activate_quest : String → ℕ → QuestBook → QuestBook
unfolding archive_quests promote_quest
activate_quest id at b = record b {
  active = some id;
  updated_at = at;
  revisions = promote_quest id (archive_quests b.revisions);
}

abbrev pub applied_tables : String → String → ℕ → QuestTables → QuestTables
applied_tables pack id at s = record s {
  books = change_book pack (activate_quest id at) s.books;
  checks = upsert_check (record { pack_id = pack; revision_id = id; checked_at = at }) s.checks;
  evidence_rows = evidence pack "quest.apply" id at ∷ s.evidence_rows;
}

-- ApplyQuest; the error, if there is one.
unfoldable pub apply_quest_tx :
    String → String → ℕ → QuestTables → QuestTables × Option ContentError
unfolding find_book find_quest_revision change_book activate_quest upsert_check
apply_quest_tx pack id at s = elim (find_book pack s.books) [
  | none ↦ (s, some store_not_found)
  | some b ↦ elim (find_quest_revision id b.revisions) [
    | none ↦ (s, some store_not_found)
    | some r ↦
        if not (is_draft r.state) then (s, some conflict) else (applied_tables pack id at s, none)
  ]
]

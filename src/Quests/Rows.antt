-- ===== src/Quests/Rows.antt =====
-- apps/server/internal/store/content_repo.go: the rows of quest books, and the physical ids under
-- which the parts of a revision are kept.
use Prim.Native.String as Text
use Prim.Native.String.{◌++◌ as text_append}
use Prim.Native.Char.{code}
use m_pack_station.Base.{
  ℕ, String, Bool, true, false, not, ◌&&◌, ◌||◌, str_eq, ◌==◌, ltb, str_lt, if◌then◌else◌, List, [],
  ◌∷◌, Option, none, some, map, any,
}
use m_pack_station.Base.Int.{ℤ, pos, negsuc, is_negative}
use m_pack_station.Drafts.Model.{RevisionState}
use m_pack_station.Quests.Model.{QuestBookMeta, QuestChapter, QuestNode, QuestEdge}
use m_pack_station.Quests.Checks.{int_eq}
use m_pack_station.Quests.Pigeons.{mem}

-- A row of `quest_revisions`, with the rows of `quest_chapters`, `quest_nodes` and `quest_edges` that
-- refer to it, under their physical ids. The columns `meta` stand for the structs in them; `{}` of a
-- book is the struct of empty texts.
pub record QuestRevision : Type 0 where
  pub id : String
  pub number : ℕ
  pub state : RevisionState
  pub created_at : ℕ
  pub book : QuestBookMeta
  pub chapters : List QuestChapter
  pub nodes : List QuestNode
  pub edges : List QuestEdge

-- A row of `quest_books`, with its revisions; a pack has one at most.
pub record QuestBook : Type 0 where
  pub id : String
  pub pack_id : String
  pub active : Option String
  pub created_at : ℕ
  pub updated_at : ℕ
  pub revisions : List QuestRevision

-- rev.ID + "::" + kind + "::"
abbrev pub quest_prefix : String → String → String
quest_prefix rev kind = text_append rev (text_append "::" (text_append kind "::"))

abbrev pub physical : String → String → String → String
physical rev kind id = text_append (quest_prefix rev kind) id

-- What follows a prefix, where the text has it.
unfoldable pub strip_prefix : String → String → Option String
strip_prefix Text.[] t = some t
strip_prefix (Text.◌∷◌ c p) Text.[] = none
strip_prefix (Text.◌∷◌ c p) (Text.◌∷◌ d t) =
    let rest = strip_prefix p t in if code c == code d then rest else none

abbrev pub or_itself : String → Option String → String
or_itself t none = t
or_itself t (some s) = s

-- logicalQuestID
unfoldable pub logical_quest_id : String → String → String → String
unfolding strip_prefix
logical_quest_id text rev kind = or_itself text (strip_prefix (quest_prefix rev kind) text)

-- The physical id that a map of the parts' ids holds; a missing one reads as the empty text.
abbrev pub mapped_id : String → String → List String → String → String
mapped_id rev kind ids id = if mem id ids then physical rev kind id else ""

abbrev pub chapter_row : String → QuestChapter → QuestChapter
chapter_row rev c = record c { id = physical rev "c" c.id }

abbrev pub node_row : String → List String → QuestNode → QuestNode
node_row rev chapters n = record n {
  id = physical rev "n" n.id;
  chapter_id = mapped_id rev "c" chapters n.chapter_id;
}

abbrev pub edge_row : String → List String → QuestEdge → QuestEdge
edge_row rev nodes e = record {
  id = physical rev "e" e.id;
  from_node_id = mapped_id rev "n" nodes e.from_node_id;
  to_node_id = mapped_id rev "n" nodes e.to_node_id;
}

abbrev pub int_lt : ℤ → ℤ → Bool
int_lt (pos m) (pos n) = ltb m n
int_lt (negsuc m) (pos n) = true
int_lt (pos m) (negsuc n) = false
int_lt (negsuc m) (negsuc n) = ltb n m

-- ORDER BY position,id
abbrev pub chapter_before : QuestChapter → QuestChapter → Bool
chapter_before a b =
    int_lt a.position b.position || int_eq a.position b.position && str_lt a.id b.id

-- ORDER BY chapter_id,position,id
abbrev pub node_before : QuestNode → QuestNode → Bool
node_before a b =
    str_lt a.chapter_id b.chapter_id
    || str_eq a.chapter_id b.chapter_id
      && (int_lt a.position b.position || int_eq a.position b.position && str_lt a.id b.id)

-- ORDER BY id
abbrev pub edge_before : QuestEdge → QuestEdge → Bool
edge_before a b = str_lt a.id b.id

-- The constraints on chapters: the primary key, the position within the revision, and its sign. The
-- ids of other revisions begin otherwise.
unfoldable pub chapters_fit : List QuestChapter → Bool
chapters_fit [] = true
chapters_fit (c ∷ cs) =
    not (is_negative c.position)
    && not (any (λ (x : QuestChapter). str_eq x.id c.id || int_eq x.position c.position) cs)
    && chapters_fit cs

-- The constraints on nodes: the primary key, the reference to a chapter, the position within the
-- chapter, and its sign.
unfoldable pub nodes_fit : List String → List QuestNode → Bool
nodes_fit chapters [] = true
nodes_fit chapters (n ∷ ns) =
    mem n.chapter_id chapters
    && (not (is_negative n.position)
        && not (
            any
              (λ (x : QuestNode).
                str_eq x.id n.id
                || str_eq x.chapter_id n.chapter_id && int_eq x.position n.position)
              ns)
        && nodes_fit chapters ns)

-- The constraints on edges: the references to nodes, the different ends, the primary key, and the
-- pair of nodes.
unfoldable pub edges_fit : List String → List QuestEdge → Bool
edges_fit nodes [] = true
edges_fit nodes (e ∷ es) =
    mem e.from_node_id nodes
    && (mem e.to_node_id nodes
        && (not (str_eq e.from_node_id e.to_node_id)
            && not (
                any
                  (λ (x : QuestEdge).
                    str_eq x.id e.id
                    || str_eq x.from_node_id e.from_node_id && str_eq x.to_node_id e.to_node_id)
                  es)
            && edges_fit nodes es))

abbrev pub rows_fit : QuestRevision → Bool
rows_fit r =
    chapters_fit r.chapters
    && (nodes_fit (map (λ (c : QuestChapter). c.id) r.chapters) r.nodes
        && edges_fit (map (λ (n : QuestNode). n.id) r.nodes) r.edges)

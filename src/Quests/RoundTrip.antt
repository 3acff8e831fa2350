-- ===== src/Quests/RoundTrip.antt =====
-- SaveQuestDraft and GetQuest of apps/server/internal/service/content.go: what was saved is read.
use mathlib.Core.List.{Perm}
use m_pack_station.Base.{
  ℕ, String, Bool, true, ◌&&◌, List, [], ◌∷◌, map, ◌≡◌, refl, arith, ap, ◌∙◌, All, subst,
}
use m_pack_station.Quests.Model.{QuestChapter, QuestNode, QuestEdge, QuestDraft}
use m_pack_station.Quests.Pigeons.{mem}
use m_pack_station.Quests.Rows.{
  physical, mapped_id, chapter_row, node_row, edge_row, nodes_fit, edges_fit, chapters_fit,
  rows_fit, chapter_before, node_before, edge_before,
}
use m_pack_station.Quests.Store.{revision_of, listed}
use m_pack_station.Quests.Service.{
  chapter_dto, node_dto, edge_dto, quest_draft, pack_book_meta, unpack_book_meta,
}
use m_pack_station.Quests.Ids.{logical-physical, mapped_id-known, Perm-shown}

-- The draft that is read, against the one that was saved: the same parts in another order, and the
-- same title page, if it is not blank.
pub record Restores (saved read : QuestDraft) : Type 0 where
  pub chapters : Perm read.chapters saved.chapters
  pub nodes : Perm read.nodes saved.nodes
  pub edges : Perm read.edges saved.edges
  pub book : read.book ≡ unpack_book_meta (pack_book_meta saved.book)

chapters-known :
    (rev : String) (cs : List QuestChapter) → All (λ c. chapter_dto rev (chapter_row rev c) ≡ c) cs
chapters-known rev [] = tt
chapters-known rev (c ∷ cs) =
    (ap (λ t. record c { id = t }) (logical-physical rev "c" c.id), chapters-known rev cs)

and_true : (a b : Bool) → (a && b) ≡ true → (a ≡ true) × (b ≡ true)
and_true a b h = ground arith

node_restored :
    (rev : String) (ids : List String) (n : QuestNode)
    → mem (mapped_id rev "c" ids n.chapter_id) (map (physical rev "c") ids) ≡ true
    → node_dto rev (node_row rev ids n) ≡ n
node_restored rev ids n h =
    ap (λ t. record n { id = t; chapter_id = (node_dto rev (node_row rev ids n)).chapter_id })
      (logical-physical rev "n" n.id)
    ∙ ap (λ t. record n { chapter_id = t }) (mapped_id-known rev "c" n.chapter_id ids h)

edge_restored :
    (rev : String) (ids : List String) (e : QuestEdge)
    → mem (mapped_id rev "n" ids e.from_node_id) (map (physical rev "n") ids) ≡ true
    → mem (mapped_id rev "n" ids e.to_node_id) (map (physical rev "n") ids) ≡ true
    → edge_dto rev (edge_row rev ids e) ≡ e
edge_restored rev ids e h k =
    let x = edge_dto rev (edge_row rev ids e) in
    ap (λ t. record x { id = t }) (logical-physical rev "e" e.id)
    ∙ ap (λ t. record x { id = e.id; from_node_id = t })
        (mapped_id-known rev "n" e.from_node_id ids h)
    ∙ ap (λ t. record e { to_node_id = t }) (mapped_id-known rev "n" e.to_node_id ids k)

nodes-known :
    (rev : String) (ids : List String) (ns : List QuestNode)
    → nodes_fit (map (physical rev "c") ids) (map (node_row rev ids) ns) ≡ true
    → All (λ n. node_dto rev (node_row rev ids n) ≡ n) ns
unfolding nodes_fit
nodes-known rev ids [] h = tt
nodes-known rev ids (n ∷ ns) h =
    let (there, rest) = and_true _ _ h in
    (node_restored rev ids n there, nodes-known rev ids ns (and_true _ _ rest).1)

edges-known :
    (rev : String) (ids : List String) (es : List QuestEdge)
    → edges_fit (map (physical rev "n") ids) (map (edge_row rev ids) es) ≡ true
    → All (λ e. edge_dto rev (edge_row rev ids e) ≡ e) es
unfolding edges_fit
edges-known rev ids [] h = tt
edges-known rev ids (e ∷ es) h =
    let (from, rest) = and_true _ _ h in
    let (to, more) = and_true _ _ rest in
    (edge_restored rev ids e from to, edges-known rev ids es (and_true _ _ more).1)

chapter_ids :
    (rev : String) (cs : List QuestChapter)
    → map (λ (c : QuestChapter). c.id) (map (chapter_row rev) cs)
      ≡ map (physical rev "c") (map (λ (c : QuestChapter). c.id) cs)
chapter_ids rev [] = refl
chapter_ids rev (c ∷ cs) = ap (λ l. physical rev "c" c.id ∷ l) (chapter_ids rev cs)

row_ids :
    (rev : String) (ids : List String) (ns : List QuestNode)
    → map (λ (n : QuestNode). n.id) (map (node_row rev ids) ns)
      ≡ map (physical rev "n") (map (λ (n : QuestNode). n.id) ns)
row_ids rev ids [] = refl
row_ids rev ids (n ∷ ns) = ap (λ l. physical rev "n" n.id ∷ l) (row_ids rev ids ns)

-- A revision that the constraints accept is read as the draft that it was made of.
pub quest_draft-Restores :
    (rev : String) (number at : ℕ) (d : QuestDraft)
    → rows_fit (revision_of rev number at (pack_book_meta d.book) d) ≡ true
    → Restores d (quest_draft (listed (revision_of rev number at (pack_book_meta d.book) d)))
unfolding quest_draft listed revision_of
quest_draft-Restores rev number at d h =
    let ids = map (λ (c : QuestChapter). c.id) d.chapters in
    let names = map (λ (n : QuestNode). n.id) d.nodes in
    let chapters = map (chapter_row rev) d.chapters in
    let nodes = map (node_row rev ids) d.nodes in
    let edges = map (edge_row rev names) d.edges in
    let known = nodes_fit (map (λ (c : QuestChapter). c.id) chapters) nodes in
    let linked = edges_fit (map (λ (n : QuestNode). n.id) nodes) edges in
    let rest = (and_true (chapters_fit chapters) (known && linked) h).1 in
    let ns : nodes_fit (map (physical rev "c") ids) nodes ≡ true =
      subst (λ l. nodes_fit l nodes ≡ true) (chapter_ids rev d.chapters)
        (and_true known linked rest).0 in
    let es : edges_fit (map (physical rev "n") names) edges ≡ true =
      subst (λ l. edges_fit l edges ≡ true) (row_ids rev ids d.nodes)
        (and_true known linked rest).1 in
    record {
      chapters =
          Perm-shown chapter_before (chapter_row rev) (chapter_dto rev) d.chapters
            (chapters-known rev d.chapters);
      nodes =
          Perm-shown node_before (node_row rev ids) (node_dto rev) d.nodes
            (nodes-known rev ids d.nodes ns);
      edges =
          Perm-shown edge_before (edge_row rev names) (edge_dto rev) d.edges
            (edges-known rev names d.edges es);
      book = refl;
    }

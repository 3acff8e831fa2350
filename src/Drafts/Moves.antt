-- ===== src/Drafts/Moves.antt =====
-- How a transaction of apps/server/internal/store/content_repo.go may change the documents.
use m_pack_station.Base.{
  ℕ, String, List, none, some, ◌∷◌, true, false, [], suc, length, All, ◌≡◌, refl, Bool-cases, inl,
  inr, subst,
}
use m_pack_station.Drafts.Model.{Revision, Document}
use m_pack_station.Drafts.Store.{
  find_revision, has_revision, append_revision, change_document, document_taken, find_document,
  is_document, revision_taken,
}
use m_pack_station.Drafts.Changes.{is_draft, activated}
use m_pack_station.Drafts.Rows.{Holds, accepted, cleared}
use m_pack_station.Drafts.Invariant.{DocumentInv, DocumentInv-append, DocumentInv-activated}

-- A revision in front, and what becomes of the time of the last update.
abbrev pub appended : Revision → (ℕ → ℕ) → Document → Document
appended r stamp d = record d { revisions = r ∷ d.revisions; updated_at = stamp d.updated_at }

pub data Moves (ds : List Document) : List Document → Type 0 where
  stays : Moves ds ds
  creates :
      (d : Document) (r : Revision)
      → document_taken d ds ≡ false
      → revision_taken r.id ds ≡ false
      → d.active ≡ none
      → r.number ≡ 1
      → is_draft r.state ≡ true
      → accepted d.kind r ≡ true
      → Moves ds (record d { revisions = r ∷ [] } ∷ ds)
  appends :
      (pack id : String) (d : Document) (r : Revision) (stamp : ℕ → ℕ)
      → find_document pack id ds ≡ some d
      → revision_taken r.id ds ≡ false
      → r.number ≡ suc (length d.revisions)
      → is_draft r.state ≡ true
      → accepted d.kind r ≡ true
      → Moves ds (change_document pack id (appended r stamp) ds)
  activates :
      (pack id rev : String) (at : ℕ) (d : Document) (r : Revision)
      → find_document pack id ds ≡ some d
      → find_revision rev d.revisions ≡ some r
      → is_draft r.state ≡ true
      → Holds (cleared rev d.kind) d.revisions
      → Moves ds (change_document pack id (activated rev at) ds)

-- A change of the document that was found.
module _ (P : Document → Type 0) (pack id : String) (f : Document → Document) where
  All-change_document :
      (ds : List Document) {d : Document}
      → find_document pack id ds ≡ some d
      → P (f d)
      → All P ds
      → All P (change_document pack id f ds)
  unfolding find_document change_document
  All-change_document [] e h k = absurd (cc)
  All-change_document (x ∷ xs) {d = d} e h k = elim (Bool-cases (is_document pack id x)) [
    | inl b ↦ let same : x ≡ d = cc (rw b at e) in rw (b, same) (h, k.1)
    | inr b ↦ rw b (k.0, All-change_document xs (rw b at e) h k.1)
  ]

pub All-find_document :
    (P : Document → Type 0) (pack id : String) (ds : List Document) {d : Document}
    → All P ds
    → find_document pack id ds ≡ some d
    → P d
unfolding find_document
All-find_document P pack id [] h e = absurd (cc)
All-find_document P pack id (x ∷ xs) {d = d} h e = elim (Bool-cases (is_document pack id x)) [
  | inl b ↦ let same : x ≡ d = cc (rw b at e) in subst P same h.0
  | inr b ↦ All-find_document P pack id xs h.1 (rw b at e)
]

pub find_document-not_taken :
    (pack id rev : String) (ds : List Document) {d : Document}
    → find_document pack id ds ≡ some d
    → revision_taken rev ds ≡ false
    → has_revision rev d.revisions ≡ false
unfolding find_document revision_taken
find_document-not_taken pack id rev [] e h = absurd (cc)
find_document-not_taken pack id rev (x ∷ xs) {d = d} e h =
    elim (Bool-cases (has_revision rev x.revisions)) [
      | inl k ↦ let bad : true ≡ false = rw k at h in absurd (cc)
      | inr k ↦ elim (Bool-cases (is_document pack id x)) [
        | inl b ↦
            let same : x ≡ d = cc (rw b at e) in
            subst (λ (y : Document). has_revision rev y.revisions ≡ false) same k
        | inr b ↦ find_document-not_taken pack id rev xs (rw b at e) (rw k at h)
      ]
    ]

-- Moves keep the invariant of every document.
pub Moves-DocumentInv :
    {ds ds' : List Document} → Moves ds ds' → All DocumentInv ds → All DocumentInv ds'
Moves-DocumentInv stays v = v
Moves-DocumentInv (creates d r free fresh a n e k) v = (
  DocumentInv-append r (record d { revisions = [] })
      (record {
        numbered = tt;
        distinct = tt;
        only_active = tt;
        has_active = rw a refl;
        all_accepted = tt;
        all_checked = tt;
      })
      n refl e k,
  v,
)
Moves-DocumentInv {ds = ds} (appends pack id d r stamp found fresh n e k) v =
    All-change_document DocumentInv pack id (appended r stamp) ds found
      (restamped (append_revision r d) (stamp d.updated_at) (
        DocumentInv-append r d (All-find_document DocumentInv pack id ds v found) n
          (find_document-not_taken pack id r.id ds found fresh) e k))
      v
  where
    restamped : (x : Document) (u : ℕ) → DocumentInv x → DocumentInv (record x { updated_at = u })
    restamped x u w = record {
      numbered = w.numbered;
      distinct = w.distinct;
      only_active = w.only_active;
      has_active = w.has_active;
      all_accepted = w.all_accepted;
      all_checked = w.all_checked;
    }
Moves-DocumentInv {ds = ds} (activates pack id rev at d r found e h c) v =
    All-change_document DocumentInv pack id (activated rev at) ds found
      (DocumentInv-activated rev at d (All-find_document DocumentInv pack id ds v found) e h c) v

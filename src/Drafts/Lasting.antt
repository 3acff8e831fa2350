-- ===== src/Drafts/Lasting.antt =====
-- The revisions of apps/server/internal/service/content.go are append-only.
use m_pack_station.Base.{
  ℕ, String, List, some, ◌∷◌, [], ◌≡◌, refl, Bool-cases, inl, inr, str_eq, ◌++◌, map, ◌∙◌, ap, sym,
  ◌&&◌,
}
use m_pack_station.Drafts.Model.{Revision, Document, draft}
use m_pack_station.Drafts.Store.{find_document}
use m_pack_station.Drafts.Changes.{is_applied, is_draft, activated}
use m_pack_station.Drafts.Rows.{after_apply, apply_rows-map}
use m_pack_station.Drafts.Growth.{Grows, same, grew, flipped, Found, find_document-Moves}
use m_pack_station.Drafts.Histories.{
  ContentCall, run_content, no_content, run_content-ProgressInv, no_content-ProgressInv,
  content_step-Moves, Progress, ProgressInv, content_step, content_step-ProgressInv,
}

-- A revision without its state, which alone may change.
abbrev pub frozen : Revision → Revision
frozen r = record r { state = draft }

-- The document is there, with the header's fixed fields and the revisions it had, behind new ones.
pub record Lasts (pack id : String) (d : Document) (ds : List Document) : Type 0 where
  pub document : Document
  pub found : find_document pack id ds ≡ some document
  pub kind : document.kind ≡ d.kind
  pub slug : document.slug ≡ d.slug
  pub added : List Revision
  pub rows : map frozen document.revisions ≡ added ++ map frozen d.revisions

after_apply-frozen : (id : String) (r : Revision) → frozen (after_apply id r) ≡ frozen r
after_apply-frozen id r = elim (Bool-cases (str_eq r.id id && is_draft r.state)) [
  | inl e ↦ rw e refl
  | inr e ↦ elim (Bool-cases (is_applied r.state)) [
    | inl b ↦ rw (e, b) refl
    | inr b ↦ rw (e, b) refl
  ]
]

map-frozen :
    (id : String) (rs : List Revision) → map frozen (map (after_apply id) rs) ≡ map frozen rs
map-frozen id [] = refl
map-frozen id (r ∷ rs) = rw (after_apply-frozen id r, map-frozen id rs) refl

append_assoc : (xs ys zs : List Revision) → (xs ++ ys) ++ zs ≡ xs ++ (ys ++ zs)
append_assoc [] ys zs = refl
append_assoc (x ∷ xs) ys zs = ap (λ l. x ∷ l) (append_assoc xs ys zs)

flipped-Lasts :
    (pack id rev : String) (at : ℕ) {d : Document} {ds : List Document}
    → find_document pack id ds ≡ some (activated rev at d)
    → Lasts pack id d ds
unfolding activated
flipped-Lasts pack id rev at {d = d} h = record {
  document = activated rev at d;
  found = h;
  kind = refl;
  slug = refl;
  added = [];
  rows = rw apply_rows-map (map-frozen rev d.revisions);
}

Found-Lasts :
    (pack id : String) {d : Document} {ds : List Document} → Found pack id d ds → Lasts pack id d ds
Found-Lasts pack id {d = d} {ds = ds} x = go x.grows x.found
  where
    go : {e : Document} → Grows d e → find_document pack id ds ≡ some e → Lasts pack id d ds
    go same h = record {
      document = d;
      found = h;
      kind = refl;
      slug = refl;
      added = [];
      rows = refl;
    }
    go (grew r stamp fresh) h = record {
      document = _;
      found = h;
      kind = refl;
      slug = refl;
      added = frozen r ∷ [];
      rows = refl;
    }
    go (flipped rev at) h = flipped-Lasts pack id rev at h

Lasts-trans :
    (pack id : String) {d : Document} {ds ds' : List Document} (x : Lasts pack id d ds)
    → Lasts pack id x.document ds'
    → Lasts pack id d ds'
Lasts-trans pack id {d = d} x y = record {
  document = y.document;
  found = y.found;
  kind = y.kind ∙ x.kind;
  slug = y.slug ∙ x.slug;
  added = y.added ++ x.added;
  rows =
      y.rows
      ∙ ap (λ l. y.added ++ l) x.rows
      ∙ sym (append_assoc y.added x.added (map frozen d.revisions));
}

run_content-Lasts :
    (pack id : String) (ys : List ContentCall) (p : Progress) {d : Document}
    → ProgressInv p
    → find_document pack id p.store.documents ≡ some d
    → Lasts pack id d (run_content ys p).store.documents
unfolding run_content
run_content-Lasts pack id [] p {d = d} v h = record {
  document = d;
  found = h;
  kind = refl;
  slug = refl;
  added = [];
  rows = refl;
}
run_content-Lasts pack id (y ∷ ys) p v h =
    let step = Found-Lasts pack id (find_document-Moves pack id (content_step-Moves y p v) h) in
    Lasts-trans pack id step
      (run_content-Lasts pack id ys (content_step y p) (content_step-ProgressInv y p v) step.found)

-- Whatever calls follow, a document that is there stays, with its kind and its slug, and keeps all
-- its revisions in their order: their ids, numbers, payloads, sources and times never change, and
-- later revisions stand in front of them.
pub history-Lasts :
    (xs ys : List ContentCall) (pack id : String) {d : Document}
    → find_document pack id (run_content xs no_content).store.documents ≡ some d
    → Lasts pack id d (run_content ys (run_content xs no_content)).store.documents
history-Lasts xs ys pack id h =
    run_content-Lasts pack id ys (run_content xs no_content)
      (run_content-ProgressInv xs no_content no_content-ProgressInv) h

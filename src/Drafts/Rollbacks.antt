-- ===== src/Drafts/Rollbacks.antt =====
-- RollbackContent of apps/server/internal/service/content.go, and what is read after it.
use m_pack_station.Base.{
  ℕ, String, some, ◌∷◌, ◌≡◌, refl, Bool-cases, inl, inr, ap, All, suc, Option-cases, length,
}
use m_pack_station.Drafts.Model.{
  Revision, Document, draft, ContentStore, Surroundings, Reply, gives, refuses,
}
use m_pack_station.Drafts.Store.{
  find_document, find_revision, revision_taken, max_revision, change_document, append_revision,
  evidence,
}
use m_pack_station.Drafts.Changes.{rollback_in_document, rollback_content_tx}
use m_pack_station.Drafts.Service.{get_content_document, taking, new_revision, new_id}
use m_pack_station.Drafts.Review.{rollback_content, rolled_back}
use m_pack_station.Drafts.Rows.{max_revision-Numbered}
use m_pack_station.Drafts.Invariant.{DocumentInv}
use m_pack_station.Drafts.Moves.{appended, All-find_document}
use m_pack_station.Drafts.Transactions.{find_document_self}
use m_pack_station.Drafts.Reading.{get-appended, answer_subst}

-- A rollback to a revision: the document as it was before, the revision gone back to, and the new
-- draft, which is what is read afterwards.
pub record RollsBack (pack id target : String) (s s' : ContentStore) (r : Revision) : Type 0 where
  pub document : Document
  pub old : Revision
  pub found : find_document pack id s.documents ≡ some document
  pub row : find_revision target document.revisions ≡ some old
  pub payload : r.payload ≡ old.payload
  pub source : r.source ≡ some target
  pub state : r.state ≡ draft
  pub number : r.number ≡ suc (length document.revisions)
  pub read : get_content_document pack id s' ≡ some (appended r (λ u. u) document, r)

rolled_back-gives :
    (o : ContentStore × Reply Revision) {s' : ContentStore} {r : Revision}
    → rolled_back o ≡ (s', gives r)
    → o ≡ (s', gives r)
rolled_back-gives (s, gives x) h = h
rolled_back-gives (s, refuses e) h = absurd (cc)

-- The draft that a rollback inserts, and the tables after it.
abbrev rollback_revision : Document → String → Revision → Revision → Revision
rollback_revision d target old x = record x {
  number = suc (max_revision d.revisions);
  payload = old.payload;
  state = draft;
  source = some target;
}

abbrev after_rollback :
    String → Document → String → Revision → Revision → ContentStore → ContentStore
after_rollback pack d target old x s = record s {
  documents =
      change_document pack d.id (append_revision (rollback_revision d target old x)) s.documents;
  evidence = evidence pack "content.rollback" x.id x.created_at ∷ s.evidence;
}

rollback_in_document-RollsBack :
    (pack id target : String) (x : Revision) (s : ContentStore) {d : Document} {s' : ContentStore}
    {r : Revision}
    → find_document pack id s.documents ≡ some d
    → DocumentInv d
    → rollback_in_document pack d target x s ≡ (s', gives r)
    → RollsBack pack id target s s' r
unfolding rollback_in_document
rollback_in_document-RollsBack pack id target x s {d = d} {s' = s'} {r = r} found v h =
    elim (Option-cases (find_revision target d.revisions)) [
      | inl a ↦ absurd (cc (rw (a, rollback_in_document) at h))
      | inr (old, a) ↦ elim (Bool-cases (revision_taken x.id s.documents)) [
        | inl b ↦ absurd (cc (rw (a, rollback_in_document, b) at h))
        | inr b ↦
            answer_subst (RollsBack pack id target s) (after_rollback pack d target old x s)
              (rollback_revision d target old x) (rw (a, rollback_in_document, b) at h)
              (record {
                document = d;
                old = old;
                found = found;
                row = a;
                payload = refl;
                source = refl;
                state = refl;
                number = ap suc (max_revision-Numbered d.revisions v.numbered);
                read =
                    get-appended pack id (rollback_revision d target old x) (λ u. u) s
                      (after_rollback pack d target old x s) found v
                      (ap suc (max_revision-Numbered d.revisions v.numbered))
                      (rw (find_document_self pack id s.documents found) refl);
              })
      ]
    ]

rollback_content_tx-RollsBack :
    (pack id target : String) (x : Revision) (s : ContentStore) {s' : ContentStore} {r : Revision}
    → All DocumentInv s.documents
    → rollback_content_tx pack id target x s ≡ (s', gives r)
    → RollsBack pack id target s s' r
unfolding rollback_content_tx
rollback_content_tx-RollsBack pack id target x s v h =
    elim (Option-cases (find_document pack id s.documents)) [
      | inl e ↦ absurd (cc (rw (e, rollback_content_tx) at h))
      | inr (d, e) ↦
          rollback_in_document-RollsBack pack id target x s e
            (All-find_document DocumentInv pack id s.documents v e)
            (rw (e, rollback_content_tx) at h)
    ]

-- A rollback that succeeds leaves the document's header as it was, its active revision too, and puts
-- a new draft in front: numbered next, with the payload of the revision gone back to, whose id it
-- names as its source. The draft is what is read afterwards.
pub rollback_content-RollsBack :
    (w : Surroundings) (now : ℕ) (pack id target : String) (s : ContentStore) {s' : ContentStore}
    {r : Revision}
    → All DocumentInv s.documents
    → rollback_content w now pack id target s ≡ (s', gives r)
    → RollsBack pack id target s s' r
unfolding rollback_content
rollback_content-RollsBack w now pack id target s {s' = s'} {r = r} v h =
    elim (Option-cases (get_content_document pack id s)) [
      | inl e ↦ absurd (cc (rw (e, rollback_content) at h))
      | inr ((d, latest), e) ↦
          let k : rolled_back (
                rollback_content_tx pack id target
                  (new_revision (new_id "content-revision" w s.generated) latest.payload now)
                  (taking (suc s.generated) s))
              ≡ (s', gives r) =
            rw (e, rollback_content) at h in
          restored (
            rollback_content_tx-RollsBack pack id target
              (new_revision (new_id "content-revision" w s.generated) latest.payload now)
              (taking (suc s.generated) s) v (rolled_back-gives _ k))
    ]
  where
    restored :
        {t : ContentStore} {y : Revision}
        → RollsBack pack id target (taking (suc s.generated) s) t y
        → RollsBack pack id target s t y
    restored x = record {
      document = x.document;
      old = x.old;
      found = x.found;
      row = x.row;
      payload = x.payload;
      source = x.source;
      state = x.state;
      number = x.number;
      read = x.read;
    }

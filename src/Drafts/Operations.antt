-- ===== src/Drafts/Operations.antt =====
-- The moves of SaveContentDraft, ValidateContent, ApplyContent and RollbackContent of
-- apps/server/internal/service/content.go.
use m_pack_station.Base.{
  ℕ, String, some, true, suc, All, ◌≡◌, refl, Bool-cases, Option-cases, inl, inr, ap, subst,
}
use m_pack_station.Base.Int.{ℤ}
use m_pack_station.Drafts.Payload.{Raw, canonical_content_payload}
use m_pack_station.Drafts.Model.{
  Revision, Document, ContentStore, Surroundings, draft, ValidationRun,
}
use m_pack_station.Drafts.Store.{
  find_document, find_revision, revision_taken, max_revision, validate_content_revision,
  has_revision,
}
use m_pack_station.Drafts.Changes.{
  rollback_in_document, rollback_content_tx, apply_in_document, apply_content_tx, is_draft,
}
use m_pack_station.Drafts.Service.{
  taking, save_content_draft, get_content_document, new_revision, new_id,
}
use m_pack_station.Drafts.Review.{
  finish_apply, rollback_content, validate_revision, validate_content, validated_revision,
}
use m_pack_station.Drafts.Rows.{Holds, accepted, max_revision-Numbered, find_revision-All, cleared}
use m_pack_station.Drafts.Invariant.{DocumentInv}
use m_pack_station.Drafts.Moves.{Moves, stays, appends, activates, All-find_document}
use m_pack_station.Drafts.Cleared.{ClearedAt}
use m_pack_station.Drafts.Transactions.{
  save_payload-Moves, get_content_document-found, canonical-is_payload, find_document_self,
  rolled_back-store, recorded-store, promoted-store,
}

pub save_content_draft-Moves :
    (w : Surroundings) (now : ℕ) (pack id : String) (if_match : ℤ) (raw : Raw) (s : ContentStore)
    → All DocumentInv s.documents
    → Moves s.documents (save_content_draft w now pack id if_match raw s).0.documents
unfolding save_content_draft
save_content_draft-Moves w now pack id if_match raw s v =
    elim (Option-cases (get_content_document pack id s)) [
      | inl e ↦ rw (e, save_content_draft) stays
      | inr ((d, latest), e) ↦ elim (Option-cases (canonical_content_payload d.kind raw)) [
        | inl b ↦ rw (e, save_content_draft, b) stays
        | inr (payload, b) ↦
            let (found, last) = get_content_document-found pack id s e in
            rw (e, save_content_draft, b)
              (save_payload-Moves w now pack id if_match payload s found
                (All-find_document DocumentInv pack id s.documents v found)
                (canonical-is_payload d.kind raw b))
      ]
    ]

rollback_in_document-Moves :
    (pack id : String) (d : Document) (target : String) (r : Revision) (s : ContentStore)
    → find_document pack id s.documents ≡ some d
    → DocumentInv d
    → Moves s.documents (rollback_in_document pack d target r s).0.documents
unfolding rollback_in_document
rollback_in_document-Moves pack id d target r s found v =
    elim (Option-cases (find_revision target d.revisions)) [
      | inl a ↦ rw (a, rollback_in_document) stays
      | inr (old, a) ↦ elim (Bool-cases (revision_taken r.id s.documents)) [
        | inl b ↦ rw (a, rollback_in_document, b) stays
        | inr b ↦
            rw (a, rollback_in_document, b, find_document_self pack id s.documents found)
              (appends pack id d
                (record r {
                  number = suc (max_revision d.revisions);
                  payload = old.payload;
                  state = draft;
                  source = some target;
                })
                (λ u. u) found b (ap suc (max_revision-Numbered d.revisions v.numbered)) refl
                (find_revision-All (λ x. accepted d.kind x ≡ true) target d.revisions v.all_accepted
                  a))
      ]
    ]

rollback_content_tx-Moves :
    (pack id target : String) (r : Revision) (s : ContentStore)
    → All DocumentInv s.documents
    → Moves s.documents (rollback_content_tx pack id target r s).0.documents
unfolding rollback_content_tx
rollback_content_tx-Moves pack id target r s v =
    elim (Option-cases (find_document pack id s.documents)) [
      | inl e ↦ rw (e, rollback_content_tx) stays
      | inr (d, e) ↦
          rw (e, rollback_content_tx)
            (rollback_in_document-Moves pack id d target r s e
              (All-find_document DocumentInv pack id s.documents v e))
    ]

pub rollback_content-Moves :
    (w : Surroundings) (now : ℕ) (pack id target : String) (s : ContentStore)
    → All DocumentInv s.documents
    → Moves s.documents (rollback_content w now pack id target s).0.documents
unfolding rollback_content
rollback_content-Moves w now pack id target s v =
    elim (Option-cases (get_content_document pack id s)) [
      | inl e ↦ rw (e, rollback_content) stays
      | inr ((d, latest), e) ↦
          rw (e, rollback_content, rolled_back-store)
            (rollback_content_tx-Moves pack id target
              (new_revision (new_id "content-revision" w s.generated) latest.payload now)
              (taking (suc s.generated) s) v)
    ]

validate_content_revision-documents :
    (pack id : String) (v : ValidationRun) (s : ContentStore)
    → (validate_content_revision pack id v s).0.documents ≡ s.documents
unfolding validate_content_revision
validate_content_revision-documents pack id v s =
    elim (Option-cases (find_document pack id s.documents)) [
      | inl e ↦ rw (e, validate_content_revision) refl
      | inr (d, e) ↦ elim (Bool-cases (has_revision v.revision_id d.revisions)) [
        | inl b ↦ rw (e, validate_content_revision, b) refl
        | inr b ↦ rw (e, validate_content_revision, b) refl
      ]
    ]

validate_revision-documents :
    (w : Surroundings) (now : ℕ) (pack id kind : String) (r : Revision) (s : ContentStore)
    → (validate_revision w now pack id kind r s).0.documents ≡ s.documents
unfolding validate_revision
validate_revision-documents w now pack id kind r s =
    rw recorded-store (validate_content_revision-documents pack id _ (taking (suc s.generated) s))

pub validate_content-documents :
    (w : Surroundings) (now : ℕ) (pack id rev : String) (s : ContentStore)
    → (validate_content w now pack id rev s).0.documents ≡ s.documents
unfolding validate_content
validate_content-documents w now pack id rev s =
    elim (Option-cases (get_content_document pack id s)) [
      | inl e ↦ rw (e, validate_content) refl
      | inr ((d, latest), e) ↦ elim (Option-cases (validated_revision pack id rev latest s)) [
        | inl b ↦ rw (e, validate_content, b) refl
        | inr (r, b) ↦
            rw (e, validate_content, b) (validate_revision-documents w now pack id d.kind r s)
      ]
    ]

apply_in_document-Moves :
    (pack id : String) (d : Document) (rev : String) (at : ℕ) (s : ContentStore)
    → find_document pack id s.documents ≡ some d
    → ClearedAt pack id rev s.documents
    → Moves s.documents (apply_in_document pack d rev at s).0.documents
unfolding apply_in_document
apply_in_document-Moves pack id d rev at s found c =
    elim (Option-cases (find_revision rev d.revisions)) [
      | inl a ↦ rw (a, apply_in_document) stays
      | inr (r, a) ↦ elim (Bool-cases (is_draft r.state)) [
        | inr b ↦ rw (a, apply_in_document, b) stays
        | inl b ↦
            let here : c.document ≡ d = let k = c.found in cc in
            rw (a, apply_in_document, b, find_document_self pack id s.documents found)
              (activates pack id rev at d r found a b
                (subst (λ (x : Document). Holds (cleared rev x.kind) x.revisions) here c.clear))
      ]
    ]

apply_content_tx-Moves :
    (pack id rev : String) (at : ℕ) (s : ContentStore)
    → ClearedAt pack id rev s.documents
    → Moves s.documents (apply_content_tx pack id rev at s).0.documents
unfolding apply_content_tx
apply_content_tx-Moves pack id rev at s c =
    rw (c.found, apply_content_tx) (apply_in_document-Moves pack id c.document rev at s c.found c)

pub finish_apply-Moves :
    (now : ℕ) (pack id : String) (target : Revision) (s : ContentStore)
    → ClearedAt pack id target.id s.documents
    → Moves s.documents (finish_apply now pack id target s).0.documents
unfolding finish_apply
finish_apply-Moves now pack id target s c =
    rw promoted-store (apply_content_tx-Moves pack id target.id now s c)

-- ===== src/Drafts/Resaves.antt =====
-- SaveContentDraft of apps/server/internal/service/content.go: repeated saves and stale ones.
use m_pack_station.Base.{
  ℕ, String, some, ◌≡◌, refl, true, false, ap, All, suc, ◌==◌, ◌∙◌, sym, subst, arith, ◌≢◌,
}
use m_pack_station.Base.Int.{ℤ, pos}
use m_pack_station.Drafts.Json.{Json, json_eq}
use m_pack_station.Drafts.Payload.{Raw, canonical_content_payload}
use m_pack_station.Drafts.Model.{
  Revision, Document, ContentStore, Surroundings, gives, refuses, revision_conflict, conflict,
}
use m_pack_station.Drafts.Store.{latest_revision, save_in_document}
use m_pack_station.Drafts.Service.{
  get_content_document, taking, new_revision, new_id, saved, save_payload, save_content_draft,
  get_content,
}
use m_pack_station.Drafts.Invariant.{DocumentInv}
use m_pack_station.Drafts.Transactions.{get_content_document-found}
use m_pack_station.Drafts.Saves.{Saves, save_content_draft_tx-found, save_content_draft-Saves}

number_eq_of : (m n : ℕ) → m ≡ n → (m == n) ≡ true
number_eq_of m n h = ground arith

save_in_document-stored :
    (pack : String) (d : Document) (n : ℕ) (x : Revision) (s : ContentStore) {r : Revision}
    → latest_revision d.revisions ≡ some r
    → r.number ≡ n
    → json_eq r.payload x.payload ≡ true
    → save_in_document pack d n x s ≡ (s, gives r)
unfolding save_in_document
save_in_document-stored pack d n x s {r = r} a b c =
    rw (a, save_in_document, number_eq_of r.number n b, c) refl

-- A save of the payload that is stored already.
save_payload-stored :
    (w : Surroundings) (now : ℕ) (pack id : String) (n : ℕ) (payload : Json) (s : ContentStore)
    {d : Document} {r : Revision}
    → get_content_document pack id s ≡ some (d, r)
    → r.number ≡ suc n
    → json_eq r.payload payload ≡ true
    → save_payload w now pack id (pos (suc n)) payload s ≡ (taking (suc s.generated) s, gives r)
unfolding save_payload
save_payload-stored w now pack id n payload s {d = d} e b c =
    let t = taking (suc s.generated) s in
    let x = new_revision (new_id "content-revision" w s.generated) payload now in
    let (found, last) = get_content_document-found pack id s e in
    ap saved (
      save_content_draft_tx-found pack id (suc n) x t found
      ∙ save_in_document-stored pack d (suc n) x t last b c)

save_again :
    (w : Surroundings) (now : ℕ) (pack id : String) (raw : Raw) (s : ContentStore) {r : Revision}
    {kind : String} {payload : Json}
    → canonical_content_payload kind raw ≡ some payload
    → Saves pack id kind payload s r
    → save_content_draft w now pack id (pos r.number) raw s ≡ (taking (suc s.generated) s, gives r)
unfolding save_content_draft
save_again w now pack id raw s {r = r} {payload = payload} c x =
    let fits : canonical_content_payload x.document.kind raw ≡ some payload = rw x.kind_kept c in
    let stored = save_payload-stored w now pack id x.before payload s x.read x.number x.stored in
    rw (x.read, save_content_draft, fits)
      (subst
        (λ k. save_payload w now pack id (pos k) payload s ≡ (taking (suc s.generated) s, gives r))
        (sym x.number) stored)

-- A draft that was saved is the latest revision that is read. Saving the same payload again, at the
-- number that the first save returned, changes nothing but the count of ids taken, and returns the
-- same revision.
pub save_content_draft-again :
    (w w' : Surroundings) (now now' : ℕ) (pack id : String) (if_match : ℤ) (raw : Raw)
    (s : ContentStore) {s' : ContentStore} {r : Revision}
    → All DocumentInv s.documents
    → save_content_draft w now pack id if_match raw s ≡ (s', gives r)
    → ((d : Document) × (get_content pack id s' ≡ gives (d, r)))
      × (save_content_draft w' now' pack id (pos r.number) raw s'
          ≡ (taking (suc s'.generated) s', gives r))
unfolding get_content
save_content_draft-again w w' now now' pack id if_match raw s {s' = s'} v h =
    let (kind, payload, c, x) = save_content_draft-Saves w now pack id if_match raw s v h in
    ((x.document, rw (x.read, get_content) refl), save_again w' now' pack id raw s' c x)

save_in_document-stale :
    (pack : String) (d : Document) (n : ℕ) (x : Revision) (s : ContentStore) {latest : Revision}
    → latest_revision d.revisions ≡ some latest
    → (latest.number == n) ≡ false
    → save_in_document pack d n x s ≡ (s, refuses conflict)
unfolding save_in_document
save_in_document-stale pack d n x s a b = rw (a, save_in_document, b) refl

-- A save at a number that is not the latest revision's is refused with a revision conflict, whatever
-- payload it brings that the kind allows, and changes nothing but the count of ids taken.
pub save_content_draft-stale :
    (w : Surroundings) (now : ℕ) (pack id : String) (n : ℕ) (raw : Raw) (s : ContentStore)
    {d : Document} {latest : Revision} {payload : Json}
    → get_content_document pack id s ≡ some (d, latest)
    → canonical_content_payload d.kind raw ≡ some payload
    → latest.number ≢ suc n
    → save_content_draft w now pack id (pos (suc n)) raw s
      ≡ (taking (suc s.generated) s, refuses revision_conflict)
unfolding save_content_draft save_payload
save_content_draft-stale w now pack id n raw s {d = d} {latest = latest} {payload = payload} e c
      ne =
    let t = taking (suc s.generated) s in
    let x = new_revision (new_id "content-revision" w s.generated) payload now in
    let (found, last) = get_content_document-found pack id s e in
    rw (e, save_content_draft, c)
      (ap saved (
        save_content_draft_tx-found pack id (suc n) x t found
        ∙ save_in_document-stale pack d (suc n) x t last (differ latest.number (suc n) ne)))
  where
    differ : (m k : ℕ) → m ≢ k → (m == k) ≡ false
    differ m k h = ground arith

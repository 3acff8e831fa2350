-- ===== src/Drafts/Saves.antt =====
-- SaveContentDraft of apps/server/internal/service/content.go: repeated saves and stale ones.
use m_pack_station.Base.{
  ℕ, String, some, ◌∷◌, ◌≡◌, refl, true, Bool-cases, inl, inr, ap, All, suc, Option-cases, zero,
  ◌==◌, ◌∙◌, sym, arith,
}
use m_pack_station.Base.Int.{ℤ, pos, negsuc}
use m_pack_station.Drafts.Json.{Json, json_eq}
use m_pack_station.Drafts.Payload.{Raw, canonical_content_payload}
use m_pack_station.Drafts.Model.{
  Revision, Document, draft, ContentStore, Surroundings, Reply, gives, refuses,
}
use m_pack_station.Drafts.Store.{
  find_document, revision_taken, save_in_document, save_content_draft_tx, change_document, touched,
  append_revision, evidence,
}
use m_pack_station.Drafts.Service.{
  get_content_document, taking, new_revision, new_id, saved, save_payload, save_content_draft,
}
use m_pack_station.Drafts.Invariant.{DocumentInv}
use m_pack_station.Drafts.Moves.{appended, All-find_document}
use m_pack_station.Drafts.Transactions.{
  get_content_document-found, find_document_self, latest-number,
}
use m_pack_station.Drafts.Reading.{get-appended, json_eq_refl, answer_subst}

-- A saved payload is what is read.
pub record Saves (pack id kind : String) (payload : Json) (s' : ContentStore) (r : Revision)
    : Type 0 where
  pub document : Document
  pub kind_kept : document.kind ≡ kind
  pub read : get_content_document pack id s' ≡ some (document, r)
  pub stored : json_eq r.payload payload ≡ true
  pub before : ℕ
  pub number : r.number ≡ suc before

number_of_eq : (m n : ℕ) → (m == n) ≡ true → m ≡ n
number_of_eq m n h = ground arith

-- The draft that a save inserts, and the tables after it.
abbrev saved_revision : Revision → Revision → Revision
saved_revision latest x = record x { number = suc latest.number; state = draft }

abbrev after_save : String → Document → Revision → Revision → ContentStore → ContentStore
after_save pack d latest x s = record s {
  documents =
      change_document pack d.id
        (λ y. touched x.created_at (append_revision (saved_revision latest x) y)) s.documents;
  evidence = evidence pack "content.draft" d.id x.created_at ∷ s.evidence;
}

save_in_document-Saves :
    (pack id : String) (n : ℕ) (x latest : Revision) (s : ContentStore) {d : Document}
    {s' : ContentStore} {r : Revision}
    → get_content_document pack id s ≡ some (d, latest)
    → DocumentInv d
    → save_in_document pack d (suc n) x s ≡ (s', gives r)
    → Saves pack id d.kind x.payload s' r
unfolding save_in_document
save_in_document-Saves pack id n x latest s {d = d} {s' = s'} {r = r} e v h =
    let (found, a) = get_content_document-found pack id s e in
    elim (Bool-cases (latest.number == suc n)) [
      | inr b ↦ absurd (cc (rw (a, save_in_document, b) at h))
      | inl b ↦ elim (Bool-cases (json_eq latest.payload x.payload)) [
        | inl c ↦
            answer_subst (λ t y. Saves pack id d.kind x.payload t y) s latest
              (rw (a, save_in_document, b, c) at h)
              (record {
                document = d;
                kind_kept = refl;
                read = e;
                stored = c;
                before = n;
                number = number_of_eq latest.number (suc n) b;
              })
        | inr c ↦ elim (Bool-cases (revision_taken x.id s.documents)) [
          | inl t ↦ absurd (cc (rw (a, save_in_document, b, c, t) at h))
          | inr t ↦
              answer_subst (λ t y. Saves pack id d.kind x.payload t y)
                (after_save pack d latest x s) (saved_revision latest x)
                (rw (a, save_in_document, b, c, t) at h)
                (record {
                  document = appended (saved_revision latest x) (λ u. x.created_at) d;
                  kind_kept = refl;
                  read =
                      get-appended pack id (saved_revision latest x) (λ u. x.created_at) s
                        (after_save pack d latest x s) found v
                        (ap suc (latest-number d.revisions v.numbered a))
                        (rw (find_document_self pack id s.documents found) refl);
                  stored = json_eq_refl x.payload;
                  before = latest.number;
                  number = refl;
                })
        ]
      ]
    ]

saved-gives :
    (o : ContentStore × Reply Revision) {s' : ContentStore} {r : Revision}
    → saved o ≡ (s', gives r)
    → o ≡ (s', gives r)
saved-gives (s, gives x) h = h
saved-gives (s, refuses e) h = absurd (cc)

pub save_content_draft_tx-found :
    (pack id : String) (n : ℕ) (x : Revision) (s : ContentStore) {d : Document}
    → find_document pack id s.documents ≡ some d
    → save_content_draft_tx pack id n x s ≡ save_in_document pack d n x s
unfolding save_content_draft_tx
save_content_draft_tx-found pack id n x s e = rw (e, save_content_draft_tx)

get-taking :
    (pack id : String) (n : ℕ) (s : ContentStore)
    → get_content_document pack id (taking n s) ≡ get_content_document pack id s
unfolding get_content_document
get-taking pack id n s = refl

save_payload-Saves :
    (w : Surroundings) (now : ℕ) (pack id : String) (if_match : ℤ) (payload : Json)
    (s : ContentStore) {d : Document} {latest : Revision} {s' : ContentStore} {r : Revision}
    → get_content_document pack id s ≡ some (d, latest)
    → DocumentInv d
    → save_payload w now pack id if_match payload s ≡ (s', gives r)
    → Saves pack id d.kind payload s' r
unfolding save_payload
save_payload-Saves w now pack id (negsuc n) payload s e v h = absurd (cc)
save_payload-Saves w now pack id (pos zero) payload s e v h = absurd (cc)
save_payload-Saves w now pack id (pos (suc n)) payload s {latest = latest} e v h =
    let t = taking (suc s.generated) s in
    let x = new_revision (new_id "content-revision" w s.generated) payload now in
    let (found, last) = get_content_document-found pack id s e in
    save_in_document-Saves pack id n x latest t (get-taking pack id (suc s.generated) s ∙ e) v
      (sym (save_content_draft_tx-found pack id (suc n) x t found) ∙ saved-gives _ h)

pub save_content_draft-Saves :
    (w : Surroundings) (now : ℕ) (pack id : String) (if_match : ℤ) (raw : Raw) (s : ContentStore)
    {s' : ContentStore} {r : Revision}
    → All DocumentInv s.documents
    → save_content_draft w now pack id if_match raw s ≡ (s', gives r)
    → (kind : String) × (payload : Json) × (canonical_content_payload kind raw ≡ some payload)
      × Saves pack id kind payload s' r
unfolding save_content_draft
save_content_draft-Saves w now pack id if_match raw s v h =
    elim (Option-cases (get_content_document pack id s)) [
      | inl e ↦ absurd (cc (rw (e, save_content_draft) at h))
      | inr ((d, latest), e) ↦ elim (Option-cases (canonical_content_payload d.kind raw)) [
        | inl b ↦ absurd (cc (rw (e, save_content_draft, b) at h))
        | inr (payload, b) ↦
            let (found, last) = get_content_document-found pack id s e in
            (
              d.kind,
              payload,
              b,
              save_payload-Saves w now pack id if_match payload s e
                  (All-find_document DocumentInv pack id s.documents v found)
                  (rw (e, save_content_draft, b) at h),
            )
      ]
    ]

-- ===== src/Drafts/Transactions.antt =====
-- Which move of the documents each operation of apps/server/internal/service/content.go makes.
use m_pack_station.Base.{
  ℕ, String, List, Option, Bool, none, some, ◌∷◌, true, not, if◌then◌else◌, ◌||◌, false, [], suc,
  length, ◌≡◌, refl, arith, str_eq→eq, Bool-cases, Option-cases, inl, inr, ap, sym, ◌∙◌, subst,
  head?, ◌==◌, ltb, zero,
}
use m_pack_station.Base.Int.{ℤ, pos, negsuc}
use m_pack_station.Drafts.Json.{Json, json_eq}
use m_pack_station.Drafts.Payload.{Raw, canonical_content_payload, is_payload}
use m_pack_station.Drafts.Model.{
  Revision, Document, ContentStore, ContentError, Surroundings, Reply, gives, refuses,
  ValidationRun, draft,
}
use m_pack_station.Drafts.Store.{
  find_document, revision_taken, document_taken, latest_revision, create_content_document,
  save_in_document, save_content_draft_tx, is_document,
}
use m_pack_station.Drafts.Changes.{is_draft}
use m_pack_station.Drafts.Service.{
  create_content, created, CreateContentInput, fits_document, trim_space, taking, saved,
  save_payload, get_content_document, new_revision, new_id, new_document,
}
use m_pack_station.Drafts.Review.{promoted, rolled_back, recorded}
use m_pack_station.Drafts.Rows.{accepted, Numbered, latest_revision-Numbered}
use m_pack_station.Drafts.Invariant.{DocumentInv}
use m_pack_station.Drafts.Moves.{Moves, stays, creates, appends}
use m_pack_station.Drafts.Growth.{right_true}

let_pass :
    (b p : Bool) (x : Json) {v : Json}
    → (if b || not p then none else some x) ≡ some v
    → (p ≡ true) × (x ≡ v)
let_pass b true x h = (refl, let_through b x h)
  where
    let_through :
        (c : Bool) (y : Json) {z : Json} → (if c || false then none else some y) ≡ some z → y ≡ z
    let_through true y e = absurd (cc)
    let_through false y e = cc
let_pass true false x h = absurd (cc)
let_pass false false x h = absurd (cc)

pub canonical-is_payload :
    (kind : String) (raw : Raw) {v : Json}
    → canonical_content_payload kind raw ≡ some v
    → is_payload kind v ≡ true
unfolding canonical_content_payload
canonical-is_payload kind raw {v = v} h = elim (Option-cases raw.value) [
  | inl e ↦ absurd (cc (rw (e, canonical_content_payload) at h))
  | inr (x, e) ↦
      let k : (if raw.size == 0 || ltb 262144 raw.size || raw.has_more || not (is_payload kind x)
            then none
            else some x)
          ≡ some v =
        rw (e, canonical_content_payload) at h in
      let (ok, same) = let_pass _ _ x k in subst (λ y. is_payload kind y ≡ true) same ok
]

pub find_document_self :
    (pack id : String) (ds : List Document) {d : Document}
    → find_document pack id ds ≡ some d
    → d.id ≡ id
unfolding find_document
find_document_self pack id [] e = absurd (cc)
find_document_self pack id (x ∷ xs) {d = d} e = elim (Bool-cases (is_document pack id x)) [
  | inl b ↦
      let same : x ≡ d = cc (rw b at e) in
      ap (λ (y : Document). y.id) (sym same) ∙ str_eq→eq x.id id (right_true _ _ b)
  | inr b ↦ find_document_self pack id xs (rw b at e)
]

head_number :
    (rs : List Revision) {r : Revision} → Numbered rs → head? rs ≡ some r → r.number ≡ length rs
head_number [] h e = absurd (cc)
head_number (x ∷ xs) {r = r} h e =
    let same : x ≡ r = cc in ap (λ (y : Revision). y.number) (sym same) ∙ h.0

pub latest-number :
    (rs : List Revision) {r : Revision}
    → Numbered rs
    → latest_revision rs ≡ some r
    → r.number ≡ length rs
latest-number rs h e = head_number rs h (sym (latest_revision-Numbered rs h) ∙ e)

created-store :
    (d : Document) (r : Revision) (o : ContentStore × Option ContentError) → (created d r o).0 ≡ o.0
created-store d r (s, none) = refl
created-store d r (s, some e) = ground arith

saved-store : (o : ContentStore × Reply Revision) → (saved o).0 ≡ o.0
saved-store (s, gives r) = refl
saved-store (s, refuses e) = refl

pub rolled_back-store : (o : ContentStore × Reply Revision) → (rolled_back o).0 ≡ o.0
rolled_back-store (s, gives r) = refl
rolled_back-store (s, refuses e) = refl

pub recorded-store :
    (v : ValidationRun) (o : ContentStore × Option ContentError) → (recorded v o).0 ≡ o.0
recorded-store v (s, none) = refl
recorded-store v (s, some e) = refl

pub promoted-store :
    (r : Revision) (o : ContentStore × Option ContentError) → (promoted r o).0 ≡ o.0
promoted-store r (s, none) = refl
promoted-store r (s, some e) = refl

create_content_document-Moves :
    (d : Document) (r : Revision) (s : ContentStore)
    → d.active ≡ none
    → r.number ≡ 1
    → is_draft r.state ≡ true
    → accepted d.kind r ≡ true
    → Moves s.documents (create_content_document d r s).0.documents
unfolding create_content_document
create_content_document-Moves d r s a n e k = elim (Bool-cases (document_taken d s.documents)) [
  | inl b ↦ rw b stays
  | inr b ↦ elim (Bool-cases (revision_taken r.id s.documents)) [
    | inl c ↦ rw (b, c) stays
    | inr c ↦ rw (b, c) (creates d r b c a n e k)
  ]
]

pub create_content-Moves :
    (w : Surroundings) (now : ℕ) (pack : String) (x : CreateContentInput) (s : ContentStore)
    → Moves s.documents (create_content w now pack x s).0.documents
unfolding create_content
create_content-Moves w now pack x s = elim (Bool-cases (w.has_pack pack)) [
  | inr a ↦ rw a stays
  | inl a ↦
      elim (Bool-cases
        (fits_document (trim_space x.kind) (trim_space x.slug) (trim_space x.title))) [
          | inr b ↦ rw (a, b) stays
          | inl b ↦ elim (Option-cases (canonical_content_payload (trim_space x.kind) x.payload)) [
            | inl c ↦ rw (a, b, c, create_content) stays
            | inr (payload, c) ↦
                rw (a, b, c, create_content, created-store)
                  (create_content_document-Moves
                    (new_document (new_id "content" w s.generated) pack (trim_space x.kind)
                      (trim_space x.slug) (trim_space x.title) now)
                    (new_revision (new_id "content-revision" w (suc s.generated)) payload now)
                    (taking (suc (suc s.generated)) s) refl refl refl
                    (canonical-is_payload (trim_space x.kind) x.payload c))
          ]
        ]
]

-- A save in the document that was found.
save_in_document-Moves :
    (pack id : String) (d : Document) (expected : ℕ) (r : Revision) (s : ContentStore)
    → find_document pack id s.documents ≡ some d
    → DocumentInv d
    → accepted d.kind r ≡ true
    → Moves s.documents (save_in_document pack d expected r s).0.documents
unfolding save_in_document
save_in_document-Moves pack id d expected r s found v k =
    elim (Option-cases (latest_revision d.revisions)) [
      | inl a ↦ rw (a, save_in_document) stays
      | inr (latest, a) ↦ elim (Bool-cases (latest.number == expected)) [
        | inr b ↦ rw (a, save_in_document, b) stays
        | inl b ↦ elim (Bool-cases (json_eq latest.payload r.payload)) [
          | inl c ↦ rw (a, save_in_document, b, c) stays
          | inr c ↦ elim (Bool-cases (revision_taken r.id s.documents)) [
            | inl e ↦ rw (a, save_in_document, b, c, e) stays
            | inr e ↦
                rw (a, save_in_document, b, c, e, find_document_self pack id s.documents found)
                  (appends pack id d (record r { number = suc latest.number; state = draft })
                    (λ u. r.created_at) found e (ap suc (latest-number d.revisions v.numbered a))
                    refl k)
          ]
        ]
      ]
    ]

pub save_content_draft_tx-Moves :
    (pack id : String) (expected : ℕ) (r : Revision) (s : ContentStore) {d : Document}
    → find_document pack id s.documents ≡ some d
    → DocumentInv d
    → accepted d.kind r ≡ true
    → Moves s.documents (save_content_draft_tx pack id expected r s).0.documents
unfolding save_content_draft_tx
save_content_draft_tx-Moves pack id expected r s {d = d} found v k =
    rw (found, save_content_draft_tx) (save_in_document-Moves pack id d expected r s found v k)

pub save_payload-Moves :
    (w : Surroundings) (now : ℕ) (pack id : String) (if_match : ℤ) (payload : Json)
    (s : ContentStore) {d : Document}
    → find_document pack id s.documents ≡ some d
    → DocumentInv d
    → is_payload d.kind payload ≡ true
    → Moves s.documents (save_payload w now pack id if_match payload s).0.documents
unfolding save_payload
save_payload-Moves w now pack id (negsuc n) payload s found v k = stays
save_payload-Moves w now pack id (pos zero) payload s found v k = stays
save_payload-Moves w now pack id (pos (suc n)) payload s found v k = rw saved-store (
    save_content_draft_tx-Moves pack id (suc n)
      (new_revision (new_id "content-revision" w s.generated) payload now)
      (taking (suc s.generated) s) found v k)

-- The document that a call read.
pub get_content_document-found :
    (pack id : String) (s : ContentStore) {d : Document} {r : Revision}
    → get_content_document pack id s ≡ some (d, r)
    → (find_document pack id s.documents ≡ some d) × (latest_revision d.revisions ≡ some r)
unfolding get_content_document
get_content_document-found pack id s {d = d} {r = r} h =
    elim (Option-cases (find_document pack id s.documents)) [
      | inl e ↦ absurd (cc (rw (e, get_content_document) at h))
      | inr (x, e) ↦ elim (Option-cases (latest_revision x.revisions)) [
        | inl b ↦ absurd (cc (rw (e, get_content_document, b) at h))
        | inr (y, b) ↦
            let k : ◌≡◌ {A = Option (Document × Revision)} (some (x, y)) (some (d, r)) =
              rw (e, get_content_document, b) at h in
            let here : x ≡ d = cc in
            (
              e ∙ ap some here,
              subst (λ (z : Document). latest_revision z.revisions ≡ some r) here (b ∙ cc),
            )
      ]
    ]

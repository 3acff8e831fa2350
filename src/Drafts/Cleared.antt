-- ===== src/Drafts/Cleared.antt =====
-- ApplyContent of apps/server/internal/service/content.go checks a revision before its transaction:
-- what the checks found stays true whatever happens in between.
use m_pack_station.Base.{
  String, List, Bool, str_eq, some, ◌∷◌, true, if◌then◌else◌, false, [], All, All-map, ◌≡◌, refl,
  arith, str_eq→eq, eq_refl, Bool-cases, Option-cases, inl, inr, subst, map, All-sort_by, sort_by,
}
use m_pack_station.Drafts.Payload.{validate_content_semantics, is_blocking}
use m_pack_station.Drafts.Model.{Revision, Document, ContentStore, gives}
use m_pack_station.Drafts.Store.{find_document, find_revision, has_revision}
use m_pack_station.Drafts.Changes.{activated, list_content_history, earlier}
use m_pack_station.Drafts.Service.{get_content_document}
use m_pack_station.Drafts.Review.{check_apply, check_target}
use m_pack_station.Drafts.Rows.{
  Holds, cleared, after_apply, apply_rows-map, Holds-map, after_apply-id, after_apply-payload,
  Distinct-ClearedIn, find_revision-All, is_clear, ClearedIn,
}
use m_pack_station.Drafts.Invariant.{DocumentInv}
use m_pack_station.Drafts.Moves.{Moves, All-find_document}
use m_pack_station.Drafts.Growth.{Grows, same, grew, flipped, find_document-Moves}
use m_pack_station.Drafts.Transactions.{get_content_document-found}

-- The revision is there, and every row with its id is clear.
pub record ClearedAt (pack id rev : String) (ds : List Document) : Type 0 where
  pub document : Document
  pub found : find_document pack id ds ≡ some document
  pub there : has_revision rev document.revisions ≡ true
  pub clear : Holds (cleared rev document.kind) document.revisions

abbrev ClearIn : String → Document → Type 0
ClearIn rev d = (has_revision rev d.revisions ≡ true) × Holds (cleared rev d.kind) d.revisions

-- A new revision has another id.
other_id :
    (rev id : String) (rs : List Revision)
    → has_revision rev rs ≡ true
    → has_revision id rs ≡ false
    → str_eq id rev ≡ false
other_id rev id rs h k = elim (Bool-cases (str_eq id rev)) [
  | inr e ↦ e
  | inl e ↦
      let bad : has_revision rev rs ≡ false =
        subst (λ x. has_revision x rs ≡ false) (str_eq→eq id rev e) k in
      absurd (cc)
]

has_revision-map :
    (rev id : String) (rs : List Revision)
    → has_revision rev (map (after_apply id) rs) ≡ has_revision rev rs
has_revision-map rev id [] = refl
has_revision-map rev id (r ∷ rs) = rw (after_apply-id id r, has_revision-map rev id rs) refl

Grows-ClearIn : (rev : String) {d d' : Document} → Grows d d' → ClearIn rev d → ClearIn rev d'
unfolding activated
Grows-ClearIn rev same h = h
Grows-ClearIn rev {d = d} (grew r stamp fresh) h =
    let other = other_id rev r.id d.revisions h.0 fresh in
    (rw (other, h.0) refl, (rw other refl, h.1))
Grows-ClearIn rev {d = d} (flipped id at) h = (
  rw (apply_rows-map, has_revision-map rev id d.revisions) h.0,
  rw apply_rows-map (
      Holds-map (after_apply id) (cleared rev d.kind) d.revisions
        (λ r. rw (after_apply-id id r, after_apply-payload id r) refl) h.1),
)

pub Moves-ClearedAt :
    (pack id rev : String) {ds ds' : List Document}
    → Moves ds ds'
    → ClearedAt pack id rev ds
    → ClearedAt pack id rev ds'
Moves-ClearedAt pack id rev m c =
    let after = find_document-Moves pack id m c.found in
    let kept = Grows-ClearIn rev after.grows (c.there, c.clear) in
    record { document = after.document; found = after.found; there = kept.0; clear = kept.1 }

has_itself : (rs : List Revision) → All (λ (r : Revision). has_revision r.id rs ≡ true) rs
has_itself [] = tt
has_itself (x ∷ xs) = (
  rw (eq_refl x.id) refl,
  All-map _ _ xs (λ r k. rw k (either (str_eq x.id r.id))) (has_itself xs),
)
  where
    either : (b : Bool) → (if b then true else true) ≡ true
    either b = ground arith

list_content_history-found :
    (pack id : String) (s : ContentStore) {d : Document}
    → find_document pack id s.documents ≡ some d
    → list_content_history pack id s ≡ sort_by earlier d.revisions
unfolding list_content_history
list_content_history-found pack id s e = rw (e, list_content_history)

check_target-clear :
    (kind : String) (latest r : Revision) {target : Revision}
    → check_target kind latest r ≡ gives target
    → (r ≡ target) × (is_clear kind r.payload ≡ true)
unfolding check_target
check_target-clear kind latest r {target = target} h = elim (Bool-cases (str_eq r.id latest.id)) [
  | inr b ↦ absurd (cc (rw b at h))
  | inl b ↦ elim (Bool-cases (is_blocking (validate_content_semantics kind r.payload))) [
    | inl c ↦ absurd (cc (rw (b, c) at h))
    | inr c ↦ let k : gives r ≡ gives target = rw (b, c) at h in (cc, rw c refl)
  ]
]

-- A row of the history that is clear.
history-ClearedAt :
    (pack id rev : String) (s : ContentStore) {d : Document} {r : Revision}
    → DocumentInv d
    → find_document pack id s.documents ≡ some d
    → find_revision rev (list_content_history pack id s) ≡ some r
    → is_clear d.kind r.payload ≡ true
    → ClearedAt pack id r.id s.documents
history-ClearedAt pack id rev s {d = d} {r = r} v found e c =
    let listed : find_revision rev (sort_by earlier d.revisions) ≡ some r =
      rw (list_content_history-found pack id s found) at e in
    record {
      document = d;
      found = found;
      there =
          find_revision-All (λ x. has_revision x.id d.revisions ≡ true) rev
            (sort_by earlier d.revisions)
            (All-sort_by (λ x. has_revision x.id d.revisions ≡ true) earlier d.revisions
              (has_itself d.revisions))
            listed;
      clear =
          find_revision-All (ClearedIn d.kind d.revisions) rev (sort_by earlier d.revisions)
            (All-sort_by (ClearedIn d.kind d.revisions) earlier d.revisions
              (Distinct-ClearedIn d.kind d.revisions v.distinct))
            listed c;
    }

-- What the checks of ApplyContent found.
pub check_apply-ClearedAt :
    (pack id rev : String) (s : ContentStore) {target : Revision}
    → All DocumentInv s.documents
    → check_apply pack id rev s ≡ gives target
    → ClearedAt pack id target.id s.documents
unfolding check_apply
check_apply-ClearedAt pack id rev s {target = target} v h =
    elim (Option-cases (get_content_document pack id s)) [
      | inl e ↦ absurd (cc (rw (e, check_apply) at h))
      | inr ((d, latest), e) ↦
          let (found, last) = get_content_document-found pack id s e in
          elim (Option-cases (
            find_revision (if str_eq rev "" then latest.id else rev)
              (list_content_history pack id s))) [
                | inl b ↦ absurd (cc (rw (e, check_apply, b) at h))
                | inr (r, b) ↦
                    let k : check_target d.kind latest r ≡ gives target =
                      rw (e, check_apply, b) at h in
                    let (here, clear) = check_target-clear d.kind latest r k in
                    subst (λ (x : Revision). ClearedAt pack id x.id s.documents) here
                      (history-ClearedAt pack id (if str_eq rev "" then latest.id else rev) s
                        (All-find_document DocumentInv pack id s.documents v found) found b clear)
              ]
    ]

-- ===== src/Drafts/Reviewed.antt =====
-- What holds of the documents after any calls of apps/server/internal/service/content.go.
use m_pack_station.Base.{
  String, List, Option, none, some, ◌∷◌, [], All, All-map, ◌≡◌, refl, Bool, true, false,
  if◌then◌else◌, is_some, count, any, not, ◌||◌, arith, Bool-cases, inl, inr, str_eq, ◌≤◌,
  str_eq→eq,
}
use m_pack_station.Drafts.Model.{Revision, Document}
use m_pack_station.Drafts.Changes.{is_applied, is_draft}
use m_pack_station.Drafts.Payload.{is_blocking, validate_content_semantics, is_payload}
use m_pack_station.Drafts.Rows.{Numbered, Distinct, Holds, active_if_applied, is_active_row}
use m_pack_station.Drafts.Invariant.{DocumentInv}
use m_pack_station.Drafts.Histories.{
  ContentCall, run_content, no_content, run_content-ProgressInv, no_content-ProgressInv,
}

abbrev pub applied_row : Revision → Bool
applied_row r = is_applied r.state

unless_applied : (a b : Bool) → a ≡ true → (not a || b) ≡ true → b ≡ true
unless_applied a b e h = ground arith

-- Where the revisions with other ids than the active one are not applied, none of them is.
none_applied :
    (active id : String) (rs : List Revision)
    → str_eq active id ≡ true
    → All (λ (x : Revision). str_eq x.id id ≡ false) rs
    → Holds (active_if_applied (some active)) rs
    → count applied_row rs ≡ 0
none_applied active id [] e h k = refl
none_applied active id (x ∷ xs) e h k = elim (Bool-cases (is_applied x.state)) [
  | inr a ↦ rw (a, none_applied active id xs e h.1 k.1) refl
  | inl a ↦
      let same : active ≡ x.id = str_eq→eq active x.id (unless_applied _ _ a k.0) in
      let bad : str_eq active id ≡ false = rw same h.0 in absurd (cc)
]

at_most_one :
    (active : String) (rs : List Revision)
    → Distinct rs
    → Holds (active_if_applied (some active)) rs
    → count applied_row rs ≤ 1
at_most_one active [] h k = omega arith
at_most_one active (x ∷ xs) h k = elim (Bool-cases (is_applied x.state)) [
  | inr a ↦ rw a (at_most_one active xs h.1 k.1)
  | inl a ↦ rw (a, none_applied active x.id xs (unless_applied _ _ a k.0) h.0 k.1) (omega arith)
]

no_active : (rs : List Revision) → Holds (active_if_applied none) rs → count applied_row rs ≡ 0
no_active [] k = refl
no_active (x ∷ xs) k = let first = k.0 in ground (arith, no_active xs k.1)

some_active :
    (active : Option String) (rs : List Revision)
    → any (is_active_row active) rs ≡ true
    → 1 ≤ count applied_row rs
some_active active [] h = absurd (cc)
some_active active (x ∷ xs) h = ground (arith, some_active active xs)

-- A document has one applied revision, which its header names, or none, where the header names
-- none.
abbrev pub OneActive : Document → Type 0
OneActive d =
    (count applied_row d.revisions ≡ (if is_some d.active then 1 else 0))
    × Holds (active_if_applied d.active) d.revisions

one_active :
    (active : Option String) (rs : List Revision)
    → Distinct rs
    → Holds (active_if_applied active) rs
    → (not (is_some active) || any (is_active_row active) rs) ≡ true
    → count applied_row rs ≡ (if is_some active then 1 else 0)
one_active none rs d k h = no_active rs k
one_active (some a) rs d k h =
    let most = at_most_one a rs d k in let least = some_active (some a) rs h in omega arith

DocumentInv-OneActive : (d : Document) → DocumentInv d → OneActive d
DocumentInv-OneActive d v =
    (one_active d.active d.revisions v.distinct v.only_active v.has_active, v.only_active)

-- After any calls, in which others may come between the checks of an application and its
-- transaction, each document has one applied revision, which its header names as the active one, or
-- none, where the header names none.
pub run_content-OneActive :
    (xs : List ContentCall) → All OneActive (run_content xs no_content).store.documents
run_content-OneActive xs =
    All-map _ _ _ DocumentInv-OneActive
      (run_content-ProgressInv xs no_content no_content-ProgressInv).documents

-- A revision that is or was applied has no semantic issue that blocks.
abbrev pub reviewed : String → Revision → Bool
reviewed kind r = is_draft r.state || not (is_blocking (validate_content_semantics kind r.payload))

-- After any calls, in which others may come between the checks of an application and its
-- transaction, each revision that is applied or was, and is archived now, passes the semantic
-- validation for its document's kind without an error.
pub run_content-reviewed :
    (xs : List ContentCall)
    → All
        (λ (d : Document). Holds (reviewed d.kind) d.revisions)
        (run_content xs no_content).store.documents
run_content-reviewed xs =
    All-map _ _ _ (λ d v. v.all_checked)
      (run_content-ProgressInv xs no_content no_content-ProgressInv).documents

-- After any calls, the revisions of each document are numbered from 1 without a gap, the latest in
-- front, and the payload of each, a rollback's too, is an object within the bounds that has only
-- fields of the document's kind.
pub run_content-Numbered :
    (xs : List ContentCall)
    → All
        (λ (d : Document).
          Numbered d.revisions × Holds (λ r. is_payload d.kind r.payload) d.revisions)
        (run_content xs no_content).store.documents
run_content-Numbered xs =
    All-map _ _ _ (λ d v. (v.numbered, v.all_accepted))
      (run_content-ProgressInv xs no_content no_content-ProgressInv).documents

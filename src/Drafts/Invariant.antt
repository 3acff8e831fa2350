-- ===== src/Drafts/Invariant.antt =====
-- What the transactions of apps/server/internal/store/content_repo.go keep true of a document.
use m_pack_station.Base.{
  ℕ, String, List, Bool, str_eq, some, ◌∷◌, true, not, if◌then◌else◌, ◌&&◌, ◌||◌, false, [], any,
  suc, length, All, All-map, ◌≡◌, refl, arith, is_some, holds_text, Bool-cases, inl, inr,
  str_eq_comm, map, All-zip,
}
use m_pack_station.Drafts.Model.{Revision, RevisionState, Document}
use m_pack_station.Drafts.Store.{find_revision, has_revision, append_revision}
use m_pack_station.Drafts.Changes.{is_draft, is_applied, activated}
use m_pack_station.Drafts.Rows.{
  Numbered, Distinct, Holds, accepted, checked, active_if_applied, is_active_row, cleared,
  after_apply, apply_rows-map, All-of_map, Holds-map, after_apply-id, after_apply-payload,
  Numbered-map, Distinct-map,
}

pub record DocumentInv (d : Document) : Type 0 where
  pub numbered : Numbered d.revisions
  pub distinct : Distinct d.revisions
  pub only_active : Holds (active_if_applied d.active) d.revisions
  pub has_active : (not (is_some d.active) || any (is_active_row d.active) d.revisions) ≡ true
  pub all_accepted : Holds (accepted d.kind) d.revisions
  pub all_checked : Holds (checked d.kind) d.revisions

fresh-All :
    (id : String) (rs : List Revision)
    → has_revision id rs ≡ false
    → All (λ (x : Revision). str_eq x.id id ≡ false) rs
fresh-All id [] h = tt
fresh-All id (x ∷ xs) h = elim (Bool-cases (str_eq x.id id)) [
  | inl e ↦ let k : true ≡ false = rw e at h in absurd (cc)
  | inr e ↦ (e, fresh-All id xs (rw e at h))
]

unchanged : (a b rest : Bool) → b ≡ false → (if a && b then true else rest) ≡ rest
unchanged a b rest e = ground arith

-- A new draft, in front of the others.
pub DocumentInv-append :
    (r : Revision) (d : Document)
    → DocumentInv d
    → r.number ≡ suc (length d.revisions)
    → has_revision r.id d.revisions ≡ false
    → is_draft r.state ≡ true
    → accepted d.kind r ≡ true
    → DocumentInv (append_revision r d)
DocumentInv-append r d v n fresh e a =
    let no_applied : is_applied r.state ≡ false = drafted r.state e in
    record {
      numbered = (n, v.numbered);
      distinct = (fresh-All r.id d.revisions fresh, v.distinct);
      only_active = (rw no_applied refl, v.only_active);
      has_active =
          rw
            (unchanged (holds_text d.active r.id) (is_applied r.state)
              (any (is_active_row d.active) d.revisions) no_applied)
            v.has_active;
      all_accepted = (a, v.all_accepted);
      all_checked = (rw e refl, v.all_checked);
    }
  where
    drafted : (t : RevisionState) → is_draft t ≡ true → is_applied t ≡ false
    drafted t h = ground arith

active_if_applied-after :
    (id : String) (r : Revision) → active_if_applied (some id) (after_apply id r) ≡ true
active_if_applied-after id r = rw (after_apply-id id r) (ground (arith, str_eq_comm id r.id))

checked-after :
    (id kind : String) (r : Revision)
    → cleared id kind r ≡ true
    → checked kind r ≡ true
    → checked kind (after_apply id r) ≡ true
checked-after id kind r c k = rw (after_apply-payload id r) (ground arith)

is_active_row-after :
    (id : String) (rs : List Revision) {r : Revision}
    → find_revision id rs ≡ some r
    → is_draft r.state ≡ true
    → any (is_active_row (some id)) (map (after_apply id) rs) ≡ true
unfolding find_revision
is_active_row-after id [] e h = absurd (cc)
is_active_row-after id (x ∷ xs) {r = r} e h = elim (Bool-cases (str_eq x.id id)) [
  | inl b ↦
      let same : x ≡ r = cc (rw b at e) in
      let k : is_draft x.state ≡ true = rw same h in rw (b, k, str_eq_comm id x.id, b) refl
  | inr b ↦
      let rest = is_active_row-after id xs (rw b at e) h in
      rw rest (truth (is_active_row (some id) (after_apply id x)))
]
  where
    truth : (b : Bool) → (if b then true else true) ≡ true
    truth b = ground arith

pub DocumentInv-activated :
    (id : String) (at : ℕ) (d : Document) {r : Revision}
    → DocumentInv d
    → find_revision id d.revisions ≡ some r
    → is_draft r.state ≡ true
    → Holds (cleared id d.kind) d.revisions
    → DocumentInv (activated id at d)
unfolding activated
DocumentInv-activated id at d v e h c = record {
  numbered = rw apply_rows-map (Numbered-map id d.revisions v.numbered);
  distinct = rw apply_rows-map (Distinct-map id d.revisions v.distinct);
  only_active = rw apply_rows-map (
      All-of_map (after_apply id) _ d.revisions
        (All-map _ _ d.revisions (λ r k. active_if_applied-after id r) v.only_active));
  has_active = rw apply_rows-map (is_active_row-after id d.revisions e h);
  all_accepted = rw apply_rows-map (
      Holds-map (after_apply id) (accepted d.kind) d.revisions
        (λ r. rw (after_apply-payload id r) refl) v.all_accepted);
  all_checked = rw apply_rows-map (
      All-of_map (after_apply id) _ d.revisions (
        All-map _ _ d.revisions (λ r k. checked-after id d.kind r k.0 k.1)
          (All-zip (λ r. cleared id d.kind r ≡ true) (λ r. checked d.kind r ≡ true) d.revisions c
            v.all_checked)));
}

-- ===== src/Drafts/Review.antt =====
-- apps/server/internal/service/content.go: the operations on one revision, its validation, its
-- application and a rollback to it.
use m_pack_station.Base.{ℕ, String, Option, none, str_eq, some, not, if◌then◌else◌, suc}
use m_pack_station.Drafts.Payload.{validate_content_semantics, is_blocking, run_status, passed}
use m_pack_station.Drafts.Model.{
  applied, Revision, ValidationRun, ContentStore, ContentError, Surroundings, store_not_found,
  content_not_found, revision_conflict, validation_revision_not_found, revision_not_found,
  not_valid, Reply, gives, refuses,
}
use m_pack_station.Drafts.Store.{find_revision, validate_content_revision}
use m_pack_station.Drafts.Changes.{apply_content_tx, rollback_content_tx, list_content_history}
use m_pack_station.Drafts.Service.{get_content_document, new_id, taking, new_revision}

-- The revision that ValidateContent looks at.
abbrev pub validated_revision : String → String → String → Revision → ContentStore → Option Revision
validated_revision pack id rev latest s =
    if str_eq rev "" then some latest else find_revision rev (list_content_history pack id s)

abbrev pub recorded :
    ValidationRun → ContentStore × Option ContentError → ContentStore × Reply ValidationRun
recorded v (s, none) = (s, gives v)
recorded v (s, some e) = (s, refuses e)

-- ValidateContent, of the revision that was found.
unfoldable pub validate_revision :
    Surroundings
    → ℕ
    → String
    → String
    → String
    → Revision
    → ContentStore
    → ContentStore × Reply ValidationRun
unfolding validate_content_semantics run_status validate_content_revision
validate_revision w now pack id kind r s =
    let issues = validate_content_semantics kind r.payload in
    let v : ValidationRun = record {
      id = new_id "content-validation" w s.generated;
      revision_id = r.id;
      status = run_status issues passed;
      issues = issues;
      created_at = now;
    } in
    recorded v (validate_content_revision pack id v (taking (suc s.generated) s))

-- ValidateContent
unfoldable pub validate_content :
    Surroundings → ℕ → String → String → String → ContentStore → ContentStore × Reply ValidationRun
unfolding get_content_document list_content_history find_revision validate_revision
validate_content w now pack id rev s = elim (get_content_document pack id s) [
  | none ↦ (s, refuses content_not_found)
  | some (d, latest) ↦ elim (validated_revision pack id rev latest s) [
    | none ↦ (s, refuses validation_revision_not_found)
    | some r ↦ validate_revision w now pack id d.kind r s
  ]
]

-- The checks of ApplyContent on the revision that it found.
unfoldable pub check_target : String → Revision → Revision → Reply Revision
unfolding validate_content_semantics is_blocking
check_target kind latest target =
    let issues = validate_content_semantics kind target.payload in
    if not (str_eq target.id latest.id)
    then refuses revision_conflict
    else if is_blocking issues
    then refuses (not_valid issues)
    else gives target

-- ApplyContent up to its transaction: the revision to apply.
unfoldable pub check_apply : String → String → String → ContentStore → Reply Revision
unfolding get_content_document list_content_history find_revision check_target
check_apply pack id rev s = elim (get_content_document pack id s) [
  | none ↦ refuses content_not_found
  | some (d, latest) ↦
      elim (find_revision (if str_eq rev "" then latest.id else rev)
        (list_content_history pack id s)) [
          | none ↦ refuses content_not_found
          | some target ↦ check_target d.kind latest target
        ]
]

abbrev pub promoted : Revision → ContentStore × Option ContentError → ContentStore × Reply Revision
promoted target (s, none) = (s, gives (record target { state = applied }))
promoted target (s, some e) = (s, refuses e)

-- ApplyContent from its transaction on, which another call's may precede.
unfoldable pub finish_apply :
    ℕ → String → String → Revision → ContentStore → ContentStore × Reply Revision
unfolding apply_content_tx
finish_apply now pack id target s = promoted target (apply_content_tx pack id target.id now s)

-- ApplyContent
unfoldable pub apply_content :
    ℕ → String → String → String → ContentStore → ContentStore × Reply Revision
unfolding check_apply finish_apply
apply_content now pack id rev s = elim (check_apply pack id rev s) [
  | refuses e ↦ (s, refuses e)
  | gives target ↦ finish_apply now pack id target s
]

abbrev pub not_found_revision : ContentError → ContentError
not_found_revision store_not_found = revision_not_found
not_found_revision e = e

abbrev pub rolled_back : ContentStore × Reply Revision → ContentStore × Reply Revision
rolled_back (s, gives r) = (s, gives r)
rolled_back (s, refuses e) = (s, refuses (not_found_revision e))

-- RollbackContent
unfoldable pub rollback_content :
    Surroundings → ℕ → String → String → String → ContentStore → ContentStore × Reply Revision
unfolding get_content_document rollback_content_tx
rollback_content w now pack id target s = elim (get_content_document pack id s) [
  | none ↦ (s, refuses store_not_found)
  | some (d, latest) ↦
      let r = new_revision (new_id "content-revision" w s.generated) latest.payload now in
      rolled_back (rollback_content_tx pack id target r (taking (suc s.generated) s))
]

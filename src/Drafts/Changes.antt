-- ===== src/Drafts/Changes.antt =====
-- apps/server/internal/store/content_repo.go: the transactions that apply a revision or roll back to
-- one, and the history.
use m_pack_station.Base.{
  ℕ, String, List, Option, Bool, none, str_eq, some, ◌∷◌, true, not, if◌then◌else◌, ◌&&◌, false, [],
  ltb, suc, sort_by,
}
use m_pack_station.Drafts.Model.{
  RevisionState, draft, applied, archived, Revision, Document, ContentCheck, ContentStore,
  ContentError, store_not_found, conflict, constraint, Reply, gives, refuses,
}
use m_pack_station.Drafts.Store.{
  find_document, find_revision, max_revision, revision_taken, change_document, evidence,
  append_revision,
}

abbrev pub is_draft : RevisionState → Bool
is_draft draft = true
is_draft _ = false

abbrev pub is_applied : RevisionState → Bool
is_applied applied = true
is_applied _ = false

-- SET state='archived' … WHERE state='applied'
unfoldable pub archive_applied : List Revision → List Revision
archive_applied [] = []
archive_applied (r ∷ rs) =
    (if is_applied r.state then record r { state = archived } else r) ∷ archive_applied rs

-- SET state='applied' … WHERE id=? AND state='draft'
unfoldable pub promote_draft : String → List Revision → List Revision
promote_draft id [] = []
promote_draft id (r ∷ rs) =
    (if str_eq r.id id && is_draft r.state then record r { state = applied } else r)
    ∷ promote_draft id rs

unfoldable pub activated : String → ℕ → Document → Document
unfolding archive_applied promote_draft
activated id at d = record d {
  active = some id;
  updated_at = at;
  revisions = promote_draft id (archive_applied d.revisions);
}

-- INSERT INTO delivery_checks … ON CONFLICT DO UPDATE
unfoldable pub upsert_check : ContentCheck → List ContentCheck → List ContentCheck
upsert_check c [] = c ∷ []
upsert_check c (x ∷ xs) =
    let rest = upsert_check c xs in if str_eq x.pack_id c.pack_id then c ∷ xs else x ∷ rest

-- ApplyContent, in the document that was found; the error, if there is one.
unfoldable pub apply_in_document :
    String → Document → String → ℕ → ContentStore → ContentStore × Option ContentError
unfolding find_revision change_document activated upsert_check
apply_in_document pack d rev at s = elim (find_revision rev d.revisions) [
  | none ↦ (s, some store_not_found)
  | some r ↦ if not (is_draft r.state) then (s, some conflict) else (
    record s {
      documents = change_document pack d.id (activated rev at) s.documents;
      checks =
          upsert_check (record { pack_id = pack; revision_id = rev; checked_at = at }) s.checks;
      evidence = evidence pack "content.apply" rev at ∷ s.evidence;
    },
    none,
  )
]

unfoldable pub apply_content_tx :
    String → String → String → ℕ → ContentStore → ContentStore × Option ContentError
unfolding find_document apply_in_document
apply_content_tx pack id rev at s = elim (find_document pack id s.documents) [
  | none ↦ (s, some store_not_found)
  | some d ↦ apply_in_document pack d rev at s
]

-- RollbackContent, in the document that was found.
unfoldable pub rollback_in_document :
    String → Document → String → Revision → ContentStore → ContentStore × Reply Revision
unfolding find_revision max_revision revision_taken change_document
rollback_in_document pack d target rev s = elim (find_revision target d.revisions) [
  | none ↦ (s, refuses store_not_found)
  | some old ↦
      if revision_taken rev.id s.documents
      then (s, refuses constraint)
      else let r = record rev {
        number = suc (max_revision d.revisions);
        payload = old.payload;
        state = draft;
        source = some target;
      } in
        (
          record s {
            documents = change_document pack d.id (append_revision r) s.documents;
            evidence = evidence pack "content.rollback" rev.id rev.created_at ∷ s.evidence;
          },
          gives r,
        )
]

unfoldable pub rollback_content_tx :
    String → String → String → Revision → ContentStore → ContentStore × Reply Revision
unfolding find_document rollback_in_document
rollback_content_tx pack id target rev s = elim (find_document pack id s.documents) [
  | none ↦ (s, refuses store_not_found)
  | some d ↦ rollback_in_document pack d target rev s
]

-- ORDER BY revision
abbrev pub earlier : Revision → Revision → Bool
earlier a b = ltb a.number b.number

-- ListContentHistory
unfoldable pub list_content_history : String → String → ContentStore → List Revision
unfolding find_document sort_by
list_content_history pack id s = elim (find_document pack id s.documents) [
  | none ↦ []
  | some d ↦ sort_by earlier d.revisions
]

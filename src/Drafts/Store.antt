-- ===== src/Drafts/Store.antt =====
-- apps/server/internal/store/content_repo.go: the statements and transactions on documents and
-- revisions. A refused transaction leaves the tables as they were.
use m_pack_station.Base.{
  ℕ, String, List, Option, Bool, none, str_eq, some, ◌∷◌, not, if◌then◌else◌, ◌&&◌, ◌||◌, any, [],
  ◌==◌, ltb, suc, head?, sort_by,
}
use m_pack_station.Drafts.Json.{json_eq}
use m_pack_station.Drafts.Model.{
  draft, Revision, Document, ValidationRun, Evidence, ContentStore, ContentError, store_not_found,
  conflict, constraint, Reply, gives, refuses,
}

-- WHERE pack_id=? AND id=?
abbrev pub is_document : String → String → Document → Bool
is_document pack id d = str_eq d.pack_id pack && str_eq d.id id

unfoldable pub find_document : String → String → List Document → Option Document
find_document pack id [] = none
find_document pack id (d ∷ ds) =
    let rest = find_document pack id ds in if is_document pack id d then some d else rest

unfoldable pub find_revision : String → List Revision → Option Revision
find_revision id [] = none
find_revision id (r ∷ rs) =
    let rest = find_revision id rs in if str_eq r.id id then some r else rest

-- ORDER BY revision DESC
abbrev pub newer : Revision → Revision → Bool
newer a b = ltb b.number a.number

-- The latest revision, in GetContentDocument and SaveContentDraft.
unfoldable pub latest_revision : List Revision → Option Revision
unfolding sort_by
latest_revision rs = head? (sort_by newer rs)

-- COALESCE(MAX(revision),0)
unfoldable pub max_revision : List Revision → ℕ
max_revision [] = 0
max_revision (r ∷ rs) = let rest = max_revision rs in if ltb rest r.number then r.number else rest

-- The primary key of content_revisions.
abbrev pub has_revision : String → List Revision → Bool
has_revision id rs = any (λ (r : Revision). str_eq r.id id) rs

unfoldable pub revision_taken : String → List Document → Bool
revision_taken id ds = any (λ (d : Document). has_revision id d.revisions) ds

-- The primary key of content_documents, and the triple of pack, kind and slug.
unfoldable pub document_taken : Document → List Document → Bool
document_taken x ds =
    any
      (λ (d : Document).
        str_eq d.id x.id
        || str_eq d.pack_id x.pack_id && str_eq d.kind x.kind && str_eq d.slug x.slug)
      ds

-- A change of the document with an id, which is the primary key.
unfoldable pub change_document :
    String → String → (Document → Document) → List Document → List Document
change_document pack id f [] = []
change_document pack id f (d ∷ ds) =
    let rest = change_document pack id f ds in if is_document pack id d then f d ∷ ds else d ∷ rest

abbrev pub evidence : String → String → String → ℕ → Evidence
evidence pack action aggregate at = record {
  pack_id = pack;
  action = action;
  aggregate_id = aggregate;
  at = at;
}

-- CreateContentDocument; the error, if there is one.
unfoldable pub create_content_document :
    Document → Revision → ContentStore → ContentStore × Option ContentError
unfolding document_taken revision_taken
create_content_document d r s =
    if document_taken d s.documents
    then (s, some conflict)
    else if revision_taken r.id s.documents
    then (s, some constraint)
    else (
      record s {
        documents = record d { revisions = r ∷ [] } ∷ s.documents;
        evidence = evidence d.pack_id "content.create" d.id d.created_at ∷ s.evidence;
      },
      none,
    )

-- A revision that a transaction appends to a document.
abbrev pub append_revision : Revision → Document → Document
append_revision r d = record d { revisions = r ∷ d.revisions }

abbrev pub touched : ℕ → Document → Document
touched at d = record d { updated_at = at }

-- SaveContentDraft, in the document that was found.
unfoldable pub save_in_document :
    String → Document → ℕ → Revision → ContentStore → ContentStore × Reply Revision
unfolding latest_revision json_eq revision_taken change_document
save_in_document pack d expected rev s = elim (latest_revision d.revisions) [
  | none ↦ (s, refuses store_not_found)
  | some latest ↦
      if not (latest.number == expected)
      then (s, refuses conflict)
      else if json_eq latest.payload rev.payload
      then (s, gives latest)
      else if revision_taken rev.id s.documents
      then (s, refuses constraint)
      else let r = record rev { number = suc latest.number; state = draft } in
        (
          record s {
            documents =
                change_document pack d.id (λ x. touched rev.created_at (append_revision r x))
                  s.documents;
            evidence = evidence pack "content.draft" d.id rev.created_at ∷ s.evidence;
          },
          gives r,
        )
]

unfoldable pub save_content_draft_tx :
    String → String → ℕ → Revision → ContentStore → ContentStore × Reply Revision
unfolding find_document save_in_document
save_content_draft_tx pack id expected rev s = elim (find_document pack id s.documents) [
  | none ↦ (s, refuses store_not_found)
  | some d ↦ save_in_document pack d expected rev s
]

-- ValidateContentRevision
unfoldable pub validate_content_revision :
    String → String → ValidationRun → ContentStore → ContentStore × Option ContentError
unfolding find_document
validate_content_revision pack id v s = elim (find_document pack id s.documents) [
  | none ↦ (s, some store_not_found)
  | some d ↦ if not (has_revision v.revision_id d.revisions) then (s, some store_not_found) else (
    record s {
      validations = v ∷ s.validations;
      evidence = evidence pack "content.validate" v.revision_id v.created_at ∷ s.evidence;
    },
    none,
  )
]

-- ===== src/Drafts/Model.antt =====
-- The rows of apps/server/internal/store/content_repo.go: documents, revisions, validation runs,
-- delivery checks and evidence, and the errors.
use m_pack_station.Base.{ℕ, String, Bool, Option, List}
use m_pack_station.Drafts.Json.{Json}
use m_pack_station.Drafts.Payload.{Issue, RunStatus}

pub data RevisionState : Type 0 where
  draft applied archived : RevisionState

-- A row of `content_revisions`. The payload stands for the text that json.Marshal writes of it.
pub record Revision : Type 0 where
  pub id : String
  pub number : ℕ
  pub state : RevisionState
  pub payload : Json
  pub source : Option String
  pub created_at : ℕ

-- A row of `content_documents`, with the rows of `content_revisions` that refer to it, the one
-- inserted last in front. A revision cannot refer to a document that is not there.
pub record Document : Type 0 where
  pub id : String
  pub pack_id : String
  pub kind : String
  pub slug : String
  pub title : String
  pub active : Option String
  pub created_at : ℕ
  pub updated_at : ℕ
  pub revisions : List Revision

-- A row of `content_validation_runs`.
pub record ValidationRun : Type 0 where
  pub id : String
  pub revision_id : String
  pub status : RunStatus
  pub issues : List Issue
  pub created_at : ℕ

-- The delivery check "content" of a pack: passed, by the revision.
pub record ContentCheck : Type 0 where
  pub pack_id : String
  pub revision_id : String
  pub checked_at : ℕ

-- What one call of `addP6Evidence` writes: an activity, an outbox event and an audit event.
pub record Evidence : Type 0 where
  pub pack_id : String
  pub action : String
  pub aggregate_id : String
  pub at : ℕ

-- The tables, and how many ids were taken.
pub record ContentStore : Type 0 where
  pub documents : List Document
  pub validations : List ValidationRun
  pub checks : List ContentCheck
  pub evidence : List Evidence
  pub generated : ℕ

-- The packs there are, and the random parts of the ids, by how many were taken before.
pub record Surroundings : Type 0 where
  pub has_pack : String → Bool
  pub random : ℕ → String

-- `store_not_found` and `conflict` are the store's own errors, passed on as they are; `constraint`
-- is a unique index that SQLite enforces.
pub data ContentError : Type 0 where
  invalid_argument store_not_found conflict constraint : ContentError
  content_not_found duplicate_slug revision_conflict : ContentError
  validation_revision_not_found revision_not_found : ContentError
  not_valid : List Issue → ContentError

pub data Reply (A : Type 0) : Type 0 where
  gives : A → Reply A
  refuses : ContentError → Reply A

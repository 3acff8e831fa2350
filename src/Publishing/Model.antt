-- ===== src/Publishing/Model.antt =====
-- apps/server/internal/service/publish.go and apps/server/internal/store/publish_repo.go, the data:
-- releases, artifacts, the remote state, and what the service is given.
use m_pack_station.Base.{ℕ, String, Bool, Option, List}

pub data ReleaseStatus : Type 0 where
  pending publishing succeeded failed canceled : ReleaseStatus

-- The provider's project and version that a request names.
pub record Target : Type 0 where
  pub project_id : String
  pub version_id : String

abbrev pub Fields : Type 0
Fields = List (record { name : String; value : String })

-- The JSON object of `remote_state`: the member `request`, and the members that hold a text.
pub record RemoteState : Type 0 where
  pub request : Option Target
  pub fields : Fields

-- A row of `releases`.
pub record Release : Type 0 where
  pub id : String
  pub pack_id : String
  pub pack_version_id : String
  pub provider : String
  pub status : ReleaseStatus
  pub remote_id : String
  pub idempotency_key : String
  pub remote_state : RemoteState
  pub artifact_id : String
  pub error_code : String
  pub error_message : String
  pub created_at : ℕ
  pub updated_at : ℕ

-- A row of `artifacts`; `ready` tells whether its status is "ready".
pub record Artifact : Type 0 where
  pub id : String
  pub pack_id : String
  pub pack_version_id : String
  pub path : String
  pub ready : Bool

pub record PublishInput : Type 0 where
  pub pack_id : String
  pub pack_version_id : String
  pub provider : String
  pub artifact_id : String
  pub idempotency_key : String
  pub target : Target

-- What a provider answers to a publication and to a probe of its state.
pub record Remote : Type 0 where
  pub id : String
  pub status : String
  pub url : String
  pub detail : String

-- A provider's adapter; none is a call that failed.
pub record Adapter : Type 0 where
  pub publish : Target → String → Option Remote
  pub remote_status : String → Option Remote

-- What the service is given: the ID source, the other tables, the check of an artifact's file, and
-- the registry of providers, which may be missing.
pub record World : Type 0 where
  pub id : ℕ → String
  pub has_version : String → String → Bool
  pub artifact : String → Option Artifact
  pub intact : Artifact → Bool
  pub adapter : String → Option Adapter

-- `store_not_found` and `conflict` are the store's own errors, passed on as they are, and
-- `constraint` is a unique index that SQLite enforces.
pub data PublishError : Type 0 where
  version_not_found artifact_not_found artifact_not_ready invalid_input : PublishError
  idempotency_conflict release_not_found not_retryable publish_failed : PublishError
  status_unavailable conflict constraint store_not_found : PublishError

-- The table, the number of ids taken, and the releases for which a provider was asked to publish,
-- newest first.
pub record Store : Type 0 where
  pub releases : List Release
  pub generated : ℕ
  pub published : List String

-- The readings of the clock in one call, in their order.
pub record PublishClock : Type 0 where
  pub creating : ℕ
  pub reserving : ℕ
  pub finishing : ℕ

-- An answer: a release, an error, or, for a failed publication, both.
pub data Answer : Type 0 where
  shows : Release → Answer
  fails : PublishError → Answer
  shows_failed : Release → PublishError → Answer

-- ===== src/Publishing/Publish.antt =====
-- apps/server/internal/service/publish.go: `publishOnce`, `PublishPack`, `RetryPublish` and
-- `PollRelease`.
use m_pack_station.Base.{
  ℕ, String, Bool, if◌then◌else◌, ◌∷◌, none, not, ◌||◌, str_eq, [], some, false, true, ◌+◌, ◌&&◌,
  Option,
}
use m_pack_station.Publishing.Store.{
  set_release_publishing, create_release, find_release, finish_release, is_publishing,
}
use m_pack_station.Publishing.Model.{
  World, RemoteState, Release, ReleaseStatus, Remote, PublishInput, Store, Target, Answer, Artifact,
  PublishClock, pending, release_not_found, failed, succeeded, idempotency_conflict, constraint,
  invalid_input, not_retryable, version_not_found, artifact_not_found, status_unavailable,
  artifact_not_ready, store_not_found, conflict,
}
use m_pack_station.Publishing.Service.{
  validate_publish_input, normalize_remote_status, merge_remote_state, empty_state, latest_failed,
  latest, failure, finish_and_show, ask_provider,
}

-- A release whose artifact is not there fails; the outcomes of both writes are not looked at.
unfoldable pub publish_missing : PublishClock → Release → Store → Store × Answer
unfolding find_release set_release_publishing finish_release
publish_missing k rel s =
    latest_failed rel.id
      (finish_release rel.id (failure empty_state "artifact_missing" "artifact is unavailable")
        k.finishing (set_release_publishing rel.id k.reserving s).0).0

-- The publication of a reserved release.
unfoldable pub publish_reserved : World → ℕ → Release → Artifact → Target → Store → Store × Answer
unfolding merge_remote_state finish_and_show ask_provider
publish_reserved w at rel a target s =
    if str_eq rel.provider "local"
    then finish_and_show rel.id
        (record {
          status = succeeded;
          remote_id = a.id;
          remote_state =
              merge_remote_state
                (record { name = "provider"; value = "local" }
                  ∷ record { name = "status"; value = "succeeded" }
                  ∷ [])
                rel.remote_state;
          error_code = "";
          error_message = "";
        })
        at s
    else ask_provider w at rel a target s

-- publishOnce
unfoldable pub publish_once :
    World → PublishClock → Release → Artifact → Target → Store → Store × Answer
unfolding set_release_publishing publish_missing publish_reserved
publish_once w k rel a target s =
    if not (w.intact a)
    then publish_missing k rel s
    else let (s', reserved) = set_release_publishing rel.id k.reserving s in
      if reserved then publish_reserved w k.finishing rel a target s' else latest rel.id conflict s'

abbrev pub same_target : Target → Target → Bool
same_target a b = str_eq a.project_id b.project_id && str_eq a.version_id b.version_id

-- The bound release was asked for with another target; a state without one, or with an empty one,
-- counts as any.
abbrev pub other_target : Target → RemoteState → Bool
other_target t s = elim s.request [
  | none ↦ false
  | some prior ↦
      not (str_eq prior.project_id "" && str_eq prior.version_id "") && not (same_target prior t)
]

abbrev pub matches_input : PublishInput → Release → Bool
matches_input x r =
    str_eq r.pack_id x.pack_id
    && str_eq r.pack_version_id x.pack_version_id
    && str_eq r.artifact_id x.artifact_id

abbrev pub is_pending : ReleaseStatus → Bool
is_pending pending = true
is_pending _ = false

unfoldable pub new_release : World → ℕ → PublishInput → Store → Release
new_release w now x s = record {
  id = w.id s.generated;
  pack_id = x.pack_id;
  pack_version_id = x.pack_version_id;
  provider = x.provider;
  status = pending;
  remote_id = "";
  idempotency_key = x.idempotency_key;
  remote_state = record { request = some x.target; fields = [] };
  artifact_id = x.artifact_id;
  error_code = "";
  error_message = "";
  created_at = now;
  updated_at = now;
}

-- What `PublishPack` does with the release of the key.
unfoldable pub publish_release :
    World → PublishClock → PublishInput → String → Artifact → Release → Store → Store × Answer
unfolding publish_once
publish_release w k x created a rel s =
    if not (matches_input x rel)
    then (s, Answer.fails idempotency_conflict)
    else if other_target x.target rel.remote_state
    then (s, Answer.fails idempotency_conflict)
    else if not (str_eq rel.id created) || not (is_pending rel.status)
    then (s, Answer.shows rel)
    else publish_once w k rel a x.target s

-- What `PublishPack` does with the outcome of `CreateRelease`.
abbrev pub publish_created :
    World
    → PublishClock
    → PublishInput
    → String
    → Artifact
    → Store × Option Release
    → Store × Answer
publish_created w k x created a (s, none) = (s, Answer.fails constraint)
publish_created w k x created a (s, some r) = publish_release w k x created a r s

unfoldable pub publish_artifact :
    World → PublishClock → PublishInput → Artifact → Store → Store × Answer
unfolding create_release new_release publish_release
publish_artifact w k x a s =
    let created = new_release w k.creating x s in
    publish_created w k x created.id a
      (create_release created (record s { generated = s.generated + 1 }))

abbrev pub fits_input : PublishInput → Artifact → Bool
fits_input x a = str_eq a.pack_id x.pack_id && str_eq a.pack_version_id x.pack_version_id && a.ready

unfoldable pub publish_pack : World → PublishClock → PublishInput → Store → Store × Answer
unfolding validate_publish_input publish_artifact
publish_pack w k x s =
    if not (validate_publish_input x)
    then (s, Answer.fails invalid_input)
    else if not (w.has_version x.pack_id x.pack_version_id)
    then (s, Answer.fails version_not_found)
    else elim (w.artifact x.artifact_id) [
      | none ↦ (s, Answer.fails artifact_not_found)
      | some a ↦
          let rest = publish_artifact w k x a s in
          if not (fits_input x a) then (s, Answer.fails artifact_not_ready) else rest
    ]

abbrev pub is_failed : ReleaseStatus → Bool
is_failed failed = true
is_failed _ = false

unfoldable pub retry_publish : World → PublishClock → String → Target → Store → Store × Answer
unfolding find_release publish_once
retry_publish w k id target s = elim (find_release id s.releases) [
  | none ↦ (s, Answer.fails release_not_found)
  | some rel ↦
      if not (is_failed rel.status)
      then (s, Answer.fails not_retryable)
      else elim (w.artifact rel.artifact_id) [
        | none ↦ (s, Answer.fails store_not_found)
        | some a ↦ publish_once w k rel a target s
      ]
]

-- The provider's answer to a probe replaces the remote state.
abbrev pub probed : Remote → RemoteState
probed x = record {
  request = none;
  fields =
      record { name = "status"; value = x.status }
      ∷ record { name = "url"; value = x.url }
      ∷ record { name = "detail"; value = x.detail }
      ∷ [];
}

unfoldable pub poll_found : World → ℕ → Release → Store → Store × Answer
unfolding normalize_remote_status finish_and_show
poll_found w at rel s =
    if str_eq rel.provider "local" || not (is_publishing rel.status)
    then (s, Answer.shows rel)
    else elim (w.adapter rel.provider) [
      | none ↦ (s, Answer.shows_failed rel status_unavailable)
      | some adapter ↦ elim (adapter.remote_status rel.remote_id) [
        | none ↦ (s, Answer.shows_failed rel status_unavailable)
        | some x ↦
            finish_and_show rel.id
              (record {
                status = normalize_remote_status x.status;
                remote_id = x.id;
                remote_state = probed x;
                error_code = "";
                error_message = "";
              })
              at s
      ]
    ]

unfoldable pub poll_release : World → ℕ → String → Store → Store × Answer
unfolding find_release poll_found
poll_release w at id s = elim (find_release id s.releases) [
  | none ↦ (s, Answer.fails store_not_found)
  | some rel ↦ poll_found w at rel s
]

-- ===== src/Publishing/Service.antt =====
-- apps/server/internal/service/publish.go: the checks of an input, the statuses of a provider, the
-- remote state, and the part of `publishOnce` from the call of the provider on.
use m_pack_station.Base.{
  ℕ, String, Bool, if◌then◌else◌, ◌∷◌, none, not, ◌||◌, str_eq, [], some, ◌&&◌, Option,
}
use m_pack_station.Publishing.Words.{reads_as, is_blank}
use m_pack_station.Publishing.Store.{find_release, Finish, finish_release}
use m_pack_station.Publishing.Model.{
  World, RemoteState, Release, ReleaseStatus, Remote, PublishInput, Store, Target, Fields, Answer,
  Artifact, failed, succeeded, publish_failed, publishing, store_not_found, PublishError,
}

unfoldable pub validate_publish_input : PublishInput → Bool
unfolding is_blank
validate_publish_input x =
    not (
      is_blank x.pack_id
      || is_blank x.pack_version_id
      || is_blank x.provider
      || is_blank x.artifact_id
      || is_blank x.idempotency_key)
    && (str_eq x.provider "local" || str_eq x.provider "curseforge" || str_eq x.provider "modrinth")

unfoldable pub normalize_remote_status : String → ReleaseStatus
unfolding reads_as
normalize_remote_status s =
    if reads_as s "succeeded"
      || reads_as s "success"
      || reads_as s "published"
      || reads_as s "complete"
      || reads_as s "completed"
    then succeeded
    else if reads_as s "failed" || reads_as s "error" || reads_as s "rejected"
    then failed
    else publishing

-- A member of a JSON object, set.
unfoldable pub set_field : String → String → Fields → Fields
set_field name value [] = record { name = name; value = value } ∷ []
set_field name value (f ∷ fs) =
    let rest = set_field name value fs in
    if str_eq f.name name then record { name = name; value = value } ∷ fs else f ∷ rest

-- mergeRemoteState
unfoldable pub merge_remote_state : Fields → RemoteState → RemoteState
unfolding set_field
merge_remote_state [] s = s
merge_remote_state (f ∷ fs) s =
    merge_remote_state fs (record s { fields = set_field f.name f.value s.fields })

abbrev pub empty_state : RemoteState
empty_state = record { request = none; fields = [] }

-- The members of one object over those of another.
abbrev pub over : RemoteState → RemoteState → RemoteState
over incoming base =
    let merged = merge_remote_state incoming.fields base in
    record merged { request = elim incoming.request [ none ↦ merged.request | some t ↦ some t ] }

-- The release as it is now, with an error.
abbrev pub latest_failed : String → Store → Store × Answer
latest_failed id s = elim (find_release id s.releases) [
  | none ↦ (s, Answer.fails store_not_found)
  | some r ↦ (s, Answer.shows_failed r publish_failed)
]

abbrev pub latest : String → PublishError → Store → Store × Answer
latest id e s = elim (find_release id s.releases) [
  | none ↦ (s, Answer.fails e)
  | some r ↦ (s, Answer.shows r)
]

abbrev pub failure : RemoteState → String → String → Finish
failure state code message = record {
  status = failed;
  remote_id = "";
  remote_state = state;
  error_code = code;
  error_message = message;
}

-- The state that a failure leaves: what was there, the code, and what the provider said.
abbrev pub failure_state : String → RemoteState → String → Store → RemoteState
failure_state id state code s = elim (find_release id s.releases) [
  | none ↦ state
  | some prior ↦
      over state
        (merge_remote_state (record { name = "errorCode"; value = code } ∷ []) prior.remote_state)
]

-- finishPublishFailureWithState, which does not look at the outcome of its write.
unfoldable pub finish_publish_failure : String → RemoteState → String → ℕ → Store → Store × Answer
unfolding find_release finish_release merge_remote_state
finish_publish_failure id state code at s =
    latest_failed id
      (finish_release id
        (failure (failure_state id state code s) code "provider publication failed") at s).0

abbrev pub shown : String → Store × Option PublishError → Store × Answer
shown id (s, some e) = (s, Answer.fails e)
shown id (s, none) = latest id store_not_found s

-- A write of a remote state, and the release as it is then.
unfoldable pub finish_and_show : String → Finish → ℕ → Store → Store × Answer
unfolding find_release finish_release
finish_and_show id x at s = shown id (finish_release id x at s)

abbrev pub answered : Remote → RemoteState → RemoteState
answered x state =
    merge_remote_state
      (record { name = "status"; value = x.status } ∷ record { name = "url"; value = x.url } ∷ [])
      state

-- What the provider answered to the publication.
unfoldable pub settle_publish : Release → Remote → ℕ → Store → Store × Answer
unfolding normalize_remote_status merge_remote_state finish_publish_failure finish_and_show
settle_publish rel x at s = elim (normalize_remote_status x.status) [
  | failed ↦ finish_publish_failure rel.id (answered x rel.remote_state) "publish_failed" at s
  | status ↦
      finish_and_show rel.id
        (record {
          status = status;
          remote_id = x.id;
          remote_state = answered x rel.remote_state;
          error_code = "";
          error_message = "";
        })
        at s
]

-- The call of the provider.
unfoldable pub ask_provider : World → ℕ → Release → Artifact → Target → Store → Store × Answer
unfolding settle_publish finish_publish_failure
ask_provider w at rel a target s = elim (w.adapter rel.provider) [
  | none ↦ finish_publish_failure rel.id empty_state "provider_unavailable" at s
  | some adapter ↦
      let s' = record s { published = rel.id ∷ s.published } in
      elim (adapter.publish target a.path) [
        | none ↦ finish_publish_failure rel.id empty_state "publish_failed" at s'
        | some x ↦ settle_publish rel x at s'
      ]
]

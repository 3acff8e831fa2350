-- ===== src/Publishing/Store.antt =====
-- apps/server/internal/store/publish_repo.go: the statements on `releases`, whose schema makes ids
-- unique, the pair of provider and idempotency key, and the pair of provider and remote id where the
-- latter is not empty.
use m_pack_station.Base.{
  ℕ, String, List, Option, Bool, none, str_eq, some, ◌∷◌, true, not, if◌then◌else◌, ◌&&◌, false,
  is_some, any, [],
}
use m_pack_station.Publishing.Model.{
  ReleaseStatus, Store, Release, publishing, RemoteState, PublishError, conflict, constraint,
  pending, failed,
}

-- GetRelease
unfoldable pub find_release : String → List Release → Option Release
find_release id [] = none
find_release id (r ∷ rs) = let rest = find_release id rs in if str_eq r.id id then some r else rest

abbrev pub has_key : String → String → Release → Bool
has_key provider key r = str_eq r.provider provider && str_eq r.idempotency_key key

-- GetReleaseByKey
unfoldable pub find_by_key : String → String → List Release → Option Release
find_by_key provider key [] = none
find_by_key provider key (r ∷ rs) =
    let rest = find_by_key provider key rs in if has_key provider key r then some r else rest

-- CreateRelease: nothing is inserted where the key is bound, and the bound release is returned.
unfoldable pub create_release : Release → Store → Store × Option Release
unfolding find_release find_by_key
create_release rel s = elim (find_by_key rel.provider rel.idempotency_key s.releases) [
  | some r ↦ (s, some r)
  | none ↦
      if is_some (find_release rel.id s.releases)
      then (s, none)
      else (record s { releases = rel ∷ s.releases }, some rel)
]

-- UPDATE releases SET … WHERE id=? AND …
unfoldable pub update_release : (Release → Bool) → (Release → Release) → List Release → List Release
update_release p f [] = []
update_release p f (r ∷ rs) = (if p r then f r else r) ∷ update_release p f rs

abbrev pub is_publishing : ReleaseStatus → Bool
is_publishing publishing = true
is_publishing _ = false

-- status IN ('pending','failed')
abbrev pub is_reservable : ReleaseStatus → Bool
is_reservable pending = true
is_reservable failed = true
is_reservable _ = false

abbrev pub reserved : ℕ → Release → Release
reserved at r = record r {
  status = publishing;
  error_code = "";
  error_message = "";
  updated_at = at;
}

-- SetReleasePublishing: whether it reserved the release.
unfoldable pub set_release_publishing : String → ℕ → Store → Store × Bool
unfolding update_release
set_release_publishing id at s =
    let p = λ (r : Release). str_eq r.id id && is_reservable r.status in
    if any p s.releases
    then (record s { releases = update_release p (reserved at) s.releases }, true)
    else (s, false)

-- What FinishRelease writes.
pub record Finish : Type 0 where
  pub status : ReleaseStatus
  pub remote_id : String
  pub remote_state : RemoteState
  pub error_code : String
  pub error_message : String

abbrev pub finished : Finish → ℕ → Release → Release
finished x at r = record r {
  status = x.status;
  remote_id = x.remote_id;
  remote_state = x.remote_state;
  error_code = x.error_code;
  error_message = x.error_message;
  updated_at = at;
}

-- Another release of the provider has the remote id.
abbrev pub remote_taken : Release → String → List Release → Bool
remote_taken rel remote rs =
    not (str_eq remote "")
    && any
        (λ (r : Release).
          str_eq r.provider rel.provider && str_eq r.remote_id remote && not (str_eq r.id rel.id))
        rs

-- FinishRelease: the error, if there is one.
unfoldable pub finish_release : String → Finish → ℕ → Store → Store × Option PublishError
unfolding find_release update_release
finish_release id x at s = elim (find_release id s.releases) [
  | none ↦ (s, some conflict)
  | some rel ↦
      if not (is_publishing rel.status)
      then (s, some conflict)
      else if remote_taken rel x.remote_id s.releases
      then (s, some constraint)
      else (
        record s {
          releases =
              update_release (λ r. str_eq r.id id && is_publishing r.status) (finished x at)
                s.releases;
        },
        none,
      )
]

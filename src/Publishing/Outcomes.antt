-- ===== src/Publishing/Outcomes.antt =====
-- Two outcomes of apps/server/internal/service/publish.go: a second local release of one artifact,
-- and what a poll leaves of the request.
use m_pack_station.Base.{
  ℕ, String, List, Bool, ◌≡◌, any, some, ◌∷◌, true, if◌then◌else◌, Bool-cases, str_eq, inl, ◌&&◌,
  inr, str_eq→eq, ap, not, refl, [], false, none, subst, sym,
}
use m_pack_station.Publishing.Store.{
  update_release, find_release, set_release_publishing, finish_release, Finish, is_reservable,
  is_publishing, remote_taken, reserved, finished,
}
use m_pack_station.Publishing.Service.{finish_and_show, normalize_remote_status, shown}
use m_pack_station.Publishing.Publish.{
  publish_once, publish_reserved, retry_publish, poll_release, poll_found, other_target, probed,
}
use m_pack_station.Publishing.Model.{
  Release, World, Store, ReleaseStatus, PublishClock, Artifact, Target, constraint, Answer,
  not_retryable, Adapter, Remote,
}
use m_pack_station.Publishing.Once.{shown-same}

any-update_release :
    (t : Release → Bool) (p : Release → Bool) (f : Release → Release) (rs : List Release)
    → ((r : Release) → t (f r) ≡ t r)
    → any t (update_release p f rs) ≡ any t rs
unfolding update_release
any-update_release t p f [] same = refl
any-update_release t p f (r ∷ rs) same =
    let first : t (if p r then f r else r) ≡ t r = elim (Bool-cases (p r)) [
      | inl e ↦ rw e (same r)
      | inr e ↦ rw e
    ] in
    rw (first, any-update_release t p f rs same)

find_release-id :
    (id : String) (rs : List Release) {r : Release} → find_release id rs ≡ some r → r.id ≡ id
unfolding find_release
find_release-id id [] h = absurd (cc)
find_release-id id (x ∷ xs) h = elim (Bool-cases (str_eq x.id id)) [
  | inl e ↦ cc (str_eq→eq x.id id e, rw e at h)
  | inr e ↦ find_release-id id xs (rw e at h)
]

-- A read after an UPDATE of the row with the id.
find_release-update_release :
    (id : String) (t : ReleaseStatus → Bool) (f : Release → Release) (rs : List Release)
    {r : Release}
    → ((x : Release) → (f x).id ≡ x.id)
    → find_release id rs ≡ some r
    → t r.status ≡ true
    → find_release id (update_release (λ x. str_eq x.id id && t x.status) f rs) ≡ some (f r)
unfolding find_release update_release
find_release-update_release id t f [] keeps h b = absurd (cc)
find_release-update_release id t f (x ∷ xs) {r = r} keeps h b = elim (Bool-cases (str_eq x.id id)) [
  | inl e ↦
      let same : x ≡ r = cc (rw e at h) in
      let hit : t x.status ≡ true = rw same b in
      let keep : str_eq (f x).id id ≡ true = rw (keeps x) e in
      rw (e, hit, keep) (ap (λ y. some (f y)) same)
  | inr e ↦ rw (e, e) (find_release-update_release id t f xs keeps (rw e at h) b)
]

any-found :
    (id : String) (t : ReleaseStatus → Bool) (rs : List Release) {r : Release}
    → find_release id rs ≡ some r
    → t r.status ≡ true
    → any (λ (x : Release). str_eq x.id id && t x.status) rs ≡ true
unfolding find_release
any-found id t [] h b = absurd (cc)
any-found id t (x ∷ xs) {r = r} h b = elim (Bool-cases (str_eq x.id id)) [
  | inl e ↦
      let same : x ≡ r = cc (rw e at h) in let hit : t x.status ≡ true = rw same b in rw (e, hit)
  | inr e ↦ rw e (any-found id t xs (rw e at h) b)
]

set_release_publishing-ok :
    (at : ℕ) (s : Store) (rel : Release)
    → find_release rel.id s.releases ≡ some rel
    → is_reservable rel.status ≡ true
    → set_release_publishing rel.id at s ≡ (
      record s {
        releases =
            update_release
              (λ r. str_eq r.id rel.id && is_reservable r.status)
              (reserved at)
              s.releases;
      },
      true,
    )
unfolding set_release_publishing
set_release_publishing-ok at s rel there b =
    rw (any-found rel.id is_reservable s.releases there b, set_release_publishing)

finish_release-taken :
    (id : String) (x : Finish) (at : ℕ) (s : Store) {r : Release}
    → find_release id s.releases ≡ some r
    → is_publishing r.status ≡ true
    → remote_taken r x.remote_id s.releases ≡ true
    → finish_release id x at s ≡ (s, some constraint)
unfolding finish_release
finish_release-taken id x at s e b d = rw (e, finish_release, b, d)

finish_and_show-taken :
    (id : String) (x : Finish) (at : ℕ) (s : Store) {r : Release}
    → find_release id s.releases ≡ some r
    → is_publishing r.status ≡ true
    → remote_taken r x.remote_id s.releases ≡ true
    → finish_and_show id x at s ≡ (s, Answer.fails constraint)
unfolding finish_and_show
finish_and_show-taken id x at s e b d = ap (shown id) (finish_release-taken id x at s e b d)

finish_release-done :
    (id : String) (x : Finish) (at : ℕ) (s : Store) {r : Release}
    → find_release id s.releases ≡ some r
    → is_publishing r.status ≡ true
    → remote_taken r x.remote_id s.releases ≡ false
    → finish_release id x at s ≡ (
      record s {
        releases =
            update_release
              (λ y. str_eq y.id id && is_publishing y.status)
              (finished x at)
              s.releases;
      },
      none,
    )
unfolding finish_release
finish_release-done id x at s e b d = rw (e, finish_release, b, d)

finish_and_show-done :
    (id : String) (x : Finish) (at : ℕ) (s : Store) {r : Release}
    → find_release id s.releases ≡ some r
    → is_publishing r.status ≡ true
    → remote_taken r x.remote_id s.releases ≡ false
    → find_release id (finish_and_show id x at s).0.releases ≡ some (finished x at r)
unfolding finish_and_show
finish_and_show-done id x at s e b d =
    rw (shown-same, finish_release-done id x at s e b d)
      (find_release-update_release id is_publishing (finished x at) s.releases (λ y. refl) e b)

-- A local release whose artifact is the remote id of another local release already is reserved, but
-- its result is refused by the unique index on remote ids: the call reports the error of the store,
-- the release stays `publishing`, no retry is allowed and no poll changes it.
pub local_release-stuck :
    (w : World) (k : PublishClock) (rel : Release) (a : Artifact) (target : Target) (s : Store)
    → w.intact a ≡ true
    → str_eq rel.provider "local" ≡ true
    → find_release rel.id s.releases ≡ some rel
    → is_reservable rel.status ≡ true
    → remote_taken rel a.id s.releases ≡ true
    → let s' = (set_release_publishing rel.id k.reserving s).0 in
      (publish_once w k rel a target s ≡ (s', Answer.fails constraint))
      × (find_release rel.id s'.releases ≡ some (reserved k.reserving rel))
      × (retry_publish w k rel.id target s' ≡ (s', Answer.fails not_retryable))
      × (poll_release w k.finishing rel.id s' ≡ (s', Answer.shows (reserved k.reserving rel)))
unfolding publish_once publish_reserved retry_publish poll_release poll_found
local_release-stuck w k rel a target s whole here there open_row taken =
    let ok_reserve = set_release_publishing-ok k.reserving s rel there open_row in
    let rs =
      update_release (λ r. str_eq r.id rel.id && is_reservable r.status) (reserved k.reserving)
        s.releases in
    let now_there : find_release rel.id rs ≡ some (reserved k.reserving rel) =
      find_release-update_release rel.id is_reservable (reserved k.reserving) s.releases (λ x. refl)
        there open_row in
    let still : remote_taken (reserved k.reserving rel) a.id rs ≡ true =
      rw
        (any-update_release
          (λ (r : Release).
            str_eq r.provider rel.provider && str_eq r.remote_id a.id && not (str_eq r.id rel.id))
          (λ r. str_eq r.id rel.id && is_reservable r.status) (reserved k.reserving) s.releases
          (λ r. refl))
        taken in
    rw ok_reserve (
      rw (whole, here)
          (finish_and_show-taken rel.id _ k.finishing (record s { releases = rs }) now_there refl
            still),
      now_there,
      rw (now_there, retry_publish),
      rw (now_there, poll_release, here),
    )

-- A poll that the provider answers, under a remote id that no other release of the provider has,
-- replaces the whole remote state: afterwards no target, whatever it is, counts as another one than
-- the release was asked for with, so that its key no longer guards the project and the version.
pub poll_release-forgets :
    (w : World) (at : ℕ) (id : String) (s : Store) (t : Target) {rel : Release} {adapter : Adapter}
    {x : Remote}
    → find_release id s.releases ≡ some rel
    → str_eq rel.provider "local" ≡ false
    → is_publishing rel.status ≡ true
    → w.adapter rel.provider ≡ some adapter
    → adapter.remote_status rel.remote_id ≡ some x
    → remote_taken rel x.id s.releases ≡ false
    → (r : Release) × (find_release id (poll_release w at id s).0.releases ≡ some r)
      × (other_target t r.remote_state ≡ false)
unfolding poll_release poll_found
poll_release-forgets w at id s t {rel = rel} {x = x} there remote open_row known told free =
    let same : rel.id ≡ id = find_release-id id s.releases there in
    let write : Finish = record {
      status = normalize_remote_status x.status;
      remote_id = x.id;
      remote_state = probed x;
      error_code = "";
      error_message = "";
    } in
    (
      finished write at rel,
      rw (there, poll_release, remote, open_row, known, poll_found, told)
          (subst
            (λ y.
              find_release id (finish_and_show y write at s).0.releases
              ≡ some (finished write at rel))
            (sym same) (finish_and_show-done id write at s there open_row free)),
      refl,
    )

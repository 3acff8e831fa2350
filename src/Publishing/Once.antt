-- ===== src/Publishing/Once.antt =====
-- How often apps/server/internal/service/publish.go asks a provider to publish a release.
use m_pack_station.Base.{
  ℕ, String, List, All, ◌∷◌, str_eq, ◌≡◌, false, [], Bool, true, arith, Bool-cases, any, ◌&&◌, inl,
  inr, refl, not, Option-cases, ◌∙◌, Option, some, none,
}
use m_pack_station.Publishing.Model.{
  Store, Release, pending, PublishError, RemoteState, PublishClock, Remote, ReleaseStatus,
  publishing, canceled, failed, succeeded, store_not_found,
}
use m_pack_station.Publishing.Store.{
  finish_release, set_release_publishing, find_release, update_release, Finish, is_reservable,
  reserved, is_publishing, remote_taken, finished,
}
use m_pack_station.Publishing.Service.{
  latest_failed, finish_and_show, finish_publish_failure, normalize_remote_status, settle_publish,
  latest, failure, failure_state, empty_state, answered, shown,
}
use m_pack_station.Publishing.Publish.{is_pending, publish_missing}

abbrev pub has_row : String → List Release → Bool
has_row id = any (λ r. str_eq r.id id)

abbrev pub pending_row : String → List Release → Bool
pending_row id = any (λ r. str_eq r.id id && is_pending r.status)

-- The release is in the table and not pending.
abbrev pub passed : String → List Release → Bool
passed id rs = has_row id rs && not (pending_row id rs)

abbrev pub Absent : String → List String → Type 0
Absent id = All (λ p. str_eq p id ≡ false)

-- No id occurs twice.
abbrev pub NoRepeat : List String → Type 0
NoRepeat [] = Unit {0}
NoRepeat (p ∷ ps) = Absent p ps × NoRepeat ps

pub record OnceInv (s : Store) : Type 0 where
  pub no_repeat : NoRepeat s.published
  pub all_passed : All (λ p. passed p s.releases ≡ true) s.published

-- An UPDATE that leaves the ids alone and no row pending.
module _ (id : String) (p : Release → Bool) (f : Release → Release)
    (keeps : (r : Release) → (f r).id ≡ r.id)
    (leaves : (r : Release) → is_pending (f r).status ≡ false) where
  has_row-update_release : (rs : List Release) → has_row id (update_release p f rs) ≡ has_row id rs
  unfolding update_release
  has_row-update_release [] = refl
  has_row-update_release (r ∷ rs) = ground (arith, keeps r, has_row-update_release rs)

  pending_row-update_release :
      (rs : List Release)
      → pending_row id rs ≡ false
      → pending_row id (update_release p f rs) ≡ false
  unfolding update_release
  pending_row-update_release [] h = refl
  pending_row-update_release (r ∷ rs) h =
      ground (arith, keeps r, leaves r, pending_row-update_release rs)

  passed-update_release :
      (rs : List Release) → passed id rs ≡ true → passed id (update_release p f rs) ≡ true
  passed-update_release rs h =
      ground (arith, has_row-update_release rs, pending_row-update_release rs)

passed-set_release_publishing :
    (p id : String) (at : ℕ) (s : Store)
    → passed p s.releases ≡ true
    → passed p (set_release_publishing id at s).0.releases ≡ true
unfolding set_release_publishing
passed-set_release_publishing p id at s h =
    elim (Bool-cases (any (λ (r : Release). str_eq r.id id && is_reservable r.status) s.releases)) [
      | inl e ↦ rw e (
          passed-update_release p (λ r. str_eq r.id id && is_reservable r.status) (reserved at)
            (λ r. refl) (λ r. refl) s.releases h)
      | inr e ↦ rw e h
    ]

set_release_publishing-published :
    (id : String) (at : ℕ) (s : Store) → (set_release_publishing id at s).0.published ≡ s.published
unfolding set_release_publishing
set_release_publishing-published id at s = ground arith

finish_release-published :
    (id : String) (x : Finish) (at : ℕ) (s : Store)
    → (finish_release id x at s).0.published ≡ s.published
unfolding finish_release
finish_release-published id x at s = ground arith

-- The reserved release is in the table and not pending.
pending_row-reserved :
    (id : String) (at : ℕ) (rs : List Release)
    → pending_row id
        (update_release (λ r. str_eq r.id id && is_reservable r.status) (reserved at) rs)
      ≡ false
unfolding update_release
pending_row-reserved id at [] = refl
pending_row-reserved id at (r ∷ rs) = ground (arith, pending_row-reserved id at rs)

has_row-reservable :
    (id : String) (rs : List Release)
    → any (λ (r : Release). str_eq r.id id && is_reservable r.status) rs ≡ true
    → has_row id rs ≡ true
has_row-reservable id [] h = h
has_row-reservable id (r ∷ rs) h = ground (arith, has_row-reservable id rs)

pub passed-reserved :
    (id : String) (at : ℕ) (rs : List Release)
    → any (λ (r : Release). str_eq r.id id && is_reservable r.status) rs ≡ true
    → passed id (update_release (λ r. str_eq r.id id && is_reservable r.status) (reserved at) rs)
      ≡ true
passed-reserved id at rs h = rw (
  has_row-update_release id (λ r. str_eq r.id id && is_reservable r.status) (reserved at)
      (λ r. refl) (λ r. refl) rs,
  has_row-reservable id rs h,
  pending_row-reserved id at rs,
)

passed-finish_release :
    (p id : String) (x : Finish) (at : ℕ) (s : Store)
    → is_pending x.status ≡ false
    → passed p s.releases ≡ true
    → passed p (finish_release id x at s).0.releases ≡ true
unfolding finish_release
passed-finish_release p id x at s e h = elim (Option-cases (find_release id s.releases)) [
  | inl a ↦ rw (a, finish_release) h
  | inr (r, a) ↦ elim (Bool-cases (is_publishing r.status)) [
    | inr b ↦ rw (a, finish_release, b) h
    | inl b ↦ elim (Bool-cases (remote_taken r x.remote_id s.releases)) [
      | inl d ↦ rw (a, finish_release, b, d) h
      | inr d ↦
          rw (a, finish_release, b, d)
            (passed-update_release p (λ y. str_eq y.id id && is_publishing y.status) (finished x at)
              (λ y. refl) (λ y. e) s.releases h)
    ]
  ]
]

-- A step that asks no provider and lets no release fall back to pending.
pub record Quiet (s s' : Store) : Type 0 where
  pub same : s'.published ≡ s.published
  pub keeps : (p : String) → passed p s.releases ≡ true → passed p s'.releases ≡ true

pub All-passed :
    (ps : List String) (rs rs' : List Release)
    → ((p : String) → passed p rs ≡ true → passed p rs' ≡ true)
    → All (λ p. passed p rs ≡ true) ps
    → All (λ p. passed p rs' ≡ true) ps
All-passed [] rs rs' f h = tt
All-passed (p ∷ ps) rs rs' f h = (f p h.0, All-passed ps rs rs' f h.1)

pub Quiet-OnceInv : {s s' : Store} → Quiet s s' → OnceInv s → OnceInv s'
Quiet-OnceInv {s = s} {s' = s'} q v = record {
  no_repeat = rw q.same v.no_repeat;
  all_passed = rw q.same (All-passed s.published s.releases s'.releases q.keeps v.all_passed);
}

Quiet-trans : {s t u : Store} → Quiet s t → Quiet t u → Quiet s u
Quiet-trans a b = record { same = b.same ∙ a.same; keeps = λ p h. b.keeps p (a.keeps p h) }

finish_release-Quiet :
    (id : String) (x : Finish) (at : ℕ) (s : Store)
    → is_pending x.status ≡ false
    → Quiet s (finish_release id x at s).0
finish_release-Quiet id x at s e = record {
  same = finish_release-published id x at s;
  keeps = λ p. passed-finish_release p id x at s e;
}

pub set_release_publishing-Quiet :
    (id : String) (at : ℕ) (s : Store) → Quiet s (set_release_publishing id at s).0
set_release_publishing-Quiet id at s = record {
  same = set_release_publishing-published id at s;
  keeps = λ p. passed-set_release_publishing p id at s;
}

pub latest-same : (id : String) (e : PublishError) (s : Store) → (latest id e s).0 ≡ s
latest-same id e s = ground arith

latest_failed-same : (id : String) (s : Store) → (latest_failed id s).0 ≡ s
latest_failed-same id s = ground arith

pub shown-same : (id : String) (o : Store × Option PublishError) → (shown id o).0 ≡ o.0
shown-same id (s, some e) = refl
shown-same id (s, none) = latest-same id store_not_found s

pub finish_and_show-Quiet :
    (id : String) (x : Finish) (at : ℕ) (s : Store)
    → is_pending x.status ≡ false
    → Quiet s (finish_and_show id x at s).0
unfolding finish_and_show
finish_and_show-Quiet id x at s e = rw shown-same (finish_release-Quiet id x at s e)

pub finish_publish_failure-Quiet :
    (id : String) (state : RemoteState) (code : String) (at : ℕ) (s : Store)
    → Quiet s (finish_publish_failure id state code at s).0
unfolding finish_publish_failure
finish_publish_failure-Quiet id state code at s = rw latest_failed-same (
    finish_release-Quiet id
      (failure (failure_state id state code s) code "provider publication failed") at s refl)

pub publish_missing-Quiet :
    (k : PublishClock) (rel : Release) (s : Store) → Quiet s (publish_missing k rel s).0
unfolding publish_missing
publish_missing-Quiet k rel s = rw latest_failed-same (
    Quiet-trans (set_release_publishing-Quiet rel.id k.reserving s) (
      finish_release-Quiet rel.id (failure empty_state "artifact_missing" "artifact is unavailable")
        k.finishing (set_release_publishing rel.id k.reserving s).0 refl))

pub normalize-ne-pending : (t : String) → normalize_remote_status t ≡ pending → ⊥
unfolding normalize_remote_status
normalize-ne-pending t h = ground arith

pub settle_publish-Quiet :
    (rel : Release) (x : Remote) (at : ℕ) (s : Store) → Quiet s (settle_publish rel x at s).0
unfolding settle_publish
settle_publish-Quiet rel x at s = go (normalize_remote_status x.status) refl
  where
    go :
        (n : ReleaseStatus)
        → normalize_remote_status x.status ≡ n
        → Quiet s (settle_publish rel x at s).0
    go failed e =
        rw (e, settle_publish)
          (finish_publish_failure-Quiet rel.id (answered x rel.remote_state) "publish_failed" at s)
    go succeeded e = rw (e, settle_publish) (finish_and_show-Quiet rel.id _ at s refl)
    go publishing e = rw (e, settle_publish) (finish_and_show-Quiet rel.id _ at s refl)
    go canceled e = rw (e, settle_publish) (finish_and_show-Quiet rel.id _ at s refl)
    go pending e = absurd (normalize-ne-pending x.status e)

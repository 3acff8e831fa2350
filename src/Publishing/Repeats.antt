-- ===== src/Publishing/Repeats.antt =====
-- Histories of the calls of apps/server/internal/service/publish.go.
use m_pack_station.Base.{
  ℕ, String, List, ◌≡◌, is_some, true, some, false, Bool-cases, ◌∷◌, str_eq, inl, Option-cases, inr,
  [], arith, eq_refl, sym, ◌∙◌, ◌+◌, none, ◌||◌, not,
}
use m_pack_station.Publishing.Model.{
  World, Release, Store, Artifact, PublishClock, PublishInput, ReleaseStatus, pending,
}
use m_pack_station.Publishing.Store.{find_release, find_by_key, create_release, is_publishing}
use m_pack_station.Publishing.Service.{validate_publish_input, normalize_remote_status}
use m_pack_station.Publishing.Publish.{
  is_pending, publish_artifact, publish_pack, poll_found, poll_release, new_release, fits_input,
  publish_created,
}
use m_pack_station.Publishing.Once.{
  OnceInv, Quiet-OnceInv, finish_and_show-Quiet, has_row, pending_row, NoRepeat,
  normalize-ne-pending,
}
use m_pack_station.Publishing.Histories.{
  publish_release-OnceInv, has_row-find_release, pending_row-find_by_key, created-OnceInv,
}

create_release-bound :
    (rel : Release) (s : Store) {r : Release}
    → find_by_key rel.provider rel.idempotency_key s.releases ≡ some r
    → create_release rel s ≡ (s, some r)
unfolding create_release
create_release-bound rel s e = rw (e, create_release)

create_release-taken :
    (rel : Release) (s : Store)
    → find_by_key rel.provider rel.idempotency_key s.releases ≡ none
    → is_some (find_release rel.id s.releases) ≡ true
    → create_release rel s ≡ (s, none)
unfolding create_release
create_release-taken rel s e b = rw (e, create_release, b)

create_release-made :
    (rel : Release) (s : Store)
    → find_by_key rel.provider rel.idempotency_key s.releases ≡ none
    → is_some (find_release rel.id s.releases) ≡ false
    → create_release rel s ≡ (record s { releases = rel ∷ s.releases }, some rel)
unfolding create_release
create_release-made rel s e b = rw (e, create_release, b)

publish_created-OnceInv :
    (w : World) (k : PublishClock) (x : PublishInput) (created : Release) (a : Artifact) (s : Store)
    → OnceInv s
    → OnceInv (publish_created w k x created.id a (create_release created s)).0
publish_created-OnceInv w k x created a s v =
    elim (Option-cases (find_by_key created.provider created.idempotency_key s.releases)) [
      | inr (r, e) ↦ rw (create_release-bound created s e) (
          publish_release-OnceInv w k x created.id a r s v (λ p.
            let there : pending_row r.id s.releases ≡ true =
              pending_row-find_by_key created.provider created.idempotency_key s.releases e p in
            ground arith))
      | inl e ↦ elim (Bool-cases (is_some (find_release created.id s.releases))) [
        | inl b ↦ rw (create_release-taken created s e b) v
        | inr b ↦
            let free : has_row created.id s.releases ≡ false =
              sym (has_row-find_release created.id s.releases) ∙ b in
            rw (create_release-made created s e b) (
              publish_release-OnceInv w k x created.id a created
                (record s { releases = created ∷ s.releases }) (created-OnceInv created s b v)
                (λ p. rw (eq_refl created.id, p)))
      ]
    ]

publish_artifact-OnceInv :
    (w : World) (k : PublishClock) (x : PublishInput) (a : Artifact) (s : Store)
    → OnceInv s
    → OnceInv (publish_artifact w k x a s).0
unfolding publish_artifact
publish_artifact-OnceInv w k x a s v =
    publish_created-OnceInv w k x (new_release w k.creating x s) a
      (record s { generated = s.generated + 1 })
      (record { no_repeat = v.no_repeat; all_passed = v.all_passed })

publish_pack-OnceInv :
    (w : World) (k : PublishClock) (x : PublishInput) (s : Store)
    → OnceInv s
    → OnceInv (publish_pack w k x s).0
unfolding publish_pack
publish_pack-OnceInv w k x s v = elim (Bool-cases (validate_publish_input x)) [
  | inr e ↦ rw e v
  | inl e ↦ elim (Bool-cases (w.has_version x.pack_id x.pack_version_id)) [
    | inr b ↦ rw (e, b) v
    | inl b ↦ elim (Option-cases (w.artifact x.artifact_id)) [
      | inl d ↦ rw (e, b, d, publish_pack) v
      | inr (a, d) ↦ elim (Bool-cases (fits_input x a)) [
        | inr g ↦ rw (e, b, d, publish_pack, g) v
        | inl g ↦ rw (e, b, d, publish_pack, g) (publish_artifact-OnceInv w k x a s v)
      ]
    ]
  ]
]

poll_found-Quiet :
    (w : World) (at : ℕ) (rel : Release) (s : Store) → OnceInv s → OnceInv (poll_found w at rel s).0
unfolding poll_found
poll_found-Quiet w at rel s v =
    elim (Bool-cases (str_eq rel.provider "local" || not (is_publishing rel.status))) [
      | inl e ↦ rw e v
      | inr e ↦ elim (Option-cases (w.adapter rel.provider)) [
        | inl b ↦ rw (e, b, poll_found) v
        | inr (adapter, b) ↦ elim (Option-cases (adapter.remote_status rel.remote_id)) [
          | inl d ↦ rw (e, b, poll_found, d) v
          | inr (x, d) ↦
              rw (e, b, poll_found, d)
                (Quiet-OnceInv (finish_and_show-Quiet rel.id _ at s (not_pending x.status)) v)
        ]
      ]
    ]
  where
    pending_of : (n : ReleaseStatus) → is_pending n ≡ true → n ≡ pending
    pending_of n e = ground arith

    not_pending : (t : String) → is_pending (normalize_remote_status t) ≡ false
    not_pending t = elim (Bool-cases (is_pending (normalize_remote_status t))) [
      | inr e ↦ e
      | inl e ↦ absurd (normalize-ne-pending t (pending_of (normalize_remote_status t) e))
    ]

poll_release-OnceInv :
    (w : World) (at : ℕ) (id : String) (s : Store) → OnceInv s → OnceInv (poll_release w at id s).0
unfolding poll_release
poll_release-OnceInv w at id s v = elim (Option-cases (find_release id s.releases)) [
  | inl e ↦ rw (e, poll_release) v
  | inr (r, e) ↦ rw (e, poll_release) (poll_found-Quiet w at r s v)
]

-- A call that does not retry, with what the service is given at the time.
pub data PublishCall : Type 0 where
  publishes : World → PublishClock → PublishInput → PublishCall
  polls : World → ℕ → String → PublishCall

unfoldable pub publish_step : PublishCall → Store → Store
publish_step (publishes w k x) s = (publish_pack w k x s).0
publish_step (polls w at id) s = (poll_release w at id s).0

unfoldable pub run_publishing : List PublishCall → Store → Store
run_publishing [] s = s
run_publishing (x ∷ xs) s = run_publishing xs (publish_step x s)

unfoldable pub new_store : Store
new_store = record { releases = []; generated = 0; published = [] }

run_publishing-OnceInv :
    (xs : List PublishCall) (s : Store) → OnceInv s → OnceInv (run_publishing xs s)
unfolding run_publishing publish_step
run_publishing-OnceInv [] s v = v
run_publishing-OnceInv (publishes w k x ∷ xs) s v =
    run_publishing-OnceInv xs (publish_pack w k x s).0 (publish_pack-OnceInv w k x s v)
run_publishing-OnceInv (polls w at id ∷ xs) s v =
    run_publishing-OnceInv xs (poll_release w at id s).0 (poll_release-OnceInv w at id s v)

-- After any publications and polls, with repeated keys, failures and answers of any kind, no
-- release has been handed to its provider twice: without an explicit retry, repeated requests cause
-- no second publication.
pub run_publishing-NoRepeat :
    (xs : List PublishCall) → NoRepeat (run_publishing xs new_store).published
unfolding new_store
run_publishing-NoRepeat xs =
    (run_publishing-OnceInv xs new_store (record { no_repeat = tt; all_passed = tt })).no_repeat

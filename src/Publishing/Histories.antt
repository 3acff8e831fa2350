-- ===== src/Publishing/Histories.antt =====
-- `publishOnce` of apps/server/internal/service/publish.go asks a provider for a release that was
-- not asked for before.
use m_pack_station.Base.{
  ℕ, String, List, ◌≡◌, is_some, true, some, false, Bool-cases, All, ◌∷◌, str_eq, any, inl,
  Option-cases, ◌&&◌, inr, subst, str_eq→eq, [], arith, refl, eq_refl, sym, ◌∙◌,
}
use m_pack_station.Publishing.Model.{
  World, Release, Store, Artifact, PublishClock, Target, PublishInput,
}
use m_pack_station.Publishing.Store.{
  set_release_publishing, find_release, find_by_key, is_reservable, has_key,
}
use m_pack_station.Publishing.Service.{ask_provider, empty_state}
use m_pack_station.Publishing.Publish.{
  publish_reserved, publish_release, is_pending, publish_once, matches_input, other_target,
}
use m_pack_station.Publishing.Once.{
  OnceInv, passed, Absent, Quiet-OnceInv, finish_publish_failure-Quiet, finish_and_show-Quiet,
  passed-reserved, publish_missing-Quiet, has_row, pending_row, set_release_publishing-Quiet,
  settle_publish-Quiet, latest-same, All-passed,
}

not_passed-Absent :
    (id : String) (rs : List Release) (ps : List String)
    → passed id rs ≡ false
    → All (λ p. passed p rs ≡ true) ps
    → Absent id ps
not_passed-Absent id rs [] e h = tt
not_passed-Absent id rs (p ∷ ps) e h = elim (Bool-cases (str_eq p id)) [
  | inl same ↦
      let k : passed id rs ≡ true = subst (λ x. passed x rs ≡ true) (str_eq→eq p id same) h.0 in
      absurd (cc)
  | inr b ↦ (b, not_passed-Absent id rs ps e h.1)
]

asked-OnceInv :
    (id : String) (s : Store)
    → OnceInv s
    → Absent id s.published
    → passed id s.releases ≡ true
    → OnceInv (record s { published = id ∷ s.published })
asked-OnceInv id s v a h = record { no_repeat = (a, v.no_repeat); all_passed = (h, v.all_passed) }

ask_provider-OnceInv :
    (w : World) (at : ℕ) (rel : Release) (a : Artifact) (target : Target) (s : Store)
    → OnceInv s
    → Absent rel.id s.published
    → passed rel.id s.releases ≡ true
    → OnceInv (ask_provider w at rel a target s).0
unfolding ask_provider
ask_provider-OnceInv w at rel a target s v absent h = elim (Option-cases (w.adapter rel.provider)) [
  | inl e ↦
      rw (e, ask_provider)
        (Quiet-OnceInv (finish_publish_failure-Quiet rel.id empty_state "provider_unavailable" at s)
          v)
  | inr (adapter, e) ↦
      let s' = record s { published = rel.id ∷ s.published } in
      let v' = asked-OnceInv rel.id s v absent h in
      elim (Option-cases (adapter.publish target a.path)) [
        | inl b ↦
            rw (e, ask_provider, b)
              (Quiet-OnceInv
                (finish_publish_failure-Quiet rel.id empty_state "publish_failed" at s') v')
        | inr (x, b) ↦ rw (e, ask_provider, b) (Quiet-OnceInv (settle_publish-Quiet rel x at s') v')
      ]
]

publish_reserved-OnceInv :
    (w : World) (at : ℕ) (rel : Release) (a : Artifact) (target : Target) (s : Store)
    → OnceInv s
    → Absent rel.id s.published
    → passed rel.id s.releases ≡ true
    → OnceInv (publish_reserved w at rel a target s).0
unfolding publish_reserved
publish_reserved-OnceInv w at rel a target s v absent h =
    elim (Bool-cases (str_eq rel.provider "local")) [
      | inl e ↦ rw e (Quiet-OnceInv (finish_and_show-Quiet rel.id _ at s refl) v)
      | inr e ↦ rw e (ask_provider-OnceInv w at rel a target s v absent h)
    ]

set_release_publishing-passed :
    (id : String) (at : ℕ) (s : Store)
    → (set_release_publishing id at s).1 ≡ true
    → passed id (set_release_publishing id at s).0.releases ≡ true
unfolding set_release_publishing
set_release_publishing-passed id at s h =
    elim (Bool-cases (any (λ (r : Release). str_eq r.id id && is_reservable r.status) s.releases)) [
      | inl e ↦ rw e (passed-reserved id at s.releases e)
      | inr e ↦ let k : false ≡ true = rw e at h in absurd (cc)
    ]

publish_once-OnceInv :
    (w : World) (k : PublishClock) (rel : Release) (a : Artifact) (target : Target) (s : Store)
    → OnceInv s
    → passed rel.id s.releases ≡ false
    → OnceInv (publish_once w k rel a target s).0
unfolding publish_once
publish_once-OnceInv w k rel a target s v h = elim (Bool-cases (w.intact a)) [
  | inr e ↦ rw (e, publish_once) (Quiet-OnceInv (publish_missing-Quiet k rel s) v)
  | inl e ↦
      let quiet = set_release_publishing-Quiet rel.id k.reserving s in
      let v' = Quiet-OnceInv quiet v in
      elim (Bool-cases (set_release_publishing rel.id k.reserving s).1) [
        | inr b ↦ rw (e, publish_once, b, latest-same) v'
        | inl b ↦
            let absent : Absent rel.id (set_release_publishing rel.id k.reserving s).0.published =
              rw quiet.same (not_passed-Absent rel.id s.releases s.published h v.all_passed) in
            rw (e, publish_once, b)
              (publish_reserved-OnceInv w k.finishing rel a target
                (set_release_publishing rel.id k.reserving s).0 v' absent
                (set_release_publishing-passed rel.id k.reserving s b))
      ]
]

pub publish_release-OnceInv :
    (w : World) (k : PublishClock) (x : PublishInput) (created : String) (a : Artifact)
    (rel : Release) (s : Store)
    → OnceInv s
    → (is_pending rel.status ≡ true → passed rel.id s.releases ≡ false)
    → OnceInv (publish_release w k x created a rel s).0
unfolding publish_release
publish_release-OnceInv w k x created a rel s v h = elim (Bool-cases (matches_input x rel)) [
  | inr e ↦ rw e v
  | inl e ↦ elim (Bool-cases (other_target x.target rel.remote_state)) [
    | inl b ↦ rw (e, b) v
    | inr b ↦ elim (Bool-cases (str_eq rel.id created)) [
      | inr d ↦ rw (e, b, d) v
      | inl d ↦ elim (Bool-cases (is_pending rel.status)) [
        | inr g ↦ rw (e, b, d, g) v
        | inl g ↦ rw (e, b, d, g) (publish_once-OnceInv w k rel a x.target s v (h g))
      ]
    ]
  ]
]

pub has_row-find_release :
    (id : String) (rs : List Release) → is_some (find_release id rs) ≡ has_row id rs
unfolding find_release
has_row-find_release id [] = refl
has_row-find_release id (r ∷ rs) = ground (arith, has_row-find_release id rs)

-- The release of a key, if it is pending, is a pending row.
pub pending_row-find_by_key :
    (provider key : String) (rs : List Release) {r : Release}
    → find_by_key provider key rs ≡ some r
    → is_pending r.status ≡ true
    → pending_row r.id rs ≡ true
unfolding find_by_key
pending_row-find_by_key provider key [] h p = absurd (cc)
pending_row-find_by_key provider key (x ∷ xs) {r = r} h p =
    elim (Bool-cases (has_key provider key x)) [
      | inl e ↦
          let same : x ≡ r = cc (rw e at h) in
          subst (λ (y : Release). pending_row y.id (x ∷ xs) ≡ true) same
            (rw (eq_refl x.id, subst (λ (y : Release). is_pending y.status ≡ true) (sym same) p))
      | inr e ↦ let rest = pending_row-find_by_key provider key xs (rw e at h) p in ground arith
    ]

pub created-OnceInv :
    (rel : Release) (s : Store)
    → is_some (find_release rel.id s.releases) ≡ false
    → OnceInv s
    → OnceInv (record s { releases = rel ∷ s.releases })
created-OnceInv rel s free v =
    let none_there : has_row rel.id s.releases ≡ false =
      sym (has_row-find_release rel.id s.releases) ∙ free in
    record {
      no_repeat = v.no_repeat;
      all_passed =
          All-passed s.published s.releases (rel ∷ s.releases) (kept none_there) v.all_passed;
    }
  where
    kept :
        has_row rel.id s.releases ≡ false
        → (p : String) → passed p s.releases ≡ true
        → passed p (rel ∷ s.releases) ≡ true
    kept none_there p h = elim (Bool-cases (str_eq rel.id p)) [
      | inl e ↦
          let same : rel.id ≡ p = str_eq→eq rel.id p e in
          let k : has_row p s.releases ≡ false = rw same at none_there in absurd (ground arith)
      | inr e ↦ rw e h
    ]

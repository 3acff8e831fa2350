-- ===== src/TaskQueue/LeaseOrder.antt =====
-- Which task `Lease` of apps/server/internal/task/task.go takes.
use m_pack_station.Base.{
  ℕ, String, ◌≡◌, refl, not, Bool, List, false, filter, All, [], ◌∷◌, Bool-cases, inl, inr, true,
  ◌≤◌, ◌||◌, some, none, arith, leb, All-map, All-head?, head?-sort_by-none, head?-sort_by-least,
  sort_by, ◌⊎◌, All-sort_by, Option-cases, All-filter,
}
use m_pack_station.TaskQueue.Model.{
  ok, err, Task, Config, Queue, no_task_available, is_queued, leased, Detail,
}
use m_pack_station.TaskQueue.Recovery.{is_ready, lease_tx, next_ready, older, set_leased}
use m_pack_station.TaskQueue.Table.{find, UniqueIds, update, at_id}
use m_pack_station.TaskQueue.Change.Recovering.{FoundIn, find_every}
use m_pack_station.TaskQueue.Claims.{claim-granted}
use m_pack_station.TaskQueue.Log.{append_event}

older-le : (a b : Task) → older a b ≡ true → a.created_at ≤ b.created_at
older-le a b h = ground arith

not_older-le : (a b : Task) → older a b ≡ false → b.created_at ≤ a.created_at
not_older-le a b h = ground arith

-- A ready row is no older than the time.
abbrev pub NoOlder : ℕ → Task → Task → Type 0
NoOlder now r s = (not (is_ready now s) || leb r.created_at s.created_at) ≡ true

All-of_filter :
    (P : Task → Type 0) (p : Task → Bool) (rs : List Task)
    → ((r : Task) → p r ≡ false → P r)
    → All P (filter p rs)
    → All P rs
All-of_filter P p [] rest h = tt
All-of_filter P p (r ∷ rs) rest h = elim (Bool-cases (p r)) [
  | inl e ↦ let k : All P (r ∷ filter p rs) = rw e at h in (k.0, All-of_filter P p rs rest k.1)
  | inr e ↦ (rest r e, All-of_filter P p rs rest (rw e at h))
]

next_ready-oldest :
    (now : ℕ) (rs : List Task) {r : Task} → next_ready now rs ≡ some r → All (NoOlder now r) rs
unfolding next_ready
next_ready-oldest now rs {r = r} h =
    All-of_filter (NoOlder now r) (is_ready now) rs (λ s e. rw e)
      (All-map (λ s. r.created_at ≤ s.created_at) (NoOlder now r) (filter (is_ready now) rs)
        (λ s le. ground arith)
        (head?-sort_by-least older (λ s. s.created_at) older-le not_older-le
          (filter (is_ready now) rs) h))

next_ready-found :
    (now : ℕ) (rs : List Task) {r : Task}
    → UniqueIds rs
    → next_ready now rs ≡ some r
    → (find r.id rs ≡ some r) × (is_ready now r ≡ true)
unfolding next_ready
next_ready-found now rs u h =
    let P = λ (s : Task). (find s.id rs ≡ some s) × (is_ready now s ≡ true) in
    All-head? P (sort_by older (filter (is_ready now) rs))
      (All-sort_by P older (filter (is_ready now) rs)
        (All-filter (FoundIn rs) (is_ready now) rs (find_every rs u)))
      h

filter-nil : (p : Task → Bool) (rs : List Task) → filter p rs ≡ [] → All (λ r. p r ≡ false) rs
filter-nil p [] h = tt
filter-nil p (r ∷ rs) h = elim (Bool-cases (p r)) [
  | inl e ↦ let k : r ∷ filter p rs ≡ [] = rw e at h in absurd (cc)
  | inr e ↦ (e, filter-nil p rs (rw e at h))
]

next_ready-none :
    (now : ℕ) (rs : List Task) → next_ready now rs ≡ none → All (λ r. is_ready now r ≡ false) rs
unfolding next_ready
next_ready-none now rs h =
    filter-nil (is_ready now) rs (head?-sort_by-none older (filter (is_ready now) rs) h)

-- A granted lease.
pub record Granted (c : Config) (worker : String) (now : ℕ) (q q' : Queue) (row t : Task)
    : Type 0 where
  pub was : find row.id q.tasks ≡ some row
  pub ready : is_ready now row ≡ true
  pub oldest : All (NoOlder now row) q.tasks
  pub rewritten : t ≡ set_leased c worker now row
  pub now_there : find row.id q'.tasks ≡ some t

-- The transaction of `Lease`, in any state with distinct ids, never fails in between: either no
-- task is queued with its time come, and then it says so and changes nothing; or it grants a lease
-- on such a task, none of which was created earlier, and the row that it returns and leaves in the
-- table is leased to the worker until `now` plus the lease time, with an epoch one higher than the
-- row's (from 0, where it has none) and one more attempt, and is otherwise as it was but for the
-- time of the update.
pub lease_tx-total :
    (c : Config) (worker : String) (now : ℕ) (q : Queue)
    → UniqueIds q.tasks
    → ((lease_tx c worker now q ≡ (q, err no_task_available))
        × All (λ r. is_ready now r ≡ false) q.tasks)
      ⊎ ((q' : Queue) × (row : Task) × (t : Task) × (lease_tx c worker now q ≡ (q', ok t))
          × Granted c worker now q q' row t)
unfolding lease_tx
lease_tx-total c worker now q u = elim (Option-cases (next_ready now q.tasks)) [
  | inl e ↦ inl (rw (e, lease_tx), next_ready-none now q.tasks e)
  | inr (row, e) ↦
      let (was, ready) = next_ready-found now q.tasks u e in
      let queued : is_queued row.status ≡ true = ground arith in
      let (granted, found) = claim-granted c worker now row row q u was queued in
      inr (
        append_event c row.id leased "leased" (Detail.worker worker) now (record q {
          tasks = update (at_id row.id (λ r. is_queued r.status)) (set_leased c worker now) q.tasks;
        }),
        row,
        set_leased c worker now row,
        rw (e, lease_tx) granted,
        record {
          was = was;
          ready = ready;
          oldest = next_ready-oldest now q.tasks e;
          rewritten = refl;
          now_there = found;
        },
      )
]

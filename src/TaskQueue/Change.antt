-- ===== src/TaskQueue/Change.antt =====
-- The shapes that every operation of apps/server/internal/task/task.go is made of, as a relation on
-- queues, so that an invariant is proved once for each shape and then holds of all operations.
pub mod Updates
pub mod Invariant
pub mod Operations
pub mod Queueing
pub mod Recovering
use m_pack_station.Base.{
  ℕ, String, ◌≡◌, Bool, true, false, none, some, ◌||◌, not, is_some, count, arith,
}
use m_pack_station.TaskQueue.Model.{
  Config, Detail, Queue, Status, SubmitRequest, Task, queued, leased, running, paused, succeeded,
  failed, canceled, is_active, is_open, is_queued, is_leased, is_running, is_paused, is_retryable,
}
use m_pack_station.TaskQueue.Table.{find, update, at_id}
use m_pack_station.TaskQueue.Log.{transition, append_event}
use m_pack_station.TaskQueue.Submit.{validate_submit, insert_task, find_key, is_empty}
use m_pack_station.TaskQueue.Leases.{holds_live, set_extended}
use m_pack_station.TaskQueue.Rows.{RowInv}

-- The edges of the life of a task.
infix 40 ◌⟶◌
pub data ◌⟶◌ : Status → Status → Type 0 where
  lease : {s : Status} → is_queued s ≡ true → s ⟶ leased
  begin : {s : Status} → is_leased s ≡ true → s ⟶ running
  work : {s : Status} → is_running s ≡ true → s ⟶ running
  succeed : {s : Status} → is_running s ≡ true → s ⟶ succeeded
  fail : {s : Status} → is_active s ≡ true → s ⟶ failed
  requeue : {s : Status} → is_active s ≡ true → s ⟶ queued
  pause : {s : Status} → is_running s ≡ true → s ⟶ paused
  cancel : {s : Status} → is_open s ≡ true → s ⟶ canceled
  resume : {s : Status} → is_paused s ≡ true → s ⟶ queued
  retry : {s : Status} → is_retryable s ≡ true → s ⟶ queued

-- An UPDATE that moves the rows which meet `p` to the status `s`.
pub record Legal (p : Task → Bool) (f : Task → Task) (s : Status) : Type 0 where
  pub keeps_id : (r : Task) → (f r).id ≡ r.id
  pub keeps_key : (r : Task) → (f r).idempotency_key ≡ r.idempotency_key
  pub sets : (r : Task) → p r ≡ true → (f r).status ≡ s
  pub keeps_inv : (r : Task) → p r ≡ true → RowInv r → RowInv (f r)
  pub edge : (r : Task) → p r ≡ true → r.status ⟶ s

-- The idempotency key is not in the table.
abbrev pub not_bound : String → Queue → Bool
not_bound key q = not (is_some (find_key key q.keys))

pub data Change (c : Config) (q : Queue) : Queue → Type 0 where
  -- The tables are as they were.
  aside :
      (q' : Queue) → q'.tasks ≡ q.tasks → q'.events ≡ q.events → q'.keys ≡ q.keys → Change c q q'
  -- One row moved along an edge, with its event.
  moved :
      (id : String) (p : Task → Bool) (f : Task → Task) (s : Status) (message : String)
      (detail : Detail) (now : ℕ) (q' : Queue)
      → Legal p f s
      → transition c id p f s message detail now q ≡ some q'
      → Change c q q'
  -- A heartbeat.
  beat :
      (id worker : String) (epoch now : ℕ) (q' : Queue)
      → q'.tasks ≡ update (at_id id (holds_live worker epoch now)) (set_extended c now) q.tasks
      → q'.events ≡ q.events
      → q'.keys ≡ q.keys
      → Change c q q'
  -- A submitted task.
  added :
      (now : ℕ) (r : SubmitRequest) (payload hash : String) (q' : Queue)
      → validate_submit c r ≡ none
      → is_some (find (c.id q.generated) q.tasks) ≡ false
      → (is_empty r.idempotency_key || not_bound r.idempotency_key q) ≡ true
      → q' ≡ (insert_task c now r payload hash q).0
      → Change c q q'

pub data Changes (c : Config) (q : Queue) : Queue → Type 0 where
  here : Changes c q q
  next : {q' q'' : Queue} → Changes c q q' → Change c q' q'' → Changes c q q''

pub Changes-one : {c : Config} {q q' : Queue} → Change c q q' → Changes c q q'
Changes-one h = next here h

pub Changes-trans :
    {c : Config} {q q' q'' : Queue} → Changes c q q' → Changes c q' q'' → Changes c q q''
Changes-trans hs here = hs
Changes-trans hs (next ks k) = next (Changes-trans hs ks) k

-- What holds of every shape holds along a history.
pub Changes-induction {ℓ} :
    {c : Config} (P : Queue → Type ℓ)
    → ((q q' : Queue) → Change c q q' → P q → P q')
    → {q q' : Queue} → Changes c q q'
    → P q
    → P q'
Changes-induction P step here h = h
Changes-induction P step (next {q' = a} {q'' = b} hs k) h =
    step a b k (Changes-induction P step hs h)

-- A committed transition affected one row and appended one event.
pub transition-some :
    (c : Config) (id : String) (p : Task → Bool) (f : Task → Task) (s : Status) (message : String)
    (detail : Detail) (now : ℕ) (q : Queue) {q' : Queue}
    → transition c id p f s message detail now q ≡ some q'
    → (count (at_id id p) q.tasks ≡ 1)
      × (q'
          ≡ append_event c id s message detail now
              (record q { tasks = update (at_id id p) f q.tasks }))
transition-some c id p f s message detail now q h = ground arith

-- ===== src/TaskQueue/Recovery.antt =====
-- apps/server/internal/task/task.go: `Recover`, which requeues the tasks whose leases expired and
-- fails those past the recovery budget or the deadline, and `Lease`, which runs it first.
use m_pack_station.Base.{
  ℕ, ◌+◌, String, Bool, true, false, Option, none, some, List, [], ◌∷◌, ◌&&◌, ◌||◌, str_lt,
  if◌then◌else◌, ltb, leb, ◌==◌, sort_by, filter, head?, length,
}
use m_pack_station.TaskQueue.Model.{
  Config, Detail, Queue, Result, err, Task, Clock, invalid, lease_lost, no_task_available, queued,
  leased, failed, is_active, is_queued, expired_by, or_zero, max_recovery_count,
}
use m_pack_station.TaskQueue.Table.{update, at_id}
use m_pack_station.TaskQueue.Log.{append_event, transition, stop_running}
use m_pack_station.TaskQueue.Submit.{get, is_empty}

-- status IN ('leased','running') AND lease_expires_at<=?
abbrev pub is_expired : ℕ → Task → Bool
is_expired now r = is_active r.status && expired_by r.lease_expires_at now

-- ORDER BY updated_at, id
abbrev pub stale_before : Task → Task → Bool
stale_before a b = ltb a.updated_at b.updated_at || a.updated_at == b.updated_at && str_lt a.id b.id

-- `now-started >= deadline`, with the difference on the other side.
abbrev pub past_deadline : Config → ℕ → Option ℕ → Bool
past_deadline c now none = false
past_deadline c now (some started) = leb (started + c.deadline) now

abbrev pub gives_up : Config → ℕ → Task → Bool
gives_up c now r = leb max_recovery_count (r.recover_count + 1) || past_deadline c now r.started_at

abbrev pub give_up_code : Bool → String
give_up_code true = "task_deadline_exceeded"
give_up_code false = "recovery_budget_exhausted"

abbrev pub give_up_message : Bool → String
give_up_message true = "task deadline exceeded"
give_up_message false = "task recovery budget exhausted"

abbrev pub set_given_up : ℕ → Bool → ℕ → Task → Task
set_given_up n late now r = record r {
  status = failed;
  recover_count = n;
  lease_owner = none;
  lease_epoch = none;
  lease_expires_at = none;
  error_code = give_up_code late;
  error_message = give_up_message late;
  finished_at = some now;
  updated_at = now;
}

abbrev pub set_recovered : ℕ → ℕ → Task → Task
set_recovered n now r = record r {
  status = queued;
  recover_count = n;
  lease_owner = none;
  lease_epoch = none;
  lease_expires_at = none;
  message = "recovered";
  updated_at = now;
}

-- The statement and the event of one round of the loop, on a row as the scan read it. The
-- statement's count is not looked at.
unfoldable pub recover_row : Config → ℕ → Task → Queue → Queue
recover_row c now item q =
    let n = item.recover_count + 1 in
    let late = past_deadline c now item.started_at in
    if gives_up c now item
    then append_event c item.id failed (give_up_message late) (Detail.recover_count n) now
        (record q {
          tasks = update (at_id item.id (is_expired now)) (set_given_up n late now) q.tasks;
        })
    else append_event c item.id queued "recovered" (Detail.recover_count n) now
        (record q { tasks = update (at_id item.id (is_expired now)) (set_recovered n now) q.tasks })

unfoldable pub recover_one : Config → ℕ → Task → Queue → Queue
recover_one c now item q = stop_running item.id (recover_row c now item q)

unfoldable pub recover_all : Config → ℕ → List Task → Queue → Queue
recover_all c now [] q = q
recover_all c now (item ∷ items) q = recover_all c now items (recover_one c now item q)

unfoldable pub expired_tasks : ℕ → Queue → List Task
unfolding sort_by
expired_tasks now q = sort_by stale_before (filter (is_expired now) q.tasks)

unfoldable pub recover : Config → ℕ → Queue → Queue × ℕ
recover c now q = let items = expired_tasks now q in (recover_all c now items q, length items)

-- status = 'queued' AND updated_at <= ?
abbrev pub is_ready : ℕ → Task → Bool
is_ready now r = is_queued r.status && leb r.updated_at now

-- ORDER BY created_at, id
abbrev pub older : Task → Task → Bool
older a b = ltb a.created_at b.created_at || a.created_at == b.created_at && str_lt a.id b.id

unfoldable pub next_ready : ℕ → List Task → Option Task
unfolding sort_by
next_ready now rs = head? (sort_by older (filter (is_ready now) rs))

abbrev pub set_leased : Config → String → ℕ → Task → Task
set_leased c worker now r = record r {
  status = leased;
  lease_owner = some worker;
  lease_epoch = some (or_zero r.lease_epoch + 1);
  lease_expires_at = some (now + c.lease_ttl);
  attempt = r.attempt + 1;
  updated_at = now;
}

-- The claim of the row that the scan chose.
unfoldable pub claim : Config → String → ℕ → Task → Queue → Queue × Result Task
unfolding append_event get
claim c worker now item q =
    let id = item.id in
    elim (transition c id (λ r. is_queued r.status) (set_leased c worker now) leased "leased"
      (Detail.worker worker) now q) [ none ↦ (q, err lease_lost) | some q' ↦ (q', get id q') ]

-- The transaction of `Lease`.
unfoldable pub lease_tx : Config → String → ℕ → Queue → Queue × Result Task
unfolding next_ready claim
lease_tx c worker now q = elim (next_ready now q.tasks) [
  | none ↦ (q, err no_task_available)
  | some item ↦ claim c worker now item q
]

unfoldable pub lease : Config → Clock → String → Queue → Queue × Result Task
unfolding recover lease_tx
lease c k worker q =
    if is_empty worker
    then (q, err (invalid "worker id is empty"))
    else lease_tx c worker k.now (recover c k.check q).0

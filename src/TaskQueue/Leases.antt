-- ===== src/TaskQueue/Leases.antt =====
-- apps/server/internal/task/task.go: what the owner of a lease may do, each call fenced by owner,
-- epoch and expiry: `Begin`, `Heartbeat` and `Progress`. The part of
-- each operation after `preflightLease` is a definition of its own, its name ending in `_tx`, since
-- other workers may act between the two.
use m_pack_station.Base.{
  ℕ, ◌+◌, String, Bool, Option, none, some, List, ◌&&◌, ◌||◌, not, str_eq, if◌then◌else◌, ◌==◌,
  count,
}
use m_pack_station.Base.Int.{ℤ, is_negative, exceeds}
use m_pack_station.TaskQueue.Model.{
  Clock, Config, Detail, Error, Queue, Result, ok, err, Task, not_found, invalid,
  invalid_transition, lease_lost, ContextEnd, lasts, expires, aborts, call_aborted, never_returns,
  running, is_active, is_leased, is_running, holds_lease, or_zero, full_progress,
}
use m_pack_station.TaskQueue.Table.{find, update, at_id}
use m_pack_station.TaskQueue.Log.{append_event, transition}

-- The row is leased or running, and the caller holds its lease at this reading of the clock.
abbrev pub holds_live : String → ℕ → ℕ → Task → Bool
holds_live worker epoch now r = is_active r.status && holds_lease r worker epoch now

-- `preflightLease`: the error, if there is one. The context has not ended yet.
unfoldable pub preflight_lease : ℕ → String → String → ℕ → List Task → Option Error
preflight_lease now id worker epoch rs = elim (find id rs) [
  | none ↦ some not_found
  | some r ↦ if holds_live worker epoch now r then none else some lease_lost
]

abbrev pub owner_text : Option String → String
owner_text none = ""
owner_text (some s) = s

-- `fencedResult`: why an UPDATE found no row. Its read needs a connection, and fails with the
-- context's error where the context ends first.
unfoldable pub fenced_result : ContextEnd → String → String → ℕ → List Task → Error
fenced_result expires id worker epoch rs = lease_lost
fenced_result aborts id worker epoch rs = call_aborted
fenced_result lasts id worker epoch rs = elim (find id rs) [
  | none ↦ not_found
  | some r ↦
      if not (str_eq (owner_text r.lease_owner) worker) || not (or_zero r.lease_epoch == epoch)
      then lease_lost
      else invalid_transition
]

-- `fencedResultTx`, which reads the clock once more.
unfoldable pub fenced_result_tx : ℕ → String → String → ℕ → List Task → Error
fenced_result_tx now id worker epoch rs = elim (find id rs) [
  | none ↦ not_found
  | some r ↦ if holds_live worker epoch now r then invalid_transition else lease_lost
]

-- An operation behind `preflightLease`.
abbrev pub fenced :
    ℕ
    → String
    → String
    → ℕ
    → (Queue → Queue × Result (Unit {0}))
    → Queue
    → Queue × Result (Unit {0})
fenced now id worker epoch body q = elim (preflight_lease now id worker epoch q.tasks) [
  | some e ↦ (q, err e)
  | none ↦ body q
]

-- The outcome of a transaction: committed, or rolled back with an error.
abbrev pub settle : Queue → Error → Option Queue → Queue × Result (Unit {0})
settle q e none = (q, err e)
settle q e (some q') = (q', ok tt)

abbrev pub coalesce : Option ℕ → ℕ → Option ℕ
coalesce none n = some n
coalesce (some m) n = some m

abbrev pub can_begin : String → ℕ → ℕ → Task → Bool
can_begin worker epoch now r = is_leased r.status && holds_lease r worker epoch now

abbrev pub set_running : ℕ → Task → Task
set_running now r = record r {
  status = running;
  started_at = coalesce r.started_at now;
  updated_at = now;
}

-- `fencedResult` inside a transaction of the caller. The database has one connection, which the
-- transaction holds until the caller returns: the read is served never, and ends with the context.
unfoldable pub fenced_result_held : ContextEnd → String → String → ℕ → List Task → Error
unfolding fenced_result
fenced_result_held lasts id worker epoch rs = never_returns
fenced_result_held end id worker epoch rs = fenced_result end id worker epoch rs

unfoldable pub begin_tx : Config → Clock → String → String → ℕ → Queue → Queue × Result (Unit {0})
unfolding append_event fenced_result_held
begin_tx c k id worker epoch q = settle q (fenced_result_held k.context id worker epoch q.tasks) (
    transition c id (can_begin worker epoch k.now) (set_running k.now) running "running"
      Detail.empty k.now q)

unfoldable pub begin : Config → Clock → String → String → ℕ → Queue → Queue × Result (Unit {0})
unfolding preflight_lease begin_tx
begin c k id worker epoch q = fenced k.check id worker epoch (begin_tx c k id worker epoch) q

abbrev pub set_extended : Config → ℕ → Task → Task
set_extended c now r = record r { lease_expires_at = some (now + c.lease_ttl); updated_at = now }

-- A heartbeat appends no event.
unfoldable pub heartbeat_tx :
    Config → Clock → String → String → ℕ → Queue → Queue × Result (Unit {0})
unfolding fenced_result
heartbeat_tx c k id worker epoch q =
    let live = at_id id (holds_live worker epoch k.now) in
    if count live q.tasks == 1
    then (record q { tasks = update live (set_extended c k.now) q.tasks }, ok tt)
    else (q, err (fenced_result k.context id worker epoch q.tasks))

unfoldable pub heartbeat : Config → Clock → String → String → ℕ → Queue → Queue × Result (Unit {0})
unfolding preflight_lease heartbeat_tx
heartbeat c k id worker epoch q =
    fenced k.check id worker epoch (heartbeat_tx c k id worker epoch) q

-- status='running' AND the lease
abbrev pub owns_running : String → ℕ → ℕ → Task → Bool
owns_running worker epoch now r = is_running r.status && holds_lease r worker epoch now

abbrev pub set_progress : ℤ → String → ℕ → Task → Task
set_progress p message now r = record r { progress = p; message = message; updated_at = now }

unfoldable pub progress_tx :
    Config → Clock → String → String → ℕ → ℤ → String → Queue → Queue × Result (Unit {0})
unfolding append_event fenced_result_tx
progress_tx c k id worker epoch p message q =
    settle q (fenced_result_tx k.fence id worker epoch q.tasks) (
      transition c id (owns_running worker epoch k.now) (set_progress p message k.now) running
        message (Detail.progress p) k.now q)

unfoldable pub progress :
    Config → Clock → String → String → ℕ → ℤ → String → Queue → Queue × Result (Unit {0})
unfolding preflight_lease progress_tx
progress c k id worker epoch p message q =
    if is_negative p || exceeds p full_progress
    then (q, err (invalid "task progress must be between 0 and 100"))
    else fenced k.check id worker epoch (progress_tx c k id worker epoch p message) q

-- ===== src/TaskQueue/Adapter.antt =====
-- apps/server/internal/task/http_adapter.go: the facade that the HTTP routes use. It opens a queue
-- of its own over the same database: the tables are shared, and the table of running handlers is
-- not.
use m_pack_station.Base.{
  ℕ, Option, Bool, String, List, if◌then◌else◌, some, [], none, ◌&&◌, not, ◌==◌,
}
use m_pack_station.TaskQueue.Log.{Running}
use m_pack_station.TaskQueue.Model.{
  Task, Queue, Config, Result, is_running, Clock, err, Event, adapter_unavailable, not_found,
  or_zero, invalid_transition,
}
use m_pack_station.TaskQueue.Control.{pause, cancel, retry, resume}
use m_pack_station.TaskQueue.Submit.{is_empty, get, events_of}
use m_pack_station.TaskQueue.Table.{find}
use m_pack_station.TaskQueue.Leases.{owner_text}

-- The running table of the adapter's own queue; none is an adapter without a queue.
abbrev pub HttpAdapter : Type 0
HttpAdapter = Option (List Running)

-- An adapter is unavailable without a database.
unfoldable pub new_adapter : Bool → HttpAdapter
new_adapter has_db = if has_db then some [] else none

-- A call on the adapter's queue: the adapter, the worker's queue, and the result.
abbrev pub through :
    (Queue → Queue × Result (Unit {0}))
    → HttpAdapter
    → Queue
    → HttpAdapter × Queue × Result (Unit {0})
through op none q = (none, q, err adapter_unavailable)
through op (some own) q =
    let (q', r) = op (record q { running = own }) in
    (some q'.running, record q' { running = q.running }, r)

unfoldable pub adapter_get : HttpAdapter → String → Queue → Result Task
adapter_get none id q = err adapter_unavailable
adapter_get (some own) id q = get id q

unfoldable pub adapter_events : HttpAdapter → String → Queue → Result (List Event)
adapter_events none id q = err adapter_unavailable
adapter_events (some own) id q = events_of id q

unfoldable pub adapter_cancel :
    Config → ℕ → String → HttpAdapter → Queue → HttpAdapter × Queue × Result (Unit {0})
unfolding cancel
adapter_cancel c now id = through (cancel c now id)

unfoldable pub adapter_resume :
    Config → ℕ → String → HttpAdapter → Queue → HttpAdapter × Queue × Result (Unit {0})
unfolding resume
adapter_resume c now id = through (resume c now id)

unfoldable pub adapter_retry :
    Config → ℕ → String → HttpAdapter → Queue → HttpAdapter × Queue × Result (Unit {0})
unfolding retry
adapter_retry c now id = through (retry c now id)

-- The guard of `Pause` on the row as it was read; a column that is NULL reads as the empty text or
-- as 0.
abbrev pub pausable : Task → Bool
pausable r =
    is_running r.status
    && not (is_empty (owner_text r.lease_owner))
    && not (or_zero r.lease_epoch == 0)

unfoldable pub pause_read : Config → Clock → String → Queue → Queue × Result (Unit {0})
unfolding pause
pause_read c k id q = elim (find id q.tasks) [
  | none ↦ (q, err not_found)
  | some r ↦
      if pausable r
      then pause c k id (owner_text r.lease_owner) (or_zero r.lease_epoch) q
      else (q, err invalid_transition)
]

unfoldable pub adapter_pause :
    Config → Clock → String → HttpAdapter → Queue → HttpAdapter × Queue × Result (Unit {0})
unfolding pause_read
adapter_pause c k id = through (pause_read c k id)

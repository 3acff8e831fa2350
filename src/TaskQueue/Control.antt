-- ===== src/TaskQueue/Control.antt =====
-- apps/server/internal/task/task.go: the transitions that need no lease, `Cancel`, `Resume` and
-- `Retry`, and `Pause`, which needs one.
use m_pack_station.Base.{ℕ, String, true, false, Option, none, some, List}
use m_pack_station.Base.Int.{pos}
use m_pack_station.TaskQueue.Model.{
  Clock, Config, Detail, Error, Queue, Result, ok, err, Task, not_found, invalid_transition, queued,
  paused, canceled, is_open, is_paused, is_retryable, is_publish,
}
use m_pack_station.TaskQueue.Table.{find}
use m_pack_station.TaskQueue.Log.{append_event, transition, stop_running}
use m_pack_station.TaskQueue.Leases.{
  preflight_lease, fenced, fenced_result_tx, settle, owns_running,
}

-- `taskTransitionStatusQuery`: both of its ends name the same error.
unfoldable pub transition_status : String → List Task → Error
transition_status id rs = elim (find id rs) [ none ↦ not_found | some r ↦ invalid_transition ]

-- The handler's context is cancelled once the transaction is committed.
abbrev pub settle_stopped : String → Queue → Error → Option Queue → Queue × Result (Unit {0})
settle_stopped id q e none = (q, err e)
settle_stopped id q e (some q') = (stop_running id q', ok tt)

abbrev pub set_canceled : ℕ → Task → Task
set_canceled now r = record r {
  status = canceled;
  lease_owner = none;
  lease_epoch = none;
  lease_expires_at = none;
  finished_at = some now;
  updated_at = now;
}

unfoldable pub cancel : Config → ℕ → String → Queue → Queue × Result (Unit {0})
unfolding append_event transition_status stop_running
cancel c now id q = settle_stopped id q (transition_status id q.tasks) (
    transition c id (λ r. is_open r.status) (set_canceled now) canceled "canceled" Detail.empty now
      q)

abbrev pub set_paused : ℕ → Task → Task
set_paused now r = record r {
  status = paused;
  lease_owner = none;
  lease_epoch = none;
  lease_expires_at = none;
  updated_at = now;
}

unfoldable pub pause_tx : Config → Clock → String → String → ℕ → Queue → Queue × Result (Unit {0})
unfolding append_event fenced_result_tx stop_running
pause_tx c k id worker epoch q =
    settle_stopped id q (fenced_result_tx k.fence id worker epoch q.tasks) (
      transition c id (owns_running worker epoch k.now) (set_paused k.now) paused "paused"
        Detail.empty k.now q)

unfoldable pub pause : Config → Clock → String → String → ℕ → Queue → Queue × Result (Unit {0})
unfolding preflight_lease pause_tx
pause c k id worker epoch q = elim (find id q.tasks) [
  | none ↦ (q, err not_found)
  | some r ↦ elim (is_publish r.kind) [
    | true ↦ (q, err invalid_transition)
    | false ↦ fenced k.check id worker epoch (pause_tx c k id worker epoch) q
  ]
]

abbrev pub set_resumed : ℕ → Task → Task
set_resumed now r = record r {
  status = queued;
  message = "queued";
  error_code = "";
  error_message = "";
  updated_at = now;
}

unfoldable pub resume : Config → ℕ → String → Queue → Queue × Result (Unit {0})
unfolding append_event transition_status
resume c now id q = settle q (transition_status id q.tasks) (
    transition c id (λ r. is_paused r.status) (set_resumed now) queued "queued" Detail.resumed now
      q)

abbrev pub set_retried : ℕ → Task → Task
set_retried now r = record r {
  status = queued;
  progress = pos 0;
  message = "queued";
  error_code = "";
  error_message = "";
  attempt = 0;
  recover_count = 0;
  lease_owner = none;
  lease_epoch = none;
  lease_expires_at = none;
  started_at = none;
  finished_at = none;
  updated_at = now;
}

unfoldable pub retry : Config → ℕ → String → Queue → Queue × Result (Unit {0})
unfolding append_event transition_status
retry c now id q = settle q (transition_status id q.tasks) (
    transition c id (λ r. is_retryable r.status) (set_retried now) queued "queued" Detail.retried
      now q)

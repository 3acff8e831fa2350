-- ===== src/TaskQueue/Finishing.antt =====
-- apps/server/internal/task/task.go: how the owner of a lease ends its task, `finish`, `Succeed` and
-- `Fail`, with the retry policy of `failWithRetry`.
use Prim.Native.String.{◌++◌ as text_append}
use m_pack_station.Base.{
  ℕ, ◌+◌, ◌-◌, ◌*◌, ◌/◌, ◌%◌, ◌^◌, String, Bool, false, Option, none, some, ◌&&◌, if◌then◌else◌,
  ltb,
}
use m_pack_station.Base.Int.{pos}
use m_pack_station.TaskQueue.Model.{
  Clock, Config, Detail, Queue, Result, err, Status, Task, TaskError, queued, succeeded, failed,
  is_succeeded, full_progress, max_backoff,
}
use m_pack_station.TaskQueue.Table.{find}
use m_pack_station.TaskQueue.Log.{append_event, transition}
use m_pack_station.TaskQueue.Submit.{is_empty}
use m_pack_station.TaskQueue.Leases.{
  preflight_lease, fenced_result_tx, fenced, settle, owns_running,
}

abbrev pub set_finished : Status → String → String → String → ℕ → Task → Task
set_finished status code error message now r = record r {
  status = status;
  progress = if is_succeeded status then pos full_progress else pos 0;
  message = message;
  error_code = code;
  error_message = error;
  lease_owner = none;
  lease_epoch = none;
  lease_expires_at = none;
  finished_at = some now;
  updated_at = now;
}

unfoldable pub finish_tx :
    Config
    → Clock
    → String
    → String
    → ℕ
    → Status
    → String
    → String
    → String
    → Queue
    → Queue × Result (Unit {0})
unfolding append_event fenced_result_tx
finish_tx c k id worker epoch status code error message q =
    settle q (fenced_result_tx k.fence id worker epoch q.tasks) (
      transition c id (owns_running worker epoch k.now)
        (set_finished status code error message k.now) status message (Detail.error_code code) k.now
        q)

unfoldable pub finish :
    Config
    → Clock
    → String
    → String
    → ℕ
    → Status
    → String
    → String
    → String
    → Queue
    → Queue × Result (Unit {0})
unfolding preflight_lease finish_tx
finish c k id worker epoch status code error message q =
    fenced k.check id worker epoch (finish_tx c k id worker epoch status code error message) q

unfoldable pub succeed :
    Config → Clock → String → String → ℕ → String → Queue → Queue × Result (Unit {0})
unfolding finish
succeed c k id worker epoch message q = finish c k id worker epoch succeeded "" "" message q

-- The delay in nanoseconds, `time.Second * (1<<(attempt-1))` as a 64-bit word, capped at
-- `max_backoff` and given in milliseconds. The word is read without its sign, which differs from the
-- source from attempt 35 on only; attempts go from 1 to 16.
unfoldable pub backoff : ℕ → ℕ
backoff attempt =
    let delay = 1000000000 * 2 ^ (attempt - 1) % 2 ^ 64 in
    let capped = if ltb (max_backoff * 1000000) delay then max_backoff * 1000000 else delay in
    capped / 1000000

abbrev pub retries : TaskError → Task → Bool
retries e r = e.retryable && ltb r.attempt r.max_attempts

unfoldable pub retry_message : Config → ℕ → String → String
retry_message c delay message =
    text_append "retry scheduled in " (text_append (c.duration delay) (text_append ": " message))

abbrev pub set_retry : TaskError → String → ℕ → Task → Task
set_retry e message at r = record r {
  status = queued;
  message = message;
  error_code = e.code;
  error_message = e.message;
  lease_owner = none;
  lease_epoch = none;
  lease_expires_at = none;
  updated_at = at;
}

abbrev pub set_failed : TaskError → ℕ → Task → Task
set_failed e now r = record r {
  status = failed;
  message = e.message;
  error_code = e.code;
  error_message = e.message;
  lease_owner = none;
  lease_epoch = none;
  lease_expires_at = none;
  finished_at = some now;
  updated_at = now;
}

abbrev pub error_detail : TaskError → Detail
error_detail e = if is_empty e.detail then Detail.empty else Detail.raw e.detail

-- The write of a failure, once the row of the caller was read.
unfoldable pub write_failure :
    Config → Clock → String → String → ℕ → TaskError → Task → Queue → Queue × Result (Unit {0})
unfolding append_event fenced_result_tx backoff retry_message
write_failure c k id worker epoch e r q =
    let delay = backoff r.attempt in
    let text = retry_message c delay e.message in
    settle q (fenced_result_tx k.fence id worker epoch q.tasks) (
      if retries e r
      then transition c id (owns_running worker epoch k.now) (set_retry e text (k.now + delay))
          queued text (error_detail e) k.now q
      else transition c id (owns_running worker epoch k.now) (set_failed e k.now) failed e.message
          (error_detail e) k.now q)

unfoldable pub fail_tx :
    Config → Clock → String → String → ℕ → TaskError → Queue → Queue × Result (Unit {0})
unfolding write_failure
fail_tx c k id worker epoch e q = elim (find id q.tasks) [
  | none ↦ (q, err (fenced_result_tx k.fence id worker epoch q.tasks))
  | some r ↦
      if owns_running worker epoch k.now r
      then write_failure c k id worker epoch e r q
      else (q, err (fenced_result_tx k.fence id worker epoch q.tasks))
]

unfoldable pub fail_with_retry :
    Config → Clock → String → String → ℕ → TaskError → Queue → Queue × Result (Unit {0})
unfolding preflight_lease fail_tx
fail_with_retry c k id worker epoch e q =
    fenced k.check id worker epoch (fail_tx c k id worker epoch e) q

abbrev pub or_default : String → String → String
or_default s d = if is_empty s then d else s

-- The defaults of `Fail`, for no error and for an error without code or message.
unfoldable pub with_defaults : Option TaskError → TaskError
with_defaults none = record {
  code = "task_failed";
  message = "task failed";
  detail = "";
  retryable = false;
}
with_defaults (some e) = record e {
  code = or_default e.code "task_failed";
  message = or_default e.message "task failed";
}

unfoldable pub fail :
    Config → Clock → String → String → ℕ → Option TaskError → Queue → Queue × Result (Unit {0})
unfolding fail_with_retry with_defaults
fail c k id worker epoch e q = fail_with_retry c k id worker epoch (with_defaults e) q

-- ===== src/TaskQueue/View.antt =====
-- apps/server/internal/service/task_api.go: the views of tasks and events that the HTTP contract
-- promises, and the facade over the adapter.
use m_pack_station.Base.{
  ℕ, String, Option, if◌then◌else◌, none, Bool, not, some, List, true, map, ◌+◌, ◌/◌,
}
use m_pack_station.TaskQueue.Model.{
  Detail, Task, Event, Result, Status, Kind, err, Queue, Config, ok, adapter_unavailable, Clock,
  full_progress, index, queued, leased, build, running, import, succeeded, resolve, paused,
  canceled, failed, download, publish, tool_install, cache_gc,
}
use m_pack_station.TaskQueue.Adapter.{
  adapter_get, adapter_cancel, HttpAdapter, adapter_pause, adapter_events, adapter_retry,
  adapter_resume, new_adapter,
}
use m_pack_station.Base.Int.{ℤ, is_negative, exceeds, magnitude}
use m_pack_station.TaskQueue.Runner.{kind_text}
use m_pack_station.TaskQueue.Submit.{is_empty}

pub record TaskView : Type 0 where
  pub id : String
  pub kind : String
  pub title : String
  pub pack_id : Option String
  pub pack_name : Option String
  pub status : String
  pub progress : ℕ
  pub error : Option String
  pub started_at : Option ℕ
  pub finished_at : Option ℕ

-- `detail` is the event's JSON decoded again, which is that value.
pub record EventView : Type 0 where
  pub id : String
  pub task_id : String
  pub sequence : ℕ
  pub status : String
  pub message : String
  pub detail : Detail
  pub created_at : ℕ

-- A progress in thousandths of a percent, cut to 0 and 100 and rounded to the nearest percent.
unfoldable pub progress_percent : ℤ → ℕ
progress_percent p =
    if is_negative p then 0 else if exceeds p full_progress then 100 else (magnitude p + 500) / 1000

unfoldable pub public_kind : Kind → String
unfolding kind_text
public_kind index = "index-mod"
public_kind build = "build-pack"
public_kind import = "import-pack"
public_kind resolve = "update-preflight"
public_kind download = "download-mod"
public_kind publish = "publish-pack"
public_kind tool_install = "tool-install"
public_kind cache_gc = "cache-cleanup"
public_kind kind = kind_text kind

-- The texts of the statuses.
unfoldable pub status_text : Status → String
status_text queued = "queued"
status_text leased = "leased"
status_text running = "running"
status_text paused = "paused"
status_text succeeded = "succeeded"
status_text failed = "failed"
status_text canceled = "canceled"

unfoldable pub public_status : Status → String
unfolding status_text
public_status queued = "queued"
public_status leased = "running"
public_status running = "running"
public_status succeeded = "success"
public_status canceled = "cancelled"
public_status status = status_text status

abbrev pub error_of_task : Task → Option String
error_of_task r =
    if not (is_empty r.error_message)
    then some r.error_message
    else if not (is_empty r.error_code)
    then some r.error_code
    else none

unfoldable pub task_view : Task → TaskView
unfolding public_kind public_status progress_percent
task_view r = record {
  id = r.id;
  kind = public_kind r.kind;
  title = r.title;
  pack_id = r.pack_id;
  pack_name = none;
  status = public_status r.status;
  progress = progress_percent r.progress;
  error = error_of_task r;
  started_at = r.started_at;
  finished_at = r.finished_at;
}

unfoldable pub event_view : Event → EventView
unfolding status_text
event_view e = record {
  id = e.id;
  task_id = e.task_id;
  sequence = e.sequence;
  status = status_text e.status;
  message = e.message;
  detail = e.detail;
  created_at = e.created_at;
}

-- A facade without a database has no adapter.
abbrev pub TaskApi : Type 0
TaskApi = Option HttpAdapter

unfoldable pub new_task_api : Bool → TaskApi
unfolding new_adapter
new_task_api has_db = if has_db then some (new_adapter true) else none

abbrev pub viewed {ℓ κ} : {A : Type ℓ} {B : Type κ} → (A → B) → Result A → Result B
viewed f (err e) = err e
viewed f (ok a) = ok (f a)

unfoldable pub api_get : TaskApi → String → Queue → Result TaskView
unfolding adapter_get task_view
api_get none id q = err adapter_unavailable
api_get (some a) id q = viewed task_view (adapter_get a id q)

unfoldable pub api_events : TaskApi → String → Queue → Result (List EventView)
unfolding adapter_events event_view
api_events none id q = err adapter_unavailable
api_events (some a) id q = viewed (map event_view) (adapter_events a id q)

-- A control, passed on to the adapter.
abbrev pub passed_on :
    (HttpAdapter → Queue → HttpAdapter × Queue × Result (Unit {0}))
    → TaskApi
    → Queue
    → TaskApi × Queue × Result (Unit {0})
passed_on op none q = (none, q, err adapter_unavailable)
passed_on op (some a) q = let (a', q', r) = op a q in (some a', q', r)

unfoldable pub api_cancel :
    Config → ℕ → String → TaskApi → Queue → TaskApi × Queue × Result (Unit {0})
unfolding adapter_cancel
api_cancel c now id = passed_on (adapter_cancel c now id)

unfoldable pub api_pause :
    Config → Clock → String → TaskApi → Queue → TaskApi × Queue × Result (Unit {0})
unfolding adapter_pause
api_pause c k id = passed_on (adapter_pause c k id)

unfoldable pub api_resume :
    Config → ℕ → String → TaskApi → Queue → TaskApi × Queue × Result (Unit {0})
unfolding adapter_resume
api_resume c now id = passed_on (adapter_resume c now id)

unfoldable pub api_retry :
    Config → ℕ → String → TaskApi → Queue → TaskApi × Queue × Result (Unit {0})
unfolding adapter_retry
api_retry c now id = passed_on (adapter_retry c now id)

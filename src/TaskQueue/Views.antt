-- ===== src/TaskQueue/Views.antt =====
-- The task views of apps/server/internal/service/task_api.go keep to the contract.
use m_pack_station.Base.{
  String, Bool, str_eq, ◌||◌, ◌≡◌, true, ◌≤◌, not, ◌==◌, arith, List, some, refl,
}
use m_pack_station.TaskQueue.View.{
  TaskView, api_get, public_status, progress_percent, status_text, new_task_api, task_view,
}
use m_pack_station.TaskQueue.Adapter.{new_adapter, adapter_get}
use m_pack_station.TaskQueue.Model.{
  Status, Task, is_succeeded, queued, Config, leased, running, new_queue, ok, paused, succeeded,
  failed, canceled,
}
use m_pack_station.Base.Int.{ℤ}
use m_pack_station.TaskQueue.Submit.{get}
use m_pack_station.TaskQueue.Rows.{RowInv}
use m_pack_station.TaskQueue.Calls.{Call, run, run-QueueInv}
use m_pack_station.TaskQueue.Table.{find, All-find}

-- The statuses of the contract.
abbrev pub in_contract : String → Bool
in_contract s =
    str_eq s "queued"
    || str_eq s "running"
    || str_eq s "paused"
    || str_eq s "success"
    || str_eq s "failed"
    || str_eq s "cancelled"

public_status-in_contract : (s : Status) → in_contract (public_status s) ≡ true
unfolding public_status status_text
public_status-in_contract queued = refl
public_status-in_contract leased = refl
public_status-in_contract running = refl
public_status-in_contract paused = refl
public_status-in_contract succeeded = refl
public_status-in_contract failed = refl
public_status-in_contract canceled = refl

public_status-success : (s : Status) → str_eq (public_status s) "success" ≡ is_succeeded s
unfolding public_status status_text
public_status-success queued = refl
public_status-success leased = refl
public_status-success running = refl
public_status-success paused = refl
public_status-success succeeded = refl
public_status-success failed = refl
public_status-success canceled = refl

progress_percent-le : (p : ℤ) → progress_percent p ≤ 100
unfolding progress_percent
progress_percent-le p = ground arith

full_when_done :
    (r : Task)
    → RowInv r
    → (not (is_succeeded r.status) || progress_percent r.progress == 100) ≡ true
unfolding progress_percent
full_when_done r v = ground arith

-- What the contract says of a view.
pub record InContract (v : TaskView) : Type 0 where
  pub known_status : in_contract v.status ≡ true
  pub percent : v.progress ≤ 100
  pub full : (not (str_eq v.status "success") || v.progress == 100) ≡ true

-- After any calls, the view that `Get` shows of a task that is there has one of the six statuses of
-- the contract and a progress of at most 100 percent, and 100 percent if its status is success.
pub api_get-InContract :
    (c : Config) (xs : List Call) (id : String) {r : Task}
    → find id (run c xs new_queue).tasks ≡ some r
    → (v : TaskView) × (api_get (new_task_api true) id (run c xs new_queue) ≡ ok v) × InContract v
unfolding api_get new_task_api new_adapter adapter_get get task_view
api_get-InContract c xs id {r = r} h =
    let inv = All-find RowInv id (run c xs new_queue).tasks (run-QueueInv c xs).rows h in
    (
      task_view r,
      rw (h, get),
      record {
        known_status = public_status-in_contract r.status;
        percent = progress_percent-le r.progress;
        full = rw (public_status-success r.status) (full_when_done r inv);
      },
    )

-- ===== src/TaskQueue/Separate.antt =====
-- What apps/server/internal/task/http_adapter.go does to a task whose handler runs in the worker's
-- queue, and when it pauses one.
use m_pack_station.Base.{ℕ, String, ◌≡◌, some, ◌∷◌, true, [], refl}
use m_pack_station.TaskQueue.Log.{stop_running, running_of, append_event}
use m_pack_station.TaskQueue.Adapter.{adapter_cancel, new_adapter}
use m_pack_station.TaskQueue.Control.{cancel, set_canceled}
use m_pack_station.TaskQueue.Model.{Queue, Config, Task, is_open, ok, canceled, Detail}
use m_pack_station.TaskQueue.Table.{UniqueIds, find}
use m_pack_station.TaskQueue.Fencing.{row_allows}
use m_pack_station.TaskQueue.Controls.{transition-granted}
use m_pack_station.TaskQueue.Change.Recovering.{stop_running-tasks}

stop_running-stops :
    (id : String) (q : Queue) {n : ℕ}
    → running_of id q.running ≡ some n
    → (stop_running id q).canceled ≡ n ∷ q.canceled
unfolding stop_running
stop_running-stops id q h = rw (h, stop_running)

-- A task that is open and whose handler runs under the cancel function `n`: `Cancel` on the worker's
-- own queue calls `n`, and `Cancel` through the adapter, as it was made, is accepted as well and
-- leaves the same tasks, but calls no cancel function, and the handler is still listed as running.
pub adapter_cancel-running :
    (c : Config) (now : ℕ) (id : String) (q : Queue) {r : Task} {n : ℕ}
    → UniqueIds q.tasks
    → find id q.tasks ≡ some r
    → is_open r.status ≡ true
    → running_of id q.running ≡ some n
    → ((cancel c now id q).0.canceled ≡ n ∷ q.canceled)
      × ((adapter_cancel c now id (new_adapter true) q).2 ≡ ok tt)
      × ((adapter_cancel c now id (new_adapter true) q).1.tasks ≡ (cancel c now id q).0.tasks)
      × ((adapter_cancel c now id (new_adapter true) q).1.canceled ≡ q.canceled)
      × ((adapter_cancel c now id (new_adapter true) q).1.running ≡ q.running)
unfolding adapter_cancel new_adapter cancel append_event stop_running
adapter_cancel-running c now id q {r = r} {n = n} u there open_row runs =
    let allow : row_allows (λ x. is_open x.status) (find id q.tasks) ≡ true =
      rw (there, open_row) in
    let go =
      transition-granted c id (λ x. is_open x.status) (set_canceled now) canceled "canceled"
        Detail.empty now q u allow in
    let own =
      transition-granted c id (λ x. is_open x.status) (set_canceled now) canceled "canceled"
        Detail.empty now (record q { running = [] }) u allow in
    (
      rw go (stop_running-stops id _ runs),
      rw own,
      rw (own, go, stop_running-tasks) (rw stop_running-tasks),
      rw own,
      refl,
    )

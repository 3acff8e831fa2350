-- ===== src/TaskQueue/AdapterExamples.antt =====
-- A cancellation through the HTTP adapter of apps/server/internal/task at a concrete queue.
use m_pack_station.Base.{◌≡◌, ◌∷◌, some, true, refl, insert_by, List, []}
use m_pack_station.TaskQueue.Examples.{
  at, request, config, leased_queue, leased_inv, leased_task, history, found_done,
}
use m_pack_station.TaskQueue.Model.{Queue, ok, new_queue}
use m_pack_station.TaskQueue.Log.{track_running, running_of}
use m_pack_station.TaskQueue.Control.{cancel}
use m_pack_station.TaskQueue.Change.Invariant.{QueueInv, Changes-QueueInv}
use m_pack_station.TaskQueue.Adapter.{adapter_cancel, new_adapter}
use m_pack_station.TaskQueue.Change.{Changes-one}
use m_pack_station.TaskQueue.Recovery.{lease, recover_all, expired_tasks}
use m_pack_station.TaskQueue.Change.Operations.{track_running-Change}
use m_pack_station.TaskQueue.Separate.{adapter_cancel-running}
use m_pack_station.TaskQueue.Table.{find, update}
use m_pack_station.TaskQueue.Calls.{run, step, Call, submits, leases, acts, begins}
use m_pack_station.TaskQueue.Submit.{submit, find_key, insert_task, new_row}
use m_pack_station.TaskQueue.View.{TaskView, api_get, new_task_api}
use m_pack_station.TaskQueue.Views.{InContract, api_get-InContract}

-- The worker runs the handler of the leased task.
abbrev busy_queue : Queue
busy_queue = track_running "t" leased_queue

busy_inv : QueueInv busy_queue
busy_inv =
    Changes-QueueInv {c = config} (Changes-one (track_running-Change "t" leased_queue)) leased_inv

found_busy : find "t" busy_queue.tasks ≡ some leased_task
unfolding track_running lease find recover_all expired_tasks run step submit find_key new_queue
    insert_task new_row insert_by update
found_busy = refl

running_busy : running_of "t" busy_queue.running ≡ some 0
unfolding track_running lease running_of recover_all expired_tasks run step submit find_key
    new_queue insert_task find new_row insert_by
running_busy = refl

adapter_cancel-running_example :
    ((cancel config 3000 "t" busy_queue).0.canceled ≡ 0 ∷ busy_queue.canceled)
    × ((adapter_cancel config 3000 "t" (new_adapter true) busy_queue).2 ≡ ok tt)
    × ((adapter_cancel config 3000 "t" (new_adapter true) busy_queue).1.tasks
        ≡ (cancel config 3000 "t" busy_queue).0.tasks)
    × ((adapter_cancel config 3000 "t" (new_adapter true) busy_queue).1.canceled
        ≡ busy_queue.canceled)
    × ((adapter_cancel config 3000 "t" (new_adapter true) busy_queue).1.running
        ≡ busy_queue.running)
adapter_cancel-running_example =
    adapter_cancel-running config 3000 "t" busy_queue busy_inv.unique found_busy refl running_busy

api_get-InContract_example :
    (v : TaskView) × (api_get (new_task_api true) "t" (run config history new_queue) ≡ ok v)
    × InContract v
api_get-InContract_example = api_get-InContract config history "t" found_done

abbrev begun_calls : List Call
begun_calls =
    submits 1000 request
    ∷ leases (at 2000) "w"
    ∷ acts (at 3000) (record { id = "t"; worker = "w"; epoch = 1 }) begins
    ∷ []

-- ===== src/TaskQueue/Examples.antt =====
-- A concrete queue of apps/server/internal/task, and the properties of the queue at it.
use Prim.Native.Nat.{min}
use Prim.Native.String.{◌++◌ as text_append}
use m_pack_station.Base.{
  ℕ, zero, suc, String, true, false, none, some, ◌≡◌, refl, List, [], ◌∷◌, map, All, ◌⊎◌, arith,
  ◌*◌, ◌^◌, insert_by,
}
use m_pack_station.Base.Int.{pos}
use m_pack_station.TaskQueue.Model.{
  Config, Clock, SubmitRequest, Task, Queue, new_queue, download, queued, leased, ok, succeeded,
  err, no_task_available, is_open, or_zero, is_paused, is_retryable, max_backoff, lasts,
}
use m_pack_station.TaskQueue.Calls.{
  Call, run, submits, leases, acts, begins, succeeds, step, act, Owner, run-QueueInv, act_late,
}
use m_pack_station.TaskQueue.Recovery.{
  lease, recover, lease_tx, is_expired, is_ready, recover_all, expired_tasks, recover_one,
  recover_row,
}
use m_pack_station.TaskQueue.Submit.{submit, find_key, insert_task, new_row, get}
use m_pack_station.TaskQueue.Control.{cancel, set_canceled, set_resumed, resume, set_retried, retry}
use m_pack_station.TaskQueue.Leases.{preflight_lease, begin}
use m_pack_station.TaskQueue.Finishing.{backoff, succeed}
use m_pack_station.TaskQueue.Controls.{Switches, cancel-fences, controls-total}
use m_pack_station.TaskQueue.Delays.{Paced, backoff-exact, waits-Paced}
use m_pack_station.TaskQueue.Change.Invariant.{QueueInv}
use m_pack_station.TaskQueue.Audit.{Sequenced, last_status, run-last_status, run-Sequenced}
use m_pack_station.TaskQueue.Epochs.{lease-epoch, lease-QueueInv, stale_epoch_passes}
use m_pack_station.TaskQueue.Recovered.{recovered_row, recover_complete, recover-tasks}
use m_pack_station.TaskQueue.Fencing.{is_ok, Exact, row_allows, allows, act_late-Exact}
use m_pack_station.TaskQueue.LeaseOrder.{Granted, lease_tx-total}
use m_pack_station.TaskQueue.Runner.{idle_bounds, waits, idle, failing, ran}
use m_pack_station.TaskQueue.Table.{find, update}
use m_pack_station.TaskQueue.Log.{append_event, stop_running}

abbrev ids : ℕ → String
ids zero = "t"
ids (suc n) = text_append "t" (ids n)

-- Lease time of 30 seconds and a deadline of two hours, as `NewQueue` sets them; a hash that keeps
-- the text.
abbrev pub config : Config
config = record {
  id = ids;
  lease_ttl = 30000;
  deadline = 7200000;
  json_valid = λ s. true;
  canonical = λ s. some s;
  hash = λ s. s;
  duration = λ n. "1s";
}

abbrev pub request : SubmitRequest
request = record {
  pack_id = none;
  kind = download;
  title = "Get mods";
  payload = "{}";
  idempotency_key = "key";
  max_attempts = pos 2;
}

abbrev pub at : ℕ → Clock
at now = record { context = lasts; check = now; now = now; fence = now }

abbrev pub submitted : List Call
submitted = submits 1000 request ∷ []

abbrev pub new_task : Task
new_task = record {
  id = "t";
  pack_id = none;
  kind = download;
  title = "Get mods";
  status = queued;
  progress = pos 0;
  message = "";
  payload = "{}";
  payload_path = "";
  error_code = "";
  error_message = "";
  attempt = 0;
  max_attempts = 2;
  recover_count = 0;
  lease_owner = none;
  lease_epoch = none;
  lease_expires_at = none;
  idempotency_key = some "key";
  created_at = 1000;
  updated_at = 1000;
  started_at = none;
  finished_at = none;
}

abbrev pub leased_task : Task
leased_task = record new_task {
  status = leased;
  lease_owner = some "w";
  lease_epoch = some 1;
  lease_expires_at = some 32000;
  attempt = 1;
  updated_at = 2000;
}

abbrev pub submitted_queue : Queue
submitted_queue = run config submitted new_queue

abbrev pub leased_queue : Queue
leased_queue = (lease config (at 2000) "w" submitted_queue).0

pub lease_granted : lease config (at 2000) "w" submitted_queue ≡ (leased_queue, ok leased_task)
unfolding lease run step submit recover recover_all expired_tasks find_key new_queue insert_task
    find new_row insert_by update
lease_granted = refl

pub leased_inv : QueueInv leased_queue
leased_inv =
    lease-QueueInv config (at 2000) "w" submitted_queue (run-QueueInv config submitted)
      lease_granted

found_new : find "t" submitted_queue.tasks ≡ some new_task
unfolding run step submit find find_key new_queue insert_task append_event new_row
found_new = refl

pub made : submit config 1000 request new_queue ≡ (submitted_queue, ok (new_task, false))
unfolding run step submit find_key new_queue insert_task find get append_event new_row
made = refl

abbrev owner : Owner
owner = record { id = "t"; worker = "w"; epoch = 1 }

abbrev pub history : List Call
history =
    submits 1000 request
    ∷ leases (at 2000) "w"
    ∷ acts (at 3000) owner begins
    ∷ acts (at 4000) owner (succeeds "done")
    ∷ []

abbrev done_task : Task
done_task = record leased_task {
  status = succeeded;
  progress = pos 100000;
  message = "done";
  lease_owner = none;
  lease_epoch = none;
  lease_expires_at = none;
  started_at = some 3000;
  finished_at = some 4000;
  updated_at = 4000;
}

pub found_done : find "t" (run config history new_queue).tasks ≡ some done_task
unfolding run step act find succeed begin lease recover_all expired_tasks submit find_key new_queue
    insert_task new_row insert_by update
found_done = refl

run-QueueInv_example : QueueInv (run config history new_queue)
run-QueueInv_example = run-QueueInv config history

run-last_status_example : last_status "t" (run config history new_queue).events ≡ some succeeded
run-last_status_example = run-last_status config history "t" found_done

run-Sequenced_example : Sequenced (run config history new_queue).events
run-Sequenced_example = run-Sequenced config history

act_late-Exact_example :
    Exact
      (row_allows (allows begins "w" 1 3000) (find "t" leased_queue.tasks))
      true
      leased_queue
      (act_late config (at 3000) owner begins leased_queue)
act_late-Exact_example = act_late-Exact config (at 3000) owner begins leased_queue leased_inv.unique

lease_tx-total_example :
    ((lease_tx config "w" 2000 submitted_queue ≡ (submitted_queue, err no_task_available))
      × All (λ r. is_ready 2000 r ≡ false) submitted_queue.tasks)
    ⊎ ((q' : Queue) × (row : Task) × (t : Task) × (lease_tx config "w" 2000 submitted_queue
          ≡ (q', ok t))
        × Granted config "w" 2000 submitted_queue q' row t)
lease_tx-total_example =
    lease_tx-total config "w" 2000 submitted_queue (run-QueueInv config submitted).unique

recover-tasks_example :
    (recover config 40000 leased_queue).0.tasks
    ≡ map (recovered_row config 40000) leased_queue.tasks
recover-tasks_example = recover-tasks config 40000 leased_queue leased_inv

recover_complete_example :
    All
      (λ r. is_expired 40000 r ≡ false)
      (recover config 40000 (run config history new_queue)).0.tasks
recover_complete_example = recover_complete config 40000 history

controls-total_example :
    Switches
      (λ r. is_open r.status)
      (set_canceled 3000)
      "t"
      leased_queue
      (cancel config 3000 "t" leased_queue)
    × Switches
        (λ r. is_paused r.status)
        (set_resumed 3000)
        "t"
        leased_queue
        (resume config 3000 "t" leased_queue)
    × Switches
        (λ r. is_retryable r.status)
        (set_retried 3000)
        "t"
        leased_queue
        (retry config 3000 "t" leased_queue)
controls-total_example = controls-total config 3000 "t" leased_queue leased_inv.unique

cancel_accepted : (cancel config 3000 "t" leased_queue).1 ≡ ok tt
unfolding run step lease cancel recover_all expired_tasks submit find_key new_queue insert_task find
    new_row insert_by update
cancel_accepted = refl

cancel-fences_example :
    is_ok (act_late config (at 4000) owner begins (cancel config 3000 "t" leased_queue).0).1 ≡ false
cancel-fences_example =
    cancel-fences config 3000 "t" leased_queue (at 4000) "w" 1 begins leased_inv cancel_accepted

lease-epoch_example : leased_task.lease_epoch ≡ some 1
lease-epoch_example = lease-epoch config (at 2000) "w" submitted lease_granted

abbrev leased_again : Task
leased_again = record leased_task {
  message = "recovered";
  lease_expires_at = some 70000;
  attempt = 2;
  recover_count = 1;
  updated_at = 40000;
}

abbrev queue_again : Queue
queue_again = (lease config (at 40000) "w" (run config [] leased_queue)).0

lease_granted_again :
    lease config (at 40000) "w" (run config [] leased_queue) ≡ (queue_again, ok leased_again)
unfolding run step lease recover_all expired_tasks submit find_key new_queue insert_task find
    new_row insert_by update recover_one stop_running recover_row
lease_granted_again = refl

stale_epoch_passes_example :
    preflight_lease 41000 "t" "w" (or_zero leased_task.lease_epoch) queue_again.tasks ≡ none
stale_epoch_passes_example =
    stale_epoch_passes config (at 2000) (at 40000) "w" submitted [] 41000 lease_granted
      lease_granted_again refl (omega arith)

backoff-exact_example : backoff 4 ≡ min (1000 * 2 ^ 3) max_backoff
backoff-exact_example = backoff-exact 3 (omega arith)

waits-Paced_example :
    Paced
      (idle_bounds 0 700)
      (idle_bounds 0 700).min
      (idle ∷ idle ∷ failing ∷ ran ∷ idle ∷ [])
      (waits (idle_bounds 0 700) (idle ∷ idle ∷ failing ∷ ran ∷ idle ∷ []) (idle_bounds 0 700).min)
waits-Paced_example = waits-Paced 0 700 (idle ∷ idle ∷ failing ∷ ran ∷ idle ∷ [])

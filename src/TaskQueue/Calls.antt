-- ===== src/TaskQueue/Calls.antt =====
-- Histories of the queue of apps/server/internal/task/task.go: the calls of workers and users, in
-- any order and at any readings of the clock.
use m_pack_station.Base.{ℕ, String, List, [], ◌∷◌, Option, if◌then◌else◌, Bool-cases, inl, inr}
use m_pack_station.Base.Int.{ℤ}
use m_pack_station.TaskQueue.Model.{
  Clock, Config, Queue, SubmitRequest, TaskError, failed, new_queue, Result, err, invalid,
}
use m_pack_station.TaskQueue.Submit.{submit}
use m_pack_station.TaskQueue.Recovery.{recover, lease}
use m_pack_station.TaskQueue.Leases.{
  begin_tx, begin, heartbeat_tx, heartbeat, progress, progress_tx,
}
use m_pack_station.TaskQueue.Finishing.{finish, succeed, fail, fail_tx, finish_tx, with_defaults}
use m_pack_station.TaskQueue.Control.{cancel, pause, pause_tx, resume, retry}
use m_pack_station.TaskQueue.Rows.{out_of_range}
use m_pack_station.TaskQueue.Model.{succeeded}
use m_pack_station.TaskQueue.Change.Invariant.{QueueInv, Changes-QueueInv, new_queue-QueueInv}
use m_pack_station.TaskQueue.Change.{Changes, here, Changes-trans}
use m_pack_station.TaskQueue.Change.Queueing.{submit-Changes}
use m_pack_station.TaskQueue.Change.Operations.{
  begin_tx-Changes, begin-Changes, heartbeat-Changes, heartbeat_tx-Changes, pause-Changes,
  pause_tx-Changes, progress-Changes, succeed-Changes, fail-Changes, finish-Changes, cancel-Changes,
  resume-Changes, retry-Changes, progress_tx-Changes, finish_tx-Changes, fail_tx-Changes,
}
use m_pack_station.TaskQueue.Change.Recovering.{recover-Changes, lease-Changes}
use m_pack_station.TaskQueue.Change.Updates.{succeed-Legal, finish-Legal}

-- What the owner of a lease asks for.
pub data Action : Type 0 where
  begins beats pauses : Action
  progresses : ℤ → String → Action
  succeeds : String → Action
  fails : Option TaskError → Action
  gives_up : String → String → String → Action

pub record Owner : Type 0 where
  pub id : String
  pub worker : String
  pub epoch : ℕ

pub data Call : Type 0 where
  submits : ℕ → SubmitRequest → Call
  recovers : ℕ → Call
  leases : Clock → String → Call
  acts : Clock → Owner → Action → Call
  -- The same, where other calls came between the check of the lease and the transaction.
  acts_late : Clock → Owner → Action → Call
  cancels resumes retries : ℕ → String → Call

unfoldable pub act : Config → Clock → Owner → Action → Queue → Queue × Result (Unit {0})
act c k o begins q = begin c k o.id o.worker o.epoch q
act c k o beats q = heartbeat c k o.id o.worker o.epoch q
act c k o pauses q = pause c k o.id o.worker o.epoch q
act c k o (progresses p message) q = progress c k o.id o.worker o.epoch p message q
act c k o (succeeds message) q = succeed c k o.id o.worker o.epoch message q
act c k o (fails e) q = fail c k o.id o.worker o.epoch e q
act c k o (gives_up code error message) q =
    finish c k o.id o.worker o.epoch failed code error message q

unfoldable pub act_late : Config → Clock → Owner → Action → Queue → Queue × Result (Unit {0})
act_late c k o begins q = begin_tx c k o.id o.worker o.epoch q
act_late c k o beats q = heartbeat_tx c k o.id o.worker o.epoch q
act_late c k o pauses q = pause_tx c k o.id o.worker o.epoch q
act_late c k o (progresses p message) q =
    if out_of_range p
    then (q, err (invalid "task progress must be between 0 and 100"))
    else progress_tx c k o.id o.worker o.epoch p message q
act_late c k o (succeeds message) q = finish_tx c k o.id o.worker o.epoch succeeded "" "" message q
act_late c k o (fails e) q = fail_tx c k o.id o.worker o.epoch (with_defaults e) q
act_late c k o (gives_up code error message) q =
    finish_tx c k o.id o.worker o.epoch failed code error message q

unfoldable pub step : Config → Call → Queue → Queue
step c (submits now r) q = (submit c now r q).0
step c (recovers now) q = (recover c now q).0
step c (leases k worker) q = (lease c k worker q).0
step c (acts k o a) q = (act c k o a q).0
step c (acts_late k o a) q = (act_late c k o a q).0
step c (cancels now id) q = (cancel c now id q).0
step c (resumes now id) q = (resume c now id q).0
step c (retries now id) q = (retry c now id q).0

unfoldable pub run : Config → List Call → Queue → Queue
run c [] q = q
run c (x ∷ xs) q = run c xs (step c x q)

act-Changes :
    (c : Config) (k : Clock) (o : Owner) (a : Action) (q : Queue) → Changes c q (act c k o a q).0
unfolding act
act-Changes c k o begins q = begin-Changes c k o.id o.worker o.epoch q
act-Changes c k o beats q = heartbeat-Changes c k o.id o.worker o.epoch q
act-Changes c k o pauses q = pause-Changes c k o.id o.worker o.epoch q
act-Changes c k o (progresses p message) q = progress-Changes c k o.id o.worker o.epoch q p message
act-Changes c k o (succeeds message) q = succeed-Changes c k o.id o.worker o.epoch q message
act-Changes c k o (fails e) q = fail-Changes c k o.id o.worker o.epoch q e
act-Changes c k o (gives_up code error message) q =
    finish-Changes c k o.id o.worker o.epoch q code error message

act_late-Changes :
    (c : Config) (k : Clock) (o : Owner) (a : Action) (q : Queue)
    → Changes c q (act_late c k o a q).0
unfolding act_late
act_late-Changes c k o begins q = begin_tx-Changes c k o.id o.worker o.epoch q
act_late-Changes c k o beats q = heartbeat_tx-Changes c k o.id o.worker o.epoch q
act_late-Changes c k o pauses q = pause_tx-Changes c k o.id o.worker o.epoch q
act_late-Changes c k o (progresses p message) q = elim (Bool-cases (out_of_range p)) [
  | inl e ↦ rw e here
  | inr e ↦ rw e (progress_tx-Changes c k o.id o.worker o.epoch q p message e)
]
act_late-Changes c k o (succeeds message) q =
    finish_tx-Changes c k o.id o.worker o.epoch q succeeded "" "" message
      (succeed-Legal o.worker "" "" message o.epoch k.now)
act_late-Changes c k o (fails e) q = fail_tx-Changes c k o.id o.worker o.epoch q (with_defaults e)
act_late-Changes c k o (gives_up code error message) q =
    finish_tx-Changes c k o.id o.worker o.epoch q failed code error message
      (finish-Legal o.worker code error message o.epoch k.now)

pub step-Changes : (c : Config) (x : Call) (q : Queue) → QueueInv q → Changes c q (step c x q)
unfolding step
step-Changes c (submits now r) q v = submit-Changes c now r q
step-Changes c (recovers now) q v = recover-Changes c now q v
step-Changes c (leases k worker) q v = lease-Changes c k worker q v
step-Changes c (acts k o a) q v = act-Changes c k o a q
step-Changes c (acts_late k o a) q v = act_late-Changes c k o a q
step-Changes c (cancels now id) q v = cancel-Changes c now id q
step-Changes c (resumes now id) q v = resume-Changes c now id q
step-Changes c (retries now id) q v = retry-Changes c now id q

pub run-Changes : (c : Config) (xs : List Call) (q : Queue) → QueueInv q → Changes c q (run c xs q)
unfolding run
run-Changes c [] q v = here
run-Changes c (x ∷ xs) q v =
    let first = step-Changes c x q v in
    Changes-trans first (run-Changes c xs (step c x q) (Changes-QueueInv first v))

-- After any calls by any workers and users, in any order and at any times, the task ids are
-- distinct and every row is well formed: the lease columns are set exactly in the states leased and
-- running, as the schema's CHECK wants; a set epoch is 1; a leased or running task was attempted;
-- `max_attempts` is between 1 and 16; at most 10 recoveries are counted, and fewer than 10 in a
-- task that is still open; the progress is within 0 and 100 percent and full once the task
-- succeeded; `finished_at` is set exactly in the three final states, and `started_at` in a running
-- task.
pub run-QueueInv : (c : Config) (xs : List Call) → QueueInv (run c xs new_queue)
run-QueueInv c xs =
    Changes-QueueInv (run-Changes c xs new_queue new_queue-QueueInv) new_queue-QueueInv

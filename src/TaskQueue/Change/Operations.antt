-- ===== src/TaskQueue/Change/Operations.antt =====
-- Every operation of apps/server/internal/task/task.go is made of the shapes of change.
use m_pack_station.Base.{
  ℕ, ◌+◌, String, ◌≡◌, refl, Bool, false, Option, none, some, count, ◌==◌, arith, Bool-cases,
  Option-cases, inl, inr,
}
use m_pack_station.Base.Int.{ℤ}
use m_pack_station.TaskQueue.Model.{
  Clock, Config, Error, Queue, Result, Status, Detail, is_publish, Task, TaskError, succeeded,
  failed,
}
use m_pack_station.TaskQueue.Log.{stop_running, track_running, transition}
use m_pack_station.TaskQueue.Leases.{
  preflight_lease, fenced, settle, begin_tx, begin, heartbeat_tx, heartbeat, progress_tx, progress,
  holds_live, owns_running, fenced_result_held, fenced_result_tx,
}
use m_pack_station.TaskQueue.Finishing.{
  finish_tx, finish, succeed, write_failure, fail_tx, fail, retries, set_finished, retry_message,
  backoff, error_detail, with_defaults,
}
use m_pack_station.TaskQueue.Control.{
  settle_stopped, transition_status, cancel, pause_tx, pause, resume, retry,
}
use m_pack_station.TaskQueue.Rows.{out_of_range}
use m_pack_station.TaskQueue.Table.{find, at_id}
use m_pack_station.TaskQueue.Change.{
  Legal, Change, Changes, Changes-one, aside, moved, beat, here, next,
}
use m_pack_station.TaskQueue.Change.Updates.{
  begin-Legal, progress-Legal, succeed-Legal, finish-Legal, retry_later-Legal, fail-Legal,
  cancel-Legal, pause-Legal, resume-Legal, retry-Legal,
}

pub stop_running-Change : {c : Config} (id : String) (q : Queue) → Change c q (stop_running id q)
unfolding stop_running
stop_running-Change id q = aside _ (ground arith) (ground arith) (ground arith)

pub track_running-Change : {c : Config} (id : String) (q : Queue) → Change c q (track_running id q)
unfolding track_running
track_running-Change id q = aside _ refl refl refl

settle-Changes :
    {c : Config} {q : Queue} (e : Error) (o : Option Queue)
    → ((q' : Queue) → o ≡ some q' → Change c q q')
    → Changes c q (settle q e o).0
settle-Changes e none h = here
settle-Changes e (some q') h = Changes-one (h q' refl)

settle_stopped-Changes :
    {c : Config} {q : Queue} (id : String) (e : Error) (o : Option Queue)
    → ((q' : Queue) → o ≡ some q' → Change c q q')
    → Changes c q (settle_stopped id q e o).0
settle_stopped-Changes id e none h = here
settle_stopped-Changes id e (some q') h = next (Changes-one (h q' refl)) (stop_running-Change id q')

-- A transaction of one UPDATE and its event.
module _ {c : Config} {p : Task → Bool} {f : Task → Task} {s : Status} (l : Legal p f s)
    (id : String) (message : String) (detail : Detail) (now : ℕ) (e : Error) (q : Queue) where
  transition-Changes : Changes c q (settle q e (transition c id p f s message detail now q)).0
  transition-Changes =
      settle-Changes e (transition c id p f s message detail now q)
        (λ q' h. moved id p f s message detail now q' l h)

  stopping-Changes :
      Changes c q (settle_stopped id q e (transition c id p f s message detail now q)).0
  stopping-Changes =
      settle_stopped-Changes id e (transition c id p f s message detail now q)
        (λ q' h. moved id p f s message detail now q' l h)

fenced-Changes :
    {c : Config} (now : ℕ) (id worker : String) (epoch : ℕ)
    (body : Queue → Queue × Result (Unit {0})) (q : Queue)
    → Changes c q (body q).0
    → Changes c q (fenced now id worker epoch body q).0
unfolding preflight_lease
fenced-Changes {c = c} now id worker epoch body q h =
    elim (Option-cases (preflight_lease now id worker epoch q.tasks)) [
      | inl e ↦ rw (e, fenced) h
      | inr (x, e) ↦ rw (e, fenced) here
    ]

module _ (c : Config) (k : Clock) (id worker : String) (epoch : ℕ) (q : Queue) where
  pub begin_tx-Changes : Changes c q (begin_tx c k id worker epoch q).0
  unfolding begin_tx
  begin_tx-Changes =
      transition-Changes (begin-Legal worker epoch k.now) id "running" Detail.empty k.now
        (fenced_result_held k.context id worker epoch q.tasks) q

  pub begin-Changes : Changes c q (begin c k id worker epoch q).0
  unfolding begin
  begin-Changes =
      fenced-Changes k.check id worker epoch (begin_tx c k id worker epoch) q begin_tx-Changes

  pub heartbeat_tx-Changes : Changes c q (heartbeat_tx c k id worker epoch q).0
  unfolding heartbeat_tx
  heartbeat_tx-Changes =
      elim (Bool-cases (count (at_id id (holds_live worker epoch k.now)) q.tasks == 1)) [
        | inl e ↦ rw e (Changes-one (beat id worker epoch k.now _ refl refl refl))
        | inr e ↦ rw e here
      ]

  pub heartbeat-Changes : Changes c q (heartbeat c k id worker epoch q).0
  unfolding heartbeat
  heartbeat-Changes =
      fenced-Changes k.check id worker epoch (heartbeat_tx c k id worker epoch) q
        heartbeat_tx-Changes

  pub progress_tx-Changes :
      (p : ℤ) (message : String)
      → out_of_range p ≡ false
      → Changes c q (progress_tx c k id worker epoch p message q).0
  unfolding progress_tx
  progress_tx-Changes p message range =
      transition-Changes (progress-Legal worker epoch k.now p message range) id message
        (Detail.progress p) k.now (fenced_result_tx k.fence id worker epoch q.tasks) q

  pub progress-Changes :
      (p : ℤ) (message : String) → Changes c q (progress c k id worker epoch p message q).0
  unfolding progress
  progress-Changes p message = elim (Bool-cases (out_of_range p)) [
    | inl e ↦ rw e here
    | inr e ↦ rw e (
        fenced-Changes k.check id worker epoch (progress_tx c k id worker epoch p message) q
          (progress_tx-Changes p message e))
  ]

  pub finish_tx-Changes :
      (s : Status) (code error message : String)
      → Legal (owns_running worker epoch k.now) (set_finished s code error message k.now) s
      → Changes c q (finish_tx c k id worker epoch s code error message q).0
  unfolding finish_tx
  finish_tx-Changes s code error message l =
      transition-Changes l id message (Detail.error_code code) k.now
        (fenced_result_tx k.fence id worker epoch q.tasks) q

  -- `finish` is called with two statuses, `succeeded` and `failed`.
  pub finish-Changes :
      (code error message : String)
      → Changes c q (finish c k id worker epoch failed code error message q).0
  unfolding finish
  finish-Changes code error message =
      fenced-Changes k.check id worker epoch
        (finish_tx c k id worker epoch failed code error message) q
        (finish_tx-Changes failed code error message
          (finish-Legal worker code error message epoch k.now))

  pub succeed-Changes : (message : String) → Changes c q (succeed c k id worker epoch message q).0
  unfolding succeed
  succeed-Changes message =
      fenced-Changes k.check id worker epoch (finish_tx c k id worker epoch succeeded "" "" message)
        q
        (finish_tx-Changes succeeded "" "" message (succeed-Legal worker "" "" message epoch k.now))

  write_failure-Changes :
      (e : TaskError) (r : Task) → Changes c q (write_failure c k id worker epoch e r q).0
  unfolding write_failure
  write_failure-Changes e r =
      let text = retry_message c (backoff r.attempt) e.message in
      let why = fenced_result_tx k.fence id worker epoch q.tasks in
      elim (Bool-cases (retries e r)) [
        | inl b ↦ rw b (
            transition-Changes
              (retry_later-Legal worker epoch k.now e text (k.now + backoff r.attempt)) id text
              (error_detail e) k.now why q)
        | inr b ↦ rw b (
            transition-Changes (fail-Legal worker epoch k.now e) id e.message (error_detail e) k.now
              why q)
      ]

  pub fail_tx-Changes : (e : TaskError) → Changes c q (fail_tx c k id worker epoch e q).0
  unfolding fail_tx
  fail_tx-Changes e = elim (Option-cases (find id q.tasks)) [
    | inl h ↦ rw (h, fail_tx) here
    | inr (r, h) ↦
        rw (h, fail_tx)
          (elim (Bool-cases (owns_running worker epoch k.now r)) [
            | inl b ↦ rw b (write_failure-Changes e r)
            | inr b ↦ rw b here
          ])
  ]

  pub fail-Changes : (e : Option TaskError) → Changes c q (fail c k id worker epoch e q).0
  unfolding fail
  fail-Changes e =
      fenced-Changes k.check id worker epoch (fail_tx c k id worker epoch (with_defaults e)) q
        (fail_tx-Changes (with_defaults e))

  pub pause_tx-Changes : Changes c q (pause_tx c k id worker epoch q).0
  unfolding pause_tx
  pause_tx-Changes =
      stopping-Changes (pause-Legal worker epoch k.now) id "paused" Detail.empty k.now
        (fenced_result_tx k.fence id worker epoch q.tasks) q

  pub pause-Changes : Changes c q (pause c k id worker epoch q).0
  unfolding pause
  pause-Changes = elim (Option-cases (find id q.tasks)) [
    | inl h ↦ rw (h, pause) here
    | inr (r, h) ↦
        rw (h, pause)
          (elim (Bool-cases (is_publish r.kind)) [
            | inl b ↦ rw b here
            | inr b ↦ rw b (
                fenced-Changes k.check id worker epoch (pause_tx c k id worker epoch) q
                  pause_tx-Changes)
          ])
  ]

module _ (c : Config) (now : ℕ) (id : String) (q : Queue) where
  pub cancel-Changes : Changes c q (cancel c now id q).0
  unfolding cancel
  cancel-Changes =
      stopping-Changes (cancel-Legal now) id "canceled" Detail.empty now
        (transition_status id q.tasks) q

  pub resume-Changes : Changes c q (resume c now id q).0
  unfolding resume
  resume-Changes =
      transition-Changes (resume-Legal now) id "queued" Detail.resumed now
        (transition_status id q.tasks) q

  pub retry-Changes : Changes c q (retry c now id q).0
  unfolding retry
  retry-Changes =
      transition-Changes (retry-Legal now) id "queued" Detail.retried now
        (transition_status id q.tasks) q

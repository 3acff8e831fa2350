-- ===== src/TaskQueue/RoundInvariant.antt =====
-- `RunOnce` of apps/server/internal/task/task.go keeps the queue well formed, on every branch.
use m_pack_station.Base.{
  ℕ, String, All, Option-cases, inl, ◌≡◌, some, ◌∷◌, Bool-cases, subst, inr, [], true,
}
use m_pack_station.TaskQueue.Model.{Config, Clock, Task, Queue, Kind, Result, ok, err, or_zero}
use m_pack_station.TaskQueue.Runner.{
  settle_outcome, RunClock, Outcome, Registry, Execution, leave_canceled, handler_of, handled,
  handle_task, begun, run_leased, run_once, dispatch_task, Handler, same_kind, is_canceled,
  was_canceled,
}
use m_pack_station.TaskQueue.Change.Invariant.{QueueInv, Changes-QueueInv}
use m_pack_station.TaskQueue.Change.{Changes-one}
use m_pack_station.TaskQueue.Recovery.{lease}
use m_pack_station.TaskQueue.Leases.{begin}
use m_pack_station.TaskQueue.Table.{find}
use m_pack_station.TaskQueue.Change.Operations.{
  finish-Changes, succeed-Changes, cancel-Changes, stop_running-Change, fail-Changes, begin-Changes,
  track_running-Change,
}
use m_pack_station.TaskQueue.Change.Recovering.{lease-Changes}
use m_pack_station.TaskQueue.Log.{track_running}

leave_canceled-QueueInv :
    (c : Config) (k : Clock) (t : Task) (q : Queue)
    → QueueInv q
    → QueueInv (leave_canceled c k t q).0
unfolding leave_canceled
leave_canceled-QueueInv c k t q v = elim (Option-cases (find t.id q.tasks)) [
  | inl e ↦ rw (e, leave_canceled) (Changes-QueueInv (cancel-Changes c k.now t.id q) v)
  | inr (r, e) ↦ elim (Bool-cases (is_canceled r.status)) [
    | inl b ↦ rw (e, leave_canceled, b) v
    | inr b ↦ rw (e, leave_canceled, b) (Changes-QueueInv (cancel-Changes c k.now t.id q) v)
  ]
]

settle_outcome-QueueInv :
    (c : Config) (k : Clock) (worker : String) (t : Task) (context : ℕ) (o : Outcome) (q : Queue)
    → QueueInv q
    → QueueInv (settle_outcome c k worker t context o q).0
unfolding settle_outcome
settle_outcome-QueueInv c k worker t context Outcome.done q v =
    Changes-QueueInv (succeed-Changes c k t.id worker (or_zero t.lease_epoch) q "succeeded") v
settle_outcome-QueueInv c k worker t context (Outcome.task_error e) q v =
    Changes-QueueInv (fail-Changes c k t.id worker (or_zero t.lease_epoch) q (some e)) v
settle_outcome-QueueInv c k worker t context Outcome.context_canceled q v =
    leave_canceled-QueueInv c k t q v
settle_outcome-QueueInv c k worker t context (Outcome.error message) q v =
    elim (Bool-cases (was_canceled context q)) [
      | inl e ↦ rw e (leave_canceled-QueueInv c k t q v)
      | inr e ↦ rw e (
          Changes-QueueInv
            (fail-Changes c k t.id worker (or_zero t.lease_epoch) q (
              some (record {
                code = "task_failed";
                message = message;
                detail = "";
                retryable = true;
              })))
            v)
    ]

module _ (c : Config) (k : RunClock) (worker : String) (hs : Registry)
    (careful : All
      (λ h. (x : Execution) (q : Queue) → QueueInv q → QueueInv (h.handler x q).0)
      hs) where
  handler_of-careful :
      (kind : Kind) (gs : Registry)
      → All (λ h. (x : Execution) (q : Queue) → QueueInv q → QueueInv (h.handler x q).0) gs
      → {h : Handler} → handler_of kind gs ≡ some h
      → (x : Execution) (q : Queue) → QueueInv q
      → QueueInv (h x q).0
  unfolding handler_of
  handler_of-careful kind [] s e = absurd (cc)
  handler_of-careful kind (g ∷ gs) s {h = h} e = elim (Bool-cases (same_kind g.kind kind)) [
    | inl b ↦
        let same : g.handler ≡ h = cc (rw b at e) in
        subst (λ (f : Handler). (x : Execution) (q : Queue) → QueueInv q → QueueInv (f x q).0) same
          s.0
    | inr b ↦ handler_of-careful kind gs s.1 (rw b at e)
  ]

  handled-QueueInv :
      (t : Task) (context : ℕ) (o : Queue × Outcome)
      → QueueInv o.0
      → QueueInv (handled c k.ending worker t context o).0
  unfolding handled
  handled-QueueInv t context (q, o) v =
      Changes-QueueInv {c = c}
        (Changes-one (stop_running-Change t.id (settle_outcome c k.ending worker t context o q).0))
        (settle_outcome-QueueInv c k.ending worker t context o q v)

  dispatch_task-QueueInv :
      (t : Task) (q : Queue) → QueueInv q → QueueInv (dispatch_task c k.ending worker hs t q).0
  unfolding handle_task dispatch_task
  dispatch_task-QueueInv t q v = elim (Option-cases (handler_of t.kind hs)) [
    | inl e ↦
        rw (e, dispatch_task)
          (Changes-QueueInv
            (finish-Changes c k.ending t.id worker (or_zero t.lease_epoch) q "unknown_task_kind"
              "no handler registered for task kind" "failed")
            v)
    | inr (h, e) ↦
        let x : Execution = record {
          task = t;
          worker_id = worker;
          epoch = or_zero t.lease_epoch;
        } in
        rw (e, dispatch_task)
          (handled-QueueInv t q.contexts (h x (track_running t.id q)) (
            handler_of-careful t.kind hs careful e x (track_running t.id q)
              (Changes-QueueInv {c = c} (Changes-one (track_running-Change t.id q)) v)))
  ]

  begun-QueueInv :
      (t : Task) (o : Queue × Result (Unit {0}))
      → QueueInv o.0
      → QueueInv (begun c k.ending worker hs t o).0
  unfolding begun
  begun-QueueInv t (q, ok u) v = dispatch_task-QueueInv t q v
  begun-QueueInv t (q, err e) v = v

  run_leased-QueueInv :
      (o : Queue × Result Task) → QueueInv o.0 → QueueInv (run_leased c k worker hs o).0
  unfolding run_leased
  run_leased-QueueInv (q, ok t) v =
      begun-QueueInv t (begin c k.beginning t.id worker (or_zero t.lease_epoch) q)
        (Changes-QueueInv (begin-Changes c k.beginning t.id worker (or_zero t.lease_epoch) q) v)
  run_leased-QueueInv (q, err e) v = v

  -- A round of a worker keeps the queue well formed, however it ends, if every registered handler
  -- does.
  pub run_once-QueueInv : (q : Queue) → QueueInv q → QueueInv (run_once c k worker hs q).0
  unfolding run_once
  run_once-QueueInv q v =
      run_leased-QueueInv (lease c k.leasing worker q)
        (Changes-QueueInv (lease-Changes c k.leasing worker q v) v)

-- ===== src/TaskQueue/Rounds.antt =====
-- The steps of a round, `RunOnce` of apps/server/internal/task/task.go, on the row that its worker
-- holds.
use m_pack_station.Base.{
  ℕ, String, ◌<◌, ◌+◌, ◌≡◌, some, true, eq_refl, arith, Bool, false, refl, str_eq, ap, ◌∙◌,
}
use m_pack_station.TaskQueue.Model.{
  Task, Config, Clock, Queue, or_zero, running, Detail, ok, Result, err, lease_lost, succeeded,
}
use m_pack_station.TaskQueue.Table.{UniqueIds, find, update, at_id, find-update, find-id}
use m_pack_station.TaskQueue.Runner.{
  RunClock, Execution, run_once, run_leased, dispatch_task, handle_task, settle_outcome, Registry,
  Handler, handler_of, Outcome, stopping, closes, begun, handled,
}
use m_pack_station.TaskQueue.Leases.{
  can_begin, begin, set_running, begin_tx, holds_live, fenced, owns_running,
}
use m_pack_station.TaskQueue.Finishing.{succeed, finish, finish_tx, set_finished}
use m_pack_station.TaskQueue.Log.{append_event, track_running}
use m_pack_station.TaskQueue.Recovery.{set_leased, lease}
use m_pack_station.TaskQueue.Fencing.{row_allows, preflight-passes, preflight-lost}
use m_pack_station.TaskQueue.Controls.{transition-granted}

-- The capability that a round gives to a handler.
abbrev pub execution : String → Task → Execution
execution worker t = record { task = t; worker_id = worker; epoch = or_zero t.lease_epoch }

-- The queue in which the handler of a leased task starts.
abbrev pub started : Config → RunClock → String → Task → Queue → Queue
started c k worker t q =
    track_running t.id (begin c k.beginning t.id worker (or_zero t.lease_epoch) q).0

pub leased-live :
    (c : Config) (worker : String) (now at : ℕ) (row : Task)
    → at < now + c.lease_ttl
    → can_begin worker
        (or_zero (set_leased c worker now row).lease_epoch)
        at
        (set_leased c worker now row)
      ≡ true
leased-live c worker now at row h = rw (eq_refl worker) (ground arith)

-- The operations of a round on the row that its worker holds.
module _ (c : Config) (k : Clock) (id worker : String) (epoch : ℕ) (q : Queue) (r : Task)
    (u : UniqueIds q.tasks) (there : find id q.tasks ≡ some r) where
  fenced-passes :
      (body : Queue → Queue × Result (Unit {0}))
      → holds_live worker epoch k.check r ≡ true
      → fenced k.check id worker epoch body q ≡ body q
  fenced-passes body h = rw (preflight-passes k.check id worker epoch q.tasks there h, fenced)

  moved-find :
      (p : Task → Bool) (f : Task → Task)
      → ((x : Task) → (f x).id ≡ x.id)
      → p r ≡ true
      → find id (update (at_id id p) f q.tasks) ≡ some (f r)
  moved-find p f keeps h =
      let same : str_eq r.id id ≡ true = rw (find-id id q.tasks there, eq_refl id) in
      rw (find-update (at_id id p) f keeps id q.tasks, there, same, h)

  pub begin-granted :
      can_begin worker epoch k.check r ≡ true
      → can_begin worker epoch k.now r ≡ true
      → ((begin c k id worker epoch q).1 ≡ ok tt)
        × (find id (begin c k id worker epoch q).0.tasks ≡ some (set_running k.now r))
  unfolding begin begin_tx append_event
  begin-granted a b =
      let live : holds_live worker epoch k.check r ≡ true = ground arith in
      let allow : row_allows (can_begin worker epoch k.now) (find id q.tasks) ≡ true =
        rw (there, b) in
      let go =
        transition-granted c id (can_begin worker epoch k.now) (set_running k.now) running "running"
          Detail.empty k.now q u allow in
      (
        rw (fenced-passes (begin_tx c k id worker epoch) live, go),
        rw (fenced-passes (begin_tx c k id worker epoch) live, go)
            (moved-find (can_begin worker epoch k.now) (set_running k.now) (λ x. refl) b),
      )

  pub succeed-granted :
      owns_running worker epoch k.check r ≡ true
      → owns_running worker epoch k.now r ≡ true
      → ((succeed c k id worker epoch "succeeded" q).1 ≡ ok tt)
        × (find id (succeed c k id worker epoch "succeeded" q).0.tasks
            ≡ some (set_finished succeeded "" "" "succeeded" k.now r))
  unfolding succeed finish finish_tx append_event
  succeed-granted a b =
      let live : holds_live worker epoch k.check r ≡ true = ground arith in
      let allow : row_allows (owns_running worker epoch k.now) (find id q.tasks) ≡ true =
        rw (there, b) in
      let f = set_finished succeeded "" "" "succeeded" k.now in
      let go =
        transition-granted c id (owns_running worker epoch k.now) f succeeded "succeeded"
          (Detail.error_code "") k.now q u allow in
      let body = finish_tx c k id worker epoch succeeded "" "" "succeeded" in
      (
        rw (fenced-passes body live, go),
        rw (fenced-passes body live, go)
            (moved-find (owns_running worker epoch k.now) f (λ x. refl) b),
      )

  pub succeed-late :
      (message : String)
      → holds_live worker epoch k.check r ≡ false
      → succeed c k id worker epoch message q ≡ (q, err lease_lost)
  unfolding succeed finish
  succeed-late message h =
      rw (preflight-lost k.check id worker epoch q.tasks there h, succeed, finish, fenced)

-- A leased task whose handler is there, from the moment that the handler returned without an error.
pub run_once-done :
    (c : Config) (k : RunClock) (worker : String) (hs : Registry) (q : Queue) {q' q'' : Queue}
    {t : Task} {h : Handler}
    → lease c k.leasing worker q ≡ (q', ok t)
    → (begin c k.beginning t.id worker (or_zero t.lease_epoch) q').1 ≡ ok tt
    → handler_of t.kind hs ≡ some h
    → h (execution worker t) (started c k worker t q') ≡ (q'', Outcome.done)
    → run_once c k worker hs q
      ≡ stopping t.id
          (closes (some t) (succeed c k.ending t.id worker (or_zero t.lease_epoch) "succeeded" q''))
unfolding run_once run_leased begun dispatch_task handle_task handled settle_outcome
run_once-done c k worker hs q {q' = q'} {q'' = q''} {t = t} {h = h} a b d e =
    let began : begin c k.beginning t.id worker (or_zero t.lease_epoch) q'
        ≡ ((begin c k.beginning t.id worker (or_zero t.lease_epoch) q').0, ok tt) =
      ap (λ x. ((begin c k.beginning t.id worker (or_zero t.lease_epoch) q').0, x)) b in
    ap (run_leased c k worker hs) a
    ∙ ap (begun c k.ending worker hs t) began
    ∙ rw (d, begun, dispatch_task)
        (ap
          (handled c k.ending worker t
            (begin c k.beginning t.id worker (or_zero t.lease_epoch) q').0.contexts)
          e)

-- ===== src/TaskQueue/RoundOutcomes.antt =====
-- What a round of `RunOnce` of apps/server/internal/task/task.go comes to.
use m_pack_station.Base.{ℕ, String, ◌<◌, ◌+◌, ◌≡◌, some, true, eq_refl, arith, false, ◌≤◌, none}
use m_pack_station.TaskQueue.Model.{Task, Config, Queue, or_zero, ok, lease_lost, succeeded}
use m_pack_station.TaskQueue.Table.{UniqueIds, find}
use m_pack_station.TaskQueue.Runner.{RunClock, run_once, Registry, Handler, handler_of, Outcome}
use m_pack_station.TaskQueue.Leases.{can_begin, begin, set_running, holds_live, owns_running}
use m_pack_station.TaskQueue.Finishing.{set_finished}
use m_pack_station.TaskQueue.Log.{track_running}
use m_pack_station.TaskQueue.Recovery.{set_leased, lease}
use m_pack_station.TaskQueue.Change.Invariant.{QueueInv, Changes-QueueInv}
use m_pack_station.TaskQueue.Claims.{lease-Claimed}
use m_pack_station.TaskQueue.Change.Recovering.{stop_running-tasks}
use m_pack_station.TaskQueue.Epochs.{lease-QueueInv}
use m_pack_station.TaskQueue.Change.Operations.{begin-Changes}
use m_pack_station.TaskQueue.Rounds.{
  execution, started, leased-live, run_once-done, begin-granted, succeed-granted, succeed-late,
}

-- The row of a granted lease once the round began it, in a queue that is well formed.
began-row :
    (c : Config) (k : RunClock) (worker : String) (q : Queue) {q' : Queue} {t : Task}
    → QueueInv q
    → lease c k.leasing worker q ≡ (q', ok t)
    → k.beginning.check < k.leasing.now + c.lease_ttl
    → k.beginning.now < k.leasing.now + c.lease_ttl
    → ((begin c k.beginning t.id worker (or_zero t.lease_epoch) q').1 ≡ ok tt)
      × (find t.id (begin c k.beginning t.id worker (or_zero t.lease_epoch) q').0.tasks
          ≡ some (set_running k.beginning.now t))
began-row c k worker q {q' = q'} {t = t} v h check now =
    let m = lease-Claimed c k.leasing worker q v h in
    let w = lease-QueueInv c k.leasing worker q v h in
    let pass : (at : ℕ)
        → at < k.leasing.now + c.lease_ttl
        → can_begin worker (or_zero t.lease_epoch) at t ≡ true =
      λ at early. rw m.rewritten (leased-live c worker k.leasing.now at m.row early) in
    begin-granted c k.beginning t.id worker (or_zero t.lease_epoch) q' t w.unique m.now_there
      (pass k.beginning.check check) (pass k.beginning.now now)

running-live :
    (c : Config) (worker : String) (now began at : ℕ) (row : Task)
    → at < now + c.lease_ttl
    → owns_running worker
        (or_zero (set_leased c worker now row).lease_epoch)
        at
        (set_running began (set_leased c worker now row))
      ≡ true
running-live c worker now began at row h = rw (eq_refl worker) (ground arith)

running-dead :
    (c : Config) (worker : String) (now began at : ℕ) (row : Task)
    → now + c.lease_ttl ≤ at
    → holds_live worker
        (or_zero (set_leased c worker now row).lease_epoch)
        at
        (set_running began (set_leased c worker now row))
      ≡ false
running-dead c worker now began at row h = rw (eq_refl worker) (ground arith)

-- A round in a well-formed queue whose lease was granted, whose handler is registered, returns no
-- error and leaves the table alone, and whose other clock readings all come before the lease runs
-- out, reports no error, and the task has succeeded.
pub run_once-succeeds :
    (c : Config) (k : RunClock) (worker : String) (hs : Registry) (q : Queue) {q' q'' : Queue}
    {t : Task} {h : Handler}
    → QueueInv q
    → lease c k.leasing worker q ≡ (q', ok t)
    → handler_of t.kind hs ≡ some h
    → h (execution worker t) (started c k worker t q') ≡ (q'', Outcome.done)
    → q''.tasks ≡ (started c k worker t q').tasks
    → k.beginning.check < k.leasing.now + c.lease_ttl
    → k.beginning.now < k.leasing.now + c.lease_ttl
    → k.ending.check < k.leasing.now + c.lease_ttl
    → k.ending.now < k.leasing.now + c.lease_ttl
    → ((run_once c k worker hs q).1 ≡ some t)
      × ((run_once c k worker hs q).2 ≡ none)
      × (find t.id (run_once c k worker hs q).0.tasks
          ≡ some (
              set_finished succeeded "" "" "succeeded" k.ending.now
                (set_running k.beginning.now t)))
unfolding track_running
run_once-succeeds c k worker hs q {q' = q'} {q'' = q''} {t = t} v a d e quiet b1 b2 e1 e2 =
    let m = lease-Claimed c k.leasing worker q v a in
    let w = lease-QueueInv c k.leasing worker q v a in
    let (ok_begin, row) = began-row c k worker q v a b1 b2 in
    let all = run_once-done c k worker hs q a ok_begin d e in
    let u : UniqueIds q''.tasks =
      rw quiet
        (Changes-QueueInv (begin-Changes c k.beginning t.id worker (or_zero t.lease_epoch) q')
          w).unique in
    let there : find t.id q''.tasks ≡ some (set_running k.beginning.now t) = rw quiet row in
    let pass : (at : ℕ)
        → at < k.leasing.now + c.lease_ttl
        → owns_running worker (or_zero t.lease_epoch) at (set_running k.beginning.now t) ≡ true =
      λ at early.
        rw m.rewritten (running-live c worker k.leasing.now k.beginning.now at m.row early) in
    let (ok_end, last) =
      succeed-granted c k.ending t.id worker (or_zero t.lease_epoch) q''
        (set_running k.beginning.now t) u there (pass k.ending.check e1) (pass k.ending.now e2) in
    (rw all, rw (all, ok_end), rw (all, stop_running-tasks) last)

-- The same round with a handler that returns when the lease time is over: no matter that the work
-- was done, the round reports that the lease is lost, and the task stays running, without progress.
pub run_once-too_late :
    (c : Config) (k : RunClock) (worker : String) (hs : Registry) (q : Queue) {q' q'' : Queue}
    {t : Task} {h : Handler}
    → QueueInv q
    → lease c k.leasing worker q ≡ (q', ok t)
    → handler_of t.kind hs ≡ some h
    → h (execution worker t) (started c k worker t q') ≡ (q'', Outcome.done)
    → q''.tasks ≡ (started c k worker t q').tasks
    → k.beginning.check < k.leasing.now + c.lease_ttl
    → k.beginning.now < k.leasing.now + c.lease_ttl
    → k.leasing.now + c.lease_ttl ≤ k.ending.check
    → ((run_once c k worker hs q).1 ≡ some t)
      × ((run_once c k worker hs q).2 ≡ some lease_lost)
      × (find t.id (run_once c k worker hs q).0.tasks ≡ some (set_running k.beginning.now t))
unfolding track_running
run_once-too_late c k worker hs q {q' = q'} {q'' = q''} {t = t} v a d e quiet b1 b2 late =
    let m = lease-Claimed c k.leasing worker q v a in
    let (ok_begin, row) = began-row c k worker q v a b1 b2 in
    let all = run_once-done c k worker hs q a ok_begin d e in
    let there : find t.id q''.tasks ≡ some (set_running k.beginning.now t) = rw quiet row in
    let dead : holds_live worker (or_zero t.lease_epoch) k.ending.check
          (set_running k.beginning.now t)
        ≡ false =
      rw m.rewritten
        (running-dead c worker k.leasing.now k.beginning.now k.ending.check m.row late) in
    let u : UniqueIds q''.tasks =
      rw quiet
        (Changes-QueueInv (begin-Changes c k.beginning t.id worker (or_zero t.lease_epoch) q')
          (lease-QueueInv c k.leasing worker q v a)).unique in
    let lost =
      succeed-late c k.ending t.id worker (or_zero t.lease_epoch) q''
        (set_running k.beginning.now t) u there "succeeded" dead in
    (rw all, rw (all, lost), rw (all, stop_running-tasks, lost) there)

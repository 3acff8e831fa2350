-- ===== src/TaskQueue/Epochs.antt =====
-- How far the epochs of apps/server/internal/task/task.go tell leases apart. Every way back to
-- `queued` sets `lease_epoch` to NULL, and `Lease` counts on from COALESCE(lease_epoch,0).
use m_pack_station.Base.{
  ℕ, String, ◌≡◌, List, true, none, arith, some, ◌<◌, ◌+◌, subst, ap, eq_refl,
}
use m_pack_station.TaskQueue.Model.{ok, Task, Config, Clock, is_queued, Queue, new_queue, or_zero}
use m_pack_station.TaskQueue.Leases.{preflight_lease, holds_live}
use m_pack_station.TaskQueue.Rows.{RowInv}
use m_pack_station.TaskQueue.Calls.{Call, run, run-QueueInv, run-Changes}
use m_pack_station.TaskQueue.Claims.{lease-Claimed}
use m_pack_station.TaskQueue.Change.Invariant.{Changes-QueueInv, QueueInv}
use m_pack_station.TaskQueue.Change.Recovering.{recover-Changes, lease-Changes}
use m_pack_station.TaskQueue.Table.{All-find}
use m_pack_station.TaskQueue.Recovery.{lease, recover, set_leased}
use m_pack_station.TaskQueue.Fencing.{preflight-passes}

queued_epoch : (r : Task) → RowInv r → is_queued r.status ≡ true → r.lease_epoch ≡ none
queued_epoch r v h = ground arith

lease_epoch-one :
    (c : Config) (k : Clock) (worker : String) (q : Queue) {q' : Queue} {t : Task}
    → QueueInv q
    → lease c k worker q ≡ (q', ok t)
    → t.lease_epoch ≡ some 1
lease_epoch-one c k worker q {t = t} v h =
    let m = lease-Claimed c k worker q v h in
    let w = Changes-QueueInv (recover-Changes c k.check q v) v in
    let inv = All-find RowInv t.id (recover c k.check q).0.tasks w.rows m.was in
    rw (m.rewritten, queued_epoch m.row inv m.ready)

-- Whatever calls came before, a lease that is granted has epoch 1: epochs do not count leases.
pub lease-epoch :
    (c : Config) (k : Clock) (worker : String) (xs : List Call) {q' : Queue} {t : Task}
    → lease c k worker (run c xs new_queue) ≡ (q', ok t)
    → t.lease_epoch ≡ some 1
lease-epoch c k worker xs h = lease_epoch-one c k worker (run c xs new_queue) (run-QueueInv c xs) h

pub lease-QueueInv :
    (c : Config) (k : Clock) (worker : String) (q : Queue) {q' : Queue} {t : Task}
    → QueueInv q
    → lease c k worker q ≡ (q', ok t)
    → QueueInv q'
lease-QueueInv c k worker q v h =
    subst QueueInv (ap (λ x. x.0) h) (Changes-QueueInv (lease-Changes c k worker q v) v)

-- The lease of a granted row, as `preflightLease` reads it.
leased-passes :
    (c : Config) (worker : String) (now at : ℕ) (row : Task)
    → row.lease_epoch ≡ none
    → at < now + c.lease_ttl
    → holds_live worker 1 at (set_leased c worker now row) ≡ true
leased-passes c worker now at row fresh alive = rw (fresh, eq_refl worker) (ground arith)

-- A worker leased a task; later, after any calls, the same worker leased the same task again. As
-- long as the second lease runs, `preflightLease` accepts the epoch of the first one: a handler
-- that lost its lease is not told apart from the one that runs now.
pub stale_epoch_passes :
    (c : Config) (k k' : Clock) (worker : String) (xs ys : List Call) (at : ℕ) {q q' : Queue}
    {t t' : Task}
    → lease c k worker (run c xs new_queue) ≡ (q, ok t)
    → lease c k' worker (run c ys q) ≡ (q', ok t')
    → t'.id ≡ t.id
    → at < k'.now + c.lease_ttl
    → preflight_lease at t.id worker (or_zero t.lease_epoch) q'.tasks ≡ none
stale_epoch_passes c k k' worker xs ys at {q = q} {q' = q'} {t = t} {t' = t'} h h' same alive =
    let v = lease-QueueInv c k worker (run c xs new_queue) (run-QueueInv c xs) h in
    let w = Changes-QueueInv (run-Changes c ys q v) v in
    let first = lease-epoch c k worker xs h in
    let m = lease-Claimed c k' worker (run c ys q) w h' in
    let r = Changes-QueueInv (recover-Changes c k'.check (run c ys q) w) w in
    let inv = All-find RowInv t'.id (recover c k'.check (run c ys q)).0.tasks r.rows m.was in
    let live : holds_live worker 1 at t' ≡ true =
      rw m.rewritten
        (leased-passes c worker k'.now at m.row (queued_epoch m.row inv m.ready) alive) in
    subst (λ x. preflight_lease at x worker (or_zero t.lease_epoch) q'.tasks ≡ none) same
      (rw first (preflight-passes at t'.id worker 1 q'.tasks m.now_there live))

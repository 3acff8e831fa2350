-- ===== src/TaskQueue/Change/Recovering.antt =====
-- `Recover` and `Lease` of apps/server/internal/task/task.go are made of the shapes of change. In
-- `Recover` the rows are read once and rewritten one by one.
use m_pack_station.Base.{
  ℕ, ◌+◌, String, ◌≡◌, refl, true, false, some, List, arith, str_eq, count, Bool-cases, inl, inr,
  Bool, All, insert_by, sort_by, ◌∷◌, str_eq_comm, [], All-insert_by, All-sort_by, filter, eq_refl,
  All-map, All-filter, All-zip,
}
use m_pack_station.TaskQueue.Model.{Config, Detail, Queue, Task, queued, failed, Clock}
use m_pack_station.TaskQueue.Table.{
  find, at_id, UniqueIds, find-update, count-at_id, Fresh, find-id,
}
use m_pack_station.TaskQueue.Log.{stop_running, append_event}
use m_pack_station.TaskQueue.Submit.{is_empty}
use m_pack_station.TaskQueue.Recovery.{
  recover_one, is_expired, gives_up, set_given_up, set_recovered, past_deadline, give_up_message,
  recover_row, recover_all, expired_tasks, recover, stale_before, lease,
}
use m_pack_station.TaskQueue.Rows.{RowInv}
use m_pack_station.TaskQueue.Change.{
  Changes, Changes-one, moved, here, next, Change, append_event, Changes-trans,
}
use m_pack_station.TaskQueue.Change.Updates.{give_up-Legal, recover-Legal}
use m_pack_station.TaskQueue.Change.Operations.{stop_running-Change}
use m_pack_station.TaskQueue.Change.Invariant.{QueueInv, Changes-QueueInv}
use m_pack_station.TaskQueue.Change.Queueing.{lease_tx-Changes}

-- What the scan of `Recover` found is still so.
pub record Scanned (now : ℕ) (rs : List Task) (item : Task) : Type 0 where
  pub there : find item.id rs ≡ some item
  pub expired : is_expired now item ≡ true
  pub inv : RowInv item

-- The row of a scanned item is the one row that its UPDATE affects.
Scanned-count :
    (now : ℕ) (rs : List Task) (item : Task)
    → UniqueIds rs
    → Scanned now rs item
    → count (at_id item.id (is_expired now)) rs ≡ 1
Scanned-count now rs item u s = rw (count-at_id item.id (is_expired now) rs u, s.there, s.expired)

recover_row-Change :
    (c : Config) (now : ℕ) (item : Task) (q : Queue)
    → UniqueIds q.tasks
    → Scanned now q.tasks item
    → Change c q (recover_row c now item q)
unfolding recover_row
recover_row-Change c now item q u s =
    let one : count (at_id item.id (is_expired now)) q.tasks ≡ 1 =
      Scanned-count now q.tasks item u s in
    let late = past_deadline c now item.started_at in
    let n = item.recover_count + 1 in
    elim (Bool-cases (gives_up c now item)) [
      | inl e ↦ rw e (
          moved item.id (is_expired now) (set_given_up n late now) failed (give_up_message late)
            (Detail.recover_count n) now _ (give_up-Legal c now item late s.inv s.expired) (rw one))
      | inr e ↦ rw e (
          moved item.id (is_expired now) (set_recovered n now) queued "recovered"
            (Detail.recover_count n) now _ (recover-Legal c now item e) (rw one))
    ]

recover_one-Changes :
    (c : Config) (now : ℕ) (item : Task) (q : Queue)
    → UniqueIds q.tasks
    → Scanned now q.tasks item
    → Changes c q (recover_one c now item q)
unfolding recover_one
recover_one-Changes c now item q u s =
    next (Changes-one (recover_row-Change c now item q u s)) (stop_running-Change item.id _)

pub stop_running-tasks : (id : String) (q : Queue) → (stop_running id q).tasks ≡ q.tasks
unfolding stop_running
stop_running-tasks id q = ground arith

-- Another row's UPDATE leaves what the scan found of this one.
find-recover_one :
    (c : Config) (now : ℕ) (done : Task) (id : String) (q : Queue)
    → str_eq done.id id ≡ false
    → {item : Task} → find id q.tasks ≡ some item
    → find id (recover_one c now done q).tasks ≡ some item
unfolding recover_one recover_row append_event
find-recover_one c now done id q apart {item = item} h =
    let n = done.recover_count + 1 in
    let late = past_deadline c now done.started_at in
    let same : item.id ≡ id = find-id id q.tasks h in
    ground (
      arith,
      stop_running-tasks done.id (recover_row c now done q),
      find-update (at_id done.id (is_expired now)) (set_given_up n late now) (λ r. refl) id q.tasks,
      find-update (at_id done.id (is_expired now)) (set_recovered n now) (λ r. refl) id q.tasks,
      str_eq_comm done.id id,
    )

pub Scanned-recover_one :
    (c : Config) (now : ℕ) (done : Task) (q : Queue) (items : List Task)
    → Fresh done.id items
    → All (Scanned now q.tasks) items
    → All (Scanned now (recover_one c now done q).tasks) items
Scanned-recover_one c now done q [] apart s = tt
Scanned-recover_one c now done q (item ∷ items) apart s = (
  record {
    there =
        find-recover_one c now done item.id q (rw (str_eq_comm done.id item.id) apart.0) s.0.there;
    expired = s.0.expired;
    inv = s.0.inv;
  },
  Scanned-recover_one c now done q items apart.1 s.1,
)

recover_all-Changes :
    (c : Config) (now : ℕ) (items : List Task) (q : Queue)
    → QueueInv q
    → UniqueIds items
    → All (Scanned now q.tasks) items
    → Changes c q (recover_all c now items q)
unfolding recover_all
recover_all-Changes c now [] q v u s = here
recover_all-Changes c now (item ∷ items) q v u s =
    let first = recover_one-Changes c now item q v.unique s.0 in
    Changes-trans first (
      recover_all-Changes c now items (recover_one c now item q) (Changes-QueueInv first v) u.1
        (Scanned-recover_one c now item q items u.0 s.1))

-- The scan reads each expired row once.
UniqueIds-insert_by :
    (before : Task → Task → Bool) (x : Task) (ys : List Task)
    → Fresh x.id ys
    → UniqueIds ys
    → UniqueIds (insert_by before x ys)
unfolding insert_by
UniqueIds-insert_by before x [] f u = (tt, tt)
UniqueIds-insert_by before x (y ∷ ys) f u = ground (
  arith,
  UniqueIds-insert_by before x ys f.1 u.1,
  All-insert_by (λ r. str_eq r.id y.id ≡ false) before x ys (rw (str_eq_comm x.id y.id) f.0) u.0,
)

UniqueIds-sort_by :
    (before : Task → Task → Bool) (xs : List Task) → UniqueIds xs → UniqueIds (sort_by before xs)
unfolding sort_by
UniqueIds-sort_by before [] u = tt
UniqueIds-sort_by before (x ∷ xs) u =
    UniqueIds-insert_by before x (sort_by before xs)
      (All-sort_by (λ r. str_eq r.id x.id ≡ false) before xs u.0) (UniqueIds-sort_by before xs u.1)

pub Fresh-filter :
    (id : String) (p : Task → Bool) (xs : List Task) → Fresh id xs → Fresh id (filter p xs)
Fresh-filter id p [] f = tt
Fresh-filter id p (x ∷ xs) f = ground (arith, Fresh-filter id p xs f.1)

UniqueIds-filter : (p : Task → Bool) (xs : List Task) → UniqueIds xs → UniqueIds (filter p xs)
UniqueIds-filter p [] u = tt
UniqueIds-filter p (x ∷ xs) u =
    ground (arith, UniqueIds-filter p xs u.1, Fresh-filter x.id p xs u.0)

-- A read by the id of a row finds the row.
abbrev pub FoundIn : List Task → Task → Type 0
FoundIn rs r = find r.id rs ≡ some r

find_older :
    (x : Task) (xs rs : List Task) → Fresh x.id rs → All (FoundIn xs) rs → All (FoundIn (x ∷ xs)) rs
unfolding find
find_older x xs [] f h = tt
find_older x xs (r ∷ rs) f h = (rw (str_eq_comm x.id r.id, f.0) h.0, find_older x xs rs f.1 h.1)

pub find_every : (rs : List Task) → UniqueIds rs → All (FoundIn rs) rs
find_every [] u = tt
find_every (r ∷ rs) u =
    (unfold find in rw (eq_refl r.id), find_older r rs rs u.0 (find_every rs u.1))

pub expired_tasks-Scanned :
    (now : ℕ) (q : Queue) → QueueInv q → All (Scanned now q.tasks) (expired_tasks now q)
unfolding expired_tasks
expired_tasks-Scanned now q v =
    All-sort_by (Scanned now q.tasks) stale_before (filter (is_expired now) q.tasks) (
      All-map _ (Scanned now q.tasks) (filter (is_expired now) q.tasks)
        (λ r h. record { there = h.0.0; expired = h.1; inv = h.0.1 })
        (All-filter _ (is_expired now) q.tasks
          (All-zip (FoundIn q.tasks) RowInv q.tasks (find_every q.tasks v.unique) v.rows)))

pub expired_tasks-UniqueIds : (now : ℕ) (q : Queue) → QueueInv q → UniqueIds (expired_tasks now q)
unfolding expired_tasks
expired_tasks-UniqueIds now q v =
    UniqueIds-sort_by stale_before (filter (is_expired now) q.tasks)
      (UniqueIds-filter (is_expired now) q.tasks v.unique)

pub recover-Changes :
    (c : Config) (now : ℕ) (q : Queue) → QueueInv q → Changes c q (recover c now q).0
unfolding recover
recover-Changes c now q v =
    recover_all-Changes c now (expired_tasks now q) q v (expired_tasks-UniqueIds now q v)
      (expired_tasks-Scanned now q v)

pub lease-Changes :
    (c : Config) (k : Clock) (worker : String) (q : Queue)
    → QueueInv q
    → Changes c q (lease c k worker q).0
unfolding lease
lease-Changes c k worker q v = elim (Bool-cases (is_empty worker)) [
  | inl e ↦ rw e here
  | inr e ↦ rw e (
      Changes-trans (recover-Changes c k.check q v)
        (lease_tx-Changes c worker k.now (recover c k.check q).0))
]

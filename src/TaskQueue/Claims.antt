-- ===== src/TaskQueue/Claims.antt =====
-- What `Lease` of apps/server/internal/task/task.go hands out: which task, and with which lease.
use m_pack_station.Base.{
  ℕ, String, ◌≡◌, refl, some, true, Option-cases, inl, inr, Bool-cases, sym, ◌∙◌, ap, subst₂, false,
  eq_refl,
}
use m_pack_station.TaskQueue.Model.{
  ok, err, Config, Queue, Task, is_queued, Clock, leased, Detail, lease_lost, Error, Result,
}
use m_pack_station.TaskQueue.Recovery.{claim, set_leased, lease_tx, lease, next_ready, recover}
use m_pack_station.TaskQueue.Table.{find, UniqueIds, at_id, find-id, update, find-update}
use m_pack_station.TaskQueue.Log.{append_event}
use m_pack_station.TaskQueue.Fencing.{row_allows, affects_one}
use m_pack_station.TaskQueue.Change.Invariant.{QueueInv, Changes-QueueInv}
use m_pack_station.TaskQueue.Submit.{get, is_empty}
use m_pack_station.TaskQueue.Change.Recovering.{recover-Changes}

-- A claim that was granted: the row that the scan chose, as the statement rewrote it.
pub record Claimed (c : Config) (worker : String) (now : ℕ) (q q' : Queue) (t : Task) : Type 0 where
  pub row : Task
  pub was : find t.id q.tasks ≡ some row
  pub ready : is_queued row.status ≡ true
  pub rewritten : t ≡ set_leased c worker now row
  pub now_there : find t.id q'.tasks ≡ some t

pub claim-granted :
    (c : Config) (worker : String) (now : ℕ) (item row : Task) (q : Queue)
    → UniqueIds q.tasks
    → find item.id q.tasks ≡ some row
    → is_queued row.status ≡ true
    → let q' = append_event c item.id leased "leased" (Detail.worker worker) now (record q {
      tasks = update (at_id item.id (λ r. is_queued r.status)) (set_leased c worker now) q.tasks;
    }) in
      (claim c worker now item q ≡ (q', ok (set_leased c worker now row)))
      × (find item.id q'.tasks ≡ some (set_leased c worker now row))
unfolding claim append_event
claim-granted c worker now item row q u e ready =
    let p = at_id item.id (λ r. is_queued r.status) in
    let f = set_leased c worker now in
    let hit : p row ≡ true = rw (find-id item.id q.tasks e, eq_refl item.id, ready) in
    let found : find item.id (update p f q.tasks) ≡ some (f row) =
      rw (find-update p f (λ r. refl) item.id q.tasks, e, hit) in
    (
      rw (affects_one item.id (λ r. is_queued r.status) q.tasks u, e, ready, claim)
          (unfold get in rw (found, get)),
      found,
    )

claim-refused :
    (c : Config) (worker : String) (now : ℕ) (item : Task) (q : Queue)
    → UniqueIds q.tasks
    → row_allows (λ r. is_queued r.status) (find item.id q.tasks) ≡ false
    → claim c worker now item q ≡ (q, err lease_lost)
unfolding claim
claim-refused c worker now item q u e =
    rw (affects_one item.id (λ r. is_queued r.status) q.tasks u, e, claim)

refused-ne-ok :
    {q q' : Queue} {e : Error} {t : Task} {o : Queue × Result Task}
    → o ≡ (q, err e)
    → o ≡ (q', ok t)
    → ⊥
refused-ne-ok {q = q} {q' = q'} {e = e} {t = t} a b =
    let x : err e ≡ ok t = ap (λ y. y.1) (sym a ∙ b) in cc

claim-Claimed :
    (c : Config) (worker : String) (now : ℕ) (item : Task) (q : Queue) {q' : Queue} {t : Task}
    → UniqueIds q.tasks
    → claim c worker now item q ≡ (q', ok t)
    → Claimed c worker now q q' t
claim-Claimed c worker now item q {q' = q'} {t = t} u h =
    elim (Option-cases (find item.id q.tasks)) [
      | inl e ↦ absurd (refused-ne-ok (claim-refused c worker now item q u (rw e)) h)
      | inr (row, e) ↦ elim (Bool-cases (is_queued row.status)) [
        | inr b ↦ absurd (refused-ne-ok (claim-refused c worker now item q u (rw (e, b))) h)
        | inl b ↦
            let (granted, found) = claim-granted c worker now item row q u e b in
            let g = sym granted ∙ h in
            let same : set_leased c worker now row ≡ t = cc g in
            let id_same : item.id ≡ t.id =
              sym (find-id item.id q.tasks e) ∙ ap (λ (x : Task). x.id) same in
            record {
              row = row;
              was = rw (← id_same) e;
              ready = b;
              rewritten = sym same;
              now_there =
                  subst₂ (λ (x : Queue) (y : String). find y x.tasks ≡ some t) (ap (λ x. x.0) g)
                    id_same (found ∙ ap some same);
            }
      ]
    ]

pub lease_tx-Claimed :
    (c : Config) (worker : String) (now : ℕ) (q : Queue) {q' : Queue} {t : Task}
    → UniqueIds q.tasks
    → lease_tx c worker now q ≡ (q', ok t)
    → Claimed c worker now q q' t
unfolding lease_tx
lease_tx-Claimed c worker now q u h = elim (Option-cases (next_ready now q.tasks)) [
  | inl e ↦ absurd (cc (rw (e, lease_tx) at h))
  | inr (item, e) ↦ claim-Claimed c worker now item q u (rw (e, lease_tx) at h)
]

-- `Lease` behind its recovery.
pub lease-Claimed :
    (c : Config) (k : Clock) (worker : String) (q : Queue) {q' : Queue} {t : Task}
    → QueueInv q
    → lease c k worker q ≡ (q', ok t)
    → Claimed c worker k.now (recover c k.check q).0 q' t
unfolding lease
lease-Claimed c k worker q v h = elim (Bool-cases (is_empty worker)) [
  | inl e ↦ absurd (cc (rw e at h))
  | inr e ↦
      lease_tx-Claimed c worker k.now (recover c k.check q).0
        (Changes-QueueInv (recover-Changes c k.check q v) v).unique (rw e at h)
]

-- ===== src/TaskQueue/Change/Queueing.antt =====
-- `Submit` and the claim of `Lease`, in apps/server/internal/task/task.go, are made of the shapes
-- of change.
use m_pack_station.Base.{
  ℕ, String, ◌≡◌, refl, true, none, is_some, ◌||◌, Bool-cases, Option-cases, inl, inr,
}
use m_pack_station.TaskQueue.Model.{Config, Detail, Queue, Task, SubmitRequest, leased, is_queued}
use m_pack_station.TaskQueue.Table.{find}
use m_pack_station.TaskQueue.Log.{transition}
use m_pack_station.TaskQueue.Submit.{
  submit, submit_tx, find_key, is_empty, insert_task, validate_submit, canonical_payload,
}
use m_pack_station.TaskQueue.Recovery.{claim, lease_tx, next_ready, set_leased}
use m_pack_station.TaskQueue.Change.{Changes, Changes-one, aside, moved, added, here, not_bound}
use m_pack_station.TaskQueue.Change.Updates.{lease-Legal}

module _ (c : Config) (now : ℕ) (r : SubmitRequest) (payload hash : String) (q : Queue) where
  insert_task-Changes :
      validate_submit c r ≡ none
      → (is_empty r.idempotency_key || not_bound r.idempotency_key q) ≡ true
      → Changes c q (insert_task c now r payload hash q).0
  unfolding insert_task
  insert_task-Changes valid unbound =
      elim (Bool-cases (is_some (find (c.id q.generated) q.tasks))) [
        | inl taken ↦ rw taken (Changes-one (aside _ refl refl refl))
        | inr free ↦ Changes-one (added now r payload hash _ valid free unbound refl)
      ]

  submit_tx-Changes : validate_submit c r ≡ none → Changes c q (submit_tx c now r payload hash q).0
  unfolding submit_tx
  submit_tx-Changes valid = elim (Bool-cases (is_empty r.idempotency_key)) [
    | inl e ↦ rw e (insert_task-Changes valid (rw e))
    | inr e ↦ rw e (elim (Option-cases (find_key r.idempotency_key q.keys)) [
      | inl h ↦ rw (h, submit_tx) (insert_task-Changes valid (rw (e, h)))
      | inr (x, h) ↦ rw (h, submit_tx) here
    ])
  ]

pub submit-Changes :
    (c : Config) (now : ℕ) (r : SubmitRequest) (q : Queue) → Changes c q (submit c now r q).0
unfolding submit
submit-Changes c now r q = elim (Option-cases (validate_submit c r)) [
  | inr (e, h) ↦ rw (h, submit) here
  | inl h ↦
      rw (h, submit)
        (elim (Option-cases (canonical_payload c r.payload)) [
          | inl d ↦ rw (d, submit) here
          | inr ((payload, hash), d) ↦ rw (d, submit) (submit_tx-Changes c now r payload hash q h)
        ])
]

claim-Changes :
    (c : Config) (worker : String) (now : ℕ) (item : Task) (q : Queue)
    → Changes c q (claim c worker now item q).0
unfolding claim
claim-Changes c worker now item q =
    let t =
      transition c item.id (λ r. is_queued r.status) (set_leased c worker now) leased "leased"
        (Detail.worker worker) now q in
    elim (Option-cases t) [
      | inl h ↦ rw (h, claim) here
      | inr (q', h) ↦
          rw (h, claim)
            (Changes-one (
              moved item.id _ _ leased "leased" (Detail.worker worker) now q'
                (lease-Legal c worker now) h))
    ]

pub lease_tx-Changes :
    (c : Config) (worker : String) (now : ℕ) (q : Queue) → Changes c q (lease_tx c worker now q).0
unfolding lease_tx
lease_tx-Changes c worker now q = elim (Option-cases (next_ready now q.tasks)) [
  | inl h ↦ rw (h, lease_tx) here
  | inr (item, h) ↦ rw (h, lease_tx) (claim-Changes c worker now item q)
]

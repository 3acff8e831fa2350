-- ===== src/TaskQueue/Replay.antt =====
-- The outcome of a repeated `Submit` of apps/server/internal/task/task.go, after any calls between
-- the two.
use m_pack_station.Base.{
  ℕ, String, ◌≡◌, refl, some, false, is_some, eq_refl, Bool-cases, inl, arith, Option-cases, inr,
  none, sym, ap, ◌∙◌, subst₂, List, true, ◌≢◌, str_eq-of_ne, subst,
}
use m_pack_station.TaskQueue.Model.{
  ok, SubmitRequest, Config, Queue, Task, IdemKey, queued, Detail, new_queue, err,
  idempotency_conflict,
}
use m_pack_station.TaskQueue.Submit.{
  is_empty, insert_task, find_key, get, new_row, with_rows, replay, submit_tx, submit,
  canonical_payload, validate_submit,
}
use m_pack_station.TaskQueue.Table.{find}
use m_pack_station.TaskQueue.Log.{append_event}
use m_pack_station.TaskQueue.Calls.{Call, run, run-Changes, run-QueueInv}
use m_pack_station.TaskQueue.Change.Invariant.{QueueInv, Changes-QueueInv}
use m_pack_station.TaskQueue.Lifecycle.{Follows, Changes-Later}
use m_pack_station.TaskQueue.Idempotency.{Changes-find_key}
use m_pack_station.TaskQueue.Change.Queueing.{submit-Changes}

-- A submission that made its task: the task is in the table, and a key that was given is bound.
record Made (r : SubmitRequest) (hash : String) (q : Queue) (t : Task) : Type 0 where
  there : find t.id q.tasks ≡ some t
  key : IdemKey
  bound : find_key r.idempotency_key q.keys ≡ some key
  same_hash : key.payload_hash ≡ hash
  same_task : key.task_id ≡ some t.id

insert_task-ok :
    (c : Config) (now : ℕ) (r : SubmitRequest) (payload hash : String) (q : Queue)
    → is_some (find (c.id q.generated) q.tasks) ≡ false
    → insert_task c now r payload hash q ≡ (
      append_event c
          (c.id q.generated)
          queued
          "queued"
          Detail.empty
          now
          (with_rows c now r payload hash q),
      ok (new_row (c.id q.generated) payload now r, false),
    )
unfolding insert_task append_event get find new_row
insert_task-ok c now r payload hash q free = rw (free) (rw (eq_refl (c.id q.generated), find, get))

inserted-Made :
    (c : Config) (now : ℕ) (r : SubmitRequest) (payload hash : String) (q : Queue)
    → is_empty r.idempotency_key ≡ false
    → let id = c.id q.generated in
      Made r hash
        (append_event c id queued "queued" Detail.empty now (with_rows c now r payload hash q))
        (new_row id payload now r)
unfolding append_event find find_key new_row
inserted-Made c now r payload hash q named =
    let id = c.id q.generated in
    let k : IdemKey = record {
      key = r.idempotency_key;
      endpoint = "task.submit";
      kind = r.kind;
      payload_hash = hash;
      task_id = some id;
      created_at = now;
    } in
    record {
      there = rw (eq_refl id);
      key = k;
      bound = rw (named, eq_refl r.idempotency_key);
      same_hash = refl;
      same_task = refl;
    }

insert_task-Made :
    (c : Config) (now : ℕ) (r : SubmitRequest) (payload hash : String) (q : Queue) {q' : Queue}
    {t : Task}
    → is_empty r.idempotency_key ≡ false
    → insert_task c now r payload hash q ≡ (q', ok (t, false))
    → Made r hash q' t
insert_task-Made c now r payload hash q {q' = q'} {t = t} named h =
    let id = c.id q.generated in
    elim (Bool-cases (is_some (find id q.tasks))) [
      | inl taken ↦ absurd (unfold insert_task in cc (rw taken at h))
      | inr free ↦
          let e = sym (insert_task-ok c now r payload hash q free) ∙ h in
          let row : new_row id payload now r ≡ t = cc e in
          subst₂ (Made r hash) (ap (λ x. x.0) e) row (inserted-Made c now r payload hash q named)
    ]

-- A replayed key made no task.
replay-not_new :
    (hash : String) (k : IdemKey) (q : Queue) (t : Task) → replay hash k q ≡ ok (t, false) → ⊥
unfolding replay get
replay-not_new hash k q t h = ground arith

submit_tx-Made :
    (c : Config) (now : ℕ) (r : SubmitRequest) (payload hash : String) (q : Queue) {q' : Queue}
    {t : Task}
    → is_empty r.idempotency_key ≡ false
    → submit_tx c now r payload hash q ≡ (q', ok (t, false))
    → Made r hash q' t
unfolding submit_tx
submit_tx-Made c now r payload hash q {q' = q'} {t = t} named h =
    elim (Option-cases (find_key r.idempotency_key q.keys)) [
      | inl e ↦ insert_task-Made c now r payload hash q named (rw (named, e, submit_tx) at h)
      | inr (k, e) ↦
          let g : (q, replay hash k q) ≡ (q', ok (t, false)) = rw (named, e, submit_tx) at h in
          absurd (replay-not_new hash k q t (ap (λ x. x.1) g))
    ]

submit-Made :
    (c : Config) (now : ℕ) (r : SubmitRequest) (q : Queue) {q' : Queue} {t : Task}
    {payload hash : String}
    → is_empty r.idempotency_key ≡ false
    → canonical_payload c r.payload ≡ some (payload, hash)
    → submit c now r q ≡ (q', ok (t, false))
    → Made r hash q' t
unfolding submit
submit-Made c now r q {payload = payload} {hash = hash} named d h =
    elim (Option-cases (validate_submit c r)) [
      | inl e ↦ submit_tx-Made c now r payload hash q named (rw (e, d, submit) at h)
      | inr (x, e) ↦ absurd (cc (rw (e, submit) at h))
    ]

-- What a second submission with a bound key comes to.
submit-bound :
    (c : Config) (now : ℕ) (r : SubmitRequest) (q : Queue) {k : IdemKey} {payload hash : String}
    → validate_submit c r ≡ none
    → is_empty r.idempotency_key ≡ false
    → canonical_payload c r.payload ≡ some (payload, hash)
    → find_key r.idempotency_key q.keys ≡ some k
    → submit c now r q ≡ (q, replay hash k q)
unfolding submit submit_tx
submit-bound c now r q valid named d h = rw (valid, d, named, h, submit, submit_tx)

-- A task made under a key, after any calls `xs`; then any calls `ys`; then a second request under
-- the key, of any kind and title.
module _ (c : Config) (xs ys : List Call) (now now' : ℕ) (r r' : SubmitRequest) {q : Queue}
    {t : Task} {payload hash payload' hash' : String} (named : is_empty r.idempotency_key ≡ false)
    (first : canonical_payload c r.payload ≡ some (payload, hash))
    (made : submit c now r (run c xs new_queue) ≡ (q, ok (t, false)))
    (again : r'.idempotency_key ≡ r.idempotency_key) (valid : validate_submit c r' ≡ none)
    (second : canonical_payload c r'.payload ≡ some (payload', hash')) where
  made-QueueInv : QueueInv q
  made-QueueInv =
      let e = submit-Changes c now r (run c xs new_queue) in
      subst QueueInv (ap (λ x. x.0) made) (Changes-QueueInv e (run-QueueInv c xs))

  bound_later : (m : Made r hash q t) → find_key r'.idempotency_key (run c ys q).keys ≡ some m.key
  bound_later m =
      rw again (Changes-find_key r.idempotency_key (run-Changes c ys q made-QueueInv) m.bound)

  named_again : is_empty r'.idempotency_key ≡ false
  named_again = rw again named

  -- If the payload of the second request has the same hash, it answers with the task that the first
  -- one made, marked as replayed and as it stands by then, and changes nothing: the row has the
  -- same id and key, and edges of the life of a task lead from the status that it had to its status.
  pub submit-replay :
      hash' ≡ hash
      → (t' : Task) × (submit c now' r' (run c ys q) ≡ (run c ys q, ok (t', true))) × Follows t t'
  submit-replay same =
      let m = submit-Made c now r (run c xs new_queue) named first made in
      let (t', found, f) = Changes-Later t.id (run-Changes c ys q made-QueueInv) m.there in
      (
        t',
        rw (submit-bound c now' r' (run c ys q) valid named_again second (bound_later m)) (
            unfold replay get in
            rw (m.same_hash, same, eq_refl hash, m.same_task, found, replay, get)),
        f,
      )

  -- If the hashes differ, it is refused with a conflict, and changes nothing.
  pub submit-conflict :
      hash ≢ hash' → submit c now' r' (run c ys q) ≡ (run c ys q, err idempotency_conflict)
  submit-conflict differ =
      let m = submit-Made c now r (run c xs new_queue) named first made in
      rw (submit-bound c now' r' (run c ys q) valid named_again second (bound_later m))
        (unfold replay in rw (m.same_hash, str_eq-of_ne hash hash' differ))

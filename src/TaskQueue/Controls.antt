-- ===== src/TaskQueue/Controls.antt =====
-- `Cancel`, `Resume` and `Retry` of apps/server/internal/task/task.go on every branch, and what a
-- cancellation does to the worker that holds the lease.
use m_pack_station.Base.{
  ℕ, String, List, Bool, map, ◌≡◌, if◌then◌else◌, some, str_eq, true, ◌∷◌, Bool-cases, inl, ap,
  eq_refl, str_eq→eq, inr, [], false, refl, none, ◌⊎◌, Option-cases, arith, sym, ◌∙◌,
}
use m_pack_station.TaskQueue.Control.{cancel, resume, retry}
use m_pack_station.TaskQueue.Model.{
  Config, Task, Queue, Result, Status, Clock, Detail, is_open, is_paused, err, is_retryable, ok,
  canceled, queued,
}
use m_pack_station.TaskQueue.Table.{find, update, UniqueIds, at_id, Fresh, find-id}
use m_pack_station.TaskQueue.Log.{append_event, transition}
use m_pack_station.TaskQueue.Control.{set_canceled, set_resumed, transition_status, set_retried}
use m_pack_station.TaskQueue.Calls.{
  Action, act_late, progresses, succeeds, fails, gives_up, begins, beats, pauses,
}
use m_pack_station.TaskQueue.Fencing.{row_allows, affects_one, is_ok, allows, act_late-Exact}
use m_pack_station.TaskQueue.Leases.{settle}
use m_pack_station.TaskQueue.Change.Invariant.{QueueInv, Changes-QueueInv}
use m_pack_station.TaskQueue.Change.Operations.{cancel-Changes}
use m_pack_station.TaskQueue.Change.Recovering.{stop_running-tasks}

-- The row with an id, replaced.
abbrev pub put : String → Task → List Task → List Task
put id t = map (λ r. if str_eq r.id id then t else r)

-- An UPDATE by id, when the one row with the id is known.
update-put :
    (id : String) (p : Task → Bool) (f : Task → Task) (rs : List Task) {r : Task}
    → UniqueIds rs
    → find id rs ≡ some r
    → p r ≡ true
    → update (at_id id p) f rs ≡ put id (f r) rs
unfolding find update
update-put id p f [] u h e = absurd (cc)
update-put id p f (x ∷ xs) {r = r} u h e = elim (Bool-cases (str_eq x.id id)) [
  | inl a ↦
      let same : x ≡ r = cc (rw a at h) in
      let apart : Fresh id xs = rw (str_eq→eq x.id id a) at u.0 in
      rw (a, same, e) (ap (λ zs. f r ∷ zs) (untouched xs apart))
  | inr a ↦ rw a (ap (λ ys. x ∷ ys) (update-put id p f xs u.1 (rw a at h) e))
]
  where
    untouched : (ys : List Task) → Fresh id ys → update (at_id id p) f ys ≡ put id (f r) ys
    untouched [] apart = refl
    untouched (y ∷ ys) apart = rw apart.0 (ap (λ zs. y ∷ zs) (untouched ys apart.1))

-- What a statement by id on a row comes to: refused, with the reason, or the row replaced.
abbrev pub Switches :
    (Task → Bool) → (Task → Task) → String → Queue → Queue × Result (Unit {0}) → Type 0
Switches p f id q o =
    ((row_allows p (find id q.tasks) ≡ false) × (o ≡ (q, err (transition_status id q.tasks))))
    ⊎ ((r : Task) × (find id q.tasks ≡ some r)
        × (p r ≡ true)
        × (o.1 ≡ ok tt)
        × (o.0.tasks ≡ put id (f r) q.tasks))

transition-refused :
    (c : Config) (id : String) (p : Task → Bool) (f : Task → Task) (s : Status) (message : String)
    (detail : Detail) (now : ℕ) (q : Queue)
    → UniqueIds q.tasks
    → row_allows p (find id q.tasks) ≡ false
    → transition c id p f s message detail now q ≡ none
transition-refused c id p f s message detail now q u e = rw (affects_one id p q.tasks u, e)

pub transition-granted :
    (c : Config) (id : String) (p : Task → Bool) (f : Task → Task) (s : Status) (message : String)
    (detail : Detail) (now : ℕ) (q : Queue)
    → UniqueIds q.tasks
    → row_allows p (find id q.tasks) ≡ true
    → transition c id p f s message detail now q
      ≡ some (
          append_event c id s message detail now
            (record q { tasks = update (at_id id p) f q.tasks }))
transition-granted c id p f s message detail now q u e = rw (affects_one id p q.tasks u, e)

module _ (c : Config) (id : String) (p : Task → Bool) (f : Task → Task) (s : Status)
    (message : String) (detail : Detail) (now : ℕ) (q : Queue) (u : UniqueIds q.tasks) where
  settle-Switches :
      Switches p f id q
        (settle q (transition_status id q.tasks) (transition c id p f s message detail now q))
  unfolding append_event
  settle-Switches = elim (Option-cases (find id q.tasks)) [
    | inl e ↦
        let refuse : row_allows p (find id q.tasks) ≡ false = rw e in
        inl (refuse, rw (transition-refused c id p f s message detail now q u refuse))
    | inr (r, e) ↦ elim (Bool-cases (p r)) [
      | inr b ↦
          let refuse : row_allows p (find id q.tasks) ≡ false = rw (e, b) in
          inl (refuse, rw (transition-refused c id p f s message detail now q u refuse))
      | inl b ↦
          let allow : row_allows p (find id q.tasks) ≡ true = rw (e, b) in
          inr (
            r,
            e,
            b,
            rw (transition-granted c id p f s message detail now q u allow),
            rw (transition-granted c id p f s message detail now q u allow)
                (update-put id p f q.tasks u e b),
          )
    ]
  ]

cancel-Switches :
    (c : Config) (now : ℕ) (id : String) (q : Queue)
    → UniqueIds q.tasks
    → Switches (λ r. is_open r.status) (set_canceled now) id q (cancel c now id q)
unfolding cancel append_event
cancel-Switches c now id q u =
    elim (settle-Switches c id (λ r. is_open r.status) (set_canceled now) canceled "canceled"
      Detail.empty now q u) [
        | inl (refuse, e) ↦ inl (
          refuse,
          rw (
              transition-refused c id (λ r. is_open r.status) (set_canceled now) canceled "canceled"
                Detail.empty now q u refuse),
        )
        | inr (r, e, b, x, y) ↦
            let allow : row_allows (λ r. is_open r.status) (find id q.tasks) ≡ true = rw (e, b) in
            let go =
              transition-granted c id (λ r. is_open r.status) (set_canceled now) canceled "canceled"
                Detail.empty now q u allow in
            inr (r, e, b, rw go, rw (go, stop_running-tasks) (rw go at y))
      ]

resume-Switches :
    (c : Config) (now : ℕ) (id : String) (q : Queue)
    → UniqueIds q.tasks
    → Switches (λ r. is_paused r.status) (set_resumed now) id q (resume c now id q)
unfolding resume
resume-Switches c now id q u =
    settle-Switches c id (λ r. is_paused r.status) (set_resumed now) queued "queued" Detail.resumed
      now q u

retry-Switches :
    (c : Config) (now : ℕ) (id : String) (q : Queue)
    → UniqueIds q.tasks
    → Switches (λ r. is_retryable r.status) (set_retried now) id q (retry c now id q)
unfolding retry
retry-Switches c now id q u =
    settle-Switches c id (λ r. is_retryable r.status) (set_retried now) queued "queued"
      Detail.retried now q u

-- Where ids are distinct, `Cancel` is accepted exactly if the task is queued, leased, running or
-- paused, `Resume` exactly if it is paused, and `Retry` exactly if it failed or was canceled. An
-- accepted call replaces that row and no other; a refused one changes nothing and says whether the
-- task is missing or in the wrong state.
pub controls-total :
    (c : Config) (now : ℕ) (id : String) (q : Queue)
    → UniqueIds q.tasks
    → Switches (λ r. is_open r.status) (set_canceled now) id q (cancel c now id q)
      × Switches (λ r. is_paused r.status) (set_resumed now) id q (resume c now id q)
      × Switches (λ r. is_retryable r.status) (set_retried now) id q (retry c now id q)
controls-total c now id q u =
    (cancel-Switches c now id q u, resume-Switches c now id q u, retry-Switches c now id q u)

find-put :
    (id : String) (t : Task) (rs : List Task) {r : Task}
    → t.id ≡ id
    → find id rs ≡ some r
    → find id (put id t rs) ≡ some t
unfolding find
find-put id t [] same h = absurd (cc)
find-put id t (x ∷ xs) same h = elim (Bool-cases (str_eq x.id id)) [
  | inl e ↦ rw (e, same, eq_refl id)
  | inr e ↦ rw (e, e) (find-put id t xs same (rw e at h))
]

-- Once a cancellation was accepted, no call of a worker on the task passes the statement's fence,
-- whatever its owner, epoch and time: the handler that still runs can write nothing more.
pub cancel-fences :
    (c : Config) (now : ℕ) (id : String) (q : Queue) (k : Clock) (worker : String) (epoch : ℕ)
    (a : Action)
    → QueueInv q
    → (cancel c now id q).1 ≡ ok tt
    → is_ok
        (act_late c k
          (record { id = id; worker = worker; epoch = epoch })
          a
          (cancel c now id q).0).1
      ≡ false
cancel-fences c now id q k worker epoch a v h = elim (cancel-Switches c now id q v.unique) [
  | inl (refuse, e) ↦
      absurd (let x : err (transition_status id q.tasks) ≡ ok tt = ap (λ y. y.1) (sym e) ∙ h in cc)
  | inr (r, e, b, x, y) ↦
      let w = Changes-QueueInv (cancel-Changes c now id q) v in
      let there : find id (cancel c now id q).0.tasks ≡ some (set_canceled now r) =
        rw y (find-put id (set_canceled now r) q.tasks (find-id id q.tasks e) e) in
      let exact =
        act_late-Exact c k (record { id = id; worker = worker; epoch = epoch }) a
          (cancel c now id q).0 w.unique in
      exact.accepted
      ∙ ap (row_allows (allows a worker epoch k.now)) there
      ∙ canceled-refuses a worker epoch k.now now r
]
  where
    canceled-refuses :
        (a : Action) (worker : String) (epoch at now : ℕ) (r : Task)
        → allows a worker epoch at (set_canceled now r) ≡ false
    canceled-refuses begins worker epoch at now r = refl
    canceled-refuses beats worker epoch at now r = refl
    canceled-refuses pauses worker epoch at now r = refl
    canceled-refuses (progresses p message) worker epoch at now r = ground arith
    canceled-refuses (succeeds message) worker epoch at now r = refl
    canceled-refuses (fails e) worker epoch at now r = refl
    canceled-refuses (gives_up code error message) worker epoch at now r = refl

-- ===== src/TaskQueue/Fencing.antt =====
-- The fence of apps/server/internal/task/task.go: which calls of a worker are accepted, what a
-- refused call changes, and how far owner and epoch tell leases apart.
use m_pack_station.Base.{
  ℕ, String, ◌≡◌, refl, Option, Bool, true, false, some, if◌then◌else◌, none, not, ◌&&◌, ◌==◌, List,
  count, arith, Bool-cases, inl, Option-cases, inr,
}
use m_pack_station.TaskQueue.Model.{
  ok, err, Result, Task, Config, Queue, Status, Error, Clock, TaskError, succeeded, failed,
  lease_lost, is_leased, holds_lease, is_active, is_running, ContextEnd, lasts, never_returns,
  expires, aborts,
}
use m_pack_station.TaskQueue.Table.{UniqueIds, find, count-at_id, meets, at_id}
use m_pack_station.TaskQueue.Calls.{
  Action, progresses, succeeds, fails, gives_up, begins, beats, pauses, Owner, act_late,
}
use m_pack_station.TaskQueue.Leases.{
  settle, can_begin, holds_live, owns_running, begin_tx, heartbeat_tx, progress_tx, preflight_lease,
  fenced_result, fenced_result_held, fenced_result_tx,
}
use m_pack_station.TaskQueue.Finishing.{retries, finish_tx, write_failure, fail_tx, with_defaults}
use m_pack_station.TaskQueue.Rows.{out_of_range}
use m_pack_station.TaskQueue.Control.{settle_stopped, pause_tx}
use m_pack_station.Base.Int.{ℤ}

abbrev pub is_ok {ℓ} : {A : Type ℓ} → Result A → Bool
is_ok (ok a) = true
is_ok (err e) = false

-- What the row of a task must be for an action of a worker.
abbrev pub allows : Action → String → ℕ → ℕ → Task → Bool
allows begins worker epoch now r = is_leased r.status && holds_lease r worker epoch now
allows beats worker epoch now r = is_active r.status && holds_lease r worker epoch now
allows (progresses p message) worker epoch now r =
    not (out_of_range p) && (is_running r.status && holds_lease r worker epoch now)
allows pauses worker epoch now r = is_running r.status && holds_lease r worker epoch now
allows (succeeds message) worker epoch now r = is_running r.status && holds_lease r worker epoch now
allows (fails e) worker epoch now r = is_running r.status && holds_lease r worker epoch now
allows (gives_up code error message) worker epoch now r =
    is_running r.status && holds_lease r worker epoch now

abbrev pub is_begin : Action → Bool
is_begin begins = true
is_begin _ = false

abbrev pub row_allows : (Task → Bool) → Option Task → Bool
row_allows p none = false
row_allows p (some r) = p r

abbrev pub is_endless : Error → Bool
is_endless never_returns = true
is_endless e = false

abbrev pub never_ends {ℓ} : {A : Type ℓ} → Result A → Bool
never_ends (ok a) = false
never_ends (err e) = is_endless e

-- The outcome of a fenced transaction: the queue is changed exactly if the row allows it, and a
-- refused call waits for ever exactly if it `hangs`.
pub record Exact (allowed hangs : Bool) (q : Queue) (o : Queue × Result (Unit {0})) : Type 0 where
  pub accepted : is_ok o.1 ≡ allowed
  pub waiting : never_ends o.1 ≡ (not allowed && hangs)
  pub unchanged : (if allowed then q else o.0) ≡ q

-- RowsAffected tells whether the row with the id meets the condition.
pub affects_one :
    (id : String) (p : Task → Bool) (rs : List Task)
    → UniqueIds rs
    → (count (at_id id p) rs == 1) ≡ row_allows p (find id rs)
affects_one id p rs u = rw (count-at_id id p rs u) (go (find id rs))
  where
    go : (o : Option Task) → (meets p o == 1) ≡ row_allows p o
    go none = refl
    go (some r) = ground arith

settle-Exact :
    (b hangs : Bool) (q q' : Queue) (e : Error)
    → is_endless e ≡ hangs
    → Exact b hangs q (settle q e (if b then some q' else none))
settle-Exact true hangs q q' e h = record { accepted = refl; waiting = refl; unchanged = refl }
settle-Exact false hangs q q' e h = record { accepted = refl; waiting = h; unchanged = refl }

settle_stopped-Exact :
    (b hangs : Bool) (id : String) (q q' : Queue) (e : Error)
    → is_endless e ≡ hangs
    → Exact b hangs q (settle_stopped id q e (if b then some q' else none))
settle_stopped-Exact true hangs id q q' e h = record {
  accepted = refl;
  waiting = refl;
  unchanged = refl;
}
settle_stopped-Exact false hangs id q q' e h = record {
  accepted = refl;
  waiting = h;
  unchanged = refl;
}

-- The context of the call lasts.
abbrev pub is_lasting : ContextEnd → Bool
is_lasting lasts = true
is_lasting _ = false

-- A refused call waits for ever only where its transaction holds the connection that it waits for.
fenced_result-returns :
    (end : ContextEnd) (id worker : String) (epoch : ℕ) (rs : List Task)
    → is_endless (fenced_result end id worker epoch rs) ≡ false
unfolding fenced_result
fenced_result-returns lasts id worker epoch rs = ground arith
fenced_result-returns expires id worker epoch rs = refl
fenced_result-returns aborts id worker epoch rs = refl

fenced_result_held-endless :
    (end : ContextEnd) (id worker : String) (epoch : ℕ) (rs : List Task)
    → is_endless (fenced_result_held end id worker epoch rs) ≡ is_lasting end
unfolding fenced_result_held
fenced_result_held-endless lasts id worker epoch rs = refl
fenced_result_held-endless expires id worker epoch rs = refl
fenced_result_held-endless aborts id worker epoch rs = refl

fenced_result_tx-returns :
    (now : ℕ) (id worker : String) (epoch : ℕ) (rs : List Task)
    → is_endless (fenced_result_tx now id worker epoch rs) ≡ false
unfolding fenced_result_tx
fenced_result_tx-returns now id worker epoch rs = ground arith

module _ (c : Config) (k : Clock) (o : Owner) (q : Queue) (u : UniqueIds q.tasks) where
  open o use {id, worker, epoch}

  begin_tx-Exact :
      Exact
        (row_allows (can_begin worker epoch k.now) (find id q.tasks))
        (is_lasting k.context)
        q
        (begin_tx c k id worker epoch q)
  unfolding begin_tx
  begin_tx-Exact =
      rw (affects_one id (can_begin worker epoch k.now) q.tasks u)
        (settle-Exact _ _ q _ _ (fenced_result_held-endless k.context id worker epoch q.tasks))

  heartbeat_tx-Exact :
      Exact
        (row_allows (holds_live worker epoch k.now) (find id q.tasks))
        false
        q
        (heartbeat_tx c k id worker epoch q)
  unfolding heartbeat_tx
  heartbeat_tx-Exact =
      rw (affects_one id (holds_live worker epoch k.now) q.tasks u)
        (elim (Bool-cases (row_allows (holds_live worker epoch k.now) (find id q.tasks))) [
          | inl e ↦ rw e (record { accepted = refl; waiting = refl; unchanged = refl })
          | inr e ↦ rw e (record {
            accepted = refl;
            waiting = fenced_result-returns k.context id worker epoch q.tasks;
            unchanged = refl;
          })
        ])

  returns : is_endless (fenced_result_tx k.fence id worker epoch q.tasks) ≡ false
  returns = fenced_result_tx-returns k.fence id worker epoch q.tasks

  owned : Bool
  owned = row_allows (owns_running worker epoch k.now) (find id q.tasks)

  progress_tx-Exact :
      (p : ℤ) (message : String) → Exact owned false q (progress_tx c k id worker epoch p message q)
  unfolding progress_tx owned
  progress_tx-Exact p message =
      rw (affects_one id (owns_running worker epoch k.now) q.tasks u)
        (settle-Exact _ _ q _ _ returns)

  pause_tx-Exact : Exact owned false q (pause_tx c k id worker epoch q)
  unfolding pause_tx owned
  pause_tx-Exact =
      rw (affects_one id (owns_running worker epoch k.now) q.tasks u)
        (settle_stopped-Exact _ _ id q _ _ returns)

  finish_tx-Exact :
      (s : Status) (code error message : String)
      → Exact owned false q (finish_tx c k id worker epoch s code error message q)
  unfolding finish_tx owned
  finish_tx-Exact s code error message =
      rw (affects_one id (owns_running worker epoch k.now) q.tasks u)
        (settle-Exact _ _ q _ _ returns)

  write_failure-Exact :
      (e : TaskError) (r : Task) → Exact owned false q (write_failure c k id worker epoch e r q)
  unfolding write_failure owned
  write_failure-Exact e r = elim (Bool-cases (retries e r)) [
    | inl b ↦
        rw (b, affects_one id (owns_running worker epoch k.now) q.tasks u)
          (settle-Exact _ _ q _ _ returns)
    | inr b ↦
        rw (b, affects_one id (owns_running worker epoch k.now) q.tasks u)
          (settle-Exact _ _ q _ _ returns)
  ]

  fail_tx-Exact : (e : TaskError) → Exact owned false q (fail_tx c k id worker epoch e q)
  unfolding fail_tx
  fail_tx-Exact e = elim (Option-cases (find id q.tasks)) [
    | inl h ↦
        let none_owned : owned ≡ false = unfold owned in rw h in
        rw (none_owned, h, fail_tx)
          (record { accepted = refl; waiting = returns; unchanged = refl })
    | inr (r, h) ↦
        let same : owned ≡ owns_running worker epoch k.now r = unfold owned in rw h in
        elim (Bool-cases (owns_running worker epoch k.now r)) [
          | inl b ↦ rw (h, b, fail_tx) (write_failure-Exact e r)
          | inr b ↦
              rw (same, h, b, fail_tx)
                (record { accepted = refl; waiting = returns; unchanged = refl })
        ]
  ]

allows_range :
    (p : ℤ) (message : String) (worker : String) (epoch now : ℕ) (o : Option Task)
    → out_of_range p ≡ false
    → row_allows (allows (progresses p message) worker epoch now) o
      ≡ row_allows (owns_running worker epoch now) o
allows_range p message worker epoch now none h = refl
allows_range p message worker epoch now (some r) h = rw h

allows_no_range :
    (p : ℤ) (message : String) (worker : String) (epoch now : ℕ) (o : Option Task)
    → out_of_range p ≡ true
    → row_allows (allows (progresses p message) worker epoch now) o ≡ false
allows_no_range p message worker epoch now none h = refl
allows_no_range p message worker epoch now (some r) h = rw h

act_late-Exact_progress :
    (c : Config) (k : Clock) (o : Owner) (p : ℤ) (message : String) (q : Queue)
    → UniqueIds q.tasks
    → Exact
        (row_allows (allows (progresses p message) o.worker o.epoch k.now) (find o.id q.tasks))
        false
        q
        (act_late c k o (progresses p message) q)
unfolding act_late
act_late-Exact_progress c k o p message q u = elim (Bool-cases (out_of_range p)) [
  | inl e ↦
      rw (allows_no_range p message o.worker o.epoch k.now (find o.id q.tasks) e, e)
        (record { accepted = refl; waiting = refl; unchanged = refl })
  | inr e ↦
      rw (allows_range p message o.worker o.epoch k.now (find o.id q.tasks) e, e)
        (unfold owned in progress_tx-Exact c k o q u p message)
]

-- In any state with distinct ids, the transaction of a worker's action (begin, heartbeat, pause,
-- progress, success, failure, and failing for want of a handler) is accepted exactly if the row
-- with the id is there and allows it: it is leased, for begin, leased or running, for a heartbeat,
-- and running for the rest, and its owner, epoch and expiry match the caller's; progress must also
-- be within 0 and 100 percent. Otherwise the queue is as it was, and the call returns an error,
-- with one exception: a begin that is refused while its context lasts never returns.
pub act_late-Exact :
    (c : Config) (k : Clock) (o : Owner) (a : Action) (q : Queue)
    → UniqueIds q.tasks
    → Exact
        (row_allows (allows a o.worker o.epoch k.now) (find o.id q.tasks))
        (is_begin a && is_lasting k.context)
        q
        (act_late c k o a q)
unfolding act_late owned
act_late-Exact c k o begins q u = begin_tx-Exact c k o q u
act_late-Exact c k o beats q u = heartbeat_tx-Exact c k o q u
act_late-Exact c k o pauses q u = pause_tx-Exact c k o q u
act_late-Exact c k o (progresses p message) q u = act_late-Exact_progress c k o p message q u
act_late-Exact c k o (succeeds message) q u = finish_tx-Exact c k o q u succeeded "" "" message
act_late-Exact c k o (fails e) q u = fail_tx-Exact c k o q u (with_defaults e)
act_late-Exact c k o (gives_up code error message) q u =
    finish_tx-Exact c k o q u failed code error message

-- `preflightLease` on a row that is there.
pub preflight-passes :
    (now : ℕ) (id worker : String) (epoch : ℕ) (rs : List Task) {r : Task}
    → find id rs ≡ some r
    → holds_live worker epoch now r ≡ true
    → preflight_lease now id worker epoch rs ≡ none
unfolding preflight_lease
preflight-passes now id worker epoch rs e live = rw (e, preflight_lease, live)

pub preflight-lost :
    (now : ℕ) (id worker : String) (epoch : ℕ) (rs : List Task) {r : Task}
    → find id rs ≡ some r
    → holds_live worker epoch now r ≡ false
    → preflight_lease now id worker epoch rs ≡ some lease_lost
unfolding preflight_lease
preflight-lost now id worker epoch rs e lost = rw (e, preflight_lease, lost)

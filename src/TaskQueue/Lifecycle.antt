-- ===== src/TaskQueue/Lifecycle.antt =====
-- The life of a task of apps/server/internal/task/task.go along any history of calls: it is never
-- lost, and a succeeded task never changes again.
use m_pack_station.TaskQueue.Change.{
  ◌⟶◌, lease, begin, work, succeed, fail, requeue, pause, cancel, resume, retry, Legal, Change,
  Changes, next, Changes-induction, here, aside, moved, transition-some, beat, added,
}
use mathlib.Core.Bool.{false≢true}
use m_pack_station.Base.{
  ℕ, String, ◌≡◌, List, Bool, ◌∙◌, is_some, arith, some, false, Bool-cases, str_eq, inl, true,
  str_eq→eq, sym, subst, inr, refl,
}
use m_pack_station.TaskQueue.Model.{
  Config, Task, Status, SubmitRequest, Queue, succeeded, new_queue,
}
use m_pack_station.TaskQueue.Table.{update, find, at_id, find-update}
use m_pack_station.TaskQueue.Submit.{insert_task, new_row}
use m_pack_station.TaskQueue.Calls.{Call, run, run-Changes, run-QueueInv}
use m_pack_station.TaskQueue.Leases.{holds_live, set_extended}
use m_pack_station.TaskQueue.Log.{append_event}

-- A path of edges.
infix 40 ◌⟶*◌
pub data ◌⟶*◌ : Status → Status → Type 0 where
  stay : {s : Status} → s ⟶* s
  step_to : {s t u : Status} → s ⟶* t → t ⟶ u → s ⟶* u

path-trans : {s t u : Status} → s ⟶* t → t ⟶* u → s ⟶* u
path-trans p stay = p
path-trans p (step_to q e) = step_to (path-trans p q) e

-- What a later state of the table has of a row.
pub record Follows (r r' : Task) : Type 0 where
  pub same_id : r'.id ≡ r.id
  pub same_key : r'.idempotency_key ≡ r.idempotency_key
  pub path : r.status ⟶* r'.status

pub Follows-refl : (r : Task) → Follows r r
Follows-refl r = record { same_id = refl; same_key = refl; path = stay }

pub Follows-trans : {r s t : Task} → Follows r s → Follows s t → Follows r t
Follows-trans f g = record {
  same_id = g.same_id ∙ f.same_id;
  same_key = g.same_key ∙ f.same_key;
  path = path-trans f.path g.path;
}

abbrev pub Later : String → Task → List Task → Type 0
Later id r rs = (r' : Task) × (find id rs ≡ some r') × Follows r r'

Later-moved :
    (id key : String) (p : Task → Bool) (f : Task → Task) (s : Status) (rs : List Task) {r : Task}
    → Legal p f s
    → find key rs ≡ some r
    → Later key r (update (at_id id p) f rs)
unfolding update
Later-moved id key p f s rs {r = r} l h = elim (Bool-cases (at_id id p r)) [
  | inl e ↦
      let hit : p r ≡ true = ground arith in
      (
        f r,
        rw (find-update (at_id id p) f l.keeps_id key rs, h, e),
        record {
          same_id = l.keeps_id r;
          same_key = l.keeps_key r;
          path = subst (λ t. r.status ⟶* t) (sym (l.sets r hit)) (step_to stay (l.edge r hit));
        },
      )
  | inr e ↦ (r, rw (find-update (at_id id p) f l.keeps_id key rs, h, e), Follows-refl r)
]

Later-beat :
    (c : Config) (id worker key : String) (epoch now : ℕ) (rs : List Task) {r : Task}
    → find key rs ≡ some r
    → Later key r (update (at_id id (holds_live worker epoch now)) (set_extended c now) rs)
Later-beat c id worker key epoch now rs {r = r} h =
    let w = at_id id (holds_live worker epoch now) in
    let read = find-update w (set_extended c now) (λ x. refl) key rs in
    elim (Bool-cases (w r)) [
      | inl e ↦ (
        set_extended c now r,
        rw (read, h, e),
        record { same_id = refl; same_key = refl; path = stay },
      )
      | inr e ↦ (r, rw (read, h, e), Follows-refl r)
    ]

-- A new row has an id that no row had.
pub find-insert_task :
    (c : Config) (now : ℕ) (r : SubmitRequest) (payload hash key : String) (q : Queue) {t : Task}
    → is_some (find (c.id q.generated) q.tasks) ≡ false
    → find key q.tasks ≡ some t
    → find key (insert_task c now r payload hash q).0.tasks ≡ some t
unfolding insert_task append_event new_row
find-insert_task c now r payload hash key q free h =
    let id = c.id q.generated in
    elim (Bool-cases (str_eq id key)) [
      | inl e ↦
          let same : id ≡ key = str_eq→eq id key e in
          absurd (false≢true (sym (rw (same, h) at free)))
      | inr e ↦ rw free (unfold find in rw e h)
    ]

pub Change-Later :
    {c : Config} (q q' : Queue) (key : String) {r : Task}
    → Change c q q'
    → find key q.tasks ≡ some r
    → Later key r q'.tasks
Change-Later q q' key {r = r} (aside _ rows _ _) h = rw rows (r, h, Follows-refl r)
Change-Later {c = c} q q' key {r = r} (moved id p f s message d now _ l e) h =
    subst (λ (x : Queue). Later key r x.tasks)
      (sym (transition-some c id p f s message d now q e).1)
      (unfold append_event in Later-moved id key p f s q.tasks l h)
Change-Later {c = c} q q' key (beat id worker epoch now _ rows _ _) h =
    rw rows (Later-beat c id worker key epoch now q.tasks h)
Change-Later {c = c} q q' key {r = r} (added now x payload hash _ _ free _ e) h =
    rw e (r, find-insert_task c now x payload hash key q free h, Follows-refl r)

pub Changes-Later :
    {c : Config} {q q' : Queue} (key : String) {r : Task}
    → Changes c q q'
    → find key q.tasks ≡ some r
    → Later key r q'.tasks
Changes-Later key {r = r} here h = (r, h, Follows-refl r)
Changes-Later key (next {q' = a} {q'' = b} hs k) h =
    let (s, found, f) = Changes-Later key hs h in
    let (t, later, g) = Change-Later a b key k found in (t, later, Follows-trans f g)

-- From any state that calls led to, further calls never lose a task: its row is still there, with
-- its idempotency key, and edges lead from the status that it had to the one that it has.
pub run-Follows :
    (c : Config) (xs ys : List Call) (id : String) {r : Task}
    → find id (run c xs new_queue).tasks ≡ some r
    → (r' : Task) × (find id (run c ys (run c xs new_queue)).tasks ≡ some r') × Follows r r'
run-Follows c xs ys id h =
    Changes-Later id (run-Changes c ys (run c xs new_queue) (run-QueueInv c xs)) h

-- No edge leaves `succeeded`.
succeeded_no_edge : {s t : Status} → s ≡ succeeded → s ⟶ t → ⊥
succeeded_no_edge h (lease e) = ground arith
succeeded_no_edge h (begin e) = ground arith
succeeded_no_edge h (work e) = ground arith
succeeded_no_edge h (succeed e) = ground arith
succeeded_no_edge h (fail e) = ground arith
succeeded_no_edge h (requeue e) = ground arith
succeeded_no_edge h (pause e) = ground arith
succeeded_no_edge h (cancel e) = ground arith
succeeded_no_edge h (resume e) = ground arith
succeeded_no_edge h (retry e) = ground arith

-- The row of a succeeded task as it is.
succeeded-moved :
    (id key : String) (p : Task → Bool) (f : Task → Task) (s : Status) (rs : List Task) {r : Task}
    → Legal p f s
    → r.status ≡ succeeded
    → find key rs ≡ some r
    → find key (update (at_id id p) f rs) ≡ some r
succeeded-moved id key p f s rs {r = r} l final h = elim (Bool-cases (at_id id p r)) [
  | inl e ↦ absurd (succeeded_no_edge final (l.edge r (ground arith)))
  | inr e ↦ rw (find-update (at_id id p) f l.keeps_id key rs, h, e)
]

succeeded-beat :
    (c : Config) (id worker key : String) (epoch now : ℕ) (rs : List Task) {r : Task}
    → r.status ≡ succeeded
    → find key rs ≡ some r
    → find key (update (at_id id (holds_live worker epoch now)) (set_extended c now) rs) ≡ some r
succeeded-beat c id worker key epoch now rs {r = r} final h =
    let w = at_id id (holds_live worker epoch now) in
    let miss : w r ≡ false = ground arith in
    rw (find-update w (set_extended c now) (λ x. refl) key rs, h, miss)

Change-succeeded :
    {c : Config} (q q' : Queue) (key : String) {r : Task}
    → r.status ≡ succeeded
    → Change c q q'
    → find key q.tasks ≡ some r
    → find key q'.tasks ≡ some r
Change-succeeded q q' key final (aside _ rows _ _) h = rw rows h
Change-succeeded {c = c} q q' key {r = r} final (moved id p f s message d now _ l e) h =
    subst (λ (x : Queue). find key x.tasks ≡ some r)
      (sym (transition-some c id p f s message d now q e).1)
      (unfold append_event in succeeded-moved id key p f s q.tasks l final h)
Change-succeeded {c = c} q q' key final (beat id worker epoch now _ rows _ _) h =
    rw rows (succeeded-beat c id worker key epoch now q.tasks final h)
Change-succeeded {c = c} q q' key final (added now x payload hash _ _ free _ e) h =
    rw e (find-insert_task c now x payload hash key q free h)

-- A task that succeeded after some calls has the very same row after any further calls.
pub run-succeeded :
    (c : Config) (xs ys : List Call) (id : String) {r : Task}
    → r.status ≡ succeeded
    → find id (run c xs new_queue).tasks ≡ some r
    → find id (run c ys (run c xs new_queue)).tasks ≡ some r
run-succeeded c xs ys id {r = r} final h =
    Changes-induction (λ q. find id q.tasks ≡ some r)
      (λ q q' k e. Change-succeeded q q' id final k e)
      (run-Changes c ys (run c xs new_queue) (run-QueueInv c xs)) h

-- ===== src/TaskQueue/Audit.antt =====
-- The event log of apps/server/internal/task/task.go against the rows: the latest event of each task
-- bears its status, and the sequence numbers of each task's events run without a gap.
use m_pack_station.Base.{
  ℕ, suc, String, ◌≡◌, refl, sym, subst, Bool, true, false, Option, none, some, List, [], ◌∷◌, All,
  is_some, arith, str_eq, if◌then◌else◌, count, Bool-cases, ap, eq_refl, All-zip, inl, str_eq→eq,
  All-map, str_eq_comm, inr, ◌∙◌, if_true, if_false,
}
use m_pack_station.TaskQueue.Model.{
  Config, Queue, Event, Status, Task, Detail, new_queue, SubmitRequest, queued,
}
use m_pack_station.TaskQueue.Table.{
  find, update, at_id, UniqueIds, All-rewrite, count-one, find-id, All-find,
}
use m_pack_station.TaskQueue.Log.{append_event, max_sequence, new_event}
use m_pack_station.TaskQueue.Change.{
  Change, aside, moved, beat, added, Legal, transition-some, Changes-induction,
}
use m_pack_station.TaskQueue.Calls.{Call, run, run-Changes}
use m_pack_station.TaskQueue.Submit.{insert_task, with_rows, new_row}
use m_pack_station.TaskQueue.Change.Invariant.{
  find-none-Fresh, QueueInv, Change-QueueInv, new_queue-QueueInv,
}
use m_pack_station.TaskQueue.Leases.{holds_live, set_extended}

-- The status of the latest event of a task.
abbrev pub last_status : String → List Event → Option Status
last_status id [] = none
last_status id (e ∷ es) =
    let rest = last_status id es in if str_eq e.task_id id then some e.status else rest

abbrev pub Logged : List Event → Task → Type 0
Logged es r = last_status r.id es ≡ some r.status

-- How many events a task has.
abbrev pub of_task : String → Event → Bool
of_task id e = str_eq e.task_id id

-- Each event's sequence number counts the events of its task up to it.
abbrev pub Sequenced : List Event → Type 0
Sequenced [] = Unit {0}
Sequenced (e ∷ es) = (e.sequence ≡ suc (count (of_task e.task_id) es)) × Sequenced es

-- So the largest number is how many there are, and MAX(sequence)+1 goes on from it.
max_sequence-count :
    (id : String) (es : List Event) → Sequenced es → max_sequence id es ≡ count (of_task id) es
unfolding max_sequence
max_sequence-count id [] s = refl
max_sequence-count id (e ∷ es) s = elim (Bool-cases (str_eq e.task_id id)) [
  | inl h ↦
      let same : e.task_id ≡ id = str_eq→eq e.task_id id h in
      let number : e.sequence ≡ suc (count (of_task id) es) = rw same at s.0 in
      rw (h, number, max_sequence-count id es s.1) (omega arith)
  | inr h ↦ rw h (max_sequence-count id es s.1)
]

append_event-Sequenced :
    (c : Config) (id : String) (s : Status) (message : String) (d : Detail) (now : ℕ) (q : Queue)
    → Sequenced q.events
    → Sequenced (append_event c id s message d now q).events
unfolding append_event
append_event-Sequenced c id s message d now q h = (ap suc (max_sequence-count id q.events h), h)

module _ (es : List Event) (e : Event) (r : Task) where
  -- Another task's event leaves the latest event of a task.
  Logged-other : str_eq e.task_id r.id ≡ false → Logged es r → Logged (e ∷ es) r
  Logged-other apart h = rw apart h

  Logged-own : e.task_id ≡ r.id → e.status ≡ r.status → Logged (e ∷ es) r
  Logged-own owner status = rw (owner, eq_refl r.id, status)

-- The rows that are not moved keep their latest event, and the moved row has the new one.
Logged-moved :
    (id : String) (p : Task → Bool) (f : Task → Task) (s : Status) (es : List Event) (e : Event)
    (r : Task)
    → Legal p f s
    → e.task_id ≡ id
    → e.status ≡ s
    → (str_eq r.id id ≡ true → p r ≡ true)
    → Logged es r
    → Logged (e ∷ es) (if at_id id p r then f r else r)
Logged-moved id p f s es e r l owner status meets h = elim (Bool-cases (str_eq r.id id)) [
  | inl b ↦
      let hit : at_id id p r ≡ true = rw (b, meets b) in
      subst (Logged (e ∷ es)) (sym (if_true (f r) r hit)) (
        Logged-own es e (f r) (owner ∙ sym (str_eq→eq r.id id b) ∙ sym (l.keeps_id r))
          (status ∙ sym (l.sets r (meets b))))
  | inr b ↦
      let miss : at_id id p r ≡ false = rw b in
      subst (Logged (e ∷ es)) (sym (if_false (f r) r miss))
        (Logged-other es e r (rw (owner, str_eq_comm id r.id) b) h)
]

abbrev pub Audited : Queue → Type 0
Audited q = All (Logged q.events) q.tasks

transition-Audited :
    (c : Config) (id : String) (p : Task → Bool) (f : Task → Task) (s : Status) (message : String)
    (d : Detail) (now : ℕ) (q : Queue)
    → Legal p f s
    → count (at_id id p) q.tasks ≡ 1
    → UniqueIds q.tasks
    → Audited q
    → Audited
        (append_event c id s message d now (record q { tasks = update (at_id id p) f q.tasks }))
unfolding append_event
transition-Audited c id p f s message d now q l one u h =
    let e = new_event c id s message d now q in
    All-rewrite _ _ (at_id id p) f q.tasks
      (λ r k. Logged-moved id p f s q.events e r l refl refl k.0 k.1)
      (All-zip _ (Logged q.events) q.tasks (count-one id p q.tasks u one) h)

insert_task-Audited :
    (c : Config) (now : ℕ) (r : SubmitRequest) (payload hash : String) (q : Queue)
    → is_some (find (c.id q.generated) q.tasks) ≡ false
    → Audited q
    → Audited (insert_task c now r payload hash q).0
unfolding insert_task append_event new_row
insert_task-Audited c now r payload hash q free h =
    let id = c.id q.generated in
    let e = new_event c id queued "queued" Detail.empty now (with_rows c now r payload hash q) in
    rw free (
      Logged-own q.events e (new_row id payload now r) refl refl,
      All-map (λ x. (str_eq x.id id ≡ false) × Logged q.events x) _ q.tasks
          (λ x k. Logged-other q.events e x (rw (str_eq_comm id x.id) k.0) k.1)
          (All-zip _ (Logged q.events) q.tasks (find-none-Fresh id q.tasks free) h),
    )

-- The log and the rows agree, and the numbers have no gap.
pub record LogInv (q : Queue) : Type 0 where
  pub inv : QueueInv q
  pub audited : Audited q
  pub sequenced : Sequenced q.events

beat-Audited :
    (c : Config) (id worker : String) (epoch now : ℕ) (es : List Event) (rs : List Task)
    → All (Logged es) rs
    → All (Logged es) (update (at_id id (holds_live worker epoch now)) (set_extended c now) rs)
beat-Audited c id worker epoch now es rs h =
    All-rewrite (Logged es) (Logged es) (at_id id (holds_live worker epoch now))
      (set_extended c now) rs (λ r k. ground (arith)) h

insert_task-Sequenced :
    (c : Config) (now : ℕ) (r : SubmitRequest) (payload hash : String) (q : Queue)
    → Sequenced q.events
    → Sequenced (insert_task c now r payload hash q).0.events
unfolding insert_task append_event new_row
insert_task-Sequenced c now r payload hash q h =
    let id = c.id q.generated in
    elim (Bool-cases (is_some (find id q.tasks))) [
      | inl e ↦ rw e h
      | inr e ↦ rw e (
          append_event-Sequenced c id queued "queued" Detail.empty now
            (with_rows c now r payload hash q) h)
    ]

Change-Sequenced :
    {c : Config} (q q' : Queue) → Change c q q' → Sequenced q.events → Sequenced q'.events
Change-Sequenced q q' (aside _ _ same _) h = subst Sequenced (sym same) h
Change-Sequenced {c = c} q q' (moved id p f s message d now _ l e) h =
    subst (λ (x : Queue). Sequenced x.events) (sym (transition-some c id p f s message d now q e).1)
      (append_event-Sequenced c id s message d now
        (record q { tasks = update (at_id id p) f q.tasks }) h)
Change-Sequenced q q' (beat _ _ _ _ _ _ same _) h = subst Sequenced (sym same) h
Change-Sequenced {c = c} q q' (added now r payload hash _ _ _ _ e) h =
    subst (λ (x : Queue). Sequenced x.events) (sym e)
      (insert_task-Sequenced c now r payload hash q h)

Change-Audited :
    {c : Config} (q q' : Queue) → Change c q q' → UniqueIds q.tasks → Audited q → Audited q'
Change-Audited q q' (aside _ rows log _) u h = rw (rows, log) h
Change-Audited {c = c} q q' (moved id p f s message d now _ l e) u h =
    let (one, same) = transition-some c id p f s message d now q e in
    subst Audited (sym same) (transition-Audited c id p f s message d now q l one u h)
Change-Audited {c = c} q q' (beat id worker epoch now _ rows log _) u h =
    rw (rows, log) (beat-Audited c id worker epoch now q.events q.tasks h)
Change-Audited {c = c} q q' (added now r payload hash _ _ free _ e) u h =
    subst Audited (sym e) (insert_task-Audited c now r payload hash q free h)

pub Change-LogInv : {c : Config} (q q' : Queue) → Change c q q' → LogInv q → LogInv q'
Change-LogInv q q' k h = record {
  inv = Change-QueueInv q q' k h.inv;
  audited = Change-Audited q q' k h.inv.unique h.audited;
  sequenced = Change-Sequenced q q' k h.sequenced;
}

pub new_queue-LogInv : LogInv new_queue
unfolding new_queue
new_queue-LogInv = record { inv = new_queue-QueueInv; audited = tt; sequenced = tt }

pub run-LogInv : (c : Config) (xs : List Call) → LogInv (run c xs new_queue)
run-LogInv c xs =
    Changes-induction LogInv Change-LogInv (run-Changes c xs new_queue new_queue-QueueInv)
      new_queue-LogInv

-- After any calls, the latest event of every task bears the status that its row has.
pub run-last_status :
    (c : Config) (xs : List Call) (id : String) {r : Task}
    → find id (run c xs new_queue).tasks ≡ some r
    → last_status id (run c xs new_queue).events ≡ some r.status
run-last_status c xs id {r = r} h =
    let q = run c xs new_queue in
    rw (← find-id id q.tasks h) (All-find (Logged q.events) id q.tasks (run-LogInv c xs).audited h)

-- After any calls, the sequence number of every event is one more than the number of older events
-- of its task: each task's events are numbered 1, 2, 3 and so on, without a gap or a repetition.
pub run-Sequenced : (c : Config) (xs : List Call) → Sequenced (run c xs new_queue).events
run-Sequenced c xs = (run-LogInv c xs).sequenced

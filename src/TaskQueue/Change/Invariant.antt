-- ===== src/TaskQueue/Change/Invariant.antt =====
-- Every shape of change keeps the rows well formed and their ids distinct.
use m_pack_station.Base.{
  ℕ, String, ◌≡◌, refl, sym, subst, Bool, true, false, none, List, [], ◌∷◌, All, is_some, arith,
  str_eq, Bool-cases, inl, inr,
}
use m_pack_station.TaskQueue.Model.{Config, Queue, Status, Task, SubmitRequest, new_queue}
use m_pack_station.TaskQueue.Table.{
  find, update, at_id, UniqueIds, Fresh, UniqueIds-update, All-update,
}
use m_pack_station.TaskQueue.Log.{append_event}
use m_pack_station.TaskQueue.Submit.{insert_task, validate_submit, new_row}
use m_pack_station.TaskQueue.Leases.{holds_live, set_extended}
use m_pack_station.TaskQueue.Rows.{RowInv, new_row-RowInv, set_extended-RowInv}
use m_pack_station.TaskQueue.Change.{
  Legal, Change, Changes, aside, moved, beat, added, transition-some, Changes-induction,
}

pub record QueueInv (q : Queue) : Type 0 where
  pub unique : UniqueIds q.tasks
  pub rows : All RowInv q.tasks

abbrev TasksInv : List Task → Type 0
TasksInv rs = UniqueIds rs × All RowInv rs

pub find-none-Fresh : (id : String) (rs : List Task) → is_some (find id rs) ≡ false → Fresh id rs
unfolding find
find-none-Fresh id [] h = tt
find-none-Fresh id (r ∷ rs) h = elim (Bool-cases (str_eq r.id id)) [
  | inl e ↦ absurd (ground arith)
  | inr e ↦ (e, find-none-Fresh id rs (rw e at h))
]

at_id_sound : (id : String) (p : Task → Bool) (r : Task) → at_id id p r ≡ true → p r ≡ true
at_id_sound id p r h = ground arith

-- The transition's table.
Legal-TasksInv :
    (id : String) (p : Task → Bool) (f : Task → Task) (s : Status) (rs : List Task)
    → Legal p f s
    → TasksInv rs
    → TasksInv (update (at_id id p) f rs)
Legal-TasksInv id p f s rs l (u, v) = (
  UniqueIds-update (at_id id p) f l.keeps_id rs u,
  All-update RowInv (at_id id p) f rs (λ r h. l.keeps_inv r (at_id_sound id p r h)) v,
)

beat-TasksInv :
    (c : Config) (id worker : String) (epoch now : ℕ) (rs : List Task)
    → TasksInv rs
    → TasksInv (update (at_id id (holds_live worker epoch now)) (set_extended c now) rs)
beat-TasksInv c id worker epoch now rs (u, v) = (
  UniqueIds-update _ (set_extended c now) (λ r. refl) rs u,
  All-update RowInv _ (set_extended c now) rs
      (λ r h.
        set_extended-RowInv r c worker epoch now (at_id_sound id (holds_live worker epoch now) r h))
      v,
)

insert_task-TasksInv :
    (c : Config) (now : ℕ) (r : SubmitRequest) (payload hash : String) (q : Queue)
    → validate_submit c r ≡ none
    → is_some (find (c.id q.generated) q.tasks) ≡ false
    → TasksInv q.tasks
    → TasksInv (insert_task c now r payload hash q).0.tasks
unfolding insert_task append_event new_row
insert_task-TasksInv c now r payload hash q valid free (u, v) = rw free (
  (find-none-Fresh (c.id q.generated) q.tasks free, u),
  (new_row-RowInv c (c.id q.generated) payload now r valid, v),
)

Change-TasksInv : {c : Config} (q q' : Queue) → Change c q q' → TasksInv q.tasks → TasksInv q'.tasks
unfolding append_event
Change-TasksInv q q' (aside _ same _ _) h = subst TasksInv (sym same) h
Change-TasksInv {c = c} q q' (moved id p f s message detail now _ l e) h =
    subst (λ (x : Queue). TasksInv x.tasks)
      (sym (transition-some c id p f s message detail now q e).1)
      (Legal-TasksInv id p f s q.tasks l h)
Change-TasksInv {c = c} q q' (beat id worker epoch now _ same _ _) h =
    subst TasksInv (sym same) (beat-TasksInv c id worker epoch now q.tasks h)
Change-TasksInv {c = c} q q' (added now r payload hash _ valid free _ e) h =
    subst (λ (x : Queue). TasksInv x.tasks) (sym e)
      (insert_task-TasksInv c now r payload hash q valid free h)

-- One change keeps the invariant.
pub Change-QueueInv : {c : Config} (q q' : Queue) → Change c q q' → QueueInv q → QueueInv q'
Change-QueueInv q q' k h =
    let (u, v) = Change-TasksInv q q' k (h.unique, h.rows) in record { unique = u; rows = v }

pub Changes-QueueInv : {c : Config} {q q' : Queue} → Changes c q q' → QueueInv q → QueueInv q'
Changes-QueueInv hs h = Changes-induction QueueInv Change-QueueInv hs h

pub new_queue-QueueInv : QueueInv new_queue
unfolding new_queue
new_queue-QueueInv = record { unique = tt; rows = tt }

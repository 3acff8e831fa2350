-- ===== src/TaskQueue/Log.antt =====
-- apps/server/internal/task/task.go: `appendEvent`, the rollback-free core of every transition, and
-- the table of running handlers.
use Prim.Native.Nat.{max}
use m_pack_station.Base.{
  ℕ, suc, ◌+◌, String, Bool, Option, none, some, List, [], ◌∷◌, str_eq, if◌then◌else◌, count, ◌==◌,
  filter, not,
}
use m_pack_station.TaskQueue.Model.{Config, Detail, Event, Queue, Status, Task}
use m_pack_station.TaskQueue.Table.{at_id, update}

-- SELECT COALESCE(MAX(sequence),0) FROM task_events WHERE task_id=?
unfoldable pub max_sequence : String → List Event → ℕ
max_sequence id [] = 0
max_sequence id (e ∷ es) =
    let rest = max_sequence id es in if str_eq e.task_id id then max e.sequence rest else rest

-- A detail that is no JSON is replaced.
abbrev pub checked_detail : Config → Detail → Detail
checked_detail c (Detail.raw s) = if c.json_valid s then Detail.raw s else Detail.raw_detail
checked_detail c d = d

abbrev pub new_event : Config → String → Status → String → Detail → ℕ → Queue → Event
new_event c id status message detail now q = record {
  id = c.id q.generated;
  task_id = id;
  sequence = suc (max_sequence id q.events);
  status = status;
  message = message;
  detail = checked_detail c detail;
  created_at = now;
}

-- The source's ids are random; that one is drawn which another event has, so that SQLite refuses the
-- row, is not modelled.
unfoldable pub append_event : Config → String → Status → String → Detail → ℕ → Queue → Queue
append_event c id status message detail now q = record q {
  events = new_event c id status message detail now q ∷ q.events;
  generated = q.generated + 1;
}

-- One transaction: the UPDATE of one row, refused unless it affects exactly one, then its event.
abbrev pub transition :
    Config
    → String
    → (Task → Bool)
    → (Task → Task)
    → Status
    → String
    → Detail
    → ℕ
    → Queue
    → Option Queue
transition c id p f status message detail now q =
    if count (at_id id p) q.tasks == 1
    then some (
        append_event c id status message detail now
          (record q { tasks = update (at_id id p) f q.tasks }))
    else none

abbrev pub Running : Type 0
Running = record { task : String; context : ℕ }

unfoldable pub running_of : String → List Running → Option ℕ
running_of id [] = none
running_of id (r ∷ rs) =
    let rest = running_of id rs in if str_eq r.task id then some r.context else rest

abbrev pub without : String → List Running → List Running
without id = filter (λ r. not (str_eq r.task id))

-- `q.running[id] = cancel`, with the cancel function of a new context.
unfoldable pub track_running : String → Queue → Queue
track_running id q = record q {
  running = record { task = id; context = q.contexts } ∷ without id q.running;
  contexts = q.contexts + 1;
}

-- Deletes the entry, and calls the cancel function that was there.
unfoldable pub stop_running : String → Queue → Queue
unfolding running_of
stop_running id q = elim (running_of id q.running) [
  | none ↦ record q { running = without id q.running }
  | some n ↦ record q { running = without id q.running; canceled = n ∷ q.canceled }
]

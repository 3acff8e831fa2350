-- ===== src/TaskQueue/Traces.antt =====
-- The audit log of apps/server/internal/task/task.go tells the life of each task, one edge for each
-- event.
use m_pack_station.Base.{String, ◌≡◌, Bool, true, false, Option, none, some, List, [], ◌∷◌}
use m_pack_station.TaskQueue.Model.{
  Queue, Event, Status, queued, leased, running, paused, succeeded, failed, canceled,
}
use m_pack_station.TaskQueue.Table.{find}
use m_pack_station.TaskQueue.Change.{Change}
use m_pack_station.TaskQueue.Audit.{last_status, LogInv}

-- The table of the life of a task: which status may come right after which.
abbrev pub may_follow : Status → Status → Bool
may_follow queued leased = true
may_follow queued canceled = true
may_follow leased running = true
may_follow leased queued = true
may_follow leased failed = true
may_follow leased canceled = true
may_follow running running = true
may_follow running queued = true
may_follow running paused = true
may_follow running succeeded = true
may_follow running failed = true
may_follow running canceled = true
may_follow paused queued = true
may_follow paused canceled = true
may_follow failed queued = true
may_follow canceled queued = true
may_follow _ _ = false

-- A task starts out queued.
abbrev pub may_come : Option Status → Status → Bool
may_come none queued = true
may_come none _ = false
may_come (some s) t = may_follow s t

-- Each event bears a status that may come after that of the event before it of the same task.
abbrev pub Traced : List Event → Type 0
Traced [] = Unit {0}
Traced (e ∷ es) = (may_come (last_status e.task_id es) e.status ≡ true) × Traced es

-- A task with no row has no events.
abbrev Owned : Queue → Type 0
Owned q = (id : String) → find id q.tasks ≡ none → last_status id q.events ≡ none

-- The rows, the latest events and the traces.
record LifeInv (q : Queue) : Type 0 where
  log : LogInv q
  owned : Owned q
  traced : Traced q.events

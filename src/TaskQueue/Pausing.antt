-- ===== src/TaskQueue/Pausing.antt =====
-- When `HTTPAdapter.Pause` of apps/server/internal/task/http_adapter.go pauses a task.
use m_pack_station.Base.{Bool, ◌&&◌, not, ◌==◌}
use m_pack_station.TaskQueue.Model.{Task, Clock, is_running, is_publish, or_zero, expires_after}
use m_pack_station.TaskQueue.Leases.{owner_text}
use m_pack_station.TaskQueue.Submit.{is_empty}

-- The row that a pause through the adapter is accepted on, at the two readings of the clock.
abbrev pub is_pausable : Clock → Task → Bool
is_pausable k r =
    is_running r.status
    && not (is_publish r.kind)
    && not (is_empty (owner_text r.lease_owner))
    && not (or_zero r.lease_epoch == 0)
    && expires_after r.lease_expires_at k.check
    && expires_after r.lease_expires_at k.now

-- ===== src/TaskQueue/Change/Updates.antt =====
-- Every UPDATE of apps/server/internal/task/task.go on a single row moves it along an edge.
use m_pack_station.Base.{ℕ, ◌+◌, String, ◌≡◌, refl, Bool, true, false, arith}
use m_pack_station.Base.Int.{ℤ}
use m_pack_station.TaskQueue.Model.{
  Config, Task, TaskError, queued, leased, running, paused, succeeded, failed, canceled, is_open,
  is_queued, is_paused, is_retryable,
}
use m_pack_station.TaskQueue.Recovery.{
  is_expired, gives_up, set_given_up, set_recovered, set_leased,
}
use m_pack_station.TaskQueue.Leases.{can_begin, set_running, owns_running, set_progress}
use m_pack_station.TaskQueue.Finishing.{set_finished, set_retry, set_failed}
use m_pack_station.TaskQueue.Control.{set_canceled, set_paused, set_resumed, set_retried}
use m_pack_station.TaskQueue.Rows.{
  RowInv, out_of_range, set_leased-RowInv, set_running-RowInv, set_progress-RowInv,
  set_succeeded-RowInv, set_finished-RowInv, set_retry-RowInv, set_failed-RowInv,
  set_canceled-RowInv, set_paused-RowInv, set_resumed-RowInv, set_retried-RowInv,
  set_given_up-RowInv, set_recovered-RowInv,
}
use m_pack_station.TaskQueue.Change.{
  Legal, lease, begin, work, succeed, fail, requeue, pause, cancel, resume, retry,
}

pub lease-Legal :
    (c : Config) (worker : String) (now : ℕ)
    → Legal (λ r. is_queued r.status) (set_leased c worker now) leased
lease-Legal c worker now = record {
  keeps_id = λ r. refl;
  keeps_key = λ r. refl;
  sets = λ r h. refl;
  keeps_inv = λ r h. set_leased-RowInv r c worker now h;
  edge = λ r h. lease h;
}

pub begin-Legal :
    (worker : String) (epoch now : ℕ) → Legal (can_begin worker epoch now) (set_running now) running
begin-Legal worker epoch now = record {
  keeps_id = λ r. refl;
  keeps_key = λ r. refl;
  sets = λ r h. refl;
  keeps_inv = λ r h. set_running-RowInv r worker epoch now h;
  edge = λ r h. begin (ground arith);
}

pub progress-Legal :
    (worker : String) (epoch now : ℕ) (p : ℤ) (message : String)
    → out_of_range p ≡ false
    → Legal (owns_running worker epoch now) (set_progress p message now) running
progress-Legal worker epoch now p message range = record {
  keeps_id = λ r. refl;
  keeps_key = λ r. refl;
  sets = λ r h. ground arith;
  keeps_inv = λ r h. set_progress-RowInv r worker epoch now p message range h;
  edge = λ r h. work (ground arith);
}

pub succeed-Legal :
    (worker code error message : String) (epoch now : ℕ)
    → Legal
        (owns_running worker epoch now)
        (set_finished succeeded code error message now)
        succeeded
succeed-Legal worker code error message epoch now = record {
  keeps_id = λ r. refl;
  keeps_key = λ r. refl;
  sets = λ r h. refl;
  keeps_inv = λ r h. set_succeeded-RowInv r worker code error message epoch now h;
  edge = λ r h. succeed (ground arith);
}

pub finish-Legal :
    (worker code error message : String) (epoch now : ℕ)
    → Legal (owns_running worker epoch now) (set_finished failed code error message now) failed
finish-Legal worker code error message epoch now = record {
  keeps_id = λ r. refl;
  keeps_key = λ r. refl;
  sets = λ r h. refl;
  keeps_inv = λ r h. set_finished-RowInv r worker code error message epoch now h;
  edge = λ r h. fail (ground arith);
}

pub retry_later-Legal :
    (worker : String) (epoch now : ℕ) (e : TaskError) (message : String) (at : ℕ)
    → Legal (owns_running worker epoch now) (set_retry e message at) queued
retry_later-Legal worker epoch now e message at = record {
  keeps_id = λ r. refl;
  keeps_key = λ r. refl;
  sets = λ r h. refl;
  keeps_inv = λ r h. set_retry-RowInv r worker epoch now e message at h;
  edge = λ r h. requeue (ground arith);
}

pub fail-Legal :
    (worker : String) (epoch now : ℕ) (e : TaskError)
    → Legal (owns_running worker epoch now) (set_failed e now) failed
fail-Legal worker epoch now e = record {
  keeps_id = λ r. refl;
  keeps_key = λ r. refl;
  sets = λ r h. refl;
  keeps_inv = λ r h. set_failed-RowInv r worker epoch now e h;
  edge = λ r h. fail (ground arith);
}

pub cancel-Legal : (now : ℕ) → Legal (λ r. is_open r.status) (set_canceled now) canceled
cancel-Legal now = record {
  keeps_id = λ r. refl;
  keeps_key = λ r. refl;
  sets = λ r h. refl;
  keeps_inv = λ r h. set_canceled-RowInv r now h;
  edge = λ r h. cancel h;
}

pub pause-Legal :
    (worker : String) (epoch now : ℕ)
    → Legal (owns_running worker epoch now) (set_paused now) paused
pause-Legal worker epoch now = record {
  keeps_id = λ r. refl;
  keeps_key = λ r. refl;
  sets = λ r h. refl;
  keeps_inv = λ r h. set_paused-RowInv r worker epoch now h;
  edge = λ r h. pause (ground arith);
}

pub resume-Legal : (now : ℕ) → Legal (λ r. is_paused r.status) (set_resumed now) queued
resume-Legal now = record {
  keeps_id = λ r. refl;
  keeps_key = λ r. refl;
  sets = λ r h. refl;
  keeps_inv = λ r h. set_resumed-RowInv r now h;
  edge = λ r h. resume h;
}

pub retry-Legal : (now : ℕ) → Legal (λ r. is_retryable r.status) (set_retried now) queued
retry-Legal now = record {
  keeps_id = λ r. refl;
  keeps_key = λ r. refl;
  sets = λ r h. refl;
  keeps_inv = λ r h. set_retried-RowInv r now h;
  edge = λ r h. retry h;
}

-- The two ends of a row that `Recover` finds expired, with the counts of the row as it was read.
module _ (c : Config) (now : ℕ) (item : Task) where
  pub give_up-Legal :
      (late : Bool)
      → RowInv item
      → is_expired now item ≡ true
      → Legal (is_expired now) (set_given_up (item.recover_count + 1) late now) failed
  give_up-Legal late v expired = record {
    keeps_id = λ r. refl;
    keeps_key = λ r. refl;
    sets = λ r h. refl;
    keeps_inv = λ r h. set_given_up-RowInv r item late now v expired h;
    edge = λ r h. fail (ground arith);
  }

  pub recover-Legal :
      gives_up c now item ≡ false
      → Legal (is_expired now) (set_recovered (item.recover_count + 1) now) queued
  recover-Legal keeps = record {
    keeps_id = λ r. refl;
    keeps_key = λ r. refl;
    sets = λ r h. refl;
    keeps_inv = λ r h. set_recovered-RowInv r c item now keeps h;
    edge = λ r h. requeue (ground arith);
  }

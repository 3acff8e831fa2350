-- ===== src/TaskQueue/Rows.antt =====
-- What holds of a row of `tasks` between two operations, and that every statement of
-- apps/server/internal/task/task.go keeps it on the rows that it rewrites.
use m_pack_station.Base.{
  ℕ, ◌+◌, ◌≤◌, String, ◌≡◌, Bool, true, false, Option, none, some, not, ◌||◌, ◌==◌, is_some, arith,
  leb, ltb,
}
use m_pack_station.Base.Int.{ℤ, pos, is_negative, exceeds, negsuc}
use m_pack_station.TaskQueue.Model.{
  Config, SubmitRequest, Task, TaskError, succeeded, failed, is_active, is_open, is_queued,
  is_running, is_paused, is_retryable, is_succeeded, full_progress,
}
use m_pack_station.TaskQueue.Submit.{validate_submit, new_row}
use m_pack_station.TaskQueue.Recovery.{
  is_expired, gives_up, set_given_up, set_recovered, set_leased,
}
use m_pack_station.TaskQueue.Leases.{
  can_begin, set_running, set_extended, holds_live, owns_running, set_progress,
}
use m_pack_station.TaskQueue.Finishing.{set_finished, set_retry, set_failed}
use m_pack_station.TaskQueue.Control.{set_canceled, set_paused, set_resumed, set_retried}

-- An epoch that is set is 1.
abbrev pub first_epoch : Option ℕ → Bool
first_epoch none = true
first_epoch (some n) = n == 1

abbrev pub out_of_range : ℤ → Bool
out_of_range p = is_negative p || exceeds p full_progress

-- The schema's CHECK on the three lease columns.
pub record LeaseShape (r : Task) : Type 0 where
  pub owned : is_some r.lease_owner ≡ is_active r.status
  pub epoched : is_some r.lease_epoch ≡ is_active r.status
  pub expiring : is_some r.lease_expires_at ≡ is_active r.status

-- A progress of 100 percent.
abbrev pub is_full : ℤ → Bool
is_full (pos n) = n == full_progress
is_full (negsuc n) = false

pub record RowInv (r : Task) : Type 0 where
  pub shape : LeaseShape r
  pub epoch_one : first_epoch r.lease_epoch ≡ true
  pub attempted : (not (is_active r.status) || leb 1 r.attempt) ≡ true
  pub some_attempts : 1 ≤ r.max_attempts
  pub few_attempts : r.max_attempts ≤ 16
  pub recoveries : r.recover_count ≤ 10
  pub recoverable : (not (is_open r.status) || ltb r.recover_count 10) ≡ true
  pub in_range : out_of_range r.progress ≡ false
  pub finished : is_some r.finished_at ≡ not (is_open r.status)
  pub started : (not (is_running r.status) || is_some r.started_at) ≡ true
  pub complete : (not (is_succeeded r.status) || is_full r.progress) ≡ true

pub new_row-RowInv :
    (c : Config) (id payload : String) (now : ℕ) (r : SubmitRequest)
    → validate_submit c r ≡ none
    → RowInv (new_row id payload now r)
unfolding validate_submit new_row
new_row-RowInv c id payload now r h = ground arith

module _ (r : Task) where
  pub set_leased-RowInv :
      (c : Config) (worker : String) (now : ℕ)
      → is_queued r.status ≡ true
      → RowInv r
      → RowInv (set_leased c worker now r)
  set_leased-RowInv c worker now h v = ground arith

  pub set_running-RowInv :
      (worker : String) (epoch now : ℕ)
      → can_begin worker epoch now r ≡ true
      → RowInv r
      → RowInv (set_running now r)
  set_running-RowInv worker epoch now h v = ground arith

  pub set_extended-RowInv :
      (c : Config) (worker : String) (epoch now : ℕ)
      → holds_live worker epoch now r ≡ true
      → RowInv r
      → RowInv (set_extended c now r)
  set_extended-RowInv c worker epoch now h v = ground arith

  pub set_progress-RowInv :
      (worker : String) (epoch now : ℕ) (p : ℤ) (message : String)
      → out_of_range p ≡ false
      → owns_running worker epoch now r ≡ true
      → RowInv r
      → RowInv (set_progress p message now r)
  set_progress-RowInv worker epoch now p message range h v = ground arith

  pub set_succeeded-RowInv :
      (worker code error message : String) (epoch now : ℕ)
      → owns_running worker epoch now r ≡ true
      → RowInv r
      → RowInv (set_finished succeeded code error message now r)
  set_succeeded-RowInv worker code error message epoch now h v = ground arith

  pub set_finished-RowInv :
      (worker code error message : String) (epoch now : ℕ)
      → owns_running worker epoch now r ≡ true
      → RowInv r
      → RowInv (set_finished failed code error message now r)
  set_finished-RowInv worker code error message epoch now h v = ground arith

  pub set_retry-RowInv :
      (worker : String) (epoch now : ℕ) (e : TaskError) (message : String) (at : ℕ)
      → owns_running worker epoch now r ≡ true
      → RowInv r
      → RowInv (set_retry e message at r)
  set_retry-RowInv worker epoch now e message at h v = ground arith

  pub set_failed-RowInv :
      (worker : String) (epoch now : ℕ) (e : TaskError)
      → owns_running worker epoch now r ≡ true
      → RowInv r
      → RowInv (set_failed e now r)
  set_failed-RowInv worker epoch now e h v = ground arith

  pub set_canceled-RowInv :
      (now : ℕ) → is_open r.status ≡ true → RowInv r → RowInv (set_canceled now r)
  set_canceled-RowInv now h v = ground arith

  pub set_paused-RowInv :
      (worker : String) (epoch now : ℕ)
      → owns_running worker epoch now r ≡ true
      → RowInv r
      → RowInv (set_paused now r)
  set_paused-RowInv worker epoch now h v = ground arith

  pub set_resumed-RowInv :
      (now : ℕ) → is_paused r.status ≡ true → RowInv r → RowInv (set_resumed now r)
  set_resumed-RowInv now h v = ground arith

  pub set_retried-RowInv :
      (now : ℕ) → is_retryable r.status ≡ true → RowInv r → RowInv (set_retried now r)
  set_retried-RowInv now h v = ground arith

  -- The counts come from the row as the scan of `Recover` read it.
  pub set_given_up-RowInv :
      (item : Task) (late : Bool) (now : ℕ)
      → RowInv item
      → is_expired now item ≡ true
      → is_expired now r ≡ true
      → RowInv r
      → RowInv (set_given_up (item.recover_count + 1) late now r)
  set_given_up-RowInv item late now i expired h v = ground arith

  pub set_recovered-RowInv :
      (c : Config) (item : Task) (now : ℕ)
      → gives_up c now item ≡ false
      → is_expired now r ≡ true
      → RowInv r
      → RowInv (set_recovered (item.recover_count + 1) now r)
  set_recovered-RowInv c item now keeps h v = ground arith

-- ===== src/TaskQueue/Model.antt =====
-- apps/server/internal/task/task.go, the data: kinds, statuses, the rows of `tasks`, `task_events`
-- and `task_idem_keys`, the errors, and the queue with its configuration. Times are Unix
-- milliseconds and durations milliseconds, as the SQL statements bind them.
use m_pack_station.Base.{
  ℕ, String, Bool, true, false, Option, none, some, List, [], ◌&&◌, ltb, leb, holds_text,
  holds_number,
}
use m_pack_station.Base.Int.{ℤ}

-- `other` is a text that names no kind.
pub data Kind : Type 0 where
  resolve download index build publish import tool_install cache_gc : Kind
  launcher_install launcher_launch parse_mod_content catalog_init : Kind
  other : String → Kind

pub data Status : Type 0 where
  queued leased running paused succeeded failed canceled : Status

-- The JSON of an event's `detail`, by the value that it is made from.
pub data Detail : Type 0 where
  empty raw_detail : Detail
  worker error_code raw : String → Detail
  progress : ℤ → Detail
  resumed retried : Detail
  recover_count : ℕ → Detail

-- The sentinel errors; `invalid` carries the message of an ad-hoc validation error, `storage` is a
-- primary key that SQLite refuses, and `call_aborted` the error of a context that was cancelled.
-- `never_returns` is no error of the code: the call waits for ever, and holds the only connection.
pub data Error : Type 0 where
  not_found invalid_transition lease_lost idempotency_conflict idempotency_consumed : Error
  no_task_available unknown_kind storage adapter_unavailable call_aborted never_returns : Error
  invalid : String → Error

pub data Result {ℓ} (A : Type ℓ) : Type ℓ where
  ok : A → Result A
  err : Error → Result A

pub record SubmitRequest : Type 0 where
  pub pack_id : Option String
  pub kind : Kind
  pub title : String
  pub payload : String
  pub idempotency_key : String
  pub max_attempts : ℤ

-- A row of `tasks`. `progress` is in thousandths of a percent.
pub record Task : Type 0 where
  pub id : String
  pub pack_id : Option String
  pub kind : Kind
  pub title : String
  pub status : Status
  pub progress : ℤ
  pub message : String
  pub payload : String
  pub payload_path : String
  pub error_code : String
  pub error_message : String
  pub attempt : ℕ
  pub max_attempts : ℕ
  pub recover_count : ℕ
  pub lease_owner : Option String
  pub lease_epoch : Option ℕ
  pub lease_expires_at : Option ℕ
  pub idempotency_key : Option String
  pub created_at : ℕ
  pub updated_at : ℕ
  pub started_at : Option ℕ
  pub finished_at : Option ℕ

pub record Event : Type 0 where
  pub id : String
  pub task_id : String
  pub sequence : ℕ
  pub status : Status
  pub message : String
  pub detail : Detail
  pub created_at : ℕ

-- A row of `task_idem_keys`.
pub record IdemKey : Type 0 where
  pub key : String
  pub endpoint : String
  pub kind : Kind
  pub payload_hash : String
  pub task_id : Option String
  pub created_at : ℕ

pub record TaskError : Type 0 where
  pub code : String
  pub message : String
  pub detail : String
  pub retryable : Bool

-- What the queue is given: the ID source by the number of its call, the two durations, and the
-- library functions that it calls: `json.Valid`, decoding and encoding a payload again, the
-- hexadecimal SHA-256 of its canonical form, and the printing of a duration.
pub record Config : Type 0 where
  pub id : ℕ → String
  pub lease_ttl : ℕ
  pub deadline : ℕ
  pub json_valid : String → Bool
  pub canonical : String → Option String
  pub hash : String → String
  pub duration : ℕ → String

-- The context of one call, at the read of `fencedResult`: it lasts, its deadline has passed or
-- passes before the read is served, or it is cancelled by then.
pub data ContextEnd : Type 0 where
  lasts expires aborts : ContextEnd

-- The clock's readings during one operation, in their order: for `preflightLease`, for the
-- statement, and for `fencedResultTx`; and how its context ends.
pub record Clock : Type 0 where
  pub context : ContextEnd
  pub check : ℕ
  pub now : ℕ
  pub fence : ℕ

-- The tables, the events newest first; the number of ids taken; the cancel functions of running
-- handlers, each named by a number, and those that were called.
pub record Queue : Type 0 where
  pub tasks : List Task
  pub events : List Event
  pub keys : List IdemKey
  pub generated : ℕ
  pub running : List (record { task : String; context : ℕ })
  pub contexts : ℕ
  pub canceled : List ℕ

abbrev pub default_lease_ttl : ℕ
default_lease_ttl = 30000

abbrev pub default_deadline : ℕ
default_deadline = 7200000

abbrev pub max_recovery_count : ℕ
max_recovery_count = 10

abbrev pub max_backoff : ℕ
max_backoff = 300000

abbrev pub full_progress : ℕ
full_progress = 100000

unfoldable pub new_queue : Queue
new_queue = record {
  tasks = [];
  events = [];
  keys = [];
  generated = 0;
  running = [];
  contexts = 0;
  canceled = [];
}

unfoldable pub valid_kind : Kind → Bool
valid_kind (other name) = false
valid_kind _ = true

-- status IN ('leased','running')
abbrev pub is_active : Status → Bool
is_active leased = true
is_active running = true
is_active _ = false

-- status IN ('queued','leased','running','paused')
abbrev pub is_open : Status → Bool
is_open succeeded = false
is_open failed = false
is_open canceled = false
is_open _ = true

-- status IN ('failed','canceled')
abbrev pub is_retryable : Status → Bool
is_retryable failed = true
is_retryable canceled = true
is_retryable _ = false

abbrev pub is_queued : Status → Bool
is_queued queued = true
is_queued _ = false

abbrev pub is_leased : Status → Bool
is_leased leased = true
is_leased _ = false

abbrev pub is_running : Status → Bool
is_running running = true
is_running _ = false

abbrev pub is_paused : Status → Bool
is_paused paused = true
is_paused _ = false

abbrev pub is_succeeded : Status → Bool
is_succeeded succeeded = true
is_succeeded _ = false

abbrev pub is_publish : Kind → Bool
is_publish publish = true
is_publish _ = false

-- lease_expires_at > now; NULL compares as false.
abbrev pub expires_after : Option ℕ → ℕ → Bool
expires_after none now = false
expires_after (some t) now = ltb now t

-- lease_expires_at <= now
abbrev pub expired_by : Option ℕ → ℕ → Bool
expired_by none now = false
expired_by (some t) now = leb t now

-- lease_owner=? AND lease_epoch=? AND lease_expires_at>?
abbrev pub holds_lease : Task → String → ℕ → ℕ → Bool
holds_lease r owner epoch now =
    holds_text r.lease_owner owner
    && holds_number r.lease_epoch epoch
    && expires_after r.lease_expires_at now

-- COALESCE(x, 0)
abbrev pub or_zero : Option ℕ → ℕ
or_zero none = 0
or_zero (some n) = n

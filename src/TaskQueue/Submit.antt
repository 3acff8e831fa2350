-- ===== src/TaskQueue/Submit.antt =====
-- apps/server/internal/task/task.go: `Submit` with its validation and idempotency keys, and the
-- reads `Get`, `List` and `Events`.
use Prim.Native.String.{len}
use m_pack_station.Base.{
  ℕ, ◌+◌, String, Bool, true, false, Option, none, some, List, [], ◌∷◌, ◌&&◌, ◌||◌, not, str_eq,
  str_lt, if◌then◌else◌, ltb, ◌==◌, is_some, sort_by, filter, take,
}
use m_pack_station.Base.Int.{ℤ, pos, negsuc, is_negative, exceeds}
use m_pack_station.TaskQueue.Model.{
  Config, Detail, Event, IdemKey, Queue, Result, ok, err, Error, SubmitRequest, Task, invalid,
  valid_kind, not_found, storage, idempotency_conflict, idempotency_consumed, queued,
}
use m_pack_station.TaskQueue.Table.{find}
use m_pack_station.TaskQueue.Log.{append_event}

abbrev pub is_empty : String → Bool
is_empty s = str_eq s ""

-- An empty payload stands for the empty object.
abbrev pub or_empty_object : String → String
or_empty_object payload = if is_empty payload then "{}" else payload

unfoldable pub validate_submit : Config → SubmitRequest → Option Error
unfolding valid_kind
validate_submit c r =
    if not (valid_kind r.kind)
    then some (invalid "invalid task kind")
    else if is_empty r.title
    then some (invalid "task title is empty")
    else if ltb 256 (len r.idempotency_key)
    then some (invalid "idempotency key exceeds 256 bytes")
    else if is_negative r.max_attempts || exceeds r.max_attempts 16
    then some (invalid "max attempts must be between 1 and 16")
    else if not (c.json_valid (or_empty_object r.payload))
    then some (invalid "task payload is not valid JSON")
    else none

unfoldable pub canonical_payload : Config → String → Option (String × String)
canonical_payload c payload = elim (c.canonical (or_empty_object payload)) [
  | none ↦ none
  | some text ↦ some (text, c.hash text)
]

-- 0 asks for the default of three attempts.
abbrev pub attempts_of : ℤ → ℕ
attempts_of (pos n) = if n == 0 then 3 else n
attempts_of (negsuc n) = 0

abbrev pub null_text : String → Option String
null_text s = if is_empty s then none else some s

-- SELECT task_id, payload_hash FROM task_idem_keys WHERE idempotency_key = ?
unfoldable pub find_key : String → List IdemKey → Option IdemKey
find_key key [] = none
find_key key (k ∷ ks) = let rest = find_key key ks in if str_eq k.key key then some k else rest

-- `Get`, by `loadTask`.
unfoldable pub get : String → Queue → Result Task
get id q = elim (find id q.tasks) [ none ↦ err not_found | some t ↦ ok t ]

abbrev pub and_replayed : Bool → Result Task → Result (Task × Bool)
and_replayed b (ok t) = ok (t, b)
and_replayed b (err e) = err e

-- A key that was used before: the same payload yields the task that it made.
unfoldable pub replay : String → IdemKey → Queue → Result (Task × Bool)
unfolding get
replay hash k q =
    if not (str_eq k.payload_hash hash)
    then err idempotency_conflict
    else elim k.task_id [ none ↦ err idempotency_consumed | some id ↦ and_replayed true (get id q) ]

unfoldable pub new_row : String → String → ℕ → SubmitRequest → Task
new_row id payload now r = record {
  id = id;
  pack_id = r.pack_id;
  kind = r.kind;
  title = r.title;
  status = queued;
  progress = pos 0;
  message = "";
  payload = payload;
  payload_path = "";
  error_code = "";
  error_message = "";
  attempt = 0;
  max_attempts = attempts_of r.max_attempts;
  recover_count = 0;
  lease_owner = none;
  lease_epoch = none;
  lease_expires_at = none;
  idempotency_key = null_text r.idempotency_key;
  created_at = now;
  updated_at = now;
  started_at = none;
  finished_at = none;
}

abbrev pub bind_key : SubmitRequest → String → String → ℕ → List IdemKey → List IdemKey
bind_key r hash id now ks =
    if is_empty r.idempotency_key
    then ks
    else record {
      key = r.idempotency_key;
      endpoint = "task.submit";
      kind = r.kind;
      payload_hash = hash;
      task_id = some id;
      created_at = now;
    }
      ∷ ks

-- The rows of `tasks` and `task_idem_keys`.
abbrev pub with_rows : Config → ℕ → SubmitRequest → String → String → Queue → Queue
with_rows c now r payload hash q = record q {
  tasks = new_row (c.id q.generated) payload now r ∷ q.tasks;
  keys = bind_key r hash (c.id q.generated) now q.keys;
  generated = q.generated + 1;
}

-- The inserts. A taken primary key rolls them back; the id stays used up.
unfoldable pub insert_task :
    Config → ℕ → SubmitRequest → String → String → Queue → Queue × Result (Task × Bool)
insert_task c now r payload hash q =
    let id = c.id q.generated in
    let q' =
      append_event c id queued "queued" Detail.empty now (with_rows c now r payload hash q) in
    if is_some (find id q.tasks)
    then (record q { generated = q.generated + 1 }, err storage)
    else (q', and_replayed false (get id q'))

unfoldable pub submit_tx :
    Config → ℕ → SubmitRequest → String → String → Queue → Queue × Result (Task × Bool)
submit_tx c now r payload hash q =
    if is_empty r.idempotency_key
    then insert_task c now r payload hash q
    else elim (find_key r.idempotency_key q.keys) [
      | none ↦ insert_task c now r payload hash q
      | some k ↦ (q, replay hash k q)
    ]

unfoldable pub submit : Config → ℕ → SubmitRequest → Queue → Queue × Result (Task × Bool)
unfolding validate_submit canonical_payload submit_tx
submit c now r q = elim (validate_submit c r) [
  | some e ↦ (q, err e)
  | none ↦ elim (canonical_payload c r.payload) [
    | none ↦ (q, err (invalid "decode task payload"))
    | some (payload, hash) ↦ submit_tx c now r payload hash q
  ]
]

-- A limit that is not positive asks for 100, and none passes 500.
unfoldable pub list_limit : ℤ → ℕ
list_limit (negsuc n) = 100
list_limit (pos n) = if n == 0 then 100 else if ltb 500 n then 500 else n

-- ORDER BY created_at DESC, id DESC
abbrev pub listed_before : Task → Task → Bool
listed_before a b =
    ltb b.created_at a.created_at || a.created_at == b.created_at && str_lt b.id a.id

unfoldable pub list_tasks : ℤ → Queue → List Task
unfolding list_limit sort_by
list_tasks limit q = take (list_limit limit) (sort_by listed_before q.tasks)

abbrev pub sequence_before : Event → Event → Bool
sequence_before a b = ltb a.sequence b.sequence

-- `Events`: not found for no task, and otherwise its events by their sequence.
unfoldable pub events_of : String → Queue → Result (List Event)
unfolding get sort_by
events_of id q = elim (get id q) [
  | err e ↦ err e
  | ok t ↦ ok (sort_by sequence_before (filter (λ e. str_eq e.task_id id) q.events))
]

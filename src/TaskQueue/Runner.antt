-- ===== src/TaskQueue/Runner.antt =====
-- apps/server/internal/task/task.go: the handler registry and `RunOnce`; worker.go: the idle loop.
-- A handler is code of another package: any function of the queue that it is given. A context ends
-- only where the readings of a call (`Clock`) say so.
use m_pack_station.Base.{
  ℕ, ◌*◌, String, Bool, true, false, Option, none, some, List, [], ◌∷◌, ◌==◌, if◌then◌else◌, str_eq,
  ltb, any,
}
use m_pack_station.TaskQueue.Model.{
  Clock, Config, Error, Kind, Queue, Result, ok, err, Status, Task, TaskError, unknown_kind,
  no_task_available, never_returns, failed, canceled, valid_kind, or_zero, resolve, download, index,
  build, publish, import, tool_install, cache_gc, launcher_install, launcher_launch,
  parse_mod_content, catalog_init, other,
}
use m_pack_station.TaskQueue.Table.{find}
use m_pack_station.TaskQueue.Log.{track_running, stop_running}
use m_pack_station.TaskQueue.Recovery.{lease}
use m_pack_station.TaskQueue.Leases.{begin}
use m_pack_station.TaskQueue.Finishing.{finish, succeed, fail}
use m_pack_station.TaskQueue.Control.{cancel}

-- The kinds' texts.
unfoldable pub kind_text : Kind → String
kind_text resolve = "resolve"
kind_text download = "download"
kind_text index = "index"
kind_text build = "build"
kind_text publish = "publish"
kind_text import = "import"
kind_text tool_install = "tool_install"
kind_text cache_gc = "cache_gc"
kind_text launcher_install = "launcher_install"
kind_text launcher_launch = "launcher_launch"
kind_text parse_mod_content = "parse_mod_content"
kind_text catalog_init = "catalog_init"
kind_text (other name) = name

abbrev pub same_kind : Kind → Kind → Bool
same_kind a b = str_eq (kind_text a) (kind_text b)

-- What a handler returns: nothing, a `TaskError`, a cancellation, or another error's text.
pub data Outcome : Type 0 where
  done context_canceled : Outcome
  task_error : TaskError → Outcome
  error : String → Outcome

-- The capability that a handler gets: its task, worker and epoch.
pub record Execution : Type 0 where
  pub task : Task
  pub worker_id : String
  pub epoch : ℕ

abbrev pub Handler : Type 0
Handler = Execution → Queue → Queue × Outcome

abbrev pub Registry : Type 0
Registry = List (record { kind : Kind; handler : Handler })

unfoldable pub handler_of : Kind → Registry → Option Handler
unfolding kind_text
handler_of kind [] = none
handler_of kind (h ∷ hs) =
    let rest = handler_of kind hs in if same_kind h.kind kind then some h.handler else rest

-- A later registration of a kind hides the earlier; nil is no handler.
unfoldable pub register : Kind → Option Handler → Registry → Result Registry
unfolding valid_kind
register kind none hs = err unknown_kind
register kind (some h) hs =
    if valid_kind kind then ok (record { kind = kind; handler = h } ∷ hs) else err unknown_kind

-- The clock's readings of one round.
pub record RunClock : Type 0 where
  pub leasing : Clock
  pub beginning : Clock
  pub ending : Clock

-- The task that a round leased, and the round's error.
abbrev pub Round : Type 0
Round = Queue × Option Task × Option Error

abbrev pub error_of : Result (Unit {0}) → Option Error
error_of (ok u) = none
error_of (err e) = some e

abbrev pub closes : Option Task → Queue × Result (Unit {0}) → Round
closes t (q, r) = (q, t, error_of r)

-- The context of a handler was cancelled: its cancel function was called.
abbrev pub was_canceled : ℕ → Queue → Bool
was_canceled context q = any (λ n. n == context) q.canceled

abbrev pub is_canceled : Status → Bool
is_canceled canceled = true
is_canceled _ = false

-- A handler that left because its context was cancelled: the row may be cancelled already.
unfoldable pub leave_canceled : Config → Clock → Task → Queue → Round
unfolding cancel
leave_canceled c k t q = elim (find t.id q.tasks) [
  | none ↦ closes (some t) (cancel c k.now t.id q)
  | some r ↦
      if is_canceled r.status then (q, some t, none) else closes (some t) (cancel c k.now t.id q)
]

-- What the round makes of a handler's outcome.
unfoldable pub settle_outcome : Config → Clock → String → Task → ℕ → Outcome → Queue → Round
unfolding succeed fail leave_canceled
settle_outcome c k worker t context Outcome.done q =
    closes (some t) (succeed c k t.id worker (or_zero t.lease_epoch) "succeeded" q)
settle_outcome c k worker t context (Outcome.task_error e) q =
    closes (some t) (fail c k t.id worker (or_zero t.lease_epoch) (some e) q)
settle_outcome c k worker t context Outcome.context_canceled q = leave_canceled c k t q
settle_outcome c k worker t context (Outcome.error message) q =
    if was_canceled context q
    then leave_canceled c k t q
    else closes (some t) (
        fail c k t.id worker (or_zero t.lease_epoch)
          (some (record { code = "task_failed"; message = message; detail = ""; retryable = true }))
          q)

-- The deferred `stopRunning` of a round.
abbrev pub stopping : String → Round → Round
stopping id (q, t, e) = (stop_running id q, t, e)

-- The round of a task once its handler returned.
unfoldable pub handled : Config → Clock → String → Task → ℕ → Queue × Outcome → Round
unfolding stop_running settle_outcome
handled c k worker t context (q, outcome) =
    stopping t.id (settle_outcome c k worker t context outcome q)

unfoldable pub handle_task : Config → Clock → String → Task → Handler → Queue → Round
unfolding track_running handled
handle_task c k worker t h q = handled c k worker t q.contexts (
    h (record { task = t; worker_id = worker; epoch = or_zero t.lease_epoch })
      (track_running t.id q))

-- A leased task without a handler fails.
unfoldable pub dispatch_task : Config → Clock → String → Registry → Task → Queue → Round
unfolding handler_of handle_task finish
dispatch_task c k worker hs t q = elim (handler_of t.kind hs) [
  | none ↦ (
    (finish c k t.id worker (or_zero t.lease_epoch) failed "unknown_task_kind"
        "no handler registered for task kind" "failed" q).0,
    some t,
    some unknown_kind,
  )
  | some h ↦ handle_task c k worker t h q
]

unfoldable pub begun : Config → Clock → String → Registry → Task → Queue × Result (Unit {0}) → Round
unfolding dispatch_task
begun c k worker hs t (q, err e) = (q, some t, some e)
begun c k worker hs t (q, ok u) = dispatch_task c k worker hs t q

unfoldable pub run_leased : Config → RunClock → String → Registry → Queue × Result Task → Round
unfolding begin begun
run_leased c k worker hs (q, err e) = (q, none, some e)
run_leased c k worker hs (q, ok t) =
    begun c k.ending worker hs t (begin c k.beginning t.id worker (or_zero t.lease_epoch) q)

unfoldable pub run_once : Config → RunClock → String → Registry → Queue → Round
unfolding lease run_leased
run_once c k worker hs q = run_leased c k worker hs (lease c k.leasing worker q)

-- worker.go: the delays of `Run`. A round that ran resets the delay, an idle round waits and
-- doubles it up to the bound, any other failure waits and leaves it.
pub data RoundEnd : Type 0 where
  ran idle failing : RoundEnd

-- The worker's context lasts; a round that never returns does not end.
abbrev pub round_end : Option Error → Option RoundEnd
round_end none = some ran
round_end (some no_task_available) = some idle
round_end (some never_returns) = none
round_end (some _) = some failing

pub record IdleBounds : Type 0 where
  pub min : ℕ
  pub max : ℕ

-- 100 ms stands for a bound that is not positive, and the upper bound is at least the lower one.
unfoldable pub idle_bounds : ℕ → ℕ → IdleBounds
idle_bounds min max =
    let low = if min == 0 then 100 else min in
    record { min = low; max = if ltb max low then low else max }

unfoldable pub next_delay : IdleBounds → RoundEnd → ℕ → ℕ
next_delay b ran delay = b.min
next_delay b idle delay =
    if ltb delay b.max then (if ltb b.max (delay * 2) then b.max else delay * 2) else delay
next_delay b failing delay = delay

-- The waits of the loop over the ends of its rounds, from the delay that it has reached.
unfoldable pub waits : IdleBounds → List RoundEnd → ℕ → List ℕ
unfolding next_delay
waits b [] delay = []
waits b (ran ∷ es) delay = waits b es b.min
waits b (idle ∷ es) delay = delay ∷ waits b es (next_delay b idle delay)
waits b (failing ∷ es) delay = delay ∷ waits b es delay

-- ===== src/TaskQueue/RoundExamples.antt =====
-- The replayed submissions and the worker's rounds of apps/server/internal/task at a concrete queue.
use m_pack_station.Base.{
  ℕ, List, ◌≡◌, [], none, some, ◌∷◌, false, true, refl, ◌≢◌, false≢true, ap, str_eq, arith, String,
}
use m_pack_station.TaskQueue.Examples.{
  config, request, at, submitted, new_task, leased_task, submitted_queue, lease_granted, made,
}
use m_pack_station.TaskQueue.Runner.{handler_of, RunClock, Registry, Handler, run_once, Outcome}
use m_pack_station.TaskQueue.Submit.{canonical_payload, submit, validate_submit}
use m_pack_station.TaskQueue.Model.{
  SubmitRequest, Task, build, download, new_queue, ok, err, idempotency_conflict, lease_lost,
  succeeded,
}
use m_pack_station.TaskQueue.Calls.{run, Call, leases, run-QueueInv}
use m_pack_station.TaskQueue.Replay.{submit-conflict, submit-replay}
use m_pack_station.TaskQueue.Lifecycle.{Follows}
use m_pack_station.TaskQueue.Table.{find}
use m_pack_station.TaskQueue.Leases.{set_running}
use m_pack_station.TaskQueue.Finishing.{set_finished}
use m_pack_station.TaskQueue.RoundOutcomes.{run_once-succeeds, run_once-too_late}

-- Another kind and title under the same key.
abbrev repeated : SubmitRequest
repeated = record request { kind = build; title = "Build" }

abbrev other_payload : SubmitRequest
other_payload = record request { payload = "[]" }

valid_repeated : validate_submit config repeated ≡ none
unfolding validate_submit
valid_repeated = refl

valid_other : validate_submit config other_payload ≡ none
unfolding validate_submit
valid_other = refl

canonical_first : canonical_payload config "{}" ≡ some ("{}", "{}")
unfolding canonical_payload
canonical_first = refl

canonical_other : canonical_payload config "[]" ≡ some ("[]", "[]")
unfolding canonical_payload
canonical_other = refl

made_first :
    submit config 1000 request (run config [] new_queue) ≡ (submitted_queue, ok (new_task, false))
unfolding run
made_first = made

abbrev later : List Call
later = leases (at 2000) "w" ∷ []

submit-replay_example :
    (t' : Task) × (submit config 9000 repeated (run config later submitted_queue)
      ≡ (run config later submitted_queue, ok (t', true)))
    × Follows new_task t'
submit-replay_example =
    submit-replay config [] later 1000 9000 request repeated refl canonical_first made_first refl
      valid_repeated canonical_first refl

texts_differ : ◌≢◌ {A = String} "{}" "[]"
texts_differ h = absurd (false≢true (ap (λ s. str_eq s "[]") h))

submit-conflict_example :
    submit config 9000 other_payload (run config later submitted_queue)
    ≡ (run config later submitted_queue, err idempotency_conflict)
submit-conflict_example =
    submit-conflict config [] later 1000 9000 request other_payload refl canonical_first made_first
      refl valid_other canonical_other texts_differ

abbrev downloads : Handler
downloads x q = (q, Outcome.done)

abbrev registry : Registry
registry = record { kind = download; handler = downloads } ∷ []

abbrev round_clock : ℕ → RunClock
round_clock ends = record { leasing = at 2000; beginning = at 3000; ending = at ends }

found_handler : handler_of download registry ≡ some downloads
unfolding handler_of
found_handler = refl

run_once-succeeds_example :
    ((run_once config (round_clock 4000) "w" registry submitted_queue).1 ≡ some leased_task)
    × ((run_once config (round_clock 4000) "w" registry submitted_queue).2 ≡ none)
    × (find "t" (run_once config (round_clock 4000) "w" registry submitted_queue).0.tasks
        ≡ some (set_finished succeeded "" "" "succeeded" 4000 (set_running 3000 leased_task)))
run_once-succeeds_example =
    run_once-succeeds config (round_clock 4000) "w" registry submitted_queue
      (run-QueueInv config submitted) lease_granted found_handler refl refl (omega arith)
      (omega arith) (omega arith) (omega arith)

run_once-too_late_example :
    ((run_once config (round_clock 40000) "w" registry submitted_queue).1 ≡ some leased_task)
    × ((run_once config (round_clock 40000) "w" registry submitted_queue).2 ≡ some lease_lost)
    × (find "t" (run_once config (round_clock 40000) "w" registry submitted_queue).0.tasks
        ≡ some (set_running 3000 leased_task))
run_once-too_late_example =
    run_once-too_late config (round_clock 40000) "w" registry submitted_queue
      (run-QueueInv config submitted) lease_granted found_handler refl refl (omega arith)
      (omega arith) (omega arith)

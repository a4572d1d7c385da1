-- ===== src/Tests/CallerRuns.antt =====
-- Enqueueing of src/caller.rs under the key of a task that is running.
use getitdone.Prelude.{
  ◌≡◌, refl, none, some, differs, String, [], ◌∷◌, true, false, get_elem?, string_eq, nat_eq,
}
use getitdone.Prelude.Int.{pos}
use getitdone.Time.{from_secs}
use getitdone.Config.{Config}
use getitdone.Bson.Memory.{
  trace_object, memory, Fields, end, field, text, get_field, insert_field, of_list,
}
use getitdone.Mongo.Memory.Instance.{server}
use getitdone.Mongo.Memory.Laws.{Db, upsert_one, update_first, any, is_duplicate_key}
use getitdone.Caller.{
  SendBuilder, send, upsert_update, enqueue_only, enqueue_payload, upsert_task, upsert_filter,
  reset_arm, filter_entries, effective_reset_predicate, enqueue_outcome, reset,
}
use getitdone.Caller.Queued.{trace_context_of-upsert_update}
use getitdone.Worker.Task.{trace_context_of}
use getitdone.Caller.Resets.{IsFinished, succeeded, failed, enqueue_only_unfinished}
use getitdone.Caller.Enqueued.{Enqueued, enqueue_only-Enqueued, enqueue_only-duplicate}
use getitdone.Errors.{ok, err, duplicate}
use getitdone.Trace.{TraceContext}
use getitdone.Mongo.Memory.Query.{matches, reaches, holds}
use getitdone.Mongo.Paths.{split_dot, segments}
use getitdone.Mongo.Memory.Change.{applied}
use getitdone.Caller.Duplicates.{enqueue_only_spares}

running-unfinished : ¬ IsFinished "running"
unfolding string_eq
running-unfinished (succeeded t e) = differs "running" "succeeded" refl e
running-unfinished (failed t e) = differs "running" "failed" refl e

abbrev pub config : Config Fields
config = record {
  mongo_uri = "mongodb://localhost:27017";
  database = "getitdone";
  collection = "tasks";
  request_timeout = none;
  worker_switch_timeout = from_secs 10;
  allow_reset_finished_tasks = false;
  worker_id = none;
  enable_metrics = false;
  claim_sort = none;
  stale_recovery_sort = none;
}

abbrev running : Fields
running = field "task_id" (text "task-a") (field "status" (text "running") end)

abbrev stored : Db
stored = record { docs = running ∷ []; online = true }

-- The span of the caller.
abbrev caller_span : TraceContext
caller_span = record { trace_id = "0a"; span_id = "0b"; trace_flags = 1 }

abbrev pub request : SendBuilder server
request = record (send server config (some (text "ping")) (some caller_span)) {
  idempotency_key = some "task-a";
}

enqueue_only_spares_example :
    get_elem? (enqueue_only server request "uuid" (pos 5) stored).1.docs 0 ≡ some running
unfolding send get_field string_eq
enqueue_only_spares_example =
    enqueue_only_spares server request "uuid" (pos 5) stored 0 (text "running") running refl refl
      refl refl

-- A task that has failed is enqueued again, where resets are allowed.
abbrev failed_task : Fields
failed_task =
    field "task_id" (text "task-a")
      (field "status" (text "failed") (field "error_reason" (text "no luck") end))

abbrev finished_tasks : Db
finished_tasks = record { docs = failed_task ∷ []; online = true }

abbrev resetting : SendBuilder server
resetting = record request { reset_when = some end }

enqueue_only_unfinished_example :
    get_elem? (enqueue_only server resetting "uuid" (pos 5) stored).1.docs 0 ≡ some running
unfolding send get_field string_eq
enqueue_only_unfinished_example =
    enqueue_only_unfinished server resetting "uuid" (pos 5) stored 0 "running" running refl
      running-unfinished refl

reset_run :
    (enqueue_only server resetting "uuid" (pos 5) finished_tasks).0
    ≡ ok (record { task_id = "task-a"; action = reset })
unfolding enqueue_only send enqueue_payload upsert_task upsert_one matches reaches update_first
    upsert_filter filter_entries reset_arm effective_reset_predicate insert_field get_field of_list
    split_dot segments nat_eq string_eq applied holds enqueue_outcome
reset_run = refl

enqueue_only-Enqueued_example :
    (◌≡◌ {A = String} "task-a" "task-a")
    × Enqueued server "task-a"
        (text "ping")
        (some caller_span)
        finished_tasks.docs
        (enqueue_only server resetting "uuid" (pos 5) finished_tasks).1.docs
        reset
unfolding send
enqueue_only-Enqueued_example =
    enqueue_only-Enqueued server resetting "uuid" (pos 5) finished_tasks (text "ping")
      (record { task_id = "task-a"; action = reset }) refl reset_run

duplicate_run : (enqueue_only server resetting "uuid" (pos 5) stored).0 ≡ err (duplicate "task-a")
unfolding enqueue_only send enqueue_payload upsert_task upsert_one matches reaches update_first
    upsert_filter filter_entries reset_arm effective_reset_predicate insert_field get_field of_list
    split_dot segments nat_eq string_eq applied holds enqueue_outcome any is_duplicate_key
duplicate_run = refl

enqueue_only-duplicate_example :
    (enqueue_only server resetting "uuid" (pos 5) stored).1.docs ≡ stored.docs
enqueue_only-duplicate_example =
    enqueue_only-duplicate server resetting "uuid" "task-a" (pos 5) stored duplicate_run

trace_context_of-upsert_update_example :
    trace_context_of server
      (applied (upsert_update "task-a" (text "ping") 10 (some caller_span) (pos 5)) failed_task)
    ≡ some caller_span
trace_context_of-upsert_update_example =
    trace_context_of-upsert_update server "task-a" (text "ping") 10 (some caller_span) (pos 5)
      caller_span (trace_object caller_span) failed_task refl refl

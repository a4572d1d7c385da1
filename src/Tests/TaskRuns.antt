-- ===== src/Tests/TaskRuns.antt =====
-- Runs of `process_task` of src/worker.rs, and of what a caller reads afterwards.
use getitdone.Prelude.{
  ℕ, ◌≡◌, ◌⊎◌, refl, String, true, Option, none, some, List, [], ◌∷◌, get_elem?, nat_eq, string_eq,
}
use getitdone.Prelude.Int.{pos}
use getitdone.Errors.{Result, ok}
use getitdone.Bson.Memory.{
  memory, Fields, Value, end, field, text, object, time, get_field, insert_field,
}
use getitdone.Bson.Document.{doc}
use getitdone.Mongo.Paths.{split_dot, field_path}
use getitdone.Mongo.Memory.Instance.{server}
use getitdone.Mongo.Memory.Laws.{Db, DbError, update_first, update_one, find_one}
use getitdone.Mongo.Memory.Query.{matches, holds, reaches}
use getitdone.Mongo.Memory.Change.{applied}
use getitdone.Worker.Lease.{
  claim_filter, heartbeat, succeeded_update, complete, classify_heartbeat_result,
}
use getitdone.Worker.Lease.Fencing.{HasToken}
use getitdone.Worker.Lease.Outcomes.{Unclaimed}
use getitdone.Worker.Task.{
  Moment, HandlerCode, lost, claim_token_of, heartbeat_loop, after_beat, process_task,
  process_named, setup, owned, payload_of, run_handler, aborts, finish,
}
use getitdone.Worker.Task.Fencing.{process_task_fenced}
use getitdone.Worker.Task.Outcomes.{IsDone, process_task-IsDone, heartbeat_loop-lost}
use getitdone.Caller.Waiting.{
  evaluate_document, wait_for_result, inspect_task, evaluate_status, evaluate_output,
}
use getitdone.Caller.Outcomes.{Shows, evaluate_document-succeeded_update, wait_for_result-Shows}

abbrev text_of : Value → Option String
text_of (text s) = some s
text_of v = none

-- A handler that returns its input.
abbrev echo : HandlerCode server
echo = record {
  TInput = String;
  TOutput = String;
  deserialize_from_bson = text_of;
  serialize_to_bson = λ s. some (text s);
  handler = λ job. ok job.payload;
}

abbrev claim_state : String → Fields
claim_state token =
    field "worker_id" (text "worker-1")
      (field "claim_token" (text token) (field "heartbeat_at" (time (pos 1000)) end))

abbrev claimed_by : String → Fields
claimed_by token = field "task_id" (text "task-a") (
    field "task_input" (text "ping")
      (field "status" (text "running") (field "worker_state" (object (claim_state token)) end)))

abbrev held : Db
held = record { docs = claimed_by "current" ∷ []; online = true }

abbrev moment : Moment server
moment = record { others = λ db. db; now = pos 2000; finished_at = pos 2000 }

claimed_by-HasToken : HasToken server "current" (claimed_by "current")
unfolding get_field string_eq
claimed_by-HasToken = record { state = claim_state "current"; stated = refl; token_kept = refl }

-- A job of the superseded claim `old` runs beside the current one.
process_task_fenced_example :
    get_elem?
      (process_task server echo
        (claimed_by "old")
        "worker-1"
        moment
        (moment ∷ [])
        true
        moment
        held).1.docs
      0
    ≡ some (claimed_by "current")
unfolding claim_token_of get_field string_eq
process_task_fenced_example =
    process_task_fenced server "current" 0 (claimed_by "current") claimed_by-HasToken echo
      (claimed_by "old") "worker-1" moment (moment ∷ []) true moment held (λ e. cc) (λ db h. h)
      (λ db h. h, tt) (λ db h. h) refl

lost_run : (heartbeat_loop server "task-a" "worker-1" "old" (moment ∷ []) held).0 ≡ lost
unfolding heartbeat_loop after_beat classify_heartbeat_result heartbeat claim_filter update_one
    update_first matches holds reaches split_dot field_path get_field insert_field string_eq nat_eq
lost_run = refl

heartbeat_loop-lost_example :
    Unclaimed server "task-a" "worker-1" "old"
      (heartbeat_loop server "task-a" "worker-1" "old" (moment ∷ []) held).1
heartbeat_loop-lost_example =
    heartbeat_loop-lost server "task-a" "worker-1" "old" (moment ∷ []) held lost_run

done_run :
    (process_task server echo (claimed_by "current") "worker-1" moment [] true moment held).0
    ≡ ok tt
unfolding process_task process_named setup owned payload_of run_handler aborts finish claim_token_of
    heartbeat_loop heartbeat claim_filter complete update_one update_first matches holds reaches
    split_dot field_path get_field insert_field string_eq nat_eq applied
done_run = refl

process_task-IsDone_example :
    IsDone server echo
      (claimed_by "current")
      "worker-1"
      moment
      []
      moment
      held
      (process_task server echo (claimed_by "current") "worker-1" moment [] true moment held).1
process_task-IsDone_example =
    process_task-IsDone server echo (claimed_by "current") "worker-1" moment [] true moment held
      done_run

evaluate_document-succeeded_update_example :
    evaluate_document server text_of
      (applied (succeeded_update server (text "pong") (pos 9) (pos 9)) (claimed_by "current"))
    ≡ ok (some (ok "pong"))
evaluate_document-succeeded_update_example =
    evaluate_document-succeeded_update server text_of (text "pong") "pong" (pos 9) (pos 9)
      (claimed_by "current") refl

abbrev answer : Fields
answer =
    field "task_id" (text "task-a")
      (field "status" (text "succeeded") (field "task_output" (text "pong") end))

abbrev answered : Db
answered = record { docs = answer ∷ []; online = true }

abbrev silent : Result DbError (List (Result DbError (Option Fields)))
silent = ok []

wait_run : wait_for_result server text_of "task-a" answered silent ≡ ok "pong"
unfolding wait_for_result inspect_task evaluate_document evaluate_status evaluate_output find_one
    update_first matches holds reaches split_dot field_path get_field insert_field string_eq nat_eq
wait_run = refl

wait_for_result-Shows_example :
    (d : Fields) × Shows server text_of "pong" d
    × ((find_one (doc (("task_id", text "task-a") ∷ [])) answered ≡ ok (some d))
        ⊎ ((events : List (Result DbError (Option Fields))) × (silent ≡ ok events)
            × (i : ℕ) × (get_elem? events i ≡ some (ok (some d)))))
wait_for_result-Shows_example =
    wait_for_result-Shows server text_of "task-a" answered silent "pong" wait_run

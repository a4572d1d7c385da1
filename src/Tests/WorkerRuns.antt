-- ===== src/Tests/WorkerRuns.antt =====
-- Runs of src/worker.rs on the server in memory.
use getitdone.Prelude.{◌≡◌, ◌⊎◌, refl, true, false, some, [], ◌∷◌, nat_eq, string_eq, get_elem?}
use getitdone.Prelude.Int.{pos}
use getitdone.Errors.{ok}
use getitdone.Bson.Memory.{memory, Fields, end, field, text, object, time, get_field, insert_field}
use getitdone.Mongo.Paths.{split_dot, field_path}
use getitdone.Mongo.Memory.Instance.{server}
use getitdone.Mongo.Memory.Laws.{Db, update_first, update_one}
use getitdone.Mongo.Memory.Query.{matches, holds, reaches}
use getitdone.Worker.Lease.{claim_filter, heartbeat, complete}
use getitdone.Worker.Lease.Outcomes.{Claimed, Unclaimed, IsBeat, heartbeat_answer, complete_done}
use getitdone.Mongo.Atomic.{Replaced, Rewritten}
use getitdone.Worker.Lease.Fencing.{HasToken, fail, written, written_fenced}

-- One task, held by `worker-1` under the token `current`.
abbrev held : Fields
held = field "task_id" (text "task-a") (
    field "status" (text "running") (
      field "worker_state"
        (object (
          field "worker_id" (text "worker-1")
            (field "claim_token" (text "current") (field "heartbeat_at" (time (pos 1000)) end))))
        end))

abbrev db : Db
db = record { docs = held ∷ []; online = true }

held-HasToken : HasToken server "current" held
unfolding get_field string_eq
held-HasToken = record {
  state =
      field "worker_id" (text "worker-1")
        (field "claim_token" (text "current") (field "heartbeat_at" (time (pos 1000)) end));
  stated = refl;
  token_kept = refl;
}

-- `mark_task_failed_ignores_superseded_claim_token`
written_fenced_example :
    get_elem? (written server (fail "stale" (pos 1) (pos 1)) "task-a" "worker-1" "old" db).docs 0
    ≡ some held
written_fenced_example =
    written_fenced server (fail "stale" (pos 1) (pos 1)) "task-a" "worker-1" "old" "current" db 0
      held held-HasToken (λ e. cc) refl

-- `heartbeat_rejects_superseded_claim_token`
heartbeat_run :
    ((heartbeat server "task-a" "worker-1" "old" (pos 2000) db).0 ≡ ok false)
    × ((heartbeat server "task-a" "worker-1" "current" (pos 2000) db).0 ≡ ok true)
unfolding heartbeat claim_filter update_one update_first matches holds reaches split_dot field_path
    get_field insert_field string_eq nat_eq
heartbeat_run = (refl, refl)

heartbeat_answer_example :
    ((true ≡ false)
      × ((heartbeat server "task-a" "worker-1" "current" (pos 2000) db).1.docs ≡ db.docs)
      × Unclaimed server "task-a" "worker-1" "current" db)
    ⊎ ((true ≡ true)
        × Rewritten
            (Claimed server "task-a" "worker-1" "current")
            (IsBeat server (pos 2000))
            db.docs
            (heartbeat server "task-a" "worker-1" "current" (pos 2000) db).1.docs)
heartbeat_answer_example =
    heartbeat_answer server "task-a" "worker-1" "current" db (pos 2000) true heartbeat_run.1

-- The worker completes its claim with an output.
complete_run :
    (complete server "task-a" "worker-1" "current" (text "done") (pos 9) (pos 9) db).0 ≡ ok tt
unfolding complete claim_filter update_one update_first matches holds reaches split_dot field_path
    get_field insert_field string_eq nat_eq
complete_run = refl

complete_done_example :
    Replaced
      (Claimed server "task-a" "worker-1" "current")
      (λ d'.
        (get_field "status" d' ≡ some (text "succeeded"))
        × (get_field "task_output" d' ≡ some (text "done")))
      db.docs
      (complete server "task-a" "worker-1" "current" (text "done") (pos 9) (pos 9) db).1.docs
complete_done_example =
    complete_done server "task-a" "worker-1" "current" db (text "done") (pos 9) (pos 9) complete_run

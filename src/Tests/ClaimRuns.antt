-- ===== src/Tests/ClaimRuns.antt =====
-- Runs of the claims of src/worker.rs on the server in memory.
use getitdone.Prelude.{◌≡◌, refl, String, true, none, some, [], ◌∷◌, nat_eq, string_eq}
use getitdone.Prelude.Int.{pos, ◌+ℤ◌}
use getitdone.Time.{from_secs}
use getitdone.Errors.{ok}
use getitdone.Bson.Memory.{
  memory, oid, Fields, end, field, text, object, time, long, get_field, insert_field, of_list,
}
use getitdone.Mongo.Paths.{split_dot, field_path}
use getitdone.Mongo.Memory.Instance.{server}
use getitdone.Mongo.Memory.Laws.{Db, update_first, find_one_and_update}
use getitdone.Mongo.Memory.Query.{matches, holds, reaches, eval}
use getitdone.Mongo.Memory.Change.{applied}
use getitdone.Worker.Claim.{
  ready, claim_next_task, claim_filter_attempts, claim_first, pending_entries, own_entries,
  stale_claim_filter, claim_update, claim_with_filter, claim_expired_task_by_id,
}
use getitdone.Worker.Claim.Exclusion.{IsFresh, claim_next_task-IsFresh}
use getitdone.Worker.Claim.Expired.{claim_expired_task_by_id-IsFresh}

abbrev waiting : String → Fields
waiting task_id = field "task_id" (text task_id) (field "status" (text "pending") end)

abbrev pair : Db
pair = record { docs = waiting "task-a" ∷ waiting "task-b" ∷ []; online = true }

-- What the claim of `task-b` leaves.
abbrev claimed : Fields
claimed = applied (claim_update server "worker-1" "token" (pos 6) (from_secs 10)) (waiting "task-b")

-- `ready_mode_does_not_claim_pending_task_that_is_already_in_flight`
claim_run :
    (claim_next_task server "worker-1"
      (from_secs 10)
      ("task-a" ∷ [])
      ready
      none
      "token"
      (pos 5)
      (pos 6)
      pair).0
    ≡ ok (some claimed)
unfolding claim_next_task claim_filter_attempts claim_first pending_entries claim_with_filter
    find_one_and_update matches holds reaches split_dot field_path get_field insert_field string_eq
    nat_eq update_first of_list
claim_run = refl

claim_next_task-IsFresh_example :
    IsFresh server
      ("task-a" ∷ [])
      "token"
      pair.docs
      (claim_next_task server "worker-1"
        (from_secs 10)
        ("task-a" ∷ [])
        ready
        none
        "token"
        (pos 5)
        (pos 6)
        pair).1.docs
      claimed
claim_next_task-IsFresh_example =
    claim_next_task-IsFresh server "worker-1" (from_secs 10) ("task-a" ∷ []) ready none "token"
      (pos 5) (pos 6) pair claimed claim_run

-- A task of a worker that is gone, and whose deadline has passed at 5000.
abbrev gone_state : Fields
gone_state =
    field "worker_id" (text "worker-0")
      (field "claim_token" (text "old") (field "heartbeat_at" (time (pos 1000)) end))

abbrev abandoned : Fields
abandoned = field "_id" (oid 7) (
    field "task_id" (text "task-a") (
      field "status" (text "running") (
        field "worker_switch_timeout" (long (pos 2000))
          (field "worker_state" (object gone_state) end))))

abbrev late : Db
late = record { docs = abandoned ∷ []; online = true }

abbrev recovered : Fields
recovered = applied (claim_update server "worker-1" "token" (pos 5001) (from_secs 10)) abandoned

-- `claim_expired_task_by_id_still_reclaims_when_not_in_flight`
expired_run :
    (claim_expired_task_by_id server 7 "worker-1"
      (from_secs 10)
      (some "task-a")
      []
      "token"
      (pos 5000)
      (pos 5001)
      late).0
    ≡ ok (some recovered)
unfolding claim_expired_task_by_id claim_with_filter find_one_and_update matches holds reaches
    split_dot field_path get_field insert_field string_eq nat_eq update_first of_list eval
    stale_claim_filter ◌+ℤ◌
expired_run = refl

claim_expired_task_by_id-IsFresh_example :
    IsFresh server [] "token" late.docs
      (claim_expired_task_by_id server 7 "worker-1"
        (from_secs 10)
        (some "task-a")
        []
        "token"
        (pos 5000)
        (pos 5001)
        late).1.docs
      recovered
claim_expired_task_by_id-IsFresh_example =
    claim_expired_task_by_id-IsFresh server 7 "worker-1" (from_secs 10) (some "task-a") [] "token"
      (pos 5000) (pos 5001) late recovered expired_run

-- `ready_mode_does_not_reclaim_abandoned_running_tasks`
ready_run :
    (claim_first server
      (claim_filter_attempts server ready "worker-1" (from_secs 10) [] none (pos 5000))
      (claim_update server "worker-1" "token" (pos 5001) (from_secs 10))
      late).0
    ≡ ok none
unfolding claim_filter_attempts claim_first pending_entries own_entries claim_with_filter
    find_one_and_update matches holds reaches split_dot field_path get_field insert_field string_eq
    nat_eq update_first of_list
ready_run = refl

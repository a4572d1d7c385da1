-- ===== src/Tests/LeaseRuns.antt =====
-- A lease of src/worker.rs that is alive, and what the claims and the tracker make of it.
use getitdone.Prelude.{
  ◌≡◌, ◌≢◌, ◌==◌, ap, true, false, refl, none, some, [], ◌∷◌, get_elem?, nat_eq, string_eq, arith,
  String,
}
use getitdone.Prelude.Int.{pos, ◌+ℤ◌, IsI64}
use getitdone.Prelude.Dict.{lookup}
use getitdone.Time.{from_secs}
use getitdone.Bson.Memory.{memory, Fields, end, field, text, object, time, long, oid, get_field}
use getitdone.Mongo.Memory.Instance.{server}
use getitdone.Mongo.Memory.Laws.{Db}
use getitdone.Mongo.Memory.Query.{holds}
use getitdone.Expiry.{new}
use getitdone.Expiry.Due.{is_due}
use getitdone.Expiry.Documents.{schedule_expiration_from_task}
use getitdone.Expiry.Documents.Agreement.{is_due-stale_expr}
use getitdone.Worker.Claim.Ownership.{RunsAt, claim_next_task_respects}
use getitdone.Worker.Claim.{
  ready, stale_recovery, stale_expr, claim_next_task, claim_expired_task_by_id,
}
use getitdone.Worker.Claim.Staleness.{IsLeased}
use getitdone.Worker.Claim.Leases.{IsAlive, claim_next_task_spares, claim_expired_task_by_id_spares}

abbrev state : Fields
state =
    field "worker_id" (text "worker-0")
      (field "claim_token" (text "old") (field "heartbeat_at" (time (pos 1000)) end))

-- The last heartbeat is at 1000, and the task has a timeout of two seconds of its own.
abbrev leased : Fields
leased = field "_id" (oid 7) (
    field "task_id" (text "task-a") (
      field "status" (text "running") (
        field "worker_switch_timeout" (long (pos 2000)) (field "worker_state" (object state) end))))

abbrev stored : Db
stored = record { docs = leased ∷ []; online = true }

leased-IsLeased : IsLeased server (pos 1000) (some (pos 2000)) none leased
unfolding get_field string_eq
leased-IsLeased = record {
  state = state;
  stated = refl;
  beating = refl;
  timed = refl;
  claimed = refl;
}

deadline-IsI64 : IsI64 (pos 1000 +ℤ pos 2000)
unfolding ◌+ℤ◌
deadline-IsI64 = record { above = omega arith; below = omega arith }

leased-IsAlive : IsAlive server (pos 2999) (from_secs 10) leased
unfolding ◌+ℤ◌
leased-IsAlive = record {
  heartbeat_at = pos 1000;
  own = some (pos 2000);
  given = none;
  leased = leased-IsLeased;
  range = deadline-IsI64;
  later = omega arith;
}

claim_next_task_spares_example :
    get_elem?
      (claim_next_task server "worker-1"
        (from_secs 10)
        []
        stale_recovery
        none
        "token"
        (pos 2999)
        (pos 2999)
        stored).1.docs
      0
    ≡ some leased
claim_next_task_spares_example =
    claim_next_task_spares server (pos 2999) (from_secs 10) stored 0 leased leased-IsAlive refl
      "worker-1" [] none "token" (pos 2999)

claim_expired_task_by_id_spares_example :
    get_elem?
      (claim_expired_task_by_id server 7 "worker-1"
        (from_secs 10)
        (some "task-a")
        []
        "token"
        (pos 2999)
        (pos 2999)
        stored).1.docs
      0
    ≡ some leased
claim_expired_task_by_id_spares_example =
    claim_expired_task_by_id_spares server (pos 2999) (from_secs 10) stored 0 leased leased-IsAlive
      refl 7 "worker-1" (some "task-a") [] "token" (pos 2999)

is_due-stale_expr_example :
    is_due (pos 3000) (lookup 7 (schedule_expiration_from_task leased (from_secs 10) new).tasks)
    ≡ holds "$expr" (stale_expr server (pos 3000) (from_secs 10)) leased
unfolding get_field string_eq
is_due-stale_expr_example =
    is_due-stale_expr server 7 (pos 3000) (from_secs 10) 2000 new leased (pos 1000)
      (some (pos 2000)) none refl refl leased-IsLeased refl (omega arith) (omega arith)
      deadline-IsI64

leased-RunsAt : RunsAt server "worker-0" leased
unfolding get_field string_eq
leased-RunsAt = record { running = refl; state = state; stated = refl; owned = refl }

other_worker : ◌≢◌ {A = String} "worker-0" "worker-1"
unfolding string_eq
other_worker e =
    let same : true ≡ false = ap (λ (s : String). s == "worker-0") e in absurd (cc same)

claim_next_task_respects_example :
    get_elem?
      (claim_next_task server "worker-1"
        (from_secs 10)
        []
        ready
        none
        "token"
        (pos 9000)
        (pos 9000)
        stored).1.docs
      0
    ≡ some leased
claim_next_task_respects_example =
    claim_next_task_respects server "worker-1" "worker-0" (from_secs 10) [] none "token" (pos 9000)
      (pos 9000) stored 0 leased leased-RunsAt other_worker refl

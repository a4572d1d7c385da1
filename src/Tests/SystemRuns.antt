-- ===== src/Tests/SystemRuns.antt =====
-- Runs of callers and workers on one collection.
use getitdone.Prelude.{◌≡◌, refl, true, none, some, [], ◌∷◌, List, get_elem?, differs, string_eq}
use getitdone.Prelude.Int.{pos}
use getitdone.Time.{from_secs}
use getitdone.Bson.Memory.{memory, Fields, end, field, text, get_field}
use getitdone.Mongo.Memory.Instance.{server}
use getitdone.Mongo.Memory.Laws.{Db}
use getitdone.Worker.Claim.{ready, stale_recovery}
use getitdone.Worker.Lease.Fencing.{beat, fail, finish}
use getitdone.Caller.{effective_reset_predicate, send}
use getitdone.System.{Claim, Operation, enqueue, claim, claim_expired, lease_write, perform_all}
use getitdone.System.Lifecycle.{pending, Status, HasStatus, Reaches}
use getitdone.System.Refinement.{perform_all-Reaches}
use getitdone.System.Stability.{IsSettled, perform_all-keeps}
use getitdone.Tests.CallerRuns.{request}

abbrev waiting : Fields
waiting = field "task_id" (text "task-a") (field "status" (text "pending") end)

abbrev done : Fields
done =
    field "task_id" (text "task-b")
      (field "status" (text "succeeded") (field "task_output" (text "pong") end))

abbrev shared : Db
shared = record { docs = waiting ∷ done ∷ []; online = true }

abbrev taken : Claim server
taken = record {
  worker_id = "worker-1";
  worker_switch_timeout = from_secs 10;
  excluded = [];
  claim_token = "token";
  now = pos 5;
  claim_started_at = pos 6;
}

abbrev history : List (Operation server)
history =
    claim taken ready none
    ∷ lease_write (beat (pos 7)) "task-a" "worker-1" "token"
    ∷ claim taken stale_recovery none
    ∷ claim_expired taken 1 (some "task-b")
    ∷ enqueue request "uuid" (pos 8)
    ∷ lease_write (finish (text "pong") (pos 9) (pos 9)) "task-a" "worker-1" "token"
    ∷ lease_write (fail "late" (pos 9) (pos 9)) "task-b" "worker-1" "token"
    ∷ []

perform_all-Reaches_example :
    (d' : Fields) × (s' : Status) × (get_elem? (perform_all server history shared).docs 0 ≡ some d')
    × HasStatus server s' d'
    × Reaches server history pending s'
unfolding get_field string_eq
perform_all-Reaches_example = perform_all-Reaches server history shared 0 waiting pending refl refl

settled : IsSettled server done
unfolding get_field string_eq
settled = record {
  text = "succeeded";
  status = refl;
  not_pending = differs "succeeded" "pending" refl;
  not_running = differs "succeeded" "running" refl;
}

perform_all-keeps_example : get_elem? (perform_all server history shared).docs 1 ≡ some done
unfolding effective_reset_predicate send
perform_all-keeps_example =
    perform_all-keeps server history shared 1 done (tt, (tt, (tt, (tt, (refl, (tt, (tt, tt)))))))
      settled refl

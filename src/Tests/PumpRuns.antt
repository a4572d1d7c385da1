-- ===== src/Tests/PumpRuns.antt =====
-- A run of `pump_expired_tasks` of src/worker.rs without a permit.
use getitdone.Prelude.{◌≡◌, refl, none, some, [], ◌∷◌, List, true, false, nat_eq, string_eq, ℕ}
use getitdone.Prelude.Int.{pos, saturating_add, int_eq}
use getitdone.Prelude.Dict.{lookup, insert, remove as dict_remove}
use getitdone.Prelude.Sorted.{find, put, delete}
use getitdone.Prelude.Sets.{add}
use getitdone.Time.{from_secs, from_millis}
use getitdone.Bson.Memory.{memory, Fields, end, field, text, get_field, insert_field, of_list}
use getitdone.Mongo.Memory.Instance.{server}
use getitdone.Expiry.{
  ExpiringTask, ExpiryTracker, new, upsert, remove, pop_due, due_keys, drain_deadlines, drain_ids,
  add_deadline, mark_pending, set_pending_may_exist,
}
use getitdone.Worker.InFlight.{contains_task, snapshot}
use getitdone.Worker.Claim.{
  ready, claim_interleaved, claim_filter_attempts, pending_entries, own_entries, claim_with_filter,
}
use getitdone.Mongo.Memory.Query.{matches, holds, reaches}
use getitdone.Mongo.Memory.Laws.{find_one_and_update, update_first}
use getitdone.Mongo.Paths.{split_dot, field_path, segments}
use getitdone.Worker.Pump.Hint.{Settled, pump_available_tasks-Settled}
use getitdone.Worker.Pump.{
  Process, Await, Settings, is_local, pump_expired_tasks, pump_available_tasks, round, resume,
  end_jobs, after_claim, drop_permit, clear_hint,
}
use getitdone.Worker.Pump.Dropped.{pump_expired_tasks-Untracked}

abbrev quiet : Await server
quiet = record {
  ended = [];
  others = λ db. db;
  between = λ n db. db;
  claim_token = "token";
  now = pos 5;
  claim_started_at = pos 6;
}

abbrev settings : Settings server
settings = record { worker_id = "worker-1"; worker_switch_timeout = from_secs 10 }

abbrev tracker : ExpiryTracker ℕ
tracker =
    upsert 2 (some "task-b") (pos 1010) (from_millis 50)
      (upsert 1 (some "task-a") (pos 1000) (from_millis 50) new)

abbrev full : Process server
full = record {
  in_flight = record { task_ids = [] };
  available_permits = 0;
  join_set = [];
  expiry_tracker = tracker;
  collection = record { docs = []; online = true };
}

abbrev first : ExpiringTask
first = record { task_id = some "task-a"; expires_at_ms = some (pos 1050) }

abbrev rest : List (ℕ × ExpiringTask)
rest = (2, record { task_id = some "task-b"; expires_at_ms = some (pos 1060) }) ∷ []

popped : (pop_due (pos 2000) tracker).0 ≡ (1, first) ∷ rest
unfolding pop_due upsert new due_keys drain_deadlines drain_ids remove lookup add_deadline put
    saturating_add find int_eq add insert nat_eq dict_remove delete
popped = refl

pump_expired_tasks-Untracked_example :
    (lookup 2 (pump_expired_tasks server settings (pos 2000) (λ n. quiet) full).expiry_tracker.tasks
      ≡ none)
    × ((pump_expired_tasks server settings (pos 2000) (λ n. quiet) full).collection
        ≡ full.collection)
unfolding is_local contains_task nat_eq
pump_expired_tasks-Untracked_example =
    pump_expired_tasks-Untracked server settings (pos 2000) (λ n. quiet) full 1 2 first rest popped
      refl refl refl

-- The one pending task is still in flight here: another process has given it back.
abbrev given_back : Fields
given_back = field "task_id" (text "task-a") (field "status" (text "pending") end)

abbrev hinted : Process server
hinted = record {
  in_flight = record { task_ids = "task-a" ∷ [] };
  available_permits = 1;
  join_set = record { inflight_task_id = "task-a"; document = given_back } ∷ [];
  expiry_tracker = mark_pending new;
  collection = record { docs = given_back ∷ []; online = true };
}

abbrev unhinted : Process server
unhinted = record hinted { expiry_tracker = set_pending_may_exist false (mark_pending new) }

hinted_run : pump_available_tasks server settings ready none (quiet ∷ []) hinted ≡ some unhinted
unfolding pump_available_tasks round resume end_jobs after_claim drop_permit clear_hint snapshot
    claim_interleaved claim_filter_attempts pending_entries own_entries claim_with_filter
    find_one_and_update matches holds reaches split_dot field_path segments get_field insert_field
    string_eq nat_eq update_first of_list
hinted_run = refl

pump_available_tasks-Settled_example : Settled server settings none (quiet ∷ []) hinted unhinted
unfolding mark_pending set_pending_may_exist
pump_available_tasks-Settled_example =
    pump_available_tasks-Settled server settings none (quiet ∷ []) hinted unhinted hinted_run refl
      refl

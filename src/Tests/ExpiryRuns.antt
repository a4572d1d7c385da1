-- ===== src/Tests/ExpiryRuns.antt =====
-- Runs of src/worker/expiry.rs: trackers of numbered tasks, and change events in memory.
use getitdone.Prelude.{
  ◌∷◌, [], true, List, ℕ, ◌≡◌, refl, none, some, get_elem?, nat_eq, string_eq, if◌then◌else◌,
}
use getitdone.Prelude.Int.{pos, int_eq, saturating_add}
use getitdone.Prelude.Dict.{lookup, insert}
use getitdone.Time.{from_millis, from_secs, clamped_millis}
use getitdone.Bson.Memory.{
  memory, oid, Fields, end, field, text, object, time, long, get_field, insert_field,
}
use getitdone.Expiry.{ExpiryTracker, new, clear_running, upsert, remove, pop_due, next_delay}
use getitdone.Expiry.Index.{IsIndexed, new-IsIndexed, upsert-IsIndexed}
use getitdone.Errors.{Result, ok}
use getitdone.Bson.Document.{get_object_id}
use getitdone.Mongo.Memory.Instance.{server}
use getitdone.Mongo.Memory.Laws.{Db, DbError, find as find_docs}
use getitdone.Mongo.Memory.Query.{matches}
use getitdone.Mongo.Paths.{split_dot}
use getitdone.Expiry.Refresh.{
  is_some, refresh_running_expirations, refresh_running_expirations-Scanned,
}
use getitdone.Expiry.Due.{is_due}
use getitdone.Expiry.PopDue.{Waits, lookup-pop_due, next_delay-Waits}
use getitdone.Expiry.Documents.{
  update, ChangeStreamEvent, schedule_expiration_from_task, heartbeat_from_task, event_id,
  apply_change_event_to_expirations,
}
use getitdone.Expiry.Documents.Preservation.{apply_change_event_to_expirations-IsIndexed}
use getitdone.Expiry.Documents.Deadlines.{apply_heartbeat}

abbrev tracker : ExpiryTracker ℕ
tracker = upsert 1 (some "task-a") (pos 1000) (from_millis 50) new

tracker-IsIndexed : IsIndexed tracker
tracker-IsIndexed = upsert-IsIndexed 1 (some "task-a") (pos 1000) (from_millis 50) new new-IsIndexed

lookup-pop_due_example :
    (lookup 1 (pop_due (pos 1050) tracker).0
      ≡ (if is_due (pos 1050) (lookup 1 tracker.tasks) then lookup 1 tracker.tasks else none))
    × (lookup 1 (pop_due (pos 1050) tracker).1.tasks
        ≡ (if is_due (pos 1050) (lookup 1 tracker.tasks) then none else lookup 1 tracker.tasks))
lookup-pop_due_example = lookup-pop_due (pos 1050) 1 tracker tracker-IsIndexed

next_delay-Waits_example : Waits (pos 1020) tracker (next_delay (pos 1020) tracker)
next_delay-Waits_example = next_delay-Waits (pos 1020) tracker tracker-IsIndexed

-- A running task with a timeout of its own of 60 seconds.
abbrev running_state : Fields
running_state = field "worker_id" (text "worker-1") (field "heartbeat_at" (time (pos 1000)) end)

abbrev long_task : Fields
long_task = field "_id" (oid 7) (
    field "task_id" (text "task-a") (
      field "status" (text "running") (
        field "worker_switch_timeout" (long (pos 60000))
          (field "worker_state" (object running_state) end))))

-- The heartbeat of a claim, as the change stream reports it.
abbrev beat_fields : Fields
beat_fields = field "worker_state.heartbeat_at" (time (pos 4000)) end

abbrev beat : ChangeStreamEvent Fields
beat = record {
  operation_type = update;
  full_document = none;
  document_key = some (field "_id" (oid 7) end);
  updated_fields = some beat_fields;
}

apply_heartbeat_example :
    lookup 7 (apply_change_event_to_expirations beat (from_secs 10) new).0.tasks
    ≡ some (record {
      task_id = none;
      expires_at_ms = some (saturating_add (pos 4000) (clamped_millis (from_secs 10)));
    })
unfolding get_field string_eq new event_id lookup
apply_heartbeat_example = apply_heartbeat 7 (pos 4000) (from_secs 10) new beat (record {
  updating = refl;
  keyed = refl;
  fields = beat_fields;
  described = refl;
  status_kept = refl;
  not_whole = refl;
  dotted = refl;
  timeout_kept = refl;
})

apply_change_event_to_expirations-IsIndexed_example :
    IsIndexed ⦃e = nat_eq⦄ (apply_change_event_to_expirations beat (from_secs 10) new).0
apply_change_event_to_expirations-IsIndexed_example =
    apply_change_event_to_expirations-IsIndexed beat (from_secs 10) new (new-IsIndexed ⦃e = nat_eq⦄)

abbrev stored : Db
stored = record { docs = long_task ∷ []; online = true }

abbrev cursor : List (Result DbError Fields)
cursor = ok long_task ∷ []

refresh_run :
    is_some (lookup 7 (refresh_running_expirations server (from_secs 10) stored new).tasks) ≡ true
unfolding refresh_running_expirations lookup find_docs matches insert_field get_field string_eq
    split_dot nat_eq schedule_expiration_from_task heartbeat_from_task upsert insert remove
    clear_running
refresh_run = refl

refresh_running_expirations-Scanned_example :
    (i : ℕ) × (task : Fields) × (get_elem? cursor i ≡ some (ok task))
    × (get_object_id "_id" task ≡ some 7)
unfolding find_docs matches insert_field get_field string_eq split_dot nat_eq
refresh_running_expirations-Scanned_example =
    refresh_running_expirations-Scanned server (from_secs 10) stored new cursor 7 refl refresh_run

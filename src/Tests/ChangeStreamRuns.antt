-- ===== src/Tests/ChangeStreamRuns.antt =====
-- Runs of the pipeline of src/worker.rs on documents of change events in memory.
use getitdone.Prelude.{◌≡◌, refl, true, false, none, some, string_eq, nat_eq, ap}
use mathlib.Core.Option.{some-injective}
use getitdone.Prelude.Int.{pos}
use getitdone.Time.{from_secs}
use getitdone.Bson.Memory.{
  memory, oid, Fields, end, field, text, object, time, get_field, insert_field, of_list,
}
use getitdone.Mongo.Memory.Query.{passes, eval}
use getitdone.Mongo.Memory.Instance.{server}
use getitdone.Mongo.Paths.{split_dot, field_path, segments}
use getitdone.Worker.ChangeStream.{expiry_change_stream_pipeline}
use getitdone.Worker.ChangeStream.Relevant.{Reads, dropped_events}
use getitdone.Expiry.{new}
use getitdone.Expiry.Documents.{update, ChangeStreamEvent, apply_change_event_to_expirations}

-- The document of an update of these fields.
abbrev updated : Fields → Fields
updated fields =
    field "operationType" (text "update")
      (field "updateDescription" (object (field "updatedFields" (object fields) end)) end)

-- A caller has refreshed a field that the worker does not read.
abbrev request : Fields
request = field "caller_seen_at" (time (pos 4000)) end

abbrev event : ChangeStreamEvent Fields
event = record {
  operation_type = update;
  full_document = none;
  document_key = some (field "_id" (oid 7) end);
  updated_fields = some request;
}

-- The heartbeat's dotted key is found.
heartbeat_passes :
    passes expiry_change_stream_pipeline
      (updated (field "worker_state.heartbeat_at" (time (pos 4000)) end))
    ≡ true
unfolding passes expiry_change_stream_pipeline eval segments insert_field get_field of_list
    string_eq nat_eq split_dot field_path
heartbeat_passes = refl

request_dropped : passes expiry_change_stream_pipeline (updated request) ≡ false
unfolding passes expiry_change_stream_pipeline eval segments insert_field get_field of_list
    string_eq nat_eq split_dot field_path
request_dropped = refl

request_read : Reads (updated request) event
unfolding get_field string_eq
request_read = record {
  named = λ name e. ap (λ n. some (text n)) (some-injective "update" name e);
  described = λ fields e. (
    field "updatedFields" (object request) end,
    refl,
    ap (λ f. some (object f)) (some-injective request fields e),
  );
}

dropped_events_example : apply_change_event_to_expirations event (from_secs 10) new ≡ (new, false)
dropped_events_example =
    dropped_events server (updated request) event (from_secs 10) new request_read request_dropped

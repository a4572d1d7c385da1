-- ===== src/Caller/Queued.antt =====
-- src/caller.rs: the task that an enqueue makes of a document.
use getitdone.Prelude.{ℕ, ◌≡◌, ◌∙◌, refl, String, none, some, string_eq, nat_eq, Option}
use getitdone.Prelude.Int.{ℤ}
use getitdone.Bson.Crate.{BsonCrate}
use getitdone.Bson.Document.{doc, get-doc}
use getitdone.Mongo.Paths.{split_dot}
use getitdone.Mongo.Server.{MongoServer, IsCreated}
use getitdone.Mongo.Atomic.{applied_field, created_field, cleared_field}
use getitdone.Caller.{upsert_update, pending_fields, unset_fields, trace_bson, update_entries}
use getitdone.Trace.{TraceContext}
use getitdone.Worker.Task.{trace_context_of}

module _ ⦃b : BsonCrate⦄ (m : MongoServer b) where
  open b use {Bson, Document, string, get, document, serialize_trace_context}
  open m use {applied}

  -- The document is a pending task.
  pub record IsQueued (task_id : String) (payload : Bson) (trace : Option TraceContext)
      (d : Document) : Type 0 where
    pub named : get "task_id" d ≡ some (string task_id)
    pub pending : get "status" d ≡ some (string "pending")
    pub input : get "task_input" d ≡ some payload
    pub traced : get "trace_context" d ≡ some (trace_bson trace)

  -- Nothing is left of a former run.
  pub record IsCleared (d : Document) : Type 0 where
    pub no_output : get "task_output" d ≡ none
    pub no_reason : get "error_reason" d ≡ none
    pub no_state : get "worker_state" d ≡ none

  module _ (task_id : String) (payload : Bson) (timeout : ℕ) (trace : Option TraceContext)
      (now : ℤ) where
    sets :
        get "$set" (upsert_update task_id payload timeout trace now)
        ≡ some (document (doc (pending_fields task_id payload timeout trace now)))
    unfolding upsert_update update_entries string_eq
    sets = get-doc "$set" (update_entries task_id payload timeout trace now)

    pub created-IsQueued :
        (d : Document)
        → IsCreated b (upsert_update task_id payload timeout trace now) d
        → IsQueued task_id payload trace d
    unfolding pending_fields string_eq split_dot nat_eq
    created-IsQueued d c = record {
      named =
          created_field m "task_id" (string task_id)
            (pending_fields task_id payload timeout trace now) _ d sets refl refl refl c;
      pending =
          created_field m "status" (string "pending")
            (pending_fields task_id payload timeout trace now) _ d sets refl refl refl c;
      input =
          created_field m "task_input" payload (pending_fields task_id payload timeout trace now) _
            d sets refl refl refl c;
      traced =
          created_field m "trace_context" (trace_bson trace)
            (pending_fields task_id payload timeout trace now) _ d sets refl refl refl c;
    }

    pub applied-IsQueued :
        (d : Document)
        → IsQueued task_id payload trace
            (applied (upsert_update task_id payload timeout trace now) d)
    unfolding pending_fields string_eq split_dot nat_eq
    applied-IsQueued d = record {
      named =
          applied_field m "task_id" (string task_id)
            (pending_fields task_id payload timeout trace now) _ d sets refl refl refl;
      pending =
          applied_field m "status" (string "pending")
            (pending_fields task_id payload timeout trace now) _ d sets refl refl refl;
      input =
          applied_field m "task_input" payload (pending_fields task_id payload timeout trace now) _
            d sets refl refl refl;
      traced =
          applied_field m "trace_context" (trace_bson trace)
            (pending_fields task_id payload timeout trace now) _ d sets refl refl refl;
    }

    unsets :
        get "$unset" (upsert_update task_id payload timeout trace now)
        ≡ some (document (doc unset_fields))
    unfolding upsert_update update_entries string_eq
    unsets = get-doc "$unset" (update_entries task_id payload timeout trace now)

    pub applied-IsCleared :
        (d : Document) → IsCleared (applied (upsert_update task_id payload timeout trace now) d)
    unfolding pending_fields string_eq split_dot nat_eq
    applied-IsCleared d = record {
      no_output =
          cleared_field m "task_output" (string "")
            (pending_fields task_id payload timeout trace now) unset_fields _ d sets unsets refl
            refl refl refl;
      no_reason =
          cleared_field m "error_reason" (string "")
            (pending_fields task_id payload timeout trace now) unset_fields _ d sets unsets refl
            refl refl refl;
      no_state =
          cleared_field m "worker_state" (string "")
            (pending_fields task_id payload timeout trace now) unset_fields _ d sets unsets refl
            refl refl refl;
    }

    -- What a worker reads as the trace context of a document to which an enqueue was applied is the caller's,
    -- if this could be serialized.
    pub trace_context_of-upsert_update :
        (c : TraceContext) (v : Bson) (d : Document)
        → trace ≡ some c
        → serialize_trace_context c ≡ some v
        → trace_context_of m (applied (upsert_update task_id payload timeout trace now) d) ≡ some c
    unfolding trace_context_of trace_bson
    trace_context_of-upsert_update c v d t h =
        let stored : get "trace_context"
              (applied (upsert_update task_id payload timeout trace now) d)
            ≡ some v =
          (applied-IsQueued d).traced ∙ rw (t, trace_bson, h) refl in
        rw (stored, b.is_null-serialize c v h) (b.deserialize-serialize c v h)

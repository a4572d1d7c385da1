-- ===== src/Caller.antt =====
-- src/caller.rs: a caller enqueues a task.
-- Serialization and deserialization of inputs and outputs are parameters. Without the feature `tracing`
-- there is no trace context.
pub mod Waiting
pub mod Outcomes
pub mod Duplicates
pub mod Resets
pub mod Queued
pub mod Enqueued
use Prim.Native.String.{◌++◌ as ◌<>◌}
use getitdone.Prelude.{
  ℕ, String, Bool, true, false, Option, none, some, List, [], ◌∷◌, map, ◌==◌, string_eq, ltb,
  or_else, if◌then◌else◌,
}
use getitdone.Prelude.Int.{ℤ}
use getitdone.Time.{wrapped_millis}
use getitdone.Errors.{
  RequestError, duplicate, timeout, payload_format, task_failed, database, Result, ok, err, ◌>>=◌,
  ok_or,
}
use getitdone.Config.{Config, unwrap_or}
use getitdone.Bson.Crate.{BsonCrate}
use getitdone.Bson.Document.{doc, get_str}
use getitdone.Mongo.Server.{MongoServer}
use getitdone.Mongo.Updates.{UpdateResult}
use getitdone.Trace.{TraceContext}

pub data EnqueueAction : Type 0 where
  inserted reset : EnqueueAction

pub record EnqueueOutcome : Type 0 where
  pub task_id : String
  pub action : EnqueueAction

abbrev pub finished : List String
finished = "succeeded" ∷ "failed" ∷ []

module _ ⦃b : BsonCrate⦄ where
  open b use {
    Bson, Document, string, boolean, date_time, int64, array, document, null, new, get,
    serialize_trace_context,
  }

  unfoldable pub effective_reset_predicate : Option Document → Config Document → Option Document
  effective_reset_predicate per_request config =
      or_else per_request (if config.allow_reset_finished_tasks then some new else none)

  abbrev pub is_absent : Bson
  is_absent = document (doc (("$exists", boolean false) ∷ []))

  abbrev pub is_one_of : List String → Bson
  is_one_of ss = document (doc (("$in", array (map string ss)) ∷ []))

  -- A finished document that satisfies the predicate.
  unfoldable pub reset_arm : Document → Document
  reset_arm predicate = doc (
      (
        "$and",
        array (document (doc (("status", is_one_of finished) ∷ [])) ∷ document predicate ∷ []),
      )
      ∷ [])

  unfoldable pub filter_entries : String → Option Document → List (String × Bson)
  unfolding reset_arm
  filter_entries task_id none = ("task_id", string task_id) ∷ ("status", is_absent) ∷ []
  filter_entries task_id (some predicate) =
      ("task_id", string task_id)
      ∷ (
        "$or",
        array (document (doc (("status", is_absent) ∷ [])) ∷ document (reset_arm predicate) ∷ []),
      )
      ∷ []

  unfoldable pub upsert_filter : String → Option Document → Document
  unfolding filter_entries
  upsert_filter task_id predicate = doc (filter_entries task_id predicate)

  -- The trace context as it is stored; one that cannot be serialized is left out.
  unfoldable pub trace_bson : Option TraceContext → Bson
  trace_bson none = null
  trace_bson (some trace) = unwrap_or null (serialize_trace_context trace)

  unfoldable pub pending_fields : String → Bson → ℕ → Option TraceContext → ℤ → List (String × Bson)
  pending_fields task_id payload worker_switch_timeout trace_context now =
      ("task_id", string task_id)
      ∷ ("task_input", payload)
      ∷ ("status", string "pending")
      ∷ ("updated_at", date_time now)
      ∷ ("worker_switch_timeout", int64 (wrapped_millis worker_switch_timeout))
      ∷ ("trace_context", trace_bson trace_context)
      ∷ []

  abbrev pub unset_fields : List (String × Bson)
  unset_fields =
      ("task_output", string "") ∷ ("error_reason", string "") ∷ ("worker_state", string "") ∷ []

  unfoldable pub update_entries : String → Bson → ℕ → Option TraceContext → ℤ → List (String × Bson)
  update_entries task_id payload worker_switch_timeout trace_context now =
      (
        "$set",
        document (doc (pending_fields task_id payload worker_switch_timeout trace_context now)),
      )
      ∷ ("$setOnInsert", document (doc (("created_at", date_time now) ∷ [])))
      ∷ ("$unset", document (doc unset_fields))
      ∷ []

  unfoldable pub upsert_update : String → Bson → ℕ → Option TraceContext → ℤ → Document
  unfolding pending_fields update_entries
  upsert_update task_id payload worker_switch_timeout trace_context now =
      doc (update_entries task_id payload worker_switch_timeout trace_context now)

  module _ (m : MongoServer b) where
    open m use {Db, DbError, error_text, is_duplicate_key, upsert_one, find_one}

    unfoldable pub enqueue_outcome :
        String → Result DbError UpdateResult → Result RequestError EnqueueOutcome
    enqueue_outcome task_id (ok result) =
        if result.upserted
        then ok (record { task_id = task_id; action = inserted })
        else if ltb 0 result.matched_count
        then ok (record { task_id = task_id; action = reset })
        else err (duplicate task_id)
    enqueue_outcome task_id (err e) =
        if is_duplicate_key e then err (duplicate task_id) else err (database (error_text e))

    -- `uuid` is the key that is made where none is given.
    unfoldable pub upsert_task :
        Bson
        → ℕ
        → Option String
        → Option Document
        → Option TraceContext
        → String
        → ℤ
        → Db
        → Result RequestError EnqueueOutcome × Db
    unfolding upsert_filter upsert_update enqueue_outcome
    upsert_task payload worker_switch_timeout idempotency_key reset_predicate trace_context uuid now
          db =
        let task_id = unwrap_or uuid idempotency_key in
        let (result, db') =
          upsert_one (upsert_filter task_id reset_predicate)
            (upsert_update task_id payload worker_switch_timeout trace_context now) db in
        (enqueue_outcome task_id result, db')

    -- `SendBuilder`, before it is polled. The serialized payload is there, or the error.
    pub record SendBuilder : Type 0 where
      pub config : Config Document
      pub payload : Option Bson
      pub payload_err : Option RequestError
      pub timeout : Option ℕ
      pub worker_switch_timeout : Option ℕ
      pub idempotency_key : Option String
      pub reset_when : Option Document
      pub trace_context : Option TraceContext

    -- `Caller::send`, on the result of serializing the payload and on the context that is captured.
    unfoldable pub send : Config Document → Option Bson → Option TraceContext → SendBuilder
    send config serialized captured = record {
      config = config;
      payload = serialized;
      payload_err = elim serialized [
        | none ↦ some (payload_format "task_input")
        | some bson ↦ none
      ];
      timeout = none;
      worker_switch_timeout = none;
      idempotency_key = none;
      reset_when = none;
      trace_context = captured;
    }

    unfoldable pub send_with_timeout : ℕ → SendBuilder → SendBuilder
    send_with_timeout time s = record s { timeout = some time }

    unfoldable pub send_with_worker_switch_timeout : ℕ → SendBuilder → SendBuilder
    send_with_worker_switch_timeout time s = record s { worker_switch_timeout = some time }

    unfoldable pub send_with_idempotency_key : String → SendBuilder → SendBuilder
    send_with_idempotency_key key s = record s { idempotency_key = some key }

    unfoldable pub send_reset_when : Document → SendBuilder → SendBuilder
    send_reset_when predicate s = record s { reset_when = some predicate }

    unfoldable pub send_with_trace_context : TraceContext → SendBuilder → SendBuilder
    send_with_trace_context trace s = record s { trace_context = some trace }

    unfoldable pub enqueue_payload :
        SendBuilder → Bson → String → ℤ → Db → Result RequestError EnqueueOutcome × Db
    unfolding effective_reset_predicate upsert_task
    enqueue_payload s payload uuid now db =
        upsert_task payload (unwrap_or s.config.worker_switch_timeout s.worker_switch_timeout)
          s.idempotency_key (effective_reset_predicate s.reset_when s.config) s.trace_context uuid
          now db

    unfoldable pub enqueue_only :
        SendBuilder → String → ℤ → Db → Result RequestError EnqueueOutcome × Db
    unfolding enqueue_payload
    enqueue_only s uuid now db = elim s.payload_err [
      | some e ↦ (err e, db)
      | none ↦ elim s.payload [
        | none ↦ (err (payload_format "task_input"), db)
        | some payload ↦ enqueue_payload s payload uuid now db
      ]
    ]

    -- `Caller::dispatch`, on the same.
    unfoldable pub dispatch :
        Config Document
        → Option Bson
        → Option TraceContext
        → String
        → ℤ
        → Db
        → Result RequestError String × Db
    unfolding send enqueue_only
    dispatch config serialized captured uuid now db =
        let (result, db') = enqueue_only (send config serialized captured) uuid now db in
        (result >>= λ outcome. ok outcome.task_id, db')

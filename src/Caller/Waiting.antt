-- ===== src/Caller/Waiting.antt =====
-- src/caller.rs: a caller reads the outcome of a task, and waits for it.
use Prim.Native.String.{◌++◌ as ◌<>◌}
use getitdone.Prelude.{
  String, Bool, Option, none, some, List, [], ◌∷◌, ◌==◌, string_eq, or_else, if◌then◌else◌,
}
use getitdone.Prelude.Int.{ℤ}
use getitdone.Errors.{
  RequestError, timeout, payload_format, task_failed, database, Result, ok, err, ◌>>=◌, ok_or,
}
use getitdone.Config.{unwrap_or}
use getitdone.Bson.Crate.{BsonCrate}
use getitdone.Bson.Document.{doc, get_str}
use getitdone.Mongo.Server.{MongoServer}
use getitdone.Caller.{SendBuilder, enqueue_only}

module _ ⦃b : BsonCrate⦄ (m : MongoServer b) where
  open b use {Bson, Document, string, get}
  open m use {Db, DbError, error_text, find_one}

  module _ {TOutput : Type 0} (deserialize_from_bson : Bson → Option TOutput) where
    unfoldable pub evaluate_output :
        Document → Result RequestError (Option (Result RequestError TOutput))
    evaluate_output d =
        ok_or (payload_format "task_output") (get "task_output" d) >>= λ output_bson.
        ok_or (payload_format "task_output") (deserialize_from_bson output_bson) >>= λ value.
        ok (some (ok value))

    -- `none` while the task is not finished.
    unfoldable pub evaluate_status :
        String → Document → Result RequestError (Option (Result RequestError TOutput))
    unfolding evaluate_output
    evaluate_status status d =
        if status == "pending"
        then ok none
        else if status == "succeeded"
        then evaluate_output d
        else if status == "failed"
        then ok (some (err (task_failed (unwrap_or "worker failed" (get_str "error_reason" d)))))
        else ok none

    unfoldable pub evaluate_document :
        Document → Result RequestError (Option (Result RequestError TOutput))
    unfolding evaluate_status
    evaluate_document d =
        ok_or (payload_format "status") (get_str "status" d) >>= λ status. evaluate_status status d

    unfoldable pub inspect_task :
        String → Db → Result RequestError (Option (Result RequestError TOutput))
    unfolding evaluate_document
    inspect_task task_id db = elim (find_one (doc (("task_id", string task_id) ∷ [])) db) [
      | err e ↦ err (database (error_text e))
      | ok found ↦ elim found [
        | none ↦ ok (some (err (task_failed ("task " <> task_id <> " missing"))))
        | some d ↦ evaluate_document d
      ]
    ]

    -- The loop over the events of the change stream, each with the full document that it has.
    unfoldable pub watch_events :
        List (Result DbError (Option Document)) → Result RequestError TOutput
    watch_events [] = err (database "change stream closed")
    watch_events (err e ∷ events) = err (database (error_text e))
    watch_events (ok none ∷ events) = watch_events events
    watch_events (ok (some d) ∷ events) = elim (evaluate_document d) [
      | err e ↦ err e
      | ok outcome ↦ elim outcome [ none ↦ watch_events events | some r ↦ r ]
    ]

    unfoldable pub watch_for_result :
        Result DbError (List (Result DbError (Option Document))) → Result RequestError TOutput
    unfolding watch_events
    watch_for_result (err e) = err (database (error_text e))
    watch_for_result (ok events) = watch_events events

    -- The stream that is opened after the task is inspected is an argument.
    unfoldable pub wait_for_result :
        String
        → Db
        → Result DbError (List (Result DbError (Option Document)))
        → Result RequestError TOutput
    unfolding inspect_task watch_for_result
    wait_for_result task_id db stream = elim (inspect_task task_id db) [
      | err e ↦ err e
      | ok found ↦ elim found [ some outcome ↦ outcome | none ↦ watch_for_result stream ]
    ]

    -- `build_future`, polled to its end. `elapsed` says whether a given time runs out first, and
    -- `later` is the collection when the task is inspected.
    unfoldable pub respond :
        SendBuilder m
        → String
        → ℤ
        → Db
        → Bool
        → (Db → Db)
        → Result DbError (List (Result DbError (Option Document)))
        → Result RequestError TOutput × Db
    unfolding enqueue_only wait_for_result
    respond s uuid now db elapsed later stream =
        let (result, db') = enqueue_only m s uuid now db in
        (
          result >>= λ outcome. elim (or_else s.timeout s.config.request_timeout) [
            | none ↦ wait_for_result outcome.task_id (later db') stream
            | some time ↦
                if elapsed then err timeout else wait_for_result outcome.task_id (later db') stream
          ],
          db',
        )

-- ===== src/Worker/Lease.antt =====
-- src/worker.rs: the writes that a claim makes while it holds a task: `heartbeat`, the completion in
-- `process_task`, and `mark_task_failed`. `DateTime::now()` is an argument of each.
pub mod Fencing
pub mod Outcomes
use getitdone.Prelude.{
  ℕ, String, Bool, true, false, Option, none, some, List, [], ◌∷◌, ltb, if◌then◌else◌, nat_eq, ◌==◌,
}
use getitdone.Prelude.Int.{ℤ}
use getitdone.Errors.{RequestError, database, worker_gone, Result, ok, err}
use getitdone.Bson.Crate.{BsonCrate}
use getitdone.Bson.Document.{doc}
use getitdone.Mongo.Server.{MongoServer}
use getitdone.Mongo.Updates.{UpdateResult}

pub data HeartbeatOutcome : Type 0 where
  alive superseded transient_error : HeartbeatOutcome

unfoldable pub classify_heartbeat_result : Result RequestError Bool → HeartbeatOutcome
classify_heartbeat_result (ok true) = alive
classify_heartbeat_result (ok false) = superseded
classify_heartbeat_result (err e) = transient_error

module _ ⦃b : BsonCrate⦄ (m : MongoServer b) where
  open b use {Bson, Document, string, date_time, document}
  open m use {Db, DbError, error_text, update_one}

  -- The filter of all three writes: the task, running, under this worker and this claim.
  unfoldable pub claim_entries : String → String → String → List (String × Bson)
  claim_entries task_id worker_id claim_token =
      ("task_id", string task_id)
      ∷ ("status", string "running")
      ∷ ("worker_state.worker_id", string worker_id)
      ∷ ("worker_state.claim_token", string claim_token)
      ∷ []

  unfoldable pub claim_filter : String → String → String → Document
  unfolding claim_entries
  claim_filter task_id worker_id claim_token = doc (claim_entries task_id worker_id claim_token)

  unfoldable pub heartbeat_update : ℤ → Document
  heartbeat_update now =
      doc (("$set", document (doc (("worker_state.heartbeat_at", date_time now) ∷ []))) ∷ [])

  -- `map_err(|e| RequestError::Database(e.to_string()))` and `matched_count > 0`
  matched : Result DbError UpdateResult → Result RequestError Bool
  matched (ok result) = ok (ltb 0 result.matched_count)
  matched (err e) = err (database (error_text e))

  unfoldable pub heartbeat : String → String → String → ℤ → Db → Result RequestError Bool × Db
  unfolding heartbeat_update matched
  heartbeat task_id worker_id claim_token now db =
      let (result, db') =
        update_one (claim_filter task_id worker_id claim_token) (heartbeat_update now) db in
      (matched result, db')

  unfoldable pub failed_fields : String → ℤ → ℤ → List (String × Bson)
  failed_fields reason now finished_at =
      ("status", string "failed")
      ∷ ("error_reason", string reason)
      ∷ ("updated_at", date_time now)
      ∷ ("worker_state.finished_at", date_time finished_at)
      ∷ []

  unfoldable pub failed_update : String → ℤ → ℤ → Document
  unfolding failed_fields
  failed_update reason now finished_at =
      doc (("$set", document (doc (failed_fields reason now finished_at))) ∷ [])

  -- Every outcome of the write is only logged.
  unfoldable pub mark_task_failed : String → String → String → String → ℤ → ℤ → Db → Db
  unfolding failed_update
  mark_task_failed task_id worker_id claim_token reason now finished_at db =
      (update_one (claim_filter task_id worker_id claim_token)
        (failed_update reason now finished_at) db).1

  unfoldable pub succeeded_fields : Bson → ℤ → ℤ → List (String × Bson)
  succeeded_fields output now finished_at =
      ("status", string "succeeded")
      ∷ ("task_output", output)
      ∷ ("updated_at", date_time now)
      ∷ ("worker_state.finished_at", date_time finished_at)
      ∷ []

  unfoldable pub succeeded_update : Bson → ℤ → ℤ → Document
  unfolding succeeded_fields
  succeeded_update output now finished_at =
      doc (("$set", document (doc (succeeded_fields output now finished_at))) ∷ [])

  completed : Result DbError UpdateResult → Result RequestError (Unit {0})
  completed (ok result) = if result.matched_count == 0 then err worker_gone else ok tt
  completed (err e) = err (database (error_text e))

  -- The end of `process_task` for an output that was serialized.
  unfoldable pub complete :
      String → String → String → Bson → ℤ → ℤ → Db → Result RequestError (Unit {0}) × Db
  unfolding succeeded_update completed
  complete task_id worker_id claim_token output now finished_at db =
      let (result, db') =
        update_one (claim_filter task_id worker_id claim_token)
          (succeeded_update output now finished_at) db in
      (completed result, db')

-- ===== src/Expiry/Documents/Deadlines.antt =====
-- src/worker/expiry.rs: the deadlines that the tracker takes from a task document and from a
-- heartbeat's change event.
use getitdone.Prelude.{ℕ, ◌≡◌, ◌∙◌, Option, none, some, String, string_eq, or_else, arith}
use getitdone.Prelude.Int.{ℤ, saturating_add}
use getitdone.Prelude.Dict.{lookup}
use getitdone.Time.{clamped_millis}
use getitdone.Bson.Crate.{BsonCrate}
use getitdone.Bson.Document.{get_str, get_i64, get_datetime, get_object_id, get_document}
use getitdone.Expiry.{ExpiryTracker, task_id_of, upsert}
use getitdone.Expiry.Index.{lookup-upsert}
use getitdone.Expiry.Documents.{
  update, ChangeStreamEvent, heartbeat_from_task, task_switch_timeout, schedule_by_status,
  schedule_expiration_from_task, expiration_update_from_fields, refresh_deadline, apply_update,
  apply_updated_fields, event_id, apply_change_event_to_expirations,
}

module _ ⦃b : BsonCrate⦄ where
  open b use {Document, ObjectId, oid_eq}

  lookup-upsert_self :
      (id : ObjectId) (task_id : Option String) (at : ℤ) (timeout : ℕ) (t : ExpiryTracker ObjectId)
      → lookup ⦃e = oid_eq⦄ id (upsert ⦃e = oid_eq⦄ id task_id at timeout t).tasks
        ≡ some (record {
          task_id = or_else task_id (task_id_of (lookup ⦃e = oid_eq⦄ id t.tasks));
          expires_at_ms = some (saturating_add at (clamped_millis timeout));
        })
  lookup-upsert_self id task_id at timeout t =
      lookup-upsert ⦃e = oid_eq⦄ id id task_id at timeout t ∙ ground arith

  -- A running task's document.
  pub record IsRunningTask (id : ObjectId) (at : ℤ) (task : Document) : Type 0 where
    pub identified : get_object_id "_id" task ≡ some id
    pub running : get_str "status" task ≡ some "running"
    pub beating : heartbeat_from_task task ≡ some at

  -- The event of `heartbeat`, whose only updated field is the dotted heartbeat.
  pub record IsHeartbeat (id : ObjectId) (at : ℤ) (event : ChangeStreamEvent Document)
      : Type 0 where
    pub updating : event.operation_type ≡ update
    pub keyed : event_id event ≡ some id
    pub fields : Document
    pub described : event.updated_fields ≡ some fields
    pub status_kept : get_str "status" fields ≡ none
    pub not_whole : get_document "worker_state" fields ≡ none
    pub dotted : get_datetime "worker_state.heartbeat_at" fields ≡ some at
    pub timeout_kept : get_i64 "worker_state.switch_timeout_ms" fields ≡ none

  module _ (id : ObjectId) (at : ℤ) (timeout : ℕ) (t : ExpiryTracker ObjectId) where
    -- A running task is tracked up to its heartbeat plus its own timeout.
    pub schedule_running :
        (task : Document)
        → IsRunningTask id at task
        → lookup ⦃e = oid_eq⦄ id (schedule_expiration_from_task task timeout t).tasks
          ≡ some (record {
            task_id =
                or_else (get_str "task_id" task) (task_id_of (lookup ⦃e = oid_eq⦄ id t.tasks));
            expires_at_ms =
                some (saturating_add at (clamped_millis (task_switch_timeout task timeout)));
          })
    unfolding schedule_expiration_from_task schedule_by_status string_eq
    schedule_running task h =
        rw (h.identified, schedule_expiration_from_task, h.running, h.beating)
          (lookup-upsert_self id (get_str "task_id" task) at (task_switch_timeout task timeout) t)

    -- A heartbeat event tracks the task up to the heartbeat plus the observer's own timeout.
    pub apply_heartbeat :
        (event : ChangeStreamEvent Document)
        → IsHeartbeat id at event
        → lookup ⦃e = oid_eq⦄ id (apply_change_event_to_expirations event timeout t).0.tasks
          ≡ some (record {
            task_id = task_id_of (lookup ⦃e = oid_eq⦄ id t.tasks);
            expires_at_ms = some (saturating_add at (clamped_millis timeout));
          })
    unfolding apply_change_event_to_expirations apply_updated_fields apply_update
        expiration_update_from_fields refresh_deadline
    apply_heartbeat event h =
        rw
          (
            h.updating, apply_change_event_to_expirations, h.keyed, h.described,
            apply_updated_fields, h.status_kept, h.not_whole, expiration_update_from_fields,
            h.dotted, h.timeout_kept,
          )
          (lookup-upsert_self id none at timeout t)

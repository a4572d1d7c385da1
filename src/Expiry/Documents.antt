-- ===== src/Expiry/Documents.antt =====
-- src/worker/expiry.rs: the functions that read task documents and change events into the tracker.
pub mod Preservation
pub mod Deadlines
pub mod Others
pub mod Agreement
pub mod Hint
use getitdone.Prelude.{
  ℕ, String, Bool, false, Option, none, some, ◌==◌, string_eq, or_else, if◌then◌else◌, not,
}
use getitdone.Prelude.Int.{ℤ}
use getitdone.Time.{from_millis, u64_of}
use getitdone.Bson.Crate.{BsonCrate}
use getitdone.Bson.Document.{get_str, get_i64, get_datetime, get_object_id, get_document, ◌>>=◌}
use getitdone.Expiry.{ExpiryTracker, mark_pending, remove, upsert}

-- `mongodb::change_stream::event::OperationType` and the fields of `ChangeStreamEvent` that are read.
pub data OperationType : Type 0 where
  insert replace update delete other : OperationType

pub record ChangeStreamEvent (Document : Type 0) : Type 0 where
  pub operation_type : OperationType
  pub full_document : Option Document
  pub document_key : Option Document
  -- `update_description`, which holds the updated fields.
  pub updated_fields : Option Document

-- `.and_then(|millis| u64::try_from(millis).ok()).map(Duration::from_millis).unwrap_or(fallback)`
abbrev pub millis_or : ℕ → Option ℤ → ℕ
millis_or fallback none = fallback
millis_or fallback (some millis) = elim (u64_of millis) [ none ↦ fallback | some n ↦ from_millis n ]

module _ ⦃b : BsonCrate⦄ where
  open b use {Document, ObjectId, oid_eq}

  unfoldable pub heartbeat_from_task : Document → Option ℤ
  heartbeat_from_task task = get_document "worker_state" task >>= get_datetime "heartbeat_at"

  unfoldable pub task_switch_timeout : Document → ℕ → ℕ
  task_switch_timeout d fallback = millis_or fallback (
      or_else (get_i64 "worker_switch_timeout" d)
        (get_document "worker_state" d >>= get_i64 "switch_timeout_ms"))

  unfoldable pub schedule_by_status :
      Option String → ObjectId → Document → ℕ → ExpiryTracker ObjectId → ExpiryTracker ObjectId
  schedule_by_status none id task timeout t = remove ⦃e = oid_eq⦄ id t
  schedule_by_status (some status) id task timeout t =
      if status == "running"
      then elim (heartbeat_from_task task) [
        | none ↦ t
        | some heartbeat_at ↦
            upsert ⦃e = oid_eq⦄ id (get_str "task_id" task) heartbeat_at
              (task_switch_timeout task timeout) t
      ]
      else if status == "pending"
      then mark_pending t
      else remove ⦃e = oid_eq⦄ id t

  unfoldable pub schedule_expiration_from_task :
      Document → ℕ → ExpiryTracker ObjectId → ExpiryTracker ObjectId
  unfolding schedule_by_status
  schedule_expiration_from_task task timeout t = elim (get_object_id "_id" task) [
    | none ↦ t
    | some id ↦ schedule_by_status (get_str "status" task) id task timeout t
  ]

  unfoldable pub expiration_update_from_fields : Document → ℕ → Option (ℤ × ℕ)
  expiration_update_from_fields updated_fields fallback_timeout =
      elim (get_document "worker_state" updated_fields) [
        | some worker_state ↦ get_datetime "heartbeat_at" worker_state >>= λ heartbeat_at.
            some
              (heartbeat_at, millis_or fallback_timeout (get_i64 "switch_timeout_ms" worker_state))
        | none ↦ get_datetime "worker_state.heartbeat_at" updated_fields >>= λ heartbeat_at. some (
          heartbeat_at,
          millis_or fallback_timeout (get_i64 "worker_state.switch_timeout_ms" updated_fields),
        )
      ]

  unfoldable pub is_pending : Option String → Bool
  is_pending none = false
  is_pending (some status) = status == "pending"

  unfoldable pub refresh_deadline :
      ObjectId → Option (ℤ × ℕ) → ExpiryTracker ObjectId → ExpiryTracker ObjectId
  refresh_deadline id none t = t
  refresh_deadline id (some (heartbeat_at, timeout)) t =
      upsert ⦃e = oid_eq⦄ id none heartbeat_at timeout t

  -- The inner `match` of the update arm.
  unfoldable pub apply_update :
      Option String → ObjectId → Document → ℕ → ExpiryTracker ObjectId → ExpiryTracker ObjectId
  apply_update none id fields timeout t =
      refresh_deadline id (expiration_update_from_fields fields timeout) t
  apply_update (some status) id fields timeout t =
      if status == "pending"
      then mark_pending t
      else if not (status == "running")
      then remove ⦃e = oid_eq⦄ id t
      else refresh_deadline id (expiration_update_from_fields fields timeout) t

  unfoldable pub event_id : ChangeStreamEvent Document → Option ObjectId
  event_id event = event.document_key >>= get_object_id "_id"

  unfoldable pub apply_task :
      Option Document → ℕ → ExpiryTracker ObjectId → ExpiryTracker ObjectId × Bool
  apply_task none timeout t = (t, false)
  apply_task (some task) timeout t =
      (schedule_expiration_from_task task timeout t, is_pending (get_str "status" task))

  unfoldable pub apply_updated_fields :
      Option Document → Option ObjectId → ℕ → ExpiryTracker ObjectId → ExpiryTracker ObjectId × Bool
  apply_updated_fields none id timeout t = (t, false)
  apply_updated_fields (some fields) none timeout t = (t, is_pending (get_str "status" fields))
  apply_updated_fields (some fields) (some id) timeout t = (
    apply_update (get_str "status" fields) id fields timeout t,
    is_pending (get_str "status" fields),
  )

  unfoldable pub apply_delete :
      Option ObjectId → ExpiryTracker ObjectId → ExpiryTracker ObjectId × Bool
  apply_delete none t = (t, false)
  apply_delete (some id) t = (remove ⦃e = oid_eq⦄ id t, false)

  -- The tracker after the event, and whether pending work has become ready.
  unfoldable pub apply_change_event_to_expirations :
      ChangeStreamEvent Document → ℕ → ExpiryTracker ObjectId → ExpiryTracker ObjectId × Bool
  apply_change_event_to_expirations event timeout t = elim event.operation_type [
    | insert ↦ apply_task event.full_document timeout t
    | replace ↦ apply_task event.full_document timeout t
    | update ↦ apply_updated_fields event.updated_fields (event_id event) timeout t
    | delete ↦ apply_delete (event_id event) t
    | other ↦ (t, false)
  ]

-- ===== src/Expiry/Documents/Preservation.antt =====
-- src/worker/expiry.rs: the ways in which documents reach the tracker, and its two maps.
use getitdone.Prelude.{
  ℕ, ◌≡◌, refl, Option, none, some, ◌==◌, string_eq, String, Option-cases, inl, inr, not, if_both,
}
use getitdone.Prelude.Int.{ℤ}
use getitdone.Bson.Crate.{BsonCrate}
use getitdone.Bson.Document.{get_str, get_object_id}
use getitdone.Expiry.{ExpiryTracker, mark_pending, upsert}
use getitdone.Expiry.Index.{IsIndexed, remove-IsIndexed, upsert-IsIndexed}
use getitdone.Expiry.Documents.{
  OperationType, insert, replace, update, delete, other, ChangeStreamEvent, heartbeat_from_task,
  schedule_by_status, schedule_expiration_from_task, refresh_deadline, apply_update, apply_task,
  apply_updated_fields, apply_delete, event_id, apply_change_event_to_expirations,
}

module _ ⦃b : BsonCrate⦄ where
  open b use {Document, ObjectId, oid_eq}

  abbrev Indexed : ExpiryTracker ObjectId → Type 0
  Indexed t = IsIndexed ⦃e = oid_eq⦄ t

  pub mark_pending-IsIndexed : (t : ExpiryTracker ObjectId) → Indexed t → Indexed (mark_pending t)
  unfolding mark_pending
  mark_pending-IsIndexed t v = record { agree = v.agree; sorted = v.sorted; nonempty = v.nonempty }

  upsert_if-IsIndexed :
      (id : ObjectId) (task_id : Option String) (o : Option ℤ) (timeout : ℕ)
      (t : ExpiryTracker ObjectId)
      → Indexed t
      → Indexed (elim o [ none ↦ t | some at ↦ upsert ⦃e = oid_eq⦄ id task_id at timeout t ])
  upsert_if-IsIndexed id task_id none timeout t v = v
  upsert_if-IsIndexed id task_id (some at) timeout t v =
      upsert-IsIndexed ⦃e = oid_eq⦄ id task_id at timeout t v

  schedule_by_status-IsIndexed :
      (status : Option String) (id : ObjectId) (task : Document) (timeout : ℕ)
      (t : ExpiryTracker ObjectId)
      → Indexed t
      → Indexed (schedule_by_status status id task timeout t)
  unfolding schedule_by_status
  schedule_by_status-IsIndexed none id task timeout t v = remove-IsIndexed ⦃e = oid_eq⦄ id t v
  schedule_by_status-IsIndexed (some status) id task timeout t v =
      if_both Indexed (status == "running")
        (upsert_if-IsIndexed id _ (heartbeat_from_task task) _ t v)
        (if_both Indexed (status == "pending") (mark_pending-IsIndexed t v)
          (remove-IsIndexed ⦃e = oid_eq⦄ id t v))

  pub schedule_expiration_from_task-IsIndexed :
      (task : Document) (timeout : ℕ) (t : ExpiryTracker ObjectId)
      → Indexed t
      → Indexed (schedule_expiration_from_task task timeout t)
  unfolding schedule_expiration_from_task
  schedule_expiration_from_task-IsIndexed task timeout t v =
      elim (Option-cases (get_object_id "_id" task)) [
        | inl h ↦ rw (h, schedule_expiration_from_task) v
        | inr (id, h) ↦
            rw (h, schedule_expiration_from_task)
              (schedule_by_status-IsIndexed (get_str "status" task) id task timeout t v)
      ]

  refresh_deadline-IsIndexed :
      (id : ObjectId) (o : Option (ℤ × ℕ)) (t : ExpiryTracker ObjectId)
      → Indexed t
      → Indexed (refresh_deadline id o t)
  unfolding refresh_deadline
  refresh_deadline-IsIndexed id none t v = v
  refresh_deadline-IsIndexed id (some (at, timeout)) t v =
      upsert-IsIndexed ⦃e = oid_eq⦄ id none at timeout t v

  apply_update-IsIndexed :
      (status : Option String) (id : ObjectId) (fields : Document) (timeout : ℕ)
      (t : ExpiryTracker ObjectId)
      → Indexed t
      → Indexed (apply_update status id fields timeout t)
  unfolding apply_update
  apply_update-IsIndexed none id fields timeout t v = refresh_deadline-IsIndexed id _ t v
  apply_update-IsIndexed (some status) id fields timeout t v =
      if_both Indexed (status == "pending") (mark_pending-IsIndexed t v) (
        if_both Indexed (not (status == "running")) (remove-IsIndexed ⦃e = oid_eq⦄ id t v)
          (refresh_deadline-IsIndexed id _ t v))

  apply_task-IsIndexed :
      (task : Option Document) (timeout : ℕ) (t : ExpiryTracker ObjectId)
      → Indexed t
      → Indexed (apply_task task timeout t).0
  unfolding apply_task
  apply_task-IsIndexed none timeout t v = v
  apply_task-IsIndexed (some task) timeout t v =
      schedule_expiration_from_task-IsIndexed task timeout t v

  apply_updated_fields-IsIndexed :
      (fields : Option Document) (id : Option ObjectId) (timeout : ℕ) (t : ExpiryTracker ObjectId)
      → Indexed t
      → Indexed (apply_updated_fields fields id timeout t).0
  unfolding apply_updated_fields
  apply_updated_fields-IsIndexed none id timeout t v = v
  apply_updated_fields-IsIndexed (some fields) none timeout t v = v
  apply_updated_fields-IsIndexed (some fields) (some id) timeout t v =
      apply_update-IsIndexed (get_str "status" fields) id fields timeout t v

  apply_delete-IsIndexed :
      (id : Option ObjectId) (t : ExpiryTracker ObjectId)
      → Indexed t
      → Indexed (apply_delete id t).0
  unfolding apply_delete
  apply_delete-IsIndexed none t v = v
  apply_delete-IsIndexed (some id) t v = remove-IsIndexed ⦃e = oid_eq⦄ id t v

  apply_operation-IsIndexed :
      (o : OperationType) (event : ChangeStreamEvent Document) (timeout : ℕ)
      (t : ExpiryTracker ObjectId)
      → event.operation_type ≡ o
      → Indexed t
      → Indexed (apply_change_event_to_expirations event timeout t).0
  unfolding apply_change_event_to_expirations
  apply_operation-IsIndexed insert event timeout t p v =
      rw (p, apply_change_event_to_expirations)
        (apply_task-IsIndexed event.full_document timeout t v)
  apply_operation-IsIndexed replace event timeout t p v =
      rw (p, apply_change_event_to_expirations)
        (apply_task-IsIndexed event.full_document timeout t v)
  apply_operation-IsIndexed update event timeout t p v =
      rw (p, apply_change_event_to_expirations)
        (apply_updated_fields-IsIndexed event.updated_fields (event_id event) timeout t v)
  apply_operation-IsIndexed delete event timeout t p v =
      rw (p, apply_change_event_to_expirations) (apply_delete-IsIndexed (event_id event) t v)
  apply_operation-IsIndexed other event timeout t p v = rw (p, apply_change_event_to_expirations) v

  -- Every change event keeps the two maps in step.
  pub apply_change_event_to_expirations-IsIndexed :
      (event : ChangeStreamEvent Document) (timeout : ℕ) (t : ExpiryTracker ObjectId)
      → Indexed t
      → Indexed (apply_change_event_to_expirations event timeout t).0
  apply_change_event_to_expirations-IsIndexed event timeout t v =
      apply_operation-IsIndexed event.operation_type event timeout t refl v

-- ===== src/Expiry/Documents/Hint.antt =====
-- src/worker/expiry.rs: reading a task never takes back the hint that pending work may exist.
use getitdone.Prelude.{
  ℕ, ◌≡◌, refl, String, true, Option, none, some, ◌==◌, nat_eq, string_eq, inl, inr, Option-cases,
  if_both,
}
use getitdone.Prelude.Int.{ℤ}
use getitdone.Prelude.Dict.{lookup}
use getitdone.Bson.Crate.{BsonCrate}
use getitdone.Bson.Document.{get_str, get_object_id}
use getitdone.Expiry.{ExpiryTracker, remove, upsert, mark_pending}
use getitdone.Expiry.Documents.{
  schedule_by_status, schedule_expiration_from_task, heartbeat_from_task,
}

module _ ⦃b : BsonCrate⦄ where
  open b use {Document, ObjectId, oid_eq}

  abbrev pub IsHinted : ExpiryTracker ObjectId → Type 0
  IsHinted t = t.pending_may_exist ≡ true

  remove-IsHinted :
      (id : ObjectId) (t : ExpiryTracker ObjectId)
      → IsHinted t
      → IsHinted (remove ⦃e = oid_eq⦄ id t)
  unfolding remove
  remove-IsHinted id t h = elim (Option-cases (lookup ⦃e = oid_eq⦄ id t.tasks)) [
    | inl n ↦ rw (n, remove) h
    | inr (existing, n) ↦ elim (Option-cases existing.expires_at_ms) [
      | inl x ↦ rw (n, remove, x) h
      | inr (deadline, x) ↦ rw (n, remove, x) h
    ]
  ]

  upsert_if-IsHinted :
      (id : ObjectId) (task_id : Option String) (o : Option ℤ) (timeout : ℕ)
      (t : ExpiryTracker ObjectId)
      → IsHinted t
      → IsHinted (elim o [ none ↦ t | some at ↦ upsert ⦃e = oid_eq⦄ id task_id at timeout t ])
  unfolding upsert
  upsert_if-IsHinted id task_id none timeout t h = h
  upsert_if-IsHinted id task_id (some at) timeout t h = remove-IsHinted id t h

  schedule_by_status-IsHinted :
      (status : Option String) (id : ObjectId) (task : Document) (timeout : ℕ)
      (t : ExpiryTracker ObjectId)
      → IsHinted t
      → IsHinted (schedule_by_status status id task timeout t)
  unfolding schedule_by_status mark_pending
  schedule_by_status-IsHinted none id task timeout t h = remove-IsHinted id t h
  schedule_by_status-IsHinted (some status) id task timeout t h =
      if_both IsHinted (status == "running")
        (upsert_if-IsHinted id (get_str "task_id" task) (heartbeat_from_task task) _ t h)
        (if_both IsHinted (status == "pending") refl (remove-IsHinted id t h))

  pub schedule-IsHinted :
      (task : Document) (timeout : ℕ) (t : ExpiryTracker ObjectId)
      → IsHinted t
      → IsHinted (schedule_expiration_from_task task timeout t)
  unfolding schedule_expiration_from_task
  schedule-IsHinted task timeout t h = elim (Option-cases (get_object_id "_id" task)) [
    | inl n ↦ rw (n, schedule_expiration_from_task) h
    | inr (id, n) ↦
        rw (n, schedule_expiration_from_task)
          (schedule_by_status-IsHinted (get_str "status" task) id task timeout t h)
  ]

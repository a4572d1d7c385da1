-- ===== src/Expiry/Documents/Others.antt =====
-- src/worker/expiry.rs: reading a task document, and the other tasks of the tracker.
use getitdone.Prelude.{
  ℕ, ◌≡◌, ◌≢◌, Option, none, some, String, ◌==◌, string_eq, arith, Option-cases, inl, inr, if_both,
}
use getitdone.Prelude.Int.{ℤ}
use getitdone.Prelude.Dict.{lookup}
use getitdone.Bson.Crate.{BsonCrate}
use getitdone.Bson.Document.{get_str, get_object_id}
use getitdone.Expiry.{ExpiryTracker, mark_pending, upsert, remove}
use getitdone.Expiry.Index.{lookup-upsert, lookup-remove_task}
use getitdone.Expiry.Documents.{
  heartbeat_from_task, schedule_by_status, schedule_expiration_from_task,
}

module _ ⦃b : BsonCrate⦄ (k : b.ObjectId) where
  open b use {Document, ObjectId, oid_eq}

  abbrev pub Untracked : ExpiryTracker ObjectId → Type 0
  Untracked t = lookup ⦃e = oid_eq⦄ k t.tasks ≡ none

  remove-Untracked :
      (id : ObjectId) (t : ExpiryTracker ObjectId)
      → Untracked t
      → Untracked (remove ⦃e = oid_eq⦄ id t)
  remove-Untracked id t h = ground (arith, lookup-remove_task ⦃e = oid_eq⦄ k id t)

  upsert_if-Untracked :
      (id : ObjectId) (task_id : Option String) (o : Option ℤ) (timeout : ℕ)
      (t : ExpiryTracker ObjectId)
      → id ≢ k
      → Untracked t
      → Untracked (elim o [ none ↦ t | some at ↦ upsert ⦃e = oid_eq⦄ id task_id at timeout t ])
  upsert_if-Untracked id task_id none timeout t n h = h
  upsert_if-Untracked id task_id (some at) timeout t n h =
      ground (arith, lookup-upsert ⦃e = oid_eq⦄ k id task_id at timeout t)

  mark_pending-Untracked : (t : ExpiryTracker ObjectId) → Untracked t → Untracked (mark_pending t)
  unfolding mark_pending
  mark_pending-Untracked t h = h

  schedule_by_status-Untracked :
      (status : Option String) (id : ObjectId) (task : Document) (timeout : ℕ)
      (t : ExpiryTracker ObjectId)
      → id ≢ k
      → Untracked t
      → Untracked (schedule_by_status status id task timeout t)
  unfolding schedule_by_status
  schedule_by_status-Untracked none id task timeout t n h = remove-Untracked id t h
  schedule_by_status-Untracked (some status) id task timeout t n h =
      if_both Untracked (status == "running")
        (upsert_if-Untracked id _ (heartbeat_from_task task) _ t n h)
        (if_both Untracked (status == "pending") (mark_pending-Untracked t h)
          (remove-Untracked id t h))

  pub schedule_expiration_from_task-Untracked :
      (task : Document) (timeout : ℕ) (t : ExpiryTracker ObjectId)
      → ((id : ObjectId) → get_object_id "_id" task ≡ some id → id ≢ k)
      → Untracked t
      → Untracked (schedule_expiration_from_task task timeout t)
  unfolding schedule_expiration_from_task
  schedule_expiration_from_task-Untracked task timeout t n h =
      elim (Option-cases (get_object_id "_id" task)) [
        | inl g ↦ rw (g, schedule_expiration_from_task) h
        | inr (id, g) ↦
            rw (g, schedule_expiration_from_task)
              (schedule_by_status-Untracked (get_str "status" task) id task timeout t (n id g) h)
      ]

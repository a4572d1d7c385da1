-- ===== src/Expiry/Refresh.antt =====
-- src/worker/expiry.rs: the two scans that rebuild the tracker from the collection. The scan of running
-- tasks ends at the first error of its cursor.
use getitdone.Prelude.{
  ℕ, suc, ◌≡◌, ◌∙◌, refl, ap, String, Bool, true, false, Option, none, some, List, [], ◌∷◌,
  string_eq, get_elem?, ◌==◌, Option-cases, Bool-cases, inl, inr, arith,
}
use getitdone.Prelude.Dict.{lookup}
use getitdone.Errors.{Result, ok, err, Result-cases}
use getitdone.Bson.Crate.{BsonCrate}
use getitdone.Bson.Document.{doc, get_object_id}
use getitdone.Mongo.Server.{MongoServer}
use getitdone.Expiry.{ExpiryTracker, clear_running, set_pending_may_exist}
use getitdone.Expiry.Index.{IsIndexed, clear_running-IsIndexed}
use getitdone.Expiry.Documents.{schedule_expiration_from_task}
use getitdone.Expiry.Documents.Preservation.{schedule_expiration_from_task-IsIndexed}
use getitdone.Expiry.Documents.Others.{schedule_expiration_from_task-Untracked}

abbrev pub is_some {ℓ} : {A : Type ℓ} → Option A → Bool
is_some none = false
is_some (some a) = true

module _ ⦃b : BsonCrate⦄ (m : MongoServer b) where
  open b use {Document, ObjectId, oid_eq, string}
  open m use {Db, DbError, find, find_one}

  unfoldable pub scan :
      List (Result DbError Document) → ℕ → ExpiryTracker ObjectId → ExpiryTracker ObjectId
  scan [] timeout t = t
  scan (err e ∷ results) timeout t = t
  scan (ok task ∷ results) timeout t =
      scan results timeout (schedule_expiration_from_task task timeout t)

  abbrev pub with_status : String → Document
  with_status status = doc (("status", string status) ∷ [])

  unfoldable pub refresh_running_expirations :
      ℕ → Db → ExpiryTracker ObjectId → ExpiryTracker ObjectId
  unfolding scan
  refresh_running_expirations timeout db t = elim (find (with_status "running") db) [
    | err e ↦ t
    | ok cursor ↦ scan cursor timeout (clear_running t)
  ]

  unfoldable pub refresh_pending_tasks : Db → ExpiryTracker ObjectId → ExpiryTracker ObjectId
  refresh_pending_tasks db t = elim (find_one (with_status "pending") db) [
    | err e ↦ t
    | ok pending ↦ set_pending_may_exist (is_some pending) t
  ]

  abbrev Indexed : ExpiryTracker ObjectId → Type 0
  Indexed t = IsIndexed ⦃e = oid_eq⦄ t

  scan-IsIndexed :
      (results : List (Result DbError Document)) (timeout : ℕ) (t : ExpiryTracker ObjectId)
      → Indexed t
      → Indexed (scan results timeout t)
  unfolding scan
  scan-IsIndexed [] timeout t v = v
  scan-IsIndexed (err e ∷ results) timeout t v = v
  scan-IsIndexed (ok task ∷ results) timeout t v =
      scan-IsIndexed results timeout _ (schedule_expiration_from_task-IsIndexed task timeout t v)

  -- The scan of running tasks keeps the maps of the tracker in step, also where it fails half way.
  pub refresh_running_expirations-IsIndexed :
      (timeout : ℕ) (db : Db) (t : ExpiryTracker ObjectId)
      → Indexed t
      → Indexed (refresh_running_expirations timeout db t)
  unfolding refresh_running_expirations
  refresh_running_expirations-IsIndexed timeout db t v =
      elim (Result-cases (find (with_status "running") db)) [
        | inr (e, h) ↦ rw (h, refresh_running_expirations) v
        | inl (cursor, h) ↦
            rw (h, refresh_running_expirations)
              (scan-IsIndexed cursor timeout _ (clear_running-IsIndexed ⦃e = oid_eq⦄ t))
      ]

  pub refresh_pending_tasks-IsIndexed :
      (db : Db) (t : ExpiryTracker ObjectId) → Indexed t → Indexed (refresh_pending_tasks db t)
  unfolding refresh_pending_tasks set_pending_may_exist
  refresh_pending_tasks-IsIndexed db t v =
      elim (Result-cases (find_one (with_status "pending") db)) [
        | inr (e, h) ↦ rw (h, refresh_pending_tasks) v
        | inl (pending, h) ↦
            rw (h, refresh_pending_tasks)
              (record { agree = v.agree; sorted = v.sorted; nonempty = v.nonempty })
      ]

  -- The scan has read a document with this id.
  abbrev Scanned : ObjectId → List (Result DbError Document) → Type 0
  Scanned id results =
      (i : ℕ) × (task : Document) × (get_elem? results i ≡ some (ok task))
      × (get_object_id "_id" task ≡ some id)

  scan-Scanned :
      (id : ObjectId) (results : List (Result DbError Document)) (timeout : ℕ)
      (t : ExpiryTracker ObjectId)
      → lookup ⦃e = oid_eq⦄ id t.tasks ≡ none
      → is_some (lookup ⦃e = oid_eq⦄ id (scan results timeout t).tasks) ≡ true
      → Scanned id results
  unfolding scan
  scan-Scanned id [] timeout t n h = absurd (ground arith)
  scan-Scanned id (err e ∷ results) timeout t n h = absurd (ground arith)
  scan-Scanned id (ok task ∷ results) timeout t n h =
      elim (Option-cases
        (lookup ⦃e = oid_eq⦄ id (schedule_expiration_from_task task timeout t).tasks)) [
          | inl g ↦
              let (i, found, p, q) = scan-Scanned id results timeout _ g h in (suc i, found, p, q)
          | inr (x, g) ↦ elim (Option-cases (get_object_id "_id" task)) [
            | inl k ↦ absurd (
                cc (
                  schedule_expiration_from_task-Untracked id task timeout t (λ j e. absurd (cc)) n))
            | inr (j, k) ↦ elim (Bool-cases (◌==◌ ⦃e = oid_eq⦄ j id)) [
              | inl same ↦ (0, task, refl, k ∙ ap some (ground arith))
              | inr other ↦ absurd (
                  cc (
                    schedule_expiration_from_task-Untracked id task timeout t
                      (λ i e. ground (arith, k)) n))
            ]
          ]
        ]

  -- After a scan that the server has begun to answer, only tasks are tracked that the scan has read:
  -- what was tracked before is forgotten.
  pub refresh_running_expirations-Scanned :
      (timeout : ℕ) (db : Db) (t : ExpiryTracker ObjectId) (cursor : List (Result DbError Document))
      (id : ObjectId)
      → find (with_status "running") db ≡ ok cursor
      → is_some (lookup ⦃e = oid_eq⦄ id (refresh_running_expirations timeout db t).tasks) ≡ true
      → Scanned id cursor
  unfolding refresh_running_expirations clear_running lookup
  refresh_running_expirations-Scanned timeout db t cursor id f h =
      scan-Scanned id cursor timeout (clear_running t) refl
        (rw (f, refresh_running_expirations) at h)

-- ===== src/Expiry/Documents/Agreement.antt =====
-- src/worker/expiry.rs and src/worker.rs: the deadline in the tracker, and the one of the stale filter.
use getitdone.Prelude.{ℕ, ◌≡◌, ◌≤◌, ◌∙◌, ap, String, Option, none, some, string_eq, arith, or_else}
use getitdone.Prelude.Int.{ℤ, pos, ◌+ℤ◌, IsI64, leb_ℤ, saturating_add}
use getitdone.Time.{as_millis, wrapped_millis, clamped_millis, from_millis}
use getitdone.Bson.Crate.{BsonCrate}
use getitdone.Bson.Document.{get_i64, get_str, get_object_id}
use getitdone.Mongo.Server.{MongoServer}
use getitdone.Expiry.Documents.{
  millis_or, task_switch_timeout, heartbeat_from_task, schedule_expiration_from_task,
}
use getitdone.Expiry.Documents.Deadlines.{schedule_running}
use getitdone.Expiry.Due.{is_due}
use getitdone.Expiry.{ExpiryTracker}
use getitdone.Prelude.Dict.{lookup}
use getitdone.Config.{unwrap_or}
use getitdone.Worker.Claim.{stale_expr}
use getitdone.Worker.Claim.Staleness.{IsLeased, IsMillis, lease_millis, holds-stale_expr}

saturating_add-exact : (a b : ℤ) → IsI64 (a +ℤ b) → saturating_add a b ≡ a +ℤ b
unfolding saturating_add ◌+ℤ◌
saturating_add-exact a b r = ground (arith, r.above, r.below)

clamped_millis-from_millis :
    (n : ℕ) → n ≤ 9_223_372_036_854_775_807 → clamped_millis (from_millis n) ≡ pos n
clamped_millis-from_millis n h = ground arith

clamped_millis-wrapped :
    (d n : ℕ)
    → as_millis d ≤ 9_223_372_036_854_775_807
    → wrapped_millis d ≡ pos n
    → clamped_millis d ≡ pos n
clamped_millis-wrapped d n h e = ground arith

module _ ⦃b : BsonCrate⦄ (m : MongoServer b) where
  open b use {Document, ObjectId, oid_eq}

  get_i64-IsMillis : (k : String) (d : Document) (o : Option ℤ) → IsMillis m k d o → get_i64 k d ≡ o
  get_i64-IsMillis k d none h = rw h
  get_i64-IsMillis k d (some n) h = rw h (b.as_i64-int64 n)

  task_switch_timeout-IsLeased :
      (d : Document) (heartbeat_at : ℤ) (own given : Option ℤ) (fallback : ℕ)
      → IsLeased m heartbeat_at own given d
      → task_switch_timeout d fallback ≡ millis_or fallback (or_else own given)
  unfolding task_switch_timeout
  task_switch_timeout-IsLeased d heartbeat_at own given fallback v = rw (
    get_i64-IsMillis "worker_switch_timeout" d own v.timed,
    v.stated,
    b.as_document-document v.state,
    get_i64-IsMillis "switch_timeout_ms" v.state given v.claimed,
  )

  heartbeat_from_task-IsLeased :
      (d : Document) (heartbeat_at : ℤ) (own given : Option ℤ)
      → IsLeased m heartbeat_at own given d
      → heartbeat_from_task d ≡ some heartbeat_at
  unfolding heartbeat_from_task
  heartbeat_from_task-IsLeased d heartbeat_at own given v =
      rw
        (v.stated, b.as_document-document v.state, v.beating, b.as_date_time-date_time heartbeat_at)

  clamped_millis-millis_or :
      (o : Option ℤ) (fallback n : ℕ)
      → unwrap_or (wrapped_millis fallback) o ≡ pos n
      → n ≤ 9_223_372_036_854_775_807
      → as_millis fallback ≤ 9_223_372_036_854_775_807
      → clamped_millis (millis_or fallback o) ≡ pos n
  clamped_millis-millis_or none fallback n e h f = clamped_millis-wrapped fallback n f e
  clamped_millis-millis_or (some v) fallback n e h f = rw e (clamped_millis-from_millis n h)

  -- For a running task whose lease is a whole number of milliseconds in range, the tracker counts it as
  -- due exactly when the condition of the stale filter holds of its document.
  pub is_due-stale_expr :
      (id : ObjectId) (now : ℤ) (fallback n : ℕ) (t : ExpiryTracker ObjectId) (d : Document)
      (heartbeat_at : ℤ) (own given : Option ℤ)
      → get_object_id "_id" d ≡ some id
      → get_str "status" d ≡ some "running"
      → IsLeased m heartbeat_at own given d
      → lease_millis m own given fallback ≡ pos n
      → n ≤ 9_223_372_036_854_775_807
      → as_millis fallback ≤ 9_223_372_036_854_775_807
      → IsI64 (heartbeat_at +ℤ pos n)
      → is_due now (lookup ⦃e = oid_eq⦄ id (schedule_expiration_from_task d fallback t).tasks)
        ≡ m.holds "$expr" (stale_expr m now fallback) d
  is_due-stale_expr id now fallback n t d heartbeat_at own given i s v e h f r =
      let deadline : saturating_add heartbeat_at (clamped_millis (task_switch_timeout d fallback))
          ≡ heartbeat_at +ℤ pos n =
        rw
          (
            task_switch_timeout-IsLeased d heartbeat_at own given fallback v,
            clamped_millis-millis_or (or_else own given) fallback n e h f,
          )
          (saturating_add-exact heartbeat_at (pos n) r) in
      let filter : m.holds "$expr" (stale_expr m now fallback) d
          ≡ leb_ℤ (heartbeat_at +ℤ pos n) now =
        holds-stale_expr m heartbeat_at now fallback d own given v (rw e r)
        ∙ ap (λ x. leb_ℤ (heartbeat_at +ℤ x) now) e in
      rw (
        schedule_running id heartbeat_at fallback t d (record {
          identified = i;
          running = s;
          beating = heartbeat_from_task-IsLeased d heartbeat_at own given v;
        }),
        deadline,
        filter,
      )

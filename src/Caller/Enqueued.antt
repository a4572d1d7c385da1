-- ===== src/Caller/Enqueued.antt =====
-- src/caller.rs: what an enqueue leaves in the collection, by its result.
use getitdone.Prelude.{
  ℕ, ◌≡◌, ◌≢◌, inl, inr, refl, String, Bool, true, some, List, [], ◌∷◌, ◌++◌, string_eq, nat_eq,
  Option, Option-cases, arith,
}
use getitdone.Prelude.Int.{ℤ}
use getitdone.Errors.{RequestError, duplicate, Result-cases, ok, err}
use getitdone.Config.{unwrap_or}
use getitdone.Bson.Crate.{BsonCrate}
use getitdone.Mongo.Server.{MongoServer, IsCreated}
use getitdone.Mongo.Updates.{Updated, missed, hit, Upserted, updated, created, UpdateResult}
use getitdone.Mongo.Atomic.{Replaced}
use getitdone.Caller.{
  EnqueueAction, EnqueueOutcome, inserted, reset, upsert_filter, upsert_update, upsert_task,
  enqueue_outcome, SendBuilder, effective_reset_predicate, enqueue_payload, enqueue_only,
}
use getitdone.Trace.{TraceContext}
use getitdone.Caller.Queued.{
  IsQueued, IsCleared, created-IsQueued, applied-IsQueued, applied-IsCleared,
}
use getitdone.Caller.Resets.{IsFinished, IsFinished-of_upsert_filter}

module _ ⦃b : BsonCrate⦄ (m : MongoServer b) where
  open b use {Bson, Document, string, get, document, date_time}
  open m use {Db, DbError, contents, matches, applied, upsert_one, is_duplicate_key}

  not_ok :
      (task_id : String) (e : DbError) (o : EnqueueOutcome)
      → enqueue_outcome m task_id (err e) ≢ ok o
  unfolding enqueue_outcome
  not_ok task_id e o h = ground arith

  duplicate_of_err :
      (task_id k : String) (e : DbError)
      → enqueue_outcome m task_id (err e) ≡ err (duplicate k)
      → is_duplicate_key e ≡ true
  unfolding enqueue_outcome
  duplicate_of_err task_id k e h = ground arith

  not_err :
      (selects : Document → Bool) (change : Document → Document) (creates : Document → Type 0)
      (task_id : String) (before after : List Document) (r : UpdateResult) (e : RequestError)
      → Upserted selects change creates before after r.upserted r.matched_count
      → enqueue_outcome m task_id (ok r) ≢ err e
  unfolding enqueue_outcome
  not_err selects change creates task_id before after r e (updated d w i q) h = ground arith
  not_err selects change creates task_id before after r e (created d u a c i q) h = ground arith

  abbrev pub MayReset : Document → Type 0
  MayReset d = (t : String) → get "status" d ≡ some (string t) → IsFinished t

  abbrev pub Enqueued :
      String → Bson → Option TraceContext → List Document → List Document → EnqueueAction → Type 0
  Enqueued task_id payload trace before after inserted =
      (d : Document) × (after ≡ before ++ d ∷ []) × IsQueued m task_id payload trace d
  Enqueued task_id payload trace before after reset =
      Replaced MayReset (λ d. IsQueued m task_id payload trace d × IsCleared m d) before after

  module _ (task_id : String) (payload : Bson) (timeout : ℕ) (trace : Option TraceContext)
      (now : ℤ) where
    Updated-Enqueued :
        (predicate : Option Document) (before after : List Document) (r : Document)
        → Updated
            (matches (upsert_filter task_id predicate))
            (applied (upsert_update task_id payload timeout trace now))
            before
            after
            (some r)
        → Enqueued task_id payload trace before after reset
    Updated-Enqueued predicate before after r (missed p unselected same) = absurd (cc)
    Updated-Enqueued predicate before after r (hit front back d s p q o) = record {
      front = front;
      back = back;
      old = d;
      new = applied (upsert_update task_id payload timeout trace now) d;
      was = p;
      now = q;
      old_holds = λ t g. IsFinished-of_upsert_filter m task_id predicate d t g s;
      new_holds = (
        applied-IsQueued m task_id payload timeout trace now d,
        applied-IsCleared m task_id payload timeout trace now d,
      );
    }

    Upserted-Enqueued :
        (predicate : Option Document) (before after : List Document) (r : UpdateResult)
        (o : EnqueueOutcome)
        → Upserted
            (matches (upsert_filter task_id predicate))
            (applied (upsert_update task_id payload timeout trace now))
            (IsCreated b (upsert_update task_id payload timeout trace now))
            before
            after
            r.upserted
            r.matched_count
        → enqueue_outcome m task_id (ok r) ≡ ok o
        → (o.task_id ≡ task_id) × Enqueued task_id payload trace before after o.action
    unfolding enqueue_outcome
    Upserted-Enqueued predicate before after r o (updated d w i q) h =
        let (named, action) : (o.task_id ≡ task_id) × (o.action ≡ reset) =
          (ground arith, ground arith) in
        (named, rw action (Updated-Enqueued predicate before after d w))
    Upserted-Enqueued predicate before after r o (created d u a c i q) h =
        let (named, action) : (o.task_id ≡ task_id) × (o.action ≡ inserted) =
          (ground arith, ground arith) in
        (named, rw action (d, a, created-IsQueued m task_id payload timeout trace now d c))

  upsert_task-Enqueued :
      (payload : Bson) (timeout : ℕ) (key : Option String) (predicate : Option Document)
      (trace : Option TraceContext) (uuid : String) (now : ℤ) (db : Db) (o : EnqueueOutcome)
      → (upsert_task m payload timeout key predicate trace uuid now db).0 ≡ ok o
      → (o.task_id ≡ unwrap_or uuid key)
        × Enqueued o.task_id payload trace
            (contents db)
            (contents (upsert_task m payload timeout key predicate trace uuid now db).1)
            o.action
  unfolding upsert_task
  upsert_task-Enqueued payload timeout key predicate trace uuid now db o h =
      let task_id = unwrap_or uuid key in
      let filter = upsert_filter task_id predicate in
      let update = upsert_update task_id payload timeout trace now in
      elim (Result-cases (upsert_one filter update db).0) [
        | inr (e, g) ↦ absurd (not_ok task_id e o (rw g at h))
        | inl (r, g) ↦
            let (named, w) =
              Upserted-Enqueued task_id payload timeout trace now predicate (contents db) _ r o
                (m.upsert_one_ok filter update db r g) (rw g at h) in
            (named, rw named w)
      ]

  -- Where an enqueue of a payload succeeds, its task id is the key of the request or else the new one, and
  -- the collection has either one more document, a pending task with that payload and trace context, or, for
  -- a reset, such a task in the place of a document whose status, if it was a text, was succeeded or failed,
  -- with no output, reason or worker state left.
  pub enqueue_only-Enqueued :
      (s : SendBuilder m) (uuid : String) (now : ℤ) (db : Db) (payload : Bson) (o : EnqueueOutcome)
      → s.payload ≡ some payload
      → (enqueue_only m s uuid now db).0 ≡ ok o
      → (o.task_id ≡ unwrap_or uuid s.idempotency_key)
        × Enqueued o.task_id payload s.trace_context
            (contents db)
            (contents (enqueue_only m s uuid now db).1)
            o.action
  unfolding enqueue_only enqueue_payload
  enqueue_only-Enqueued s uuid now db payload o p h = elim (Option-cases s.payload_err) [
    | inr (e, q) ↦ absurd (ground (arith, q, p, h))
    | inl q ↦
        rw (q, enqueue_only, p)
          (upsert_task-Enqueued payload _ s.idempotency_key
            (effective_reset_predicate s.reset_when s.config) s.trace_context uuid now db o
            (rw (q, p) at h))
  ]

  upsert_task-duplicate :
      (payload : Bson) (timeout : ℕ) (key : Option String) (predicate : Option Document)
      (trace : Option TraceContext) (uuid k : String) (now : ℤ) (db : Db)
      → (upsert_task m payload timeout key predicate trace uuid now db).0 ≡ err (duplicate k)
      → contents (upsert_task m payload timeout key predicate trace uuid now db).1 ≡ contents db
  unfolding upsert_task enqueue_outcome
  upsert_task-duplicate payload timeout key predicate trace uuid k now db h =
      let task_id = unwrap_or uuid key in
      let filter = upsert_filter task_id predicate in
      let update = upsert_update task_id payload timeout trace now in
      elim (Result-cases (upsert_one filter update db).0) [
        | inl (r, g) ↦ absurd (
            not_err (matches filter) (applied update) (IsCreated b update) task_id _ _ r _
              (m.upsert_one_ok filter update db r g) (rw g at h))
        | inr (e, g) ↦
            m.upsert_one_duplicate filter update db e g (duplicate_of_err task_id k e (rw g at h))
      ]

  -- An enqueue that answers with a duplicate has left the collection as it was.
  pub enqueue_only-duplicate :
      (s : SendBuilder m) (uuid k : String) (now : ℤ) (db : Db)
      → (enqueue_only m s uuid now db).0 ≡ err (duplicate k)
      → contents (enqueue_only m s uuid now db).1 ≡ contents db
  unfolding enqueue_only enqueue_payload
  enqueue_only-duplicate s uuid k now db h = elim (Option-cases s.payload_err) [
    | inr (e, p) ↦ rw (p, enqueue_only) refl
    | inl p ↦ elim (Option-cases s.payload) [
      | inl q ↦ rw (p, enqueue_only, q) refl
      | inr (payload, q) ↦
          rw (p, enqueue_only, q)
            (upsert_task-duplicate payload _ s.idempotency_key _ s.trace_context uuid k now db
              (rw (p, q) at h))
    ]
  ]

-- ===== src/System/Writes.antt =====
-- The filter and the update of each write that an operation issues.
use getitdone.Prelude.{
  ℕ, ◌≡◌, refl, inl, inr, true, Option, none, [], ◌∷◌, String, All, Option-cases, Bool-cases,
}
use getitdone.Prelude.Int.{ℤ}
use getitdone.Config.{unwrap_or}
use getitdone.Bson.Crate.{BsonCrate}
use getitdone.Bson.Document.{doc}
use getitdone.Mongo.Server.{MongoServer}
use getitdone.Mongo.Successors.{
  Relates, Relates-refl, find_one_and_update-Relates, update_one-Relates, upsert_one-Relates,
}
use getitdone.Trace.{TraceContext}
use getitdone.Caller.{
  SendBuilder, effective_reset_predicate, upsert_filter, upsert_update, upsert_task,
  enqueue_payload, enqueue_only,
}
use getitdone.Worker.Claim.{
  ready, stale_recovery, pending_entries, own_entries, stale_entries, claim_update,
  claim_with_filter, claim_filter_attempts, claim_first, claim_next_task, is_excluded,
  claim_expired_task_by_id, claim_expired_task_by_id,
}
use getitdone.Worker.Claim.Loop.{
  Attempts, attempt-cases, claim_first_next, claim_first_found, claim_first_failed,
  claim_with_filter-none,
}
use getitdone.Worker.Claim.Expired.{expired_entries, claim_excluded, claim_included}
use getitdone.Worker.Lease.{
  claim_filter, heartbeat_update, failed_update, succeeded_update, heartbeat, mark_task_failed,
  complete,
}
use getitdone.Worker.Lease.Fencing.{beat, fail, finish, written}
use getitdone.System.{Operation, Claim, enqueue, claim, claim_expired, lease_write, perform}

module _ ⦃b : BsonCrate⦄ (m : MongoServer b) where
  open b use {Bson, Document, ObjectId}
  open m use {Db, contents, matches, applied}

  abbrev pub update_of : Claim m → Document
  update_of c = claim_update m c.worker_id c.claim_token c.claim_started_at c.worker_switch_timeout

  pub data Issues : Operation m → Document → Document → Type 0 where
    upserts :
        (s : SendBuilder m) (uuid : String) (now : ℤ) (payload : Bson) (timeout : ℕ)
        (trace : Option TraceContext)
        → Issues
            (enqueue s uuid now)
            (upsert_filter
              (unwrap_or uuid s.idempotency_key)
              (effective_reset_predicate s.reset_when s.config))
            (upsert_update (unwrap_or uuid s.idempotency_key) payload timeout trace now)
    claims_pending :
        (c : Claim m) (sort : Option Document)
        → Issues (claim c ready sort) (doc (pending_entries m c.excluded)) (update_of c)
    claims_own :
        (c : Claim m) (sort : Option Document)
        → Issues (claim c ready sort) (doc (own_entries m c.worker_id c.excluded)) (update_of c)
    claims_stale :
        (c : Claim m) (sort : Option Document)
        → Issues
            (claim c stale_recovery sort)
            (doc (stale_entries m c.now c.worker_switch_timeout c.excluded))
            (update_of c)
    claims_expired :
        (c : Claim m) (id : ObjectId) (task_id : Option String)
        → Issues
            (claim_expired c id task_id)
            (doc (expired_entries m id task_id c.excluded c.now c.worker_switch_timeout))
            (update_of c)
    beats :
        (now : ℤ) (task_id worker_id token : String)
        → Issues
            (lease_write (beat now) task_id worker_id token)
            (claim_filter m task_id worker_id token)
            (heartbeat_update m now)
    fails :
        (reason : String) (now at : ℤ) (task_id worker_id token : String)
        → Issues
            (lease_write (fail reason now at) task_id worker_id token)
            (claim_filter m task_id worker_id token)
            (failed_update m reason now at)
    finishes :
        (output : Bson) (now at : ℤ) (task_id worker_id token : String)
        → Issues
            (lease_write (finish output now at) task_id worker_id token)
            (claim_filter m task_id worker_id token)
            (succeeded_update m output now at)

  -- What all writes of an operation do to the documents that they select, the operation does.
  module _ (R : Document → Document → Type 0) (same : (d : Document) → R d d) where
    abbrev Changes : Document → Document → Type 0
    Changes filter update = (d : Document) → matches filter d ≡ true → R d (applied update d)

    claim_first-Relates :
        (attempts : Attempts m) (update : Document) (db : Db)
        → All (λ a. Changes (doc a.0) update) attempts
        → Relates R (contents db) (contents (claim_first m attempts update db).1)
    claim_first-Relates [] update db c = Relates-refl R same (unfold claim_first in refl)
    claim_first-Relates ((es, sort) ∷ attempts) update db c =
        let step : Relates R (contents db)
            (contents (claim_with_filter m (doc es) update sort db).1) =
          unfold claim_with_filter in
          find_one_and_update-Relates m R same (doc es) update c.0 db sort in
        elim (attempt-cases m es sort attempts update db) [
          | inl (e, h) ↦ rw (claim_first_failed m es sort attempts update db e h) step
          | inr (inl h) ↦
              let after = (claim_with_filter m (doc es) update sort db).1 in
              let rest : Relates R (contents after)
                  (contents (claim_first m attempts update after).1) =
                claim_first-Relates attempts update after c.1 in
              rw (claim_first_next m es sort attempts update db h)
                (rw ((claim_with_filter-none m es update sort db h).0) at rest)
          | inr (inr (d, h)) ↦ rw (claim_first_found m es sort attempts update db d h) step
        ]

    enqueue-Relates :
        (s : SendBuilder m) (uuid : String) (now : ℤ) (db : Db)
        → ((f u : Document) → Issues (enqueue s uuid now) f u → Changes f u)
        → Relates R (contents db) (contents (enqueue_only m s uuid now db).1)
    unfolding enqueue_only enqueue_payload upsert_task
    enqueue-Relates s uuid now db c = elim (Option-cases s.payload_err) [
      | inr (e, p) ↦ rw (p, enqueue_only) (Relates-refl R same refl)
      | inl p ↦ elim (Option-cases s.payload) [
        | inl q ↦ rw (p, enqueue_only, q) (Relates-refl R same refl)
        | inr (payload, q) ↦
            rw (p, enqueue_only, q)
              (upsert_one-Relates m R same _ _ (c _ _ (upserts s uuid now payload _ _)) db)
      ]
    ]

    claim_expired-Relates :
        (c : Claim m) (id : ObjectId) (task_id : Option String) (db : Db)
        → ((f u : Document) → Issues (claim_expired c id task_id) f u → Changes f u)
        → Relates R (contents db) (
            contents
              (claim_expired_task_by_id m id c.worker_id c.worker_switch_timeout task_id c.excluded
                c.claim_token c.now c.claim_started_at db).1)
    claim_expired-Relates c id task_id db changes =
        elim (Bool-cases (is_excluded m task_id c.excluded)) [
          | inl h ↦
              rw
                (claim_excluded m id c.worker_id c.worker_switch_timeout task_id c.excluded
                  c.claim_token c.now c.claim_started_at db h)
                (Relates-refl R same refl)
          | inr h ↦
              let found : Relates R (contents db) (
                  contents
                    (claim_with_filter m
                      (doc (expired_entries m id task_id c.excluded c.now c.worker_switch_timeout))
                      (update_of c) none db).1) =
                unfold claim_with_filter in
                find_one_and_update-Relates m R same _ _ (changes _ _ (claims_expired c id task_id))
                  db none in
              rw
                (claim_included m id c.worker_id c.worker_switch_timeout task_id c.excluded
                  c.claim_token c.now c.claim_started_at db h)
                found
        ]

    pub perform-Relates :
        (o : Operation m) (db : Db)
        → ((f u : Document) → Issues o f u → Changes f u)
        → Relates R (contents db) (contents (perform m o db))
    unfolding perform claim_next_task claim_filter_attempts written heartbeat mark_task_failed
        complete
    perform-Relates (enqueue s uuid now) db c = enqueue-Relates s uuid now db c
    perform-Relates (claim k ready sort) db c =
        claim_first-Relates _ (update_of k) db
          (c _ _ (claims_pending k sort), (c _ _ (claims_own k sort), tt))
    perform-Relates (claim k stale_recovery sort) db c =
        claim_first-Relates _ (update_of k) db (c _ _ (claims_stale k sort), tt)
    perform-Relates (claim_expired k id task_id) db c = claim_expired-Relates k id task_id db c
    perform-Relates (lease_write (beat now) task_id worker_id token) db c =
        update_one-Relates m R same _ _ (c _ _ (beats now task_id worker_id token)) db
    perform-Relates (lease_write (fail reason now at) task_id worker_id token) db c =
        update_one-Relates m R same _ _ (c _ _ (fails reason now at task_id worker_id token)) db
    perform-Relates (lease_write (finish output now at) task_id worker_id token) db c =
        update_one-Relates m R same _ _ (c _ _ (finishes output now at task_id worker_id token)) db

-- ===== src/System.antt =====
-- Callers and workers on one collection: each write that src/caller.rs and src/worker.rs make, as one
-- operation, and the life of a task.
pub mod Lifecycle
pub mod Writes
pub mod Refinement
pub mod Stability
use getitdone.Prelude.{ℕ, String, Option, List, [], ◌∷◌}
use getitdone.Prelude.Int.{ℤ}
use getitdone.Bson.Crate.{BsonCrate}
use getitdone.Mongo.Server.{MongoServer}
use getitdone.Caller.{SendBuilder, enqueue_only}
use getitdone.Worker.Claim.{ClaimMode, claim_next_task, claim_expired_task_by_id}
use getitdone.Worker.Lease.Fencing.{LeaseWrite, written}

module _ ⦃b : BsonCrate⦄ (m : MongoServer b) where
  open b use {Document, ObjectId}
  open m use {Db}

  -- A worker's claims, as `claim_next_task` and `claim_expired_task_by_id` take their arguments.
  pub record Claim : Type 0 where
    pub worker_id : String
    pub worker_switch_timeout : ℕ
    pub excluded : List String
    pub claim_token : String
    pub now : ℤ
    pub claim_started_at : ℤ

  pub data Operation : Type 0 where
    enqueue : SendBuilder m → String → ℤ → Operation
    claim : Claim → ClaimMode → Option Document → Operation
    claim_expired : Claim → ObjectId → Option String → Operation
    -- Under a task id, a worker id and a claim token.
    lease_write : LeaseWrite m → String → String → String → Operation

  unfoldable pub perform : Operation → Db → Db
  perform (enqueue s uuid now) db = (enqueue_only m s uuid now db).1
  perform (claim c mode sort) db =
      (claim_next_task m c.worker_id c.worker_switch_timeout c.excluded mode sort c.claim_token
        c.now c.claim_started_at db).1
  perform (claim_expired c id task_id) db =
      (claim_expired_task_by_id m id c.worker_id c.worker_switch_timeout task_id c.excluded
        c.claim_token c.now c.claim_started_at db).1
  perform (lease_write w task_id worker_id claim_token) db =
      written m w task_id worker_id claim_token db

  -- In any order.
  unfoldable pub perform_all : List Operation → Db → Db
  unfolding perform
  perform_all [] db = db
  perform_all (o ∷ os) db = perform_all os (perform o db)

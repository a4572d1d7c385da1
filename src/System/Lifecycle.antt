-- ===== src/System/Lifecycle.antt =====
-- The life of a task: which operation of src/caller.rs and src/worker.rs may take it from which status to
-- which. Each operation has its own steps, so that a path of statuses says which operations made it.
use getitdone.Prelude.{◌≡◌, String, Option, some, List, [], ◌∷◌}
use getitdone.Prelude.Int.{ℤ}
use getitdone.Bson.Crate.{BsonCrate}
use getitdone.Mongo.Server.{MongoServer}
use getitdone.Caller.{SendBuilder, effective_reset_predicate}
use getitdone.Worker.Claim.{ready}
use getitdone.Worker.Lease.Fencing.{fail, finish}
use getitdone.System.{Operation, Claim, enqueue, claim, lease_write}

pub data Status : Type 0 where
  pending running succeeded failed : Status

abbrev pub status_text : Status → String
status_text pending = "pending"
status_text running = "running"
status_text succeeded = "succeeded"
status_text failed = "failed"

module _ ⦃b : BsonCrate⦄ (m : MongoServer b) where
  open b use {Bson, Document, string, get}

  pub data Next : Operation m → Status → Status → Type 0 where
    -- All that a heartbeat and the claims of abandoned tasks can do.
    stays : (o : Operation m) (s : Status) → Next o s s
    claimed : (c : Claim m) (sort : Option Document) → Next (claim c ready sort) pending running
    completed :
        (output : Bson) (now at : ℤ) (task worker token : String)
        → Next (lease_write (finish output now at) task worker token) running succeeded
    aborted :
        (reason : String) (now at : ℤ) (task worker token : String)
        → Next (lease_write (fail reason now at) task worker token) running failed
    -- A reset, which the request or the configuration has to allow.
    reset_success :
        (s : SendBuilder m) (uuid : String) (now : ℤ) (predicate : Document)
        → effective_reset_predicate s.reset_when s.config ≡ some predicate
        → Next (enqueue s uuid now) succeeded pending
    reset_failure :
        (s : SendBuilder m) (uuid : String) (now : ℤ) (predicate : Document)
        → effective_reset_predicate s.reset_when s.config ≡ some predicate
        → Next (enqueue s uuid now) failed pending

  -- One step for each operation, in their order.
  pub data Reaches : List (Operation m) → Status → Status → Type 0 where
    here : (s : Status) → Reaches [] s s
    next :
        (o : Operation m) (os : List (Operation m)) (s t u : Status)
        → Next o s t
        → Reaches os t u
        → Reaches (o ∷ os) s u

  abbrev pub HasStatus : Status → Document → Type 0
  HasStatus s d = get "status" d ≡ some (string (status_text s))

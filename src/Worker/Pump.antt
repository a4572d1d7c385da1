-- ===== src/Worker/Pump.antt =====
-- src/worker.rs: `pump_available_tasks`, `pump_expired_tasks` and `spawn_claimed_task`, on the state of
-- one worker process. A claim is awaited, and meanwhile other jobs of the process can end and other
-- processes can write: an `Await` says what happens then.
pub mod Jobs
pub mod Bounds
pub mod Tracking
pub mod Termination
pub mod Dropped
pub mod Hint
use getitdone.Prelude.{
  ℕ, suc, ◌-◌, String, Bool, true, false, Option, none, some, List, [], ◌∷◌, map, contains, ◌==◌,
  nat_eq, string_eq, if◌then◌else◌,
}
use getitdone.Prelude.Int.{ℤ}
use getitdone.Time.{from_secs}
use getitdone.Errors.{RequestError, Result, ok, err}
use getitdone.Config.{unwrap_or}
use getitdone.Bson.Crate.{BsonCrate}
use getitdone.Bson.Document.{get_str}
use getitdone.Mongo.Server.{MongoServer}
use getitdone.Expiry.{ExpiringTask, ExpiryTracker, set_pending_may_exist, pop_due, defer}
use getitdone.Expiry.Documents.{schedule_expiration_from_task}
use getitdone.Worker.Claim.{
  ClaimMode, ready, stale_recovery, claim_interleaved, claim_filter_attempts, claim_update,
  claim_expired_task_by_id,
}
use getitdone.Worker.InFlight.{InFlightRegistry, contains_task, snapshot, insert_task, remove_task}

module _ ⦃b : BsonCrate⦄ (m : MongoServer b) where
  open b use {Document, ObjectId, oid_eq}
  open m use {Db}

  -- A `process_task` that runs: the id of its guard, and its document. It owns one permit.
  pub record Job : Type 0 where
    pub inflight_task_id : String
    pub document : Document

  pub record Process : Type 0 where
    pub in_flight : InFlightRegistry
    -- The permits that the semaphore has left.
    pub available_permits : ℕ
    pub join_set : List Job
    pub expiry_tracker : ExpiryTracker ObjectId
    pub collection : Db

  pub record Await : Type 0 where
    -- The tasks whose jobs end meanwhile.
    pub ended : List String
    -- What everyone else does to the collection meanwhile.
    pub others : Db → Db
    -- What they do behind each call of the claim, by the number of the call.
    pub between : ℕ → Db → Db
    pub claim_token : String
    pub now : ℤ
    pub claim_started_at : ℤ

  -- `worker_id` and `worker_switch_timeout`, which every function is given.
  pub record Settings : Type 0 where
    pub worker_id : String
    pub worker_switch_timeout : ℕ

  unfoldable pub drop_job : String → List Job → List Job
  drop_job task_id [] = []
  drop_job task_id (j ∷ js) =
      let rest = drop_job task_id js in if j.inflight_task_id == task_id then rest else j ∷ rest

  -- `process_task` returns: its guard takes the id out of the registry, and its permit goes back.
  unfoldable pub end_job : String → Process → Process
  end_job task_id p =
      if contains (map (λ j. j.inflight_task_id) p.join_set) task_id
      then record p {
        in_flight = remove_task task_id p.in_flight;
        available_permits = suc p.available_permits;
        join_set = drop_job task_id p.join_set;
      }
      else p

  unfoldable pub end_jobs : List String → Process → Process
  end_jobs [] p = p
  end_jobs (task_id ∷ ids) p = end_jobs ids (end_job task_id p)

  unfoldable pub resume : Await → Process → Process
  resume a p = let p' = end_jobs a.ended p in record p' { collection = a.others p'.collection }

  unfoldable pub drop_permit : Process → Process
  drop_permit p = record p { available_permits = suc p.available_permits }

  -- The caller owns a permit, which goes to the new job or is dropped.
  unfoldable pub spawn_claimed_task : Document → String → Process → Process
  unfolding drop_permit
  spawn_claimed_task task task_id p =
      let (is_new, in_flight) = insert_task task_id p.in_flight in
      if is_new
      then record p {
        in_flight = in_flight;
        join_set = record { inflight_task_id = task_id; document = task } ∷ p.join_set;
      }
      else drop_permit p

  -- What both loops do with a task that they have claimed.
  unfoldable pub start_claimed : Settings → Document → Process → Process
  start_claimed s task p =
      spawn_claimed_task task (unwrap_or "" (get_str "task_id" task)) (record p {
        expiry_tracker =
            schedule_expiration_from_task task s.worker_switch_timeout p.expiry_tracker;
      })

  -- `Ok(None)`: a ready claim without a task clears the hint.
  unfoldable pub clear_hint : ClaimMode → Process → Process
  clear_hint ready p = record p { expiry_tracker = set_pending_may_exist false p.expiry_tracker }
  clear_hint stale_recovery p = p

  -- Whether the loop goes on, and the process.
  unfoldable pub after_claim :
      Settings → ClaimMode → Result RequestError (Option Document) → Process → Bool × Process
  unfolding clear_hint
  after_claim s mode (err e) p = (false, drop_permit p)
  after_claim s mode (ok none) p = (false, drop_permit (clear_hint mode p))
  after_claim s mode (ok (some task)) p = (true, start_claimed s task p)

  -- One round, where a permit is left: it is taken, the ids are read, and a claim is awaited.
  unfoldable pub round : Settings → ClaimMode → Option Document → Await → Process → Bool × Process
  unfolding resume after_claim
  round s mode sort a p =
      let excluded = snapshot p.in_flight in
      let p' = resume a (record p { available_permits = p.available_permits - 1 }) in
      let (result, db) =
        claim_interleaved m
          (claim_filter_attempts m mode s.worker_id s.worker_switch_timeout excluded sort a.now)
          (claim_update m s.worker_id a.claim_token a.claim_started_at s.worker_switch_timeout)
          a.between p'.collection in
      after_claim s mode result (record p' { collection = db })

  -- The loop, with the awaits to come: `none` where it would go on after the last of them.
  unfoldable pub pump_available_tasks :
      Settings → ClaimMode → Option Document → List Await → Process → Option Process
  unfolding round
  pump_available_tasks s mode sort [] p = if p.available_permits == 0 then some p else none
  pump_available_tasks s mode sort (a ∷ awaits) p = elim (p.available_permits == 0) [
    | true ↦ some p
    | false ↦
        let (more, p') = round s mode sort a p in
        elim more [ true ↦ pump_available_tasks s mode sort awaits p' | false ↦ some p' ]
  ]

  unfoldable pub is_local : ExpiringTask → InFlightRegistry → Bool
  is_local task r = elim task.task_id [ none ↦ false | some task_id ↦ contains_task r task_id ]

  unfoldable pub after_expired_claim :
      Settings → Result RequestError (Option Document) → Process → Process
  after_expired_claim s (err e) p = drop_permit p
  after_expired_claim s (ok none) p = drop_permit p
  after_expired_claim s (ok (some task)) p = start_claimed s task p

  -- One targeted claim, where a permit is left.
  unfoldable pub claim_expired : Settings → ObjectId → ExpiringTask → Await → Process → Process
  unfolding resume after_expired_claim
  claim_expired s id task a p =
      let excluded = snapshot p.in_flight in
      let p' = resume a (record p { available_permits = p.available_permits - 1 }) in
      let (result, db) =
        claim_expired_task_by_id m id s.worker_id s.worker_switch_timeout task.task_id excluded
          a.claim_token a.now a.claim_started_at p'.collection in
      after_expired_claim s result (record p' { collection = a.between 0 db })

  -- The loop over the tasks that are due. Without a permit the first of them is deferred by a second,
  -- and the loop is left.
  unfoldable pub pump_due :
      Settings → List (ObjectId × ExpiringTask) → (ℕ → Await) → Process → Process
  unfolding is_local claim_expired
  pump_due s [] awaits p = p
  pump_due s ((id, task) ∷ due) awaits p = elim (is_local task p.in_flight) [
    | true ↦ pump_due s due (λ n. awaits (suc n)) p
    | false ↦ elim (p.available_permits == 0) [
      | true ↦ record p {
        expiry_tracker = defer ⦃e = oid_eq⦄ id task (from_secs 1) (awaits 0).now p.expiry_tracker;
      }
      | false ↦ pump_due s due (λ n. awaits (suc n)) (claim_expired s id task (awaits 0) p)
    ]
  ]

  unfoldable pub pump_expired_tasks : Settings → ℤ → (ℕ → Await) → Process → Process
  unfolding pump_due
  pump_expired_tasks s now_ms awaits p =
      let (due, tracker) = pop_due ⦃e = oid_eq⦄ now_ms p.expiry_tracker in
      pump_due s due awaits (record p { expiry_tracker = tracker })

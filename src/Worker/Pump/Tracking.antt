-- ===== src/Worker/Pump/Tracking.antt =====
-- src/worker.rs: the loops that claim tasks, and the maps of the tracker.
use getitdone.Prelude.{
  ℕ, ◌-◌, ◌≡◌, ◌≢◌, ◌∙◌, sym, refl, subst, String, true, false, Option, none, some, List, [], ◌∷◌,
  contains, ◌==◌, nat_eq, string_eq, arith, Bool-cases, inl, inr, All,
}
use getitdone.Prelude.Int.{ℤ}
use getitdone.Prelude.Sets.{IsDistinct}
use getitdone.Time.{from_secs}
use getitdone.Errors.{RequestError, Result, ok, err}
use getitdone.Bson.Crate.{BsonCrate}
use getitdone.Bson.Document.{get_object_id}
use getitdone.Mongo.Server.{MongoServer}
use getitdone.Expiry.{ExpiringTask, set_pending_may_exist, pop_due}
use getitdone.Expiry.Index.{IsIndexed, defer-IsIndexed}
use getitdone.Expiry.PopDue.{pop_due-IsIndexed}
use getitdone.Expiry.Popped.{pop_due-IsPopped, ids}
use getitdone.Expiry.Documents.Preservation.{schedule_expiration_from_task-IsIndexed}
use getitdone.Expiry.Documents.Others.{Untracked, schedule_expiration_from_task-Untracked}
use getitdone.Expiry.Documents.{schedule_expiration_from_task}
use getitdone.Worker.Claim.{ClaimMode, ready, stale_recovery}
use getitdone.Worker.Claim.Expired.{claim_expired_task_by_id-id}
use getitdone.Worker.InFlight.{snapshot, insert_task}
use getitdone.Worker.Pump.{
  Process, Await, Settings, end_job, end_jobs, resume, drop_permit, spawn_claimed_task,
  start_claimed, clear_hint, after_claim, round, pump_available_tasks, is_local,
  after_expired_claim, claim_expired, pump_due, pump_expired_tasks,
}

module _ ⦃b : BsonCrate⦄ (m : MongoServer b) where
  open b use {Document, ObjectId, oid_eq}
  open m use {Db}

  abbrev pub Tracks : Process m → Type 0
  Tracks p = IsIndexed ⦃e = oid_eq⦄ p.expiry_tracker

  pub end_jobs-tracker :
      (task_ids : List String) (p : Process m)
      → (end_jobs m task_ids p).expiry_tracker ≡ p.expiry_tracker
  unfolding end_jobs end_job
  end_jobs-tracker [] p = refl
  end_jobs-tracker (id ∷ task_ids) p = end_jobs-tracker task_ids _ ∙ ground arith

  pub resume-tracker :
      (a : Await m) (p : Process m) → (resume m a p).expiry_tracker ≡ p.expiry_tracker
  unfolding resume
  resume-tracker a p = end_jobs-tracker a.ended p

  spawn_claimed_task-tracker :
      (task : Document) (task_id : String) (p : Process m)
      → (spawn_claimed_task m task task_id p).expiry_tracker ≡ p.expiry_tracker
  unfolding spawn_claimed_task insert_task drop_permit
  spawn_claimed_task-tracker task task_id p = ground arith

  start_claimed-tracker :
      (s : Settings m) (task : Document) (p : Process m)
      → (start_claimed m s task p).expiry_tracker
        ≡ schedule_expiration_from_task task s.worker_switch_timeout p.expiry_tracker
  unfolding start_claimed
  start_claimed-tracker s task p = spawn_claimed_task-tracker task _ _

  start_claimed-Tracks :
      (s : Settings m) (task : Document) (p : Process m)
      → Tracks p
      → Tracks (start_claimed m s task p)
  start_claimed-Tracks s task p v =
      rw (start_claimed-tracker s task p)
        (schedule_expiration_from_task-IsIndexed task s.worker_switch_timeout p.expiry_tracker v)

  clear_hint-Tracks : (mode : ClaimMode) (p : Process m) → Tracks p → Tracks (clear_hint m mode p)
  unfolding clear_hint set_pending_may_exist
  clear_hint-Tracks ready p v = record { agree = v.agree; sorted = v.sorted; nonempty = v.nonempty }
  clear_hint-Tracks stale_recovery p v = v

  after_claim-Tracks :
      (s : Settings m) (mode : ClaimMode) (r : Result RequestError (Option Document))
      (p : Process m)
      → Tracks p
      → Tracks (after_claim m s mode r p).1
  unfolding after_claim drop_permit
  after_claim-Tracks s mode (err e) p v = v
  after_claim-Tracks s mode (ok none) p v = clear_hint-Tracks mode p v
  after_claim-Tracks s mode (ok (some task)) p v = start_claimed-Tracks s task p v

  pub round-Tracks :
      (s : Settings m) (mode : ClaimMode) (sort : Option Document) (a : Await m) (p : Process m)
      → Tracks p
      → Tracks (round m s mode sort a p).1
  unfolding round
  round-Tracks s mode sort a p v =
      after_claim-Tracks s mode _ _
        (rw (resume-tracker a (record p { available_permits = p.available_permits - 1 })) v)

  -- `pump_available_tasks` keeps the maps of the tracker in step.
  pub pump_available_tasks-Tracks :
      (s : Settings m) (mode : ClaimMode) (sort : Option Document) (awaits : List (Await m))
      (p p' : Process m)
      → Tracks p
      → pump_available_tasks m s mode sort awaits p ≡ some p'
      → Tracks p'
  unfolding pump_available_tasks
  pump_available_tasks-Tracks s mode sort [] p p' v h =
      elim (Bool-cases (p.available_permits == 0)) [
        | inl z ↦ let same : p ≡ p' = cc (rw (z, pump_available_tasks) at h) in subst Tracks same v
        | inr z ↦ absurd (cc (rw (z, pump_available_tasks) at h))
      ]
  pump_available_tasks-Tracks s mode sort (a ∷ awaits) p p' v h =
      elim (Bool-cases (p.available_permits == 0)) [
        | inl z ↦ let same : p ≡ p' = cc (rw (z, pump_available_tasks) at h) in subst Tracks same v
        | inr z ↦ elim (Bool-cases (round m s mode sort a p).0) [
          | inl g ↦
              pump_available_tasks-Tracks s mode sort awaits _ p' (round-Tracks s mode sort a p v)
                (rw (z, pump_available_tasks, g) at h)
          | inr g ↦
              let same : (round m s mode sort a p).1 ≡ p' =
                cc (rw (z, pump_available_tasks, g) at h) in
              subst Tracks same (round-Tracks s mode sort a p v)
        ]
      ]

  -- The tasks that are still due are tracked no more.
  abbrev AllUntracked : List (ObjectId × ExpiringTask) → Process m → Type 0
  AllUntracked due p = All (λ d. Untracked d.0 p.expiry_tracker) due

  after_expired_claim-Tracks :
      (s : Settings m) (r : Result RequestError (Option Document)) (p : Process m)
      → Tracks p
      → Tracks (after_expired_claim m s r p)
  unfolding after_expired_claim drop_permit
  after_expired_claim-Tracks s (err e) p v = v
  after_expired_claim-Tracks s (ok none) p v = v
  after_expired_claim-Tracks s (ok (some task)) p v = start_claimed-Tracks s task p v

  after_expired_claim-Untracked :
      (k : ObjectId) (s : Settings m) (r : Result RequestError (Option Document)) (p : Process m)
      → ((task : Document) (j : ObjectId)
          → r ≡ ok (some task)
          → get_object_id "_id" task ≡ some j
          → j ≢ k)
      → Untracked k p.expiry_tracker
      → Untracked k (after_expired_claim m s r p).expiry_tracker
  unfolding after_expired_claim drop_permit
  after_expired_claim-Untracked k s (err e) p n h = h
  after_expired_claim-Untracked k s (ok none) p n h = h
  after_expired_claim-Untracked k s (ok (some task)) p n h = rw (start_claimed-tracker s task p) (
      schedule_expiration_from_task-Untracked k task s.worker_switch_timeout p.expiry_tracker
        (λ j g. n task j refl g) h)

  module _ (s : Settings m) (id : ObjectId) (task : ExpiringTask) (a : Await m)
      (p : Process m) where
    pub claim_expired-Tracks : Tracks p → Tracks (claim_expired m s id task a p)
    unfolding claim_expired
    claim_expired-Tracks v =
        after_expired_claim-Tracks s _ _
          (rw (resume-tracker a (record p { available_permits = p.available_permits - 1 })) v)

    claim_expired-Untracked :
        (k : ObjectId)
        → id ≢ k
        → Untracked k p.expiry_tracker
        → Untracked k (claim_expired m s id task a p).expiry_tracker
    unfolding claim_expired
    claim_expired-Untracked k n h =
        after_expired_claim-Untracked k s _ _
          (λ doc j g i e. n (
            sym (
              claim_expired_task_by_id-id m id s.worker_id s.worker_switch_timeout task.task_id
                (snapshot p.in_flight) a.claim_token a.now a.claim_started_at _ doc j g i)
            ∙ e))
          (rw (resume-tracker a (record p { available_permits = p.available_permits - 1 })) h)

  AllUntracked-claim_expired :
      (s : Settings m) (id : ObjectId) (task : ExpiringTask) (a : Await m)
      (due : List (ObjectId × ExpiringTask)) (p : Process m)
      → contains ⦃e = oid_eq⦄ (ids ⦃e = oid_eq⦄ due) id ≡ false
      → AllUntracked due p
      → AllUntracked due (claim_expired m s id task a p)
  AllUntracked-claim_expired s id task a [] p n h = tt
  AllUntracked-claim_expired s id task a ((k, t) ∷ due) p n h = (
    claim_expired-Untracked s id task a p k (ground arith) h.0,
    AllUntracked-claim_expired s id task a due p (ground arith) h.1,
  )

  pump_due-Tracks :
      (s : Settings m) (due : List (ObjectId × ExpiringTask)) (awaits : ℕ → Await m) (p : Process m)
      → IsDistinct ⦃e = oid_eq⦄ (ids ⦃e = oid_eq⦄ due)
      → AllUntracked due p
      → Tracks p
      → Tracks (pump_due m s due awaits p)
  unfolding pump_due
  pump_due-Tracks s [] awaits p d h v = v
  pump_due-Tracks s ((id, task) ∷ due) awaits p d h v =
      elim (Bool-cases (is_local m task p.in_flight)) [
        | inl l ↦ rw (l, pump_due) (pump_due-Tracks s due _ p d.1 h.1 v)
        | inr l ↦ elim (Bool-cases (p.available_permits == 0)) [
          | inl z ↦
              rw (l, pump_due, z)
                (defer-IsIndexed ⦃e = oid_eq⦄ id task (from_secs 1) (awaits 0).now p.expiry_tracker
                  v h.0)
          | inr z ↦
              rw (l, pump_due, z)
                (pump_due-Tracks s due _ _ d.1
                  (AllUntracked-claim_expired s id task (awaits 0) due p d.0 h.1)
                  (claim_expired-Tracks s id task (awaits 0) p v))
        ]
      ]

  AllUntracked-of_gone :
      (due : List (ObjectId × ExpiringTask)) (p : Process m)
      → ((id : ObjectId)
          → contains ⦃e = oid_eq⦄ (ids ⦃e = oid_eq⦄ due) id ≡ true
          → Untracked id p.expiry_tracker)
      → AllUntracked due p
  AllUntracked-of_gone [] p g = tt
  AllUntracked-of_gone ((k, t) ∷ due) p g =
      (g k (ground arith), AllUntracked-of_gone due p (λ id h. g id (ground arith)))

  -- `pump_expired_tasks` keeps the maps of the tracker in step, also where it defers a task because no permit is left.
  pub pump_expired_tasks-Tracks :
      (s : Settings m) (now_ms : ℤ) (awaits : ℕ → Await m) (p : Process m)
      → Tracks p
      → Tracks (pump_expired_tasks m s now_ms awaits p)
  unfolding pump_expired_tasks
  pump_expired_tasks-Tracks s now_ms awaits p v =
      let popped = pop_due-IsPopped ⦃e = oid_eq⦄ now_ms p.expiry_tracker in
      pump_due-Tracks s _ awaits _ popped.distinct
        (AllUntracked-of_gone _
          (record p { expiry_tracker = (pop_due ⦃e = oid_eq⦄ now_ms p.expiry_tracker).1 })
          popped.gone)
        (pop_due-IsIndexed ⦃e = oid_eq⦄ now_ms p.expiry_tracker v)

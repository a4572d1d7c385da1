-- ===== src/Worker/Pump/Bounds.antt =====
-- src/worker.rs: the registry, the permits and the running jobs of a process.
use getitdone.Prelude.{
  ℕ, ◌+◌, ◌-◌, ◌≡◌, ◌∙◌, sym, ap, subst, String, false, Option, none, some, List, [], ◌∷◌, map,
  contains, ◌==◌, nat_eq, string_eq, length, arith, Bool-cases, inl, inr,
}
use getitdone.Prelude.Int.{ℤ}
use getitdone.Prelude.Sets.{add, discard, IsDistinct, discard-IsDistinct}
use getitdone.Errors.{RequestError, Result, ok, err}
use getitdone.Bson.Crate.{BsonCrate}
use getitdone.Mongo.Server.{MongoServer}
use getitdone.Expiry.{ExpiringTask}
use getitdone.Worker.Claim.{ClaimMode, ready, stale_recovery}
use getitdone.Worker.InFlight.{insert_task, remove_task}
use getitdone.Worker.Pump.Jobs.{job_ids, job_ids-drop_job, length-drop_job}
use getitdone.Worker.Pump.{
  Process, Await, Settings, end_job, end_jobs, resume, drop_permit, spawn_claimed_task,
  start_claimed, clear_hint, after_claim, round, pump_available_tasks, is_local,
  after_expired_claim, claim_expired, pump_due, pump_expired_tasks,
}

module _ ⦃b : BsonCrate⦄ (m : MongoServer b) where
  open b use {Document, ObjectId}
  open m use {Db}

  -- A process with `max` permits in all, of which the loop itself holds `held`.
  pub record IsBounded (max held : ℕ) (p : Process m) : Type 0 where
    pub listed : p.in_flight.task_ids ≡ map (λ j. j.inflight_task_id) p.join_set
    pub distinct : IsDistinct p.in_flight.task_ids
    pub permits : held + p.available_permits + length p.join_set ≡ max

  module _ (max : ℕ) where
    end_job-IsBounded :
        (held : ℕ) (task_id : String) (p : Process m)
        → IsBounded max held p
        → IsBounded max held (end_job m task_id p)
    unfolding end_job remove_task
    end_job-IsBounded held task_id p v =
        elim (Bool-cases (contains (job_ids m p.join_set) task_id)) [
          | inr h ↦ rw (h, end_job) v
          | inl h ↦
              rw (h, end_job)
                (record {
                  listed =
                      ap (discard task_id) v.listed ∙ sym (job_ids-drop_job m task_id p.join_set);
                  distinct = discard-IsDistinct task_id p.in_flight.task_ids v.distinct;
                  permits = omega (
                    arith,
                    v.permits,
                    length-drop_job m task_id p.join_set (rw v.listed at v.distinct) h,
                  );
                })
        ]

    pub end_jobs-IsBounded :
        (held : ℕ) (ids : List String) (p : Process m)
        → IsBounded max held p
        → IsBounded max held (end_jobs m ids p)
    unfolding end_jobs
    end_jobs-IsBounded held [] p v = v
    end_jobs-IsBounded held (id ∷ ids) p v =
        end_jobs-IsBounded held ids _ (end_job-IsBounded held id p v)

    pub resume-IsBounded :
        (held : ℕ) (a : Await m) (p : Process m)
        → IsBounded max held p
        → IsBounded max held (resume m a p)
    unfolding resume
    resume-IsBounded held a p v =
        let v' = end_jobs-IsBounded held a.ended p v in
        record { listed = v'.listed; distinct = v'.distinct; permits = v'.permits }

    pub drop_permit-IsBounded :
        (p : Process m) → IsBounded max 1 p → IsBounded max 0 (drop_permit m p)
    unfolding drop_permit
    drop_permit-IsBounded p v = record {
      listed = v.listed;
      distinct = v.distinct;
      permits = omega (arith, v.permits);
    }

    pub spawn_claimed_task-IsBounded :
        (task : Document) (task_id : String) (p : Process m)
        → IsBounded max 1 p
        → IsBounded max 0 (spawn_claimed_task m task task_id p)
    unfolding spawn_claimed_task insert_task add
    spawn_claimed_task-IsBounded task task_id p v =
        elim (Bool-cases (contains p.in_flight.task_ids task_id)) [
          | inl h ↦ rw (h, spawn_claimed_task) (drop_permit-IsBounded p v)
          | inr h ↦
              rw (h, spawn_claimed_task)
                (record {
                  listed = ap (λ ids. task_id ∷ ids) v.listed;
                  distinct = (h, v.distinct);
                  permits = omega (arith, v.permits);
                })
        ]

    start_claimed-IsBounded :
        (s : Settings m) (task : Document) (p : Process m)
        → IsBounded max 1 p
        → IsBounded max 0 (start_claimed m s task p)
    unfolding start_claimed
    start_claimed-IsBounded s task p v =
        spawn_claimed_task-IsBounded task _ _
          (record { listed = v.listed; distinct = v.distinct; permits = v.permits })

    clear_hint-IsBounded :
        (held : ℕ) (mode : ClaimMode) (p : Process m)
        → IsBounded max held p
        → IsBounded max held (clear_hint m mode p)
    unfolding clear_hint
    clear_hint-IsBounded held ready p v = record {
      listed = v.listed;
      distinct = v.distinct;
      permits = v.permits;
    }
    clear_hint-IsBounded held stale_recovery p v = v

    after_claim-IsBounded :
        (s : Settings m) (mode : ClaimMode) (r : Result RequestError (Option Document))
        (p : Process m)
        → IsBounded max 1 p
        → IsBounded max 0 (after_claim m s mode r p).1
    unfolding after_claim
    after_claim-IsBounded s mode (err e) p v = drop_permit-IsBounded p v
    after_claim-IsBounded s mode (ok none) p v =
        drop_permit-IsBounded _ (clear_hint-IsBounded 1 mode p v)
    after_claim-IsBounded s mode (ok (some task)) p v = start_claimed-IsBounded s task p v

    after_expired_claim-IsBounded :
        (s : Settings m) (r : Result RequestError (Option Document)) (p : Process m)
        → IsBounded max 1 p
        → IsBounded max 0 (after_expired_claim m s r p)
    unfolding after_expired_claim
    after_expired_claim-IsBounded s (err e) p v = drop_permit-IsBounded p v
    after_expired_claim-IsBounded s (ok none) p v = drop_permit-IsBounded p v
    after_expired_claim-IsBounded s (ok (some task)) p v = start_claimed-IsBounded s task p v

    -- The process while a claim is awaited, with one permit held by the loop.
    awaiting-IsBounded :
        (a : Await m) (p : Process m)
        → (p.available_permits == 0) ≡ false
        → IsBounded max 0 p
        → IsBounded max 1 (resume m a (record p { available_permits = p.available_permits - 1 }))
    awaiting-IsBounded a p h v =
        resume-IsBounded 1 a _
          (record { listed = v.listed; distinct = v.distinct; permits = ground (arith, v.permits) })

    pub round-IsBounded :
        (s : Settings m) (mode : ClaimMode) (sort : Option Document) (a : Await m) (p : Process m)
        → (p.available_permits == 0) ≡ false
        → IsBounded max 0 p
        → IsBounded max 0 (round m s mode sort a p).1
    unfolding round
    round-IsBounded s mode sort a p h v =
        let v' = awaiting-IsBounded a p h v in
        after_claim-IsBounded s mode _ _
          (record { listed = v'.listed; distinct = v'.distinct; permits = v'.permits })

    pub claim_expired-IsBounded :
        (s : Settings m) (id : ObjectId) (task : ExpiringTask) (a : Await m) (p : Process m)
        → (p.available_permits == 0) ≡ false
        → IsBounded max 0 p
        → IsBounded max 0 (claim_expired m s id task a p)
    unfolding claim_expired
    claim_expired-IsBounded s id task a p h v =
        let v' = awaiting-IsBounded a p h v in
        after_expired_claim-IsBounded s _ _
          (record { listed = v'.listed; distinct = v'.distinct; permits = v'.permits })

    -- However the claims and the other jobs interleave, `pump_available_tasks` leaves a process whose
    -- registry lists its running jobs, each once, and whose jobs and permits are `max` together.
    pub pump_available_tasks-IsBounded :
        (s : Settings m) (mode : ClaimMode) (sort : Option Document) (awaits : List (Await m))
        (p p' : Process m)
        → IsBounded max 0 p
        → pump_available_tasks m s mode sort awaits p ≡ some p'
        → IsBounded max 0 p'
    unfolding pump_available_tasks
    pump_available_tasks-IsBounded s mode sort [] p p' v h =
        subst (IsBounded max 0) (ground arith) v
    pump_available_tasks-IsBounded s mode sort (a ∷ awaits) p p' v h =
        elim (Bool-cases (p.available_permits == 0)) [
          | inl z ↦ subst (IsBounded max 0) (cc (rw (z, pump_available_tasks) at h)) v
          | inr z ↦ elim (Bool-cases (round m s mode sort a p).0) [
            | inl g ↦
                pump_available_tasks-IsBounded s mode sort awaits _ p'
                  (round-IsBounded s mode sort a p z v) (rw (z, pump_available_tasks, g) at h)
            | inr g ↦
                subst (IsBounded max 0) (cc (rw (z, pump_available_tasks, g) at h))
                  (round-IsBounded s mode sort a p z v)
          ]
        ]

    pump_due-IsBounded :
        (s : Settings m) (due : List (ObjectId × ExpiringTask)) (awaits : ℕ → Await m)
        (p : Process m)
        → IsBounded max 0 p
        → IsBounded max 0 (pump_due m s due awaits p)
    unfolding pump_due
    pump_due-IsBounded s [] awaits p v = v
    pump_due-IsBounded s ((id, task) ∷ due) awaits p v =
        elim (Bool-cases (is_local m task p.in_flight)) [
          | inl l ↦ rw (l, pump_due) (pump_due-IsBounded s due _ p v)
          | inr l ↦ elim (Bool-cases (p.available_permits == 0)) [
            | inl z ↦
                rw (l, pump_due, z)
                  (record { listed = v.listed; distinct = v.distinct; permits = v.permits })
            | inr z ↦
                rw (l, pump_due, z)
                  (pump_due-IsBounded s due _ _
                    (claim_expired-IsBounded s id task (awaits 0) p z v))
          ]
        ]

    -- `pump_expired_tasks` leaves a process whose registry lists its running jobs, each once, and whose jobs
    -- and permits are `max` together, if it was one.
    pub pump_expired_tasks-IsBounded :
        (s : Settings m) (now_ms : ℤ) (awaits : ℕ → Await m) (p : Process m)
        → IsBounded max 0 p
        → IsBounded max 0 (pump_expired_tasks m s now_ms awaits p)
    unfolding pump_expired_tasks
    pump_expired_tasks-IsBounded s now_ms awaits p v =
        pump_due-IsBounded s _ awaits _
          (record { listed = v.listed; distinct = v.distinct; permits = v.permits })

-- ===== src/Worker/Loop/Aborted.antt =====
-- src/worker.rs: what is left of a process when its loop is dropped with jobs that still run.
use getitdone.Prelude.{
  ℕ, ◌+◌, ◌≡◌, subst, sym, String, Bool, true, List, [], ◌∷◌, contains, nat_eq, string_eq, length,
  arith, Bool-cases, inl, inr,
}
use getitdone.Prelude.Sets.{discard, IsDistinct, discard-IsDistinct, contains-discard}
use getitdone.Bson.Crate.{BsonCrate}
use getitdone.Mongo.Server.{MongoServer}
use getitdone.Worker.InFlight.{remove_task}
use getitdone.Worker.Pump.{Process, Await, drop_job, end_job, end_jobs, resume}
use getitdone.Worker.Pump.Jobs.{job_ids, job_ids-drop_job, length-drop_job}
use getitdone.Worker.Pump.Bounds.{IsBounded}
use getitdone.Worker.Loop.{cancel_job}

module _ ⦃b : BsonCrate⦄ (m : MongoServer b) where
  -- Each job that is left has its permit and is in the registry, which may have more ids.
  pub record IsWound (max : ℕ) (p : Process m) : Type 0 where
    pub distinct : IsDistinct (job_ids m p.join_set)
    pub included :
        (t : String)
        → contains (job_ids m p.join_set) t ≡ true
        → contains p.in_flight.task_ids t ≡ true
    pub permits : p.available_permits + length p.join_set ≡ max

  module _ (max : ℕ) where
    pub IsWound-of_IsBounded : (p : Process m) → IsBounded m max 0 p → IsWound max p
    IsWound-of_IsBounded p v = record {
      distinct = subst IsDistinct v.listed v.distinct;
      included = λ t h. subst (λ ids. contains ids t ≡ true) (sym v.listed) h;
      permits = omega (arith, v.permits);
    }

    -- A job goes, and with it its id, or not.
    without :
        (task_id t : String) (p : Process m)
        → IsWound max p
        → contains (job_ids m (drop_job m task_id p.join_set)) t ≡ true
        → (contains (discard task_id p.in_flight.task_ids) t ≡ true)
          × (contains p.in_flight.task_ids t ≡ true)
    without task_id t p v h =
        let left : contains (discard task_id (job_ids m p.join_set)) t ≡ true =
          rw (job_ids-drop_job m task_id p.join_set) at h in
        let still : contains (job_ids m p.join_set) t ≡ true =
          ground (arith, contains-discard t task_id (job_ids m p.join_set)) in
        (
          ground (
            arith,
            contains-discard t task_id (job_ids m p.join_set),
            contains-discard t task_id p.in_flight.task_ids,
            v.included t still,
          ),
          v.included t still,
        )

    IsDistinct-without :
        (task_id : String) (p : Process m)
        → IsWound max p
        → IsDistinct (job_ids m (drop_job m task_id p.join_set))
    IsDistinct-without task_id p v =
        subst IsDistinct (sym (job_ids-drop_job m task_id p.join_set))
          (discard-IsDistinct task_id (job_ids m p.join_set) v.distinct)

    pub cancel_job-IsWound :
        (task_id : String) (polled : Bool) (p : Process m)
        → IsWound max p
        → IsWound max (cancel_job m task_id polled p)
    unfolding cancel_job remove_task
    cancel_job-IsWound task_id polled p v =
        elim (Bool-cases (contains (job_ids m p.join_set) task_id)) [
          | inr n ↦ rw (n, cancel_job) v
          | inl h ↦
              rw (h, cancel_job)
                (record {
                  distinct = IsDistinct-without task_id p v;
                  included = λ t g. elim (Bool-cases polled) [
                    | inl y ↦ rw y (without task_id t p v g).0
                    | inr y ↦ rw y (without task_id t p v g).1
                  ];
                  permits =
                      omega (arith, v.permits, length-drop_job m task_id p.join_set v.distinct h);
                })
        ]

    end_job-IsWound :
        (task_id : String) (p : Process m) → IsWound max p → IsWound max (end_job m task_id p)
    unfolding end_job remove_task
    end_job-IsWound task_id p v = elim (Bool-cases (contains (job_ids m p.join_set) task_id)) [
      | inr n ↦ rw (n, end_job) v
      | inl h ↦
          rw (h, end_job)
            (record {
              distinct = IsDistinct-without task_id p v;
              included = λ t g. (without task_id t p v g).0;
              permits = omega (arith, v.permits, length-drop_job m task_id p.join_set v.distinct h);
            })
    ]

    end_jobs-IsWound :
        (ids : List String) (p : Process m) → IsWound max p → IsWound max (end_jobs m ids p)
    unfolding end_jobs
    end_jobs-IsWound [] p v = v
    end_jobs-IsWound (id ∷ ids) p v = end_jobs-IsWound ids _ (end_job-IsWound id p v)

    pub resume-IsWound : (a : Await m) (p : Process m) → IsWound max p → IsWound max (resume m a p)
    unfolding resume
    resume-IsWound a p v =
        let w = end_jobs-IsWound a.ended p v in
        record { distinct = w.distinct; included = w.included; permits = w.permits }

-- ===== src/Worker/Pump/Jobs.antt =====
-- src/worker.rs: the running jobs of a process, and what is left when one of them ends.
use getitdone.Prelude.{
  suc, ◌≡◌, refl, All, ◌==◌, subst, Bool-cases, inl, inr, String, true, false, List, [], ◌∷◌, map,
  contains, nat_eq, string_eq, length, arith,
}
use getitdone.Prelude.Sets.{discard, IsDistinct}
use getitdone.Bson.Crate.{BsonCrate}
use getitdone.Mongo.Server.{MongoServer}
use getitdone.Worker.Pump.{Job, Process, drop_job, end_job, end_jobs}

module _ ⦃b : BsonCrate⦄ (m : MongoServer b) where
  open b use {Document, ObjectId}
  open m use {Db}

  abbrev pub job_ids : List (Job m) → List String
  job_ids js = map (λ j. j.inflight_task_id) js

  drop_job-absent :
      (task_id : String) (js : List (Job m))
      → contains (job_ids js) task_id ≡ false
      → drop_job m task_id js ≡ js
  unfolding drop_job
  drop_job-absent task_id [] h = refl
  drop_job-absent task_id (j ∷ js) h = ground (arith, drop_job-absent task_id js)

  pub job_ids-drop_job :
      (task_id : String) (js : List (Job m))
      → job_ids (drop_job m task_id js) ≡ discard task_id (job_ids js)
  unfolding drop_job discard
  job_ids-drop_job task_id [] = refl
  job_ids-drop_job task_id (j ∷ js) = ground (arith, job_ids-drop_job task_id js)

  pub length-drop_job :
      (task_id : String) (js : List (Job m))
      → IsDistinct (job_ids js)
      → contains (job_ids js) task_id ≡ true
      → suc (length (drop_job m task_id js)) ≡ length js
  unfolding drop_job
  length-drop_job task_id [] d h = absurd (ground arith)
  length-drop_job task_id (j ∷ js) d h =
      ground (arith, drop_job-absent task_id js, length-drop_job task_id js d.1)

  -- Every job has one of the ids.
  abbrev pub AllAmong : List String → List (Job m) → Type 0
  AllAmong ids js = All (λ j. contains ids j.inflight_task_id ≡ true) js

  contains-tail :
      (id k : String) (ids : List String)
      → (k == id) ≡ false
      → contains (id ∷ ids) k ≡ true
      → contains ids k ≡ true
  contains-tail id k ids other h = ground arith

  drop_job-AllAmong :
      (id : String) (ids : List String) (js : List (Job m))
      → AllAmong (id ∷ ids) js
      → AllAmong ids (drop_job m id js)
  unfolding drop_job
  drop_job-AllAmong id ids [] a = tt
  drop_job-AllAmong id ids (j ∷ js) a = elim (Bool-cases (j.inflight_task_id == id)) [
    | inl same ↦ rw (same, drop_job) (drop_job-AllAmong id ids js a.1)
    | inr other ↦
        rw (other, drop_job)
          (contains-tail id j.inflight_task_id ids other a.0, drop_job-AllAmong id ids js a.1)
  ]

  end_job-AllAmong :
      (id : String) (ids : List String) (p : Process m)
      → AllAmong (id ∷ ids) p.join_set
      → AllAmong ids (end_job m id p).join_set
  unfolding end_job
  end_job-AllAmong id ids p a = elim (Bool-cases (contains (job_ids p.join_set) id)) [
    | inl h ↦ rw (h, end_job) (drop_job-AllAmong id ids p.join_set a)
    | inr h ↦
        rw (h, end_job)
          (subst (AllAmong ids) (drop_job-absent id p.join_set h)
            (drop_job-AllAmong id ids p.join_set a))
  ]

  empty_of_none : (js : List (Job m)) → AllAmong [] js → js ≡ []
  empty_of_none [] a = refl
  empty_of_none (j ∷ js) a = absurd (cc (a.0))

  -- No job is left where all have ended.
  pub end_jobs-empty :
      (ids : List String) (p : Process m)
      → AllAmong ids p.join_set
      → (end_jobs m ids p).join_set ≡ []
  unfolding end_jobs
  end_jobs-empty [] p a = empty_of_none p.join_set a
  end_jobs-empty (id ∷ ids) p a = end_jobs-empty ids (end_job m id p) (end_job-AllAmong id ids p a)

  widen :
      (k : String) (ids : List String) (js : List (Job m)) → AllAmong ids js → AllAmong (k ∷ ids) js
  widen k ids [] a = tt
  widen k ids (j ∷ js) a = (ground (arith, a.0), widen k ids js a.1)

  pub job_ids-AllAmong : (js : List (Job m)) → AllAmong (job_ids js) js
  job_ids-AllAmong [] = tt
  job_ids-AllAmong (j ∷ js) =
      (ground arith, widen j.inflight_task_id (job_ids js) js (job_ids-AllAmong js))

  -- Nothing ends where no job runs.
  pub end_jobs-idle :
      (ids : List String) (p : Process m) → p.join_set ≡ [] → (end_jobs m ids p).join_set ≡ []
  unfolding end_jobs end_job
  end_jobs-idle [] p h = h
  end_jobs-idle (id ∷ ids) p h = end_jobs-idle ids (end_job m id p) (ground (arith, h))

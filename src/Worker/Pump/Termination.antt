-- ===== src/Worker/Pump/Termination.antt =====
-- src/worker.rs: the rounds of `pump_available_tasks`: a claimed task gets a job and uses up a permit, and
-- the end of a job gives one back. A document without a task id is not excluded by its id, so that the
-- ids have to be there.
use getitdone.Prelude.{
  ℕ, ◌+◌, ◌-◌, ◌≤◌, ◌≡◌, ◌∙◌, refl, ap, subst, sym, String, true, false, Option, some, List, [],
  ◌∷◌, ◌++◌, contains, ◌==◌, nat_eq, string_eq, length, arith, Bool-cases, inl, inr, All,
  Option-cases,
}
use getitdone.Prelude.Sets.{contains-discard}
use getitdone.Errors.{RequestError, Result, ok, Result-cases}
use getitdone.Bson.Crate.{BsonCrate}
use getitdone.Bson.Document.{get_str}
use getitdone.Mongo.Server.{MongoServer}
use getitdone.Worker.Claim.{ClaimMode, claim_interleaved, claim_filter_attempts, claim_update}
use getitdone.Worker.Claim.Exclusion.{
  Excludes, IsFresh, IsFresh-of_Claims, claim_filter_attempts-Excludes,
}
use getitdone.Worker.Claim.Interleaved.{claim_interleaved-Found}
use getitdone.Worker.InFlight.{snapshot, insert_task, remove_task}
use getitdone.Worker.Pump.{
  Process, Await, Settings, end_job, end_jobs, resume, spawn_claimed_task, start_claimed,
  after_claim, round, pump_available_tasks,
}

module _ ⦃b : BsonCrate⦄ (m : MongoServer b) where
  open b use {Bson, Document, string, get}
  open m use {Db, contents}

  -- The document has a task id, as every document that a caller writes.
  abbrev pub IsNamed : Document → Type 0
  IsNamed d = (t : String) × (get "task_id" d ≡ some (string t))

  abbrev pub AllNamed : Db → Type 0
  AllNamed db = All IsNamed (contents db)

  -- How many jobs end while the claims are awaited, at most.
  abbrev pub ended_total : List (Await m) → ℕ
  ended_total [] = 0
  ended_total (a ∷ awaits) = length a.ended + ended_total awaits

  abbrev pub KeepNames : List (Await m) → Type 0
  KeepNames awaits =
      All
        (λ a.
          ((db : Db) → AllNamed db → AllNamed (a.others db))
          × ((n : ℕ) (db : Db) → AllNamed db → AllNamed (a.between n db)))
        awaits

  end_jobs-permits :
      (ids : List String) (p : Process m)
      → (end_jobs m ids p).available_permits ≤ p.available_permits + length ids
  unfolding end_jobs end_job
  end_jobs-permits [] p = omega arith
  end_jobs-permits (id ∷ ids) p = ground (arith, end_jobs-permits ids (end_job m id p))

  end_jobs-in_flight :
      (t : String) (ids : List String) (p : Process m)
      → contains p.in_flight.task_ids t ≡ false
      → contains (end_jobs m ids p).in_flight.task_ids t ≡ false
  unfolding end_jobs end_job remove_task
  end_jobs-in_flight t [] p h = h
  end_jobs-in_flight t (id ∷ ids) p h =
      end_jobs-in_flight t ids (end_job m id p)
        (ground (arith, contains-discard t id p.in_flight.task_ids))

  end_jobs-collection :
      (ids : List String) (p : Process m) → (end_jobs m ids p).collection ≡ p.collection
  unfolding end_jobs end_job
  end_jobs-collection [] p = refl
  end_jobs-collection (id ∷ ids) p = end_jobs-collection ids _ ∙ ground arith

  All-replace :
      (P : Document → Type 0) (front back : List Document) (x y : Document)
      → (P x → P y)
      → All P (front ++ x ∷ back)
      → All P (front ++ y ∷ back)
  All-replace P [] back x y f (p, ps) = (f p, ps)
  All-replace P (z ∷ front) back x y f (p, ps) = (p, All-replace P front back x y f ps)

  All-middle :
      (P : Document → Type 0) (front back : List Document) (x : Document)
      → All P (front ++ x ∷ back)
      → P x
  All-middle P [] back x (p, ps) = p
  All-middle P (z ∷ front) back x (p, ps) = All-middle P front back x ps

  -- A claimed task has its job, under its task id.
  pub record Started (p q : Process m) : Type 0 where
    pub task : Document
    pub task_id : String
    pub named : get "task_id" task ≡ some (string task_id)
    pub started : q.join_set ≡ record { inflight_task_id = task_id; document = task } ∷ p.join_set
    pub permits : q.available_permits ≡ p.available_permits
    pub all_named : AllNamed q.collection

  module _ (s : Settings m) (mode : ClaimMode) (sort : Option Document) (a : Await m)
      (p : Process m) where
    -- The process when the answer of the claim is there.
    abbrev pub awaited : Process m
    awaited = resume m a (record p { available_permits = p.available_permits - 1 })

    abbrev claim : Result RequestError (Option Document) × Db
    claim =
        claim_interleaved m
          (claim_filter_attempts m mode s.worker_id s.worker_switch_timeout (snapshot p.in_flight)
            sort a.now)
          (claim_update m s.worker_id a.claim_token a.claim_started_at s.worker_switch_timeout)
          a.between awaited.collection

    more-claimed :
        (round m s mode sort a p).0 ≡ true → (task : Document) × (claim.0 ≡ ok (some task))
    unfolding round after_claim
    more-claimed h = elim (Result-cases claim.0) [
      | inr (e, g) ↦ absurd (cc (rw g at h))
      | inl (o, g) ↦ elim (Option-cases o) [
        | inl n ↦ absurd (cc (rw (g, n) at h))
        | inr (task, n) ↦ (task, g ∙ ap ok n)
      ]
    ]

    -- A round of `pump_available_tasks` that goes on has claimed a task and started a job for it, under
    -- its task id, where every document has one.
    pub round-starts :
        ((n : ℕ) (db : Db) → AllNamed db → AllNamed (a.between n db))
        → AllNamed awaited.collection
        → (round m s mode sort a p).0 ≡ true
        → Started awaited (round m s mode sort a p).1
    unfolding round after_claim start_claimed spawn_claimed_task insert_task resume snapshot
    round-starts keep named h =
        let (task, g) = more-claimed h in
        let found =
          claim_interleaved-Found m
            (claim_update m s.worker_id a.claim_token a.claim_started_at s.worker_switch_timeout)
            AllNamed (λ x y same n. subst (All IsNamed) (sym same) n)
            (Excludes m (snapshot p.in_flight)) a.between
            (claim_filter_attempts m mode s.worker_id s.worker_switch_timeout (snapshot p.in_flight)
              sort a.now)
            awaited.collection task keep named
            (claim_filter_attempts-Excludes m mode s.worker_id s.worker_switch_timeout
              (snapshot p.in_flight) sort a.now)
            g in
        let fresh : IsFresh m p.in_flight.task_ids a.claim_token (contents found.before)
            (contents found.after) task =
          IsFresh-of_Claims m found.entries (snapshot p.in_flight) s.worker_id a.claim_token
            a.claim_started_at s.worker_switch_timeout _ _ task found.fits found.claims in
        let named' =
          All-middle IsNamed fresh.front fresh.back fresh.old (rw fresh.was at found.left) in
        let (t, e) = named' in
        let id : get "task_id" task ≡ some (string t) = fresh.claimed.id_kept ∙ e in
        let absent : contains awaited.in_flight.task_ids t ≡ false =
          end_jobs-in_flight t a.ended (record p { available_permits = p.available_permits - 1 })
            (fresh.not_excluded t id) in
        let str : get_str "task_id" task ≡ some t = rw id (b.as_str-string t) in
        let named_after : AllNamed found.after = rw fresh.now (
          All-replace IsNamed fresh.front fresh.back fresh.old task (λ n. (t, id))
            (rw fresh.was at found.left)) in
        record {
          task = task;
          task_id = t;
          named = id;
          started = rw (g, str, absent);
          permits = rw (g, str, absent);
          all_named =
              rw (g, str, absent)
                (subst AllNamed (sym found.last) (found.keeping found.after named_after));
        }

    awaited-AllNamed :
        ((db : Db) → AllNamed db → AllNamed (a.others db))
        → AllNamed p.collection
        → AllNamed awaited.collection
    unfolding resume
    awaited-AllNamed keep named = keep _ (
        rw (end_jobs-collection a.ended (record p { available_permits = p.available_permits - 1 }))
          named)

    awaited-permits : awaited.available_permits ≤ p.available_permits - 1 + length a.ended
    unfolding resume
    awaited-permits =
        end_jobs-permits a.ended (record p { available_permits = p.available_permits - 1 })

  -- `pump_available_tasks` ends within as many claims as there are permits and jobs that end meanwhile,
  -- where every document has a task id and no other process writes one without.
  pub pump_available_tasks-ends :
      (s : Settings m) (mode : ClaimMode) (sort : Option Document) (awaits : List (Await m))
      (p : Process m)
      → AllNamed p.collection
      → KeepNames awaits
      → p.available_permits + ended_total awaits ≤ length awaits
      → (p' : Process m) × (pump_available_tasks m s mode sort awaits p ≡ some p')
  unfolding pump_available_tasks
  pump_available_tasks-ends s mode sort [] p named keep h = (p, ground arith)
  pump_available_tasks-ends s mode sort (a ∷ awaits) p named keep h =
      elim (Bool-cases (p.available_permits == 0)) [
        | inl z ↦ (p, rw (z, pump_available_tasks))
        | inr z ↦ elim (Bool-cases (round m s mode sort a p).0) [
          | inr g ↦ ((round m s mode sort a p).1, rw (z, pump_available_tasks, g))
          | inl g ↦
              let w =
                round-starts s mode sort a p keep.0.1
                  (awaited-AllNamed s mode sort a p keep.0.0 named) g in
              let (p', e) =
                pump_available_tasks-ends s mode sort awaits (round m s mode sort a p).1 w.all_named
                  keep.1 (ground (arith, w.permits, awaited-permits s mode sort a p)) in
              (p', rw (z, pump_available_tasks, g) e)
        ]
      ]

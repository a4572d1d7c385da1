-- ===== src/Worker/Loop.antt =====
-- src/worker.rs: `worker_loop` as a step relation, on the process, the phase of the loop and the stop
-- signal. Each branch of its `select!` is a step, and so is what happens while the loop waits.
pub mod Invariant
pub mod Aborted
use getitdone.Prelude.{
  ℕ, ◌≡◌, String, Bool, true, false, Option, some, List, [], ◌∷◌, map, suc, ◌-◌, ◌==◌, nat_eq,
  contains, string_eq, if◌then◌else◌,
}
use getitdone.Prelude.Int.{ℤ}
use getitdone.Bson.Crate.{BsonCrate}
use getitdone.Mongo.Server.{MongoServer}
use getitdone.Expiry.{ExpiryTracker, ExpiringTask, new, pop_due}
use getitdone.Expiry.Documents.{ChangeStreamEvent, apply_change_event_to_expirations}
use getitdone.Expiry.Refresh.{refresh_running_expirations, refresh_pending_tasks}
use getitdone.Worker.Claim.{ClaimMode, ready, stale_recovery}
use getitdone.Worker.InFlight.{InFlightRegistry, len, remove_task}
use getitdone.Errors.{RequestError, Result, ok, err}
use getitdone.Mongo.Errors.{MongoError}
use getitdone.Worker.ChangeStream.{open_change_stream}
use getitdone.Worker.Pump.{
  Process, Await, Settings, resume, drop_job, drop_permit, round, is_local, claim_expired,
  pump_available_tasks, pump_expired_tasks,
}

-- `WorkerStats`, which shares the registry.
pub record WorkerStats : Type 0 where
  pub max_inflight : ℕ
  pub in_flight : InFlightRegistry

unfoldable pub get_running_task_cnt : WorkerStats → ℕ
get_running_task_cnt s = len s.in_flight

unfoldable pub get_max_inflight : WorkerStats → ℕ
get_max_inflight s = s.max_inflight

-- The oneshot channel of the stop signal, which every drop of its sender sends first.
pub data StopSignal : Type 0 where
  kept sent : StopSignal

-- `stop_rx` resolves.
unfoldable pub is_resolved : StopSignal → Bool
is_resolved kept = false
is_resolved sent = true

-- In the startup, in the loop, with a change stream or without, inside an awaited claim of either, in the
-- last `while`, behind `return`, or dropped by an abort of the handle.
pub data Phase : Type 0 where
  starting : Phase
  looping : Bool → Phase
  claiming : Phase
  draining : Phase
  returned : Result RequestError (Unit {0}) → Phase
  aborted : Phase

unfoldable pub is_over : Phase → Bool
is_over starting = false
is_over (looping streaming) = false
is_over claiming = false
is_over draining = false
is_over (returned r) = true
is_over aborted = true

module _ ⦃b : BsonCrate⦄ (m : MongoServer b) where
  open b use {Document, ObjectId, oid_eq}
  open m use {Db}

  pub record LoopSettings : Type 0 where
    pub settings : Settings m
    pub claim_sort : Option Document
    pub stale_recovery_sort : Option Document

  pub record LoopState : Type 0 where
    pub process : Process m
    pub phase : Phase
    pub stop : StopSignal

  abbrev pub at_phase : Process m → Phase → StopSignal → LoopState
  at_phase p phase stop = record { process = p; phase = phase; stop = stop }

  -- The state that `Worker::run` and the head of `worker_loop` set up.
  unfoldable pub initial : ℕ → Db → Process m
  initial max_inflight db = record {
    in_flight = record { task_ids = [] };
    available_permits = max_inflight;
    join_set = [];
    expiry_tracker = new;
    collection = db;
  }

  unfoldable pub refresh_running : LoopSettings → Process m → Process m
  refresh_running s p = record p {
    expiry_tracker =
        refresh_running_expirations m s.settings.worker_switch_timeout p.collection
          p.expiry_tracker;
  }

  unfoldable pub refresh_pending : Process m → Process m
  refresh_pending p = record p {
    expiry_tracker = refresh_pending_tasks m p.collection p.expiry_tracker;
  }

  -- Both scans, each of which is awaited.
  unfoldable pub refreshed : LoopSettings → Await m → Await m → Process m → Process m
  refreshed s first second p =
      resume m second (refresh_pending (resume m first (refresh_running s p)))

  unfoldable pub applied_event : LoopSettings → ChangeStreamEvent Document → Process m → Process m
  applied_event s event p = record p {
    expiry_tracker =
        (apply_change_event_to_expirations event s.settings.worker_switch_timeout
          p.expiry_tracker).0;
  }

  abbrev pub makes_ready : LoopSettings → ChangeStreamEvent Document → Process m → Bool
  makes_ready s event p =
      (apply_change_event_to_expirations event s.settings.worker_switch_timeout p.expiry_tracker).1

  -- The pump for ready tasks, and the one of the periodic recovery.
  abbrev pub pump_ready : LoopSettings → List (Await m) → Process m → Option (Process m)
  pump_ready s awaits p = pump_available_tasks m s.settings ready s.claim_sort awaits p

  abbrev pub pump_stale : LoopSettings → List (Await m) → Process m → Option (Process m)
  pump_stale s awaits p =
      pump_available_tasks m s.settings stale_recovery s.stale_recovery_sort awaits p

  -- The future of a job is dropped, which gives its permit back. Its guard takes the id out of the registry,
  -- but a job that was never polled has not made its guard.
  unfoldable pub cancel_job : String → Bool → Process m → Process m
  cancel_job task_id polled p =
      if contains (map (λ j. j.inflight_task_id) p.join_set) task_id
      then record p {
        in_flight = if polled then remove_task task_id p.in_flight else p.in_flight;
        available_permits = suc p.available_permits;
        join_set = drop_job m task_id p.join_set;
      }
      else p

  -- The loop is dropped, with the permit that it holds inside a claim.
  unfoldable pub dropped_loop : Phase → Process m → Process m
  dropped_loop starting p = p
  dropped_loop (looping streaming) p = p
  dropped_loop claiming p = drop_permit m p
  dropped_loop draining p = p
  dropped_loop (returned r) p = p
  dropped_loop aborted p = p

  -- The loop has taken a permit and awaits the answer of its claim.
  abbrev pub holding : Process m → Process m
  holding p = record p { available_permits = p.available_permits - 1 }

  -- From the process at its start, `pump_available_tasks` comes to an awaited claim.
  pub data InPump (s : LoopSettings) (mode : ClaimMode) (sort : Option Document)
      : Process m → Process m → Type 0 where
    asks : (p : Process m) → (p.available_permits == 0) ≡ false → InPump s mode sort p (holding p)
    asks_again :
        (a : Await m) (p q : Process m)
        → (p.available_permits == 0) ≡ false
        → (round m s.settings mode sort a p).0 ≡ true
        → InPump s mode sort (round m s.settings mode sort a p).1 q
        → InPump s mode sort p q

  -- And so does `pump_expired_tasks`, on the tasks that are due.
  pub data InExpired (s : LoopSettings)
      : List (ObjectId × ExpiringTask) → Process m → Process m → Type 0 where
    asks_for :
        (id : ObjectId) (task : ExpiringTask) (due : List (ObjectId × ExpiringTask)) (p : Process m)
        → is_local m task p.in_flight ≡ false
        → (p.available_permits == 0) ≡ false
        → InExpired s ((id, task) ∷ due) p (holding p)
    skips :
        (id : ObjectId) (task : ExpiringTask) (due : List (ObjectId × ExpiringTask))
        (p q : Process m)
        → is_local m task p.in_flight ≡ true
        → InExpired s due p q
        → InExpired s ((id, task) ∷ due) p q
    asks_for_next :
        (id : ObjectId) (task : ExpiringTask) (due : List (ObjectId × ExpiringTask)) (a : Await m)
        (p q : Process m)
        → is_local m task p.in_flight ≡ false
        → (p.available_permits == 0) ≡ false
        → InExpired s due (claim_expired m s.settings id task a p) q
        → InExpired s ((id, task) ∷ due) p q

  pub data Step (s : LoopSettings) : LoopState → LoopState → Type 0 where
    -- Other jobs end and other processes write, while the loop waits or after it has ended.
    waits :
        (a : Await m) (p : Process m) (phase : Phase) (stop : StopSignal)
        → Step s (at_phase p phase stop) (at_phase (resume m a p) phase stop)
    -- The handle sends the signal.
    handled :
        (p : Process m) (phase : Phase) → Step s (at_phase p phase kept) (at_phase p phase sent)
    -- The handle is dropped, which aborts the loop at one of its awaits.
    aborts :
        (p : Process m) (phase : Phase) (stop : StopSignal)
        → is_over phase ≡ false
        → Step s (at_phase p phase stop) (at_phase (dropped_loop phase p) aborted sent)
    -- With the loop its `JoinSet` is dropped: the runtime drops the jobs, one after the other.
    cancels :
        (task_id : String) (polled : Bool) (p : Process m) (phase : Phase) (stop : StopSignal)
        → is_over phase ≡ true
        → Step s (at_phase p phase stop) (at_phase (cancel_job task_id polled p) phase stop)
    -- The startup.
    starts :
        (watched : Result MongoError (Unit {0})) (opened : Bool) (first second : Await m)
        (awaits : List (Await m)) (p p' : Process m) (stop : StopSignal)
        → open_change_stream watched ≡ ok opened
        → pump_ready s awaits (refreshed s first second p) ≡ some p'
        → Step s (at_phase p starting stop) (at_phase p' (looping opened) stop)
    fails :
        (watched : Result MongoError (Unit {0})) (e : RequestError) (p : Process m)
        (stop : StopSignal)
        → open_change_stream watched ≡ err e
        → Step s (at_phase p starting stop) (at_phase p (returned (err e)) stop)
    -- The same pumps, seen inside one of their claims.
    start_claims :
        (watched : Result MongoError (Unit {0})) (opened : Bool) (first second : Await m)
        (p q : Process m) (stop : StopSignal)
        → open_change_stream watched ≡ ok opened
        → InPump s ready s.claim_sort (refreshed s first second p) q
        → Step s (at_phase p starting stop) (at_phase q claiming stop)
    reopen_claims :
        (watched : Result MongoError (Unit {0})) (opened : Bool) (first second : Await m)
        (p q : Process m) (stop : StopSignal)
        → open_change_stream watched ≡ ok opened
        → InPump s ready s.claim_sort (refreshed s first second p) q
        → Step s (at_phase p (looping false) stop) (at_phase q claiming stop)
    expiry_claims :
        (now_ms : ℤ) (p q : Process m) (stop : StopSignal)
        → InExpired s
            (pop_due ⦃e = oid_eq⦄ now_ms p.expiry_tracker).0
            (record p { expiry_tracker = (pop_due ⦃e = oid_eq⦄ now_ms p.expiry_tracker).1 })
            q
        → Step s (at_phase p (looping true) stop) (at_phase q claiming stop)
    tick_claims :
        (first second : Await m) (p q : Process m) (stop : StopSignal)
        → InPump s stale_recovery s.stale_recovery_sort (refreshed s first second p) q
        → Step s (at_phase p (looping true) stop) (at_phase q claiming stop)
    join_claims :
        (p q : Process m) (stop : StopSignal)
        → InPump s ready s.claim_sort p q
        → Step s (at_phase p (looping true) stop) (at_phase q claiming stop)
    event_claims :
        (event : ChangeStreamEvent Document) (p q : Process m) (stop : StopSignal)
        → makes_ready s event p ≡ true
        → InPump s ready s.claim_sort (applied_event s event p) q
        → Step s (at_phase p (looping true) stop) (at_phase q claiming stop)
    -- `open_change_stream` has answered; without a stream it is asked again.
    reopens :
        (watched : Result MongoError (Unit {0})) (opened : Bool) (first second : Await m)
        (awaits : List (Await m)) (p p' : Process m) (stop : StopSignal)
        → open_change_stream watched ≡ ok opened
        → pump_ready s awaits (refreshed s first second p) ≡ some p'
        → Step s (at_phase p (looping false) stop) (at_phase p' (looping opened) stop)
    gives_up :
        (watched : Result MongoError (Unit {0})) (e : RequestError) (p : Process m)
        (stop : StopSignal)
        → open_change_stream watched ≡ err e
        → Step s (at_phase p (looping false) stop) (at_phase p (returned (err e)) stop)
    -- The branches of `select!`.
    stops :
        (p : Process m) (stop : StopSignal)
        → is_resolved stop ≡ true
        → Step s (at_phase p (looping true) stop) (at_phase p draining stop)
    expires :
        (now_ms : ℤ) (awaits : ℕ → Await m) (p : Process m) (stop : StopSignal)
        → Step s
            (at_phase p (looping true) stop)
            (at_phase (pump_expired_tasks m s.settings now_ms awaits p) (looping true) stop)
    ticks :
        (first second : Await m) (awaits : List (Await m)) (p p' : Process m) (stop : StopSignal)
        → pump_stale s awaits (refreshed s first second p) ≡ some p'
        → Step s (at_phase p (looping true) stop) (at_phase p' (looping true) stop)
    joins :
        (awaits : List (Await m)) (p p' : Process m) (stop : StopSignal)
        → pump_ready s awaits p ≡ some p'
        → Step s (at_phase p (looping true) stop) (at_phase p' (looping true) stop)
    hears :
        (event : ChangeStreamEvent Document) (p : Process m) (stop : StopSignal)
        → makes_ready s event p ≡ false
        → Step s
            (at_phase p (looping true) stop)
            (at_phase (applied_event s event p) (looping true) stop)
    hears_ready :
        (event : ChangeStreamEvent Document) (awaits : List (Await m)) (p p' : Process m)
        (stop : StopSignal)
        → makes_ready s event p ≡ true
        → pump_ready s awaits (applied_event s event p) ≡ some p'
        → Step s (at_phase p (looping true) stop) (at_phase p' (looping true) stop)
    -- The stream has failed or is closed.
    loses :
        (p : Process m) (stop : StopSignal)
        → Step s (at_phase p (looping true) stop) (at_phase p (looping false) stop)
    -- `join_next` has answered `None`.
    drains :
        (p : Process m) (stop : StopSignal)
        → p.join_set ≡ []
        → Step s (at_phase p draining stop) (at_phase p (returned (ok tt)) stop)

  pub data Steps (s : LoopSettings) (x : LoopState) : LoopState → Type 0 where
    here : Steps s x x
    next : (y z : LoopState) → Steps s x y → Step s y z → Steps s x z

  -- The states in which the loop can be, from its spawn on.
  pub data Reachable (s : LoopSettings) (max_inflight : ℕ) : LoopState → Type 0 where
    begins : (db : Db) → Reachable s max_inflight (at_phase (initial max_inflight db) starting kept)
    goes_on :
        (x y : LoopState) → Reachable s max_inflight x → Step s x y → Reachable s max_inflight y

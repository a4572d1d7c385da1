-- ===== src/Worker/Loop/Invariant.antt =====
-- src/worker.rs: the states of `worker_loop`.
use getitdone.Prelude.{
  ℕ, ◌≡◌, refl, Option, some, List, [], string_eq, nat_eq, ◌==◌, arith, Bool, true, false, contains,
  String,
}
use getitdone.Bson.Crate.{BsonCrate}
use getitdone.Mongo.Server.{MongoServer}
use getitdone.Prelude.Int.{ℤ}
use getitdone.Errors.{ok, err}
use getitdone.Expiry.{ExpiringTask, pop_due}
use getitdone.Expiry.PopDue.{pop_due-IsIndexed}
use getitdone.Expiry.Index.{new-IsIndexed}
use getitdone.Expiry.Documents.{ChangeStreamEvent}
use getitdone.Expiry.Documents.Preservation.{apply_change_event_to_expirations-IsIndexed}
use getitdone.Expiry.Refresh.{
  refresh_running_expirations-IsIndexed, refresh_pending_tasks-IsIndexed,
}
use getitdone.Worker.Claim.{ClaimMode, ready, stale_recovery}
use getitdone.Worker.Pump.{Process, Await, resume, drop_permit, pump_available_tasks}
use getitdone.Worker.Pump.Bounds.{
  IsBounded, resume-IsBounded, round-IsBounded, claim_expired-IsBounded, drop_permit-IsBounded,
  pump_available_tasks-IsBounded, pump_expired_tasks-IsBounded,
}
use getitdone.Worker.Pump.Tracking.{
  Tracks, resume-tracker, round-Tracks, claim_expired-Tracks, pump_available_tasks-Tracks,
  pump_expired_tasks-Tracks,
}
use getitdone.Worker.Pump.Jobs.{job_ids, end_jobs-idle}
use getitdone.Worker.Loop.{
  Phase, starting, looping, claiming, draining, returned, aborted, is_over, StopSignal, kept, sent,
  LoopSettings, LoopState, at_phase, initial, refresh_running, refresh_pending, refreshed,
  applied_event, cancel_job, dropped_loop, holding, InPump, asks, asks_again, InExpired, asks_for,
  skips, asks_for_next, Step, waits, handled, aborts, cancels, starts, fails, start_claims,
  reopen_claims, expiry_claims, tick_claims, join_claims, event_claims, reopens, gives_up, stops,
  expires, ticks, joins, hears, hears_ready, loses, drains, Reachable, begins, goes_on,
}
use getitdone.Worker.Loop.Aborted.{
  IsWound, IsWound-of_IsBounded, cancel_job-IsWound, resume-IsWound,
}

module _ ⦃b : BsonCrate⦄ (m : MongoServer b) (s : LoopSettings m) (max_inflight : ℕ) where
  open b use {Document, ObjectId, oid_eq}

  abbrev IsFine : Process m → Type 0
  IsFine p = IsBounded m max_inflight 0 p × Tracks m p

  -- What holds in each phase. The loop itself has one permit inside a claim, and else none. Behind a
  -- `return` of an error and an abort, jobs may be left that the runtime has yet to drop.
  abbrev pub InStep : Phase → Process m → Type 0
  InStep starting p = IsBounded m max_inflight 0 p
  InStep (looping streaming) p = IsBounded m max_inflight 0 p
  InStep claiming p = IsBounded m max_inflight 1 p
  InStep draining p = IsBounded m max_inflight 0 p
  InStep (returned (ok x)) p = IsBounded m max_inflight 0 p × (p.join_set ≡ [])
  InStep (returned (err e)) p = IsWound m max_inflight p
  InStep aborted p = IsWound m max_inflight p

  -- The registry, the permits and the jobs are in step, and so are the maps of the tracker.
  pub record IsSound (x : LoopState m) : Type 0 where
    pub in_step : InStep x.phase x.process
    pub tracks : Tracks m x.process

  initial-IsFine : (db : m.Db) → IsFine (initial m max_inflight db)
  unfolding initial
  initial-IsFine db =
      (record { listed = refl; distinct = tt; permits = omega arith }, new-IsIndexed ⦃e = oid_eq⦄)

  resume-IsFine : (a : Await m) (p : Process m) → IsFine p → IsFine (resume m a p)
  resume-IsFine a p v = (resume-IsBounded m max_inflight 0 a p v.0, rw (resume-tracker m a p) v.1)

  refresh_running-IsFine : (p : Process m) → IsFine p → IsFine (refresh_running m s p)
  unfolding refresh_running
  refresh_running-IsFine p v = (
    record { listed = v.0.listed; distinct = v.0.distinct; permits = v.0.permits },
    refresh_running_expirations-IsIndexed m s.settings.worker_switch_timeout p.collection
        p.expiry_tracker v.1,
  )

  refresh_pending-IsFine : (p : Process m) → IsFine p → IsFine (refresh_pending m p)
  unfolding refresh_pending
  refresh_pending-IsFine p v = (
    record { listed = v.0.listed; distinct = v.0.distinct; permits = v.0.permits },
    refresh_pending_tasks-IsIndexed m p.collection p.expiry_tracker v.1,
  )

  refreshed-IsFine :
      (first second : Await m) (p : Process m) → IsFine p → IsFine (refreshed m s first second p)
  unfolding refreshed
  refreshed-IsFine first second p v =
      resume-IsFine second _
        (refresh_pending-IsFine _ (resume-IsFine first _ (refresh_running-IsFine p v)))

  applied_event-IsFine :
      (event : ChangeStreamEvent Document) (p : Process m)
      → IsFine p
      → IsFine (applied_event m s event p)
  unfolding applied_event
  applied_event-IsFine event p v = (
    record { listed = v.0.listed; distinct = v.0.distinct; permits = v.0.permits },
    apply_change_event_to_expirations-IsIndexed event s.settings.worker_switch_timeout
        p.expiry_tracker v.1,
  )

  pump-IsFine :
      (mode : ClaimMode) (sort : Option Document) (awaits : List (Await m)) (p p' : Process m)
      → IsFine p
      → pump_available_tasks m s.settings mode sort awaits p ≡ some p'
      → IsFine p'
  pump-IsFine mode sort awaits p p' v h = (
    pump_available_tasks-IsBounded m max_inflight s.settings mode sort awaits p p' v.0 h,
    pump_available_tasks-Tracks m s.settings mode sort awaits p p' v.1 h,
  )

  -- Inside a claim.
  holding-IsBounded :
      (p : Process m)
      → (p.available_permits == 0) ≡ false
      → IsBounded m max_inflight 0 p
      → IsBounded m max_inflight 1 (holding m p)
  holding-IsBounded p z v = record {
    listed = v.listed;
    distinct = v.distinct;
    permits = ground (arith, v.permits);
  }

  abbrev IsHeld : Process m → Type 0
  IsHeld q = IsBounded m max_inflight 1 q × Tracks m q

  InPump-IsHeld :
      (mode : ClaimMode) (sort : Option Document) (p q : Process m)
      → InPump m s mode sort p q
      → IsFine p
      → IsHeld q
  InPump-IsHeld mode sort p q (asks p' z) v = (holding-IsBounded p z v.0, v.1)
  InPump-IsHeld mode sort p q (asks_again a p' q' z more inside) v =
      InPump-IsHeld mode sort _ q inside (
        round-IsBounded m max_inflight s.settings mode sort a p z v.0,
        round-Tracks m s.settings mode sort a p v.1,
      )

  InExpired-IsHeld :
      (due : List (ObjectId × ExpiringTask)) (p q : Process m)
      → InExpired m s due p q
      → IsFine p
      → IsHeld q
  InExpired-IsHeld due p q (asks_for id task rest p' l z) v = (holding-IsBounded p z v.0, v.1)
  InExpired-IsHeld due p q (skips id task rest p' q' l inside) v =
      InExpired-IsHeld rest p q inside v
  InExpired-IsHeld due p q (asks_for_next id task rest a p' q' l z inside) v =
      InExpired-IsHeld rest _ q inside (
        claim_expired-IsBounded m max_inflight s.settings id task a p z v.0,
        claim_expired-Tracks m s.settings id task a p v.1,
      )

  popped-IsFine :
      (now_ms : ℤ) (p : Process m)
      → IsFine p
      → IsFine (record p { expiry_tracker = (pop_due ⦃e = oid_eq⦄ now_ms p.expiry_tracker).1 })
  popped-IsFine now_ms p v = (
    record { listed = v.0.listed; distinct = v.0.distinct; permits = v.0.permits },
    pop_due-IsIndexed ⦃e = oid_eq⦄ now_ms p.expiry_tracker v.1,
  )

  waits-InStep :
      (a : Await m) (phase : Phase) (p : Process m) → InStep phase p → InStep phase (resume m a p)
  unfolding resume
  waits-InStep a starting p v = resume-IsBounded m max_inflight 0 a p v
  waits-InStep a (looping streaming) p v = resume-IsBounded m max_inflight 0 a p v
  waits-InStep a claiming p v = resume-IsBounded m max_inflight 1 a p v
  waits-InStep a draining p v = resume-IsBounded m max_inflight 0 a p v
  waits-InStep a (returned (ok x)) p v =
      (resume-IsBounded m max_inflight 0 a p v.0, end_jobs-idle m a.ended p v.1)
  waits-InStep a (returned (err e)) p v = resume-IsWound m max_inflight a p v
  waits-InStep a aborted p v = resume-IsWound m max_inflight a p v

  -- The abort of the loop, inside a claim or not.
  dropped_loop-IsWound :
      (phase : Phase) (p : Process m)
      → is_over phase ≡ false
      → InStep phase p
      → IsWound m max_inflight (dropped_loop m phase p)
  unfolding dropped_loop is_over
  dropped_loop-IsWound starting p o v = IsWound-of_IsBounded m max_inflight p v
  dropped_loop-IsWound (looping streaming) p o v = IsWound-of_IsBounded m max_inflight p v
  dropped_loop-IsWound claiming p o v =
      IsWound-of_IsBounded m max_inflight _ (drop_permit-IsBounded m max_inflight p v)
  dropped_loop-IsWound draining p o v = IsWound-of_IsBounded m max_inflight p v
  dropped_loop-IsWound (returned r) p o v = absurd (cc)
  dropped_loop-IsWound aborted p o v = absurd (cc)

  dropped_loop-tracker :
      (phase : Phase) (p : Process m) → (dropped_loop m phase p).expiry_tracker ≡ p.expiry_tracker
  unfolding dropped_loop drop_permit
  dropped_loop-tracker starting p = refl
  dropped_loop-tracker (looping streaming) p = refl
  dropped_loop-tracker claiming p = refl
  dropped_loop-tracker draining p = refl
  dropped_loop-tracker (returned r) p = refl
  dropped_loop-tracker aborted p = refl

  cancel_job-InStep :
      (task_id : String) (polled : Bool) (phase : Phase) (p : Process m)
      → is_over phase ≡ true
      → InStep phase p
      → InStep phase (cancel_job m task_id polled p)
  unfolding is_over cancel_job
  cancel_job-InStep task_id polled starting p o v = absurd (cc)
  cancel_job-InStep task_id polled (looping streaming) p o v = absurd (cc)
  cancel_job-InStep task_id polled claiming p o v = absurd (cc)
  cancel_job-InStep task_id polled draining p o v = absurd (cc)
  cancel_job-InStep task_id polled (returned (ok x)) p o v =
      let idle : contains (job_ids m p.join_set) task_id ≡ false = rw v.1 in rw (idle, cancel_job) v
  cancel_job-InStep task_id polled (returned (err e)) p o v =
      cancel_job-IsWound m max_inflight task_id polled p v
  cancel_job-InStep task_id polled aborted p o v =
      cancel_job-IsWound m max_inflight task_id polled p v

  cancel_job-tracker :
      (task_id : String) (polled : Bool) (p : Process m)
      → (cancel_job m task_id polled p).expiry_tracker ≡ p.expiry_tracker
  unfolding cancel_job
  cancel_job-tracker task_id polled p = ground arith

  sound :
      (p : Process m) (phase : Phase) (stop : StopSignal)
      → InStep phase p
      → Tracks m p
      → IsSound (at_phase m p phase stop)
  sound p phase stop v t = record { in_step = v; tracks = t }

  Step-IsSound : (x y : LoopState m) → Step m s x y → IsSound x → IsSound y
  Step-IsSound x y (waits a p phase stop) v =
      sound _ phase stop (waits-InStep a phase p v.in_step) (rw (resume-tracker m a p) v.tracks)
  Step-IsSound x y (handled p phase) v = sound p phase sent v.in_step v.tracks
  Step-IsSound x y (aborts p phase stop o) v =
      sound _ aborted sent (dropped_loop-IsWound phase p o v.in_step)
        (rw (dropped_loop-tracker phase p) v.tracks)
  Step-IsSound x y (cancels task_id polled p phase stop o) v =
      sound _ phase stop (cancel_job-InStep task_id polled phase p o v.in_step)
        (rw (cancel_job-tracker task_id polled p) v.tracks)
  Step-IsSound x y (starts watched opened first second awaits p p' stop o h) v =
      let w =
        pump-IsFine ready s.claim_sort awaits _ p'
          (refreshed-IsFine first second p (v.in_step, v.tracks)) h in
      sound p' (looping opened) stop w.0 w.1
  Step-IsSound x y (fails watched e p stop o) v =
      sound p (returned (err e)) stop (IsWound-of_IsBounded m max_inflight p v.in_step) v.tracks
  Step-IsSound x y (start_claims watched opened first second p q stop o inside) v =
      let w =
        InPump-IsHeld ready s.claim_sort _ q inside
          (refreshed-IsFine first second p (v.in_step, v.tracks)) in
      sound q claiming stop w.0 w.1
  Step-IsSound x y (reopen_claims watched opened first second p q stop o inside) v =
      let w =
        InPump-IsHeld ready s.claim_sort _ q inside
          (refreshed-IsFine first second p (v.in_step, v.tracks)) in
      sound q claiming stop w.0 w.1
  Step-IsSound x y (expiry_claims now_ms p q stop inside) v =
      let w = InExpired-IsHeld _ _ q inside (popped-IsFine now_ms p (v.in_step, v.tracks)) in
      sound q claiming stop w.0 w.1
  Step-IsSound x y (tick_claims first second p q stop inside) v =
      let w =
        InPump-IsHeld stale_recovery s.stale_recovery_sort _ q inside
          (refreshed-IsFine first second p (v.in_step, v.tracks)) in
      sound q claiming stop w.0 w.1
  Step-IsSound x y (join_claims p q stop inside) v =
      let w = InPump-IsHeld ready s.claim_sort p q inside (v.in_step, v.tracks) in
      sound q claiming stop w.0 w.1
  Step-IsSound x y (event_claims event p q stop r inside) v =
      let w =
        InPump-IsHeld ready s.claim_sort _ q inside
          (applied_event-IsFine event p (v.in_step, v.tracks)) in
      sound q claiming stop w.0 w.1
  Step-IsSound x y (reopens watched opened first second awaits p p' stop o h) v =
      let w =
        pump-IsFine ready s.claim_sort awaits _ p'
          (refreshed-IsFine first second p (v.in_step, v.tracks)) h in
      sound p' (looping opened) stop w.0 w.1
  Step-IsSound x y (gives_up watched e p stop o) v =
      sound p (returned (err e)) stop (IsWound-of_IsBounded m max_inflight p v.in_step) v.tracks
  Step-IsSound x y (stops p stop r) v = sound p draining stop v.in_step v.tracks
  Step-IsSound x y (expires now_ms awaits p stop) v =
      sound _ (looping true) stop
        (pump_expired_tasks-IsBounded m max_inflight s.settings now_ms awaits p v.in_step)
        (pump_expired_tasks-Tracks m s.settings now_ms awaits p v.tracks)
  Step-IsSound x y (ticks first second awaits p p' stop h) v =
      let w =
        pump-IsFine stale_recovery s.stale_recovery_sort awaits _ p'
          (refreshed-IsFine first second p (v.in_step, v.tracks)) h in
      sound p' (looping true) stop w.0 w.1
  Step-IsSound x y (joins awaits p p' stop h) v =
      let w = pump-IsFine ready s.claim_sort awaits p p' (v.in_step, v.tracks) h in
      sound p' (looping true) stop w.0 w.1
  Step-IsSound x y (hears event p stop h) v =
      let w = applied_event-IsFine event p (v.in_step, v.tracks) in
      sound _ (looping true) stop w.0 w.1
  Step-IsSound x y (hears_ready event awaits p p' stop r h) v =
      let w =
        pump-IsFine ready s.claim_sort awaits _ p'
          (applied_event-IsFine event p (v.in_step, v.tracks)) h in
      sound p' (looping true) stop w.0 w.1
  Step-IsSound x y (loses p stop) v = sound p (looping false) stop v.in_step v.tracks
  Step-IsSound x y (drains p stop e) v = sound p (returned (ok tt)) stop (v.in_step, e) v.tracks

  -- In every state that `worker_loop` reaches, from its spawn on and also inside an awaited claim, however
  -- jobs, other processes and its branches interleave, the registry lists the running jobs, each once, and
  -- the jobs, the permits that are left and the one that the loop has inside a claim are `max_inflight`
  -- together. Where it has returned `Ok`, this holds with no job. Where it has returned an error or has been
  -- aborted, the jobs that the runtime has yet to drop and the permits are `max_inflight` together, and these
  -- jobs are in the registry, which may keep ids of jobs that were never polled. The maps of the tracker
  -- are in step throughout.
  pub Reachable-IsSound : (x : LoopState m) → Reachable m s max_inflight x → IsSound x
  Reachable-IsSound x (begins db) = let w = initial-IsFine db in sound _ starting kept w.0 w.1
  Reachable-IsSound y (goes_on x y' r step) = Step-IsSound x y' step (Reachable-IsSound x r)

-- ===== src/Tests/LoopRuns.antt =====
-- Runs of the loops of src/worker.rs: a worker of one permit meets two pending tasks.
use getitdone.Prelude.{
  ◌≡◌, refl, String, true, false, none, some, [], ◌∷◌, arith, nat_eq, string_eq,
}
use getitdone.Prelude.Int.{pos, int_eq}
use getitdone.Time.{from_secs}
use getitdone.Bson.Memory.{memory, Fields, end, field, text, get_field}
use getitdone.Mongo.Memory.Instance.{server}
use getitdone.Mongo.Memory.Laws.{Db}
use getitdone.Worker.Claim.{ready}
use getitdone.Worker.Pump.{Process, Await, end_jobs, resume, pump_available_tasks}
use getitdone.Worker.Pump.Termination.{AllNamed, pump_available_tasks-ends}
use getitdone.Worker.Loop.{
  LoopSettings, LoopState, looping, returned, kept, Reachable, begins, goes_on, starts, starting,
  handled, Steps, initial, at_phase, sent, reopens, next, here, stops, waits, drains, draining,
  is_resolved, refreshed, refresh_running, refresh_pending,
}
use getitdone.Worker.ChangeStream.{open_change_stream}
use getitdone.Worker.Shutdown.{returns_drained, returns_by_stream}
use getitdone.Worker.Pump.Jobs.{job_ids, job_ids-AllAmong, end_jobs-empty}
use getitdone.Errors.{ok}
use getitdone.Worker.Loop.Invariant.{IsSound, Reachable-IsSound}

abbrev waiting : String → Fields
waiting task_id = field "task_id" (text task_id) (field "status" (text "pending") end)

abbrev two : Db
two = record { docs = waiting "task-a" ∷ waiting "task-b" ∷ []; online = true }

abbrev quiet : Await server
quiet = record {
  ended = [];
  others = λ db. db;
  between = λ n db. db;
  claim_token = "token";
  now = pos 5;
  claim_started_at = pos 6;
}

-- While the second claim is awaited, the job of the first task ends.
abbrev busy : Await server
busy = record {
  ended = "task-a" ∷ [];
  others = λ db. db;
  between = λ n db. db;
  claim_token = "other token";
  now = pos 7;
  claim_started_at = pos 8;
}

abbrev loop : LoopSettings server
loop = record {
  settings = record { worker_id = "worker-1"; worker_switch_timeout = from_secs 10 };
  claim_sort = none;
  stale_recovery_sort = none;
}

abbrev begun : Process server
begun = refreshed server loop quiet quiet (initial server 2 two)

begun-AllNamed : AllNamed server begun.collection
unfolding refreshed resume end_jobs refresh_pending refresh_running initial get_field string_eq
begun-AllNamed = (("task-a", refl), (("task-b", refl), tt))

begun-permits : begun.available_permits ≡ 2
unfolding refreshed resume end_jobs refresh_pending refresh_running initial
begun-permits = refl

pump_available_tasks-ends_example :
    (p : Process server) × (pump_available_tasks server loop.settings ready none
        (quiet ∷ busy ∷ quiet ∷ [])
        begun
      ≡ some p)
pump_available_tasks-ends_example =
    pump_available_tasks-ends server loop.settings ready none (quiet ∷ busy ∷ quiet ∷ []) begun
      begun-AllNamed
      ((λ db n. n, λ k db n. n), ((λ db n. n, λ k db n. n), ((λ db n. n, λ k db n. n), tt)))
      (omega (arith, begun-permits))

begun-ends :
    (p : Process server) × (pump_available_tasks server loop.settings ready none
        (quiet ∷ busy ∷ quiet ∷ [])
        begun
      ≡ some p)
begun-ends =
    pump_available_tasks-ends server loop.settings ready none (quiet ∷ busy ∷ quiet ∷ []) begun
      begun-AllNamed
      ((λ db n. n, λ k db n. n), ((λ db n. n, λ k db n. n), ((λ db n. n, λ k db n. n), tt)))
      (omega (arith, begun-permits))

abbrev state : LoopState server
state = record { process = begun-ends.0; phase = looping true; stop = kept }

abbrev spawned : LoopState server
spawned = at_phase server (initial server 2 two) starting kept

state-Reachable : Reachable server loop 2 state
unfolding open_change_stream
state-Reachable = goes_on spawned state (begins two) (
    starts (ok tt) true quiet quiet (quiet ∷ busy ∷ quiet ∷ []) (initial server 2 two) begun-ends.0
      kept refl begun-ends.1)

Reachable-IsSound_example : IsSound server loop 2 state
Reachable-IsSound_example = Reachable-IsSound server loop 2 state state-Reachable

-- Another await, in which all jobs that run then end.
abbrev all_end : Await server
all_end = record quiet { ended = job_ids server state.process.join_set }

-- The first stream has not been opened, and the handle has been dropped meanwhile.
abbrev deaf : LoopState server
deaf = at_phase server (initial server 2 two) (looping false) sent

abbrev drained : Process server
drained = resume server all_end state.process

drained-idle : drained.join_set ≡ []
unfolding resume
drained-idle =
    end_jobs-empty server all_end.ended state.process
      (job_ids-AllAmong server state.process.join_set)

deaf_run : Steps server loop deaf (at_phase server drained (returned (ok tt)) sent)
unfolding open_change_stream is_resolved
deaf_run =
    let reopened =
      reopens (ok tt) true quiet quiet (quiet ∷ busy ∷ quiet ∷ []) (initial server 2 two)
        begun-ends.0 sent refl begun-ends.1 in
    next _ _
      (next _ _ (next _ _ (next _ _ here reopened) (stops state.process sent refl))
        (waits all_end state.process draining sent))
      (drains drained sent drained-idle)

returns_by_stream_example :
    (z : LoopState server) × Steps server loop deaf z
    × Steps server loop z (at_phase server drained (returned (ok tt)) sent)
    × (z.phase ≡ looping true)
returns_by_stream_example =
    returns_by_stream server loop deaf (at_phase server drained (returned (ok tt)) sent) deaf_run
      refl refl

abbrev finished : LoopState server
finished = at_phase server drained (returned (ok tt)) sent

-- The worker is shut down after its startup.
shutdown_run : Steps server loop spawned finished
unfolding open_change_stream is_resolved
shutdown_run =
    let started =
      starts (ok tt) true quiet quiet (quiet ∷ busy ∷ quiet ∷ []) (initial server 2 two)
        begun-ends.0 kept refl begun-ends.1 in
    next _ _
      (next _ _
        (next _ _ (next _ _ (next _ _ here started) (handled state.process (looping true)))
          (stops state.process sent refl))
        (waits all_end state.process draining sent))
      (drains drained sent drained-idle)

returns_drained_example :
    (z : LoopState server) × Steps server loop spawned z
    × Steps server loop z finished
    × (z.phase ≡ draining)
    × (z.stop ≡ sent)
    × (drained.join_set ≡ [])
    × (drained.in_flight.task_ids ≡ [])
    × (drained.available_permits ≡ 2)
returns_drained_example = returns_drained server loop 2 two finished shutdown_run refl

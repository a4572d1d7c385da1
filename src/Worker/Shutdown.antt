-- ===== src/Worker/Shutdown.antt =====
-- src/worker.rs: the end of `worker_loop`, by its handle or by an error.
use getitdone.Prelude.{
  ℕ, ◌≡◌, ◌∙◌, refl, ap, Bool, true, false, not, ◌⊎◌, inl, inr, [], map, arith, string_eq, length,
}
use getitdone.Errors.{ok, err}
use getitdone.Bson.Crate.{BsonCrate}
use getitdone.Mongo.Server.{MongoServer}
use getitdone.Worker.Pump.{Process}
use getitdone.Worker.Loop.Invariant.{InStep, Reachable-IsSound}
use getitdone.Worker.Loop.{
  Phase, StopSignal, kept, sent, is_resolved, is_over, starting, looping, claiming, draining,
  returned, aborted, LoopSettings, LoopState, at_phase, Step, waits, handled, aborts, cancels,
  starts, fails, start_claims, reopen_claims, expiry_claims, tick_claims, join_claims, event_claims,
  reopens, gives_up, stops, expires, ticks, joins, hears, hears_ready, loses, drains, Steps, here,
  next, Reachable, begins, goes_on, initial,
}

module _ ⦃b : BsonCrate⦄ (m : MongoServer b) (s : LoopSettings m) where
  done :
      (phase : Phase) (n : ℕ) (p : Process m)
      → phase ≡ returned (ok tt)
      → InStep m s n phase p
      → InStep m s n (returned (ok tt)) p
  done phase n p e v = rw e at v

  -- Where `worker_loop` has returned `Ok`, no job of the process runs, the registry of tasks in flight is
  -- empty, and all permits are free.
  Reachable-returned :
      (max_inflight : ℕ) (x : LoopState m)
      → Reachable m s max_inflight x
      → x.phase ≡ returned (ok tt)
      → (x.process.join_set ≡ [])
        × (x.process.in_flight.task_ids ≡ [])
        × (x.process.available_permits ≡ max_inflight)
  Reachable-returned max_inflight x r o =
      let (v, quiet) =
        done x.phase max_inflight x.process o (Reachable-IsSound m s max_inflight x r).in_step in
      (
        quiet,
        v.listed ∙ ap (map (λ j. j.inflight_task_id)) quiet,
        omega (arith, v.permits, ap length quiet),
      )

  -- The phases that the loop can be in as long as it has had no stream.
  never_streamed : Phase → Bool
  never_streamed starting = true
  never_streamed (looping streaming) = not streaming
  never_streamed claiming = true
  never_streamed draining = false
  never_streamed (returned (ok x)) = false
  never_streamed (returned (err e)) = true
  never_streamed aborted = true

  Step-never_streamed :
      (x y : LoopState m)
      → Step m s x y
      → never_streamed x.phase ≡ true
      → (never_streamed y.phase ≡ true) ⊎ (y.phase ≡ looping true)
  unfolding never_streamed is_over
  Step-never_streamed x y (waits a p phase stop) h = inl h
  Step-never_streamed x y (handled p phase) h = inl h
  Step-never_streamed x y (aborts p phase stop o) h = inl refl
  Step-never_streamed x y (cancels task_id polled p phase stop o) h = inl h
  Step-never_streamed x y (starts watched true first second awaits p p' stop o e) h = inr refl
  Step-never_streamed x y (starts watched false first second awaits p p' stop o e) h = inl refl
  Step-never_streamed x y (fails watched e p stop o) h = inl refl
  Step-never_streamed x y (start_claims watched opened first second p q stop o i) h = inl refl
  Step-never_streamed x y (reopen_claims watched opened first second p q stop o i) h = inl refl
  Step-never_streamed x y (expiry_claims now_ms p q stop i) h = inl refl
  Step-never_streamed x y (tick_claims first second p q stop i) h = inl refl
  Step-never_streamed x y (join_claims p q stop i) h = inl refl
  Step-never_streamed x y (event_claims event p q stop r i) h = inl refl
  Step-never_streamed x y (reopens watched true first second awaits p p' stop o e) h = inr refl
  Step-never_streamed x y (reopens watched false first second awaits p p' stop o e) h = inl refl
  Step-never_streamed x y (gives_up watched e p stop o) h = inl refl
  Step-never_streamed x y (stops p stop r) h = absurd (cc)
  Step-never_streamed x y (expires now_ms awaits p stop) h = absurd (cc)
  Step-never_streamed x y (ticks first second awaits p p' stop e) h = absurd (cc)
  Step-never_streamed x y (joins awaits p p' stop e) h = absurd (cc)
  Step-never_streamed x y (hears event p stop e) h = absurd (cc)
  Step-never_streamed x y (hears_ready event awaits p p' stop r e) h = absurd (cc)
  Step-never_streamed x y (loses p stop) h = absurd (cc)
  Step-never_streamed x y (drains p stop e) h = absurd (cc)

  Streamed : LoopState m → LoopState m → Type 0
  Streamed x y = (z : LoopState m) × Steps m s x z × Steps m s z y × (z.phase ≡ looping true)

  Steps-Streamed :
      (x y : LoopState m)
      → Steps m s x y
      → never_streamed x.phase ≡ true
      → (never_streamed y.phase ≡ true) ⊎ Streamed x y
  unfolding Streamed
  Steps-Streamed x y here h = inl h
  Steps-Streamed x z (next y z' before step) h = elim (Steps-Streamed x y before h) [
    | inl no_stream ↦ elim (Step-never_streamed y z step no_stream) [
      | inl none_yet ↦ inl none_yet
      | inr opened ↦ inr (z, next y z before step, here, opened)
    ]
    | inr (w, a, c, streaming) ↦ inr (w, a, next y z c step, streaming)
  ]

  -- From a state without a change stream the loop returns `Ok` only by way of a state with one, also where
  -- the stop signal has been sent before.
  pub returns_by_stream :
      (x y : LoopState m)
      → Steps m s x y
      → x.phase ≡ looping false
      → y.phase ≡ returned (ok tt)
      → (z : LoopState m) × Steps m s x z × Steps m s z y × (z.phase ≡ looping true)
  unfolding never_streamed Streamed
  returns_by_stream x y run p q = elim (Steps-Streamed x y run (rw p refl)) [
    | inl no_stream ↦ absurd (cc (rw q at no_stream))
    | inr streamed ↦ streamed
  ]

  -- Neither draining nor returned with `Ok`.
  undrained : Phase → Bool
  undrained starting = true
  undrained (looping streaming) = true
  undrained claiming = true
  undrained draining = false
  undrained (returned (ok x)) = false
  undrained (returned (err e)) = true
  undrained aborted = true

  -- The loop drains after it has seen the stop signal.
  IsDraining : LoopState m → Type 0
  IsDraining x = (x.phase ≡ draining) × (x.stop ≡ sent)

  sent_of_resolved : (stop : StopSignal) → is_resolved stop ≡ true → stop ≡ sent
  unfolding is_resolved
  sent_of_resolved kept h = absurd (cc)
  sent_of_resolved sent h = refl

  Step-undrained :
      (x y : LoopState m)
      → Step m s x y
      → undrained x.phase ≡ true
      → (undrained y.phase ≡ true) ⊎ IsDraining y
  unfolding undrained IsDraining
  Step-undrained x y (waits a p phase stop) h = inl h
  Step-undrained x y (handled p phase) h = inl h
  Step-undrained x y (aborts p phase stop o) h = inl refl
  Step-undrained x y (cancels task_id polled p phase stop o) h = inl h
  Step-undrained x y (starts watched opened first second awaits p p' stop o e) h = inl refl
  Step-undrained x y (fails watched e p stop o) h = inl refl
  Step-undrained x y (start_claims watched opened first second p q stop o i) h = inl refl
  Step-undrained x y (reopen_claims watched opened first second p q stop o i) h = inl refl
  Step-undrained x y (expiry_claims now_ms p q stop i) h = inl refl
  Step-undrained x y (tick_claims first second p q stop i) h = inl refl
  Step-undrained x y (join_claims p q stop i) h = inl refl
  Step-undrained x y (event_claims event p q stop r i) h = inl refl
  Step-undrained x y (reopens watched opened first second awaits p p' stop o e) h = inl refl
  Step-undrained x y (gives_up watched e p stop o) h = inl refl
  Step-undrained x y (stops p stop r) h = inr (refl, sent_of_resolved stop r)
  Step-undrained x y (expires now_ms awaits p stop) h = inl refl
  Step-undrained x y (ticks first second awaits p p' stop e) h = inl refl
  Step-undrained x y (joins awaits p p' stop e) h = inl refl
  Step-undrained x y (hears event p stop e) h = inl refl
  Step-undrained x y (hears_ready event awaits p p' stop r e) h = inl refl
  Step-undrained x y (loses p stop) h = inl refl
  Step-undrained x y (drains p stop e) h = absurd (cc)

  Drained : LoopState m → LoopState m → Type 0
  Drained x y = (z : LoopState m) × Steps m s x z × Steps m s z y × IsDraining z

  Steps-Drained :
      (x y : LoopState m)
      → Steps m s x y
      → undrained x.phase ≡ true
      → (undrained y.phase ≡ true) ⊎ Drained x y
  unfolding Drained
  Steps-Drained x y here h = inl h
  Steps-Drained x z (next y z' before step) h = elim (Steps-Drained x y before h) [
    | inl not_yet ↦ elim (Step-undrained y z step not_yet) [
      | inl still_not ↦ inl still_not
      | inr drains_now ↦ inr (z, next y z before step, here, drains_now)
    ]
    | inr (w, a, c, draining_before) ↦ inr (w, a, next y z c step, draining_before)
  ]

  Reachable-of_Steps :
      (max_inflight : ℕ) (x y : LoopState m)
      → Steps m s x y
      → Reachable m s max_inflight x
      → Reachable m s max_inflight y
  Reachable-of_Steps max_inflight x y here r = r
  Reachable-of_Steps max_inflight x z (next y z' before step) r =
      goes_on y z' (Reachable-of_Steps max_inflight x y before r) step

  -- However the loop runs from its spawn on, it returns `Ok` only by way of a state in which it drains after
  -- the stop signal, and then with no job, an empty registry and all permits free.
  pub returns_drained :
      (max_inflight : ℕ) (db : m.Db) (y : LoopState m)
      → Steps m s (at_phase m (initial m max_inflight db) starting kept) y
      → y.phase ≡ returned (ok tt)
      → (z : LoopState m) × Steps m s (at_phase m (initial m max_inflight db) starting kept) z
        × Steps m s z y
        × (z.phase ≡ draining)
        × (z.stop ≡ sent)
        × (y.process.join_set ≡ [])
        × (y.process.in_flight.task_ids ≡ [])
        × (y.process.available_permits ≡ max_inflight)
  unfolding undrained Drained IsDraining
  returns_drained max_inflight db y run q =
      let spawned = at_phase m (initial m max_inflight db) starting kept in
      let (idle, empty, free) =
        Reachable-returned max_inflight y
          (Reachable-of_Steps max_inflight spawned y run (begins db)) q in
      elim (Steps-Drained spawned y run refl) [
        | inl not_yet ↦ absurd (cc (rw q at not_yet))
        | inr (z, before, after, (phase, stop)) ↦ (z, before, after, phase, stop, idle, empty, free)
      ]

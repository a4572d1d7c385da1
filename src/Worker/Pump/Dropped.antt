-- ===== src/Worker/Pump/Dropped.antt =====
-- src/worker.rs: `pump_expired_tasks` where no permit is left.
use getitdone.Prelude.{ℕ, ◌≡◌, ◌∙◌, refl, true, false, List, ◌∷◌, contains, ◌==◌, nat_eq, arith}
use getitdone.Prelude.Int.{ℤ}
use getitdone.Prelude.Dict.{lookup-insert}
use getitdone.Bson.Crate.{BsonCrate}
use getitdone.Mongo.Server.{MongoServer}
use getitdone.Expiry.{ExpiringTask, ExpiryTracker, pop_due, defer}
use getitdone.Expiry.Popped.{pop_due-IsPopped, ids}
use getitdone.Expiry.Documents.Others.{Untracked}
use getitdone.Worker.Pump.{Process, Await, Settings, is_local, pump_due, pump_expired_tasks}

module _ ⦃b : BsonCrate⦄ (m : MongoServer b) where
  open b use {Document, ObjectId, oid_eq}

  defer-Untracked :
      (k id : ObjectId) (task : ExpiringTask) (delay : ℕ) (now_ms : ℤ) (t : ExpiryTracker ObjectId)
      → (◌==◌ ⦃e = oid_eq⦄ id k) ≡ false
      → Untracked k t
      → Untracked k (defer ⦃e = oid_eq⦄ id task delay now_ms t)
  unfolding defer
  defer-Untracked k id task delay now_ms t other h =
      lookup-insert ⦃e = oid_eq⦄ k id _ t.tasks ∙ rw other h

  -- Where `pump_expired_tasks` finds no permit for the first task that is due, and this is not in flight,
  -- no other task that was due is tracked afterwards, though the collection is as it was.
  pub pump_expired_tasks-Untracked :
      (s : Settings m) (now_ms : ℤ) (awaits : ℕ → Await m) (p : Process m) (id k : ObjectId)
      (task : ExpiringTask) (rest : List (ObjectId × ExpiringTask))
      → (pop_due ⦃e = oid_eq⦄ now_ms p.expiry_tracker).0 ≡ (id, task) ∷ rest
      → is_local m task p.in_flight ≡ false
      → p.available_permits ≡ 0
      → contains ⦃e = oid_eq⦄ (ids ⦃e = oid_eq⦄ rest) k ≡ true
      → Untracked k (pump_expired_tasks m s now_ms awaits p).expiry_tracker
        × ((pump_expired_tasks m s now_ms awaits p).collection ≡ p.collection)
  unfolding pump_expired_tasks pump_due
  pump_expired_tasks-Untracked s now_ms awaits p id k task rest h l z c =
      let popped = pop_due-IsPopped ⦃e = oid_eq⦄ now_ms p.expiry_tracker in
      let distinct = rw h at popped.distinct in
      let gone = rw h at popped.gone in
      let none_left : (p.available_permits == 0) ≡ true = ground arith in
      rw (h, pump_due, l, none_left)
        (defer-Untracked k id task _ _ _ (ground arith) (gone k (ground arith)), refl)

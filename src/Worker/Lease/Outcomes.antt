-- ===== src/Worker/Lease/Outcomes.antt =====
-- src/worker.rs: what the answers of `heartbeat` and of the completion say about the collection.
use getitdone.Prelude.{
  ◌≡◌, ◌≢◌, none, [], ◌∷◌, ap, sym, ◌⊎◌, inl, inr, refl, String, Bool, true, false, some, string_eq,
  nat_eq, All, arith,
}
use getitdone.Prelude.Int.{ℤ}
use getitdone.Errors.{ok, Result-cases}
use getitdone.Bson.Crate.{BsonCrate}
use getitdone.Mongo.Paths.{split_dot}
use getitdone.Mongo.Server.{MongoServer}
use getitdone.Mongo.Atomic.{
  Replaced, Replaced-weaken, Rewritten, set_field, keep_field, update_one_outcome,
}
use getitdone.Mongo.Updates.{missed, hit}
use getitdone.Worker.Lease.{
  claim_filter, heartbeat, heartbeat_update, matched, complete, completed, succeeded_update,
  succeeded_fields,
}

-- A path without a dot is not that of the heartbeat.
dotted_other : (k : String) → split_dot k ≡ none → ¬ ("worker_state.heartbeat_at" ≡ k)
unfolding split_dot nat_eq
dotted_other k plain e = absurd (cc (ap split_dot e))

module _ ⦃b : BsonCrate⦄ (m : MongoServer b) where
  open b use {Bson, Document, string, document, get, date_time}
  open m use {Db, DbError, contents, update_one, matches, applied}

  -- The document is held under this task, worker and claim.
  abbrev pub Claimed : String → String → String → Document → Type 0
  Claimed task worker token d = matches (claim_filter m task worker token) d ≡ true

  abbrev pub Unclaimed : String → String → String → Db → Type 0
  Unclaimed task worker token db =
      All (λ d. matches (claim_filter m task worker token) d ≡ false) (contents db)

  -- Only the heartbeat differs.
  pub record IsBeat (now : ℤ) (old new : Document) : Type 0 where
    pub kept : (k : String) → split_dot k ≡ none → k ≢ "worker_state" → get k new ≡ get k old
    pub beats :
        (state : Document)
        → get "worker_state" old ≡ some (document state)
        → (state' : Document) × (get "worker_state" new ≡ some (document state'))
          × (get "heartbeat_at" state' ≡ some (date_time now))
          × ((j : String) → j ≢ "heartbeat_at" → get j state' ≡ get j state)

  heartbeat_update-IsBeat :
      (now : ℤ) (d : Document) → IsBeat now d (applied (heartbeat_update m now) d)
  unfolding heartbeat_update split_dot string_eq nat_eq
  heartbeat_update-IsBeat now d = record {
    kept = λ k plain other.
        keep_field m k (("worker_state.heartbeat_at", date_time now) ∷ []) d
          (ground (arith, dotted_other k plain)) plain
          (ground (arith, λ (e : "worker_state" ≡ k). other (sym e)));
    beats = λ state g.
        m.applied-set_path "worker_state.heartbeat_at" "worker_state" "heartbeat_at" (date_time now)
          d state refl refl g;
  }

  module _ (task worker token : String) (db : Db) where
    -- `heartbeat` answers `false` only where no document is held by the claim, and then changes nothing; where
    -- it answers `true`, one document that the claim holds has changed, in its worker state only, and there, if
    -- it is a document, only in `heartbeat_at`, which is the instant of the heartbeat.
    pub heartbeat_answer :
        (now : ℤ) (held : Bool)
        → (heartbeat m task worker token now db).0 ≡ ok held
        → let after = contents (heartbeat m task worker token now db).1 in
          ((held ≡ false) × (after ≡ contents db) × Unclaimed task worker token db)
          ⊎ ((held ≡ true) × Rewritten (Claimed task worker token) (IsBeat now) (contents db) after)
    unfolding heartbeat matched
    heartbeat_answer now held h =
        elim (Result-cases
          (update_one (claim_filter m task worker token) (heartbeat_update m now) db).0) [
            | inr (r, e) ↦ absurd (cc)
            | inl (r, e) ↦ elim (m.update_one_ok _ _ db r e) [
              | inl (z, missed p unclaimed same) ↦ inl (ground arith, same, unclaimed)
              | inl (z, hit front back d s p q o) ↦ absurd (cc)
              | inr (x, z, missed p unclaimed same) ↦ absurd (cc)
              | inr (x, z, hit front back d s p q o) ↦ inr (
                ground arith,
                record {
                  front = front;
                  back = back;
                  old = d;
                  new = applied (heartbeat_update m now) d;
                  was = p;
                  now = q;
                  old_holds = s;
                  related = heartbeat_update-IsBeat now d;
                },
              )
            ]
          ]

    -- The completion ends with `Ok` only where it has stored the output in a document that the claim
    -- held, as succeeded.
    pub complete_done :
        (output : Bson) (now at : ℤ)
        → (complete m task worker token output now at db).0 ≡ ok tt
        → Replaced
            (Claimed task worker token)
            (λ d'.
              (get "status" d' ≡ some (string "succeeded")) × (get "task_output" d' ≡ some output))
            (contents db)
            (contents (complete m task worker token output now at db).1)
    unfolding complete completed succeeded_update string_eq nat_eq split_dot
    complete_done output now at h =
        elim (Result-cases
          (update_one (claim_filter m task worker token) (succeeded_update m output now at) db).0) [
            | inr (r, e) ↦ absurd (cc)
            | inl (r, e) ↦ elim (update_one_outcome m _ _ db r e) [
              | inl (z, same, unclaimed) ↦ absurd (ground arith)
              | inr (z, w) ↦
                  Replaced-weaken _ _ _
                    (λ d' (d, p). rw p (
                      set_field m "status" (string "succeeded") (succeeded_fields m output now at) d
                          refl refl refl,
                      set_field m "task_output" output (succeeded_fields m output now at) d refl
                          refl refl,
                    ))
                    w
            ]
          ]

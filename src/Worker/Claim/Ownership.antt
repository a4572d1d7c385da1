-- ===== src/Worker/Claim/Ownership.antt =====
-- src/worker.rs: the claim for ready tasks, and tasks that another worker runs.
use getitdone.Prelude.{
  ℕ, ◌≡◌, ◌≢◌, inl, inr, refl, ap, String, true, false, Option, some, List, [], ◌∷◌, string_eq,
  nat_eq, ◌==◌, get_elem?, All, Option-cases, Bool-cases,
}
use getitdone.Prelude.Int.{ℤ}
use getitdone.Errors.{Result-cases}
use getitdone.Bson.Crate.{BsonCrate}
use getitdone.Bson.Document.{doc}
use getitdone.Mongo.Paths.{split_dot, field_path}
use getitdone.Mongo.Server.{MongoServer}
use getitdone.Mongo.Atomic.{text_of_matches, inner_text_of_matches}
use getitdone.Worker.Claim.{
  ready, pending_entries, own_entries, claim_update, claim_filter_attempts, claim_with_filter,
  claim_first, claim_next_task,
}
use getitdone.Worker.Claim.Leases.{claim_with_filter-keeps}

running-ne-pending : ◌≢◌ {A = String} "running" "pending"
unfolding string_eq
running-ne-pending e =
    let same : true ≡ false = ap (λ (s : String). s == "running") e in absurd (cc same)

module _ ⦃b : BsonCrate⦄ (m : MongoServer b) where
  open b use {Bson, Document, string, document, get}
  open m use {Db, contents, matches}

  -- The document is a running task of this worker.
  pub record RunsAt (owner : String) (d : Document) : Type 0 where
    pub running : get "status" d ≡ some (string "running")
    pub state : Document
    pub stated : get "worker_state" d ≡ some (document state)
    pub owned : get "worker_id" state ≡ some (string owner)

  claim_first-keeps :
      (attempts : List (List (String × Bson) × Option Document)) (update : Document) (db : Db)
      (i : ℕ) (d : Document)
      → All (λ a. matches (doc a.0) d ≡ false) attempts
      → get_elem? (contents db) i ≡ some d
      → get_elem? (contents (claim_first m attempts update db).1) i ≡ some d
  unfolding claim_first
  claim_first-keeps [] update db i d u h = h
  claim_first-keeps ((es, sort) ∷ attempts) update db i d u h =
      let kept = claim_with_filter-keeps m (doc es) update sort db i d u.0 h in
      elim (Result-cases (claim_with_filter m (doc es) update sort db).0) [
        | inr (e, g) ↦ rw (g, claim_first) kept
        | inl (found, g) ↦ elim (Option-cases found) [
          | inl n ↦ rw (g, claim_first, n) (claim_first-keeps attempts update _ i d u.1 kept)
          | inr (task, n) ↦ rw (g, claim_first, n) kept
        ]
      ]

  not-matches_pending :
      (excluded : List String) (owner : String) (d : Document)
      → RunsAt owner d
      → matches (doc (pending_entries m excluded)) d ≡ false
  unfolding pending_entries string_eq split_dot field_path nat_eq
  not-matches_pending excluded owner d v =
      elim (Bool-cases (matches (doc (pending_entries m excluded)) d)) [
        | inr u ↦ u
        | inl u ↦
            let same : ◌≡◌ {A = String} "running" "pending" =
              text_of_matches m "status" "pending" "running" (pending_entries m excluded) d u refl
                refl refl v.running in
            absurd (running-ne-pending same)
      ]

  not-matches_own :
      (worker_id : String) (excluded : List String) (owner : String) (d : Document)
      → RunsAt owner d
      → owner ≢ worker_id
      → matches (doc (own_entries m worker_id excluded)) d ≡ false
  unfolding own_entries string_eq split_dot field_path nat_eq
  not-matches_own worker_id excluded owner d v other =
      elim (Bool-cases (matches (doc (own_entries m worker_id excluded)) d)) [
        | inr u ↦ u
        | inl u ↦ absurd (
            other (
              inner_text_of_matches m "worker_state.worker_id" "worker_state" "worker_id" worker_id
                owner (own_entries m worker_id excluded) d v.state u refl refl refl refl v.stated
                v.owned))
      ]

  -- The claim for ready tasks leaves a running task of another worker as it was, whatever its result and
  -- however old its heartbeat is.
  pub claim_next_task_respects :
      (worker_id owner : String) (timeout : ℕ) (excluded : List String) (sort : Option Document)
      (token : String) (now at : ℤ) (db : Db) (i : ℕ) (d : Document)
      → RunsAt owner d
      → owner ≢ worker_id
      → get_elem? (contents db) i ≡ some d
      → get_elem?
          (contents (claim_next_task m worker_id timeout excluded ready sort token now at db).1)
          i
        ≡ some d
  unfolding claim_next_task claim_filter_attempts
  claim_next_task_respects worker_id owner timeout excluded sort token now at db i d v other h =
      claim_first-keeps (claim_filter_attempts m ready worker_id timeout excluded sort now)
        (claim_update m worker_id token at timeout) db i d
        (
          not-matches_pending excluded owner d v,
          (not-matches_own worker_id excluded owner d v other, tt),
        )
        h

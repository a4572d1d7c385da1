-- ===== src/Worker/Claim/Leases.antt =====
-- src/worker.rs: the claims for expired tasks, and tasks whose lease is alive.
use getitdone.Prelude.{
  ℕ, ◌≡◌, inl, inr, refl, ◌∙◌, sym, String, true, false, Option, none, some, List, [], ◌∷◌,
  string_eq, nat_eq, get_elem?, Option-cases, Bool-cases,
}
use getitdone.Prelude.Int.{ℤ, ◌+ℤ◌, ◌<ℤ◌, lt→not-leb_ℤ, IsI64}
use getitdone.Errors.{Result-cases}
use getitdone.Bson.Crate.{BsonCrate}
use getitdone.Bson.Document.{doc, last_value}
use getitdone.Mongo.Server.{MongoServer}
use getitdone.Mongo.Atomic.{holds_of_matches}
use getitdone.Mongo.Successors.{find_one_and_update-keeps}
use getitdone.Worker.Claim.{
  stale_recovery, stale_expr, stale_entries, target_entries, claim_update, claim_filter_attempts,
  claim_with_filter, claim_first, claim_next_task, is_excluded, claim_expired_task_by_id,
}
use getitdone.Worker.Claim.Expired.{expired_entries, claim_excluded, claim_included}
use getitdone.Worker.Claim.Staleness.{IsLeased, lease_millis, holds-stale_expr}

module _ ⦃b : BsonCrate⦄ (m : MongoServer b) where
  open b use {Bson, Document, ObjectId}
  open m use {Db, contents, matches}

  pub claim_with_filter-keeps :
      (filter update : Document) (sort : Option Document) (db : Db) (i : ℕ) (d : Document)
      → matches filter d ≡ false
      → get_elem? (contents db) i ≡ some d
      → get_elem? (contents (claim_with_filter m filter update sort db).1) i ≡ some d
  unfolding claim_with_filter
  claim_with_filter-keeps filter update sort db i d u h =
      find_one_and_update-keeps m filter update db i d u h sort

  claim_first-single :
      (es : List (String × Bson)) (sort : Option Document) (update : Document) (db : Db)
      → (claim_first m ((es, sort) ∷ []) update db).1
        ≡ (claim_with_filter m (doc es) update sort db).1
  unfolding claim_first
  claim_first-single es sort update db =
      elim (Result-cases (claim_with_filter m (doc es) update sort db).0) [
        | inr (e, h) ↦ rw (h, claim_first)
        | inl (found, h) ↦ elim (Option-cases found) [
          | inl n ↦ rw (h, claim_first, n)
          | inr (task, n) ↦ rw (h, claim_first, n)
        ]
      ]

  -- The lease of the document ends after `now`, at an instant in the range of a date.
  pub record IsAlive (now : ℤ) (fallback : ℕ) (d : Document) : Type 0 where
    pub heartbeat_at : ℤ
    pub own : Option ℤ
    pub given : Option ℤ
    pub leased : IsLeased m heartbeat_at own given d
    pub range : IsI64 (heartbeat_at +ℤ lease_millis m own given fallback)
    pub later : now <ℤ heartbeat_at +ℤ lease_millis m own given fallback

  not-matches_alive :
      (es : List (String × Bson)) (now : ℤ) (fallback : ℕ) (d : Document)
      → last_value "$expr" es ≡ some (stale_expr m now fallback)
      → IsAlive now fallback d
      → matches (doc es) d ≡ false
  not-matches_alive es now fallback d e v = elim (Bool-cases (matches (doc es) d)) [
    | inr u ↦ u
    | inl u ↦
        let passed : true ≡ false =
          sym (holds_of_matches m "$expr" (stale_expr m now fallback) es d u e)
          ∙ holds-stale_expr m v.heartbeat_at now fallback d v.own v.given v.leased v.range
          ∙ lt→not-leb_ℤ _ now v.later in
        absurd (cc passed)
  ]

  module _ (now : ℤ) (fallback : ℕ) (db : Db) (i : ℕ) (d : Document)
      (alive : IsAlive now fallback d) (here : get_elem? (contents db) i ≡ some d) where
    -- The claim of the periodic recovery leaves a document as it was whose lease is alive, also if it
    -- fails.
    pub claim_next_task_spares :
        (worker_id : String) (excluded : List String) (sort : Option Document) (token : String)
        (at : ℤ)
        → get_elem?
            (contents
              (claim_next_task m worker_id fallback excluded stale_recovery sort token now at db).1)
            i
          ≡ some d
    unfolding claim_next_task claim_filter_attempts stale_entries string_eq
    claim_next_task_spares worker_id excluded sort token at =
        rw
          (claim_first-single (stale_entries m now fallback excluded) sort
            (claim_update m worker_id token at fallback) db)
          (claim_with_filter-keeps (doc (stale_entries m now fallback excluded)) _ sort db i d
            (not-matches_alive (stale_entries m now fallback excluded) now fallback d refl alive)
            here)

    expired_expr :
        (id : ObjectId) (task_id : Option String) (excluded : List String)
        → last_value "$expr" (expired_entries m id task_id excluded now fallback)
          ≡ some (stale_expr m now fallback)
    unfolding expired_entries stale_entries target_entries string_eq
    expired_expr id none excluded = refl
    expired_expr id (some t) excluded = refl

    -- The targeted claim leaves a document as it was whose lease is alive, also if it fails.
    pub claim_expired_task_by_id_spares :
        (id : ObjectId) (worker_id : String) (task_id : Option String) (excluded : List String)
        (token : String) (at : ℤ)
        → get_elem?
            (contents
              (claim_expired_task_by_id m id worker_id fallback task_id excluded token now at db).1)
            i
          ≡ some d
    claim_expired_task_by_id_spares id worker_id task_id excluded token at =
        elim (Bool-cases (is_excluded m task_id excluded)) [
          | inl out ↦
              rw (claim_excluded m id worker_id fallback task_id excluded token now at db out) here
          | inr inside ↦
              rw (claim_included m id worker_id fallback task_id excluded token now at db inside) (
                claim_with_filter-keeps (doc (expired_entries m id task_id excluded now fallback)) _
                  none db i d
                  (not-matches_alive (expired_entries m id task_id excluded now fallback) now
                    fallback d (expired_expr id task_id excluded) alive)
                  here)
        ]

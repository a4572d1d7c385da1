-- ===== src/Worker/Claim/Expired.antt =====
-- src/worker.rs: the targeted claim of an expired task.
use getitdone.Prelude.{
  ℕ, ◌≡◌, inl, inr, refl, ◌∙◌, sym, ap, String, true, false, Option, none, some, List, ◌++◌,
  string_eq, nat_eq, Bool-cases, Option-cases, arith,
}
use getitdone.Prelude.Int.{ℤ}
use getitdone.Errors.{RequestError, Result, ok}
use getitdone.Bson.Crate.{BsonCrate}
use getitdone.Bson.Document.{get_object_id, doc, insert_all-append, last_value}
use getitdone.Mongo.Paths.{split_dot, field_path}
use getitdone.Mongo.Server.{MongoServer}
use getitdone.Mongo.Atomic.{text_of_matches, holds_of_matches, keep_field}
use getitdone.Worker.Claim.Exclusion.{IsFresh, IsFresh-of_Claims, Excludes, Excludes-of_entry}
use getitdone.Worker.Claim.Loop.{Claims, claim_with_filter-some}
use getitdone.Worker.Claim.{
  claim_fields, claim_update, stale_entries, stale_claim_filter, claim_with_filter, target_entries,
  is_excluded, claim_expired_task_by_id,
}

module _ ⦃b : BsonCrate⦄ (m : MongoServer b) where
  open b use {Bson, Document, ObjectId, string, document, object_id, oid_eq, get}
  open m use {Db, contents, matches}

  unfoldable pub expired_entries :
      ObjectId → Option String → List String → ℤ → ℕ → List (String × Bson)
  expired_entries id task_id excluded now timeout =
      stale_entries m now timeout excluded ++ target_entries m id task_id

  expired_entries-Excludes :
      (id : ObjectId) (task_id : Option String) (excluded : List String) (now : ℤ) (timeout : ℕ)
      → is_excluded m task_id excluded ≡ false
      → Excludes m excluded (expired_entries id task_id excluded now timeout)
  unfolding expired_entries stale_entries target_entries is_excluded string_eq split_dot field_path
      nat_eq
  expired_entries-Excludes id none excluded now timeout h =
      Excludes-of_entry m excluded (expired_entries id none excluded now timeout) refl
  expired_entries-Excludes id (some s) excluded now timeout h = λ d t u g.
      let same : t ≡ s =
        text_of_matches m "task_id" s t (expired_entries id (some s) excluded now timeout) d u refl
          refl refl g in
      rw same h

  read_id :
      (d : Document) (j : ObjectId)
      → get_object_id "_id" d ≡ some j
      → get "_id" d ≡ some (object_id j)
  read_id d j g = elim (Option-cases (get "_id" d)) [
    | inl n ↦ absurd (cc (rw n at g))
    | inr (v, n) ↦ n ∙ ap some (b.object_id-as_object_id v j (rw n at g))
  ]

  selects_id :
      (id : ObjectId) (task_id : Option String) (excluded : List String) (now : ℤ) (timeout : ℕ)
      → last_value "_id" (expired_entries id task_id excluded now timeout) ≡ some (object_id id)
  unfolding target_entries expired_entries stale_entries string_eq
  selects_id id none excluded now timeout = refl
  selects_id id (some t) excluded now timeout = refl

  module _ (id : ObjectId) (worker_id : String) (timeout : ℕ) (task_id : Option String)
      (excluded : List String) (token : String) (now at : ℤ) (db : Db) where
    abbrev claim : Result RequestError (Option Document) × Db
    claim = claim_expired_task_by_id m id worker_id timeout task_id excluded token now at db

    pub claim_excluded : is_excluded m task_id excluded ≡ true → claim ≡ (ok none, db)
    unfolding claim_expired_task_by_id
    claim_excluded h = rw (h, claim_expired_task_by_id)

    pub claim_included :
        is_excluded m task_id excluded ≡ false
        → claim
          ≡ claim_with_filter m
              (doc (expired_entries id task_id excluded now timeout))
              (claim_update m worker_id token at timeout)
              none
              db
    unfolding claim_expired_task_by_id stale_claim_filter expired_entries
    claim_included h = rw (
      h,
      claim_expired_task_by_id,
      insert_all-append (stale_entries m now timeout excluded) (target_entries m id task_id) b.new,
    )

    -- The targeted claim never takes a task that is excluded, and what it takes is held under its token.
    pub claim_expired_task_by_id-IsFresh :
        (task : Document)
        → claim.0 ≡ ok (some task)
        → IsFresh m excluded token (contents db) (contents claim.1) task
    claim_expired_task_by_id-IsFresh task h = elim (Bool-cases (is_excluded m task_id excluded)) [
      | inl out ↦ absurd (cc (sym (ap (λ x. x.0) (claim_excluded out)) ∙ h))
      | inr inside ↦
          let es = expired_entries id task_id excluded now timeout in
          rw (claim_included inside) (
            IsFresh-of_Claims m es excluded worker_id token at timeout _ _ task
              (expired_entries-Excludes id task_id excluded now timeout inside)
              (claim_with_filter-some m es _ none db task
                (sym (ap (λ x. x.0) (claim_included inside)) ∙ h)))
    ]

    -- The document that the targeted claim takes has the id that it is given.
    pub claim_expired_task_by_id-id :
        (task : Document) (j : ObjectId)
        → claim.0 ≡ ok (some task)
        → get_object_id "_id" task ≡ some j
        → j ≡ id
    unfolding target_entries expired_entries stale_entries claim_update claim_fields string_eq
        split_dot field_path nat_eq
    claim_expired_task_by_id-id task j h g = elim (Bool-cases (is_excluded m task_id excluded)) [
      | inl out ↦ absurd (cc (sym (ap (λ x. x.0) (claim_excluded out)) ∙ h))
      | inr inside ↦
          let es = expired_entries id task_id excluded now timeout in
          let w : Claims m es (claim_update m worker_id token at timeout) _ _ task =
            claim_with_filter-some m es _ none db task
              (sym (ap (λ x. x.0) (claim_included inside)) ∙ h) in
          let kept : get "_id" task ≡ get "_id" w.old =
            rw w.claimed (
              keep_field m "_id" (claim_fields m worker_id token at timeout) w.old refl refl
                refl) in
          let here : get "_id" w.old ≡ some (object_id j) = sym kept ∙ read_id task j g in
          ground (
            arith,
            holds_of_matches m "_id" (object_id id) es w.old w.selected
                (selects_id id task_id excluded now timeout),
            m.holds-object_id "_id" id j w.old refl refl here,
          )
    ]

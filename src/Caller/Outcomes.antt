-- ===== src/Caller/Outcomes.antt =====
-- src/caller.rs and src/worker.rs: what a caller reads of the documents that a worker has written.
use getitdone.Prelude.{
  ℕ, ◌≡◌, ◌⊎◌, ◌∙◌, refl, ap, suc, get_elem?, String, Option, none, some, List, [], ◌∷◌, string_eq,
  nat_eq, arith, Option-cases, Bool-cases, inl, inr, ◌==◌,
}
use getitdone.Prelude.Int.{ℤ}
use getitdone.Errors.{task_failed, Result, ok, err, Result-cases}
use getitdone.Bson.Crate.{BsonCrate}
use getitdone.Bson.Document.{doc, get_str}
use getitdone.Mongo.Paths.{split_dot}
use getitdone.Mongo.Server.{MongoServer}
use getitdone.Mongo.Atomic.{set_field}
use getitdone.Worker.Lease.{succeeded_update, succeeded_fields, failed_update, failed_fields}
use getitdone.Worker.Claim.{claim_update, claim_fields}
use getitdone.Caller.Waiting.{
  evaluate_status, evaluate_output, evaluate_document, watch_events, inspect_task, watch_for_result,
  wait_for_result,
}

module _ ⦃b : BsonCrate⦄ (m : MongoServer b) {TOutput : Type 0}
    (deserialize_from_bson : b.Bson → Option TOutput) where
  open b use {Bson, Document, string, get}
  open m use {Db, applied, find_one}

  -- The output that a worker stores is the one that the caller gets, if it can be read back.
  pub evaluate_document-succeeded_update :
      (output : Bson) (value : TOutput) (now at : ℤ) (d : Document)
      → deserialize_from_bson output ≡ some value
      → evaluate_document m deserialize_from_bson (applied (succeeded_update m output now at) d)
        ≡ ok (some (ok value))
  unfolding evaluate_document evaluate_status evaluate_output succeeded_update string_eq split_dot
      nat_eq
  evaluate_document-succeeded_update output value now at d h = rw (
    set_field m "status" (string "succeeded") (succeeded_fields m output now at) d refl refl refl,
    b.as_str-string "succeeded",
    set_field m "task_output" output (succeeded_fields m output now at) d refl refl refl,
    h,
  )

  -- The reason that a worker stores is the one that the caller gets.
  pub evaluate_document-failed_update :
      (reason : String) (now at : ℤ) (d : Document)
      → evaluate_document m deserialize_from_bson (applied (failed_update m reason now at) d)
        ≡ ok (some (err (task_failed reason)))
  unfolding evaluate_document evaluate_status failed_update string_eq split_dot nat_eq
  evaluate_document-failed_update reason now at d = rw (
    set_field m "status" (string "failed") (failed_fields m reason now at) d refl refl refl,
    b.as_str-string "failed",
    set_field m "error_reason" (string reason) (failed_fields m reason now at) d refl refl refl,
    b.as_str-string reason,
  )

  -- A claimed task is not finished.
  pub evaluate_document-claim_update :
      (worker token : String) (at : ℤ) (timeout : ℕ) (d : Document)
      → evaluate_document m deserialize_from_bson
          (applied (claim_update m worker token at timeout) d)
        ≡ ok none
  unfolding evaluate_document evaluate_status claim_update claim_fields string_eq split_dot nat_eq
  evaluate_document-claim_update worker token at timeout d = rw (
    set_field m "status" (string "running") (claim_fields m worker token at timeout) d refl refl
        refl,
    b.as_str-string "running",
  )

  -- A document from which the caller reads this output.
  pub record Shows (value : TOutput) (d : Document) : Type 0 where
    pub succeeded : get_str "status" d ≡ some "succeeded"
    pub output : Bson
    pub stored : get "task_output" d ≡ some output
    pub read : deserialize_from_bson output ≡ some value

  evaluate_output-Shows :
      (d : Document) (value : TOutput)
      → get_str "status" d ≡ some "succeeded"
      → evaluate_output m deserialize_from_bson d ≡ ok (some (ok value))
      → Shows value d
  unfolding evaluate_output
  evaluate_output-Shows d value s h = elim (Option-cases (get "task_output" d)) [
    | inl n ↦ absurd (cc (rw (n, evaluate_output) at h))
    | inr (output, n) ↦ elim (Option-cases (deserialize_from_bson output)) [
      | inl r ↦ absurd (cc (rw (n, evaluate_output, r) at h))
      | inr (v, r) ↦
          let same : v ≡ value = cc (rw (n, evaluate_output, r) at h) in
          record { succeeded = s; output = output; stored = n; read = r ∙ ap some same }
    ]
  ]

  evaluate_status-Shows :
      (status : String) (d : Document) (value : TOutput)
      → get_str "status" d ≡ some status
      → evaluate_status m deserialize_from_bson status d ≡ ok (some (ok value))
      → Shows value d
  unfolding evaluate_status
  evaluate_status-Shows status d value s h = elim (Bool-cases (status == "pending")) [
    | inl p ↦ absurd (cc (rw (p, evaluate_status) at h))
    | inr p ↦ elim (Bool-cases (status == "succeeded")) [
      | inl q ↦
          evaluate_output-Shows d value (s ∙ ap some (ground arith))
            (rw (p, evaluate_status, q) at h)
      | inr q ↦ elim (Bool-cases (status == "failed")) [
        | inl r ↦ absurd (cc (rw (p, evaluate_status, q, r) at h))
        | inr r ↦ absurd (cc (rw (p, evaluate_status, q, r) at h))
      ]
    ]
  ]

  pub evaluate_document-Shows :
      (d : Document) (value : TOutput)
      → evaluate_document m deserialize_from_bson d ≡ ok (some (ok value))
      → Shows value d
  unfolding evaluate_document
  evaluate_document-Shows d value h = elim (Option-cases (get_str "status" d)) [
    | inl n ↦ absurd (cc (rw (n, evaluate_document) at h))
    | inr (status, n) ↦ evaluate_status-Shows status d value n (rw (n, evaluate_document) at h)
  ]

  watch_events-Shows :
      (events : List (Result m.DbError (Option Document))) (value : TOutput)
      → watch_events m deserialize_from_bson events ≡ ok value
      → (d : Document) × Shows value d × (i : ℕ) × (get_elem? events i ≡ some (ok (some d)))
  unfolding watch_events
  watch_events-Shows [] value h = absurd (cc)
  watch_events-Shows (err e ∷ events) value h = absurd (cc)
  watch_events-Shows (ok none ∷ events) value h =
      let (d, w, i, p) = watch_events-Shows events value h in (d, w, suc i, p)
  watch_events-Shows (ok (some d) ∷ events) value h =
      elim (Result-cases (evaluate_document m deserialize_from_bson d)) [
        | inr (e, g) ↦ absurd (cc (rw (g, watch_events) at h))
        | inl (outcome, g) ↦ elim (Option-cases outcome) [
          | inl n ↦
              let (d', w, i, p) = watch_events-Shows events value (rw (g, watch_events, n) at h) in
              (d', w, suc i, p)
          | inr (r, n) ↦
              let same : r ≡ ok value = rw (g, watch_events, n) at h in
              (d, evaluate_document-Shows d value (g ∙ ap ok (n ∙ ap some same)), 0, refl)
        ]
      ]

  -- An output that `wait_for_result` returns stands in a document whose status is `succeeded`, which the
  -- inspection found or an event of the change stream brought.
  pub wait_for_result-Shows :
      (task_id : String) (db : Db)
      (stream : Result m.DbError (List (Result m.DbError (Option Document)))) (value : TOutput)
      → wait_for_result m deserialize_from_bson task_id db stream ≡ ok value
      → (d : Document) × Shows value d
        × ((find_one (doc (("task_id", string task_id) ∷ [])) db ≡ ok (some d))
            ⊎ ((events : List (Result m.DbError (Option Document))) × (stream ≡ ok events)
                × (i : ℕ) × (get_elem? events i ≡ some (ok (some d)))))
  unfolding wait_for_result inspect_task watch_for_result
  wait_for_result-Shows task_id db stream value h =
      elim (Result-cases (find_one (doc (("task_id", string task_id) ∷ [])) db)) [
        | inr (e, f) ↦ absurd (cc (rw (f, wait_for_result, inspect_task) at h))
        | inl (found, f) ↦ elim (Option-cases found) [
          | inl n ↦ absurd (cc (rw (f, wait_for_result, inspect_task, n) at h))
          | inr (d, n) ↦ elim (Result-cases (evaluate_document m deserialize_from_bson d)) [
            | inr (e, g) ↦ absurd (cc (rw (f, wait_for_result, inspect_task, n, g) at h))
            | inl (outcome, g) ↦ elim (Option-cases outcome) [
              | inr (r, o) ↦
                  let same : r ≡ ok value = rw (f, wait_for_result, inspect_task, n, g, o) at h in
                  (
                    d,
                    evaluate_document-Shows d value (g ∙ ap ok (o ∙ ap some same)),
                    inl (f ∙ ap ok n),
                  )
              | inl o ↦ elim (Result-cases stream) [
                | inr (e, p) ↦ absurd (cc (rw (f, wait_for_result, inspect_task, n, g, o, p) at h))
                | inl (events, p) ↦
                    let (d', w, i, q) =
                      watch_events-Shows events value
                        (rw (f, wait_for_result, inspect_task, n, g, o, p) at h) in
                    (d', w, inr (events, p, i, q))
              ]
            ]
          ]
        ]
      ]

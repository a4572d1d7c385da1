-- ===== src/Worker/Claim.antt =====
-- src/worker.rs: the claims. `now` and `claim_started_at` are the two calls of `DateTime::now()`, and
-- `claim_token` is the new UUID, all three arguments.
pub mod Loop
pub mod Interleaved
pub mod Exclusion
pub mod Expired
pub mod Staleness
pub mod Leases
pub mod Ownership
use getitdone.Prelude.{
  ℕ, suc, ◌≡◌, String, Bool, true, false, Option, none, some, List, [], ◌∷◌, map, contains,
  string_eq, if◌then◌else◌,
}
use getitdone.Prelude.Int.{ℤ}
use getitdone.Time.{wrapped_millis}
use getitdone.Errors.{RequestError, database, Result, ok, err, map_err}
use getitdone.Bson.Crate.{BsonCrate}
use getitdone.Bson.Document.{doc, insert_all}
use getitdone.Mongo.Server.{MongoServer}

pub data ClaimMode : Type 0 where
  ready stale_recovery : ClaimMode

module _ ⦃b : BsonCrate⦄ (m : MongoServer b) where
  open b use {
    Bson, Document, ObjectId, string, int64, date_time, object_id, array, document, insert,
  }
  open m use {Db, DbError, error_text, find_one_and_update}

  -- `{ "$nin": excluded }`
  abbrev pub not_in : List String → Bson
  not_in excluded = document (doc (("$nin", array (map string excluded)) ∷ []))

  -- The new `worker_state`.
  unfoldable pub claim_state : String → String → ℤ → ℕ → List (String × Bson)
  claim_state worker_id claim_token claim_started_at worker_switch_timeout =
      ("worker_id", string worker_id)
      ∷ ("claim_token", string claim_token)
      ∷ ("started_at", date_time claim_started_at)
      ∷ ("heartbeat_at", date_time claim_started_at)
      ∷ ("switch_timeout_ms", int64 (wrapped_millis worker_switch_timeout))
      ∷ []

  unfoldable pub claim_fields : String → String → ℤ → ℕ → List (String × Bson)
  unfolding claim_state
  claim_fields worker_id claim_token claim_started_at worker_switch_timeout =
      ("status", string "running")
      ∷ ("updated_at", date_time claim_started_at)
      ∷ (
        "worker_state",
        document (doc (claim_state worker_id claim_token claim_started_at worker_switch_timeout)),
      )
      ∷ []

  unfoldable pub claim_update : String → String → ℤ → ℕ → Document
  unfolding claim_fields
  claim_update worker_id claim_token claim_started_at worker_switch_timeout = doc (
      (
        "$set",
        document (doc (claim_fields worker_id claim_token claim_started_at worker_switch_timeout)),
      )
      ∷ [])

  -- The deadline in the language of expressions:
  -- `heartbeat_at + ifNull(worker_switch_timeout, ifNull(switch_timeout_ms, default)) <= now`.
  unfoldable pub stale_expr : ℤ → ℕ → Bson
  stale_expr now worker_switch_timeout = document (
      doc (
        (
          "$lte",
          array (
              document (
                doc (
                  (
                    "$add",
                    array (
                        string "$worker_state.heartbeat_at"
                        ∷ document (
                            doc (
                              (
                                "$ifNull",
                                array (
                                    string "$worker_switch_timeout"
                                    ∷ document (
                                        doc (
                                          (
                                            "$ifNull",
                                            array (
                                                string "$worker_state.switch_timeout_ms"
                                                ∷ int64 (wrapped_millis worker_switch_timeout)
                                                ∷ []),
                                          )
                                          ∷ []))
                                    ∷ []),
                              )
                              ∷ []))
                        ∷ []),
                  )
                  ∷ []))
              ∷ date_time now
              ∷ []),
        )
        ∷ []))

  unfoldable pub stale_entries : ℤ → ℕ → List String → List (String × Bson)
  stale_entries now worker_switch_timeout excluded =
      ("status", string "running")
      ∷ ("worker_state.heartbeat_at", document (doc (("$type", string "date") ∷ [])))
      ∷ ("task_id", not_in excluded)
      ∷ ("$expr", stale_expr now worker_switch_timeout)
      ∷ []

  unfoldable pub stale_claim_filter : ℤ → ℕ → List String → Document
  unfolding stale_expr stale_entries
  stale_claim_filter now worker_switch_timeout excluded =
      doc (stale_entries now worker_switch_timeout excluded)

  unfoldable pub pending_entries : List String → List (String × Bson)
  pending_entries excluded = ("status", string "pending") ∷ ("task_id", not_in excluded) ∷ []

  unfoldable pub own_entries : String → List String → List (String × Bson)
  own_entries worker_id excluded =
      ("status", string "running")
      ∷ ("worker_state.worker_id", string worker_id)
      ∷ ("task_id", not_in excluded)
      ∷ []

  -- `claim_filter_attempts`, each with its sort.
  unfoldable pub claim_filter_attempts :
      ClaimMode
      → String
      → ℕ
      → List String
      → Option Document
      → ℤ
      → List (List (String × Bson) × Option Document)
  unfolding pending_entries own_entries stale_entries
  claim_filter_attempts ready worker_id timeout excluded sort now =
      (pending_entries excluded, sort) ∷ (own_entries worker_id excluded, none) ∷ []
  claim_filter_attempts stale_recovery worker_id timeout excluded sort now =
      (stale_entries now timeout excluded, sort) ∷ []

  unfoldable pub claim_with_filter :
      Document → Document → Option Document → Db → Result RequestError (Option Document) × Db
  claim_with_filter filter update sort db =
      let (result, db') = find_one_and_update filter update sort db in
      (map_err (λ e. database (error_text e)) result, db')

  -- The loop over the attempts: the first error or task ends it.
  unfoldable pub claim_first :
      List (List (String × Bson) × Option Document)
      → Document
      → Db
      → Result RequestError (Option Document) × Db
  claim_first [] update db = (ok none, db)
  claim_first ((es, sort) ∷ attempts) update db =
      let (result, db') = claim_with_filter (doc es) update sort db in
      elim result [
        | err e ↦ (err e, db')
        | ok found ↦ elim found [
          | some task ↦ (ok (some task), db')
          | none ↦ claim_first attempts update db'
        ]
      ]

  -- The same loop where others write behind each call, as it is awaited by a pump: behind the first call
  -- `between 0`, behind the next one `between 1`.
  unfoldable pub claim_interleaved :
      List (List (String × Bson) × Option Document)
      → Document
      → (ℕ → Db → Db)
      → Db
      → Result RequestError (Option Document) × Db
  claim_interleaved [] update between db = (ok none, db)
  claim_interleaved ((es, sort) ∷ attempts) update between db =
      let (result, db') = claim_with_filter (doc es) update sort db in
      let rest = claim_interleaved attempts update (λ n. between (suc n)) (between 0 db') in
      elim result [
        | err e ↦ (err e, between 0 db')
        | ok found ↦ elim found [ some task ↦ (ok (some task), between 0 db') | none ↦ rest ]
      ]

  unfoldable pub claim_next_task :
      String
      → ℕ
      → List String
      → ClaimMode
      → Option Document
      → String
      → ℤ
      → ℤ
      → Db
      → Result RequestError (Option Document) × Db
  claim_next_task worker_id timeout excluded mode sort claim_token now claim_started_at db =
      claim_first (claim_filter_attempts mode worker_id timeout excluded sort now)
        (claim_update worker_id claim_token claim_started_at timeout) db

  -- The filter of the targeted claim: `insert` replaces the entry of `task_id`.
  unfoldable pub target_entries : ObjectId → Option String → List (String × Bson)
  target_entries id none = ("_id", object_id id) ∷ []
  target_entries id (some task_id) = ("_id", object_id id) ∷ ("task_id", string task_id) ∷ []

  unfoldable pub is_excluded : Option String → List String → Bool
  is_excluded none excluded = false
  is_excluded (some task_id) excluded = contains excluded task_id

  unfoldable pub claim_expired_task_by_id :
      ObjectId
      → String
      → ℕ
      → Option String
      → List String
      → String
      → ℤ
      → ℤ
      → Db
      → Result RequestError (Option Document) × Db
  unfolding target_entries is_excluded
  claim_expired_task_by_id id worker_id timeout task_id excluded claim_token now claim_started_at
        db =
      if is_excluded task_id excluded
      then (ok none, db)
      else claim_with_filter
          (insert_all (target_entries id task_id) (stale_claim_filter now timeout excluded))
          (claim_update worker_id claim_token claim_started_at timeout) none db

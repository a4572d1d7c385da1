-- ===== src/Worker/ChangeStream/Relevant.antt =====
-- src/worker.rs and src/worker/expiry.rs: what the pipeline of the change stream keeps from the worker.
use getitdone.Prelude.{
  ℕ, ◌≡◌, ◌∙◌, refl, String, true, false, Option, none, some, List, [], ◌∷◌, string_eq, nat_eq,
  contains, arith, Option-cases, inl, inr, map,
}
use getitdone.Prelude.Lists.{any}
use getitdone.Bson.Crate.{BsonCrate}
use getitdone.Bson.Document.{doc}
use getitdone.Mongo.Paths.{split_dot, field_path}
use getitdone.Mongo.Server.{MongoServer}
use getitdone.Mongo.Filters.{matches-one, matches-two, matches-or}
use getitdone.Worker.ChangeStream.{
  field_type, dotted_update_field_exists, path_exists, dotted_field, update_arms, whole_operations,
  update_operations, expiry_change_stream_pipeline,
}
use getitdone.Expiry.Documents.{
  OperationType, insert, replace, update, delete, other, ChangeStreamEvent,
  apply_change_event_to_expirations, apply_updated_fields, apply_update, is_pending,
  expiration_update_from_fields, refresh_deadline, event_id,
}
use getitdone.Expiry.{ExpiryTracker}

-- The name of an operation in the document of an event.
abbrev pub operation_name : OperationType → Option String
operation_name insert = some "insert"
operation_name replace = some "replace"
operation_name update = some "update"
operation_name delete = some "delete"
operation_name other = none

module _ ⦃b : BsonCrate⦄ where
  open b use {Document, document, string, get}

  -- The document of an event, and what the driver reads from it.
  pub record Reads (e : Document) (event : ChangeStreamEvent Document) : Type 0 where
    pub named :
        (name : String)
        → operation_name event.operation_type ≡ some name
        → get "operationType" e ≡ some (string name)
    pub described :
        (fields : Document)
        → event.updated_fields ≡ some fields
        → (description : Document) × (get "updateDescription" e ≡ some (document description))
          × (get "updatedFields" description ≡ some (document fields))

module _ ⦃b : BsonCrate⦄ (m : MongoServer b) where
  open b use {Bson, Document, ObjectId, document, string, get, boolean, array}
  open m use {matches, holds, passes, eval}

  abbrev arms : List Document
  arms = whole_operations ∷ update_operations ∷ []

  passes-or :
      (e : Document)
      → any (λ f. matches f e) arms ≡ true
      → passes expiry_change_stream_pipeline e ≡ true
  unfolding expiry_change_stream_pipeline
  passes-or e h =
      let stage : Document = doc (("$or", array (map document arms)) ∷ []) in
      ground (arith, m.passes-match stage e [], m.passes-nil e, matches-or m arms e h)

  -- Insertions, replacements and deletions pass.
  passes-whole :
      (e : Document) (name : String)
      → get "operationType" e ≡ some (string name)
      → contains ("insert" ∷ "replace" ∷ "delete" ∷ []) name ≡ true
      → passes expiry_change_stream_pipeline e ≡ true
  unfolding split_dot field_path nat_eq
  passes-whole e name h c =
      let selected : matches whole_operations e ≡ true = matches-one m "operationType" _ e (
        m.holds-in "operationType" name ("insert" ∷ "replace" ∷ "delete" ∷ []) e refl refl h ∙ c) in
      passes-or e (ground (arith, selected))

  passes-update :
      (e : Document)
      → get "operationType" e ≡ some (string "update")
      → any (λ f. matches f e) update_arms ≡ true
      → passes expiry_change_stream_pipeline e ≡ true
  unfolding split_dot field_path nat_eq string_eq
  passes-update e h a =
      let selected : matches update_operations e ≡ true =
        matches-two m "operationType" "$or" _ _ e
          (m.holds-string "operationType" "update" e refl
            ∙ m.reaches-plain "operationType" "update" "update" e refl h)
          (m.holds-or update_arms e ∙ a) in
      passes-or e (ground (arith, selected))

  -- The arms of an update.
  module _ (e description fields : Document)
      (h : get "updateDescription" e ≡ some (document description))
      (g : get "updatedFields" description ≡ some (document fields)) where
    -- A field of the updated ones that is there.
    path_exists-present :
        (path inner k : String) (v : Bson)
        → field_path path ≡ none
        → field_path inner ≡ none
        → field_path k ≡ none
        → split_dot path ≡ some ("updateDescription", inner)
        → split_dot inner ≡ some ("updatedFields", k)
        → split_dot k ≡ none
        → get k fields ≡ some v
        → matches (path_exists path) e ≡ true
    path_exists-present path inner k v a a' a'' p q r at = matches-one m path _ e (
        m.holds-present_inner path "updateDescription" inner e description a a' p h
        ∙ m.holds-present_inner inner "updatedFields" k description fields a' a'' q g
        ∙ m.holds-present k v fields a'' r at)

    -- A field of the updated ones that is there, under its literal name.
    dotted_field-present :
        (k : String) (v : Bson)
        → field_path k ≡ none
        → get k fields ≡ some v
        → matches (dotted_field k) e ≡ true
    unfolding split_dot field_path nat_eq
    dotted_field-present k v a at =
        let input : eval e (string "$updateDescription.updatedFields") ≡ document fields =
          m.eval-inner "$updateDescription.updatedFields" "updateDescription.updatedFields"
            "updateDescription" "updatedFields" (document fields) e description refl refl refl h
            g in
        let (name, there, type) =
          m.eval-type_get_field (string "$updateDescription.updatedFields") k v e fields a input
            at in
        let differ : eval e (document (dotted_update_field_exists k)) ≡ boolean true =
          m.eval-ne (document (field_type k)) (string "missing") e name "missing" type
            (m.eval-string "missing" e refl)
          ∙ ground (arith, there) in
        matches-one m "$expr" _ e (m.holds-expr (dotted_update_field_exists k) e true differ)

    absent :
        (k : String)
        → get "operationType" e ≡ some (string "update")
        → passes expiry_change_stream_pipeline e ≡ false
        → ((v : Bson) → get k fields ≡ some v → any (λ f. matches f e) update_arms ≡ true)
        → get k fields ≡ none
    absent k o dropped arm = elim (Option-cases (get k fields)) [
      | inl n ↦ n
      | inr (v, at) ↦ absurd (cc (passes-update e o (arm v at)))
    ]

    module _ (o : get "operationType" e ≡ some (string "update"))
        (dropped : passes expiry_change_stream_pipeline e ≡ false) where
      no_status : get "status" fields ≡ none
      unfolding split_dot field_path nat_eq
      no_status = absent "status" o dropped (λ v at. ground (
        arith,
        path_exists-present "updateDescription.updatedFields.status" "updatedFields.status" "status"
            v refl refl refl refl refl refl at,
      ))

      no_worker_state : get "worker_state" fields ≡ none
      unfolding split_dot field_path nat_eq
      no_worker_state = absent "worker_state" o dropped (λ v at. ground (
        arith,
        path_exists-present "updateDescription.updatedFields.worker_state"
            "updatedFields.worker_state" "worker_state" v refl refl refl refl refl refl at,
      ))

      no_heartbeat : get "worker_state.heartbeat_at" fields ≡ none
      unfolding field_path nat_eq
      no_heartbeat =
          absent "worker_state.heartbeat_at" o dropped
            (λ v at. ground (arith, dotted_field-present "worker_state.heartbeat_at" v refl at))

  untouched_by_fields :
      (fields : Document) (id : Option ObjectId) (timeout : ℕ) (t : ExpiryTracker ObjectId)
      → get "status" fields ≡ none
      → get "worker_state" fields ≡ none
      → get "worker_state.heartbeat_at" fields ≡ none
      → apply_updated_fields (some fields) id timeout t ≡ (t, false)
  unfolding apply_updated_fields apply_update expiration_update_from_fields is_pending
      refresh_deadline
  untouched_by_fields fields none timeout t s w h = rw s
  untouched_by_fields fields (some i) timeout t s w h = rw (
    s, apply_update, expiration_update_from_fields, w, expiration_update_from_fields, h,
    refresh_deadline, is_pending,
  )

  untouched :
      (e : Document) (event : ChangeStreamEvent Document) (o : OperationType) (timeout : ℕ)
      (t : ExpiryTracker ObjectId)
      → event.operation_type ≡ o
      → Reads e event
      → passes expiry_change_stream_pipeline e ≡ false
      → apply_change_event_to_expirations event timeout t ≡ (t, false)
  unfolding apply_change_event_to_expirations string_eq apply_updated_fields event_id
  untouched e event insert timeout t p r dropped =
      absurd (cc (passes-whole e "insert" (r.named "insert" (rw p)) refl))
  untouched e event replace timeout t p r dropped =
      absurd (cc (passes-whole e "replace" (r.named "replace" (rw p)) refl))
  untouched e event delete timeout t p r dropped =
      absurd (cc (passes-whole e "delete" (r.named "delete" (rw p)) refl))
  untouched e event other timeout t p r dropped = rw p
  untouched e event update timeout t p r dropped =
      let named : get "operationType" e ≡ some (string "update") = r.named "update" (rw p) in
      elim (Option-cases event.updated_fields) [
        | inl n ↦ rw (p, apply_change_event_to_expirations, n, apply_updated_fields)
        | inr (fields, n) ↦
            let (description, h, g) = r.described fields n in
            rw (p, apply_change_event_to_expirations, n)
              (untouched_by_fields fields (event_id event) timeout t
                (no_status e description fields h g named dropped)
                (no_worker_state e description fields h g named dropped)
                (no_heartbeat e description fields h g named dropped))
      ]

  -- What the pipeline keeps from the worker would have changed nothing: an event that it does not let
  -- through leaves the tracker as it is, and reports no pending work.
  pub dropped_events :
      (e : Document) (event : ChangeStreamEvent Document) (timeout : ℕ) (t : ExpiryTracker ObjectId)
      → Reads e event
      → passes expiry_change_stream_pipeline e ≡ false
      → apply_change_event_to_expirations event timeout t ≡ (t, false)
  dropped_events e event timeout t r dropped =
      untouched e event event.operation_type timeout t refl r dropped

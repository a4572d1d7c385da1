-- ===== src/Worker/ChangeStream.antt =====
-- src/worker.rs: opening the change stream of the collection, and the pipeline that it asks for.
pub mod Relevant
use getitdone.Prelude.{Bool, true, false, ◌||◌, ◌==◌, String, List, [], ◌∷◌, map, if◌then◌else◌}
use getitdone.Bson.Crate.{BsonCrate}
use getitdone.Bson.Document.{doc}
use getitdone.Prelude.Int.{pos, int_eq}
use getitdone.Prelude.Text.{eq_ignore_ascii_case, contains_text}
use getitdone.Mongo.Errors.{ErrorKind, command, other, MongoError}
use getitdone.Errors.{RequestError, database, Result, ok, err}

unfoldable pub is_unsupported_kind : ErrorKind → String → Bool
unfolding eq_ignore_ascii_case contains_text int_eq
is_unsupported_kind (command code code_name) message =
    (code == pos 40573 || code == pos 40574 || code == pos 40615)
    || eq_ignore_ascii_case code_name "ChangeStreamNotSupported"
    || eq_ignore_ascii_case code_name "Location40573"
is_unsupported_kind other message =
    contains_text message "$changeStream stage is only supported"
    || contains_text message "ChangeStreamNotSupported"

unfoldable pub is_change_stream_unsupported : MongoError → Bool
unfolding is_unsupported_kind
is_change_stream_unsupported e = is_unsupported_kind e.kind e.text

-- `open_change_stream`, on what `watch` answers: whether there is a stream.
unfoldable pub open_change_stream : Result MongoError (Unit {0}) → Result RequestError Bool
unfolding is_change_stream_unsupported
open_change_stream (ok stream) = ok true
open_change_stream (err e) =
    if is_change_stream_unsupported e
    then err
        (database "change streams unsupported; MongoDB must be a replica set or sharded cluster")
    else ok false

module _ ⦃b : BsonCrate⦄ where
  open b use {Bson, Document, string, boolean, array, document}

  -- The argument of the inner `$getField`.
  abbrev pub field_type : String → Document
  field_type field = doc (
      (
        "$type",
        document (
            doc (
              (
                "$getField",
                document (
                    doc (
                      ("input", string "$updateDescription.updatedFields")
                      ∷ ("field", string field)
                      ∷ [])),
              )
              ∷ [])),
      )
      ∷ [])

  abbrev pub dotted_update_field_exists : String → Document
  dotted_update_field_exists field =
      doc (("$ne", array (document (field_type field) ∷ string "missing" ∷ [])) ∷ [])

  abbrev pub path_exists : String → Document
  path_exists path = doc ((path, document (doc (("$exists", boolean true) ∷ []))) ∷ [])

  abbrev pub dotted_field : String → Document
  dotted_field field = doc (("$expr", document (dotted_update_field_exists field)) ∷ [])

  abbrev pub update_arms : List Document
  update_arms =
      path_exists "updateDescription.updatedFields.status"
      ∷ path_exists "updateDescription.updatedFields.worker_state"
      ∷ dotted_field "worker_state.heartbeat_at"
      ∷ dotted_field "worker_state.switch_timeout_ms"
      ∷ []

  abbrev pub whole_operations : Document
  whole_operations = doc (
      (
        "operationType",
        document (doc (("$in", array (map string ("insert" ∷ "replace" ∷ "delete" ∷ []))) ∷ [])),
      )
      ∷ [])

  abbrev pub update_operations : Document
  update_operations =
      doc (("operationType", string "update") ∷ ("$or", array (map document update_arms)) ∷ [])

  unfoldable pub expiry_change_stream_pipeline : List Document
  expiry_change_stream_pipeline =
      doc (
        (
          "$match",
          document (
              doc (("$or", array (map document (whole_operations ∷ update_operations ∷ []))) ∷ [])),
        )
        ∷ [])
      ∷ []

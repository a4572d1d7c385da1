-- ===== src/Storage.antt =====
-- src/storage.rs: connecting to the collection, and the warnings about its indexes. They are logged, as
-- with the feature `tracing`; here they are a list.
pub mod Indexes
use getitdone.Prelude.{
  ◌≡◌, String, Bool, true, false, ◌&&◌, ◌++◌, ◌==◌, not, Option, none, some, List, [], ◌∷◌,
  if◌then◌else◌,
}
use getitdone.Prelude.Int.{ℤ, pos, int_eq}
use getitdone.Errors.{RequestError, database, Result, ok, err}
use getitdone.Config.{Config, unwrap_or}
use getitdone.Bson.Crate.{BsonCrate}
use getitdone.Bson.Document.{doc, ◌>>=◌}
use getitdone.Mongo.Errors.{ErrorKind, command, other, MongoError}

unfoldable pub is_namespace_kind : ErrorKind → Bool
unfolding int_eq
is_namespace_kind (command code code_name) = code == pos 26
is_namespace_kind other = false

unfoldable pub is_namespace_not_found : MongoError → Bool
unfolding is_namespace_kind
is_namespace_not_found e = is_namespace_kind e.kind

module _ ⦃b : BsonCrate⦄ where
  open b use {Bson, Document, int32, insert, new, first, document_eq}

  -- What `list_indexes` says of an index; `unique` is `options.unique`, if there are options.
  pub record IndexModel : Type 0 where
    pub keys : Document
    pub unique : Option Bool

  pub data Warning : Type 0 where
    cannot_inspect cannot_iterate not_unique : Warning
    missing_task_id missing_status missing_worker_state : Warning
    missing_claim_sort : Document → Warning

  unfoldable pub expected_claim_sort_index : Option Document → Option Document
  expected_claim_sort_index sort = sort >>= λ d.
      first d >>= λ entry. some (insert entry.0 entry.1 (insert "status" (int32 (pos 1)) new))

  abbrev pub task_id_entries : List (String × Bson)
  task_id_entries = ("task_id", int32 (pos 1)) ∷ []

  abbrev pub status_entries : List (String × Bson)
  status_entries = ("status", int32 (pos 1)) ∷ ("updated_at", int32 (pos 1)) ∷ []

  abbrev pub worker_state_entries : List (String × Bson)
  worker_state_entries = ("worker_state.worker_id", int32 (pos 1)) ∷ []

  -- The local variables `has_…`.
  pub record Found : Type 0 where
    pub task_id_unique : Bool
    pub status_updated : Bool
    pub worker_state : Bool
    pub claim_sort_index : Bool

  unfoldable pub is_expected : Document → Option Document → Bool
  is_expected keys none = false
  is_expected keys (some expected) = document_eq keys expected

  unfoldable pub inspect_keys : Option Document → IndexModel → Found → Found
  unfolding is_expected
  inspect_keys expected index found =
      if document_eq index.keys (doc task_id_entries)
      then (if unwrap_or false index.unique then record found { task_id_unique = true } else found)
      else if document_eq index.keys (doc status_entries)
      then record found { status_updated = true }
      else if document_eq index.keys (doc worker_state_entries)
      then record found { worker_state = true }
      else if is_expected index.keys expected
      then record found { claim_sort_index = true }
      else found

  unfoldable pub uniqueness_warnings : IndexModel → List Warning
  uniqueness_warnings index =
      if document_eq index.keys (doc task_id_entries) && not (unwrap_or false index.unique)
      then not_unique ∷ []
      else []

  -- The loop over the cursor; `none` is its early return.
  unfoldable pub inspect_indexes :
      Option Document → List (Result MongoError IndexModel) → Found → List Warning × Option Found
  unfolding inspect_keys uniqueness_warnings
  inspect_indexes expected [] found = ([], some found)
  inspect_indexes expected (err e ∷ results) found = (cannot_iterate ∷ [], none)
  inspect_indexes expected (ok index ∷ results) found =
      let (warnings, last) = inspect_indexes expected results (inspect_keys expected index found) in
      (uniqueness_warnings index ++ warnings, last)

  unfoldable pub warn_if : Bool → Warning → List Warning
  warn_if c w = if c then w ∷ [] else []

  unfoldable pub missing_claim_sort_warnings : Option Document → Found → List Warning
  unfolding warn_if
  missing_claim_sort_warnings none found = []
  missing_claim_sort_warnings (some expected) found =
      warn_if (not found.claim_sort_index) (missing_claim_sort expected)

  unfoldable pub missing_warnings : Option Document → Option Found → List Warning
  unfolding missing_claim_sort_warnings
  missing_warnings expected none = []
  missing_warnings expected (some found) =
      warn_if (not found.task_id_unique) missing_task_id
      ++ (warn_if (not found.status_updated) missing_status
          ++ (warn_if (not found.worker_state) missing_worker_state
              ++ missing_claim_sort_warnings expected found))

  abbrev pub nothing_found : Found
  nothing_found = record {
    task_id_unique = false;
    status_updated = false;
    worker_state = false;
    claim_sort_index = false;
  }

  -- On what `list_indexes` answers.
  unfoldable pub warn_if_missing_indexes :
      Result MongoError (List (Result MongoError IndexModel)) → Option Document → List Warning
  unfolding expected_claim_sort_index inspect_indexes missing_warnings is_namespace_not_found
  warn_if_missing_indexes (err e) claim_sort =
      if is_namespace_not_found e then [] else cannot_inspect ∷ []
  warn_if_missing_indexes (ok results) claim_sort =
      let expected = expected_claim_sort_index claim_sort in
      let (warnings, last) = inspect_indexes expected results nothing_found in
      warnings ++ missing_warnings expected last

  -- What the code calls of the driver to connect: `ClientOptions::parse`, `Client::with_options`,
  -- `Client::database` with `Database::collection`, and `Collection::list_indexes`.
  pub record Driver (Db : Type 0) : Type 1 where
    pub ClientOptions : Type 0
    pub Client : Type 0
    pub parse : String → Result MongoError ClientOptions
    pub install_metrics : ClientOptions → ClientOptions
    pub with_options : ClientOptions → Result MongoError Client
    pub collection : Client → String → String → Db
    pub list_indexes : Db → Result MongoError (List (Result MongoError IndexModel))

  module _ {Db : Type 0} (d : Driver Db) where
    open d use {
      ClientOptions, Client, parse, install_metrics, with_options, collection, list_indexes,
    }

    unfoldable pub open_client : Config Document → Result MongoError Client
    open_client config = elim (parse config.mongo_uri) [
      | err e ↦ err e
      | ok options ↦
          with_options (if config.enable_metrics then install_metrics options else options)
    ]

    -- The collection, and the warnings on the way.
    unfoldable pub connect_collection : Config Document → Result RequestError Db × List Warning
    unfolding open_client warn_if_missing_indexes
    connect_collection config = elim (open_client config) [
      | err e ↦ (err (database e.text), [])
      | ok client ↦
          let tasks = collection client config.database config.collection in
          (ok tasks, warn_if_missing_indexes (list_indexes tasks) config.claim_sort)
    ]

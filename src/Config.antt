-- ===== src/Config.antt =====
-- src/config.rs: `Config` and its builder. `String` arguments stand for `impl Into<String>`.
use getitdone.Prelude.{ℕ, ◌≡◌, String, Bool, false, Option, none, some, arith}
use getitdone.Time.{from_secs}

-- `unwrap_or`
abbrev pub unwrap_or {ℓ} : {A : Type ℓ} → A → Option A → A
unwrap_or a none = a
unwrap_or a (some x) = x

module _ (Document : Type 0) where
  pub record Config : Type 0 where
    pub mongo_uri : String
    pub database : String
    pub collection : String
    pub request_timeout : Option ℕ
    pub worker_switch_timeout : ℕ
    pub allow_reset_finished_tasks : Bool
    pub worker_id : Option String
    pub enable_metrics : Bool
    pub claim_sort : Option Document
    pub stale_recovery_sort : Option Document

  pub record ConfigBuilder : Type 0 where
    pub mongo_uri : Option String
    pub database : Option String
    pub collection : Option String
    pub request_timeout : Option (Option ℕ)
    pub worker_switch_timeout : Option ℕ
    pub reset_finished_to_pending : Bool
    pub worker_id : Option String
    pub enable_metrics : Bool
    pub claim_sort : Option Document
    pub stale_recovery_sort : Option Document

module _ {Document : Type 0} where
  -- `Config::builder`, the derived default.
  unfoldable pub builder : ConfigBuilder Document
  builder = record {
    mongo_uri = none;
    database = none;
    collection = none;
    request_timeout = none;
    worker_switch_timeout = none;
    reset_finished_to_pending = false;
    worker_id = none;
    enable_metrics = false;
    claim_sort = none;
    stale_recovery_sort = none;
  }

  unfoldable pub with_mongo_uri : String → ConfigBuilder Document → ConfigBuilder Document
  with_mongo_uri uri c = record c { mongo_uri = some uri }

  unfoldable pub with_database : String → ConfigBuilder Document → ConfigBuilder Document
  with_database db c = record c { database = some db }

  unfoldable pub with_collection : String → ConfigBuilder Document → ConfigBuilder Document
  with_collection name c = record c { collection = some name }

  unfoldable pub with_request_timeout : Option ℕ → ConfigBuilder Document → ConfigBuilder Document
  with_request_timeout timeout c = record c { request_timeout = some timeout }

  unfoldable pub with_worker_switch_timeout : ℕ → ConfigBuilder Document → ConfigBuilder Document
  with_worker_switch_timeout timeout c = record c { worker_switch_timeout = some timeout }

  unfoldable pub reset_finished_tasks : Bool → ConfigBuilder Document → ConfigBuilder Document
  reset_finished_tasks enable c = record c { reset_finished_to_pending = enable }

  unfoldable pub with_worker_id : String → ConfigBuilder Document → ConfigBuilder Document
  with_worker_id id c = record c { worker_id = some id }

  unfoldable pub with_enable_metrics : Bool → ConfigBuilder Document → ConfigBuilder Document
  with_enable_metrics enable c = record c { enable_metrics = enable }

  unfoldable pub with_claim_sort : Option Document → ConfigBuilder Document → ConfigBuilder Document
  with_claim_sort sort c = record c { claim_sort = sort }

  unfoldable pub with_stale_recovery_sort :
      Option Document → ConfigBuilder Document → ConfigBuilder Document
  with_stale_recovery_sort sort c = record c { stale_recovery_sort = sort }

  -- The rest of `finalize`, once the URI is there.
  finalize_with : String → ConfigBuilder Document → Config Document
  finalize_with mongo_uri c = record {
    mongo_uri = mongo_uri;
    database = unwrap_or "getitdone" c.database;
    collection = unwrap_or "tasks" c.collection;
    request_timeout = unwrap_or none c.request_timeout;
    worker_switch_timeout = unwrap_or (from_secs 10) c.worker_switch_timeout;
    allow_reset_finished_tasks = c.reset_finished_to_pending;
    worker_id = c.worker_id;
    enable_metrics = c.enable_metrics;
    claim_sort = c.claim_sort;
    stale_recovery_sort = c.stale_recovery_sort;
  }

  -- `none` is the panic of `expect`.
  unfoldable pub build : ConfigBuilder Document → Option (Config Document)
  unfolding finalize_with
  build c = elim c.mongo_uri [ none ↦ none | some uri ↦ some (finalize_with uri c) ]

  -- The builder that sets every field of a configuration. `worker_id` has no setter that clears it, so
  -- it is set only where the configuration has one.
  set_worker_id : Option String → ConfigBuilder Document → ConfigBuilder Document
  set_worker_id none c = c
  set_worker_id (some id) c = with_worker_id id c

  unfoldable pub builder_of : Config Document → ConfigBuilder Document
  unfolding set_worker_id
  builder_of config = set_worker_id config.worker_id (
      with_mongo_uri config.mongo_uri (
        with_database config.database (
          with_collection config.collection (
            with_request_timeout config.request_timeout (
              with_worker_switch_timeout config.worker_switch_timeout (
                reset_finished_tasks config.allow_reset_finished_tasks (
                  with_enable_metrics config.enable_metrics (
                    with_claim_sort config.claim_sort
                      (with_stale_recovery_sort config.stale_recovery_sort builder)))))))))

  -- The builder that sets every field of a configuration builds that configuration.
  pub build-builder_of : (config : Config Document) → build (builder_of config) ≡ some config
  unfolding build builder_of builder with_mongo_uri with_database with_collection
      with_request_timeout with_worker_switch_timeout reset_finished_tasks with_worker_id
      with_enable_metrics with_claim_sort with_stale_recovery_sort
  build-builder_of config = ground arith

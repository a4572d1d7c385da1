-- ===== src/Tests/ConfigRuns.antt =====
-- A configuration of src/config.rs, set and built.
use getitdone.Prelude.{◌≡◌, String, true, false, none, some}
use getitdone.Time.{from_secs}
use getitdone.Config.{Config, build, builder_of, build-builder_of}

abbrev config : Config String
config = record {
  mongo_uri = "mongodb://localhost:27017";
  database = "getitdone";
  collection = "tasks";
  request_timeout = some (from_secs 60);
  worker_switch_timeout = from_secs 10;
  allow_reset_finished_tasks = true;
  worker_id = some "worker-1";
  enable_metrics = false;
  claim_sort = none;
  stale_recovery_sort = some "oldest first";
}

build-builder_of_example : build (builder_of config) ≡ some config
build-builder_of_example = build-builder_of config

-- ===== src/Worker/Handle.antt =====
-- src/worker.rs: `Worker` with its connection and its start, and `WorkerHandle`.
use Prim.Native.String.{◌++◌ as ◌<>◌}
use getitdone.Prelude.{ℕ, String, Bool, true, Option, List, [], if◌then◌else◌}
use getitdone.Errors.{RequestError, worker_gone, Result, ok, err}
use getitdone.Config.{Config, unwrap_or}
use getitdone.Bson.Crate.{BsonCrate}
use getitdone.Mongo.Server.{MongoServer}
use getitdone.Storage.{Driver, Warning, connect_collection}
use getitdone.Worker.Pump.{Process}
use getitdone.Worker.Loop.{WorkerStats, StopSignal, kept, sent, LoopSettings, initial}

abbrev pub default_max_inflight : ℕ
default_max_inflight = 10000

-- Whether the handle still has the sender of the stop signal, and the background task.
pub record WorkerHandle : Type 0 where
  pub stop_signal : Bool
  pub join_handle : Bool
  pub stats : WorkerStats

-- `shutdown` up to its await of the background task: the signal that it leaves.
unfoldable pub shutdown : WorkerHandle → StopSignal
shutdown h = if h.stop_signal then sent else kept

-- `Drop`: the signal that it leaves, and whether it aborts the background task.
unfoldable pub drop_handle : WorkerHandle → StopSignal × Bool
unfolding shutdown
drop_handle h = (shutdown h, h.join_handle)

-- `wait`, on how the background task has ended: none if it was aborted or has panicked.
unfoldable pub wait :
    WorkerHandle → Option (Result RequestError (Unit {0})) → Result RequestError (Unit {0})
wait h joined = if h.join_handle then unwrap_or (err worker_gone) joined else ok tt

module _ ⦃b : BsonCrate⦄ (m : MongoServer b) where
  open b use {Document}
  open m use {Db}

  pub record Worker : Type 0 where
    pub config : Config Document
    pub collection : Db
    pub worker_id : String
    pub max_inflight : ℕ

  -- `uuid` is the new one, for a configuration without a worker id.
  unfoldable pub worker_of : Config Document → String → Db → Worker
  worker_of config uuid collection = record {
    config = config;
    collection = collection;
    worker_id = unwrap_or ("worker-" <> uuid) config.worker_id;
    max_inflight = default_max_inflight;
  }

  unfoldable pub connect :
      Driver Db → Config Document → String → Result RequestError Worker × List Warning
  unfolding worker_of
  connect d config uuid =
      let (connected, warnings) = connect_collection d config in
      (
        elim connected [ err e ↦ err e | ok collection ↦ ok (worker_of config uuid collection) ],
        warnings,
      )

  unfoldable pub with_max_inflight : ℕ → Worker → Worker
  with_max_inflight n w = record w { max_inflight = n }

  -- What `run` gives to `worker_loop`.
  unfoldable pub loop_settings : Worker → LoopSettings m
  loop_settings w = record {
    settings = record {
      worker_id = w.worker_id;
      worker_switch_timeout = w.config.worker_switch_timeout;
    };
    claim_sort = w.config.claim_sort;
    stale_recovery_sort = w.config.stale_recovery_sort;
  }

  -- `run`: the handle, the loop's settings, and the process that the loop starts with.
  unfoldable pub run : Worker → WorkerHandle × LoopSettings m × Process m
  unfolding loop_settings
  run w = (
    record {
      stop_signal = true;
      join_handle = true;
      stats = record { max_inflight = w.max_inflight; in_flight = record { task_ids = [] } };
    },
    loop_settings w,
    initial m w.max_inflight w.collection,
  )

-- ===== src/Tests/PoolRuns.antt =====
-- A run of src/pool_metrics.rs: the events of a connection come in the wrong order.
use getitdone.Prelude.{◌≡◌, ◌-◌, List, [], ◌∷◌, arith}
use getitdone.Pool.{
  CmapEvent, connection_created, connection_closed, connection_checked_out, connection_checked_in,
  install, handle_all,
}
use getitdone.Pool.Gauges.{count, handle_all-install}

abbrev events : List CmapEvent
events =
    connection_checked_in ∷ connection_closed ∷ connection_created ∷ connection_checked_out
    ∷ connection_created ∷ []

handle_all-install_example :
    ((handle_all events install).pool_size ≡ (count events).created - (count events).closed)
    × ((handle_all events install).checked_out
        ≡ (count events).checked_out - (count events).checked_in)
handle_all-install_example =
    handle_all-install events (omega arith) (omega arith) (omega arith) (omega arith)

-- ===== src/Pool.antt =====
-- src/pool_metrics.rs: the handler of the driver's connection-pool events, and its two gauges. The
-- atomics are `i64`, kept here as bit patterns: `fetch_add` and `fetch_sub` wrap around.
pub mod Gauges
use getitdone.Prelude.{ℕ, ◌+◌, ◌-◌, ◌%◌, ◌^◌, List, [], ◌∷◌}

-- `CmapEvent`; all other events are `other_event`.
pub data CmapEvent : Type 0 where
  connection_created connection_closed : CmapEvent
  connection_checked_out connection_checked_in : CmapEvent
  other_event : CmapEvent

pub record PoolState : Type 0 where
  pub pool_size : ℕ
  pub checked_out : ℕ

unfoldable pub fetch_add_one : ℕ → ℕ
fetch_add_one n = (n + 1) % 2 ^ 64

unfoldable pub fetch_sub_one : ℕ → ℕ
fetch_sub_one n = (n + 2 ^ 64 - 1) % 2 ^ 64

unfoldable pub install : PoolState
install = record { pool_size = 0; checked_out = 0 }

unfoldable pub handle : CmapEvent → PoolState → PoolState
unfolding fetch_add_one fetch_sub_one
handle connection_created s = record s { pool_size = fetch_add_one s.pool_size }
handle connection_closed s = record s { pool_size = fetch_sub_one s.pool_size }
handle connection_checked_out s = record s { checked_out = fetch_add_one s.checked_out }
handle connection_checked_in s = record s { checked_out = fetch_sub_one s.checked_out }
handle other_event s = s

-- The events in their order.
unfoldable pub handle_all : List CmapEvent → PoolState → PoolState
unfolding handle
handle_all [] s = s
handle_all (e ∷ es) s = handle_all es (handle e s)

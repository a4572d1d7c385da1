-- ===== src/Worker/InFlight.antt =====
-- src/worker.rs: `InFlightRegistry`, the ids of the tasks whose handlers run in this process. Its lock
-- makes each method atomic.
use getitdone.Prelude.{ℕ, String, Bool, List, contains, string_eq, length, not}
use getitdone.Prelude.Sets.{add, discard}

pub record InFlightRegistry : Type 0 where
  pub task_ids : List String

unfoldable pub contains_task : InFlightRegistry → String → Bool
contains_task r task_id = contains r.task_ids task_id

unfoldable pub snapshot : InFlightRegistry → List String
snapshot r = r.task_ids

-- Whether the id is new, and the registry with it.
unfoldable pub insert_task : String → InFlightRegistry → Bool × InFlightRegistry
insert_task task_id r =
    (not (contains r.task_ids task_id), record { task_ids = add task_id r.task_ids })

unfoldable pub remove_task : String → InFlightRegistry → InFlightRegistry
remove_task task_id r = record { task_ids = discard task_id r.task_ids }

unfoldable pub len : InFlightRegistry → ℕ
len r = length r.task_ids

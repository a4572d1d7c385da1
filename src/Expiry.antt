-- ===== src/Expiry.antt =====
-- src/worker/expiry.rs: `ExpiryTracker`, which tracks the deadlines of running tasks and a hint that
-- pending work may exist. The ids are generic; `DateTime::now()` is the argument `now_ms`.
pub mod Index
pub mod Due
pub mod PopDue
pub mod Popped
pub mod Refresh
pub mod Documents
use getitdone.Prelude.{
  ℕ, String, Bool, true, false, Option, none, some, List, [], ◌∷◌, ◌++◌, or_else, Eq, if◌then◌else◌,
}
use getitdone.Prelude.Int.{ℤ, pos_part, ◌-ℤ◌, leb_ℤ, saturating_add}
use getitdone.Prelude.Dict.{lookup, insert, remove as dict_remove}
use getitdone.Prelude.Sorted.{find, put, delete, keys}
use getitdone.Prelude.Sets.{add, discard, is_empty}
use getitdone.Time.{from_millis, clamped_millis}

pub record ExpiringTask : Type 0 where
  pub task_id : Option String
  pub expires_at_ms : Option ℤ

pub record ExpiryTracker (Key : Type 0) : Type 0 where
  pub tasks : List (Key × ExpiringTask)
  pub deadlines : List (ℤ × List Key)
  pub pending_may_exist : Bool

-- `range(..=now_ms)` of the ordered map, as its keys.
unfoldable pub due_keys : ℤ → List ℤ → List ℤ
due_keys now_ms [] = []
due_keys now_ms (x ∷ xs) =
    let rest = due_keys now_ms xs in if leb_ℤ x now_ms then x ∷ rest else rest

abbrev pub task_id_of : Option ExpiringTask → Option String
task_id_of none = none
task_id_of (some task) = task.task_id

module _ {Key : Type 0} where
  unfoldable pub new : ExpiryTracker Key
  new = record { tasks = []; deadlines = []; pending_may_exist = false }

  unfoldable pub clear_running : ExpiryTracker Key → ExpiryTracker Key
  clear_running t = record t { tasks = []; deadlines = [] }

  unfoldable pub set_pending_may_exist : Bool → ExpiryTracker Key → ExpiryTracker Key
  set_pending_may_exist exists t = record t { pending_may_exist = exists }

  unfoldable pub mark_pending : ExpiryTracker Key → ExpiryTracker Key
  mark_pending t = record t { pending_may_exist = true }

  -- The first key of the ordered map is the nearest deadline. The difference is at most 2^64 - 1, so
  -- that the cast to `u64` keeps it.
  unfoldable pub next_delay : ℤ → ExpiryTracker Key → Option ℕ
  next_delay now_ms t = elim t.deadlines [
    | [] ↦ none
    | (next_ms, _) ∷ _ ↦
        if leb_ℤ next_ms now_ms then some 0 else some (from_millis (pos_part (next_ms -ℤ now_ms)))
  ]

  abbrev pub ids_of : Option (List Key) → List Key
  ids_of none = []
  ids_of (some ids) = ids

module _ {Key : Type 0} ⦃e : Eq Key⦄ where
  -- `deadlines.entry(x).or_default().insert(id)`
  unfoldable pub add_deadline : ℤ → Key → List (ℤ × List Key) → List (ℤ × List Key)
  add_deadline x id d = put x (add id (ids_of (find x d))) d

  -- The inner part of `remove`: the id leaves its bucket, and an empty bucket leaves the map.
  unfoldable pub drop_deadline : ℤ → Key → List (ℤ × List Key) → List (ℤ × List Key)
  drop_deadline x id d = elim (find x d) [
    | none ↦ d
    | some ids ↦ if is_empty (discard id ids) then delete x d else put x (discard id ids) d
  ]

  unfoldable pub remove : Key → ExpiryTracker Key → ExpiryTracker Key
  unfolding drop_deadline
  remove id t = elim (lookup id t.tasks) [
    | none ↦ t
    | some existing ↦ elim existing.expires_at_ms [
      | none ↦ record t { tasks = dict_remove id t.tasks }
      | some deadline ↦ record t {
        tasks = dict_remove id t.tasks;
        deadlines = drop_deadline deadline id t.deadlines;
      }
    ]
  ]

  unfoldable pub upsert : Key → Option String → ℤ → ℕ → ExpiryTracker Key → ExpiryTracker Key
  upsert id task_id heartbeat_at worker_switch_timeout t =
      let expires_at_ms = saturating_add heartbeat_at (clamped_millis worker_switch_timeout) in
      let task_id' = or_else task_id (task_id_of (lookup id t.tasks)) in
      let t' = remove id t in
      record t' {
        tasks =
            insert id (record { task_id = task_id'; expires_at_ms = some expires_at_ms }) t'.tasks;
        deadlines = add_deadline expires_at_ms id t'.deadlines;
      }

  -- The inner loop of `pop_due`, over the ids of one deadline.
  unfoldable pub drain_ids :
      List Key
      → List (Key × ExpiringTask)
      → List (Key × ExpiringTask)
      → List (Key × ExpiringTask) × List (Key × ExpiringTask)
  drain_ids [] tasks due = (tasks, due)
  drain_ids (id ∷ ids) tasks due = elim (lookup id tasks) [
    | none ↦ drain_ids ids tasks due
    | some task ↦ drain_ids ids (dict_remove id tasks) (due ++ (id, task) ∷ [])
  ]

  -- The outer loop of `pop_due`, over the deadlines that are due.
  unfoldable pub drain_deadlines :
      List ℤ
      → ExpiryTracker Key
      → List (Key × ExpiringTask)
      → List (Key × ExpiringTask) × ExpiryTracker Key
  drain_deadlines [] t due = (due, t)
  drain_deadlines (x ∷ xs) t due = elim (find x t.deadlines) [
    | none ↦ drain_deadlines xs t due
    | some ids ↦
        let (tasks, due') = drain_ids ids t.tasks due in
        drain_deadlines xs (record t { tasks = tasks; deadlines = delete x t.deadlines }) due'
  ]

  unfoldable pub pop_due : ℤ → ExpiryTracker Key → List (Key × ExpiringTask) × ExpiryTracker Key
  unfolding due_keys
  pop_due now_ms t = drain_deadlines (due_keys now_ms (keys t.deadlines)) t []

  unfoldable pub defer : Key → ExpiringTask → ℕ → ℤ → ExpiryTracker Key → ExpiryTracker Key
  defer id task delay now_ms t =
      let expires_at_ms = saturating_add now_ms (clamped_millis delay) in
      record t {
        tasks = insert id (record task { expires_at_ms = some expires_at_ms }) t.tasks;
        deadlines = add_deadline expires_at_ms id t.deadlines;
      }

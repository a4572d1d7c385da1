-- ===== src/Expiry/Index.antt =====
-- src/worker/expiry.rs: the two maps of `ExpiryTracker`, `deadlines` as the index of `tasks` by their
-- deadline, and the methods that change them.
use getitdone.Prelude.{
  ℕ, ◌≡◌, ◌≢◌, refl, ◌∙◌, String, Bool, true, false, Option, none, some, List, [], ◌∷◌, Eq, ◌==◌,
  contains, if◌then◌else◌, or_else, arith, Option-cases, inl, inr, Bool-cases,
}
use getitdone.Prelude.Int.{ℤ, int_eq, saturating_add}
use getitdone.Prelude.Dict.{lookup, insert, lookup-insert, lookup-remove}
use getitdone.Prelude.Sorted.{find, IsSorted, find-put, find-delete, put-IsSorted, delete-IsSorted}
use getitdone.Prelude.Sets.{
  add, discard, is_empty, contains-add, contains-discard, not-is_empty-add,
}
use getitdone.Time.{clamped_millis}
use getitdone.Expiry.{
  ExpiringTask, ExpiryTracker, new, clear_running, ids_of, add_deadline, drop_deadline, task_id_of,
  remove, upsert, defer,
}

-- The task that is looked up has this deadline.
abbrev pub is_at : ℤ → Option ExpiringTask → Bool
is_at x none = false
is_at x (some task) = elim task.expires_at_ms [ none ↦ false | some y ↦ y == x ]

module _ {Key : Type 0} ⦃e : Eq Key⦄ where
  -- The id stands in the bucket of this deadline.
  abbrev pub has : ℤ → Key → List (ℤ × List Key) → Bool
  has x id d = contains (ids_of (find x d)) id

  pub record IsIndexed (t : ExpiryTracker Key) : Type 0 where
    pub agree : (x : ℤ) (id : Key) → has x id t.deadlines ≡ is_at x (lookup id t.tasks)
    pub sorted : IsSorted t.deadlines
    pub nonempty : (x : ℤ) → find x t.deadlines ≢ some []

  pub has-add_deadline :
      (y x : ℤ) (j id : Key) (d : List (ℤ × List Key))
      → has y j (add_deadline x id d)
        ≡ (if x == y then (if id == j then true else has x j d) else has y j d)
  unfolding add_deadline
  has-add_deadline y x j id d =
      ground
        (arith, find-put y x (add id (ids_of (find x d))) d, contains-add j id (ids_of (find x d)))

  empty_contains : (j : Key) (ids : List Key) → is_empty ids ≡ true → contains ids j ≡ false
  empty_contains j [] h = refl
  empty_contains j (i ∷ ids) h = ground arith

  pub has-drop_deadline :
      (y x : ℤ) (j id : Key) (d : List (ℤ × List Key))
      → has y j (drop_deadline x id d)
        ≡ (if x == y then (if id == j then false else has x j d) else has y j d)
  unfolding drop_deadline
  has-drop_deadline y x j id d = elim (Option-cases (find x d)) [
    | inl h ↦ ground arith
    | inr (ids, h) ↦ ground (
      arith,
      find-put y x (discard id ids) d,
      find-delete y x d,
      contains-discard j id ids,
      empty_contains j (discard id ids),
    )
  ]

  add_deadline-IsSorted :
      (x : ℤ) (id : Key) (d : List (ℤ × List Key)) → IsSorted d → IsSorted (add_deadline x id d)
  unfolding add_deadline
  add_deadline-IsSorted x id d s = put-IsSorted x (add id (ids_of (find x d))) d s

  add_deadline-nonempty :
      (x : ℤ) (id : Key) (d : List (ℤ × List Key))
      → ((y : ℤ) → find y d ≢ some [])
      → (y : ℤ) → find y (add_deadline x id d) ≢ some []
  unfolding add_deadline
  add_deadline-nonempty x id d h y = ground (
    arith,
    h y,
    find-put y x (add id (ids_of (find x d))) d,
    not-is_empty-add id (ids_of (find x d)),
  )

  drop_deadline-nonempty :
      (x : ℤ) (id : Key) (d : List (ℤ × List Key))
      → ((y : ℤ) → find y d ≢ some [])
      → (y : ℤ) → find y (drop_deadline x id d) ≢ some []
  unfolding drop_deadline
  drop_deadline-nonempty x id d h y = elim (Option-cases (find x d)) [
    | inl g ↦ ground (arith, h y)
    | inr (ids, g) ↦ ground (arith, h y, find-put y x (discard id ids) d, find-delete y x d)
  ]

  drop_deadline-IsSorted :
      (x : ℤ) (id : Key) (d : List (ℤ × List Key)) → IsSorted d → IsSorted (drop_deadline x id d)
  unfolding drop_deadline
  drop_deadline-IsSorted x id d s = elim (Option-cases (find x d)) [
    | inl g ↦ rw (g, drop_deadline) s
    | inr (ids, g) ↦ elim (Bool-cases (is_empty (discard id ids))) [
      | inl q ↦ rw (g, drop_deadline, q) (delete-IsSorted x d s)
      | inr q ↦ rw (g, drop_deadline, q) (put-IsSorted x (discard id ids) d s)
    ]
  ]

  pub new-IsIndexed : IsIndexed (new {Key = Key})
  unfolding new lookup find
  new-IsIndexed = record { agree = λ x id. refl; sorted = tt; nonempty = λ x h. cc }

  pub clear_running-IsIndexed : (t : ExpiryTracker Key) → IsIndexed (clear_running t)
  unfolding clear_running lookup find
  clear_running-IsIndexed t = record { agree = λ x id. refl; sorted = tt; nonempty = λ x h. cc }

  -- What `remove` leaves to be looked up.
  pub lookup-remove_task :
      (j id : Key) (t : ExpiryTracker Key)
      → lookup j (remove id t).tasks ≡ (if id == j then none else lookup j t.tasks)
  unfolding remove
  lookup-remove_task j id t = ground (arith, lookup-remove j id t.tasks)

  data Removal (id : Key) (t u : ExpiryTracker Key) : Type 0 where
    absent : lookup id t.tasks ≡ none → u ≡ t → Removal id t u
    timeless :
        (task : ExpiringTask)
        → lookup id t.tasks ≡ some task
        → task.expires_at_ms ≡ none
        → u.deadlines ≡ t.deadlines
        → Removal id t u
    timed :
        (task : ExpiringTask) (x : ℤ)
        → lookup id t.tasks ≡ some task
        → task.expires_at_ms ≡ some x
        → u.deadlines ≡ drop_deadline x id t.deadlines
        → Removal id t u

  remove-Removal : (id : Key) (t : ExpiryTracker Key) → Removal id t (remove id t)
  unfolding remove
  remove-Removal id t = elim (Option-cases (lookup id t.tasks)) [
    | inl h ↦ absent h (rw (h, remove))
    | inr (task, h) ↦ elim (Option-cases task.expires_at_ms) [
      | inl g ↦ timeless task h g (rw (h, remove, g))
      | inr (x, g) ↦ timed task x h g (rw (h, remove, g))
    ]
  ]

  remove-agree :
      (id : Key) (t u : ExpiryTracker Key)
      → IsIndexed t
      → Removal id t u
      → (x : ℤ) (j : Key)
      → has x j u.deadlines ≡ (if id == j then false else is_at x (lookup j t.tasks))
  remove-agree id t u v (absent h p) x j = ground (arith, v.agree x j)
  remove-agree id t u v (timeless task h g p) x j = ground (arith, v.agree x j)
  remove-agree id t u v (timed task y h g p) x j =
      ground (arith, v.agree x j, has-drop_deadline x y j id t.deadlines)

  remove-deadlines :
      (id : Key) (t u : ExpiryTracker Key)
      → IsIndexed t
      → Removal id t u
      → IsSorted u.deadlines × ((x : ℤ) → find x u.deadlines ≢ some [])
  remove-deadlines id t u v (absent h p) = rw p (v.sorted, v.nonempty)
  remove-deadlines id t u v (timeless task h g p) = rw p (v.sorted, v.nonempty)
  remove-deadlines id t u v (timed task y h g p) = rw p (
    drop_deadline-IsSorted y id t.deadlines v.sorted,
    drop_deadline-nonempty y id t.deadlines v.nonempty,
  )

  pub remove-IsIndexed : (id : Key) (t : ExpiryTracker Key) → IsIndexed t → IsIndexed (remove id t)
  remove-IsIndexed id t v =
      let (sorted', nonempty') = remove-deadlines id t (remove id t) v (remove-Removal id t) in
      record {
        agree = λ x j. ground (
          arith,
          remove-agree id t (remove id t) v (remove-Removal id t) x j,
          lookup-remove_task j id t,
        );
        sorted = sorted';
        nonempty = nonempty';
      }

  -- Scheduling an id that is not tracked keeps the maps in step.
  pub add-IsIndexed :
      (id : Key) (task : ExpiringTask) (x : ℤ) (t : ExpiryTracker Key)
      → IsIndexed t
      → lookup id t.tasks ≡ none
      → task.expires_at_ms ≡ some x
      → IsIndexed
          (record t { tasks = insert id task t.tasks; deadlines = add_deadline x id t.deadlines })
  add-IsIndexed id task x t v h g = record {
    agree = λ y j. ground (
      arith,
      v.agree y j,
      v.agree x j,
      has-add_deadline y x j id t.deadlines,
      lookup-insert j id task t.tasks,
    );
    sorted = add_deadline-IsSorted x id t.deadlines v.sorted;
    nonempty = add_deadline-nonempty x id t.deadlines v.nonempty;
  }

  -- `upsert` keeps the maps in step, whatever was tracked.
  pub upsert-IsIndexed :
      (id : Key) (task_id : Option String) (heartbeat_at : ℤ) (timeout : ℕ) (t : ExpiryTracker Key)
      → IsIndexed t
      → IsIndexed (upsert id task_id heartbeat_at timeout t)
  unfolding upsert
  upsert-IsIndexed id task_id heartbeat_at timeout t v =
      add-IsIndexed id _ _ (remove id t) (remove-IsIndexed id t v)
        (lookup-remove_task id id t ∙ ground arith) refl

  -- What `upsert` makes of the tracked tasks.
  pub lookup-upsert :
      (j id : Key) (task_id : Option String) (heartbeat_at : ℤ) (timeout : ℕ)
      (t : ExpiryTracker Key)
      → lookup j (upsert id task_id heartbeat_at timeout t).tasks ≡ (
          if id == j
          then some (record {
            task_id = or_else task_id (task_id_of (lookup id t.tasks));
            expires_at_ms = some (saturating_add heartbeat_at (clamped_millis timeout));
          })
          else lookup j t.tasks)
  unfolding upsert
  lookup-upsert j id task_id heartbeat_at timeout t = ground (
    arith,
    lookup-remove_task j id t,
    lookup-insert j id
        (record {
          task_id = or_else task_id (task_id_of (lookup id t.tasks));
          expires_at_ms = some (saturating_add heartbeat_at (clamped_millis timeout));
        })
        (remove id t).tasks,
  )

  -- `defer` keeps the maps in step for an id that is not tracked, as after `pop_due`.
  pub defer-IsIndexed :
      (id : Key) (task : ExpiringTask) (delay : ℕ) (now_ms : ℤ) (t : ExpiryTracker Key)
      → IsIndexed t
      → lookup id t.tasks ≡ none
      → IsIndexed (defer id task delay now_ms t)
  unfolding defer
  defer-IsIndexed id task delay now_ms t v h = add-IsIndexed id _ _ t v h refl

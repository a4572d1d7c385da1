-- ===== src/Expiry/Due.antt =====
-- src/worker/expiry.rs: the two loops of `pop_due`.
use getitdone.Prelude.{
  ◌≡◌, refl, sym, ◌∙◌, Bool, true, false, ◌&&◌, ◌||◌, Option, none, some, List, [], ◌∷◌, ◌++◌, Eq,
  contains, if◌then◌else◌, or_else, arith, Option-cases, inl, inr, Bool-cases,
}
use getitdone.Prelude.Int.{ℤ, int_eq, leb_ℤ}
use getitdone.Prelude.Dict.{lookup, lookup-remove, lookup-append, remove as dict_remove}
use getitdone.Prelude.Sorted.{
  find, delete, keys, IsSorted, find-delete, delete-IsSorted, contains-keys_of_find,
}
use getitdone.Expiry.{ExpiringTask, ExpiryTracker, due_keys, drain_ids, drain_deadlines}
use getitdone.Expiry.Index.{is_at, has, IsIndexed}

-- The deadline of the task that is looked up has come.
abbrev pub is_due : ℤ → Option ExpiringTask → Bool
is_due now_ms none = false
is_due now_ms (some task) = elim task.expires_at_ms [ none ↦ false | some x ↦ leb_ℤ x now_ms ]

due_at :
    (now_ms : ℤ) (o : Option ExpiringTask)
    → is_due now_ms o ≡ true
    → (x : ℤ) × (is_at x o ≡ true) × (leb_ℤ x now_ms ≡ true)
due_at now_ms none h = cc
due_at now_ms (some task) h = elim (Option-cases task.expires_at_ms) [
  | inl g ↦ absurd (ground arith)
  | inr (x, g) ↦ (x, ground arith, ground arith)
]

pub contains-due_keys :
    (now_ms x : ℤ) (xs : List ℤ)
    → contains (due_keys now_ms xs) x ≡ (leb_ℤ x now_ms && contains xs x)
unfolding due_keys
contains-due_keys now_ms x [] = ground arith
contains-due_keys now_ms x (y ∷ xs) = ground (arith, contains-due_keys now_ms x xs)

module _ {Key : Type 0} ⦃e : Eq Key⦄ where
  lookup-drain_ids :
      (id : Key) (ids : List Key) (tasks due : List (Key × ExpiringTask))
      → (lookup id (drain_ids ids tasks due).0
          ≡ (if contains ids id then none else lookup id tasks))
        × (lookup id (drain_ids ids tasks due).1
            ≡ or_else (lookup id due) (if contains ids id then lookup id tasks else none))
  unfolding drain_ids lookup
  lookup-drain_ids id [] tasks due = ground arith
  lookup-drain_ids id (i ∷ ids) tasks due = elim (Option-cases (lookup i tasks)) [
    | inl h ↦ rw (h, drain_ids) (ground (arith, lookup-drain_ids id ids tasks due))
    | inr (task, h) ↦
        rw (h, drain_ids)
          (ground (
            arith,
            lookup-drain_ids id ids (dict_remove i tasks) (due ++ (i, task) ∷ []),
            lookup-remove id i tasks,
            lookup-append id due ((i, task) ∷ []),
          ))
  ]

  -- The id stands in the bucket of one of the deadlines.
  pub some_has : List ℤ → Key → List (ℤ × List Key) → Bool
  some_has [] id d = false
  some_has (x ∷ xs) id d = has x id d || some_has xs id d

  some_has-delete :
      (x : ℤ) (id : Key) (xs : List ℤ) (d : List (ℤ × List Key))
      → has x id d ≡ false
      → some_has xs id (delete x d) ≡ some_has xs id d
  unfolding some_has
  some_has-delete x id [] d h = refl
  some_has-delete x id (y ∷ xs) d h = ground (arith, some_has-delete x id xs d h, find-delete y x d)

  pub lookup-drain_deadlines :
      (id : Key) (xs : List ℤ) (t : ExpiryTracker Key) (due : List (Key × ExpiringTask))
      → (lookup id (drain_deadlines xs t due).1.tasks
          ≡ (if some_has xs id t.deadlines then none else lookup id t.tasks))
        × (lookup id (drain_deadlines xs t due).0
            ≡ or_else
                (lookup id due)
                (if some_has xs id t.deadlines then lookup id t.tasks else none))
  unfolding drain_deadlines some_has
  lookup-drain_deadlines id [] t due = ground arith
  lookup-drain_deadlines id (x ∷ xs) t due = elim (Option-cases (find x t.deadlines)) [
    | inl h ↦ rw (h, drain_deadlines) (ground (arith, lookup-drain_deadlines id xs t due))
    | inr (ids, h) ↦
        let r = drain_ids ids t.tasks due in
        let u : ExpiryTracker Key = record t { tasks = r.0; deadlines = delete x t.deadlines } in
        rw (h, drain_deadlines)
          (ground (
            arith,
            lookup-drain_deadlines id xs u r.1,
            lookup-drain_ids id ids t.tasks due,
            some_has-delete x id xs t.deadlines,
          ))
  ]

  pub drain_deadlines-deadlines :
      (y : ℤ) (xs : List ℤ) (t : ExpiryTracker Key) (due : List (Key × ExpiringTask))
      → find y (drain_deadlines xs t due).1.deadlines
        ≡ (if contains xs y then none else find y t.deadlines)
  unfolding drain_deadlines
  drain_deadlines-deadlines y [] t due = ground arith
  drain_deadlines-deadlines y (x ∷ xs) t due = elim (Option-cases (find x t.deadlines)) [
    | inl h ↦ rw (h, drain_deadlines) (ground (arith, drain_deadlines-deadlines y xs t due))
    | inr (ids, h) ↦
        let r = drain_ids ids t.tasks due in
        let u : ExpiryTracker Key = record t { tasks = r.0; deadlines = delete x t.deadlines } in
        rw (h, drain_deadlines)
          (ground (arith, drain_deadlines-deadlines y xs u r.1, find-delete y x t.deadlines))
  ]

  pub drain_deadlines-IsSorted :
      (xs : List ℤ) (t : ExpiryTracker Key) (due : List (Key × ExpiringTask))
      → IsSorted t.deadlines
      → IsSorted (drain_deadlines xs t due).1.deadlines
  unfolding drain_deadlines
  drain_deadlines-IsSorted [] t due s = s
  drain_deadlines-IsSorted (x ∷ xs) t due s = elim (Option-cases (find x t.deadlines)) [
    | inl h ↦ rw (h, drain_deadlines) (drain_deadlines-IsSorted xs t due s)
    | inr (ids, h) ↦
        rw (h, drain_deadlines) (drain_deadlines-IsSorted xs _ _ (delete-IsSorted x t.deadlines s))
  ]

  some_has-witness :
      (id : Key) (xs : List ℤ) (d : List (ℤ × List Key))
      → some_has xs id d ≡ true
      → (x : ℤ) × (contains xs x ≡ true) × (has x id d ≡ true)
  unfolding some_has
  some_has-witness id [] d h = cc
  some_has-witness id (x ∷ xs) d h = elim (Bool-cases (has x id d)) [
    | inl g ↦ (x, ground arith, g)
    | inr g ↦
        let (y, member, found) = some_has-witness id xs d (ground arith) in (y, ground arith, found)
  ]

  some_has_of :
      (x : ℤ) (id : Key) (xs : List ℤ) (d : List (ℤ × List Key))
      → contains xs x ≡ true
      → has x id d ≡ true
      → some_has xs id d ≡ true
  unfolding some_has
  some_has_of x id [] d m h = cc
  some_has_of x id (y ∷ xs) d m h = ground (arith, some_has_of x id xs d)

  due_key :
      (now_ms x : ℤ) (id : Key) (d : List (ℤ × List Key))
      → has x id d ≡ true
      → leb_ℤ x now_ms ≡ true
      → contains (due_keys now_ms (keys d)) x ≡ true
  due_key now_ms x id d h l = elim (Option-cases (find x d)) [
    | inl g ↦ absurd (ground arith)
    | inr (ids, g) ↦
        ground (arith, contains-due_keys now_ms x (keys d), contains-keys_of_find x ids d g)
  ]

  -- The ids in the buckets that are due are those whose tasks are due.
  pub some_has-is_due :
      (now_ms : ℤ) (id : Key) (t : ExpiryTracker Key)
      → IsIndexed t
      → some_has (due_keys now_ms (keys t.deadlines)) id t.deadlines
        ≡ is_due now_ms (lookup id t.tasks)
  some_has-is_due now_ms id t v =
      elim (Bool-cases (some_has (due_keys now_ms (keys t.deadlines)) id t.deadlines)) [
        | inl h ↦
            let (x, member, found) = some_has-witness id _ t.deadlines h in
            h ∙ ground (arith, v.agree x id, contains-due_keys now_ms x (keys t.deadlines))
        | inr h ↦ elim (Bool-cases (is_due now_ms (lookup id t.tasks))) [
          | inr g ↦ h ∙ sym g
          | inl g ↦
              let (x, at, due) = due_at now_ms (lookup id t.tasks) g in
              let found : has x id t.deadlines ≡ true = v.agree x id ∙ at in
              absurd (
                cc (
                  h,
                  some_has_of x id _ t.deadlines (due_key now_ms x id t.deadlines found due) found,
                ))
        ]
      ]

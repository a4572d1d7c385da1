-- ===== src/Expiry/PopDue.antt =====
-- src/worker/expiry.rs: `pop_due` and `next_delay` on a tracker whose maps agree.
use getitdone.Prelude.{
  ℕ, ◌≡◌, refl, sym, ap, ◌∙◌, true, false, Option, none, some, List, [], ◌∷◌, Eq, if◌then◌else◌,
  arith, Option-cases, inl, inr,
}
use getitdone.Prelude.Int.{ℤ, ◌≤ℤ◌, leb_ℤ, ◌-ℤ◌, pos_part, int_eq}
use getitdone.Prelude.Dict.{lookup}
use getitdone.Prelude.Sorted.{find, keys, IsSorted, contains-keys_of_find, find-Above}
use getitdone.Time.{from_millis}
use getitdone.Expiry.{ExpiryTracker, due_keys, pop_due, next_delay}
use getitdone.Expiry.Index.{is_at, has, IsIndexed}
use getitdone.Expiry.Due.{
  is_due, contains-due_keys, some_has-is_due, lookup-drain_deadlines, drain_deadlines-deadlines,
  drain_deadlines-IsSorted,
}

module _ {Key : Type 0} ⦃e : Eq Key⦄ where
  -- `pop_due` returns the tasks whose deadline has come, and keeps the others.
  pub lookup-pop_due :
      (now_ms : ℤ) (id : Key) (t : ExpiryTracker Key)
      → IsIndexed t
      → (lookup id (pop_due now_ms t).0
          ≡ (if is_due now_ms (lookup id t.tasks) then lookup id t.tasks else none))
        × (lookup id (pop_due now_ms t).1.tasks
            ≡ (if is_due now_ms (lookup id t.tasks) then none else lookup id t.tasks))
  unfolding pop_due lookup
  lookup-pop_due now_ms id t v = ground (
    arith,
    some_has-is_due now_ms id t v,
    lookup-drain_deadlines id (due_keys now_ms (keys t.deadlines)) t [],
  )

  find-pop_due :
      (now_ms x : ℤ) (t : ExpiryTracker Key)
      → find x (pop_due now_ms t).1.deadlines
        ≡ (if leb_ℤ x now_ms then none else find x t.deadlines)
  unfolding pop_due
  find-pop_due now_ms x t = elim (Option-cases (find x t.deadlines)) [
    | inl g ↦ ground (arith, drain_deadlines-deadlines x (due_keys now_ms (keys t.deadlines)) t [])
    | inr (ids, g) ↦ ground (
      arith,
      drain_deadlines-deadlines x (due_keys now_ms (keys t.deadlines)) t [],
      contains-due_keys now_ms x (keys t.deadlines),
      contains-keys_of_find x ids t.deadlines g,
    )
  ]

  -- The tracker that is left is in step.
  pub pop_due-IsIndexed :
      (now_ms : ℤ) (t : ExpiryTracker Key) → IsIndexed t → IsIndexed (pop_due now_ms t).1
  pop_due-IsIndexed now_ms t v = record {
    agree = λ x id.
        ground (arith, find-pop_due now_ms x t, (lookup-pop_due now_ms id t v).1, v.agree x id);
    sorted = pop_due-IsSorted now_ms t v.sorted;
    nonempty = λ x. ground (arith, find-pop_due now_ms x t, v.nonempty x);
  }
    where
      pop_due-IsSorted :
          (now_ms : ℤ) (t : ExpiryTracker Key)
          → IsSorted t.deadlines
          → IsSorted (pop_due now_ms t).1.deadlines
      pop_due-IsSorted now_ms t s = unfold pop_due in drain_deadlines-IsSorted _ t [] s

  -- The answers of `next_delay`: no task is timed, or the wait is up to the earliest deadline `x`,
  -- which is that of some task, and is zero if that has passed.
  pub data Waits (now_ms : ℤ) (t : ExpiryTracker Key) (r : Option ℕ) : Type 0 where
    idle : ((y : ℤ) (j : Key) → is_at y (lookup j t.tasks) ≡ false) → r ≡ none → Waits now_ms t r
    until :
        (x : ℤ) (id : Key)
        → is_at x (lookup id t.tasks) ≡ true
        → ((y : ℤ) (j : Key) → is_at y (lookup j t.tasks) ≡ true → x ≤ℤ y)
        → r ≡ some (from_millis (pos_part (x -ℤ now_ms)))
        → Waits now_ms t r

  earliest :
      (x : ℤ) (ids : List Key) (m : List (ℤ × List Key)) (y : ℤ) (j : Key)
      → IsSorted ((x, ids) ∷ m)
      → has y j ((x, ids) ∷ m) ≡ true
      → x ≤ℤ y
  unfolding find
  earliest x ids m y j s h = elim (Option-cases (find y m)) [
    | inl g ↦ ground arith
    | inr (js, g) ↦ ground (arith, find-Above x y js m s.0 g)
  ]

  next_delay-cases :
      (d : List (ℤ × List Key)) (now_ms : ℤ) (t : ExpiryTracker Key)
      → t.deadlines ≡ d
      → IsIndexed t
      → Waits now_ms t (next_delay now_ms t)
  unfolding next_delay find ◌-ℤ◌ int_eq
  next_delay-cases [] now_ms t p v = idle (λ y j. sym (v.agree y j) ∙ rw p) (rw (p, next_delay))
  next_delay-cases ((x, []) ∷ m) now_ms t p v = absurd (v.nonempty x (rw p (ground arith)))
  next_delay-cases ((x, id ∷ ids) ∷ m) now_ms t p v =
      until x id (sym (v.agree x id) ∙ rw p (ground arith))
        (λ y j h.
          earliest x (id ∷ ids) m y j (rw p at v.sorted) (ap (has y j) (sym p) ∙ v.agree y j ∙ h))
        (rw (p, next_delay) (ground arith))

  -- `next_delay` waits up to the earliest deadline, and for ever only if there is none.
  pub next_delay-Waits :
      (now_ms : ℤ) (t : ExpiryTracker Key) → IsIndexed t → Waits now_ms t (next_delay now_ms t)
  next_delay-Waits now_ms t v = next_delay-cases t.deadlines now_ms t refl v

-- ===== src/Expiry/Popped.antt =====
-- src/worker/expiry.rs: the list of tasks that `pop_due` returns.
use getitdone.Prelude.{
  ◌≡◌, refl, true, false, ◌||◌, none, some, List, [], ◌∷◌, ◌++◌, map, Eq, ◌==◌, contains, arith,
  Option-cases, Bool-cases, inl, inr,
}
use getitdone.Prelude.Int.{ℤ, int_eq}
use getitdone.Prelude.Dict.{lookup, lookup-remove, remove as dict_remove}
use getitdone.Prelude.Sets.{IsDistinct}
use getitdone.Prelude.Sorted.{find, keys}
use getitdone.Expiry.{ExpiringTask, ExpiryTracker, due_keys, drain_ids, drain_deadlines, pop_due}

module _ {Key : Type 0} ⦃e : Eq Key⦄ where
  abbrev pub ids : List (Key × ExpiringTask) → List Key
  ids due = map (λ d. d.0) due

  pub record IsPopped (tasks due : List (Key × ExpiringTask)) : Type 0 where
    pub distinct : IsDistinct (ids due)
    pub gone : (id : Key) → contains (ids due) id ≡ true → lookup id tasks ≡ none

  contains-append :
      (id j : Key) (task : ExpiringTask) (due : List (Key × ExpiringTask))
      → contains (ids (due ++ (j, task) ∷ [])) id ≡ (contains (ids due) id || (j == id))
  contains-append id j task [] = ground arith
  contains-append id j task ((i, t) ∷ due) = ground (arith, contains-append id j task due)

  IsDistinct-append :
      (j : Key) (task : ExpiringTask) (due : List (Key × ExpiringTask))
      → IsDistinct (ids due)
      → contains (ids due) j ≡ false
      → IsDistinct (ids (due ++ (j, task) ∷ []))
  IsDistinct-append j task [] d h = (refl, tt)
  IsDistinct-append j task ((i, t) ∷ due) d h = (
    ground (arith, contains-append i j task due),
    IsDistinct-append j task due d.1 (ground arith),
  )

  absent :
      (id : Key) (task : ExpiringTask) (tasks due : List (Key × ExpiringTask))
      → IsPopped tasks due
      → lookup id tasks ≡ some task
      → contains (ids due) id ≡ false
  absent id task tasks due v h = elim (Bool-cases (contains (ids due) id)) [
    | inr n ↦ n
    | inl y ↦ absurd (cc (v.gone id y))
  ]

  drain_ids-IsPopped :
      (js : List Key) (tasks due : List (Key × ExpiringTask))
      → IsPopped tasks due
      → IsPopped (drain_ids js tasks due).0 (drain_ids js tasks due).1
  unfolding drain_ids
  drain_ids-IsPopped [] tasks due v = v
  drain_ids-IsPopped (j ∷ js) tasks due v = elim (Option-cases (lookup j tasks)) [
    | inl h ↦ rw (h, drain_ids) (drain_ids-IsPopped js tasks due v)
    | inr (task, h) ↦
        rw (h, drain_ids)
          (drain_ids-IsPopped js (dict_remove j tasks) (due ++ (j, task) ∷ []) (record {
            distinct = IsDistinct-append j task due v.distinct (absent j task tasks due v h);
            gone = λ id.
                ground (arith, contains-append id j task due, lookup-remove id j tasks, v.gone id);
          }))
  ]

  drain_deadlines-IsPopped :
      (xs : List ℤ) (t : ExpiryTracker Key) (due : List (Key × ExpiringTask))
      → IsPopped t.tasks due
      → IsPopped (drain_deadlines xs t due).1.tasks (drain_deadlines xs t due).0
  unfolding drain_deadlines
  drain_deadlines-IsPopped [] t due v = v
  drain_deadlines-IsPopped (x ∷ xs) t due v = elim (Option-cases (find x t.deadlines)) [
    | inl h ↦ rw (h, drain_deadlines) (drain_deadlines-IsPopped xs t due v)
    | inr (js, h) ↦
        rw (h, drain_deadlines)
          (drain_deadlines-IsPopped xs _ _ (drain_ids-IsPopped js t.tasks due v))
  ]

  -- Every task that `pop_due` returns stands there once, and is tracked no more.
  pub pop_due-IsPopped :
      (now_ms : ℤ) (t : ExpiryTracker Key)
      → IsPopped (pop_due now_ms t).1.tasks (pop_due now_ms t).0
  unfolding pop_due
  pop_due-IsPopped now_ms t =
      drain_deadlines-IsPopped (due_keys now_ms (keys t.deadlines)) t []
        (record { distinct = tt; gone = λ id h. absurd (cc) })

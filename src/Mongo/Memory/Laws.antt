-- ===== src/Mongo/Memory/Laws.antt =====
-- The operations of the server in memory, and their laws. It answers with an error while it is offline.
use getitdone.Prelude.{
  ◌≡◌, ◌⊎◌, inl, inr, refl, String, Bool, true, false, Option, none, some, List, [], ◌∷◌, ◌++◌, All,
  arith, Bool-cases, if◌then◌else◌, ap, ◌||◌, map,
}
use getitdone.Errors.{Result, ok, err}
use getitdone.Mongo.Server.{IsCreated}
use getitdone.Mongo.Updates.{Updated, missed, hit, Upserted, updated, created, UpdateResult}
use getitdone.Bson.Memory.{memory, Fields, end, field, object, get_field}
use getitdone.Mongo.Memory.Query.{matches, reaches}
use getitdone.Mongo.Memory.Change.{applied, section, applied-set}

pub data DbError : Type 0 where
  offline duplicate_key : DbError

pub error_text : DbError → String
error_text offline = "server selection timeout"
error_text duplicate_key = "E11000 duplicate key error"

unfoldable pub is_duplicate_key : DbError → Bool
is_duplicate_key offline = false
is_duplicate_key duplicate_key = true

pub record Db : Type 0 where
  pub docs : List Fields
  pub online : Bool

module _ {D : Type 0} (selects : D → Bool) (change : D → D) where
  -- The first selected document is changed: the result, and the new list.
  unfoldable pub update_first : List D → Option D × List D
  update_first [] = (none, [])
  update_first (d ∷ ds) =
      let rest : Option D × List D = ((update_first ds).0, d ∷ (update_first ds).1) in
      if selects d then (some (change d), change d ∷ ds) else rest

  cons-Updated :
      (d : D) (before after : List D) (r : Option D)
      → selects d ≡ false
      → Updated selects change before after r
      → Updated selects change (d ∷ before) (d ∷ after) r
  cons-Updated d before after r u (missed p unselected same) =
      missed p (u, unselected) (ap (◌∷◌ d) same)
  cons-Updated d before after r u (hit front back x s p q o) =
      hit (d ∷ front) back x s (ap (◌∷◌ d) p) (ap (◌∷◌ d) q) o

  pub update_first-Updated :
      (ds : List D) → Updated selects change ds (update_first ds).1 (update_first ds).0
  unfolding update_first
  update_first-Updated [] = missed refl tt refl
  update_first-Updated (d ∷ ds) = elim (Bool-cases (selects d)) [
    | inl s ↦ rw (s, update_first) (hit [] ds d s refl refl refl)
    | inr u ↦ rw (u, update_first) (cons-Updated d ds _ _ u (update_first-Updated ds))
  ]

matched : Option Fields → UpdateResult
matched none = record { matched_count = 0; upserted = false }
matched (some d) = record { matched_count = 1; upserted = false }

unfoldable pub find_one_and_update :
    Fields → Fields → Option Fields → Db → Result DbError (Option Fields) × Db
find_one_and_update f u sort db =
    if db.online
    then (
      ok (update_first (matches f) (applied u) db.docs).0,
      record db { docs = (update_first (matches f) (applied u) db.docs).1 },
    )
    else (err offline, db)

unfoldable pub update_one : Fields → Fields → Db → Result DbError UpdateResult × Db
unfolding matched
update_one f u db =
    if db.online
    then (
      ok (matched (update_first (matches f) (applied u) db.docs).0),
      record db { docs = (update_first (matches f) (applied u) db.docs).1 },
    )
    else (err offline, db)

-- The new document of an upsert.
inserted : Fields → Fields
inserted u =
    applied u (applied (field "$set" (object (section (get_field "$setOnInsert" u))) end) end)

inserted-IsCreated : (u : Fields) → IsCreated memory u (inserted u)
unfolding inserted
inserted-IsCreated u set k v e g p apart = applied-set u set _ k v e g p apart

same_task : Fields → Fields → Bool
same_task d x = elim (get_field "task_id" d) [ none ↦ false | some v ↦ reaches "task_id" v x ]

unfoldable pub any {ℓ} : {A : Type ℓ} → (A → Bool) → List A → Bool
any p [] = false
any p (x ∷ xs) = p x || any p xs

insert_one : Fields → Db → Result DbError UpdateResult × Db
unfolding same_task any
insert_one d db = if any (same_task d) db.docs then (err duplicate_key, db) else (
  ok (record { matched_count = 0; upserted = true }),
  record db { docs = db.docs ++ d ∷ [] },
)

unfoldable pub upsert_one : Fields → Fields → Db → Result DbError UpdateResult × Db
unfolding insert_one inserted
upsert_one f u db =
    if db.online
    then elim (update_first (matches f) (applied u) db.docs).0 [
      | none ↦ insert_one (inserted u) db
      | some d ↦ (
        ok (record { matched_count = 1; upserted = false }),
        record db { docs = (update_first (matches f) (applied u) db.docs).1 },
      )
    ]
    else (err offline, db)

select : (Fields → Bool) → List Fields → List Fields
select p [] = []
select p (d ∷ ds) = let rest = select p ds in if p d then d ∷ rest else rest

head : List Fields → Option Fields
head [] = none
head (d ∷ ds) = some d

unfoldable pub find_one : Fields → Db → Result DbError (Option Fields)
unfolding select head
find_one f db = if db.online then ok (head (select (matches f) db.docs)) else err offline

unfoldable pub find : Fields → Db → Result DbError (List (Result DbError Fields))
unfolding select
find f db = if db.online then ok (map ok (select (matches f) db.docs)) else err offline

abbrev Changes : Fields → Fields → List Fields → List Fields → Option Fields → Type 0
Changes f u = Updated (matches f) (applied u)

pub find_one_and_update_ok :
    (f u : Fields) (sort : Option Fields) (db : Db) (r : Option Fields)
    → (find_one_and_update f u sort db).0 ≡ ok r
    → Changes f u db.docs (find_one_and_update f u sort db).1.docs r
unfolding find_one_and_update
find_one_and_update_ok f u sort db r h = elim (Bool-cases db.online) [
  | inr e ↦ absurd (ground arith)
  | inl e ↦
      let same : (update_first (matches f) (applied u) db.docs).0 ≡ r = ground arith in
      rw (e, find_one_and_update, ← same) (update_first-Updated (matches f) (applied u) db.docs)
]

pub find_one_and_update_err :
    (f u : Fields) (sort : Option Fields) (db : Db) (x : DbError)
    → (find_one_and_update f u sort db).0 ≡ err x
    → (find_one_and_update f u sort db).1.docs ≡ db.docs
unfolding find_one_and_update
find_one_and_update_err f u sort db x h = ground arith

pub update_one_err :
    (f u : Fields) (db : Db) (x : DbError)
    → (update_one f u db).0 ≡ err x
    → (update_one f u db).1.docs ≡ db.docs
unfolding update_one
update_one_err f u db x h = ground arith

update_one-cases :
    (f u : Fields) (db : Db) (o : Option Fields) (r : UpdateResult)
    → (update_first (matches f) (applied u) db.docs).0 ≡ o
    → matched o ≡ r
    → ((r.matched_count ≡ 0)
        × Changes f u db.docs (update_first (matches f) (applied u) db.docs).1 none)
      ⊎ ((d : Fields) × (r.matched_count ≡ 1)
          × Changes f u db.docs (update_first (matches f) (applied u) db.docs).1 (some d))
unfolding matched
update_one-cases f u db none r e h =
    inl (ground arith, rw (← e) (update_first-Updated (matches f) (applied u) db.docs))
update_one-cases f u db (some d) r e h =
    inr (d, ground arith, rw (← e) (update_first-Updated (matches f) (applied u) db.docs))

pub update_one_ok :
    (f u : Fields) (db : Db) (r : UpdateResult)
    → (update_one f u db).0 ≡ ok r
    → ((r.matched_count ≡ 0) × Changes f u db.docs (update_one f u db).1.docs none)
      ⊎ ((d : Fields) × (r.matched_count ≡ 1)
          × Changes f u db.docs (update_one f u db).1.docs (some d))
unfolding update_one
update_one_ok f u db r h = elim (Bool-cases db.online) [
  | inr e ↦ absurd (ground arith)
  | inl e ↦ rw (e, update_one) (update_one-cases f u db _ r refl (ground arith))
]

unselected_of_none :
    (f u : Fields) (before after : List Fields) (r : Option Fields)
    → Changes f u before after r
    → r ≡ none
    → All (λ d. matches f d ≡ false) before
unselected_of_none f u before after r (missed p unselected same) e = unselected
unselected_of_none f u before after r (hit front back d s p q o) e = absurd (cc)

upsert_one-cases :
    (f u : Fields) (db : Db) (o : Option Fields) (r : UpdateResult)
    → db.online ≡ true
    → (update_first (matches f) (applied u) db.docs).0 ≡ o
    → (upsert_one f u db).0 ≡ ok r
    → Upserted
        (matches f)
        (applied u)
        (IsCreated memory u)
        db.docs
        (upsert_one f u db).1.docs
        r.upserted
        r.matched_count
unfolding upsert_one
upsert_one-cases f u db none r online e h =
    elim (Bool-cases (any (same_task (inserted u)) db.docs)) [
      | inl taken ↦ absurd (ground arith)
      | inr free ↦
          created (inserted u)
            (unselected_of_none f u _ _ _ (update_first-Updated (matches f) (applied u) db.docs) e)
            (rw (online, upsert_one, e, insert_one, free)) (inserted-IsCreated u) (ground arith)
            (ground arith)
    ]
upsert_one-cases f u db (some d) r online e h =
    updated d
      (rw (online, upsert_one, e) (rw e at (update_first-Updated (matches f) (applied u) db.docs)))
      (ground arith) (ground arith)

pub upsert_one_ok :
    (f u : Fields) (db : Db) (r : UpdateResult)
    → (upsert_one f u db).0 ≡ ok r
    → Upserted
        (matches f)
        (applied u)
        (IsCreated memory u)
        db.docs
        (upsert_one f u db).1.docs
        r.upserted
        r.matched_count
upsert_one_ok f u db r h = elim (Bool-cases db.online) [
  | inr e ↦ absurd (unfold upsert_one in ground arith)
  | inl e ↦ upsert_one-cases f u db _ r e refl h
]

pub upsert_one_err :
    (f u : Fields) (db : Db) (e : DbError)
    → (upsert_one f u db).0 ≡ err e
    → (upsert_one f u db).1.docs ≡ db.docs
unfolding upsert_one insert_one
upsert_one_err f u db e h = ground arith

-- ===== src/Mongo/Memory/Query.antt =====
-- Filters and expressions of the server in memory.
pub mod Entries
pub mod Conditions
pub mod Expressions
use getitdone.Prelude.{
  ℕ, ◌≡◌, refl, ◌↔◌, ◌∙◌, String, Bool, true, false, not, ◌&&◌, ◌||◌, Option, none, some, List, [],
  ◌∷◌, map, ◌==◌, string_eq, nat_eq, contains, if◌then◌else◌, arith, Option-cases, inl, inr, ◌≢◌,
  subst, ap,
}
use mathlib.Core.Option.{some-injective}
use getitdone.Prelude.Int.{◌+ℤ◌, leb_ℤ, int_eq}
use getitdone.Bson.Memory.{
  Value, text, int, long, flag, time, oid, nothing, items, object, Items, nil, cons, Fields, end,
  field, get_field, of_list, insert_field,
}
use getitdone.Mongo.Paths.{split_dot, field_path, segments}

equals : Value → Value → Bool
equals (text s) (text t) = s == t
equals (oid i) (oid j) = i == j
equals _ _ = false

reaches_plain : Option Value → Value → Bool
unfolding equals
reaches_plain none v = false
reaches_plain (some w) v = equals w v

reaches_inner : String → Value → Option Value → Bool
unfolding reaches_plain
reaches_inner c v (some (object e)) = reaches_plain (get_field c e) v
reaches_inner c v _ = false

unfoldable pub reaches : String → Value → Fields → Bool
unfolding reaches_inner
reaches k v d = elim (split_dot k) [
  | none ↦ reaches_plain (get_field k d) v
  | some (p, c) ↦ reaches_inner c v (get_field p d)
]

-- Expressions.
value_or_null : Option Value → Value
value_or_null none = nothing
value_or_null (some v) = v

path_inner : String → Option Value → Value
unfolding value_or_null
path_inner c (some (object e)) = value_or_null (get_field c e)
path_inner c _ = nothing

path_value : String → Fields → Value
unfolding path_inner
path_value k d = elim (split_dot k) [
  | none ↦ value_or_null (get_field k d)
  | some (p, c) ↦ path_inner c (get_field p d)
]

lte : Value → Value → Value
lte (time a) (time b) = flag (leb_ℤ a b)
lte _ _ = nothing

add : Value → Value → Value
add (time a) (long n) = time (a +ℤ n)
add _ _ = nothing

if_null : Value → Value → Value
if_null nothing w = w
if_null v w = v

differ : Value → Value → Value
differ (text s) (text t) = flag (not (s == t))
differ _ _ = nothing

operate : String → Value → Value → Value
unfolding lte add if_null differ
operate op a b =
    if op == "$lte"
    then lte a b
    else if op == "$add"
    then add a b
    else if op == "$ifNull"
    then if_null a b
    else if op == "$ne"
    then differ a b
    else nothing

type_name : Value → String
type_name (text s) = "string"
type_name (int n) = "int"
type_name (long n) = "long"
type_name (flag c) = "bool"
type_name (time n) = "date"
type_name (oid i) = "objectId"
type_name nothing = "null"
type_name (items vs) = "array"
type_name (object f) = "object"

type_or_missing : Option Value → String
unfolding type_name
type_or_missing none = "missing"
type_or_missing (some v) = type_name v

-- The field of a document, by its literal name.
literal_field : String → Value → Option Value
literal_field k (object e) = get_field k e
literal_field k _ = none

unfoldable pub eval : Fields → Value → Value
unfolding operate path_value type_or_missing literal_field
eval d (object (field op (items (cons x (cons y nil))) end)) = operate op (eval d x) (eval d y)
eval d
      (object
        (field op (object (field inner (object (field i x (field f (text k) end))) end)) end)) =
    if op == "$type" && inner == "$getField"
    then text (type_or_missing (literal_field k (eval d x)))
    else nothing
eval d (text s) = elim (field_path s) [ none ↦ text s | some p ↦ path_value p d ]
eval d v = v

is_true : Value → Bool
is_true (flag c) = c
is_true _ = false

reaches_any : String → Items → Fields → Bool
reaches_any k nil d = false
reaches_any k (cons v vs) d = reaches k v d || reaches_any k vs d

is_date : Value → Bool
is_date (time n) = true
is_date _ = false

-- Whether the path leads to a value.
present : Option Value → Bool
present none = false
present (some v) = true

inner_fields : Option Value → Option Fields
inner_fields (some (object e)) = some e
inner_fields _ = none

exists_at : List String → Fields → Bool
unfolding present inner_fields
exists_at [] d = true
exists_at (k ∷ []) d = present (get_field k d)
exists_at (k ∷ j ∷ ks) d = elim (inner_fields (get_field k d)) [
  | none ↦ false
  | some e ↦ exists_at (j ∷ ks) e
]

exists : String → Fields → Bool
unfolding exists_at
exists k d = exists_at (segments k) d

-- One operator of a condition: `$nin`, `$in`, `$type` for dates, or `$exists`.
condition : String → String → Value → Fields → Bool
unfolding reaches_any is_date path_value exists
condition op k (items vs) d =
    if op == "$nin"
    then not (reaches_any k vs d)
    else if op == "$in"
    then reaches_any k vs d
    else false
condition op k (text s) d = if op == "$type" then is_date (path_value k d) else false
condition op k (flag c) d =
    if op == "$exists" then (if c then exists k d else not (exists k d)) else false
condition op k _ d = false

conditions : String → Fields → Fields → Bool
unfolding condition
conditions k end d = true
conditions k (field op v f) d = condition op k v d && conditions k f d

unfoldable mutual
  unfolding conditions reaches eval is_true

  pub holds : String → Value → Fields → Bool
  holds k (object f) d = if k == "$expr" then is_true (eval d (object f)) else conditions k f d
  holds k (items vs) d =
      if k == "$or"
      then some_matches vs d
      else if k == "$and"
      then each_matches vs d
      else reaches k (items vs) d
  holds k v d = reaches k v d

  some_matches : Items → Fields → Bool
  some_matches nil d = false
  some_matches (cons v vs) d = item_matches v d || some_matches vs d

  each_matches : Items → Fields → Bool
  each_matches nil d = true
  each_matches (cons v vs) d = item_matches v d && each_matches vs d

  item_matches : Value → Fields → Bool
  item_matches (object f) d = match_from [] f d
  item_matches _ d = false

  -- The entries whose keys have not been seen; only the first entry of a key counts.
  match_from : List String → Fields → Fields → Bool
  match_from seen end d = true
  match_from seen (field k v f) d = (contains seen k || holds k v d) && match_from (k ∷ seen) f d

unfoldable pub matches : Fields → Fields → Bool
unfolding match_from holds item_matches some_matches each_matches
matches f d = match_from [] f d

-- A pipeline of `$match` stages.
stage_passes : Option Value → Fields → Bool
unfolding matches
stage_passes (some (object f)) d = matches f d
stage_passes _ d = false

unfoldable pub passes : List Fields → Fields → Bool
unfolding stage_passes
passes [] d = true
passes (s ∷ ss) d = stage_passes (get_field "$match" s) d && passes ss d

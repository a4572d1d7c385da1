-- ===== src/Mongo/Memory/Query/Expressions.antt =====
-- The laws of expressions on the server in memory.
use getitdone.Prelude.{
  ◌≡◌, ◌≢◌, ◌∙◌, refl, String, Bool, true, false, none, some, [], ◌∷◌, string_eq, nat_eq, not, ◌==◌,
  differs,
}
use getitdone.Prelude.Int.{ℤ, ◌+ℤ◌, leb_ℤ}
use getitdone.Bson.Memory.{
  memory, Value, Fields, text, int, long, flag, time, oid, nothing, items, object, get_field,
  insert_field, of_list,
}
use getitdone.Bson.Document.{doc}
use getitdone.Mongo.Paths.{split_dot, field_path}
use getitdone.Mongo.Memory.Query.{
  eval, holds, path_value, path_inner, operate, lte, add, if_null, differ, type_name,
  type_or_missing, literal_field,
}

pub holds_expr :
    (f d : Fields) (c : Bool) → eval d (object f) ≡ flag c → holds "$expr" (object f) d ≡ c
unfolding holds string_eq
holds_expr f d c h = rw h

eval_text : (s k : String) (d : Fields) → field_path s ≡ some k → eval d (text s) ≡ path_value k d
unfolding eval
eval_text s k d f = rw (f, eval)

path_field :
    (k : String) (v : Value) (d : Fields)
    → split_dot k ≡ none
    → get_field k d ≡ some v
    → path_value k d ≡ v
unfolding path_value
path_field k v d p g = rw (p, path_value, g)

path_absent :
    (k : String) (d : Fields) → split_dot k ≡ none → get_field k d ≡ none → path_value k d ≡ nothing
unfolding path_value
path_absent k d p g = rw (p, path_value, g)

path_inner_field :
    (k p c : String) (v : Value) (d e : Fields)
    → split_dot k ≡ some (p, c)
    → get_field p d ≡ some (object e)
    → get_field c e ≡ some v
    → path_value k d ≡ v
unfolding path_value path_inner
path_inner_field k p c v d e q g h = rw (q, path_value, g, path_inner, h)

path_inner_absent :
    (k p c : String) (d e : Fields)
    → split_dot k ≡ some (p, c)
    → get_field p d ≡ some (object e)
    → get_field c e ≡ none
    → path_value k d ≡ nothing
unfolding path_value path_inner
path_inner_absent k p c d e q g h = rw (q, path_value, g, path_inner, h)

pub eval_field :
    (s k : String) (v : Value) (d : Fields)
    → field_path s ≡ some k
    → split_dot k ≡ none
    → get_field k d ≡ some v
    → eval d (text s) ≡ v
eval_field s k v d f p g = eval_text s k d f ∙ path_field k v d p g

pub eval_absent :
    (s k : String) (d : Fields)
    → field_path s ≡ some k
    → split_dot k ≡ none
    → get_field k d ≡ none
    → memory.is_null (eval d (text s)) ≡ true
eval_absent s k d f p g = rw (eval_text s k d f ∙ path_absent k d p g)

pub eval_inner :
    (s k p c : String) (v : Value) (d e : Fields)
    → field_path s ≡ some k
    → split_dot k ≡ some (p, c)
    → split_dot c ≡ none
    → get_field p d ≡ some (object e)
    → get_field c e ≡ some v
    → eval d (text s) ≡ v
eval_inner s k p c v d e f q r g h = eval_text s k d f ∙ path_inner_field k p c v d e q g h

pub eval_inner_absent :
    (s k p c : String) (d e : Fields)
    → field_path s ≡ some k
    → split_dot k ≡ some (p, c)
    → split_dot c ≡ none
    → get_field p d ≡ some (object e)
    → get_field c e ≡ none
    → memory.is_null (eval d (text s)) ≡ true
eval_inner_absent s k p c d e f q r g h = rw (eval_text s k d f ∙ path_inner_absent k p c d e q g h)

pub eval_lte :
    (x y : Value) (d : Fields) (a c : ℤ)
    → eval d x ≡ time a
    → eval d y ≡ time c
    → eval d (object (doc (("$lte", items (of_list (x ∷ y ∷ []))) ∷ []))) ≡ flag (leb_ℤ a c)
unfolding eval operate lte insert_field of_list string_eq
eval_lte x y d a c p q = rw (p, q)

pub eval_add :
    (x y : Value) (d : Fields) (a n : ℤ)
    → eval d x ≡ time a
    → eval d y ≡ long n
    → eval d (object (doc (("$add", items (of_list (x ∷ y ∷ []))) ∷ []))) ≡ time (a +ℤ n)
unfolding eval operate add insert_field of_list string_eq
eval_add x y d a n p q = rw (p, q)

if_null-null : (v w : Value) → memory.is_null v ≡ true → if_null v w ≡ w
unfolding if_null
if_null-null nothing w h = refl
if_null-null (text s) w h = absurd (cc)
if_null-null (int n) w h = absurd (cc)
if_null-null (long n) w h = absurd (cc)
if_null-null (flag c) w h = absurd (cc)
if_null-null (time n) w h = absurd (cc)
if_null-null (oid i) w h = absurd (cc)
if_null-null (items vs) w h = absurd (cc)
if_null-null (object f) w h = absurd (cc)

if_null-value : (v w : Value) → memory.is_null v ≡ false → if_null v w ≡ v
unfolding if_null
if_null-value nothing w h = absurd (cc)
if_null-value (text s) w h = refl
if_null-value (int n) w h = refl
if_null-value (long n) w h = refl
if_null-value (flag c) w h = refl
if_null-value (time n) w h = refl
if_null-value (oid i) w h = refl
if_null-value (items vs) w h = refl
if_null-value (object f) w h = refl

eval_if :
    (x y : Value) (d : Fields)
    → eval d (object (doc (("$ifNull", items (of_list (x ∷ y ∷ []))) ∷ [])))
      ≡ if_null (eval d x) (eval d y)
unfolding eval operate insert_field of_list string_eq
eval_if x y d = refl

pub eval_if_null :
    (x y : Value) (d : Fields)
    → memory.is_null (eval d x) ≡ true
    → eval d (object (doc (("$ifNull", items (of_list (x ∷ y ∷ []))) ∷ []))) ≡ eval d y
eval_if_null x y d h = eval_if x y d ∙ if_null-null (eval d x) (eval d y) h

pub eval_if_value :
    (x y : Value) (d : Fields)
    → memory.is_null (eval d x) ≡ false
    → eval d (object (doc (("$ifNull", items (of_list (x ∷ y ∷ []))) ∷ []))) ≡ eval d x
eval_if_value x y d h = eval_if x y d ∙ if_null-value (eval d x) (eval d y) h

pub eval_long : (n : ℤ) (d : Fields) → eval d (long n) ≡ long n
unfolding eval
eval_long n d = refl

pub eval_time : (n : ℤ) (d : Fields) → eval d (time n) ≡ time n
unfolding eval
eval_time n d = refl

pub eval_literal : (s : String) (d : Fields) → field_path s ≡ none → eval d (text s) ≡ text s
unfolding eval
eval_literal s d f = rw (f, eval)

pub eval_ne :
    (x y : Value) (d : Fields) (s t : String)
    → eval d x ≡ text s
    → eval d y ≡ text t
    → eval d (object (doc (("$ne", items (of_list (x ∷ y ∷ []))) ∷ []))) ≡ flag (not (s == t))
unfolding eval operate differ insert_field of_list string_eq
eval_ne x y d s t p q = rw (p, q)

type_name-missing : (v : Value) → type_name v ≢ "missing"
unfolding type_name string_eq
type_name-missing (text s) = differs "string" "missing" refl
type_name-missing (int n) = differs "int" "missing" refl
type_name-missing (long n) = differs "long" "missing" refl
type_name-missing (flag c) = differs "bool" "missing" refl
type_name-missing (time n) = differs "date" "missing" refl
type_name-missing (oid i) = differs "objectId" "missing" refl
type_name-missing nothing = differs "null" "missing" refl
type_name-missing (items vs) = differs "array" "missing" refl
type_name-missing (object f) = differs "object" "missing" refl

-- The type of a field that is there, by its literal name.
pub eval_type_get_field :
    (x : Value) (k : String) (v : Value) (d e : Fields)
    → eval d x ≡ object e
    → get_field k e ≡ some v
    → (name : String) × (name ≢ "missing")
      × (eval d (
            object (
              doc (
                (
                  "$type",
                  object (
                      doc
                        (("$getField", object (doc (("input", x) ∷ ("field", text k) ∷ []))) ∷ [])),
                )
                ∷ [])))
          ≡ text name)
unfolding eval insert_field string_eq type_or_missing literal_field
eval_type_get_field x k v d e p g = (type_name v, type_name-missing v, rw (p, literal_field, g))

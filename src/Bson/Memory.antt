-- ===== src/Bson/Memory.antt =====
-- A concrete `bson` crate: documents are lists of fields. It shows that the laws of the parameter can
-- be met, and the tests run on it.
use getitdone.Prelude.{
  ℕ, ◌≡◌, ◌∙◌, sym, refl, ap, String, Bool, true, false, Option, none, some, List, [], ◌∷◌, ◌==◌,
  nat_eq, string_eq, if◌then◌else◌, arith, subst,
}
use mathlib.Core.Logic.{ite, if_neg}
use mathlib.Core.Option.{some-injective}
use getitdone.Prelude.Int.{ℤ, pos, ℤ-discrete}
use getitdone.Bson.Crate.{BsonCrate}
use getitdone.Trace.{TraceContext}

mutual
  pub data Value : Type 0 where
    text : String → Value
    int : ℤ → Value
    long : ℤ → Value
    flag : Bool → Value
    time : ℤ → Value
    oid : ℕ → Value
    nothing : Value
    items : Items → Value
    object : Fields → Value

  pub data Items : Type 0 where
    nil : Items
    cons : Value → Items → Items

  pub data Fields : Type 0 where
    end : Fields
    field : String → Value → Fields → Fields

unfoldable pub of_list : List Value → Items
of_list [] = nil
of_list (v ∷ vs) = cons v (of_list vs)

unfoldable pub to_list : Items → List Value
to_list nil = []
to_list (cons v vs) = v ∷ to_list vs

pub to_list-of_list : (vs : List Value) → to_list (of_list vs) ≡ vs
unfolding to_list of_list
to_list-of_list [] = refl
to_list-of_list (v ∷ vs) = rw (to_list-of_list vs)

unfoldable pub get_field : String → Fields → Option Value
get_field k end = none
get_field k (field j v d) = if j == k then some v else get_field k d

unfoldable pub insert_field : String → Value → Fields → Fields
insert_field k v end = field k v end
insert_field k v (field j w d) = if j == k then field k v d else field j w (insert_field k v d)

pub get_field-insert_field :
    (j k : String) (v : Value) (d : Fields)
    → get_field j (insert_field k v d) ≡ (if k == j then some v else get_field j d)
unfolding get_field insert_field
get_field-insert_field j k v end = refl
get_field-insert_field j k v (field i w d) = ground (arith, get_field-insert_field j k v d)

unfoldable pub first_field : Fields → Option (String × Value)
first_field end = none
first_field (field k v d) = some (k, v)

pub get_field-end : (k : String) → get_field k end ≡ none
unfolding get_field
get_field-end k = refl

abbrev pub oid_of : Value → Option ℕ
oid_of (oid i) = some i
oid_of _ = none

pub oid-oid_of : (v : Value) (i : ℕ) → oid_of v ≡ some i → v ≡ oid i
oid-oid_of (oid j) i h = ap oid (some-injective j i h)
oid-oid_of (text s) i h = absurd (cc)
oid-oid_of (int n) i h = absurd (cc)
oid-oid_of (long n) i h = absurd (cc)
oid-oid_of (flag t) i h = absurd (cc)
oid-oid_of (time n) i h = absurd (cc)
oid-oid_of nothing i h = absurd (cc)
oid-oid_of (items vs) i h = absurd (cc)
oid-oid_of (object d) i h = absurd (cc)

unfoldable pub Fields-discrete : Discrete Fields
unfolding string_eq nat_eq ℤ-discrete
Fields-discrete = hlevel (string_eq.dec, nat_eq.dec, ℤ-discrete)

unfoldable pub document_eq : Fields → Fields → Bool
unfolding Fields-discrete
document_eq a b = ite (Fields-discrete a b) true false

pub document_eq_same : (a b c : Fields) → document_eq a b ≡ true → document_eq a c ≡ document_eq b c
unfolding document_eq
document_eq_same a b c h = elim (Fields-discrete a b) [
  | yes e ↦ ap (λ x. document_eq x c) e
  | no other ↦ absurd (cc (rw (if_neg _ other) at h))
]

pub document_eq_none :
    (k : String) (a b : Fields)
    → document_eq a b ≡ true
    → get_field k a ≡ none
    → get_field k b ≡ none
unfolding document_eq
document_eq_none k a b h g = elim (Fields-discrete a b) [
  | yes e ↦ ap (get_field k) (sym e) ∙ g
  | no other ↦ absurd (cc (rw (if_neg _ other) at h))
]

-- A trace context as a document of its fields.
abbrev pub trace_object : TraceContext → Value
trace_object c = object (
    field "trace_id" (text c.trace_id)
      (field "span_id" (text c.span_id) (field "trace_flags" (int (pos c.trace_flags)) end)))

abbrev pub trace_of : Value → Option TraceContext
trace_of (object (field i (text t) (field j (text s) (field k (int (pos f)) end)))) =
    some (record { trace_id = t; span_id = s; trace_flags = f })
trace_of _ = none

instance abbrev pub memory : BsonCrate
memory = record {
  Bson = Value;
  Document = Fields;
  ObjectId = ℕ;
  oid_eq = nat_eq;
  string = text;
  int32 = int;
  int64 = long;
  boolean = flag;
  date_time = time;
  object_id = oid;
  array = λ vs. items (of_list vs);
  document = object;
  null = nothing;
  as_str = elim [ text s ↦ some s | _ ↦ none ];
  as_i64 = elim [ long n ↦ some n | _ ↦ none ];
  as_date_time = elim [ time n ↦ some n | _ ↦ none ];
  as_object_id = oid_of;
  as_document = elim [ object d ↦ some d | _ ↦ none ];
  as_array = elim [ items vs ↦ some (to_list vs) | _ ↦ none ];
  is_null = elim [ nothing ↦ true | _ ↦ false ];
  new = end;
  insert = insert_field;
  get = get_field;
  first = first_field;
  as_str-string = λ s. refl;
  as_i64-int64 = λ n. refl;
  as_date_time-date_time = λ n. refl;
  as_object_id-object_id = λ i. refl;
  object_id-as_object_id = oid-oid_of;
  as_document-document = λ d. refl;
  is_null-null = refl;
  is_null-int64 = λ n. refl;
  serialize_trace_context = λ c. some (trace_object c);
  deserialize_trace_context = trace_of;
  deserialize-serialize = λ c v h. subst (λ x. trace_of x ≡ some c) (some-injective _ v h) refl;
  is_null-serialize = λ c v h.
      subst (λ x. (elim x [ nothing ↦ true | _ ↦ false ]) ≡ false) (some-injective _ v h) refl;
  as_array-array = λ vs. ap some (to_list-of_list vs);
  document_eq = document_eq;
  document_eq_same = document_eq_same;
  document_eq_none = document_eq_none;
  get-new = get_field-end;
  get-insert = get_field-insert_field;
}

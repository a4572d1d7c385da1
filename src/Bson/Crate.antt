-- ===== src/Bson/Crate.antt =====
-- The `bson` crate, which the program calls: documents are ordered maps from field names to values.
-- It is a parameter of the model, with the laws that its documentation gives; `Bson/Memory.antt` is a
-- value of it.

use getitdone.Prelude.{
  ◌≡◌, String, Option, none, some, Bool, true, false, List, Eq, ◌==◌, string_eq, if◌then◌else◌,
}
use getitdone.Prelude.Int.{ℤ}
use getitdone.Trace.{TraceContext}

pub record BsonCrate : Type 1 where
  pub Bson : Type 0
  pub Document : Type 0
  pub ObjectId : Type 0
  pub oid_eq : Eq ObjectId
  -- The variants of `Bson` that the program builds or reads, and its `as_…` readers.
  pub string : String → Bson
  pub int32 : ℤ → Bson
  pub int64 : ℤ → Bson
  pub boolean : Bool → Bson
  pub date_time : ℤ → Bson
  pub object_id : ObjectId → Bson
  pub array : List Bson → Bson
  pub document : Document → Bson
  pub null : Bson
  pub as_str : Bson → Option String
  pub as_i64 : Bson → Option ℤ
  pub as_date_time : Bson → Option ℤ
  pub as_object_id : Bson → Option ObjectId
  pub as_document : Bson → Option Document
  pub as_array : Bson → Option (List Bson)
  pub is_null : Bson → Bool
  -- `Document::new`, `Document::insert` and `Document::get`. The macro `doc!` inserts its entries in
  -- order.
  pub new : Document
  pub insert : String → Bson → Document → Document
  pub get : String → Document → Option Bson
  -- `Document::iter().next()`
  pub first : Document → Option (String × Bson)
  pub as_str-string : (s : String) → as_str (string s) ≡ some s
  pub as_i64-int64 : (n : ℤ) → as_i64 (int64 n) ≡ some n
  pub as_date_time-date_time : (n : ℤ) → as_date_time (date_time n) ≡ some n
  pub as_object_id-object_id : (i : ObjectId) → as_object_id (object_id i) ≡ some i
  pub object_id-as_object_id : (v : Bson) (i : ObjectId) → as_object_id v ≡ some i → v ≡ object_id i
  pub as_document-document : (d : Document) → as_document (document d) ≡ some d
  pub is_null-null : is_null null ≡ true
  pub is_null-int64 : (n : ℤ) → is_null (int64 n) ≡ false
  -- `serialize_to_bson` and `deserialize_from_bson` at `TraceContext`, whose code is derived.
  pub serialize_trace_context : TraceContext → Option Bson
  pub deserialize_trace_context : Bson → Option TraceContext
  pub deserialize-serialize :
      (c : TraceContext) (v : Bson)
      → serialize_trace_context c ≡ some v
      → deserialize_trace_context v ≡ some c
  pub is_null-serialize :
      (c : TraceContext) (v : Bson) → serialize_trace_context c ≡ some v → is_null v ≡ false
  pub as_array-array : (vs : List Bson) → as_array (array vs) ≡ some vs
  -- `==` on documents.
  pub document_eq : Document → Document → Bool
  pub document_eq_same :
      (a b c : Document) → document_eq a b ≡ true → document_eq a c ≡ document_eq b c
  pub document_eq_none :
      (k : String) (a b : Document) → document_eq a b ≡ true → get k a ≡ none → get k b ≡ none
  pub get-new : (k : String) → get k new ≡ none
  pub get-insert :
      (j k : String) (v : Bson) (d : Document)
      → get j (insert k v d) ≡ (if k == j then some v else get j d)

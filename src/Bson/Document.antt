-- ===== src/Bson/Document.antt =====
-- Building and reading documents through the `bson` crate: the macro `doc!` and the typed getters of
-- `Document`, whose errors the program discards.
use getitdone.Prelude.{
  ◌≡◌, refl, ◌∙◌, String, Option, none, some, List, [], ◌∷◌, ◌++◌, ◌==◌, string_eq, if◌then◌else◌,
  or_else, arith,
}
use getitdone.Prelude.Int.{ℤ}
use getitdone.Bson.Crate.{BsonCrate}

infixl 5 ◌>>=◌
abbrev pub ◌>>=◌ {ℓ κ} : {A : Type ℓ} {B : Type κ} → Option A → (A → Option B) → Option B
none >>= f = none
some a >>= f = f a

module _ ⦃b : BsonCrate⦄ where
  open b use {
    Bson, Document, ObjectId, insert, get, new, as_str, as_i64, as_date_time, as_object_id,
    as_document, get-insert, get-new,
  }

  -- `doc! { … }`, and `insert` for the entries of a list, in order.
  abbrev pub insert_all : List (String × Bson) → Document → Document
  insert_all [] d = d
  insert_all ((k, v) ∷ es) d = insert_all es (insert k v d)

  abbrev pub doc : List (String × Bson) → Document
  doc es = insert_all es new

  -- The last entry of a key counts.
  abbrev pub last_value : String → List (String × Bson) → Option Bson
  last_value j [] = none
  last_value j ((k, v) ∷ es) = or_else (last_value j es) (if k == j then some v else none)

  get-insert_all :
      (j : String) (es : List (String × Bson)) (d : Document)
      → get j (insert_all es d) ≡ or_else (last_value j es) (get j d)
  get-insert_all j [] d = refl
  get-insert_all j ((k, v) ∷ es) d =
      ground (arith, get-insert_all j es (insert k v d), get-insert j k v d)

  pub get-doc : (j : String) (es : List (String × Bson)) → get j (doc es) ≡ last_value j es
  get-doc j es = get-insert_all j es new ∙ ground (arith, get-new j)

  pub insert_all-append :
      (es fs : List (String × Bson)) (d : Document)
      → insert_all fs (insert_all es d) ≡ insert_all (es ++ fs) d
  insert_all-append [] fs d = refl
  insert_all-append ((k, v) ∷ es) fs d = insert_all-append es fs (insert k v d)

  abbrev pub get_str : String → Document → Option String
  get_str k d = get k d >>= as_str

  abbrev pub get_i64 : String → Document → Option ℤ
  get_i64 k d = get k d >>= as_i64

  abbrev pub get_datetime : String → Document → Option ℤ
  get_datetime k d = get k d >>= as_date_time

  abbrev pub get_object_id : String → Document → Option ObjectId
  get_object_id k d = get k d >>= as_object_id

  abbrev pub get_document : String → Document → Option Document
  get_document k d = get k d >>= as_document

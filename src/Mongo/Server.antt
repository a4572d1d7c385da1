-- ===== src/Mongo/Server.antt =====
-- What the program relies on of MongoDB and of its driver, with the documented laws: how a query
-- filter selects a document, what an expression computes, and that an update of one document is
-- atomic. The laws speak of the operators that the program uses.
use getitdone.Prelude.{
  ℕ, ◌≡◌, ◌≢◌, ◌⊎◌, ◌↔◌, String, Bool, true, false, Option, none, some, List, [], ◌∷◌, ◌==◌,
  string_eq, not, map, contains, ◌&&◌,
}
use getitdone.Prelude.Lists.{any, every}
use getitdone.Prelude.Int.{ℤ, ◌+ℤ◌, leb_ℤ, IsI64}
use getitdone.Errors.{Result, ok, err}
use getitdone.Bson.Crate.{BsonCrate}
use getitdone.Bson.Document.{doc}
use getitdone.Mongo.Paths.{split_dot, field_path}
use getitdone.Mongo.Updates.{Updated, Upserted, UpdateResult}

module _ (b : BsonCrate) where
  open b use {
    Bson, Document, ObjectId, oid_eq, string, object_id, array, document, get, boolean, int64,
    date_time, is_null,
  }

  -- What an upsert inserts has the plain fields of its `$set`.
  abbrev pub IsCreated : Document → Document → Type 0
  IsCreated update d =
      (set : Document) (k : String) (v : Bson)
      → get "$set" update ≡ some (document set)
      → get k set ≡ some v
      → split_dot k ≡ none
      → ((j c : String) → split_dot j ≡ some (k, c) → get j set ≡ none)
      → get k d ≡ some v

  pub record MongoServer : Type 1 where
    pub Db : Type 0
    pub DbError : Type 0
    -- The error as text, and whether it is the write error of a duplicate key (code 11000).
    pub error_text : DbError → String
    pub is_duplicate_key : DbError → Bool
    -- The documents of the collection.
    pub contents : Db → List Document
    pub find_one_and_update :
        Document → Document → Option Document → Db → Result DbError (Option Document) × Db
    pub update_one : Document → Document → Db → Result DbError UpdateResult × Db
    pub upsert_one : Document → Document → Db → Result DbError UpdateResult × Db
    pub find_one : Document → Db → Result DbError (Option Document)
    -- A cursor over the selected documents, which may fail on its way.
    pub find : Document → Db → Result DbError (List (Result DbError Document))
    -- Filters.
    pub matches : Document → Document → Bool
    pub holds : String → Bson → Document → Bool
    pub reaches : String → Bson → Document → Bool
    -- The value of an expression on a document.
    pub eval : Document → Bson → Bson
    pub matches_iff :
        (filter d : Document)
        → (matches filter d ≡ true)
          ↔ ((k : String) (c : Bson) → get k filter ≡ some c → holds k c d ≡ true)
    pub holds-string :
        (k s : String) (d : Document)
        → field_path k ≡ none
        → holds k (string s) d ≡ reaches k (string s) d
    pub holds-nin :
        (k t : String) (ss : List String) (d : Document)
        → field_path k ≡ none
        → split_dot k ≡ none
        → get k d ≡ some (string t)
        → holds k (document (doc ⦃b = b⦄ (("$nin", array (map string ss)) ∷ []))) d
          ≡ not (contains ss t)
    pub holds-exists :
        (k : String) (v : Bson) (d : Document)
        → field_path k ≡ none
        → split_dot k ≡ none
        → get k d ≡ some v
        → holds k (document (doc ⦃b = b⦄ (("$exists", boolean false) ∷ []))) d ≡ false
    pub holds-present :
        (k : String) (v : Bson) (d : Document)
        → field_path k ≡ none
        → split_dot k ≡ none
        → get k d ≡ some v
        → holds k (document (doc ⦃b = b⦄ (("$exists", boolean true) ∷ []))) d ≡ true
    pub holds-present_inner :
        (k p c : String) (d e : Document)
        → field_path k ≡ none
        → field_path c ≡ none
        → split_dot k ≡ some (p, c)
        → get p d ≡ some (document e)
        → holds k (document (doc ⦃b = b⦄ (("$exists", boolean true) ∷ []))) d
          ≡ holds c (document (doc ⦃b = b⦄ (("$exists", boolean true) ∷ []))) e
    pub holds-in :
        (k t : String) (ss : List String) (d : Document)
        → field_path k ≡ none
        → split_dot k ≡ none
        → get k d ≡ some (string t)
        → holds k (document (doc ⦃b = b⦄ (("$in", array (map string ss)) ∷ []))) d ≡ contains ss t
    pub holds-or :
        (arms : List Document) (d : Document)
        → holds "$or" (array (map document arms)) d ≡ any (λ f. matches f d) arms
    pub holds-and :
        (arms : List Document) (d : Document)
        → holds "$and" (array (map document arms)) d ≡ every (λ f. matches f d) arms
    pub holds-object_id :
        (k : String) (i j : ObjectId) (d : Document)
        → field_path k ≡ none
        → split_dot k ≡ none
        → get k d ≡ some (object_id j)
        → holds k (object_id i) d ≡ (◌==◌ ⦃e = oid_eq⦄ j i)
    pub reaches-plain :
        (k s t : String) (d : Document)
        → split_dot k ≡ none
        → get k d ≡ some (string t)
        → reaches k (string s) d ≡ (t == s)
    pub reaches-absent :
        (k : String) (v : Bson) (d : Document)
        → split_dot k ≡ none
        → get k d ≡ none
        → reaches k v d ≡ false
    pub reaches-nested :
        (k p c : String) (v : Bson) (d e : Document)
        → split_dot k ≡ some (p, c)
        → split_dot c ≡ none
        → get p d ≡ some (document e)
        → reaches k v d ≡ reaches c v e
    -- Expressions.
    pub holds-expr :
        (f d : Document) (c : Bool)
        → eval d (document f) ≡ boolean c
        → holds "$expr" (document f) d ≡ c
    pub eval-int64 : (n : ℤ) (d : Document) → eval d (int64 n) ≡ int64 n
    pub eval-date_time : (n : ℤ) (d : Document) → eval d (date_time n) ≡ date_time n
    pub eval-string :
        (s : String) (d : Document) → field_path s ≡ none → eval d (string s) ≡ string s
    pub eval-field :
        (s k : String) (v : Bson) (d : Document)
        → field_path s ≡ some k
        → split_dot k ≡ none
        → get k d ≡ some v
        → eval d (string s) ≡ v
    pub eval-absent :
        (s k : String) (d : Document)
        → field_path s ≡ some k
        → split_dot k ≡ none
        → get k d ≡ none
        → is_null (eval d (string s)) ≡ true
    pub eval-inner :
        (s k p c : String) (v : Bson) (d e : Document)
        → field_path s ≡ some k
        → split_dot k ≡ some (p, c)
        → split_dot c ≡ none
        → get p d ≡ some (document e)
        → get c e ≡ some v
        → eval d (string s) ≡ v
    pub eval-inner_absent :
        (s k p c : String) (d e : Document)
        → field_path s ≡ some k
        → split_dot k ≡ some (p, c)
        → split_dot c ≡ none
        → get p d ≡ some (document e)
        → get c e ≡ none
        → is_null (eval d (string s)) ≡ true
    pub eval-lte :
        (x y : Bson) (d : Document) (a c : ℤ)
        → eval d x ≡ date_time a
        → eval d y ≡ date_time c
        → eval d (document (doc ⦃b = b⦄ (("$lte", array (x ∷ y ∷ [])) ∷ []))) ≡ boolean (leb_ℤ a c)
    -- A number of milliseconds is added to a date, which fails out of range.
    pub eval-add :
        (x y : Bson) (d : Document) (a n : ℤ)
        → eval d x ≡ date_time a
        → eval d y ≡ int64 n
        → IsI64 (a +ℤ n)
        → eval d (document (doc ⦃b = b⦄ (("$add", array (x ∷ y ∷ [])) ∷ []))) ≡ date_time (a +ℤ n)
    pub eval-if_null :
        (x y : Bson) (d : Document)
        → is_null (eval d x) ≡ true
        → eval d (document (doc ⦃b = b⦄ (("$ifNull", array (x ∷ y ∷ [])) ∷ []))) ≡ eval d y
    pub eval-if_value :
        (x y : Bson) (d : Document)
        → is_null (eval d x) ≡ false
        → eval d (document (doc ⦃b = b⦄ (("$ifNull", array (x ∷ y ∷ [])) ∷ []))) ≡ eval d x
    pub eval-ne :
        (x y : Bson) (d : Document) (s t : String)
        → eval d x ≡ string s
        → eval d y ≡ string t
        → eval d (document (doc ⦃b = b⦄ (("$ne", array (x ∷ y ∷ [])) ∷ [])))
          ≡ boolean (not (s == t))
    -- The type of a field that is there, by its literal name.
    pub eval-type_get_field :
        (x : Bson) (k : String) (v : Bson) (d e : Document)
        → field_path k ≡ none
        → eval d x ≡ document e
        → get k e ≡ some v
        → (name : String) × (name ≢ "missing")
          × (eval d (
                document (
                  doc ⦃b = b⦄ (
                    (
                      "$type",
                      document (
                          doc ⦃b = b⦄ (
                            (
                              "$getField",
                              document (doc ⦃b = b⦄ (("input", x) ∷ ("field", string k) ∷ [])),
                            )
                            ∷ [])),
                    )
                    ∷ [])))
              ≡ string name)
    -- Whether a pipeline lets a document through.
    pub passes : List Document → Document → Bool
    pub passes-nil : (d : Document) → passes [] d ≡ true
    pub passes-match :
        (f d : Document) (stages : List Document)
        → passes (doc ⦃b = b⦄ (("$match", document f) ∷ []) ∷ stages) d
          ≡ (matches f d && passes stages d)
    -- Updates.
    pub applied : Document → Document → Document
    pub applied-set :
        (update set d : Document) (k : String) (v : Bson)
        → get "$set" update ≡ some (document set)
        → get k set ≡ some v
        → split_dot k ≡ none
        → ((j c : String) → split_dot j ≡ some (k, c) → get j set ≡ none)
        → get k (applied update d) ≡ some v
    pub applied-keep :
        (update set d : Document) (k : String)
        → get "$set" update ≡ some (document set)
        → ((op : String) → op ≢ "$set" → get op update ≡ none)
        → get k set ≡ none
        → split_dot k ≡ none
        → ((j c : String) → split_dot j ≡ some (k, c) → get j set ≡ none)
        → get k (applied update d) ≡ get k d
    -- A `$set` of one dotted path, in an embedded document that is there.
    pub applied-set_path :
        (k p c : String) (v : Bson) (d e : Document)
        → split_dot k ≡ some (p, c)
        → split_dot c ≡ none
        → get p d ≡ some (document e)
        → (e' : Document) × (get p
              (applied (doc ⦃b = b⦄ (("$set", document (doc ⦃b = b⦄ ((k, v) ∷ []))) ∷ [])) d)
            ≡ some (document e'))
          × (get c e' ≡ some v)
          × ((j : String) → j ≢ c → get j e' ≡ get j e)
    pub applied-unset :
        (update set unset d : Document) (k : String) (v : Bson)
        → get "$set" update ≡ some (document set)
        → get "$unset" update ≡ some (document unset)
        → get k unset ≡ some v
        → get k set ≡ none
        → split_dot k ≡ none
        → ((j c : String) → split_dot j ≡ some (k, c) → get j set ≡ none)
        → get k (applied update d) ≡ none
    -- Operations. A failed one may have taken effect, but never in part.
    pub find_one_and_update_ok :
        (filter update : Document) (sort : Option Document) (db : Db) (r : Option Document)
        → (find_one_and_update filter update sort db).0 ≡ ok r
        → Updated
            (matches filter)
            (applied update)
            (contents db)
            (contents (find_one_and_update filter update sort db).1)
            r
    pub find_one_and_update_err :
        (filter update : Document) (sort : Option Document) (db : Db) (e : DbError)
        → (find_one_and_update filter update sort db).0 ≡ err e
        → (contents (find_one_and_update filter update sort db).1 ≡ contents db)
          ⊎ ((d : Document) × Updated
                (matches filter)
                (applied update)
                (contents db)
                (contents (find_one_and_update filter update sort db).1)
                (some d))
    pub update_one_ok :
        (filter update : Document) (db : Db) (r : UpdateResult)
        → (update_one filter update db).0 ≡ ok r
        → ((r.matched_count ≡ 0)
            × Updated
                (matches filter)
                (applied update)
                (contents db)
                (contents (update_one filter update db).1)
                none)
          ⊎ ((d : Document) × (r.matched_count ≡ 1)
              × Updated
                  (matches filter)
                  (applied update)
                  (contents db)
                  (contents (update_one filter update db).1)
                  (some d))
    pub update_one_err :
        (filter update : Document) (db : Db) (e : DbError)
        → (update_one filter update db).0 ≡ err e
        → (contents (update_one filter update db).1 ≡ contents db)
          ⊎ ((d : Document) × Updated
                (matches filter)
                (applied update)
                (contents db)
                (contents (update_one filter update db).1)
                (some d))
    pub upsert_one_ok :
        (filter update : Document) (db : Db) (r : UpdateResult)
        → (upsert_one filter update db).0 ≡ ok r
        → Upserted
            (matches filter)
            (applied update)
            (IsCreated update)
            (contents db)
            (contents (upsert_one filter update db).1)
            r.upserted
            r.matched_count
    pub upsert_one_err :
        (filter update : Document) (db : Db) (e : DbError)
        → (upsert_one filter update db).0 ≡ err e
        → (contents (upsert_one filter update db).1 ≡ contents db)
          ⊎ ((inserted : Bool) × (matched_count : ℕ) × Upserted
                (matches filter)
                (applied update)
                (IsCreated update)
                (contents db)
                (contents (upsert_one filter update db).1)
                inserted
                matched_count)
    -- The write error of a duplicate key is that of an insertion that was refused.
    pub upsert_one_duplicate :
        (filter update : Document) (db : Db) (e : DbError)
        → (upsert_one filter update db).0 ≡ err e
        → is_duplicate_key e ≡ true
        → contents (upsert_one filter update db).1 ≡ contents db

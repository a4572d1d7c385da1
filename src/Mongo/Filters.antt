-- ===== src/Mongo/Filters.antt =====
-- What follows from the laws of MongoDB for filters that select a document.
use getitdone.Prelude.{
  ◌≡◌, ◌∙◌, sym, String, true, some, List, [], ◌∷◌, All, map, string_eq, arith, Option-cases, inl,
  inr,
}
use getitdone.Prelude.Lists.{any}
use getitdone.Bson.Crate.{BsonCrate}
use getitdone.Bson.Document.{doc, get-doc, last_value}
use getitdone.Mongo.Server.{MongoServer}

module _ ⦃b : BsonCrate⦄ (m : MongoServer b) where
  open b use {Bson, Document, string, document, get, array}
  open m use {matches, holds}

  held :
      (es : List (String × Bson)) (d : Document) (k : String) (c : Bson)
      → All (λ e. holds e.0 e.1 d ≡ true) es
      → last_value k es ≡ some c
      → holds k c d ≡ true
  held [] d k c a h = absurd (cc)
  held ((j, v) ∷ es) d k c (first, rest) h = elim (Option-cases (last_value k es)) [
    | inl n ↦ ground (arith, first)
    | inr (w, e) ↦ held es d k c rest (ground arith)
  ]

  -- A filter selects a document when each of its entries holds.
  matches-doc :
      (es : List (String × Bson)) (d : Document)
      → All (λ e. holds e.0 e.1 d ≡ true) es
      → matches (doc es) d ≡ true
  matches-doc es d a =
      (m.matches_iff (doc es) d).1 (λ k c g. held es d k c a (sym (get-doc k es) ∙ g))

  pub matches-one :
      (k : String) (c : Bson) (d : Document)
      → holds k c d ≡ true
      → matches (doc ((k, c) ∷ [])) d ≡ true
  matches-one k c d h = matches-doc ((k, c) ∷ []) d (h, tt)

  pub matches-two :
      (j k : String) (a c : Bson) (d : Document)
      → holds j a d ≡ true
      → holds k c d ≡ true
      → matches (doc ((j, a) ∷ (k, c) ∷ [])) d ≡ true
  matches-two j k a c d g h = matches-doc ((j, a) ∷ (k, c) ∷ []) d (g, (h, tt))

  -- One arm of an `$or` is enough.
  pub matches-or :
      (arms : List Document) (d : Document)
      → any (λ f. matches f d) arms ≡ true
      → matches (doc (("$or", array (map document arms)) ∷ [])) d ≡ true
  matches-or arms d h = matches-one "$or" _ d (m.holds-or arms d ∙ h)

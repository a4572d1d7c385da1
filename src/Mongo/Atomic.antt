-- ===== src/Mongo/Atomic.antt =====
-- What follows from the laws of MongoDB for updates of one document and for the fields of a filter.
use getitdone.Prelude.{
  ◌≡◌, inl, inr, refl, ◌∙◌, String, Bool, true, false, Option, none, some, List, [], ◌∷◌, ◌++◌,
  ◌==◌, ◌&&◌, ◌⊎◌, ◌≢◌, not, All, Bool-cases, subst, sym, string_eq, arith,
}
use getitdone.Errors.{ok}
use getitdone.Bson.Crate.{BsonCrate}
use getitdone.Bson.Document.{doc, get-doc, last_value}
use getitdone.Mongo.Paths.{split_dot, field_path}
use getitdone.Mongo.Server.{MongoServer, IsCreated}
use getitdone.Mongo.Updates.{missed, hit, UpdateResult}

-- One document of the list has been replaced, by what holds of the old one and of the new one.
pub record Replaced {D : Type 0} (P Q : D → Type 0) (before after : List D) : Type 0 where
  pub front : List D
  pub back : List D
  pub old : D
  pub new : D
  pub was : before ≡ front ++ old ∷ back
  pub now : after ≡ front ++ new ∷ back
  pub old_holds : P old
  pub new_holds : Q new

pub Replaced-weaken :
    {D : Type 0} (P Q R : D → Type 0) {before after : List D}
    → ((d : D) → Q d → R d)
    → Replaced P Q before after
    → Replaced P R before after
Replaced-weaken P Q R f w = record {
  front = w.front;
  back = w.back;
  old = w.old;
  new = w.new;
  was = w.was;
  now = w.now;
  old_holds = w.old_holds;
  new_holds = f w.new w.new_holds;
}

-- The entry does not write into a part of the field `k`.
abbrev pub is_apart : String → Option (String × String) → Bool
is_apart k none = true
is_apart k (some (p, c)) = not (p == k)

-- One document of the list has been replaced, and what the new one has of the old one.
pub record Rewritten {D : Type 0} (P : D → Type 0) (R : D → D → Type 0) (before after : List D)
    : Type 0 where
  pub front : List D
  pub back : List D
  pub old : D
  pub new : D
  pub was : before ≡ front ++ old ∷ back
  pub now : after ≡ front ++ new ∷ back
  pub old_holds : P old
  pub related : R old new

module _ {A : Type 0} where
  abbrev pub no_conflict : String → List (String × A) → Bool
  no_conflict k [] = true
  no_conflict k ((j, v) ∷ es) = is_apart k (split_dot j) && no_conflict k es

module _ ⦃b : BsonCrate⦄ (m : MongoServer b) where
  open b use {Bson, Document, string, document, get, array}
  open m use {
    Db, DbError, contents, find_one_and_update, update_one, matches, holds, reaches, applied,
  }

  -- Each entry of a filter holds of what the filter selects.
  pub holds_of_matches :
      (k : String) (c : Bson) (es : List (String × Bson)) (d : Document)
      → matches (doc es) d ≡ true
      → last_value k es ≡ some c
      → holds k c d ≡ true
  holds_of_matches k c es d h e = (m.matches_iff (doc es) d).0 h k c (get-doc k es ∙ e)

  -- A text entry fixes a text field.
  pub text_of_matches :
      (k s t : String) (es : List (String × Bson)) (d : Document)
      → matches (doc es) d ≡ true
      → last_value k es ≡ some (string s)
      → field_path k ≡ none
      → split_dot k ≡ none
      → get k d ≡ some (string t)
      → t ≡ s
  text_of_matches k s t es d h e p q g = ground (
    arith,
    holds_of_matches k (string s) es d h e,
    m.holds-string k s d p,
    m.reaches-plain k s t d q g,
  )

  -- A text entry with a dotted path fixes a text field of the inner document.
  pub inner_text_of_matches :
      (k p c s t : String) (es : List (String × Bson)) (d inner : Document)
      → matches (doc es) d ≡ true
      → last_value k es ≡ some (string s)
      → field_path k ≡ none
      → split_dot k ≡ some (p, c)
      → split_dot c ≡ none
      → get p d ≡ some (document inner)
      → get c inner ≡ some (string t)
      → t ≡ s
  inner_text_of_matches k p c s t es d inner h e f q r g g' = ground (
    arith,
    holds_of_matches k (string s) es d h e,
    m.holds-string k s d f,
    m.reaches-nested k p c (string s) d inner q r g,
    m.reaches-plain c s t inner r g',
  )

  part_absent :
      (k j c : String) (es : List (String × Bson))
      → no_conflict k es ≡ true
      → split_dot j ≡ some (k, c)
      → last_value j es ≡ none
  part_absent k j c [] h e = refl
  part_absent k j c ((i, v) ∷ es) h e = elim (Bool-cases (i == j)) [
    | inl same ↦
        absurd (ground (arith, λ (q : i ≡ j). subst (λ x. split_dot x ≡ some (k, c)) (sym q) e))
    | inr other ↦ ground (arith, part_absent k j c es (ground arith) e)
  ]

  -- The plain fields of the `$set` of an update, in what it makes and in what an upsert inserts.
  module _ (k : String) (v : Bson) (es : List (String × Bson)) (update d : Document)
      (sets : get "$set" update ≡ some (document (doc es))) (written : last_value k es ≡ some v)
      (plain : split_dot k ≡ none) (apart : no_conflict k es ≡ true) where
    pub applied_field : get k (applied update d) ≡ some v
    applied_field =
        m.applied-set update (doc es) d k v sets (get-doc k es ∙ written) plain
          (λ j c g. get-doc j es ∙ part_absent k j c es apart g)

    pub created_field : IsCreated b update d → get k d ≡ some v
    created_field c =
        c (doc es) k v sets (get-doc k es ∙ written) plain
          (λ j c g. get-doc j es ∙ part_absent k j c es apart g)

  pub cleared_field :
      (k : String) (v : Bson) (es us : List (String × Bson)) (update d : Document)
      → get "$set" update ≡ some (document (doc es))
      → get "$unset" update ≡ some (document (doc us))
      → last_value k us ≡ some v
      → last_value k es ≡ none
      → split_dot k ≡ none
      → no_conflict k es ≡ true
      → get k (applied update d) ≡ none
  cleared_field k v es us update d sets unsets cleared unwritten plain apart =
      m.applied-unset update (doc es) (doc us) d k v sets unsets (get-doc k us ∙ cleared)
        (get-doc k es ∙ unwritten) plain (λ j c g. get-doc j es ∙ part_absent k j c es apart g)

  other_operator : (op : String) (v : Bson) → op ≢ "$set" → get op (doc (("$set", v) ∷ [])) ≡ none
  other_operator op v other =
      ground (arith, get-doc op (("$set", v) ∷ []), λ (q : "$set" ≡ op). other (sym q))

  -- A `$set` writes each of its plain fields.
  pub set_field :
      (k : String) (v : Bson) (es : List (String × Bson)) (d : Document)
      → last_value k es ≡ some v
      → split_dot k ≡ none
      → no_conflict k es ≡ true
      → get k (applied (doc (("$set", document (doc es)) ∷ [])) d) ≡ some v
  unfolding string_eq
  set_field k v es d e q h =
      m.applied-set _ (doc es) d k v (get-doc "$set" (("$set", document (doc es)) ∷ []))
        (get-doc k es ∙ e) q (λ j c g. get-doc j es ∙ part_absent k j c es h g)

  -- A `$set` keeps the plain fields that it does not name.
  pub keep_field :
      (k : String) (es : List (String × Bson)) (d : Document)
      → last_value k es ≡ none
      → split_dot k ≡ none
      → no_conflict k es ≡ true
      → get k (applied (doc (("$set", document (doc es)) ∷ [])) d) ≡ get k d
  unfolding string_eq
  keep_field k es d e q h =
      m.applied-keep _ (doc es) d k (get-doc "$set" (("$set", document (doc es)) ∷ []))
        (λ op other. other_operator op (document (doc es)) other) (get-doc k es ∙ e) q
        (λ j c g. get-doc j es ∙ part_absent k j c es h g)

  -- The outcome of an update by its matched count.
  pub update_one_outcome :
      (filter update : Document) (db : Db) (r : UpdateResult)
      → (update_one filter update db).0 ≡ ok r
      → ((r.matched_count ≡ 0)
          × (contents (update_one filter update db).1 ≡ contents db)
          × All (λ d. matches filter d ≡ false) (contents db))
        ⊎ ((r.matched_count ≡ 1)
            × Replaced
                (λ d. matches filter d ≡ true)
                (λ d'. (d : Document) × (d' ≡ applied update d))
                (contents db)
                (contents (update_one filter update db).1))
  update_one_outcome filter update db r e = elim (m.update_one_ok filter update db r e) [
    | inl (z, missed p none_selected same) ↦ inl (z, same, none_selected)
    | inl (z, hit front back d s p q o) ↦ absurd (cc)
    | inr (x, z, missed p none_selected same) ↦ absurd (cc)
    | inr (x, z, hit front back d s p q o) ↦ inr (
      z,
      record {
        front = front;
        back = back;
        old = d;
        new = applied update d;
        was = p;
        now = q;
        old_holds = s;
        new_holds = (d, refl);
      },
    )
  ]

-- ===== src/Mongo/Memory/Query/Conditions.antt =====
-- The laws of single conditions on the server in memory.
use getitdone.Prelude.{
  ℕ, sym, ◌≡◌, refl, ◌∙◌, String, true, false, not, none, some, List, [], ◌∷◌, map, ◌==◌, string_eq,
  nat_eq, contains, arith, ◌≢◌, ap,
}
use getitdone.Bson.Memory.{
  Value, text, flag, oid, items, object, Items, Fields, end, get_field, of_list, insert_field,
}
use getitdone.Mongo.Paths.{split_dot, segments, segments-plain, segments-inner, segments-cons}
use getitdone.Mongo.Memory.Query.{
  reaches, reaches_any, conditions, condition, exists, exists_at, inner_fields, present, holds,
}

pub holds-text : (k s : String) (d : Fields) → holds k (text s) d ≡ reaches k (text s) d
unfolding holds
holds-text k s d = refl

pub reaches_plain_lem :
    (k s t : String) (d : Fields)
    → split_dot k ≡ none
    → get_field k d ≡ some (text t)
    → reaches k (text s) d ≡ (t == s)
unfolding reaches
reaches_plain_lem k s t d p g = rw (p, reaches, g)

pub holds_oid :
    (k : String) (i j : ℕ) (d : Fields)
    → split_dot k ≡ none
    → get_field k d ≡ some (oid j)
    → holds k (oid i) d ≡ (j == i)
unfolding holds reaches
holds_oid k i j d p g = rw (p, holds, reaches, g)

pub reaches_absent :
    (k : String) (v : Value) (d : Fields)
    → split_dot k ≡ none
    → get_field k d ≡ none
    → reaches k v d ≡ false
unfolding reaches
reaches_absent k v d p g = rw (p, reaches, g)

pub reaches_nested :
    (k p c : String) (v : Value) (d e : Fields)
    → split_dot k ≡ some (p, c)
    → split_dot c ≡ none
    → get_field p d ≡ some (object e)
    → reaches k v d ≡ reaches c v e
unfolding reaches
reaches_nested k p c v d e q r g = rw (q, reaches, g, r)

reaches_any-of_list :
    (k t : String) (ss : List String) (d : Fields)
    → split_dot k ≡ none
    → get_field k d ≡ some (text t)
    → reaches_any k (of_list (map text ss)) d ≡ contains ss t
unfolding reaches_any of_list
reaches_any-of_list k t [] d p g = refl
reaches_any-of_list k t (s ∷ ss) d p g =
    ground (arith, reaches_any-of_list k t ss d p g, reaches_plain_lem k s t d p g)

conditions-nin :
    (k : String) (vs : Items) (d : Fields)
    → conditions k (insert_field "$nin" (items vs) end) d ≡ not (reaches_any k vs d)
unfolding conditions condition insert_field string_eq
conditions-nin k vs d = ground arith

holds_object : (k : String) (f d : Fields) → k ≢ "$expr" → holds k (object f) d ≡ conditions k f d
unfolding holds
holds_object k f d x = ground (arith, x)

pub holds_nin :
    (k t : String) (ss : List String) (d : Fields)
    → split_dot k ≡ none
    → k ≢ "$expr"
    → get_field k d ≡ some (text t)
    → holds k (object (insert_field "$nin" (items (of_list (map text ss))) end)) d
      ≡ not (contains ss t)
holds_nin k t ss d p x g =
    holds_object k _ d x ∙ conditions-nin k _ d ∙ ap not (reaches_any-of_list k t ss d p g)

conditions-exists :
    (k : String) (d : Fields)
    → conditions k (insert_field "$exists" (flag false) end) d ≡ not (exists k d)
unfolding conditions condition insert_field string_eq
conditions-exists k d = ground arith

pub holds_exists :
    (k : String) (v : Value) (d : Fields)
    → split_dot k ≡ none
    → k ≢ "$expr"
    → get_field k d ≡ some v
    → holds k (object (insert_field "$exists" (flag false) end)) d ≡ false
unfolding exists exists_at present
holds_exists k v d p x g =
    holds_object k _ d x ∙ conditions-exists k d ∙ rw (segments-plain k p, exists_at, g)

conditions-present :
    (k : String) (d : Fields) → conditions k (insert_field "$exists" (flag true) end) d ≡ exists k d
unfolding conditions condition insert_field string_eq
conditions-present k d = ground arith

pub holds_present :
    (k : String) (v : Value) (d : Fields)
    → split_dot k ≡ none
    → k ≢ "$expr"
    → get_field k d ≡ some v
    → holds k (object (insert_field "$exists" (flag true) end)) d ≡ true
unfolding exists exists_at present
holds_present k v d p x g =
    holds_object k _ d x ∙ conditions-present k d ∙ rw (segments-plain k p, exists_at, g)

exists_at-cons :
    (p j : String) (ks : List String) (d e : Fields)
    → get_field p d ≡ some (object e)
    → exists_at (p ∷ j ∷ ks) d ≡ exists_at (j ∷ ks) e
unfolding exists_at inner_fields
exists_at-cons p j ks d e g = rw (g, exists_at)

exists_inner :
    (p r : String) (d e : Fields)
    → get_field p d ≡ some (object e)
    → exists_at (p ∷ segments r) d ≡ exists_at (segments r) e
exists_inner p r d e g =
    let (j, ks, same) = segments-cons r in rw same (exists_at-cons p j ks d e g)

pub holds_present_inner :
    (k p r : String) (d e : Fields)
    → split_dot k ≡ some (p, r)
    → k ≢ "$expr"
    → r ≢ "$expr"
    → get_field p d ≡ some (object e)
    → holds k (object (insert_field "$exists" (flag true) end)) d
      ≡ holds r (object (insert_field "$exists" (flag true) end)) e
unfolding exists
holds_present_inner k p r d e q x y g =
    holds_object k _ d x
    ∙ conditions-present k d
    ∙ rw (segments-inner k p r q) (exists_inner p r d e g)
    ∙ sym (holds_object r _ e y ∙ conditions-present r e)

conditions-in :
    (k : String) (vs : Items) (d : Fields)
    → conditions k (insert_field "$in" (items vs) end) d ≡ reaches_any k vs d
unfolding conditions condition insert_field string_eq
conditions-in k vs d = ground arith

pub holds_in :
    (k t : String) (ss : List String) (d : Fields)
    → split_dot k ≡ none
    → k ≢ "$expr"
    → get_field k d ≡ some (text t)
    → holds k (object (insert_field "$in" (items (of_list (map text ss))) end)) d ≡ contains ss t
holds_in k t ss d p x g =
    holds_object k _ d x ∙ conditions-in k _ d ∙ reaches_any-of_list k t ss d p g

-- ===== src/Mongo/Memory/Query/Entries.antt =====
-- The laws of filters on the server in memory.
use mathlib.Core.Option.{some-injective}
use getitdone.Prelude.{
  sym, subst, ◌≡◌, refl, ◌↔◌, ◌∙◌, String, Bool, true, false, ◌&&◌, ◌||◌, some, List, [], ◌∷◌, map,
  string_eq, nat_eq, contains, arith, ◌≢◌, ap,
}
use getitdone.Prelude.Lists.{any, every}
use getitdone.Bson.Memory.{
  Value, items, object, Fields, end, field, get_field, of_list, insert_field,
}
use getitdone.Mongo.Memory.Query.{
  holds, some_matches, each_matches, item_matches, match_from, matches, passes,
}

and_split : (a b : Bool) → (a && b) ≡ true → (a ≡ true) × (b ≡ true)
and_split true true h = (refl, refl)
and_split true false h = absurd (cc)
and_split false b h = absurd (cc)

contains-cons_other :
    (j k : String) (seen : List String)
    → j ≢ k
    → contains seen k ≡ false
    → contains (j ∷ seen) k ≡ false
contains-cons_other j k seen other n = ground arith

get_field_other :
    (j k : String) (v : Value) (f : Fields) → j ≢ k → get_field k f ≡ get_field k (field j v f)
unfolding get_field
get_field_other j k v f other = ground arith

get_field_self :
    (j k : String) (v : Value) (f : Fields) → j ≡ k → get_field k (field j v f) ≡ some v
unfolding get_field
get_field_self j k v f same = ground arith

right_of_or : (a b : Bool) → a ≡ false → (a || b) ≡ true → b ≡ true
right_of_or a b n h = ground arith

holds_first :
    (seen : List String) (j k : String) (v c : Value) (f d : Fields)
    → j ≡ k
    → contains seen k ≡ false
    → (contains seen j || holds j v d) ≡ true
    → get_field k (field j v f) ≡ some c
    → holds k c d ≡ true
holds_first seen j k v c f d same n first g =
    let value : v ≡ c = some-injective v c (sym (get_field_self j k v f same) ∙ g) in
    let h : holds j v d ≡ true =
      right_of_or _ _ (subst (λ i. contains seen i ≡ false) (sym same) n) first in
    subst (λ x. holds k x d ≡ true) value (subst (λ i. holds i v d ≡ true) same h)

match_from_elim :
    (seen : List String) (f d : Fields) (k : String) (c : Value)
    → match_from seen f d ≡ true
    → contains seen k ≡ false
    → get_field k f ≡ some c
    → holds k c d ≡ true
unfolding match_from get_field
match_from_elim seen end d k c h n g = absurd (cc)
match_from_elim seen (field j v f) d k c h n g =
    let (first, rest) = and_split (contains seen j || holds j v d) _ h in
    elim (string_eq.dec j k) [
      | yes same ↦ holds_first seen j k v c f d same n first g
      | no other ↦
          match_from_elim (j ∷ seen) f d k c rest (contains-cons_other j k seen other n)
            (get_field_other j k v f other ∙ g)
    ]

match_from_intro :
    (seen : List String) (f d : Fields)
    → ((k : String) (c : Value)
        → contains seen k ≡ false
        → get_field k f ≡ some c
        → holds k c d ≡ true)
    → match_from seen f d ≡ true
unfolding match_from get_field
match_from_intro seen end d h = refl
match_from_intro seen (field j v f) d h =
    let rest : match_from (j ∷ seen) f d ≡ true =
      match_from_intro (j ∷ seen) f d (λ k c n g. h k c (ground arith) (ground arith)) in
    ground (arith, h j v)

pub matches_iff :
    (f d : Fields)
    → (matches f d ≡ true)
      ↔ ((k : String) (c : Value) → get_field k f ≡ some c → holds k c d ≡ true)
unfolding matches
matches_iff f d = (
  λ h k c g. match_from_elim [] f d k c h refl g,
  λ h. match_from_intro [] f d (λ k c n g. h k c g),
)

some_matches-of_list :
    (fs : List Fields) (d : Fields)
    → some_matches (of_list (map object fs)) d ≡ any (λ f. matches f d) fs
unfolding some_matches item_matches matches of_list
some_matches-of_list [] d = refl
some_matches-of_list (f ∷ fs) d = ap (◌||◌ (match_from [] f d)) (some_matches-of_list fs d)

each_matches-of_list :
    (fs : List Fields) (d : Fields)
    → each_matches (of_list (map object fs)) d ≡ every (λ f. matches f d) fs
unfolding each_matches item_matches matches of_list
each_matches-of_list [] d = refl
each_matches-of_list (f ∷ fs) d = ap (◌&&◌ (match_from [] f d)) (each_matches-of_list fs d)

pub holds_or :
    (fs : List Fields) (d : Fields)
    → holds "$or" (items (of_list (map object fs))) d ≡ any (λ f. matches f d) fs
unfolding holds string_eq
holds_or fs d = some_matches-of_list fs d

pub holds_and :
    (fs : List Fields) (d : Fields)
    → holds "$and" (items (of_list (map object fs))) d ≡ every (λ f. matches f d) fs
unfolding holds string_eq
holds_and fs d = each_matches-of_list fs d

pub passes-match :
    (f d : Fields) (stages : List Fields)
    → passes (insert_field "$match" (object f) end ∷ stages) d ≡ (matches f d && passes stages d)
unfolding passes insert_field get_field string_eq
passes-match f d stages = refl

pub passes-nil : (d : Fields) → passes [] d ≡ true
unfolding passes
passes-nil d = refl

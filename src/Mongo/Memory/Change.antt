-- ===== src/Mongo/Memory/Change.antt =====
-- Updates of the server in memory.
use getitdone.Prelude.{
  ◌≡◌, ◌≢◌, refl, ◌∙◌, subst, sym, String, Option, none, some, ◌==◌, string_eq, if◌then◌else◌,
  arith, Option-cases, inl, inr,
}
use getitdone.Bson.Memory.{
  Value, object, Fields, end, field, get_field, insert_field, get_field-insert_field,
}
use getitdone.Mongo.Paths.{split_dot}

-- The document with one field of an inner document set. A value that is no document is kept.
set_inner : String → String → Value → Option Value → Fields → Fields
set_inner p c v none d = insert_field p (object (field c v end)) d
set_inner p c v (some (object e)) d = insert_field p (object (insert_field c v e)) d
set_inner p c v (some _) d = d

set_path : String → Value → Fields → Fields
unfolding set_inner
set_path k v d = elim (split_dot k) [
  | none ↦ insert_field k v d
  | some (p, c) ↦ set_inner p c v (get_field p d) d
]

set_fields : Fields → Fields → Fields
unfolding set_path
set_fields end d = d
set_fields (field k v s) d = set_path k v (set_fields s d)

remove_field : String → Fields → Fields
remove_field k end = end
remove_field k (field j v d) =
    let rest = remove_field k d in if j == k then rest else field j v rest

remove_fields : Fields → Fields → Fields
unfolding remove_field
remove_fields end d = d
remove_fields (field k v s) d = remove_field k (remove_fields s d)

pub section : Option Value → Fields
section (some (object s)) = s
section _ = end

unfoldable pub applied : Fields → Fields → Fields
unfolding section set_fields remove_fields
applied u d =
    set_fields (section (get_field "$set" u)) (remove_fields (section (get_field "$unset" u)) d)

set_inner_other :
    (k p c : String) (v : Value) (o : Option Value) (d : Fields)
    → p ≢ k
    → get_field k (set_inner p c v o d) ≡ get_field k d
unfolding set_inner
set_inner_other k p c v none d x =
    ground (arith, get_field-insert_field k p (object (field c v end)) d)
set_inner_other k p c v (some (object e)) d x =
    ground (arith, get_field-insert_field k p (object (insert_field c v e)) d)
set_inner_other k p c v (some _) d x = refl

set_path_plain :
    (k j : String) (v : Value) (d : Fields)
    → split_dot j ≡ none
    → get_field k (set_path j v d) ≡ (if j == k then some v else get_field k d)
unfolding set_path
set_path_plain k j v d p = rw (p, set_path) (get_field-insert_field k j v d)

set_path_dotted :
    (k j p c : String) (v : Value) (d : Fields)
    → split_dot j ≡ some (p, c)
    → p ≢ k
    → get_field k (set_path j v d) ≡ get_field k d
unfolding set_path
set_path_dotted k j p c v d e x = rw (e, set_path) (set_inner_other k p c v (get_field p d) d x)

-- Nothing is set in a part of the field `k`.
abbrev pub IsApart : String → Fields → Type 0
IsApart k s = (j c : String) → split_dot j ≡ some (k, c) → get_field j s ≡ none

head_apart :
    (k j c : String) (v : Value) (s : Fields) → IsApart k (field j v s) → split_dot j ≢ some (k, c)
unfolding get_field
head_apart k j c v s h e = absurd (ground (arith, h j c e))

tail-IsApart : (k j : String) (v : Value) (s : Fields) → IsApart k (field j v s) → IsApart k s
unfolding get_field
tail-IsApart k j v s h i c e = ground (arith, h i c e)

set_path_apart :
    (k j : String) (v : Value) (s d : Fields)
    → split_dot k ≡ none
    → IsApart k (field j v s)
    → get_field k (set_path j v d) ≡ (if j == k then some v else get_field k d)
set_path_apart k j v s d p h = elim (Option-cases (split_dot j)) [
  | inl n ↦ set_path_plain k j v d n
  | inr ((q, c), e) ↦ elim (string_eq.dec q k) [
    | yes same ↦ absurd (head_apart k j c v s h (e ∙ ground arith))
    | no other ↦
        set_path_dotted k j q c v d e other
        ∙ ground (arith, λ (same : j ≡ k). subst (λ x. split_dot x ≡ some (q, c)) same e)
  ]
]

set_fields-some :
    (k : String) (v : Value) (s d : Fields)
    → split_dot k ≡ none
    → IsApart k s
    → get_field k s ≡ some v
    → get_field k (set_fields s d) ≡ some v
unfolding set_fields get_field
set_fields-some k v end d p h g = absurd (cc)
set_fields-some k v (field j w s) d p h g = ground (
  arith,
  set_path_apart k j w s (set_fields s d) p h,
  set_fields-some k v s d p (tail-IsApart k j w s h),
)

set_fields-none :
    (k : String) (s d : Fields)
    → split_dot k ≡ none
    → IsApart k s
    → get_field k s ≡ none
    → get_field k (set_fields s d) ≡ get_field k d
unfolding set_fields get_field
set_fields-none k end d p h g = refl
set_fields-none k (field j w s) d p h g = ground (
  arith,
  set_path_apart k j w s (set_fields s d) p h,
  set_fields-none k s d p (tail-IsApart k j w s h),
)

pub applied-set :
    (u s d : Fields) (k : String) (v : Value)
    → get_field "$set" u ≡ some (object s)
    → get_field k s ≡ some v
    → split_dot k ≡ none
    → IsApart k s
    → get_field k (applied u d) ≡ some v
unfolding applied section
applied-set u s d k v e g p h = rw (e, section) (set_fields-some k v s _ p h g)

pub applied-keep :
    (u s d : Fields) (k : String)
    → get_field "$set" u ≡ some (object s)
    → ((op : String) → op ≢ "$set" → get_field op u ≡ none)
    → get_field k s ≡ none
    → split_dot k ≡ none
    → IsApart k s
    → get_field k (applied u d) ≡ get_field k d
unfolding applied section remove_fields string_eq
applied-keep u s d k e other g p h =
    rw (e, section, other "$unset" (λ q. cc)) (set_fields-none k s d p h g)

remove_field_self :
    (k j : String) (d : Fields)
    → get_field k (remove_field j d) ≡ (if j == k then none else get_field k d)
unfolding remove_field get_field
remove_field_self k j end = ground arith
remove_field_self k j (field i v d) = ground (arith, remove_field_self k j d)

remove_fields-some :
    (k : String) (v : Value) (s d : Fields)
    → get_field k s ≡ some v
    → get_field k (remove_fields s d) ≡ none
unfolding remove_fields get_field
remove_fields-some k v end d g = absurd (cc)
remove_fields-some k v (field j w s) d g =
    ground (arith, remove_field_self k j (remove_fields s d), remove_fields-some k v s d)

pub applied-unset :
    (u s r d : Fields) (k : String) (v : Value)
    → get_field "$set" u ≡ some (object s)
    → get_field "$unset" u ≡ some (object r)
    → get_field k r ≡ some v
    → get_field k s ≡ none
    → split_dot k ≡ none
    → IsApart k s
    → get_field k (applied u d) ≡ none
unfolding applied section
applied-unset u s r d k v e f g h p apart =
    rw (e, section, f) (set_fields-none k s _ p apart h ∙ remove_fields-some k v r d g)

insert_field_self :
    (c : String) (v : Value) (e : Fields) → get_field c (insert_field c v e) ≡ some v
insert_field_self c v e = get_field-insert_field c c v e ∙ ground arith

pub applied-set_path :
    (k p c : String) (v : Value) (d e : Fields)
    → split_dot k ≡ some (p, c)
    → get_field p d ≡ some (object e)
    → (e' : Fields) × (get_field p
          (applied (insert_field "$set" (object (insert_field k v end)) end) d)
        ≡ some (object e'))
      × (get_field c e' ≡ some v)
      × ((j : String) → j ≢ c → get_field j e' ≡ get_field j e)
unfolding applied section set_fields remove_fields set_path set_inner get_field insert_field
    string_eq
applied-set_path k p c v d e q g = (
  insert_field c v e,
  rw (q, set_path, g, set_inner) (insert_field_self p (object (insert_field c v e)) d),
  insert_field_self c v e,
  λ j x. get_field-insert_field j c v e ∙ ground (arith, λ (same : c ≡ j). x (sym same)),
)

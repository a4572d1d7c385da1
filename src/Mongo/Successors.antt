-- ===== src/Mongo/Successors.antt =====
-- What an operation on the collection does to each document, by its place.
use mathlib.Core.Option.{some-injective, none-ne-some}
use getitdone.Prelude.{
  ℕ, zero, suc, ◌≡◌, ◌∙◌, ap, subst, inl, inr, refl, Bool, true, false, Option, none, some, List,
  [], ◌∷◌, ◌++◌, get_elem?,
}
use getitdone.Errors.{Result-cases}
use getitdone.Bson.Crate.{BsonCrate}
use getitdone.Mongo.Server.{MongoServer}
use getitdone.Mongo.Updates.{Updated, missed, hit, Upserted, updated, created}

-- Each document of the old list has a successor in its place that is related to it.
abbrev pub Relates : {D : Type 0} → (D → D → Type 0) → List D → List D → Type 0
Relates {D} R before after =
    (i : ℕ) (d : D)
    → get_elem? before i ≡ some d
    → (d' : D) × (get_elem? after i ≡ some d') × R d d'

module _ {D : Type 0} (R : D → D → Type 0) (same : (d : D) → R d d) where
  pub Relates-refl : {before after : List D} → after ≡ before → Relates R before after
  Relates-refl e i d h = (d, rw e h, same d)

  replaced-Relates :
      (front back : List D) (x y : D) → R x y → Relates R (front ++ x ∷ back) (front ++ y ∷ back)
  replaced-Relates [] back x y r zero d h = (y, refl, subst (λ z. R z y) (some-injective x d h) r)
  replaced-Relates [] back x y r (suc i) d h = (d, h, same d)
  replaced-Relates (z ∷ front) back x y r zero d h = (d, h, same d)
  replaced-Relates (z ∷ front) back x y r (suc i) d h = replaced-Relates front back x y r i d h

  appended-Relates : (before back : List D) → Relates R before (before ++ back)
  appended-Relates [] back i d h = absurd (none-ne-some d h)
  appended-Relates (z ∷ before) back zero d h = (d, h, same d)
  appended-Relates (z ∷ before) back (suc i) d h = appended-Relates before back i d h

  module _ (selects : D → Bool) (change : D → D)
      (changes : (d : D) → selects d ≡ true → R d (change d)) where
    pub Updated-Relates :
        (before after : List D) (r : Option D)
        → Updated selects change before after r
        → Relates R before after
    Updated-Relates before after r (missed p unselected e) = Relates-refl e
    Updated-Relates before after r (hit front back x s p q o) = λ i d h.
        let (d', g, w) = replaced-Relates front back x (change x) (changes x s) i d (rw p at h) in
        (d', rw q g, w)

    pub Upserted-Relates :
        (creates : D → Type 0) (before after : List D) (inserted : Bool) (n : ℕ)
        → Upserted selects change creates before after inserted n
        → Relates R before after
    Upserted-Relates creates before after inserted n (updated x w p q) =
        Updated-Relates before after (some x) w
    Upserted-Relates creates before after inserted n (created x a p c q r) =
        λ i d h. let (d', g, w) = appended-Relates before (x ∷ []) i d h in (d', rw p g, w)

module _ ⦃b : BsonCrate⦄ (m : MongoServer b) where
  open b use {Document}
  open m use {Db, contents, find_one_and_update, update_one, upsert_one, matches, applied}

  -- A failed operation relates them too, whether it has taken effect or not.
  module _ (R : Document → Document → Type 0) (same : (d : Document) → R d d)
      (filter update : Document)
      (changes : (d : Document) → matches filter d ≡ true → R d (applied update d)) (db : Db) where
    pub find_one_and_update-Relates :
        (sort : Option Document)
        → Relates R (contents db) (contents (find_one_and_update filter update sort db).1)
    find_one_and_update-Relates sort =
        elim (Result-cases (find_one_and_update filter update sort db).0) [
          | inl (r, e) ↦
              Updated-Relates R same (matches filter) (applied update) changes _ _ r
                (m.find_one_and_update_ok filter update sort db r e)
          | inr (r, e) ↦ elim (m.find_one_and_update_err filter update sort db r e) [
            | inl unchanged ↦ Relates-refl R same unchanged
            | inr (x, w) ↦
                Updated-Relates R same (matches filter) (applied update) changes _ _ (some x) w
          ]
        ]

    pub update_one-Relates : Relates R (contents db) (contents (update_one filter update db).1)
    update_one-Relates = elim (Result-cases (update_one filter update db).0) [
      | inl (r, e) ↦ elim (m.update_one_ok filter update db r e) [
        | inl (z, w) ↦ Updated-Relates R same (matches filter) (applied update) changes _ _ none w
        | inr (x, z, w) ↦
            Updated-Relates R same (matches filter) (applied update) changes _ _ (some x) w
      ]
      | inr (r, e) ↦ elim (m.update_one_err filter update db r e) [
        | inl unchanged ↦ Relates-refl R same unchanged
        | inr (x, w) ↦
            Updated-Relates R same (matches filter) (applied update) changes _ _ (some x) w
      ]
    ]

    pub upsert_one-Relates : Relates R (contents db) (contents (upsert_one filter update db).1)
    upsert_one-Relates = elim (Result-cases (upsert_one filter update db).0) [
      | inl (r, e) ↦
          Upserted-Relates R same (matches filter) (applied update) changes _ _ _ _ _
            (m.upsert_one_ok filter update db r e)
      | inr (r, e) ↦ elim (m.upsert_one_err filter update db r e) [
        | inl unchanged ↦ Relates-refl R same unchanged
        | inr (inserted, n, w) ↦
            Upserted-Relates R same (matches filter) (applied update) changes _ _ _ inserted n w
      ]
    ]

  -- What the filter does not select stays in its place, as it was.
  module _ (filter update : Document) (db : Db) (i : ℕ) (d : Document)
      (unselected : matches filter d ≡ false) (h : get_elem? (contents db) i ≡ some d) where
    abbrev Keeps : Document → Document → Type 0
    Keeps x y = x ≡ d → y ≡ d

    kept : (x : Document) → matches filter x ≡ true → Keeps x (applied update x)
    kept x s e = absurd (cc)

    abbrev stays :
        (after : List Document) → Relates Keeps (contents db) after → get_elem? after i ≡ some d
    stays after r = let (d', g, k) = r i d h in g ∙ ap some (k refl)

    pub find_one_and_update-keeps :
        (sort : Option Document)
        → get_elem? (contents (find_one_and_update filter update sort db).1) i ≡ some d
    find_one_and_update-keeps sort =
        stays _ (find_one_and_update-Relates Keeps (λ x e. e) filter update kept db sort)

    pub update_one-keeps : get_elem? (contents (update_one filter update db).1) i ≡ some d
    update_one-keeps = stays _ (update_one-Relates Keeps (λ x e. e) filter update kept db)

    pub upsert_one-keeps : get_elem? (contents (upsert_one filter update db).1) i ≡ some d
    upsert_one-keeps = stays _ (upsert_one-Relates Keeps (λ x e. e) filter update kept db)

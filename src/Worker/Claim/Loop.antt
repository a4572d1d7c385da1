-- ===== src/Worker/Claim/Loop.antt =====
-- src/worker.rs: the loop of `claim_next_task` over its filters.
use getitdone.Prelude.{
  ◌≡◌, ◌⊎◌, inl, inr, refl, ◌∙◌, sym, ap, String, true, false, Option, none, some, List, [], ◌∷◌,
  ◌++◌, string_eq, nat_eq, All, Option-cases,
}
use getitdone.Errors.{RequestError, Result, ok, err, Result-cases}
use getitdone.Bson.Crate.{BsonCrate}
use getitdone.Bson.Document.{doc}
use getitdone.Mongo.Server.{MongoServer}
use getitdone.Mongo.Updates.{missed, hit}
use getitdone.Worker.Claim.{claim_with_filter, claim_first}

module _ ⦃b : BsonCrate⦄ (m : MongoServer b) where
  open b use {Bson, Document, ObjectId, string, document, get}
  open m use {Db, contents, matches, applied, find_one_and_update}

  -- The claim of one document, which the filter of the entries selected.
  pub record Claims (es : List (String × Bson)) (update : Document) (before after : List Document)
      (task : Document) : Type 0 where
    pub front : List Document
    pub back : List Document
    pub old : Document
    pub selected : matches (doc es) old ≡ true
    pub was : before ≡ front ++ old ∷ back
    pub now : after ≡ front ++ task ∷ back
    pub claimed : task ≡ applied update old

  pub claim_with_filter-some :
      (es : List (String × Bson)) (update : Document) (sort : Option Document) (db : Db)
      (task : Document)
      → (claim_with_filter m (doc es) update sort db).0 ≡ ok (some task)
      → Claims es update
          (contents db)
          (contents (claim_with_filter m (doc es) update sort db).1)
          task
  unfolding claim_with_filter
  claim_with_filter-some es update sort db task h =
      elim (Result-cases (find_one_and_update (doc es) update sort db).0) [
        | inr (r, e) ↦ absurd (cc)
        | inl (r, e) ↦ elim (m.find_one_and_update_ok (doc es) update sort db r e) [
          | missed p unselected same ↦ absurd (cc)
          | hit front back d s p q o ↦
              let t : task ≡ applied update d = cc in
              record {
                front = front;
                back = back;
                old = d;
                selected = s;
                was = p;
                now = rw t q;
                claimed = t;
              }
        ]
      ]

  pub claim_with_filter-none :
      (es : List (String × Bson)) (update : Document) (sort : Option Document) (db : Db)
      → (claim_with_filter m (doc es) update sort db).0 ≡ ok none
      → (contents (claim_with_filter m (doc es) update sort db).1 ≡ contents db)
        × All (λ d. matches (doc es) d ≡ false) (contents db)
  unfolding claim_with_filter
  claim_with_filter-none es update sort db h =
      elim (Result-cases (find_one_and_update (doc es) update sort db).0) [
        | inr (r, e) ↦ absurd (cc)
        | inl (r, e) ↦ elim (m.find_one_and_update_ok (doc es) update sort db r e) [
          | missed p unselected same ↦ (same, unselected)
          | hit front back d s p q o ↦ absurd (cc)
        ]
      ]

  abbrev pub Attempts : Type 0
  Attempts = List (List (String × Bson) × Option Document)

  module _ (es : List (String × Bson)) (sort : Option Document) (attempts : Attempts)
      (update : Document) (db : Db) where
    abbrev pub attempt : Result RequestError (Option Document) × Db
    attempt = claim_with_filter m (doc es) update sort db

    pub claim_first_next :
        attempt.0 ≡ ok none
        → claim_first m ((es, sort) ∷ attempts) update db ≡ claim_first m attempts update attempt.1
    unfolding claim_first
    claim_first_next h = rw (h, claim_first)

    pub claim_first_found :
        (task : Document)
        → attempt.0 ≡ ok (some task)
        → claim_first m ((es, sort) ∷ attempts) update db ≡ (ok (some task), attempt.1)
    unfolding claim_first
    claim_first_found task h = rw (h, claim_first)

    pub claim_first_failed :
        (e : RequestError)
        → attempt.0 ≡ err e
        → claim_first m ((es, sort) ∷ attempts) update db ≡ (err e, attempt.1)
    unfolding claim_first
    claim_first_failed e h = rw (h, claim_first)

    pub attempt-cases :
        ((e : RequestError) × (attempt.0 ≡ err e))
        ⊎ (attempt.0 ≡ ok none)
        ⊎ ((task : Document) × (attempt.0 ≡ ok (some task)))
    attempt-cases = elim (Result-cases attempt.0) [
      | inr (e, h) ↦ inl (e, h)
      | inl (o, h) ↦ elim (Option-cases o) [
        | inl n ↦ inr (inl (h ∙ ap ok n))
        | inr (task, n) ↦ inr (inr (task, h ∙ ap ok n))
      ]
    ]

  -- The loop ends with a task that one of its filters selected among the documents at its start.
  pub claim_first-some :
      (P : List (String × Bson) → Type 0) (attempts : Attempts) (update : Document) (db : Db)
      (task : Document)
      → All (λ a. P a.0) attempts
      → (claim_first m attempts update db).0 ≡ ok (some task)
      → (es : List (String × Bson)) × P es
        × Claims es update (contents db) (contents (claim_first m attempts update db).1) task
  claim_first-some P [] update db task a h = absurd (unfold claim_first in cc)
  claim_first-some P ((es, sort) ∷ attempts) update db task a h =
      elim (attempt-cases es sort attempts update db) [
        | inl (r, e) ↦
            let step = claim_first_failed es sort attempts update db r e in
            absurd (cc (sym (ap (λ x. x.0) step) ∙ h))
        | inr (inl e) ↦
            let step = claim_first_next es sort attempts update db e in
            let (es', p, w) =
              claim_first-some P attempts update _ task a.1 (sym (ap (λ x. x.0) step) ∙ h) in
            rw step (es', p, rw ((claim_with_filter-none es update sort db e).0) at w)
        | inr (inr (d, e)) ↦
            let step = claim_first_found es sort attempts update db d e in
            let same : d ≡ task = cc (sym (ap (λ x. x.0) step) ∙ h) in
            rw step (es, a.0, rw same at (claim_with_filter-some es update sort db d e))
      ]

  -- Without a task and without an error, no filter selects any document and nothing has changed.
  pub claim_first-none :
      (attempts : Attempts) (update : Document) (db : Db)
      → (claim_first m attempts update db).0 ≡ ok none
      → (contents (claim_first m attempts update db).1 ≡ contents db)
        × All (λ a. All (λ d. matches (doc a.0) d ≡ false) (contents db)) attempts
  claim_first-none [] update db h = (unfold claim_first in refl, tt)
  claim_first-none ((es, sort) ∷ attempts) update db h =
      elim (attempt-cases es sort attempts update db) [
        | inl (r, e) ↦
            let step = claim_first_failed es sort attempts update db r e in
            absurd (cc (sym (ap (λ x. x.0) step) ∙ h))
        | inr (inl e) ↦
            let step = claim_first_next es sort attempts update db e in
            let (same, unselected) = claim_with_filter-none es update sort db e in
            let (same', rest) = claim_first-none attempts update _ (sym (ap (λ x. x.0) step) ∙ h) in
            (ap (λ x. contents x.1) step ∙ same' ∙ same, (unselected, rw same at rest))
        | inr (inr (d, e)) ↦
            let step = claim_first_found es sort attempts update db d e in
            absurd (cc (sym (ap (λ x. x.0) step) ∙ h))
      ]

-- ===== src/Worker/Claim/Interleaved.antt =====
-- src/worker.rs: the loop of `claim_next_task` where others write behind each of its calls.
use getitdone.Prelude.{
  ℕ, suc, ◌≡◌, refl, String, false, Option, none, some, List, [], ◌∷◌, All, inl, inr,
}
use getitdone.Errors.{ok}
use getitdone.Bson.Crate.{BsonCrate}
use getitdone.Bson.Document.{doc}
use getitdone.Mongo.Server.{MongoServer}
use getitdone.Worker.Claim.{claim_first, claim_interleaved}
use getitdone.Worker.Claim.Loop.{
  Claims, Attempts, attempt, attempt-cases, claim_with_filter-some, claim_with_filter-none,
}

module _ ⦃b : BsonCrate⦄ (m : MongoServer b) where
  open b use {Bson, Document}
  open m use {Db, contents, matches}

  -- Where nobody writes in between, it is the loop itself.
  pub claim_interleaved-alone :
      (attempts : Attempts m) (update : Document) (db : Db)
      → claim_interleaved m attempts update (λ n x. x) db ≡ claim_first m attempts update db
  unfolding claim_interleaved claim_first
  claim_interleaved-alone [] update db = refl
  claim_interleaved-alone ((es, sort) ∷ attempts) update db =
      elim (attempt-cases m es sort attempts update db) [
        | inl (e, h) ↦ rw (h, claim_interleaved, claim_first)
        | inr (inl h) ↦
            rw (h, claim_interleaved, claim_first) (claim_interleaved-alone attempts update _)
        | inr (inr (d, h)) ↦ rw (h, claim_interleaved, claim_first)
      ]

  module _ (update : Document) where
    module _ (K : Db → Type 0) (of_contents : (x y : Db) → contents y ≡ contents x → K x → K y)
        (P : List (String × Bson) → Type 0) where
      -- A task that is found was selected by one of the filters, in a collection that others have left.
      pub record Found (after_all : Db) (task : Document) : Type 0 where
        pub entries : List (String × Bson)
        pub fits : P entries
        pub before : Db
        pub after : Db
        pub left : K before
        pub claims : Claims m entries update (contents before) (contents after) task
        pub behind : Db → Db
        pub keeping : (db : Db) → K db → K (behind db)
        pub last : after_all ≡ behind after

      pub claim_interleaved-Found :
          (between : ℕ → Db → Db) (attempts : Attempts m) (db : Db) (task : Document)
          → ((n : ℕ) (db : Db) → K db → K (between n db))
          → K db
          → All (λ a. P a.0) attempts
          → (claim_interleaved m attempts update between db).0 ≡ ok (some task)
          → Found (claim_interleaved m attempts update between db).1 task
      unfolding claim_interleaved
      claim_interleaved-Found between [] db task keeps k a h = absurd (cc)
      claim_interleaved-Found between ((es, sort) ∷ attempts) db task keeps k a h =
          elim (attempt-cases m es sort attempts update db) [
            | inl (e, g) ↦ absurd (cc (rw (g, claim_interleaved) at h))
            | inr (inl g) ↦
                rw (g, claim_interleaved)
                  (claim_interleaved-Found (λ n. between (suc n)) attempts _ task
                    (λ n. keeps (suc n))
                    (keeps 0 _ (
                      of_contents db (attempt m es sort attempts update db).1
                        (claim_with_filter-none m es update sort db g).0 k))
                    a.1 (rw (g, claim_interleaved) at h))
            | inr (inr (d, g)) ↦
                let same : d ≡ task = cc (rw (g, claim_interleaved) at h) in
                rw (g, claim_interleaved)
                  (record {
                    entries = es;
                    fits = a.0;
                    before = db;
                    after = (attempt m es sort attempts update db).1;
                    left = k;
                    claims = rw same at (claim_with_filter-some m es update sort db d g);
                    behind = between 0;
                    keeping = keeps 0;
                    last = refl;
                  })
          ]

    -- Where nothing is found, the first filter has selected nothing.
    pub claim_interleaved-unselected :
        (between : ℕ → Db → Db) (es : List (String × Bson)) (sort : Option Document)
        (attempts : Attempts m) (db : Db)
        → (claim_interleaved m ((es, sort) ∷ attempts) update between db).0 ≡ ok none
        → All (λ d. matches (doc es) d ≡ false) (contents db)
    unfolding claim_interleaved
    claim_interleaved-unselected between es sort attempts db h =
        elim (attempt-cases m es sort attempts update db) [
          | inl (e, g) ↦ absurd (cc (rw (g, claim_interleaved) at h))
          | inr (inl g) ↦ (claim_with_filter-none m es update sort db g).1
          | inr (inr (d, g)) ↦ absurd (cc (rw (g, claim_interleaved) at h))
        ]

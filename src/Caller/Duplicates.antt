-- ===== src/Caller/Duplicates.antt =====
-- src/caller.rs: enqueueing under the key of a task that is there.
use getitdone.Prelude.{
  ℕ, ◌≡◌, ◌∙◌, sym, inl, inr, refl, String, true, false, none, some, [], ◌∷◌, string_eq, nat_eq,
  get_elem?, Option-cases, Bool-cases,
}
use getitdone.Prelude.Int.{ℤ}
use getitdone.Bson.Crate.{BsonCrate}
use getitdone.Mongo.Paths.{split_dot, field_path}
use getitdone.Mongo.Server.{MongoServer}
use getitdone.Mongo.Atomic.{holds_of_matches}
use getitdone.Mongo.Successors.{upsert_one-keeps}
use getitdone.Caller.{
  is_absent, upsert_filter, upsert_task, SendBuilder, effective_reset_predicate, enqueue_payload,
  enqueue_only,
}

module _ ⦃b : BsonCrate⦄ (m : MongoServer b) where
  open b use {Bson, Document, string, get}
  open m use {Db, contents, matches, applied, upsert_one}

  pub not-matches_present :
      (task_id : String) (v : Bson) (d : Document)
      → get "status" d ≡ some v
      → matches (upsert_filter task_id none) d ≡ false
  unfolding upsert_filter string_eq split_dot field_path nat_eq
  not-matches_present task_id v d g = elim (Bool-cases (matches (upsert_filter task_id none) d)) [
    | inr u ↦ u
    | inl u ↦
        let there : true ≡ false =
          sym (
            holds_of_matches m "status" is_absent
              (("task_id", string task_id) ∷ ("status", is_absent) ∷ []) d u refl)
          ∙ m.holds-exists "status" v d refl refl g in
        absurd (cc there)
  ]

  -- Where neither the request nor the configuration allows a reset, enqueueing leaves every document that
  -- has a status as it was, whatever its result.
  pub enqueue_only_spares :
      (s : SendBuilder m) (uuid : String) (now : ℤ) (db : Db) (i : ℕ) (v : Bson) (d : Document)
      → s.reset_when ≡ none
      → s.config.allow_reset_finished_tasks ≡ false
      → get "status" d ≡ some v
      → get_elem? (contents db) i ≡ some d
      → get_elem? (contents (enqueue_only m s uuid now db).1) i ≡ some d
  unfolding enqueue_only enqueue_payload upsert_task effective_reset_predicate
  enqueue_only_spares s uuid now db i v d no_predicate no_reset g h =
      elim (Option-cases s.payload_err) [
        | inr (e, p) ↦ rw (p, enqueue_only) h
        | inl p ↦ elim (Option-cases s.payload) [
          | inl q ↦ rw (p, enqueue_only, q) h
          | inr (payload, q) ↦
              rw (p, enqueue_only, q, no_predicate, no_reset)
                (upsert_one-keeps m (upsert_filter _ none) _ db i d (not-matches_present _ v d g) h)
        ]
      ]

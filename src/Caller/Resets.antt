-- ===== src/Caller/Resets.antt =====
-- src/caller.rs: the reset predicate of an enqueue. It is `and`ed with the finished states.
use getitdone.Prelude.{
  ℕ, ◌≡◌, ◌∙◌, sym, inl, inr, refl, String, Bool, true, false, none, some, [], ◌∷◌, ◌⊎◌, ◌&&◌, ◌||◌,
  string_eq, nat_eq, get_elem?, Option-cases, Bool-cases, contains, arith, Option,
}
use getitdone.Prelude.Lists.{any, every}
use getitdone.Prelude.Int.{ℤ}
use getitdone.Bson.Crate.{BsonCrate}
use getitdone.Bson.Document.{doc}
use getitdone.Mongo.Paths.{split_dot, field_path}
use getitdone.Mongo.Server.{MongoServer}
use getitdone.Mongo.Atomic.{holds_of_matches}
use getitdone.Caller.{
  is_absent, is_one_of, finished, reset_arm, upsert_filter, upsert_task, SendBuilder,
  effective_reset_predicate, enqueue_payload, enqueue_only,
}
use getitdone.Mongo.Successors.{upsert_one-keeps}
use getitdone.Caller.Duplicates.{not-matches_present}

any_two : (a b : Bool) → (a || (b || false)) ≡ true → (a ≡ true) ⊎ (b ≡ true)
any_two true b h = inl refl
any_two false true h = inr refl
any_two false false h = absurd (cc)

and_left : (a b : Bool) → (a && b) ≡ true → a ≡ true
and_left true b h = refl
and_left false b h = absurd (cc)

absent_selected : true ≡ false → ⊥
absent_selected h = cc

-- The states in which a task may be reset.
pub data IsFinished : String → Type 0 where
  succeeded : (t : String) → t ≡ "succeeded" → IsFinished t
  failed : (t : String) → t ≡ "failed" → IsFinished t

IsFinished-of_contains : (t : String) → contains finished t ≡ true → IsFinished t
IsFinished-of_contains t h = elim (string_eq.dec "succeeded" t) [
  | yes e ↦ succeeded t (sym e)
  | no p ↦ elim (string_eq.dec "failed" t) [
    | yes e ↦ failed t (sym e)
    | no q ↦ absurd (ground arith)
  ]
]

module _ ⦃b : BsonCrate⦄ (m : MongoServer b) where
  open b use {Bson, Document, string, get, document, array}
  open m use {Db, contents, matches, holds}

  IsFinished-of_entry :
      (d : Document) (t : String)
      → get "status" d ≡ some (string t)
      → matches (doc (("status", is_one_of finished) ∷ [])) d ≡ true
      → IsFinished t
  unfolding string_eq split_dot field_path nat_eq
  IsFinished-of_entry d t g u = IsFinished-of_contains t (
      sym (m.holds-in "status" t finished d refl refl g)
      ∙ holds_of_matches m "status" (is_one_of finished) (("status", is_one_of finished) ∷ []) d u
          refl)

  IsFinished-of_reset_arm :
      (predicate d : Document) (t : String)
      → get "status" d ≡ some (string t)
      → matches (reset_arm predicate) d ≡ true
      → IsFinished t
  unfolding reset_arm string_eq
  IsFinished-of_reset_arm predicate d t g u =
      let arm = doc (("status", is_one_of finished) ∷ []) in
      let both : every (λ f. matches f d) (arm ∷ predicate ∷ []) ≡ true =
        sym (m.holds-and (arm ∷ predicate ∷ []) d)
        ∙ holds_of_matches m "$and" (array (document arm ∷ document predicate ∷ []))
            (("$and", array (document arm ∷ document predicate ∷ [])) ∷ []) d u refl in
      IsFinished-of_entry d t g (and_left _ _ both)

  absent_entry_false :
      (v : Bson) (d : Document)
      → get "status" d ≡ some v
      → matches (doc (("status", is_absent) ∷ [])) d ≡ true
      → ⊥
  unfolding string_eq split_dot field_path nat_eq
  absent_entry_false v d g u =
      let there : true ≡ false =
        sym (holds_of_matches m "status" is_absent (("status", is_absent) ∷ []) d u refl)
        ∙ m.holds-exists "status" v d refl refl g in
      absurd (cc there)

  -- What the filter of an enqueue selects among the documents that have a status.
  pub IsFinished-of_upsert_filter :
      (task_id : String) (predicate : Option Document) (d : Document) (t : String)
      → get "status" d ≡ some (string t)
      → matches (upsert_filter task_id predicate) d ≡ true
      → IsFinished t
  unfolding upsert_filter string_eq
  IsFinished-of_upsert_filter task_id none d t g u =
      absurd (absent_selected (sym u ∙ not-matches_present m task_id (string t) d g))
  IsFinished-of_upsert_filter task_id (some predicate) d t g u =
      let absent = doc (("status", is_absent) ∷ []) in
      let arms : Bson = array (document absent ∷ document (reset_arm predicate) ∷ []) in
      let either : any (λ f. matches f d) (absent ∷ reset_arm predicate ∷ []) ≡ true =
        sym (m.holds-or (absent ∷ reset_arm predicate ∷ []) d)
        ∙ holds_of_matches m "$or" arms (("task_id", string task_id) ∷ ("$or", arms) ∷ []) d u
            refl in
      elim (any_two _ _ either) [
        | inl selected ↦ absurd (absent_entry_false (string t) d g selected)
        | inr selected ↦ IsFinished-of_reset_arm predicate d t g selected
      ]

  not-matches_unfinished :
      (task_id : String) (predicate : Option Document) (d : Document) (t : String)
      → get "status" d ≡ some (string t)
      → ¬ IsFinished t
      → matches (upsert_filter task_id predicate) d ≡ false
  not-matches_unfinished task_id predicate d t g unfinished =
      elim (Bool-cases (matches (upsert_filter task_id predicate) d)) [
        | inr u ↦ u
        | inl u ↦ absurd (unfinished (IsFinished-of_upsert_filter task_id predicate d t g u))
      ]

  -- Enqueueing leaves a task that is neither succeeded nor failed as it was, whatever the request's and
  -- the configuration's reset settings are, and whatever its result.
  pub enqueue_only_unfinished :
      (s : SendBuilder m) (uuid : String) (now : ℤ) (db : Db) (i : ℕ) (t : String) (d : Document)
      → get "status" d ≡ some (string t)
      → ¬ IsFinished t
      → get_elem? (contents db) i ≡ some d
      → get_elem? (contents (enqueue_only m s uuid now db).1) i ≡ some d
  unfolding enqueue_only enqueue_payload upsert_task
  enqueue_only_unfinished s uuid now db i t d g unfinished h = elim (Option-cases s.payload_err) [
    | inr (e, p) ↦ rw (p, enqueue_only) h
    | inl p ↦ elim (Option-cases s.payload) [
      | inl q ↦ rw (p, enqueue_only, q) h
      | inr (payload, q) ↦
          rw (p, enqueue_only, q)
            (upsert_one-keeps m (upsert_filter _ (effective_reset_predicate s.reset_when s.config))
              _ db i d (not-matches_unfinished _ _ d t g unfinished) h)
    ]
  ]

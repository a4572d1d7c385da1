-- ===== src/System/Stability.antt =====
-- What has finished stays as it is, until a caller resets it.
use getitdone.Prelude.{
  ℕ, ◌≡◌, ◌∙◌, ap, refl, true, false, String, none, some, List, [], ◌∷◌, string_eq, nat_eq,
  get_elem?, All, Bool-cases, inl, inr,
}
use getitdone.Bson.Crate.{BsonCrate}
use getitdone.Bson.Document.{doc, last_value}
use getitdone.Mongo.Paths.{split_dot, field_path}
use getitdone.Mongo.Server.{MongoServer}
use getitdone.Mongo.Atomic.{text_of_matches}
use getitdone.Caller.{effective_reset_predicate}
use getitdone.Caller.Duplicates.{not-matches_present}
use getitdone.Worker.Claim.{pending_entries, own_entries, stale_entries, target_entries}
use getitdone.Worker.Claim.Expired.{expired_entries}
use getitdone.Worker.Lease.{claim_entries, claim_filter}
use getitdone.System.{Operation, enqueue, claim, claim_expired, lease_write, perform, perform_all}
use getitdone.System.Writes.{
  Issues, upserts, claims_pending, claims_own, claims_stale, claims_expired, beats, fails, finishes,
  perform-Relates,
}

module _ ⦃b : BsonCrate⦄ (m : MongoServer b) where
  open b use {Bson, Document, ObjectId, string, get}
  open m use {Db, contents, matches, applied}

  -- Neither the request nor its configuration allows a reset.
  abbrev pub IsGentle : Operation m → Type 0
  IsGentle (enqueue s uuid now) = effective_reset_predicate s.reset_when s.config ≡ none
  IsGentle (claim c mode sort) = Unit
  IsGentle (claim_expired c id task_id) = Unit
  IsGentle (lease_write w task_id worker_id token) = Unit

  -- The document has a status that is neither pending nor running.
  pub record IsSettled (d : Document) : Type 0 where
    pub text : String
    pub status : get "status" d ≡ some (string text)
    pub not_pending : ¬ (text ≡ "pending")
    pub not_running : ¬ (text ≡ "running")

  unselected :
      (es : List (String × Bson)) (from : String) (d : Document) (v : IsSettled d)
      → last_value "status" es ≡ some (string from)
      → ¬ (v.text ≡ from)
      → matches (doc es) d ≡ false
  unfolding split_dot field_path nat_eq
  unselected es from d v e other = elim (Bool-cases (matches (doc es) d)) [
    | inr u ↦ u
    | inl u ↦ absurd (other (text_of_matches m "status" from v.text es d u e refl refl v.status))
  ]

  Issues-unselected :
      (o : Operation m) (f u : Document)
      → Issues m o f u
      → IsGentle o
      → (d : Document) → IsSettled d
      → matches f d ≡ false
  unfolding pending_entries own_entries stale_entries target_entries expired_entries claim_filter
      claim_entries string_eq
  Issues-unselected o f u (upserts s uuid now payload timeout trace) gentle d v =
      rw gentle (not-matches_present m _ (string v.text) d v.status)
  Issues-unselected o f u (claims_pending c sort) gentle d v =
      unselected (pending_entries m c.excluded) "pending" d v refl v.not_pending
  Issues-unselected o f u (claims_own c sort) gentle d v =
      unselected (own_entries m c.worker_id c.excluded) "running" d v refl v.not_running
  Issues-unselected o f u (claims_stale c sort) gentle d v =
      unselected (stale_entries m c.now c.worker_switch_timeout c.excluded) "running" d v refl
        v.not_running
  Issues-unselected o f u (claims_expired c id none) gentle d v =
      unselected (expired_entries m id none c.excluded c.now c.worker_switch_timeout) "running" d v
        refl v.not_running
  Issues-unselected o f u (claims_expired c id (some task_id)) gentle d v =
      unselected (expired_entries m id (some task_id) c.excluded c.now c.worker_switch_timeout)
        "running" d v refl v.not_running
  Issues-unselected o f u (beats now task worker token) gentle d v =
      unselected (claim_entries m task worker token) "running" d v refl v.not_running
  Issues-unselected o f u (fails reason now at task worker token) gentle d v =
      unselected (claim_entries m task worker token) "running" d v refl v.not_running
  Issues-unselected o f u (finishes output now at task worker token) gentle d v =
      unselected (claim_entries m task worker token) "running" d v refl v.not_running

  selected_settled : (f x d : Document) → matches f x ≡ true → x ≡ d → matches f d ≡ false → ⊥
  selected_settled f x d s e u = absurd (cc)

  perform-keeps :
      (o : Operation m) (db : Db) (i : ℕ) (d : Document)
      → IsGentle o
      → IsSettled d
      → get_elem? (contents db) i ≡ some d
      → get_elem? (contents (perform m o db)) i ≡ some d
  perform-keeps o db i d gentle v h =
      let (d', g, k) =
        perform-Relates m (λ x y. x ≡ d → y ≡ d) (λ x e. e) o db
          (λ f u w x s e.
            absurd (selected_settled f x d s e (Issues-unselected o f u w gentle d v)))
          i d h in
      g ∙ ap some (k refl)

  -- A document with a status that is neither pending nor running stays exactly as it is, whatever callers
  -- and workers do in whatever order, as long as no request and no configuration allows a reset.
  pub perform_all-keeps :
      (os : List (Operation m)) (db : Db) (i : ℕ) (d : Document)
      → All IsGentle os
      → IsSettled d
      → get_elem? (contents db) i ≡ some d
      → get_elem? (contents (perform_all m os db)) i ≡ some d
  unfolding perform_all
  perform_all-keeps [] db i d gentle v h = h
  perform_all-keeps (o ∷ os) db i d gentle v h =
      perform_all-keeps os (perform m o db) i d gentle.1 v (perform-keeps o db i d gentle.0 v h)

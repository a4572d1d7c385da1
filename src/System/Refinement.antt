-- ===== src/System/Refinement.antt =====
-- Every write of src/caller.rs and src/worker.rs is a step in the life of each task.
use getitdone.Prelude.{
  ℕ, ◌≡◌, ◌∙◌, refl, subst, sym, true, differs, String, Option, none, some, List, [], ◌∷◌,
  string_eq, nat_eq, get_elem?, Option-cases, inl, inr, false,
}
use getitdone.Bson.Crate.{BsonCrate}
use getitdone.Bson.Document.{doc, last_value}
use getitdone.Mongo.Paths.{split_dot, field_path}
use getitdone.Mongo.Server.{MongoServer}
use getitdone.Mongo.Atomic.{text_of_matches, set_field, keep_field, no_conflict}
use getitdone.Config.{unwrap_or}
use getitdone.Caller.Duplicates.{not-matches_present}
use getitdone.Caller.{
  SendBuilder, effective_reset_predicate, filter_entries, upsert_filter, upsert_update,
}
use getitdone.Caller.Resets.{IsFinished, IsFinished-of_upsert_filter}
use getitdone.Caller.Resets as Resets
use getitdone.Trace.{TraceContext}
use getitdone.Caller.Queued.{applied-IsQueued}
use getitdone.Worker.Claim.{
  pending_entries, own_entries, stale_entries, target_entries, claim_update, claim_fields,
}
use getitdone.Worker.Claim.Expired.{expired_entries}
use getitdone.Worker.Lease.{
  claim_entries, claim_filter, heartbeat_update, failed_update, failed_fields, succeeded_update,
  succeeded_fields,
}
use getitdone.Prelude.Int.{ℤ}
use getitdone.System.{Operation, Claim, enqueue, perform, perform_all}
use getitdone.System.Lifecycle.{
  Status, pending, running, succeeded, failed, status_text, Next, stays, claimed, completed,
  aborted, reset_success, reset_failure, Reaches, here, next, HasStatus,
}
use getitdone.System.Writes.{
  Issues, upserts, claims_pending, claims_own, claims_stale, claims_expired, beats, fails, finishes,
  perform-Relates,
}

true_ne_false : true ≡ false → ⊥
true_ne_false h = cc

running_of_text : (s : Status) → status_text s ≡ "running" → s ≡ running
unfolding string_eq
running_of_text pending e = absurd (differs "pending" "running" refl e)
running_of_text running e = refl
running_of_text succeeded e = absurd (differs "succeeded" "running" refl e)
running_of_text failed e = absurd (differs "failed" "running" refl e)

pending_of_text : (s : Status) → status_text s ≡ "pending" → s ≡ pending
unfolding string_eq
pending_of_text pending e = refl
pending_of_text running e = absurd (differs "running" "pending" refl e)
pending_of_text succeeded e = absurd (differs "succeeded" "pending" refl e)
pending_of_text failed e = absurd (differs "failed" "pending" refl e)

module _ ⦃b : BsonCrate⦄ (m : MongoServer b) where
  open b use {Bson, Document, ObjectId, string, document, get}
  open m use {Db, contents, matches, applied}

  reset_of_finished :
      (b' : SendBuilder m) (uuid : String) (now : ℤ) (predicate : Document) (s : Status)
      → effective_reset_predicate b'.reset_when b'.config ≡ some predicate
      → IsFinished (status_text s)
      → Next m (enqueue b' uuid now) s pending
  unfolding string_eq
  reset_of_finished b' uuid now p pending h f = stays _ pending
  reset_of_finished b' uuid now p running h (Resets.succeeded t e) =
      absurd (differs "running" "succeeded" refl e)
  reset_of_finished b' uuid now p running h (Resets.failed t e) =
      absurd (differs "running" "failed" refl e)
  reset_of_finished b' uuid now p succeeded h f = reset_success b' uuid now p h
  reset_of_finished b' uuid now p failed h f = reset_failure b' uuid now p h

  -- The document goes on to a status that the operation may give it, under its task id.
  pub record Proceeds (o : Operation m) (d d' : Document) : Type 0 where
    pub status : (s : Status) → HasStatus m s d → (s' : Status) × HasStatus m s' d' × Next m o s s'
    pub named :
        (k : String) → get "task_id" d ≡ some (string k) → get "task_id" d' ≡ some (string k)

  Proceeds-refl : (o : Operation m) (d : Document) → Proceeds o d d
  Proceeds-refl o d = record { status = λ s h. (s, h, stays o s); named = λ k h. h }

  -- An update that sets the status of what its filter selects by its status.
  module _ (o : Operation m) (es fields : List (String × Bson)) (from : String) (d : Document)
      (selected : matches (doc es) d ≡ true)
      (of_status : last_value "status" es ≡ some (string from))
      (unnamed : last_value "task_id" fields ≡ none)
      (apart : no_conflict "task_id" fields ≡ true) where
    abbrev after : Document
    after = applied (doc (("$set", document (doc fields)) ∷ [])) d

    from_text : (s : Status) → HasStatus m s d → status_text s ≡ from
    unfolding split_dot field_path nat_eq
    from_text s h =
        text_of_matches m "status" from (status_text s) es d selected of_status refl refl h

    keeps_name :
        (k : String) → get "task_id" d ≡ some (string k) → get "task_id" after ≡ some (string k)
    unfolding split_dot nat_eq
    keeps_name k h = keep_field m "task_id" fields d unnamed refl apart ∙ h

    moves :
        (to : Status)
        → ((s : Status) → status_text s ≡ from → Next m o s to)
        → last_value "status" fields ≡ some (string (status_text to))
        → no_conflict "status" fields ≡ true
        → Proceeds o d after
    unfolding split_dot nat_eq
    moves to step written plain = record {
      status = λ s h. (
        to,
        set_field m "status" (string (status_text to)) fields d written refl plain,
        step s (from_text s h),
      );
      named = keeps_name;
    }

    rests :
        last_value "status" fields ≡ none → no_conflict "status" fields ≡ true → Proceeds o d after
    unfolding split_dot nat_eq
    rests unwritten plain = record {
      status = λ s h. (s, keep_field m "status" fields d unwritten refl plain ∙ h, stays o s);
      named = keeps_name;
    }

  from_running :
      (o : Operation m) (to : Status)
      → Next m o running to
      → (s : Status) → status_text s ≡ "running"
      → Next m o s to
  from_running o to n s e = subst (λ x. Next m o x to) (sym (running_of_text s e)) n

  from_pending :
      (o : Operation m) (to : Status)
      → Next m o pending to
      → (s : Status) → status_text s ≡ "pending"
      → Next m o s to
  from_pending o to n s e = subst (λ x. Next m o x to) (sym (pending_of_text s e)) n

  abbrev fields_of : Claim m → List (String × Bson)
  fields_of c = claim_fields m c.worker_id c.claim_token c.claim_started_at c.worker_switch_timeout

  task_id_of_selected :
      (task_id k : String) (predicate : Option Document) (d : Document)
      → matches (upsert_filter task_id predicate) d ≡ true
      → get "task_id" d ≡ some (string k)
      → k ≡ task_id
  unfolding upsert_filter filter_entries string_eq split_dot field_path nat_eq
  task_id_of_selected task_id k none d h g =
      text_of_matches m "task_id" task_id k (filter_entries task_id none) d h refl refl refl g
  task_id_of_selected task_id k (some predicate) d h g =
      text_of_matches m "task_id" task_id k (filter_entries task_id (some predicate)) d h refl refl
        refl g

  upserts-Proceeds :
      (b' : SendBuilder m) (uuid : String) (now : ℤ) (payload : Bson) (timeout : ℕ)
      (trace : Option TraceContext) (d : Document)
      → let task_id = unwrap_or uuid b'.idempotency_key in
        matches (upsert_filter task_id (effective_reset_predicate b'.reset_when b'.config)) d ≡ true
        → Proceeds
            (enqueue b' uuid now)
            d
            (applied (upsert_update task_id payload timeout trace now) d)
  upserts-Proceeds b' uuid now payload timeout trace d h =
      let task_id = unwrap_or uuid b'.idempotency_key in
      let predicate = effective_reset_predicate b'.reset_when b'.config in
      let queued = applied-IsQueued m task_id payload timeout trace now d in
      record {
        status = λ s g. (
          pending,
          queued.pending,
          elim (Option-cases predicate) [
            | inl n ↦ absurd (
                true_ne_false
                  (sym h ∙ rw n (not-matches_present m task_id (string (status_text s)) d g)))
            | inr (p, q) ↦
                reset_of_finished b' uuid now p s q
                  (IsFinished-of_upsert_filter m task_id predicate d (status_text s) g h)
          ],
        );
        named = λ k g. rw (task_id_of_selected task_id k predicate d h g) queued.named;
      }

  Issues-Proceeds :
      (o : Operation m) (f u : Document)
      → Issues m o f u
      → (d : Document) → matches f d ≡ true
      → Proceeds o d (applied u d)
  unfolding pending_entries own_entries stale_entries target_entries expired_entries claim_update
      claim_fields claim_filter claim_entries heartbeat_update failed_update failed_fields
      succeeded_update succeeded_fields string_eq split_dot nat_eq
  Issues-Proceeds o f u (upserts s uuid now payload timeout trace) d h =
      upserts-Proceeds s uuid now payload timeout trace d h
  Issues-Proceeds o f u (claims_pending c sort) d h =
      moves o (pending_entries m c.excluded) (fields_of c) "pending" d h refl refl refl running
        (from_pending o running (claimed c sort)) refl refl
  Issues-Proceeds o f u (claims_own c sort) d h =
      moves o (own_entries m c.worker_id c.excluded) (fields_of c) "running" d h refl refl refl
        running (from_running o running (stays o running)) refl refl
  Issues-Proceeds o f u (claims_stale c sort) d h =
      moves o (stale_entries m c.now c.worker_switch_timeout c.excluded) (fields_of c) "running" d h
        refl refl refl running (from_running o running (stays o running)) refl refl
  Issues-Proceeds o f u (claims_expired c id none) d h =
      moves o (expired_entries m id none c.excluded c.now c.worker_switch_timeout) (fields_of c)
        "running" d h refl refl refl running (from_running o running (stays o running)) refl refl
  Issues-Proceeds o f u (claims_expired c id (some task_id)) d h =
      moves o (expired_entries m id (some task_id) c.excluded c.now c.worker_switch_timeout)
        (fields_of c) "running" d h refl refl refl running
        (from_running o running (stays o running)) refl refl
  Issues-Proceeds o f u (beats now task worker token) d h =
      rests o (claim_entries m task worker token)
        (("worker_state.heartbeat_at", b.date_time now) ∷ []) "running" d h refl refl refl refl refl
  Issues-Proceeds o f u (fails reason now at task worker token) d h =
      moves o (claim_entries m task worker token) (failed_fields m reason now at) "running" d h refl
        refl refl failed (from_running o failed (aborted reason now at task worker token)) refl refl
  Issues-Proceeds o f u (finishes output now at task worker token) d h =
      moves o (claim_entries m task worker token) (succeeded_fields m output now at) "running" d h
        refl refl refl succeeded
        (from_running o succeeded (completed output now at task worker token)) refl refl

  -- Whatever one operation of a caller or a worker does, and whether it succeeds or fails, each document
  -- stays in its place, keeps its task id, and its status makes at most one step that this operation has.
  pub perform-Proceeds :
      (o : Operation m) (db : Db) (i : ℕ) (d : Document)
      → get_elem? (contents db) i ≡ some d
      → (d' : Document) × (get_elem? (contents (perform m o db)) i ≡ some d') × Proceeds o d d'
  perform-Proceeds o db =
      perform-Relates m (Proceeds o) (Proceeds-refl o) o db
        (λ f u w d h. Issues-Proceeds o f u w d h)

  -- Any sequence of operations of callers and workers, each of which may fail, keeps each document in its
  -- place, and takes its status along one step for each operation: a claim for ready tasks may take it from
  -- pending to running, a completion from running to succeeded, a failure from running to failed, an enqueue
  -- whose resets are allowed from succeeded or failed to pending, and nothing else changes it.
  pub perform_all-Reaches :
      (os : List (Operation m)) (db : Db) (i : ℕ) (d : Document) (s : Status)
      → get_elem? (contents db) i ≡ some d
      → HasStatus m s d
      → (d' : Document) × (s' : Status) × (get_elem? (contents (perform_all m os db)) i ≡ some d')
        × HasStatus m s' d'
        × Reaches m os s s'
  unfolding perform_all
  perform_all-Reaches [] db i d s h g = (d, s, h, g, here s)
  perform_all-Reaches (o ∷ os) db i d s h g =
      let (d1, h1, p) = perform-Proceeds o db i d h in
      let (s1, g1, n) = p.status s g in
      let (d', s', h', g', r) = perform_all-Reaches os (perform m o db) i d1 s1 h1 g1 in
      (d', s', h', g', next o os s s1 s' n r)

-- ===== src/Worker/Claim/Exclusion.antt =====
-- src/worker.rs: what a claim takes, and the tasks that the worker has in flight.
use getitdone.Prelude.{
  ℕ, ◌≡◌, refl, ◌∙◌, sym, String, true, false, Option, some, List, ◌∷◌, ◌++◌, string_eq, nat_eq,
  All, arith, contains,
}
use getitdone.Prelude.Int.{ℤ}
use getitdone.Errors.{ok}
use getitdone.Bson.Crate.{BsonCrate}
use getitdone.Bson.Document.{doc, last_value, get-doc}
use getitdone.Mongo.Paths.{split_dot, field_path}
use getitdone.Mongo.Server.{MongoServer}
use getitdone.Mongo.Atomic.{holds_of_matches, set_field, keep_field}
use getitdone.Worker.Lease.Fencing.{HasToken}
use getitdone.Worker.Claim.Loop.{Claims, claim_first-some}
use getitdone.Worker.Claim.{
  ClaimMode, ready, stale_recovery, not_in, claim_state, claim_fields, claim_update, stale_entries,
  pending_entries, own_entries, claim_filter_attempts, claim_next_task,
}

module _ ⦃b : BsonCrate⦄ (m : MongoServer b) where
  open b use {Bson, Document, ObjectId, string, document, get}
  open m use {Db, contents, matches, applied, holds}

  -- The filter excludes the listed task ids.
  abbrev pub Excludes : List String → List (String × Bson) → Type 0
  Excludes excluded es =
      (d : Document) (t : String)
      → matches (doc es) d ≡ true
      → get "task_id" d ≡ some (string t)
      → contains excluded t ≡ false

  pub Excludes-of_entry :
      (excluded : List String) (es : List (String × Bson))
      → last_value "task_id" es ≡ some (not_in m excluded)
      → Excludes excluded es
  unfolding split_dot field_path nat_eq
  Excludes-of_entry excluded es e d t h g = ground (
    arith,
    holds_of_matches m "task_id" (not_in m excluded) es d h e,
    m.holds-nin "task_id" t excluded d refl refl g,
  )

  pub claim_filter_attempts-Excludes :
      (mode : ClaimMode) (worker_id : String) (timeout : ℕ) (excluded : List String)
      (sort : Option Document) (now : ℤ)
      → All
          (λ a. Excludes excluded a.0)
          (claim_filter_attempts m mode worker_id timeout excluded sort now)
  unfolding claim_filter_attempts pending_entries own_entries stale_entries string_eq
  claim_filter_attempts-Excludes ready worker_id timeout excluded sort now = (
    Excludes-of_entry excluded (pending_entries m excluded) refl,
    (Excludes-of_entry excluded (own_entries m worker_id excluded) refl, tt),
  )
  claim_filter_attempts-Excludes stale_recovery worker_id timeout excluded sort now =
      (Excludes-of_entry excluded (stale_entries m now timeout excluded) refl, tt)

  -- What the update of a claim leaves: a running task under the claim's token, with its task id.
  pub record IsClaimed (token : String) (old task : Document) : Type 0 where
    pub running : get "status" task ≡ some (string "running")
    pub token_held : HasToken m token task
    pub id_kept : get "task_id" task ≡ get "task_id" old

  claim_update-IsClaimed :
      (worker_id token : String) (at : ℤ) (timeout : ℕ) (old : Document)
      → IsClaimed token old (applied (claim_update m worker_id token at timeout) old)
  unfolding claim_update claim_fields string_eq split_dot nat_eq
  claim_update-IsClaimed worker_id token at timeout old = record {
    running = set_field m "status" _ (claim_fields m worker_id token at timeout) old refl refl refl;
    token_held = record {
      state = doc (claim_state m worker_id token at timeout);
      stated =
          set_field m "worker_state" _ (claim_fields m worker_id token at timeout) old refl refl
            refl;
      token_kept = get-doc "claim_token" (claim_state m worker_id token at timeout);
    };
    id_kept = keep_field m "task_id" (claim_fields m worker_id token at timeout) old refl refl refl;
  }

  -- A claimed task was not excluded, and is held under the token of the claim.
  pub record IsFresh (excluded : List String) (token : String) (before after : List Document)
      (task : Document) : Type 0 where
    pub front : List Document
    pub back : List Document
    pub old : Document
    pub was : before ≡ front ++ old ∷ back
    pub now : after ≡ front ++ task ∷ back
    pub claimed : IsClaimed token old task
    pub not_excluded :
        (t : String) → get "task_id" task ≡ some (string t) → contains excluded t ≡ false

  pub IsFresh-of_Claims :
      (es : List (String × Bson)) (excluded : List String) (worker_id token : String) (at : ℤ)
      (timeout : ℕ) (before after : List Document) (task : Document)
      → Excludes excluded es
      → Claims m es (claim_update m worker_id token at timeout) before after task
      → IsFresh excluded token before after task
  IsFresh-of_Claims es excluded worker_id token at timeout before after task x w =
      let c : IsClaimed token w.old task =
        rw w.claimed (claim_update-IsClaimed worker_id token at timeout w.old) in
      record {
        front = w.front;
        back = w.back;
        old = w.old;
        was = w.was;
        now = w.now;
        claimed = c;
        not_excluded = λ t g. x w.old t w.selected (sym c.id_kept ∙ g);
      }

  -- A claim never takes a task that is excluded, and changes the one document that it takes.
  pub claim_next_task-IsFresh :
      (worker_id : String) (timeout : ℕ) (excluded : List String) (mode : ClaimMode)
      (sort : Option Document) (token : String) (now at : ℤ) (db : Db) (task : Document)
      → (claim_next_task m worker_id timeout excluded mode sort token now at db).0 ≡ ok (some task)
      → IsFresh excluded token
          (contents db)
          (contents (claim_next_task m worker_id timeout excluded mode sort token now at db).1)
          task
  unfolding claim_next_task
  claim_next_task-IsFresh worker_id timeout excluded mode sort token now at db task h =
      let (es, x, w) =
        claim_first-some m (Excludes excluded)
          (claim_filter_attempts m mode worker_id timeout excluded sort now)
          (claim_update m worker_id token at timeout) db task
          (claim_filter_attempts-Excludes mode worker_id timeout excluded sort now) h in
      IsFresh-of_Claims es excluded worker_id token at timeout _ _ task x w

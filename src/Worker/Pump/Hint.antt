-- ===== src/Worker/Pump/Hint.antt =====
-- src/worker.rs: when `pump_available_tasks` takes back the hint that pending work may exist.
use getitdone.Prelude.{
  subst, ◌-◌, ◌≡◌, ◌∙◌, refl, ap, sym, String, true, false, Option, none, some, List, [], ◌∷◌,
  contains, ◌==◌, not, nat_eq, string_eq, arith, Bool-cases, inl, inr, All, Option-cases, ◌⊎◌,
  if_both,
}
use mathlib.Core.Option.{some-injective}
use getitdone.Prelude.Sets.{contains-discard}
use getitdone.Errors.{RequestError, Result, ok, Result-cases}
use getitdone.Bson.Crate.{BsonCrate}
use getitdone.Bson.Document.{doc}
use getitdone.Mongo.Paths.{split_dot, field_path}
use getitdone.Mongo.Server.{MongoServer}
use getitdone.Mongo.Filters.{matches-two}
use getitdone.Expiry.Documents.Hint.{IsHinted, schedule-IsHinted}
use getitdone.Worker.Claim.{
  ready, claim_interleaved, claim_filter_attempts, claim_update, pending_entries,
}
use getitdone.Worker.Claim.Interleaved.{claim_interleaved-unselected}
use getitdone.Worker.Pump.Tracking.{resume-tracker}
use getitdone.Worker.InFlight.{snapshot, remove_task}
use getitdone.Worker.Pump.{
  Process, Await, Settings, end_job, end_jobs, resume, drop_permit, clear_hint, spawn_claimed_task,
  start_claimed, after_claim, round, pump_available_tasks,
}

module _ ⦃b : BsonCrate⦄ (m : MongoServer b) where
  open b use {Bson, Document, string, get}
  open m use {Db, contents, matches}

  -- A task that was in flight still is, or its job has ended.
  end_jobs-held :
      (t : String) (ids : List String) (p : Process m)
      → contains p.in_flight.task_ids t ≡ true
      → (contains (end_jobs m ids p).in_flight.task_ids t ≡ true) ⊎ (contains ids t ≡ true)
  unfolding end_jobs end_job remove_task
  end_jobs-held t [] p h = inl h
  end_jobs-held t (id ∷ ids) p h = elim (Bool-cases (id == t)) [
    | inl same ↦ inr (rw same)
    | inr other ↦
        elim (end_jobs-held t ids (end_job m id p)
          (ground (arith, contains-discard t id p.in_flight.task_ids))) [
            | inl held ↦ inl held
            | inr ended ↦ inr (rw other ended)
          ]
  ]

  start_claimed-IsHinted :
      (s : Settings m) (task : Document) (p : Process m)
      → IsHinted p.expiry_tracker
      → IsHinted (start_claimed m s task p).expiry_tracker
  unfolding start_claimed spawn_claimed_task drop_permit
  start_claimed-IsHinted s task p h =
      if_both (λ (q : Process m). IsHinted q.expiry_tracker) _ (schedule-IsHinted task _ _ h)
        (schedule-IsHinted task _ _ h)

  -- What the filter for pending tasks does not select, though it is pending, was excluded.
  excluded_of_unselected :
      (excluded : List String) (d : Document) (t : String)
      → matches (doc (pending_entries m excluded)) d ≡ false
      → get "status" d ≡ some (string "pending")
      → get "task_id" d ≡ some (string t)
      → contains excluded t ≡ true
  unfolding pending_entries split_dot field_path nat_eq string_eq
  excluded_of_unselected excluded d t u g k = elim (Bool-cases (contains excluded t)) [
    | inl y ↦ y
    | inr n ↦
        let selected : matches (doc (pending_entries m excluded)) d ≡ true =
          matches-two m "status" "task_id" _ _ d
            (m.holds-string "status" "pending" d refl
              ∙ m.reaches-plain "status" "pending" "pending" d refl g)
            (m.holds-nin "task_id" t excluded d refl refl k ∙ ap not n) in
        absurd (cc (sym selected ∙ u))
  ]

  -- What is pending in a collection is in flight, or is a task whose job has just ended.
  abbrev pub Held : List String → Process m → List Document → Type 0
  Held ended q = All (λ d.
      (t : String)
      → get "status" d ≡ some (string "pending")
      → get "task_id" d ≡ some (string t)
      → (contains q.in_flight.task_ids t ≡ true) ⊎ (contains ended t ≡ true))

  All-map :
      (P Q : Document → Type 0) (ds : List Document)
      → ((d : Document) → P d → Q d)
      → All P ds
      → All Q ds
  All-map P Q [] f a = tt
  All-map P Q (d ∷ ds) f (h, hs) = (f d h, All-map P Q ds f hs)

  module _ (s : Settings m) (sort : Option Document) where
    -- The process while the claim of a round is awaited, as its first call finds it.
    abbrev pub awaited : Await m → Process m → Process m
    awaited a p = resume m a (record p { available_permits = p.available_permits - 1 })

    -- The rounds that went on, up to the start of another one.
    pub data Rounds : List (Await m) → Process m → Await m → Process m → Type 0 where
      here :
          {a : Await m} {awaits : List (Await m)} {p : Process m}
          → (p.available_permits == 0) ≡ false
          → Rounds (a ∷ awaits) p a p
      next :
          {a last : Await m} {awaits : List (Await m)} {p before : Process m}
          → (p.available_permits == 0) ≡ false
          → (round m s ready sort a p).0 ≡ true
          → Rounds awaits (round m s ready sort a p).1 last before
          → Rounds (a ∷ awaits) p last before

    -- A last round, whose claim has found nothing that is pending and free.
    pub record Settled (awaits : List (Await m)) (p q : Process m) : Type 0 where
      pub last : Await m
      pub before : Process m
      pub rounds : Rounds awaits p last before
      pub ends : round m s ready sort last before ≡ (false, q)
      pub held : Held last.ended q (contents (awaited last before).collection)

    module _ (a : Await m) (p : Process m) where
      abbrev claim : Result RequestError (Option Document) × Db
      claim =
          claim_interleaved m
            (claim_filter_attempts m ready s.worker_id s.worker_switch_timeout
              (snapshot p.in_flight) sort a.now)
            (claim_update m s.worker_id a.claim_token a.claim_started_at s.worker_switch_timeout)
            a.between (awaited a p).collection

      awaited-held :
          (t : String)
          → contains p.in_flight.task_ids t ≡ true
          → (contains (awaited a p).in_flight.task_ids t ≡ true) ⊎ (contains a.ended t ≡ true)
      unfolding resume
      awaited-held t h =
          end_jobs-held t a.ended (record p { available_permits = p.available_permits - 1 }) h

      -- A claim that has found nothing.
      claim-unselected :
          claim.0 ≡ ok none
          → All
              (λ d. matches (doc (pending_entries m p.in_flight.task_ids)) d ≡ false)
              (contents (awaited a p).collection)
      unfolding claim_filter_attempts snapshot
      claim-unselected h = claim_interleaved-unselected m _ a.between _ _ _ _ h

      -- A round that goes on has kept the hint.
      round-IsHinted :
          (round m s ready sort a p).0 ≡ true
          → IsHinted p.expiry_tracker
          → IsHinted (round m s ready sort a p).1.expiry_tracker
      unfolding round after_claim
      round-IsHinted more h = elim (Result-cases claim.0) [
        | inr (e, g) ↦ absurd (cc (rw g at more))
        | inl (o, g) ↦ elim (Option-cases o) [
          | inl n ↦ absurd (cc (rw (g, n) at more))
          | inr (task, n) ↦
              rw (g, n)
                (start_claimed-IsHinted s task (record (awaited a p) { collection = claim.1 })
                  (rw
                    (resume-tracker m a (record p { available_permits = p.available_permits - 1 }))
                    h))
        ]
      ]

      -- A round that has taken the hint back has left nothing to claim.
      round-Held :
          (round m s ready sort a p).0 ≡ false
          → IsHinted p.expiry_tracker
          → (round m s ready sort a p).1.expiry_tracker.pending_may_exist ≡ false
          → Held a.ended (round m s ready sort a p).1 (contents (awaited a p).collection)
      unfolding round after_claim drop_permit clear_hint
      round-Held last h gone = elim (Result-cases claim.0) [
        | inr (e, g) ↦
            let kept : IsHinted (awaited a p).expiry_tracker =
              rw (resume-tracker m a (record p { available_permits = p.available_permits - 1 }))
                h in
            absurd (cc (sym kept ∙ rw g at gone))
        | inl (o, g) ↦ elim (Option-cases o) [
          | inr (task, n) ↦ absurd (cc (rw (g, n) at last))
          | inl n ↦
              rw (g, n)
                (All-map _ _ (contents (awaited a p).collection)
                  (λ d u t status named.
                    awaited-held t (excluded_of_unselected p.in_flight.task_ids d t u status named))
                  (claim-unselected (g ∙ ap ok n)))
        ]
      ]

    pub pump_available_tasks-Settled :
        (awaits : List (Await m)) (p q : Process m)
        → pump_available_tasks m s ready sort awaits p ≡ some q
        → p.expiry_tracker.pending_may_exist ≡ true
        → q.expiry_tracker.pending_may_exist ≡ false
        → Settled awaits p q
    unfolding pump_available_tasks
    pump_available_tasks-Settled [] p q e h gone = absurd (ground arith)
    pump_available_tasks-Settled (a ∷ awaits) p q e h gone =
        elim (Bool-cases (p.available_permits == 0)) [
          | inl z ↦
              let same : p ≡ q = some-injective p q (rw (z, pump_available_tasks) at e) in
              absurd (
                cc (
                  sym h
                  ∙ subst (λ (x : Process m). x.expiry_tracker.pending_may_exist ≡ false) (sym same)
                      gone))
          | inr z ↦ elim (Bool-cases (round m s ready sort a p).0) [
            | inl more ↦
                let later : Settled awaits (round m s ready sort a p).1 q =
                  pump_available_tasks-Settled awaits (round m s ready sort a p).1 q
                    (rw (z, pump_available_tasks, more) at e) (round-IsHinted a p more h) gone in
                record {
                  last = later.last;
                  before = later.before;
                  rounds = next z more later.rounds;
                  ends = later.ends;
                  held = later.held;
                }
            | inr last ↦
                let same : (round m s ready sort a p).1 ≡ q =
                  some-injective _ q (rw (z, pump_available_tasks, last) at e) in
                record {
                  last = a;
                  before = p;
                  rounds = here z;
                  ends =
                      ap (λ x. (x, (round m s ready sort a p).1)) last
                      ∙ ap (λ (x : Process m). (false, x)) same;
                  held =
                      subst (λ (x : Process m). Held a.ended x (contents (awaited a p).collection))
                        same
                        (round-Held a p last h (
                          subst (λ (x : Process m). x.expiry_tracker.pending_may_exist ≡ false)
                            (sym same) gone));
                }
          ]
        ]

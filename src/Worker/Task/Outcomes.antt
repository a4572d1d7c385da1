-- ===== src/Worker/Task/Outcomes.antt =====
-- src/worker.rs: what the end of `process_task` says of the handler and of the collection.
use getitdone.Prelude.{
  ◌≡◌, ◌∙◌, String, Bool, some, List, [], ◌∷◌, Option-cases, inl, inr, Bool-cases, string_eq,
}
use getitdone.Errors.{ok, Result-cases}
use getitdone.Bson.Crate.{BsonCrate}
use getitdone.Bson.Document.{get_str}
use getitdone.Mongo.Server.{MongoServer}
use getitdone.Mongo.Atomic.{Replaced}
use getitdone.Worker.Lease.{classify_heartbeat_result, heartbeat}
use getitdone.Worker.Lease.Outcomes.{Claimed, Unclaimed, complete_done, heartbeat_answer}
use getitdone.Worker.Task.{
  Moment, HandlerCode, lost, claim_token_of, after_beat, heartbeat_loop, payload_of, setup, owned,
  trace_context_of, finish, aborts, run_handler, process_named, process_task,
}

module _ ⦃b : BsonCrate⦄ (m : MongoServer b) where
  open b use {Bson, Document, string, get}
  open m use {Db, contents}

  module _ (task worker token : String) where
    -- The loop signals that the claim is lost only where no document of the collection is held by it: an
    -- error of the database is never taken for a loss.
    pub heartbeat_loop-lost :
        (ticks : List (Moment m)) (db : Db)
        → (heartbeat_loop m task worker token ticks db).0 ≡ lost
        → Unclaimed m task worker token (heartbeat_loop m task worker token ticks db).1
    unfolding heartbeat_loop after_beat classify_heartbeat_result
    heartbeat_loop-lost [] db h = absurd (cc)
    heartbeat_loop-lost (t ∷ ticks) db h =
        elim (Result-cases (heartbeat m task worker token t.now (t.others db)).0) [
          | inr (e, g) ↦ absurd (cc (rw (g, heartbeat_loop) at h))
          | inl (held, g) ↦ elim (Bool-cases held) [
            | inl y ↦ rw (g, y) (heartbeat_loop-lost ticks _ (rw (g, y) at h))
            | inr n ↦ elim (heartbeat_answer m task worker token (t.others db) t.now held g) [
              | inl (z, same, unclaimed) ↦ rw (g, n) (rw same unclaimed)
              | inr (z, w) ↦ absurd (cc)
            ]
          ]
        ]

  -- The collection at the end of a task that a handler has run for.
  abbrev at_end :
      HandlerCode m → Document → String → String → Moment m → List (Moment m) → Moment m → Db → Db
  at_end c d task worker first ticks last db =
      last.others
        (heartbeat_loop m task worker (claim_token_of m d) ticks
          (setup m task worker (claim_token_of m d) c d first db).1).1

  -- The stored success of a task: its handler has returned an output, and one document that the claim
  -- held now says `succeeded` and has that output, as it was serialized.
  pub record IsDone (c : HandlerCode m) (d : Document) (worker : String) (first : Moment m)
      (ticks : List (Moment m)) (last : Moment m) (db after : Db) : Type 0 where
    pub task_id : String
    pub payload : c.TInput
    pub output : c.TOutput
    pub bson : Bson
    pub named : get_str "task_id" d ≡ some task_id
    pub given : payload_of m task_id worker (claim_token_of m d) c d ≡ some payload
    pub handled :
        c.handler
          (record { task_id = task_id; trace_context = trace_context_of m d; payload = payload })
        ≡ ok output
    pub serialized : c.serialize_to_bson output ≡ some bson
    pub stored :
        Replaced
          (Claimed m task_id worker (claim_token_of m d))
          (λ d'. (get "status" d' ≡ some (string "succeeded")) × (get "task_output" d' ≡ some bson))
          (contents (at_end c d task_id worker first ticks last db))
          (contents after)

  module _ (c : HandlerCode m) (d : Document) (worker : String) (first : Moment m)
      (ticks : List (Moment m)) (handler_first : Bool) (last : Moment m) (db : Db) where
    abbrev token : String
    token = claim_token_of m d

    setup-payload :
        (task : String) (payload : c.TInput)
        → (setup m task worker token c d first db).0 ≡ ok payload
        → payload_of m task worker token c d ≡ some payload
    unfolding setup owned
    setup-payload task payload h = elim (Option-cases (payload_of m task worker token c d)) [
      | inl n ↦ absurd (cc (rw (n, setup) at h))
      | inr (x, n) ↦
          elim (Result-cases (heartbeat m task worker token first.now (first.others db)).0) [
            | inr (e, g) ↦ absurd (cc (rw (n, setup, g) at h))
            | inl (held, g) ↦ elim (Bool-cases held) [
              | inl y ↦ n ∙ cc (rw (n, setup, g, y) at h)
              | inr y ↦ absurd (cc (rw (n, setup, g, y) at h))
            ]
          ]
    ]

    finish-IsDone :
        (task : String) (payload : c.TInput)
        → get_str "task_id" d ≡ some task
        → payload_of m task worker token c d ≡ some payload
        → let seen =
            (heartbeat_loop m task worker token ticks
              (setup m task worker token c d first db).1).1 in
          let end =
            finish m task worker token c
              (c.handler (record {
                task_id = task;
                trace_context = trace_context_of m d;
                payload = payload;
              }))
              last
              seen in
          end.0 ≡ ok tt → IsDone c d worker first ticks last db end.1
    unfolding finish
    finish-IsDone task payload named given h =
        elim (Result-cases (
          c.handler
            (record { task_id = task; trace_context = trace_context_of m d; payload = payload }))) [
              | inr (e, g) ↦ absurd (cc (rw (g, finish) at h))
              | inl (output, g) ↦ elim (Option-cases (c.serialize_to_bson output)) [
                | inl n ↦ absurd (cc (rw (g, finish, n) at h))
                | inr (bson, n) ↦
                    rw (g, finish, n)
                      (record {
                        task_id = task;
                        payload = payload;
                        output = output;
                        bson = bson;
                        named = named;
                        given = given;
                        handled = g;
                        serialized = n;
                        stored =
                            complete_done m task worker token
                              (at_end c d task worker first ticks last db) bson last.now
                              last.finished_at (rw (g, finish, n) at h);
                      })
              ]
            ]

    -- `process_task` ends with `Ok` only where its handler has succeeded on the deserialized input and
    -- the output is stored in a document that the claim held.
    pub process_task-IsDone :
        (process_task m c d worker first ticks handler_first last db).0 ≡ ok tt
        → IsDone c d worker first ticks last db
            (process_task m c d worker first ticks handler_first last db).1
    unfolding process_task process_named run_handler
    process_task-IsDone h = elim (Option-cases (get_str "task_id" d)) [
      | inl n ↦ absurd (cc (rw (n, process_task) at h))
      | inr (task, n) ↦ elim (Result-cases (setup m task worker token c d first db).0) [
        | inr (e, g) ↦ absurd (cc (rw (n, process_task, g, process_named) at h))
        | inl (payload, g) ↦
            elim (Bool-cases (
              aborts m task worker token c
                (heartbeat_loop m task worker token ticks
                  (setup m task worker token c d first db).1).0
                handler_first)) [
                  | inl y ↦ absurd (cc (rw (n, process_task, g, process_named, y) at h))
                  | inr y ↦
                      rw (n, process_task, g, process_named, y)
                        (finish-IsDone task payload n (setup-payload task payload g)
                          (rw (n, process_task, g, process_named, y) at h))
                ]
      ]
    ]

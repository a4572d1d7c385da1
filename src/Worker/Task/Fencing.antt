-- ===== src/Worker/Task/Fencing.antt =====
-- src/worker.rs: the writes of `process_task`, and the claim token of its document.
use getitdone.Prelude.{
  Option, ℕ, ◌≡◌, ◌≢◌, String, Bool, some, List, [], ◌∷◌, get_elem?, All, Option-cases, inl, inr,
  if_both,
}
use getitdone.Errors.{
  RequestError, duplicate, timeout, worker_gone, worker_timeout, payload_format, task_failed,
  database, Result, ok, err, Result-cases,
}
use getitdone.Bson.Crate.{BsonCrate}
use getitdone.Bson.Document.{get_str}
use getitdone.Trace.{TraceContext}
use getitdone.Mongo.Server.{MongoServer}
use getitdone.Worker.Lease.{
  classify_heartbeat_result, heartbeat, HeartbeatOutcome, alive, superseded, transient_error,
}
use getitdone.Worker.Lease.Fencing.{
  HasToken, LeaseWrite, beat, fail, finish as finish_write, written, written_fenced,
}
use getitdone.Worker.Task.{
  Moment, HandlerCode, Heartbeats, claim_token_of, trace_context_of, after_beat, heartbeat_loop,
  payload_of, setup, fail_task, setup_failed, finish, run_handler, process_named, process_task,
}

module _ ⦃b : BsonCrate⦄ (m : MongoServer b) (current : String) (i : ℕ) (d : b.Document)
    (held : HasToken m current d) where
  open b use {Bson, Document, get}
  open m use {Db, contents}

  -- The document stands at its place in the collection.
  abbrev pub Stands : Db → Type 0
  Stands db = get_elem? (contents db) i ≡ some d

  -- What the others do leaves it there.
  abbrev pub Spares : Moment m → Type 0
  Spares t = (db : Db) → Stands db → Stands (t.others db)

  module _ (task worker token : String) (other : current ≢ token) where
    write-Stands :
        (w : LeaseWrite m) (db : Db) → Stands db → Stands (written m w task worker token db)
    write-Stands w db h = written_fenced m w task worker token current db i d held other h

    after-Stands :
        (r : HeartbeatOutcome) (a : Heartbeats × Db) (db : Db)
        → Stands a.1
        → Stands db
        → Stands (after_beat m task worker token r a db).1
    unfolding after_beat
    after-Stands alive a db h g = h
    after-Stands superseded a db h g = g
    after-Stands transient_error a db h g = g

    heartbeat_loop-Stands :
        (ticks : List (Moment m)) (db : Db)
        → All Spares ticks
        → Stands db
        → Stands (heartbeat_loop m task worker token ticks db).1
    unfolding heartbeat_loop written
    heartbeat_loop-Stands [] db sp h = h
    heartbeat_loop-Stands (t ∷ ticks) db sp h =
        let g : Stands (heartbeat m task worker token t.now (t.others db)).1 =
          write-Stands (beat t.now) (t.others db) (sp.0 db h) in
        after-Stands
          (classify_heartbeat_result (heartbeat m task worker token t.now (t.others db)).0) _ _
          (heartbeat_loop-Stands ticks _ sp.1 g) g

    module _ (c : HandlerCode m) where
      setup-Stands :
          (doc : Document) (t : Moment m) (db : Db)
          → Spares t
          → Stands db
          → Stands (setup m task worker token c doc t db).1
      unfolding setup written
      setup-Stands doc t db sp h = elim (Option-cases (payload_of m task worker token c doc)) [
        | inl n ↦ rw (n, setup) h
        | inr (payload, n) ↦ rw (n, setup) (write-Stands (beat t.now) (t.others db) (sp db h))
      ]

      fail_task-Stands :
          (what : String) (e : RequestError) (t : Moment m) (db : Db)
          → Spares t
          → Stands db
          → Stands (fail_task m task worker token c what e t db)
      unfolding fail_task written
      fail_task-Stands what e t db sp h =
          write-Stands (fail _ t.now t.finished_at) (t.others db) (sp db h)

      setup_failed-Stands :
          (e : RequestError) (t : Moment m) (db : Db)
          → Spares t
          → Stands db
          → Stands (setup_failed m task worker token c e t db)
      unfolding setup_failed
      setup_failed-Stands worker_gone t db sp h = h
      setup_failed-Stands (duplicate id) t db sp h = fail_task-Stands _ (duplicate id) t db sp h
      setup_failed-Stands timeout t db sp h = fail_task-Stands _ timeout t db sp h
      setup_failed-Stands worker_timeout t db sp h = fail_task-Stands _ worker_timeout t db sp h
      setup_failed-Stands (payload_format f) t db sp h =
          fail_task-Stands _ (payload_format f) t db sp h
      setup_failed-Stands (task_failed r) t db sp h = fail_task-Stands _ (task_failed r) t db sp h
      setup_failed-Stands (database x) t db sp h = fail_task-Stands _ (database x) t db sp h

      finish-Stands :
          (r : Result RequestError c.TOutput) (t : Moment m) (db : Db)
          → Spares t
          → Stands db
          → Stands (finish m task worker token c r t db).1
      unfolding finish written
      finish-Stands (err e) t db sp h = fail_task-Stands _ e t db sp h
      finish-Stands (ok output) t db sp h = elim (Option-cases (c.serialize_to_bson output)) [
        | inl n ↦ rw (n, finish) h
        | inr (bson, n) ↦
            rw (n, finish)
              (write-Stands (finish_write bson t.now t.finished_at) (t.others db) (sp db h))
      ]

      run_handler-Stands :
          (payload : c.TInput) (trace : Option TraceContext) (ticks : List (Moment m))
          (handler_first : Bool) (last : Moment m) (db : Db)
          → All Spares ticks
          → Spares last
          → Stands db
          → Stands (run_handler m task worker token c payload trace ticks handler_first last db).1
      unfolding run_handler
      run_handler-Stands payload trace ticks handler_first last db sp sl h =
          if_both (λ (r : Result RequestError Unit × Db). Stands r.1) _
            (heartbeat_loop-Stands ticks db sp h)
            (finish-Stands _ last _ sl (heartbeat_loop-Stands ticks db sp h))

      process_named-Stands :
          (doc : Document) (first : Moment m) (ticks : List (Moment m)) (handler_first : Bool)
          (last : Moment m) (db : Db)
          → Spares first
          → All Spares ticks
          → Spares last
          → Stands db
          → Stands (process_named m task worker token c doc first ticks handler_first last db).1
      unfolding process_named
      process_named-Stands doc first ticks handler_first last db sf sp sl h =
          elim (Result-cases (setup m task worker token c doc first db).0) [
            | inl (payload, e) ↦
                rw (e, process_named)
                  (run_handler-Stands payload (trace_context_of m doc) ticks handler_first last _ sp
                    sl (setup-Stands doc first db sf h))
            | inr (r, e) ↦
                rw (e, process_named)
                  (setup_failed-Stands r last _ sl (setup-Stands doc first db sf h))
          ]

  -- Whatever its handler does and however its heartbeats go, `process_task` leaves a document that is
  -- held under another claim token than its own as it was, where the others leave it.
  pub process_task_fenced :
      (c : HandlerCode m) (doc : Document) (worker : String) (first : Moment m)
      (ticks : List (Moment m)) (handler_first : Bool) (last : Moment m) (db : Db)
      → current ≢ claim_token_of m doc
      → Spares first
      → All Spares ticks
      → Spares last
      → Stands db
      → Stands (process_task m c doc worker first ticks handler_first last db).1
  unfolding process_task
  process_task_fenced c doc worker first ticks handler_first last db other sf sp sl h =
      elim (Option-cases (get_str "task_id" doc)) [
        | inl n ↦ rw (n, process_task) h
        | inr (task, n) ↦
            rw (n, process_task)
              (process_named-Stands task worker (claim_token_of m doc) other c doc first ticks
                handler_first last db sf sp sl h)
      ]

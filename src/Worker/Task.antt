-- ===== src/Worker/Task.antt =====
-- src/worker.rs: `process_task`, which runs the handler of a claimed task, and the loop of
-- `start_heartbeat_loop` beside it. Deserialization, the handler and serialization are parameters. The
-- instants are arguments, with what everyone else does to the collection before each write.
pub mod Fencing
pub mod Outcomes
use Prim.Native.String.{◌++◌ as ◌<>◌}
use getitdone.Prelude.{
  ℕ, ◌/◌, String, Bool, true, false, Option, none, some, List, [], ◌∷◌, if◌then◌else◌,
}
use getitdone.Prelude.Int.{ℤ}
use getitdone.Errors.{
  RequestError, duplicate, timeout, worker_gone, worker_timeout, payload_format, task_failed,
  database, to_string, Result, ok, err,
}
use getitdone.Config.{unwrap_or}
use getitdone.Bson.Crate.{BsonCrate}
use getitdone.Bson.Document.{get_str, get_document, ◌>>=◌}
use getitdone.Mongo.Server.{MongoServer}
use getitdone.Trace.{TraceContext}
use getitdone.Worker.Lease.{
  HeartbeatOutcome, alive, superseded, transient_error, classify_heartbeat_result, heartbeat,
  mark_task_failed, complete,
}

pub record WorkerJob (TInput : Type 0) : Type 0 where
  pub task_id : String
  pub trace_context : Option TraceContext
  pub payload : TInput

-- How the loop of the heartbeats stands: it runs, it has signalled that the claim is lost, or it has
-- given up without a signal.
pub data Heartbeats : Type 0 where
  running lost given_up : Heartbeats

-- A third of the timeout, in nanoseconds.
unfoldable pub heartbeat_interval : ℕ → ℕ
heartbeat_interval worker_switch_timeout = worker_switch_timeout / 3

module _ ⦃b : BsonCrate⦄ (m : MongoServer b) where
  open b use {Bson, Document, get, is_null, deserialize_trace_context}
  open m use {Db}

  -- An instant at which the task writes, after what others do.
  pub record Moment : Type 0 where
    pub others : Db → Db
    pub now : ℤ
    pub finished_at : ℤ

  pub record HandlerCode : Type 1 where
    pub TInput : Type 0
    pub TOutput : Type 0
    pub deserialize_from_bson : Bson → Option TInput
    pub serialize_to_bson : TOutput → Option Bson
    pub handler : WorkerJob TInput → Result RequestError TOutput

  unfoldable pub claim_token_of : Document → String
  claim_token_of d = unwrap_or "" (get_document "worker_state" d >>= get_str "claim_token")

  -- The context of the caller, without which the task runs too.
  unfoldable pub trace_context_of : Document → Option TraceContext
  trace_context_of d =
      get "trace_context" d >>= λ raw. if is_null raw then none else deserialize_trace_context raw

  module _ (task_id worker_id claim_token : String) where
    -- What the loop does with the outcome of one beat: it goes on with the rest, signals, or stops.
    unfoldable pub after_beat : HeartbeatOutcome → Heartbeats × Db → Db → Heartbeats × Db
    after_beat alive rest db = rest
    after_beat superseded rest db = (lost, db)
    after_beat transient_error rest db = (given_up, db)

    -- The beats of `start_heartbeat_loop` at these ticks.
    unfoldable pub heartbeat_loop : List Moment → Db → Heartbeats × Db
    unfolding after_beat
    heartbeat_loop [] db = (running, db)
    heartbeat_loop (t ∷ ticks) db =
        let (result, db') = heartbeat m task_id worker_id claim_token t.now (t.others db) in
        let rest = heartbeat_loop ticks db' in
        after_beat (classify_heartbeat_result result) rest db'

    module _ (h : HandlerCode) where
      open h use {TInput, TOutput, deserialize_from_bson, serialize_to_bson, handler}

      -- `?` on the heartbeat, and the test of its answer.
      unfoldable pub owned : TInput → Result RequestError Bool → Result RequestError TInput
      owned payload (err e) = err e
      owned payload (ok held) = if held then ok payload else err worker_gone

      unfoldable pub payload_of : Document → Option TInput
      payload_of d = get "task_input" d >>= deserialize_from_bson

      -- `setup_result`
      unfoldable pub setup : Document → Moment → Db → Result RequestError TInput × Db
      unfolding owned payload_of
      setup d t db = elim (payload_of d) [
        | none ↦ (err (payload_format "task_input"), db)
        | some payload ↦
            let (result, db') = heartbeat m task_id worker_id claim_token t.now (t.others db) in
            (owned payload result, db')
      ]

      unfoldable pub fail_task : String → RequestError → Moment → Db → Db
      fail_task what e t db =
          mark_task_failed m task_id worker_id claim_token (what <> to_string e) t.now t.finished_at
            (t.others db)

      -- The arms of `match setup_result` that end the task.
      unfoldable pub setup_failed : RequestError → Moment → Db → Db
      unfolding fail_task
      setup_failed worker_gone t db = db
      setup_failed (duplicate id) t db = fail_task "infrastructure error: " (duplicate id) t db
      setup_failed timeout t db = fail_task "infrastructure error: " timeout t db
      setup_failed worker_timeout t db = fail_task "infrastructure error: " worker_timeout t db
      setup_failed (payload_format f) t db =
          fail_task "infrastructure error: " (payload_format f) t db
      setup_failed (task_failed r) t db = fail_task "infrastructure error: " (task_failed r) t db
      setup_failed (database text) t db = fail_task "infrastructure error: " (database text) t db

      -- `match handler_result`
      unfoldable pub finish :
          Result RequestError TOutput → Moment → Db → Result RequestError (Unit {0}) × Db
      finish (err e) t db = (err e, fail_task "handler error: " e t db)
      finish (ok output) t db = elim (serialize_to_bson output) [
        | none ↦ (err (payload_format "task_output"), db)
        | some bson ↦
            complete m task_id worker_id claim_token bson t.now t.finished_at (t.others db)
      ]

      -- `select!`: a signal of the heartbeats aborts the handler, unless the handler is ready too and
      -- its branch is the one that is taken.
      unfoldable pub aborts : Heartbeats → Bool → Bool
      aborts lost handler_first = if handler_first then false else true
      aborts running handler_first = false
      aborts given_up handler_first = false

      unfoldable pub run_handler :
          TInput
          → Option TraceContext
          → List Moment
          → Bool
          → Moment
          → Db
          → Result RequestError (Unit {0}) × Db
      unfolding heartbeat_loop aborts finish
      run_handler payload trace ticks handler_first last db =
          let (state, db') = heartbeat_loop ticks db in
          if aborts state handler_first
          then (err worker_gone, db')
          else finish
              (handler (record { task_id = task_id; trace_context = trace; payload = payload }))
              last db'

      unfoldable pub process_named :
          Document → Moment → List Moment → Bool → Moment → Db → Result RequestError (Unit {0}) × Db
      unfolding setup setup_failed run_handler trace_context_of
      process_named d first ticks handler_first last db =
          let (result, db') = setup d first db in
          elim result [
            | err e ↦ (err e, setup_failed e last db')
            | ok payload ↦ run_handler payload (trace_context_of d) ticks handler_first last db'
          ]

  unfoldable pub process_task :
      HandlerCode
      → Document
      → String
      → Moment
      → List Moment
      → Bool
      → Moment
      → Db
      → Result RequestError (Unit {0}) × Db
  unfolding claim_token_of process_named
  process_task h d worker_id first ticks handler_first last db = elim (get_str "task_id" d) [
    | none ↦ (err (payload_format "task_id"), db)
    | some task_id ↦
        process_named task_id worker_id (claim_token_of d) h d first ticks handler_first last db
  ]

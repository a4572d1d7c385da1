-- ===== src/Trace.antt =====
-- src/trace.rs: the identifiers of the caller's span, as they are stored with a task.
-- The crate opentelemetry is a parameter, with the documented laws of its identifiers and of contexts.
pub mod Memory
pub mod Roundtrip
use getitdone.Prelude.{ℕ, ◌≡◌, ◌<◌, String, Bool, true, false, Option, none, some, if◌then◌else◌}

-- `TraceFlags` is a byte. `TraceState` stands for what the code only makes as the default.
pub record Opentelemetry : Type 1 where
  pub TraceId : Type 0
  pub SpanId : Type 0
  pub TraceState : Type 0
  pub SpanContext : Type 0
  pub trace_id_to_string : TraceId → String
  pub span_id_to_string : SpanId → String
  -- `from_hex`
  pub trace_id_from_hex : String → Option TraceId
  pub span_id_from_hex : String → Option SpanId
  pub default_trace_state : TraceState
  pub sampled : ℕ
  -- `SpanContext::new`, on the trace id, the span id, the flags, whether it is remote, and the state.
  pub new : TraceId → SpanId → ℕ → Bool → TraceState → SpanContext
  pub trace_id : SpanContext → TraceId
  pub span_id : SpanContext → SpanId
  pub trace_flags : SpanContext → ℕ
  pub is_remote : SpanContext → Bool
  pub is_valid : SpanContext → Bool
  -- Whether an identifier is not the invalid one, which is all zero.
  pub is_trace_id : TraceId → Bool
  pub is_span_id : SpanId → Bool
  pub from_hex-trace_id : (t : TraceId) → trace_id_from_hex (trace_id_to_string t) ≡ some t
  pub from_hex-span_id : (s : SpanId) → span_id_from_hex (span_id_to_string s) ≡ some s
  pub trace_id-new :
      (t : TraceId) (s : SpanId) (f : ℕ) (r : Bool) (x : TraceState) → trace_id (new t s f r x) ≡ t
  pub span_id-new :
      (t : TraceId) (s : SpanId) (f : ℕ) (r : Bool) (x : TraceState) → span_id (new t s f r x) ≡ s
  pub trace_flags-new :
      (t : TraceId) (s : SpanId) (f : ℕ) (r : Bool) (x : TraceState)
      → trace_flags (new t s f r x) ≡ f
  pub is_remote-new :
      (t : TraceId) (s : SpanId) (f : ℕ) (r : Bool) (x : TraceState) → is_remote (new t s f r x) ≡ r
  pub is_valid_iff :
      (c : SpanContext)
      → is_valid c ≡ (if is_trace_id (trace_id c) then is_span_id (span_id c) else false)

pub record TraceContext : Type 0 where
  pub trace_id : String
  pub span_id : String
  pub trace_flags : ℕ

module _ (o : Opentelemetry) where
  open o use {
    SpanContext, trace_id_to_string, span_id_to_string, trace_id_from_hex, span_id_from_hex,
    default_trace_state, sampled, new, is_valid,
  }

  unfoldable pub default_trace_flags : ℕ
  default_trace_flags = sampled

  unfoldable pub from_parts : String → String → TraceContext
  unfolding default_trace_flags
  from_parts trace_id span_id = record {
    trace_id = trace_id;
    span_id = span_id;
    trace_flags = default_trace_flags;
  }

  unfoldable pub from_parts_with_flags : String → String → ℕ → TraceContext
  from_parts_with_flags trace_id span_id trace_flags = record {
    trace_id = trace_id;
    span_id = span_id;
    trace_flags = trace_flags;
  }

  unfoldable pub from_span_context : SpanContext → Option TraceContext
  from_span_context c =
      if is_valid c
      then some (record {
        trace_id = trace_id_to_string (o.trace_id c);
        span_id = span_id_to_string (o.span_id c);
        trace_flags = o.trace_flags c;
      })
      else none

  -- `capture_current`, on the context of the current span.
  unfoldable pub capture_current : SpanContext → Option TraceContext
  unfolding from_span_context
  capture_current c = from_span_context c

  unfoldable pub to_span_context : TraceContext → Option SpanContext
  to_span_context t = elim (trace_id_from_hex t.trace_id) [
    | none ↦ none
    | some trace_id ↦ elim (span_id_from_hex t.span_id) [
      | none ↦ none
      | some span_id ↦ some (new trace_id span_id t.trace_flags true default_trace_state)
    ]
  ]

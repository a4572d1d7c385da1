-- ===== src/Trace/Roundtrip.antt =====
-- src/trace.rs: a span context that is stored with a task and read by the worker.
use getitdone.Prelude.{◌≡◌, ◌∙◌, sym, true, false, none, some}
use getitdone.Trace.{Opentelemetry, TraceContext, from_span_context, to_span_context}

module _ (o : Opentelemetry) where
  open o use {SpanContext, trace_id, span_id, trace_flags, is_remote, is_valid}

  -- The same span, seen from another process.
  pub record IsRemoteOf (c c' : SpanContext) : Type 0 where
    pub same_trace : trace_id c' ≡ trace_id c
    pub same_span : span_id c' ≡ span_id c
    pub same_flags : trace_flags c' ≡ trace_flags c
    pub remote : is_remote c' ≡ true

  -- A valid span context is stored, and what is stored is read back as a valid context of the same span
  -- with the same flags, marked as remote; then it is stored as before.
  pub to_span_context-from_span_context :
      (c : SpanContext)
      → is_valid c ≡ true
      → (t : TraceContext) × (c' : SpanContext) × (from_span_context o c ≡ some t)
        × (to_span_context o t ≡ some c')
        × IsRemoteOf c c'
        × (from_span_context o c' ≡ some t)
  unfolding from_span_context to_span_context
  to_span_context-from_span_context c v =
      let c' = o.new (trace_id c) (span_id c) (trace_flags c) true o.default_trace_state in
      let t : TraceContext = record {
        trace_id = o.trace_id_to_string (trace_id c);
        span_id = o.span_id_to_string (span_id c);
        trace_flags = trace_flags c;
      } in
      let same_trace : trace_id c' ≡ trace_id c = o.trace_id-new _ _ _ _ _ in
      let same_span : span_id c' ≡ span_id c = o.span_id-new _ _ _ _ _ in
      let same_flags : trace_flags c' ≡ trace_flags c = o.trace_flags-new _ _ _ _ _ in
      let valid : is_valid c' ≡ true =
        o.is_valid_iff c' ∙ rw (same_trace, same_span) (sym (o.is_valid_iff c) ∙ v) in
      (
        t,
        c',
        rw v,
        rw (o.from_hex-trace_id (trace_id c), to_span_context, o.from_hex-span_id (span_id c)),
        record {
          same_trace = same_trace;
          same_span = same_span;
          same_flags = same_flags;
          remote = o.is_remote-new _ _ _ _ _;
        },
        rw (valid, from_span_context, same_trace, same_span, same_flags),
      )

  -- An invalid context is not stored.
  pub from_span_context-invalid :
      (c : SpanContext) → is_valid c ≡ false → from_span_context o c ≡ none
  unfolding from_span_context
  from_span_context-invalid c v = rw v

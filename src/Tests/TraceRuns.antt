-- ===== src/Tests/TraceRuns.antt =====
-- A run of src/trace.rs.
use getitdone.Prelude.{◌≡◌, refl, false, some, string_eq}
use getitdone.Trace.{TraceContext, from_span_context, to_span_context}
use getitdone.Trace.Memory.{Context, telemetry}
use getitdone.Trace.Roundtrip.{IsRemoteOf, to_span_context-from_span_context}

abbrev context : Context
context = record {
  trace = "4bf92f3577b34da6a3ce929d0e0e4736";
  span = "00f067aa0ba902b7";
  flags = 1;
  remote = false;
}

to_span_context-from_span_context_example :
    (t : TraceContext) × (c' : Context) × (from_span_context telemetry context ≡ some t)
    × (to_span_context telemetry t ≡ some c')
    × IsRemoteOf telemetry context c'
    × (from_span_context telemetry c' ≡ some t)
unfolding string_eq
to_span_context-from_span_context_example = to_span_context-from_span_context telemetry context refl

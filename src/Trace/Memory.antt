-- ===== src/Trace/Memory.antt =====
-- A concrete crate opentelemetry, whose identifiers are texts.
use getitdone.Prelude.{ℕ, refl, String, Bool, false, not, some, ◌==◌, string_eq, if◌then◌else◌}
use getitdone.Trace.{Opentelemetry}

pub record Context : Type 0 where
  pub trace : String
  pub span : String
  pub flags : ℕ
  pub remote : Bool

abbrev pub telemetry : Opentelemetry
telemetry = record {
  TraceId = String;
  SpanId = String;
  TraceState = Unit {0};
  SpanContext = Context;
  trace_id_to_string = λ t. t;
  span_id_to_string = λ s. s;
  trace_id_from_hex = λ s. some s;
  span_id_from_hex = λ s. some s;
  default_trace_state = tt;
  sampled = 1;
  new = λ t s f r x. record { trace = t; span = s; flags = f; remote = r };
  trace_id = λ c. c.trace;
  span_id = λ c. c.span;
  trace_flags = λ c. c.flags;
  is_remote = λ c. c.remote;
  is_valid = λ c. if not (c.trace == "") then not (c.span == "") else false;
  is_trace_id = λ t. not (t == "");
  is_span_id = λ s. not (s == "");
  from_hex-trace_id = λ t. refl;
  from_hex-span_id = λ s. refl;
  trace_id-new = λ t s f r x. refl;
  span_id-new = λ t s f r x. refl;
  trace_flags-new = λ t s f r x. refl;
  is_remote-new = λ t s f r x. refl;
  is_valid_iff = λ c. refl;
}

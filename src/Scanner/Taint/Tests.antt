-- ===== src/Scanner/Taint/Tests.antt =====
-- Traces of one origin that reach a join, and the theorems of `_merge_traces`
-- (scanner/src/aegify/scanner/taint_v2.py) at them.
use aegify.Base.{◌≡◌, ◌↔◌, refl, true, false, String, ℕ, none, some, [], ◌∷◌, lookup, here, inr}
use aegify.Scanner.Findings.Records.{decimal}
use aegify.Scanner.Taint.Traces.{
  TaintSource, TaintPropagation, Trace, TraceMap, origin_id, source_trace, append_step,
  mark_sanitized, mark_sanitized_for, outranks_trace, merge_onto, merge_traces, sanitized_at,
  with_step, step_eq,
}
use aegify.Scanner.Taint.Merged.{Given, Settled, merge_traces-keeps_best, merge_traces-changed}

abbrev query : TaintSource
query = record {
  variable = "q";
  file_path = "app.py";
  line = 12;
  source_type = "request";
  in_function = none;
}

named : origin_id query ≡ "app.py:12:request:q:"
unfolding origin_id decimal
named = refl

abbrev origin : String
origin = "app.py:12:request:q:"

abbrev step : ℕ → TaintPropagation
step line = record {
  variable = "r";
  file_path = "app.py";
  line = line;
  propagation_type = "assignment";
  function = none;
  call_context = [];
}

abbrev start : TraceMap
start = (origin, source_trace query) ∷ []

-- Escaped for SQL, in two steps.
abbrev short : TraceMap
short = mark_sanitized_for "quote" ("sql" ∷ []) (append_step (step 13) start)

-- Escaped for HTML, in three.
abbrev long : TraceMap
long =
    mark_sanitized_for "escape" ("html" ∷ []) (append_step (step 15) (append_step (step 14) start))

abbrev long_trace : Trace
long_trace = record (with_step (step 15) (with_step (step 14) (source_trace query))) {
  sanitizer = some "escape";
  sanitized_for = "html" ∷ [];
}

-- A step is not appended twice.
step_once : append_step (step 13) (append_step (step 13) start) ≡ append_step (step 13) start
unfolding append_step with_step step_eq source_trace
step_once = refl

-- A trace that nothing sanitized replaces a shorter one.
unsanitized_first :
    merge_traces (mark_sanitized "clean" start) (append_step (step 13) start)
    ≡ (append_step (step 13) start, true)
unfolding append_step mark_sanitized mark_sanitized_for merge_onto source_trace outranks_trace
    with_step step_eq
unsanitized_first = refl

-- Of two traces that are sanitized for different sinks, the shorter one is kept.
shorter_kept : merge_traces long short ≡ (short, true)
unfolding append_step mark_sanitized_for merge_onto source_trace outranks_trace with_step step_eq
shorter_kept = refl

-- The trace that is dropped reaches an SQL sink as it came in, and the one that is kept does not.
dropped_at_sql : sanitized_at "sql" long_trace ≡ false
unfolding with_step step_eq source_trace
dropped_at_sql = refl

long_in : Given short long origin long_trace
unfolding append_step mark_sanitized_for source_trace with_step step_eq
long_in = inr (here refl)

merge_traces-keeps_best_example :
    (g : Trace) × (lookup origin (merge_traces short long).0 ≡ some g)
    × (outranks_trace long_trace g ≡ false)
    × Given short long origin g
merge_traces-keeps_best_example = merge_traces-keeps_best short long origin long_trace long_in

merge_traces-changed_example :
    (((merge_traces short long).1 ≡ false) ↔ Settled short long)
    × (merge_traces (merge_traces short long).0 long ≡ ((merge_traces short long).0, false))
merge_traces-changed_example = merge_traces-changed short long

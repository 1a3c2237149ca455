-- ===== src/Scanner/Taint/Traces.antt =====
-- `_Trace` of scanner/src/aegify/scanner/taint_v2.py and the operations on maps of traces, with the
-- records of scanner/src/aegify/models.py that a trace holds. A set of texts is a list.
use aegify.Base.{
  ℕ, Bool, true, false, ◌&&◌, ◌||◌, String, Option, none, some, List, [], ◌∷◌, ◌++◌, ltb, ◌==◌,
  length, if◌then◌else◌, str_eq, str_mem, map, Dict, lookup, offer,
}
use Prim.Native.String.{◌++◌ as text_append}
use aegify.Scanner.Findings.Records.{decimal}

pub record TaintSource : Type 0 where
  pub variable : String
  pub file_path : String
  pub line : ℕ
  pub source_type : String
  pub in_function : Option String

pub record TaintPropagation : Type 0 where
  pub variable : String
  pub file_path : String
  pub line : ℕ
  pub propagation_type : String
  pub function : Option String
  pub call_context : List String

pub record Trace : Type 0 where
  pub source : TaintSource
  pub path : List TaintPropagation
  pub sanitized : Bool
  pub sanitizer : Option String
  pub sanitized_for : List String

-- `_TraceMap`
abbrev pub TraceMap : Type 0
TraceMap = Dict Trace

abbrev pub is_nonempty : List String → Bool
is_nonempty [] = false
is_nonempty (s ∷ ss) = true

abbrev pub option_text : Option String → String
option_text none = ""
option_text (some s) = s

-- `_origin_id`
unfoldable pub origin_id : TaintSource → String
origin_id s = text_append s.file_path (
    text_append ":" (
      text_append (decimal s.line) (
        text_append ":" (
          text_append s.source_type (
            text_append ":"
              (text_append s.variable (text_append ":" (option_text s.in_function))))))))

-- `_source_trace`
unfoldable pub source_trace : TaintSource → Trace
source_trace s = record {
  source = s;
  path =
      record {
        variable = s.variable;
        file_path = s.file_path;
        line = s.line;
        propagation_type = "source";
        function = s.in_function;
        call_context = [];
      }
      ∷ [];
  sanitized = false;
  sanitizer = none;
  sanitized_for = [];
}

abbrev option_eq : Option String → Option String → Bool
option_eq none none = true
option_eq none (some t) = false
option_eq (some s) none = false
option_eq (some s) (some t) = str_eq s t

abbrev list_eq : List String → List String → Bool
list_eq [] [] = true
list_eq [] (t ∷ ts) = false
list_eq (s ∷ ss) [] = false
list_eq (s ∷ ss) (t ∷ ts) = str_eq s t && list_eq ss ts

unfoldable pub step_eq : TaintPropagation → TaintPropagation → Bool
step_eq a b =
    (str_eq a.variable b.variable && str_eq a.file_path b.file_path)
    && ((a.line == b.line && str_eq a.propagation_type b.propagation_type)
        && (option_eq a.function b.function && list_eq a.call_context b.call_context))

-- `trace.path and trace.path[-1] == step`
abbrev pub ends_with : List TaintPropagation → TaintPropagation → Bool
ends_with [] step = false
ends_with (s ∷ []) step = step_eq s step
ends_with (s ∷ t ∷ path) step = ends_with (t ∷ path) step

unfoldable pub with_step : TaintPropagation → Trace → Trace
unfolding step_eq
with_step step t = if ends_with t.path step then t else record t { path = t.path ++ step ∷ [] }

-- `_append_step`, with the step that its arguments make up.
unfoldable pub append_step : TaintPropagation → TraceMap → TraceMap
append_step step = map (λ e. (e.0, with_step step e.1))

-- `_mark_sanitized`
unfoldable pub mark_sanitized : String → TraceMap → TraceMap
mark_sanitized sanitizer = map (λ e.
    (e.0, record e.1 { sanitized = true; sanitizer = some sanitizer; sanitized_for = "*" ∷ [] }))

-- `a | b`
abbrev pub union : List String → List String → List String
union a [] = a
union a (t ∷ ts) = union (if str_mem t a then a else a ++ t ∷ []) ts

-- `_mark_sanitized_for`
unfoldable pub mark_sanitized_for : String → List String → TraceMap → TraceMap
mark_sanitized_for sanitizer sink_types = map (λ e. (
  e.0,
  record e.1 { sanitizer = some sanitizer; sanitized_for = union e.1.sanitized_for sink_types },
))

abbrev pub flag : Bool → ℕ
flag true = 1
flag false = 0

-- `_trace_rank`
abbrev pub trace_rank : Trace → ℕ × ℕ
trace_rank t = (flag (t.sanitized || is_nonempty t.sanitized_for), length t.path)

-- `a < b` for two ranks
abbrev pub rank_before : ℕ × ℕ → ℕ × ℕ → Bool
rank_before (a, b) (c, d) = ltb a c || (a == c && ltb b d)

unfoldable pub outranks_trace : Trace → Trace → Bool
outranks_trace candidate current = rank_before (trace_rank candidate) (trace_rank current)

abbrev pub is_new : Trace → Option Trace → Bool
is_new candidate none = true
is_new candidate (some current) = outranks_trace candidate current

-- The loop of `_merge_traces`: the target, and whether it changed.
unfoldable pub merge_onto : TraceMap → TraceMap → Bool → TraceMap × Bool
unfolding outranks_trace
merge_onto target [] changed = (target, changed)
merge_onto target ((origin, candidate) ∷ incoming) changed =
    let current = lookup origin target in
    merge_onto (offer outranks_trace origin candidate current target) incoming
      (changed || is_new candidate current)

-- `_merge_traces`
abbrev pub merge_traces : TraceMap → TraceMap → TraceMap × Bool
merge_traces target incoming = merge_onto target incoming false

-- What a sink of a type says of a trace that reaches it.
abbrev pub sanitized_at : String → Trace → Bool
sanitized_at sink_type t = t.sanitized || str_mem sink_type t.sanitized_for

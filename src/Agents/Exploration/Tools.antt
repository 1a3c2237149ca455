-- ===== src/Agents/Exploration/Tools.antt =====
-- The tool requests of a turn in `AgentSourceExplorer.review`, with `_stop` and `_citations`, of
-- scanner/src/aegify/agents/exploration.py.
use aegify.Base.{
  ℕ, suc, ◌+◌, not, ◌&&◌, ◌||◌, Bool, true, false, String, Option, none, some, List, [], ◌∷◌, ◌++◌,
  ltb, if◌then◌else◌, str_eq, str_mem, Dict, lookup, insert,
}
use aegify.Agents.Exploration.Turns.{
  Argument, RequestItem, ToolSpec, valid_arguments, without_nulls,
}
use aegify.Agents.Exploration.Records.{
  Location, Citation, ToolResult, Evidence, Trace, Status, Session, Limits, Toolbox,
}

abbrev pub downgraded : Status → Status
downgraded Status.completed = Status.partial
downgraded s = s

abbrev pub add_gap : String → Trace → Trace
add_gap code t = record t { gaps = t.gaps ++ code ∷ [] }

-- `_stop`, without the text of the error.
abbrev pub stop : {N : Type 0} → String → Session N → Session N
stop code s = record s {
  trace = record s.trace { stop_reason = code; gaps = s.trace.gaps ++ code ∷ [] };
  status = downgraded s.status;
  backend_error_code = code;
}

-- `ToolResult(request_id=..., name=..., ok=False, error=...)`
abbrev pub failure : String → String → String → Bool → ToolResult
failure request_id name error truncated = record {
  request_id = request_id;
  name = name;
  ok = false;
  error = error;
  truncated = truncated;
  citation = none;
  matches = [];
}

-- The candidates of a result.
abbrev pub candidates : ToolResult → List (Option Location)
candidates r =
    if str_eq r.name "source_search"
    then r.matches
    else (if str_eq r.name "source_read" then r.citation ∷ [] else [])

-- `citations.setdefault(citation.citation_id, citation)`
abbrev pub set_default : Citation → Option Citation → Dict Citation → Dict Citation
set_default c none d = insert c.location.citation_id c d
set_default c (some old) d = d

abbrev pub or_zero : Option ℕ → ℕ
or_zero none = 0
or_zero (some n) = n

abbrev is_cached : Option ToolResult → Bool
is_cached none = false
is_cached (some r) = true

module _ (toolbox : Toolbox) where
  open toolbox use {specs, execute, valid_citation, key, request_id, encoded}

  -- One turn of the loop of `_citations`.
  abbrev pub cite : String → Option Location → Dict Citation → Dict Citation
  cite id none d = d
  cite id (some l) d =
      if valid_citation l
      then set_default (record { request_id = id; location = l }) (lookup l.citation_id d) d
      else d

  unfoldable pub cite_all : String → List (Option Location) → Dict Citation → Dict Citation
  cite_all id [] d = d
  cite_all id (l ∷ ls) d = cite_all id ls (cite id l d)

  abbrev pub narrowed : Option ToolSpec → Dict Argument → Dict Argument
  narrowed none arguments = arguments
  narrowed (some spec) arguments = without_nulls spec arguments

  -- A call that is not in the cache.
  unfoldable pub executed : Option ToolSpec → String → String → Dict Argument → ToolResult
  executed none id name arguments = failure id name "tool is not allowed for this role" false
  executed (some spec) id name arguments =
      if valid_arguments arguments spec
      then execute id name arguments
      else failure id name "tool arguments failed schema validation" false

  -- The result with the size of its encoding; a failure takes the place of one that has none.
  unfoldable pub measured : String → String → ToolResult → Option ℕ → ToolResult × ℕ
  measured id name r (some n) = (r, n)
  measured id name r none =
      let f = failure id name "tool output failed strict evidence validation" false in
      (f, or_zero (encoded f))

  module _ (limits : Limits) {N : Type 0} where
    -- The result is kept, if the evidence has room for it. The result, and the session with it.
    unfoldable pub admitted :
        String → String → String → ToolResult × ℕ → Session N → ToolResult × Session N
    admitted k id name (r, n) s =
        if ltb limits.max_evidence_bytes (s.evidence_bytes + n)
        then (
          failure id name "stage evidence byte limit reached" true,
          record s { trace = add_gap "evidence_limit" s.trace },
        )
        else (if r.ok && not r.truncated
            then (
              r,
              record s {
                evidence_bytes = s.evidence_bytes + n;
                cache = insert k r s.cache;
                citations = cite_all r.request_id (candidates r) s.citations;
              },
            )
            else (r, record s { evidence_bytes = s.evidence_bytes + n }))

    -- `results.append(...)`, `trace.tools.append(...)` and the gap of an error.
    unfoldable pub recorded : ℕ → Bool → String → ToolResult × Session N → Session N
    recorded round cached id (r, s) =
        let evidence : Evidence = record {
          tool = r.name;
          request_id = id;
          ok = r.ok;
          truncated = r.truncated;
          round = round;
          cached = cached;
        } in
        let t = record s.trace { tools = s.trace.tools ++ evidence ∷ [] } in
        record s {
          results = s.results ++ r ∷ [];
          trace = if not r.ok || r.truncated then add_gap "tool_error_or_truncation" t else t;
        }

    -- The result of a request: that of the cache, or of a call.
    unfoldable pub looked_up :
        Option ToolResult
        → Option ToolSpec
        → String
        → String
        → Dict Argument
        → Session N
        → ToolResult × Session N
    looked_up (some r) spec id name arguments s = (
      record r { request_id = id },
      record s { trace = record s.trace { cached_calls = suc s.trace.cached_calls } },
    )
    looked_up none spec id name arguments s = (
      executed spec id name arguments,
      record s { trace = record s.trace { tool_calls = suc s.trace.tool_calls } },
    )

    -- One request of a turn.
    unfoldable pub call_tool : ℕ → ℕ → RequestItem → Session N → Session N
    call_tool round index item s =
        let spec = lookup item.name specs in
        let arguments = narrowed spec item.arguments in
        let k = key item.name arguments in
        let id = request_id round index k in
        let known = lookup k s.cache in
        let (r, s') = looked_up known spec id item.name arguments s in
        recorded round (is_cached known) id
          (admitted k id item.name (measured id item.name r (encoded r)) s')

    -- The loop over the requests, which the evidence limit ends.
    unfoldable pub call_tools : ℕ → ℕ → List RequestItem → Session N → Session N
    unfolding call_tool
    call_tools round index [] s = s
    call_tools round index (item ∷ items) s =
        let next = call_tool round index item s in
        elim (str_mem "evidence_limit" next.trace.gaps) [
          | true ↦ stop "evidence_limit" next
          | false ↦ call_tools round (suc index) items next
        ]

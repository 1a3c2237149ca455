-- ===== src/Agents/Exploration/Tests.antt =====
-- A review of two rounds, and the theorems of AgentSourceExplorer
-- (scanner/src/aegify/agents/exploration.py) at it.
use aegify.Base.{
  ◌≤◌, ◌+◌, ◌≡◌, refl, true, false, String, none, some, [], ◌∷◌, pos, negsuc, All, sum_by, length,
  ◌==◌, Member, here, if◌then◌else◌, Dict,
}
use aegify.Agents.Exploration.Turns.{
  Argument, Turn, ToolSpec, validate_turn, valid_arguments, without_nulls,
}
use aegify.Agents.Exploration.Records.{Location, Citation, Status, Session, Limits, Toolbox}
use aegify.Agents.Exploration.Tools.{
  call_tool, call_tools, looked_up, executed, measured, admitted, recorded, cite_all,
}
use aegify.Agents.Exploration.Rounds.{Reply, Backend, conclude, act, run_round, run_rounds}
use aegify.Agents.Exploration.Review.{Setup, inventory, close, review}
use aegify.Agents.Exploration.Calls.{weight}
use aegify.Agents.Exploration.Bounds.{review-bounds}
use aegify.Agents.Exploration.Complete.{IsAnswered, review-IsAnswered}
use aegify.Agents.Exploration.Issued.{Issued}
use aegify.Agents.Exploration.Sources.{review-Issued}

abbrev location : Location
location = record {
  citation_id = "cite-1";
  repository_id = "local";
  path = "app.py";
  source_digest = "sha256:1";
  excerpt_digest = "sha256:2";
  line_start = 1;
  line_end = 40;
}

abbrev source_read : ToolSpec
source_read = record {
  name = "source_read";
  required = "path" ∷ [];
  properties =
      ("path", record { kind = "string"; max_length = some 1024; minimum = none; maximum = none })
      ∷ (
        "line",
        record { kind = "integer"; max_length = none; minimum = some (pos 1); maximum = none },
      )
      ∷ [];
}

abbrev toolbox : Toolbox
toolbox = record {
  specs = ("source_read", source_read) ∷ [];
  execute = λ id name arguments. record {
    request_id = id;
    name = name;
    ok = true;
    error = "";
    truncated = false;
    citation = some location;
    matches = [];
  };
  valid_citation = λ l. l.line_end == 40;
  key = λ name arguments. name;
  request_id = λ round index key. "request-1";
  encoded = λ r. some 100;
}

abbrev limits : Limits
limits = record {
  max_rounds = 4;
  max_tool_calls = 12;
  max_prompt_bytes = 4096;
  max_evidence_bytes = 1024;
  max_response_bytes = 1024;
}

abbrev arguments : Dict Argument
arguments = ("path", Argument.text "app.py") ∷ ("line", Argument.null) ∷ []

abbrev read : Turn String
read = record {
  kind = "tools";
  requests = record { name = "source_read"; arguments = arguments } ∷ [];
  narrative = none;
  citation_ids = [];
}

abbrev told : Turn String
told = record {
  kind = "final";
  requests = [];
  narrative = some "The query is built from the request.";
  citation_ids = "cite-1" ∷ [];
}

abbrev backend : Backend String
backend = record {
  prompt_size = λ p. some 2000;
  invoke_turn = λ p. Reply.replied (some 60) (some (if p.round == 1 then read else told));
  validate_narrative = λ n. some (record { content = n; evidence_gaps = [] });
}

abbrev setup : Setup
setup = record {
  has_source_files = true;
  takes_turns = true;
  has_catalog_gaps = false;
  needs_coverage = true;
  findings =
      record { id = "f1"; location = some ("local", "app.py"); line_start = 12; line_end = 14 }
      ∷ [];
  status = Status.completed;
}

abbrev reviewed : Session String
reviewed = review toolbox limits backend setup

abbrev citation : Citation
citation = record { request_id = "request-1"; location = location }

null_line : valid_arguments arguments source_read ≡ false
unfolding valid_arguments
null_line = refl

no_line : valid_arguments (without_nulls source_read arguments) source_read ≡ true
unfolding valid_arguments
no_line = refl

negative_line :
    valid_arguments
      (("path", Argument.text "a") ∷ ("line", Argument.integer (negsuc 0)) ∷ [])
      source_read
    ≡ false
unfolding valid_arguments
negative_line = refl

ends :
    (reviewed.status ≡ Status.completed)
    × (reviewed.trace.citations ≡ citation ∷ [])
    × (reviewed.trace.covered_finding_ids ≡ "f1" ∷ [])
unfolding review run_rounds run_round act conclude close inventory call_tools call_tool looked_up
    executed measured admitted recorded cite_all validate_turn valid_arguments
ends = (refl, refl, refl)

-- With no room for the evidence the stage is partial.
no_room :
    (review toolbox (record limits { max_evidence_bytes = 99 }) backend setup).trace.stop_reason
    ≡ "evidence_limit"
unfolding review run_rounds run_round act conclude close inventory call_tools call_tool looked_up
    executed measured admitted recorded cite_all validate_turn valid_arguments
no_room = refl

review-bounds_example :
    (length reviewed.results ≤ 12)
    × (length reviewed.trace.tools ≡ length reviewed.results)
    × (reviewed.trace.tool_calls + reviewed.trace.cached_calls ≡ length reviewed.results)
    × (sum_by (weight toolbox) reviewed.results ≤ reviewed.evidence_bytes)
    × (reviewed.evidence_bytes ≤ 1024)
    × (reviewed.trace.model_calls ≡ length reviewed.trace.rounds)
    × (length reviewed.trace.rounds ≤ 4)
    × All (λ r. r.prompt_bytes ≤ 4096) reviewed.trace.rounds
    × (reviewed.trace.prompt_bytes ≡ sum_by (λ r. r.prompt_bytes) reviewed.trace.rounds)
review-bounds_example = review-bounds toolbox limits backend setup

review-IsAnswered_example : IsAnswered toolbox limits backend true (inventory setup) reviewed
review-IsAnswered_example = review-IsAnswered toolbox limits backend setup ends.0

cited : Member citation reviewed.trace.citations
unfolding review run_rounds run_round act conclude close inventory call_tools call_tool looked_up
    executed measured admitted recorded cite_all validate_turn valid_arguments
cited = here refl

review-Issued_example : Issued toolbox reviewed.results citation
review-Issued_example = review-Issued toolbox limits backend setup citation cited

-- ===== src/Agents/Exploration/Records.antt =====
-- The data of a review (scanner/src/aegify/agents/exploration.py and models.py, and those of
-- scanner/src/aegify/models.py and llm/tools.py).
use aegify.Base.{ℕ, Bool, String, Option, List, Dict}
use aegify.Agents.Exploration.Turns.{Argument, ToolSpec}

-- A citation as a tool writes it in its output.
pub record Location : Type 0 where
  pub citation_id : String
  pub repository_id : String
  pub path : String
  pub source_digest : String
  pub excerpt_digest : String
  pub line_start : ℕ
  pub line_end : ℕ

-- `AISourceCitation`
pub record Citation : Type 0 where
  pub request_id : String
  pub location : Location

-- `ToolResult`, with what is read of its output: `citation`, and that of each of its `matches`. A value
-- that is no mapping is `none`.
pub record ToolResult : Type 0 where
  pub request_id : String
  pub name : String
  pub ok : Bool
  pub error : String
  pub truncated : Bool
  pub citation : Option Location
  pub matches : List (Option Location)

-- `AIToolEvidence`, without the texts and digests that are made of the result.
pub record Evidence : Type 0 where
  pub tool : String
  pub request_id : String
  pub ok : Bool
  pub truncated : Bool
  pub round : ℕ
  pub cached : Bool

-- `AgentRoundTrace`, without the digests and the time.
pub record RoundTrace : Type 0 where
  pub round : ℕ
  pub prompt_bytes : ℕ
  pub outcome : String
  pub error_code : String

-- `AgentExploration`, the fields that a review writes.
pub record Trace : Type 0 where
  pub model_calls : ℕ
  pub tool_calls : ℕ
  pub cached_calls : ℕ
  pub prompt_bytes : ℕ
  pub stop_reason : String
  pub gaps : List String
  pub rounds : List RoundTrace
  pub tools : List Evidence
  pub citations : List Citation
  pub covered_finding_ids : List String

-- `AgentStageStatus`
pub data Status : Type 0 where
  pending running waiting_approval completed partial failed : Status

pub record Narrative (N : Type 0) : Type 0 where
  pub content : N
  pub evidence_gaps : List String

-- The local variables of `review`, and the fields of its stage that it writes.
pub record Session (N : Type 0) : Type 0 where
  pub results : List ToolResult
  pub cache : Dict ToolResult
  pub citations : Dict Citation
  pub evidence_bytes : ℕ
  pub trace : Trace
  pub status : Status
  pub narrative : Option (Narrative N)
  pub backend_error_code : String

-- `AgentExplorationLimits`
pub record Limits : Type 0 where
  pub max_rounds : ℕ
  pub max_tool_calls : ℕ
  pub max_prompt_bytes : ℕ
  pub max_evidence_bytes : ℕ
  pub max_response_bytes : ℕ

-- The tools that the role may call, what they answer, the sources that citations refer to, and JSON:
-- the text that keys the cache, the identifier that is digested of it and of the places of the
-- request, and the size of a result, which is none where the result has no encoding.
pub record Toolbox : Type 0 where
  pub specs : Dict ToolSpec
  pub execute : String → String → Dict Argument → ToolResult
  pub valid_citation : Location → Bool
  pub key : String → Dict Argument → String
  pub request_id : ℕ → ℕ → String → String
  pub encoded : ToolResult → Option ℕ

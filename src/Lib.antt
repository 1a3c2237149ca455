-- ===== src/Lib.antt =====
-- Aegify is a static security scanner with model-assisted review. This library models the parts of
-- its Python package (scanner/src/aegify) whose correctness is a matter of state and search rather
-- than of I/O.
--
-- Parts and files:
-- * Base and its children: Boolean tests, lists over the native numbers, dictionaries in insertion
--   order, text equality, keyed lookup, stable sorting, results. No code of the program.
-- * Models/Values and Models/Receipts (scanner/src/aegify/models.py): ModelCallReceipt and
--   TokenUsage as records, and their field constraints and validators as Boolean tests.
--   Models/Gaps: ScanResult.add_gap.
-- * Scrub (scanner/src/aegify/text.py): scrub_quoted_strings.
-- * Llm/Budget (scanner/src/aegify/llm/budget.py): TokenBudget. State holds the record and its
--   readings; Reserve, Settle and Usage hold the methods reserve, settle, record_usage,
--   get_token_usage and restore_usage. Invariant states what consistent accounts are; Admission,
--   Accounting, Snapshots and Reachable hold the theorems.
-- * Llm/Redaction (scanner/src/aegify/llm/tools.py): _redact over JSON values. Its regular expressions
--   are a parameter.
-- * Ir/Query (scanner/src/aegify/ir/query.py): context_balanced_path, its reconstruction of a path
--   and context_balanced_reachable. Edges and Context hold the code; Walks says what a balanced
--   walk is; Sound, Complete and Paths relate the two.
-- * Ir/Dataflow (scanner/src/aegify/ir/program_graph.py): the reaching definitions of
--   _build_data_overlays and the edges made of them. Definitions holds the fixpoint loop and
--   Overlays the edges; Sets, Rounds, Reaching and Edges hold the theorems.
-- * Ir/Cfg (scanner/src/aegify/ir/program_graph.py): the control flow graph of a function.
--   Nodes holds the syntax tree and its statement types; Statements the functions _statements,
--   _branch_children, _switch_cases, _catch_blocks and _block_clause; Graph the nodes and edges;
--   Emit the methods _emit_sequence, _emit_statement and _build_function. Grows, Steps, Drains,
--   Exit and Blocks hold the theorems.
-- * Ir/Routes (scanner/src/aegify/ir/query.py): shortest_path, source_to_sink_paths and
--   cross_repository_path. Projections holds the graphs that they search, Queries the methods;
--   Trails says what a path of a projection is in the graph itself; Chains, Links and Across hold the
--   theorems. networkx's shortest_path is a parameter.
-- * Agents/Checkpoint (scanner/src/aegify/agents/checkpoint.py): CheckpointBackend. Records holds
--   _Record, _State and _response; Turns holds invoke_turn, finish and close; Sessions holds
--   __init__. Safety, History, Starts and Once follow a checkpoint through turns, crashes and
--   resumed sessions; Replay and Recovery say what a resumed session repeats and restores.
-- * Agents/Exploration (scanner/src/aegify/agents/exploration.py): AgentSourceExplorer. Turns holds
--   _validate_turn and _valid_arguments, Records the data, Tools the tool requests of a turn with _stop
--   and _citations, Rounds and Review the method review. Rule is the invariant rule of its loop;
--   Calls and Bounds, Quiet and Complete, Issued and Sources hold the theorems.
-- * Quality (scanner/src/aegify/quality): the saved reports of OWASP cases. Cases holds SavedCase of
--   comparison.py and its validators, Metrics and Owasp and Evaluate hold case_metrics and
--   evaluate_cases of owasp.py, Compare and Reports hold compare_owasp_reports of comparison.py.
--   Written, Answers, Gate, Exit and Replay hold the theorems.
-- * Rules/CallOptions (scanner/src/aegify/rules/call_options.py): the selector of boolean options.
--   Arguments holds _property and the parsed arguments of models.py, Spec the methods parse and
--   state of BooleanOptionSpec. Values, Keywords, Everywhere and Parsed hold the theorems.
-- * Semantic/Scip (scanner/src/aegify/semantic/scip_symbol.py): parse_scip_symbol and the canonical
--   text of a package coordinate, in Symbols; Printed and Parsed hold the theorems.
-- * Scanner/Calls (scanner/src/aegify/scanner/call_graph.py and
--   scanner/src/aegify/semantic/signatures.py): the resolution of a call. Types and Scores hold
--   normalize_jvm_type, type_compatibility and jvm_overload_score, Graph the indices of
--   CallGraphBuilder, Overloads and Resolve its _select_overload and _resolve_callee; Best and
--   Candidates hold theorems. The classes of characters of Python's regular expressions are
--   parameters.
-- * Scanner/Findings (scanner/src/aegify/scanner/engine.py): _filter_findings. Records holds what it
--   reads of a Finding of models.py, Filter the tests, the occurrences and the limit for each file;
--   Represented, Capped and Kept hold the theorems.
-- * Scanner/Taint (scanner/src/aegify/scanner/taint_v2.py): _Trace and the operations on maps of
--   traces, in Traces: _source_trace, _origin_id, _append_step, _mark_sanitized,
--   _mark_sanitized_for and _merge_traces with _trace_rank. Merged holds the theorems.
--
-- The parts meet at the data: the budget stores receipts of models.py and restores itself from a
-- TokenUsage; a checkpoint saves the usage of the budget of its provider and restores it; the
-- queries read a graph that other parts of the program build.
--
-- Conventions. A method takes its object's state and returns its result (a value or an exception)
-- and the new state, also where it raises. A Python number whose type the code tests is a Value; a
-- number that passed the test is a natural number. A text is a String, and a dictionary is an
-- association list in insertion order. The fresh identifier that uuid4 gives is an argument, and a
-- theorem that needs it to be new says so. A networkx graph is a GraphView: a test for nodes and
-- the out-edges of a node, or where a query projects it a ProgramGraph: its nodes and
-- edges. A cost is an Option of a number: the code only stores 0, or no cost.
--
-- A checkpoint's file is its parsed content. Each save of a turn is given by how it ends; a process
-- that dies leaves the file that a save leaves which fails before or after the replacement. How
-- a response is written as JSON and read as a turn is a parameter, and so are the validation of a
-- narrative, the digests of requests and the provider; a turn is validated by Agents/Exploration.
--
-- A review of sources is given by what it meets: how each prompt and reply comes out, what a tool
-- answers, and which citations the sources confirm. It recurs on the rounds that are left.
--
-- Bounds and fuel. The search loop of context_balanced_path runs on max_states, which is the bound
-- of the code itself, and running out of it is the code's own error. The reconstruction loop runs
-- on the number of predecessors plus one: a chain of predecessors has a state once. The fixpoint
-- loop runs as many rounds as the code's range, and says whether it ended by break. The emission of
-- a control flow graph has no fuel: Statements.annotate replaces each syntax node by what the
-- emission asks of it, by recursion on the tree, and the emission recurses on the result.
--
-- Not modelled: locks (each method of TokenBudget holds its lock throughout, so methods are atomic;
-- a checkpoint is written by the holder of its lock alone), log lines, the allocation of
-- TokenBudget (floats that the class never reads), the text of exceptions, and the parts of the
-- scanner that parse, talk to services or write files. In the quality reports floating-point
-- arithmetic is a parameter, and so is the equality of JSON values that are only compared.
pub mod Agents
pub mod Base
pub mod Models
pub mod Scrub
pub mod Ir
pub mod Llm
pub mod Quality
pub mod Rules
pub mod Scanner
pub mod Semantic

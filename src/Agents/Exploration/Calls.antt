-- ===== src/Agents/Exploration/Calls.antt =====
-- The counts and limits of the tool calls of a review
-- (scanner/src/aegify/agents/exploration.py).
use aegify.Base.{
  ℕ, suc, ◌+◌, ◌≤◌, ◌≡◌, Bool, String, Option, none, some, List, [], ◌∷◌, ◌++◌, ltb, ◌&&◌, ◌||◌,
  not, str_mem, str_eq, if◌then◌else◌, refl, All, length, length-append, sum_by, sum_by-append,
  Bool-cases, inl, inr, Dict, arith,
}
use aegify.Agents.Exploration.Turns.{Argument, RequestItem, ToolSpec}
use aegify.Agents.Exploration.Records.{ToolResult, Evidence, RoundTrace, Session, Limits, Toolbox}
use aegify.Agents.Exploration.Tools.{
  stop, admitted, recorded, looked_up, call_tool, call_tools, measured, or_zero,
}

-- The rounds that were asked for, their number and the sum of their prompts.
pub record RoundsFit (most count : ℕ) (calls : ℕ) (rounds : List RoundTrace) (bytes : ℕ)
    : Type 0 where
  pub asked : calls ≡ length rounds
  pub bounded : length rounds ≤ count
  pub sized : All (λ r. r.prompt_bytes ≤ most) rounds
  pub summed : bytes ≡ sum_by (λ r. r.prompt_bytes) rounds

module _ (toolbox : Toolbox) where
  -- What a result weighs: its encoding, unless it reports that the evidence has no room for it.
  abbrev pub weight : ToolResult → ℕ
  weight r =
      if str_eq r.error "stage evidence byte limit reached" then 0 else or_zero (toolbox.encoded r)

  weight-le : (r : ToolResult) → weight r ≤ or_zero (toolbox.encoded r)
  weight-le r = elim (Bool-cases (str_eq r.error "stage evidence byte limit reached")) [
    | inl e ↦ rw e (omega arith)
    | inr e ↦ rw e (omega arith)
  ]

  -- The bytes of a measured result are those of its encoding.
  measured-encoded :
      (id name : String) (r : ToolResult) (size : Option ℕ)
      → toolbox.encoded r ≡ size
      → let (r', n) = measured toolbox id name r size in or_zero (toolbox.encoded r') ≡ n
  unfolding measured
  measured-encoded id name r (some n) e = rw e refl
  measured-encoded id name r none e = refl

module _ (toolbox : Toolbox) (limits : Limits) {N : Type 0} where
  -- After so many rounds there are so many results, and the counts agree.
  pub record Counts (rounds results : ℕ) (s : Session N) : Type 0 where
    pub counted : length s.results ≡ results
    pub listed : length s.trace.tools ≡ results
    pub called : s.trace.tool_calls + s.trace.cached_calls ≡ results
    pub fits : s.evidence_bytes ≤ limits.max_evidence_bytes
    pub weighed : sum_by (weight toolbox) s.results ≤ s.evidence_bytes
    pub asked :
        RoundsFit limits.max_prompt_bytes rounds s.trace.model_calls s.trace.rounds
          s.trace.prompt_bytes

  -- The counts before a result is recorded.
  record Calling (rounds results : ℕ) (s : Session N) : Type 0 where
    counted : length s.results ≡ results
    listed : length s.trace.tools ≡ results
    called : s.trace.tool_calls + s.trace.cached_calls ≡ suc results
    fits : s.evidence_bytes ≤ limits.max_evidence_bytes
    asked :
        RoundsFit limits.max_prompt_bytes rounds s.trace.model_calls s.trace.rounds
          s.trace.prompt_bytes

  -- A result and its evidence are put down.
  abbrev put_down : ToolResult → Evidence → List String → Session N → Session N
  put_down r evidence gaps s = record s {
    results = s.results ++ r ∷ [];
    trace = record s.trace { tools = s.trace.tools ++ evidence ∷ []; gaps = gaps };
  }

  -- The results so far, and one that comes to them, weigh no more than what is counted.
  abbrev Weighed : ToolResult × Session N → Type 0
  Weighed (r, s) = sum_by (weight toolbox) s.results + weight toolbox r ≤ s.evidence_bytes

  admitted-Weighed :
      (key id name : String) (r : ToolResult × ℕ) (s : Session N)
      → or_zero (toolbox.encoded r.0) ≡ r.1
      → sum_by (weight toolbox) s.results ≤ s.evidence_bytes
      → Weighed (admitted toolbox limits key id name r s)
  unfolding admitted
  admitted-Weighed key id name (r, m) s size le =
      let small = weight-le toolbox r in
      elim (Bool-cases (ltb limits.max_evidence_bytes (s.evidence_bytes + m))) [
        | inl e ↦ rw e (omega arith)
        | inr e ↦ elim (Bool-cases (r.ok && not r.truncated)) [
          | inl f ↦ rw (e, f) (omega (arith, small, size, le))
          | inr f ↦ rw (e, f) (omega (arith, small, size, le))
        ]
      ]

  looked_up-Weighed :
      (known : Option ToolResult) (spec : Option ToolSpec) (id name : String)
      (arguments : Dict Argument) (s : Session N)
      → sum_by (weight toolbox) s.results ≤ s.evidence_bytes
      → let s' = (looked_up toolbox limits known spec id name arguments s).1 in
        sum_by (weight toolbox) s'.results ≤ s'.evidence_bytes
  unfolding looked_up
  looked_up-Weighed none spec id name arguments s le = le
  looked_up-Weighed (some r) spec id name arguments s le = le

  module _ {k n : ℕ} where
    looked_up-Calling :
        (known : Option ToolResult) (spec : Option ToolSpec) (id name : String)
        (arguments : Dict Argument) (s : Session N)
        → Counts k n s
        → Calling k n (looked_up toolbox limits known spec id name arguments s).1
    unfolding looked_up
    looked_up-Calling none spec id name arguments s c = ground arith
    looked_up-Calling (some r) spec id name arguments s c = ground arith

    admitted-Calling :
        (key id name : String) (r : ToolResult × ℕ) (s : Session N)
        → Calling k n s
        → Calling k n (admitted toolbox limits key id name r s).1
    unfolding admitted
    admitted-Calling key id name (r, m) s c =
        elim (Bool-cases (ltb limits.max_evidence_bytes (s.evidence_bytes + m))) [
          | inl e ↦ rw e (ground arith)
          | inr e ↦ elim (Bool-cases (r.ok && not r.truncated)) [
            | inl f ↦ rw (e, f) (ground arith)
            | inr f ↦ rw (e, f) (ground arith)
          ]
        ]

    put_down-Counts :
        (r : ToolResult) (evidence : Evidence) (gaps : List String) (s : Session N)
        → Calling k n s
        → Weighed (r, s)
        → Counts k (suc n) (put_down r evidence gaps s)
    put_down-Counts r evidence gaps s c le =
        let weights = sum_by-append (weight toolbox) s.results (r ∷ []) in
        let tools = length-append s.trace.tools (evidence ∷ []) in
        let results = length-append s.results (r ∷ []) in ground arith

    recorded-Counts :
        (round : ℕ) (cached : Bool) (id : String) (rs : ToolResult × Session N)
        → Calling k n rs.1
        → Weighed rs
        → Counts k (suc n) (recorded toolbox limits round cached id rs)
    unfolding recorded
    recorded-Counts round cached id (r, s) c le = elim (Bool-cases (not r.ok || r.truncated)) [
      | inl e ↦ rw e (put_down-Counts r _ _ s c le)
      | inr e ↦ rw e (put_down-Counts r _ _ s c le)
    ]

    call_tool-Counts :
        (round index : ℕ) (item : RequestItem) (s : Session N)
        → Counts k n s
        → Counts k (suc n) (call_tool toolbox limits round index item s)
    unfolding call_tool
    call_tool-Counts round index item s c =
        recorded-Counts round _ _ _ (admitted-Calling _ _ _ _ _ (looked_up-Calling _ _ _ _ _ s c)) (
          admitted-Weighed _ _ _ _ _ (measured-encoded toolbox _ _ _ _ refl)
            (looked_up-Weighed _ _ _ _ _ s c.weighed))

    pub stop-Counts : (code : String) (s : Session N) → Counts k n s → Counts k n (stop code s)
    stop-Counts code s c = ground arith

  -- At most so many results.
  abbrev pub Within : ℕ → ℕ → Session N → Type 0
  Within k most s = (n : ℕ) × (n ≤ most) × Counts k n s

  pub call_tools-Within :
      (k : ℕ) (items : List RequestItem) (n most round index : ℕ) (s : Session N)
      → n + length items ≤ most
      → Counts k n s
      → Within k most (call_tools toolbox limits round index items s)
  unfolding call_tools
  call_tools-Within k [] n most round index s le c = (n, omega arith, c)
  call_tools-Within k (item ∷ items) n most round index s le c =
      let next = call_tool toolbox limits round index item s in
      let c' = call_tool-Counts round index item s c in
      elim (Bool-cases (str_mem "evidence_limit" next.trace.gaps)) [
        | inl e ↦ rw (e, call_tools) (suc n, omega arith, stop-Counts "evidence_limit" next c')
        | inr e ↦
            rw (e, call_tools)
              (call_tools-Within k items (suc n) most round (suc index) next (omega arith) c')
      ]

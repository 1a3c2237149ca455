-- ===== src/Agents/Exploration/Quiet.antt =====
-- The tool calls of a review stop it only where they leave a gap
-- (scanner/src/aegify/agents/exploration.py).
use aegify.Base.{
  ℕ, suc, ◌≡◌, ◌≢◌, refl, ◌∙◌, Bool, true, false, String, Option, none, some, List, [], ◌∷◌, ◌++◌,
  str_mem, Bool-cases, inl, inr, ◌⊎◌, arith,
}
use aegify.Agents.Exploration.Turns.{RequestItem}
use aegify.Agents.Exploration.Records.{ToolResult, Session, Limits, Toolbox}
use aegify.Agents.Exploration.Tools.{admitted, recorded, looked_up, call_tool, call_tools}
use aegify.Agents.Exploration.Rounds.{gap_if}

abbrev pub HasGap : {N : Type 0} → Session N → Type 0
HasGap s = s.trace.gaps ≢ []

-- The evidence had no room left.
abbrev pub IsCutShort : {N : Type 0} → Session N → Type 0
IsCutShort s = (s.trace.stop_reason ≡ "evidence_limit") × HasGap s

pub snoc-ne : (gaps : List String) (code : String) → (gaps ++ code ∷ []) ≢ []
snoc-ne [] code e = cc
snoc-ne (g ∷ gaps) code e = cc

pub gap_if-nil :
    (b : Bool) (code : String) (gaps : List String)
    → gap_if b code gaps ≡ []
    → (b ≡ false) × (gaps ≡ [])
gap_if-nil false code gaps e = (refl, e)
gap_if-nil true code gaps e = absurd (snoc-ne gaps code e)

module _ (toolbox : Toolbox) (limits : Limits) {N : Type 0} where
  -- The reason to stop is as it was.
  abbrev pub Quiet : Session N → Session N → Type 0
  Quiet s next = next.trace.stop_reason ≡ s.trace.stop_reason

  looked_up-Quiet :
      (known : Option ToolResult) (id name : String) (s : Session N)
      → (spec : _) (arguments : _)
      → Quiet s (looked_up toolbox limits known spec id name arguments s).1
  unfolding looked_up
  looked_up-Quiet none id name s spec arguments = refl
  looked_up-Quiet (some r) id name s spec arguments = refl

  admitted-Quiet :
      (key id name : String) (r : ToolResult × ℕ) (s : Session N)
      → Quiet s (admitted toolbox limits key id name r s).1
  unfolding admitted
  admitted-Quiet key id name (r, m) s = ground arith

  recorded-Quiet :
      (round : ℕ) (cached : Bool) (id : String) (rs : ToolResult × Session N)
      → Quiet rs.1 (recorded toolbox limits round cached id rs)
  unfolding recorded
  recorded-Quiet round cached id (r, s) = ground arith

  call_tool-Quiet :
      (round index : ℕ) (item : RequestItem) (s : Session N)
      → Quiet s (call_tool toolbox limits round index item s)
  unfolding call_tool
  call_tool-Quiet round index item s =
      recorded-Quiet round _ _ _ ∙ admitted-Quiet _ _ _ _ _ ∙ looked_up-Quiet _ _ _ s _ _

  pub call_tools-Quiet :
      (items : List RequestItem) (round index : ℕ) (s : Session N)
      → Quiet s (call_tools toolbox limits round index items s)
        ⊎ IsCutShort (call_tools toolbox limits round index items s)
  unfolding call_tools
  call_tools-Quiet [] round index s = inl refl
  call_tools-Quiet (item ∷ items) round index s =
      let next = call_tool toolbox limits round index item s in
      let q = call_tool-Quiet round index item s in
      elim (Bool-cases (str_mem "evidence_limit" next.trace.gaps)) [
        | inl e ↦ rw (e, call_tools) (inr (refl, snoc-ne _ _))
        | inr e ↦ elim (call_tools-Quiet items round (suc index) next) [
          | inl r ↦ rw (e, call_tools) (inl (r ∙ q))
          | inr g ↦ rw (e, call_tools) (inr g)
        ]
      ]

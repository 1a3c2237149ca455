-- ===== src/Agents/Exploration/Issued.antt =====
-- Where the citations of a review come from (scanner/src/aegify/agents/exploration.py).
use aegify.Base.{
  ltb, ◌+◌, ℕ, suc, ◌≡◌, refl, sym, ◌∙◌, subst, Bool, true, false, String, Option, none, some, List,
  [], ◌∷◌, ◌++◌, ◌&&◌, not, ◌||◌, str_eq, str_mem, Dict, lookup, insert, lookup-insert_same,
  lookup-insert_other, Member, here, there, append-left, append-right, Bool-cases, Option-cases,
  inl, inr,
}
use aegify.Agents.Exploration.Turns.{RequestItem, ToolSpec, Argument}
use aegify.Agents.Exploration.Records.{Location, Citation, ToolResult, Session, Limits, Toolbox}
use aegify.Agents.Exploration.Tools.{
  candidates, set_default, cite, cite_all, looked_up, admitted, recorded, call_tool, call_tools,
}
use aegify.Agents.Exploration.Rounds.{select}

and_both : (a b : Bool) → (a && not b) ≡ true → (a ≡ true) × (b ≡ false)
and_both true false e = (refl, refl)
and_both true true e = absurd (cc)
and_both false b e = absurd (cc)

-- Every citation that is found is of a kind.
module _ (Q : Citation → Type 0) where
  abbrev pub Found : Dict Citation → Type 0
  Found d = (id : String) (c : Citation) → lookup id d ≡ some c → Q c

  insert-Found :
      (c : Citation) (k : String) (d : Dict Citation) → Q c → Found d → Found (insert k c d)
  insert-Found c k d q found id b l = elim (Bool-cases (str_eq k id)) [
    | inl e ↦
        let it : some c ≡ some b = sym (lookup-insert_same k id c d e) ∙ l in
        let c_b : c ≡ b = cc (it) in subst Q c_b q
    | inr e ↦ found id b (sym (lookup-insert_other k id c d e) ∙ l)
  ]

  set_default-Found :
      (c : Citation) (known : Option Citation) (d : Dict Citation)
      → Q c
      → Found d
      → Found (set_default c known d)
  set_default-Found c none d q found = insert-Found c c.location.citation_id d q found
  set_default-Found c (some old) d q found = found

  pub select-Found :
      (d : Dict Citation) (ids : List String) (c : Citation)
      → Found d
      → Member c (select d ids)
      → Q c
  select-Found d [] c found m = elim m [ ]
  select-Found d (id ∷ ids) c found m = elim (Option-cases (lookup id d)) [
    | inl e ↦ select-Found d ids c found (rw (e, select) at m)
    | inr (b, e) ↦ first b e (λ n. select-Found d ids c found n) (rw (e, select) at m)
  ]
    where
      first :
          (b : Citation)
          → lookup id d ≡ some b
          → (Member c (select d ids) → Q c)
          → Member c (b ∷ select d ids)
          → Q c
      first b e later (here p) = subst Q (sym p) (found id b e)
      first b e later (there n) = later n

  module _ (toolbox : Toolbox) (id : String) where
    open toolbox use {valid_citation}

    -- Each valid candidate gives a citation of the kind.
    abbrev Offers : List (Option Location) → Type 0
    Offers ls =
        (l : Location)
        → Member (some l) ls
        → valid_citation l ≡ true
        → Q (record { request_id = id; location = l })

    cite-Found :
        (l : Option Location) (ls : List (Option Location)) (d : Dict Citation)
        → Offers (l ∷ ls)
        → Found d
        → Found (cite toolbox id l d)
    cite-Found none ls d offers found = found
    cite-Found (some l) ls d offers found = elim (Bool-cases (valid_citation l)) [
      | inl e ↦ rw e (set_default-Found _ (lookup l.citation_id d) d (offers l (here refl) e) found)
      | inr e ↦ rw e found
    ]

    pub cite_all-Found :
        (ls : List (Option Location)) (d : Dict Citation)
        → Offers ls
        → Found d
        → Found (cite_all toolbox id ls d)
    unfolding cite_all
    cite_all-Found [] d offers found = found
    cite_all-Found (l ∷ ls) d offers found =
        cite_all-Found ls (cite toolbox id l d) (λ x m v. offers x (there m) v)
          (cite-Found l ls d offers found)

module _ (toolbox : Toolbox) where
  open toolbox use {valid_citation}

  -- A result that is complete, and that no limit cut, offers the citation, which the sources confirm.
  abbrev pub Issued : List ToolResult → Citation → Type 0
  Issued results c =
      (r : ToolResult) × Member r results
      × (r.ok ≡ true)
      × (r.truncated ≡ false)
      × Member (some c.location) (candidates r)
      × (c.request_id ≡ r.request_id)
      × (valid_citation c.location ≡ true)

  Issued-append :
      (results more : List ToolResult) (c : Citation)
      → Issued results c
      → Issued (results ++ more) c
  Issued-append results more c (r, m, ok, whole, offered, id, valid) =
      (r, append-left r results more m, ok, whole, offered, id, valid)

  module _ (limits : Limits) {N : Type 0} where
    -- What is known was issued, and nothing is cited yet.
    abbrev pub Open : Session N → Type 0
    Open s = Found (Issued s.results) s.citations × (s.trace.citations ≡ [])

    -- The same, once the result is put down.
    abbrev Pending : ToolResult × Session N → Type 0
    Pending (r, s) = Found (Issued (s.results ++ r ∷ [])) s.citations × (s.trace.citations ≡ [])

    looked_up-Open :
        (known : Option ToolResult) (spec : Option ToolSpec) (id name : String)
        (arguments : Dict Argument) (s : Session N)
        → Open s
        → Open (looked_up toolbox limits known spec id name arguments s).1
    unfolding looked_up
    looked_up-Open none spec id name arguments s o = o
    looked_up-Open (some r) spec id name arguments s o = o

    kept :
        (r : ToolResult) (s : Session N)
        → Found (Issued s.results) s.citations
        → Found (Issued (s.results ++ r ∷ [])) s.citations
    kept r s found id c l = Issued-append s.results (r ∷ []) c (found id c l)

    cited :
        (r : ToolResult) (s : Session N)
        → r.ok ≡ true
        → r.truncated ≡ false
        → Found (Issued s.results) s.citations
        → Found
            (Issued (s.results ++ r ∷ []))
            (cite_all toolbox r.request_id (candidates r) s.citations)
    cited r s ok whole found =
        cite_all-Found (Issued (s.results ++ r ∷ [])) toolbox r.request_id (candidates r)
          s.citations
          (λ l m v. (r, append-right r s.results (r ∷ []) (here refl), ok, whole, m, refl, v))
          (kept r s found)

    admitted-Pending :
        (key id name : String) (rm : ToolResult × ℕ) (s : Session N)
        → Open s
        → Pending (admitted toolbox limits key id name rm s)
    unfolding admitted
    admitted-Pending key id name (r, m) s (found, q) =
        elim (Bool-cases (ltb limits.max_evidence_bytes (s.evidence_bytes + m))) [
          | inl e ↦ rw e (kept _ s found, q)
          | inr e ↦ elim (Bool-cases (r.ok && not r.truncated)) [
            | inl f ↦
                let (ok, whole) = and_both r.ok r.truncated f in
                rw (e, f) (cited r s ok whole found, q)
            | inr f ↦ rw (e, f) (kept r s found, q)
          ]
        ]

    recorded-Open :
        (round : ℕ) (cached : Bool) (id : String) (rs : ToolResult × Session N)
        → Pending rs
        → Open (recorded toolbox limits round cached id rs)
    unfolding recorded
    recorded-Open round cached id (r, s) (found, q) = elim (Bool-cases (not r.ok || r.truncated)) [
      | inl e ↦ rw e (found, q)
      | inr e ↦ rw e (found, q)
    ]

    call_tool-Open :
        (round index : ℕ) (item : RequestItem) (s : Session N)
        → Open s
        → Open (call_tool toolbox limits round index item s)
    unfolding call_tool
    call_tool-Open round index item s o =
        recorded-Open round _ _ _ (admitted-Pending _ _ _ _ _ (looked_up-Open _ _ _ _ _ s o))

    pub call_tools-Open :
        (items : List RequestItem) (round index : ℕ) (s : Session N)
        → Open s
        → Open (call_tools toolbox limits round index items s)
    unfolding call_tools
    call_tools-Open [] round index s o = o
    call_tools-Open (item ∷ items) round index s o =
        let next = call_tool toolbox limits round index item s in
        let o' = call_tool-Open round index item s o in
        elim (Bool-cases (str_mem "evidence_limit" next.trace.gaps)) [
          | inl e ↦ rw (e, call_tools) o'
          | inr e ↦ rw (e, call_tools) (call_tools-Open items round (suc index) next o')
        ]

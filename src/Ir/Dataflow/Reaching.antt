-- ===== src/Ir/Dataflow/Reaching.antt =====
-- What the reaching definitions of `_build_data_overlays`
-- (scanner/src/aegify/ir/program_graph.py) say about the control flow.
use aegify.Base.{
  ℕ, zero, suc, ◌≡◌, ◌↔◌, refl, sym, ap, ◌∙◌, subst, Bool, true, false, String, List, [], ◌∷◌,
  arith, eq_iff, if◌then◌else◌, str_eq, str_mem, insert, Bool-cases, inl, inr, Dict, ◌⊎◌, sorted,
  Member,
}
use aegify.Ir.Dataflow.Definitions.{
  Flow, Reaching, Defs, at, current_in, current_out, is_settled, visit_nodes, rounds, text_before,
  no_defs, empty_for, reaching_definitions,
}
use aegify.Ir.Dataflow.Sets.{holds, holds-same_dict}
use aegify.Ir.Dataflow.Rounds.{
  at-insert, any_some, any_of, in-eq, out-eq, renewed, visit_settled, visit_unsettled,
  rounds-settled,
}

-- A path in the control flow from the definition of `v` at `x` to the node, without another
-- definition of `v` between them.
pub data Reaches (f : Flow) (x v : String) : String → Type 0 where
  from :
      {n : String}
      → str_mem x (f.predecessors n) ≡ true
      → str_mem v (f.definitions x) ≡ true
      → Reaches f x v n
  through :
      {n : String} (p : String)
      → str_mem p (f.predecessors n) ≡ true
      → str_mem v (f.definitions p) ≡ false
      → Reaches f x v p
      → Reaches f x v n

module _ (f : Flow) where
  -- A definition leaves a node that makes it, or that it reaches and that does not replace it.
  abbrev pub Leaves : String → String → String → Type 0
  Leaves x v n =
      ((x ≡ n) × (str_mem v (f.definitions n) ≡ true))
      ⊎ ((str_mem v (f.definitions n) ≡ false) × Reaches f x v n)

  pub record IsPrecise (s : Defs) : Type 0 where
    pub ins : (n x v : String) → holds x v (at n s.in_defs) ≡ true → Reaches f x v n
    pub outs : (n x v : String) → holds x v (at n s.out_defs) ≡ true → Leaves x v n

  current_in-Reaches :
      (s : Defs)
      → IsPrecise s
      → (n x v : String) → holds x v (current_in f n s) ≡ true
      → Reaches f x v n
  current_in-Reaches s i n x v h =
      let (p, m, k) =
        any_some (λ q. holds x v (at q s.out_defs)) (f.predecessors n)
          (sym (in-eq f n x v s) ∙ h) in
      elim (i.outs p x v k) [
        | inl (same, d) ↦ Reaches.from (rw same m) (rw same d)
        | inr (d, r) ↦ Reaches.through p m d r
      ]

  current_out-Leaves :
      (s : Defs)
      → IsPrecise s
      → (n x v : String) → holds x v (current_out f n s) ≡ true
      → Leaves x v n
  current_out-Leaves s i n x v h = elim (Bool-cases (str_mem v (f.definitions n))) [
    | inl d ↦ inl (
      (eq_iff x n).0 (
          sym (ap (λ b. if b then str_eq x n else holds x v (current_in f n s)) d)
          ∙ sym (out-eq f n x v s)
          ∙ h),
      d,
    )
    | inr d ↦ inr (
      d,
      current_in-Reaches s i n x v (
          sym (ap (λ b. if b then str_eq x n else holds x v (current_in f n s)) d)
          ∙ sym (out-eq f n x v s)
          ∙ h),
    )
  ]

  renewed-IsPrecise : (n : String) (s : Defs) → IsPrecise s → IsPrecise (renewed f n s)
  unfolding renewed
  renewed-IsPrecise n s i = record {
    ins = λ m x v h. elim (Bool-cases (str_eq n m)) [
      | inl e ↦
          subst (Reaches f x v) ((eq_iff n m).0 e)
            (current_in-Reaches s i n x v (chosen n m x v (current_in f n s) s.in_defs e h))
      | inr e ↦ i.ins m x v (passed n m x v (current_in f n s) s.in_defs e h)
    ];
    outs = λ m x v h. elim (Bool-cases (str_eq n m)) [
      | inl e ↦
          subst (Leaves x v) ((eq_iff n m).0 e)
            (current_out-Leaves s i n x v (chosen n m x v (current_out f n s) s.out_defs e h))
      | inr e ↦ i.outs m x v (passed n m x v (current_out f n s) s.out_defs e h)
    ];
  }
    where
      chosen :
          (n m x v : String) (d : Reaching) (ds : Dict Reaching)
          → str_eq n m ≡ true
          → holds x v (at m (insert n d ds)) ≡ true
          → holds x v d ≡ true
      chosen n m x v d ds e h =
          sym (ap (λ b. if b then holds x v d else holds x v (at m ds)) e)
          ∙ sym (at-insert x v n m d ds)
          ∙ h

      passed :
          (n m x v : String) (d : Reaching) (ds : Dict Reaching)
          → str_eq n m ≡ false
          → holds x v (at m (insert n d ds)) ≡ true
          → holds x v (at m ds) ≡ true
      passed n m x v d ds e h =
          sym (ap (λ b. if b then holds x v d else holds x v (at m ds)) e)
          ∙ sym (at-insert x v n m d ds)
          ∙ h

  visit_nodes-IsPrecise :
      (ns : List String) (s : Defs) (c : Bool) → IsPrecise s → IsPrecise (visit_nodes f ns (s, c)).0
  unfolding visit_nodes
  visit_nodes-IsPrecise [] s c i = i
  visit_nodes-IsPrecise (n ∷ ns) s c i = elim (Bool-cases (is_settled f n s)) [
    | inl e ↦
        subst (λ r. IsPrecise (visit_nodes f ns r).0) (sym (visit_settled f n s c e))
          (visit_nodes-IsPrecise ns s c i)
    | inr e ↦
        subst (λ r. IsPrecise (visit_nodes f ns r).0) (sym (visit_unsettled f n s c e))
          (visit_nodes-IsPrecise ns (renewed f n s) true (renewed-IsPrecise n s i))
  ]

  rounds-IsPrecise : (k : ℕ) (s : Defs) → IsPrecise s → IsPrecise (rounds f k s).0
  unfolding rounds
  rounds-IsPrecise zero s i = i
  rounds-IsPrecise (suc k) s i =
      either (visit_nodes f (sorted text_before f.nodes) (s, false)).1 _ _
        (rounds-IsPrecise k (visit_nodes f (sorted text_before f.nodes) (s, false)).0 after) after
    where
      after : IsPrecise (visit_nodes f (sorted text_before f.nodes) (s, false)).0
      after = visit_nodes-IsPrecise (sorted text_before f.nodes) s false i

      either :
          (b : Bool) (more : Defs × Bool) (r : Defs)
          → IsPrecise more.0
          → IsPrecise r
          → IsPrecise (if b then more else (r, true)).0
      either true more r x y = x
      either false more r x y = y

  nothing_held : (ns : List String) (n x v : String) → ¬ (holds x v (at n (empty_for ns)) ≡ true)
  nothing_held [] n x v h = cc
  nothing_held (m ∷ ns) n x v h = elim (Bool-cases (str_eq m n)) [
    | inl e ↦ ground arith
    | inr e ↦ nothing_held ns n x v (ground arith)
  ]

  -- Every definition that is found at a node reaches it, after however many rounds.
  pub reaching_definitions-Reaches :
      (n x v : String)
      → holds x v (at n (reaching_definitions f).0.in_defs) ≡ true
      → Reaches f x v n
  unfolding reaching_definitions
  reaching_definitions-Reaches =
      (rounds-IsPrecise _ (no_defs f) (record {
        ins = λ n x v h. absurd (nothing_held f.nodes n x v h);
        outs = λ n x v h. absurd (nothing_held f.nodes n x v h);
      })).ins

-- The predecessors that the code collects are nodes of the function.
unfoldable pub IsFlow : Flow → Type 0
IsFlow f = (n p : String) → str_mem p (f.predecessors n) ≡ true → Member p f.nodes

module _ (f : Flow) (s : Defs)
    (settled : (n : String) → Member n f.nodes → is_settled f n s ≡ true) where
  at_rest :
      (n x v : String)
      → Member n f.nodes
      → (holds x v (current_in f n s) ≡ holds x v (at n s.in_defs))
        × (holds x v (current_out f n s) ≡ holds x v (at n s.out_defs))
  at_rest n x v m =
      let here' = settled n m in
      (
        holds-same_dict x v (current_in f n s) (at n s.in_defs) (ground arith),
        holds-same_dict x v (current_out f n s) (at n s.out_defs) (ground arith),
      )

  arrives :
      IsFlow f
      → {x v n : String} → Reaches f x v n
      → Member n f.nodes
      → holds x v (at n s.in_defs) ≡ true
  unfolding IsFlow
  arrives w {x} {v} {n} (Reaches.from p d) m =
      let out : holds x v (at x s.out_defs) ≡ true =
        sym ((at_rest x x v (w n x p)).1)
        ∙ out-eq f x x v s
        ∙ ap (λ b. if b then str_eq x x else holds x v (current_in f x s)) d
        ∙ (eq_iff x x).1 refl in
      sym ((at_rest n x v m).0)
      ∙ in-eq f n x v s
      ∙ any_of (λ q. holds x v (at q s.out_defs)) (f.predecessors n) x p out
  arrives w {x} {v} {n} (Reaches.through p k d r) m =
      let member = w n p k in
      let before = arrives w r member in
      let out : holds x v (at p s.out_defs) ≡ true =
        sym ((at_rest p x v member).1)
        ∙ out-eq f p x v s
        ∙ ap (λ b. if b then str_eq x p else holds x v (current_in f p s)) d
        ∙ (at_rest p x v member).0
        ∙ before in
      sym ((at_rest n x v m).0)
      ∙ in-eq f n x v s
      ∙ any_of (λ q. holds x v (at q s.out_defs)) (f.predecessors n) p k out

-- Where the loop converges, the definitions found at a node of the function are exactly those that
-- reach it.
pub reaching_definitions-decides :
    (f : Flow) (n x v : String)
    → IsFlow f
    → Member n f.nodes
    → (reaching_definitions f).1 ≡ true
    → (holds x v (at n (reaching_definitions f).0.in_defs) ≡ true) ↔ Reaches f x v n
unfolding reaching_definitions
reaching_definitions-decides f n x v w m h = (
  reaching_definitions-Reaches f n x v,
  λ r. arrives f _ (rounds-settled f _ (no_defs f) h) w r m,
)

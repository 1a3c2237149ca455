-- ===== src/Ir/Query/Walks.antt =====
-- What a context-balanced path is: a walk over the selected edges in which a return edge leaves by
-- the call site that entered last. The depth of the stack is not bounded here. It specifies the
-- queries of scanner/src/aegify/ir/query.py.
use aegify.Base.{
  ℕ, ◌≡◌, refl, true, false, String, List, [], ◌∷◌, arith, leb, length, str_eq, eq_iff, Member,
  Bool-cases, ◌⊎◌, inl, inr,
}
use aegify.Ir.Query.Edges.{Edge, is_call, is_return, is_selected}
use aegify.Ir.Query.Context.{ContextState, cut, lead, transition}

module _ (out_edges : String → List Edge) (overlays : List String) where
  pub data Move (s t : ContextState) : Type 0 where
    within :
        (e : Edge)
        → Member e (out_edges s.node)
        → is_selected overlays e ≡ true
        → is_call e ≡ false
        → is_return e ≡ false
        → t ≡ record { node = e.target; stack = s.stack }
        → Move s t
    call :
        (e : Edge)
        → Member e (out_edges s.node)
        → is_selected overlays e ≡ true
        → is_call e ≡ true
        → str_eq e.callsite_id "" ≡ false
        → t ≡ record { node = e.target; stack = e.callsite_id ∷ s.stack }
        → Move s t
    return :
        (e : Edge) (rest : List String)
        → Member e (out_edges s.node)
        → is_selected overlays e ≡ true
        → is_call e ≡ false
        → is_return e ≡ true
        → str_eq e.callsite_id "" ≡ false
        → s.stack ≡ e.callsite_id ∷ rest
        → t ≡ record { node = e.target; stack = rest }
        → Move s t

  -- A walk, with the nodes that it passes.
  pub data Walk : ContextState → ContextState → List String → Type 0 where
    done : (s : ContextState) → Walk s s (s.node ∷ [])
    move :
        {s t u : ContextState} {nodes : List String}
        → Move s t
        → Walk t u nodes
        → Walk s u (s.node ∷ nodes)

  module _ (depth : ℕ) where
    stack_cases :
        (stack : List String)
        → (stack ≡ []) ⊎ ((top : String) × (rest : List String) × (stack ≡ top ∷ rest))
    stack_cases [] = inl refl
    stack_cases (top ∷ rest) = inr (top, rest, refl)

    -- Where an edge leads on, it is a move.
    pub transition-Move :
        (s t : ContextState) (e : Edge)
        → Member e (out_edges s.node)
        → transition overlays depth s e ≡ lead t
        → Move s t
    unfolding transition
    transition-Move s t e m h = elim (Bool-cases (is_selected overlays e)) [
      | inr n ↦ absurd (ground arith)
      | inl y ↦ elim (Bool-cases (is_call e)) [
        | inl c ↦ call e m y c (ground arith) (ground arith)
        | inr c ↦ elim (Bool-cases (is_return e)) [
          | inr r ↦ within e m y c r (ground arith)
          | inl r ↦ elim (stack_cases s.stack) [
            | inl empty ↦ absurd (ground arith)
            | inr (top, rest, full) ↦
                return e rest m y c r (ground arith) (ground (arith, eq_iff top e.callsite_id))
                  (ground arith)
          ]
        ]
      ]
    ]

    -- Every move is made by an edge that leads on, or that is cut off at the depth.
    pub record IsMade (s t : ContextState) : Type 0 where
      pub edge : Edge
      pub listed : Member edge (out_edges s.node)
      pub leads :
          (transition overlays depth s edge ≡ lead t) ⊎ (transition overlays depth s edge ≡ cut)

    pub Move-IsMade : (s t : ContextState) → Move s t → IsMade s t
    unfolding transition
    Move-IsMade s t (within e m y c r p) = record {
      edge = e;
      listed = m;
      leads = inl (ground arith);
    }
    Move-IsMade s t (call e m y c n p) = record {
      edge = e;
      listed = m;
      leads = elim (Bool-cases (leb depth (length s.stack))) [
        | inl full ↦ inr (ground arith)
        | inr free ↦ inl (ground arith)
      ];
    }
    Move-IsMade s t (return e rest m y c r n q p) = record {
      edge = e;
      listed = m;
      leads = inl (rw (y, c, r, q, n, (eq_iff e.callsite_id e.callsite_id).1 refl, p) refl);
    }

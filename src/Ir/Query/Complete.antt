-- ===== src/Ir/Query/Complete.antt =====
-- What the search of scanner/src/aegify/ir/query.py has explored when it gives an empty answer.
use aegify.Base.{
  ℕ, zero, suc, ◌≡◌, ◌≢◌, refl, sym, subst, true, false, String, Option, none, some, List, [], ◌∷◌,
  ◌++◌, arith, length, Member, sorted, sorted-Member, Bool-cases, ◌⊎◌, inl, inr, ok, has_key, find,
  Option-cases,
}
use aegify.Ir.Query.Edges.{Edge, edge_before}
use aegify.Ir.Query.Context.{
  ContextState, ContextState-eq, state_beq, state_beq_iff, Search, Transition, skip, cut, lead,
  transition, visit_to, visit_edges, Query, accepts, expand, exhausted, search, reconstruct,
}
use aegify.Ir.Query.Walks.{Move, Walk, Move-IsMade}

abbrev pub Known : Search → ContextState → Type 0
Known f s = has_key s f.predecessor ≡ true

-- A search goes on from `f` to `g`: nothing is forgotten, and what is new is queued.
record Grows (f g : Search) : Type 0 where
  keys : (s : ContextState) → Known f s → Known g s
  cuts : f.depth_truncated ≡ true → g.depth_truncated ≡ true
  fresh : (s : ContextState) → Known g s → Known f s ⊎ Member s g.pending
  waits : (s : ContextState) → Member s f.pending → Member s g.pending

Grows-refl : (f : Search) → Grows f f
Grows-refl f = record { keys = λ s h. h; cuts = λ h. h; fresh = λ s h. inl h; waits = λ s m. m }

Grows-trans : (f g h : Search) → Grows f g → Grows g h → Grows f h
Grows-trans f g h a b = record {
  keys = λ s k. b.keys s (a.keys s k);
  cuts = λ c. b.cuts (a.cuts c);
  fresh = λ s k. elim (b.fresh s k) [
    | inr m ↦ inr m
    | inl k' ↦ elim (a.fresh s k') [ inl k'' ↦ inl k'' | inr m ↦ inr (b.waits s m) ]
  ];
  waits = λ s m. b.waits s (a.waits s m);
}

Member-append_left :
    {s : ContextState} (xs ys : List ContextState) → Member s xs → Member s (xs ++ ys)
Member-append_left [] ys m = elim m [ ]
Member-append_left (x ∷ xs) ys (Member.here p) = Member.here p
Member-append_left (x ∷ xs) ys (Member.there m) = Member.there (Member-append_left xs ys m)

Member-snoc : (s : ContextState) (xs : List ContextState) → Member s (xs ++ s ∷ [])
Member-snoc s [] = Member.here refl
Member-snoc s (x ∷ xs) = Member.there (Member-snoc s xs)

enqueue-Grows :
    (s next : ContextState) (f : Search)
    → Grows f (record f {
      pending = f.pending ++ next ∷ [];
      predecessor = (next, some s) ∷ f.predecessor;
    })
enqueue-Grows s next f = record {
  keys = λ t k. ground arith;
  cuts = λ c. c;
  fresh = λ t k. elim (Bool-cases (state_beq next t)) [
    | inl y ↦ inr (
        subst (λ x. Member x (f.pending ++ next ∷ [])) ((state_beq_iff next t).0 y)
          (Member-snoc next f.pending))
    | inr n ↦ inl (rw n at k)
  ];
  waits = λ t m. Member-append_left f.pending (next ∷ []) m;
}

visit-Grows : (s : ContextState) (f : Search) (t : Transition) → Grows f (visit_to s f t)
visit-Grows s f skip = Grows-refl f
visit-Grows s f cut = record {
  keys = λ s h. h;
  cuts = λ h. refl;
  fresh = λ s h. inl h;
  waits = λ s m. m;
}
visit-Grows s f (lead next) = elim (Bool-cases (has_key next f.predecessor)) [
  | inl old ↦ rw (old, visit_to) (Grows-refl f)
  | inr new ↦ rw (new, visit_to) (enqueue-Grows s next f)
]

-- What a visited edge leaves behind.
visited-lead :
    (s : ContextState) (f : Search) (next : ContextState) → Known (visit_to s f (lead next)) next
visited-lead s f next = elim (Bool-cases (has_key next f.predecessor)) [
  | inl old ↦ rw (old, visit_to) old
  | inr new ↦ rw (new, visit_to) (rw ((state_beq_iff next next).1 refl) refl)
]

module _ (overlays : List String) (depth : ℕ) (s : ContextState) where
  edges-Grows : (f : Search) (es : List Edge) → Grows f (visit_edges overlays depth s f es)
  unfolding visit_edges
  edges-Grows f [] = Grows-refl f
  edges-Grows f (e ∷ es) =
      Grows-trans f (visit_to s f (transition overlays depth s e)) _
        (visit-Grows s f (transition overlays depth s e))
        (edges-Grows (visit_to s f (transition overlays depth s e)) es)

  edges-lead :
      (f : Search) (es : List Edge) (e : Edge) (t : ContextState)
      → Member e es
      → transition overlays depth s e ≡ lead t
      → Known (visit_edges overlays depth s f es) t
  unfolding visit_edges
  edges-lead f [] e t m h = elim m [ ]
  edges-lead f (x ∷ es) e t (Member.here p) h =
      (edges-Grows (visit_to s f (transition overlays depth s x)) es).keys t
        (let q : transition overlays depth s x ≡ lead t = cc (p, h) in rw q (visited-lead s f t))
  edges-lead f (x ∷ es) e t (Member.there m) h =
      edges-lead (visit_to s f (transition overlays depth s x)) es e t m h

  edges-cut :
      (f : Search) (es : List Edge) (e : Edge)
      → Member e es
      → transition overlays depth s e ≡ cut
      → (visit_edges overlays depth s f es).depth_truncated ≡ true
  unfolding visit_edges
  edges-cut f [] e m h = elim m [ ]
  edges-cut f (x ∷ es) e (Member.here p) h =
      (edges-Grows (visit_to s f (transition overlays depth s x)) es).cuts
        (let q : transition overlays depth s x ≡ cut = cc (p, h) in rw q refl)
  edges-cut f (x ∷ es) e (Member.there m) h =
      edges-cut (visit_to s f (transition overlays depth s x)) es e m h

module _ (out_edges : String → List Edge) (q : Query) where
  -- A state that was taken from the queue: it was not accepted, and its moves were followed, unless
  -- some call was cut off.
  pub record IsDone (f : Search) (s : ContextState) : Type 0 where
    passed : accepts q.target q.require_empty_stack s ≡ false
    followed :
        (t : ContextState) → Move out_edges q.overlays s t → Known f t ⊎ (f.depth_truncated ≡ true)

  abbrev pub IsExplored : Search → List ContextState → Type 0
  IsExplored f queue = (s : ContextState) → Known f s → Member s queue ⊎ IsDone f s

  IsDone-Grows : (f g : Search) (s : ContextState) → Grows f g → IsDone f s → IsDone g s
  IsDone-Grows f g s w d = record {
    passed = d.passed;
    followed = λ t m. elim (d.followed t m) [ inl k ↦ inl (w.keys t k) | inr c ↦ inr (w.cuts c) ];
  }

  expand-Grows : (s : ContextState) (f : Search) → Grows f (expand out_edges q s f)
  unfolding expand
  expand-Grows s f =
      edges-Grows q.overlays q.max_call_depth s f (sorted edge_before (out_edges s.node))

  expand-IsDone :
      (s : ContextState) (f : Search)
      → accepts q.target q.require_empty_stack s ≡ false
      → IsDone (expand out_edges q s f) s
  unfolding expand
  expand-IsDone s f bad = record {
    passed = bad;
    followed = λ t m.
        let made = Move-IsMade out_edges q.overlays q.max_call_depth s t m in
        let listed = sorted-Member edge_before (out_edges s.node) made.edge made.listed in
        elim made.leads [
          | inl h ↦ inl (edges-lead q.overlays q.max_call_depth s f _ made.edge t listed h)
          | inr h ↦ inr (edges-cut q.overlays q.max_call_depth s f _ made.edge listed h)
        ];
  }

  queue-split :
      (s t : ContextState) (rest : List ContextState)
      → Member s (t ∷ rest)
      → (s ≡ t) ⊎ Member s rest
  queue-split s t rest (Member.here p) = inl p
  queue-split s t rest (Member.there m) = inr m

  expand-IsExplored :
      (s : ContextState) (rest : List ContextState) (f : Search)
      → accepts q.target q.require_empty_stack s ≡ false
      → IsExplored f (s ∷ rest)
      → let next = expand out_edges q s (record f { pending = rest }) in
        IsExplored next next.pending
  expand-IsExplored s rest f bad x t k =
      let f' : Search = record f { pending = rest } in
      let w = expand-Grows s f' in
      elim (w.fresh t k) [
        | inr m ↦ inl m
        | inl k' ↦ elim (x t k') [
          | inr d ↦
              inr (IsDone-Grows f' _ t w (record { passed = d.passed; followed = d.followed }))
          | inl m ↦ elim (queue-split t s rest m) [
            | inr m' ↦ inl (w.waits t m')
            | inl p ↦
                inr (subst (IsDone (expand out_edges q s f')) (sym p) (expand-IsDone s f' bad))
          ]
        ]
      ]

  -- No state that a walk from a known state ends in is accepted.
  closed :
      (f : Search)
      → IsExplored f []
      → f.depth_truncated ≡ false
      → {s u : ContextState} {nodes : List String} → Walk out_edges q.overlays s u nodes
      → Known f s
      → accepts q.target q.require_empty_stack u ≡ false
  closed f x whole (Walk.done s) k = elim (x s k) [ inl m ↦ elim m [ ] | inr d ↦ d.passed ]
  closed f x whole (Walk.move {s} {t} m w) k = elim (x s k) [
    | inl n ↦ elim n [ ]
    | inr d ↦ elim (d.followed t m) [
      | inl k' ↦ closed f x whole w k'
      | inr c ↦ absurd (cc (c, whole))
    ]
  ]

  abbrev pub NoWalk : ContextState → Type 0
  NoWalk start =
      (u : ContextState) (nodes : List String)
      → Walk out_edges q.overlays start u nodes
      → accepts q.target q.require_empty_stack u ≡ false

  exhausted-NoWalk :
      (start : ContextState) (f : Search)
      → Known f start
      → IsExplored f []
      → exhausted out_edges q f ≡ ok []
      → NoWalk start
  exhausted-NoWalk start f k x e u nodes w = elim (Bool-cases f.depth_truncated) [
    | inl c ↦ absurd (cut_off c)
    | inr whole ↦ closed f x whole w k
  ]
    where
      cut_off : f.depth_truncated ≡ true → ⊥
      cut_off c = ground arith

  -- `reconstruct` never answers with the empty path.
  reconstruct-ne-nil :
      (rounds : ℕ) (d : List (ContextState × Option ContextState)) (o : Option ContextState)
      (n : String) (ns : List String)
      → reconstruct rounds d o (n ∷ ns) ≢ ok []
  unfolding reconstruct
  reconstruct-ne-nil rounds d none n ns h = cc
  reconstruct-ne-nil zero d (some s) n ns h = cc
  reconstruct-ne-nil (suc rounds) d (some s) n ns h = elim (Option-cases (find s d)) [
    | inl e ↦ absurd (cc (rw (e, reconstruct) at h))
    | inr (parent, e) ↦
        reconstruct-ne-nil rounds d parent s.node (n ∷ ns) (rw (e, reconstruct) at h)
  ]

  reconstruct-start :
      (rounds : ℕ) (d : List (ContextState × Option ContextState)) (s : ContextState)
      → reconstruct (suc rounds) d (some s) [] ≢ ok []
  unfolding reconstruct
  reconstruct-start rounds d s h = elim (Option-cases (find s d)) [
    | inl e ↦ absurd (cc (rw (e, reconstruct) at h))
    | inr (parent, e) ↦ reconstruct-ne-nil rounds d parent s.node [] (rw (e, reconstruct) at h)
  ]

  pub search-NoWalk :
      (start : ContextState) (left : ℕ) (f : Search) (queue : List ContextState)
      → Known f start
      → IsExplored f queue
      → search out_edges q left f queue ≡ ok []
      → NoWalk start
  unfolding search
  search-NoWalk start left f [] k x h = exhausted-NoWalk start f k x h
  search-NoWalk start zero f (s ∷ rest) k x h = absurd (cc)
  search-NoWalk start (suc left) f (s ∷ rest) k x h =
      elim (Bool-cases (accepts q.target q.require_empty_stack s)) [
        | inl good ↦
            absurd (reconstruct-start (length f.predecessor) f.predecessor s (rw good at h))
        | inr bad ↦
            search-NoWalk start left _ _
              ((expand-Grows s (record f { pending = rest })).keys start k)
              (expand-IsExplored s rest f bad x) (rw bad at h)
      ]

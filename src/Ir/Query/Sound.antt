-- ===== src/Ir/Query/Sound.antt =====
-- The predecessors that the search of scanner/src/aegify/ir/query.py keeps, and the path
-- reconstructed from them.
use aegify.Base.{
  ℕ, zero, suc, ◌≤◌, ◌≡◌, refl, sym, ◌∙◌, subst, true, false, String, Option, none, some, List, [],
  ◌∷◌, ◌++◌, arith, length, All, All-append, Member, Member_of_sorted, sorted, Bool-cases, inl, inr,
  Result, ok, raise, find, has_key,
}
use aegify.Ir.Query.Edges.{Edge, edge_before}
use aegify.Ir.Query.Context.{
  ContextState, ContextState-eq, state_beq, state_beq_iff, Predecessors, Search, Transition, skip,
  cut, lead, transition, visit_to, visit_edges, reconstruct, Query, QueryError, broken_chain,
  accepts, expand, exhausted, search,
}
use aegify.Ir.Query.Walks.{Move, Walk, transition-Move}

-- A key that is there differs from one that is not.
newer :
    (d : Predecessors) (k j : ContextState)
    → has_key k d ≡ false
    → has_key j d ≡ true
    → state_beq k j ≡ false
newer d k j absent present = elim (Bool-cases (state_beq k j)) [
  | inr n ↦ n
  | inl y ↦ absurd (cc (absent, present, (state_beq_iff k j).0 y))
]

-- A lookup that does not meet the newest entry reads the older ones.
older :
    (d r : Predecessors) (k : ContextState) (o : Option ContextState)
    → has_key k r ≡ false
    → ((j : ContextState) → has_key j ((k, o) ∷ r) ≡ true → find j d ≡ find j ((k, o) ∷ r))
    → (j : ContextState) → has_key j r ≡ true
    → find j d ≡ find j r
older d r k o absent agree j present =
    let n : state_beq k j ≡ false = newer r k j absent present in
    agree j (rw (n, present) refl) ∙ rw n refl

module _ (out_edges : String → List Edge) (overlays : List String) (start : ContextState) where
  -- Newest first, each state was reached by a move from a state behind it.
  abbrev pub IsLinked : Predecessors → Type 0
  IsLinked [] = Unit
  IsLinked ((s, none) ∷ d) = (s ≡ start) × (has_key s d ≡ false) × IsLinked d
  IsLinked ((s, some p) ∷ d) =
      Move out_edges overlays p s × (has_key p d ≡ true) × (has_key s d ≡ false) × IsLinked d

  -- A chain that reaches the start: the nodes in front of `path`.
  record IsRebuilt (rounds : ℕ) (d : Predecessors) (u : ContextState) (s : ContextState)
      (path : List String) : Type 0 where
    nodes : List String
    result : reconstruct rounds d (some s) path ≡ ok nodes
    walk : Walk out_edges overlays start u nodes

  rebuild-found :
      (d : Predecessors) (rounds : ℕ) (s u p : ContextState) (path : List String)
      → find s d ≡ some (some p)
      → IsRebuilt rounds d u p (s.node ∷ path)
      → IsRebuilt (suc rounds) d u s path
  unfolding reconstruct
  rebuild-found d rounds s u p path e b = record {
    nodes = b.nodes;
    result = rw (e, reconstruct) b.result;
    walk = b.walk;
  }

  rebuild :
      (d r : Predecessors) (rounds : ℕ) (s u : ContextState) (path : List String)
      → IsLinked r
      → ((k : ContextState) → has_key k r ≡ true → find k d ≡ find k r)
      → length r ≤ rounds
      → has_key s r ≡ true
      → Walk out_edges overlays s u (s.node ∷ path)
      → IsRebuilt rounds d u s path
  unfolding reconstruct
  rebuild d [] rounds s u path l agree h m w = absurd (cc)
  rebuild d ((k, p) ∷ r) zero s u path l agree h m w = absurd (omega arith)
  rebuild d ((k, none) ∷ r) (suc rounds) s u path l agree h m w =
      elim (Bool-cases (state_beq k s)) [
        | inl y ↦
            let found : find s d ≡ some none = agree s m ∙ rw y refl in
            let at_start : s ≡ start = sym ((state_beq_iff k s).0 y) ∙ l.0 in
            record {
              nodes = s.node ∷ path;
              result = rw (found, reconstruct) refl;
              walk = subst (λ x. Walk out_edges overlays x u (s.node ∷ path)) at_start w;
            }
        | inr n ↦
            rebuild d r (suc rounds) s u path l.2 (older d r k none l.1 agree) (omega arith)
              (rw n at m) w
      ]
  rebuild d ((k, some p) ∷ r) (suc rounds) s u path l agree h m w =
      elim (Bool-cases (state_beq k s)) [
        | inl y ↦ rebuild-found d rounds s u p path (agree s m ∙ rw y refl) (
            rebuild d r rounds p u (s.node ∷ path) l.3 (older d r k (some p) l.2 agree)
              (omega arith) l.1
              (Walk.move (subst (Move out_edges overlays p) ((state_beq_iff k s).0 y) l.0) w))
        | inr n ↦
            rebuild d r (suc rounds) s u path l.3 (older d r k (some p) l.2 agree) (omega arith)
              (rw n at m) w
      ]

  pub record IsKept (f : Search) : Type 0 where
    pub linked : IsLinked f.predecessor
    pub queued : All (λ s. has_key s f.predecessor ≡ true) f.pending

  pub keys-grow :
      (next s : ContextState) (o : Option ContextState) (d : Predecessors)
      → has_key s d ≡ true
      → has_key s ((next, o) ∷ d) ≡ true
  keys-grow next s o d h = ground arith

  All-grow :
      (next : ContextState) (o : Option ContextState) (d : Predecessors) (l : List ContextState)
      → All (λ s. has_key s d ≡ true) l
      → All (λ s. has_key s ((next, o) ∷ d) ≡ true) l
  All-grow next o d [] a = tt
  All-grow next o d (s ∷ l) a = (keys-grow next s o d a.0, All-grow next o d l a.1)

  own_key :
      (next : ContextState) (o : Option ContextState) (d : Predecessors)
      → has_key next ((next, o) ∷ d) ≡ true
  own_key next o d = rw ((state_beq_iff next next).1 refl) refl

  -- A state that is new is linked by its move and queued.
  enqueue-IsKept :
      (s next : ContextState) (f : Search)
      → has_key s f.predecessor ≡ true
      → Move out_edges overlays s next
      → has_key next f.predecessor ≡ false
      → IsKept f
      → IsKept (record f {
        pending = f.pending ++ next ∷ [];
        predecessor = (next, some s) ∷ f.predecessor;
      })
  enqueue-IsKept s next f known m new k = record {
    linked = (m, known, new, k.linked);
    queued =
        All-append (λ t. has_key t ((next, some s) ∷ f.predecessor) ≡ true) f.pending (next ∷ [])
          (All-grow next (some s) f.predecessor f.pending k.queued)
          (own_key next (some s) f.predecessor, tt);
  }

  module _ (depth : ℕ) where
    visit-IsKept :
        (s : ContextState) (f : Search) (e : Edge) (t : Transition)
        → transition overlays depth s e ≡ t
        → Member e (out_edges s.node)
        → has_key s f.predecessor ≡ true
        → IsKept f
        → IsKept (visit_to s f t) × (has_key s (visit_to s f t).predecessor ≡ true)
    visit-IsKept s f e skip h m known k = (k, known)
    visit-IsKept s f e cut h m known k = (record { linked = k.linked; queued = k.queued }, known)
    visit-IsKept s f e (lead next) h m known k = elim (Bool-cases (has_key next f.predecessor)) [
      | inl old ↦ rw (old, visit_to) (k, known)
      | inr new ↦
          rw (new, visit_to)
            (
              enqueue-IsKept s next f known (transition-Move out_edges overlays depth s next e m h)
                  new k,
              keys-grow next s (some s) f.predecessor known,
            )
    ]

    edges-IsKept :
        (s : ContextState) (f : Search) (es : List Edge)
        → ((e : Edge) → Member e es → Member e (out_edges s.node))
        → has_key s f.predecessor ≡ true
        → IsKept f
        → IsKept (visit_edges overlays depth s f es)
    unfolding visit_edges
    edges-IsKept s f [] inside known k = k
    edges-IsKept s f (e ∷ es) inside known k =
        let (k', known') =
          visit-IsKept s f e (transition overlays depth s e) refl (inside e (Member.here refl))
            known k in
        edges-IsKept s (visit_to s f (transition overlays depth s e)) es
          (λ a m. inside a (Member.there m)) known' k'

module _ (out_edges : String → List Edge) (q : Query) (start : ContextState) where
  -- A path that is found is a balanced walk from the start to a state that the query accepts.
  pub record IsBalanced (nodes : List String) : Type 0 where
    pub end : ContextState
    pub walk : Walk out_edges q.overlays start end nodes
    pub accepted : accepts q.target q.require_empty_stack end ≡ true

  abbrev pub IsAnswer : Result QueryError (List String) → Type 0
  IsAnswer (ok []) = Unit
  IsAnswer (ok (n ∷ ns)) = IsBalanced (n ∷ ns)
  IsAnswer (raise broken_chain) = ⊥
  IsAnswer (raise _) = Unit

  answer_of_walk : (nodes : List String) → IsBalanced nodes → IsAnswer (ok nodes)
  answer_of_walk [] b = tt
  answer_of_walk (n ∷ ns) b = b

  exhausted-IsAnswer : (f : Search) → IsAnswer (exhausted out_edges q f)
  exhausted-IsAnswer f = elim (Bool-cases f.depth_truncated) [
    | inl e ↦ subst IsAnswer (sym (cut_off e)) tt
    | inr e ↦ subst IsAnswer (sym (empty e)) tt
  ]
    where
      cut_off : f.depth_truncated ≡ true → exhausted out_edges q f ≡ raise QueryError.depth_exceeded
      cut_off e = ground arith

      empty : f.depth_truncated ≡ false → exhausted out_edges q f ≡ ok []
      empty e = ground arith

  expand-IsKept :
      (s : ContextState) (f : Search)
      → has_key s f.predecessor ≡ true
      → IsKept out_edges q.overlays start f
      → IsKept out_edges q.overlays start (expand out_edges q s f)
  unfolding expand
  expand-IsKept s f known k =
      edges-IsKept out_edges q.overlays start q.max_call_depth s f
        (sorted edge_before (out_edges s.node)) (Member_of_sorted edge_before (out_edges s.node))
        known k

  found-IsAnswer :
      (f : Search) (s : ContextState)
      → IsKept out_edges q.overlays start f
      → has_key s f.predecessor ≡ true
      → accepts q.target q.require_empty_stack s ≡ true
      → IsAnswer (reconstruct (suc (length f.predecessor)) f.predecessor (some s) [])
  found-IsAnswer f s k known good =
      let b =
        rebuild out_edges q.overlays start f.predecessor f.predecessor (suc (length f.predecessor))
          s s [] k.linked (λ j h. refl) (omega arith) known (Walk.done s) in
      subst IsAnswer (sym b.result)
        (answer_of_walk b.nodes (record { end = s; walk = b.walk; accepted = good }))

  pub search-IsAnswer :
      (left : ℕ) (f : Search) (queue : List ContextState)
      → IsKept out_edges q.overlays start (record f { pending = queue })
      → IsAnswer (search out_edges q left f queue)
  unfolding search
  search-IsAnswer left f [] k = exhausted-IsAnswer f
  search-IsAnswer zero f (s ∷ rest) k = tt
  search-IsAnswer (suc left) f (s ∷ rest) k =
      elim (Bool-cases (accepts q.target q.require_empty_stack s)) [
        | inl good ↦ rw good (found-IsAnswer (record f { pending = s ∷ rest }) s k k.queued.0 good)
        | inr bad ↦ rw bad (
            search-IsAnswer left _ _ (
              expand-IsKept s (record f { pending = rest }) k.queued.0
                (record { linked = k.linked; queued = k.queued.1 })))
      ]

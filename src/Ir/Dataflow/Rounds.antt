-- ===== src/Ir/Dataflow/Rounds.antt =====
-- How a round of `_build_data_overlays` (scanner/src/aegify/ir/program_graph.py) changes its
-- state, and when it leaves it alone.
use aegify.Base.{
  ℕ, zero, suc, ◌≡◌, refl, sym, ap, ◌∙◌, subst, Bool, true, false, String, List, [], ◌∷◌, arith,
  any, eq_iff, if◌then◌else◌, str_eq, str_mem, insert, lookup-insert, Bool-cases, inl, inr, Dict,
  sorted, Member, sorted-Member,
}
use aegify.Ir.Dataflow.Definitions.{
  Flow, Reaching, Defs, at, current_in, current_out, is_settled, visit_node, visit_nodes, rounds,
  text_before,
}
use aegify.Ir.Dataflow.Sets.{holds, holds-merge_all, holds-define}

pub at-insert :
    (x v n m : String) (d : Reaching) (ds : Dict Reaching)
    → holds x v (at m (insert n d ds)) ≡ (if str_eq n m then holds x v d else holds x v (at m ds))
at-insert x v n m d ds =
    rw (lookup-insert n m d ds)
      (elim (Bool-cases (str_eq n m)) [ inl e ↦ rw e refl | inr e ↦ rw e refl ])

pub any_some :
    (g : String → Bool) (ps : List String)
    → any g ps ≡ true
    → (p : String) × (str_mem p ps ≡ true) × (g p ≡ true)
any_some g [] h = absurd (cc)
any_some g (p ∷ ps) h = elim (Bool-cases (g p)) [
  | inl e ↦ (p, ground (arith, eq_iff p p), e)
  | inr e ↦ let (q, m, k) = any_some g ps (ground arith) in (q, ground arith, k)
]

pub any_of :
    (g : String → Bool) (ps : List String) (p : String)
    → str_mem p ps ≡ true
    → g p ≡ true
    → any g ps ≡ true
any_of g [] p m h = absurd (cc)
any_of g (q ∷ ps) p m h = elim (Bool-cases (str_eq p q)) [
  | inl e ↦ let k : g q ≡ true = subst (λ u. g u ≡ true) ((eq_iff p q).0 e) h in ground arith
  | inr e ↦ let k : any g ps ≡ true = any_of g ps p (ground arith) h in ground arith
]

no_member : {n : String} → ¬ Member n []
no_member m = elim m [ ]

module _ (f : Flow) where
  -- The two equations that hold at a node when a round leaves it alone.
  pub in-eq :
      (n x v : String) (s : Defs)
      → holds x v (current_in f n s) ≡ any (λ p. holds x v (at p s.out_defs)) (f.predecessors n)
  unfolding current_in
  in-eq n x v s = rw (holds-merge_all x v (f.predecessors n) s.out_defs []) refl

  pub out-eq :
      (n x v : String) (s : Defs)
      → holds x v (current_out f n s)
        ≡ (if str_mem v (f.definitions n) then str_eq x n else holds x v (current_in f n s))
  out-eq n x v s = holds-define x v n (f.definitions n) (current_in f n s)

  unfoldable pub renewed : String → Defs → Defs
  renewed n s = record {
    in_defs = insert n (current_in f n s) s.in_defs;
    out_defs = insert n (current_out f n s) s.out_defs;
  }

  pub visit_settled :
      (n : String) (s : Defs) (c : Bool) → is_settled f n s ≡ true → visit_node f n (s, c) ≡ (s, c)
  unfolding renewed
  visit_settled n s c e = ap (λ b. if b then (s, c) else (renewed n s, true)) e

  pub visit_unsettled :
      (n : String) (s : Defs) (c : Bool)
      → is_settled f n s ≡ false
      → visit_node f n (s, c) ≡ (renewed n s, true)
  unfolding renewed
  visit_unsettled n s c e = ap (λ b. if b then (s, c) else (renewed n s, true)) e

  still_changed : (ns : List String) (s : Defs) → (visit_nodes f ns (s, true)).1 ≡ true
  unfolding visit_nodes
  still_changed [] s = refl
  still_changed (n ∷ ns) s = elim (Bool-cases (is_settled f n s)) [
    | inl e ↦ ap (λ r. (visit_nodes f ns r).1) (visit_settled n s true e) ∙ still_changed ns s
    | inr e ↦
        ap (λ r. (visit_nodes f ns r).1) (visit_unsettled n s true e)
        ∙ still_changed ns (renewed n s)
  ]

  unchanged :
      (ns : List String) (s : Defs)
      → (visit_nodes f ns (s, false)).1 ≡ false
      → ((visit_nodes f ns (s, false)).0 ≡ s)
        × ((n : String) → Member n ns → is_settled f n s ≡ true)
  unfolding visit_nodes
  unchanged [] s h = (refl, λ n m. none_in n m)
    where
      none_in : (n : String) → Member n [] → is_settled f n s ≡ true
      none_in n m = absurd (no_member m)
  unchanged (n ∷ ns) s h = elim (Bool-cases (is_settled f n s)) [
    | inr e ↦ absurd (
        cc (
          h,
          ap (λ r. (visit_nodes f ns r).1) (visit_unsettled n s false e),
          still_changed ns (renewed n s),
        ))
    | inl e ↦
        let same = visit_settled n s false e in
        let (stays, all_settled) =
          unchanged ns s (sym (ap (λ r. (visit_nodes f ns r).1) same) ∙ h) in
        (ap (λ r. (visit_nodes f ns r).0) same ∙ stays, λ m. first_or e (all_settled m))
  ]
    where
      first_or :
          {m : String}
          → is_settled f n s ≡ true
          → (Member m ns → is_settled f m s ≡ true)
          → Member m (n ∷ ns)
          → is_settled f m s ≡ true
      first_or e rest (Member.here p) = subst (λ u. is_settled f u s ≡ true) (sym p) e
      first_or e rest (Member.there m) = rest m

  pub rounds-settled :
      (k : ℕ) (s : Defs)
      → (rounds f k s).1 ≡ true
      → (n : String) → Member n f.nodes
      → is_settled f n (rounds f k s).0 ≡ true
  unfolding rounds
  rounds-settled zero s h n m = absurd (cc)
  rounds-settled (suc k) s h n m =
      settled (λ t g. rounds-settled k t g n m)
        (visit_nodes f (sorted text_before f.nodes) (s, false)) refl h
    where
      settled :
          ((t : Defs) → (rounds f k t).1 ≡ true → is_settled f n (rounds f k t).0 ≡ true)
          → (r : Defs × Bool) → visit_nodes f (sorted text_before f.nodes) (s, false) ≡ r
          → (if r.1 then rounds f k r.0 else (r.0, true)).1 ≡ true
          → is_settled f n (if r.1 then rounds f k r.0 else (r.0, true)).0 ≡ true
      settled later (t, true) p g = later t g
      settled later (t, false) p g =
          let (stays, all_settled) =
            unchanged (sorted text_before f.nodes) s (ap (λ (r : Defs × Bool). r.1) p) in
          let same : s ≡ t = sym stays ∙ ap (λ (r : Defs × Bool). r.0) p in
          subst (λ u. is_settled f n u ≡ true) same
            (all_settled n (sorted-Member text_before f.nodes n m))

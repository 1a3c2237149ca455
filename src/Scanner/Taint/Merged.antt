-- ===== src/Scanner/Taint/Merged.antt =====
-- What `_merge_traces` of scanner/src/aegify/scanner/taint_v2.py leaves under each origin.
use aegify.Base.{
  ◌≡◌, refl, sym, ap, ◌∙◌, subst, Bool, true, false, String, ℕ, Option, none, some, [], ◌∷◌, lookup,
  offer, offer_new, offer_old, offer_from, Bests, either_false, ◌⊎◌, inl, inr, Member, here, there,
  arith, ◌↔◌,
}
use aegify.Scanner.Taint.Traces.{
  Trace, TraceMap, trace_rank, rank_before, outranks_trace, is_new, merge_onto, merge_traces,
}

rank_irreflexive : (a b : ℕ) → rank_before (a, b) (a, b) ≡ false
rank_irreflexive a b = ground arith

rank_trans :
    (a b c d e f : ℕ)
    → rank_before (a, b) (c, d) ≡ true
    → rank_before (c, d) (e, f) ≡ true
    → rank_before (a, b) (e, f) ≡ true
rank_trans a b c d e f p q = ground arith

outranks_trace_irreflexive : (t : Trace) → outranks_trace t t ≡ false
unfolding outranks_trace
outranks_trace_irreflexive t = rank_irreflexive (trace_rank t).0 (trace_rank t).1

outranks_trace_trans :
    (t u v : Trace)
    → outranks_trace t u ≡ true
    → outranks_trace u v ≡ true
    → outranks_trace t v ≡ true
unfolding outranks_trace
outranks_trace_trans t u v p q =
    rank_trans (trace_rank t).0 (trace_rank t).1 (trace_rank u).0 (trace_rank u).1 (trace_rank v).0
      (trace_rank v).1 p q

-- The map has a trace of the origin, and the given one does not outrank it.
abbrev pub Dominated : TraceMap → String → Trace → Type 0
Dominated = Bests outranks_trace

merge_old :
    (incoming target : TraceMap) (changed : Bool) (origin : String) (t : Trace)
    → Dominated target origin t
    → Dominated (merge_onto target incoming changed).0 origin t
unfolding merge_onto
merge_old [] target changed origin t r = r
merge_old ((o, c) ∷ incoming) target changed origin t r = merge_old incoming _ _ origin t (
    offer_old outranks_trace outranks_trace_irreflexive outranks_trace_trans o origin c t
      (lookup o target) target refl r)

merge_new :
    (incoming target : TraceMap) (changed : Bool) (origin : String) (t : Trace)
    → Member (origin, t) incoming
    → Dominated (merge_onto target incoming changed).0 origin t
unfolding merge_onto
merge_new [] target changed origin t m = elim m [ ]
merge_new ((o, c) ∷ incoming) target changed origin t (here e) = merge_old incoming _ _ origin t (
    subst (λ x. Dominated (offer outranks_trace o c (lookup o target) target) x.0 x.1) (sym e)
      (offer_new outranks_trace outranks_trace_irreflexive outranks_trace_trans o c
        (lookup o target) target refl))
merge_new ((o, c) ∷ incoming) target changed origin t (there m) = merge_new incoming _ _ origin t m

-- The trace was there under the origin, or comes in under it.
abbrev pub Given : TraceMap → TraceMap → String → Trace → Type 0
Given target incoming origin t = (lookup origin target ≡ some t) ⊎ Member (origin, t) incoming

merge_from :
    (incoming target : TraceMap) (changed : Bool) (origin : String) (t : Trace)
    → lookup origin (merge_onto target incoming changed).0 ≡ some t
    → Given target incoming origin t
unfolding merge_onto
merge_from [] target changed origin t l = inl l
merge_from ((o, c) ∷ incoming) target changed origin t l =
    elim (merge_from incoming _ _ origin t l) [
      | inl k ↦ elim (offer_from outranks_trace o origin c t (lookup o target) target k) [
        | inl old ↦ inl old
        | inr (s, e) ↦ inr (here (cc (s, e)))
      ]
      | inr m ↦ inr (there m)
    ]

offer_unchanged :
    (o : String) (c : Trace) (current : Option Trace) (target : TraceMap)
    → is_new c current ≡ false
    → offer outranks_trace o c current target ≡ target
offer_unchanged o c none target n = absurd (cc)
offer_unchanged o c (some t) target n = rw n refl

merge_unchanged :
    (incoming target : TraceMap) (changed : Bool)
    → (merge_onto target incoming changed).1 ≡ false
    → (changed ≡ false) × ((merge_onto target incoming changed).0 ≡ target)
unfolding merge_onto
merge_unchanged [] target changed n = (n, refl)
merge_unchanged ((o, c) ∷ incoming) target changed n =
    let current = lookup o target in
    let (q, e) = merge_unchanged incoming (offer outranks_trace o c current target) _ n in
    let (before, now) = either_false changed (is_new c current) q in
    (before, e ∙ offer_unchanged o c current target now)

-- A trace that was in the target under its origin, or came in under it, leaves in the merged map a
-- trace of its origin that it does not outrank and that was itself in the target or came in there. An
-- unsanitized trace outranks one that is sanitized for some sink; else a shorter one outranks a
-- longer one.
pub merge_traces-keeps_best :
    (target incoming : TraceMap) (origin : String) (t : Trace)
    → Given target incoming origin t
    → (g : Trace) × (lookup origin (merge_traces target incoming).0 ≡ some g)
      × (outranks_trace t g ≡ false)
      × Given target incoming origin g
merge_traces-keeps_best target incoming origin t given =
    let (g, l, r) = kept given in (g, l, r, merge_from incoming target false origin g l)
  where
    kept : Given target incoming origin t → Dominated (merge_traces target incoming).0 origin t
    kept (inl l) = merge_old incoming target false origin t (t, l, outranks_trace_irreflexive t)
    kept (inr m) = merge_new incoming target false origin t m

-- Every incoming trace has one in the target that it does not outrank.
abbrev pub Settled : TraceMap → TraceMap → Type 0
Settled target incoming =
    (origin : String) (t : Trace) → Member (origin, t) incoming → Dominated target origin t

not_new :
    (c : Trace) (target : TraceMap) (origin : String)
    → Dominated target origin c
    → is_new c (lookup origin target) ≡ false
not_new c target origin (g, l, r) = rw l r

merge_idle :
    (incoming target : TraceMap)
    → Settled target incoming
    → merge_onto target incoming false ≡ (target, false)
unfolding merge_onto
merge_idle [] target s = refl
merge_idle ((o, c) ∷ incoming) target s =
    let old = not_new c target o (s o c (here refl)) in
    rw (offer_unchanged o c (lookup o target) target old, old)
      (merge_idle incoming target (λ origin t m. s origin t (there m)))

-- A merge answers that nothing changed just where every incoming trace has one of its origin in the
-- target that it does not outrank, and merging the same traces once more leaves the map as it is and
-- answers that nothing changed.
pub merge_traces-changed :
    (target incoming : TraceMap)
    → (((merge_traces target incoming).1 ≡ false) ↔ Settled target incoming)
      × (merge_traces (merge_traces target incoming).0 incoming
          ≡ ((merge_traces target incoming).0, false))
merge_traces-changed target incoming = (
  (
    λ n. subst (λ m. Settled m incoming) (merge_unchanged incoming target false n).1 settled,
    λ s. ap (λ m. m.1) (merge_idle incoming target s),
  ),
  merge_idle incoming (merge_traces target incoming).0 settled,
)
  where
    settled : Settled (merge_traces target incoming).0 incoming
    settled origin t m = merge_new incoming target false origin t m

-- ===== src/Ir/Dataflow/Sets.antt =====
-- What the dictionaries of sets of `_build_data_overlays` (scanner/src/aegify/ir/program_graph.py)
-- hold after an update, a merge or a definition.
use aegify.Base.{
  ◌≡◌, refl, subst, sym, Bool, true, false, ◌&&◌, ◌||◌, String, Option, none, some, List, [], ◌∷◌,
  ◌++◌, arith, any, all, eq_iff, if◌then◌else◌, str_eq, str_mem, lookup, insert, lookup-insert,
  keys, Bool-cases, inl, inr, Dict,
}
use aegify.Ir.Dataflow.Definitions.{
  Reaching, set_or_empty, defs_of, at, update, merge_keys, merge_all, define, same_keys, same_at,
  is_key, same_dict,
}

-- The node `x` is in the set of the variable `v`.
abbrev pub holds : String → String → Reaching → Bool
holds x v d = str_mem x (defs_of v d)

str_mem-append :
    (x : String) (s t : List String) → str_mem x (s ++ t) ≡ (str_mem x s || str_mem x t)
str_mem-append x [] t = refl
str_mem-append x (y ∷ s) t = ground (arith, str_mem-append x s t)

pub str_mem-update :
    (x : String) (s xs : List String) → str_mem x (update s xs) ≡ (str_mem x s || str_mem x xs)
unfolding update
str_mem-update x s [] = ground arith
str_mem-update x s (y ∷ ys) = elim (Bool-cases (str_mem y s)) [
  | inl e ↦ rw e (ground (arith, eq_iff x y, str_mem-update x s ys))
  | inr e ↦ rw e (ground (arith, str_mem-update x (s ++ y ∷ []) ys, str_mem-append x s (y ∷ [])))
]

holds-insert :
    (x v w : String) (s : List String) (d : Reaching)
    → holds x w (insert v s d) ≡ (if str_eq v w then str_mem x s else holds x w d)
holds-insert x v w s d =
    rw (lookup-insert v w s d)
      (elim (Bool-cases (str_eq v w)) [ inl e ↦ rw e refl | inr e ↦ rw e refl ])

holds-merge_keys :
    (x w : String) (vs : List String) (d merged : Reaching)
    → holds x w (merge_keys vs d merged) ≡ (holds x w merged || str_mem w vs && holds x w d)
unfolding merge_keys
holds-merge_keys x w [] d merged = ground arith
holds-merge_keys x w (v ∷ vs) d merged =
    rw
      (
        holds-merge_keys x w vs d (insert v (update (defs_of v merged) (defs_of v d)) merged),
        holds-insert x v w (update (defs_of v merged) (defs_of v d)) merged,
        str_mem-update x (defs_of v merged) (defs_of v d),
      )
      (elim (Bool-cases (str_eq v w)) [
        | inl e ↦ let p : v ≡ w = (eq_iff v w).0 e in ground (arith, eq_iff w v)
        | inr e ↦ ground (arith, eq_iff w v, eq_iff v w)
      ])

keys-holds : (x w : String) (d : Reaching) → holds x w d ≡ true → str_mem w (keys d) ≡ true
keys-holds x w [] h = absurd (cc)
keys-holds x w ((v, s) ∷ d) h = ground (arith, eq_iff v w, eq_iff w v, keys-holds x w d)

pub holds-merge_all :
    (x w : String) (ps : List String) (out_defs : Dict Reaching) (merged : Reaching)
    → holds x w (merge_all ps out_defs merged)
      ≡ (holds x w merged || any (λ p. holds x w (at p out_defs)) ps)
unfolding merge_all
holds-merge_all x w [] out_defs merged = ground arith
holds-merge_all x w (p ∷ ps) out_defs merged =
    rw
      (
        holds-merge_all x w ps out_defs (merge_keys (keys (at p out_defs)) (at p out_defs) merged),
        holds-merge_keys x w (keys (at p out_defs)) (at p out_defs) merged,
      )
      (elim (Bool-cases (holds x w (at p out_defs))) [
        | inl h ↦
            let k : str_mem w (keys (at p out_defs)) ≡ true = keys-holds x w (at p out_defs) h in
            rw (h, k) (ground arith)
        | inr h ↦ rw h (ground arith)
      ])

pub holds-define :
    (x w n : String) (vs : List String) (d : Reaching)
    → holds x w (define n vs d) ≡ (if str_mem w vs then str_eq x n else holds x w d)
unfolding define
holds-define x w n [] d = refl
holds-define x w n (v ∷ vs) d =
    rw (holds-define x w n vs (insert v (n ∷ []) d), holds-insert x v w (n ∷ []) d)
      (ground (arith, eq_iff w v, eq_iff v w))

both : (a b : Bool) → (a ≡ true → b ≡ true) → (b ≡ true → a ≡ true) → a ≡ b
both true b f g = sym (f refl)
both false true f g = g refl
both false false f g = refl

all_mem :
    (s t : List String) (x : String)
    → all (λ y. str_mem y t) s ≡ true
    → str_mem x s ≡ true
    → str_mem x t ≡ true
all_mem [] t x h m = absurd (cc)
all_mem (y ∷ s) t x h m = ground (arith, eq_iff x y, all_mem s t x)

same_keys_at :
    (vs : List String) (d e : Reaching) (v : String)
    → same_keys vs d e ≡ true
    → str_mem v vs ≡ true
    → same_at (lookup v e) (defs_of v d) ≡ true
same_keys_at [] d e v h m = absurd (cc)
same_keys_at (w ∷ vs) d e v h m = elim (Bool-cases (str_eq v w)) [
  | inl p ↦
      let same : w ≡ v = sym ((eq_iff v w).0 p) in
      subst (λ u. same_at (lookup u e) (defs_of u d) ≡ true) same (ground arith)
  | inr p ↦ same_keys_at vs d e v (ground arith) (ground arith)
]

same_at_forth :
    (x : String) (o : Option (List String)) (s : List String)
    → same_at o s ≡ true
    → str_mem x s ≡ str_mem x (set_or_empty o)
same_at_forth x none s h = absurd (cc)
same_at_forth x (some t) s h =
    both (str_mem x s) (str_mem x t) (λ m. all_mem s t x (ground arith) m)
      (λ m. all_mem t s x (ground arith) m)

key_lookup : (w : String) (d : Reaching) → is_key (lookup w d) ≡ true → str_mem w (keys d) ≡ true
key_lookup w [] h = absurd (cc)
key_lookup w ((v, s) ∷ d) h = ground (arith, eq_iff v w, eq_iff w v, key_lookup w d)

all_key :
    (vs : List String) (d : Reaching) (w : String)
    → all (λ v. is_key (lookup v d)) vs ≡ true
    → str_mem w vs ≡ true
    → is_key (lookup w d) ≡ true
all_key [] d w h m = absurd (cc)
all_key (v ∷ vs) d w h m = ground (arith, eq_iff w v, all_key vs d w)

-- Dictionaries that compare equal hold the same definitions.
pub holds-same_dict :
    (x w : String) (d e : Reaching) → same_dict d e ≡ true → holds x w d ≡ holds x w e
unfolding same_dict
holds-same_dict x w d e h = elim (Bool-cases (str_mem w (keys d))) [
  | inl k ↦
      same_at_forth x (lookup w e) (defs_of w d) (same_keys_at (keys d) d e w (ground arith) k)
  | inr k ↦
      both (holds x w d) (holds x w e) (λ m. absurd (cc (k, keys-holds x w d m)))
        (λ m.
          absurd
            (cc (k, key_lookup w d (all_key (keys e) d w (ground arith) (keys-holds x w e m)))))
]

-- ===== src/Base/Best.antt =====
-- A dictionary that keeps, under each key, one of the values that no other put there is better than.
use mathlib.Core.Path.{◌≡◌, sym, ap, subst, ◌∙◌, refl}
use mathlib.Core.Bool.{Bool, true, false}
use mathlib.Core.Logic.{◌⊎◌, inl, inr}
use mathlib.Core.Option.{Option, none, some}
use Prim.Native.String.{String}
use text.Mathlib.TextEquality.{eq_iff}
use text.Mathlib.TextPositions.{eq_refl}
use aegify.Base.Tests.{if◌then◌else◌, Bool-cases}
use aegify.Base.Texts.{str_eq}
use aegify.Base.Dicts.{Dict, lookup, insert, lookup-insert}

module _ {ℓ} {V : Type ℓ} where
  pub lookup-insert_same :
      (k j : String) (v : V) (d : Dict V) → str_eq k j ≡ true → lookup j (insert k v d) ≡ some v
  lookup-insert_same k j v d e = lookup-insert k j v d ∙ rw e refl

  pub lookup-insert_other :
      (k j : String) (v : V) (d : Dict V)
      → str_eq k j ≡ false
      → lookup j (insert k v d) ≡ lookup j d
  lookup-insert_other k j v d e = lookup-insert k j v d ∙ rw e refl

module _ {V : Type 0} (better : V → V → Bool) where
  -- The value is put under the key if there is none, or a worse one.
  abbrev pub offer : String → V → Option V → Dict V → Dict V
  offer k v none d = insert k v d
  offer k v (some c) d = if better v c then insert k v d else d

  put_from :
      (k j : String) (v g : V) (d : Dict V)
      → lookup j (insert k v d) ≡ some g
      → (lookup j d ≡ some g) ⊎ ((j ≡ k) × (g ≡ v))
  put_from k j v g d l = elim (Bool-cases (str_eq k j)) [
    | inl s ↦
        let it : some v ≡ some g = sym (lookup-insert_same k j v d s) ∙ l in
        let k_j : k ≡ j = (eq_iff k j).0 s in inr (sym k_j, cc (it))
    | inr s ↦ inl (sym (lookup-insert_other k j v d s) ∙ l)
  ]

  -- There is a value under the key, and the given one is not better.
  abbrev pub Bests : Dict V → String → V → Type 0
  Bests d k v = (g : V) × (lookup k d ≡ some g) × (better v g ≡ false)

  module _ (irreflexive : (v : V) → better v v ≡ false)
      (trans : (u v w : V) → better u v ≡ true → better v w ≡ true → better u w ≡ true) where
    not_better : (h v g : V) → better v g ≡ true → better h g ≡ false → better h v ≡ false
    not_better h v g p q = elim (Bool-cases (better h v)) [
      | inl e ↦ let r = trans h v g e p in absurd (cc (r, q))
      | inr e ↦ e
    ]

    pub offer_new :
        (k : String) (v : V) (o : Option V) (d : Dict V)
        → lookup k d ≡ o
        → Bests (offer k v o d) k v
    offer_new k v none d e = (v, lookup-insert_same k k v d (eq_refl k), irreflexive v)
    offer_new k v (some g) d e = elim (Bool-cases (better v g)) [
      | inl p ↦ rw p (v, lookup-insert_same k k v d (eq_refl k), irreflexive v)
      | inr p ↦ rw p (g, e, p)
    ]

    pub offer_old :
        (k j : String) (v h : V) (o : Option V) (d : Dict V)
        → lookup k d ≡ o
        → Bests d j h
        → Bests (offer k v o d) j h
    offer_old k j v h none d e (g, l, r) = elim (Bool-cases (str_eq k j)) [
      | inl s ↦
          let gone : none ≡ some g = sym e ∙ ap (λ t. lookup t d) ((eq_iff k j).0 s) ∙ l in
          absurd (cc)
      | inr s ↦ (g, lookup-insert_other k j v d s ∙ l, r)
    ]
    offer_old k j v h (some c) d e (g, l, r) = elim (Bool-cases (better v c)) [
      | inl p ↦ elim (Bool-cases (str_eq k j)) [
        | inl s ↦
            let it : some c ≡ some g = sym e ∙ ap (λ t. lookup t d) ((eq_iff k j).0 s) ∙ l in
            let c_g : c ≡ g = cc (it) in
            rw p (
              v,
              lookup-insert_same k j v d s,
              not_better h v g (subst (λ t. better v t ≡ true) c_g p) r,
            )
        | inr s ↦ rw p (g, lookup-insert_other k j v d s ∙ l, r)
      ]
      | inr p ↦ rw p (g, l, r)
    ]

  -- What stands under a key was there before, or was put there.
  pub offer_from :
      (k j : String) (v g : V) (o : Option V) (d : Dict V)
      → lookup j (offer k v o d) ≡ some g
      → (lookup j d ≡ some g) ⊎ ((j ≡ k) × (g ≡ v))
  offer_from k j v g none d l = put_from k j v g d l
  offer_from k j v g (some c) d l = elim (Bool-cases (better v c)) [
    | inl p ↦ put_from k j v g d (rw p at l)
    | inr p ↦ inl (rw p at l)
  ]

-- ===== src/Scanner/Findings/Represented.antt =====
-- What the second loop of `_filter_findings` (scanner/src/aegify/scanner/engine.py) keeps of each
-- occurrence.
use aegify.Base.{
  ◌≡◌, ◌∙◌, refl, sym, subst, Bool, true, false, String, Option, none, some, List, [], ◌∷◌,
  if◌then◌else◌, str_eq, eq_iff, Dict, lookup, insert, lookup-insert_same, lookup-insert_other,
  offer_new, offer_old, Bests, map, Bool-cases, inl, inr, Member, here, there,
}
use aegify.Scanner.Findings.Records.{Confidences, Finding, Severity}
use aegify.Scanner.Findings.Filter.{
  admissible, filtered, occurrence, outranks, see, dedupe, deduped, blocks,
}

module _ (confidences : Confidences) where
  open confidences use {lower, lower_irreflexive, lower_trans}

  abbrev F : Type 0
  F = Finding confidences

  outranks_irreflexive : (f : F) → outranks confidences f f ≡ false
  unfolding outranks
  outranks_irreflexive f = self (blocks f.disposition) (lower_irreflexive f.confidence)
    where
      self :
          (b : Bool)
          → lower f.confidence f.confidence ≡ false
          → (if b
              then (if b then lower f.confidence f.confidence else true)
              else (if b then false else lower f.confidence f.confidence))
            ≡ false
      self true h = h
      self false h = h

  outranks_trans :
      (f g h : F)
      → outranks confidences f g ≡ true
      → outranks confidences g h ≡ true
      → outranks confidences f h ≡ true
  unfolding outranks
  outranks_trans f g h p q =
      chained (blocks f.disposition) (blocks g.disposition) (blocks h.disposition) p q
    where
      rank : Bool → Bool → Bool → Bool
      rank a b l = if a then (if b then l else true) else (if b then false else l)

      chained :
          (a b c : Bool)
          → rank a b (lower g.confidence f.confidence) ≡ true
          → rank b c (lower h.confidence g.confidence) ≡ true
          → rank a c (lower h.confidence f.confidence) ≡ true
      chained true true true x y = lower_trans _ _ _ y x
      chained true true false x y = refl
      chained true false true x y = absurd (cc)
      chained true false false x y = refl
      chained false true c x y = absurd (cc)
      chained false false true x y = absurd (cc)
      chained false false false x y = lower_trans _ _ _ y x

  -- The occurrence of a finding is kept by one that it does not outrank.
  abbrev pub Represented : Dict F → F → Type 0
  Represented seen f = Bests (outranks confidences) seen (occurrence confidences f) f

  -- Each kept finding stands under its occurrence.
  abbrev pub Keyed : Dict F → Type 0
  Keyed seen = (k : String) (g : F) → lookup k seen ≡ some g → occurrence confidences g ≡ k

  abbrev key : F → String
  key = occurrence confidences

  see_new : (f : F) (seen : Dict F) → Represented (see confidences f (lookup (key f) seen) seen) f
  see_new f seen =
      offer_new (outranks confidences) outranks_irreflexive outranks_trans (key f) f
        (lookup (key f) seen) seen refl

  see_old :
      (f h : F) (seen : Dict F)
      → Represented seen h
      → Represented (see confidences f (lookup (key f) seen) seen) h
  see_old f h seen =
      offer_old (outranks confidences) outranks_irreflexive outranks_trans (key f) (key h) f h
        (lookup (key f) seen) seen refl

  insert-Keyed : (f : F) (seen : Dict F) → Keyed seen → Keyed (insert (key f) f seen)
  insert-Keyed f seen keyed k g l = elim (Bool-cases (str_eq (key f) k)) [
    | inl s ↦
        let it : some f ≡ some g = sym (lookup-insert_same (key f) k f seen s) ∙ l in
        let f_g : f ≡ g = cc (it) in subst (λ t. key t ≡ k) f_g ((eq_iff (key f) k).0 s)
    | inr s ↦ keyed k g (sym (lookup-insert_other (key f) k f seen s) ∙ l)
  ]

  see-Keyed : (f : F) (o : Option F) (seen : Dict F) → Keyed seen → Keyed (see confidences f o seen)
  see-Keyed f none seen keyed = insert-Keyed f seen keyed
  see-Keyed f (some c) seen keyed = elim (Bool-cases (outranks confidences f c)) [
    | inl p ↦ rw p (insert-Keyed f seen keyed)
    | inr p ↦ rw p keyed
  ]

  dedupe_old :
      (fs : List F) (seen : Dict F) (h : F)
      → Represented seen h
      → Represented (dedupe confidences fs seen) h
  unfolding dedupe
  dedupe_old [] seen h r = r
  dedupe_old (f ∷ fs) seen h r = dedupe_old fs _ h (see_old f h seen r)

  dedupe_new :
      (fs : List F) (seen : Dict F) (h : F)
      → Member h fs
      → Represented (dedupe confidences fs seen) h
  unfolding dedupe
  dedupe_new [] seen h m = elim m [ ]
  dedupe_new (f ∷ fs) seen h (here e) =
      dedupe_old fs _ h (
        subst (Represented (see confidences f (lookup (key f) seen) seen)) (sym e) (see_new f seen))
  dedupe_new (f ∷ fs) seen h (there m) = dedupe_new fs _ h m

  dedupe-Keyed : (fs : List F) (seen : Dict F) → Keyed seen → Keyed (dedupe confidences fs seen)
  unfolding dedupe
  dedupe-Keyed [] seen keyed = keyed
  dedupe-Keyed (f ∷ fs) seen keyed =
      dedupe-Keyed fs _ (see-Keyed f (lookup (key f) seen) seen keyed)

  lookup-Member :
      (k : String) (seen : Dict F) (g : F) → lookup k seen ≡ some g → Member g (map (λ e. e.1) seen)
  lookup-Member k [] g l = absurd (cc)
  lookup-Member k ((j, f) ∷ seen) g l = elim (Bool-cases (str_eq j k)) [
    | inl s ↦ let it : some f ≡ some g = rw s at l in let g_f : g ≡ f = cc (it) in here g_f
    | inr s ↦ there (lookup-Member k seen g (rw s at l))
  ]

  filtered-Member :
      (threshold : Severity) (fs : List F) (h : F)
      → Member h fs
      → admissible confidences threshold h ≡ true
      → Member h (filtered confidences threshold fs)
  unfolding filtered
  filtered-Member threshold [] h m a = elim m [ ]
  filtered-Member threshold (f ∷ fs) h (here e) a =
      rw (subst (λ t. admissible confidences threshold t ≡ true) e a) (here e)
  filtered-Member threshold (f ∷ fs) h (there m) a =
      elim (Bool-cases (admissible confidences threshold f)) [
        | inl p ↦ rw p (there (filtered-Member threshold fs h m a))
        | inr p ↦ rw p (filtered-Member threshold fs h m a)
      ]

  -- A finding that passes the tests has one of its occurrence kept, which it does not outrank.
  pub deduped-represents :
      (threshold : Severity) (findings : List F) (f : F)
      → Member f findings
      → admissible confidences threshold f ≡ true
      → (g : F) × Member g (deduped confidences threshold findings)
        × (key g ≡ key f)
        × (outranks confidences f g ≡ false)
  deduped-represents threshold findings f m a =
      let kept = filtered confidences threshold findings in
      let (g, l, r) = dedupe_new kept [] f (filtered-Member threshold findings f m a) in
      (
        g,
        lookup-Member (key f) (dedupe confidences kept []) g l,
        dedupe-Keyed kept [] (λ k x n. absurd (cc (n))) (key f) g l,
        r,
      )

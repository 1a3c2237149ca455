-- ===== src/Semantic/Scip/Parsed.antt =====
-- The text of a parsed symbol from its package coordinate and its descriptors
-- (scanner/src/aegify/semantic/scip_symbol.py).
use aegify.Base.{
  ℕ, ◌≡◌, ◌∙◌, refl, sym, subst, ap, ◌||◌, true, false, Option, none, some, List, [], ◌∷◌, ◌++◌,
  ◌==◌, Codes, Bool-cases, inl, inr, arith,
}
use mathlib.Core.List.{append_assoc}
use mathlib.Core.Option.{some-injective}
use aegify.Semantic.Scip.Printed.{split_char, split_double, split_end}
use aegify.Semantic.Scip.Symbols.{
  ScipPackageCoordinate, ScipSymbol, space, escape_space, canonical, of_four, split_prefix,
  starts_with, is_empty, local_word, symbol_of, local_symbol, drop, parse_scip_symbol,
}

escape_space-append : (xs ys : Codes) → escape_space (xs ++ ys) ≡ escape_space xs ++ escape_space ys
escape_space-append [] ys = refl
escape_space-append (c ∷ cs) ys = elim (Bool-cases (c == space)) [
  | inl e ↦ rw (e, escape_space-append cs ys) refl
  | inr e ↦ rw (e, escape_space-append cs ys) refl
]

-- The text of the components that are complete.
abbrev joined : List Codes → Codes
joined [] = []
joined (k ∷ ks) = escape_space k ++ (space ∷ joined ks)

joined-append : (ks ls : List Codes) → joined (ks ++ ls) ≡ joined ks ++ joined ls
joined-append [] ls = refl
joined-append (k ∷ ks) ls =
    rw (joined-append ks ls) (sym (append_assoc (escape_space k) (space ∷ joined ks) (joined ls)))

-- The text that was read, given what the loop holds.
abbrev text_of : List Codes → Codes → Codes → Codes
text_of components current rest = joined components ++ (escape_space current ++ rest)

text_of-char :
    (components : List Codes) (current rest : Codes) (c : ℕ)
    → (c == space) ≡ false
    → text_of components (current ++ c ∷ []) rest ≡ text_of components current (c ∷ rest)
text_of-char components current rest c e =
    let one : escape_space (c ∷ []) ≡ c ∷ [] = rw e refl in
    ap (λ t. joined components ++ t)
      (ap (λ t. t ++ rest)
          (escape_space-append current (c ∷ []) ∙ ap (λ t. escape_space current ++ t) one)
        ∙ append_assoc (escape_space current) (c ∷ []) rest)

text_of-double :
    (components : List Codes) (current rest : Codes)
    → text_of components (current ++ space ∷ []) rest
      ≡ text_of components current (space ∷ space ∷ rest)
text_of-double components current rest =
    ap (λ t. joined components ++ t)
      (ap (λ t. t ++ rest) (escape_space-append current (space ∷ []))
        ∙ append_assoc (escape_space current) (space ∷ space ∷ []) rest)

text_of-end :
    (components : List Codes) (current rest : Codes)
    → text_of (components ++ current ∷ []) [] rest ≡ text_of components current (space ∷ rest)
text_of-end components current rest =
    ap (λ t. t ++ rest) (joined-append components (current ∷ []))
    ∙ append_assoc (joined components) (escape_space current ++ space ∷ []) rest
    ∙ ap (λ t. joined components ++ t) (append_assoc (escape_space current) (space ∷ []) rest)

-- The text of a coordinate and what follows it.
abbrev written : ScipPackageCoordinate × Codes → Codes
written (p, descriptors) = canonical p ++ space ∷ descriptors

four_fields :
    (a b c d rest : Codes)
    → text_of (a ∷ b ∷ c ∷ d ∷ []) [] rest
      ≡ written (record { scheme = a; manager = b; name = c; version = d }, rest)
unfolding canonical
four_fields a b c d rest = simp append_assoc

four-written :
    (ks : List Codes) (p : ScipPackageCoordinate) (rest : Codes)
    → of_four ks ≡ some p
    → text_of ks [] rest ≡ written (p, rest)
four-written [] p rest e = absurd (cc)
four-written (a ∷ []) p rest e = absurd (cc)
four-written (a ∷ b ∷ []) p rest e = absurd (cc)
four-written (a ∷ b ∷ c ∷ []) p rest e = absurd (cc)
four-written (a ∷ b ∷ c ∷ d ∷ []) p rest e =
    four_fields a b c d rest ∙ ap (λ q. written (q, rest)) (some-injective _ p e)
four-written (a ∷ b ∷ c ∷ d ∷ f ∷ ks) p rest e = absurd (cc)

-- At the end of a component the loop stops with the fourth, or goes on.
end-written :
    (components : List Codes) (current rest : Codes) (o : Option ScipPackageCoordinate)
    (r : ScipPackageCoordinate × Codes) (next : Option (ScipPackageCoordinate × Codes))
    → of_four (components ++ current ∷ []) ≡ o
    → (next ≡ some r → text_of (components ++ current ∷ []) [] rest ≡ written r)
    → elim o [ some p ↦ some (p, rest) | none ↦ next ] ≡ some r
    → text_of components current (space ∷ rest) ≡ written r
end-written components current rest none r next e more h =
    sym (text_of-end components current rest) ∙ more h
end-written components current rest (some p) r next e more h =
    sym (text_of-end components current rest)
    ∙ four-written (components ++ current ∷ []) p rest e
    ∙ ap written (some-injective _ r h)

is_space : (c : ℕ) → (c == space) ≡ true → space ≡ c
is_space c e = ground arith

split_prefix-written :
    (value : Codes) (components : List Codes) (current : Codes) (r : ScipPackageCoordinate × Codes)
    → split_prefix value components current ≡ some r
    → text_of components current value ≡ written r
unfolding split_prefix
split_prefix-written [] components current r h = absurd (cc)
split_prefix-written (c ∷ []) components current r h = elim (Bool-cases (c == space)) [
  | inl e ↦
      let h' : split_prefix (space ∷ []) components current ≡ some r =
        ap (λ t. split_prefix (t ∷ []) components current) (is_space c e) ∙ h in
      rw (← is_space c e) (
        end-written components current [] (of_four (components ++ current ∷ [])) r none refl
          (λ n. absurd (cc (n))) (sym (split_end [] components current tt) ∙ h'))
  | inr e ↦ let h' : none ≡ some r = sym (split_char c [] components current e) ∙ h in absurd (cc)
]
split_prefix-written (c ∷ d ∷ rest) components current r h = elim (Bool-cases (c == space)) [
  | inl e ↦
      let h' : split_prefix (space ∷ d ∷ rest) components current ≡ some r =
        ap (λ t. split_prefix (t ∷ d ∷ rest) components current) (is_space c e) ∙ h in
      elim (Bool-cases (d == space)) [
        | inl f ↦
            let g : split_prefix (space ∷ space ∷ rest) components current ≡ some r =
              ap (λ t. split_prefix (space ∷ t ∷ rest) components current) (is_space d f) ∙ h' in
            rw (← is_space c e, ← is_space d f)
              (sym (text_of-double components current rest)
                ∙ split_prefix-written rest components (current ++ space ∷ []) r
                    (sym (split_double rest components current) ∙ g))
        | inr f ↦ rw (← is_space c e) (
            end-written components current (d ∷ rest) (of_four (components ++ current ∷ [])) r
              (split_prefix (d ∷ rest) (components ++ current ∷ []) []) refl
              (split_prefix-written (d ∷ rest) (components ++ current ∷ []) [] r)
              (sym (split_end (d ∷ rest) components current f) ∙ h'))
      ]
  | inr e ↦
      sym (text_of-char components current (d ∷ rest) c e)
      ∙ split_prefix-written (d ∷ rest) components (current ++ c ∷ []) r
          (sym (split_char c (d ∷ rest) components current e) ∙ h)
]

starts_with-drop :
    (word value : Codes) → starts_with word value ≡ true → word ++ drop word value ≡ value
starts_with-drop [] value h = refl
starts_with-drop (w ∷ ws) [] h = absurd (cc)
starts_with-drop (w ∷ ws) (c ∷ cs) h = elim (Bool-cases (c == w)) [
  | inl e ↦
      let same : w ≡ c = ground arith in
      rw same (ap (λ t. c ∷ t) (starts_with-drop ws cs (rw e at h)))
  | inr e ↦ let h' : false ≡ true = rw e at h in absurd (cc)
]

-- The text of a symbol.
abbrev pub printed : ScipSymbol → Codes
printed s = elim (s.package') [
  | some p ↦ canonical p ++ space ∷ s.descriptors
  | none ↦ (local_word ++ space ∷ []) ++ s.local_id
]

-- A symbol, if there is one, is of the text.
abbrev Prints : Codes → Option ScipSymbol → Type 0
Prints value none = Unit {0}
Prints value (some s) = (printed s ≡ value) × (s.raw ≡ value)

local_symbol-Prints :
    (value local_id : Codes)
    → (local_word ++ space ∷ []) ++ local_id ≡ value
    → Prints value (local_symbol value local_id)
local_symbol-Prints value local_id e = elim (Bool-cases (is_empty local_id)) [
  | inl k ↦ rw k tt
  | inr k ↦ rw k (e, refl)
]

symbol_of-Prints :
    (value : Codes) (o : Option (ScipPackageCoordinate × Codes))
    → ((r : ScipPackageCoordinate × Codes) → o ≡ some r → written r ≡ value)
    → Prints value (symbol_of value o)
symbol_of-Prints value none w = tt
symbol_of-Prints value (some (p, descriptors)) w =
    elim (Bool-cases
      (is_empty p.scheme || (starts_with local_word p.scheme || is_empty descriptors))) [
        | inl e ↦ rw e tt
        | inr e ↦
            elim (Bool-cases (is_empty p.manager || (is_empty p.name || is_empty p.version))) [
              | inl k ↦ rw (e, k) tt
              | inr k ↦ rw (e, k) (w (p, descriptors) refl, refl)
            ]
      ]

parse-Prints : (value : Codes) → Prints value (parse_scip_symbol value)
unfolding parse_scip_symbol
parse-Prints value = elim (Bool-cases (starts_with (local_word ++ space ∷ []) value)) [
  | inl e ↦ rw e (
      local_symbol-Prints value (drop (local_word ++ space ∷ []) value)
        (starts_with-drop (local_word ++ space ∷ []) value e))
  | inr e ↦ rw e (
      symbol_of-Prints value (split_prefix value [] [])
        (λ r h. sym (split_prefix-written value [] [] r h)))
]

-- A symbol that a text is parsed to has that text: its package's canonical text, a space and its
-- descriptors, or "local " and its identifier; nothing of the text is lost.
pub parse_scip_symbol-printed :
    (value : Codes) (s : ScipSymbol)
    → parse_scip_symbol value ≡ some s
    → (printed s ≡ value) × (s.raw ≡ value)
parse_scip_symbol-printed value s e = subst (Prints value) e (parse-Prints value)

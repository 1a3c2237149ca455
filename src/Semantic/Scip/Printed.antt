-- ===== src/Semantic/Scip/Printed.antt =====
-- Parsing the canonical text of a package coordinate
-- (scanner/src/aegify/semantic/scip_symbol.py).
use aegify.Base.{
  ℕ, ◌≡◌, ◌∙◌, refl, sym, subst, ap, false, Option, none, some, List, [], ◌∷◌, ◌++◌, ◌==◌, Codes,
  Bool-cases, inl, inr, arith,
}
use mathlib.Core.List.{append-nil, append_assoc}
use aegify.Semantic.Scip.Symbols.{
  ScipPackageCoordinate, space, escape_space, canonical, of_four, split_prefix, starts_with,
  is_empty, local_word, parse_scip_symbol,
}

-- A text that is empty, or begins with something else than a space.
abbrev pub Unspaced : Codes → Type 0
Unspaced [] = Unit {0}
Unspaced (c ∷ cs) = (c == space) ≡ false

abbrev Prefix : Type 0
Prefix = Option (ScipPackageCoordinate × Codes)

-- What the loop does at the end of a component.
abbrev pub closed : Codes → List Codes → Codes → Prefix
closed rest components current = elim (of_four (components ++ current ∷ [])) [
  | some p ↦ some (p, rest)
  | none ↦ split_prefix rest (components ++ current ∷ []) []
]

pub split_char :
    (c : ℕ) (cs : Codes) (components : List Codes) (current : Codes)
    → (c == space) ≡ false
    → split_prefix (c ∷ cs) components current ≡ split_prefix cs components (current ++ c ∷ [])
unfolding split_prefix
split_char c [] components current e = rw (e, split_prefix)
split_char c (d ∷ ds) components current e = rw (e, split_prefix)

pub split_double :
    (cs : Codes) (components : List Codes) (current : Codes)
    → split_prefix (space ∷ space ∷ cs) components current
      ≡ split_prefix cs components (current ++ space ∷ [])
unfolding split_prefix
split_double cs components current = refl

pub split_end :
    (rest : Codes) (components : List Codes) (current : Codes)
    → Unspaced rest
    → split_prefix (space ∷ rest) components current ≡ closed rest components current
unfolding split_prefix
split_end [] components current u = refl
split_end (d ∷ ds) components current u = rw (u, split_prefix)

-- A field is read back whole.
split_field :
    (field rest : Codes) (components : List Codes) (current : Codes)
    → Unspaced rest
    → split_prefix (escape_space field ++ space ∷ rest) components current
      ≡ closed rest components (current ++ field)
split_field [] rest components current u =
    split_end rest components current u ∙ ap (closed rest components) (sym (append-nil current))
split_field (c ∷ cs) rest components current u = elim (Bool-cases (c == space)) [
  | inl e ↦
      let same : c ≡ space = ground arith in
      rw e (
        split_double (escape_space cs ++ space ∷ rest) components current
        ∙ split_field cs rest components (current ++ space ∷ []) u
        ∙ ap (closed rest components)
            (append_assoc current (space ∷ []) cs ∙ ap (λ x. current ++ x ∷ cs) (sym same)))
  | inr e ↦ rw e (
      split_char c (escape_space cs ++ space ∷ rest) components current e
      ∙ split_field cs rest components (current ++ c ∷ []) u
      ∙ ap (closed rest components) (append_assoc current (c ∷ []) cs))
]

-- A text that a field of a coordinate can be: not empty, and not begun by a space.
abbrev pub Plain : Codes → Type 0
Plain f = (is_empty f ≡ false) × Unspaced f

escape-Unspaced : (f rest : Codes) → Plain f → Unspaced (escape_space f ++ rest)
escape-Unspaced [] rest p = absurd (cc (p.0))
escape-Unspaced (c ∷ cs) rest p = rw p.1 p.1

abbrev pub Writable : ScipPackageCoordinate → Type 0
Writable p =
    (is_empty p.scheme ≡ false)
    × (starts_with local_word p.scheme ≡ false)
    × Plain p.manager
    × Plain p.name
    × Plain p.version

abbrev fields : ScipPackageCoordinate → Codes → Codes
fields p descriptors =
    escape_space p.scheme
    ++ (space
        ∷ (escape_space p.manager
            ++ (space
                ∷ (escape_space p.name
                    ++ (space ∷ (escape_space p.version ++ space ∷ descriptors))))))

split-fields :
    (p : ScipPackageCoordinate) (descriptors : Codes)
    → Writable p
    → Unspaced descriptors
    → split_prefix (fields p descriptors) [] [] ≡ some (p, descriptors)
split-fields p descriptors w u =
    let version = escape_space p.version ++ space ∷ descriptors in
    let name = escape_space p.name ++ space ∷ version in
    let manager = escape_space p.manager ++ space ∷ name in
    split_field p.scheme manager [] [] (escape-Unspaced p.manager (space ∷ name) w.2)
    ∙ split_field p.manager name (p.scheme ∷ []) [] (escape-Unspaced p.name (space ∷ version) w.3)
    ∙ split_field p.name version (p.scheme ∷ p.manager ∷ []) []
        (escape-Unspaced p.version (space ∷ descriptors) w.4)
    ∙ split_field p.version descriptors (p.scheme ∷ p.manager ∷ p.name ∷ []) [] u

-- A word without spaces that begins an escaped field begins the field.
abbrev Spaceless : Codes → Type 0
Spaceless [] = Unit {0}
Spaceless (c ∷ cs) = ((space == c) ≡ false) × Spaceless cs

starts-escape :
    (word field rest : Codes)
    → Spaceless word
    → starts_with word field ≡ false
    → starts_with word (escape_space field ++ space ∷ rest) ≡ false
starts-escape [] field rest s h = h
starts-escape (w ∷ ws) [] rest s h = rw s.0 refl
starts-escape (w ∷ ws) (c ∷ cs) rest s h = elim (Bool-cases (c == space)) [
  | inl e ↦ rw (e, s.0) refl
  | inr e ↦ elim (Bool-cases (c == w)) [
    | inl k ↦ rw (e, k) (starts-escape ws cs rest s.1 (rw k at h))
    | inr k ↦ rw (e, k) refl
  ]
]

starts-longer :
    (word more cs : Codes) → starts_with word cs ≡ false → starts_with (word ++ more) cs ≡ false
starts-longer [] more cs h = absurd (cc)
starts-longer (w ∷ ws) more [] h = refl
starts-longer (w ∷ ws) more (c ∷ cs) h = elim (Bool-cases (c == w)) [
  | inl k ↦ rw k (starts-longer ws more cs (rw k at h))
  | inr k ↦ rw k refl
]

canonical-fields :
    (p : ScipPackageCoordinate) (descriptors : Codes)
    → canonical p ++ space ∷ descriptors ≡ fields p descriptors
unfolding canonical
canonical-fields p descriptors = simp append_assoc

-- A package coordinate of non-empty fields, whose scheme does not begin with "local" and whose
-- other fields do not begin with a space, is read back from its canonical text followed by a space
-- and descriptors, where these are not empty and do not begin with a space.
pub parse_scip_symbol-canonical :
    (p : ScipPackageCoordinate) (descriptors : Codes)
    → Writable p
    → Plain descriptors
    → parse_scip_symbol (canonical p ++ space ∷ descriptors)
      ≡ some (record {
        raw = canonical p ++ space ∷ descriptors;
        scheme = p.scheme;
        package' = some p;
        descriptors = descriptors;
        local_id = [];
      })
unfolding parse_scip_symbol
parse_scip_symbol-canonical p descriptors w d =
    let text = canonical p ++ space ∷ descriptors in
    let split : split_prefix text [] [] ≡ some (p, descriptors) =
      ap (λ t. split_prefix t [] []) (canonical-fields p descriptors)
      ∙ split-fields p descriptors w d.1 in
    let not_local : starts_with (local_word ++ space ∷ []) text ≡ false =
      subst (λ t. starts_with (local_word ++ space ∷ []) t ≡ false)
        (sym (canonical-fields p descriptors))
        (starts-longer local_word (space ∷ []) (fields p descriptors)
          (starts-escape local_word p.scheme _ (refl, (refl, (refl, (refl, (refl, tt))))) w.1)) in
    rw (not_local, split, w.0, w.1, d.0, w.2.0, w.3.0, w.4.0) refl

-- ===== src/Ir/Routes/Links.antt =====
-- What the searches of `cross_repository_path` (scanner/src/aegify/ir/query.py) return: paths between
-- nodes that go together.
use aegify.Base.{
  ◌≡◌, ◌≢◌, refl, Bool, true, false, String, Option, none, some, List, [], ◌∷◌, if◌then◌else◌, inl,
  inr, ◌⊎◌, All, str_eq, eq_iff, Bool-cases,
}
use aegify.Ir.Routes.Projections.{DiGraph, Finder, IsFinder, IsChain}
use aegify.Ir.Routes.Queries.{find_path, nx_shortest_path, path_or_empty, first_path, best_path}
use aegify.Ir.Routes.Chains.{found-IsChain}

-- Different nodes that go together.
abbrev pub Apart : (String → String → Type 0) → String → String → Type 0
Apart P s t = P s t × (s ≢ t)

-- A path between two nodes of a projection that go together, or none.
unfoldable pub IsLink : (String → String → Type 0) → DiGraph → List String → Type 0
IsLink P d path = (path ≡ []) ⊎ ((s : String) × (t : String) × P s t × IsChain d t s path)

module _ (shortest : Finder) (finds : IsFinder shortest) where
  module _ (P : String → String → Type 0) (d : DiGraph) where
    path-IsLink :
        (s t : String) (o : Option (List String))
        → P s t
        → find_path shortest d s t ≡ o
        → IsLink P d (path_or_empty o)
    unfolding IsLink
    path-IsLink s t none p h = inl refl
    path-IsLink s t (some path) p h = inr (s, t, p, found-IsChain shortest finds d s t path h)

    pub nx-IsLink : (s t : String) → P s t → IsLink P d (nx_shortest_path shortest d s t)
    nx-IsLink s t p = path-IsLink s t (find_path shortest d s t) p refl

    if-IsLink :
        (b : Bool) (x y : List String)
        → IsLink P d x
        → IsLink P d y
        → IsLink P d (if b then x else y)
    if-IsLink true x y p q = p
    if-IsLink false x y p q = q

    pub first-IsLink :
        (pairs : List (String × String))
        → All (λ p. P p.0 p.1) pairs
        → IsLink P d (first_path shortest d pairs)
    unfolding first_path IsLink
    first-IsLink [] ps = inl refl
    first-IsLink ((a, b) ∷ pairs) ps =
        if-IsLink _ _ _ (first-IsLink pairs ps.1) (nx-IsLink a b ps.0)

  module _ (P : String → String → Type 0) (d : DiGraph) where
    pub best-IsLink :
        (pairs : List (String × String)) (best : List String)
        → All (λ p. P p.0 p.1) pairs
        → IsLink (Apart P) d best
        → IsLink (Apart P) d (best_path shortest d pairs best)
    unfolding best_path
    best-IsLink [] best ps h = h
    best-IsLink ((a, b) ∷ pairs) best ps h =
        best-IsLink pairs _ ps.1 (elim (Bool-cases (str_eq a b)) [
          | inl e ↦ rw e h
          | inr e ↦
              let differ : a ≢ b = λ q. cc (e, (eq_iff a b).1 q) in
              rw e (if-IsLink (Apart P) d _ _ _ (nx-IsLink (Apart P) d a b (ps.0, differ)) h)
        ])

-- ===== src/Base/Paths.antt =====
-- POSIX paths as Python's `pathlib.PurePosixPath` reads them, over code points.
use Prim.Native.Nat.{ℕ}
use mathlib.Core.Bool.{Bool, true, false, not, ◌&&◌, ◌||◌}
use mathlib.Core.List.{List, [], ◌∷◌, ◌++◌}
use mathlib.Core.Option.{Option, none, some}
use aegify.Base.Tests.{◌==◌, if◌then◌else◌}

-- The code points of a text.
abbrev pub Codes : Type 0
Codes = List ℕ

abbrev pub codes_eq : Codes → Codes → Bool
codes_eq [] [] = true
codes_eq [] (d ∷ t) = false
codes_eq (c ∷ s) [] = false
codes_eq (c ∷ s) (d ∷ t) = c == d && codes_eq s t

unfoldable push_code : ℕ → List Codes → List Codes
push_code c [] = (c ∷ []) ∷ []
push_code c (p ∷ ps) = (c ∷ p) ∷ ps

-- `s.split("/")`
unfoldable pub split_slash : Codes → List Codes
unfolding push_code
split_slash [] = [] ∷ []
split_slash (c ∷ s) = let rest = split_slash s in if c == b'/' then [] ∷ rest else push_code c rest

abbrev pub is_dot : Codes → Bool
is_dot p = codes_eq p [] || codes_eq p (b'.' ∷ [])

unfoldable keep_parts : List Codes → List Codes
keep_parts [] = []
keep_parts (p ∷ ps) = let rest = keep_parts ps in if is_dot p then rest else p ∷ rest

-- The parts of a path below its root: empty parts and `.` are left out.
unfoldable pub parts_of : Codes → List Codes
unfolding split_slash keep_parts
parts_of s = keep_parts (split_slash s)

-- The root of a path: `/`, `//` where a path begins with exactly two, or none.
unfoldable pub root_of : Codes → Codes
root_of [] = []
root_of (c ∷ []) = if c == b'/' then b'/' ∷ [] else []
root_of (c ∷ d ∷ []) = if c == b'/' then (if d == b'/' then b'/' ∷ b'/' ∷ [] else b'/' ∷ []) else []
root_of (c ∷ d ∷ e ∷ s) =
    if c == b'/' then (if d == b'/' && not (e == b'/') then b'/' ∷ b'/' ∷ [] else b'/' ∷ []) else []

-- `path.is_absolute()`
unfoldable pub is_absolute : Codes → Bool
unfolding root_of
is_absolute s = not (codes_eq (root_of s) [])

abbrev pub dot_dot : Codes
dot_dot = b'.' ∷ b'.' ∷ []

-- `part in parts`
abbrev pub part_mem : Codes → List Codes → Bool
part_mem p [] = false
part_mem p (q ∷ qs) = codes_eq p q || part_mem p qs

-- `"/".join(parts)`
unfoldable pub join_slash : List Codes → Codes
join_slash [] = []
join_slash (p ∷ []) = p
join_slash (p ∷ q ∷ ps) = p ++ b'/' ∷ join_slash (q ∷ ps)

-- `as_posix()` of a relative path with these parts.
unfoldable pub relative_posix : List Codes → Codes
unfolding join_slash
relative_posix [] = b'.' ∷ []
relative_posix (p ∷ ps) = join_slash (p ∷ ps)

-- The parts that are left when the first ones are those of another path.
unfoldable pub parts_after : List Codes → List Codes → Option (List Codes)
parts_after [] ps = some ps
parts_after (q ∷ qs) [] = none
parts_after (q ∷ qs) (p ∷ ps) = if codes_eq q p then parts_after qs ps else none

-- ===== src/Models/Values.antt =====
-- Python values as a run-time type test sees them, and the text constraints of model fields.
use aegify.Base.{
  ℕ, ◌&&◌, ◌||◌, Bool, true, false, String, List, [], ◌∷◌, leb, ◌==◌, codes, length, if◌then◌else◌,
}

-- An `int` n, an `int` -(n + 1), or a value of any other type (`bool` included).
pub data Value : Type 0 where
  nat : ℕ → Value
  negsuc : ℕ → Value
  other : Value

-- The number of a value that has passed a test for 0 ≤ n; not called on any other.
abbrev pub number : Value → ℕ
number (nat n) = n
number (negsuc n) = 0
number other = 0

-- `type(v) is int and low <= v <= high`
abbrev pub in_range : ℕ → ℕ → Value → Bool
in_range low high (nat n) = leb low n && leb n high
in_range low high (negsuc n) = false
in_range low high other = false

-- `Field(ge=0, strict=True)`
abbrev pub is_nat : Value → Bool
is_nat (nat n) = true
is_nat (negsuc n) = false
is_nat other = false

abbrev is_hex : ℕ → Bool
is_hex c = leb b'0' c && leb c b'9' || leb b'a' c && leb c b'f'

abbrev all_hex : List ℕ → Bool
all_hex [] = true
all_hex (c ∷ cs) = is_hex c && all_hex cs

abbrev after : List ℕ → List ℕ → List ℕ
after [] cs = cs
after (p ∷ ps) [] = []
after (p ∷ ps) (c ∷ cs) = if c == p then after ps cs else []

-- `^sha256:[0-9a-f]{64}$`
unfoldable pub is_digest : String → Bool
is_digest s = let hex = after (codes "sha256:") (codes s) in length hex == 64 && all_hex hex

-- `Field(min_length=low, max_length=high)`
unfoldable pub has_length : ℕ → ℕ → String → Bool
has_length low high s = let n = length (codes s) in leb low n && leb n high

-- ===== src/Scrub.antt =====
-- `scrub_quoted_strings` of scanner/src/aegify/text.py. A text is the list of its code points.
mod Tests
use aegify.Base.{
  ℕ, suc, ◌≡◌, refl, ap, Bool, true, false, not, ◌&&◌, ◌||◌, Option, none, some, List, [], ◌∷◌,
  ◌==◌, ==_iff, length, any, arith, if◌then◌else◌, Bool-cases, inl, inr, ◌⊎◌,
}

abbrev pub is_quote : ℕ → Bool
is_quote c = c == b'\'' || c == b'"'

-- The loop: the open quote, and whether the character before escapes this one.
unfoldable pub scrub : Option ℕ → Bool → List ℕ → List ℕ
scrub quote escaped [] = []
scrub none escaped (c ∷ cs) =
    let opened = scrub (some c) escaped cs in
    let outside = scrub none escaped cs in if is_quote c then b' ' ∷ opened else c ∷ outside
scrub (some q) true (c ∷ cs) = b' ' ∷ scrub (some q) false cs
scrub (some q) false (c ∷ cs) =
    let escaping = scrub (some q) true cs in
    let closed = scrub none false cs in
    let inside = scrub (some q) false cs in
    if c == b'\\' then b' ' ∷ escaping else if c == q then b' ' ∷ closed else b' ' ∷ inside

unfoldable pub scrub_quoted_strings : List ℕ → List ℕ
scrub_quoted_strings = scrub none false

scrub-length :
    (quote : Option ℕ) (escaped : Bool) (cs : List ℕ) → length (scrub quote escaped cs) ≡ length cs
unfolding scrub
scrub-length quote escaped [] = refl
scrub-length none escaped (c ∷ cs) =
    let opened = scrub-length (some c) escaped cs in
    let outside = scrub-length none escaped cs in ground arith
scrub-length (some q) true (c ∷ cs) = ap suc (scrub-length (some q) false cs)
scrub-length (some q) false (c ∷ cs) =
    let escaping = scrub-length (some q) true cs in
    let closed = scrub-length none false cs in
    let inside = scrub-length (some q) false cs in ground arith

scrub-unquoted :
    (quote : Option ℕ) (escaped : Bool) (cs : List ℕ)
    → any is_quote (scrub quote escaped cs) ≡ false
unfolding scrub
scrub-unquoted quote escaped [] = refl
scrub-unquoted none escaped (c ∷ cs) =
    let opened = scrub-unquoted (some c) escaped cs in
    let outside = scrub-unquoted none escaped cs in
    elim (Bool-cases (is_quote c)) [ inl e ↦ rw e opened | inr e ↦ rw (e, e) outside ]
scrub-unquoted (some q) true (c ∷ cs) = scrub-unquoted (some q) false cs
scrub-unquoted (some q) false (c ∷ cs) =
    let escaping = scrub-unquoted (some q) true cs in
    let closed = scrub-unquoted none false cs in
    let inside = scrub-unquoted (some q) false cs in
    elim (Bool-cases (c == b'\\')) [
      | inl e ↦ rw e escaping
      | inr e ↦ elim (Bool-cases (c == q)) [ inl k ↦ rw (e, k) closed | inr k ↦ rw (e, k) inside ]
    ]

unquoted_kept :
    (escaped : Bool) (cs : List ℕ) → any is_quote cs ≡ false → scrub none escaped cs ≡ cs
unfolding scrub
unquoted_kept escaped [] h = refl
unquoted_kept escaped (c ∷ cs) h =
    let e : is_quote c ≡ false = ground arith in
    let rest : scrub none escaped cs ≡ cs = unquoted_kept escaped cs (ground arith) in
    rw e (ap (λ r. c ∷ r) rest)

-- Scrubbing keeps the length of a text, leaves no quote in it, changes nothing in a text without
-- quotes, and so changes nothing the second time.
pub length-scrub_quoted_strings :
    (cs : List ℕ)
    → (length (scrub_quoted_strings cs) ≡ length cs)
      × (any is_quote (scrub_quoted_strings cs) ≡ false)
      × (any is_quote cs ≡ false → scrub_quoted_strings cs ≡ cs)
      × (scrub_quoted_strings (scrub_quoted_strings cs) ≡ scrub_quoted_strings cs)
unfolding scrub_quoted_strings
length-scrub_quoted_strings cs = (
  scrub-length none false cs,
  scrub-unquoted none false cs,
  unquoted_kept false cs,
  unquoted_kept false (scrub none false cs) (scrub-unquoted none false cs),
)

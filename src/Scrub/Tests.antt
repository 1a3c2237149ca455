-- ===== src/Scrub/Tests.antt =====
-- A run of `scrub_quoted_strings` (scanner/src/aegify/text.py), and its theorem at it.
use aegify.Base.{ℕ, ◌≡◌, refl, false, List, any, codes, length}
use aegify.Scrub.{scrub, scrub_quoted_strings, is_quote, length-scrub_quoted_strings}

abbrev line : List ℕ
line = codes "x = 'a\\'b' + y"

scrubbed : scrub_quoted_strings line ≡ codes "x =        + y"
unfolding scrub_quoted_strings scrub
scrubbed = refl

length-scrub_quoted_strings_example :
    (length (scrub_quoted_strings line) ≡ length line)
    × (any is_quote (scrub_quoted_strings line) ≡ false)
    × (any is_quote line ≡ false → scrub_quoted_strings line ≡ line)
    × (scrub_quoted_strings (scrub_quoted_strings line) ≡ scrub_quoted_strings line)
length-scrub_quoted_strings_example = length-scrub_quoted_strings line

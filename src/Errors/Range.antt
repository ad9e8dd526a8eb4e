-- ===== src/Errors/Range.antt =====
-- `errorText` and `isRangeRejection` of lib/log-reader.ts, over a matcher for the regular
-- expressions that the source uses: literals, optional parts, `[\d,]+` and alternatives, found
-- anywhere in the text and without regard to case.
use vpp_blockchain.Base.{
  ℕ, ◌+◌, Bool, true, false, ◌&&◌, ◌||◌, Option, none, some, List, [], ◌∷◌, ◌++◌, ltb, leb, ◌==◌,
  if◌then◌else◌, Text, codes, starts_with, to_lower_case, drop, length,
}
use vpp_blockchain.Errors.{ErrorValue, nothing, primitive, string, object}

pub data Atom : Type 0 where
  lit : Text → Atom
  opt : Text → Atom
  one_of : List Text → Atom
  digits : Atom

one_of_then : (Text → Bool) → List Text → Text → Bool
one_of_then k [] s = false
one_of_then k (t ∷ ts) s = (starts_with s t && k (drop (length t) s)) || one_of_then k ts s

digits_then : (Text → Bool) → Text → Bool
digits_then k [] = false
digits_then k (c ∷ s) = ((leb b'0' c && leb c b'9') || c == b',') && (k s || digits_then k s)

matches_here : List Atom → Text → Bool
unfolding one_of_then digits_then starts_with
matches_here [] s = true
matches_here (lit t ∷ rest) s = starts_with s t && matches_here rest (drop (length t) s)
matches_here (opt t ∷ rest) s =
    (starts_with s t && matches_here rest (drop (length t) s)) || matches_here rest s
matches_here (one_of ts ∷ rest) s = one_of_then (matches_here rest) ts s
matches_here (digits ∷ rest) s = digits_then (matches_here rest) s

-- pattern.test(text) with the flag i, for a pattern in lower case
matches_from : List Atom → Text → Bool
unfolding matches_here
matches_from pattern [] = matches_here pattern []
matches_from pattern (c ∷ s) = matches_here pattern (c ∷ s) || matches_from pattern s

unfoldable pub test : List Atom → Text → Bool
unfolding matches_from to_lower_case
test pattern s = matches_from pattern (to_lower_case s)

pub test_any : List (List Atom) → Text → Bool
unfolding test
test_any [] s = false
test_any (p ∷ ps) s = test p s || test_any ps s

-- RANGE_PATTERNS
pub range_patterns : List (List Atom)
range_patterns =
    (lit (codes "block range") ∷ [])
    ∷ (lit (codes "range")
        ∷ opt (codes "s")
        ∷ lit (codes " over ")
        ∷ digits
        ∷ lit (codes " blocks")
        ∷ [])
    ∷ (lit (codes "limited to ")
        ∷ opt (codes "a ")
        ∷ digits
        ∷ lit (codes " ")
        ∷ opt (codes "block ")
        ∷ lit (codes "range")
        ∷ [])
    ∷ (lit (codes "range ")
        ∷ opt (codes "is ")
        ∷ lit (codes "too ")
        ∷ one_of (codes "large" ∷ codes "wide" ∷ codes "big" ∷ [])
        ∷ [])
    ∷ (lit (codes "requested range exceeds") ∷ [])
    ∷ (lit (codes "exceed")
        ∷ opt (codes "s")
        ∷ lit (codes " ")
        ∷ opt (codes "the ")
        ∷ lit (codes "max")
        ∷ opt (codes "imum")
        ∷ lit (codes " ")
        ∷ opt (codes "block ")
        ∷ lit (codes "range")
        ∷ [])
    ∷ (lit (codes "block limit exceeded") ∷ [])
    ∷ (lit (codes "query returned more than ") ∷ digits ∷ lit (codes " results") ∷ [])
    ∷ (lit (codes "response size ") ∷ one_of (codes "exceeded" ∷ codes "is too" ∷ []) ∷ [])
    ∷ (lit (codes "too many ") ∷ one_of (codes "blocks" ∷ codes "results" ∷ codes "logs" ∷ []) ∷ [])
    ∷ []

part : Option Text → List Text
part none = []
part (some t) = t ∷ []

-- The inner function `visit`: the parts that it pushes, in order.
pub visit : ErrorValue → ℕ → List Text
unfolding part
visit nothing depth = []
visit primitive depth = []
visit (string t) depth = if ltb 3 depth then [] else t ∷ []
visit (object p error info cause) depth =
    if ltb 3 depth
    then []
    else (part p.message ++ part p.short_message ++ part p.response_body)
      ++ visit error (depth + 1)
      ++ visit info (depth + 1)
      ++ visit cause (depth + 1)

join : List Text → Text
join [] = []
join (t ∷ []) = t
join (t ∷ u ∷ ts) = t ++ codes " | " ++ join (u ∷ ts)

unfoldable pub error_text : ErrorValue → Text
unfolding visit join
error_text err = join (visit err 0)

unfoldable pub is_range_rejection : ErrorValue → Bool
unfolding error_text test test_any range_patterns
is_range_rejection err =
    let text = error_text err in
    if test (lit (codes "rate limit") ∷ []) text
      || test (lit (codes "request limit") ∷ []) text
      || test (lit (codes "too many requests") ∷ []) text
    then false
    else test_any range_patterns text

-- ===== src/Sessions/Cookie.antt =====
-- packages/backend/src/services/admin-session.ts, `readSessionCookie`.
use vpp_blockchain.Base.{
  Option, none, some, List, [], ◌∷◌, ◌++◌, ◌==◌, if◌then◌else◌, Text, text_eq, codes,
}
use vpp_blockchain.Base.Int.{is_space}

unfoldable pub trim_start : Text → Text
trim_start [] = []
trim_start (c ∷ s) = let rest = trim_start s in if is_space c then rest else c ∷ s

unfoldable pub trim_end : Text → Text
trim_end [] = []
trim_end (c ∷ s) = elim (trim_end s) [
  | [] ↦ if is_space c then [] else c ∷ []
  | (d ∷ t) ↦ c ∷ d ∷ t
]

unfoldable pub trim : Text → Text
unfolding trim_start trim_end
trim s = trim_end (trim_start s)

-- header.split(';'), where `part` was read since the last semicolon
pub split_semicolon : Text → Text → List Text
split_semicolon part [] = part ∷ []
split_semicolon part (c ∷ s) =
    let ended = split_semicolon [] s in
    let going = split_semicolon (part ++ c ∷ []) s in if c == b';' then part ∷ ended else going

-- The parts before and after the first '='.
pub split_equals : Text → Option (Text × Text)
split_equals [] = none
split_equals (c ∷ s) =
    if c == b'='
    then some ([], s)
    else (elim (split_equals s) [ none ↦ none | some (a, b) ↦ some (c ∷ a, b) ])

-- The value of a part of the cookie header, if it is the session's.
pub session_value : Option (Text × Text) → Option Text
unfolding trim
session_value none = none
session_value (some ([], value)) = none
session_value (some (c ∷ name, value)) =
    if text_eq (trim (c ∷ name)) (codes "vpp_admin") then some (trim value) else none

pub find_session : List Text → Option Text
unfolding session_value split_equals
find_session [] = none
find_session (part ∷ rest) = elim (session_value (split_equals part)) [
  | some value ↦ some value
  | none ↦ find_session rest
]

unfoldable pub read_session_cookie : Option Text → Option Text
unfolding find_session split_semicolon
read_session_cookie none = none
read_session_cookie (some []) = none
read_session_cookie (some (c ∷ s)) = find_session (split_semicolon [] (c ∷ s))

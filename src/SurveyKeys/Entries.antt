-- ===== src/SurveyKeys/Entries.antt =====
-- Reading back the object of keys that was written.
use vpp_blockchain.Base.{◌≡◌, refl, ap, [], ◌∷◌, map}
use vpp_blockchain.SurveyKeys.{Keys, cleaned, entry_of}

pub cleaned-map : (l : Keys) → cleaned (map entry_of l) ≡ l
unfolding cleaned
cleaned-map [] = refl
cleaned-map ((k, r) ∷ l) = ap (λ rest. (k, r) ∷ rest) (cleaned-map l)

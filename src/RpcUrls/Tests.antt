-- ===== src/RpcUrls/Tests.antt =====
-- The RPCs that packages/backend/src/services/blockchain.ts chooses at concrete inputs.
use vpp_blockchain.Base.{
  ◌≡◌, ◌↔◌, ◌⊎◌, true, refl, Option, none, some, [], ◌∷◌, Text, codes, has, text_eq, add,
  if◌then◌else◌,
}
use vpp_blockchain.Base.Int.{is_space}
use vpp_blockchain.Sessions.Cookie.{trim, trim_start, trim_end}
use vpp_blockchain.Events.Keys.{Distinct}
use vpp_blockchain.RpcUrls.{
  known_base_fallbacks, split_comma, trimmed, read_urls, ends_with, first_ones, is_local_rpc_url,
  some_local, get_effective_rpc_urls, get_event_rpc_urls,
}
use vpp_blockchain.RpcUrls.Chosen.{first_url, IsPublicOnly, get_effective_rpc_urls_lem}

-- Host names of three URLs; a host that is an IPv6 address stands in brackets.
abbrev hostname : Text → Option Text
hostname url =
    if text_eq url (codes "http://localhost:8545")
    then some (codes "localhost")
    else if text_eq url (codes "http://[::1]:8545")
    then some (codes "[::1]")
    else none

local_only :
    get_effective_rpc_urls hostname (codes "http://localhost:8545, ,http://localhost:8545")
    ≡ codes "http://localhost:8545" ∷ []
unfolding get_effective_rpc_urls read_urls split_comma trimmed trim trim_start trim_end is_space
    some_local is_local_rpc_url ends_with first_ones has add text_eq
local_only = refl

-- A local chain that is given by its IPv6 address is mixed with the public ones.
mixed :
    get_event_rpc_urls hostname (some []) (codes "http://[::1]:8545")
    ≡ codes "http://[::1]:8545" ∷ known_base_fallbacks
unfolding get_event_rpc_urls get_effective_rpc_urls read_urls split_comma trimmed trim trim_start
    trim_end is_space some_local is_local_rpc_url ends_with first_ones has add text_eq
mixed = refl

get_effective_rpc_urls_lem_example :
    let configured = read_urls (codes "https://rpc.example,https://base.drpc.org") in
    let used =
      get_effective_rpc_urls hostname (codes "https://rpc.example,https://base.drpc.org") in
    Distinct used
    × (first_url used ≡ first_url configured)
    × ((has (codes "https://mainnet.base.org") used ≡ true) ↔ (
        (has (codes "https://mainnet.base.org") configured ≡ true)
        ⊎ (IsPublicOnly hostname configured
            × (has (codes "https://mainnet.base.org") known_base_fallbacks ≡ true))))
get_effective_rpc_urls_lem_example =
    get_effective_rpc_urls_lem hostname (codes "https://rpc.example,https://base.drpc.org")
      (codes "https://mainnet.base.org")

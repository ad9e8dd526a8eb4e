-- ===== src/RpcUrls.antt =====
-- packages/backend/src/services/blockchain.ts: which RPCs the backend asks. `hostname` is the host name of
-- `new URL(url)`, and `none` its error; host names are in lower case.
mod Chosen
mod Local
mod Tests
use vpp_blockchain.Base.{
  ℕ, Bool, true, false, ◌&&◌, ◌||◌, not, Option, none, some, List, [], ◌∷◌, ◌++◌, ◌==◌,
  if◌then◌else◌, Text, text_eq, codes, has, add,
}
use vpp_blockchain.Sessions.Cookie.{trim}

-- KNOWN_BASE_FALLBACKS
abbrev pub known_base_fallbacks : List Text
known_base_fallbacks =
    codes "https://mainnet.base.org"
    ∷ codes "https://base.publicnode.com"
    ∷ codes "https://base.drpc.org"
    ∷ []

-- text.split(','), where `part` was read since the last comma
unfoldable pub split_comma : Text → Text → List Text
split_comma part [] = part ∷ []
split_comma part (c ∷ s) =
    let ended = split_comma [] s in
    let going = split_comma (part ++ c ∷ []) s in if c == b',' then part ∷ ended else going

-- .map((u) => u.trim()).filter(Boolean)
unfoldable pub trimmed : List Text → List Text
trimmed [] = []
trimmed (u ∷ us) = elim (trim u) [ [] ↦ trimmed us | (c ∷ v) ↦ (c ∷ v) ∷ trimmed us ]

unfoldable pub read_urls : Text → List Text
read_urls text = trimmed (split_comma [] text)

unfoldable pub ends_with : Text → Text → Bool
ends_with [] suffix = text_eq [] suffix
ends_with (c ∷ s) suffix = text_eq (c ∷ s) suffix || ends_with s suffix

-- The filter with `seen`
unfoldable pub first_ones : List Text → List Text → List Text
first_ones seen [] = []
first_ones seen (u ∷ us) =
    let old = first_ones seen us in
    let fresh = first_ones (add u seen) us in if has u seen then old else u ∷ fresh

module _ (hostname : Text → Option Text) where
  -- isLocalRpcUrl
  unfoldable pub is_local_rpc_url : Text → Bool
  is_local_rpc_url url = elim (hostname url) [
    | none ↦ false
    | some host ↦
        text_eq host (codes "localhost")
        || text_eq host (codes "127.0.0.1")
        || text_eq host (codes "::1")
        || ends_with host (codes ".local")
  ]

  unfoldable pub some_local : List Text → Bool
  some_local [] = false
  some_local (u ∷ us) = is_local_rpc_url u || some_local us

  abbrev include_fallbacks : List Text → Bool
  include_fallbacks [] = false
  include_fallbacks (u ∷ us) = not (some_local (u ∷ us))

  -- getEffectiveRpcUrls
  pub get_effective_rpc_urls : (rpc_url : Text) → List Text
  get_effective_rpc_urls rpc_url =
      let configured = read_urls rpc_url in
      first_ones []
        (if include_fallbacks configured then configured ++ known_base_fallbacks else configured)

  -- getEventRpcUrls, where `none` is an eventRpcUrl that is not set
  pub get_event_rpc_urls : Option Text → (rpc_url : Text) → List Text
  get_event_rpc_urls none rpc_url = get_effective_rpc_urls rpc_url
  get_event_rpc_urls (some event_rpc_url) rpc_url = elim (read_urls event_rpc_url) [
    | [] ↦ get_effective_rpc_urls rpc_url
    | (u ∷ us) ↦ u ∷ us
  ]

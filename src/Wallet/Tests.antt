-- ===== src/Wallet/Tests.antt =====
-- The wallet of packages/frontend/src/lib/wallet.ts and use-wallet.ts at concrete inputs.
use vpp_blockchain.Base.{
  ◌≡◌, refl, true, none, some, List, [], ◌∷◌, arith, codes, text_eq, to_lower_case,
}
use vpp_blockchain.Base.Exec.{ok}
use vpp_blockchain.Base.Int.{is_space}
use vpp_blockchain.Wallet.{
  Ethers, Hook, garbage, members, local, metamask, stores, imports_key, accounts_changed, mounts,
  act, act_all, open_page, normalize_mnemonic, get_random_verify_indices, Action, is_missing,
  usable, load_wallet, sort_numbers, pick, insert_number,
}
use vpp_blockchain.Wallet.Stored.{Gives, AreGenuine, reload-same}

abbrev ethers : Ethers
ethers = record {
  wallet_of = λ key. ok (codes "0xab", b'k' ∷ key);
  from_phrase = λ phrase. ok (codes "0xcd", b'k' ∷ phrase);
  is_valid_mnemonic = λ phrase. ok true;
}

ethers-Gives : Gives ethers
unfolding is_missing
ethers-Gives = record {
  of_key = λ key a k e. (ground (arith, e), ground (arith, e));
  of_phrase = λ phrase a k e. (ground (arith, e), ground (arith, e));
}

-- A key is imported, then the extension is connected and changes its account.
abbrev actions : List Action
actions =
    imports_key (codes "12")
    ∷ stores (record {
      address = codes "0xEF";
      private_key = some [];
      mnemonic = none;
      wallet_type = metamask;
    })
    ∷ accounts_changed (codes "0xef" ∷ [])
    ∷ accounts_changed (codes "0x11" ∷ [])
    ∷ []

abbrev shown : Hook
shown = act_all ethers (act ethers (open_page (some garbage)) mounts) actions

shown_wallet :
    shown.wallet
    ≡ some (record {
      address = codes "0x11";
      private_key = some [];
      mnemonic = none;
      wallet_type = metamask;
    })
unfolding act_all text_eq to_lower_case
shown_wallet = refl

actions-AreGenuine : AreGenuine actions
unfolding is_missing usable
actions-AreGenuine = (tt, (record { address = refl; key = refl }, (refl, (refl, tt))))

reload-same_example : (act ethers (open_page shown.storage) mounts).wallet ≡ shown.wallet
reload-same_example = reload-same ethers ethers-Gives (some garbage) actions actions-AreGenuine

-- A wallet of an older version has no type, and a local one without a key is not taken.
old_wallets :
    ((act ethers
        (open_page (some (members (some (codes "0x1")) (some (codes "k")) none none)))
        mounts).wallet
      ≡ some (record {
        address = codes "0x1";
        private_key = some (codes "k");
        mnemonic = none;
        wallet_type = local;
      }))
    × ((act ethers (open_page (some (members (some (codes "0x1")) none none none))) mounts).wallet
        ≡ none)
unfolding act load_wallet open_page
old_wallets = (refl, refl)

normalized : normalize_mnemonic (codes "  Abandon  ABILITY able ") ≡ codes "abandon ability able"
unfolding normalize_mnemonic to_lower_case is_space
normalized = refl

picked : get_random_verify_indices 3 (17 ∷ 5 ∷ 2 ∷ 11 ∷ 0 ∷ []) ≡ ok (2 ∷ 5 ∷ 11 ∷ [])
unfolding get_random_verify_indices sort_numbers pick insert_number
picked = refl

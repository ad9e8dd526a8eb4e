-- ===== src/Wallet/Stored.antt =====
-- The wallet that the hook of packages/frontend/src/hooks/use-wallet.ts shows is the one that is stored.
use vpp_blockchain.Base.{
  ◌≡◌, refl, ap, sym, subst, true, false, Option, none, some, List, [], ◌∷◌, Text, text_eq,
  to_lower_case, Bool-cases, inl, inr,
}
use vpp_blockchain.Base.Exec.{Result, ok, throw}
use vpp_blockchain.Wallet.{
  WalletType, local, metamask, WalletData, Item, save_wallet, load_wallet, is_missing, usable,
  read_members, type_or_local, Ethers, import_wallet, import_from_mnemonic, Hook, open_page, Action,
  mounts, stores, imports_key, imports_mnemonic, removes, accounts_changed, keep_result,
  change_accounts, listen, act, act_all, normalize_mnemonic, prefixed, when_ok, local_wallet,
}

-- A wallet has an address, and a local one has a key.
pub record IsWhole (w : WalletData) : Type 0 where
  pub address : is_missing (some w.address) ≡ false
  pub key : usable w.wallet_type w.private_key ≡ true

-- ethers gives an address and a key with each wallet.
pub record Gives (ethers : Ethers) : Type 0 where
  pub of_key :
      (key : Text) (a k : Text)
      → ethers.wallet_of key ≡ ok (a, k)
      → (is_missing (some a) ≡ false) × (is_missing (some k) ≡ false)
  pub of_phrase :
      (phrase : Text) (a k : Text)
      → ethers.from_phrase phrase ≡ ok (a, k)
      → (is_missing (some a) ≡ false) × (is_missing (some k) ≡ false)

abbrev pub HasHead : List Text → Type 0
HasHead [] = Unit {0}
HasHead (a ∷ more) = is_missing (some a) ≡ false

-- What the caller, ethers or MetaMask hands over is a wallet.
abbrev pub IsGenuine : Action → Type 0
IsGenuine (stores w) = IsWhole w
IsGenuine (accounts_changed accounts) = HasHead accounts
IsGenuine _ = Unit {0}

abbrev pub AreGenuine : List Action → Type 0
AreGenuine [] = Unit {0}
AreGenuine (a ∷ actions) = IsGenuine a × AreGenuine actions

-- What is read back is what was saved.
pub load_wallet-save_wallet :
    (w : WalletData) → IsWhole w → load_wallet (some (save_wallet w)) ≡ some w
unfolding load_wallet save_wallet read_members type_or_local is_missing
load_wallet-save_wallet w whole = go w.address whole.address refl
  where
    go :
        (a : Text)
        → is_missing (some a) ≡ false
        → w.address ≡ a
        → read_members (some a) w.private_key w.mnemonic w.wallet_type ≡ some w
    go [] h e = absurd (cc h)
    go (c ∷ a) h e = rw whole.key (ap (λ x. some (record w { address = x })) (sym e))

-- What the hook shows is what a page load would find.
record InStep (h : Hook) : Type 0 where
  same : load_wallet h.storage ≡ h.wallet

keep-InStep :
    (w : WalletData) (h : Hook)
    → IsWhole w
    → InStep (record h { storage = some (save_wallet w); wallet = some w })
keep-InStep w h whole = record { same = load_wallet-save_wallet w whole }

forget-InStep : (h : Hook) → InStep (record h { storage = none; wallet = none })
unfolding load_wallet
forget-InStep h = record { same = refl }

keep_result-InStep :
    (r : Result Text WalletData) (h : Hook)
    → ((w : WalletData) → r ≡ ok w → IsWhole w)
    → InStep h
    → InStep (keep_result r h)
unfolding keep_result
keep_result-InStep (ok w) h whole s = keep-InStep w h (whole w refl)
keep_result-InStep (throw e) h whole s = s

-- A wallet made from an address and a key is whole.
local-IsWhole :
    (mnemonic : Option Text) (r : Result Text (Text × Text))
    → ((a k : Text) → r ≡ ok (a, k) → (is_missing (some a) ≡ false) × (is_missing (some k) ≡ false))
    → (w : WalletData) → when_ok r (local_wallet mnemonic) ≡ ok w
    → IsWhole w
unfolding usable
local-IsWhole mnemonic (ok (a, k)) h w e =
    let p : local_wallet mnemonic (a, k) ≡ w = cc e in
    let (given, key) = h a k refl in subst IsWhole p (record { address = given; key = rw key refl })
local-IsWhole mnemonic (throw x) h w e = absurd (cc e)

-- MetaMask's account has no key.
account-IsWhole :
    (a : Text)
    → is_missing (some a) ≡ false
    → IsWhole
        (record { address = a; private_key = some []; mnemonic = none; wallet_type = metamask })
unfolding usable
account-IsWhole a h = record { address = h; key = refl }

change_accounts-InStep :
    (t : WalletType) (address : Text) (accounts : List Text) (h : Hook)
    → HasHead accounts
    → InStep h
    → InStep (change_accounts t address accounts h)
unfolding change_accounts
change_accounts-InStep local address accounts h head s = s
change_accounts-InStep metamask address [] h head s = forget-InStep h
change_accounts-InStep metamask address (a ∷ more) h head s =
    elim (Bool-cases (text_eq (to_lower_case a) (to_lower_case address))) [
      | inl e ↦ rw e s
      | inr e ↦ rw e (keep-InStep _ h (account-IsWhole a head))
    ]

listen-InStep :
    (o : Option WalletData) (accounts : List Text) (h : Hook)
    → HasHead accounts
    → InStep h
    → InStep (listen o accounts h)
unfolding listen
listen-InStep none accounts h head s = s
listen-InStep (some w) accounts h head s =
    change_accounts-InStep w.wallet_type w.address accounts h head s

module _ (ethers : Ethers) (gives : Gives ethers) where
  act-InStep : (h : Hook) (a : Action) → IsGenuine a → InStep h → InStep (act ethers h a)
  unfolding act import_wallet import_from_mnemonic
  act-InStep h mounts g s = record { same = refl }
  act-InStep h (stores w) g s = keep-InStep w h g
  act-InStep h (imports_key key) g s =
      keep_result-InStep (import_wallet ethers key) h
        (local-IsWhole none (ethers.wallet_of (prefixed key)) (gives.of_key (prefixed key))) s
  act-InStep h (imports_mnemonic phrase) g s =
      let cleaned = normalize_mnemonic phrase in
      keep_result-InStep (import_from_mnemonic ethers phrase) h
        (local-IsWhole (some cleaned) (ethers.from_phrase cleaned) (gives.of_phrase cleaned)) s
  act-InStep h removes g s = forget-InStep h
  act-InStep h (accounts_changed accounts) g s = listen-InStep h.wallet accounts h g s

  act_all-InStep :
      (h : Hook) (actions : List Action)
      → AreGenuine actions
      → InStep h
      → InStep (act_all ethers h actions)
  unfolding act_all
  act_all-InStep h [] g s = s
  act_all-InStep h (a ∷ actions) g s =
      act_all-InStep (act ethers h a) actions g.1 (act-InStep h a g.0 s)

  -- Whatever was stored and whatever is done on the page, a reload shows the wallet that is shown, if
  -- ethers and MetaMask hand over addresses and keys.
  pub reload-same :
      (stored : Option Item) (actions : List Action)
      → AreGenuine actions
      → let h = act_all ethers (act ethers (open_page stored) mounts) actions in
        (act ethers (open_page h.storage) mounts).wallet ≡ h.wallet
  unfolding act open_page
  reload-same stored actions g =
      (act_all-InStep (act ethers (open_page stored) mounts) actions g
        (record { same = refl })).same

-- ===== src/Wallet.antt =====
-- packages/frontend/src/lib/wallet.ts and packages/frontend/src/hooks/use-wallet.ts: the wallet of the
-- browser, its copy in localStorage and the hook that keeps both. What ethers and the MetaMask
-- extension answer is an argument; MetaMask's own popups are not modelled. The recovery phrase is
-- lower-cased on the ASCII letters, the only ones of its word list.
pub mod Stored
mod Phrase
mod Indices
mod Tests
use vpp_blockchain.Base.{
  ℕ, suc, ◌%◌, Bool, true, false, ◌&&◌, ◌||◌, not, Option, none, some, List, [], ◌∷◌, ◌++◌, ◌==◌,
  ltb, leb, if◌then◌else◌, Text, text_eq, codes, to_lower_case, starts_with, length,
}
use vpp_blockchain.Base.Exec.{Result, ok, throw}
use vpp_blockchain.Base.Int.{is_space}

pub data WalletType : Type 0 where
  local metamask : WalletType

-- `none` is a member that is undefined.
pub record WalletData : Type 0 where
  pub address : Text
  pub private_key : Option Text
  pub mnemonic : Option Text
  pub wallet_type : WalletType

-- What localStorage has under the key: text that is no JSON object, or the members of one.
pub data Item : Type 0 where
  garbage : Item
  members : (address private_key mnemonic : Option Text) → (wallet_type : Option WalletType) → Item

-- saveWallet; JSON leaves out a member that is undefined.
pub save_wallet : WalletData → Item
save_wallet w = members (some w.address) w.private_key w.mnemonic (some w.wallet_type)

-- !text
unfoldable pub is_missing : Option Text → Bool
is_missing none = true
is_missing (some []) = true
is_missing (some (c ∷ s)) = false

type_or_local : Option WalletType → WalletType
type_or_local none = local
type_or_local (some t) = t

-- The test for local wallets.
pub usable : WalletType → Option Text → Bool
unfolding is_missing
usable local private_key = not (is_missing private_key)
usable metamask private_key = true

read_members : Option Text → Option Text → Option Text → WalletType → Option WalletData
unfolding usable
read_members none private_key mnemonic t = none
read_members (some []) private_key mnemonic t = none
read_members (some (c ∷ a)) private_key mnemonic t =
    if usable t private_key
    then some (record {
      address = c ∷ a;
      private_key = private_key;
      mnemonic = mnemonic;
      wallet_type = t;
    })
    else none

-- loadWallet
pub load_wallet : Option Item → Option WalletData
unfolding read_members type_or_local
load_wallet none = none
load_wallet (some garbage) = none
load_wallet (some (members address private_key mnemonic t)) =
    read_members address private_key mnemonic (type_or_local t)

-- The key that importWallet and isValidPrivateKey hand to ethers.
unfoldable pub prefixed : Text → Text
prefixed key = if starts_with key (codes "0x") then key else codes "0x" ++ key

-- What `new ethers.Wallet(key)` gives for a key, and `fromPhrase` for a phrase: the address and the
-- key. `throw` is an error of the library.
pub record Ethers : Type 0 where
  pub wallet_of : Text → Result Text (Text × Text)
  pub from_phrase : Text → Result Text (Text × Text)
  pub is_valid_mnemonic : Text → Result Text Bool

abbrev local_wallet : Option Text → Text × Text → WalletData
local_wallet mnemonic (a, key) = record {
  address = a;
  private_key = some key;
  mnemonic = mnemonic;
  wallet_type = local;
}

abbrev when_ok : {A B : Type 0} → Result Text A → (A → B) → Result Text B
when_ok (ok a) f = ok (f a)
when_ok (throw e) f = throw e

-- The words between white space, as after split(/\s+/) and filter(Boolean).
unfoldable pub words : Text → Text → List Text
words [] [] = []
words (w ∷ word) [] = (w ∷ word) ∷ []
words [] (c ∷ s) = if is_space c then words [] s else words (c ∷ []) s
words (w ∷ word) (c ∷ s) =
    let next = words [] s in
    let same = words (w ∷ word ++ c ∷ []) s in if is_space c then (w ∷ word) ∷ next else same

-- join(' ')
unfoldable pub join_space : List Text → Text
join_space [] = []
join_space (w ∷ []) = w
join_space (w ∷ v ∷ rest) = w ++ b' ' ∷ join_space (v ∷ rest)

pub normalize_mnemonic : Text → Text
unfolding words join_space
normalize_mnemonic phrase = join_space (words [] (to_lower_case phrase))

-- The length of split(' ')
spaces : Text → ℕ
spaces [] = 0
spaces (c ∷ s) = if c == b' ' then suc (spaces s) else spaces s

module _ (ethers : Ethers) where
  pub import_wallet : Text → Result Text WalletData
  import_wallet key = when_ok (ethers.wallet_of (prefixed key)) (local_wallet none)

  pub import_from_mnemonic : Text → Result Text WalletData
  import_from_mnemonic phrase =
      let cleaned = normalize_mnemonic phrase in
      when_ok (ethers.from_phrase cleaned) (local_wallet (some cleaned))

  pub is_valid_mnemonic : Text → Bool
  unfolding spaces
  is_valid_mnemonic phrase =
      let cleaned = normalize_mnemonic phrase in
      if not (suc (spaces cleaned) == 12)
      then false
      else elim (ethers.is_valid_mnemonic cleaned) [ ok b ↦ b | throw e ↦ false ]

  pub is_valid_private_key : Text → Bool
  is_valid_private_key key = elim (ethers.wallet_of (prefixed key)) [
    | ok w ↦ true
    | throw e ↦ false
  ]

-- Set.has and Array.sort on whole numbers
unfoldable pub member : ℕ → List ℕ → Bool
member n [] = false
member n (x ∷ xs) = x == n || member n xs

unfoldable pub insert_number : ℕ → List ℕ → List ℕ
insert_number n [] = n ∷ []
insert_number n (x ∷ xs) = if leb n x then n ∷ x ∷ xs else x ∷ insert_number n xs

unfoldable pub sort_numbers : List ℕ → List ℕ
sort_numbers [] = []
sort_numbers (x ∷ xs) = insert_number x (sort_numbers xs)

-- picked.add(byte % 12)
abbrev pub add_index : List ℕ → ℕ → List ℕ
add_index picked byte = if member (byte % 12) picked then picked else picked ++ byte % 12 ∷ []

-- The loop of getRandomVerifyIndices over the random bytes.
unfoldable pub pick : ℕ → List ℕ → List ℕ → List ℕ
unfolding member
pick count picked [] = picked
pick count picked (byte ∷ bytes) =
    let rest = pick count (add_index picked byte) bytes in
    if ltb (length picked) count then rest else picked

-- getRandomVerifyIndices, where `bytes` are the 64 random bytes
pub get_random_verify_indices : ℕ → List ℕ → Result Text (List ℕ)
get_random_verify_indices count bytes =
    if ltb count 1 || ltb 12 count
    then throw (codes "count must be between 1 and 12")
    else ok (sort_numbers (pick count [] bytes))

-- The hook: what localStorage has, and its two state variables.
pub record Hook : Type 0 where
  pub storage : Option Item
  pub wallet : Option WalletData
  pub loading : Bool

-- A page load keeps what is stored.
pub open_page : Option Item → Hook
open_page storage = record { storage = storage; wallet = none; loading = true }

pub data Action : Type 0 where
  -- the effect of the first render
  mounts : Action
  -- create, commitWallet, connectMetaMask: with the wallet that ethers or the caller gives
  stores : WalletData → Action
  -- importKey and importMnemonic
  imports_key imports_mnemonic : Text → Action
  removes : Action
  -- the event of the MetaMask extension
  accounts_changed : List Text → Action

abbrev keep : WalletData → Hook → Hook
keep data' h = record h { storage = some (save_wallet data'); wallet = some data' }

abbrev forget : Hook → Hook
forget h = record h { storage = none; wallet = none }

keep_result : Result Text WalletData → Hook → Hook
keep_result (ok w) h = keep w h
keep_result (throw e) h = h

-- handleAccountsChanged; the listener is set only while the wallet is one of MetaMask.
change_accounts : WalletType → Text → List Text → Hook → Hook
change_accounts local address accounts h = h
change_accounts metamask address [] h = forget h
change_accounts metamask address (a ∷ more) h =
    if text_eq (to_lower_case a) (to_lower_case address)
    then h
    else keep
        (record { address = a; private_key = some []; mnemonic = none; wallet_type = metamask }) h

listen : Option WalletData → List Text → Hook → Hook
unfolding change_accounts
listen none accounts h = h
listen (some w) accounts h = change_accounts w.wallet_type w.address accounts h

pub act : Ethers → Hook → Action → Hook
unfolding keep_result listen
act ethers h mounts = record h { wallet = load_wallet h.storage; loading = false }
act ethers h (stores w) = keep w h
act ethers h (imports_key key) = keep_result (import_wallet ethers key) h
act ethers h (imports_mnemonic phrase) = keep_result (import_from_mnemonic ethers phrase) h
act ethers h removes = forget h
act ethers h (accounts_changed accounts) = listen h.wallet accounts h

pub act_all : Ethers → Hook → List Action → Hook
unfolding act
act_all ethers h [] = h
act_all ethers h (a ∷ actions) = act_all ethers (act ethers h a) actions

-- ===== src/Sessions/Login.antt =====
-- packages/backend/src/services/admin-session.ts: the sign-in message and its check. The address
-- functions of ethers, the site's configuration and the printing of dates are arguments.
use vpp_blockchain.Base.{
  ℕ, zero, suc, ◌+◌, ◌-◌, ◌*◌, ◌/◌, ◌%◌, ◌≤◌, ◌≡◌, refl, Bool, true, false, ◌&&◌, Option, none,
  some, List, [], ◌∷◌, ◌++◌, ltb, leb, ◌==◌, if◌then◌else◌, Text, text_eq, text_eq_iff, codes,
  show_nat, to_lower_case, starts_with, length, take, drop, leb→le, ==_iff, &&_both, Bool-cases,
  inl, inr,
}
use vpp_blockchain.Base.Exec.{Result, ok, throw}
use vpp_blockchain.Base.Int.{is_digit}
use vpp_blockchain.Sessions.{Crypto, mac, is_hex, all_of, UsedNonces, consume_login_nonce}

pub record Site : Type 0 where
  pub host : Text
  pub origin : Text
  pub chain_id : Text
  pub hours : ℕ
  -- new Date(ms).toISOString()
  pub iso : ℕ → Text

pub record Wallets : Type 0 where
  pub is_address : Text → Bool
  pub verify_message : Text → Text → Option Text

pub data LoginError : Type 0 where
  malformed not_issued expired modified invalid_signature other_wallet already_used : LoginError

abbrev pub challenge_ttl : ℕ
challenge_ttl = 300000

-- lines.join('\n')
unfoldable pub join_lines : List Text → Text
join_lines [] = []
join_lines (l ∷ []) = l
join_lines (l ∷ m ∷ rest) = l ++ 10 ∷ join_lines (m ∷ rest)

-- message.split('\n'), where `line` was read since the last line end
unfoldable pub split_lines : Text → Text → List Text
split_lines line [] = line ∷ []
split_lines line (c ∷ s) =
    let ended = split_lines [] s in
    let going = split_lines (line ++ c ∷ []) s in if c == 10 then line ∷ ended else going

unfoldable pub build_login_message : Site → (address nonce : Text) → (issued_at : ℕ) → Text
unfolding join_lines
build_login_message site address nonce issued_at = join_lines (
    (site.host ++ codes " wants you to sign in with your Ethereum account:")
    ∷ address
    ∷ []
    ∷ (codes "Anmeldung im Lehrenden-Bereich. Die Sitzung gilt "
        ++ show_nat site.hours
        ++ codes " Stunden.")
    ∷ []
    ∷ (codes "URI: " ++ site.origin)
    ∷ codes "Version: 1"
    ∷ (codes "Chain ID: " ++ site.chain_id)
    ∷ (codes "Nonce: " ++ nonce)
    ∷ (codes "Issued At: " ++ site.iso issued_at)
    ∷ (codes "Expiration Time: " ++ site.iso (issued_at + challenge_ttl))
    ∷ [])

-- seconds.toString(16).padStart(TS_HEX, '0'), for numbers of at most `digits` digits
unfoldable pub hex_padded : ℕ → ℕ → Text
hex_padded zero n = []
hex_padded (suc digits) n =
    let d = n % 16 in hex_padded digits (n / 16) ++ (if ltb d 10 then b'0' + d else 87 + d) ∷ []

-- parseInt(ts, 16), for a text of hexadecimal digits
unfoldable pub hex_value : ℕ → Text → ℕ
hex_value n [] = n
hex_value n (c ∷ s) = hex_value (n * 16 + (if is_digit c then c - b'0' else c - 87)) s

unfoldable pub login_mac : Crypto → Text → (ts rand checksum : Text) → Text
login_mac crypto secret ts rand checksum =
    take 24 (mac crypto secret (codes "login" ∷ ts ∷ rand ∷ to_lower_case checksum ∷ []))

-- createLoginChallenge at the time `now`, where `rand` are the random hexadecimal digits
unfoldable pub create_login_challenge :
    Crypto → Text → Site → (now : ℕ) → (rand address : Text) → Text
unfolding hex_padded login_mac
create_login_challenge crypto secret site now rand address =
    let checksum = crypto.get_address address in
    let seconds = now / 1000 in
    let ts = hex_padded 10 seconds in
    build_login_message site checksum (ts ++ rand ++ login_mac crypto secret ts rand checksum)
      (seconds * 1000)

-- lines[1] ?? ''
unfoldable pub address_line : List Text → Text
address_line (a ∷ b ∷ rest) = b
address_line _ = []

-- The rest of the first line that starts with `Nonce: `, or ''
unfoldable pub nonce_line : List Text → Text
nonce_line [] = []
nonce_line (l ∷ rest) = if starts_with l (codes "Nonce: ") then drop 7 l else nonce_line rest

abbrev pub Login : Type 0
Login = Result LoginError Text × UsedNonces

-- if (!condition) throw …
unfoldable pub guard : Bool → LoginError → UsedNonces → Login → Login
guard condition e used rest = if condition then rest else (throw e, used)

unfoldable pub consumed : Text → Bool × UsedNonces → Login
consumed checksum (true, used) = (ok checksum, used)
consumed checksum (false, used) = (throw already_used, used)

unfoldable pub signed_by : Text → Option Text → UsedNonces → Login → Login
signed_by checksum none used rest = (throw invalid_signature, used)
signed_by checksum (some signer) used rest =
    if text_eq signer checksum then rest else (throw other_wallet, used)

unfoldable pub is_hex_text : Text → Bool
is_hex_text [] = false
is_hex_text (c ∷ s) = all_of is_hex (c ∷ s)

module _ (crypto : Crypto) (secret : Text) (site : Site) (wallets : Wallets) where
  -- verifyLogin from the nonce and the address line on
  unfoldable pub check_login :
      (now : ℕ) → (message signature nonce line : Text) → UsedNonces → Login
  unfolding guard signed_by consumed hex_value login_mac is_hex_text
  check_login now message signature nonce line used =
      let checksum = crypto.get_address line in
      let ts = take 10 nonce in
      let rand = take 16 (drop 10 nonce) in
      let issued_at = hex_value 0 ts * 1000 in
      guard (wallets.is_address line && is_hex_text nonce) malformed used (
        guard (length nonce == 50) malformed used (
          guard (text_eq (drop 26 nonce) (login_mac crypto secret ts rand checksum)) not_issued used
            (guard (leb now (issued_at + challenge_ttl) && leb issued_at (now + 60000)) expired used
              (guard (text_eq message (build_login_message site checksum nonce issued_at)) modified
                used
                (signed_by checksum (wallets.verify_message message signature) used (
                  consumed checksum
                    (consume_login_nonce now nonce (issued_at + challenge_ttl) used)))))))

  unfoldable pub verify_login : (now : ℕ) → (message signature : Text) → UsedNonces → Login
  unfolding split_lines address_line nonce_line
  verify_login now message signature used =
      let lines = split_lines [] message in
      check_login now message signature (nonce_line lines) (address_line lines) used

-- A login of `checksum` with the nonce is in order.
pub record Accepted (crypto : Crypto) (secret : Text) (site : Site) (wallets : Wallets) (now : ℕ)
    (message signature nonce : Text) (used : UsedNonces) (checksum : Text) : Type 0 where
  pub issued_at : ℕ
  pub signature_of : wallets.verify_message message signature ≡ some checksum
  pub text : message ≡ build_login_message site checksum nonce issued_at
  pub mac_of :
      drop 26 nonce ≡ login_mac crypto secret (take 10 nonce) (take 16 (drop 10 nonce)) checksum
  pub line : Text
  pub address : crypto.get_address line ≡ checksum
  pub size : length nonce ≡ 50
  pub digits : is_hex_text nonce ≡ true
  pub time : issued_at ≡ hex_value 0 (take 10 nonce) * 1000
  pub in_time : now ≤ issued_at + challenge_ttl
  pub not_ahead : issued_at ≤ now + 60000
  pub unused : (consume_login_nonce now nonce (issued_at + challenge_ttl) used).0 ≡ true

guard-ok :
    (b : Bool) (e : LoginError) (used : UsedNonces) (rest : Login) (a : Text)
    → (guard b e used rest).0 ≡ ok a
    → (b ≡ true) × (rest.0 ≡ ok a)
unfolding guard
guard-ok true e used rest a h = (refl, h)
guard-ok false e used rest a h = absurd (cc)

consumed-ok :
    (checksum : Text) (c : Bool × UsedNonces) (a : Text)
    → (consumed checksum c).0 ≡ ok a
    → (checksum ≡ a) × (c.0 ≡ true)
unfolding consumed
consumed-ok checksum (true, used) a h = (cc, refl)
consumed-ok checksum (false, used) a h = absurd (cc)

signed_by-ok :
    (checksum : Text) (signer : Option Text) (used : UsedNonces) (rest : Login) (a : Text)
    → (signed_by checksum signer used rest).0 ≡ ok a
    → (signer ≡ some checksum) × (rest.0 ≡ ok a)
unfolding signed_by
signed_by-ok checksum none used rest a h = absurd (cc)
signed_by-ok checksum (some signer) used rest a h = elim (Bool-cases (text_eq signer checksum)) [
  | inl t ↦ let same = (text_eq_iff signer checksum).0 t in (cc, rw (t, if◌then◌else◌) at h)
  | inr t ↦ absurd (let bad = rw (t, if◌then◌else◌) at h in cc)
]

-- A login that is accepted for an address: the message is, to the last character, the challenge for that
-- address and the time in its nonce, which is at most five minutes ago and a minute ahead, the nonce carries the server's signature of
-- that address, the wallet of that address signed the message, and the nonce was not used before.
pub verify_login-Accepted :
    (crypto : Crypto) (secret : Text) (site : Site) (wallets : Wallets) (now : ℕ)
    (message signature : Text) (used : UsedNonces) (checksum : Text)
    → (verify_login crypto secret site wallets now message signature used).0 ≡ ok checksum
    → (nonce : Text) × Accepted crypto secret site wallets now message signature nonce used checksum
unfolding verify_login check_login
verify_login-Accepted crypto secret site wallets now message signature used checksum e =
    let lines = split_lines [] message in
    let nonce = nonce_line lines in
    let address = crypto.get_address (address_line lines) in
    let issued_at : ℕ = hex_value 0 (take 10 nonce) * 1000 in
    let issue_mac = login_mac crypto secret (take 10 nonce) (take 16 (drop 10 nonce)) address in
    let expected : Text = build_login_message site address nonce issued_at in
    let r6 : Login =
      consumed address (consume_login_nonce now nonce (issued_at + challenge_ttl) used) in
    let r5 : Login = signed_by address (wallets.verify_message message signature) used r6 in
    let r4 : Login = guard (text_eq message expected) modified used r5 in
    let timely : Bool = leb now (issued_at + challenge_ttl) && leb issued_at (now + 60000) in
    let r3 : Login = guard timely expired used r4 in
    let r2 : Login = guard (text_eq (drop 26 nonce) issue_mac) not_issued used r3 in
    let r1 : Login = guard (length nonce == 50) malformed used r2 in
    let (shape, e1) =
      guard-ok (wallets.is_address (address_line lines) && is_hex_text nonce) malformed used r1
        checksum e in
    let (size, e2) = guard-ok (length nonce == 50) malformed used r2 checksum e1 in
    let (signed, e3) =
      guard-ok (text_eq (drop 26 nonce) issue_mac) not_issued used r3 checksum e2 in
    let (in_time, e4) = guard-ok timely expired used r4 checksum e3 in
    let (unmodified, e5) = guard-ok (text_eq message expected) modified used r5 checksum e4 in
    let (signer, e6) =
      signed_by-ok address (wallets.verify_message message signature) used r6 checksum e5 in
    let (same, fresh) =
      consumed-ok address (consume_login_nonce now nonce (issued_at + challenge_ttl) used) checksum
        e6 in
    let times =
      &&_both (leb now (issued_at + challenge_ttl)) (leb issued_at (now + 60000)) in_time in
    (
      nonce,
      rw (← same) (record {
        issued_at = issued_at;
        line = address_line lines;
        address = refl;
        size = (==_iff (length nonce) 50).0 size;
        digits = (&&_both (wallets.is_address (address_line lines)) (is_hex_text nonce) shape).1;
        time = refl;
        signature_of = signer;
        text = (text_eq_iff message expected).0 unmodified;
        mac_of = (text_eq_iff (drop 26 nonce) issue_mac).0 signed;
        in_time = leb→le now (issued_at + challenge_ttl) times.0;
        not_ahead = leb→le issued_at (now + 60000) times.1;
        unused = fresh;
      }),
    )

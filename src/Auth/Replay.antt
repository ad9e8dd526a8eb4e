-- ===== src/Auth/Replay.antt =====
-- packages/backend/src/middleware/auth.ts: how often the signature of an action passes.
use vpp_blockchain.Base.{
  ℕ, ◌+◌, ◌≤◌, ◌≡◌, ◌≢◌, refl, sym, ap, ◌∙◌, inl, inr, Bool, true, false, ◌&&◌, ◌||◌, Option, none,
  some, List, [], ◌∷◌, ◌++◌, leb, if◌then◌else◌, Bool-cases, arith, Text, text_eq, text_eq_refl,
  to_lower_case, All,
}
use vpp_blockchain.Base.Exec.{Result, ok, throw}
use vpp_blockchain.Base.Int.{ℤ, pos, negsuc}
use vpp_blockchain.Errors.{ErrorValue}
use vpp_blockchain.Claim.{message_age}
use vpp_blockchain.Sessions.{UsedNonces, drop_expired, is_used_login, consume_login_nonce}
use vpp_blockchain.Auth.{
  Config, Request, AuthState, passed, Waiting, session_role, signed_role, asks, admin_signature,
  admin_message, check_time, message_time, require_admin_action, consume_action_signature, consumed,
  resume,
}
use vpp_blockchain.Auth.Accepted.{FirstUse, confirmed, first_use, action-Accepted}

-- The key is listed with an expiry of `until` or later.
unfoldable barred : Text → ℕ → UsedNonces → Bool
barred key until [] = false
barred key until ((n, exp) ∷ rest) = (text_eq key n && leb until exp) || barred key until rest

barred-drop :
    (key : Text) (until now : ℕ) (l : UsedNonces)
    → now ≤ until
    → barred key until l ≡ true
    → barred key until (drop_expired now l) ≡ true
unfolding barred drop_expired
barred-drop key until now [] h b = absurd (cc)
barred-drop key until now ((n, exp) ∷ l) h b = ground (arith, barred-drop key until now l)

barred-append :
    (key : Text) (until : ℕ) (a b : UsedNonces)
    → barred key until (a ++ b) ≡ (barred key until a || barred key until b)
unfolding barred
barred-append key until [] b = refl
barred-append key until ((n, exp) ∷ a) b = ground (arith, barred-append key until a b)

barred-used :
    (key : Text) (until now : ℕ) (l : UsedNonces)
    → now ≤ until
    → barred key until l ≡ true
    → is_used_login key (drop_expired now l) ≡ true
unfolding barred drop_expired is_used_login
barred-used key until now [] h b = absurd (cc)
barred-used key until now ((n, exp) ∷ l) h b = ground (arith, barred-used key until now l)

consume-barred :
    (key nonce : Text) (until now exp : ℕ) (l : UsedNonces)
    → now ≤ until
    → barred key until l ≡ true
    → barred key until (consume_login_nonce now nonce exp l).1 ≡ true
unfolding consume_login_nonce
consume-barred key nonce until now exp l h b =
    let kept = barred-drop key until now l h b in
    elim (Bool-cases (is_used_login nonce (drop_expired now l))) [
      | inl t ↦ rw (t, if◌then◌else◌) kept
      | inr t ↦
          rw (t, if◌then◌else◌)
            (ground (arith, kept, barred-append key until (drop_expired now l) ((nonce, exp) ∷ [])))
    ]

-- What other requests do meanwhile: the time, the await that settles, and the chain's answer.
abbrev pub Other : Type 0
Other = ℕ × Waiting × Result ErrorValue Bool

unfoldable pub others_resume : Config → List Other → AuthState → AuthState
unfolding resume
others_resume cfg [] s = s
others_resume cfg ((now, w, answer) ∷ rest) s = others_resume cfg rest (resume cfg now w answer s).1

resume-barred :
    (cfg : Config) (key : Text) (until now : ℕ) (w : Waiting) (answer : Result ErrorValue Bool)
    (s : AuthState)
    → now ≤ until
    → barred key until s.used_action_signatures ≡ true
    → barred key until (resume cfg now w answer s).1.used_action_signatures ≡ true
unfolding resume consume_action_signature consumed
resume-barred cfg key until now (session_role address) (throw e) s h b = b
resume-barred cfg key until now (session_role address) (ok v) s h b = b
resume-barred cfg key until now (signed_role address signature single) (throw e) s h b = b
resume-barred cfg key until now (signed_role address signature single) (ok false) s h b = b
resume-barred cfg key until now (signed_role address signature false) (ok true) s h b = b
resume-barred cfg key until now (signed_role address signature true) (ok true) s h b =
    consume-barred key (to_lower_case signature) until now _ s.used_action_signatures h b

others-barred :
    (cfg : Config) (key : Text) (until : ℕ) (others : List Other) (s : AuthState)
    → All (λ o. o.0 ≤ until) others
    → barred key until s.used_action_signatures ≡ true
    → barred key until (others_resume cfg others s).used_action_signatures ≡ true
unfolding others_resume
others-barred cfg key until [] s h b = b
others-barred cfg key until ((now, w, answer) ∷ rest) s h b =
    others-barred cfg key until rest _ h.1 (resume-barred cfg key until now w answer s h.0 b)

-- Two looks at a message within its age limit.
within_age :
    (max_age a b : ℕ) (t : Option ℤ)
    → check_time max_age a t ≡ none
    → check_time max_age b t ≡ none
    → b ≤ a + max_age + 60000
unfolding check_time message_age
within_age max_age a b none h k = absurd (cc)
within_age max_age a b (some (pos n)) h k = ground arith
within_age max_age a b (some (negsuc n)) h k = ground arith

some-inj : {a b : Text} → some a ≡ some b → a ≡ b
some-inj e = cc

taken-barred :
    (cfg : Config) (now until : ℕ) (signature : Text) (s t : AuthState)
    → FirstUse cfg now signature s t
    → until ≤ now + cfg.max_message_age_ms + 120000
    → barred (to_lower_case signature) until t.used_action_signatures ≡ true
unfolding barred
taken-barred cfg now until signature s t first h =
    let key = to_lower_case signature in
    let exp = now + cfg.max_message_age_ms + 120000 in
    rw (first.taken) (
      ground (
        arith,
        text_eq_refl key,
        barred-append key until (drop_expired now s.used_action_signatures) ((key, exp) ∷ []),
      ))

spent-refused :
    (cfg : Config) (now : ℕ) (address signature a : Text) (answer : Result ErrorValue Bool)
    (s : AuthState)
    → barred (to_lower_case signature) now s.used_action_signatures ≡ true
    → (resume cfg now (signed_role address signature true) answer s).0 ≢ passed a
spent-refused cfg now address signature a answer s b h =
    let (_, _, first) = first_use cfg now address signature a answer s h in
    let used =
      barred-used (to_lower_case signature) now now s.used_action_signatures (omega arith) b in
    absurd (let fresh = first.fresh in cc)

-- The same message with the same signature, up to case, passes as an action at most once in a process:
-- if a request with them passed, and the chain answers a later one at most 60 seconds after it came in,
-- then that one does not pass, whatever other requests do in between. The times are of one clock that
-- does not go back.
pub action_once :
    (cfg : Config) (begun now begun' now' : ℕ) (description description' : Text)
    (req req' : Request) (w w' : Waiting) (answer answer' : Result ErrorValue Bool) (s : AuthState)
    (others : List Other) (message signature signature' a b : Text)
    → admin_message req ≡ some message
    → admin_message req' ≡ some message
    → admin_signature req ≡ some signature
    → admin_signature req' ≡ some signature'
    → to_lower_case signature' ≡ to_lower_case signature
    → require_admin_action cfg begun description req ≡ asks w
    → require_admin_action cfg begun' description' req' ≡ asks w'
    → begun ≤ now
    → now' ≤ begun' + 60000
    → All (λ o. o.0 ≤ now') others
    → (resume cfg now w answer s).0 ≡ passed a
    → (resume cfg now' w' answer' (others_resume cfg others (resume cfg now w answer s).1)).0
      ≢ passed b
action_once cfg begun now begun' now' description description' req req' w w' answer answer' s others
      message signature signature' a b m m' g g' same e e' order quick times h =
    let r = action-Accepted cfg begun now description req w answer s a e h in
    let c = confirmed cfg begun' description' req' w' e' in
    let at : r.message ≡ message = some-inj (sym r.has_message ∙ m) in
    let at' : c.message ≡ message = some-inj (sym c.has_message ∙ m') in
    let sig : r.signature ≡ signature = some-inj (sym r.has_signature ∙ g) in
    let sig' : c.signature ≡ signature' = some-inj (sym c.has_signature ∙ g') in
    let soon =
      within_age cfg.max_message_age_ms begun begun' (message_time message) (rw at at r.timely)
        (rw at' at c.timely) in
    let t = (resume cfg now w answer s).1 in
    let keys : to_lower_case r.signature ≡ to_lower_case c.signature =
      ap to_lower_case sig ∙ sym same ∙ ap to_lower_case (sym sig') in
    let spent =
      others-barred cfg (to_lower_case r.signature) now' others t times
        (taken-barred cfg now now' r.signature s t r.first (omega (arith, soon))) in
    rw (c.waiting) (
      spent-refused cfg now' c.address c.signature b answer' (others_resume cfg others t)
        (rw keys at spent))

-- ===== src/Claim/Turns.antt =====
-- A call of a claim of Claim/World, and the stage of every survey and nonce.
use vpp_blockchain.Base.{
  ℕ, ◌≡◌, refl, sym, ap, ◌∙◌, inl, inr, Bool, true, false, ◌&&◌, some, List, ◌∷◌, ◌==◌,
  if◌then◌else◌, Bool-cases, arith, Text, text_eq, text_eq_iff, &&_both,
}
use vpp_blockchain.NonceStore.Replay.{System, marks, releases, checks, step}
use vpp_blockchain.Server.{Call, Answer, send, nonce_mark_used, nonce_release, nonce_is_used}
use vpp_blockchain.Claim.{ClaimRequest}
use vpp_blockchain.Claim.Monitor.{Phase, idle, held, spent, next, Genuine}
use vpp_blockchain.Claim.World.{perform, log_send, sends_for}
use vpp_blockchain.Claim.Stages.{
  put_phase, next-send, next-mark, next-release, own, Stage, store-Stage, phases-Stage, send-Stage,
  release-Stage, mark-Stage,
}

abbrev IsOther : Call → Type 0
IsOther (send tx o) = ⊥
IsOther (nonce_mark_used i n) = ⊥
IsOther (nonce_release i n) = ⊥
IsOther _ = Unit {0}

next-other :
    (i : ℕ) (n : Text) (ph ph' : Phase) (c : Call) (a : Answer c)
    → IsOther c
    → next i n ph c a ≡ some ph'
    → ph' ≡ ph
next-other i n idle ph' (send tx o) a h e = elim h [ ]
next-other i n idle ph' (nonce_mark_used j m) a h e = elim h [ ]
next-other i n idle ph' (nonce_release j m) a h e = elim h [ ]
next-other i n idle ph' c a h e = cc
next-other i n held ph' (send tx o) a h e = elim h [ ]
next-other i n held ph' (nonce_mark_used j m) a h e = elim h [ ]
next-other i n held ph' (nonce_release j m) a h e = elim h [ ]
next-other i n held ph' c a h e = cc
next-other i n spent ph' (send tx o) a h e = elim h [ ]
next-other i n spent ph' (nonce_mark_used j m) a h e = elim h [ ]
next-other i n spent ph' (nonce_release j m) a h e = elim h [ ]
next-other i n spent ph' c a h e = cc

-- What the store answers, no error of the RPC.
pub perform-Genuine :
    (pid : ℕ) (locked : Bool) (c : Call) (a : Answer c) (s : System)
    → Genuine c a
    → Genuine c (perform pid locked c a s).0
perform-Genuine pid locked (nonce_mark_used i n) a s g = tt
perform-Genuine pid locked (nonce_release i n) a s g = tt
perform-Genuine pid locked (nonce_is_used i n) a s g = tt
perform-Genuine pid locked c a s g = g

module _ (requests : ℕ → ClaimRequest) (i : ℕ) (nonce : Text) where
  log-Stage :
      (phases : ℕ → Phase) (s : System) (log log' : List ℕ)
      → sends_for requests i nonce log' ≡ sends_for requests i nonce log
      → Stage requests i nonce phases s log
      → Stage requests i nonce phases s log'
  log-Stage phases s log log' e (inl f) =
      inl (record { all_idle = f.all_idle; none_sent = e ∙ f.none_sent; valid = f.valid })
  log-Stage phases s log log' e (inr w) = inr (record {
    owner = w.owner;
    is_own = w.is_own;
    others = w.others;
    stage = elim w.stage [ inl (p, n) ↦ inl (p, e ∙ n) | inr (p, n) ↦ inr (p, e ∙ n) ];
    key = w.key;
    is_key = w.is_key;
    kept = w.kept;
  })

  -- A claim for another survey or nonce.
  foreign-Stage :
      (phases : ℕ → Phase) (s : System) (log : List ℕ) (r : ℕ) (ph : Phase)
      → own requests i nonce r ≡ false
      → Stage requests i nonce phases s log
      → Stage requests i nonce (put_phase phases r ph) s log
  foreign-Stage phases s log r ph o st =
      phases-Stage requests i nonce phases (put_phase phases r ph) s log
        (λ j oj. elim (Bool-cases (j == r)) [
          | inl t ↦
              let at : j ≡ r = ground arith in
              let same = ap (own requests i nonce) at in absurd (cc)
          | inr t ↦ rw (t, if◌then◌else◌) refl
        ])
        st

  same-Stage :
      (phases : ℕ → Phase) (s : System) (log : List ℕ) (r : ℕ) (ph : Phase)
      → ph ≡ phases r
      → Stage requests i nonce phases s log
      → Stage requests i nonce (put_phase phases r ph) s log
  same-Stage phases s log r ph e st =
      phases-Stage requests i nonce phases (put_phase phases r ph) s log
        (λ j _. elim (Bool-cases (j == r)) [
          | inl t ↦ let at : j ≡ r = ground arith in rw (t, if◌then◌else◌) (e ∙ ap phases (sym at))
          | inr t ↦ rw (t, if◌then◌else◌) refl
        ])
        st

  -- Two claims for the nonce name the same survey and nonce.
  own_pair :
      (r j : ℕ) (m : Text)
      → own requests i nonce r ≡ true
      → ((requests r).survey_id == j && text_eq (requests r).nonce m) ≡ true
      → (j ≡ i) × (m ≡ nonce)
  own_pair r j m o p =
      let (a, b) = &&_both ((requests r).survey_id == i) (text_eq (requests r).nonce nonce) o in
      let (c, d) = &&_both ((requests r).survey_id == j) (text_eq (requests r).nonce m) p in
      let b' = (text_eq_iff (requests r).nonce nonce).0 b in
      let d' = (text_eq_iff (requests r).nonce m).0 d in (ground arith, sym d' ∙ b')

  foreign_pair :
      (r j : ℕ) (m : Text)
      → own requests i nonce r ≡ false
      → ((requests r).survey_id == j && text_eq (requests r).nonce m) ≡ true
      → j ≡ i
      → m ≡ nonce
      → ⊥
  foreign_pair r j m o p e f =
      let same : own requests i nonce r ≡ true = rw (← e, ← f) p in absurd (cc)

  pub call-Stage :
      (pid : ℕ) (locked : Bool) (c : Call) (a : Answer c) (phases : ℕ → Phase) (s : System)
      (log : List ℕ) (r : ℕ) (ph : Phase)
      → next (requests r).survey_id (requests r).nonce (phases r) c (perform pid locked c a s).0
        ≡ some ph
      → Stage requests i nonce phases s log
      → Stage requests i nonce
          (put_phase phases r ph)
          (perform pid locked c a s).1
          (log_send c r log)
  unfolding step sends_for
  call-Stage pid locked (send tx o) a phases s log r ph e st =
      let (h, sends) = next-send _ _ (phases r) ph tx o a e in
      elim (Bool-cases (own requests i nonce r)) [
        | inl t ↦ rw sends (send-Stage requests i nonce phases s log r t h st)
        | inr t ↦
            log-Stage _ s log (r ∷ log) (rw (t, if◌then◌else◌) refl)
              (foreign-Stage phases s log r ph t st)
      ]
  call-Stage pid locked (nonce_mark_used j m) a phases s log r ph e st =
      let (h, pair, marked) = next-mark _ j _ m (phases r) ph _ e in
      elim (Bool-cases (own requests i nonce r)) [
        | inl t ↦
            let (ej, em) = own_pair r j m t pair in
            rw (marked, ej, em) (mark-Stage requests i nonce phases s log r pid locked t h st)
        | inr t ↦
            foreign-Stage phases _ log r ph t
              (store-Stage requests i nonce phases s log (marks pid locked j m) tt st)
      ]
  call-Stage pid locked (nonce_release j m) a phases s log r ph e st =
      let (h, pair, released) = next-release _ j _ m (phases r) ph _ e in
      elim (Bool-cases (own requests i nonce r)) [
        | inl t ↦
            let (ej, em) = own_pair r j m t pair in
            rw (released, ej, em) (release-Stage requests i nonce phases s log r pid locked t h st)
        | inr t ↦ foreign-Stage phases _ log r ph t (
            store-Stage requests i nonce phases s log (releases pid locked j m)
              (foreign_pair r j m t pair) st)
      ]
  call-Stage pid locked (nonce_is_used j m) a phases s log r ph e st =
      same-Stage phases _ log r ph
        (next-other (requests r).survey_id (requests r).nonce (phases r) ph (nonce_is_used j m) _ tt
          e)
        (store-Stage requests i nonce phases s log (checks pid j m) tt st)
  call-Stage pid locked c a phases s log r ph e st =
      same-Stage phases s log r ph
        (next-other (requests r).survey_id (requests r).nonce (phases r) ph c a tt e) st

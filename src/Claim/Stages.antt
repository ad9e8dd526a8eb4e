-- ===== src/Claim/Stages.antt =====
-- One survey and nonce among all claims of Claim/World: which claim holds it, and what the nonce store
-- and the log of the transactions say of it then.
use vpp_blockchain.Base.{
  ℕ, ◌≡◌, ◌≢◌, refl, sym, ap, ◌∙◌, subst, ◌⊎◌, inl, inr, Bool, true, false, ◌&&◌, none, some, List,
  ◌∷◌, ◌==◌, if◌then◌else◌, Bool-cases, arith, Text, text_eq,
}
use vpp_blockchain.Base.Exec.{Result, ok, throw}
use vpp_blockchain.NonceStore.{StoreError, composite_key, mark_used}
use vpp_blockchain.NonceStore.Steps.{mark_used-key, mark_used-refuses}
use vpp_blockchain.NonceStore.Replay.{
  System, on, Op, marks, releases, step, Keeps, Valid, Held, step-Valid, step-Held, granted-Held,
}
use vpp_blockchain.Server.{Answer, Tx, Overrides, send, nonce_mark_used, nonce_release}
use vpp_blockchain.Claim.{ClaimRequest}
use vpp_blockchain.Claim.Monitor.{Phase, idle, held, spent, after_mark, next}
use vpp_blockchain.Claim.World.{sends_for}

abbrev pub put_phase : (ℕ → Phase) → ℕ → Phase → ℕ → Phase
put_phase phases r ph j = if j == r then ph else phases j

pub next-send :
    (i : ℕ) (n : Text) (ph ph' : Phase) (tx : Tx) (o : Overrides) (a : Answer (send tx o))
    → next i n ph (send tx o) a ≡ some ph'
    → (ph ≡ held) × (ph' ≡ spent)
next-send i n idle ph' tx o a e = absurd (cc)
next-send i n held ph' tx o a e = (refl, cc)
next-send i n spent ph' tx o a e = absurd (cc)

allowed_if : (b : Bool) (x y : Phase) → (if b then some x else none) ≡ some y → (b ≡ true) × (y ≡ x)
allowed_if true x y e = (refl, cc)
allowed_if false x y e = absurd (cc)

pub next-mark :
    (i j : ℕ) (n m : Text) (ph ph' : Phase) (a : Answer (nonce_mark_used j m))
    → next i n ph (nonce_mark_used j m) a ≡ some ph'
    → (ph ≡ idle) × ((i == j && text_eq n m) ≡ true) × (ph' ≡ after_mark a)
next-mark i j n m idle ph' a e =
    let (own_key, at) = allowed_if (i == j && text_eq n m) (after_mark a) ph' e in
    (refl, own_key, at)
next-mark i j n m held ph' a e = absurd (cc)
next-mark i j n m spent ph' a e = absurd (cc)

pub next-release :
    (i j : ℕ) (n m : Text) (ph ph' : Phase) (a : Answer (nonce_release j m))
    → next i n ph (nonce_release j m) a ≡ some ph'
    → (ph ≡ held) × ((i == j && text_eq n m) ≡ true) × (ph' ≡ idle)
next-release i j n m idle ph' a e = absurd (cc)
next-release i j n m held ph' a e =
    let (own_key, at) = allowed_if (i == j && text_eq n m) idle ph' e in (refl, own_key, at)
next-release i j n m spent ph' a e = absurd (cc)

-- A nonce that was not consumed leaves the claim where it is.
after_mark-idle : (a : Result StoreError Bool) → a ≢ ok true → after_mark a ≡ idle
after_mark-idle (ok true) n = absurd (n refl)
after_mark-idle (ok false) n = refl
after_mark-idle (throw e) n = refl

granted-cases : (a : Result StoreError Bool) → (a ≡ ok true) ⊎ (a ≢ ok true)
granted-cases (ok true) = inl refl
granted-cases (ok false) = inr (λ e. cc)
granted-cases (throw e) = inr (λ e. cc)

module _ (requests : ℕ → ClaimRequest) (i : ℕ) (nonce : Text) where
  -- Whether the claim is for this survey and nonce.
  abbrev pub own : ℕ → Bool
  own r = (requests r).survey_id == i && text_eq (requests r).nonce nonce

  -- No claim has consumed the nonce.
  pub record Free (phases : ℕ → Phase) (s : System) (log : List ℕ) : Type 0 where
    pub all_idle : (r : ℕ) → own r ≡ true → phases r ≡ idle
    pub none_sent : sends_for requests i nonce log ≡ 0
    pub valid : Valid s

  -- One claim has consumed it; every other one has not, and cannot.
  pub record Owned (phases : ℕ → Phase) (s : System) (log : List ℕ) : Type 0 where
    pub owner : ℕ
    pub is_own : own owner ≡ true
    pub others : (r : ℕ) → own r ≡ true → (r == owner) ≡ false → phases r ≡ idle
    pub stage :
        (phases owner ≡ held) × (sends_for requests i nonce log ≡ 0)
        ⊎ (phases owner ≡ spent) × (sends_for requests i nonce log ≡ 1)
    pub key : Text
    pub is_key : composite_key i nonce ≡ ok key
    pub kept : Held key s

  abbrev pub Stage : (ℕ → Phase) → System → List ℕ → Type 0
  Stage phases s log = Free phases s log ⊎ Owned phases s log

  -- An operation of the nonce store that does not give the nonce back.
  pub store-Stage :
      (phases : ℕ → Phase) (s : System) (log : List ℕ) (op : Op)
      → Keeps i nonce op
      → Stage phases s log
      → Stage phases (step s op) log
  store-Stage phases s log op keeps (inl f) =
      inl
        (record { all_idle = f.all_idle; none_sent = f.none_sent; valid = step-Valid s op f.valid })
  store-Stage phases s log op keeps (inr w) = inr (record {
    owner = w.owner;
    is_own = w.is_own;
    others = w.others;
    stage = w.stage;
    key = w.key;
    is_key = w.is_key;
    kept = step-Held s op i nonce w.key w.is_key keeps w.kept;
  })

  -- The phases of the claims for this survey and nonce matter only.
  pub phases-Stage :
      (phases phases' : ℕ → Phase) (s : System) (log : List ℕ)
      → ((r : ℕ) → own r ≡ true → phases' r ≡ phases r)
      → Stage phases s log
      → Stage phases' s log
  phases-Stage phases phases' s log same (inl f) = inl (record {
    all_idle = λ r o. same r o ∙ f.all_idle r o;
    none_sent = f.none_sent;
    valid = f.valid;
  })
  phases-Stage phases phases' s log same (inr w) = inr (record {
    owner = w.owner;
    is_own = w.is_own;
    others = λ r o n. same r o ∙ w.others r o n;
    stage = elim w.stage [
      | inl (p, n) ↦ inl (same w.owner w.is_own ∙ p, n)
      | inr (p, n) ↦ inr (same w.owner w.is_own ∙ p, n)
    ];
    key = w.key;
    is_key = w.is_key;
    kept = w.kept;
  })

  -- A claim that holds the nonce is its owner, and has not sent.
  owner_is :
      (phases : ℕ → Phase) (s : System) (log : List ℕ) (r : ℕ)
      → own r ≡ true
      → phases r ≡ held
      → (w : Owned phases s log) → (r ≡ w.owner) × (sends_for requests i nonce log ≡ 0)
  owner_is phases s log r o h w = elim (Bool-cases (r == w.owner)) [
    | inl t ↦
        let e : r ≡ w.owner = ground arith in
        elim w.stage [
          | inl (_, n) ↦ (e, n)
          | inr (p, _) ↦
              let at : phases w.owner ≡ held = subst (λ j. phases j ≡ held) e h in absurd (cc)
        ]
    | inr t ↦ let at = w.others r o t in absurd (cc)
  ]

  put_same : (phases : ℕ → Phase) (r : ℕ) (ph : Phase) → put_phase phases r ph r ≡ ph
  put_same phases r ph = let e : (r == r) ≡ true = ground arith in rw (e, if◌then◌else◌) refl

  -- All other claims for the nonce stay idle when the owner moves on.
  others_idle :
      (phases : ℕ → Phase) (r : ℕ) (ph : Phase)
      → ((j : ℕ) → own j ≡ true → (j == r) ≡ false → phases j ≡ idle)
      → (j : ℕ) → own j ≡ true
      → (j == r) ≡ false
      → put_phase phases r ph j ≡ idle
  others_idle phases r ph h j o n = rw (n, if◌then◌else◌) (h j o n)

  -- The owner sends.
  pub send-Stage :
      (phases : ℕ → Phase) (s : System) (log : List ℕ) (r : ℕ)
      → own r ≡ true
      → phases r ≡ held
      → Stage phases s log
      → Stage (put_phase phases r spent) s (r ∷ log)
  unfolding sends_for
  send-Stage phases s log r o h (inl f) = let at = f.all_idle r o in absurd (cc)
  send-Stage phases s log r o h (inr w) =
      let (e, n) = owner_is phases s log r o h w in
      inr (record {
        owner = r;
        is_own = o;
        others = others_idle phases r spent (
            subst (λ k. (j : ℕ) → own j ≡ true → (j == k) ≡ false → phases j ≡ idle) (sym e)
              w.others);
        stage = inr (put_same phases r spent, rw (o, n, if◌then◌else◌) refl);
        key = w.key;
        is_key = w.is_key;
        kept = w.kept;
      })

  -- The owner gives the nonce back.
  pub release-Stage :
      (phases : ℕ → Phase) (s : System) (log : List ℕ) (r pid : ℕ) (locked : Bool)
      → own r ≡ true
      → phases r ≡ held
      → Stage phases s log
      → Stage (put_phase phases r idle) (step s (releases pid locked i nonce)) log
  release-Stage phases s log r pid locked o h (inl f) = let at = f.all_idle r o in absurd (cc)
  release-Stage phases s log r pid locked o h (inr w) =
      let (e, n) = owner_is phases s log r o h w in
      inl (record {
        all_idle = λ j oj. elim (Bool-cases (j == r)) [
          | inl t ↦ rw (t, if◌then◌else◌) refl
          | inr t ↦ rw (t, if◌then◌else◌) (w.others j oj (subst (λ k. (j == k) ≡ false) e t))
        ];
        none_sent = n;
        valid = step-Valid s (releases pid locked i nonce) (record { fresh = w.kept.fresh });
      })

  -- A claim consumes the nonce.
  granted-Stage :
      (phases : ℕ → Phase) (s : System) (log : List ℕ) (r pid : ℕ) (locked : Bool)
      → own r ≡ true
      → phases r ≡ idle
      → (on pid (mark_used locked i nonce) s).0 ≡ ok true
      → Stage phases s log
      → Stage
          (put_phase phases r (after_mark (on pid (mark_used locked i nonce) s).0))
          (step s (marks pid locked i nonce))
          log
  unfolding on step
  granted-Stage phases s log r pid locked o h e (inl f) =
      let (key, k) = mark_used-key locked i nonce _ true e in
      inr (record {
        owner = r;
        is_own = o;
        others = others_idle phases r _ (λ j oj _. f.all_idle j oj);
        stage = inl (put_same phases r _ ∙ ap after_mark e, f.none_sent);
        key = key;
        is_key = k;
        kept = granted-Held s pid locked i nonce key f.valid k e;
      })
  granted-Stage phases s log r pid locked o h e (inr w) = absurd (
      mark_used-refuses locked i nonce _ w.key w.is_key
        (record { file = w.kept.file; cache = w.kept.cached pid }) e)

  -- A claim tries to consume the nonce.
  pub mark-Stage :
      (phases : ℕ → Phase) (s : System) (log : List ℕ) (r pid : ℕ) (locked : Bool)
      → own r ≡ true
      → phases r ≡ idle
      → Stage phases s log
      → Stage
          (put_phase phases r (after_mark (on pid (mark_used locked i nonce) s).0))
          (step s (marks pid locked i nonce))
          log
  mark-Stage phases s log r pid locked o h st =
      elim (granted-cases (on pid (mark_used locked i nonce) s).0) [
        | inl e ↦ granted-Stage phases s log r pid locked o h e st
        | inr n ↦
            phases-Stage phases _ (step s (marks pid locked i nonce)) log
              (λ j _. elim (Bool-cases (j == r)) [
                | inl t ↦
                    let at : j ≡ r = ground arith in
                    rw (t, if◌then◌else◌) (after_mark-idle _ n ∙ sym h ∙ ap phases (sym at))
                | inr t ↦ rw (t, if◌then◌else◌) refl
              ])
              (store-Stage phases s log (marks pid locked i nonce) tt st)
      ]

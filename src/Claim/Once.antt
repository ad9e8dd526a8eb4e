-- ===== src/Claim/Once.antt =====
-- One request of packages/backend/src/routes/claim.ts, followed from the body to the answer under
-- the monitor of Claim/Monitor.
use vpp_blockchain.Base.{
  ℕ, ◌≡◌, ◌≢◌, refl, Bool, true, false, ◌&&◌, not, codes, Option, none, some, [], Text, text_eq,
  text_eq_refl, ◌==◌, ◌⊎◌, arith, inl, inr, if◌then◌else◌,
}
use vpp_blockchain.Base.Exec.{Result, ok, throw}
use vpp_blockchain.NonceStore.{StoreError}
use vpp_blockchain.Hmac.{Primitives}
use vpp_blockchain.Server.{
  new_error, Call, Rpc, send, wait, nonce_is_used, Overrides, award_points, Prog, done, fail, call,
  ask, settle, settle_store, catch, require, already_claimed, nonce_used, sync_within, Tx, Thrown,
  raised, ◌>>=◌, ◌>>◌,
}
use vpp_blockchain.Server.Quiet.{Env, Calm, require-Calm, Quiet-Calm, catch-Quiet}
use vpp_blockchain.Chain.{
  Limits, award, prepare_award, send_and_wait, is_not_sent, mark_not_sent, has_claimed,
}
use vpp_blockchain.Chain.Writes.{
  IsRaised, prepare_award-Quiet, mark_not_sent_lem, has_claimed-Quiet,
}
use vpp_blockchain.Claim.{
  Ethers, Settings, ClaimBody, ClaimRequest, ClaimResult, claim_schema, check_message, check_survey,
  consume_nonce, give_back, claim,
}
use vpp_blockchain.Claim.Checks.{check_message-Calm, check_survey-Calm}
use vpp_blockchain.Claim.Monitor.{
  Phase, idle, held, spent, Runs, Ended, follow, Runs-follow, Genuine, after_mark, bind-Runs,
  catch-Runs, Quiet-Runs,
}

-- How an attempt to award ends: with the nonce still held and nothing sent, or after the
-- transaction.
abbrev Awarded : Phase → Thrown → Type 0
Awarded phase e =
    (phase ≡ held) × (is_not_sent e ≡ true) ⊎ (phase ≡ spent) × (is_not_sent e ≡ false)

module _ (i : ℕ) (nonce : Text) where
  Runs-mono :
      {A : Type 0} (phase : Phase) (P Q : Phase → A → Type 0) (D E : Phase → Thrown → Type 0)
      (p : Prog A)
      → Runs i nonce phase P D p
      → ((ph : Phase) (a : A) → P ph a → Q ph a)
      → ((ph : Phase) (e : Thrown) → D ph e → E ph e)
      → Runs i nonce phase Q E p
  Runs-mono phase P Q D E (done a) h q e = q phase a h
  Runs-mono phase P Q D E (fail x) h q e = e phase x h
  Runs-mono phase P Q D E (call c k) h q e =
      λ a g. let (ph, step, rest) = h a g in (ph, step, Runs-mono ph P Q D E (k a) rest q e)

  receipt-Runs :
      (waited : Rpc (Option Text))
      → Genuine (wait []) waited
      → Runs i nonce spent
          (λ ph _. ph ≡ spent)
          Awarded
          (settle waited >>= λ receipt. elim receipt [
            | some r ↦ done r
            | none ↦ fail (raised (new_error (codes "Transaction receipt is null")))
          ])
  unfolding ◌>>=◌ is_not_sent
  receipt-Runs (ok (some r)) g = refl
  receipt-Runs (ok none) g = inr (refl, refl)
  receipt-Runs (throw e) g = inr (refl, g)

  sent-Runs :
      (tx : Tx) (overrides : Overrides) (sent : Rpc Text)
      → Genuine (send tx overrides) sent
      → Runs i nonce spent
          (λ ph _. ph ≡ spent)
          Awarded
          (settle sent >>= λ hash. ask (wait hash) >>= λ waited. settle waited >>= λ receipt.
            elim receipt [
              | some r ↦ done r
              | none ↦ fail (raised (new_error (codes "Transaction receipt is null")))
            ])
  unfolding ◌>>=◌
  sent-Runs tx overrides (ok hash) g = λ waited w. (spent, refl, receipt-Runs waited w)
  sent-Runs tx overrides (throw e) g = inr (refl, g)

  send_and_wait-Runs :
      (limits : Limits) (tx : Tx) (overrides : Overrides)
      → Runs i nonce held (λ ph _. ph ≡ spent) Awarded (send_and_wait limits tx overrides)
  unfolding send_and_wait ◌>>=◌
  send_and_wait-Runs limits tx overrides = λ sent g. (spent, refl, sent-Runs tx overrides sent g)

  -- From the nonce held, `awardPoints` sends once, or throws marked that it did not.
  award-Runs :
      (limits : Limits) (student : Text) (survey_id : ℕ)
      → Runs i nonce held (λ ph _. ph ≡ spent) Awarded (award limits student survey_id)
  unfolding award
  award-Runs limits student survey_id =
      let send_it : Overrides → Prog Text = send_and_wait limits (award_points student survey_id) in
      bind-Runs i nonce held (λ ph _. ph ≡ spent) Awarded
        (catch (prepare_award limits student survey_id) (λ err. fail (mark_not_sent err))) send_it
        (Quiet-Runs i nonce held
          (λ ph overrides. Runs i nonce ph (λ ph' _. ph' ≡ spent) Awarded (send_it overrides))
          (λ e. is_not_sent e ≡ true) Awarded _
          (catch-Quiet IsRaised (λ e. is_not_sent e ≡ true) (prepare_award limits student survey_id)
            _ (prepare_award-Quiet limits student survey_id) mark_not_sent_lem)
          (send_and_wait-Runs limits (award_points student survey_id))
          (λ e marked. inl (refl, marked)))

  -- A quiet program before another one.
  Calm-Runs :
      {A B : Type 0} (phase : Phase) (Q : Phase → B → Type 0) (E : Phase → Thrown → Type 0)
      (p : Prog A) (f : A → Prog B)
      → Calm p
      → ((e : Thrown) → E phase e)
      → ((a : A) → Runs i nonce phase Q E (f a))
      → Runs i nonce phase Q E (p >>= f)
  Calm-Runs phase Q E p f h e g = bind-Runs i nonce phase Q E p f (
      Quiet-Runs i nonce phase (λ ph a. Runs i nonce ph Q E (f a)) (λ _. Unit {0}) E p h g
        (λ x _. e x))

  -- A program that ends in a known way before another one.
  then-Runs :
      {A B : Type 0} (phase : Phase) (P : Phase → A → Type 0) (D : Phase → Thrown → Type 0)
      (Q : Phase → B → Type 0) (E : Phase → Thrown → Type 0) (p : Prog A) (f : A → Prog B)
      → Runs i nonce phase P D p
      → ((ph : Phase) (e : Thrown) → D ph e → E ph e)
      → ((ph : Phase) (a : A) → P ph a → Runs i nonce ph Q E (f a))
      → Runs i nonce phase Q E (p >>= f)
  then-Runs phase P D Q E p f h e g =
      bind-Runs i nonce phase Q E p f
        (Runs-mono phase P (λ ph a. Runs i nonce ph Q E (f a)) D E p h g e)

  marked-Runs :
      (marked : Result StoreError Bool)
      → Runs i nonce
          (after_mark marked)
          (λ ph _. ph ≡ held)
          (λ ph _. ph ≡ idle)
          (settle_store marked >>= λ consumed. require consumed 409 nonce_used)
  unfolding ◌>>=◌
  marked-Runs (ok true) = refl
  marked-Runs (ok false) = refl
  marked-Runs (throw e) = refl

  released-Runs :
      (released : Result StoreError (Unit {0})) (e : Thrown)
      → Runs i nonce idle
          (λ ph (_ : Text). ph ≡ spent)
          (λ ph _. ph ≢ held)
          (settle_store released >>= λ _. fail e)
  unfolding ◌>>=◌
  released-Runs (ok a) e = λ same. absurd (cc)
  released-Runs (throw x) e = λ same. absurd (cc)

finish-Runs :
    (i : ℕ) (nonce : Text) (ph : Phase) (result : ClaimResult)
    → ph ≡ spent
    → Runs i nonce ph (λ ph' _. ph' ≡ spent) (λ ph' _. ph' ≢ held) (ask sync_within >> done result)
unfolding ◌>>=◌
finish-Runs i nonce spent result sent = λ _ _. (spent, refl, refl)
finish-Runs i nonce idle result sent = absurd (cc)
finish-Runs i nonce held result sent = absurd (cc)

settle_store-Calm : {A : Type 0} (outcome : Result StoreError A) → Calm (settle_store outcome)
settle_store-Calm (ok a) = tt
settle_store-Calm (throw e) = tt

parsed-Runs :
    (i : ℕ) (nonce : Text) (o : Option ClaimRequest) (e : Thrown) (request : ClaimRequest)
    (Q : Phase → ClaimResult → Type 0) (E : Phase → Thrown → Type 0)
    (f : ClaimRequest → Prog ClaimResult)
    → o ≡ some request
    → Runs i nonce idle Q E (f request)
    → Runs i nonce idle Q E
        ((elim o as (λ _. Prog ClaimRequest) [ none ↦ fail e | some r ↦ done r ]) >>= f)
unfolding ◌>>=◌
parsed-Runs i nonce none e request Q E f t h = absurd (cc)
parsed-Runs i nonce (some r) e request Q E f t h = let same : r ≡ request = cc in rw (same) h

own_key :
    (request : ClaimRequest)
    → (request.survey_id == request.survey_id && text_eq request.nonce request.nonce) ≡ true
own_key request = let r = text_eq_refl request.nonce in ground arith

module _ (ethers : Ethers) (node : Primitives) (settings : Settings) where
  give_back-Runs :
      (request : ClaimRequest) (ph : Phase) (e : Thrown)
      → Awarded ph e
      → Runs request.survey_id request.nonce ph
          (λ ph' _. ph' ≡ spent)
          (λ ph' _. ph' ≢ held)
          (give_back ethers node settings request e)
  unfolding give_back ◌>>=◌
  give_back-Runs request ph e (inl (at, marked)) =
      rw (at, marked, if◌then◌else◌)
        (λ released _.
          (idle, rw (own_key request, if◌then◌else◌) refl, released-Runs _ _ released e))
  give_back-Runs request ph e (inr (at, unmarked)) =
      rw (at, unmarked, if◌then◌else◌) (λ same. absurd (cc))

  consume_nonce-Runs :
      (request : ClaimRequest)
      → Runs request.survey_id request.nonce idle
          (λ ph _. ph ≡ held)
          (λ ph _. ph ≡ idle)
          (consume_nonce ethers node settings request)
  unfolding consume_nonce ◌>>=◌
  consume_nonce-Runs request =
      let i = request.survey_id in
      let nonce = request.nonce in
      let wallet = request.wallet_address in
      let Q : Phase → Unit {0} → Type 0 = λ ph _. ph ≡ held in
      let E : Phase → Thrown → Type 0 = λ ph _. ph ≡ idle in
      Calm-Runs i nonce idle Q E (ask (nonce_is_used i nonce)) _ (tt, λ _. tt) (λ e. refl)
        (λ answer.
          Calm-Runs i nonce idle Q E (settle_store answer) _ (settle_store-Calm answer) (λ e. refl)
            (λ used.
              Calm-Runs i nonce idle Q E (require (not used) 409 nonce_used) _ (require-Calm _ _ _)
                (λ e. refl)
                (λ _.
                  Calm-Runs i nonce idle Q E (has_claimed wallet i) _
                    (Quiet-Calm IsRaised _ (has_claimed-Quiet wallet i)) (λ e. refl)
                    (λ claimed.
                      Calm-Runs i nonce idle Q E (require (not claimed) 409 already_claimed) _
                        (require-Calm _ _ _) (λ e. refl)
                        (λ _. λ marked _. (
                          after_mark marked,
                          rw (own_key request, if◌then◌else◌) refl,
                          marked-Runs i nonce marked,
                        ))))))

  attempt-Runs :
      (request : ClaimRequest)
      → Runs request.survey_id request.nonce held
          (λ ph _. ph ≡ spent)
          (λ ph _. ph ≢ held)
          (catch
            (award settings.limits request.wallet_address request.survey_id)
            (give_back ethers node settings request))
  attempt-Runs request =
      let i = request.survey_id in
      let nonce = request.nonce in
      let Q : Phase → Text → Type 0 = λ ph _. ph ≡ spent in
      let E : Phase → Thrown → Type 0 = λ ph _. ph ≢ held in
      catch-Runs i nonce held Q E _ _ (
        Runs-mono i nonce held Q Q Awarded
          (λ ph e. Runs i nonce ph Q E (give_back ethers node settings request e)) _
          (award-Runs i nonce settings.limits request.wallet_address i) (λ ph r h. h)
          (give_back-Runs request))

  pub claim-Runs :
      (body : ClaimBody) (request : ClaimRequest)
      → claim_schema ethers body ≡ some request
      → Runs request.survey_id request.nonce idle
          (λ ph _. ph ≡ spent)
          (λ ph _. ph ≢ held)
          (claim ethers node settings body)
  unfolding claim
  claim-Runs body request accepted =
      let i = request.survey_id in
      let nonce = request.nonce in
      let Q : Phase → ClaimResult → Type 0 = λ ph _. ph ≡ spent in
      let E : Phase → Thrown → Type 0 = λ ph _. ph ≢ held in
      let idle_ok : (e : Thrown) → E idle e = λ e same. absurd (cc) in
      parsed-Runs i nonce (claim_schema ethers body) _ request Q E _ accepted (
        Calm-Runs i nonce idle Q E (require _ _ _) _ (require-Calm _ _ _) idle_ok (λ _.
          Calm-Runs i nonce idle Q E (require _ _ _) _ (require-Calm _ _ _) idle_ok (λ _.
            Calm-Runs i nonce idle Q E (check_message ethers node settings request) _
              (check_message-Calm ethers node settings request) idle_ok
              (λ _.
                Calm-Runs i nonce idle Q E (check_survey ethers node settings request) _
                  (check_survey-Calm ethers node settings request) idle_ok
                  (λ survey_info.
                    then-Runs i nonce idle (λ ph _. ph ≡ held) (λ ph _. ph ≡ idle) Q E
                      (consume_nonce ethers node settings request) _ (consume_nonce-Runs request)
                      (λ ph e at same. absurd (cc))
                      (λ ph _ at.
                        then-Runs i nonce ph (λ ph' _. ph' ≡ spent) E Q E _ _
                          (rw (at) (attempt-Runs request)) (λ ph' e h. h)
                          (λ ph' receipt sent. finish-Runs i nonce ph' _ sent)))))))

-- A request that the schema accepts, answered in any way by the chain, the store and the clock,
-- where no error of the RPC carries the `notSent` flag: the handler consumes only the nonce of the
-- request, and before it sends; it sends at most one transaction; it gives the nonce back only while
-- none was sent. If it succeeds the transaction was sent, and if it fails the nonce was not left
-- consumed without a transaction, unless giving it back failed.
pub claim_once :
    (ethers : Ethers) (node : Primitives) (settings : Settings) (body : ClaimBody)
    (request : ClaimRequest) (env : Env)
    → claim_schema ethers body ≡ some request
    → ((n : ℕ) (c : Call) → Genuine c (env n c))
    → Ended
        (λ phase _. phase ≡ spent)
        (λ phase _. phase ≢ held)
        (follow request.survey_id request.nonce env 0 idle (claim ethers node settings body))
claim_once ethers node settings body request env accepted genuine =
    Runs-follow request.survey_id request.nonce (λ phase _. phase ≡ spent) (λ phase _. phase ≢ held)
      env 0 idle (claim ethers node settings body) genuine
      (claim-Runs ethers node settings body request accepted)

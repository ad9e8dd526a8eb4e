-- ===== src/Routes/Sends.antt =====
-- A predicate on the transactions that a program sends, and rules for it.
use vpp_blockchain.Base.{ℕ, codes, Option, none, some, Text}
use vpp_blockchain.RpcRetry.Attempts.{settle-Quiet}
use vpp_blockchain.Server.{
  Answer, Rpc, send, Overrides, Tx, award_points, new_error, Prog, done, fail, call, Thrown, raised,
  settle, catch, ◌>>=◌,
}
use vpp_blockchain.Server.Quiet.{IsNeutral, Calm, Quiet-Calm, then-Calm, catch-Quiet}
use vpp_blockchain.Chain.{
  Limits, write, award, prepare_award, send_and_wait, assert_sufficient_balance, build_tx_overrides,
  mark_not_sent,
}
use vpp_blockchain.Chain.Writes.{
  IsRaised, assert_sufficient_balance-Quiet, build_tx_overrides-Quiet, prepare_award-Quiet,
}

-- Every run sends nothing, or sends a transaction that satisfies `Good` once.
abbrev pub Once : {A : Type 0} → (Tx → Type 0) → Prog A → Type 0
Once Good (done a) = Unit {0}
Once Good (fail e) = Unit {0}
Once Good (call (send tx o) k) = Good tx × ((a : Answer (send tx o)) → Calm (k a))
Once Good (call c k) = IsNeutral c × ((a : Answer c) → Once Good (k a))

module _ (Good : Tx → Type 0) where
  pub Calm-Once : {A : Type 0} (p : Prog A) → Calm p → Once Good p
  Calm-Once (done a) h = tt
  Calm-Once (fail e) h = tt
  Calm-Once (call (send tx o) k) h = elim h.0 [ ]
  Calm-Once (call c k) h = (h.0, λ a. Calm-Once (k a) (h.1 a))

  pub before-Once :
      {A B : Type 0} (p : Prog A) (f : A → Prog B)
      → Calm p
      → ((a : A) → Once Good (f a))
      → Once Good (p >>= f)
  unfolding ◌>>=◌
  before-Once (done a) f h g = g a
  before-Once (fail e) f h g = tt
  before-Once (call (send tx o) k) f h g = elim h.0 [ ]
  before-Once (call c k) f h g = (h.0, λ a. before-Once (k a) f (h.1 a) g)

  pub after-Once :
      {A B : Type 0} (p : Prog A) (f : A → Prog B)
      → Once Good p
      → ((a : A) → Calm (f a))
      → Once Good (p >>= f)
  unfolding ◌>>=◌
  after-Once (done a) f h g = Calm-Once (f a) (g a)
  after-Once (fail e) f h g = tt
  after-Once (call (send tx o) k) f h g = (h.0, λ a. then-Calm (k a) f (h.1 a) g)
  after-Once (call c k) f h g = (h.0, λ a. after-Once (k a) f (h.1 a) g)

  pub catch-Once :
      {A : Type 0} (p : Prog A) (f : Thrown → Prog A)
      → Once Good p
      → ((e : Thrown) → Calm (f e))
      → Once Good (catch p f)
  unfolding catch
  catch-Once (done a) f h g = tt
  catch-Once (fail e) f h g = Calm-Once (f e) (g e)
  catch-Once (call (send tx o) k) f h g =
      (h.0, λ a. catch-Quiet (λ _. Unit {0}) (λ _. Unit {0}) (k a) f (h.1 a) (λ e _. g e))
  catch-Once (call c k) f h g = (h.0, λ a. catch-Once (k a) f (h.1 a) g)

  receipt-Calm :
      (o : Option Text)
      → Calm (elim o as (λ _. Prog Text) [
        | some r ↦ done r
        | none ↦ fail (raised (new_error (codes "Transaction receipt is null")))
      ])
  receipt-Calm none = tt
  receipt-Calm (some r) = tt

  settle-Calm : {A : Type 0} (outcome : Rpc A) → Calm (settle outcome)
  settle-Calm outcome = settle-Quiet (λ _. Unit {0}) outcome (λ e. tt)

  send_and_wait-Once :
      (limits : Limits) (tx : Tx) (overrides : Overrides)
      → Good tx
      → Once Good (send_and_wait limits tx overrides)
  unfolding send_and_wait ◌>>=◌
  send_and_wait-Once limits tx overrides good = (
    good,
    λ sent.
        then-Calm (settle sent) _ (settle-Calm sent)
          (λ hash. (tt, λ waited. then-Calm (settle waited) _ (settle-Calm waited) receipt-Calm)),
  )

  pub write-Once : (limits : Limits) (tx : Tx) → Good tx → Once Good (write limits tx)
  unfolding write
  write-Once limits tx good =
      before-Once (assert_sufficient_balance limits) _
        (Quiet-Calm IsRaised _ (assert_sufficient_balance-Quiet limits))
        (λ _.
          before-Once (build_tx_overrides limits) _
            (Quiet-Calm IsRaised _ (build_tx_overrides-Quiet limits))
            (λ overrides. send_and_wait-Once limits tx overrides good))

  pub award-Once :
      (limits : Limits) (student : Text) (survey_id : ℕ)
      → Good (award_points student survey_id)
      → Once Good (award limits student survey_id)
  unfolding award
  award-Once limits student survey_id good =
      before-Once (catch (prepare_award limits student survey_id) (λ err. fail (mark_not_sent err)))
        _
        (catch-Quiet IsRaised (λ _. Unit {0}) (prepare_award limits student survey_id) _
          (prepare_award-Quiet limits student survey_id) (λ e _. tt))
        (λ overrides. send_and_wait-Once limits (award_points student survey_id) overrides good)

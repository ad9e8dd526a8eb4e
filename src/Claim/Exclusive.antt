-- ===== src/Claim/Exclusive.antt =====
-- Every survey and nonce among all claims of Claim/World, over all their turns.
use vpp_blockchain.Base.{
  ℕ, ◌+◌, ◌≤◌, ◌≡◌, ◌≢◌, refl, subst, inl, inr, Bool, some, List, [], ◌∷◌, ◌==◌, if◌then◌else◌,
  Bool-cases, arith, Text,
}
use vpp_blockchain.Hmac.{Primitives}
use vpp_blockchain.NonceStore.Replay.{System, restarts, disk_turns, Valid}
use vpp_blockchain.Server.{Call, Answer, Prog, done, fail, call}
use vpp_blockchain.Server.Quiet.{Env}
use vpp_blockchain.Claim.{
  Ethers, Settings, ClaimBody, ClaimRequest, ClaimResult, claim_schema, claim,
}
use vpp_blockchain.Claim.Monitor.{Phase, idle, held, spent, Genuine, Runs}
use vpp_blockchain.Claim.Once.{claim-Runs}
use vpp_blockchain.Claim.World.{
  World, Event, turn, restart, disk, perform, put_program, advance, happen, happen_all, sends_for,
}
use vpp_blockchain.Claim.Stages.{put_phase, Free, Stage, store-Stage}
use vpp_blockchain.Claim.Turns.{perform-Genuine, call-Stage}

module _ (pids : ℕ → ℕ) (requests : ℕ → ClaimRequest) (i : ℕ) (nonce : Text) where
  -- Every claim can go on from its phase, whatever its calls are answered.
  abbrev Going : (ℕ → Phase) → (ℕ → Prog ClaimResult) → Type 0
  Going phases programs =
      (r : ℕ)
      → Runs (requests r).survey_id (requests r).nonce (phases r) (λ ph _. ph ≡ spent)
          (λ ph _. ph ≢ held) (programs r)

  record Inv (w : World) : Type 0 where
    phases : ℕ → Phase
    going : Going phases w.programs
    stage : Stage requests i nonce phases w.store w.sent

  put-Going :
      (phases : ℕ → Phase) (programs : ℕ → Prog ClaimResult) (r : ℕ) (ph : Phase)
      (p : Prog ClaimResult)
      → Runs (requests r).survey_id (requests r).nonce ph (λ ph _. ph ≡ spent) (λ ph _. ph ≢ held) p
      → Going phases programs
      → Going (put_phase phases r ph) (put_program programs r p)
  put-Going phases programs r ph p h g j = elim (Bool-cases (j == r)) [
    | inl t ↦ let at : j ≡ r = ground arith in rw (t, at, if◌then◌else◌) h
    | inr t ↦ rw (t, if◌then◌else◌) (g j)
  ]

  advance-Inv :
      (r : ℕ) (locked : Bool) (answers : (c : Call) → Answer c) (p : Prog ClaimResult) (w : World)
      → ((c : Call) → Genuine c (answers c))
      → w.programs r ≡ p
      → Inv w
      → Inv (advance pids r locked answers p w)
  unfolding advance
  advance-Inv r locked answers (done a) w genuine e inv = inv
  advance-Inv r locked answers (fail x) w genuine e inv = inv
  advance-Inv r locked answers (call c k) w genuine e inv =
      let i_r = (requests r).survey_id in
      let n_r = (requests r).nonce in
      let running : Runs i_r n_r (inv.phases r) (λ ph _. ph ≡ spent) (λ ph _. ph ≢ held)
          (call c k) =
        subst (Runs i_r n_r (inv.phases r) (λ ph _. ph ≡ spent) (λ ph _. ph ≢ held)) e
          (inv.going r) in
      let (ph, moves, rest) =
        running (perform (pids r) locked c (answers c) w.store).0
          (perform-Genuine (pids r) locked c (answers c) w.store (genuine c)) in
      record {
        phases = put_phase inv.phases r ph;
        going = put-Going inv.phases w.programs r ph _ rest inv.going;
        stage =
            call-Stage requests i nonce (pids r) locked c (answers c) inv.phases w.store w.sent r ph
              moves inv.stage;
      }

  happen-Inv :
      (answers : (c : Call) → Answer c) (e : Event) (w : World)
      → ((c : Call) → Genuine c (answers c))
      → Inv w
      → Inv (happen pids answers e w)
  unfolding happen
  happen-Inv answers (turn r locked) w genuine inv =
      advance-Inv r locked answers (w.programs r) w genuine refl inv
  happen-Inv answers (restart pid) w genuine inv = record {
    phases = inv.phases;
    going = inv.going;
    stage = store-Stage requests i nonce inv.phases w.store w.sent (restarts pid) tt inv.stage;
  }
  happen-Inv answers (disk writable) w genuine inv = record {
    phases = inv.phases;
    going = inv.going;
    stage =
        store-Stage requests i nonce inv.phases w.store w.sent (disk_turns writable) tt inv.stage;
  }

  events-Inv :
      (env : Env) (n : ℕ) (es : List Event) (w : World)
      → ((m : ℕ) (c : Call) → Genuine c (env m c))
      → Inv w
      → Inv (happen_all pids env n es w)
  unfolding happen_all
  events-Inv env n [] w genuine inv = inv
  events-Inv env n (e ∷ es) w genuine inv =
      events-Inv env (n + 1) es (happen pids (env n) e w) genuine
        (happen-Inv (env n) e w (genuine n) inv)

  Stage-sends :
      (phases : ℕ → Phase) (s : System) (log : List ℕ)
      → Stage requests i nonce phases s log
      → sends_for requests i nonce log ≤ 1
  Stage-sends phases s log (inl f) = omega (arith, f.none_sent)
  Stage-sends phases s log (inr w) = elim w.stage [
    | inl (_, n) ↦ omega (arith, n)
    | inr (_, n) ↦ omega (arith, n)
  ]

module _ (ethers : Ethers) (node : Primitives) (settings : Settings) where
  -- Any number of claims, each with a body that the schema accepts, on any processes over a nonce store
  -- whose caches are not newer than its file; with their calls interleaved in any way, among restarts,
  -- failed writes and lock timeouts, and answered in any way but that no error of the RPC carries the
  -- `notSent` flag: for every survey and nonce, at most one transaction is sent by all the claims for
  -- them together.
  pub claims_exclusive :
      (pids : ℕ → ℕ) (bodies : ℕ → ClaimBody) (requests : ℕ → ClaimRequest) (store : System)
      (env : Env) (events : List Event) (i : ℕ) (nonce : Text)
      → ((r : ℕ) → claim_schema ethers (bodies r) ≡ some (requests r))
      → Valid store
      → ((n : ℕ) (c : Call) → Genuine c (env n c))
      → sends_for requests i nonce
          (happen_all pids env 0 events (record {
            store = store;
            programs = λ r. claim ethers node settings (bodies r);
            sent = [];
          })).sent
        ≤ 1
  unfolding sends_for
  claims_exclusive pids bodies requests store env events i nonce accepted valid genuine =
      let start : World = record {
        store = store;
        programs = λ r. claim ethers node settings (bodies r);
        sent = [];
      } in
      let free : Free requests i nonce (λ _. idle) store [] = record {
        all_idle = λ r o. refl;
        none_sent = refl;
        valid = valid;
      } in
      let inv = events-Inv pids requests i nonce env 0 events start genuine (record {
        phases = λ _. idle;
        going = λ r. claim-Runs ethers node settings (bodies r) (requests r) (accepted r);
        stage = inl free;
      }) in
      Stage-sends pids requests i nonce inv.phases _ _ inv.stage

-- ===== src/Claim/World.antt =====
-- packages/backend/src/routes/claim.ts with packages/backend/src/services/nonce-store.ts: any number
-- of claims on several server processes over one nonce file. A turn of a claim is its next call; the
-- calls of the nonce store run the functions of the store, all others are answered by the
-- environment. Processes restart and writes fail between turns; a claim that is cut off gets no more
-- turns.
use vpp_blockchain.Base.{ℕ, ◌+◌, Bool, ◌&&◌, List, [], ◌∷◌, ◌==◌, if◌then◌else◌, Text, text_eq}
use vpp_blockchain.NonceStore.{mark_used, release_nonce, is_used}
use vpp_blockchain.NonceStore.Replay.{System, on, restarts, disk_turns, step}
use vpp_blockchain.Server.{
  Call, Answer, send, nonce_is_used, nonce_mark_used, nonce_release, Prog, done, fail, call,
}
use vpp_blockchain.Server.Quiet.{Env}
use vpp_blockchain.Claim.{ClaimRequest, ClaimResult}

-- The nonce store, what is left of each claim, and the claims that called `send`, the last first.
pub record World : Type 0 where
  pub store : System
  pub programs : ℕ → Prog ClaimResult
  pub sent : List ℕ

pub data Event : Type 0 where
  turn : (claim : ℕ) (locked : Bool) → Event
  restart : (pid : ℕ) → Event
  disk : (writable : Bool) → Event

-- What a call of process `pid` is answered, and the nonce store afterwards.
abbrev pub perform : ℕ → Bool → (c : Call) → Answer c → System → Answer c × System
perform pid locked (nonce_mark_used i n) a s = on pid (mark_used locked i n) s
perform pid locked (nonce_release i n) a s = on pid (release_nonce locked i n) s
perform pid locked (nonce_is_used i n) a s = on pid (is_used i n) s
perform pid locked c a s = (a, s)

abbrev pub log_send : Call → ℕ → List ℕ → List ℕ
log_send (send tx o) r log = r ∷ log
log_send c r log = log

abbrev pub put_program : (ℕ → Prog ClaimResult) → ℕ → Prog ClaimResult → ℕ → Prog ClaimResult
put_program programs r p j = if j == r then p else programs j

module _ (pids : ℕ → ℕ) where
  -- The claim `r`, of which `p` is left, makes its next call.
  unfoldable pub advance : ℕ → Bool → ((c : Call) → Answer c) → Prog ClaimResult → World → World
  advance r locked answers (done a) w = w
  advance r locked answers (fail e) w = w
  advance r locked answers (call c k) w =
      let (a, store) = perform (pids r) locked c (answers c) w.store in
      record {
        store = store;
        programs = put_program w.programs r (k a);
        sent = log_send c r w.sent;
      }

  unfoldable pub happen : ((c : Call) → Answer c) → Event → World → World
  unfolding advance
  happen answers (turn r locked) w = advance r locked answers (w.programs r) w
  happen answers (restart pid) w = record w { store = step w.store (restarts pid) }
  happen answers (disk writable) w = record w { store = step w.store (disk_turns writable) }

  unfoldable pub happen_all : Env → ℕ → List Event → World → World
  unfolding happen
  happen_all env n [] w = w
  happen_all env n (e ∷ es) w = happen_all env (n + 1) es (happen (env n) e w)

-- How many of the claims in the log are for this survey and nonce.
unfoldable pub sends_for : (ℕ → ClaimRequest) → ℕ → Text → List ℕ → ℕ
sends_for requests i nonce [] = 0
sends_for requests i nonce (r ∷ log) =
    let rest = sends_for requests i nonce log in
    if (requests r).survey_id == i && text_eq (requests r).nonce nonce then 1 + rest else rest

-- ===== src/Claim/Monitor.antt =====
-- A claim's use of its nonce and of the transaction, as a monitor with three phases over the calls
-- that its program makes; a rule for each way that programs are put together.
use vpp_blockchain.Base.{
  ℕ, ◌+◌, ◌≡◌, refl, Bool, true, false, ◌&&◌, Option, none, some, Text, text_eq, ◌==◌,
  if◌then◌else◌,
}
use vpp_blockchain.Base.Exec.{Result, ok, throw}
use vpp_blockchain.NonceStore.{StoreError}
use vpp_blockchain.Server.{
  Call, Answer, Prog, done, fail, call, ◌>>=◌, catch, Thrown, raised, send, wait, nonce_mark_used,
  nonce_release,
}
use vpp_blockchain.Server.Quiet.{Env, Quiet, IsNeutral}
use vpp_blockchain.Chain.{is_not_sent}

-- Before the nonce is consumed, between that and the transaction, after the transaction.
pub data Phase : Type 0 where
  idle held spent : Phase

-- RPC errors do not carry the flag that only `markNotSent` sets.
abbrev pub Genuine : (c : Call) → Answer c → Type 0
Genuine (send tx o) (throw e) = is_not_sent (raised e) ≡ false
Genuine (wait hash) (throw e) = is_not_sent (raised e) ≡ false
Genuine _ _ = Unit {0}

abbrev pub after_mark : Result StoreError Bool → Phase
after_mark (ok true) = held
after_mark _ = idle

-- The phase after a call; `none` where a claim for this survey and nonce must not make the call.
abbrev pub next : ℕ → Text → Phase → (c : Call) → Answer c → Option Phase
next i nonce idle (nonce_mark_used j m) a =
    if i == j && text_eq nonce m then some (after_mark a) else none
next i nonce idle (nonce_release j m) a = none
next i nonce idle (send tx o) a = none
next i nonce held (nonce_mark_used j m) a = none
next i nonce held (nonce_release j m) a = if i == j && text_eq nonce m then some idle else none
next i nonce held (send tx o) a = some spent
next i nonce spent (nonce_mark_used j m) a = none
next i nonce spent (nonce_release j m) a = none
next i nonce spent (send tx o) a = none
next i nonce phase c a = some phase

module _ (i : ℕ) (nonce : Text) where
  -- Every run from the phase makes allowed calls only; `Q` holds of what it returns, `E` of what
  -- it throws, each with the phase in which it ends.
  abbrev pub Runs :
      {A : Type 0} → Phase → (Phase → A → Type 0) → (Phase → Thrown → Type 0) → Prog A → Type 0
  Runs phase Q E (done a) = Q phase a
  Runs phase Q E (fail e) = E phase e
  Runs phase Q E (call c k) =
      (a : Answer c)
      → Genuine c a
      → (phase' : Phase) × (next i nonce phase c a ≡ some phase') × Runs phase' Q E (k a)

-- The run made allowed calls only, and ended so.
abbrev pub Ended :
    {A : Type 0}
    → (Phase → A → Type 0)
    → (Phase → Thrown → Type 0)
    → Option (Phase × Result Thrown A)
    → Type 0
Ended Q E none = ⊥
Ended Q E (some (phase, ok a)) = Q phase a
Ended Q E (some (phase, throw e)) = E phase e

next_neutral :
    (i : ℕ) (nonce : Text) (phase : Phase) (c : Call) (a : Answer c)
    → IsNeutral c
    → next i nonce phase c a ≡ some phase
next_neutral i nonce idle (send tx o) a h = elim h [ ]
next_neutral i nonce idle (nonce_mark_used j m) a h = elim h [ ]
next_neutral i nonce idle (nonce_release j m) a h = elim h [ ]
next_neutral i nonce idle c a h = refl
next_neutral i nonce held (send tx o) a h = elim h [ ]
next_neutral i nonce held (nonce_mark_used j m) a h = elim h [ ]
next_neutral i nonce held (nonce_release j m) a h = elim h [ ]
next_neutral i nonce held c a h = refl
next_neutral i nonce spent (send tx o) a h = elim h [ ]
next_neutral i nonce spent (nonce_mark_used j m) a h = elim h [ ]
next_neutral i nonce spent (nonce_release j m) a h = elim h [ ]
next_neutral i nonce spent c a h = refl

module _ (i : ℕ) (nonce : Text) where
  pub bind-Runs :
      {A B : Type 0} (phase : Phase) (Q : Phase → B → Type 0) (E : Phase → Thrown → Type 0)
      (p : Prog A) (f : A → Prog B)
      → Runs i nonce phase (λ ph a. Runs i nonce ph Q E (f a)) E p
      → Runs i nonce phase Q E (p >>= f)
  unfolding ◌>>=◌
  bind-Runs phase Q E (done a) f h = h
  bind-Runs phase Q E (fail e) f h = h
  bind-Runs phase Q E (call c k) f h =
      λ a g. let (ph, step, rest) = h a g in (ph, step, bind-Runs ph Q E (k a) f rest)

  pub catch-Runs :
      {A : Type 0} (phase : Phase) (Q : Phase → A → Type 0) (E : Phase → Thrown → Type 0)
      (p : Prog A) (f : Thrown → Prog A)
      → Runs i nonce phase Q (λ ph e. Runs i nonce ph Q E (f e)) p
      → Runs i nonce phase Q E (catch p f)
  unfolding catch
  catch-Runs phase Q E (done a) f h = h
  catch-Runs phase Q E (fail e) f h = h
  catch-Runs phase Q E (call c k) f h =
      λ a g. let (ph, step, rest) = h a g in (ph, step, catch-Runs ph Q E (k a) f rest)

  pub Quiet-Runs :
      {A : Type 0} (phase : Phase) (Q : Phase → A → Type 0) (D : Thrown → Type 0)
      (E : Phase → Thrown → Type 0) (p : Prog A)
      → Quiet D p
      → ((a : A) → Q phase a)
      → ((e : Thrown) → D e → E phase e)
      → Runs i nonce phase Q E p
  Quiet-Runs phase Q D E (done a) h q e = q a
  Quiet-Runs phase Q D E (fail x) h q e = e x h
  Quiet-Runs phase Q D E (call c k) h q e =
      λ a g. (phase, next_neutral i nonce phase c a h.0, Quiet-Runs phase Q D E (k a) (h.1 a) q e)

  -- One run of a program, where the environment answers its calls in turn, under the monitor: the
  -- last phase and the outcome, or `none` at the first call that is not allowed.
  pub follow : {A : Type 0} → Env → ℕ → Phase → Prog A → Option (Phase × Result Thrown A)
  follow env n phase (done a) = some (phase, ok a)
  follow env n phase (fail e) = some (phase, throw e)
  follow env n phase (call c k) = elim (next i nonce phase c (env n c)) [
    | none ↦ none
    | some phase' ↦ follow env (n + 1) phase' (k (env n c))
  ]

  pub Runs-follow :
      {A : Type 0} (Q : Phase → A → Type 0) (E : Phase → Thrown → Type 0) (env : Env) (n : ℕ)
      (phase : Phase) (p : Prog A)
      → ((m : ℕ) (c : Call) → Genuine c (env m c))
      → Runs i nonce phase Q E p
      → Ended Q E (follow env n phase p)
  unfolding follow
  Runs-follow Q E env n phase (done a) g h = h
  Runs-follow Q E env n phase (fail e) g h = h
  Runs-follow Q E env n phase (call c k) g h =
      let (ph, step, rest) = h (env n c) (g n c) in
      rw (step, follow) (Runs-follow Q E env (n + 1) ph (k (env n c)) g rest)

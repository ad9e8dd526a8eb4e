-- ===== src/Server/Quiet.antt =====
-- Programs that neither send a transaction, nor touch the nonce store, nor change a key, with a
-- predicate on what they throw; and what answers the calls of a program.
use vpp_blockchain.Base.{ℕ, Bool, true, false}
use vpp_blockchain.Server.{
  ErrorCode, require, create_key, rotate_key, delete_key, Call, Answer, Prog, done, fail, call,
  ◌>>=◌, catch, Thrown, send, nonce_mark_used, nonce_release,
}

abbrev pub IsNeutral : Call → Type 0
IsNeutral (send tx o) = ⊥
IsNeutral (nonce_mark_used i n) = ⊥
IsNeutral (nonce_release i n) = ⊥
IsNeutral (create_key i) = ⊥
IsNeutral (rotate_key i) = ⊥
IsNeutral (delete_key i) = ⊥
IsNeutral _ = Unit {0}

abbrev pub Quiet : {A : Type 0} → (Thrown → Type 0) → Prog A → Type 0
Quiet E (done a) = Unit {0}
Quiet E (fail e) = E e
Quiet E (call c k) = IsNeutral c × ((a : Answer c) → Quiet E (k a))

pub bind-Quiet :
    {A B : Type 0} (E : Thrown → Type 0) (p : Prog A) (f : A → Prog B)
    → Quiet E p
    → ((a : A) → Quiet E (f a))
    → Quiet E (p >>= f)
unfolding ◌>>=◌
bind-Quiet E (done a) f h g = g a
bind-Quiet E (fail e) f h g = h
bind-Quiet E (call c k) f h g = (h.0, λ a. bind-Quiet E (k a) f (h.1 a) g)

pub catch-Quiet :
    {A : Type 0} (D E : Thrown → Type 0) (p : Prog A) (f : Thrown → Prog A)
    → Quiet D p
    → ((e : Thrown) → D e → Quiet E (f e))
    → Quiet E (catch p f)
unfolding catch
catch-Quiet D E (done a) f h g = tt
catch-Quiet D E (fail e) f h g = g e h
catch-Quiet D E (call c k) f h g = (h.0, λ a. catch-Quiet D E (k a) f (h.1 a) g)

-- Whatever is thrown.
abbrev pub Calm : {A : Type 0} → Prog A → Type 0
Calm p = Quiet (λ _. Unit {0}) p

pub Quiet-Calm : {A : Type 0} (E : Thrown → Type 0) (p : Prog A) → Quiet E p → Calm p
Quiet-Calm E (done a) h = tt
Quiet-Calm E (fail e) h = tt
Quiet-Calm E (call c k) h = (h.0, λ a. Quiet-Calm E (k a) (h.1 a))

pub require-Calm : (b : Bool) (status : ℕ) (code : ErrorCode) → Calm (require b status code)
require-Calm true status code = tt
require-Calm false status code = tt

pub then-Calm :
    {A B : Type 0} (p : Prog A) (f : A → Prog B) → Calm p → ((a : A) → Calm (f a)) → Calm (p >>= f)
then-Calm p f h g = bind-Quiet (λ _. Unit {0}) p f h g

-- What answers the `n`-th call of a handler.
abbrev pub Env : Type 0
Env = ℕ → (c : Call) → Answer c

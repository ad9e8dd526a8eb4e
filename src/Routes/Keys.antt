-- ===== src/Routes/Keys.antt =====
-- The calls of the key store over a registration in packages/backend/src/routes/surveys.ts.
use vpp_blockchain.Base.{
  ℕ, ◌%◌, ◌≡◌, refl, Bool, true, false, Option, none, some, Text, ◌==◌, inl, inr, Bool-cases,
  if◌then◌else◌,
}
use vpp_blockchain.Base.Exec.{ok, throw}
use vpp_blockchain.Server.{
  Call, Answer, Rpc, send, Tx, create_key, delete_key, rotate_key, sync_within, invalidate_cache,
  now, key_exists, Prog, done, fail, call, Thrown, app_error, ask, settle, catch, require, ◌>>=◌,
}
use vpp_blockchain.Server.Quiet.{Calm, Quiet-Calm, require-Calm, then-Calm}
use vpp_blockchain.Chain.{get_survey_info, register, supports_fractional_points}
use vpp_blockchain.Chain.Writes.{IsRaised, get_survey_info-Quiet, supports_fractional_points-Quiet}
use vpp_blockchain.Routes.{Addresses, Config, sent}
use vpp_blockchain.Routes.Sends.{Once, write-Once}
use vpp_blockchain.Routes.Surveys.{
  RegisterBody, Registration, Registered, register_schema, register_with_key, register_route,
  check_fraction, fresh_key, roll_back, created_or_now,
}

-- A call that neither makes nor removes a key.
abbrev pub IsKeyless : Call → Type 0
IsKeyless (create_key i) = ⊥
IsKeyless (rotate_key i) = ⊥
IsKeyless (delete_key i) = ⊥
IsKeyless _ = Unit {0}

abbrev pub Keyless : {A : Type 0} → Prog A → Type 0
Keyless (done a) = Unit {0}
Keyless (fail e) = Unit {0}
Keyless (call c k) = IsKeyless c × ((a : Answer c) → Keyless (k a))

abbrev created : Rpc Text → Bool
created (ok key) = true
created (throw e) = false

-- `made` says whether this run has made the key of the survey and not tried to remove it. Only the key
-- of survey `i` is made and removed, each when it may be; a run that ends well has made the key, a
-- run that fails has not, or tried to remove it.
abbrev pub Paired : {A : Type 0} → ℕ → Bool → Prog A → Type 0
Paired i made (done a) = made ≡ true
Paired i made (fail e) = made ≡ false
Paired i made (call (create_key j) k) =
    (made ≡ false) × (i ≡ j) × ((a : Rpc Text) → Paired i (created a) (k a))
Paired i made (call (rotate_key j) k) = ⊥
Paired i made (call (delete_key j) k) =
    (made ≡ true) × (i ≡ j) × ((a : Rpc Bool) → Paired i false (k a))
Paired i made (call c k) = (a : Answer c) → Paired i made (k a)

before-Paired :
    {A B : Type 0} (i : ℕ) (p : Prog A) (f : A → Prog B)
    → Keyless p
    → ((a : A) → Paired i false (f a))
    → Paired i false (p >>= f)
unfolding ◌>>=◌
before-Paired i (done a) f h g = g a
before-Paired i (fail e) f h g = refl
before-Paired i (call (create_key j) k) f h g = elim h.0 [ ]
before-Paired i (call (rotate_key j) k) f h g = elim h.0 [ ]
before-Paired i (call (delete_key j) k) f h g = elim h.0 [ ]
before-Paired i (call c k) f h g = λ a. before-Paired i (k a) f (h.1 a) g

-- The transaction is tried while the key is there, and what follows its failure removes it.
guarded-Paired :
    {A B : Type 0} (i : ℕ) (p : Prog A) (handler : Thrown → Prog A) (f : A → Prog B)
    → Keyless p
    → ((e : Thrown) → Paired i true (handler e >>= f))
    → ((a : A) → Paired i true (f a))
    → Paired i true (catch p handler >>= f)
unfolding ◌>>=◌ catch
guarded-Paired i (done a) handler f h r g = g a
guarded-Paired i (fail e) handler f h r g = r e
guarded-Paired i (call (create_key j) k) handler f h r g = elim h.0 [ ]
guarded-Paired i (call (rotate_key j) k) handler f h r g = elim h.0 [ ]
guarded-Paired i (call (delete_key j) k) handler f h r g = elim h.0 [ ]
guarded-Paired i (call c k) handler f h r g = λ a. guarded-Paired i (k a) handler f (h.1 a) r g

Calm-Keyless : {A : Type 0} (p : Prog A) → Calm p → Keyless p
Calm-Keyless (done a) h = tt
Calm-Keyless (fail e) h = tt
Calm-Keyless (call (create_key j) k) h = elim h.0 [ ]
Calm-Keyless (call (rotate_key j) k) h = elim h.0 [ ]
Calm-Keyless (call (delete_key j) k) h = elim h.0 [ ]
Calm-Keyless (call c k) h = (tt, λ a. Calm-Keyless (k a) (h.1 a))

Once-Keyless : {A : Type 0} (Good : Tx → Type 0) (p : Prog A) → Once Good p → Keyless p
Once-Keyless Good (done a) h = tt
Once-Keyless Good (fail e) h = tt
Once-Keyless Good (call (create_key j) k) h = elim h.0 [ ]
Once-Keyless Good (call (rotate_key j) k) h = elim h.0 [ ]
Once-Keyless Good (call (delete_key j) k) h = elim h.0 [ ]
Once-Keyless Good (call (send tx o) k) h = (tt, λ a. Calm-Keyless (k a) (h.1 a))
Once-Keyless Good (call c k) h = (tt, λ a. Once-Keyless Good (k a) (h.1 a))

created_or_now-Paired :
    (i : ℕ) (o : Option ℕ) (f : ℕ → Registered)
    → Paired i true
        ((elim o as (λ _. Prog ℕ) [ none ↦ ask now | some at ↦ done at ]) >>= λ at. done (f at))
unfolding ◌>>=◌
created_or_now-Paired i none f = λ _. refl
created_or_now-Paired i (some at) f = refl

kept-Paired :
    (i : ℕ) (f : ℕ → Registered)
    → Paired i true (
        ask sync_within >>= λ _.
        ask invalidate_cache >>= λ _. created_or_now i >>= λ at. done (f at))
unfolding ◌>>=◌ created_or_now
kept-Paired i f = λ _ _ o. created_or_now-Paired i o f

removed-Paired :
    {B : Type 0} (i : ℕ) (deleted : Rpc Bool) (e : Thrown) (f : Text → Prog B)
    → Paired i false ((settle deleted >>= λ removed. fail e) >>= f)
unfolding ◌>>=◌
removed-Paired i (ok b) e f = refl
removed-Paired i (throw x) e f = refl

roll_back-Paired :
    {B : Type 0} (i : ℕ) (e : Thrown) (f : Text → Prog B) → Paired i true (roll_back i e >>= f)
unfolding roll_back ◌>>=◌
roll_back-Paired i e f = (refl, refl, λ deleted. removed-Paired i deleted e f)

register-Keyless :
    (config : Config) (i points max_claims : ℕ) (title : Text)
    → Keyless (register config.limits i points max_claims title)
unfolding register
register-Keyless config i points max_claims title = elim (Bool-cases (points % 100 == 0)) [
  | inl t ↦
      rw (t, register, if◌then◌else◌)
        (Once-Keyless (λ _. Unit {0}) _ (write-Once (λ _. Unit {0}) config.limits _ tt))
  | inr t ↦
      rw (t, register, if◌then◌else◌)
        (Once-Keyless (λ _. Unit {0}) _ (write-Once (λ _. Unit {0}) config.limits _ tt))
]

check_fraction-Calm : (points : ℕ) → Calm (check_fraction points)
unfolding check_fraction
check_fraction-Calm points = elim (Bool-cases (points % 100 == 0)) [
  | inl t ↦ rw (t, check_fraction, if◌then◌else◌) tt
  | inr t ↦
      rw (t, check_fraction, if◌then◌else◌)
        (then-Calm supports_fractional_points _
          (Quiet-Calm IsRaised _ supports_fractional_points-Quiet) (λ b. require-Calm _ _ _))
]

made-Paired :
    {B : Type 0} (i : ℕ) (a : Rpc Text) (f : Text → Prog B)
    → ((key : Text) → Paired i true (f key))
    → Paired i (created a) (
        (elim a as (λ _. Prog Text) [
          | ok key ↦ done key
          | throw e ↦ fail (app_error 409 key_exists)
        ])
        >>= f)
unfolding ◌>>=◌
made-Paired i (ok key) f h = h key
made-Paired i (throw e) f h = refl

parsed-Paired :
    {B : Type 0} (o : Option Registration) (request : Registration) (e : Thrown)
    (f : Registration → Prog B)
    → o ≡ some request
    → Paired request.survey_id false (f request)
    → Paired request.survey_id false
        ((elim o as (λ _. Prog Registration) [ none ↦ fail e | some r ↦ done r ]) >>= f)
unfolding ◌>>=◌
parsed-Paired none request e f t h = absurd (cc)
parsed-Paired (some r) request e f t h = let same : r ≡ request = cc in rw (same) h

module _ (addresses : Addresses) (config : Config) where
  register_with_key-Paired :
      (request : Registration)
      → Paired request.survey_id false (register_with_key addresses config request)
  unfolding register_with_key fresh_key ◌>>=◌
  register_with_key-Paired request =
      let i = request.survey_id in
      (
        refl,
        refl,
        λ a. made-Paired i a _ (λ key.
            guarded-Paired i
              (register config.limits i request.points request.max_claims request.title)
              (roll_back i) _
              (register-Keyless config i request.points request.max_claims request.title)
              (λ e. roll_back-Paired i e _)
              (λ receipt. kept-Paired i (λ at. record {
                transaction = sent config receipt;
                key = key;
                key_created_at = at;
              }))),
      )

  -- The registration of a survey whose body the schema accepts: on every run, whatever the chain and the
  -- key store answer, it makes no key but that of the survey and removes no other; a run that succeeds
  -- has made the key and kept it, and a run that fails either made no key or asked for its removal.
  pub register_route-Paired :
      (body : RegisterBody) (request : Registration)
      → register_schema body ≡ some request
      → Paired request.survey_id false (register_route addresses config body)
  unfolding register_route
  register_route-Paired body request accepted =
      let i = request.survey_id in
      parsed-Paired (register_schema body) request _ _ accepted (
        before-Paired i (check_fraction request.points) _
          (Calm-Keyless _ (check_fraction-Calm request.points))
          (λ _.
            before-Paired i (get_survey_info i) _
              (Calm-Keyless _ (Quiet-Calm IsRaised _ (get_survey_info-Quiet i)))
              (λ existing.
                before-Paired i (require _ _ _) _ (Calm-Keyless _ (require-Calm _ _ _))
                  (λ _. register_with_key-Paired request))))

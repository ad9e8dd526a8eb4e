-- ===== src/Base/Exec.antt =====
-- Code that changes a state and may throw. What was written before a throw stays written, so the
-- state comes back beside the error too.
use mathlib.Core.Logic.{◌⊎◌, inl, inr}
use mathlib.Core.Path.{◌≡◌, refl}

pub data Result {ℓ} (E A : Type ℓ) : Type ℓ where
  ok : A → Result E A
  throw : E → Result E A

abbrev pub Exec {ℓ} : Type ℓ → Type ℓ → Type ℓ → Type ℓ
Exec S E A = S → Result E A × S

module _ {ℓ} {S E A : Type ℓ} where
  abbrev pub pure : A → Exec S E A
  pure a s = (ok a, s)

  abbrev pub raise : E → Exec S E A
  raise e s = (throw e, s)

  abbrev pub lift : Result E A → Exec S E A
  lift r s = (r, s)

module _ {ℓ} {S E A B : Type ℓ} where
  abbrev pub continue : Result E A → (A → Exec S E B) → Exec S E B
  continue (ok a) f s = f a s
  continue (throw e) f s = (throw e, s)

  infixl 10 ◌>>=◌ ◌>>◌
  abbrev pub ◌>>=◌ : Exec S E A → (A → Exec S E B) → Exec S E B
  ◌>>=◌ m f s = continue (m s).0 f (m s).1

  abbrev pub ◌>>◌ : Exec S E A → Exec S E B → Exec S E B
  m >> n = m >>= λ _. n

-- To split on the result of the first part, with its equation.
pub bind_cases {ℓ κ} :
    {S E A B : Type ℓ} (P : Result E B × S → Type κ) (m : Result E A × S) (f : A → Exec S E B)
    → ((e : E) → m.0 ≡ throw e → P (throw e, m.1))
    → ((a : A) → m.0 ≡ ok a → P (f a m.1))
    → P (continue m.0 f m.1)
bind_cases P m f failed went = go m.0 refl
  where
    go : (r : Result _ _) → m.0 ≡ r → P (continue r f m.1)
    go (ok a) e = went a e
    go (throw x) e = failed x e

pub Result-cases {ℓ} :
    {E A : Type ℓ} (r : Result E A) → ((a : A) × (r ≡ ok a)) ⊎ ((e : E) × (r ≡ throw e))
Result-cases (ok a) = inl (a, refl)
Result-cases (throw e) = inr (e, refl)

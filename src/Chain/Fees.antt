-- ===== src/Chain/Fees.antt =====
-- On the fees that packages/backend/src/services/blockchain.ts gives a transaction.
use vpp_blockchain.Base.{
  ℕ, ◌+◌, ◌*◌, ◌/◌, ◌≤◌, ◌<◌, ◌≡◌, refl, ltb, if◌then◌else◌, inl, inr, arith, min, max, Bool-cases,
}
use vpp_blockchain.Base.Int.{ℤ, pos, negsuc, pos_part, half, ltb_ℤ, ◌-ℤ◌, ◌+ℤ◌, ◌*ℤ◌}
use vpp_blockchain.Server.{FeeData, Overrides}
use vpp_blockchain.Chain.{Limits, clamp_priority, tx_fees, or_else}

-- The offered fee where it lies between 0 and the cap, and the nearer of the two where it does not.
pub data IsClamped (cap : ℕ) : ℤ → ℕ → Type 0 where
  within : (n : ℕ) → n ≤ cap → IsClamped cap (pos n) n
  above : (n tip : ℕ) → cap < n → tip ≡ cap → IsClamped cap (pos n) tip
  below : (n tip : ℕ) → tip ≡ 0 → IsClamped cap (negsuc n) tip

clamp_priority-IsClamped :
    (limits : Limits) (offered : ℤ)
    → (tip : ℕ) × (clamp_priority limits offered ≡ pos tip)
      × IsClamped limits.max_priority_fee_per_gas offered tip
unfolding clamp_priority
clamp_priority-IsClamped limits (negsuc n) = (0, ground arith, below n 0 refl)
clamp_priority-IsClamped limits (pos n) =
    elim (Bool-cases (ltb limits.max_priority_fee_per_gas n)) [
      | inl t ↦ (limits.max_priority_fee_per_gas, ground arith, above n _ (ground arith) refl)
      | inr f ↦ (n, ground arith, within n (ground arith))
    ]

-- What the provider's maximum fee leaves for the base fee beside its priority fee.
abbrev pub room : FeeData → ℕ
room fee_data =
    pos_part (
      or_else fee_data.max_fee_per_gas (pos 0) -ℤ or_else fee_data.max_priority_fee_per_gas (pos 0))

-- The fees are a priority fee of `tip` and a maximum of `fee`, both at least 0: the tip is the offered
-- one or else the cap, brought between 0 and the cap; the fee is the room and the tip, or one less,
-- brought down to its cap but not below the tip.
pub record AreFees (limits : Limits) (fee_data : FeeData) (fees : Overrides) : Type 0 where
  pub tip : ℕ
  pub wanted : ℕ
  pub fee : ℕ
  pub priority : fees.max_priority_fee_per_gas ≡ pos tip
  pub maximum : fees.max_fee_per_gas ≡ pos fee
  pub clamped :
      IsClamped limits.max_priority_fee_per_gas
        (or_else fee_data.max_priority_fee_per_gas (pos limits.max_priority_fee_per_gas))
        tip
  pub at_most : wanted ≤ room fee_data + tip
  pub at_least : room fee_data + tip ≤ wanted + 1
  pub capped : fee ≡ max tip (min limits.max_fee_per_gas wanted)

base_fee_room :
    (m t : ℤ) → (if ltb_ℤ t m then half (m -ℤ t) else pos 0) ≡ pos (pos_part (m -ℤ t) / 2)
base_fee_room (pos m) (pos t) = ground arith
base_fee_room (pos m) (negsuc t) = ground arith
base_fee_room (negsuc m) (pos t) = ground arith
base_fee_room (negsuc m) (negsuc t) = ground arith

capped_at :
    (limit wanted tip : ℕ)
    → let capped = if ltb_ℤ (pos limit) (pos wanted) then pos limit else pos wanted in
      (if ltb_ℤ capped (pos tip) then pos tip else capped) ≡ pos (max tip (min limit wanted))
capped_at limit wanted tip = elim (Bool-cases (ltb_ℤ (pos limit) (pos wanted))) [
  | inl t ↦ rw (t, if◌then◌else◌) (ground arith)
  | inr f ↦ rw (f, if◌then◌else◌) (ground arith)
]

wanted_fee : (base tip : ℕ) → pos base *ℤ 2 +ℤ pos tip ≡ pos (base * 2 + tip)
wanted_fee base tip = ground arith

maximum_fee :
    (limit : ℕ) (m t priority : ℤ) (tip : ℕ)
    → priority ≡ pos tip
    → let base = if ltb_ℤ t m then half (m -ℤ t) else pos 0 in
      let uncapped = base *ℤ 2 +ℤ priority in
      let capped = if ltb_ℤ (pos limit) uncapped then pos limit else uncapped in
      (if ltb_ℤ capped priority then priority else capped)
      ≡ pos (max tip (min limit (pos_part (m -ℤ t) / 2 * 2 + tip)))
maximum_fee limit m t priority tip e =
    rw (e, base_fee_room m t, wanted_fee (pos_part (m -ℤ t) / 2) tip) (capped_at limit _ tip)

-- Whatever fee data the provider reports, negative or absent values included, both fees are at least 0:
-- the priority fee is the provider's, or its cap where the provider gives none, brought between 0 and
-- the cap; the maximum fee is the provider's maximum less the provider's priority fee, at least 0, plus
-- the priority fee, or one less than that, and it is brought down to its own cap, but not below the
-- priority fee.
pub tx_fees-AreFees :
    (limits : Limits) (fee_data : FeeData) → AreFees limits fee_data (tx_fees limits fee_data)
unfolding tx_fees
tx_fees-AreFees limits fee_data =
    let m = or_else fee_data.max_fee_per_gas (pos 0) in
    let t = or_else fee_data.max_priority_fee_per_gas (pos 0) in
    let (tip, priority, clamped) =
      clamp_priority-IsClamped limits
        (or_else fee_data.max_priority_fee_per_gas (pos limits.max_priority_fee_per_gas)) in
    record {
      tip = tip;
      wanted = room fee_data / 2 * 2 + tip;
      fee = max tip (min limits.max_fee_per_gas (room fee_data / 2 * 2 + tip));
      priority = priority;
      maximum = maximum_fee limits.max_fee_per_gas m t _ tip priority;
      clamped = clamped;
      at_most = omega arith;
      at_least = omega arith;
      capped = refl;
    }

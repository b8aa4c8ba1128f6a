-- ===== src/Tokens/Fees.antt =====
-- `calculateTokenTransferFee`: with a decoded configuration it always returns a fee.
use native.Mathlib.Nat.{mul-le-mul_left, mul-zero, zero-mul}
use chancery_integration_exa.Common.{
  ℕ, ◌+◌, ◌-◌, ◌*◌, ◌≤◌, ◌<◌, ◌≡◌, ◌==◌, ◌⊎◌, inl, inr, refl, arith, ltb, leb, if◌then◌else◌, some,
  List, ok, >>=-eq-ok, guard-eq-ok, length, fee_config_size, fee_basis_points, Bool-cases,
}
use chancery_integration_exa.Common.Int.{pos}
use chancery_integration_exa.Tokens.{
  read_unsigned_little_endian, decode_optional_nonzero_public_key, TransferFee, TransferFeeConfig,
  decode_transfer_fee, decode_transfer_fee_config, FeeCalculation, select_active_transfer_fee,
  divide_ceiling, uncapped_fee, charge, calculate_token_transfer_fee,
}

decode_transfer_fee_lem :
    (value : List ℕ) (offset : ℕ) (fee : TransferFee)
    → decode_transfer_fee value offset ≡ ok fee
    → fee.transfer_fee_basis_points ≤ 10000
unfolding decode_transfer_fee
decode_transfer_fee_lem value offset fee e =
    let (points, _, more) = >>=-eq-ok (read_unsigned_little_endian value (offset + 16) 2) _ e in
    let (low, more') = guard-eq-ok (leb points 10000) fee_basis_points _ more in
    let (epoch, _, more'') = >>=-eq-ok (read_unsigned_little_endian value offset 8) _ more' in
    let (maximum, _, shown) =
      >>=-eq-ok (read_unsigned_little_endian value (offset + 8) 8) _ more'' in
    let same : points ≡ fee.transfer_fee_basis_points = ground (arith, shown) in
    ground (arith, low, same)

abbrev HasLowRates : TransferFeeConfig → Type 0
HasLowRates config =
    (config.older_transfer_fee.transfer_fee_basis_points ≤ 10000)
    × (config.newer_transfer_fee.transfer_fee_basis_points ≤ 10000)

decode_transfer_fee_config_lem :
    (value : List ℕ) (config : TransferFeeConfig)
    → decode_transfer_fee_config value ≡ ok config
    → HasLowRates config
unfolding decode_transfer_fee_config
decode_transfer_fee_config_lem value config e =
    let (_, m1) = guard-eq-ok (length value == 108) fee_config_size _ e in
    let (a, _, m2) = >>=-eq-ok (decode_optional_nonzero_public_key value 0) _ m1 in
    let (b, _, m3) = >>=-eq-ok (decode_optional_nonzero_public_key value 32) _ m2 in
    let (c, _, m4) = >>=-eq-ok (read_unsigned_little_endian value 64 8) _ m3 in
    let (older, first, m5) = >>=-eq-ok (decode_transfer_fee value 72) _ m4 in
    let (newer, second, shown) = >>=-eq-ok (decode_transfer_fee value 90) _ m5 in
    let same_older : older ≡ config.older_transfer_fee = ground (arith, shown) in
    let same_newer : newer ≡ config.newer_transfer_fee = ground (arith, shown) in
    (
      rw (← same_older) (decode_transfer_fee_lem value 72 older first),
      rw (← same_newer) (decode_transfer_fee_lem value 90 newer second),
    )

-- The exact fee, rounded up, is no more than the amount.
uncapped_fee_lem :
    (amount points : ℕ)
    → points ≤ 10000
    → (uncapped_fee amount points ≤ amount)
      × (amount * points ≤ uncapped_fee amount points * 10000)
      × (uncapped_fee amount points * 10000 < amount * points + 10000)
unfolding uncapped_fee divide_ceiling
uncapped_fee_lem amount points low =
    let bound : amount * points ≤ amount * 10000 = mul-le-mul_left amount low in
    (
      ground (arith, bound),
      ground (arith, bound, mul-zero amount, zero-mul points),
      ground (arith, bound, mul-zero amount, zero-mul points),
    )

-- A calculation under a fee: the amount at the fee's rate, rounded up, or the fee's maximum where
-- that is less; and what is received is the rest.
abbrev pub IsCharged : TransferFee → ℕ → ℕ → FeeCalculation → Type 0
IsCharged fee epoch amount q =
    (q.fee_epoch ≡ pos epoch)
    × (q.amount ≡ amount)
    × (q.basis_points ≡ fee.transfer_fee_basis_points)
    × (q.maximum ≡ fee.maximum_fee)
    × (q.fee_amount + q.received_amount ≡ amount)
    × (q.fee_amount ≤ fee.maximum_fee)
    × ((q.fee_amount ≡ fee.maximum_fee)
        ⊎ (amount * fee.transfer_fee_basis_points ≤ q.fee_amount * 10000))
    × (q.fee_amount * 10000 < amount * fee.transfer_fee_basis_points + 10000)

charge_lem :
    (epoch amount : ℕ) (fee : TransferFee)
    → fee.transfer_fee_basis_points ≤ 10000
    → (q : FeeCalculation) × (charge (pos epoch) amount fee ≡ ok q) × IsCharged fee epoch amount q
unfolding charge
charge_lem epoch amount fee low =
    let points = fee.transfer_fee_basis_points in
    let exact = uncapped_fee_lem amount points low in
    let charged =
      if leb (uncapped_fee amount points) fee.maximum_fee
      then uncapped_fee amount points
      else fee.maximum_fee in
    (
      record {
        fee_epoch = pos epoch;
        amount = amount;
        basis_points = points;
        maximum = fee.maximum_fee;
        fee_amount = charged;
        received_amount = amount - charged;
      },
      ground (arith, exact),
      (
        refl,
        refl,
        refl,
        refl,
        ground (arith, exact),
        ground (arith, exact),
        ground (arith, exact),
        ground (arith, exact),
      ),
    )

-- With a configuration that was decoded, a transfer of a non-negative amount at a non-negative epoch
-- has a calculation, under the older fee before the epoch of the newer one and under the newer fee
-- from it on: the epoch, the amount, the rate and the maximum are named in it, the fee is the amount
-- at the rate, rounded up, or the maximum where that is less, and with what is received it makes up
-- the amount.
pub token_transfer_fee_total :
    (value : List ℕ) (config : TransferFeeConfig) (amount epoch : ℕ)
    → decode_transfer_fee_config value ≡ ok config
    → (q : FeeCalculation) × (calculate_token_transfer_fee (pos amount) (some config) (pos epoch)
        ≡ ok q)
      × (epoch < config.newer_transfer_fee.epoch
          → IsCharged config.older_transfer_fee epoch amount q)
      × (config.newer_transfer_fee.epoch ≤ epoch
          → IsCharged config.newer_transfer_fee epoch amount q)
unfolding calculate_token_transfer_fee select_active_transfer_fee
token_transfer_fee_total value config amount epoch e =
    let (older, newer) = decode_transfer_fee_config_lem value config e in
    elim (Bool-cases (ltb epoch config.newer_transfer_fee.epoch)) [
      | inl t ↦
          let (q, made, good) = charge_lem epoch amount config.older_transfer_fee older in
          rw t (q, made, (λ before. good), (λ after. absurd (ground (arith, t))))
      | inr t ↦
          let (q, made, good) = charge_lem epoch amount config.newer_transfer_fee newer in
          rw t (q, made, (λ before. absurd (ground (arith, t))), (λ after. good))
    ]

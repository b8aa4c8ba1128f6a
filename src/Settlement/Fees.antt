-- ===== src/Settlement/Fees.antt =====
-- `roundedBasisPoints` and `computeFeeQuote`: the amounts of a quote.
use chancery_integration_exa.Common.{
  ℕ, ◌+◌, ◌*◌, ◌≤◌, ◌<◌, ◌≡◌, ◌≢◌, ◌⊎◌, inl, inr, arith, Option, none, some, [], ok, >>=-eq-ok,
}
use chancery_integration_exa.Common.Int.{ℤ}
use chancery_integration_exa.Settlement.{
  SettlementAction, rounded_basis_points, FeePolicy, FeeQuote, cap_amount, raw_fee, assessed,
  nominal, effective_of, difference_or_zero, quote_from, compute_fee_quote,
}
use chancery_integration_exa.Settlement.Clean.{IsUnremarked, clean_quote_from}

-- A rounding mode that is accepted is at most 2. A rounded percentage is less than one unit from the
-- exact one: at most it under mode 0, at least it under mode 1, and under mode 2 at most half a unit
-- from it.
pub rounded_basis_points_bounds :
    (amount basis_points mode fee : ℕ)
    → rounded_basis_points amount basis_points mode ≡ ok fee
    → (mode ≤ 2)
      × (mode ≡ 0
          → (fee * 10000 ≤ amount * basis_points) × (amount * basis_points < fee * 10000 + 10000))
      × (mode ≡ 1
          → (amount * basis_points ≤ fee * 10000) × (fee * 10000 < amount * basis_points + 10000))
      × (mode ≡ 2
          → (amount * basis_points < fee * 10000 + 5000)
            × (fee * 10000 ≤ amount * basis_points + 5000))
unfolding rounded_basis_points
rounded_basis_points_bounds amount basis_points mode fee e = (
  ground arith,
  (λ m. (ground arith, ground arith)),
  (λ m. (ground arith, ground arith)),
  (λ m. (ground arith, ground arith)),
)

module _ (action : SettlementAction) (gross_input gross_output : ℕ) (policy : FeePolicy)
    (now : ℤ) where
  assessed_bounds :
      (raw : ℕ)
      → (policy.minimum_fee_amount ≤ assessed raw policy)
        × ((policy.fee_cap_amount ≡ 0)
            ⊎ (assessed raw policy ≤ policy.fee_cap_amount)
            ⊎ (assessed raw policy ≡ policy.minimum_fee_amount))
  unfolding assessed cap_amount
  assessed_bounds raw = (ground arith, ground arith)

  nominal_bounds :
      (fee : ℕ) → (policy.rebate_cap_amount ≡ 0) ⊎ (nominal fee policy ≤ policy.rebate_cap_amount)
  unfolding nominal cap_amount
  nominal_bounds fee = ground arith

  -- Under a policy, the assessed fee is at least the minimum and at most the cap or the minimum, the
  -- rebate is at most its cap, and no more than the fee where the policy floors the net fee.
  pub fee_quote_limits :
      (q : FeeQuote)
      → compute_fee_quote action gross_input gross_output (some policy) now ≡ ok q
      → (policy.minimum_fee_amount ≤ q.assessed_fee)
        × ((policy.fee_cap_amount ≡ 0)
            ⊎ (q.assessed_fee ≤ policy.fee_cap_amount)
            ⊎ (q.assessed_fee ≡ policy.minimum_fee_amount))
        × ((policy.rebate_cap_amount ≡ 0) ⊎ (q.nominal_rebate ≤ policy.rebate_cap_amount))
        × (policy.net_fee_floor_zero ≢ 0 → q.effective_rebate ≤ q.assessed_fee)
  unfolding compute_fee_quote quote_from effective_of
  fee_quote_limits q e =
      let (raw, _, shown) = >>=-eq-ok (raw_fee action gross_output policy) _ e in
      let same : quote_from action gross_input gross_output policy now raw ≡ q = cc shown in
      rw (← same) (
        (assessed_bounds raw).0,
        (assessed_bounds raw).1,
        nominal_bounds (assessed raw policy),
        (λ floor. ground arith),
      )

-- What a part leaves of a whole: 0 where the part is the larger.
abbrev pub IsLeftOf : ℕ → ℕ → ℕ → Type 0
IsLeftOf left whole part = (left + part ≡ whole) ⊎ ((left ≡ 0) × (whole < part))

-- The effective rebate is the nominal one, unless the policy floors the net fee at zero and the
-- nominal rebate is above the assessed fee: then it is the assessed fee. Without a policy there is no
-- fee and no rebate.
abbrev pub IsRebate : Option FeePolicy → FeeQuote → Type 0
IsRebate none q = (q.assessed_fee ≡ 0) × (q.nominal_rebate ≡ 0) × (q.effective_rebate ≡ 0)
IsRebate (some policy) q =
    (((policy.net_fee_floor_zero ≡ 0) ⊎ (q.nominal_rebate ≤ q.assessed_fee))
      × (q.effective_rebate ≡ q.nominal_rebate))
    ⊎ ((policy.net_fee_floor_zero ≢ 0)
        × (q.assessed_fee < q.nominal_rebate)
        × (q.effective_rebate ≡ q.assessed_fee))

-- The net fee of a quote is exactly what the effective rebate leaves of the assessed fee, and the net
-- output is exactly what the net fee leaves of the gross output: 0 where more is taken than there is.
-- Under a policy the effective rebate is the nominal one, or the assessed fee where the policy floors
-- the net fee at zero and the nominal rebate is larger; without one there is no fee and no rebate.
pub fee_quote_amounts :
    (action : SettlementAction) (gross_input gross_output : ℕ) (policy : Option FeePolicy) (now : ℤ)
    (q : FeeQuote)
    → compute_fee_quote action gross_input gross_output policy now ≡ ok q
    → IsLeftOf q.net_fee q.assessed_fee q.effective_rebate
      × IsLeftOf q.net_output gross_output q.net_fee
      × IsRebate policy q
unfolding compute_fee_quote quote_from effective_of difference_or_zero
fee_quote_amounts action gross_input gross_output none now q e =
    (ground arith, ground arith, (ground arith, ground arith, ground arith))
fee_quote_amounts action gross_input gross_output (some policy) now q e =
    let (raw, _, shown) = >>=-eq-ok (raw_fee action gross_output policy) _ e in
    let same : quote_from action gross_input gross_output policy now raw ≡ q = cc shown in
    rw (← same) (ground arith, ground arith, ground arith)

pub net_output-le :
    (action : SettlementAction) (gross_input gross_output : ℕ) (policy : Option FeePolicy) (now : ℤ)
    (q : FeeQuote)
    → compute_fee_quote action gross_input gross_output policy now ≡ ok q
    → q.net_output ≤ gross_output
net_output-le action gross_input gross_output policy now q e =
    elim ((fee_quote_amounts action gross_input gross_output policy now q e).1) [
      | inl exact ↦ omega (arith, exact)
      | inr (nothing, _) ↦ omega (arith, nothing)
    ]

-- A quote under a policy, without an observation, is made at a time when the policy is flagged active
-- and in its period, by a policy whose flags name the denomination of the action's output alone, and
-- no percentage of the input. It is marked effective and in that denomination, pays a positive
-- amount, and every unit of the gross output is either paid out or kept as the net fee, and every
-- unit of the assessed fee either kept or rebated.
pub clean_quote :
    (action : SettlementAction) (gross_input gross_output : ℕ) (policy : FeePolicy) (now : ℤ)
    (q : FeeQuote)
    → compute_fee_quote action gross_input gross_output (some policy) now ≡ ok q
    → q.observations ≡ []
    → IsUnremarked action gross_output policy now q
unfolding compute_fee_quote
clean_quote action gross_input gross_output policy now q e clean =
    let (raw, _, shown) = >>=-eq-ok (raw_fee action gross_output policy) _ e in
    let same : quote_from action gross_input gross_output policy now raw ≡ q = cc shown in
    clean_quote_from action gross_input gross_output policy now raw q same clean

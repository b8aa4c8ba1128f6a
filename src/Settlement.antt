-- ===== src/Settlement.antt =====
-- typescript/src/client/ChanceryProtocol.ts: what a settlement is quoted and which policies admit
-- it. A policy is the record of its account's values, with a natural number for an unsigned field
-- and an integer for a timestamp; addresses are texts that `normalizePublicKey` has returned.
pub mod Fees
pub mod Clean
pub mod Windows
pub mod Policies
use chancery_integration_exa.Common.{
  ℕ, zero, suc, ◌+◌, ◌-◌, ◌*◌, ◌/◌, ◌%◌, ◌^◌, ltb, leb, ◌==◌, if◌then◌else◌, Bool, true, false, not,
  ◌&&◌, ◌||◌, Option, none, some, List, [], ◌∷◌, ◌++◌, Result, ok, err, ◌>>=◌, ◌>>◌, guard,
  rounding_mode, negative_amount, replicate,
}
use chancery_integration_exa.Common.Int.{ℤ, pos, negsuc, leb_ℤ, ltb_ℤ}

pub data SettlementAction : Type 0 where
  mint redeem : SettlementAction

pub data SettlementMode : Type 0 where
  direct delegated trilateral : SettlementMode

-- `(flags & (1n << bit)) !== 0n`
unfoldable pub has_flag : ℕ → ℕ → Bool
has_flag flags bit = flags / 2 ^ bit % 2 == 1

-- `roundedBasisPoints`; the modes are those of `ROUNDING`.
unfoldable pub rounded_basis_points : ℕ → ℕ → ℕ → Result ℕ
rounded_basis_points amount basis_points mode =
    let product = amount * basis_points in
    let quotient = product / 10000 in
    let remainder = product % 10000 in
    if mode == 0
    then ok quotient
    else if mode == 1
    then ok (quotient + (if remainder == 0 then 0 else 1))
    else if mode == 2
    then ok (quotient + (if leb 5000 remainder then 1 else 0))
    else err rounding_mode

pub record AssetRates : Type 0 where
  pub deposit_rate_e9 : ℕ
  pub redeem_rate_e9 : ℕ

-- `computeSettlementGrossOutput`
unfoldable pub compute_settlement_gross_output : SettlementAction → ℤ → AssetRates → Result ℕ
compute_settlement_gross_output action (negsuc n) rates = err negative_amount
compute_settlement_gross_output mint (pos n) rates = ok (n * rates.deposit_rate_e9 / 1000000000)
compute_settlement_gross_output redeem (pos n) rates = ok (n * rates.redeem_rate_e9 / 1000000000)

pub record FeePolicy : Type 0 where
  pub fee_policy_flags : ℕ
  pub effective_from : ℤ
  pub effective_until : ℤ
  pub flat_fee_in_asset : ℕ
  pub flat_fee_in_issued_token : ℕ
  pub percent_fee_bps : ℕ
  pub rounding : ℕ
  pub fee_cap_amount : ℕ
  pub minimum_fee_amount : ℕ
  pub rebate_flat_amount : ℕ
  pub rebate_bps : ℕ
  pub rebate_cap_amount : ℕ
  pub net_fee_floor_zero : ℕ
  pub fee_recipient_policy : ℕ
  pub fee_recipient_key : List ℕ

pub data Denomination : Type 0 where
  asset issued_token invalid : Denomination

-- The texts that `computeFeeQuote` pushes.
pub data FeeObservation : Type 0 where
  denomination_mismatch percent_on_input not_effective rebate_exceeds_fee zero_output :
      FeeObservation

pub record FeeQuote : Type 0 where
  pub gross_input : ℕ
  pub gross_output : ℕ
  pub denomination : Denomination
  pub assessed_fee : ℕ
  pub nominal_rebate : ℕ
  pub effective_rebate : ℕ
  pub net_fee : ℕ
  pub net_output : ℕ
  pub routed : Bool
  pub fee_recipient_owner : List ℕ
  pub effective : Bool
  pub observations : List FeeObservation

-- The denomination that the action pays its output in.
unfoldable pub expected_denomination : SettlementAction → Denomination
expected_denomination mint = issued_token
expected_denomination redeem = asset

unfoldable pub policy_denomination : ℕ → Denomination
policy_denomination flags =
    if has_flag flags 0
    then (if has_flag flags 1 then invalid else asset)
    else (if has_flag flags 1 then issued_token else invalid)

unfoldable pub same_denomination : Denomination → Denomination → Bool
same_denomination asset asset = true
same_denomination issued_token issued_token = true
same_denomination invalid invalid = true
same_denomination _ _ = false

-- The observation, if the test holds.
unfoldable pub observed {ℓ} : {A : Type ℓ} → Bool → A → List A
observed test x = if test then x ∷ [] else []

-- `active && (from === 0n || now >= from) && (until === 0n || now < until)`
unfoldable pub in_force : ℤ → ℤ → ℤ → Bool
in_force from until now =
    (leb_ℤ from (pos 0) && leb_ℤ (pos 0) from || leb_ℤ from now)
    && (leb_ℤ until (pos 0) && leb_ℤ (pos 0) until || ltb_ℤ now until)

-- `cap === 0n || amount <= cap ? amount : cap`
unfoldable pub cap_amount : ℕ → ℕ → ℕ
cap_amount cap amount = if cap == 0 || leb amount cap then amount else cap

unfoldable pub flat_fee : SettlementAction → FeePolicy → ℕ
flat_fee mint policy = policy.flat_fee_in_issued_token
flat_fee redeem policy = policy.flat_fee_in_asset

unfoldable pub raw_fee : SettlementAction → ℕ → FeePolicy → Result ℕ
raw_fee action gross_output policy =
    if not (flat_fee action policy == 0)
    then ok (flat_fee action policy)
    else if not (policy.percent_fee_bps == 0)
    then rounded_basis_points gross_output policy.percent_fee_bps policy.rounding
    else ok 0

unfoldable pub assessed : ℕ → FeePolicy → ℕ
assessed raw policy =
    let capped = cap_amount policy.fee_cap_amount raw in
    if leb policy.minimum_fee_amount capped then capped else policy.minimum_fee_amount

unfoldable pub nominal : ℕ → FeePolicy → ℕ
nominal assessed_fee policy = cap_amount policy.rebate_cap_amount (
    if not (policy.rebate_flat_amount == 0)
    then policy.rebate_flat_amount
    else if not (policy.rebate_bps == 0)
    then assessed_fee * policy.rebate_bps / 10000
    else 0)

unfoldable pub effective_of : ℕ → ℕ → FeePolicy → ℕ
effective_of assessed_fee nominal_rebate policy =
    if not (policy.net_fee_floor_zero == 0) && ltb assessed_fee nominal_rebate
    then assessed_fee
    else nominal_rebate

-- `left >= right ? left - right : 0n`
unfoldable pub difference_or_zero : ℕ → ℕ → ℕ
difference_or_zero left right = if ltb left right then 0 else left - right

-- `computeFeeQuote` where there is a policy, from the raw fee on.
unfoldable pub quote_from : SettlementAction → ℕ → ℕ → FeePolicy → ℤ → ℕ → FeeQuote
quote_from action gross_input gross_output policy now raw =
    let flags = policy.fee_policy_flags in
    let denomination = policy_denomination flags in
    let effective = has_flag flags 4 && in_force policy.effective_from policy.effective_until now in
    let assessed_fee = assessed raw policy in
    let nominal_rebate = nominal assessed_fee policy in
    let effective_rebate = effective_of assessed_fee nominal_rebate policy in
    let net_fee = difference_or_zero assessed_fee effective_rebate in
    let net_output = difference_or_zero gross_output net_fee in
    record {
      gross_input = gross_input;
      gross_output = gross_output;
      denomination = denomination;
      assessed_fee = assessed_fee;
      nominal_rebate = nominal_rebate;
      effective_rebate = effective_rebate;
      net_fee = net_fee;
      net_output = net_output;
      routed =
          ltb 0 net_fee
          && not (policy.fee_recipient_policy == 0)
          && not (policy.fee_recipient_policy == 4);
      fee_recipient_owner = policy.fee_recipient_key;
      effective = effective;
      observations =
          observed (not (same_denomination denomination (expected_denomination action)))
            denomination_mismatch
          ++ observed (has_flag flags 2) percent_on_input
          ++ observed (not effective) not_effective
          ++ observed (policy.net_fee_floor_zero == 0 && ltb assessed_fee nominal_rebate)
              rebate_exceeds_fee
          ++ observed (net_output == 0) zero_output;
    }

-- `ZERO_ADDRESS`
abbrev pub zero_address : List ℕ
zero_address = replicate 32 b'1'

-- `computeFeeQuote`
unfoldable pub compute_fee_quote : SettlementAction → ℕ → ℕ → Option FeePolicy → ℤ → Result FeeQuote
compute_fee_quote action gross_input gross_output none now = ok (record {
  gross_input = gross_input;
  gross_output = gross_output;
  denomination = expected_denomination action;
  assessed_fee = 0;
  nominal_rebate = 0;
  effective_rebate = 0;
  net_fee = 0;
  net_output = gross_output;
  routed = false;
  fee_recipient_owner = zero_address;
  effective = true;
  observations = [];
})
compute_fee_quote action gross_input gross_output (some policy) now =
    raw_fee action gross_output policy >>= λ raw.
    ok (quote_from action gross_input gross_output policy now raw)

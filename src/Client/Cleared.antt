-- ===== src/Client/Cleared.antt =====
-- typescript/src/client/ChanceryClient.ts: what a settlement without issues has been checked for.
use chancery_integration_exa.Common.{
  ℕ, ◌≤◌, ◌≡◌, refl, arith, ltb, ◌==◌, Bool, true, false, not, ◌&&◌, Bool-cases, not-eq-false, ◌⊎◌,
  inl, inr, Option, none, some, [],
}
use chancery_integration_exa.Settlement.{SettlementAction, mint, redeem}
use chancery_integration_exa.Settlement.Clean.{append_empty, observed_empty}
use chancery_integration_exa.Tokens.{TokenAccount}
use chancery_integration_exa.Client.{for_action}
use chancery_integration_exa.Client.Validation.{
  Issue, AmountLimits, validate_amount, TokenAccountSnapshot, check_balance,
  validate_token_accounts,
}

-- The account is there and holds the amount.
abbrev pub Holds : TokenAccountSnapshot → ℕ → Type 0
Holds snapshot amount =
    (account : TokenAccount) × (snapshot.values ≡ some account)
    × (snapshot.present ≡ true)
    × (amount ≤ account.held)

check_balance_lem :
    (values : Option TokenAccount) (present needed : Bool) (amount : ℕ) (missing low : Issue)
    → check_balance values present needed amount missing low ≡ []
    → (account : TokenAccount) × (values ≡ some account)
      × (present ≡ true)
      × ((needed && ltb account.held amount) ≡ false)
unfolding check_balance
check_balance_lem none present needed amount missing low h = absurd (cc)
check_balance_lem (some account) false needed amount missing low h = absurd (cc)
check_balance_lem (some account) true needed amount missing low h =
    (account, refl, refl, observed_empty (needed && ltb account.held amount) low h)

-- What the checks of the amounts and of the token accounts ask for.
abbrev pub IsFunded :
    SettlementAction
    → ℕ
    → ℕ
    → AmountLimits
    → ℕ
    → ℕ
    → TokenAccountSnapshot
    → TokenAccountSnapshot
    → TokenAccountSnapshot
    → Type 0
IsFunded action input_amount minimum_output limits received required source destination reserve =
    (for_action action limits.minimum_deposit_amount limits.minimum_redeem_amount ≤ input_amount)
    × ((limits.maximum_single_settlement_amount ≡ 0)
        ⊎ (input_amount ≤ limits.maximum_single_settlement_amount))
    × (minimum_output ≤ received)
    × Holds source input_amount
    × (destination.present ≡ true)
    × Holds reserve (for_action action 0 required)

maximum_lem :
    (maximum input : ℕ)
    → (not (maximum == 0) && ltb maximum input) ≡ false
    → (maximum ≡ 0) ⊎ (input ≤ maximum)
maximum_lem maximum input h = elim (Bool-cases (maximum == 0)) [
  | inl zero_maximum ↦ inl (ground arith)
  | inr positive ↦ inr (ground arith)
]

reserve_lem :
    (action : SettlementAction) (held required : ℕ)
    → (for_action action false true && ltb held required) ≡ false
    → for_action action 0 required ≤ held
unfolding for_action
reserve_lem mint held required h = omega arith
reserve_lem redeem held required h = ground arith

-- A settlement whose amounts and token accounts raise no issue is within the limits of the asset and
-- promises no more than is received; the source holds the input, the destination is there, and the
-- reserve is there and holds what a redemption needs.
pub validate-IsFunded :
    (action : SettlementAction) (input_amount minimum_output : ℕ) (limits : AmountLimits)
    (received required : ℕ) (source destination reserve fee_recipient : TokenAccountSnapshot)
    (fee_routed : Bool)
    → validate_amount action input_amount minimum_output limits received ≡ []
    → validate_token_accounts action input_amount required source destination reserve fee_recipient
        fee_routed
      ≡ []
    → IsFunded action input_amount minimum_output limits received required source destination
        reserve
unfolding validate_amount validate_token_accounts
validate-IsFunded action input_amount minimum_output limits received required source destination
      reserve fee_recipient fee_routed h k =
    let (a1, h1) = append_empty _ _ h in
    let (a2, a3) = append_empty _ _ h1 in
    let (b1, k1) = append_empty _ _ k in
    let (b2, k2) = append_empty _ _ k1 in
    let (b3, b4) = append_empty _ _ k2 in
    let low = observed_empty (ltb input_amount _) _ a1 in
    let high =
      observed_empty
        (not (limits.maximum_single_settlement_amount == 0)
          && ltb limits.maximum_single_settlement_amount input_amount)
        _ a2 in
    let promised = observed_empty (ltb received minimum_output) _ a3 in
    let (account, held, present, enough) =
      check_balance_lem source.values source.present true input_amount _ _ b1 in
    let there = observed_empty (not destination.present) _ b2 in
    let (stock, kept, open_reserve, covers) =
      check_balance_lem reserve.values reserve.present _ required _ _ b3 in
    (
      ground arith,
      maximum_lem limits.maximum_single_settlement_amount input_amount high,
      ground arith,
      (account, held, present, ground arith),
      not-eq-false destination.present there,
      (stock, kept, open_reserve, reserve_lem action stock.held required covers),
    )

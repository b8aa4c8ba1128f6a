-- ===== src/Settlement/Clean.antt =====
-- `computeFeeQuote`: what holds of a quote without an observation.
use chancery_integration_exa.Common.{
  ℕ, zero, suc, ◌+◌, ◌/◌, ◌%◌, ◌<◌, ◌≡◌, ◌≢◌, ◌⊎◌, inl, inr, refl, arith, Bool, true, false, not,
  ◌&&◌, ◌||◌, Bool-cases, ==_iff, List, [], ◌∷◌, ◌++◌,
}
use chancery_integration_exa.Common.Int.{ℤ, pos, negsuc, leb_ℤ, ltb_ℤ}
use chancery_integration_exa.Settlement.{
  Denomination, asset, issued_token, invalid, same_denomination, denomination_mismatch,
  percent_on_input, not_effective, rebate_exceeds_fee, zero_output, SettlementAction, mint, redeem,
  has_flag, in_force, policy_denomination, FeePolicy, FeeQuote, observed, expected_denomination,
  effective_of, difference_or_zero, quote_from,
}

pub append_empty {ℓ} : {A : Type ℓ} (xs ys : List A) → xs ++ ys ≡ [] → (xs ≡ []) × (ys ≡ [])
append_empty [] ys e = (refl, e)
append_empty (x ∷ xs) ys e = absurd (cc)

pub observed_empty {ℓ} : {A : Type ℓ} (test : Bool) (x : A) → observed test x ≡ [] → test ≡ false
unfolding observed
observed_empty true x e = absurd (cc)
observed_empty false x e = refl

-- The asset's flag is bit 0 and the issued token's is bit 1: only that of the action's output is set.
abbrev pub PaysIn : SettlementAction → ℕ → Type 0
PaysIn mint flags = (flags % 2 ≡ 0) × (flags / 2 % 2 ≡ 1)
PaysIn redeem flags = (flags % 2 ≡ 1) × (flags / 2 % 2 ≡ 0)

-- The policy's active flag is set, and the time is in its period, of which a bound of 0 is open.
abbrev pub IsInForce : FeePolicy → ℤ → Type 0
IsInForce policy now =
    (policy.fee_policy_flags / 16 % 2 ≡ 1)
    × ((policy.effective_from ≡ pos 0) ⊎ (leb_ℤ policy.effective_from now ≡ true))
    × ((policy.effective_until ≡ pos 0) ⊎ (ltb_ℤ now policy.effective_until ≡ true))

is_zero : (z : ℤ) → (leb_ℤ z (pos 0) && leb_ℤ (pos 0) z) ≡ true → z ≡ pos 0
is_zero (pos zero) e = refl
is_zero (pos (suc n)) e = absurd (ground arith)
is_zero (negsuc n) e = absurd (ground arith)

open_or :
    (z : ℤ) (b : Bool) → (leb_ℤ z (pos 0) && leb_ℤ (pos 0) z || b) ≡ true → (z ≡ pos 0) ⊎ (b ≡ true)
open_or z b e = elim (Bool-cases (leb_ℤ z (pos 0) && leb_ℤ (pos 0) z)) [
  | inl t ↦ inl (is_zero z t)
  | inr f ↦ inr (rest (leb_ℤ z (pos 0) && leb_ℤ (pos 0) z) f e)
]
  where
    rest : (a : Bool) → a ≡ false → (a || b) ≡ true → b ≡ true
    rest false f h = h
    rest true f h = absurd (cc)

both : (a b : Bool) → (a && b) ≡ true → (a ≡ true) × (b ≡ true)
both true b e = (refl, e)
both false b e = absurd (cc)

in_force-IsInForce :
    (policy : FeePolicy) (now : ℤ)
    → not (
        has_flag policy.fee_policy_flags 4
        && in_force policy.effective_from policy.effective_until now)
      ≡ false
    → IsInForce policy now
unfolding has_flag in_force
in_force-IsInForce policy now e =
    let (active, period) = both _ _ (not_false _ e) in
    let (begun, unfinished) = both _ _ period in
    (
      (==_iff _ 1).0 active,
      open_or policy.effective_from _ begun,
      open_or policy.effective_until _ unfinished,
    )
  where
    not_false : (b : Bool) → not b ≡ false → b ≡ true
    not_false true h = refl
    not_false false h = absurd (cc)

denomination-PaysIn :
    (action : SettlementAction) (flags : ℕ)
    → not (same_denomination (policy_denomination flags) (expected_denomination action)) ≡ false
    → PaysIn action flags
unfolding same_denomination policy_denomination expected_denomination has_flag
denomination-PaysIn mint flags e = (ground arith, ground arith)
denomination-PaysIn redeem flags e = (ground arith, ground arith)

-- A quote from a policy, without an observation.
abbrev pub IsUnremarked : SettlementAction → ℕ → FeePolicy → ℤ → FeeQuote → Type 0
IsUnremarked action gross_output policy now q =
    (0 < q.net_output)
    × (q.net_output + q.net_fee ≡ gross_output)
    × (q.net_fee + q.effective_rebate ≡ q.assessed_fee)
    × IsInForce policy now
    × PaysIn action policy.fee_policy_flags
    × (policy.fee_policy_flags / 4 % 2 ≢ 1)
    × (q.effective ≡ true)
    × (q.denomination ≡ expected_denomination action)

denominations_agree : (d e : Denomination) → not (same_denomination d e) ≡ false → d ≡ e
unfolding same_denomination
denominations_agree asset asset h = refl
denominations_agree issued_token issued_token h = refl
denominations_agree invalid invalid h = refl
denominations_agree asset issued_token h = absurd (cc)
denominations_agree asset invalid h = absurd (cc)
denominations_agree issued_token asset h = absurd (cc)
denominations_agree issued_token invalid h = absurd (cc)
denominations_agree invalid asset h = absurd (cc)
denominations_agree invalid issued_token h = absurd (cc)

unset : (flags : ℕ) → has_flag flags 2 ≡ false → flags / 4 % 2 ≢ 1
unfolding has_flag
unset flags e = ground arith

pub clean_quote_from :
    (action : SettlementAction) (gross_input gross_output : ℕ) (policy : FeePolicy) (now : ℤ)
    (raw : ℕ) (q : FeeQuote)
    → quote_from action gross_input gross_output policy now raw ≡ q
    → q.observations ≡ []
    → IsUnremarked action gross_output policy now q
unfolding quote_from effective_of difference_or_zero
clean_quote_from action gross_input gross_output policy now raw q same = rw (← same) (λ clean.
    let (four, last) = append_empty _ _ clean in
    let (three, fourth) = append_empty _ _ four in
    let (two, third) = append_empty _ _ three in
    let (first, second) = append_empty _ _ two in
    let paid = observed_empty _ zero_output last in
    let kept = observed_empty _ rebate_exceeds_fee fourth in
    let active = observed_empty _ not_effective third in
    let plain = observed_empty _ percent_on_input second in
    let agree = observed_empty _ denomination_mismatch first in
    (
      ground arith,
      ground arith,
      ground arith,
      in_force-IsInForce policy now active,
      denomination-PaysIn action policy.fee_policy_flags agree,
      unset policy.fee_policy_flags plain,
      ground arith,
      denominations_agree _ _ agree,
    ))

-- ===== src/Direct/Accounts.antt =====
-- integration/typescript/src/direct_settlement.ts: the accounts of a direct settlement by their
-- positions, as a list of each column.
use chancery_integration_exa.Common.{
  ℕ, suc, ◌≡◌, refl, Bool, false, if◌then◌else◌, Option, none, some, List, [], ◌∷◌, ◌++◌, map,
}
use chancery_integration_exa.Base58.{Text, codes}
use chancery_integration_exa.Messages.{text_equals}
use chancery_integration_exa.Settlement.{zero_address}
use chancery_integration_exa.Execution.{AccountMetaSpec}
use chancery_integration_exa.Direct.{
  DirectSettlementPolicyAccountsInput, MintDirectAccountsInput, RedeemDirectAccountsInput,
  required_meta, optional_meta, policy_positions, mint_positions, redeem_positions, event_program,
}

-- The positions, counted from the given one, at which a test holds.
abbrev pub positions_where : (AccountMetaSpec → Bool) → ℕ → List AccountMetaSpec → List ℕ
positions_where test position [] = []
positions_where test position (meta ∷ metas) =
    let more = positions_where test (suc position) metas in
    if test meta then position ∷ more else more

abbrev pub or_default : Option Text → Text
or_default none = zero_address
or_default (some address) = address

abbrev pub policy_names : List Text
policy_names =
    codes "feePolicy"
    ∷ codes "feeRecipientTokenAccount"
    ∷ codes "limitPolicy"
    ∷ codes "hourlyUsageWindow"
    ∷ codes "dailyUsageWindow"
    ∷ codes "weeklyUsageWindow"
    ∷ codes "monthlyUsageWindow"
    ∷ codes "evidencePolicy"
    ∷ codes "assetLimitPolicy"
    ∷ codes "assetDailyUsageWindow"
    ∷ codes "counterpartyLimitPolicy"
    ∷ codes "counterpartyDailyUsageWindow"
    ∷ []

abbrev pub policy_addresses : DirectSettlementPolicyAccountsInput → List Text
policy_addresses policy =
    or_default policy.fee_policy
    ∷ or_default policy.fee_recipient_token_account
    ∷ or_default policy.limit_policy
    ∷ or_default policy.hourly_usage_window
    ∷ or_default policy.daily_usage_window
    ∷ or_default policy.weekly_usage_window
    ∷ or_default policy.monthly_usage_window
    ∷ or_default policy.evidence_policy
    ∷ or_default policy.asset_limit_policy
    ∷ or_default policy.asset_daily_usage_window
    ∷ or_default policy.counterparty_limit_policy
    ∷ or_default policy.counterparty_daily_usage_window
    ∷ []

abbrev pub mint_names : List Text
mint_names =
    codes "moduleActivationState"
    ∷ codes "chanceryConfig"
    ∷ codes "eventAuthority"
    ∷ codes "pauseState"
    ∷ codes "assetConfig"
    ∷ codes "pathwayPolicy"
    ∷ codes "permissionRecord"
    ∷ codes "sourceAssetTokenAccount"
    ∷ codes "reserveAssetTokenAccount"
    ∷ codes "destinationIssuedTokenAccount"
    ∷ codes "assetMint"
    ∷ codes "issuedTokenMint"
    ∷ codes "mintAuthorityPda"
    ∷ codes "assetTokenProgram"
    ∷ codes "issuedTokenProgram"
    ∷ codes "principal"
    ∷ codes "assetPauseState"
    ∷ codes "issuedTokenControl"
    ∷ []

abbrev pub mint_addresses : MintDirectAccountsInput → List Text
mint_addresses accounts =
    accounts.module_activation_state ∷ accounts.chancery_config ∷ accounts.event_authority
    ∷ accounts.pause_state ∷ accounts.asset_config ∷ accounts.pathway_policy
    ∷ accounts.permission_record ∷ accounts.source_asset_token_account
    ∷ accounts.reserve_asset_token_account ∷ accounts.destination_issued_token_account
    ∷ accounts.asset_mint ∷ accounts.issued_token_mint ∷ accounts.mint_authority_pda
    ∷ accounts.asset_token_program ∷ accounts.issued_token_program ∷ accounts.principal
    ∷ accounts.asset_pause_state ∷ accounts.issued_token_control ∷ []

abbrev pub redeem_names : List Text
redeem_names =
    codes "moduleActivationState"
    ∷ codes "chanceryConfig"
    ∷ codes "eventAuthority"
    ∷ codes "pauseState"
    ∷ codes "assetConfig"
    ∷ codes "pathwayPolicy"
    ∷ codes "permissionRecord"
    ∷ codes "sourceIssuedTokenAccount"
    ∷ codes "reserveAssetTokenAccount"
    ∷ codes "destinationAssetTokenAccount"
    ∷ codes "assetMint"
    ∷ codes "issuedTokenMint"
    ∷ codes "reserveAuthorityPda"
    ∷ codes "assetTokenProgram"
    ∷ codes "issuedTokenProgram"
    ∷ codes "principal"
    ∷ codes "assetPauseState"
    ∷ codes "issuedTokenControl"
    ∷ []

abbrev pub redeem_addresses : RedeemDirectAccountsInput → List Text
redeem_addresses accounts =
    accounts.module_activation_state ∷ accounts.chancery_config ∷ accounts.event_authority
    ∷ accounts.pause_state ∷ accounts.asset_config ∷ accounts.pathway_policy
    ∷ accounts.permission_record ∷ accounts.source_issued_token_account
    ∷ accounts.reserve_asset_token_account ∷ accounts.destination_asset_token_account
    ∷ accounts.asset_mint ∷ accounts.issued_token_mint ∷ accounts.reserve_authority_pda
    ∷ accounts.asset_token_program ∷ accounts.issued_token_program ∷ accounts.principal
    ∷ accounts.asset_pause_state ∷ accounts.issued_token_control ∷ []

-- The accounts have these names and addresses, then those of the policies, with the default key for
-- an absent one, and last the program. The account at 15, the principal, is the only signer, and the
-- writable ones are the configuration at 1, the token accounts at 7, 8 and 9, the issued token's mint
-- at 11, the fee recipient's account at 19, and the six windows.
abbrev pub HasRoles :
    Text
    → List Text
    → List Text
    → DirectSettlementPolicyAccountsInput
    → List AccountMetaSpec
    → Type 0
HasRoles program_id names addresses policy metas =
    (map (λ meta. meta.name) metas ≡ names ++ (policy_names ++ (codes "eventProgram" ∷ [])))
    × (map (λ meta. meta.address) metas
        ≡ addresses ++ (policy_addresses policy ++ (program_id ∷ [])))
    × (positions_where (λ meta. meta.is_signer) 0 metas ≡ 15 ∷ [])
    × (positions_where (λ meta. meta.is_writable) 0 metas
        ≡ 1 ∷ 7 ∷ 8 ∷ 9 ∷ 11 ∷ 19 ∷ 21 ∷ 22 ∷ 23 ∷ 24 ∷ 27 ∷ 29 ∷ [])

optional_meta_eq :
    (name : Text) (address : Option Text) (is_writable : Bool)
    → optional_meta (name, address, is_writable) ≡ record {
      name = name;
      address = or_default address;
      is_signer = false;
      is_writable = is_writable;
    }
unfolding optional_meta
optional_meta_eq name none is_writable = refl
optional_meta_eq name (some address) is_writable = refl

pub mint_positions-HasRoles :
    (program_id : Text) (accounts : MintDirectAccountsInput)
    → HasRoles program_id mint_names (mint_addresses accounts) accounts.policy_accounts (
        map required_meta (mint_positions accounts)
        ++ (map optional_meta (policy_positions accounts.policy_accounts)
            ++ (event_program program_id ∷ [])))
unfolding mint_positions policy_positions event_program required_meta text_equals
mint_positions-HasRoles program_id accounts = simp optional_meta_eq (refl, refl, refl, refl)

pub redeem_positions-HasRoles :
    (program_id : Text) (accounts : RedeemDirectAccountsInput)
    → HasRoles program_id redeem_names (redeem_addresses accounts) accounts.policy_accounts (
        map required_meta (redeem_positions accounts)
        ++ (map optional_meta (policy_positions accounts.policy_accounts)
            ++ (event_program program_id ∷ [])))
unfolding redeem_positions policy_positions event_program required_meta text_equals
redeem_positions-HasRoles program_id accounts = simp optional_meta_eq (refl, refl, refl, refl)

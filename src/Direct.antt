-- ===== src/Direct.antt =====
-- integration/typescript/src/direct_settlement.ts and market_maker_settlement.ts: the instructions of
-- direct settlements, from the inputs of integration/typescript/src/model.ts.
pub mod Layout
pub mod Data
pub mod Accounts
use chancery_integration_exa.Common.{
  ℕ, ◌^◌, ltb, ◌==◌, if◌then◌else◌, Bool, true, false, not, ◌&&◌, ◌||◌, Option, none, some, List,
  [], ◌∷◌, ◌++◌, length, Result, ok, err, ◌>>=◌, ◌>>◌, guard, or_throw, pathway_id_length,
  not_an_integer, unsigned_range, account_positions,
}
use chancery_integration_exa.Base58.{Text, codes, assert_public_key}
use chancery_integration_exa.Messages.{text_equals}
use chancery_integration_exa.Settlement.{zero_address}
use chancery_integration_exa.Values.{strip_prefix, hex_prefix, hex_pairs, unsigned_decimal}
use chancery_integration_exa.Wire.{le_bytes}
use chancery_integration_exa.Execution.{
  AccountMetaSpec, InstructionSpec, PreparedMarketMakerSettlement, mint, redeem,
}

-- `requiredAccount`: only the principal signs.
unfoldable pub required_meta : Text × Text × Bool → AccountMetaSpec
required_meta (name, address, is_writable) = record {
  name = name;
  address = address;
  is_signer = text_equals name (codes "principal");
  is_writable = is_writable;
}

unfoldable pub required_accounts : List (Text × Text × Bool) → Result (List AccountMetaSpec)
required_accounts [] = ok []
required_accounts ((name, address, is_writable) ∷ positions) = do
  assert_public_key address false
  others ← required_accounts positions
  ok (required_meta (name, address, is_writable) ∷ others)

-- `optionalAccount`: an account that is null has the default key.
unfoldable pub optional_meta : Text × Option Text × Bool → AccountMetaSpec
optional_meta (name, none, is_writable) = record {
  name = name;
  address = zero_address;
  is_signer = false;
  is_writable = is_writable;
}
optional_meta (name, some address, is_writable) = record {
  name = name;
  address = address;
  is_signer = false;
  is_writable = is_writable;
}

unfoldable pub check_optional : Option Text → Result (Unit {0})
check_optional none = ok tt
check_optional (some address) = assert_public_key address false

unfoldable pub optional_accounts : List (Text × Option Text × Bool) → Result (List AccountMetaSpec)
optional_accounts [] = ok []
optional_accounts ((name, address, is_writable) ∷ positions) = do
  check_optional address
  others ← optional_accounts positions
  ok (optional_meta (name, address, is_writable) ∷ others)

pub record DirectSettlementPolicyAccountsInput : Type 0 where
  pub fee_policy : Option Text
  pub fee_recipient_token_account : Option Text
  pub limit_policy : Option Text
  pub hourly_usage_window : Option Text
  pub daily_usage_window : Option Text
  pub weekly_usage_window : Option Text
  pub monthly_usage_window : Option Text
  pub evidence_policy : Option Text
  pub asset_limit_policy : Option Text
  pub asset_daily_usage_window : Option Text
  pub counterparty_limit_policy : Option Text
  pub counterparty_daily_usage_window : Option Text

pub record MintDirectAccountsInput : Type 0 where
  pub module_activation_state : Text
  pub chancery_config : Text
  pub event_authority : Text
  pub pause_state : Text
  pub asset_config : Text
  pub pathway_policy : Text
  pub permission_record : Text
  pub source_asset_token_account : Text
  pub reserve_asset_token_account : Text
  pub destination_issued_token_account : Text
  pub asset_mint : Text
  pub issued_token_mint : Text
  pub mint_authority_pda : Text
  pub asset_token_program : Text
  pub issued_token_program : Text
  pub principal : Text
  pub asset_pause_state : Text
  pub issued_token_control : Text
  pub policy_accounts : DirectSettlementPolicyAccountsInput

pub record RedeemDirectAccountsInput : Type 0 where
  pub module_activation_state : Text
  pub chancery_config : Text
  pub event_authority : Text
  pub pause_state : Text
  pub asset_config : Text
  pub pathway_policy : Text
  pub permission_record : Text
  pub source_issued_token_account : Text
  pub reserve_asset_token_account : Text
  pub destination_asset_token_account : Text
  pub asset_mint : Text
  pub issued_token_mint : Text
  pub reserve_authority_pda : Text
  pub asset_token_program : Text
  pub issued_token_program : Text
  pub principal : Text
  pub asset_pause_state : Text
  pub issued_token_control : Text
  pub policy_accounts : DirectSettlementPolicyAccountsInput

-- `MintDirectOperationInput` and `RedeemDirectOperationInput`, by their accounts.
pub record DirectOperation (Accounts : Type 0) : Type 0 where
  pub pathway_id : Text
  pub amount : Text
  pub minimum_output : Text
  pub accounts : Accounts

-- `policyAccountMetas`
unfoldable pub policy_positions :
    DirectSettlementPolicyAccountsInput → List (Text × Option Text × Bool)
policy_positions policy =
    (codes "feePolicy", policy.fee_policy, false)
    ∷ (codes "feeRecipientTokenAccount", policy.fee_recipient_token_account, true)
    ∷ (codes "limitPolicy", policy.limit_policy, false)
    ∷ (codes "hourlyUsageWindow", policy.hourly_usage_window, true)
    ∷ (codes "dailyUsageWindow", policy.daily_usage_window, true)
    ∷ (codes "weeklyUsageWindow", policy.weekly_usage_window, true)
    ∷ (codes "monthlyUsageWindow", policy.monthly_usage_window, true)
    ∷ (codes "evidencePolicy", policy.evidence_policy, false)
    ∷ (codes "assetLimitPolicy", policy.asset_limit_policy, false)
    ∷ (codes "assetDailyUsageWindow", policy.asset_daily_usage_window, true)
    ∷ (codes "counterpartyLimitPolicy", policy.counterparty_limit_policy, false)
    ∷ (codes "counterpartyDailyUsageWindow", policy.counterparty_daily_usage_window, true)
    ∷ []

unfoldable pub mint_positions : MintDirectAccountsInput → List (Text × Text × Bool)
mint_positions accounts =
    (codes "moduleActivationState", accounts.module_activation_state, false)
    ∷ (codes "chanceryConfig", accounts.chancery_config, true)
    ∷ (codes "eventAuthority", accounts.event_authority, false)
    ∷ (codes "pauseState", accounts.pause_state, false)
    ∷ (codes "assetConfig", accounts.asset_config, false)
    ∷ (codes "pathwayPolicy", accounts.pathway_policy, false)
    ∷ (codes "permissionRecord", accounts.permission_record, false)
    ∷ (codes "sourceAssetTokenAccount", accounts.source_asset_token_account, true)
    ∷ (codes "reserveAssetTokenAccount", accounts.reserve_asset_token_account, true)
    ∷ (codes "destinationIssuedTokenAccount", accounts.destination_issued_token_account, true)
    ∷ (codes "assetMint", accounts.asset_mint, false)
    ∷ (codes "issuedTokenMint", accounts.issued_token_mint, true)
    ∷ (codes "mintAuthorityPda", accounts.mint_authority_pda, false)
    ∷ (codes "assetTokenProgram", accounts.asset_token_program, false)
    ∷ (codes "issuedTokenProgram", accounts.issued_token_program, false)
    ∷ (codes "principal", accounts.principal, false)
    ∷ (codes "assetPauseState", accounts.asset_pause_state, false)
    ∷ (codes "issuedTokenControl", accounts.issued_token_control, false)
    ∷ []

unfoldable pub redeem_positions : RedeemDirectAccountsInput → List (Text × Text × Bool)
redeem_positions accounts =
    (codes "moduleActivationState", accounts.module_activation_state, false)
    ∷ (codes "chanceryConfig", accounts.chancery_config, true)
    ∷ (codes "eventAuthority", accounts.event_authority, false)
    ∷ (codes "pauseState", accounts.pause_state, false)
    ∷ (codes "assetConfig", accounts.asset_config, false)
    ∷ (codes "pathwayPolicy", accounts.pathway_policy, false)
    ∷ (codes "permissionRecord", accounts.permission_record, false)
    ∷ (codes "sourceIssuedTokenAccount", accounts.source_issued_token_account, true)
    ∷ (codes "reserveAssetTokenAccount", accounts.reserve_asset_token_account, true)
    ∷ (codes "destinationAssetTokenAccount", accounts.destination_asset_token_account, true)
    ∷ (codes "assetMint", accounts.asset_mint, false)
    ∷ (codes "issuedTokenMint", accounts.issued_token_mint, true)
    ∷ (codes "reserveAuthorityPda", accounts.reserve_authority_pda, false)
    ∷ (codes "assetTokenProgram", accounts.asset_token_program, false)
    ∷ (codes "issuedTokenProgram", accounts.issued_token_program, false)
    ∷ (codes "principal", accounts.principal, false)
    ∷ (codes "assetPauseState", accounts.asset_pause_state, false)
    ∷ (codes "issuedTokenControl", accounts.issued_token_control, false)
    ∷ []

unfoldable pub without_prefix : Text → Text
without_prefix pathway_id = elim (strip_prefix hex_prefix pathway_id) [
  | none ↦ pathway_id
  | some normalized ↦ normalized
]

unfoldable pub parse_pathway_id : Text → Result (List ℕ)
parse_pathway_id pathway_id =
    guard (length (without_prefix pathway_id) == 64) pathway_id_length
    >> hex_pairs (without_prefix pathway_id)

unfoldable pub parse_unsigned_u64 : Text → Bool → Result ℕ
parse_unsigned_u64 value allow_zero = do
  parsed ← or_throw not_an_integer (unsigned_decimal value)
  guard (not ((not allow_zero && parsed == 0) || not (ltb parsed (2 ^ 64)))) unsigned_range
  ok parsed

-- `data.set` and `view.setBigUint64` fill the 50 bytes from end to end.
unfoldable pub encode_direct_settlement_data : List ℕ → Text → Text → Text → Result (List ℕ)
encode_direct_settlement_data discriminator pathway_id amount minimum_output = do
  pathway ← parse_pathway_id pathway_id
  input ← parse_unsigned_u64 amount false
  output ← parse_unsigned_u64 minimum_output true
  ok (discriminator ++ (pathway ++ (le_bytes 8 input ++ le_bytes 8 output)))

-- The account of `CHANCERY_PROGRAM_ID`, which the target in the environment selects.
unfoldable pub event_program : Text → AccountMetaSpec
event_program program_id = record {
  name = codes "eventProgram";
  address = program_id;
  is_signer = false;
  is_writable = false;
}

-- The common part of `buildMintDirectInstruction` and `buildRedeemDirectInstruction`.
unfoldable pub build_direct :
    Text
    → List ℕ
    → List (Text × Text × Bool)
    → DirectSettlementPolicyAccountsInput
    → Text
    → Text
    → Text
    → Result InstructionSpec
build_direct program_id discriminator positions policy pathway_id amount minimum_output = do
  required ← required_accounts positions
  optional ← optional_accounts (policy_positions policy)
  let metas = required ++ (optional ++ (event_program program_id ∷ []))
  guard (length metas == 31) account_positions
  data_bytes ← encode_direct_settlement_data discriminator pathway_id amount minimum_output
  ok (record { program_id = program_id; accounts = metas; data_bytes = data_bytes })

unfoldable pub build_mint_direct_instruction :
    Text → DirectOperation MintDirectAccountsInput → Result InstructionSpec
build_mint_direct_instruction program_id operation =
    build_direct program_id (4 ∷ (1 ∷ [])) (mint_positions operation.accounts)
      operation.accounts.policy_accounts operation.pathway_id operation.amount
      operation.minimum_output

unfoldable pub build_redeem_direct_instruction :
    Text → DirectOperation RedeemDirectAccountsInput → Result InstructionSpec
build_redeem_direct_instruction program_id operation =
    build_direct program_id (4 ∷ (2 ∷ [])) (redeem_positions operation.accounts)
      operation.accounts.policy_accounts operation.pathway_id operation.amount
      operation.minimum_output

unfoldable pub prepare_market_maker_mint :
    Text → DirectOperation MintDirectAccountsInput → Result PreparedMarketMakerSettlement
prepare_market_maker_mint program_id operation = do
  instruction ← build_mint_direct_instruction program_id operation
  ok (record {
    action = mint;
    principal = operation.accounts.principal;
    input_amount = operation.amount;
    minimum_output = operation.minimum_output;
    instruction = instruction;
  })

unfoldable pub prepare_market_maker_redeem :
    Text → DirectOperation RedeemDirectAccountsInput → Result PreparedMarketMakerSettlement
prepare_market_maker_redeem program_id operation = do
  instruction ← build_redeem_direct_instruction program_id operation
  ok (record {
    action = redeem;
    principal = operation.accounts.principal;
    input_amount = operation.amount;
    minimum_output = operation.minimum_output;
    instruction = instruction;
  })

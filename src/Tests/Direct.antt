-- ===== src/Tests/Direct.antt =====
-- A mint instruction of integration/typescript/src/direct_settlement.ts, built.
use chancery_integration_exa.Common.{◌≡◌, refl, none, some, [], ◌∷◌, ◌++◌, map, replicate, ok}
use chancery_integration_exa.Common.Radix.{multiply_add}
use chancery_integration_exa.Base58.{
  Text, codes, assert_public_key, integration_decode_base58, decode_characters, alphabet_index,
  leading_count, every_zero,
}
use chancery_integration_exa.Values.{
  strip_prefix, hex_pairs, hex_digit, unsigned_decimal, decimal_digits,
}
use chancery_integration_exa.Wire.{le_bytes}
use chancery_integration_exa.Execution.{InstructionSpec}
use chancery_integration_exa.Direct.{
  MintDirectAccountsInput, DirectOperation, required_meta, required_accounts, optional_meta,
  check_optional, optional_accounts, policy_positions, mint_positions, without_prefix,
  parse_pathway_id, parse_unsigned_u64, encode_direct_settlement_data, event_program, build_direct,
  build_mint_direct_instruction,
}
use chancery_integration_exa.Direct.Accounts.{mint_names, mint_addresses}
use chancery_integration_exa.Direct.Layout.{IsDirect, build_mint_direct_instruction-IsDirect}

abbrev key : Text
key = replicate 31 b'1' ++ (b'2' ∷ [])

abbrev accounts : MintDirectAccountsInput
accounts = record {
  module_activation_state = key;
  chancery_config = key;
  event_authority = key;
  pause_state = key;
  asset_config = key;
  pathway_policy = key;
  permission_record = key;
  source_asset_token_account = key;
  reserve_asset_token_account = key;
  destination_issued_token_account = key;
  asset_mint = key;
  issued_token_mint = key;
  mint_authority_pda = key;
  asset_token_program = key;
  issued_token_program = key;
  principal = key;
  asset_pause_state = key;
  issued_token_control = key;
  policy_accounts = record {
    fee_policy = some key;
    fee_recipient_token_account = none;
    limit_policy = none;
    hourly_usage_window = none;
    daily_usage_window = none;
    weekly_usage_window = none;
    monthly_usage_window = none;
    evidence_policy = none;
    asset_limit_policy = none;
    asset_daily_usage_window = none;
    counterparty_limit_policy = none;
    counterparty_daily_usage_window = none;
  };
}

abbrev operation : DirectOperation MintDirectAccountsInput
operation = record {
  pathway_id = codes "0x" ++ replicate 64 b'a';
  amount = codes "258";
  minimum_output = codes "7";
  accounts = accounts;
}

abbrev built : InstructionSpec
built = record {
  program_id = key;
  accounts =
      map required_meta (mint_positions accounts)
      ++ (map optional_meta (policy_positions accounts.policy_accounts)
          ++ (event_program key ∷ []));
  data_bytes = 4 ∷ (1 ∷ (replicate 32 170 ++ (2 ∷ (1 ∷ (replicate 6 0 ++ (7 ∷ replicate 7 0))))));
}

built_run : build_mint_direct_instruction key operation ≡ ok built
unfolding build_mint_direct_instruction build_direct encode_direct_settlement_data
    parse_unsigned_u64 parse_pathway_id without_prefix required_accounts optional_accounts
    check_optional policy_positions mint_positions assert_public_key integration_decode_base58
    decode_characters alphabet_index leading_count every_zero multiply_add strip_prefix hex_pairs
    hex_digit unsigned_decimal decimal_digits le_bytes
built_run = refl

build_mint_direct_instruction-IsDirect_example :
    IsDirect key
      (4 ∷ (1 ∷ []))
      mint_names
      (mint_addresses accounts)
      accounts.policy_accounts
      operation.pathway_id
      operation.amount
      operation.minimum_output
      built
build_mint_direct_instruction-IsDirect_example =
    build_mint_direct_instruction-IsDirect key operation built built_run

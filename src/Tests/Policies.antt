-- ===== src/Tests/Policies.antt =====
-- Runs of a settlement policy and of a mint's extensions, and their theorems.
use chancery_integration_exa.Common.{
  ℕ, ◌≡◌, ◌↔◌, refl, arith, List, [], ◌∷◌, ◌++◌, replicate, none, some, true, false, ok, err, ◌≢◌,
  stack_exhausted,
}
use chancery_integration_exa.Common.Int.{pos}
use chancery_integration_exa.Base58.{
  every_zero, KeyInput, raw, decode_key_input, decode_public_key, normalize_public_key,
  encode_base58, leading_count, letters, base58_alphabet,
}
use chancery_integration_exa.Common.Radix.{rebase, multiply_add}
use chancery_integration_exa.Wire.{decode_unsigned_integer}
use chancery_integration_exa.Messages.{text_equals}
use chancery_integration_exa.Address.{
  is_curve_point, validate_seeds, seeds_fit, concatenate, or_next, create_program_address,
  find_bump, find_program_address,
}
use chancery_integration_exa.Settlement.{delegated, has_flag, observed, in_force, zero_address}
use chancery_integration_exa.Settlement.Policies.{
  SettlementPolicy, PolicyRequest, SettlementPolicyObservation, not_in_effect, mode_value,
  is_direct, mode_mask_valid, admits, is_zero_ℤ, observe_from, observe_settlement_policy,
}
use chancery_integration_exa.Settlement.Policies.Usable.{settlement_policy_usable}
use chancery_integration_exa.Tokens.{slice_exact, read_unsigned_little_endian, byte_at}
use chancery_integration_exa.Tokens.Extensions.{
  Scanned, at_start, note_extension, take_extension, scan_extensions, check_trailing,
  decode_token2022_mint_extensions,
}
use chancery_integration_exa.Tokens.Extensions.Laid.{IsLaid, IsStop}
use chancery_integration_exa.Tokens.Extensions.Scan.{scan_extensions_fuel, mint_extensions_extent}

-- A hash that is never on the curve.
abbrev far_hash : List ℕ → List ℕ
far_hash bs = replicate 32 255

abbrev key : ℕ → KeyInput
key n = raw (replicate 32 n)

abbrev open_policy : SettlementPolicy
open_policy = record {
  policy_id = replicate 32 3;
  bump = 255;
  policy_flags = 0;
  allowed_settlement_modes = 2;
  allowed_asset_mint = zero_address;
  allowed_principal_a = zero_address;
  allowed_principal_b = zero_address;
  designated_executor = zero_address;
  min_notional = 5;
  max_notional = 50;
  valid_after = pos 10;
  expires_at = pos 20;
}

abbrev late_request : PolicyRequest
late_request = record {
  mode = delegated;
  asset_mint = key 1;
  principal_a = key 2;
  principal_b = key 3;
  executor = key 4;
  input_notional = pos 30;
  now = pos 20;
  expected_address = key 255;
  expected_bump = 255;
}

abbrev late_observation : SettlementPolicyObservation
late_observation = record { usable = false; observations = not_in_effect ∷ [] }

late_observed :
    observe_settlement_policy far_hash (key 9) open_policy late_request ≡ ok late_observation
unfolding observe_settlement_policy find_program_address find_bump create_program_address
    validate_seeds seeds_fit concatenate is_curve_point decode_unsigned_integer or_next
    normalize_public_key decode_public_key decode_key_input observe_from text_equals every_zero
    mode_value is_direct mode_mask_valid admits is_zero_ℤ has_flag observed in_force encode_base58
    leading_count letters rebase multiply_add base58_alphabet
late_observed = refl

settlement_policy_usable_example :
    (late_observation.usable ≡ true) ↔ (late_observation.observations ≡ [])
settlement_policy_usable_example =
    settlement_policy_usable far_hash (key 9) open_policy late_request late_observation
      late_observed

-- A mint with one extension of an unknown type, of 3 bytes, and a zero byte behind it.
abbrev mint_bytes : List ℕ
mint_bytes = replicate 165 0 ++ (1 ∷ (5 ∷ (0 ∷ (3 ∷ (0 ∷ (8 ∷ (8 ∷ (8 ∷ (0 ∷ [])))))))))

abbrev one_extension : Scanned
one_extension = record {
  cursor = 173;
  extensions = record { extension_type = 5; byte_length = 3; value = 8 ∷ (8 ∷ (8 ∷ [])) } ∷ [];
  transfer_fee_config = none;
  transfer_hook_program_address = none;
  has_unmodeled_transfer_behavior = false;
}

mint_decoded : decode_token2022_mint_extensions mint_bytes ≡ ok (some 1, one_extension)
unfolding decode_token2022_mint_extensions scan_extensions take_extension note_extension
    check_trailing read_unsigned_little_endian slice_exact decode_unsigned_integer byte_at
    every_zero
mint_decoded = refl

mint_extensions_extent_example :
    IsLaid mint_bytes 166 one_extension.extensions 173 × IsStop mint_bytes 173
mint_extensions_extent_example = mint_extensions_extent mint_bytes 1 one_extension mint_decoded

scan_extensions_fuel_example :
    (scan_extensions 10 mint_bytes (at_start 166) ≢ err stack_exhausted)
    × (scan_extensions 11 mint_bytes (at_start 166) ≡ scan_extensions 10 mint_bytes (at_start 166))
scan_extensions_fuel_example = scan_extensions_fuel 9 mint_bytes (at_start 166) (omega arith)

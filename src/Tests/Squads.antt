-- ===== src/Tests/Squads.antt =====
-- A vault transaction message, encoded and decoded, and the accounts of its execution.
use chancery_integration_exa.Common.{
  ℕ, ◌≡◌, refl, true, false, List, [], ◌∷◌, ◌++◌, replicate, All, ok,
}
use chancery_integration_exa.Base58.{
  Text, text, normalize_public_key, decode_public_key, decode_key_input, decode_base58,
  leading_count, decode_characters, alphabet_index, encode_base58, letters,
}
use chancery_integration_exa.Common.Radix.{multiply_add, rebase}
use chancery_integration_exa.Messages.{text_equals}
use chancery_integration_exa.Values.{is_safe_integer}
use chancery_integration_exa.Wire.{le_bytes}
use chancery_integration_exa.Transactions.{
  AccountMeta, encode_short_vector_length, short_vector_loop,
}
use chancery_integration_exa.Transactions.Maps.{has_address}
use chancery_integration_exa.Squads.{
  unsigned_integer_from_value, encode_unsigned_input, encode_u8, encode_u16,
}
use chancery_integration_exa.Squads.Message.{SquadsMessage, read_short_vector_length}
use chancery_integration_exa.Squads.Validate.{
  assert_u8, assert_u16, assert_all_u8, validate_keys, validate_lookups, validate_indexes,
  validate_instructions, validate_header, validate_squads_vault_transaction_message,
}
use chancery_integration_exa.Squads.Encode.{
  byte_array, encode_all, encode_key, encode_instruction, encode_lookup, message_parts,
  encode_squads_vault_transaction_message,
}
use chancery_integration_exa.Squads.Decode.{decode_squads_vault_transaction_message}
use chancery_integration_exa.Squads.RoundTrip.{decode_message-encode_message}
use chancery_integration_exa.Squads.ShortVector.{
  read_short_vector_length-encode_short_vector_length,
}
use chancery_integration_exa.Squads.Compile.{check_vault_payer, first_key_is}
use chancery_integration_exa.Squads.Execute.{
  ExecuteRequest, ephemeral_signers, tables_by_address, table_metas, static_metas, lookup_metas,
  resolve_execute_accounts, IsUnsignedFor, resolve_execute_accounts_vault,
}

abbrev key : ℕ → Text
key c = replicate 31 b'1' ++ (c ∷ [])

abbrev key_of : ℕ → List ℕ
key_of n = replicate 31 0 ++ (n ∷ [])

abbrev vault_message : SquadsMessage
vault_message = record {
  num_signers = 1;
  num_writable_signers = 1;
  num_writable_non_signers = 0;
  account_keys = key b'2' ∷ (key b'3' ∷ []);
  instructions =
      record { program_id_index = 1; account_indexes = 0 ∷ []; data_bytes = 9 ∷ [] } ∷ [];
  address_table_lookups = [];
}

abbrev vault_bytes : List ℕ
vault_bytes =
    1
    ∷ (1
        ∷ (0
            ∷ (2 ∷ (key_of 1 ++ (key_of 2 ++ (1 ∷ (1 ∷ (1 ∷ (0 ∷ (1 ∷ (0 ∷ (9 ∷ (0 ∷ [])))))))))))))

encoded_run : encode_squads_vault_transaction_message vault_message ≡ ok vault_bytes
unfolding encode_squads_vault_transaction_message message_parts encode_lookup encode_instruction
    encode_key encode_all byte_array validate_squads_vault_transaction_message validate_header
    validate_instructions validate_indexes validate_lookups validate_keys assert_all_u8 assert_u16
    assert_u8 encode_u16 encode_u8 encode_unsigned_input unsigned_integer_from_value le_bytes
    is_safe_integer normalize_public_key decode_public_key decode_key_input decode_base58
    leading_count decode_characters alphabet_index multiply_add encode_base58 letters rebase
encoded_run = refl

decode_message-encode_message_example :
    decode_squads_vault_transaction_message vault_bytes ≡ ok vault_message
decode_message-encode_message_example =
    decode_message-encode_message vault_message vault_bytes encoded_run

length_run : encode_short_vector_length 300 ≡ ok (172 ∷ (2 ∷ []))
unfolding encode_short_vector_length short_vector_loop
length_run = refl

read_short_vector_length-encode_short_vector_length_example :
    read_short_vector_length (172 ∷ (2 ∷ (5 ∷ []))) ≡ ok (300, 5 ∷ [])
read_short_vector_length-encode_short_vector_length_example =
    read_short_vector_length-encode_short_vector_length 300 (172 ∷ (2 ∷ [])) length_run (5 ∷ [])

abbrev request : ExecuteRequest
request = record {
  message = vault_message;
  vault_address = text (key b'2');
  transaction_address = text (key b'4');
  ephemeral_signer_count = 0;
  address_lookup_tables = [];
  program_address = text (key b'5');
}

abbrev execute_accounts : List AccountMeta
execute_accounts =
    record { address = key b'2'; is_signer = false; is_writable = true }
    ∷ (record { address = key b'3'; is_signer = false; is_writable = false } ∷ [])

vault_run : normalize_public_key (text (key b'2')) ≡ ok (key b'2')
unfolding normalize_public_key decode_public_key decode_key_input decode_base58 leading_count
    decode_characters alphabet_index multiply_add encode_base58 letters rebase
vault_run = refl

execute_run : resolve_execute_accounts (λ bytes. bytes) request ≡ ok execute_accounts
unfolding resolve_execute_accounts lookup_metas static_metas table_metas tables_by_address
    ephemeral_signers check_vault_payer first_key_is has_address text_equals
    validate_squads_vault_transaction_message validate_header validate_instructions validate_indexes
    validate_lookups validate_keys assert_all_u8 assert_u16 assert_u8 normalize_public_key
    decode_public_key decode_key_input decode_base58 leading_count decode_characters alphabet_index
    multiply_add encode_base58 letters rebase
execute_run = refl

resolve_execute_accounts_vault_example : All (IsUnsignedFor (key b'2')) execute_accounts
resolve_execute_accounts_vault_example =
    resolve_execute_accounts_vault (λ bytes. bytes) request (key b'2') execute_accounts vault_run
      execute_run

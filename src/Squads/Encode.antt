-- ===== src/Squads/Encode.antt =====
-- typescript/src/squads/SquadsVaultMessage.ts: `encodeSquadsVaultTransactionMessage`.
use chancery_integration_exa.Common.{
  ℕ, ◌%◌, List, [], ◌∷◌, ◌++◌, map, length, Result, ok, ◌>>=◌, ◌>>◌,
}
use chancery_integration_exa.Common.Int.{pos}
use chancery_integration_exa.Base58.{text, decode_public_key}
use chancery_integration_exa.Squads.{whole, encode_u8, encode_u16}
use chancery_integration_exa.Base58.{Text}
use chancery_integration_exa.Squads.Message.{SquadsInstruction, SquadsLookup, SquadsMessage}
use chancery_integration_exa.Squads.Validate.{validate_squads_vault_transaction_message}

-- `new Uint8Array(numbers)` keeps the low byte of each.
unfoldable pub byte_array : List ℕ → List ℕ
byte_array numbers = map (λ (n : ℕ). n % 256) numbers

unfoldable pub encode_all {ℓ} : {A : Type ℓ} → (A → Result (List ℕ)) → List A → Result (List ℕ)
encode_all encode [] = ok []
encode_all encode (a ∷ others) = do
  part ← encode a
  following ← encode_all encode others
  ok (part ++ following)

abbrev pub length_u8 {ℓ} : {A : Type ℓ} → List A → Result (List ℕ)
length_u8 list = encode_u8 (whole (pos (length list)))

unfoldable pub encode_key : Text → Result (List ℕ)
encode_key address = decode_public_key (text address)

unfoldable pub encode_instruction : SquadsInstruction → Result (List ℕ)
encode_instruction instruction = do
  program ← encode_u8 (whole (pos instruction.program_id_index))
  count ← length_u8 instruction.account_indexes
  data_length ← encode_u16 (whole (pos (length instruction.data_bytes)))
  ok (
      program
      ++ (count
          ++ (byte_array instruction.account_indexes ++ (data_length ++ instruction.data_bytes))))

unfoldable pub encode_lookup : SquadsLookup → Result (List ℕ)
encode_lookup lookup = do
  key ← encode_key lookup.account_key
  writable_count ← length_u8 lookup.writable_indexes
  readonly_count ← length_u8 lookup.readonly_indexes
  ok (
      key
      ++ (writable_count
          ++ (byte_array lookup.writable_indexes
              ++ (readonly_count ++ byte_array lookup.readonly_indexes))))

-- `encodeSquadsVaultTransactionMessage` behind its validation.
unfoldable pub message_parts : SquadsMessage → Result (List ℕ)
message_parts message = do
  signers ← encode_u8 (whole (pos message.num_signers))
  writable_signers ← encode_u8 (whole (pos message.num_writable_signers))
  writable_others ← encode_u8 (whole (pos message.num_writable_non_signers))
  key_count ← length_u8 message.account_keys
  keys ← encode_all encode_key message.account_keys
  instruction_count ← length_u8 message.instructions
  instructions ← encode_all encode_instruction message.instructions
  lookup_count ← length_u8 message.address_table_lookups
  lookups ← encode_all encode_lookup message.address_table_lookups
  ok (
      signers
      ++ (writable_signers
          ++ (writable_others
              ++ (key_count
                  ++ (keys
                      ++ (instruction_count ++ (instructions ++ (lookup_count ++ lookups))))))))

unfoldable pub encode_squads_vault_transaction_message : SquadsMessage → Result (List ℕ)
encode_squads_vault_transaction_message message =
    validate_squads_vault_transaction_message message >> message_parts message

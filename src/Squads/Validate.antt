-- ===== src/Squads/Validate.antt =====
-- typescript/src/squads/SquadsVaultMessage.ts: `validateSquadsVaultTransactionMessage`.
use chancery_integration_exa.Common.{
  ℕ, ◌+◌, ◌-◌, ltb, leb, List, [], ◌∷◌, length, Result, ok, ◌>>=◌, ◌>>◌, guard, not_u8, not_u16,
  too_many_writable_signers, too_many_signers, too_many_writable_keys, total_keys, static_program,
  account_index_range,
}
use chancery_integration_exa.Base58.{text, normalize_public_key}
use chancery_integration_exa.Base58.{Text}
use chancery_integration_exa.Squads.Message.{SquadsInstruction, SquadsLookup, SquadsMessage}

unfoldable pub assert_u8 : ℕ → Result (Unit {0})
assert_u8 value = guard (leb value 255) not_u8

unfoldable pub assert_u16 : ℕ → Result (Unit {0})
assert_u16 value = guard (leb value 65535) not_u16

unfoldable pub assert_all_u8 : List ℕ → Result (Unit {0})
assert_all_u8 [] = ok tt
assert_all_u8 (value ∷ values) = assert_u8 value >> assert_all_u8 values

-- The loop over the account keys.
unfoldable pub validate_keys : List Text → Result (Unit {0})
validate_keys [] = ok tt
validate_keys (address ∷ addresses) = do
  normalized ← normalize_public_key (text address)
  validate_keys addresses

-- The loop over the lookups, with `loadedAccountCount`.
unfoldable pub validate_lookups : List SquadsLookup → ℕ → Result ℕ
validate_lookups [] loaded = ok loaded
validate_lookups (lookup ∷ lookups) loaded = do
  normalized ← normalize_public_key (text lookup.account_key)
  assert_u8 (length lookup.writable_indexes)
  assert_u8 (length lookup.readonly_indexes)
  assert_all_u8 lookup.writable_indexes
  assert_all_u8 lookup.readonly_indexes
  validate_lookups lookups
      (loaded + (length lookup.writable_indexes + length lookup.readonly_indexes))

unfoldable pub validate_indexes : ℕ → List ℕ → Result (Unit {0})
validate_indexes total [] = ok tt
validate_indexes total (index ∷ indexes) =
    assert_u8 index >> guard (ltb index total) account_index_range >> validate_indexes total indexes

-- The loop over the instructions.
unfoldable pub validate_instructions : ℕ → ℕ → List SquadsInstruction → Result (Unit {0})
validate_instructions static total [] = ok tt
validate_instructions static total (instruction ∷ instructions) = do
  assert_u8 instruction.program_id_index
  guard (ltb instruction.program_id_index static) static_program
  assert_u8 (length instruction.account_indexes)
  assert_u16 (length instruction.data_bytes)
  validate_indexes total instruction.account_indexes
  validate_instructions static total instructions

-- The checks before the loops.
unfoldable pub validate_header : SquadsMessage → Result (Unit {0})
validate_header message = do
  assert_u8 message.num_signers
  assert_u8 message.num_writable_signers
  assert_u8 message.num_writable_non_signers
  assert_u8 (length message.account_keys)
  assert_u8 (length message.instructions)
  assert_u8 (length message.address_table_lookups)
  guard (leb message.num_writable_signers message.num_signers) too_many_writable_signers
  guard (leb message.num_signers (length message.account_keys)) too_many_signers
  guard (leb message.num_writable_non_signers (length message.account_keys - message.num_signers))
      too_many_writable_keys

unfoldable pub validate_squads_vault_transaction_message : SquadsMessage → Result (Unit {0})
validate_squads_vault_transaction_message message = do
  validate_header message
  validate_keys message.account_keys
  loaded ← validate_lookups message.address_table_lookups 0
  guard (leb (length message.account_keys + loaded) 256) total_keys
  validate_instructions (length message.account_keys) (length message.account_keys + loaded)
      message.instructions
